-- ===== src/Session/Kept.antt =====
-- The relation between the sessions before and behind a run that keeps the connection's id, its
-- table of callbacks and the count of the bytes that are done (http-parser/src/parser.c), and how it
-- passes through the tests and binds of a run.
use http_library.Prelude.{ℕ, ◌≡◌, refl, Bool, true, false, Option, none, some, arith, if◌then◌else◌}
use http_library.Memory.{Run, ok, fault, ◌>>=◌, ◌>>◌}
use http_library.HttpParser.{ParserType, http_request, http_response, http_both}
use http_library.Zlib.{ZCode, z_ok, z_stream_end, z_error}
use http_library.Session.{ContentEncoding, identity, deflate, gzip, Session}

module _ {P Z World : Type 0} where
  pub record Frame (s t : Session P Z World) : Type 0 where
    pub id : t.id ≡ s.id
    pub callbacks : t.callbacks ≡ s.callbacks
    pub done : t.done ≡ s.done

  abbrev pub Kept : {A : Type 0} → Session P Z World → Run (A × Session P Z World) → Type 0
  Kept s (ok (a, t)) = Frame s t
  Kept s (fault e) = Unit

  pub Frame-refl : (s : Session P Z World) → Frame s s
  Frame-refl s = record { id = refl; callbacks = refl; done = refl }

  pub Frame-trans : (s t u : Session P Z World) → Frame s t → Frame t u → Frame s u
  Frame-trans s t u f g = ground arith

  -- A change of other fields in front of a run.
  pub Kept-before :
      {A : Type 0} (s t : Session P Z World) (r : Run (A × Session P Z World))
      → Frame s t
      → Kept t r
      → Kept s r
  Kept-before s t (ok (a, u)) f k = Frame-trans s t u f k
  Kept-before s t (fault e) f k = tt

  pub Kept-bind :
      {A B : Type 0} (s : Session P Z World) (r : Run (A × Session P Z World))
      (k : A × Session P Z World → Run (B × Session P Z World))
      → Kept s r
      → ((a : A) (t : Session P Z World) → Frame s t → Kept s (k (a, t)))
      → Kept s (r >>= k)
  Kept-bind s (ok (a, t)) k f next = next a t f
  Kept-bind s (fault e) k f next = tt

  pub Kept-run :
      {A B : Type 0} (s : Session P Z World) (r : Run A) (k : A → Run (B × Session P Z World))
      → ((a : A) → Kept s (k a))
      → Kept s (r >>= k)
  Kept-run s (ok a) k next = next a
  Kept-run s (fault e) k next = tt

  pub Kept-if :
      {A : Type 0} (s : Session P Z World) (b : Bool) (r q : Run (A × Session P Z World))
      → Kept s r
      → Kept s q
      → Kept s (if b then r else q)
  Kept-if s true r q f g = f
  Kept-if s false r q f g = g

  pub Kept-option :
      {A B : Type 0} (s : Session P Z World) (o : Option B) (r : Run (A × Session P Z World))
      (k : B → Run (A × Session P Z World))
      → Kept s r
      → ((b : B) → Kept s (k b))
      → Kept s (elim o as (λ _. Run (A × Session P Z World)) [ none ↦ r | some b ↦ k b ])
  Kept-option s none r k f g = f
  Kept-option s (some b) r k f g = g b

  pub Kept-code :
      {A : Type 0} (s : Session P Z World) (c : ZCode) (r q : Run (A × Session P Z World))
      (k : ℕ → Run (A × Session P Z World))
      → Kept s r
      → Kept s q
      → ((n : ℕ) → Kept s (k n))
      → Kept s (elim c as (λ _. Run (A × Session P Z World)) [
        | z_ok ↦ r
        | z_stream_end ↦ q
        | z_error n ↦ k n
      ])
  Kept-code s z_ok r q k f g h = f
  Kept-code s z_stream_end r q k f g h = g
  Kept-code s (z_error n) r q k f g h = h n

  pub Kept-encoding :
      {A : Type 0} (s : Session P Z World) (c : ContentEncoding)
      (r q p : Run (A × Session P Z World))
      → Kept s r
      → Kept s q
      → Kept s p
      → Kept s
          (elim c as (λ _. Run (A × Session P Z World)) [ identity ↦ r | deflate ↦ q | gzip ↦ p ])
  Kept-encoding s identity r q p f g h = f
  Kept-encoding s deflate r q p f g h = g
  Kept-encoding s gzip r q p f g h = h

  pub Kept-type :
      {A : Type 0} (s : Session P Z World) (c : ParserType) (r q p : Run (A × Session P Z World))
      → Kept s r
      → Kept s q
      → Kept s p
      → Kept s (elim c as (λ _. Run (A × Session P Z World)) [
        | http_request ↦ r
        | http_response ↦ q
        | http_both ↦ p
      ])
  Kept-type s http_request r q p f g h = f
  Kept-type s http_response r q p f g h = g
  Kept-type s http_both r q p f g h = h

  pub Kept-after :
      (s : Session P Z World) (d : Run (Unit {0})) (t : Session P Z World)
      → Frame s t
      → Kept {A = ℕ} s ((d >> ok t) >>= (λ u. ok (0, u)))
  Kept-after s (ok a) t f = f
  Kept-after s (fault e) t f = tt
