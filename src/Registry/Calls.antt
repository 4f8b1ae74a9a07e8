-- ===== src/Registry/Calls.antt =====
-- `parser_input` and `parser_disconnect` on the connection at an address (http-parser/src/parser.c),
-- and what they leave of the map from ids to connections.
use http_library.Prelude.{
  ℕ, ◌+◌, ◌≡◌, refl, ◌∙◌, true, false, some, List, [], ◌∷◌, arith, drop, Bool, if◌then◌else◌,
}
use http_library.Memory.{Run, ok, fault, ◌>>=◌}
use http_library.HttpParser.{HttpParser}
use http_library.Zlib.{Zlib}
use http_library.Session.{
  Direction, direction_in, direction_out, ConnectionContext, Session, set_error,
}
use http_library.Session.Input.{
  prepare, input_error, run_exec, input_loop, parser_input, parser_disconnect, with_done,
}
use http_library.Session.Inflate.{message_inflate_end}
use http_library.Session.Kept.{Kept}
use http_library.Session.Frame.{run_exec-Kept}
use http_library.Registry.{ParserContext, contents, store}
use http_library.Registry.Buckets.{has_id_live, find-has_id}
use http_library.Registry.Lookup.{lookup, IsWellFormed, renewed}

module _ {P Z World : Type 0} ⦃http : HttpParser P⦄ ⦃zlib : Zlib Z⦄ where
  -- The state behind a call on the connection.
  abbrev pub put_back :
      ParserContext P Z World → ℕ → ℕ × Session P Z World → ℕ × ParserContext P Z World × World
  put_back c a (r, s) = (r, store c a (some s.context), s.world)

  unfoldable pub input_at :
      ParserContext P Z World
      → ℕ
      → Direction
      → List ℕ
      → World
      → Run (ℕ × ParserContext P Z World × World)
  input_at c a direction bytes world = do
    context ← contents (c.cells a)
    answer ← parser_input direction bytes (record { context = context; world = world })
    ok (put_back c a answer)

  unfoldable pub disconnect_at :
      ParserContext P Z World → ℕ → Direction → World → Run (ℕ × ParserContext P Z World × World)
  disconnect_at c a direction world = do
    context ← contents (c.cells a)
    ok (put_back c a (parser_disconnect direction (record { context = context; world = world })))

  -- A run that keeps the connection's id.
  unfoldable KeepsId : ℕ → Run (ℕ × Session P Z World) → Type 0
  KeepsId id (ok (r, t)) = t.id ≡ id
  KeepsId id (fault e) = Unit

  KeepsId-ok : (id r : ℕ) (t : Session P Z World) → t.id ≡ id → KeepsId id (ok (r, t))
  unfolding KeepsId
  KeepsId-ok id r t same = same

  KeepsId-bind :
      (id : ℕ) (s : Session P Z World) (r : Run (ℕ × Session P Z World))
      (k : ℕ × Session P Z World → Run (ℕ × Session P Z World))
      → s.id ≡ id
      → Kept s r
      → ((a : ℕ) (t : Session P Z World) → t.id ≡ id → KeepsId id (k (a, t)))
      → KeepsId id (r >>= k)
  unfolding KeepsId
  KeepsId-bind id s (ok (a, t)) k here f next = next a t (f.id ∙ here)
  KeepsId-bind id s (fault e) k here f next = tt

  KeepsId-if :
      (id : ℕ) (b : Bool) (r q : Run (ℕ × Session P Z World))
      → KeepsId id r
      → KeepsId id q
      → KeepsId id (if b then r else q)
  KeepsId-if id true r q f g = f
  KeepsId-if id false r q f g = g

  input_error-id : (s : Session P Z World) → (input_error s).1.id ≡ s.id
  unfolding input_error set_error
  input_error-id s = ground arith

  prepare-id : (direction : Direction) (s : Session P Z World) → (prepare direction s).id ≡ s.id
  unfolding prepare
  prepare-id d s = ground arith

  input_loop-KeepsId :
      (bytes : List ℕ) (id : ℕ) (s : Session P Z World)
      → s.id ≡ id
      → KeepsId id (input_loop bytes s)
  unfolding input_loop
  input_loop-KeepsId [] id s here = KeepsId-ok id _ s here
  input_loop-KeepsId (b ∷ rest) id s here =
      KeepsId-if id _ _ _ (KeepsId-ok id _ _ (input_error-id s ∙ here)) (
        KeepsId-bind id s (run_exec (http.execute s.parser (b ∷ [])) s) _ here
          (run_exec-Kept (http.execute s.parser (b ∷ [])) s)
          (λ r t same. input_loop-KeepsId rest id (with_done t (t.done + 1)) same))

  parser_input-KeepsId :
      (direction : Direction) (bytes : List ℕ) (s : Session P Z World)
      → KeepsId s.id (parser_input direction bytes s)
  unfolding parser_input
  parser_input-KeepsId direction bytes s =
      let t = prepare direction (with_done s 0) in
      KeepsId-bind s.id t (run_exec (http.execute t.parser bytes) t) _
        (prepare-id direction (with_done s 0)) (run_exec-Kept (http.execute t.parser bytes) t)
        (λ n u same. input_loop-KeepsId (drop n bytes) s.id (with_done u n) same)

  disconnect-id :
      (direction : Direction) (s : Session P Z World) → (parser_disconnect direction s).1.id ≡ s.id
  unfolding parser_disconnect message_inflate_end
  disconnect-id direction_in s = refl
  disconnect-id direction_out s = ground arith

  -- The same map from ids to connections, in a well-formed context.
  pub record IsSame (c d : ParserContext P Z World) : Type 0 where
    pub formed : IsWellFormed d
    pub found : (n : ℕ) → lookup d n ≡ lookup c n

  abbrev pub Stays : ParserContext P Z World → Run (ℕ × ParserContext P Z World × World) → Type 0
  Stays c (ok (r, d, w)) = IsSame c d
  Stays c (fault e) = Unit

  put_back-IsSame :
      (c : ParserContext P Z World) (a : ℕ) (context : ConnectionContext P Z World)
      (s : Session P Z World)
      → IsWellFormed c
      → c.cells a ≡ some context
      → s.id ≡ context.id
      → IsSame c (store c a (some s.context))
  put_back-IsSame c a context s h live same =
      let r = renewed c a context s.context h live same in record { formed = r.0; found = r.1 }

  answered-Stays :
      (c : ParserContext P Z World) (a : ℕ) (context : ConnectionContext P Z World)
      (answer : Run (ℕ × Session P Z World))
      → IsWellFormed c
      → c.cells a ≡ some context
      → KeepsId context.id answer
      → Stays c (answer >>= λ x. ok (put_back c a x))
  unfolding KeepsId
  answered-Stays c a context (ok (r, t)) h live same = put_back-IsSame c a context t h live same
  answered-Stays c a context (fault e) h live same = tt

  -- An input that does not fault, to a connection that an id finds on a well-formed parser context,
  -- changes no lookup, and leaves the context well-formed.
  pub input_at-Stays :
      (c : ParserContext P Z World) (id a : ℕ) (direction : Direction) (bytes : List ℕ)
      (world : World)
      → IsWellFormed c
      → lookup c id ≡ some a
      → Stays c (input_at c a direction bytes world)
  unfolding input_at
  input_at-Stays c id a direction bytes world h there =
      let (context, live, _) = has_id_live (c.cells a) id (find-has_id c.cells id a _ there) in
      let s : Session P Z World = record { context = context; world = world } in
      rw live (
        answered-Stays c a context (parser_input direction bytes s) h live
          (parser_input-KeepsId direction bytes s))

  -- A disconnect of a connection that an id finds on a well-formed parser context returns, changes no
  -- lookup, and leaves the context well-formed.
  pub disconnect_at-IsSame :
      (c : ParserContext P Z World) (id a : ℕ) (direction : Direction) (world : World)
      → IsWellFormed c
      → lookup c id ≡ some a
      → (r : ℕ) × (d : ParserContext P Z World) × (w : World) × (disconnect_at c a direction world
          ≡ ok (r, d, w))
        × IsSame c d
  unfolding disconnect_at
  disconnect_at-IsSame c id a direction world h there =
      let (context, live, _) = has_id_live (c.cells a) id (find-has_id c.cells id a _ there) in
      let s : Session P Z World = record { context = context; world = world } in
      let (r, t) = parser_disconnect direction s in
      (
        r,
        store c a (some t.context),
        t.world,
        rw live refl,
        put_back-IsSame c a context t h live (disconnect-id direction s),
      )
