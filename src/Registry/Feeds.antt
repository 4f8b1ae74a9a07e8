-- ===== src/Registry/Feeds.antt =====
-- What a connection goes through, from `parser_connect` on: inputs, disconnects, and what other
-- connections do to the user's world in between (http-parser/src/parser.c).
use mathlib.Core.Path.{subst}
use http_library.Prelude.{ℕ, ◌≡◌, refl, sym, ap, ◌∙◌, Bool, true, false, Option, List}
use http_library.Memory.{Run, ok, fault}
use http_library.Message.{HttpMessage}
use http_library.HttpParser.{HttpParser, http_both}
use http_library.Zlib.{Zlib}
use http_library.Message.View.{MessageView}
use http_library.Session.{Callbacks, Direction, Session}
use http_library.Session.Handlers.{parser_reset, parser_reset_state}
use http_library.Session.Input.{parser_input, parser_disconnect}
use http_library.Session.Protocol.{Phase, idle, first_line, in_name, in_value, in_body, IsOrderly}
use http_library.Session.Safety.{Shape, IsSound, IsGentle}
use http_library.Session.Safety.Runs.{restarts, parser_input-IsSafe, parser_disconnect-IsSound}
use http_library.Registry.{new_context}

module _ {P Z World : Type 0} ⦃http : HttpParser P⦄ ⦃zlib : Zlib Z⦄ (c : Callbacks World)
    (knows : MessageView → World → Type 0) where
  -- The connections that a client comes to which gives no input, where the parser starts anew, and no
  -- disconnect while a header name is open.
  pub data IsFed : Session P Z World → Type 0 where
    connected :
        {s : Session P Z World} (p : P) (id : ℕ) (w : World)
        → parser_reset (record { context = new_context p id c; world = w }) ≡ ok s
        → IsFed s
    given :
        {s t : Session P Z World} {n : ℕ} (direction : Direction) (bytes : List ℕ)
        → IsFed s
        → (restarts s ≡ true → s.in_field ≡ false)
        → parser_input direction bytes s ≡ ok (n, t)
        → IsFed t
    disconnected :
        {s t : Session P Z World} (direction : Direction)
        → IsFed s
        → s.in_field ≡ false
        → (parser_disconnect direction s).1 ≡ t
        → IsFed t
    elsewhere :
        {s t : Session P Z World} (w : World)
        → IsFed s
        → ((v : MessageView) → knows v s.world → knows v w)
        → record s { world = w } ≡ t
        → IsFed t

module _ {World : Type 0} (knows : MessageView → World → Type 0) where
  other_world :
      (phase : Phase) (m : Option HttpMessage) (b : Bool) (w u : World)
      → ((v : MessageView) → knows v w → knows v u)
      → Shape knows phase m b w
      → Shape knows phase m b u
  other_world idle m b w u keeps shape = shape
  other_world (first_line n) m b w u keeps shape = shape
  other_world (in_name n) m b w u keeps shape = shape
  other_world (in_value n) m b w u keeps shape = shape
  other_world (in_body n) m b w u keeps (v, x, known) = (v, x, keeps v known)

module _ {P Z World : Type 0} where
  -- The session of a result.
  abbrev session_of : Session P Z World → Run (Session P Z World) → Session P Z World
  session_of s (ok t) = t
  session_of s (fault e) = s

  abbrev answered : Session P Z World → Run (ℕ × Session P Z World) → Session P Z World
  answered s (ok (n, t)) = t
  answered s (fault e) = s

module _ {P Z World : Type 0} ⦃http : HttpParser P⦄ ⦃zlib : Zlib Z⦄ (c : Callbacks World)
    (knows : MessageView → World → Type 0) (extra : ℕ) (phase_of : P → Phase)
    (gentle : IsGentle c knows extra) (orderly : IsOrderly extra phase_of) where
  -- Every such connection keeps the invariant of the phase in which its parser stands.
  IsFed-IsSound : (s : Session P Z World) → IsFed c knows s → IsSound c knows (phase_of s.parser) s
  unfolding parser_reset parser_reset_state
  IsFed-IsSound t (connected p id w e) =
      let new : Session P Z World = record {
        context = record (new_context p id c) { parser = http.init p http_both };
        world = w;
      } in
      let sound : IsSound c knows (phase_of new.parser) new =
        rw (orderly.initialised p http_both) (record { shape = refl; plain = refl; own = refl }) in
      subst (λ s. IsSound c knows (phase_of s.parser) s) (ap (session_of new) e) sound
  IsFed-IsSound t (given {s = s} direction bytes fed closed e) =
      let x =
        parser_input-IsSafe c knows extra gentle phase_of orderly direction bytes s
          (IsFed-IsSound s fed) closed in
      subst (λ u. IsSound c knows (phase_of u.parser) u) (ap (answered s) (sym x.returns ∙ e))
        x.sound
  IsFed-IsSound t (disconnected {s = s} direction fed closed e) =
      subst (λ u. IsSound c knows (phase_of u.parser) u) e
        (parser_disconnect-IsSound c knows extra gentle phase_of orderly direction s
          (IsFed-IsSound s fed) closed)
  IsFed-IsSound t (elsewhere {s = s} w fed keeps e) =
      let old = IsFed-IsSound s fed in
      subst (λ u. IsSound c knows (phase_of u.parser) u) e
        (record {
          shape =
              other_world knows (phase_of s.parser) s.message s.in_field s.world w keeps old.shape;
          plain = old.plain;
          own = old.own;
        })

  -- An input to a connection returns with no fault, where the connection came from `parser_connect`
  -- by inputs and disconnects, and by what other connections did that keeps what the user's world knows
  -- of the message, if no header name is open at an input where the parser starts anew, this one
  -- included, nor where a side disconnects. It is asked that the Node.js parser reports the events of a
  -- message in their order, with texts free of NUL, with the first piece of each header
  -- name not empty, with less than 2^32 header fields, those that the
  -- user adds included, and with the message's type known when its head ends; and that the user's
  -- callbacks leave a message with texts free of NUL, and do not ask for decoding. The connection
  -- behind the input is one of these again.
  pub IsFed-returns :
      (s : Session P Z World) (direction : Direction) (bytes : List ℕ)
      → IsFed c knows s
      → (restarts s ≡ true → s.in_field ≡ false)
      → (n : ℕ) × (t : Session P Z World) × (parser_input direction bytes s ≡ ok (n, t))
        × IsFed c knows t
  IsFed-returns s direction bytes fed closed =
      let x =
        parser_input-IsSafe c knows extra gentle phase_of orderly direction bytes s
          (IsFed-IsSound s fed) closed in
      (x.answer, x.after, x.returns, given direction bytes fed closed x.returns)
