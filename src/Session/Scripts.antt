-- ===== src/Session/Scripts.antt =====
-- Runs of the Node.js parser that report a given sequence of events, while the callbacks answer 0, and
-- what the callbacks do in such a run (http-parser/src/parser.c).
use mathlib.Core.Path.{subst}
use http_library.Prelude.{ℕ, ◌≡◌, refl, ap, ◌∙◌, sym, List, [], ◌∷◌, ◌++◌, arith, All}
use http_library.Memory.{Run, ok, fault, ◌>>=◌}
use http_library.HttpParser.{
  Event, message_begin, url, status, header_field, header_value, headers_complete, body,
  message_complete, chunk_header, chunk_complete, Exec, notify, HttpParser,
}
use http_library.Zlib.{Zlib}
use http_library.Session.{Session}
use http_library.Session.Handlers.{
  on_event, http_parser_on_message_begin, http_parser_on_url, http_parser_on_header_field,
  http_parser_on_header_value,
}
use http_library.Session.Input.{run_exec, with_parser}
use http_library.Session.Fields.{run_events}
use http_library.Session.Protocol.{left_by}

-- An event, and the parser that reports it.
abbrev pub Report : Type 0 → Type 0
Report P = Event × P

abbrev pub events_of : {P : Type 0} → List (Report P) → List Event
events_of [] = []
events_of ((e, p) ∷ reports) = e ∷ events_of reports

-- The events of a head but its end: their callbacks do not look at the parser.
abbrev pub IsQuiet : Event → Type 0
IsQuiet message_begin = Unit
IsQuiet (url bytes) = Unit
IsQuiet (header_field bytes) = Unit
IsQuiet (header_value bytes) = Unit
IsQuiet _ = ⊥

module _ {P : Type 0} ⦃http : HttpParser P⦄ where
  -- The run `x` makes the reports, each answered by 0, and goes on as `y`.
  pub data Tells : List (Report P) → Exec P → Exec P → Type 0 where
    told : {x : Exec P} → Tells [] x x
    tells :
        {reports : List (Report P)} {e : Event} {p : P} {k : ℕ → P → Exec P} {y : Exec P}
        → Tells reports (k 0 (left_by e p)) y
        → Tells ((e, p) ∷ reports) (notify e p k) y

  left_by-quiet : (e : Event) (p : P) → IsQuiet e → left_by e p ≡ p
  left_by-quiet message_begin p q = refl
  left_by-quiet (url bytes) p q = refl
  left_by-quiet (header_field bytes) p q = refl
  left_by-quiet (header_value bytes) p q = refl
  left_by-quiet (status bytes) p q = absurd q
  left_by-quiet headers_complete p q = absurd q
  left_by-quiet (body bytes) p q = absurd q
  left_by-quiet message_complete p q = absurd q
  left_by-quiet chunk_header p q = absurd q
  left_by-quiet chunk_complete p q = absurd q

  -- The parser behind the reports.
  abbrev pub last_parser : P → List (Report P) → P
  last_parser q [] = q
  last_parser q ((e, p) ∷ reports) = last_parser p reports

module _ {P Z World : Type 0} ⦃http : HttpParser P⦄ ⦃zlib : Zlib Z⦄ where
  -- The callbacks take the reports, answer 0, and lead from one session to another.
  pub data Takes : List (Report P) → Session P Z World → Session P Z World → Type 0 where
    taken : {s : Session P Z World} → Takes [] s s
    takes :
        {reports : List (Report P)} {e : Event} {p : P} {s t u : Session P Z World}
        → on_event e (with_parser s p) ≡ ok (0, t)
        → t.parser ≡ left_by e p
        → Takes reports t u
        → Takes ((e, p) ∷ reports) s u

  pub Takes-append :
      (xs ys : List (Report P)) (s t u : Session P Z World)
      → Takes xs s t
      → Takes ys t u
      → Takes (xs ++ ys) s u
  Takes-append [] ys s t u taken later = later
  Takes-append (x ∷ xs) ys s t u (takes {t = r} e l rest) later =
      takes e l (Takes-append xs ys r t u rest later)

  -- Such a run calls these callbacks, and goes on with the session that they leave.
  pub run_exec-Takes :
      (reports : List (Report P)) (x y : Exec P) (s t : Session P Z World)
      → Tells reports x y
      → Takes reports s t
      → run_exec x s ≡ run_exec y t
  unfolding run_exec
  run_exec-Takes [] x y s t told taken = refl
  run_exec-Takes ((e, p) ∷ reports) x y s t (tells {k = k} later) (takes {t = r} done left rest) =
      rw done (
        ap (λ q. run_exec (k 0 q) r) left
        ∙ run_exec-Takes reports (k 0 (left_by e p)) y r t later rest)

  abbrev quietly : P → Run (ℕ × Session P Z World) → Run (ℕ × Session P Z World)
  quietly p (ok (n, t)) = ok (0, with_parser t p)
  quietly p (fault e) = fault e

  on_event-quietly :
      (e : Event) (p : P) (s : Session P Z World)
      → IsQuiet e
      → on_event e (with_parser s p) ≡ quietly p (on_event e s)
  unfolding on_event http_parser_on_message_begin http_parser_on_url http_parser_on_header_field
      http_parser_on_header_value
  on_event-quietly message_begin p s q = refl
  on_event-quietly (url []) p s q = refl
  on_event-quietly (url (b ∷ bytes)) p s q = ground arith
  on_event-quietly (header_field []) p s q = refl
  on_event-quietly (header_field (b ∷ bytes)) p s q = ground arith
  on_event-quietly (header_value bytes) p s q = ground arith
  on_event-quietly (status bytes) p s q = absurd q
  on_event-quietly headers_complete p s q = absurd q
  on_event-quietly (body bytes) p s q = absurd q
  on_event-quietly message_complete p s q = absurd q
  on_event-quietly chunk_header p s q = absurd q
  on_event-quietly chunk_complete p s q = absurd q

  abbrev result_or : Session P Z World → Run (Session P Z World) → Session P Z World
  result_or s (ok t) = t
  result_or s (fault e) = s

  -- The callbacks of a head do the same whichever parser reports.
  pub run_events-Takes :
      (reports : List (Report P)) (q : P) (s t : Session P Z World)
      → All IsQuiet (events_of reports)
      → run_events (events_of reports) s ≡ ok t
      → Takes reports (with_parser s q) (with_parser t (last_parser q reports))
  unfolding run_events
  run_events-Takes [] q s t quiet e =
      subst (λ u. Takes [] (with_parser s q) (with_parser u q)) (ap (result_or s) e) taken
  run_events-Takes ((e, p) ∷ reports) q s t quiet done =
      step (on_event e s) refl done (λ u. run_events-Takes reports p u t quiet.1)
    where
      step :
          (r : Run (ℕ × Session P Z World))
          → on_event e s ≡ r
          → (r >>= λ x. run_events (events_of reports) x.1) ≡ ok t
          → ((u : Session P Z World)
              → run_events (events_of reports) u ≡ ok t
              → Takes reports (with_parser u p) (with_parser t (last_parser p reports)))
          → Takes ((e, p) ∷ reports) (with_parser s q) (with_parser t (last_parser p reports))
      step (ok (n, u)) answer rest later =
          takes (on_event-quietly e p s quiet.0 ∙ ap (quietly p) answer)
            (sym (left_by-quiet e p quiet.0)) (later u rest)
      step (fault x) answer rest later = absurd (ground arith)
