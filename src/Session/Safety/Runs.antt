-- ===== src/Session/Safety/Runs.antt =====
-- Inputs and disconnects of a connection meet no fault (`parser_input` and `parser_disconnect`,
-- http-parser/src/parser.c).
use mathlib.Core.Path.{subst}
use http_library.Prelude.{
  ℕ, ◌+◌, ◌≡◌, ◌≢◌, refl, sym, Bool, true, false, not, ◌||◌, List, [], ◌∷◌, drop, some, inl, inr,
  Bool-cases, ◌==◌,
}
use http_library.Memory.{Run, ok}
use http_library.HttpParser.{
  ParserType, http_request, http_both, Event, headers_complete, Exec, HttpParser,
}
use http_library.Zlib.{Zlib}
use http_library.Message.View.{MessageView}
use http_library.Session.{
  Callbacks, Direction, direction_in, direction_out, Session, set_error, parser_ok,
  parser_http_parse_error,
}
use http_library.Session.Inflate.{message_inflate_end}
use http_library.Session.Handlers.{
  on_event, http_parser_on_chunk_header, http_parser_on_chunk_complete,
}
use http_library.Session.Input.{
  is_both, is_response, prepare, type_of, input_error, run_exec, input_loop, parser_input,
  parser_disconnect, with_parser, with_done,
}
use http_library.Session.Protocol.{
  Phase, Next, begins, reads_url, reads_status, starts_name, reads_name, starts_value, reads_value,
  ends_head, reads_body, starts_chunk, ends_chunk, completes, left_by, Follows, stops, reports,
  IsOrderly,
}
use http_library.Session.Safety.{Shape, IsSound, Steps, IsGentle}
use http_library.Session.Safety.Heads.{
  begin-Steps, starts_name-Steps, reads_name-Steps, starts_value-Steps, reads_value-Steps,
}
use http_library.Session.Safety.Lines.{
  same-Steps, url-Steps, status-Steps, headers_complete-Steps, body-Steps, message_complete-Steps,
}

module _ {P Z World : Type 0} ⦃http : HttpParser P⦄ where
  -- The next input initialises the parser.
  abbrev pub restarts : Session P Z World → Bool
  restarts s = not (http.http_errno s.parser == 0) || is_both (http.parser_type s.parser)

module _ {P Z World : Type 0} (c : Callbacks World) (knows : MessageView → World → Type 0)
    (phase_of : P → Phase) where
  -- A result with no fault, with the invariant of the phase in which the parser stands.
  pub record IsSafe (r : Run (ℕ × Session P Z World)) : Type 0 where
    pub answer : ℕ
    pub after : Session P Z World
    pub returns : r ≡ ok (answer, after)
    pub sound : IsSound c knows (phase_of after.parser) after

module _ {P Z World : Type 0} ⦃http : HttpParser P⦄ ⦃zlib : Zlib Z⦄ (c : Callbacks World)
    (knows : MessageView → World → Type 0) (extra : ℕ) (gentle : IsGentle c knows extra)
    (phase_of : P → Phase) (orderly : IsOrderly extra phase_of) where
  -- Each event that the parser may report in a phase.
  on_event-Steps :
      (s : Session P Z World) (phase : Phase) (event : Event) (later : Phase)
      → Next extra phase event later
      → (event ≡ headers_complete → http.parser_type s.parser ≢ http_both)
      → IsSound c knows phase s
      → Steps c knows later (left_by event s.parser) (on_event event s)
  unfolding on_event http_parser_on_chunk_header http_parser_on_chunk_complete
  on_event-Steps s phase event later begins known sound = begin-Steps c knows s sound
  on_event-Steps s phase event later (reads_url {n} {bytes} t) known sound =
      url-Steps c knows s n bytes t sound
  on_event-Steps s phase event later (reads_status {n} {bytes} t) known sound =
      status-Steps c knows s n bytes t sound
  on_event-Steps s phase event later (starts_name {n = n} {bytes} closed few f) known sound =
      starts_name-Steps c knows s phase n bytes closed few f sound
  on_event-Steps s phase event later (reads_name {n} {bytes} f) known sound =
      reads_name-Steps c knows s n bytes f sound
  on_event-Steps s phase event later (starts_value {n} {bytes} t) known sound =
      starts_value-Steps c knows s n bytes t sound
  on_event-Steps s phase event later (reads_value {n} {bytes} t) known sound =
      reads_value-Steps c knows s n bytes t sound
  on_event-Steps s phase event later (ends_head {n = n} closed) known sound =
      headers_complete-Steps c knows extra gentle s n phase closed (known refl) orderly.method_text
        sound
  on_event-Steps s phase event later (reads_body {n} {bytes}) known sound =
      body-Steps c knows s extra n bytes (http.parser_type s.parser) refl gentle sound
  on_event-Steps s phase event later starts_chunk known sound = same-Steps c knows s phase sound
  on_event-Steps s phase event later ends_chunk known sound = same-Steps c knows s phase sound
  on_event-Steps s phase event later (completes {n = n} closed) known sound =
      message_complete-Steps c knows s n phase closed sound

  run_exec-IsSafe :
      (phase : Phase) (x : Exec P) (s : Session P Z World)
      → Follows extra phase_of phase x
      → IsSound c knows phase s
      → IsSafe c knows phase_of (run_exec x s)
  unfolding run_exec
  run_exec-IsSafe phase x s (stops {n = n} {p} e) sound = record {
    answer = n;
    after = with_parser s p;
    returns = refl;
    sound = record {
      shape = subst (λ q. Shape knows q s.message s.in_field s.world) (sym e) sound.shape;
      plain = sound.plain;
      own = sound.own;
    };
  }
  run_exec-IsSafe phase x s (reports {later = later} {event} {p} {k} next known rest) sound =
      let t = with_parser s p in
      let moved : IsSound c knows phase t = record {
        shape = sound.shape;
        plain = sound.plain;
        own = sound.own;
      } in
      let step = on_event-Steps t phase event later next known moved in
      rw (step.returns, step.parser)
        (run_exec-IsSafe later (k step.answer (left_by event p)) step.after (rest step.answer)
          step.sound)

  execute-IsSafe :
      (bytes : List ℕ) (s : Session P Z World)
      → IsSound c knows (phase_of s.parser) s
      → IsSafe c knows phase_of (run_exec (http.execute s.parser bytes) s)
  execute-IsSafe bytes s sound =
      run_exec-IsSafe (phase_of s.parser) (http.execute s.parser bytes) s
        (orderly.run s.parser bytes) sound

  with_done-IsSound :
      (n : ℕ) (s : Session P Z World)
      → IsSound c knows (phase_of s.parser) s
      → IsSound c knows (phase_of s.parser) (with_done s n)
  with_done-IsSound n s sound = record { shape = sound.shape; plain = sound.plain; own = sound.own }

  input_error-IsSafe :
      (s : Session P Z World)
      → IsSound c knows (phase_of s.parser) s
      → IsSafe c knows phase_of (ok (input_error s))
  unfolding input_error set_error
  input_error-IsSafe s sound = elim (Bool-cases (http.http_errno s.parser == http.hpe_cb_body)) [
    | inl e ↦
        rw e (record { answer = s.body_callback_error; after = s; returns = refl; sound = sound })
    | inr e ↦ rw e (record {
      answer = parser_http_parse_error;
      after = set_error s (some (http.errno_description (http.http_errno s.parser)));
      returns = refl;
      sound = record { shape = sound.shape; plain = sound.plain; own = sound.own };
    })
  ]

  input_loop-IsSafe :
      (bytes : List ℕ) (s : Session P Z World)
      → IsSound c knows (phase_of s.parser) s
      → IsSafe c knows phase_of (input_loop bytes s)
  unfolding input_loop
  input_loop-IsSafe [] s sound = record {
    answer = parser_ok;
    after = s;
    returns = refl;
    sound = sound;
  }
  input_loop-IsSafe (b ∷ rest) s sound = elim (Bool-cases (http.http_errno s.parser == 0)) [
    | inl e ↦
        let x = execute-IsSafe (b ∷ []) s sound in
        rw (e, x.returns)
          (input_loop-IsSafe rest (with_done x.after (x.after.done + 1))
            (with_done-IsSound (x.after.done + 1) x.after x.sound))
    | inr e ↦ rw e (input_error-IsSafe s sound)
  ]

  -- A parser that is initialised while no name is open.
  restart-IsSound :
      (s : Session P Z World) (kind : ParserType) (phase : Phase)
      → s.in_field ≡ false
      → IsSound c knows phase s
      → IsSound c knows
          (phase_of (http.init s.parser kind))
          (with_parser s (http.init s.parser kind))
  restart-IsSound s kind phase closed sound =
      rw (orderly.initialised s.parser kind)
        (record { shape = closed; plain = sound.plain; own = sound.own })

  prepare-IsSound :
      (direction : Direction) (s : Session P Z World)
      → IsSound c knows (phase_of s.parser) s
      → (restarts s ≡ true → s.in_field ≡ false)
      → let t = prepare direction s in IsSound c knows (phase_of t.parser) t
  unfolding prepare
  prepare-IsSound direction s sound closed = elim (Bool-cases (restarts s)) [
    | inl e ↦ rw e (restart-IsSound s (type_of direction) (phase_of s.parser) (closed e) sound)
    | inr e ↦ rw e sound
  ]

  -- Safe
  pub parser_input-IsSafe :
      (direction : Direction) (bytes : List ℕ) (s : Session P Z World)
      → IsSound c knows (phase_of s.parser) s
      → (restarts s ≡ true → s.in_field ≡ false)
      → IsSafe c knows phase_of (parser_input direction bytes s)
  unfolding parser_input
  parser_input-IsSafe direction bytes s sound closed =
      let t = prepare direction (with_done s 0) in
      let x =
        execute-IsSafe bytes t
          (prepare-IsSound direction (with_done s 0) (with_done-IsSound 0 s sound) closed) in
      rw x.returns (
        input_loop-IsSafe (drop x.answer bytes) (with_done x.after x.answer)
          (with_done-IsSound x.answer x.after x.sound))

  pub parser_disconnect-IsSound :
      (direction : Direction) (s : Session P Z World)
      → IsSound c knows (phase_of s.parser) s
      → s.in_field ≡ false
      → let t = (parser_disconnect direction s).1 in IsSound c knows (phase_of t.parser) t
  unfolding parser_disconnect message_inflate_end
  parser_disconnect-IsSound direction_in s sound closed = sound
  parser_disconnect-IsSound direction_out s sound closed =
      elim (Bool-cases (is_response (http.parser_type s.parser))) [
        | inl e ↦ rw e (
            restart-IsSound (message_inflate_end s) http_request (phase_of s.parser) closed
              (record { shape = sound.shape; plain = sound.plain; own = sound.own }))
        | inr e ↦ rw e sound
      ]
