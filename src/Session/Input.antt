-- ===== src/Session/Input.antt =====
-- `parser_input`, `parser_disconnect` and the run of the Node.js parser with the table of
-- callbacks (http-parser/src/parser.c).
use http_library.Prelude.{
  ℕ, ◌+◌, Bool, true, false, not, ◌||◌, some, List, [], ◌∷◌, ◌==◌, if◌then◌else◌, drop,
}
use http_library.Memory.{Run, ok, ◌>>=◌}
use http_library.HttpParser.{
  ParserType, http_request, http_response, http_both, Exec, finished, notify, HttpParser,
}
use http_library.Zlib.{Zlib}
use http_library.Session.{
  Direction, direction_in, direction_out, Session, with_context, set_error, parser_ok,
  parser_http_parse_error,
}
use http_library.Session.Inflate.{message_inflate_end}
use http_library.Session.Handlers.{on_event}

abbrev pub is_both : ParserType → Bool
is_both http_both = true
is_both _ = false

abbrev pub is_response : ParserType → Bool
is_response http_response = true
is_response _ = false

-- `direction == DIRECTION_OUT ? HTTP_REQUEST : HTTP_RESPONSE`
abbrev pub type_of : Direction → ParserType
type_of direction_out = http_request
type_of direction_in = http_response

module _ {P Z World : Type 0} ⦃http : HttpParser P⦄ where
  abbrev pub with_parser : Session P Z World → P → Session P Z World
  with_parser s p = with_context s (record (s.context) { parser = p })

  abbrev pub with_done : Session P Z World → ℕ → Session P Z World
  with_done s n = with_context s (record (s.context) { done = n })

  -- the initialisation before the next message, or after an error
  unfoldable pub prepare : Direction → Session P Z World → Session P Z World
  prepare direction s =
      if not (http.http_errno s.parser == 0) || is_both (http.parser_type s.parser)
      then with_parser s (http.init s.parser (type_of direction))
      else s

  -- what `parser_input` returns for the error that the parser has
  unfoldable pub input_error : Session P Z World → ℕ × Session P Z World
  input_error s =
      if http.http_errno s.parser == http.hpe_cb_body then (s.body_callback_error, s) else (
        parser_http_parse_error,
        set_error s (some (http.errno_description (http.http_errno s.parser))),
      )

module _ {P Z World : Type 0} ⦃http : HttpParser P⦄ ⦃zlib : Zlib Z⦄ where
  -- `http_parser_execute(context->parser, context->settings, …)`
  unfoldable pub run_exec : Exec P → Session P Z World → Run (ℕ × Session P Z World)
  run_exec (finished n p) s = ok (n, with_parser s p)
  run_exec (notify event p k) s = do
    (r, t) ← on_event event (with_parser s p)
    run_exec (k r t.parser) t

  -- The `while` loop over the bytes that are left behind `done`: the parser gets one byte at a time.
  unfoldable pub input_loop : List ℕ → Session P Z World → Run (ℕ × Session P Z World)
  input_loop [] s = ok (parser_ok, s)
  input_loop (b ∷ rest) s = if not (http.http_errno s.parser == 0) then ok (input_error s) else (do
    (_, t) ← run_exec (http.execute s.parser (b ∷ [])) s
    input_loop rest (with_done t (t.done + 1)))

  unfoldable pub parser_input : Direction → List ℕ → Session P Z World → Run (ℕ × Session P Z World)
  parser_input direction bytes s = do
    let t = prepare direction (with_done s 0)
    (n, u) ← run_exec (http.execute t.parser bytes) t
    input_loop (drop n bytes) (with_done u n)

  unfoldable pub parser_disconnect : Direction → Session P Z World → ℕ × Session P Z World
  parser_disconnect direction_in s = (0, s)
  parser_disconnect direction_out s =
      if is_response (http.parser_type s.parser)
      then (let t = message_inflate_end s in (0, with_parser t (http.init t.parser http_request)))
      else (0, s)
