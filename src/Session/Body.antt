-- ===== src/Session/Body.antt =====
-- Body data: `http_parser_on_body` (http-parser/src/parser.c).
use http_library.Prelude.{
  ℕ, ◌≡◌, refl, ◌∙◌, Bool, true, false, not, ◌&&◌, Option, none, some, List, arith, if◌then◌else◌,
  ◌==◌,
}
use http_library.Memory.{ok}
use http_library.HttpParser.{ParserType, http_request, http_response, http_both, body, HttpParser}
use http_library.Zlib.{Zlib}
use http_library.Session.{Callbacks, identity, Session, with_context, parser_ok}
use http_library.Session.Handlers.{
  BodyHooks, request_hooks, response_hooks, on_event, http_parser_on_body, on_body_with,
}

-- The callbacks of a body in the direction that the parser reads, if it reads one.
abbrev pub hooks_of : {World : Type 0} → ParserType → Callbacks World → Option (BodyHooks World)
hooks_of http_request c = some (request_hooks c)
hooks_of http_response c = some (response_hooks c)
hooks_of http_both c = none

module _ {P Z World : Type 0} where
  -- Whether the next piece of the body is the first, and the user wants the body decoded.
  abbrev pub asks_decoding : BodyHooks World → Session P Z World → Bool
  asks_decoding hooks s = not s.body_started && not ((hooks.started s.id s.world).0 == 0)

  -- The session behind the start of a body that is not decoded.
  abbrev pub begun : BodyHooks World → Session P Z World → Session P Z World
  begun hooks s = if s.body_started then s else record s {
    context = record (s.context) {
      need_decode = (hooks.started s.id s.world).0;
      body_started = true;
    };
    world = (hooks.started s.id s.world).1;
  }

  -- The session behind a piece of a body that was handed over.
  abbrev pub handed_over : BodyHooks World → List ℕ → Session P Z World → Session P Z World
  handed_over hooks bytes s = record s {
    context = record (s.context) { body_callback_error = parser_ok };
    world = hooks.body_data s.id bytes s.world;
  }

  abbrev pub with_body : Session P Z World → Session P Z World
  with_body s = with_context s (record (s.context) { have_body = true })

module _ {P Z World : Type 0} ⦃zlib : Zlib Z⦄ (hooks : BodyHooks World) (bytes : List ℕ) where
  on_body_with-handed_over :
      (s : Session P Z World) (b : Bool)
      → s.body_started ≡ b
      → s.content_encoding ≡ identity
      → asks_decoding hooks s ≡ false
      → on_body_with hooks bytes s ≡ ok (parser_ok, handed_over hooks bytes (begun hooks s))
  unfolding on_body_with
  on_body_with-handed_over s true started plain quiet = ground arith
  on_body_with-handed_over s false started plain quiet = ground arith

module _ {P Z World : Type 0} ⦃http : HttpParser P⦄ ⦃zlib : Zlib Z⦄ (s : Session P Z World)
    (bytes : List ℕ) (hooks : BodyHooks World)
    (reads : hooks_of (http.parser_type s.parser) s.callbacks ≡ some hooks) where
  on_body-with :
      (kind : ParserType)
      → http.parser_type s.parser ≡ kind
      → http_parser_on_body bytes s ≡ on_body_with hooks bytes (with_body s)
  unfolding http_parser_on_body
  on_body-with http_request e = ground arith
  on_body-with http_response e = ground arith
  on_body-with http_both e = ground arith

  -- While the parser reads a request or a response: a piece of a body whose encoding is identity goes
  -- unchanged to the user's callback of its direction, once, behind the callback for the start if the
  -- piece is the first, and counts as no error: provided that the user does not ask for decoding at
  -- the start.
  pub on_body-handed_over :
      s.content_encoding ≡ identity
      → asks_decoding hooks s ≡ false
      → on_event (body bytes) s
        ≡ ok (parser_ok, handed_over hooks bytes (begun hooks (with_body s)))
  unfolding on_event
  on_body-handed_over plain quiet =
      on_body-with (http.parser_type s.parser) refl
      ∙ on_body_with-handed_over hooks bytes (with_body s) s.body_started refl plain quiet
