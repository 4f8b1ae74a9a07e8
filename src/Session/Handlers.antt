-- ===== src/Session/Handlers.antt =====
-- The callbacks that the program hands to the Node.js parser, `parser_reset`, and the table of the
-- callbacks (http-parser/src/parser.c). A handler returns its `int` and the session it leaves.
use http_library.Prelude.{ℕ, true, false, Option, none, some, List, ◌∷◌, ◌==◌, if◌then◌else◌}
use http_library.Memory.{null_pointer, Run, ok, fault, ◌>>=◌, ◌>>◌, append_chars, set_chars}
use http_library.Message.{
  HttpMessage, http_message_create, destroy_http_message, add_http_header_param, last_index,
  write_field, append_name, append_value, clear_value,
}
use http_library.HttpParser.{
  ParserType, http_request, http_response, http_both, Event, message_begin, url, status,
  header_field, header_value, headers_complete, body, message_complete, chunk_header,
  chunk_complete, HttpParser,
}
use http_library.Zlib.{z_ok, Zlib}
use http_library.Session.{
  Callbacks, identity, Session, with_context, set_error, parser_ok, parser_zlib_error,
  parser_invalid_argument_error,
}
use http_library.Session.Inflate.{message_inflate_init, message_inflate, message_inflate_end}

-- `context->message`, read as a pointer
abbrev pub the_message : Option HttpMessage → Run HttpMessage
the_message none = fault null_pointer
the_message (some message) = ok message

-- the change of `value` that the bytes ask for
abbrev pub value_change : Option (List ℕ) → HttpMessage → Run HttpMessage
value_change (some (b ∷ bytes)) message =
    write_field message (last_index message) (append_value (b ∷ bytes))
value_change at message = write_field message (last_index message) clear_value

abbrev pub destroy_if_set : Option HttpMessage → Run (Unit {0})
destroy_if_set none = ok tt
destroy_if_set (some message) = destroy_http_message message

-- The two callbacks of a body, by direction.
pub record BodyHooks (World : Type 0) : Type 0 where
  pub started : ℕ → World → ℕ × World
  pub body_data : ℕ → List ℕ → World → World

abbrev pub request_hooks : {World : Type 0} → Callbacks World → BodyHooks World
request_hooks c = record {
  started = c.http_request_body_started;
  body_data = c.http_request_body_data;
}

abbrev pub response_hooks : {World : Type 0} → Callbacks World → BodyHooks World
response_hooks c = record {
  started = c.http_response_body_started;
  body_data = c.http_response_body_data;
}

module _ {P Z World : Type 0} where
  abbrev pub with_message : Session P Z World → HttpMessage → Session P Z World
  with_message s message = with_context s (record (s.context) { message = some message })

  unfoldable pub http_parser_on_message_begin : Session P Z World → Run (ℕ × Session P Z World)
  http_parser_on_message_begin s = ok (0, with_message s http_message_create)

  unfoldable pub http_parser_on_url :
      Option (List ℕ) → Session P Z World → Run (ℕ × Session P Z World)
  http_parser_on_url (some (b ∷ bytes)) s = do
    message ← the_message s.message
    p ← append_chars message.url (b ∷ bytes)
    ok (0, with_message s (record message { url = p }))
  http_parser_on_url at s = ok (0, s)

  unfoldable pub http_parser_on_header_field :
      Option (List ℕ) → Session P Z World → Run (ℕ × Session P Z World)
  http_parser_on_header_field (some (b ∷ bytes)) s = do
    message ← the_message s.message
    longer ← (if s.in_field then ok message else add_http_header_param message)
    named ← write_field longer (last_index longer) (append_name (b ∷ bytes))
    ok (0, with_context s (record (s.context) { in_field = true; message = some named }))
  http_parser_on_header_field at s = ok (0, s)

  unfoldable pub http_parser_on_header_value :
      Option (List ℕ) → Session P Z World → Run (ℕ × Session P Z World)
  http_parser_on_header_value at s = do
    message ← the_message s.message
    valued ← value_change at message
    ok (0, with_context s (record (s.context) { in_field = false; message = some valued }))

  unfoldable pub http_parser_on_chunk_header : Session P Z World → Run (ℕ × Session P Z World)
  http_parser_on_chunk_header s = ok (0, s)

  unfoldable pub http_parser_on_chunk_complete : Session P Z World → Run (ℕ × Session P Z World)
  http_parser_on_chunk_complete s = ok (0, s)

  -- `out:` of `http_parser_on_body`
  abbrev pub body_out : ℕ → Session P Z World → Run (ℕ × Session P Z World)
  body_out r s = ok (r, with_context s (record (s.context) { body_callback_error = r }))

module _ {P Z World : Type 0} ⦃http : HttpParser P⦄ where
  unfoldable pub http_parser_on_status :
      Option (List ℕ) → Session P Z World → Run (ℕ × Session P Z World)
  http_parser_on_status (some (b ∷ bytes)) s = do
    message ← the_message s.message
    p ← append_chars message.status (b ∷ bytes)
    ok (0, with_message s (record message { status = p; status_code = http.status_code s.parser }))
  http_parser_on_status at s = ok (0, s)

  abbrev pub received : Session P Z World → ℕ × Option HttpMessage × World → ℕ × Session P Z World
  received s (skip, message, world) =
      (skip, record s { context = record (s.context) { message = message }; world = world })

  unfoldable pub headers_complete_of : ParserType → Session P Z World → Run (ℕ × Session P Z World)
  headers_complete_of http_request s = do
    message ← the_message s.message
    p ← set_chars message.method (http.method_str (http.method s.parser))
    let named = some (record message { method = p })
    ok (received s (s.callbacks.http_request_received s.id named s.world))
  headers_complete_of http_response s =
      ok (received s (s.callbacks.http_response_received s.id s.message s.world))
  headers_complete_of http_both s = ok (0, s)

  unfoldable pub http_parser_on_headers_complete : Session P Z World → Run (ℕ × Session P Z World)
  unfolding headers_complete_of
  http_parser_on_headers_complete s = headers_complete_of (http.parser_type s.parser) s

module _ {P Z World : Type 0} ⦃zlib : Zlib Z⦄ where
  unfoldable pub zlib_failed : Session P Z World → Session P Z World
  zlib_failed s = set_error s (zlib.msg s.zlib_stream)

  -- the block under `if (context->body_started == 0)`, with the error that it leaves with
  unfoldable pub start_body : BodyHooks World → Session P Z World → Run (ℕ × Session P Z World)
  unfolding zlib_failed
  start_body hooks s =
      if s.body_started
      then ok (parser_ok, s)
      else let (need, w) = hooks.started s.id s.world in
        let t : Session P Z World = record s {
          context = record (s.context) { need_decode = need };
          world = w;
        } in
        if need == 0
        then ok (parser_ok, with_context t (record (t.context) { body_started = true }))
        else (do
          (code, u) ← message_inflate_init t
          elim code [
            | z_ok ↦ ok (parser_ok, with_context u (record (u.context) { body_started = true }))
            | _ ↦ ok (parser_zlib_error, zlib_failed u)
          ])

  -- An error of `message_inflate` is returned past `out:`.
  unfoldable pub decode_body :
      BodyHooks World → List ℕ → Session P Z World → Run (ℕ × Session P Z World)
  unfolding zlib_failed
  decode_body hooks bytes s = elim s.content_encoding [
    | identity ↦ body_out parser_ok (record s { world = hooks.body_data s.id bytes s.world })
    | _ ↦ do
      (r, t) ← message_inflate hooks.body_data bytes s
      if r == 0 then body_out parser_ok t else ok (parser_zlib_error, zlib_failed t)
  ]

  unfoldable pub on_body_with :
      BodyHooks World → List ℕ → Session P Z World → Run (ℕ × Session P Z World)
  unfolding start_body decode_body
  on_body_with hooks bytes s = do
    (r, t) ← start_body hooks s
    if r == parser_ok then decode_body hooks bytes t else body_out r t

  unfoldable pub parser_reset_state : Session P Z World → Session P Z World
  parser_reset_state s = elim s.decode_out_buffer [ none ↦ s | some out ↦ message_inflate_end s ]

module _ {P Z World : Type 0} ⦃http : HttpParser P⦄ ⦃zlib : Zlib Z⦄ where
  unfoldable pub http_parser_on_body : List ℕ → Session P Z World → Run (ℕ × Session P Z World)
  unfolding on_body_with
  http_parser_on_body bytes s =
      let t = with_context s (record (s.context) { have_body = true }) in
      elim (http.parser_type s.parser) [
        | http_request ↦ on_body_with (request_hooks s.callbacks) bytes t
        | http_response ↦ on_body_with (response_hooks s.callbacks) bytes t
        | http_both ↦ body_out parser_invalid_argument_error t
      ]

  unfoldable pub parser_reset : Session P Z World → Run (Session P Z World)
  unfolding parser_reset_state
  parser_reset s = do
    let t = parser_reset_state s
    destroy_if_set t.message
    ok (
        with_context t (record (t.context) {
          message = none;
          have_body = false;
          body_started = false;
          content_encoding = identity;
          parser = http.init t.parser http_both;
        }))

  -- the callback for the end of a body
  unfoldable pub finish_body : Session P Z World → Session P Z World
  finish_body s =
      if s.have_body
      then elim (http.parser_type s.parser) [
        | http_request ↦ record s { world = s.callbacks.http_request_body_finished s.id s.world }
        | http_response ↦ record s { world = s.callbacks.http_response_body_finished s.id s.world }
        | http_both ↦ s
      ]
      else s

  unfoldable pub http_parser_on_message_complete : Session P Z World → Run (ℕ × Session P Z World)
  unfolding finish_body
  http_parser_on_message_complete s = do t ← parser_reset (finish_body s); ok (0, t)

  -- `_settings`
  unfoldable pub on_event : Event → Session P Z World → Run (ℕ × Session P Z World)
  on_event message_begin s = http_parser_on_message_begin s
  on_event (url bytes) s = http_parser_on_url (some bytes) s
  on_event (status bytes) s = http_parser_on_status (some bytes) s
  on_event (header_field bytes) s = http_parser_on_header_field (some bytes) s
  on_event (header_value bytes) s = http_parser_on_header_value (some bytes) s
  on_event headers_complete s = http_parser_on_headers_complete s
  on_event (body bytes) s = http_parser_on_body bytes s
  on_event message_complete s = http_parser_on_message_complete s
  on_event chunk_header s = http_parser_on_chunk_header s
  on_event chunk_complete s = http_parser_on_chunk_complete s
