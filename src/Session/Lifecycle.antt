-- ===== src/Session/Lifecycle.antt =====
-- The beginning and the end of a message: `http_parser_on_message_begin`,
-- `http_parser_on_message_complete` and `parser_reset`.
use http_library.Prelude.{
  ℕ, ◌≡◌, refl, ap, ◌∙◌, Bool, true, false, Option, none, some, List, [], ◌∷◌, arith, Option-cases,
  inl, inr,
}
use http_library.Memory.{Run, ◌>>=◌, ok, fault, out_of_bounds, at}
use http_library.Message.{HttpMessage, destroy_http_message, write_field}
use http_library.Message.View.{MessageView, represent}
use http_library.Message.Setters.{destroy_http_message-represent}
use http_library.HttpParser.{
  ParserType, http_request, http_response, http_both, message_begin, header_field, message_complete,
  HttpParser,
}
use http_library.Zlib.{Zlib}
use http_library.Session.{Callbacks, identity, Session}
use http_library.Session.Inflate.{message_inflate_end}
use http_library.Session.Handlers.{
  on_event, http_parser_on_message_begin, http_parser_on_message_complete,
  http_parser_on_header_field, parser_reset, finish_body,
}
use http_library.Session.Fields.{IsFragment, run_events}

-- What the user's world becomes at the end of a message of the given type.
abbrev pub finished_world :
    {World : Type 0} → Callbacks World → ParserType → Bool → ℕ → World → World
finished_world c http_request true id w = c.http_request_body_finished id w
finished_world c http_response true id w = c.http_response_body_finished id w
finished_world c _ _ id w = w

abbrev answered : {A : Type 0} → A → Run (ℕ × A)
answered a = ok (0, a)

-- A result behind two steps.
bind-ok :
    {A B : Type 0} (r : Run A) (b : B)
    → ((r >>= λ _. ok b) >>= λ t. answered t) ≡ (r >>= λ _. answered b)
bind-ok (ok a) b = refl
bind-ok (fault e) b = refl

module _ {P Z World : Type 0} ⦃http : HttpParser P⦄ ⦃zlib : Zlib Z⦄ (s : Session P Z World) where
  -- The zlib stream after a reset: ended if its buffers were allocated.
  abbrev pub ended_stream : Option (List ℕ) → Z
  ended_stream none = s.zlib_stream
  ended_stream (some out) = (zlib.inflate_end s.zlib_stream).1

  abbrev pub ended_in_buffer : Option (List ℕ) → Option (List ℕ)
  ended_in_buffer none = s.decode_in_buffer
  ended_in_buffer (some out) = none

  -- The session after a message: the flags of the body cleared, the message gone, the decode
  -- buffers given back, and the parser ready for either direction.
  abbrev pub after_message : Session P Z World
  after_message = record {
    context = record (s.context) {
      message = none;
      have_body = false;
      body_started = false;
      content_encoding = identity;
      parser = http.init s.parser http_both;
      zlib_stream = ended_stream s.decode_out_buffer;
      decode_in_buffer = ended_in_buffer s.decode_out_buffer;
      decode_out_buffer = none;
    };
    world = finished_world s.callbacks (http.parser_type s.parser) s.have_body s.id s.world;
  }

  finish_body-finished_world : finish_body s ≡ record s {
    world = finished_world s.callbacks (http.parser_type s.parser) s.have_body s.id s.world;
  }
  unfolding finish_body
  finish_body-finished_world = ground arith

  pub on_message_complete-after_message :
      (v : MessageView)
      → s.message ≡ some (represent v)
      → on_event message_complete s ≡ ok (0, after_message)
  unfolding on_event http_parser_on_message_complete parser_reset message_inflate_end
  on_message_complete-after_message v e =
      rw finish_body-finished_world (elim (Option-cases s.decode_out_buffer) [
        | inl off ↦ rw (off, e) (rw (destroy_http_message-represent v))
        | inr (out, on) ↦ rw (on, e) (rw (destroy_http_message-represent v))
      ])

  -- The end of a message calls the callback for the end of the body exactly if there was one, then
  -- destroys the message, with the fault of that if it meets one, ends the decompression if it was set
  -- up, clears the message and the flags of the body, and has the parser wait for either direction.
  -- There is no fault where each text of the message stands in a live block.
  pub on_message_complete-destroyed :
      (m : HttpMessage)
      → s.message ≡ some m
      → (on_event message_complete s ≡ (destroy_http_message m >>= λ _. ok (0, after_message)))
        × ((v : MessageView)
            → m ≡ represent v
            → on_event message_complete s ≡ ok (0, after_message))
  unfolding on_event http_parser_on_message_complete parser_reset message_inflate_end
  on_message_complete-destroyed m e = (
    rw finish_body-finished_world (elim (Option-cases s.decode_out_buffer) [
      | inl off ↦ rw (off, e) (bind-ok (destroy_http_message m) _)
      | inr (out, on) ↦ rw (on, e) (bind-ok (destroy_http_message m) _)
    ]),
    λ v same. on_message_complete-after_message v (e ∙ ap some same),
  )

  -- A message that begins while the flag `in_field` is set: at its first header field, whose piece is
  -- not empty and free of NUL, the name goes to the field of index 2^32 - 1, which is one less than the
  -- count 0, and there is no array of fields.
  pub stale_in_field :
      (f : List ℕ)
      → s.in_field ≡ true
      → IsFragment f
      → run_events (message_begin ∷ header_field f ∷ []) s ≡ fault out_of_bounds
  unfolding run_events on_event http_parser_on_message_begin http_parser_on_header_field write_field
      at
  stale_in_field [] e h = absurd h
  stale_in_field (b ∷ f) e h = rw e
