-- ===== src/Session/Frame.antt =====
-- What no callback changes: the connection's id, its table of callbacks, and the count of the input
-- that is done.
use http_library.Session.Kept.{
  Frame, Frame-trans, Frame-refl, Kept, Kept-before, Kept-bind, Kept-if, Kept-option, Kept-code,
  Kept-encoding, Kept-type, Kept-after,
}
use http_library.Prelude.{
  ◌+◌, ◌++◌, ◌&&◌, ltb, not, drop, take, length, ◌%◌, ◌^◌, ℕ, zero, suc, refl, true, Option, none,
  some, List, [], ◌∷◌, arith, ◌==◌,
}
use http_library.HttpParser.{
  Event, message_begin, url, status, header_field, header_value, headers_complete, body,
  message_complete, chunk_header, chunk_complete, Exec, finished, notify, HttpParser,
}
use http_library.Zlib.{Inflated, Zlib}
use http_library.Session.Input.{run_exec, with_parser}
use http_library.Session.{zlib_decompress_chunk_size, parser_ok, Session, with_context, set_error}
use http_library.Session.Inflate.{
  message_inflate_init, init_buffers, message_inflate, inflate_more, run_inflate, inflate_loop,
  deliver, move_tail, message_inflate_end,
}
use http_library.Session.Handlers.{
  BodyHooks, destroy_if_set, request_hooks, response_hooks, on_event, http_parser_on_message_begin,
  http_parser_on_url, http_parser_on_status, http_parser_on_header_field,
  http_parser_on_header_value, http_parser_on_headers_complete, http_parser_on_body,
  http_parser_on_message_complete, http_parser_on_chunk_header, http_parser_on_chunk_complete,
  start_body, decode_body, on_body_with, parser_reset, parser_reset_state, finish_body, zlib_failed,
}

module _ {P Z World : Type 0} where
  set_error-Frame : (s : Session P Z World) (msg : Option (List ℕ)) → Frame s (set_error s msg)
  unfolding set_error
  set_error-Frame s none = ground arith
  set_error-Frame s (some msg) = ground arith

  url-Kept : (at : Option (List ℕ)) (s : Session P Z World) → Kept s (http_parser_on_url at s)
  unfolding http_parser_on_url
  url-Kept (some (b ∷ bytes)) s = ground arith
  url-Kept at s = ground arith

  header_field-Kept :
      (at : Option (List ℕ)) (s : Session P Z World) → Kept s (http_parser_on_header_field at s)
  unfolding http_parser_on_header_field
  header_field-Kept (some (b ∷ bytes)) s = ground arith
  header_field-Kept at s = ground arith

  header_value-Kept :
      (at : Option (List ℕ)) (s : Session P Z World) → Kept s (http_parser_on_header_value at s)
  unfolding http_parser_on_header_value
  header_value-Kept (some (b ∷ bytes)) s = ground arith
  header_value-Kept at s = ground arith

module _ {P Z World : Type 0} ⦃http : HttpParser P⦄ where
  status-Kept : (at : Option (List ℕ)) (s : Session P Z World) → Kept s (http_parser_on_status at s)
  unfolding http_parser_on_status
  status-Kept (some (b ∷ bytes)) s = ground arith
  status-Kept at s = ground arith

  headers_complete-Kept : (s : Session P Z World) → Kept s (http_parser_on_headers_complete s)
  unfolding http_parser_on_headers_complete
  headers_complete-Kept s = ground arith

module _ {P Z World : Type 0} ⦃zlib : Zlib Z⦄ where
  inflate_end-Frame : (s : Session P Z World) → Frame s (message_inflate_end s)
  unfolding message_inflate_end
  inflate_end-Frame s = ground arith

  inflate_init-Kept : (s : Session P Z World) → Kept s (message_inflate_init s)
  unfolding message_inflate_init init_buffers
  inflate_init-Kept s = ground arith

  deliver-Frame :
      (body_data : ℕ → List ℕ → World → World) (input : List ℕ) (r : Inflated Z)
      (s : Session P Z World)
      → Frame s (deliver body_data input r s)
  unfolding deliver
  deliver-Frame body_data input r s = ground arith

  move_tail-Kept :
      (within : Option ℕ) (rest : List ℕ) (s : Session P Z World) → Kept s (move_tail within rest s)
  unfolding move_tail
  move_tail-Kept within [] s = ground arith
  move_tail-Kept none (b ∷ rest) s = ground arith
  move_tail-Kept (some e) (b ∷ rest) s = ground arith

  module _ (body_data : ℕ → List ℕ → World → World) where
    inflate_loop-Kept :
        (within : Option ℕ) (fuel : ℕ) (input : List ℕ) (s : Session P Z World)
        → Kept s (inflate_loop fuel within body_data input s)
    unfolding inflate_loop
    inflate_loop-Kept within zero input s = tt
    inflate_loop-Kept within (suc fuel) input s =
        let r = zlib.inflate s.zlib_stream input zlib_decompress_chunk_size in
        let t = deliver body_data input r s in
        let rest = drop r.consumed input in
        let f = deliver-Frame body_data input r s in
        let closed = Frame-trans s t (message_inflate_end t) f (inflate_end-Frame t) in
        let again =
          Kept-before s t (inflate_loop fuel within body_data rest t) f
            (inflate_loop-Kept within fuel rest t) in
        let moved = Kept-before s t (move_tail within rest t) f (move_tail-Kept within rest t) in
        Kept-code s r.code _ _ _
          (Kept-if s (ltb 0 t.avail_in && not (s.avail_in == t.avail_in)) _ _ again moved) closed
          (λ n. closed)

    run_inflate-Kept :
        (within : Option ℕ) (input : List ℕ) (s : Session P Z World)
        → Kept s (run_inflate within body_data input s)
    run_inflate-Kept within input s =
        let t : Session P Z World =
          with_context s (record (s.context) { avail_in = length input }) in
        Kept-before s t (run_inflate within body_data input s) (ground arith)
          (inflate_loop-Kept within (suc (length input)) input t)

    inflate_more-Kept :
        (bytes : List ℕ) (s : Session P Z World) → Kept s (inflate_more body_data bytes s)
    unfolding inflate_more
    inflate_more-Kept bytes s =
        Kept-if s (ltb zlib_decompress_chunk_size (s.avail_in + length bytes)) _ _
          (inflate_end-Frame s)
          (Kept-option s s.decode_in_buffer _ _ tt (λ old.
            let input = take s.avail_in old ++ bytes in
            let t : Session P Z World =
              with_context s (record (s.context) { decode_in_buffer = some input }) in
            Kept-before s t (run_inflate (some (length input)) body_data input t) (ground arith)
              (run_inflate-Kept (some (length input)) input t)))

    message_inflate-Kept :
        (bytes : List ℕ) (s : Session P Z World) → Kept s (message_inflate body_data bytes s)
    unfolding message_inflate
    message_inflate-Kept bytes s = Kept-option s s.decode_out_buffer _ _ (Frame-refl s) (λ out.
        Kept-if s (ltb 0 s.avail_in) _ _ (inflate_more-Kept bytes s)
          (run_inflate-Kept none (take (length bytes % 2 ^ 32) bytes) s))

  zlib_failed-Frame : (s t : Session P Z World) → Frame s t → Frame s (zlib_failed t)
  unfolding zlib_failed
  zlib_failed-Frame s t f = Frame-trans s t _ f (set_error-Frame t (zlib.msg t.zlib_stream))

  start_body-Kept : (hooks : BodyHooks World) (s : Session P Z World) → Kept s (start_body hooks s)
  unfolding start_body
  start_body-Kept hooks s =
      let t : Session P Z World = record s {
        context = record (s.context) { need_decode = (hooks.started s.id s.world).0 };
        world = (hooks.started s.id s.world).1;
      } in
      Kept-if s s.body_started _ _ (Frame-refl s) (
        Kept-if s ((hooks.started s.id s.world).0 == 0) _ _ (ground arith) (
          Kept-bind s (message_inflate_init t) _
            (Kept-before s t (message_inflate_init t) (ground arith) (inflate_init-Kept t))
            (λ code u f.
              Kept-code s code _ _ _ (record { id = f.id; callbacks = f.callbacks; done = f.done })
                (zlib_failed-Frame s u f) (λ n. zlib_failed-Frame s u f))))

  decode_body-Kept :
      (hooks : BodyHooks World) (bytes : List ℕ) (s : Session P Z World)
      → Kept s (decode_body hooks bytes s)
  unfolding decode_body
  decode_body-Kept hooks bytes s =
      let inflated =
        Kept-bind s (message_inflate hooks.body_data bytes s) _
          (message_inflate-Kept hooks.body_data bytes s)
          (λ r t f.
            Kept-if s (r == 0) _ _ (record { id = f.id; callbacks = f.callbacks; done = f.done })
              (zlib_failed-Frame s t f)) in
      Kept-encoding s s.content_encoding _ _ _ (record { id = refl; callbacks = refl; done = refl })
        inflated inflated

  on_body_with-Kept :
      (hooks : BodyHooks World) (bytes : List ℕ) (s : Session P Z World)
      → Kept s (on_body_with hooks bytes s)
  unfolding on_body_with
  on_body_with-Kept hooks bytes s =
      Kept-bind s (start_body hooks s) _ (start_body-Kept hooks s) (λ r t f.
        Kept-if s (r == parser_ok) _ _
          (Kept-before s t (decode_body hooks bytes t) f (decode_body-Kept hooks bytes t))
          (record { id = f.id; callbacks = f.callbacks; done = f.done }))

module _ {P Z World : Type 0} ⦃http : HttpParser P⦄ ⦃zlib : Zlib Z⦄ where
  on_body-Kept : (bytes : List ℕ) (s : Session P Z World) → Kept s (http_parser_on_body bytes s)
  unfolding http_parser_on_body
  on_body-Kept bytes s =
      let t : Session P Z World = with_context s (record (s.context) { have_body = true }) in
      let started : (hooks : BodyHooks World) → Kept s (on_body_with hooks bytes t) = λ hooks.
        Kept-before s t (on_body_with hooks bytes t) (ground arith)
          (on_body_with-Kept hooks bytes t) in
      Kept-type s (http.parser_type s.parser) _ _ _ (started (request_hooks s.callbacks))
        (started (response_hooks s.callbacks)) (ground arith)

  reset_state-Frame : (s : Session P Z World) → Frame s (parser_reset_state s)
  unfolding parser_reset_state
  reset_state-Frame s = ground (arith, inflate_end-Frame s)

  finish_body-Frame : (s : Session P Z World) → Frame s (finish_body s)
  unfolding finish_body
  finish_body-Frame s = ground arith

  message_complete-Kept : (s : Session P Z World) → Kept s (http_parser_on_message_complete s)
  unfolding http_parser_on_message_complete parser_reset
  message_complete-Kept s =
      let t = finish_body s in
      let u = parser_reset_state t in
      let f = Frame-trans s t u (finish_body-Frame s) (reset_state-Frame t) in
      Kept-after s (destroy_if_set u.message) _
        (record { id = f.id; callbacks = f.callbacks; done = f.done })

  pub on_event-Kept : (event : Event) (s : Session P Z World) → Kept s (on_event event s)
  unfolding on_event http_parser_on_message_begin http_parser_on_chunk_header
      http_parser_on_chunk_complete
  on_event-Kept message_begin s = ground arith
  on_event-Kept (url bytes) s = url-Kept (some bytes) s
  on_event-Kept (status bytes) s = status-Kept (some bytes) s
  on_event-Kept (header_field bytes) s = header_field-Kept (some bytes) s
  on_event-Kept (header_value bytes) s = header_value-Kept (some bytes) s
  on_event-Kept headers_complete s = headers_complete-Kept s
  on_event-Kept (body bytes) s = on_body-Kept bytes s
  on_event-Kept message_complete s = message_complete-Kept s
  on_event-Kept chunk_header s = ground arith
  on_event-Kept chunk_complete s = ground arith

  -- A run of the parser with the table of callbacks, where it does not fault, changes neither the
  -- connection's id nor its callbacks nor the count of the bytes done.
  pub run_exec-Kept : (e : Exec P) (s : Session P Z World) → Kept s (run_exec e s)
  unfolding run_exec
  run_exec-Kept (finished n p) s = ground arith
  run_exec-Kept (notify event p k) s =
      Kept-bind s (on_event event (with_parser s p)) _
        (Kept-before s (with_parser s p) (on_event event (with_parser s p)) (ground arith)
          (on_event-Kept event (with_parser s p)))
        (λ r t f. Kept-before s t (run_exec (k r t.parser) t) f (run_exec-Kept (k r t.parser) t))
