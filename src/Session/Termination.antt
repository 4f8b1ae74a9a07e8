-- ===== src/Session/Termination.antt =====
-- A run of `parser_input` ends (http-parser/src/parser.c), whatever the Node.js parser, zlib and the
-- user's callbacks do: the loop of the decompression has enough fuel.
use http_library.Prelude.{
  Option, none, ℕ, zero, suc, ◌+◌, ◌<◌, ◌%◌, ◌^◌, ◌≡◌, ◌≢◌, refl, Bool, true, false, not, ◌&&◌,
  some, List, [], ◌∷◌, ◌++◌, ◌==◌, ltb, leb, arith, if◌then◌else◌, length, take, drop,
  length-drop-le,
}
use http_library.Memory.{out_of_fuel, Run, fault}
use http_library.Memory.Halts.{
  Halts, Halts-fuel, Halts-ok, Halts-null, Halts-bounds, Halts-overlap, Halts-bind, Halts-if,
  Halts-option,
}
use http_library.HttpParser.{
  ParserType, http_request, http_response, http_both, Event, message_begin, url, status,
  header_field, header_value, headers_complete, body, message_complete, chunk_header,
  chunk_complete, Exec, finished, notify, HttpParser,
}
use http_library.Zlib.{ZCode, z_ok, z_stream_end, z_error, Inflated, Zlib}
use http_library.Session.{
  ContentEncoding, identity, deflate, gzip, Direction, Session, with_context,
  zlib_decompress_chunk_size, parser_ok,
}
use http_library.Session.Inflate.{
  get_content_encoding, message_inflate_init, overlaps, deliver, move_tail, inflate_loop,
  run_inflate, inflate_more, message_inflate,
}
use http_library.Session.Handlers.{
  destroy_if_set, BodyHooks, request_hooks, response_hooks, http_parser_on_message_begin,
  http_parser_on_chunk_header, http_parser_on_chunk_complete, http_parser_on_headers_complete,
  start_body, decode_body, on_body_with, http_parser_on_body, parser_reset, parser_reset_state,
  finish_body, http_parser_on_message_complete, on_event,
}
use http_library.Session.Input.{prepare, run_exec, input_loop, parser_input, with_parser, with_done}
use http_library.Session.Halts.{
  destroy_if_set-Halts, get_content_encoding-Halts, url-Halts, header_field-Halts,
  header_value-Halts, status-Halts, headers_complete_of-Halts,
}

Halts-when :
    {A : Type 0} (b : Bool) (r q : Run A)
    → (b ≡ true → Halts r)
    → Halts q
    → Halts (if b then r else q)
Halts-when true r q h g = h refl
Halts-when false r q h g = g

Halts-code :
    {A : Type 0} (c : ZCode) (r q : Run A) (k : ℕ → Run A)
    → Halts r
    → Halts q
    → ((n : ℕ) → Halts (k n))
    → Halts (elim c as (λ _. Run A) [ z_ok ↦ r | z_stream_end ↦ q | z_error n ↦ k n ])
Halts-code z_ok r q k f g h = f
Halts-code z_stream_end r q k f g h = g
Halts-code (z_error n) r q k f g h = h n

Halts-encoding :
    {A : Type 0} (c : ContentEncoding) (r q : Run A)
    → Halts r
    → Halts q
    → Halts (elim c as (λ _. Run A) [ identity ↦ r | deflate ↦ q | gzip ↦ q ])
Halts-encoding identity r q f g = f
Halts-encoding deflate r q f g = g
Halts-encoding gzip r q f g = g

Halts-type :
    {A : Type 0} (c : ParserType) (r q p : Run A)
    → Halts r
    → Halts q
    → Halts p
    → Halts (elim c as (λ _. Run A) [ http_request ↦ r | http_response ↦ q | http_both ↦ p ])
Halts-type http_request r q p f g h = f
Halts-type http_response r q p f g h = g
Halts-type http_both r q p f g h = h

module _ {P Z World : Type 0} ⦃zlib : Zlib Z⦄ (body_data : ℕ → List ℕ → World → World) where
  deliver-avail_in :
      (input : List ℕ) (r : Inflated Z) (s : Session P Z World)
      → (deliver body_data input r s).avail_in ≡ length (drop r.consumed input)
  unfolding deliver
  deliver-avail_in input r s = ground arith

  move_tail-Halts :
      (within : Option ℕ) (rest : List ℕ) (s : Session P Z World) → Halts (move_tail within rest s)
  unfolding move_tail
  move_tail-Halts within [] s = Halts-ok _
  move_tail-Halts within (b ∷ rest) s = Halts-option s.decode_in_buffer _ _ (Halts-null _) (λ old.
      Halts-if (leb (length (b ∷ rest)) zlib_decompress_chunk_size) _ _
        (Halts-if (overlaps within (length (b ∷ rest))) _ _ (Halts-overlap _) (Halts-ok _))
        (Halts-bounds _))

  inflate_loop-Halts :
      (within : Option ℕ) (fuel : ℕ) (input : List ℕ) (s : Session P Z World)
      → s.avail_in ≡ length input
      → length input < fuel
      → Halts (inflate_loop fuel within body_data input s)
  unfolding inflate_loop
  inflate_loop-Halts within zero input s here enough = absurd (omega arith)
  inflate_loop-Halts within (suc fuel) input s here enough =
      let r = zlib.inflate s.zlib_stream input zlib_decompress_chunk_size in
      let t = deliver body_data input r s in
      let rest = drop r.consumed input in
      let left = deliver-avail_in input r s in
      Halts-code r.code _ _ _
        (Halts-when (ltb 0 t.avail_in && not (s.avail_in == t.avail_in)) _ _
          (λ more.
            inflate_loop-Halts within fuel rest t left
              (ground (arith, length-drop-le r.consumed input)))
          (move_tail-Halts within rest t))
        (Halts-ok _) (λ n. Halts-ok _)

  run_inflate-Halts :
      (within : Option ℕ) (input : List ℕ) (s : Session P Z World)
      → Halts (run_inflate within body_data input s)
  run_inflate-Halts within input s =
      inflate_loop-Halts within (suc (length input)) input
        (with_context s (record (s.context) { avail_in = length input })) refl (omega arith)

  message_inflate-Halts :
      (bytes : List ℕ) (s : Session P Z World) → Halts (message_inflate body_data bytes s)
  unfolding message_inflate inflate_more
  message_inflate-Halts bytes s = Halts-option s.decode_out_buffer _ _ (Halts-ok _) (λ out.
      Halts-if (ltb 0 s.avail_in) _ _
        (Halts-if (ltb zlib_decompress_chunk_size (s.avail_in + length bytes)) _ _ (Halts-ok _) (
          Halts-option s.decode_in_buffer _ _ (Halts-null _) (λ old.
            let input = take s.avail_in old ++ bytes in
            run_inflate-Halts (some (length input)) input
              (with_context s (record (s.context) { decode_in_buffer = some input })))))
        (run_inflate-Halts none (take (length bytes % 2 ^ 32) bytes) s))

module _ {P Z World : Type 0} ⦃zlib : Zlib Z⦄ where
  inflate_init-Halts : (s : Session P Z World) → Halts (message_inflate_init s)
  unfolding message_inflate_init
  inflate_init-Halts s =
      Halts-bind (get_content_encoding s.message) _ (get_content_encoding-Halts s.message)
        (λ encoding. Halts-ok _)

  start_body-Halts : (hooks : BodyHooks World) (s : Session P Z World) → Halts (start_body hooks s)
  unfolding start_body
  start_body-Halts hooks s =
      let t : Session P Z World = record s {
        context = record (s.context) { need_decode = (hooks.started s.id s.world).0 };
        world = (hooks.started s.id s.world).1;
      } in
      Halts-if s.body_started _ _ (Halts-ok _) (
        Halts-if ((hooks.started s.id s.world).0 == 0) _ _ (Halts-ok _) (
          Halts-bind (message_inflate_init t) _ (inflate_init-Halts t)
            (λ (code, u). Halts-code code _ _ _ (Halts-ok _) (Halts-ok _) (λ n. Halts-ok _))))

  decode_body-Halts :
      (hooks : BodyHooks World) (bytes : List ℕ) (s : Session P Z World)
      → Halts (decode_body hooks bytes s)
  unfolding decode_body
  decode_body-Halts hooks bytes s = Halts-encoding s.content_encoding _ _ (Halts-ok _) (
      Halts-bind (message_inflate hooks.body_data bytes s) _
        (message_inflate-Halts hooks.body_data bytes s)
        (λ (r, t). Halts-if (r == 0) _ _ (Halts-ok _) (Halts-ok _)))

  on_body_with-Halts :
      (hooks : BodyHooks World) (bytes : List ℕ) (s : Session P Z World)
      → Halts (on_body_with hooks bytes s)
  unfolding on_body_with
  on_body_with-Halts hooks bytes s =
      Halts-bind (start_body hooks s) _ (start_body-Halts hooks s)
        (λ (r, t). Halts-if (r == parser_ok) _ _ (decode_body-Halts hooks bytes t) (Halts-ok _))

module _ {P Z World : Type 0} ⦃http : HttpParser P⦄ ⦃zlib : Zlib Z⦄ where
  on_body-Halts : (bytes : List ℕ) (s : Session P Z World) → Halts (http_parser_on_body bytes s)
  unfolding http_parser_on_body
  on_body-Halts bytes s =
      let t = with_context s (record (s.context) { have_body = true }) in
      Halts-type (http.parser_type s.parser) _ _ _
        (on_body_with-Halts (request_hooks s.callbacks) bytes t)
        (on_body_with-Halts (response_hooks s.callbacks) bytes t) (Halts-ok _)

  message_complete-Halts : (s : Session P Z World) → Halts (http_parser_on_message_complete s)
  unfolding http_parser_on_message_complete parser_reset
  message_complete-Halts s =
      let t = parser_reset_state (finish_body s) in
      Halts-bind (parser_reset (finish_body s)) _
        (Halts-bind (destroy_if_set t.message) _ (destroy_if_set-Halts t.message) (λ _. Halts-ok _))
        (λ u. Halts-ok _)

  on_event-Halts : (event : Event) (s : Session P Z World) → Halts (on_event event s)
  unfolding on_event http_parser_on_message_begin http_parser_on_chunk_header
      http_parser_on_chunk_complete http_parser_on_headers_complete
  on_event-Halts message_begin s = Halts-ok _
  on_event-Halts (url bytes) s = url-Halts (some bytes) s
  on_event-Halts (status bytes) s = status-Halts (some bytes) s
  on_event-Halts (header_field bytes) s = header_field-Halts (some bytes) s
  on_event-Halts (header_value bytes) s = header_value-Halts (some bytes) s
  on_event-Halts headers_complete s = headers_complete_of-Halts (http.parser_type s.parser) s
  on_event-Halts (body bytes) s = on_body-Halts bytes s
  on_event-Halts message_complete s = message_complete-Halts s
  on_event-Halts chunk_header s = Halts-ok _
  on_event-Halts chunk_complete s = Halts-ok _

  run_exec-Halts : (e : Exec P) (s : Session P Z World) → Halts (run_exec e s)
  unfolding run_exec
  run_exec-Halts (finished n p) s = Halts-ok _
  run_exec-Halts (notify event p k) s =
      Halts-bind (on_event event (with_parser s p)) _ (on_event-Halts event (with_parser s p))
        (λ (r, t). run_exec-Halts (k r t.parser) t)

  input_loop-Halts : (bytes : List ℕ) (s : Session P Z World) → Halts (input_loop bytes s)
  unfolding input_loop
  input_loop-Halts [] s = Halts-ok _
  input_loop-Halts (b ∷ rest) s = Halts-if (not (http.http_errno s.parser == 0)) _ _ (Halts-ok _) (
      Halts-bind (run_exec (http.execute s.parser (b ∷ [])) s) _
        (run_exec-Halts (http.execute s.parser (b ∷ [])) s)
        (λ (r, t). input_loop-Halts rest (with_done t (t.done + 1))))

  -- Every input ends: whatever runs of callbacks the Node.js parser makes, whatever zlib answers, and
  -- whatever the user's callbacks return, the loop of the decompression, which gets one round more
  -- than it has bytes, never uses its rounds up.
  pub parser_input-fuel :
      (direction : Direction) (bytes : List ℕ) (s : Session P Z World)
      → parser_input direction bytes s ≢ fault out_of_fuel
  unfolding parser_input
  parser_input-fuel direction bytes s =
      let t = prepare direction (with_done s 0) in
      Halts-fuel (parser_input direction bytes s) (
        Halts-bind (run_exec (http.execute t.parser bytes) t) _
          (run_exec-Halts (http.execute t.parser bytes) t)
          (λ (n, u). input_loop-Halts (drop n bytes) (with_done u n)))
