-- ===== src/Session/Inflate.antt =====
-- Body decompression: `get_content_encoding`, `message_inflate_init`, `message_inflate` and
-- `message_inflate_end` (http-parser/src/parser.c).
use http_library.Prelude.{
  ℕ, zero, suc, ◌+◌, ◌%◌, ◌^◌, Bool, true, false, not, ◌&&◌, ◌||◌, Option, none, some, List, [],
  ◌∷◌, ◌++◌, ◌==◌, ltb, leb, if◌then◌else◌, codes, length, take, drop,
}
use http_library.Memory.{
  null_pointer, out_of_bounds, out_of_fuel, overlapping_copy, Run, ok, fault, ◌>>=◌, tolower,
  strn_eq,
}
use http_library.Message.{HttpMessage, http_message_get_header_field}
use http_library.Zlib.{ZCode, z_ok, z_stream_end, z_error, Inflated, Zlib}
use http_library.Session.{
  ContentEncoding, identity, deflate, gzip, Session, with_context, zlib_decompress_chunk_size,
}

abbrev pub content_encoding_name : List ℕ
content_encoding_name = codes "Content-Encoding"

-- `!strncasecmp(value, name, value_length)`
abbrev pub value_is : List ℕ × ℕ → List ℕ → Run Bool
value_is (value, value_length) name = strn_eq tolower value_length value (name ++ (0 ∷ []))

unfoldable pub encoding_of : List ℕ × ℕ → Run ContentEncoding
encoding_of value = do
  is_gzip ← value_is value (codes "gzip")
  if is_gzip then ok gzip else do
    is_x_gzip ← value_is value (codes "x-gzip")
    if is_x_gzip then ok gzip else do
      is_deflate ← value_is value (codes "deflate")
      if is_deflate then ok deflate else ok identity

-- A message with no such header gives a null value, which is compared all the same.
unfoldable pub get_content_encoding : Option HttpMessage → Run ContentEncoding
unfolding encoding_of
get_content_encoding message = do
  value ← http_message_get_header_field message (some content_encoding_name)
  elim value [ none ↦ fault null_pointer | some found ↦ encoding_of found ]

abbrev pub is_identity : ContentEncoding → Bool
is_identity identity = true
is_identity _ = false

abbrev pub max_wbits : ℕ
max_wbits = 15

-- the call for the encoding
abbrev pub start_stream : {Z : Type 0} ⦃zlib : Zlib Z⦄ → ContentEncoding → ZCode × Z
start_stream ⦃zlib⦄ identity = (z_ok, zlib.zeroed)
start_stream ⦃zlib⦄ deflate = zlib.inflate_init zlib.zeroed
start_stream ⦃zlib⦄ gzip = zlib.inflate_init2 zlib.zeroed (16 + max_wbits)

-- Whether the last `n` bytes of the first `e` of a buffer reach into its first `n`.
abbrev pub overlaps : Option ℕ → ℕ → Bool
overlaps none n = false
overlaps (some e) n = ltb e (n + n)

module _ {P Z World : Type 0} ⦃zlib : Zlib Z⦄ where
  -- `memset` of the stream, `malloc` and `memset` of the buffers, and the call for the encoding
  abbrev pub open_stream : ContentEncoding → Session P Z World → ZCode × Session P Z World
  open_stream encoding s =
      let (code, stream) = start_stream encoding in
      (
        code,
        with_context s (record (s.context) {
          avail_in = 0;
          zlib_stream = stream;
          decode_in_buffer = some [];
          decode_out_buffer = some [];
        }),
      )

  unfoldable pub init_buffers : ContentEncoding → Session P Z World → ZCode × Session P Z World
  init_buffers encoding s =
      if (s.need_decode == 0) || is_identity encoding
      then (
        z_ok,
        with_context s (record (s.context) { decode_in_buffer = none; decode_out_buffer = none }),
      )
      else open_stream encoding s

  unfoldable pub message_inflate_init : Session P Z World → Run (ZCode × Session P Z World)
  message_inflate_init s = do
    encoding ← get_content_encoding s.message
    ok (init_buffers encoding (with_context s (record (s.context) { content_encoding = encoding })))

  -- The result of `inflateEnd` is ignored by every caller.
  unfoldable pub message_inflate_end : Session P Z World → Session P Z World
  message_inflate_end s = with_context s (record (s.context) {
    zlib_stream = (zlib.inflate_end s.zlib_stream).1;
    decode_in_buffer = none;
    decode_out_buffer = none;
  })

  -- one call of `inflate`, and of the callback if it gave bytes
  unfoldable pub deliver :
      (ℕ → List ℕ → World → World) → List ℕ → Inflated Z → Session P Z World → Session P Z World
  deliver body_data input r s =
      let t : Session P Z World = with_context s (record (s.context) {
        avail_in = length (drop r.consumed input);
        zlib_stream = r.stream;
        decode_out_buffer = some r.output;
      }) in
      elim r.code [
        | z_error n ↦ t
        | _ ↦
            if length r.output == 0 then t else record t { world = body_data s.id r.output s.world }
      ]

  -- The tail that is left goes to the start of the input buffer, by `memcpy`, which must not be given
  -- memory that overlaps. `within` says where the input ends in that buffer, if it stands there.
  unfoldable pub move_tail : Option ℕ → List ℕ → Session P Z World → Run (ℕ × Session P Z World)
  move_tail within [] s = ok (0, s)
  move_tail within (b ∷ tail) s = elim s.decode_in_buffer [
    | none ↦ fault null_pointer
    | some old ↦
        if leb (length (b ∷ tail)) zlib_decompress_chunk_size
        then if overlaps within (length (b ∷ tail))
          then fault overlapping_copy
          else ok (0, with_context s (record (s.context) { decode_in_buffer = some (b ∷ tail) }))
        else fault out_of_bounds
  ]

  -- the `do … while` loop and what follows it, with `input` at `next_in`
  unfoldable pub inflate_loop :
      ℕ
      → Option ℕ
      → (ℕ → List ℕ → World → World)
      → List ℕ
      → Session P Z World
      → Run (ℕ × Session P Z World)
  inflate_loop zero within body_data input s = fault out_of_fuel
  inflate_loop (suc fuel) within body_data input s =
      let r = zlib.inflate s.zlib_stream input zlib_decompress_chunk_size in
      let t = deliver body_data input r s in
      elim r.code [
        | z_stream_end ↦ ok (0, message_inflate_end t)
        | z_error n ↦ ok (1, message_inflate_end t)
        | z_ok ↦
            let again = inflate_loop fuel within body_data (drop r.consumed input) t in
            if ltb 0 t.avail_in && not (s.avail_in == t.avail_in)
            then again
            else move_tail within (drop r.consumed input) t
      ]

  abbrev pub run_inflate :
      Option ℕ
      → (ℕ → List ℕ → World → World)
      → List ℕ
      → Session P Z World
      → Run (ℕ × Session P Z World)
  run_inflate within body_data input s =
      inflate_loop (suc (length input)) within body_data input
        (with_context s (record (s.context) { avail_in = length input }))

  -- bytes behind those that the input buffer keeps
  unfoldable pub inflate_more :
      (ℕ → List ℕ → World → World) → List ℕ → Session P Z World → Run (ℕ × Session P Z World)
  inflate_more body_data bytes s =
      if ltb zlib_decompress_chunk_size (s.avail_in + length bytes)
      then ok (1, message_inflate_end s)
      else elim s.decode_in_buffer [
        | none ↦ fault null_pointer
        | some old ↦
            let input = take s.avail_in old ++ bytes in
            run_inflate (some (length input)) body_data input
              (with_context s (record (s.context) { decode_in_buffer = some input }))
      ]

  unfoldable pub message_inflate :
      (ℕ → List ℕ → World → World) → List ℕ → Session P Z World → Run (ℕ × Session P Z World)
  message_inflate body_data bytes s = elim s.decode_out_buffer [
    | none ↦ ok (1, s)
    | some out ↦
        if ltb 0 s.avail_in
        then inflate_more body_data bytes s
        else run_inflate none body_data (take (length bytes % 2 ^ 32) bytes) s
  ]
