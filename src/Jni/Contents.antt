-- ===== src/Jni/Contents.antt =====
-- What the native methods hand to Java of a message (http-parser-java/jni/parser.cpp): the header
-- fields by their pointers, and the serialised message.
use http_library.Prelude.{
  ℕ, ◌+◌, ◌<◌, ◌%◌, ◌≡◌, refl, sym, ap, ◌∙◌, append_assoc, length-append, some, List, [], ◌∷◌, ◌++◌,
  map, arith, length, take, take-append,
}
use http_library.Memory.{Run, ok, deref, at}
use http_library.Memory.Strings.{IsText, c_string, strlen_text}
use http_library.Message.{HttpMessage, HttpHeaderField, u32}
use http_library.Message.View.{
  Header, MessageView, IsClean, IsCleanView, c_field, c_fields, represent,
}
use http_library.Message.Raw.{crlf, http_message_raw}
use http_library.Message.Raw.Render.{
  render_first_line, render_fields, rendered, http_message_raw-rendered,
}
use http_library.Jni.{JniEnv}
use http_library.Jni.Message.{
  text_of, field_pointers, get_headers, get_key, get_value, size_bytes, get_bytes, get_bytes_into,
}

text_of-c_string : (s : List ℕ) → IsText s → text_of (c_string s) ≡ ok (some s)
unfolding text_of deref
text_of-c_string s t = rw (strlen_text s [] t) (rw (take-append s (0 ∷ [])) refl)

at-c_fields :
    (front : List HttpHeaderField) (f : HttpHeaderField) (back : List HttpHeaderField)
    → at (front ++ (f ∷ back)) (length front) ≡ ok f
unfolding at
at-c_fields [] f back = refl
at-c_fields (g ∷ front) f back = at-c_fields front f back

module _ {J : Type 0} ⦃env : JniEnv J⦄ where
  -- What `getKey` and `getValue` give for the pointer to a field.
  abbrev pub key_and_value : HttpMessage → J → ℕ → Run (ℕ × J) × Run (ℕ × J)
  key_and_value message vm pointer = (get_key message pointer vm, get_value message pointer vm)

  -- The Java strings of a header.
  abbrev pub java_header : J → Header → Run (ℕ × J) × Run (ℕ × J)
  java_header vm h = (ok (env.new_string_utf (some h.0) vm), ok (env.new_string_utf (some h.1) vm))

  pointers-headers :
      (v : MessageView) (vm : J) (front : List HttpHeaderField) (hs : List Header)
      → IsClean hs
      → c_fields v.headers ≡ front ++ c_fields hs
      → map (key_and_value (represent v) vm) (field_pointers (length hs) (length front))
        ≡ map (java_header vm) hs
  unfolding get_key get_value
  pointers-headers v vm front [] clean e = refl
  pointers-headers v vm front (h ∷ hs) clean e =
      let here : at (c_fields v.headers) (length front) ≡ ok (c_field h) =
        ap (λ l. at l (length front)) e ∙ at-c_fields front (c_field h) (c_fields hs) in
      let longer : length (front ++ (c_field h ∷ [])) ≡ length front + 1 =
        omega (arith, length-append front (c_field h ∷ [])) in
      let rest =
        pointers-headers v vm (front ++ (c_field h ∷ [])) hs clean.1
          (e ∙ sym (append_assoc front (c_field h ∷ []) (c_fields hs))) in
      rw (here, text_of-c_string h.0 clean.0.0, text_of-c_string h.1 clean.0.1)
        (ap (λ l. java_header vm h ∷ l)
          (ap (λ n. map (key_and_value (represent v) vm) (field_pointers (length hs) n))
              (sym longer)
            ∙ rest))

  -- The array that `getHeaders` makes has a pointer for each header field of a message whose texts are
  -- free of NUL, and `getKey` and `getValue` give at these pointers the names and the values of the
  -- headers, in order.
  pub get_headers-headers :
      (v : MessageView) (vm : J)
      → IsCleanView v
      → (pointers : List ℕ) × (get_headers (some (represent v)) vm
          ≡ ok (
              let (array, vm') = env.new_long_array (length v.headers) vm in
              (array, env.set_long_array_region array 0 (length v.headers) pointers vm')))
        × (map (key_and_value (represent v) vm) pointers ≡ map (java_header vm) v.headers)
  unfolding get_headers
  get_headers-headers v vm clean = (
    field_pointers (length v.headers) 0,
    refl,
    pointers-headers v vm [] v.headers clean.headers refl,
  )

  -- Of a message that is serialised as `text`, shorter than 2^32, `sizeBytes` is the length of the
  -- text, and both `getBytes` copy exactly the text.
  pub get_bytes-text :
      (v : MessageView) (vm : J) (arr : ℕ) (line : List ℕ)
      → IsCleanView v
      → render_first_line v v.status ≡ some line
      → let text = (line ++ render_fields v.headers) ++ crlf in
        length text < u32
        → (block : List ℕ) × (take (length text) block ≡ text)
          × (size_bytes (some (represent v)) ≡ ok (length text))
          × (get_bytes (some (represent v)) vm
              ≡ ok (
                  let (made, vm') = env.new_byte_array (length text) vm in
                  (made, env.set_byte_array_region made 0 (length text) block vm')))
          × (get_bytes_into (some (represent v)) arr vm
              ≡ ok (env.set_byte_array_region arr 0 (length text) block vm))
  unfolding size_bytes get_bytes get_bytes_into
  get_bytes-text v vm arr line clean first short =
      let text = (line ++ render_fields v.headers) ++ crlf in
      let raw : http_message_raw (some (represent v)) ≡ ok (some (text ++ (0 ∷ []), length text)) =
        http_message_raw-rendered v clean ∙ ap (λ l. rendered l v.headers) first in
      let whole : length text % u32 ≡ length text = omega arith in
      (
        text ++ (0 ∷ []),
        take-append text (0 ∷ []),
        rw raw (rw whole refl),
        rw raw (rw whole refl),
        rw raw (rw whole refl),
      )
