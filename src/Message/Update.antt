-- ===== src/Message/Update.antt =====
-- The header operations together: a value that is set and read back, and the addition of a header
-- with its value by the Java binding (http-parser-java/jni/parser.cpp).
use http_library.Prelude.{
  ℕ, suc, ◌<◌, ◌≡◌, refl, ap, inl, inr, true, false, Option, none, some, List, [], ◌∷◌, ◌++◌, arith,
  Bool-cases, Option-cases, length, length-append, All-append,
}
use http_library.Memory.{Run, ok, ◌>>=◌, tolower}
use http_library.Memory.Strings.{IsText}
use http_library.Message.{
  HttpMessage, u32, exact, http_message_get_header_field, http_message_set_header_field,
  http_message_add_header_field,
}
use http_library.Message.View.{
  Header, MessageView, IsClean, IsCleanView, represent, with_headers, is_prefix, lookup_first,
  replace_first, append_new, found_text,
}
use http_library.Message.Edit.{
  http_message_get_header_field-lookup_first, http_message_set_header_field-replace_first,
}
use http_library.Message.Add.{http_message_add_header_field-append_new}

module _ (name value : List ℕ) where
  replace_first-none :
      (hs : List Header)
      → lookup_first exact name hs ≡ none
      → replace_first exact name value hs ≡ none
  unfolding lookup_first replace_first
  replace_first-none [] e = refl
  replace_first-none (h ∷ hs) e = ground (arith, replace_first-none hs)

  -- What a replacement leaves behind.
  record Replaced (hs : List Header) : Type 0 where
    after : List Header
    made : replace_first exact name value hs ≡ some after
    found : lookup_first exact name after ≡ some value
    clean : IsText value → IsClean hs → IsClean after
    size : length after ≡ length hs

  replace_first-Replaced :
      (hs : List Header) (old : List ℕ) → lookup_first exact name hs ≡ some old → Replaced hs
  unfolding lookup_first replace_first
  replace_first-Replaced [] old e = absurd (ground arith)
  replace_first-Replaced (h ∷ hs) old e = elim (Bool-cases (is_prefix exact name h.0)) [
    | inl hit ↦ record {
      after = (h.0, value) ∷ hs;
      made = rw hit;
      found = rw hit;
      clean = λ t c. ((c.0.0, t), c.1);
      size = refl;
    }
    | inr miss ↦
        let r = replace_first-Replaced hs old (rw miss at e) in
        record {
          after = h ∷ r.after;
          made = rw (miss, r.made);
          found = rw miss r.found;
          clean = λ t c. (c.0, r.clean t c.1);
          size = ap suc r.size;
        }
  ]

-- the value that a lookup finds, once another value is set in its place
abbrev pub overwritten : Option (List ℕ) → List ℕ → Option (List ℕ)
overwritten none value = none
overwritten (some old) value = some value

-- In a message whose texts are free of NUL, with less than 2^32 header fields, and for a name and a
-- value that are not empty and free of NUL: a header value that was set is what the same name finds
-- afterwards, if it found a value before; else nothing is found before or after.
pub get-set :
    (v : MessageView) (c : ℕ) (name : List ℕ) (d : ℕ) (value : List ℕ)
    → IsCleanView v
    → IsText (c ∷ name)
    → IsText (d ∷ value)
    → (http_message_set_header_field (some (represent v)) (some (c ∷ name)) (some (d ∷ value))
        >>= λ r. http_message_get_header_field r.1 (some (c ∷ name)))
      ≡ found_text (overwritten (lookup_first exact (c ∷ name) v.headers) (d ∷ value))
get-set v c name d value clean text valued =
    rw (http_message_set_header_field-replace_first v clean c name text d value)
      (elim (Option-cases (lookup_first exact (c ∷ name) v.headers)) [
        | inl e ↦
            rw
              (
                replace_first-none (c ∷ name) (d ∷ value) v.headers e,
                http_message_get_header_field-lookup_first v clean c name text,
              )
              (rw e)
        | inr (old, e) ↦
            let r = replace_first-Replaced (c ∷ name) (d ∷ value) v.headers old e in
            let after : IsCleanView (with_headers v r.after) = record {
              method = clean.method;
              url = clean.url;
              status = clean.status;
              headers = r.clean valued clean.headers;
              few = omega (arith, r.size);
            } in
            rw (
              r.made,
              http_message_get_header_field-lookup_first (with_headers v r.after) after c name text,
              r.found,
              e,
            )
      ])

-- `Java_com_adguard_http_parser_HttpMessage_addHeader`: the results are ignored.
unfoldable pub add_header : HttpMessage → List ℕ → List ℕ → Run (Option HttpMessage)
add_header message name value = do
  (_, added) ← http_message_add_header_field (some message) (some name)
  (_, valued) ← http_message_set_header_field added (some name) (some value)
  ok valued

is_prefix_self : (name : List ℕ) → is_prefix exact name name ≡ true
unfolding is_prefix
is_prefix_self [] = refl
is_prefix_self (b ∷ name) = rw (is_prefix_self name) (ground arith)

-- A prefix is a prefix whatever the case.
is_prefix-tolower :
    (name s : List ℕ) → is_prefix tolower name s ≡ false → is_prefix exact name s ≡ false
unfolding is_prefix
is_prefix-tolower [] s e = e
is_prefix-tolower (c ∷ name) [] e = refl
is_prefix-tolower (c ∷ name) (b ∷ s) e = ground (arith, is_prefix-tolower name s)

replace_first-append :
    (name value : List ℕ) (hs : List Header)
    → lookup_first tolower name hs ≡ none
    → replace_first exact name value (hs ++ ((name, []) ∷ [])) ≡ some (hs ++ ((name, value) ∷ []))
unfolding lookup_first replace_first
replace_first-append name value [] e = rw (is_prefix_self name)
replace_first-append name value (h ∷ hs) e =
    let miss : is_prefix tolower name h.0 ≡ false = ground arith in
    let rest : lookup_first tolower name hs ≡ none = ground arith in
    rw (is_prefix-tolower name h.0 miss, replace_first-append name value hs rest)

-- To a message whose texts are free of NUL and that has room for one more field below 2^32, the
-- binding adds a header, its name and value not empty and the name free of NUL, with its value behind
-- the others, where no header's name begins with the new name, whatever the case.
pub add_header-append :
    (v : MessageView) (c : ℕ) (name : List ℕ) (d : ℕ) (value : List ℕ)
    → IsCleanView v
    → IsText (c ∷ name)
    → suc (length v.headers) < u32
    → lookup_first tolower (c ∷ name) v.headers ≡ none
    → add_header (represent v) (c ∷ name) (d ∷ value)
      ≡ ok (some (represent (with_headers v (v.headers ++ ((c ∷ name, d ∷ value) ∷ [])))))
unfolding add_header append_new
add_header-append v c name d value clean text room fresh =
    let added = with_headers v (v.headers ++ ((c ∷ name, []) ∷ [])) in
    let still : IsCleanView added = record {
      method = clean.method;
      url = clean.url;
      status = clean.status;
      headers = All-append _ v.headers ((c ∷ name, []) ∷ []) clean.headers ((text, tt), tt);
      few = omega (arith, length-append v.headers ((c ∷ name, []) ∷ []));
    } in
    rw (
      http_message_add_header_field-append_new v c name clean text room,
      fresh,
      http_message_set_header_field-replace_first added still c name text d value,
      replace_first-append (c ∷ name) (d ∷ value) v.headers fresh,
    )
