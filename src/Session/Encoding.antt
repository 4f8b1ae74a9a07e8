-- ===== src/Session/Encoding.antt =====
-- `get_content_encoding` against a plain reading of the header's value.
use mathlib.Core.Path.{subst}
use http_library.Prelude.{
  ℕ, ◌≡◌, refl, inl, inr, ◌||◌, Option, none, some, List, [], ◌∷◌, ◌++◌, arith, if◌then◌else◌,
  Bool-cases, Option-cases, codes, length,
}
use http_library.Memory.{Run, ok, fault, null_pointer, tolower, strn_eq}
use http_library.Memory.Strings.{IsText}
use http_library.Message.{exact}
use http_library.Message.View.{
  Header, MessageView, IsClean, IsCleanView, represent, is_prefix, lookup_first,
}
use http_library.Message.Search.{tolower-KeepsNul}
use http_library.Message.Edit.{http_message_get_header_field-lookup_first}
use http_library.Session.{ContentEncoding, identity, deflate, gzip}
use http_library.Session.Inflate.{content_encoding_name, encoding_of, get_content_encoding}

-- The encoding that the header's value is taken for: a value that begins the name of an encoding,
-- whatever the case, is read as that encoding.
unfoldable pub encoding_named : List ℕ → ContentEncoding
encoding_named value =
    if is_prefix tolower value (codes "gzip") || is_prefix tolower value (codes "x-gzip")
    then gzip
    else (if is_prefix tolower value (codes "deflate") then deflate else identity)

-- With the value as the first string.
strn_eq-is_prefix_left :
    (value name : List ℕ)
    → IsText value
    → IsText name
    → strn_eq tolower (length value) (value ++ (0 ∷ [])) (name ++ (0 ∷ []))
      ≡ ok (is_prefix tolower value name)
unfolding strn_eq is_prefix
strn_eq-is_prefix_left [] name p q = refl
strn_eq-is_prefix_left (a ∷ value) [] p q = ground (arith, tolower-KeepsNul a p.0)
strn_eq-is_prefix_left (a ∷ value) (b ∷ name) p q =
    rw (strn_eq-is_prefix_left value name p.1 q.1) (ground arith)

encoding_of-encoding_named :
    (value : List ℕ)
    → IsText value
    → encoding_of (value ++ (0 ∷ []), length value) ≡ ok (encoding_named value)
unfolding encoding_of encoding_named
encoding_of-encoding_named value t =
    rw
      (
        strn_eq-is_prefix_left value (codes "gzip") t (omega arith),
        strn_eq-is_prefix_left value (codes "x-gzip") t (omega arith),
        strn_eq-is_prefix_left value (codes "deflate") t (omega arith),
      )
      (ground arith)

lookup_first-IsText :
    (fold : ℕ → ℕ) (name : List ℕ) (hs : List Header) (value : List ℕ)
    → IsClean hs
    → lookup_first fold name hs ≡ some value
    → IsText value
unfolding lookup_first
lookup_first-IsText fold name [] value clean e = absurd (ground arith)
lookup_first-IsText fold name (h ∷ hs) value clean e = elim (Bool-cases (is_prefix fold name h.0)) [
  | inl hit ↦ let same : h.1 ≡ value = ground arith in subst IsText same clean.0.1
  | inr miss ↦ lookup_first-IsText fold name hs value clean.1 (rw miss at e)
]

-- What the lookup of the header leads to.
abbrev pub encoding_found : Option (List ℕ) → Run ContentEncoding
encoding_found none = fault null_pointer
encoding_found (some value) = ok (encoding_named value)

-- Of a message whose texts are free of NUL, with less than 2^32 header fields: the body's encoding is
-- gzip if the value of the first header whose name begins with
-- "Content-Encoding" is, whatever the case, a front part of "gzip" or "x-gzip", deflate if it is
-- one of "deflate", and else identity. An empty value counts as gzip. With no such header a null
-- pointer is read.
pub get_content_encoding-encoding_found :
    (v : MessageView)
    → IsCleanView v
    → get_content_encoding (some (represent v))
      ≡ encoding_found (lookup_first exact content_encoding_name v.headers)
unfolding get_content_encoding
get_content_encoding-encoding_found v clean =
    rw
      (http_message_get_header_field-lookup_first v clean b'C' (codes "ontent-Encoding")
        (omega arith))
      (elim (Option-cases (lookup_first exact content_encoding_name v.headers)) [
        | inl e ↦ rw e
        | inr (value, e) ↦ rw e (
            encoding_of-encoding_named value
              (lookup_first-IsText exact content_encoding_name v.headers value clean.headers e))
      ])
