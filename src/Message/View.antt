-- ===== src/Message/View.antt =====
-- What a message stands for: its texts and its header fields in order, and the block of memory
-- that represents them.
use http_library.Prelude.{
  ℕ, Bool, true, false, ◌&&◌, Option, none, some, List, [], ◌∷◌, ◌++◌, ◌==◌, if◌then◌else◌, length,
  All, ◌<◌,
}
use http_library.Memory.{Run, ok, Ptr, null, tolower}
use http_library.Memory.Strings.{IsText, c_string}
use http_library.Message.{HttpHeaderField, HttpMessage, u32}

-- name and value
abbrev pub Header : Type 0
Header = List ℕ × List ℕ

pub record MessageView : Type 0 where
  pub method : Option (List ℕ)
  pub url : Option (List ℕ)
  pub status : Option (List ℕ)
  pub status_code : ℕ
  pub headers : List Header

abbrev pub c_text : Option (List ℕ) → Ptr
c_text none = null
c_text (some s) = c_string s

abbrev pub c_field : Header → HttpHeaderField
c_field h = record { name = c_string h.0; value = c_string h.1 }

abbrev pub c_fields : List Header → List HttpHeaderField
c_fields [] = []
c_fields (h ∷ hs) = c_field h ∷ c_fields hs

abbrev pub represent : MessageView → HttpMessage
represent v = record {
  method = c_text v.method;
  url = c_text v.url;
  status = c_text v.status;
  status_code = v.status_code;
  field_count = length v.headers;
  fields = c_fields v.headers;
}

abbrev pub with_headers : MessageView → List Header → MessageView
with_headers v hs = record v { headers = hs }

abbrev pub IsClean : List Header → Type 0
IsClean = All (λ h. IsText h.0 × IsText h.1)

abbrev pub IsCleanText : Option (List ℕ) → Type 0
IsCleanText none = Unit
IsCleanText (some s) = IsText s

-- Every text is free of NUL, and the count of the header fields fits its type.
pub record IsCleanView (v : MessageView) : Type 0 where
  pub method : IsCleanText v.method
  pub url : IsCleanText v.url
  pub status : IsCleanText v.status
  pub headers : IsClean v.headers
  pub few : length v.headers < u32

-- `name` is a prefix of `s`, with both folded.
unfoldable pub is_prefix : (ℕ → ℕ) → List ℕ → List ℕ → Bool
is_prefix fold [] s = true
is_prefix fold (c ∷ name) [] = false
is_prefix fold (c ∷ name) (b ∷ s) = (fold b == fold c) && is_prefix fold name s

-- The value of the first header whose name has the prefix, and the list with that header's value
-- replaced or with that header left out.
unfoldable pub lookup_first : (ℕ → ℕ) → List ℕ → List Header → Option (List ℕ)
lookup_first fold name [] = none
lookup_first fold name (h ∷ hs) =
    if is_prefix fold name h.0 then some h.1 else lookup_first fold name hs

abbrev pub cons_some : Header → Option (List Header) → Option (List Header)
cons_some h none = none
cons_some h (some hs) = some (h ∷ hs)

unfoldable pub replace_first : (ℕ → ℕ) → List ℕ → List ℕ → List Header → Option (List Header)
replace_first fold name value [] = none
replace_first fold name value (h ∷ hs) =
    let rest = replace_first fold name value hs in
    if is_prefix fold name h.0 then some ((h.0, value) ∷ hs) else cons_some h rest

unfoldable pub remove_first : (ℕ → ℕ) → List ℕ → List Header → Option (List Header)
remove_first fold name [] = none
remove_first fold name (h ∷ hs) =
    let rest = remove_first fold name hs in
    if is_prefix fold name h.0 then some hs else cons_some h rest

abbrev pub unless_found : Option (List ℕ) → List Header → Option (List Header)
unless_found none hs = some hs
unless_found (some value) hs = none

-- The list with a new header of no value behind, unless a header's name has the prefix.
unfoldable pub append_new : List ℕ → List Header → Option (List Header)
append_new name hs = unless_found (lookup_first tolower name hs) (hs ++ ((name, []) ∷ []))

-- The result of an edit of the headers of `v` that gives the new list, or that is rejected.
abbrev pub edited : MessageView → Option (List Header) → Run (ℕ × Option HttpMessage)
edited v none = ok (1, some (represent v))
edited v (some hs) = ok (0, some (represent (with_headers v hs)))

-- What the lookup returns for the value that was found: its block and its length.
abbrev pub found_text : Option (List ℕ) → Run (Option (List ℕ × ℕ))
found_text none = ok none
found_text (some value) = ok (some (value ++ 0 ∷ [], length value))
