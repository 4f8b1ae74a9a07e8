-- ===== src/Message/Add.antt =====
-- `http_message_add_header_field`, and the addition of a header with its value.
use http_library.Prelude.{
  ℕ, suc, ◌+◌, ◌-◌, ◌%◌, ◌<◌, ◌≡◌, refl, ap, inl, inr, some, List, [], ◌∷◌, ◌++◌, arith,
  Option-cases, length, set, take, length-append, take_all,
}
use http_library.Memory.{Run, ok, at, null, tolower, append_chars}
use http_library.Memory.Strings.{IsText, c_string}
use http_library.Message.{
  HttpMessage, HttpHeaderField, u32, empty_field, last_index, append_name, clear_value, write_field,
  add_http_header_param, http_message_add_header_field,
}
use http_library.Message.View.{
  Header, MessageView, IsCleanView, c_field, c_fields, represent, with_headers, edited, append_new,
}
use http_library.Message.Search.{
  tolower-KeepsNul, find_field-find_index, find_index, find_index-Split, find_index-Absent,
}

length-c_fields : (hs : List Header) → length (c_fields hs) ≡ length hs
length-c_fields [] = refl
length-c_fields (h ∷ hs) = ap suc (length-c_fields hs)

-- A message whose last field is `last`, behind the fields of `v`.
abbrev pub with_last : MessageView → HttpHeaderField → HttpMessage
with_last v last = record (represent v) {
  field_count = suc (length v.headers);
  fields = c_fields v.headers ++ (last ∷ []);
}

module _ (v : MessageView) (room : suc (length v.headers) < u32) where
  pub add_http_header_param-with_last :
      add_http_header_param (represent v) ≡ ok (with_last v empty_field)
  unfolding add_http_header_param
  add_http_header_param-with_last =
      let count : (length v.headers + 1) % u32 ≡ suc (length v.headers) = omega arith in
      let all : take (suc (length v.headers) - 1) (c_fields v.headers) ≡ c_fields v.headers =
        take_all _ _ (omega (arith, length-c_fields v.headers)) in
      rw count (rw all (ground arith))

  pub last_index-with_last :
      (last : HttpHeaderField) → last_index (with_last v last) ≡ length v.headers
  last_index-with_last last = omega arith

at_last : {A : Type 0} (xs : List A) (x : A) → at (xs ++ (x ∷ [])) (length xs) ≡ ok x
unfolding at
at_last [] x = refl
at_last (y ∷ xs) x = at_last xs x

set_last :
    {A : Type 0} (xs : List A) (x y : A) → set (xs ++ (x ∷ [])) (length xs) y ≡ xs ++ (y ∷ [])
set_last [] x y = refl
set_last (z ∷ xs) x y = ap (λ t. z ∷ t) (set_last xs x y)

-- A write to the last field.
pub write_field-with_last :
    (v : MessageView) (last last' : HttpHeaderField)
    (change : HttpHeaderField → Run HttpHeaderField)
    → change last ≡ ok last'
    → write_field (with_last v last) (length v.headers) change ≡ ok (with_last v last')
unfolding write_field
write_field-with_last v last last' change e = rw (← length-c_fields v.headers) (
    rw (at_last (c_fields v.headers) last)
      (rw e (rw (set_last (c_fields v.headers) last last') refl)))

c_fields-append :
    (hs : List Header) (h : Header) → c_fields (hs ++ (h ∷ [])) ≡ c_fields hs ++ (c_field h ∷ [])
c_fields-append [] h = refl
c_fields-append (g ∷ hs) h = ap (λ t. c_field g ∷ t) (c_fields-append hs h)

-- The message with one more header at the end.
pub with_last-represent :
    (v : MessageView) (h : Header)
    → with_last v (c_field h) ≡ represent (with_headers v (v.headers ++ (h ∷ [])))
with_last-represent v h = rw (c_fields-append v.headers h) (
    ap (λ n. record (with_last v (c_field h)) { field_count = n })
      (omega (arith, length-append v.headers (h ∷ []))))

-- To a message whose texts are free of NUL and that has room for one more field below 2^32, a name
-- that is not empty, is free of NUL and begins no header's name, whatever the case, is added at the
-- end with an empty value. Where it begins a header's name the call returns 1 and changes nothing.
pub http_message_add_header_field-append_new :
    (v : MessageView) (c : ℕ) (name : List ℕ)
    → IsCleanView v
    → IsText (c ∷ name)
    → suc (length v.headers) < u32
    → http_message_add_header_field (some (represent v)) (some (c ∷ name))
      ≡ edited v (append_new (c ∷ name) v.headers)
unfolding http_message_add_header_field append_chars append_new
http_message_add_header_field-append_new v c name clean text room =
    rw (find_field-find_index tolower tolower-KeepsNul (c ∷ name) v.headers text clean.headers)
      (elim (Option-cases (find_index tolower (c ∷ name) v.headers)) [
        | inr (i, e) ↦ rw (e, (find_index-Split tolower (c ∷ name) v.headers i e).looked_up)
        | inl e ↦
            let named : HttpHeaderField = record { name = c_string (c ∷ name); value = null } in
            rw (e, (find_index-Absent tolower (c ∷ name) v.headers e).looked_up)
              (rw (add_http_header_param-with_last v room) (
                rw (last_index-with_last v room empty_field) (
                  rw (write_field-with_last v empty_field named (append_name (c ∷ name)) refl) (
                    rw (last_index-with_last v room named) (
                      rw (write_field-with_last v named (c_field (c ∷ name, [])) clear_value refl)
                        (rw (with_last-represent v (c ∷ name, []))))))))
      ])
