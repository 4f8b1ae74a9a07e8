-- ===== src/Message/Halts.antt =====
-- The message functions that the parser's callbacks call end (http-parser/src/parser.c).
use http_library.Prelude.{ℕ, zero, suc, ◌+◌, ◌%◌, Option, none, some, List, [], ◌∷◌, ◌==◌, length}
use http_library.Memory.{Run, deref, free, at, strlen, strn_eq, append_chars}
use http_library.Memory.Halts.{
  Halts, Halts-ok, Halts-bounds, Halts-bind, Halts-if, Halts-option, deref-Halts, free-Halts,
  at-Halts, strlen-Halts, strn_eq-Halts, append_chars-Halts,
}
use http_library.Message.{
  HttpHeaderField, HttpMessage, u32, exact, add_http_header_param, write_field, append_name,
  append_value, find_field, free_fields, destroy_http_message, http_message_get_header_field,
}

pub add_http_header_param-Halts : (m : HttpMessage) → Halts (add_http_header_param m)
unfolding add_http_header_param
add_http_header_param-Halts m =
    Halts-if ((m.field_count + 1) % u32 == 0) _ _ (Halts-bounds _) (Halts-ok _)

pub write_field-Halts :
    (m : HttpMessage) (i : ℕ) (change : HttpHeaderField → Run HttpHeaderField)
    → ((f : HttpHeaderField) → Halts (change f))
    → Halts (write_field m i change)
unfolding write_field
write_field-Halts m i change h =
    Halts-bind (at m.fields i) _ (at-Halts m.fields i)
      (λ f. Halts-bind (change f) _ (h f) (λ g. Halts-ok _))

pub append_name-Halts : (src : List ℕ) (f : HttpHeaderField) → Halts (append_name src f)
append_name-Halts src f =
    Halts-bind (append_chars f.name src) _ (append_chars-Halts f.name src) (λ p. Halts-ok _)

pub append_value-Halts : (src : List ℕ) (f : HttpHeaderField) → Halts (append_value src f)
append_value-Halts src f =
    Halts-bind (append_chars f.value src) _ (append_chars-Halts f.value src) (λ p. Halts-ok _)

free_fields-Halts : (n : ℕ) (fields : List HttpHeaderField) → Halts (free_fields n fields)
unfolding free_fields
free_fields-Halts zero fields = Halts-ok tt
free_fields-Halts (suc n) [] = Halts-bounds _
free_fields-Halts (suc n) (f ∷ fields) =
    Halts-bind (free f.name) _ (free-Halts f.name)
      (λ _. Halts-bind (free f.value) _ (free-Halts f.value) (λ _. free_fields-Halts n fields))

pub destroy_http_message-Halts : (m : HttpMessage) → Halts (destroy_http_message m)
unfolding destroy_http_message
destroy_http_message-Halts m = Halts-bind (free m.url) _ (free-Halts m.url) (λ _.
    Halts-bind (free m.status) _ (free-Halts m.status) (λ _.
      Halts-bind (free m.method) _ (free-Halts m.method)
        (λ _. free_fields-Halts m.field_count m.fields)))

find_field-Halts :
    (fold : ℕ → ℕ) (name : List ℕ) (n : ℕ) (fields : List HttpHeaderField)
    → Halts (find_field fold name n fields)
unfolding find_field
find_field-Halts fold name zero fields = Halts-ok none
find_field-Halts fold name (suc n) [] = Halts-bounds _
find_field-Halts fold name (suc n) (f ∷ fields) =
    Halts-bind (deref f.name) _ (deref-Halts f.name) (λ bytes.
      Halts-bind (strn_eq fold (length name) bytes name) _
        (strn_eq-Halts fold (length name) bytes name)
        (λ hit. Halts-if hit _ _ (Halts-ok _) (
          Halts-bind (find_field fold name n fields) _ (find_field-Halts fold name n fields)
            (λ later. Halts-ok _))))

pub http_message_get_header_field-Halts :
    (m : Option HttpMessage) (name : Option (List ℕ)) → Halts (http_message_get_header_field m name)
unfolding http_message_get_header_field
http_message_get_header_field-Halts (some m) (some (c ∷ name)) =
    Halts-bind (find_field exact (c ∷ name) m.field_count m.fields) _
      (find_field-Halts exact (c ∷ name) m.field_count m.fields)
      (λ found. Halts-option found _ _ (Halts-ok none) (λ i.
        Halts-bind (at m.fields i) _ (at-Halts m.fields i) (λ f.
          Halts-bind (deref f.value) _ (deref-Halts f.value)
            (λ bytes. Halts-bind (strlen bytes) _ (strlen-Halts bytes) (λ n. Halts-ok _)))))
http_message_get_header_field-Halts m name = Halts-ok none
