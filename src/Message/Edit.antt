-- ===== src/Message/Edit.antt =====
-- `http_message_get_header_field` and `http_message_set_header_field`, and the other setters,
-- against the view.
use http_library.Prelude.{ℕ, ◌≡◌, inl, inr, some, List, [], ◌∷◌, ◌++◌, Option-cases}
use http_library.Memory.{ok, deref, realloc, set_chars}
use http_library.Memory.Strings.{IsText, strlen_text}
use http_library.Message.{
  exact, write_field, set_value, http_message_get_header_field, http_message_set_header_field,
}
use http_library.Message.View.{
  MessageView, IsCleanView, represent, with_headers, edited, lookup_first, replace_first,
  found_text,
}
use http_library.Message.Search.{
  exact-KeepsNul, find_field-find_index, find_index, find_index-Split, find_index-Absent, Split,
  at-Split, set-Split, hit-IsText, length-Split,
}

-- A write of a value where the loop stopped.
write_value-Split :
    (v : MessageView) {fold : ℕ → ℕ} {name : List ℕ} {i : ℕ} (value : List ℕ)
    (s : Split fold name v.headers i)
    → write_field (represent v) i (set_value value)
      ≡ ok (represent (with_headers v (s.front ++ ((s.hit.0, value) ∷ s.back))))
unfolding write_field set_chars realloc
write_value-Split v value s =
    rw (at-Split s) (rw (set-Split s (s.hit.0, value), length-Split s (s.hit.0, value)))

module _ (v : MessageView) (clean : IsCleanView v) (c : ℕ) (name : List ℕ)
    (text : IsText (c ∷ name)) where
  -- In a message whose texts are free of NUL, with less than 2^32 header fields, a name that is not
  -- empty and free of NUL finds the value of the first header field whose name begins with it, the
  -- case counting, and nothing if there is none.
  pub http_message_get_header_field-lookup_first :
      http_message_get_header_field (some (represent v)) (some (c ∷ name))
      ≡ found_text (lookup_first exact (c ∷ name) v.headers)
  unfolding http_message_get_header_field deref
  http_message_get_header_field-lookup_first =
      rw (find_field-find_index exact exact-KeepsNul (c ∷ name) v.headers text clean.headers)
        (elim (Option-cases (find_index exact (c ∷ name) v.headers)) [
          | inl e ↦ rw (e, (find_index-Absent exact (c ∷ name) v.headers e).looked_up)
          | inr (i, e) ↦
              let s = find_index-Split exact (c ∷ name) v.headers i e in
              rw (e, s.looked_up)
                (rw (at-Split s) (rw (strlen_text s.hit.1 [] (hit-IsText s clean.headers).1)))
        ])

  -- In a message whose texts are free of NUL, with less than 2^32 header fields, and for a name that
  -- is free of NUL, name and value not empty: the first header field whose name begins with the given
  -- name, the case counting, gets the value, and no other part of the message changes. With no such
  -- field the call returns 1 and changes nothing.
  pub http_message_set_header_field-replace_first :
      (d : ℕ) (value : List ℕ)
      → http_message_set_header_field (some (represent v)) (some (c ∷ name)) (some (d ∷ value))
        ≡ edited v (replace_first exact (c ∷ name) (d ∷ value) v.headers)
  unfolding http_message_set_header_field
  http_message_set_header_field-replace_first d value =
      rw (find_field-find_index exact exact-KeepsNul (c ∷ name) v.headers text clean.headers)
        (elim (Option-cases (find_index exact (c ∷ name) v.headers)) [
          | inl e ↦ rw (e, (find_index-Absent exact (c ∷ name) v.headers e).replaced (d ∷ value))
          | inr (i, e) ↦
              let s = find_index-Split exact (c ∷ name) v.headers i e in
              rw (e, s.replaced (d ∷ value)) (rw (write_value-Split v (d ∷ value) s))
        ])
