-- ===== src/Message/Clone.antt =====
-- `http_message_clone`: the copy stands for the same message.
use mathlib.Core.Path.{subst}
use http_library.Prelude.{
  ℕ, suc, ◌+◌, ◌<◌, ◌≡◌, refl, Option, none, some, List, [], ◌∷◌, ◌++◌, arith, length, take-append,
  length-append, append-nil, append_assoc,
}
use http_library.Memory.{ok, null, deref, realloc, set_chars}
use http_library.Memory.Strings.{c_string, strlen_text}
use http_library.Message.{
  HttpHeaderField, u32, empty_field, set_name, set_value, clone_text, clone_fields,
  http_message_clone,
}
use http_library.Message.View.{
  Header, MessageView, IsCleanView, IsCleanText, IsClean, c_text, c_field, c_fields, represent,
  with_headers,
}
use http_library.Message.Add.{
  add_http_header_param-with_last, write_field-with_last, with_last-represent,
}

clone_text-c_text : (t : Option (List ℕ)) → IsCleanText t → clone_text (c_text t) ≡ ok (c_text t)
unfolding clone_text deref set_chars realloc
clone_text-c_text none h = refl
clone_text-c_text (some s) h = rw (strlen_text s [] h) (rw (take-append s (0 ∷ [])) refl)

clone_fields-append :
    (v : MessageView) (front back : List Header)
    → IsClean back
    → length front + length back < u32
    → clone_fields (length back) (length front) (c_fields back) (represent (with_headers v front))
      ≡ ok (represent (with_headers v (front ++ back)))
unfolding clone_fields deref set_chars realloc
clone_fields-append v front [] clean few = rw (append-nil front) refl
clone_fields-append v front (h ∷ back) clean few =
    let w = with_headers v front in
    let named : HttpHeaderField = record { name = c_string h.0; value = null } in
    let next =
      clone_fields-append v (front ++ (h ∷ [])) back clean.1
        (omega (arith, length-append front (h ∷ []))) in
    let longer : length (front ++ (h ∷ [])) ≡ suc (length front) =
      omega (arith, length-append front (h ∷ [])) in
    rw
      (
        add_http_header_param-with_last w (omega arith),
        strlen_text h.0 [] clean.0.0,
        take-append h.0 (0 ∷ []),
        write_field-with_last w empty_field named (set_name h.0) refl,
        strlen_text h.1 [] clean.0.1,
        take-append h.1 (0 ∷ []),
        write_field-with_last w named (c_field h) (set_value h.1) refl,
        with_last-represent w h,
      )
      (subst
        (λ n.
          clone_fields (length back) n (c_fields back)
            (represent (with_headers v (front ++ (h ∷ []))))
          ≡ ok (represent (with_headers v (front ++ (h ∷ back)))))
        longer (rw (append_assoc front (h ∷ []) back) at next))

-- Of a message whose texts are free of NUL, with less than 2^32 header fields, the clone stands for the same texts, the same status
-- code and the same header fields in the same order, in blocks of its own.
pub http_message_clone-represent :
    (v : MessageView) → IsCleanView v → http_message_clone (represent v) ≡ ok (represent v)
unfolding http_message_clone
http_message_clone-represent v clean =
    rw
      (
        clone_text-c_text v.url clean.url,
        clone_text-c_text v.status clean.status,
        clone_text-c_text v.method clean.method,
      )
      (clone_fields-append v [] v.headers clean.headers (omega arith))
