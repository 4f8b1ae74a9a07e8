-- ===== src/Message/Setters.antt =====
-- `http_message_set_method`, `http_message_set_url`, `http_message_set_status` and
-- `http_message_set_status_code`, and `http_message_free`.
use http_library.Prelude.{ℕ, ◌%◌, ◌≡◌, refl, Option, none, some, List, [], ◌∷◌, length}
use http_library.Memory.{Run, ok, fault, use_after_free, ◌>>◌, realloc, free, set_chars}
use http_library.Message.{
  u32, free_fields, destroy_http_message, http_message_set_method, http_message_set_url,
  http_message_set_status, http_message_set_status_code,
}
use http_library.Message.View.{Header, MessageView, c_text, c_fields, represent}

free-c_text : (t : Option (List ℕ)) {B : Type 0} (k : Run B) → (free (c_text t) >> k) ≡ k
unfolding free
free-c_text none k = refl
free-c_text (some s) k = refl

-- The setters of the method and of the url replace that text, and the setter of the status code
-- replaces it by the code modulo 2^32; nothing else of the message changes, and all of them return 0.
pub setters_replace :
    (v : MessageView) (text : List ℕ) (code : ℕ)
    → (http_message_set_method (some (represent v)) (some text)
        ≡ ok (0, some (represent (record v { method = some text }))))
      × (http_message_set_url (some (represent v)) (some text)
          ≡ ok (0, some (represent (record v { url = some text }))))
      × (http_message_set_status_code (some (represent v)) code
          ≡ (0, some (represent (record v { status_code = code % u32 }))))
unfolding http_message_set_method http_message_set_url http_message_set_status_code set_chars
    realloc
setters_replace v text code = (rw (free-c_text v.method) refl, rw (free-c_text v.url) refl, refl)

-- A first status text is stored; a second call reads the freed block of the first.
pub http_message_set_status_cases :
    (v : MessageView) (text old : List ℕ)
    → (http_message_set_status (some (represent (record v { status = none }))) (some text)
        ≡ ok (0, some (represent (record v { status = some text }))))
      × (http_message_set_status (some (represent (record v { status = some old }))) (some text)
          ≡ fault use_after_free)
unfolding http_message_set_status set_chars realloc free
http_message_set_status_cases v text old = (refl, refl)

free_fields-c_fields : (hs : List Header) → free_fields (length hs) (c_fields hs) ≡ ok tt
unfolding free_fields free
free_fields-c_fields [] = refl
free_fields-c_fields (h ∷ hs) = free_fields-c_fields hs

-- A message whose texts stand in blocks of their own is destroyed with no double free and no access
-- behind its fields.
pub destroy_http_message-represent : (v : MessageView) → destroy_http_message (represent v) ≡ ok tt
unfolding destroy_http_message
destroy_http_message-represent v =
    rw (free-c_text v.url)
      (rw (free-c_text v.status) (rw (free-c_text v.method) (free_fields-c_fields v.headers)))
