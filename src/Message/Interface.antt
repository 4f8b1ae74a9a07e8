-- ===== src/Message/Interface.antt =====
-- The message functions that http-parser/src/parser.h offers, as an interface over a type of messages:
-- the operations, what they promise of the messages that stand for views, and the implementation of
-- http-parser/src/parser.c. A pointer argument is `none` for `NULL`, a character array with its length
-- is its bytes, and an operation that changes the message gives back its `int` and the new message.
use http_library.Prelude.{
  ℕ, ◌<◌, ◌%◌, ◌≡◌, refl, ap, ◌∙◌, suc, Option, none, some, List, [], ◌∷◌, length,
}
use http_library.Memory.{Run, ok, tolower, set_chars, realloc, free}
use http_library.Memory.Strings.{IsText}
use http_library.Message.{
  HttpMessage, u32, exact, http_message_create, http_message_clone, destroy_http_message,
  http_message_set_method, http_message_set_url, http_message_set_status,
  http_message_set_status_code, http_message_set_header_field, http_message_get_header_field,
  http_message_add_header_field, http_message_del_header_field,
}
use http_library.Message.View.{
  Header, MessageView, IsCleanView, c_text, represent, with_headers, lookup_first, replace_first,
  remove_first, append_new, edited, found_text,
}
use http_library.Message.Raw.{http_message_raw}
use http_library.Message.Raw.Render.{render_first_line, rendered, http_message_raw-rendered}
use http_library.Message.Edit.{
  http_message_get_header_field-lookup_first, http_message_set_header_field-replace_first,
}
use http_library.Message.Setters.{setters_replace, destroy_http_message-represent}
use http_library.Message.Add.{http_message_add_header_field-append_new}
use http_library.Message.Delete.{http_message_del_header_field-remove_first}
use http_library.Message.Clone.{http_message_clone-represent}

pub record MessageApi (M : Type 0) : Type 0 where
  pub create : M
  pub clone : M → Run M
  pub free : M → Run (Unit {0})
  pub set_method : Option M → Option (List ℕ) → Run (ℕ × Option M)
  pub set_url : Option M → Option (List ℕ) → Run (ℕ × Option M)
  pub set_status : Option M → Option (List ℕ) → Run (ℕ × Option M)
  pub set_status_code : Option M → ℕ → ℕ × Option M
  pub set_header_field : Option M → Option (List ℕ) → Option (List ℕ) → Run (ℕ × Option M)
  pub get_header_field : Option M → Option (List ℕ) → Run (Option (List ℕ × ℕ))
  pub add_header_field : Option M → Option (List ℕ) → Run (ℕ × Option M)
  pub del_header_field : Option M → Option (List ℕ) → Run (ℕ × Option M)
  pub raw : Option M → Run (Option (List ℕ × ℕ))

abbrev pub empty_view : MessageView
empty_view = record { method = none; url = none; status = none; status_code = 0; headers = [] }

-- What an edit of the headers of a view leaves behind, and its `int`.
abbrev pub edited_view : MessageView → Option (List Header) → ℕ × MessageView
edited_view v none = (1, v)
edited_view v (some hs) = (0, with_headers v hs)

-- The result of an operation, for the `int` and the view behind it.
abbrev pub result : {M : Type 0} → (MessageView → M) → ℕ × MessageView → Run (ℕ × Option M)
result stands_for (r, v) = ok (r, some (stands_for v))

-- What the operations promise of the messages that `stands_for` makes of views. A status text is set
-- once.
pub record IsMessageApi {M : Type 0} (api : MessageApi M) (stands_for : MessageView → M)
    : Type 0 where
  pub create : api.create ≡ stands_for empty_view
  pub clone : (v : MessageView) → IsCleanView v → api.clone (stands_for v) ≡ ok (stands_for v)
  pub free : (v : MessageView) → api.free (stands_for v) ≡ ok tt
  pub set_method :
      (v : MessageView) (text : List ℕ)
      → api.set_method (some (stands_for v)) (some text)
        ≡ result stands_for (0, record v { method = some text })
  pub set_url :
      (v : MessageView) (text : List ℕ)
      → api.set_url (some (stands_for v)) (some text)
        ≡ result stands_for (0, record v { url = some text })
  pub set_status :
      (v : MessageView) (text : List ℕ)
      → v.status ≡ none
      → api.set_status (some (stands_for v)) (some text)
        ≡ result stands_for (0, record v { status = some text })
  pub set_status_code :
      (v : MessageView) (code : ℕ)
      → ok (api.set_status_code (some (stands_for v)) code)
        ≡ result stands_for (0, record v { status_code = code % u32 })
  pub set_header_field :
      (v : MessageView) (c : ℕ) (name : List ℕ) (d : ℕ) (value : List ℕ)
      → IsCleanView v
      → IsText (c ∷ name)
      → api.set_header_field (some (stands_for v)) (some (c ∷ name)) (some (d ∷ value))
        ≡ result stands_for (edited_view v (replace_first exact (c ∷ name) (d ∷ value) v.headers))
  pub get_header_field :
      (v : MessageView) (c : ℕ) (name : List ℕ)
      → IsCleanView v
      → IsText (c ∷ name)
      → api.get_header_field (some (stands_for v)) (some (c ∷ name))
        ≡ found_text (lookup_first exact (c ∷ name) v.headers)
  pub add_header_field :
      (v : MessageView) (c : ℕ) (name : List ℕ)
      → IsCleanView v
      → IsText (c ∷ name)
      → suc (length v.headers) < u32
      → api.add_header_field (some (stands_for v)) (some (c ∷ name))
        ≡ result stands_for (edited_view v (append_new (c ∷ name) v.headers))
  pub del_header_field :
      (v : MessageView) (c : ℕ) (name : List ℕ)
      → IsCleanView v
      → IsText (c ∷ name)
      → api.del_header_field (some (stands_for v)) (some (c ∷ name))
        ≡ result stands_for (edited_view v (remove_first tolower (c ∷ name) v.headers))
  pub raw :
      (v : MessageView)
      → IsCleanView v
      → api.raw (some (stands_for v)) ≡ rendered (render_first_line v v.status) v.headers

-- The functions of http-parser/src/parser.c.
abbrev pub http_message_api : MessageApi HttpMessage
http_message_api = record {
  create = http_message_create;
  clone = http_message_clone;
  free = destroy_http_message;
  set_method = http_message_set_method;
  set_url = http_message_set_url;
  set_status = http_message_set_status;
  set_status_code = http_message_set_status_code;
  set_header_field = http_message_set_header_field;
  get_header_field = http_message_get_header_field;
  add_header_field = http_message_add_header_field;
  del_header_field = http_message_del_header_field;
  raw = http_message_raw;
}

edited-result :
    (v : MessageView) (edit : Option (List Header))
    → edited v edit ≡ result represent (edited_view v edit)
edited-result v none = refl
edited-result v (some hs) = refl

set_status-fresh :
    (v : MessageView) (text : List ℕ)
    → v.status ≡ none
    → http_message_set_status (some (represent v)) (some text)
      ≡ result represent (0, record v { status = some text })
unfolding http_message_set_status set_chars realloc free
set_status-fresh v text e =
    ap
      (λ status.
        http_message_set_status (some (record (represent v) { status = c_text status }))
          (some text))
      e

-- The functions of the library keep what the interface promises, for the messages whose texts stand
-- in blocks of their own.
pub http_message_api-IsMessageApi : IsMessageApi http_message_api represent
http_message_api-IsMessageApi = record {
  create = refl;
  clone = http_message_clone-represent;
  free = destroy_http_message-represent;
  set_method = λ v text. (setters_replace v text 0).0;
  set_url = λ v text. (setters_replace v text 0).1;
  set_status = set_status-fresh;
  set_status_code = λ v code. ap ok (setters_replace v [] code).2;
  set_header_field = λ v c name d value clean text.
      http_message_set_header_field-replace_first v clean c name text d value
      ∙ edited-result v (replace_first exact (c ∷ name) (d ∷ value) v.headers);
  get_header_field =
      λ v c name clean text. http_message_get_header_field-lookup_first v clean c name text;
  add_header_field = λ v c name clean text room.
      http_message_add_header_field-append_new v c name clean text room
      ∙ edited-result v (append_new (c ∷ name) v.headers);
  del_header_field = λ v c name clean text.
      http_message_del_header_field-remove_first v c name clean text
      ∙ edited-result v (remove_first tolower (c ∷ name) v.headers);
  raw = http_message_raw-rendered;
}
