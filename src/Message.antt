-- ===== src/Message.antt =====
-- HTTP messages: `http_header_field`, `http_message` (http-parser/src/parser.h) and the functions
-- on them (http-parser/src/parser.c).
-- `unsigned int` fields wrap at 2 ^ 32. The array behind `fields` is a list beside its count; a
-- `NULL` array is the empty list. A parameter `message`, `name` or `value` that may be `NULL` is an
-- `Option`, and a character array is the list of its bytes, which gives its length argument too.
pub mod Raw
pub mod View
pub mod Search
pub mod Edit
pub mod Setters
pub mod Add
pub mod Delete
pub mod Clone
pub mod Update
pub mod Interface
pub mod Halts
pub mod Commands
mod Tests
use http_library.Prelude.{
  ℕ, zero, suc, ◌+◌, ◌-◌, ◌%◌, ◌^◌, Bool, true, false, Option, none, some, List, [], ◌∷◌, ◌++◌,
  ◌==◌, if◌then◌else◌, length, set, take,
}
use http_library.Memory.{
  Fault, out_of_bounds, Run, ok, fault, ◌>>=◌, ◌>>◌, Ptr, null, deref, free, at, strlen, tolower,
  strn_eq, append_chars, set_chars, live,
}

pub record HttpHeaderField : Type 0 where
  pub name : Ptr
  pub value : Ptr

pub record HttpMessage : Type 0 where
  pub method : Ptr
  pub url : Ptr
  pub status : Ptr
  pub status_code : ℕ
  pub field_count : ℕ
  pub fields : List HttpHeaderField

abbrev pub u32 : ℕ
u32 = 2 ^ 32

abbrev pub empty_field : HttpHeaderField
empty_field = record { name = null; value = null }

-- `calloc`, and `malloc` followed by `memset`
abbrev pub http_message_create : HttpMessage
http_message_create = record {
  method = null;
  url = null;
  status = null;
  status_code = 0;
  field_count = 0;
  fields = [];
}

-- `field_count - 1`, as an index
abbrev pub last_index : HttpMessage → ℕ
last_index message = (message.field_count + u32 - 1) % u32

-- `realloc` leaves room for `field_count` fields, and the last one is zeroed.
-- If the count wraps to 0, the index of the last field is out of bounds.
unfoldable pub add_http_header_param : HttpMessage → Run HttpMessage
add_http_header_param message =
    let count = (message.field_count + 1) % u32 in
    if count == 0
    then fault out_of_bounds
    else ok (record message {
      field_count = count;
      fields = take (count - 1) message.fields ++ (empty_field ∷ []);
    })

-- a write to `fields[i]`
unfoldable pub write_field :
    HttpMessage → ℕ → (HttpHeaderField → Run HttpHeaderField) → Run HttpMessage
write_field message i change = do
  field ← at message.fields i
  field' ← change field
  ok (record message { fields = set message.fields i field' })

abbrev pub append_name : List ℕ → HttpHeaderField → Run HttpHeaderField
append_name src field = do p ← append_chars field.name src; ok (record field { name = p })

abbrev pub append_value : List ℕ → HttpHeaderField → Run HttpHeaderField
append_value src field = do p ← append_chars field.value src; ok (record field { value = p })

abbrev pub set_name : List ℕ → HttpHeaderField → Run HttpHeaderField
set_name src field = do p ← set_chars field.name src; ok (record field { name = p })

abbrev pub set_value : List ℕ → HttpHeaderField → Run HttpHeaderField
set_value src field = do p ← set_chars field.value src; ok (record field { value = p })

-- `value = calloc(1, 1)`
abbrev pub clear_value : HttpHeaderField → Run HttpHeaderField
clear_value field = ok (record field { value = live (0 ∷ []) })

free_fields : ℕ → List HttpHeaderField → Run (Unit {0})
free_fields zero fields = ok tt
free_fields (suc n) [] = fault out_of_bounds
free_fields (suc n) (field ∷ fields) = do free field.name; free field.value; free_fields n fields

pub destroy_http_message : HttpMessage → Run (Unit {0})
unfolding free_fields
destroy_http_message message = do
  free message.url
  free message.status
  free message.method
  free_fields message.field_count message.fields

-- `for (i = 0; i < field_count; i++) if (!strn…cmp(fields[i].name, name, length))`: the first
-- index at which the test holds
unfoldable pub find_field : (ℕ → ℕ) → List ℕ → ℕ → List HttpHeaderField → Run (Option ℕ)
find_field fold name zero fields = ok none
find_field fold name (suc n) [] = fault out_of_bounds
find_field fold name (suc n) (field ∷ fields) = do
  bytes ← deref field.name
  hit ← strn_eq fold (length name) bytes name
  if hit then ok (some 0) else (do
    later ← find_field fold name n fields
    ok (elim later [ none ↦ none | some i ↦ some (suc i) ]))

-- `strncmp` compares the bytes as they are.
abbrev pub exact : ℕ → ℕ
exact b = b

pub http_message_set_method : Option HttpMessage → Option (List ℕ) → Run (ℕ × Option HttpMessage)
http_message_set_method message none = ok (1, message)
http_message_set_method none (some method) = ok (1, none)
http_message_set_method (some message) (some method) = do
  free message.method
  p ← set_chars null method
  ok (0, some (record message { method = p }))

pub http_message_set_url : Option HttpMessage → Option (List ℕ) → Run (ℕ × Option HttpMessage)
http_message_set_url message none = ok (1, message)
http_message_set_url none (some url) = ok (1, none)
http_message_set_url (some message) (some url) = do
  free message.url
  p ← set_chars null url
  ok (0, some (record message { url = p }))

-- `status` is not reset to `NULL` after it is freed.
pub http_message_set_status : Option HttpMessage → Option (List ℕ) → Run (ℕ × Option HttpMessage)
http_message_set_status message none = ok (1, message)
http_message_set_status none (some status) = ok (1, none)
http_message_set_status (some message) (some status) = do
  old ← free message.status
  p ← set_chars old status
  ok (0, some (record message { status = p }))

pub http_message_set_status_code : Option HttpMessage → ℕ → ℕ × Option HttpMessage
http_message_set_status_code none status_code = (1, none)
http_message_set_status_code (some message) status_code =
    (0, some (record message { status_code = status_code % u32 }))

pub http_message_set_header_field :
    Option HttpMessage → Option (List ℕ) → Option (List ℕ) → Run (ℕ × Option HttpMessage)
http_message_set_header_field (some message) (some (c ∷ name)) (some (v ∷ value)) = do
  found ← find_field exact (c ∷ name) message.field_count message.fields
  elim found [
    | none ↦ ok (1, some message)
    | some i ↦ do message' ← write_field message i (set_value (v ∷ value)); ok (0, some message')
  ]
http_message_set_header_field message name value = ok (1, message)

-- the block of the value, and what is written to `*p_value_length`
unfoldable pub http_message_get_header_field :
    Option HttpMessage → Option (List ℕ) → Run (Option (List ℕ × ℕ))
http_message_get_header_field (some message) (some (c ∷ name)) = do
  found ← find_field exact (c ∷ name) message.field_count message.fields
  elim found [
    | none ↦ ok none
    | some i ↦ do
      field ← at message.fields i
      bytes ← deref field.value
      value_length ← strlen bytes
      ok (some (bytes, value_length))
  ]
http_message_get_header_field message name = ok none

pub http_message_add_header_field :
    Option HttpMessage → Option (List ℕ) → Run (ℕ × Option HttpMessage)
http_message_add_header_field (some message) (some (c ∷ name)) = do
  found ← find_field tolower (c ∷ name) message.field_count message.fields
  elim found [
    | some i ↦ ok (1, some message)
    | none ↦ do
      longer ← add_http_header_param message
      named ← write_field longer (last_index longer) (append_name (c ∷ name))
      valued ← write_field named (last_index named) clear_value
      ok (0, some valued)
  ]
http_message_add_header_field message name = ok (1, message)

-- `for (j = …; j < field_count; j++) fields[j - 1] = fields[j]`, with `n` rounds left
shift_fields : ℕ → ℕ → List HttpHeaderField → Run (List HttpHeaderField)
shift_fields zero j fields = ok fields
shift_fields (suc n) j fields = do
  field ← at fields j
  shift_fields n (suc j) (set fields (j - 1) field)

pub http_message_del_header_field :
    Option HttpMessage → Option (List ℕ) → Run (ℕ × Option HttpMessage)
unfolding shift_fields
http_message_del_header_field (some message) (some (c ∷ name)) = do
  found ← find_field tolower (c ∷ name) message.field_count message.fields
  elim found [
    | none ↦ ok (1, some message)
    | some i ↦ do
      field ← at message.fields i
      free field.name
      free field.value
      shifted ← shift_fields (message.field_count - (i + 1)) (i + 1) message.fields
      let count = (message.field_count + u32 - 1) % u32
      ok (0, some (record message { field_count = count; fields = take count shifted }))
  ]
http_message_del_header_field message name = ok (1, message)

-- `if (source->p != NULL) set_chars(&message->p, source->p, strlen(source->p))`
clone_text : Ptr → Run Ptr
clone_text null = ok null
clone_text p = do bytes ← deref p; n ← strlen bytes; set_chars null (take n bytes)

clone_fields : ℕ → ℕ → List HttpHeaderField → HttpMessage → Run HttpMessage
clone_fields zero i fields message = ok message
clone_fields (suc n) i [] message = fault out_of_bounds
clone_fields (suc n) i (field ∷ fields) message = do
  longer ← add_http_header_param message
  name ← deref field.name
  name_length ← strlen name
  named ← write_field longer i (set_name (take name_length name))
  value ← deref field.value
  value_length ← strlen value
  valued ← write_field named i (set_value (take value_length value))
  clone_fields n (suc i) fields valued

pub http_message_clone : HttpMessage → Run HttpMessage
unfolding clone_text clone_fields
http_message_clone source = do
  url ← clone_text source.url
  status ← clone_text source.status
  method ← clone_text source.method
  let head : HttpMessage = record http_message_create {
    url = url;
    status = status;
    method = method;
    status_code = source.status_code;
  }
  clone_fields source.field_count 0 source.fields head
