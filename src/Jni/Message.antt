-- ===== src/Jni/Message.antt =====
-- The native methods of `HttpMessage` and `HttpHeaderField` (http-parser-java/jni/parser.cpp). The
-- message at `nativePtr` comes as a value, `none` for 0, and a changed message goes back. The pointer
-- to a header field is its index in the array.
use http_library.Prelude.{ℕ, zero, suc, ◌+◌, ◌%◌, Option, none, some, List, [], ◌∷◌, take}
use http_library.Memory.{Run, ok, ◌>>=◌, Ptr, null, deref, at, strlen}
use http_library.Message.{
  HttpMessage, u32, http_message_create, destroy_http_message, http_message_set_url,
  http_message_set_status, http_message_set_status_code, http_message_del_header_field,
  http_message_add_header_field, http_message_set_header_field, http_message_clone,
}
use http_library.Message.Raw.{http_message_raw}
use http_library.Session.Handlers.{the_message}
use http_library.Jni.{JniEnv, string_chars, release_if_copy}

-- A C string that is read, `none` for `NULL`.
unfoldable pub text_of : Ptr → Run (Option (List ℕ))
text_of null = ok none
text_of p = do bytes ← deref p; n ← strlen bytes; ok (some (take n bytes))

-- the loop that fills `nativePtrs`, from the field `i` on
abbrev pub field_pointers : ℕ → ℕ → List ℕ
field_pointers zero i = []
field_pointers (suc n) i = i ∷ field_pointers n (i + 1)

-- What `message_raw` and `length` hold behind `http_message_raw`.
abbrev pub raw_block : Option (List ℕ × ℕ) → List ℕ × ℕ
raw_block none = ([], 0)
raw_block (some raw) = raw

module _ {J : Type 0} ⦃env : JniEnv J⦄ where
  unfoldable pub get_url : Option HttpMessage → J → Run (ℕ × J)
  get_url native vm = do
    message ← the_message native
    text ← text_of message.url
    ok (env.new_string_utf text vm)

  unfoldable pub set_url : Option HttpMessage → ℕ → J → Run (Option HttpMessage × J)
  set_url native value vm = do
    (chars, text, vm') ← string_chars value vm
    (_, changed) ← http_message_set_url native (some text)
    ok (changed, release_if_copy value chars vm')

  unfoldable pub get_status : Option HttpMessage → J → Run (ℕ × J)
  get_status native vm = do
    message ← the_message native
    text ← text_of message.status
    ok (env.new_string_utf text vm)

  unfoldable pub set_status : Option HttpMessage → ℕ → J → Run (Option HttpMessage × J)
  set_status native status vm = do
    (chars, text, vm') ← string_chars status vm
    (_, changed) ← http_message_set_status native (some text)
    ok (changed, release_if_copy status chars vm')

  unfoldable pub get_method : Option HttpMessage → J → Run (ℕ × J)
  get_method native vm = do
    message ← the_message native
    text ← text_of message.method
    ok (env.new_string_utf text vm)

  unfoldable pub get_headers : Option HttpMessage → J → Run (ℕ × J)
  get_headers native vm = do
    message ← the_message native
    let native_ptrs = field_pointers message.field_count 0
    let (array, vm') = env.new_long_array message.field_count vm
    ok (array, env.set_long_array_region array 0 message.field_count native_ptrs vm')

  unfoldable pub add_header : Option HttpMessage → ℕ → ℕ → J → Run (Option HttpMessage × J)
  add_header native field_name value vm = do
    (field_chars, name, vm1) ← string_chars field_name vm
    (value_chars, text, vm2) ← string_chars value vm1
    (_, added) ← http_message_add_header_field native (some name)
    (_, valued) ← http_message_set_header_field added (some name) (some text)
    let vm3 = release_if_copy field_name field_chars vm2
    ok (valued, release_if_copy field_name value_chars vm3)

  unfoldable pub remove_header : Option HttpMessage → ℕ → J → Run (Option HttpMessage × J)
  remove_header native field_name vm = do
    (chars, name, vm') ← string_chars field_name vm
    (_, changed) ← http_message_del_header_field native (some name)
    ok (changed, release_if_copy field_name chars vm')

  -- `HttpHeaderField.getKey`, of a field of the message
  unfoldable pub get_key : HttpMessage → ℕ → J → Run (ℕ × J)
  get_key message parameter vm = do
    field ← at message.fields parameter
    text ← text_of field.name
    ok (env.new_string_utf text vm)

  unfoldable pub get_value : HttpMessage → ℕ → J → Run (ℕ × J)
  get_value message parameter vm = do
    field ← at message.fields parameter
    text ← text_of field.value
    ok (env.new_string_utf text vm)

  unfoldable pub get_bytes : Option HttpMessage → J → Run (ℕ × J)
  get_bytes native vm = do
    raw ← http_message_raw native
    let (message_raw, length) = raw_block raw
    let (arr, vm') = env.new_byte_array (length % u32) vm
    ok (arr, env.set_byte_array_region arr 0 (length % u32) message_raw vm')

  -- `getBytes(byte[])`
  unfoldable pub get_bytes_into : Option HttpMessage → ℕ → J → Run J
  get_bytes_into native arr vm = do
    raw ← http_message_raw native
    let (message_raw, length) = raw_block raw
    ok (env.set_byte_array_region arr 0 (length % u32) message_raw vm)

unfoldable pub get_status_code : Option HttpMessage → Run ℕ
get_status_code native = do message ← the_message native; ok message.status_code

-- The result of the call is ignored.
unfoldable pub set_status_code : Option HttpMessage → ℕ → Option HttpMessage
set_status_code native code = (http_message_set_status_code native code).1

unfoldable pub size_bytes : Option HttpMessage → Run ℕ
size_bytes native = do raw ← http_message_raw native; ok ((raw_block raw).1 % u32)

unfoldable pub clone : Option HttpMessage → Run (Option HttpMessage)
clone none = ok none
clone (some source) = do copy ← http_message_clone source; ok (some copy)

abbrev pub create_http_message : Option HttpMessage
create_http_message = some http_message_create

unfoldable pub free_message : Option HttpMessage → Run (Unit {0})
free_message native = do message ← the_message native; destroy_http_message message
