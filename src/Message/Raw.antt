-- ===== src/Message/Raw.antt =====
-- Serialisation: `http_message_raw` (http-parser/src/parser.c).
-- The buffer is the list of its bytes, the terminating NUL included.
pub mod Render
pub mod Decimal
use http_library.Prelude.{
  ℕ, zero, suc, ◌+◌, ◌/◌, ◌%◌, Bool, true, false, not, ◌&&◌, Option, none, some, List, [], ◌∷◌,
  ◌++◌, ◌==◌, ltb, if◌then◌else◌, codes, length, take, drop, replicate,
}
use http_library.Memory.{out_of_bounds, Run, ok, fault, ◌>>=◌, Ptr, null, deref, strlen, snprintf}
use http_library.Message.{HttpHeaderField, HttpMessage}

abbrev pub http_version : List ℕ
http_version = codes "HTTP/1.1"

abbrev pub crlf : List ℕ
crlf = 13 ∷ 10 ∷ []

-- `%u`: an `unsigned int` has ten decimal digits at most.
unfoldable pub digits_u : ℕ → ℕ → List ℕ → List ℕ
digits_u zero n behind = behind
digits_u (suc fuel) n behind =
    let more = digits_u fuel (n / 10) ((b'0' + n % 10) ∷ behind) in
    if ltb n 10 then (b'0' + n) ∷ behind else more

unfoldable pub format_u : ℕ → List ℕ
unfolding digits_u
format_u n = digits_u 10 n []

-- `snprintf` into a buffer of `size` zeros
abbrev pub snprintf_zeroed : ℕ → List ℕ → List ℕ
snprintf_zeroed size text =
    snprintf size text ++ drop (length (snprintf size text)) (replicate size 0)

abbrev pub is_set : Ptr → Bool
is_set null = false
is_set p = true

-- "%s %u %s\r\n"
abbrev pub status_line : ℕ → List ℕ → List ℕ
status_line code status = http_version ++ (b' ' ∷ (format_u code ++ (b' ' ∷ (status ++ crlf))))

-- "%s %s %s\r\n"
abbrev pub request_line : List ℕ → List ℕ → List ℕ
request_line method url = method ++ (b' ' ∷ (url ++ (b' ' ∷ (http_version ++ crlf))))

-- "%s: %s\r\n"
abbrev pub field_line : List ℕ → List ℕ → List ℕ
field_line name value = name ++ (b':' ∷ b' ' ∷ (value ++ crlf))

raw_request : Ptr → Ptr → Run (List ℕ × ℕ)
raw_request method url = do
  url_bytes ← deref url
  url_length ← strlen url_bytes
  method_bytes ← deref method
  method_length ← strlen method_bytes
  let size = length http_version + url_length + method_length + 4
  let line = request_line (take method_length method_bytes) (take url_length url_bytes)
  ok (snprintf_zeroed (suc size) line, size)

unfoldable pub raw_response : Ptr → ℕ → Run (List ℕ × ℕ)
raw_response status code = do
  status_bytes ← deref status
  status_length ← strlen status_bytes
  let size = length http_version + status_length + 7
  ok (snprintf_zeroed (suc size) (status_line code (take status_length status_bytes)), size)

-- the buffer with the first line, and `length`
raw_first_line : HttpMessage → Run (List ℕ × ℕ)
unfolding raw_request raw_response
raw_first_line message =
    if is_set message.status && not (message.status_code == 0)
    then raw_response message.status message.status_code
    else raw_request message.method message.url

-- the loop over the fields, with the buffer and `length`
raw_fields : ℕ → List HttpHeaderField → List ℕ → ℕ → Run (List ℕ × ℕ)
raw_fields zero fields out_buffer size = ok (out_buffer, size)
raw_fields (suc n) [] out_buffer size = fault out_of_bounds
raw_fields (suc n) (field ∷ fields) out_buffer size = do
  name ← deref field.name
  name_length ← strlen name
  value ← deref field.value
  value_length ← strlen value
  let line_length = name_length + value_length + 4
  let line = field_line (take name_length name) (take value_length value)
  raw_fields n fields (take size out_buffer ++ snprintf (suc line_length) line) (size + line_length)

-- The buffer and `*p_length`; `none` for `message == NULL`.
unfoldable pub http_message_raw : Option HttpMessage → Run (Option (List ℕ × ℕ))
unfolding raw_first_line raw_fields
http_message_raw none = ok none
http_message_raw (some message) = do
  (first, first_size) ← raw_first_line message
  (out_buffer, size) ← raw_fields message.field_count message.fields first first_size
  ok (some (take size out_buffer ++ snprintf 3 crlf, size + 2))
