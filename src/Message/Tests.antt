-- ===== src/Message/Tests.antt =====
-- Runs of the message functions on small messages, and the theorems at such messages.
use http_library.Prelude.{
  ℕ, take, ◌<◌, ◌≤◌, ◌↔◌, ◌≡◌, refl, none, some, List, [], ◌∷◌, ◌++◌, codes, arith,
}
use http_library.Memory.{
  ok, fault, use_after_free, ◌>>=◌, tolower, append_chars, deref, realloc, strlen, snprintf, live,
}
use http_library.Memory.Strings.{c_string, append_chars-c_string}
use http_library.Message.{
  HttpMessage, u32, exact, http_message_create, http_message_set_url, http_message_set_method,
  http_message_set_status, http_message_set_status_code, http_message_get_header_field,
  http_message_set_header_field, http_message_add_header_field, http_message_del_header_field,
  http_message_clone, destroy_http_message,
}
use http_library.Message.View.{
  Header, MessageView, IsCleanView, represent, with_headers, is_prefix, lookup_first, replace_first,
  remove_first, append_new, edited, found_text,
}
use http_library.Message.Raw.{http_message_raw, format_u, status_line, raw_response}
use http_library.Message.Raw.Render.{
  render_first_line, rendered, http_message_raw-rendered, raw_response-status_line_iff,
}
use http_library.Message.Edit.{http_message_get_header_field-lookup_first}
use http_library.Message.Setters.{http_message_set_status_cases}
use http_library.Message.Add.{http_message_add_header_field-append_new}
use http_library.Message.Delete.{http_message_del_header_field-remove_first}
use http_library.Message.Update.{get-set, overwritten}
use http_library.Message.Interface.{empty_view, http_message_api}
use http_library.Message.Commands.{
  Command, method_set, url_set, status_code_set, field_set, field_added, field_deleted, on_view,
  run_on_view, behind, run_calls,
}
use http_library.Message.Commands.Refines.{http_message-run_on_view}

abbrev host : List ℕ
host = codes "Host"

abbrev accept : List ℕ
accept = codes "Accept"

-- GET /a HTTP/1.1 with two header fields
abbrev request : MessageView
request = record {
  method = some (codes "GET");
  url = some (codes "/a");
  status = none;
  status_code = 0;
  headers = (host, codes "x") ∷ (accept, codes "y") ∷ [];
}

request-IsCleanView : IsCleanView request
request-IsCleanView = omega arith

abbrev response : MessageView
response = record {
  method = none;
  url = none;
  status = some (codes "OK");
  status_code = 200;
  headers = (host, codes "x") ∷ [];
}

raw_request_text :
    http_message_raw (some (represent request))
    ≡ ok (
        some (
          codes "GET /a HTTP/1.1"
              ++ (13
                  ∷ 10
                  ∷ (codes "Host: x"
                      ++ (13 ∷ 10 ∷ (codes "Accept: y" ++ (13 ∷ 10 ∷ 13 ∷ 10 ∷ 0 ∷ []))))),
          39,
        ))
unfolding http_message_raw deref strlen snprintf
raw_request_text = refl

raw_response_text :
    http_message_raw (some (represent response))
    ≡ ok (
        some (
          codes "HTTP/1.1 200 OK" ++ (13 ∷ 10 ∷ (codes "Host: x" ++ (13 ∷ 10 ∷ 13 ∷ 10 ∷ 0 ∷ []))),
          28,
        ))
unfolding http_message_raw deref strlen snprintf format_u
raw_response_text = refl

append_chars-c_string_example : append_chars (c_string host) accept ≡ ok (c_string (host ++ accept))
append_chars-c_string_example = append_chars-c_string host accept (omega arith)

-- Bytes behind a NUL are lost at the next call.
append_chars_nul :
    (do p ← append_chars (c_string []) (b'a' ∷ 0 ∷ b'b' ∷ []); append_chars p (b'c' ∷ []))
    ≡ ok (live (b'a' ∷ b'c' ∷ 0 ∷ []))
unfolding append_chars deref realloc strlen
append_chars_nul = refl

get_example :
    http_message_get_header_field (some (represent request)) (some accept)
    ≡ found_text (lookup_first exact accept request.headers)
get_example =
    http_message_get_header_field-lookup_first request request-IsCleanView b'A' (codes "ccept")
      (omega arith)

add_example :
    http_message_add_header_field (some (represent request)) (some (codes "Via"))
    ≡ edited request (append_new (codes "Via") request.headers)
add_example =
    http_message_add_header_field-append_new request b'V' (codes "ia") request-IsCleanView
      (omega arith) (omega arith)

del_example :
    http_message_del_header_field (some (represent request)) (some (codes "hOST"))
    ≡ edited request (remove_first tolower (codes "hOST") request.headers)
del_example =
    http_message_del_header_field-remove_first request b'h' (codes "OST") request-IsCleanView
      (omega arith)

raw_example :
    http_message_raw (some (represent request))
    ≡ rendered (render_first_line request request.status) request.headers
raw_example = http_message_raw-rendered request request-IsCleanView

status_line_example :
    (out_buffer : List ℕ) × (size : ℕ) × (raw_response (c_string (codes "OK")) 200
      ≡ ok (out_buffer, size))
    × ((take size out_buffer ≡ status_line 200 (codes "OK")) ↔ ((100 ≤ 200) × (200 < 1000)))
status_line_example = raw_response-status_line_iff 200 (codes "OK") (omega arith)

get-set_example :
    (http_message_set_header_field (some (represent request)) (some host) (some (codes "z"))
      >>= λ r. http_message_get_header_field r.1 (some host))
    ≡ found_text (overwritten (lookup_first exact host request.headers) (codes "z"))
get-set_example =
    get-set request b'H' (codes "ost") b'z' [] request-IsCleanView (omega arith) (omega arith)

via-fresh : lookup_first tolower (codes "Via") request.headers ≡ none
unfolding lookup_first http_library.Message.View.is_prefix tolower
via-fresh = refl

set_status_example :
    (http_message_set_status (some (represent (record request { status = none }))) (some host)
      ≡ ok (0, some (represent (record request { status = some host }))))
    × (http_message_set_status
          (some (represent (record request { status = some accept })))
          (some host)
        ≡ fault use_after_free)
set_status_example = http_message_set_status_cases request host accept

abbrev commands : List Command
commands =
    method_set (codes "GET")
    ∷ url_set (codes "/a")
    ∷ field_added b'H' (codes "ost")
    ∷ field_added b'H' (codes "o")
    ∷ field_set b'H' (codes "ost") b'x' []
    ∷ field_deleted b'V' (codes "ia")
    ∷ status_code_set 200
    ∷ []

run_on_view_example :
    run_calls http_message_api commands (some http_message_create)
    ≡ behind represent (run_on_view commands empty_view)
run_on_view_example = http_message-run_on_view commands (omega arith) (omega arith)

run_on_view_run : (run_on_view commands empty_view).0 ≡ 0 ∷ 0 ∷ 0 ∷ 1 ∷ 0 ∷ 1 ∷ 0 ∷ []
unfolding on_view append_new replace_first remove_first lookup_first is_prefix tolower
run_on_view_run = refl
