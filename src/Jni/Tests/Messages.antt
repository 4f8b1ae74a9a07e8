-- ===== src/Jni/Tests/Messages.antt =====
-- An input of a request and a response on a connection of the small Java machine, and the theorem on
-- it.
use http_library.Prelude.{none, some, List, [], ◌∷◌, ◌==◌, if◌then◌else◌, codes, length, take}
use http_library.Memory.{Run, ok}
use http_library.HttpParser.{
  ParserType, http_request, http_response, http_both, message_begin, url, status, header_field,
  header_value, Exec, finished, notify, HttpParser,
}
use http_library.Zlib.{z_ok, Zlib}
use http_library.Session.{Session}
use http_library.Session.Scripts.{Report}
use http_library.Session.Messages.{
  of_request, of_response, Sent, Telling, bytes_part, chunk_start, chunk_end, all_reports,
}
use http_library.Registry.{new_context}
use http_library.Jni.Callbacks.{JavaCallbacks, JavaWorld, parser_callbacks}
use http_library.Jni.Tests.{Machine, machine_env, idle}

-- "GET /ab", "Via: x", and a chunk in two pieces, and "Age: 1" behind it
abbrev asked : Sent
asked = record {
  first = of_request (codes "GET") (codes "/a") (codes "b" ∷ []);
  fields =
      record { name_first = codes "Via"; name_pieces = []; value_pieces = codes "x" ∷ [] } ∷ [];
  content = codes "12" ∷ codes "3" ∷ [];
  trailer =
      record { name_first = codes "Age"; name_pieces = []; value_pieces = codes "1" ∷ [] } ∷ [];
}

-- "HTTP/1.1 200 OK"
abbrev answered : Sent
answered = record {
  first = of_response 200 (codes "OK" ∷ []);
  fields = [];
  content = [];
  trailer = [];
}

abbrev telling_asked : Telling ParserType
telling_asked = record {
  head =
      (message_begin, http_request)
      ∷ (url (codes "/a"), http_request)
      ∷ (url (codes "b"), http_request)
      ∷ (header_field (codes "Via"), http_request)
      ∷ (header_value (codes "x"), http_request)
      ∷ [];
  at_head_end = http_request;
  parts =
      (chunk_start, http_request)
      ∷ (bytes_part (codes "12"), http_request)
      ∷ (bytes_part (codes "3"), http_request)
      ∷ (chunk_end, http_request)
      ∷ [];
  trailer =
      (header_field (codes "Age"), http_request) ∷ (header_value (codes "1"), http_request) ∷ [];
  at_end = http_request;
}

abbrev telling_answered : Telling ParserType
telling_answered = record {
  head = (message_begin, http_response) ∷ (status (codes "OK"), http_response) ∷ [];
  at_head_end = http_response;
  parts = [];
  trailer = [];
  at_end = http_response;
}

abbrev tellings : List (Sent × Telling ParserType)
tellings = (asked, telling_asked) ∷ (answered, telling_answered) ∷ []

abbrev exec_of : List (Report ParserType) → Exec ParserType → Exec ParserType
exec_of [] x = x
exec_of ((e, p) ∷ reports) x = notify e p (λ r q. exec_of reports x)

instance abbrev kind_parser : HttpParser ParserType
kind_parser = record {
  parser_type = λ p. p;
  http_errno = λ p. 0;
  status_code = λ p. 200;
  method = λ p. 1;
  init = λ p kind. kind;
  execute = λ p bytes. exec_of (all_reports tellings) (finished (length bytes) p);
  method_str = λ n. codes "GET";
  errno_description = λ n. codes "error";
  hpe_cb_body = 9;
}

instance abbrev plain_stream : Zlib (Unit {0})
plain_stream = record {
  zeroed = tt;
  msg = λ z. none;
  inflate_init = λ z. (z_ok, tt);
  inflate_init2 = λ z w. (z_ok, tt);
  inflate = λ z input avail_out. record {
    code = z_ok;
    consumed = length input;
    output = take avail_out input;
    stream = tt;
  };
  inflate_end = λ z. (z_ok, tt);
}

-- A Java object that agrees to everything.
abbrev agreeing : JavaCallbacks
agreeing = record {
  connection = 0;
  obj = 20;
  http_request_received_callback = 1;
  http_request_body_started_callback = 2;
  http_request_body_data_callback = 3;
  http_request_body_finished_callback = 4;
  http_response_received_callback = 5;
  http_response_body_started_callback = 6;
  http_response_body_data_callback = 7;
  http_response_body_finished_callback = 8;
}

abbrev java : JavaWorld Machine
java = record { vm = idle; callbacks_map = λ a. if a == 0 then some agreeing else none }

abbrev between : Session ParserType (Unit {0}) (Run (JavaWorld Machine))
between = record { context = new_context http_both 68 (parser_callbacks 0); world = ok java }
