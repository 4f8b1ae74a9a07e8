-- ===== src/Session/Tests/Messages.antt =====
-- An input of two messages, with a parser that reports them, and the theorem on it.
use http_library.Prelude.{ℕ, false, Option, none, List, [], ◌∷◌, ◌++◌, codes, length, take}
use http_library.Message.{HttpMessage}
use http_library.HttpParser.{
  ParserType, http_request, http_both, Event, message_begin, status, http_response, url,
  header_field, header_value, Exec, finished, notify, HttpParser,
}
use http_library.Zlib.{z_ok, Zlib}
use http_library.Session.{Callbacks, identity, Session}
use http_library.Session.Messages.{
  of_request, of_response, Sent, Telling, bytes_part, chunk_start, chunk_end, all_reports,
}

record Reader : Type 0 where
  kind : ParserType

abbrev at_request : Reader
at_request = record { kind = http_request }

abbrev at_response : Reader
at_response = record { kind = http_response }

-- "GET /ab", "Via: x", and a chunk in two pieces, and "Age: 1" behind it
abbrev with_content : Sent
with_content = record {
  first = of_request (codes "GET") (codes "/a") (codes "b" ∷ []);
  fields =
      record { name_first = codes "Via"; name_pieces = []; value_pieces = codes "x" ∷ [] } ∷ [];
  content = codes "12" ∷ codes "3" ∷ [];
  trailer =
      record { name_first = codes "Age"; name_pieces = []; value_pieces = codes "1" ∷ [] } ∷ [];
}

-- "HTTP/1.1 200 OK", and nothing more
abbrev bare : Sent
bare = record {
  first = of_response 200 (codes "O" ∷ codes "K" ∷ []);
  fields = [];
  content = [];
  trailer = [];
}

abbrev telling_content : Telling Reader
telling_content = record {
  head =
      (message_begin, at_request)
      ∷ (url (codes "/a"), at_request)
      ∷ (url (codes "b"), at_request)
      ∷ (header_field (codes "Via"), at_request)
      ∷ (header_value (codes "x"), at_request)
      ∷ [];
  at_head_end = at_request;
  parts =
      (chunk_start, at_request)
      ∷ (bytes_part (codes "12"), at_request)
      ∷ (bytes_part (codes "3"), at_request)
      ∷ (chunk_end, at_request)
      ∷ [];
  trailer = (header_field (codes "Age"), at_request) ∷ (header_value (codes "1"), at_request) ∷ [];
  at_end = at_request;
}

abbrev telling_bare : Telling Reader
telling_bare = record {
  head =
      (message_begin, at_response)
      ∷ (status (codes "O"), at_response)
      ∷ (status (codes "K"), at_response)
      ∷ [];
  at_head_end = at_response;
  parts = [];
  trailer = [];
  at_end = at_response;
}

abbrev both_told : List (Sent × Telling Reader)
both_told = (with_content, telling_content) ∷ (bare, telling_bare) ∷ []

-- The run that makes the reports.
abbrev exec_of : List (Event × Reader) → Exec Reader → Exec Reader
exec_of [] x = x
exec_of ((e, p) ∷ reports) x = notify e p (λ r q. exec_of reports x)

instance abbrev reader_parser : HttpParser Reader
reader_parser = record {
  parser_type = λ p. p.kind;
  http_errno = λ p. 0;
  status_code = λ p. 200;
  method = λ p. 1;
  init = λ p kind. record { kind = kind };
  execute = λ p bytes. exec_of (all_reports both_told) (finished (length bytes) p);
  method_str = λ n. codes "GET";
  errno_description = λ n. codes "error";
  hpe_cb_body = 9;
}

instance abbrev no_stream : Zlib (Unit {0})
no_stream = record {
  zeroed = tt;
  msg = λ z. none;
  inflate_init = λ z. (z_ok, tt);
  inflate_init2 = λ z w. (z_ok, tt);
  inflate = λ z input avail_out. record {
    code = z_ok;
    consumed = length input;
    output = take avail_out input;
    stream = tt;
  };
  inflate_end = λ z. (z_ok, tt);
}

-- What the user is told: a message, a start, a piece, an end.
data Note : Type 0 where
  message_note : Option HttpMessage → Note
  start_note end_note : Note
  piece_note : List ℕ → Note

abbrev noting : Callbacks (List Note)
noting = record {
  http_request_received = λ id message w. (0, message, w ++ (message_note message ∷ []));
  http_request_body_started = λ id w. (0, w ++ (start_note ∷ []));
  http_request_body_data = λ id bytes w. w ++ (piece_note bytes ∷ []);
  http_request_body_finished = λ id w. w ++ (end_note ∷ []);
  http_response_received = λ id message w. (0, message, w ++ (message_note message ∷ []));
  http_response_body_started = λ id w. (0, w ++ (start_note ∷ []));
  http_response_body_data = λ id bytes w. w ++ (piece_note bytes ∷ []);
  http_response_body_finished = λ id w. w ++ (end_note ∷ []);
}

abbrev AnyNotes : List Note → Type 0
AnyNotes w = Unit

abbrev between : Session Reader (Unit {0}) (List Note)
between = record {
  context = record {
    id = 5;
    error_message = [];
    body_callback_error = 0;
    callbacks = noting;
    parser = record { kind = http_both };
    message = none;
    done = 0;
    in_field = false;
    have_body = false;
    body_started = false;
    need_decode = 0;
    content_encoding = identity;
    decode_in_buffer = none;
    decode_out_buffer = none;
    avail_in = 0;
    zlib_stream = tt;
  };
  world = [];
}
