-- ===== src/Session/Tests.antt =====
-- Runs of the handlers on a small connection, and the theorems at such connections. The parser is
-- an automaton that reports the events of a script, and the stream hands its input over as it is.
mod Messages
use http_library.Prelude.{
  ℕ, ◌≡◌, ◌≢◌, refl, true, false, none, some, List, [], ◌∷◌, ◌++◌, map, codes, arith, length, take,
}
use http_library.Memory.{ok, fault, out_of_fuel, ◌>>=◌, out_of_bounds}
use http_library.Memory.Strings.{c_string}
use http_library.Message.{exact, destroy_http_message}
use http_library.Message.View.{MessageView, represent, with_headers, lookup_first}
use http_library.HttpParser.{
  ParserType, http_request, finished, notify, HttpParser, message_begin, header_field, body,
  message_complete, headers_complete,
}
use http_library.Zlib.{z_ok, Zlib}
use http_library.Session.{
  Callbacks, identity, gzip, Session, with_context, direction_out, parser_ok, parser_zlib_error,
}
use http_library.Session.Inflate.{get_content_encoding, content_encoding_name}
use http_library.Session.Handlers.{
  on_event, received, request_hooks, zlib_failed, http_parser_on_header_value,
}
use http_library.Session.Input.{run_exec, parser_input}
use http_library.Session.Fields.{holding, building, run_events, value_cleared}
use http_library.Session.Assembly.{FieldPieces, header_of, all_events, all_events-holding}
use http_library.Session.Lifecycle.{after_message, on_message_complete-destroyed, stale_in_field}
use http_library.Session.Encoding.{encoding_found, get_content_encoding-encoding_found}
use http_library.Session.Body.{handed_over, begun, with_body, on_body-handed_over}
use http_library.Session.Kept.{Kept}
use http_library.Session.Frame.{run_exec-Kept}
use http_library.Session.Received.{request_of, head_events, head_events-received}
use http_library.Session.Termination.{parser_input-fuel}
use http_library.Session.Outcome.{IsAnswer, parser_input-IsAnswer}

-- A parser that knows its type, its error, and the runs to come.
record Script : Type 0 where
  kind : ParserType
  error : ℕ

instance abbrev script_parser : HttpParser Script
script_parser = record {
  parser_type = λ p. p.kind;
  http_errno = λ p. p.error;
  status_code = λ p. 200;
  method = λ p. 1;
  init = λ p kind. record { kind = kind; error = 0 };
  execute = λ p bytes. finished (length bytes) p;
  method_str = λ n. codes "GET";
  errno_description = λ n. codes "error";
  hpe_cb_body = 9;
}

-- Stored blocks: the output is the input.
instance abbrev stored_stream : Zlib (Unit {0})
stored_stream = record {
  zeroed = tt;
  msg = λ z. none;
  inflate_init = λ z. (z_ok, tt);
  inflate_init2 = λ z w. (z_ok, tt);
  inflate = λ z input avail_out. record {
    code = z_ok;
    consumed = length input;
    output = take avail_out input;
    stream = tt;
  };
  inflate_end = λ z. (z_ok, tt);
}

-- The world is the list of the body chunks that the user got.
abbrev Log : Type 0
Log = List (List ℕ)

abbrev recording : Callbacks Log
recording = record {
  http_request_received = λ id message log. (0, message, log);
  http_request_body_started = λ id log. (0, log);
  http_request_body_data = λ id bytes log. log ++ (bytes ∷ []);
  http_request_body_finished = λ id log. log;
  http_response_received = λ id message log. (0, message, log);
  http_response_body_started = λ id log. (1, log);
  http_response_body_data = λ id bytes log. log ++ (bytes ∷ []);
  http_response_body_finished = λ id log. log;
}

abbrev fresh : Session Script (Unit {0}) Log
fresh = record {
  context = record {
    id = 1;
    error_message = [];
    body_callback_error = 0;
    callbacks = recording;
    parser = record { kind = http_request; error = 0 };
    message = none;
    done = 0;
    in_field = false;
    have_body = false;
    body_started = false;
    need_decode = 0;
    content_encoding = identity;
    decode_in_buffer = none;
    decode_out_buffer = none;
    avail_in = 0;
    zlib_stream = tt;
  };
  world = [];
}

abbrev blank : MessageView
blank = record { method = none; url = none; status = none; status_code = 0; headers = [] }

-- "Host: xy" and "Via:", cut in the middle
abbrev cut_fields : List FieldPieces
cut_fields =
    record {
      name_first = codes "Ho";
      name_pieces = codes "st" ∷ [];
      value_pieces = codes "x" ∷ codes "y" ∷ [];
    }
    ∷ record { name_first = codes "Via"; name_pieces = []; value_pieces = [] }
    ∷ []

all_events_example :
    run_events (all_events cut_fields) (holding fresh (represent blank) false)
    ≡ ok (holding fresh (represent (with_headers blank (map header_of cut_fields))) false)
all_events_example = all_events-holding fresh blank cut_fields (omega arith) (omega arith)

abbrev with_buffers : Session Script (Unit {0}) Log
with_buffers = with_context fresh (record (fresh.context) {
  body_started = true;
  need_decode = 1;
  content_encoding = gzip;
  decode_in_buffer = some (codes "ab");
  decode_out_buffer = some [];
  avail_in = 2;
})

input_example : IsAnswer 0 3 (parser_input direction_out (codes "GET") fresh)
input_example = parser_input-IsAnswer direction_out (codes "GET") fresh

abbrev with_blank : Session Script (Unit {0}) Log
with_blank = holding fresh (represent blank) false

complete_example :
    (on_event message_complete with_blank
      ≡ (destroy_http_message (represent blank) >>= λ _. ok (0, after_message with_blank)))
    × ((v : MessageView)
        → represent blank ≡ represent v
        → on_event message_complete with_blank ≡ ok (0, after_message with_blank))
complete_example = on_message_complete-destroyed with_blank (represent blank) refl

abbrev zipped : MessageView
zipped = with_headers blank ((codes "Content-Encoding", codes "GZip") ∷ [])

encoding_example :
    get_content_encoding (some (represent zipped))
    ≡ encoding_found (lookup_first exact content_encoding_name zipped.headers)
encoding_example =
    get_content_encoding-encoding_found zipped
      (record { method = tt; url = tt; status = tt; headers = omega arith; few = omega arith })

run_example : Kept fresh (run_exec (notify message_begin fresh.parser (λ r p. finished 4 p)) fresh)
run_example = run_exec-Kept (notify message_begin fresh.parser (λ r p. finished 4 p)) fresh

cleared_example :
    http_parser_on_header_value
      (some [])
      (holding fresh (building blank (c_string (codes "Host")) (c_string (codes "xy"))) false)
    ≡ ok (0, holding fresh (building blank (c_string (codes "Host")) (c_string [])) false)
cleared_example =
    value_cleared fresh blank (omega arith) false (codes "Host") (c_string (codes "xy"))

abbrev inside_name : Session Script (Unit {0}) Log
inside_name = with_context fresh (record (fresh.context) { in_field = true })

stale_example :
    run_events (message_begin ∷ header_field (codes "Host") ∷ []) inside_name ≡ fault out_of_bounds
stale_example = stale_in_field inside_name (codes "Host") refl (omega arith)

head_example :
    let m = represent (request_of (codes "GET") (codes "/i") (codes "ndex" ∷ []) cut_fields) in
    (run_events (head_events (codes "/i") (codes "ndex" ∷ []) cut_fields) fresh
      >>= on_event headers_complete)
    ≡ ok (received (holding fresh m false) (0, some m, []))
head_example =
    head_events-received fresh (codes "/i") (codes "ndex" ∷ []) cut_fields refl refl (omega arith)
      (omega arith) (omega arith)

-- An input to a connection that holds back compressed bytes.
fuel_example : parser_input direction_out (codes "GET") with_buffers ≢ fault out_of_fuel
fuel_example = parser_input-fuel direction_out (codes "GET") with_buffers
