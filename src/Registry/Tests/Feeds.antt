-- ===== src/Registry/Tests/Feeds.antt =====
-- A connection whose parser reports a whole request in each run, and the theorem on it.
use http_library.Prelude.{ℕ, ◌+◌, ◌≡◌, ◌≢◌, refl, none, List, codes, arith, length, take}
use http_library.Memory.{ok}
use http_library.Message.View.{MessageView}
use http_library.HttpParser.{
  ParserType, http_request, http_both, message_begin, url, header_field, header_value,
  headers_complete, body, message_complete, Exec, finished, notify, HttpParser,
}
use http_library.Zlib.{z_ok, Zlib}
use http_library.Session.{Callbacks, direction_out, Session}
use http_library.Session.Handlers.{parser_reset, parser_reset_state}
use http_library.Session.Input.{parser_input}
use http_library.Session.Protocol.{
  Phase, idle, begins, reads_url, starts_name, starts_value, ends_head, reads_body, completes,
  line_closed, value_closed, body_closed, Follows, stops, reports, IsOrderly,
}
use http_library.Session.Safety.{IsGentle}
use http_library.Registry.{new_context}
use http_library.Registry.Feeds.{IsFed, connected, IsFed-returns}

record Machine : Type 0 where
  kind : ParserType

abbrev reading : Machine
reading = record { kind = http_request }

-- "GET / HTTP/1.1", "Via: x", and the bytes as the body
abbrev one_request : List ℕ → Exec Machine
one_request bytes = notify message_begin reading (λ r p. notify (url (codes "/")) reading (λ r p.
    notify (header_field (codes "Via")) reading (λ r p.
      notify (header_value (codes "x")) reading (λ r p. notify headers_complete reading (λ r p.
        notify (body bytes) reading
          (λ r p. notify message_complete reading (λ r p. finished (length bytes) p)))))))

instance abbrev machine_parser : HttpParser Machine
machine_parser = record {
  parser_type = λ p. p.kind;
  http_errno = λ p. 0;
  status_code = λ p. 200;
  method = λ p. 1;
  init = λ p kind. record { kind = kind };
  execute = λ p bytes. one_request bytes;
  method_str = λ n. codes "GET";
  errno_description = λ n. codes "error";
  hpe_cb_body = 9;
}

instance abbrev whole_stream : Zlib (Unit {0})
whole_stream = record {
  zeroed = tt;
  msg = λ z. none;
  inflate_init = λ z. (z_ok, tt);
  inflate_init2 = λ z w. (z_ok, tt);
  inflate = λ z input avail_out. record {
    code = z_ok;
    consumed = length input;
    output = take avail_out input;
    stream = tt;
  };
  inflate_end = λ z. (z_ok, tt);
}

-- The world counts the pieces of bodies.
abbrev counting : Callbacks ℕ
counting = record {
  http_request_received = λ id message w. (0, message, w);
  http_request_body_started = λ id w. (0, w);
  http_request_body_data = λ id bytes w. w + 1;
  http_request_body_finished = λ id w. w;
  http_response_received = λ id message w. (0, message, w);
  http_response_body_started = λ id w. (0, w);
  http_response_body_data = λ id bytes w. w + 1;
  http_response_body_finished = λ id w. w;
}

abbrev Anything : MessageView → ℕ → Type 0
Anything v w = Unit

counting-IsGentle : IsGentle counting Anything 0
counting-IsGentle = record {
  request = λ id v w clean. (v, refl, clean, omega arith, tt);
  response = λ id v w clean. (v, refl, clean, omega arith, tt);
  request_started = λ id v w k. (refl, tt);
  response_started = λ id v w k. (refl, tt);
  request_data = λ id bytes v w k. tt;
  response_data = λ id bytes v w k. tt;
}

abbrev always_idle : Machine → Phase
always_idle p = idle

one_request-Follows : (bytes : List ℕ) → Follows 0 always_idle idle (one_request bytes)
one_request-Follows bytes = reports begins known (λ r. reports (reads_url (omega arith)) known (λ r.
    reports (starts_name line_closed (omega arith) (omega arith)) known (λ r.
      reports (starts_value (omega arith)) known (λ r. reports (ends_head value_closed) known (λ r.
        reports reads_body known (λ r. reports (completes body_closed) known (λ r. stops refl)))))))
  where
    known : {A : Type 0} → A → http_request ≢ http_both
    known a = ground arith

machine_parser-IsOrderly : IsOrderly 0 always_idle
machine_parser-IsOrderly = record {
  run = λ p bytes. one_request-Follows bytes;
  initialised = λ p kind. refl;
  method_text = λ n. omega arith;
}

abbrev opened : Session Machine (Unit {0}) ℕ
opened = record {
  context = record (new_context reading 7 counting) { parser = record { kind = http_both } };
  world = 0;
}

opened-IsFed : IsFed counting Anything opened
unfolding parser_reset parser_reset_state
opened-IsFed = connected reading 7 0 refl

IsFed-returns_example :
    (n : ℕ) × (t : Session Machine (Unit {0}) ℕ) × (parser_input direction_out (codes "ab") opened
      ≡ ok (n, t))
    × IsFed counting Anything t
IsFed-returns_example =
    IsFed-returns counting Anything 0 always_idle counting-IsGentle machine_parser-IsOrderly opened
      direction_out (codes "ab") opened-IsFed (λ e. refl)
