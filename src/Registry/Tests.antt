-- ===== src/Registry/Tests.antt =====
-- A parser context with one connection, and the theorems at it. The parser knows its type and the
-- stream hands its input over as it is.
mod Feeds
use http_library.Prelude.{
  ℕ, ◌≡◌, refl, true, none, some, List, [], ◌∷◌, ◌==◌, if◌then◌else◌, Bool-cases, inl, inr, arith,
  codes, length, take,
}
use http_library.Memory.{use_after_free, ok, fault}
use http_library.HttpParser.{ParserType, http_both, HttpParser, finished}
use http_library.Zlib.{z_ok, Zlib}
use http_library.Session.{Callbacks, direction_in, direction_out}
use http_library.Registry.{
  context_by_id_get, context_by_id_add, walk, store, update, empty_context, ParserContext,
  new_context, parser_create, parser_connect, parser_connection_close, parser_destroy,
}
use http_library.Registry.Buckets.{find}
use http_library.Registry.Lookup.{lookup, IsWellFormed}
use http_library.Registry.Attach.{IsConnected}
use http_library.Registry.Connect.{connect_code, connect_pointer, parser_connect-IsConnected}
use http_library.Session.Handlers.{parser_reset, parser_reset_state}
use http_library.Registry.Reach.{created, connected, IsReachable-IsWellFormed}
use http_library.Registry.Interface.{parser_api}
use http_library.Registry.Clients.{
  Request, connection_made, input_given, side_left, connection_closed, IsClientRun, ask_all,
  new_client, parser_api-IsClientRun,
}
use http_library.Registry.Close.{parser_connection_close-lookup, parser_destroy-freed}

instance abbrev typed_parser : HttpParser ParserType
typed_parser = record {
  parser_type = λ p. p;
  http_errno = λ p. 0;
  status_code = λ p. 200;
  method = λ p. 1;
  init = λ p kind. kind;
  execute = λ p bytes. finished (length bytes) p;
  method_str = λ n. codes "GET";
  errno_description = λ n. codes "error";
  hpe_cb_body = 9;
}

instance abbrev copying_stream : Zlib (Unit {0})
copying_stream = record {
  zeroed = tt;
  msg = λ z. none;
  inflate_init = λ z. (z_ok, tt);
  inflate_init2 = λ z w. (z_ok, tt);
  inflate = λ z input avail_out. record {
    code = z_ok;
    consumed = length input;
    output = take avail_out input;
    stream = tt;
  };
  inflate_end = λ z. (z_ok, tt);
}

abbrev silent : Callbacks (Unit {0})
silent = record {
  http_request_received = λ id message w. (0, message, w);
  http_request_body_started = λ id w. (0, w);
  http_request_body_data = λ id bytes w. w;
  http_request_body_finished = λ id w. w;
  http_response_received = λ id message w. (0, message, w);
  http_response_body_started = λ id w. (0, w);
  http_response_body_data = λ id bytes w. w;
  http_response_body_finished = λ id w. w;
}

-- The connection of id 68, in the bucket 5.
abbrev one_connection : ParserContext ParserType (Unit {0}) (Unit {0})
one_connection = record {
  cells = λ a. if a == 0 then some (new_context http_both 68 silent) else none;
  next = 1;
  buckets = λ i. if i == 5 then 0 ∷ [] else [];
  initialized = true;
}

find-empty : find one_connection.cells 68 [] ≡ none
unfolding find
find-empty = refl

lookup-68 : lookup one_connection 68 ≡ some 0
unfolding find
lookup-68 = refl

lookup-5 : lookup one_connection 5 ≡ none
unfolding find
lookup-5 = refl

one_connection-IsWellFormed : IsWellFormed one_connection
one_connection-IsWellFormed = record {
  buckets = λ i. elim (Bool-cases (i == 5)) [
    | inl e ↦ rw e (
      record {
        context = new_context http_both 68 silent;
        live = refl;
        place = ground arith;
        alone = find-empty;
      },
      tt,
    )
    | inr e ↦ rw e tt
  ];
  unused = λ a l. ground arith;
  unopened = λ e. absurd (ground arith);
}

-- An id that shares the bucket.

close_example :
    (t : ParserContext ParserType (Unit {0}) (Unit {0})) × (parser_connection_close one_connection 0
      ≡ ok (0, t))
    × (t.cells 0 ≡ none)
    × ((n : ℕ) → lookup t n ≡ (if n == 68 then none else lookup one_connection n))
    × IsWellFormed t
close_example =
    parser_connection_close-lookup one_connection 68 0 one_connection-IsWellFormed lookup-68

destroy_context_example : parser_destroy one_connection ≡ fault use_after_free
destroy_context_example =
    parser_destroy-freed one_connection 68 0 one_connection-IsWellFormed lookup-68

-- The context after the first connection.
abbrev first_context : ParserContext ParserType (Unit {0}) (Unit {0})
first_context = record {
  cells =
      update (update (λ a. none) 0 (some (new_context http_both 68 silent))) 0
        (some (new_context http_both 68 silent));
  next = 1;
  buckets = update (λ i. []) 5 (0 ∷ []);
  initialized = true;
}

create_run :
    parser_create true
    ≡ (0, some (empty_context {P = ParserType} {Z = Unit {0}} {World = Unit {0}}))
unfolding parser_create
create_run = refl

first_connect :
    parser_connect http_both tt empty_context 68 silent true ≡ ok (0, some 0, first_context)
unfolding parser_connect context_by_id_get context_by_id_add walk store parser_reset
    parser_reset_state
first_connect = refl

reach_example : IsWellFormed first_context
reach_example =
    IsReachable-IsWellFormed first_context
      (connected http_both tt 68 silent true (created create_run) first_connect)

-- Two connections of one bucket, an input and a close.
abbrev requests : List (Request ParserType (Unit {0}))
requests =
    connection_made http_both 68 silent
    ∷ connection_made http_both 5 silent
    ∷ connection_made http_both 68 silent
    ∷ input_given 5 direction_out (codes "GET")
    ∷ side_left 5 direction_in
    ∷ connection_closed 68
    ∷ []

client_example :
    (parser_create {P = ParserType} {Z = Unit {0}} {World = Unit {0}} true
      ≡ (0, some empty_context))
    × IsClientRun IsWellFormed lookup
        (parser_api {P = ParserType} {Z = Unit {0}})
        requests
        (new_client tt)
        (ask_all (parser_api {P = ParserType} {Z = Unit {0}}) requests (new_client tt))
client_example = parser_api-IsClientRun requests tt
