-- ===== src/Jni/Tests/Connections.antt =====
-- A connection of the small Java machine, and the theorems at it. The parser knows its type and reads
-- what it gets; the stream hands its input over as it is.
use http_library.Prelude.{
  ℕ, ◌≡◌, refl, true, false, none, some, List, [], ◌∷◌, ◌==◌, codes, arith, length, take,
  if◌then◌else◌, Bool-cases, inl, inr,
}
use http_library.Memory.{Run, ok, ◌>>=◌}
use http_library.Message.View.{represent}
use http_library.HttpParser.{
  ParserType, http_request, http_both, headers_complete, body, HttpParser, finished,
}
use http_library.Zlib.{z_ok, Zlib}
use http_library.Session.{ConnectionContext, Session, parser_ok}
use http_library.Session.Handlers.{on_event, received}
use http_library.Session.Fields.{holding, run_events}
use http_library.Session.Assembly.{FieldPieces}
use http_library.Session.Received.{request_of, head_events}
use http_library.Registry.{ParserContext, update, new_context}
use http_library.Registry.Buckets.{find}
use http_library.Registry.Lookup.{lookup, IsWellFormed}
use http_library.Registry.Attach.{IsConnected}
use http_library.Jni.{long, native_message, object}
use http_library.Jni.Callbacks.{
  JavaCallbacks, JavaWorld, with_vm, parser_callbacks, callbacks_class,
}
use http_library.Jni.Parser.{Native, connect, close_connection}
use http_library.Jni.Connections.{
  looked_up, callback_methods, methods_of, IsRegistered, connect-IsRegistered, connect-refused,
  close_connection-registered,
}
use http_library.Jni.Bodies.{on_body-java_bytes}
use http_library.Jni.Delivery.{head_events-java}
use http_library.Jni.Tests.{Machine, machine_env, idle}

instance abbrev typed_parser : HttpParser ParserType
typed_parser = record {
  parser_type = λ p. p;
  http_errno = λ p. 0;
  status_code = λ p. 200;
  method = λ p. 1;
  init = λ p kind. kind;
  execute = λ p bytes. finished (length bytes) p;
  method_str = λ n. codes "GET";
  errno_description = λ n. codes "error";
  hpe_cb_body = 9;
}

instance abbrev copying_stream : Zlib (Unit {0})
copying_stream = record {
  zeroed = tt;
  msg = λ z. none;
  inflate_init = λ z. (z_ok, tt);
  inflate_init2 = λ z w. (z_ok, tt);
  inflate = λ z input avail_out. record {
    code = z_ok;
    consumed = length input;
    output = take avail_out input;
    stream = tt;
  };
  inflate_end = λ z. (z_ok, tt);
}

abbrev World : Type 0
World = Run (JavaWorld Machine)

abbrev java_callbacks : JavaCallbacks
java_callbacks = record {
  connection = 0;
  obj = 12;
  http_request_received_callback = 1;
  http_request_body_started_callback = 2;
  http_request_body_data_callback = 3;
  http_request_body_finished_callback = 4;
  http_response_received_callback = 5;
  http_response_body_started_callback = 6;
  http_response_body_data_callback = 7;
  http_response_body_finished_callback = 8;
}

abbrev context : ConnectionContext ParserType (Unit {0}) World
context = new_context http_request 68 (parser_callbacks 0)

-- The connection of id 68, in the bucket 5.
abbrev native : Native ParserType (Unit {0}) Machine
native = record {
  parser = record {
    cells = λ a. if a == 0 then some context else none;
    next = 1;
    buckets = λ i. if i == 5 then 0 ∷ [] else [];
    initialized = true;
  };
  java = record { vm = idle; callbacks_map = λ a. if a == 0 then some java_callbacks else none };
}

find-empty : find native.parser.cells 68 [] ≡ none
unfolding find
find-empty = refl

lookup-68 : lookup native.parser 68 ≡ some 0
unfolding find
lookup-68 = refl

lookup-5 : lookup native.parser 5 ≡ none
unfolding find
lookup-5 = refl

native-IsWellFormed : IsWellFormed native.parser
native-IsWellFormed = record {
  buckets = λ i. elim (Bool-cases (i == 5)) [
    | inl e ↦
        rw e
          (record { context = context; live = refl; place = ground arith; alone = find-empty }, tt)
    | inr e ↦ rw e tt
  ];
  unused = λ a l. ground arith;
  unopened = λ e. absurd (ground arith);
}

native-IsRegistered : IsRegistered native 68 0 java_callbacks
native-IsRegistered = record {
  formed = native-IsWellFormed;
  found = lookup-68;
  context = context;
  live = refl;
  table = refl;
  java = refl;
  back = refl;
}

connect-IsRegistered_example :
    let (cls, vm0) = machine_env.find_class callbacks_class idle in
    let (obj, vm2) = machine_env.new_global_ref 20 (machine_env.get_java_vm vm0).1 in
    let (methods, vm) = looked_up cls callback_methods vm2 in
    (made : JavaCallbacks) × (m : Native ParserType (Unit {0}) Machine) × (connect http_both 5 20
        native
      ≡ ok (some 1, m))
    × IsRegistered m 5 1 made
    × IsConnected native.parser m.parser 5 1
    × (m.java ≡ record { vm = vm; callbacks_map = update native.java.callbacks_map 1 (some made) })
    × (made.obj ≡ obj)
    × (methods_of made ≡ methods)
connect-IsRegistered_example =
    connect-IsRegistered http_both 5 20 native native-IsWellFormed lookup-5 refl refl

connect-refused_example :
    (t : ParserContext ParserType (Unit {0}) World) × (connect http_both 68 20 native
      ≡ ok (
        none,
        record {
          parser = t;
          java =
              with_vm native.java
                (record idle { thrown = codes "parser_connect() returned 101" ∷ [] });
        },
      ))
    × ((i : ℕ) → lookup t i ≡ lookup native.parser i)
    × IsWellFormed t
connect-refused_example = connect-refused http_both 68 20 0 native native-IsWellFormed lookup-68

close_connection-registered_example :
    (t : ParserContext ParserType (Unit {0}) World) × (close_connection 0 native
      ≡ ok (record {
        parser = t;
        java = record { vm = idle; callbacks_map = update native.java.callbacks_map 0 none };
      }))
    × (t.cells 0 ≡ none)
    × ((i : ℕ) → lookup t i ≡ (if i == 68 then none else lookup native.parser i))
    × IsWellFormed t
close_connection-registered_example =
    close_connection-registered native 68 0 java_callbacks native-IsRegistered refl

abbrev session : Session ParserType (Unit {0}) World
session = record { context = context; world = ok native.java }

abbrev host_field : List FieldPieces
host_field =
    record {
      name_first = codes "Ho";
      name_pieces = codes "st" ∷ [];
      value_pieces = codes "x" ∷ codes "y" ∷ [];
    }
    ∷ []

head_events-java_example :
    let m = represent (request_of (codes "GET") (codes "/i") (codes "ndex" ∷ []) host_field) in
    let args = long 68 ∷ native_message m ∷ [] in
    (run_events (head_events (codes "/i") (codes "ndex" ∷ []) host_field) session
      >>= on_event headers_complete)
    ≡ ok (
        received
          (holding session m false)
          (1, some m, ok (with_vm native.java (record idle { calls = args ∷ [] }))))
head_events-java_example =
    head_events-java session (codes "/i") (codes "ndex" ∷ []) host_field 0 native.java
      java_callbacks refl refl refl refl refl refl (omega arith) (omega arith) (omega arith)
      (omega arith)

-- Behind the first piece of a body.
abbrev in_body : Session ParserType (Unit {0}) World
in_body = record session { context = record context { body_started = true } }

on_body-java_bytes_example :
    on_event (body (codes "ab")) in_body
    ≡ ok (
      parser_ok,
      record in_body {
        context = record context { body_started = true; have_body = true };
        world = ok (with_vm native.java (record idle { calls = (long 68 ∷ object 8 ∷ []) ∷ [] }));
      },
    )
on_body-java_bytes_example =
    on_body-java_bytes in_body (codes "ab") 0 native.java java_callbacks
      (λ c. c.http_request_body_data_callback) refl refl refl refl refl refl refl (omega arith)
