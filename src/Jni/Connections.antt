-- ===== src/Jni/Connections.antt =====
-- The connections of the Java binding against those of the parser: `connect` and `closeConnection`
-- (http-parser-java/jni/parser.cpp, http-parser-java/jni/callbacks.cpp).
use http_library.Prelude.{
  ℕ, ◌≡◌, refl, sym, ap, ◌∙◌, true, false, none, some, List, [], ◌∷◌, ◌==◌, arith, if◌then◌else◌,
  codes,
}
use http_library.Memory.{Run, ok}
use http_library.HttpParser.{HttpParser}
use http_library.Zlib.{Zlib}
use http_library.Session.{ConnectionContext}
use http_library.Registry.{ParserContext, update}
use http_library.Registry.Lookup.{lookup, IsWellFormed, opened, opened-next}
use http_library.Registry.Attach.{IsConnected}
use http_library.Registry.Connect.{
  connected, ready, parser_connect-connected, connected-IsConnected, parser_connect-lookup,
}
use http_library.Registry.Close.{parser_connection_close-lookup}
use http_library.Message.Raw.{format_u}
use http_library.Jni.{JniEnv}
use http_library.Jni.Errors.{throw, process_error, exception_of}
use http_library.Jni.Callbacks.{
  JavaCallbacks, JavaWorld, with_vm, callbacks_class, get_env, parser_callbacks, find_methods,
  new_callbacks, delete_callbacks,
}
use http_library.Jni.Parser.{Native, connect, close_connection}

abbrev pub connect_exception : List ℕ × List ℕ
connect_exception = (codes "java/io/IOException", codes "parser_connect() returned 101")

-- The methods of Java's `Callbacks`, with their types: those for requests, and those for responses.
abbrev pub callback_methods : List (List ℕ × List ℕ)
callback_methods =
    (codes "onHttpRequestReceived", codes "(JJ)I")
    ∷ (codes "onHttpRequestBodyStarted", codes "(J)Z")
    ∷ (codes "onHttpRequestBodyData", codes "(J[B)V")
    ∷ (codes "onHttpRequestBodyFinished", codes "(J)V")
    ∷ (codes "onHttpResponseReceived", codes "(JJ)I")
    ∷ (codes "onHttpResponseBodyStarted", codes "(J)Z")
    ∷ (codes "onHttpResponseBodyData", codes "(J[B)V")
    ∷ (codes "onHttpResponseBodyFinished", codes "(J)V")
    ∷ []

-- The methods that the binding calls: for a request its message, the start, the data and the end of its
-- body, and the same for a response.
abbrev pub methods_of : JavaCallbacks → List ℕ
methods_of b =
    b.http_request_received_callback ∷ b.http_request_body_started_callback
    ∷ b.http_request_body_data_callback ∷ b.http_request_body_finished_callback
    ∷ b.http_response_received_callback ∷ b.http_response_body_started_callback
    ∷ b.http_response_body_data_callback ∷ b.http_response_body_finished_callback ∷ []

module _ {J : Type 0} ⦃env : JniEnv J⦄ where
  -- The ids of methods of a class, looked up one after the other, and the machine behind that.
  abbrev pub looked_up : ℕ → List (List ℕ × List ℕ) → J → List ℕ × J
  looked_up cls [] vm = ([], vm)
  looked_up cls ((name, signature) ∷ methods) vm =
      let (id, vm1) = env.get_method_id cls name signature vm in
      let (ids, vm2) = looked_up cls methods vm1 in (id ∷ ids, vm2)

  -- What `new Callbacks` makes of the object, behind the class and the virtual machine.
  abbrev pub made_callbacks : ℕ → ℕ → J → JavaCallbacks × J
  made_callbacks callbacks_object context vm =
      let (cls, vm0) = env.find_class callbacks_class vm in
      let (obj, vm2) = env.new_global_ref callbacks_object (env.get_java_vm vm0).1 in
      find_methods cls obj context vm2

  new_callbacks-made :
      (callbacks_object context : ℕ) (w : JavaWorld J)
      → let (cls, vm0) = env.find_class callbacks_class w.vm in
        (cls == 0) ≡ false
        → (env.get_java_vm vm0).0 ≡ true
        → let (made, vm) = made_callbacks callbacks_object context w.vm in
          new_callbacks callbacks_object context w
          ≡ ok (record { vm = vm; callbacks_map = update w.callbacks_map context (some made) })
  unfolding new_callbacks
  new_callbacks-made callbacks_object context w found machine = rw (found, machine) refl

  made_callbacks-connection :
      (callbacks_object context : ℕ) (vm : J)
      → (made_callbacks callbacks_object context vm).0.connection ≡ context
  unfolding find_methods
  made_callbacks-connection callbacks_object context vm = refl

  -- The object has the global reference and the methods.
  made_callbacks-looked_up :
      (callbacks_object context : ℕ) (vm : J)
      → let (cls, vm0) = env.find_class callbacks_class vm in
        let (obj, vm2) = env.new_global_ref callbacks_object (env.get_java_vm vm0).1 in
        let (made, last) = made_callbacks callbacks_object context vm in
        (made.obj ≡ obj)
        × (methods_of made ≡ (looked_up cls callback_methods vm2).0)
        × (last ≡ (looked_up cls callback_methods vm2).1)
  unfolding find_methods
  made_callbacks-looked_up callbacks_object context vm = (refl, refl, refl)

  delete_callbacks-registered :
      (callbacks : JavaCallbacks) (w : JavaWorld J)
      → (env.attach_current_thread w.vm).0 ≡ true
      → delete_callbacks (some callbacks) w
        ≡ ok (record {
          vm = env.delete_global_ref callbacks.obj (env.attach_current_thread w.vm).1;
          callbacks_map = update w.callbacks_map callbacks.connection none;
        })
  unfolding delete_callbacks get_env
  delete_callbacks-registered callbacks w attached = rw attached refl

module _ {P Z J : Type 0} ⦃http : HttpParser P⦄ ⦃zlib : Zlib Z⦄ ⦃env : JniEnv J⦄ where
  -- A connection that Java has made: its entry in the parser context, with the binding's table of
  -- callbacks, and its Java object.
  pub record IsRegistered (n : Native P Z J) (id a : ℕ) (callbacks : JavaCallbacks) : Type 0 where
    pub formed : IsWellFormed n.parser
    pub found : lookup n.parser id ≡ some a
    pub context : ConnectionContext P Z (Run (JavaWorld J))
    pub live : n.parser.cells a ≡ some context
    pub table : context.callbacks ≡ parser_callbacks a
    pub java : n.java.callbacks_map a ≡ some callbacks
    pub back : callbacks.connection ≡ a

  -- On a well-formed parser context with no connection of that id, where Java has the class of the
  -- callbacks and the virtual machine is found: `connect` returns the address of the new connection.
  -- The parser context finds it under its id, and every other id as before; the connection has the
  -- binding's table of callbacks for that address; and the map of the callbacks is the same but for
  -- that address, where it has the object's global reference and the ids of the eight methods of the
  -- Java class, each for its event, which are looked up by their names and types.
  pub connect-IsRegistered :
      (parser : P) (id callbacks_object : ℕ) (n : Native P Z J)
      → IsWellFormed n.parser
      → lookup n.parser id ≡ none
      → let (cls, vm0) = env.find_class callbacks_class n.java.vm in
        (cls == 0) ≡ false
        → (env.get_java_vm vm0).0 ≡ true
        → let a = n.parser.next in
          let (obj, vm2) = env.new_global_ref callbacks_object (env.get_java_vm vm0).1 in
          let (methods, vm) = looked_up cls callback_methods vm2 in
          (made : JavaCallbacks) × (m : Native P Z J) × (connect parser id callbacks_object n
            ≡ ok (some a, m))
          × IsRegistered m id a made
          × IsConnected n.parser m.parser id a
          × (m.java ≡ record { vm = vm; callbacks_map = update n.java.callbacks_map a (some made) })
          × (made.obj ≡ obj)
          × (methods_of made ≡ methods)
  unfolding connect
  connect-IsRegistered parser id callbacks_object n formed absent found machine =
      let a = n.parser.next in
      let table = parser_callbacks a in
      let world = ok n.java in
      let t = connected parser world id table true (opened n.parser) in
      let java : JavaWorld J = record {
        vm = (made_callbacks callbacks_object a n.java.vm).1;
        callbacks_map =
            update n.java.callbacks_map a (some (made_callbacks callbacks_object a n.java.vm).0);
      } in
      let m : Native P Z J = record { parser = t; java = java } in
      let c = connected-IsConnected parser world id table n.parser true formed absent in
      let (same_obj, same_methods, last) = made_callbacks-looked_up callbacks_object a n.java.vm in
      (
        (made_callbacks callbacks_object a n.java.vm).0,
        m,
        rw
            (
              parser_connect-connected parser world id table n.parser true formed absent,
              new_callbacks-made callbacks_object a n.java found machine,
            )
            refl,
        record {
          formed = c.formed;
          found = c.found id ∙ ground arith;
          context = ready parser world id table;
          live = ap t.cells (sym (opened-next n.parser)) ∙ ground arith;
          table = refl;
          java = ground arith;
          back = made_callbacks-connection callbacks_object a n.java.vm;
        },
        c,
        ap
            (λ vm. record {
              vm = vm;
              callbacks_map =
                  update n.java.callbacks_map a
                    (some (made_callbacks callbacks_object a n.java.vm).0);
            })
            last,
        same_obj,
        same_methods,
      )

  -- With a connection of that id, on a well-formed parser context: `connect` throws an `IOException`
  -- with the code 101 and returns a pointer that was never written; no connection is found that was
  -- not there, and none is lost; and the map of the callbacks stays.
  pub connect-refused :
      (parser : P) (id callbacks_object : ℕ) (a : ℕ) (n : Native P Z J)
      → IsWellFormed n.parser
      → lookup n.parser id ≡ some a
      → (t : ParserContext P Z (Run (JavaWorld J))) × (connect parser id callbacks_object n
          ≡ ok (
            none,
            record { parser = t; java = with_vm n.java (throw connect_exception n.java.vm) },
          ))
        × ((i : ℕ) → lookup t i ≡ lookup n.parser i)
        × IsWellFormed t
  unfolding connect process_error exception_of format_u
  connect-refused parser id callbacks_object a n formed there =
      let (t, e, same, kept) =
        parser_connect-lookup parser (ok n.java) id (parser_callbacks n.parser.next) n.parser true a
          formed there in
      (t, rw e refl, same, kept)

  -- For a connection that Java has made, where the thread attaches: `closeConnection` frees it, so
  -- that its id is no longer found and every other as before; its entry leaves the map of the
  -- callbacks; the global reference of its Java object is given back; and no exception is thrown.
  pub close_connection-registered :
      (n : Native P Z J) (id a : ℕ) (callbacks : JavaCallbacks)
      → IsRegistered n id a callbacks
      → (env.attach_current_thread n.java.vm).0 ≡ true
      → (t : ParserContext P Z (Run (JavaWorld J))) × (close_connection a n
          ≡ ok (record {
            parser = t;
            java = record {
              vm = env.delete_global_ref callbacks.obj (env.attach_current_thread n.java.vm).1;
              callbacks_map = update n.java.callbacks_map a none;
            };
          }))
        × (t.cells a ≡ none)
        × ((i : ℕ) → lookup t i ≡ (if i == id then none else lookup n.parser i))
        × IsWellFormed t
  unfolding close_connection process_error
  close_connection-registered n id a callbacks r attached =
      let (t, e, gone, others, kept) =
        parser_connection_close-lookup n.parser id a r.formed r.found in
      (
        t,
        rw (e, r.java)
            (rw (delete_callbacks-registered callbacks n.java attached) (rw r.back refl)),
        gone,
        others,
        kept,
      )
