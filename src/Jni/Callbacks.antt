-- ===== src/Jni/Callbacks.antt =====
-- The callbacks of the Java binding (http-parser-java/jni/callbacks.cpp and callbacks.h): the class
-- `Callbacks`, its map from connections to Java objects, and the functions that the parser calls.
-- A fault in a function stays in the world that the later ones get: nothing runs behind it.
use http_library.Prelude.{
  ℕ, ◌-◌, ◌%◌, ◌^◌, Option, none, some, List, [], ◌∷◌, ◌==◌, if◌then◌else◌, codes, length,
}
use http_library.Memory.{uncaught_exception, Run, ok, fault, ◌>>=◌}
use http_library.Message.{HttpMessage, u32, http_message_clone}
use http_library.Session as Parser
use http_library.Session.Handlers.{the_message}
use http_library.Registry.{update}
use http_library.Jni.{JniEnv, JavaValue, long, native_message, object}

-- An object of the class `Callbacks`.
pub record JavaCallbacks : Type 0 where
  pub connection : ℕ
  pub obj : ℕ
  pub http_request_received_callback : ℕ
  pub http_request_body_started_callback : ℕ
  pub http_request_body_data_callback : ℕ
  pub http_request_body_finished_callback : ℕ
  pub http_response_received_callback : ℕ
  pub http_response_body_started_callback : ℕ
  pub http_response_body_data_callback : ℕ
  pub http_response_body_finished_callback : ℕ

-- The virtual machine and `callbacksMap`, by the address of the connection.
pub record JavaWorld (J : Type 0) : Type 0 where
  pub vm : J
  pub callbacks_map : ℕ → Option JavaCallbacks

-- -1, as an `int`
abbrev pub minus_one : ℕ
minus_one = 2 ^ 32 - 1

abbrev pub callbacks_class : List ℕ
callbacks_class = codes "Lcom/adguard/http/parser/NativeParser$Callbacks;"

module _ {J : Type 0} ⦃env : JniEnv J⦄ where
  abbrev pub with_vm : JavaWorld J → J → JavaWorld J
  with_vm w vm = record w { vm = vm }

  -- `getEnv`
  unfoldable pub get_env : J → Run J
  get_env vm =
      let (attached, vm') = env.attach_current_thread vm in
      if attached then ok vm' else fault uncaught_exception

  -- `Callbacks::get`
  abbrev pub get_callbacks : JavaWorld J → ℕ → Option JavaCallbacks
  get_callbacks w connection = w.callbacks_map connection

  -- An `int` that Java returns for a connection, in the attached thread.
  abbrev pub call_int : JavaCallbacks → ℕ → List JavaValue → JavaWorld J → Run (ℕ × JavaWorld J)
  call_int callbacks method args w = do
    vm ← get_env w.vm
    let (r, vm') = env.call_int_method callbacks.obj method args vm
    ok (r, with_vm w (env.detach_current_thread vm'))

  unfoldable pub received :
      (JavaCallbacks → ℕ) → ℕ → ℕ → Option HttpMessage → JavaWorld J → Run (ℕ × JavaWorld J)
  received method connection id message w = elim (get_callbacks w connection) [
    | none ↦ ok (minus_one, w)
    | some callbacks ↦ do
      source ← the_message message
      copy ← http_message_clone source
      call_int callbacks (method callbacks) (long id ∷ native_message copy ∷ []) w
  ]

  unfoldable pub body_started : (JavaCallbacks → ℕ) → ℕ → ℕ → JavaWorld J → Run (ℕ × JavaWorld J)
  body_started method connection id w = elim (get_callbacks w connection) [
    | none ↦ ok (minus_one, w)
    | some callbacks ↦ call_int callbacks (method callbacks) (long id ∷ []) w
  ]

  unfoldable pub body_data : (JavaCallbacks → ℕ) → ℕ → ℕ → List ℕ → JavaWorld J → Run (JavaWorld J)
  body_data method connection id bytes w = elim (get_callbacks w connection) [
    | none ↦ ok w
    | some callbacks ↦ do
      vm ← get_env w.vm
      let (arr, vm1) = env.new_byte_array (length bytes % u32) vm
      let vm2 = env.set_byte_array_region arr 0 (length bytes % u32) bytes vm1
      let vm3 =
          env.call_void_method callbacks.obj (method callbacks) (long id ∷ object arr ∷ []) vm2
      ok (with_vm w (env.detach_current_thread (env.delete_local_ref arr vm3)))
  ]

  unfoldable pub body_finished : (JavaCallbacks → ℕ) → ℕ → ℕ → JavaWorld J → Run (JavaWorld J)
  body_finished method connection id w = elim (get_callbacks w connection) [
    | none ↦ ok w
    | some callbacks ↦ do
      vm ← get_env w.vm
      let vm' = env.call_void_method callbacks.obj (method callbacks) (long id ∷ []) vm
      ok (with_vm w (env.detach_current_thread vm'))
  ]

  -- A result beside the world it leaves; behind a fault it is never read.
  abbrev pub answer : Run (ℕ × JavaWorld J) → ℕ × Run (JavaWorld J)
  answer (ok (r, w)) = (r, ok w)
  answer (fault e) = (0, fault e)

  abbrev pub with_message :
      Option HttpMessage → ℕ × Run (JavaWorld J) → ℕ × Option HttpMessage × Run (JavaWorld J)
  with_message message (r, w) = (r, message, w)

  -- the eight functions, of the connection at an address
  unfoldable pub native_http_request_received :
      ℕ → ℕ → Option HttpMessage → Run (JavaWorld J) → ℕ × Option HttpMessage × Run (JavaWorld J)
  native_http_request_received connection id message w =
      with_message message
        (answer (w >>= received (λ c. c.http_request_received_callback) connection id message))

  unfoldable pub native_http_request_body_started :
      ℕ → ℕ → Run (JavaWorld J) → ℕ × Run (JavaWorld J)
  native_http_request_body_started connection id w =
      answer (w >>= body_started (λ c. c.http_request_body_started_callback) connection id)

  unfoldable pub native_http_request_body_data :
      ℕ → ℕ → List ℕ → Run (JavaWorld J) → Run (JavaWorld J)
  native_http_request_body_data connection id bytes w =
      w >>= body_data (λ c. c.http_request_body_data_callback) connection id bytes

  unfoldable pub native_http_request_body_finished : ℕ → ℕ → Run (JavaWorld J) → Run (JavaWorld J)
  native_http_request_body_finished connection id w =
      w >>= body_finished (λ c. c.http_request_body_finished_callback) connection id

  unfoldable pub native_http_response_received :
      ℕ → ℕ → Option HttpMessage → Run (JavaWorld J) → ℕ × Option HttpMessage × Run (JavaWorld J)
  native_http_response_received connection id message w =
      with_message message
        (answer (w >>= received (λ c. c.http_response_received_callback) connection id message))

  unfoldable pub native_http_response_body_started :
      ℕ → ℕ → Run (JavaWorld J) → ℕ × Run (JavaWorld J)
  native_http_response_body_started connection id w =
      answer (w >>= body_started (λ c. c.http_response_body_started_callback) connection id)

  unfoldable pub native_http_response_body_data :
      ℕ → ℕ → List ℕ → Run (JavaWorld J) → Run (JavaWorld J)
  native_http_response_body_data connection id bytes w =
      w >>= body_data (λ c. c.http_response_body_data_callback) connection id bytes

  unfoldable pub native_http_response_body_finished : ℕ → ℕ → Run (JavaWorld J) → Run (JavaWorld J)
  native_http_response_body_finished connection id w =
      w >>= body_finished (λ c. c.http_response_body_finished_callback) connection id

  -- `parserCallbacks`, for the connection at an address
  unfoldable pub parser_callbacks : ℕ → Parser.Callbacks (Run (JavaWorld J))
  parser_callbacks connection = record {
    http_request_received = native_http_request_received connection;
    http_request_body_started = native_http_request_body_started connection;
    http_request_body_data = native_http_request_body_data connection;
    http_request_body_finished = native_http_request_body_finished connection;
    http_response_received = native_http_response_received connection;
    http_response_body_started = native_http_response_body_started connection;
    http_response_body_data = native_http_response_body_data connection;
    http_response_body_finished = native_http_response_body_finished connection;
  }

  -- The ids of the methods, and the object with the reference `obj`.
  unfoldable pub find_methods : ℕ → ℕ → ℕ → J → JavaCallbacks × J
  find_methods cls obj context vm0 =
      let (m0, vm1) = env.get_method_id cls (codes "onHttpRequestReceived") (codes "(JJ)I") vm0 in
      let (m1, vm2) = env.get_method_id cls (codes "onHttpRequestBodyStarted") (codes "(J)Z") vm1 in
      let (m2, vm3) = env.get_method_id cls (codes "onHttpRequestBodyData") (codes "(J[B)V") vm2 in
      let (m3, vm4) =
        env.get_method_id cls (codes "onHttpRequestBodyFinished") (codes "(J)V") vm3 in
      let (m4, vm5) = env.get_method_id cls (codes "onHttpResponseReceived") (codes "(JJ)I") vm4 in
      let (m5, vm6) =
        env.get_method_id cls (codes "onHttpResponseBodyStarted") (codes "(J)Z") vm5 in
      let (m6, vm7) = env.get_method_id cls (codes "onHttpResponseBodyData") (codes "(J[B)V") vm6 in
      let (m7, vm8) =
        env.get_method_id cls (codes "onHttpResponseBodyFinished") (codes "(J)V") vm7 in
      (
        record {
          connection = context;
          obj = obj;
          http_request_received_callback = m0;
          http_request_body_started_callback = m1;
          http_request_body_data_callback = m2;
          http_request_body_finished_callback = m3;
          http_response_received_callback = m4;
          http_response_body_started_callback = m5;
          http_response_body_data_callback = m6;
          http_response_body_finished_callback = m7;
        },
        vm8,
      )

  -- The constructor of `Callbacks`.
  unfoldable pub new_callbacks : ℕ → ℕ → JavaWorld J → Run (JavaWorld J)
  new_callbacks callbacks_object context w =
      let (cls, vm0) = env.find_class callbacks_class w.vm in
      if cls == 0
      then fault uncaught_exception
      else (let (found, vm1) = env.get_java_vm vm0 in
          let (obj, vm2) = env.new_global_ref callbacks_object vm1 in
          let (made, vm') = find_methods cls obj context vm2 in
          if found
          then ok (record { vm = vm'; callbacks_map = update w.callbacks_map context (some made) })
          else fault uncaught_exception)

  -- `delete` of an object or of `NULL`, with the destructor
  unfoldable pub delete_callbacks : Option JavaCallbacks → JavaWorld J → Run (JavaWorld J)
  delete_callbacks none w = ok w
  delete_callbacks (some callbacks) w = do
    vm ← get_env w.vm
    ok (record {
      vm = env.delete_global_ref callbacks.obj vm;
      callbacks_map = update w.callbacks_map callbacks.connection none;
    })
