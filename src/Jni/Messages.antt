-- ===== src/Jni/Messages.antt =====
-- The calls of Java for whole messages, and the binding as a user of the parser
-- (http-parser-java/jni/callbacks.cpp).
pub mod Inputs
use mathlib.Core.Path.{subst}
use http_library.Prelude.{
  ℕ, ◌%◌, ◌<◌, ◌≡◌, refl, sym, ◌∙◌, ap, true, false, Option, none, some, List, [], ◌∷◌, arith,
  length, All,
}
use http_library.Memory.{Run, ok, ◌>>=◌}
use http_library.Message.{HttpMessage, u32}
use http_library.Message.View.{MessageView, IsCleanView, represent}
use http_library.Message.Clone.{http_message_clone-represent}
use http_library.HttpParser.{finished, HttpParser}
use http_library.Zlib.{Zlib}
use http_library.Session.{Direction, Session, parser_ok}
use http_library.Session.Input.{prepare, parser_input, with_done}
use http_library.Session.Scripts.{Tells}
use http_library.Session.Messages.{
  Side, request_side, response_side, side_of, Sent, IsFit, view_of, Telling, all_reports,
  messages_of, IsToldBy, received_of, hooks_for, finished_of, told_pieces, told_body, told_message,
  told_messages, IsPlainUser, IsBetween,
}
use http_library.Session.Messages.Views.{view_of-IsCleanView}
use http_library.Jni.{JniEnv, JavaValue, long, native_message, object}
use http_library.Jni.Callbacks
use http_library.Jni.Callbacks.{
  JavaCallbacks, JavaWorld, with_vm, get_env, parser_callbacks, native_http_request_received,
  native_http_response_received, native_http_request_body_started,
  native_http_response_body_started, native_http_request_body_data, native_http_response_body_data,
  native_http_request_body_finished, native_http_response_body_finished,
}
use http_library.Jni.Bodies.{java_bytes, body_data-java_bytes}

-- The Java methods of a side.
abbrev pub received_method : Side → JavaCallbacks → ℕ
received_method request_side b = b.http_request_received_callback
received_method response_side b = b.http_response_received_callback

abbrev pub started_method : Side → JavaCallbacks → ℕ
started_method request_side b = b.http_request_body_started_callback
started_method response_side b = b.http_response_body_started_callback

abbrev pub body_method : Side → JavaCallbacks → ℕ
body_method request_side b = b.http_request_body_data_callback
body_method response_side b = b.http_response_body_data_callback

abbrev pub finished_method : Side → JavaCallbacks → ℕ
finished_method request_side b = b.http_request_body_finished_callback
finished_method response_side b = b.http_response_body_finished_callback

module _ {J : Type 0} ⦃env : JniEnv J⦄ (b : JavaCallbacks) (id : ℕ) where
  -- One call of a method of Java's object, from a thread that is attached for it: with an `int` as the
  -- result, and with none.
  abbrev pub int_call : ℕ → List JavaValue → J → J
  int_call method args vm =
      env.detach_current_thread
        (env.call_int_method b.obj method args (env.attach_current_thread vm).1).1

  abbrev pub void_call : ℕ → List JavaValue → J → J
  void_call method args vm =
      env.detach_current_thread
        (env.call_void_method b.obj method args (env.attach_current_thread vm).1)

  -- The pieces of a body, each in an array of its bytes.
  abbrev pub java_pieces : Side → List (List ℕ) → J → J
  java_pieces side [] vm = vm
  java_pieces side (bytes ∷ pieces) vm =
      java_pieces side pieces (java_bytes b.obj (body_method side b) id bytes vm)

  -- The calls for a body that has a piece.
  abbrev pub java_body : Side → List (List ℕ) → J → J
  java_body side [] vm = vm
  java_body side (bytes ∷ pieces) vm =
      void_call (finished_method side b) (long id ∷ [])
        (java_pieces side (bytes ∷ pieces) (int_call (started_method side b) (long id ∷ []) vm))

  -- The calls for a message: that for the message itself, with its contents, and those for its body.
  abbrev pub java_message : Sent → J → J
  java_message m vm = java_body (side_of m.first) m.content (
      int_call (received_method (side_of m.first) b)
        (long id ∷ native_message (represent (view_of m.first m.fields)) ∷ []) vm)

  abbrev pub java_messages : List Sent → J → J
  java_messages [] vm = vm
  java_messages (m ∷ messages) vm = java_messages messages (java_message m vm)

-- A world in which no fault was met, and the connection has its Java object.
abbrev pub HasObject : {J : Type 0} → JavaCallbacks → ℕ → Run (JavaWorld J) → Type 0
HasObject {J} b connection w =
    (j : JavaWorld J) × (w ≡ ok j) × (j.callbacks_map connection ≡ some b)

module _ {J : Type 0} ⦃env : JniEnv J⦄ (b : JavaCallbacks) (connection id : ℕ)
    (attaches : (vm : J) → (env.attach_current_thread vm).0 ≡ true)
    (agrees : (method : ℕ) (args : List JavaValue) (vm : J)
      → (env.call_int_method b.obj method args vm).0 ≡ 0) where
  pub received-int_call :
      (side : Side) (v : MessageView) (w : JavaWorld J)
      → IsCleanView v
      → w.callbacks_map connection ≡ some b
      → received_of side (parser_callbacks connection) id (some (represent v)) (ok w) ≡ (
        0,
        some (represent v),
        ok (
            with_vm w (
              int_call b id
                (received_method side b)
                (long id ∷ native_message (represent v) ∷ [])
                w.vm)),
      )
  unfolding parser_callbacks native_http_request_received native_http_response_received
      Callbacks.received get_env
  received-int_call request_side v w clean here = ground (
    arith,
    here,
    attaches w.vm,
    agrees b.http_request_received_callback (long id ∷ native_message (represent v) ∷ [])
        (env.attach_current_thread w.vm).1,
    http_message_clone-represent v clean,
  )
  received-int_call response_side v w clean here = ground (
    arith,
    here,
    attaches w.vm,
    agrees b.http_response_received_callback (long id ∷ native_message (represent v) ∷ [])
        (env.attach_current_thread w.vm).1,
    http_message_clone-represent v clean,
  )

  pub started-int_call :
      (side : Side) (w : JavaWorld J)
      → w.callbacks_map connection ≡ some b
      → (hooks_for side (parser_callbacks connection)).started id (ok w)
        ≡ (0, ok (with_vm w (int_call b id (started_method side b) (long id ∷ []) w.vm)))
  unfolding parser_callbacks native_http_request_body_started native_http_response_body_started
      Callbacks.body_started get_env
  started-int_call request_side w here = ground (
    arith,
    here,
    attaches w.vm,
    agrees b.http_request_body_started_callback (long id ∷ []) (env.attach_current_thread w.vm).1,
  )
  started-int_call response_side w here = ground (
    arith,
    here,
    attaches w.vm,
    agrees b.http_response_body_started_callback (long id ∷ []) (env.attach_current_thread w.vm).1,
  )

  pub finished-void_call :
      (side : Side) (w : JavaWorld J)
      → w.callbacks_map connection ≡ some b
      → finished_of side (parser_callbacks connection) id (ok w)
        ≡ ok (with_vm w (void_call b id (finished_method side b) (long id ∷ []) w.vm))
  unfolding parser_callbacks native_http_request_body_finished native_http_response_body_finished
      Callbacks.body_finished get_env
  finished-void_call request_side w here = ground (arith, here, attaches w.vm)
  finished-void_call response_side w here = ground (arith, here, attaches w.vm)

  pub data-java_bytes :
      (side : Side) (bytes : List ℕ) (w : JavaWorld J)
      → w.callbacks_map connection ≡ some b
      → length bytes < u32
      → (hooks_for side (parser_callbacks connection)).body_data id bytes (ok w)
        ≡ ok (with_vm w (java_bytes b.obj (body_method side b) id bytes w.vm))
  unfolding parser_callbacks native_http_request_body_data native_http_response_body_data
  data-java_bytes request_side bytes w here short =
      body_data-java_bytes (λ c. c.http_request_body_data_callback) connection id bytes w b short
        here (attaches w.vm)
  data-java_bytes response_side bytes w here short =
      body_data-java_bytes (λ c. c.http_response_body_data_callback) connection id bytes w b short
        here (attaches w.vm)

  -- The call for a piece whose length is cut to an `unsigned int`.
  abbrev cut_bytes : ℕ → List ℕ → J → J
  cut_bytes method bytes vm =
      let n = length bytes % u32 in
      let (arr, vm1) = env.new_byte_array n (env.attach_current_thread vm).1 in
      let vm2 = env.set_byte_array_region arr 0 n bytes vm1 in
      let vm3 = env.call_void_method b.obj method (long id ∷ object arr ∷ []) vm2 in
      env.detach_current_thread (env.delete_local_ref arr vm3)

  -- The call for a piece of any length leaves the map of the callbacks alone.
  data-HasObject :
      (side : Side) (bytes : List ℕ) (w : JavaWorld J)
      → w.callbacks_map connection ≡ some b
      → HasObject b connection
          ((hooks_for side (parser_callbacks connection)).body_data id bytes (ok w))
  unfolding parser_callbacks native_http_request_body_data native_http_response_body_data
      Callbacks.body_data get_env
  data-HasObject request_side bytes w here = (
    with_vm w (cut_bytes b.http_request_body_data_callback bytes w.vm),
    ground (arith, here, attaches w.vm),
    here,
  )
  data-HasObject response_side bytes w here = (
    with_vm w (cut_bytes b.http_response_body_data_callback bytes w.vm),
    ground (arith, here, attaches w.vm),
    here,
  )

  -- The binding is a plain user, in such worlds.
  pub binding-IsPlainUser :
      IsPlainUser (parser_callbacks {J = J} connection) id (HasObject b connection)
  binding-IsPlainUser = record {
    answer = λ side v w clean (j, e, here).
        ap (λ u. (received_of side (parser_callbacks connection) id (some (represent v)) u).0) e
        ∙ ap (λ r. r.0) (received-int_call side v j clean here);
    keeps = λ side v w clean (j, e, here). (
      v,
      ap (λ u. (received_of side (parser_callbacks connection) id (some (represent v)) u).1) e
          ∙ ap (λ r. r.1) (received-int_call side v j clean here),
      omega arith,
    );
    good_received = λ side v w clean (j, e, here). (
      _,
      ap (λ u. (received_of side (parser_callbacks connection) id (some (represent v)) u).2) e
          ∙ ap (λ r. r.2) (received-int_call side v j clean here),
      here,
    );
    plain = λ side w (j, e, here).
        ap (λ u. ((hooks_for side (parser_callbacks connection)).started id u).0) e
        ∙ ap (λ r. r.0) (started-int_call side j here);
    good_started = λ side w (j, e, here). (
      _,
      ap (λ u. ((hooks_for side (parser_callbacks connection)).started id u).1) e
          ∙ ap (λ r. r.1) (started-int_call side j here),
      here,
    );
    good_data = λ side bytes w (j, e, here).
        subst
          (λ u.
            HasObject b connection
              ((hooks_for side (parser_callbacks connection)).body_data id bytes u))
          (sym e) (data-HasObject side bytes j here);
    good_finished = λ side w (j, e, here). (
      _,
      ap (finished_of side (parser_callbacks connection) id) e ∙ finished-void_call side j here,
      here,
    );
  }
