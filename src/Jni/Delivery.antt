-- ===== src/Jni/Delivery.antt =====
-- From the events of the parser to Java: the callbacks of the session are those of the binding
-- (http-parser-java/jni/callbacks.cpp).
use http_library.Prelude.{
  ℕ, ◌<◌, ◌≡◌, ap, ◌∙◌, true, false, some, List, [], ◌∷◌, length, All, arith,
}
use http_library.Memory.{Run, ok, ◌>>=◌}
use http_library.Memory.Strings.{IsText}
use http_library.Message.{u32}
use http_library.Message.View.{MessageView, IsCleanView, represent}
use http_library.Message.Clone.{http_message_clone-represent}
use http_library.HttpParser.{http_request, headers_complete, HttpParser}
use http_library.Zlib.{Zlib}
use http_library.Session.{Session}
use http_library.Session.Handlers.{on_event, received}
use http_library.Session.Fields.{IsFragment, holding, run_events}
use http_library.Session.Assembly.{FieldPieces, IsCut}
use http_library.Session.Received.{
  request_of-IsCleanView, head_events, request_of, head_events-received,
}
use http_library.Jni.{JniEnv, JavaValue, long, native_message}
use http_library.Jni.Callbacks
use http_library.Jni.Callbacks.{
  JavaCallbacks, JavaWorld, with_vm, get_env, parser_callbacks, native_http_request_received,
}

module _ {J : Type 0} ⦃env : JniEnv J⦄ where
  -- What Java answers to a request and leaves behind, when the thread was attached.
  abbrev pub java_answer : JavaCallbacks → List JavaValue → J → ℕ × J
  java_answer callbacks args vm =
      let (r, vm') =
        env.call_int_method callbacks.obj callbacks.http_request_received_callback args
          (env.attach_current_thread vm).1 in
      (r, env.detach_current_thread vm')

  request_received-represent :
      (connection id : ℕ) (v : MessageView) (w : JavaWorld J) (callbacks : JavaCallbacks)
      → IsCleanView v
      → w.callbacks_map connection ≡ some callbacks
      → (env.attach_current_thread w.vm).0 ≡ true
      → let m = represent v in
        let (r, vm) = java_answer callbacks (long id ∷ native_message m ∷ []) w.vm in
        native_http_request_received connection id (some m) (ok w) ≡ (r, some m, ok (with_vm w vm))
  unfolding native_http_request_received Callbacks.received get_env
  request_received-represent connection id v w callbacks clean registered attached =
      ground (arith, registered, attached, http_message_clone-represent v clean)

module _ {P Z J : Type 0} ⦃http : HttpParser P⦄ ⦃zlib : Zlib Z⦄ ⦃env : JniEnv J⦄
    (s : Session P Z (Run (JavaWorld J))) where
  -- On a connection of the binding with a Java object, where the thread attaches, no fault was met and
  -- no header name is open, with a parser that reads a request, a method name free of NUL, and less
  -- than 2^32 header fields: a request head in pieces that are free of NUL,
  -- the first of the url and of each header name not empty, calls Java's
  -- `onHttpRequestReceived` once, with the connection's id and a message of the contents that the
  -- pieces say, where an empty piece takes the place of all that the value held. What Java returns is the answer to the parser, the thread is
  -- detached, and the connection keeps the message.
  pub head_events-java :
      (f : List ℕ) (fs : List (List ℕ)) (ps : List FieldPieces) (connection : ℕ) (w : JavaWorld J)
      (callbacks : JavaCallbacks)
      → s.callbacks ≡ parser_callbacks connection
      → s.world ≡ ok w
      → w.callbacks_map connection ≡ some callbacks
      → (env.attach_current_thread w.vm).0 ≡ true
      → s.in_field ≡ false
      → http.parser_type s.parser ≡ http_request
      → IsText (http.method_str (http.method s.parser))
      → IsFragment f × All IsText fs
      → length ps < u32
      → All IsCut ps
      → let m = represent (request_of (http.method_str (http.method s.parser)) f fs ps) in
        let (r, vm) = java_answer callbacks (long s.id ∷ native_message m ∷ []) w.vm in
        (run_events (head_events f fs ps) s >>= on_event headers_complete)
        ≡ ok (received (holding s m false) (r, some m, ok (with_vm w vm)))
  unfolding parser_callbacks
  head_events-java f fs ps connection w callbacks table here registered attached idle reads named
        pieces few cut =
      let method = http.method_str (http.method s.parser) in
      let v = request_of method f fs ps in
      let m = represent v in
      head_events-received s f fs ps idle reads pieces few cut
      ∙ ap (λ r. ok (received (holding s m false) r))
          (ap (λ c. c.http_request_received s.id (some m) s.world) table
            ∙ ap (native_http_request_received connection s.id (some m)) here
            ∙ request_received-represent connection s.id v w callbacks
                (request_of-IsCleanView method f fs ps named pieces cut few) registered attached)
