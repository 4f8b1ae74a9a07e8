-- ===== src/Jni/Bodies.antt =====
-- From the body pieces of the parser to Java (http-parser-java/jni/callbacks.cpp).
use http_library.Prelude.{
  ℕ, Bool, if◌then◌else◌, ◌<◌, ◌%◌, ◌≡◌, refl, ap, ◌∙◌, true, Option, none, some, List, [], ◌∷◌,
  arith, length,
}
use mathlib.Core.Option.{some-injective}
use http_library.Memory.{Run, ok, ◌>>=◌}
use http_library.Message.{u32}
use http_library.HttpParser.{ParserType, http_request, http_response, http_both, body, HttpParser}
use http_library.Zlib.{Zlib}
use http_library.Session.{identity, Session, parser_ok}
use http_library.Session.Handlers.{BodyHooks, request_hooks, response_hooks, on_event}
use http_library.Session.Body.{handed_over, with_body, hooks_of, on_body-handed_over}
use http_library.Jni.{JniEnv, long, object}
use http_library.Jni.Callbacks.{
  JavaCallbacks, JavaWorld, with_vm, get_env, body_data, parser_callbacks,
  native_http_request_body_data, native_http_response_body_data,
}

-- The Java method for the body of what the parser reads.
abbrev pub data_method : ParserType → Option (JavaCallbacks → ℕ)
data_method http_request = some (λ c. c.http_request_body_data_callback)
data_method http_response = some (λ c. c.http_response_body_data_callback)
data_method http_both = none

if-true : {A : Type 0} {b : Bool} (x y : A) → b ≡ true → (if b then x else y) ≡ x
if-true x y e = ap (λ b. if b then x else y) e

module _ {J : Type 0} (env : JniEnv J) where
  -- The callbacks of the binding's table hand body data to the method of their direction.
  record IsHanded (kind : ParserType) (method : JavaCallbacks → ℕ) (connection : ℕ) : Type 0 where
    hooks : BodyHooks (Run (JavaWorld J))
    reads : hooks_of kind (parser_callbacks ⦃env = env⦄ connection) ≡ some hooks
    handed :
        (id : ℕ) (bytes : List ℕ) (w : Run (JavaWorld J))
        → hooks.body_data id bytes w ≡ (w >>= body_data ⦃env = env⦄ method connection id bytes)

module _ {J : Type 0} ⦃env : JniEnv J⦄ where
  -- A call of a Java method with an array of the bytes, which is given back behind it, from a thread
  -- that is attached for the call.
  abbrev pub java_bytes : ℕ → ℕ → ℕ → List ℕ → J → J
  java_bytes obj method id bytes vm =
      let (arr, vm1) = env.new_byte_array (length bytes) (env.attach_current_thread vm).1 in
      let vm2 = env.set_byte_array_region arr 0 (length bytes) bytes vm1 in
      let vm3 = env.call_void_method obj method (long id ∷ object arr ∷ []) vm2 in
      env.detach_current_thread (env.delete_local_ref arr vm3)

  pub body_data-java_bytes :
      (method : JavaCallbacks → ℕ) (connection id : ℕ) (bytes : List ℕ) (w : JavaWorld J)
      (callbacks : JavaCallbacks)
      → length bytes < u32
      → w.callbacks_map connection ≡ some callbacks
      → (env.attach_current_thread w.vm).0 ≡ true
      → body_data method connection id bytes w
        ≡ ok (with_vm w (java_bytes callbacks.obj (method callbacks) id bytes w.vm))
  unfolding body_data get_env
  body_data-java_bytes method connection id bytes w callbacks short registered attached =
      let whole : length bytes % u32 ≡ length bytes = omega arith in
      ground (arith, registered, attached, whole)

  table-IsHanded :
      (kind : ParserType) (method : JavaCallbacks → ℕ) (connection : ℕ)
      → data_method kind ≡ some method
      → IsHanded env kind method connection
  unfolding parser_callbacks native_http_request_body_data native_http_response_body_data
  table-IsHanded http_request method connection e = record {
    hooks = request_hooks (parser_callbacks connection);
    reads = refl;
    handed = λ id bytes w. ap (λ m. w >>= body_data m connection id bytes) (some-injective _ _ e);
  }
  table-IsHanded http_response method connection e = record {
    hooks = response_hooks (parser_callbacks connection);
    reads = refl;
    handed = λ id bytes w. ap (λ m. w >>= body_data m connection id bytes) (some-injective _ _ e);
  }
  table-IsHanded http_both method connection e = absurd (ground arith)

module _ {P Z J : Type 0} ⦃http : HttpParser P⦄ ⦃zlib : Zlib Z⦄ ⦃env : JniEnv J⦄
    (s : Session P Z (Run (JavaWorld J))) (bytes : List ℕ) (connection : ℕ) (w : JavaWorld J)
    (callbacks : JavaCallbacks) where
  -- On a connection of the binding with a Java object, where the thread attaches and no fault was met:
  -- a piece of a body, shorter than 2^32, behind the first one and with no encoding, calls Java's
  -- `onHttpRequestBodyData` or `onHttpResponseBodyData`, as the parser reads a request or a response,
  -- once, with the connection's id and an array that was filled with exactly these bytes; the array is
  -- given back and the thread detached, and the piece counts as no error.
  pub on_body-java_bytes :
      (method : JavaCallbacks → ℕ)
      → data_method (http.parser_type s.parser) ≡ some method
      → s.callbacks ≡ parser_callbacks connection
      → s.world ≡ ok w
      → w.callbacks_map connection ≡ some callbacks
      → (env.attach_current_thread w.vm).0 ≡ true
      → s.content_encoding ≡ identity
      → s.body_started ≡ true
      → length bytes < u32
      → on_event (body bytes) s
        ≡ ok (
          parser_ok,
          record (with_body s) {
            context = record (with_body s).context { body_callback_error = parser_ok };
            world = ok (with_vm w (java_bytes callbacks.obj (method callbacks) s.id bytes w.vm));
          },
        )
  on_body-java_bytes method reads table here registered attached plain started short =
      let h = table-IsHanded (http.parser_type s.parser) method connection reads in
      let hooks = h.hooks in
      let mine = ap (hooks_of (http.parser_type s.parser)) table ∙ h.reads in
      on_body-handed_over s bytes hooks mine plain (ground arith)
      ∙ ap (λ t. ok (parser_ok, handed_over hooks bytes t)) (if-true (with_body s) _ started)
      ∙ ap
          (λ v. ok (
            parser_ok,
            record (with_body s) {
              context = record (with_body s).context { body_callback_error = parser_ok };
              world = v;
            },
          ))
          (h.handed s.id bytes s.world
            ∙ ap (λ v. v >>= body_data method connection s.id bytes) here
            ∙ body_data-java_bytes method connection s.id bytes w callbacks short registered
                attached)
