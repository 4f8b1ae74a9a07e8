-- ===== src/Jni/Logging.antt =====
-- The native methods of `NativeLogger`, and the callback that hands messages to Java
-- (http-parser-java/jni/logger.cpp). The logger at `nativePtr` comes as a value. What
-- `logger_open` returns is any pointer, an argument: it has no return statement.
use http_library.Prelude.{ℕ, Bool, Option, none, some, List, [], ◌∷◌, ◌==◌, if◌then◌else◌, codes}
use http_library.Memory.{Run, ok, ◌>>=◌}
use http_library.Logger.{Logger, LogSystem, logger_open, logger_close, logger_is_open, logger_log}
use http_library.Jni.{JniEnv, int, long, object, string_chars, release_if_copy}

-- `LoggerCtx`; the virtual machine is the world
pub record LoggerCtx : Type 0 where
  pub callback_object : ℕ
  pub callback_method : ℕ

module _ {J : Type 0} ⦃env : JniEnv J⦄ where
  -- `text ? NewStringUTF(text) : NULL`
  abbrev pub string_or_null : Option (List ℕ) → J → ℕ × J
  string_or_null none vm = (0, vm)
  string_or_null (some text) vm = env.new_string_utf (some text) vm

  -- `NativeLogger_callback`
  unfoldable pub native_logger_callback : LoggerCtx → ℕ → Option (List ℕ) → Option (List ℕ) → J → J
  native_logger_callback logger_ctx log_level thread_info message vm =
      let (attached, vm1) = env.attach_current_thread vm in
      if attached
      then (let (thread_string, vm2) = string_or_null thread_info vm1 in
          let (message_string, vm3) = string_or_null message vm2 in
          let args = int log_level ∷ object thread_string ∷ object message_string ∷ [] in
          let vm4 =
            env.call_void_method logger_ctx.callback_object logger_ctx.callback_method args vm3 in
          env.detach_current_thread
            (env.delete_local_ref message_string (env.delete_local_ref thread_string vm4)))
      else vm1

  -- `callback_func` with its attachment
  abbrev pub callback_with : LoggerCtx → ℕ → List ℕ → List ℕ → J → J
  callback_with logger_ctx log_level thread_info message =
      native_logger_callback logger_ctx log_level (some thread_info) (some message)

module _ {J : Type 0} ⦃env : JniEnv J⦄ (system : LogSystem J) where
  -- The field `nativePtr` of the new object is set, if the class has it.
  abbrev pub store_logger : ℕ → ℕ → Logger J × ℕ → J → ℕ × Option (Logger J) × J
  store_logger cls logger_object (filled, log) vm =
      let (native_ptr, vm') = env.get_field_id cls (codes "nativePtr") (codes "J") vm in
      if native_ptr == 0
      then (0, none, vm')
      else (logger_object, some filled, env.set_long_field logger_object native_ptr (long log) vm')

  -- `NativeLogger.open0`: the object, the block of a logger that was filled in, and the machine
  unfoldable pub open0 : ℕ → ℕ → ℕ → ℕ → J → ℕ × Option (Logger J) × J
  open0 returned cls log_level callback vm =
      let (logger_object, vm1) = env.alloc_object cls vm in
      if logger_object == 0
      then (0, none, vm1)
      else (let (callback_object, vm2) = env.new_global_ref callback vm1 in
          let (callback_class, vm3) =
            env.find_class (codes "com/adguard/http/parser/NativeLogger$NativeCallback") vm2 in
          if callback_class == 0
          then (0, none, vm3)
          else (let (method, vm4) =
                env.get_method_id callback_class (codes "log")
                  (codes "(ILjava/lang/String;Ljava/lang/String;)V") vm3 in
              let (_, vm5) = env.get_java_vm vm4 in
              let ctx : LoggerCtx = record {
                callback_object = callback_object;
                callback_method = method;
              } in
              let log = logger_open system none log_level (some (callback_with ctx)) returned in
              store_logger cls logger_object log vm5))

  -- the logger for a file name that may be `NULL`
  abbrev pub open_named : Option ℕ → ℕ → ℕ → J → Run ((Logger J × ℕ) × J)
  open_named none log_level returned vm = ok (logger_open system none log_level none returned, vm)
  open_named (some file_name) log_level returned vm = do
    (chars, text, vm') ← string_chars file_name vm
    ok (logger_open system (some text) log_level none returned, release_if_copy file_name chars vm')

  -- `NativeLogger.open1`
  unfoldable pub open1 : ℕ → ℕ → ℕ → Option ℕ → J → Run (ℕ × Option (Logger J) × J)
  open1 returned cls log_level file_name vm = do
    let (logger_object, vm1) = env.alloc_object cls vm
    if logger_object == 0 then ok (0, none, vm1) else (do
      (log, vm2) ← open_named file_name log_level returned vm1
      ok (store_logger cls logger_object log vm2))

  unfoldable pub is_open : Logger J → Bool
  is_open log = logger_is_open system log

  -- The result of `logger_close` is ignored.
  unfoldable pub close : Logger J → Logger J
  close log = let (_, _, log') = logger_close system log in log'

  unfoldable pub log_message : Logger J → ℕ → ℕ → J → Run J
  log_message log log_level message vm = do
    (chars, text, vm') ← string_chars message vm
    ok (release_if_copy message chars (logger_log system log log_level text vm'))
