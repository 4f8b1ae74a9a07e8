-- ===== src/Jni/Parser.antt =====
-- The native methods of `NativeParser` (http-parser-java/jni/parser.cpp). A connection is its address
-- in the parser context. The world of the parser's callbacks is the Java world, or the fault that a
-- callback met. `connection_info` is filled in and never used.
use http_library.Prelude.{
  ℕ, true, Option, none, some, List, [], ◌++◌, ◌==◌, if◌then◌else◌, codes, take,
}
use http_library.Memory.{null_pointer, Run, ok, fault, ◌>>=◌}
use http_library.Message.Raw.{format_u}
use http_library.HttpParser.{HttpParser}
use http_library.Zlib.{Zlib}
use http_library.Session.{Direction, Session}
use http_library.Session.Input.{parser_input, parser_disconnect}
use http_library.Registry.{
  ParserContext, contents, store, parser_create, parser_connect, parser_connection_close,
  parser_destroy, connection_get_id,
}
use http_library.Jni.{JniEnv, long}
use http_library.Jni.Errors.{throw, process_error}
use http_library.Jni.Callbacks.{
  JavaWorld, with_vm, get_callbacks, parser_callbacks, new_callbacks, delete_callbacks,
}

abbrev pub io_exception : List ℕ
io_exception = codes "java/io/Exception"

-- What the native methods act on: the parser context, and Java.
pub record Native (P Z J : Type 0) : Type 0 where
  pub parser : ParserContext P Z (Run (JavaWorld J))
  pub java : JavaWorld J

module _ {P Z J : Type 0} ⦃http : HttpParser P⦄ ⦃zlib : Zlib Z⦄ ⦃env : JniEnv J⦄ where
  abbrev pub on_vm : Native P Z J → (J → J) → Native P Z J
  on_vm n f = record n { java = record (n.java) { vm = f n.java.vm } }

  -- The connection at an address, in the Java world.
  abbrev pub session_at :
      ParserContext P Z (Run (JavaWorld J))
      → ℕ
      → JavaWorld J
      → Run (Session P Z (Run (JavaWorld J)))
  session_at parser connection java = do
    context ← contents (parser.cells connection)
    ok (record { context = context; world = ok java })

  -- The state behind a call on the connection, and `processError` on what it returned.
  abbrev pub finish_call :
      ParserContext P Z (Run (JavaWorld J))
      → ℕ
      → (J → J)
      → ℕ × Session P Z (Run (JavaWorld J))
      → Run (Native P Z J)
  finish_call parser connection release (r, s) = do
    java ← s.world
    let vm = process_error r s.error_message (release java.vm)
    ok (record { parser = store parser connection (some s.context); java = with_vm java vm })

  -- `new Callbacks(…)` for the connection that was written to `connection_ctx`
  abbrev pub register : ℕ → Option ℕ → Native P Z J → Run (Option ℕ × Native P Z J)
  register callbacks none n = fault null_pointer
  register callbacks (some connection_ctx) n = do
    java ← new_callbacks callbacks connection_ctx n.java
    ok (some connection_ctx, record n { java = java })

  -- `connect`: the pointer that is returned, `none` where `connection_ctx` was never written.
  -- `parser` is what the new block of the parser holds. The table of callbacks gets the address that
  -- the connection will have.
  unfoldable pub connect : P → ℕ → ℕ → Native P Z J → Run (Option ℕ × Native P Z J)
  connect parser id callbacks n = do
    let table = parser_callbacks n.parser.next
    (r, pointer, context) ← parser_connect parser (ok n.java) n.parser id table true
    let m : Native P Z J = record n { parser = context }
    if r == 0
        then register callbacks pointer m
        else ok (
          pointer,
          on_vm m (process_error r (take 255 (codes "parser_connect() returned " ++ format_u r))),
        )

  unfoldable pub disconnect0 : ℕ → Direction → Native P Z J → Run (Native P Z J)
  disconnect0 connection direction n = do
    s ← session_at n.parser connection n.java
    finish_call n.parser connection (λ vm. vm) (parser_disconnect direction s)

  unfoldable pub input0 : ℕ → Direction → ℕ → Native P Z J → Run (Native P Z J)
  input0 connection direction bytes n = do
    let (elements, vm) = env.get_byte_array_elements bytes n.java.vm
    let len = env.get_array_length bytes vm
    s ← session_at n.parser connection (with_vm n.java vm)
    left ← parser_input direction (take len elements.bytes) s
    finish_call n.parser connection (env.release_byte_array_elements bytes elements.pointer) left

  unfoldable pub close_connection : ℕ → Native P Z J → Run (Native P Z J)
  close_connection connection n = do
    (r, parser) ← parser_connection_close n.parser connection
    let java = with_vm n.java (process_error r [] n.java.vm)
    java' ← delete_callbacks (get_callbacks java connection) java
    ok (record { parser = parser; java = java' })

  unfoldable pub get_connection_id : ℕ → Native P Z J → Run ℕ
  get_connection_id connection n = connection_get_id n.parser connection

  -- `closeParser`: `parser_destroy` has no `return`, so that `r` may be anything.
  unfoldable pub close_parser : ℕ → Native P Z J → Run (Native P Z J)
  close_parser r n = do
    parser ← parser_destroy n.parser
    let m : Native P Z J = record n { parser = parser }
    ok (if r == 0 then m else on_vm m (throw (io_exception, codes "NativeParser.close()")))

  -- `init`: the new parser context, at the address that goes to the field `parserCtxPtr`; `none`
  -- where the class has no such field
  unfoldable pub init : ℕ → ℕ → ℕ → J → Option (ParserContext P Z (Run (JavaWorld J))) × J
  init address cls object vm =
      let (parser_ctx_ptr, vm') = env.get_field_id cls (codes "parserCtxPtr") (codes "J") vm in
      if parser_ctx_ptr == 0
      then (none, vm')
      else (let (r, created) = parser_create true in
          if r == 0
          then (created, env.set_long_field object parser_ctx_ptr (long address) vm')
          else (none, throw (io_exception, codes "NativeParser()") vm'))
