-- ===== src/Jni/Errors.antt =====
-- `processError` (http-parser-java/jni/parser.cpp).
use http_library.Prelude.{ℕ, List, ◌++◌, ◌==◌, if◌then◌else◌, codes, take}
use http_library.Session.{
  parser_ok, parser_already_connected_error, parser_http_parse_error, parser_zlib_error,
  parser_null_pointer_error, parser_invalid_argument_error,
}
use http_library.Jni.{JniEnv}

-- The `switch`: the class of the exception, and its message.
unfoldable pub exception_of : ℕ → List ℕ → List ℕ × List ℕ
exception_of return_code message =
    if return_code == parser_null_pointer_error
    then (codes "java/lang/NullPointerException", message)
    else (if return_code == parser_http_parse_error
        then (codes "java/io/IOException", take 255 (codes "HTTP parse error: " ++ message))
        else (if return_code == parser_zlib_error
            then (codes "java/io/IOException", take 255 (codes "Zlib error: " ++ message))
            else (if return_code == parser_invalid_argument_error
                then (codes "java/lang/IllegalArgumentException", message)
                else (if return_code == parser_already_connected_error
                    then (codes "java/io/IOException", message)
                    else (codes "java/lang/RuntimeException", message)))))

module _ {J : Type 0} ⦃env : JniEnv J⦄ where
  -- `ThrowNew(FindClass(name), message)`
  abbrev pub throw : List ℕ × List ℕ → J → J
  throw (name, message) vm =
      let (cls, vm') = env.find_class name vm in env.throw_new cls message vm'

  unfoldable pub process_error : ℕ → List ℕ → J → J
  process_error return_code message vm =
      if return_code == parser_ok then vm else throw (exception_of return_code message) vm
