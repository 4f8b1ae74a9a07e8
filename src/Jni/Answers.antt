-- ===== src/Jni/Answers.antt =====
-- What Java sees of `input0` (http-parser-java/jni/parser.cpp).
use http_library.Prelude.{ℕ, ◌<◌, ◌≤◌, ◌≡◌, false, some, List, ◌++◌, ◌==◌, take, codes}
use http_library.Memory.{Fault, Run, ok, fault}
use http_library.HttpParser.{HttpParser}
use http_library.Zlib.{Zlib}
use http_library.Session.{Session}
use http_library.Registry.{store}
use http_library.Jni.{JniEnv}
use http_library.Jni.Errors.{throw, process_error}
use http_library.Jni.Callbacks.{JavaWorld, with_vm}
use http_library.Jni.Parser.{Native}

abbrev pub parse_exception : List ℕ → List ℕ × List ℕ
parse_exception description =
    (codes "java/io/IOException", take 255 (codes "HTTP parse error: " ++ take 255 description))

module _ {P Z J : Type 0} ⦃http : HttpParser P⦄ ⦃zlib : Zlib Z⦄ ⦃env : JniEnv J⦄ where
  -- The state behind a call, with the session `t`, and the Java world `java` with another machine.
  abbrev pub behind :
      Native P Z J → ℕ → Session P Z (Run (JavaWorld J)) → JavaWorld J → J → Run (Native P Z J)
  behind n connection t java vm =
      ok (record { parser = store n.parser connection (some t.context); java = with_vm java vm })

  -- The ways in which an input of `total` bytes ends for Java, with `release` on the machine.
  pub data IsInputAnswer (n : Native P Z J) (connection total : ℕ) (release : J → J)
      : Run (Native P Z J) → Type 0 where
    no_exception :
        (t : Session P Z (Run (JavaWorld J))) (java : JavaWorld J)
        → total ≤ t.done
        → IsInputAnswer n connection total release (behind n connection t java (release java.vm))
    parse_failed :
        (t : Session P Z (Run (JavaWorld J))) (java : JavaWorld J)
        → t.done < total
        → (http.http_errno t.parser == 0) ≡ false
        → (http.http_errno t.parser == http.hpe_cb_body) ≡ false
        → IsInputAnswer n connection total release (
            behind n connection t java (
              throw
                (parse_exception (http.errno_description (http.http_errno t.parser)))
                (release java.vm)))
    body_failed :
        (t : Session P Z (Run (JavaWorld J))) (java : JavaWorld J)
        → t.done < total
        → http.http_errno t.parser ≡ http.hpe_cb_body
        → IsInputAnswer n connection total release (
            behind n connection t java
              (process_error t.body_callback_error t.error_message (release java.vm)))
    input_faulted : {e : Fault} → IsInputAnswer n connection total release (fault e)
