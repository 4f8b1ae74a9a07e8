-- ===== src/Jni.antt =====
-- The Java binding (http-parser-java/jni): what it uses of the Java Native Interface, as a record of
-- operations on the state `J` of the virtual machine. Objects, classes, fields and methods are
-- references, with 0 for `NULL`. A `jint` or `jlong` is its bit pattern. A pointer to a message that
-- goes to Java is the message, which Java owns from then on.
pub mod Errors
pub mod Strings
pub mod Message
pub mod Callbacks
pub mod Parser
pub mod Logging
pub mod Contents
pub mod Delivery
pub mod Bodies
pub mod Messages
pub mod Answers
pub mod Connections
mod Tests
use http_library.Prelude.{
  ℕ, Bool, true, false, Option, none, some, List, [], ◌∷◌, if◌then◌else◌, take,
}
use http_library.Memory.{Run, ok, ◌>>=◌, strlen}
use http_library.Message.{HttpMessage}

-- What `GetStringUTFChars` gives: the pointer, `*isCopy`, and the block with its NUL.
pub record StringChars : Type 0 where
  pub pointer : ℕ
  pub is_copy : Bool
  pub block : List ℕ

-- What `GetByteArrayElements` gives.
pub record ArrayElements : Type 0 where
  pub pointer : ℕ
  pub bytes : List ℕ

-- An argument of a Java method.
pub data JavaValue : Type 0 where
  int : ℕ → JavaValue
  long : ℕ → JavaValue
  native_message : HttpMessage → JavaValue
  object : ℕ → JavaValue

pub record JniEnv (J : Type 0) : Type 0 where
  pub get_string_utf_chars : ℕ → J → StringChars × J
  -- the string and the pointer
  pub release_string_utf_chars : ℕ → ℕ → J → J
  pub new_string_utf : Option (List ℕ) → J → ℕ × J
  pub get_byte_array_elements : ℕ → J → ArrayElements × J
  -- the array and the pointer, with `JNI_ABORT`
  pub release_byte_array_elements : ℕ → ℕ → J → J
  pub get_array_length : ℕ → J → ℕ
  pub new_byte_array : ℕ → J → ℕ × J
  -- the array, the start, the length, and the block that the bytes come from
  pub set_byte_array_region : ℕ → ℕ → ℕ → List ℕ → J → J
  pub new_long_array : ℕ → J → ℕ × J
  pub set_long_array_region : ℕ → ℕ → ℕ → List ℕ → J → J
  pub find_class : List ℕ → J → ℕ × J
  pub throw_new : ℕ → List ℕ → J → J
  -- the class, the name and the signature
  pub get_field_id : ℕ → List ℕ → List ℕ → J → ℕ × J
  pub get_method_id : ℕ → List ℕ → List ℕ → J → ℕ × J
  -- the object, the field and the value
  pub set_long_field : ℕ → ℕ → JavaValue → J → J
  pub alloc_object : ℕ → J → ℕ × J
  pub new_global_ref : ℕ → J → ℕ × J
  pub delete_global_ref : ℕ → J → J
  pub delete_local_ref : ℕ → J → J
  -- whether the call gives `JNI_OK`
  pub get_java_vm : J → Bool × J
  pub attach_current_thread : J → Bool × J
  pub detach_current_thread : J → J
  -- the object, the method and the arguments
  pub call_int_method : ℕ → ℕ → List JavaValue → J → ℕ × J
  pub call_void_method : ℕ → ℕ → List JavaValue → J → J

module _ {J : Type 0} ⦃env : JniEnv J⦄ where
  -- `GetStringUTFChars` and `strlen`: the pointer's side, the characters, and the machine
  abbrev pub string_chars : ℕ → J → Run (StringChars × List ℕ × J)
  string_chars string vm = do
    let (chars, vm') = env.get_string_utf_chars string vm
    len ← strlen chars.block
    ok (chars, take len chars.block, vm')

  -- `if (isCopy) ReleaseStringUTFChars(…)`
  abbrev pub release_if_copy : ℕ → StringChars → J → J
  release_if_copy string chars vm =
      if chars.is_copy then env.release_string_utf_chars string chars.pointer vm else vm
