-- ===== src/Jni/Tests.antt =====
-- A small Java machine, which keeps the characters that are held, the messages of the exceptions and
-- the arguments of the calls, and the theorems at it.
mod Connections
mod Messages
use http_library.Prelude.{
  ℕ, zero, suc, ◌+◌, ◌≡◌, refl, ◌≢◌, true, false, none, some, Option, List, [], ◌∷◌, ◌++◌, ◌==◌,
  map, codes, arith, length, take, if◌then◌else◌, Bool-cases, inl, inr,
}
use http_library.Memory.{tolower, Run, ok, ◌>>=◌}
use http_library.Memory.Strings.{IsText}
use http_library.Message.{HttpMessage}
use http_library.Message.View.{
  MessageView, IsCleanView, represent, with_headers, remove_first, lookup_first, is_prefix,
}
use http_library.Message.Raw.Render.{render_fields}
use http_library.Jni.{JniEnv, JavaValue, long, native_message}
use http_library.Jni.Message.{
  set_url, remove_header, add_header, get_headers, get_bytes, get_bytes_into, size_bytes,
}
use http_library.Jni.Strings.{
  JniStrings, remove_held, left_held, set_url-left_held, remove_header-left_held,
  add_header-released, chars_of, after_chars,
}
use http_library.Jni.Contents.{key_and_value, java_header, get_headers-headers, get_bytes-text}

pub record Machine : Type 0 where
  pub held : List (ℕ × ℕ)
  pub thrown : List (List ℕ)
  pub calls : List (List JavaValue)

-- The string 1 is a header name, 2 is empty, and all others are the same text.
abbrev pub text_at : ℕ → List ℕ
text_at n = if n == 1 then codes "Via" else (if n == 2 then [] else codes "/x")

abbrev held_with : Machine → ℕ → Machine
held_with vm string = record vm { held = (string, string + 100) ∷ vm.held }

instance abbrev pub machine_env : JniEnv Machine
machine_env = record {
  get_string_utf_chars = λ string vm. (
    record { pointer = string + 100; is_copy = true; block = text_at string ++ 0 ∷ [] },
    held_with vm string,
  );
  release_string_utf_chars =
      λ string pointer vm. record vm { held = remove_held string pointer vm.held };
  new_string_utf = λ text vm. (7, vm);
  get_byte_array_elements = λ array vm. (record { pointer = 9; bytes = codes "GET" }, vm);
  release_byte_array_elements = λ array pointer vm. vm;
  get_array_length = λ array vm. 3;
  new_byte_array = λ size vm. (8, vm);
  set_byte_array_region = λ array start size bytes vm. vm;
  new_long_array = λ size vm. (8, vm);
  set_long_array_region = λ array start size longs vm. vm;
  find_class = λ name vm. (3, vm);
  throw_new = λ cls message vm. record vm { thrown = message ∷ vm.thrown };
  get_field_id = λ cls name signature vm. (4, vm);
  get_method_id = λ cls name signature vm. (length name, vm);
  set_long_field = λ object field value vm. vm;
  alloc_object = λ cls vm. (5, vm);
  new_global_ref = λ object vm. (object + 1, vm);
  delete_global_ref = λ object vm. vm;
  delete_local_ref = λ object vm. vm;
  get_java_vm = λ vm. (true, vm);
  attach_current_thread = λ vm. (true, vm);
  detach_current_thread = λ vm. vm;
  call_int_method = λ object method args vm.
      (if object == 20 then 0 else 1, record vm { calls = args ∷ vm.calls });
  call_void_method = λ object method args vm. record vm { calls = args ∷ vm.calls };
}

abbrev pub idle : Machine
idle = record { held = []; thrown = []; calls = [] }

pub text_at-IsText : (n : ℕ) → IsText (text_at n)
text_at-IsText n = elim (Bool-cases (n == 1)) [
  | inl e ↦ rw e (omega arith)
  | inr e ↦ elim (Bool-cases (n == 2)) [ inl f ↦ rw (e, f) tt | inr f ↦ rw (e, f) (omega arith) ]
]

abbrev pub machine_strings : JniStrings Machine machine_env
machine_strings = record {
  text = λ vm string. text_at string;
  held = λ vm. vm.held;
  text-IsText = λ vm string. text_at-IsText string;
  block = λ vm string. refl;
  text-get = λ vm string other. refl;
  held-get = λ vm string. refl;
  held-release = λ vm string pointer. refl;
}

-- GET /a HTTP/1.1 with two header fields
abbrev request : MessageView
request = record {
  method = some (codes "GET");
  url = some (codes "/a");
  status = none;
  status_code = 0;
  headers = (codes "Host", codes "x") ∷ (codes "Via", codes "y") ∷ [];
}

request-IsCleanView : IsCleanView request
request-IsCleanView = omega arith

abbrev message : Option HttpMessage
message = some (represent request)

set_url-left_held_example :
    (vm' : Machine) × (set_url message 5 idle
      ≡ ok (some (represent (record request { url = some (codes "/x") })), vm'))
    × (vm'.held ≡ [])
set_url-left_held_example = set_url-left_held machine_strings request 5 idle

remove_header-left_held_example :
    (vm' : Machine) × (remove_header message 1 idle
      ≡ ok (some (represent (with_headers request ((codes "Host", codes "x") ∷ []))), vm'))
    × (vm'.held ≡ [])
unfolding remove_first is_prefix tolower
remove_header-left_held_example =
    remove_header-left_held machine_strings request 1 idle b'V' (codes "ia") request-IsCleanView
      refl

abbrev host_only : MessageView
host_only = with_headers request ((codes "Host", codes "x") ∷ [])

get_headers_example :
    (pointers : List ℕ) × (get_headers message idle ≡ ok (8, idle))
    × (map (key_and_value (represent request) idle) pointers
        ≡ map (java_header idle) request.headers)
get_headers_example = get_headers-headers request idle request-IsCleanView

abbrev request_text : List ℕ
request_text = codes "GET /a HTTP/1.1\r\nHost: x\r\nVia: y\r\n\r\n"

get_bytes_example :
    (block : List ℕ) × (take 36 block ≡ request_text)
    × (size_bytes message ≡ ok 36)
    × (get_bytes message idle ≡ ok (8, idle))
    × (get_bytes_into message 8 idle ≡ ok idle)
unfolding render_fields
get_bytes_example =
    get_bytes-text request idle 8 (codes "GET /a HTTP/1.1\r\n") request-IsCleanView refl
      (omega arith)

add_header-released_example :
    let vm1 = after_chars machine_strings idle 1 in
    add_header (some (represent host_only)) 1 5 idle
    ≡ ok (
      some (
          represent
            (with_headers host_only (host_only.headers ++ ((codes "Via", codes "/x") ∷ [])))),
      machine_env.release_string_utf_chars 1 (chars_of machine_strings vm1 5).pointer (
          machine_env.release_string_utf_chars 1
            (chars_of machine_strings idle 1).pointer
            (after_chars machine_strings vm1 5)),
    )
unfolding lookup_first is_prefix tolower
add_header-released_example =
    add_header-released machine_strings host_only 1 5 idle b'V' (codes "ia") b'/' (codes "x")
      (omega arith) (omega arith) refl refl refl refl refl
