-- ===== src/Jni/Strings.antt =====
-- The characters of Java strings that the native methods take hold of and give back
-- (http-parser-java/jni/parser.cpp).
use mathlib.Core.Path.{subst}
use http_library.Prelude.{
  ℕ, suc, ◌<◌, ◌≡◌, refl, ap, ◌∙◌, true, ◌&&◌, Option, none, some, List, [], ◌∷◌, ◌++◌, ◌==◌, arith,
  if◌then◌else◌, length, take, take-append,
}
use http_library.Memory.{Run, ok, fault, ◌>>=◌, tolower, strlen}
use http_library.Memory.Strings.{IsText, strlen_text}
use http_library.Message.{
  HttpMessage, u32, http_message_add_header_field, http_message_set_header_field,
}
use http_library.Message.View.{
  Header, MessageView, IsCleanView, represent, with_headers, lookup_first, remove_first, edited,
}
use http_library.Message.Setters.{setters_replace}
use http_library.Message.Delete.{http_message_del_header_field-remove_first}
use http_library.Message.Update.{add_header-append}
use http_library.Message.Update
use http_library.Jni.{JniEnv, StringChars, string_chars, release_if_copy}
use http_library.Jni.Message.{set_url, remove_header, add_header}

-- A string and a pointer to its characters are taken off the list.
abbrev pub remove_held : ℕ → ℕ → List (ℕ × ℕ) → List (ℕ × ℕ)
remove_held string pointer [] = []
remove_held string pointer ((s, p) ∷ rest) =
    if s == string && p == pointer then rest else (s, p) ∷ remove_held string pointer rest

-- What the Java Native Interface says of `GetStringUTFChars` and `ReleaseStringUTFChars`: the
-- characters of a string are a NUL-terminated block with no other NUL in it, and they are held until
-- they are released by the string and the pointer.
pub record JniStrings (J : Type 0) (env : JniEnv J) : Type 0 where
  pub text : J → ℕ → List ℕ
  pub held : J → List (ℕ × ℕ)
  pub text-IsText : (vm : J) (string : ℕ) → IsText (text vm string)
  pub block :
      (vm : J) (string : ℕ)
      → (env.get_string_utf_chars string vm).0.block ≡ text vm string ++ 0 ∷ []
  pub text-get :
      (vm : J) (string other : ℕ)
      → text (env.get_string_utf_chars string vm).1 other ≡ text vm other
  pub held-get :
      (vm : J) (string : ℕ)
      → held (env.get_string_utf_chars string vm).1
        ≡ (string, (env.get_string_utf_chars string vm).0.pointer) ∷ held vm
  pub held-release :
      (vm : J) (string pointer : ℕ)
      → held (env.release_string_utf_chars string pointer vm) ≡ remove_held string pointer (held vm)

-- The headers that an edit leaves.
abbrev pub or_same : List Header → Option (List Header) → List Header
or_same hs none = hs
or_same hs (some edit) = edit

abbrev beside : {J : Type 0} → J → ℕ × Option HttpMessage → Run (Option HttpMessage × J)
beside vm (r, m) = ok (m, vm)

second_call :
    {J : Type 0} (r : Run (ℕ × Option HttpMessage)) (vm : J) (m : Option HttpMessage)
    → (r >>= λ b. ok b.1) ≡ ok m
    → (r >>= beside vm) ≡ ok (m, vm)
second_call (fault e) vm m h = absurd (ground arith)
second_call (ok (n, a)) vm m h = ground arith

edited-or_same :
    {J : Type 0} (v : MessageView) (edit : Option (List Header)) (vm : J)
    → (edited v edit >>= beside vm)
      ≡ ok (some (represent (with_headers v (or_same v.headers edit))), vm)
edited-or_same v none vm = refl
edited-or_same v (some hs) vm = refl

-- The result of two calls, of which the first gives the message of the second.
two_calls :
    {J : Type 0} (r : Run (ℕ × Option HttpMessage))
    (next : Option HttpMessage → Run (ℕ × Option HttpMessage)) (vm : J) (m : Option HttpMessage)
    → (r >>= λ a. next a.1 >>= λ b. ok b.1) ≡ ok m
    → (r >>= λ a. next a.1 >>= beside vm) ≡ ok (m, vm)
two_calls (fault e) next vm m h = absurd (ground arith)
two_calls (ok (n, a)) next vm m h = second_call (next a) vm m h

module _ {J : Type 0} ⦃env : JniEnv J⦄ (strings : JniStrings J env) where
  abbrev pub chars_of : J → ℕ → StringChars
  chars_of vm string = (env.get_string_utf_chars string vm).0

  abbrev pub after_chars : J → ℕ → J
  after_chars vm string = (env.get_string_utf_chars string vm).1

  pub string_chars-text :
      (vm : J) (string : ℕ)
      → string_chars string vm
        ≡ ok (chars_of vm string, strings.text vm string, after_chars vm string)
  string_chars-text vm string =
      let text = strings.text vm string in
      let chars = chars_of vm string in
      let counted : strlen chars.block ≡ ok (length text) =
        ap strlen (strings.block vm string) ∙ strlen_text text [] (strings.text-IsText vm string) in
      let taken : take (length text) chars.block ≡ text =
        ap (take (length text)) (strings.block vm string) ∙ take-append text (0 ∷ []) in
      ap (λ n. n >>= λ len. ok (chars, take len chars.block, after_chars vm string)) counted
      ∙ ap (λ t. ok (chars, t, after_chars vm string)) taken

  -- The characters that a method holds behind its return, if it gives back copies alone.
  abbrev pub left_held : J → ℕ → List (ℕ × ℕ)
  left_held vm string =
      if (chars_of vm string).is_copy
      then strings.held vm
      else (string, (chars_of vm string).pointer) ∷ strings.held vm

  held-release_if_copy :
      (vm : J) (string : ℕ)
      → strings.held (release_if_copy string (chars_of vm string) (after_chars vm string))
        ≡ left_held vm string
  held-release_if_copy vm string = ground (
    arith,
    strings.held-release (after_chars vm string) string (chars_of vm string).pointer,
    strings.held-get vm string,
  )

  -- In a message whose url stands in a block of its own, `setUrl` puts the text of the Java string in
  -- the place of the url and changes nothing else; a copy of the characters is given back, and the
  -- string's own characters stay held.
  pub set_url-left_held :
      (v : MessageView) (value : ℕ) (vm : J)
      → (vm' : J) × (set_url (some (represent v)) value vm
          ≡ ok (some (represent (record v { url = some (strings.text vm value) })), vm'))
        × (strings.held vm' ≡ left_held vm value)
  unfolding set_url
  set_url-left_held v value vm = (
    release_if_copy value (chars_of vm value) (after_chars vm value),
    rw (string_chars-text vm value, (setters_replace v (strings.text vm value) 0).1) refl,
    held-release_if_copy vm value,
  )

  -- In a message whose texts are free of NUL, with less than 2^32 header fields, `removeHeader` takes
  -- out the first header whose name begins with the Java string, whatever the case, or nothing if
  -- there is none, where the string is not empty; a copy of the characters is given back, and the
  -- string's own characters stay held.
  pub remove_header-left_held :
      (v : MessageView) (field_name : ℕ) (vm : J) (c : ℕ) (name : List ℕ)
      → IsCleanView v
      → strings.text vm field_name ≡ c ∷ name
      → (vm' : J) × (remove_header (some (represent v)) field_name vm
          ≡ ok (
            some (
                represent
                  (with_headers v (or_same v.headers (remove_first tolower (c ∷ name) v.headers)))),
            vm',
          ))
        × (strings.held vm' ≡ left_held vm field_name)
  unfolding remove_header
  remove_header-left_held v field_name vm c name clean e = (
    release_if_copy field_name (chars_of vm field_name) (after_chars vm field_name),
    rw (string_chars-text vm field_name, e)
        (rw
          (http_message_del_header_field-remove_first v c name clean
            (subst IsText e (strings.text-IsText vm field_name)))
          (edited-or_same v (remove_first tolower (c ∷ name) v.headers) _)),
    held-release_if_copy vm field_name,
  )

  -- Where the characters of both strings are copies: to a message whose texts are free of NUL and that
  -- has room for one more field below 2^32, `addHeader` adds a header with its value behind the others,
  -- name and value not empty, where no header's name begins with the new name, whatever the case; and it
  -- releases the characters of the name, and then those of the value, both with the string of the name.
  pub add_header-released :
      (v : MessageView) (field_name value : ℕ) (vm : J) (c : ℕ) (name : List ℕ) (d : ℕ)
      (text : List ℕ)
      → IsCleanView v
      → suc (length v.headers) < u32
      → strings.text vm field_name ≡ c ∷ name
      → strings.text vm value ≡ d ∷ text
      → lookup_first tolower (c ∷ name) v.headers ≡ none
      → (chars_of vm field_name).is_copy ≡ true
      → (chars_of (after_chars vm field_name) value).is_copy ≡ true
      → let vm1 = after_chars vm field_name in
        add_header (some (represent v)) field_name value vm
        ≡ ok (
          some (represent (with_headers v (v.headers ++ ((c ∷ name, d ∷ text) ∷ [])))),
          env.release_string_utf_chars field_name (chars_of vm1 value).pointer (
              env.release_string_utf_chars field_name
                (chars_of vm field_name).pointer
                (after_chars vm1 value)),
        )
  unfolding add_header
  add_header-released v field_name value vm c name d text clean room named valued fresh copy
        copied =
      let vm1 = after_chars vm field_name in
      let ended = env.release_string_utf_chars field_name (chars_of vm1 value).pointer (
        env.release_string_utf_chars field_name (chars_of vm field_name).pointer
          (after_chars vm1 value)) in
      let last = some (represent (with_headers v (v.headers ++ ((c ∷ name, d ∷ text) ∷ [])))) in
      rw (string_chars-text vm field_name, named, string_chars-text vm1 value)
        (rw (strings.text-get vm field_name value, valued, copy, copied)
          (two_calls (http_message_add_header_field (some (represent v)) (some (c ∷ name)))
            (λ added. http_message_set_header_field added (some (c ∷ name)) (some (d ∷ text))) ended
            last
            (unfold Update.add_header in
              add_header-append v c name d text clean
                (subst IsText named (strings.text-IsText vm field_name)) room fresh)))
