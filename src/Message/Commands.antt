-- ===== src/Message/Commands.antt =====
-- Sequences of the message functions (http-parser/src/parser.h), by the interface alone: a client that
-- edits a message command by command, against the same commands on its view.
pub mod Refines
use http_library.Prelude.{
  ℕ, ◌+◌, Bool, ◌<◌, ◌≤◌, ◌%◌, ◌≡◌, refl, sym, ap, ◌∙◌, suc, Option, none, some, List, [], ◌∷◌,
  ◌++◌, length, length-append, All, All-append, arith, true, false, if◌then◌else◌, Bool-cases, inl,
  inr,
}
use http_library.Memory.{null_pointer, Run, ok, fault, ◌>>=◌, tolower}
use http_library.Memory.Strings.{IsText}
use http_library.Message.{u32, exact, http_message_create}
use http_library.Message.View.{
  Header, MessageView, IsClean, IsCleanView, represent, with_headers, is_prefix, replace_first,
  remove_first, append_new, lookup_first, unless_found, cons_some,
}
use http_library.Message.Interface.{
  MessageApi, IsMessageApi, empty_view, edited_view, result, http_message_api,
  http_message_api-IsMessageApi,
}

-- A call with a text, or with the name of a header field that is not empty, by its first byte.
pub data Command : Type 0 where
  method_set : List ℕ → Command
  url_set : List ℕ → Command
  status_code_set : ℕ → Command
  field_set : ℕ → List ℕ → ℕ → List ℕ → Command
  field_added : ℕ → List ℕ → Command
  field_deleted : ℕ → List ℕ → Command

-- The texts of a call are free of NUL.
abbrev pub IsCleanCommand : Command → Type 0
IsCleanCommand (method_set text) = IsText text
IsCleanCommand (url_set text) = IsText text
IsCleanCommand (status_code_set code) = Unit
IsCleanCommand (field_set c name d value) = IsText (c ∷ name) × IsText (d ∷ value)
IsCleanCommand (field_added c name) = IsText (c ∷ name)
IsCleanCommand (field_deleted c name) = IsText (c ∷ name)

-- The call on a view: its `int`, and the view behind it.
unfoldable pub on_view : Command → MessageView → ℕ × MessageView
on_view (method_set text) v = (0, record v { method = some text })
on_view (url_set text) v = (0, record v { url = some text })
on_view (status_code_set code) v = (0, record v { status_code = code % u32 })
on_view (field_set c name d value) v =
    edited_view v (replace_first exact (c ∷ name) (d ∷ value) v.headers)
on_view (field_added c name) v = edited_view v (append_new (c ∷ name) v.headers)
on_view (field_deleted c name) v = edited_view v (remove_first tolower (c ∷ name) v.headers)

-- The calls one after the other, with what they return.
abbrev pub run_on_view : List Command → MessageView → List ℕ × MessageView
run_on_view [] v = ([], v)
run_on_view (command ∷ commands) v =
    let (r, w) = on_view command v in let (rs, last) = run_on_view commands w in (r ∷ rs, last)

abbrev pub behind :
    {M : Type 0} → (MessageView → M) → List ℕ × MessageView → Run (List ℕ × Option M)
behind stands_for (rs, v) = ok (rs, some (stands_for v))

module _ {M : Type 0} (api : MessageApi M) where
  unfoldable pub call : Command → Option M → Run (ℕ × Option M)
  call (method_set text) m = api.set_method m (some text)
  call (url_set text) m = api.set_url m (some text)
  call (status_code_set code) m = ok (api.set_status_code m code)
  call (field_set c name d value) m = api.set_header_field m (some (c ∷ name)) (some (d ∷ value))
  call (field_added c name) m = api.add_header_field m (some (c ∷ name))
  call (field_deleted c name) m = api.del_header_field m (some (c ∷ name))

  unfoldable pub run_calls : List Command → Option M → Run (List ℕ × Option M)
  run_calls [] m = ok ([], m)
  run_calls (command ∷ commands) m = do
    (r, n) ← call command m
    (rs, last) ← run_calls commands n
    ok (r ∷ rs, last)
