-- ===== src/Message/Commands/Refines.antt =====
-- Sequences of the message functions against the same sequences on views: for every implementation of
-- the interface, and for that of http-parser/src/parser.c.
use http_library.Prelude.{
  ℕ, ◌+◌, Bool, ◌<◌, ◌≤◌, ◌≡◌, refl, suc, Option, none, some, List, [], ◌∷◌, ◌++◌, length,
  length-append, All, All-append, arith, true, false, if◌then◌else◌,
}
use http_library.Memory.{tolower}
use http_library.Memory.Strings.{IsText}
use http_library.Message.{u32, exact, http_message_create}
use http_library.Message.View.{
  Header, MessageView, IsClean, IsCleanView, represent, is_prefix, replace_first, remove_first,
  append_new, lookup_first, unless_found, cons_some,
}
use http_library.Message.Interface.{
  MessageApi, IsMessageApi, empty_view, edited_view, result, http_message_api,
  http_message_api-IsMessageApi,
}
use http_library.Message.Commands.{
  Command, method_set, url_set, status_code_set, field_set, field_added, field_deleted,
  IsCleanCommand, on_view, run_on_view, behind, call, run_calls,
}

-- An edit of a header list that keeps it free of NUL and adds one field at most.
abbrev IsEdit : List Header → Option (List Header) → Type 0
IsEdit hs none = Unit
IsEdit hs (some after) = IsClean after × (length after ≤ suc (length hs))

IsEdit-if :
    (hs : List Header) (b : Bool) (one other : Option (List Header))
    → IsEdit hs one
    → IsEdit hs other
    → IsEdit hs (if b then one else other)
IsEdit-if hs true one other h g = h
IsEdit-if hs false one other h g = g

IsEdit-cons_some :
    (h : Header) (hs : List Header) (edit : Option (List Header))
    → IsText h.0 × IsText h.1
    → IsEdit hs edit
    → IsEdit (h ∷ hs) (cons_some h edit)
IsEdit-cons_some h hs none text e = tt
IsEdit-cons_some h hs (some after) text e = ((text, e.0), omega arith)

replace_first-IsEdit :
    (name value : List ℕ) (hs : List Header)
    → IsText value
    → IsClean hs
    → IsEdit hs (replace_first exact name value hs)
unfolding replace_first
replace_first-IsEdit name value [] text clean = tt
replace_first-IsEdit name value (h ∷ hs) text clean =
    IsEdit-if (h ∷ hs) (is_prefix exact name h.0) _ _ (((clean.0.0, text), clean.1), omega arith)
      (IsEdit-cons_some h hs _ clean.0 (replace_first-IsEdit name value hs text clean.1))

remove_first-IsEdit :
    (name : List ℕ) (hs : List Header) → IsClean hs → IsEdit hs (remove_first tolower name hs)
unfolding remove_first
remove_first-IsEdit name [] clean = tt
remove_first-IsEdit name (h ∷ hs) clean =
    IsEdit-if (h ∷ hs) (is_prefix tolower name h.0) _ _ (clean.1, omega arith)
      (IsEdit-cons_some h hs _ clean.0 (remove_first-IsEdit name hs clean.1))

unless_found-IsEdit :
    (found : Option (List ℕ)) (name : List ℕ) (hs : List Header)
    → IsText name
    → IsClean hs
    → IsEdit hs (unless_found found (hs ++ ((name, []) ∷ [])))
unless_found-IsEdit none name hs text clean =
    (All-append _ hs _ clean ((text, tt), tt), omega (arith, length-append hs ((name, []) ∷ [])))
unless_found-IsEdit (some value) name hs text clean = tt

append_new-IsEdit :
    (name : List ℕ) (hs : List Header) → IsText name → IsClean hs → IsEdit hs (append_new name hs)
unfolding append_new
append_new-IsEdit name hs = unless_found-IsEdit (lookup_first tolower name hs) name hs

-- A view that is clean and has at most one header field more.
record IsNext (v w : MessageView) : Type 0 where
  clean : IsCleanView w
  growth : length w.headers ≤ suc (length v.headers)

edited_view-IsNext :
    (v : MessageView) (edit : Option (List Header))
    → IsCleanView v
    → suc (length v.headers) < u32
    → IsEdit v.headers edit
    → IsNext v (edited_view v edit).1
edited_view-IsNext v none clean room e = record { clean = clean; growth = omega arith }
edited_view-IsNext v (some hs) clean room e = record {
  clean = record {
    method = clean.method;
    url = clean.url;
    status = clean.status;
    headers = e.0;
    few = omega (arith, e.1);
  };
  growth = e.1;
}

on_view-IsNext :
    (command : Command) (v : MessageView)
    → IsCleanCommand command
    → IsCleanView v
    → suc (length v.headers) < u32
    → IsNext v (on_view command v).1
unfolding on_view
on_view-IsNext (method_set text) v t clean room = record {
  clean = record {
    method = t;
    url = clean.url;
    status = clean.status;
    headers = clean.headers;
    few = clean.few;
  };
  growth = omega arith;
}
on_view-IsNext (url_set text) v t clean room = record {
  clean = record {
    method = clean.method;
    url = t;
    status = clean.status;
    headers = clean.headers;
    few = clean.few;
  };
  growth = omega arith;
}
on_view-IsNext (status_code_set code) v t clean room = record {
  clean = record {
    method = clean.method;
    url = clean.url;
    status = clean.status;
    headers = clean.headers;
    few = clean.few;
  };
  growth = omega arith;
}
on_view-IsNext (field_set c name d value) v t clean room =
    edited_view-IsNext v _ clean room
      (replace_first-IsEdit (c ∷ name) (d ∷ value) v.headers t.1 clean.headers)
on_view-IsNext (field_added c name) v t clean room =
    edited_view-IsNext v _ clean room (append_new-IsEdit (c ∷ name) v.headers t clean.headers)
on_view-IsNext (field_deleted c name) v t clean room =
    edited_view-IsNext v _ clean room (remove_first-IsEdit (c ∷ name) v.headers clean.headers)

module _ {M : Type 0} (api : MessageApi M) (stands_for : MessageView → M)
    (laws : IsMessageApi api stands_for) where
  call-on_view :
      (command : Command) (v : MessageView)
      → IsCleanCommand command
      → IsCleanView v
      → suc (length v.headers) < u32
      → call api command (some (stands_for v)) ≡ result stands_for (on_view command v)
  unfolding call on_view
  call-on_view (method_set text) v t clean room = laws.set_method v text
  call-on_view (url_set text) v t clean room = laws.set_url v text
  call-on_view (status_code_set code) v t clean room = laws.set_status_code v code
  call-on_view (field_set c name d value) v t clean room =
      laws.set_header_field v c name d value clean t.0
  call-on_view (field_added c name) v t clean room = laws.add_header_field v c name clean t room
  call-on_view (field_deleted c name) v t clean room = laws.del_header_field v c name clean t

  -- With any implementation of the interface.
  pub run_calls-run_on_view :
      (commands : List Command) (v : MessageView)
      → All IsCleanCommand commands
      → IsCleanView v
      → length v.headers + length commands < u32
      → run_calls api commands (some (stands_for v)) ≡ behind stands_for (run_on_view commands v)
  unfolding run_calls
  run_calls-run_on_view [] v t clean few = refl
  run_calls-run_on_view (command ∷ commands) v t clean few =
      let next = on_view-IsNext command v t.0 clean (omega arith) in
      let w = (on_view command v).1 in
      let rest = run_calls-run_on_view commands w t.1 next.clean (omega (arith, next.growth)) in
      rw (call-on_view command v t.0 clean (omega arith)) (rw rest refl)

-- Any sequence, shorter than 2^32, of calls that set the method, the url, the status code or a header
-- field, add one or delete one, with names and header values that are not empty and texts free of
-- NUL, on a new message: the calls return and leave behind what the same sequence does to an empty
-- view.
pub http_message-run_on_view :
    (commands : List Command)
    → All IsCleanCommand commands
    → length commands < u32
    → run_calls http_message_api commands (some http_message_create)
      ≡ behind represent (run_on_view commands empty_view)
http_message-run_on_view commands t few =
    run_calls-run_on_view http_message_api represent http_message_api-IsMessageApi commands
      empty_view t (record { method = tt; url = tt; status = tt; headers = tt; few = omega arith })
      (omega arith)
