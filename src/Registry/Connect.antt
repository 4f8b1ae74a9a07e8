-- ===== src/Registry/Connect.antt =====
-- `parser_connect` against the map from ids to connections.
use http_library.Prelude.{
  ℕ, suc, ◌%◌, ◌≡◌, refl, sym, ap, ◌∙◌, Bool, true, false, Option, none, some, ◌∷◌, ◌==◌, arith,
  if◌then◌else◌, codes,
}
use http_library.Memory.{ok}
use http_library.HttpParser.{http_both, HttpParser}
use http_library.Zlib.{Zlib}
use http_library.Session.{
  Callbacks, ConnectionContext, parser_ok, parser_already_connected_error,
  parser_null_pointer_error,
}
use http_library.Session.Handlers.{parser_reset, parser_reset_state}
use http_library.Registry.{
  ParserContext, hash_size, update, new_context, context_by_id_add, store, parser_connect,
  connect_new,
}
use http_library.Registry.Buckets.{Cells, has_id_live, find-has_id}
use http_library.Registry.Lookup.{
  renewed, lookup, IsWellFormed, opened, lookup-opened, opened-next, opened-IsWellFormed,
  context_by_id_get-lookup,
}
use http_library.Registry.Attach.{IsAttached, IsConnected, attached-IsConnected}

-- What `parser_connect` returns for a new connection, and what it writes to `*p_context`.
abbrev pub connect_code : Bool → ℕ
connect_code true = parser_ok
connect_code false = parser_null_pointer_error

abbrev pub connect_pointer : Bool → ℕ → Option ℕ
connect_pointer true a = some a
connect_pointer false a = none

module _ {P Z World : Type 0} ⦃http : HttpParser P⦄ ⦃zlib : Zlib Z⦄ (parser : P) (world : World)
    (id : ℕ) (callbacks : Callbacks World) where
  -- The connection as `parser_reset` leaves it.
  abbrev pub ready : ConnectionContext P Z World
  ready = record (new_context parser id callbacks) { parser = http.init parser http_both }

  abbrev ready_cells : ParserContext P Z World → Cells P Z World
  ready_cells s =
      update (update s.cells s.next (some (new_context parser id callbacks))) s.next (some ready)

  -- The parser context with the connection, in the last case with the error.
  abbrev pub connected : Bool → ParserContext P Z World → ParserContext P Z World
  connected wanted s = record s {
    cells =
        if wanted
        then ready_cells s
        else update (ready_cells s) s.next
            (some (record ready { error_message = codes "p_context is NULL" }));
    next = suc s.next;
    buckets = update s.buckets (id % hash_size) (s.next ∷ s.buckets (id % hash_size));
  }

  connect_new-connected :
      (s : ParserContext P Z World) (wanted : Bool)
      → connect_new parser world s id callbacks wanted
        ≡ ok (connect_code wanted, connect_pointer wanted s.next, connected wanted s)
  unfolding connect_new context_by_id_add store parser_reset parser_reset_state
  connect_new-connected s true =
      let self : (s.next == s.next) ≡ true = ground arith in rw self (rw self refl)
  connect_new-connected s false =
      let self : (s.next == s.next) ≡ true = ground arith in rw self (rw self (rw self refl))

  connected-IsAttached :
      (s : ParserContext P Z World) (wanted : Bool)
      → s.initialized ≡ true
      → IsAttached s (connected wanted s) id s.next
  connected-IsAttached s true h =
      let self : (s.next == s.next) ≡ true = ground arith in
      record {
        context = ready;
        at_address = rw self refl;
        has = refl;
        others = λ b e. rw e refl;
        next = refl;
        is_open = h;
        buckets = λ i. refl;
      }
  connected-IsAttached s false h =
      let self : (s.next == s.next) ≡ true = ground arith in
      record {
        context = record ready { error_message = codes "p_context is NULL" };
        at_address = rw self refl;
        has = refl;
        others = λ b e. rw e refl;
        next = refl;
        is_open = h;
        buckets = λ i. refl;
      }

  pub parser_connect-connected :
      (s : ParserContext P Z World) (wanted : Bool)
      → IsWellFormed s
      → lookup s id ≡ none
      → parser_connect parser world s id callbacks wanted
        ≡ ok (connect_code wanted, connect_pointer wanted s.next, connected wanted (opened s))
  unfolding parser_connect
  parser_connect-connected s wanted h absent =
      rw (context_by_id_get-lookup s id h, absent)
        (connect_new-connected (opened s) wanted
          ∙ ap
              (λ a. ok (connect_code wanted, connect_pointer wanted a, connected wanted (opened s)))
              (opened-next s))

  pub connected-IsConnected :
      (s : ParserContext P Z World) (wanted : Bool)
      → IsWellFormed s
      → lookup s id ≡ none
      → IsConnected s (connected wanted (opened s)) id s.next
  connected-IsConnected s wanted h absent =
      let u = opened s in
      let k = opened-IsWellFormed s h in
      let before : lookup u id ≡ none = lookup-opened s id h ∙ absent in
      let c =
        attached-IsConnected u (connected wanted u) id k before
          (connected-IsAttached u wanted (ground arith)) in
      record {
        formed = c.formed;
        found = λ n.
            c.found n
            ∙ ap (λ f. if n == id then some u.next else f) (lookup-opened s n h)
            ∙ ap (λ a. if n == id then some a else lookup s n) (opened-next s);
        context = c.context;
        at_address = ap (connected wanted u).cells (sym (opened-next s)) ∙ c.at_address;
        has = c.has;
      }

  -- On a well-formed parser context with no connection of that id: the call gives 0 and the address
  -- of the new connection, or 104 where `p_context` is null; the address was not in use; the hash map
  -- finds the new connection under its id, and every other id as before; and the context stays
  -- well-formed.
  pub parser_connect-IsConnected :
      (s : ParserContext P Z World) (wanted : Bool)
      → IsWellFormed s
      → lookup s id ≡ none
      → (a : ℕ) × (t : ParserContext P Z World) × (parser_connect parser world s id callbacks wanted
          ≡ ok (connect_code wanted, connect_pointer wanted a, t))
        × (s.cells a ≡ none)
        × IsConnected s t id a
  parser_connect-IsConnected s wanted h absent = (
    s.next,
    connected wanted (opened s),
    parser_connect-connected s wanted h absent,
    h.unused s.next (omega arith),
    connected-IsConnected s wanted h absent,
  )

  -- With a connection of that id: the call gives 101, writes no pointer, and only the error message of
  -- the connection changes, so that the hash map finds what it found.
  pub parser_connect-lookup :
      (s : ParserContext P Z World) (wanted : Bool) (a : ℕ)
      → IsWellFormed s
      → lookup s id ≡ some a
      → (t : ParserContext P Z World) × (parser_connect parser world s id callbacks wanted
          ≡ ok (parser_already_connected_error, none, t))
        × ((n : ℕ) → lookup t n ≡ lookup s n)
        × IsWellFormed t
  unfolding parser_connect store
  parser_connect-lookup s wanted a h there =
      let u = opened s in
      let k = opened-IsWellFormed s h in
      let found = lookup-opened s id h ∙ there in
      let (c, e, _) = has_id_live (u.cells a) id (find-has_id u.cells id a _ found) in
      let c' = record c { error_message = codes "Already connected" } in
      let r = renewed u a c c' k e refl in
      (
        store u a (some c'),
        rw (context_by_id_get-lookup s id h, there, e) refl,
        λ n. r.1 n ∙ lookup-opened s n h,
        r.0,
      )
