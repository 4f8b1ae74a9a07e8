-- ===== src/Registry/Lookup.antt =====
-- The hash map as a map from ids to connections, and what the operations of `context_by_id_…` need
-- of it.
use mathlib.Core.Path.{subst}
use http_library.Prelude.{
  ℕ, ◌%◌, ◌≤◌, ◌≡◌, refl, ◌∙◌, Bool, true, false, Option, none, some, List, [], ◌∷◌, ◌==◌, arith,
  if◌then◌else◌, Bool-cases, inl, inr,
}
use http_library.Memory.{ok}
use http_library.Session.{ConnectionContext}
use http_library.Registry.{
  ParserContext, hash_size, update, remove_address, context_by_id_get, context_by_id_init, store,
}
use http_library.Registry.Buckets.{
  Cells, has_id, find, IsBucket, walk-find, find-Agree, IsBucket-Agree, Agree-absent, find-ids,
  IsBucket-ids, find-has_id,
}

module _ {P Z World : Type 0} where
  -- The address at which the connection with an id is found.
  abbrev pub lookup : ParserContext P Z World → ℕ → Option ℕ
  lookup s id = find s.cells id (s.buckets (id % hash_size))

  -- Every bucket holds live connections of different ids that belong there; the addresses from
  -- `next` on are not in use; and before the first look the buckets are empty.
  pub record IsWellFormed (s : ParserContext P Z World) : Type 0 where
    pub buckets : (i : ℕ) → IsBucket s.cells i (s.buckets i)
    pub unused : (a : ℕ) → s.next ≤ a → s.cells a ≡ none
    pub unopened : s.initialized ≡ false → (i : ℕ) → s.buckets i ≡ []

  -- The parser context after the first look.
  abbrev pub opened : ParserContext P Z World → ParserContext P Z World
  opened s = if s.initialized then s else record s { buckets = λ i. []; initialized = true }

  pub lookup-opened :
      (s : ParserContext P Z World) (id : ℕ) → IsWellFormed s → lookup (opened s) id ≡ lookup s id
  unfolding find
  lookup-opened s id h = elim (Bool-cases s.initialized) [
    | inl e ↦ rw e refl
    | inr e ↦ rw (e, h.unopened e (id % hash_size)) refl
  ]

  pub opened-next : (s : ParserContext P Z World) → (opened s).next ≡ s.next
  opened-next s = elim (Bool-cases s.initialized) [ inl e ↦ rw e refl | inr e ↦ rw e refl ]

  opened_if-IsWellFormed :
      (s : ParserContext P Z World) (b : Bool)
      → IsWellFormed s
      → IsWellFormed (if b then s else record s { buckets = λ i. []; initialized = true })
  opened_if-IsWellFormed s true h = h
  opened_if-IsWellFormed s false h = record {
    buckets = λ i. tt;
    unused = h.unused;
    unopened = λ e. absurd (ground arith);
  }

  pub opened-IsWellFormed : (s : ParserContext P Z World) → IsWellFormed s → IsWellFormed (opened s)
  opened-IsWellFormed s h = opened_if-IsWellFormed s s.initialized h

  -- The look of the hash map for an id.
  pub context_by_id_get-lookup :
      (s : ParserContext P Z World) (id : ℕ)
      → IsWellFormed s
      → context_by_id_get s id ≡ ok (lookup s id, opened s)
  unfolding context_by_id_get context_by_id_init
  context_by_id_get-lookup s id h =
      rw
        (
          walk-find (opened s).cells (id % hash_size) id ((opened s).buckets (id % hash_size))
              ((opened-IsWellFormed s h).buckets (id % hash_size)),
          lookup-opened s id h,
        )
        refl

  -- What is found in a bucket from which the connection with `id` is gone.
  pub record Removed (cells : Cells P Z World) (i id a : ℕ) (bucket : List ℕ) : Type 0 where
    pub rest : IsBucket (update cells a none) i (remove_address a bucket)
    pub found :
        (n : ℕ)
        → find (update cells a none) n (remove_address a bucket)
          ≡ (if n == id then none else find cells n bucket)

  pub remove-Removed :
      (cells : Cells P Z World) (i id a : ℕ) (bucket : List ℕ)
      → IsBucket cells i bucket
      → find cells id bucket ≡ some a
      → Removed cells i id a bucket
  unfolding find
  remove-Removed cells i id a [] h e = absurd (ground arith)
  remove-Removed cells i id a (b ∷ bucket) h e = elim (Bool-cases (h.0.context.id == id)) [
    | inl hit ↦
        let here : b ≡ a = ground (arith, h.0.live) in
        let same_address : (b == a) ≡ true = ground arith in
        let same =
          Agree-absent cells i a h.0.context none bucket
            (subst (λ x. cells x ≡ some h.0.context) here h.0.live) h.0.alone in
        record {
          rest = rw same_address (IsBucket-Agree cells (update cells a none) i bucket same h.1);
          found = λ n.
              rw (same_address, find-Agree cells (update cells a none) n bucket same)
                (ground (arith, h.0.live, h.0.alone));
        }
    | inr miss ↦
        let later : find cells id bucket ≡ some a = ground (arith, h.0.live) in
        let r = remove-Removed cells i id a bucket h.1 later in
        let apart : (b == a) ≡ false =
          ground (arith, h.0.live, find-has_id cells id a bucket later) in
        record {
          rest = rw apart (
            record {
              context = h.0.context;
              live = rw apart h.0.live;
              place = h.0.place;
              alone = r.found h.0.context.id ∙ ground (arith, h.0.alone);
            },
            r.rest,
          );
          found = λ n. rw (apart) (rw (apart, r.found n) (ground (arith, h.0.live)));
        }
  ]

  -- A block of the same id in the place of another changes no lookup.
  pub renewed :
      (s : ParserContext P Z World) (a : ℕ) (c c' : ConnectionContext P Z World)
      → IsWellFormed s
      → s.cells a ≡ some c
      → c'.id ≡ c.id
      → IsWellFormed (store s a (some c')) × ((n : ℕ) → lookup (store s a (some c')) n ≡ lookup s n)
  unfolding store
  renewed s a c c' h live same =
      let cells' = update s.cells a (some c') in
      let ids : (n b : ℕ) → has_id (cells' b) n ≡ has_id (s.cells b) n = λ n b. ground arith in
      (
        record {
          buckets = λ i. IsBucket-ids s.cells cells' i (s.buckets i) ids (h.buckets i);
          unused = λ b l. ground (arith, h.unused b l);
          unopened = h.unopened;
        },
        λ n. find-ids s.cells cells' n (s.buckets (n % hash_size)) (ids n),
      )
