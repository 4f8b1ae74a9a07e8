-- ===== src/Registry/Close.antt =====
-- `parser_connection_close` against the map from ids to connections, and `parser_destroy`.
use mathlib.Core.Path.{subst}
use http_library.Prelude.{
  ℕ, zero, suc, ◌+◌, ◌%◌, ◌<◌, ◌≤◌, ◌⊎◌, ◌≡◌, refl, sym, ap, ◌∙◌, false, none, some, List, [], ◌∷◌,
  ◌==◌, arith, if◌then◌else◌, Bool-cases, inl, inr,
}
use http_library.Memory.{use_after_free, ok, fault}
use http_library.Session.{ConnectionContext}
use http_library.Registry.{
  ParserContext, hash_size, update, remove_address, context_by_id_remove, store,
  parser_connection_close, close_all, close_buckets, parser_destroy,
}
use http_library.Registry.Buckets.{
  find, IsBucket, Agree, walk-find, find-Agree, IsBucket-Agree, Agree-absent, find-other,
  find-has_id, has_id_live,
}
use http_library.Registry.Lookup.{lookup, IsWellFormed, remove-Removed}

List-cases : (xs : List ℕ) → (xs ≡ []) ⊎ ((x : ℕ) × (ys : List ℕ) × (xs ≡ x ∷ ys))
List-cases [] = inl refl
List-cases (x ∷ xs) = inr (x, xs, refl)

module _ {P Z World : Type 0} where
  -- The parser context with the connection `a` of `id` gone.
  abbrev pub closed : ParserContext P Z World → ℕ → ℕ → ParserContext P Z World
  closed s id a = record s {
    cells = update s.cells a none;
    buckets = update s.buckets (id % hash_size) (remove_address a (s.buckets (id % hash_size)));
  }

  close-closed :
      (s : ParserContext P Z World) (a : ℕ) (c : ConnectionContext P Z World)
      → IsWellFormed s
      → lookup s c.id ≡ some a
      → s.cells a ≡ some c
      → parser_connection_close s a ≡ ok (0, closed s c.id a)
  unfolding parser_connection_close context_by_id_remove store
  close-closed s a c h there live =
      rw (live, walk-find s.cells (c.id % hash_size) c.id _ (h.buckets (c.id % hash_size)), there)
        refl

  -- The buckets of other places do not see the block go.
  other_bucket :
      (s : ParserContext P Z World) (a i : ℕ) (c : ConnectionContext P Z World)
      → IsWellFormed s
      → s.cells a ≡ some c
      → (c.id % hash_size == i) ≡ false
      → Agree s.cells (update s.cells a none) (s.buckets i)
  other_bucket s a i c h live e =
      Agree-absent s.cells i a c none (s.buckets i) live
        (find-other s.cells i c.id (s.buckets i) (h.buckets i) e)

  closed_found :
      (s : ParserContext P Z World) (a n : ℕ) (c : ConnectionContext P Z World)
      → IsWellFormed s
      → lookup s c.id ≡ some a
      → s.cells a ≡ some c
      → lookup (closed s c.id a) n ≡ (if n == c.id then none else lookup s n)
  closed_found s a n c h there live = elim (Bool-cases (n % hash_size == c.id % hash_size)) [
    | inl e ↦
        let here : n % hash_size ≡ c.id % hash_size = ground arith in
        let r =
          remove-Removed s.cells (c.id % hash_size) c.id a _ (h.buckets (c.id % hash_size)) there in
        rw (e, here) (r.found n)
    | inr e ↦
        rw
          (
            e,
            find-Agree s.cells (update s.cells a none) n _
                (other_bucket s a (n % hash_size) c h live (ground arith)),
          )
          (ground arith)
  ]

  closed-IsWellFormed :
      (s : ParserContext P Z World) (a : ℕ) (c : ConnectionContext P Z World)
      → IsWellFormed s
      → lookup s c.id ≡ some a
      → s.cells a ≡ some c
      → IsWellFormed (closed s c.id a)
  unfolding find
  closed-IsWellFormed s a c h there live = record {
    buckets = λ i. elim (Bool-cases (i == c.id % hash_size)) [
      | inl e ↦
          let here : i ≡ c.id % hash_size = ground arith in
          rw (e, here)
            (remove-Removed s.cells (c.id % hash_size) c.id a _ (h.buckets (c.id % hash_size))
              there).rest
      | inr e ↦ rw e (
          IsBucket-Agree s.cells (update s.cells a none) i _
            (other_bucket s a i c h live (ground arith)) (h.buckets i))
    ];
    unused = λ b l. ground (arith, h.unused b l);
    unopened = λ e.
        absurd (let none_there = rw (h.unopened e (c.id % hash_size)) at there in ground arith);
  }

  -- On a well-formed parser context, the close of the connection that an id finds returns 0 and frees
  -- it: the hash map no longer finds the id, finds every other id as before, and stays well-formed.
  pub parser_connection_close-lookup :
      (s : ParserContext P Z World) (id a : ℕ)
      → IsWellFormed s
      → lookup s id ≡ some a
      → (t : ParserContext P Z World) × (parser_connection_close s a ≡ ok (0, t))
        × (t.cells a ≡ none)
        × ((n : ℕ) → lookup t n ≡ (if n == id then none else lookup s n))
        × IsWellFormed t
  parser_connection_close-lookup s id a h there =
      let (c, live, same) = has_id_live (s.cells a) id (find-has_id s.cells id a _ there) in
      let there' : lookup s c.id ≡ some a = ap (lookup s) same ∙ there in
      (
        closed s c.id a,
        close-closed s a c h there' live,
        ground arith,
        λ n.
            closed_found s a n c h there' live ∙ ap (λ m. if n == m then none else lookup s n) same,
        closed-IsWellFormed s a c h there' live,
      )

  -- The walk over a bucket reads the block that it has just closed.
  close_all-freed :
      (s : ParserContext P Z World) (i a : ℕ) (rest : List ℕ)
      → IsWellFormed s
      → s.buckets i ≡ a ∷ rest
      → close_all (a ∷ rest) s ≡ fault use_after_free
  unfolding close_all find
  close_all-freed s i a rest h e =
      let entry = (subst (IsBucket s.cells i) e (h.buckets i)).0 in
      let c = entry.context in
      let there : lookup s c.id ≡ some a =
        ap (λ j. find s.cells c.id (s.buckets j)) entry.place
        ∙ ap (find s.cells c.id) e
        ∙ ground (arith, entry.live) in
      rw (close-closed s a c h there entry.live) (ground arith)

  bucket_later :
      (s : ParserContext P Z World) (i j a : ℕ) (rest : List ℕ)
      → i ≤ j
      → s.buckets i ≡ []
      → s.buckets j ≡ a ∷ rest
      → i < j
  bucket_later s i j a rest lo empty e = elim (Bool-cases (i == j)) [
    | inr apart ↦ ground arith
    | inl same ↦
        let here : i ≡ j = ground arith in
        let both : [] ≡ a ∷ rest = sym empty ∙ ap s.buckets here ∙ e in absurd (ground arith)
  ]

  close_buckets-freed :
      (n i j : ℕ) (s : ParserContext P Z World) (a : ℕ) (rest : List ℕ)
      → IsWellFormed s
      → i ≤ j
      → j < i + n
      → s.buckets j ≡ a ∷ rest
      → close_buckets n i s ≡ fault use_after_free
  unfolding close_buckets close_all
  close_buckets-freed zero i j s a rest h lo hi e = absurd (omega arith)
  close_buckets-freed (suc n) i j s a rest h lo hi e = elim (List-cases (s.buckets i)) [
    | inl empty ↦
        let later : i < j = bucket_later s i j a rest lo empty e in
        rw empty (close_buckets-freed n (suc i) j s a rest h (omega arith) (omega arith) e)
    | inr (b, bs, here) ↦ rw here (rw (close_all-freed s i b bs h here) refl)
  ]

  -- On a well-formed parser context that has a connection, `parser_destroy` reads a block that it has
  -- freed.
  pub parser_destroy-freed :
      (s : ParserContext P Z World) (id a : ℕ)
      → IsWellFormed s
      → lookup s id ≡ some a
      → parser_destroy s ≡ fault use_after_free
  unfolding parser_destroy find
  parser_destroy-freed s id a h there = elim (List-cases (s.buckets (id % hash_size))) [
    | inl empty ↦ let none_there = rw empty at there in absurd (ground arith)
    | inr (b, bs, e) ↦
        let run : parser_destroy s ≡ close_buckets hash_size 0 s = elim (Bool-cases s.initialized) [
          | inl is_open ↦ ap (λ c. if c then close_buckets hash_size 0 s else ok s) is_open
          | inr shut ↦
              let both : [] ≡ b ∷ bs = sym (h.unopened shut (id % hash_size)) ∙ e in
              absurd (ground arith)
        ] in
        run
        ∙ close_buckets-freed hash_size 0 (id % hash_size) s b bs h (omega arith) (omega arith) e
  ]
