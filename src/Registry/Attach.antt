-- ===== src/Registry/Attach.antt =====
-- A parser context with one connection more (`context_by_id_add` in `parser_connect`,
-- http-parser/src/parser.c), against the map from ids to connections.
use mathlib.Core.Path.{subst}
use http_library.Prelude.{
  ℕ, suc, ◌%◌, ◌≡◌, sym, ap, ◌∙◌, true, false, none, some, ◌∷◌, ◌==◌, arith, if◌then◌else◌,
  Bool-cases, inl, inr,
}
use http_library.Session.{ConnectionContext}
use http_library.Registry.{ParserContext, hash_size, update}
use http_library.Registry.Buckets.{find, IsBucket, Agree, find-Agree, IsBucket-Agree, Agree-dead}
use http_library.Registry.Lookup.{lookup, IsWellFormed}

module _ {P Z World : Type 0} where
  -- The parser context with one more connection, at the address `a`.
  pub record IsAttached (s t : ParserContext P Z World) (id a : ℕ) : Type 0 where
    pub context : ConnectionContext P Z World
    pub at_address : t.cells a ≡ some context
    pub has : context.id ≡ id
    pub others : (b : ℕ) → (b == a) ≡ false → t.cells b ≡ s.cells b
    pub next : t.next ≡ suc s.next
    pub is_open : t.initialized ≡ true
    pub buckets :
        (i : ℕ) → t.buckets i ≡ update s.buckets (id % hash_size) (a ∷ s.buckets (id % hash_size)) i

  -- The map from ids to connections with one more entry.
  pub record IsConnected (s t : ParserContext P Z World) (id a : ℕ) : Type 0 where
    pub formed : IsWellFormed t
    pub found : (n : ℕ) → lookup t n ≡ (if n == id then some a else lookup s n)
    pub context : ConnectionContext P Z World
    pub at_address : t.cells a ≡ some context
    pub has : context.id ≡ id

  attached-IsBucket :
      (s t : ParserContext P Z World) (id : ℕ)
      → lookup s id ≡ none
      → IsAttached s t id s.next
      → ((i : ℕ) → Agree s.cells t.cells (s.buckets i))
      → ((i : ℕ) → IsBucket t.cells i (s.buckets i))
      → (i : ℕ)
      → IsBucket t.cells i
          (update s.buckets (id % hash_size) (s.next ∷ s.buckets (id % hash_size)) i)
  attached-IsBucket s t id absent x same kept i = elim (Bool-cases (i == id % hash_size)) [
    | inr e ↦ rw e (kept i)
    | inl e ↦
        let here : i ≡ id % hash_size = ground arith in
        rw e (
          record {
            context = x.context;
            live = x.at_address;
            place = ap (λ n. n % hash_size) x.has ∙ sym here;
            alone =
                find-Agree s.cells t.cells x.context.id _ (same (id % hash_size))
                ∙ ap (λ n. find s.cells n (s.buckets (id % hash_size))) x.has
                ∙ absent;
          },
          subst (λ j. IsBucket t.cells i (s.buckets j)) here (kept i),
        )
  ]

  attached_found :
      (s t : ParserContext P Z World) (id n : ℕ)
      → lookup s id ≡ none
      → IsAttached s t id s.next
      → ((i : ℕ) → Agree s.cells t.cells (s.buckets i))
      → lookup t n ≡ (if n == id then some s.next else lookup s n)
  unfolding find
  attached_found s t id n absent x same =
      rw (x.buckets (n % hash_size)) (elim (Bool-cases (n % hash_size == id % hash_size)) [
        | inr e ↦
            rw (e, find-Agree s.cells t.cells n (s.buckets (n % hash_size)) (same (n % hash_size)))
              (ground arith)
        | inl e ↦
            let here : n % hash_size ≡ id % hash_size = ground arith in
            rw
              (
                e,
                find-Agree s.cells t.cells n (s.buckets (id % hash_size)) (same (id % hash_size)),
                here,
              )
              (ground (arith, x.at_address, x.has))
      ])

  pub attached-IsConnected :
      (s t : ParserContext P Z World) (id : ℕ)
      → IsWellFormed s
      → lookup s id ≡ none
      → IsAttached s t id s.next
      → IsConnected s t id s.next
  attached-IsConnected s t id h absent x =
      let dead = h.unused s.next (omega arith) in
      let same : (i : ℕ) → Agree s.cells t.cells (s.buckets i) =
        λ i. Agree-dead s.cells t.cells i s.next (s.buckets i) dead x.others (h.buckets i) in
      let kept : (i : ℕ) → IsBucket t.cells i (s.buckets i) =
        λ i. IsBucket-Agree s.cells t.cells i (s.buckets i) (same i) (h.buckets i) in
      record {
        formed = record {
          buckets = λ i. rw (x.buckets i) (attached-IsBucket s t id absent x same kept i);
          unused = λ b l. x.others b (ground (arith, x.next)) ∙ h.unused b (omega (arith, x.next));
          unopened = λ e. absurd (ground (arith, x.is_open));
        };
        found = λ n. attached_found s t id n absent x same;
        context = x.context;
        at_address = x.at_address;
        has = x.has;
      }
