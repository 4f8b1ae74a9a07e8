-- ===== src/Registry/Buckets.antt =====
-- The buckets of the hash map: what a walk finds, and what a removal leaves.
use http_library.Prelude.{
  ℕ, ◌%◌, ◌≡◌, refl, ap, ◌∙◌, Bool, true, false, Option, none, some, List, [], ◌∷◌, ◌==◌, arith,
  All, if◌then◌else◌,
}
use http_library.Memory.{ok}
use http_library.Session.{ConnectionContext}
use http_library.Registry.{hash_size, update, walk}

-- The blocks of the connections.
abbrev pub Cells : Type 0 → Type 0 → Type 0 → Type 0
Cells P Z World = ℕ → Option (ConnectionContext P Z World)

module _ {P Z World : Type 0} where
  abbrev pub has_id : Option (ConnectionContext P Z World) → ℕ → Bool
  has_id none id = false
  has_id (some c) id = c.id == id

  -- The first address in the bucket whose connection has the id.
  unfoldable pub find : Cells P Z World → ℕ → List ℕ → Option ℕ
  find cells id [] = none
  find cells id (a ∷ rest) = if has_id (cells a) id then some a else find cells id rest

  -- An address of the bucket `i` is that of a connection whose id belongs there and is found at no
  -- address of `rest`.
  pub record IsEntry (cells : Cells P Z World) (i a : ℕ) (rest : List ℕ) : Type 0 where
    pub context : ConnectionContext P Z World
    pub live : cells a ≡ some context
    pub place : context.id % hash_size ≡ i
    pub alone : find cells context.id rest ≡ none

  abbrev pub IsBucket : Cells P Z World → ℕ → List ℕ → Type 0
  IsBucket cells i [] = Unit
  IsBucket cells i (a ∷ rest) = IsEntry cells i a rest × IsBucket cells i rest

  pub walk-find :
      (cells : Cells P Z World) (i id : ℕ) (bucket : List ℕ)
      → IsBucket cells i bucket
      → walk cells id bucket ≡ ok (find cells id bucket)
  unfolding walk find
  walk-find cells i id [] h = refl
  walk-find cells i id (a ∷ rest) h = ground (arith, h.0.live, walk-find cells i id rest h.1)

  -- Blocks that are the same at every address of a bucket.
  abbrev pub Agree : Cells P Z World → Cells P Z World → List ℕ → Type 0
  Agree cells cells' = All (λ a. cells' a ≡ cells a)

  pub find-Agree :
      (cells cells' : Cells P Z World) (id : ℕ) (bucket : List ℕ)
      → Agree cells cells' bucket
      → find cells' id bucket ≡ find cells id bucket
  unfolding find
  find-Agree cells cells' id [] same = refl
  find-Agree cells cells' id (a ∷ rest) same = rw (same.0, find-Agree cells cells' id rest same.1)

  pub IsBucket-Agree :
      (cells cells' : Cells P Z World) (i : ℕ) (bucket : List ℕ)
      → Agree cells cells' bucket
      → IsBucket cells i bucket
      → IsBucket cells' i bucket
  IsBucket-Agree cells cells' i [] same h = tt
  IsBucket-Agree cells cells' i (a ∷ rest) same h = (
    record {
      context = h.0.context;
      live = same.0 ∙ h.0.live;
      place = h.0.place;
      alone = find-Agree cells cells' h.0.context.id rest same.1 ∙ h.0.alone;
    },
    IsBucket-Agree cells cells' i rest same.1 h.1,
  )

  -- A block that is in no bucket may change.
  pub Agree-dead :
      (cells cells' : Cells P Z World) (i b : ℕ) (bucket : List ℕ)
      → cells b ≡ none
      → ((a : ℕ) → (a == b) ≡ false → cells' a ≡ cells a)
      → IsBucket cells i bucket
      → Agree cells cells' bucket
  Agree-dead cells cells' i b [] dead same h = tt
  Agree-dead cells cells' i b (a ∷ rest) dead same h =
      (same a (ground (arith, h.0.live)), Agree-dead cells cells' i b rest dead same h.1)

  -- With the same ids in the blocks, a walk finds the same.
  pub find-ids :
      (cells cells' : Cells P Z World) (id : ℕ) (bucket : List ℕ)
      → ((a : ℕ) → has_id (cells' a) id ≡ has_id (cells a) id)
      → find cells' id bucket ≡ find cells id bucket
  unfolding find
  find-ids cells cells' id [] same = refl
  find-ids cells cells' id (a ∷ rest) same = rw (same a, find-ids cells cells' id rest same)

  pub has_id_live :
      (x : Option (ConnectionContext P Z World)) (id : ℕ)
      → has_id x id ≡ true
      → (d : ConnectionContext P Z World) × (x ≡ some d) × (d.id ≡ id)
  has_id_live none id e = absurd (ground arith)
  has_id_live (some d) id e = (d, refl, ground arith)

  pub IsBucket-ids :
      (cells cells' : Cells P Z World) (i : ℕ) (bucket : List ℕ)
      → ((n a : ℕ) → has_id (cells' a) n ≡ has_id (cells a) n)
      → IsBucket cells i bucket
      → IsBucket cells' i bucket
  IsBucket-ids cells cells' i [] same h = tt
  IsBucket-ids cells cells' i (a ∷ rest) same h =
      let c = h.0.context in
      let (d, live, id) = has_id_live (cells' a) c.id (same c.id a ∙ ground (arith, h.0.live)) in
      (
        record {
          context = d;
          live = live;
          place = ap (λ n. n % hash_size) id ∙ h.0.place;
          alone =
              ap (λ n. find cells' n rest) id
              ∙ find-ids cells cells' c.id rest (same c.id)
              ∙ h.0.alone;
        },
        IsBucket-ids cells cells' i rest same h.1,
      )

  -- So may that of a connection whose id the bucket does not have.
  pub Agree-absent :
      (cells : Cells P Z World) (i b : ℕ) (c : ConnectionContext P Z World)
      (x : Option (ConnectionContext P Z World)) (bucket : List ℕ)
      → cells b ≡ some c
      → find cells c.id bucket ≡ none
      → Agree cells (update cells b x) bucket
  unfolding find
  Agree-absent cells i b c x [] live absent = tt
  Agree-absent cells i b c x (a ∷ rest) live absent =
      (ground arith, Agree-absent cells i b c x rest live (ground arith))

  -- A connection of another bucket has an id that this one does not have.
  pub find-other :
      (cells : Cells P Z World) (i id : ℕ) (bucket : List ℕ)
      → IsBucket cells i bucket
      → (id % hash_size == i) ≡ false
      → find cells id bucket ≡ none
  unfolding find
  find-other cells i id [] h e = refl
  find-other cells i id (a ∷ rest) h e =
      ground (arith, h.0.live, h.0.place, find-other cells i id rest h.1 e)

  pub find-has_id :
      (cells : Cells P Z World) (id a : ℕ) (bucket : List ℕ)
      → find cells id bucket ≡ some a
      → has_id (cells a) id ≡ true
  unfolding find
  find-has_id cells id a [] e = absurd (ground arith)
  find-has_id cells id a (b ∷ rest) e = ground (arith, find-has_id cells id a rest)
