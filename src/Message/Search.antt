-- ===== src/Message/Search.antt =====
-- The comparison loops over the header fields, against the prefix test of the view.
use http_library.Prelude.{
  ℕ, suc, ◌≡◌, refl, ◌≢◌, inl, inr, false, Option, none, some, List, [], ◌∷◌, ◌++◌, arith, ◌==◌,
  if◌then◌else◌, Bool-cases, Option-cases, length, set, ap, length-append,
}
use mathlib.Core.Path.{subst}
use http_library.Memory.{ok, at, deref, tolower, strn_eq}
use http_library.Memory.Strings.{IsText}
use http_library.Message.{exact, find_field}
use http_library.Message.View.{
  Header, c_field, c_fields, IsClean, is_prefix, lookup_first, replace_first, remove_first,
}

-- Only NUL folds to the fold of NUL.
abbrev pub KeepsNul : (ℕ → ℕ) → Type 0
KeepsNul fold = (b : ℕ) → b ≢ 0 → (fold 0 == fold b) ≡ false

pub exact-KeepsNul : KeepsNul exact
exact-KeepsNul b h = ground arith

pub tolower-KeepsNul : KeepsNul tolower
unfolding tolower
tolower-KeepsNul b h = ground arith

unfoldable pub find_index : (ℕ → ℕ) → List ℕ → List Header → Option ℕ
find_index fold name [] = none
find_index fold name (h ∷ hs) =
    let rest = find_index fold name hs in
    if is_prefix fold name h.0 then some 0 else elim rest [ none ↦ none | some i ↦ some (suc i) ]

module _ (fold : ℕ → ℕ) (keeps : KeepsNul fold) where
  pub strn_eq-is_prefix :
      (name s : List ℕ)
      → IsText name
      → IsText s
      → strn_eq fold (length name) (s ++ 0 ∷ []) name ≡ ok (is_prefix fold name s)
  unfolding strn_eq is_prefix
  strn_eq-is_prefix [] s p q = refl
  strn_eq-is_prefix (c ∷ name) [] p q = rw (keeps c p.0)
  strn_eq-is_prefix (c ∷ name) (b ∷ s) p q = rw (strn_eq-is_prefix name s p.1 q.1) (ground arith)

  pub find_field-find_index :
      (name : List ℕ) (hs : List Header)
      → IsText name
      → IsClean hs
      → find_field fold name (length hs) (c_fields hs) ≡ ok (find_index fold name hs)
  unfolding find_field find_index deref
  find_field-find_index name [] p q = refl
  find_field-find_index name (h ∷ hs) p q =
      rw (strn_eq-is_prefix name h.0 p q.0.0)
        (rw (find_field-find_index name hs p q.1) (ground arith))

-- How the list splits at the index that the loop finds, and what the view's operations do there.
pub record Split (fold : ℕ → ℕ) (name : List ℕ) (hs : List Header) (i : ℕ) : Type 0 where
  pub front : List Header
  pub hit : Header
  pub back : List Header
  pub whole : hs ≡ front ++ (hit ∷ back)
  pub index : i ≡ length front
  pub looked_up : lookup_first fold name hs ≡ some hit.1
  pub replaced :
      (value : List ℕ) → replace_first fold name value hs ≡ some (front ++ ((hit.0, value) ∷ back))
  pub removed : remove_first fold name hs ≡ some (front ++ back)

pub record Absent (fold : ℕ → ℕ) (name : List ℕ) (hs : List Header) : Type 0 where
  pub looked_up : lookup_first fold name hs ≡ none
  pub replaced : (value : List ℕ) → replace_first fold name value hs ≡ none
  pub removed : remove_first fold name hs ≡ none

module _ (fold : ℕ → ℕ) (name : List ℕ) where
  Split-cons :
      (h : Header) (hs : List Header) (i : ℕ)
      → is_prefix fold name h.0 ≡ false
      → Split fold name hs i
      → Split fold name (h ∷ hs) (suc i)
  unfolding lookup_first replace_first remove_first
  Split-cons h hs i miss s = record {
    front = h ∷ s.front;
    hit = s.hit;
    back = s.back;
    whole = ap (λ t. h ∷ t) s.whole;
    index = ap suc s.index;
    looked_up = rw miss s.looked_up;
    replaced = λ value. rw (miss, s.replaced value);
    removed = rw (miss, s.removed);
  }

  pub find_index-Split :
      (hs : List Header) (i : ℕ) → find_index fold name hs ≡ some i → Split fold name hs i
  unfolding find_index lookup_first replace_first remove_first
  find_index-Split [] i e = cc
  find_index-Split (h ∷ hs) i e = elim (Bool-cases (is_prefix fold name h.0)) [
    | inl hit ↦ record {
      front = [];
      hit = h;
      back = hs;
      whole = refl;
      index = ground arith;
      looked_up = rw hit;
      replaced = λ value. rw hit;
      removed = rw hit;
    }
    | inr miss ↦ elim (Option-cases (find_index fold name hs)) [
      | inl gone ↦ absurd (ground arith)
      | inr (j, later) ↦
          let e' : i ≡ suc j = ground arith in
          rw e' (Split-cons h hs j miss (find_index-Split hs j later))
    ]
  ]

  pub find_index-Absent : (hs : List Header) → find_index fold name hs ≡ none → Absent fold name hs
  unfolding find_index lookup_first replace_first remove_first
  find_index-Absent [] e = record { looked_up = refl; replaced = λ value. refl; removed = refl }
  find_index-Absent (h ∷ hs) e =
      let miss : is_prefix fold name h.0 ≡ false = ground arith in
      let gone : find_index fold name hs ≡ none = ground arith in
      let rest = find_index-Absent hs gone in
      record {
        looked_up = rw miss rest.looked_up;
        replaced = λ value. rw (miss, rest.replaced value);
        removed = rw (miss, rest.removed);
      }

-- The block of fields at the end of a front part.
pub at_front :
    (front : List Header) (h : Header) (back : List Header)
    → at (c_fields (front ++ (h ∷ back))) (length front) ≡ ok (c_field h)
unfolding at
at_front [] h back = refl
at_front (g ∷ front) h back = at_front front h back

pub set_front :
    (front : List Header) (h h' : Header) (back : List Header)
    → set (c_fields (front ++ (h ∷ back))) (length front) (c_field h')
      ≡ c_fields (front ++ (h' ∷ back))
set_front [] h h' back = refl
set_front (g ∷ front) h h' back = ap (λ t. c_field g ∷ t) (set_front front h h' back)

IsClean-middle :
    (front : List Header) (h : Header) (back : List Header)
    → IsClean (front ++ (h ∷ back))
    → IsText h.0 × IsText h.1
IsClean-middle [] h back clean = clean.0
IsClean-middle (g ∷ front) h back clean = IsClean-middle front h back clean.1

module _ {fold : ℕ → ℕ} {name : List ℕ} {hs : List Header} {i : ℕ} (s : Split fold name hs i) where
  pub at-Split : at (c_fields hs) i ≡ ok (c_field s.hit)
  at-Split = rw (s.whole, s.index) (at_front s.front s.hit s.back)

  pub set-Split :
      (h : Header) → set (c_fields hs) i (c_field h) ≡ c_fields (s.front ++ (h ∷ s.back))
  set-Split h = rw (s.whole, s.index) (set_front s.front s.hit h s.back)

  pub hit-IsText : IsClean hs → IsText s.hit.0 × IsText s.hit.1
  hit-IsText clean = IsClean-middle s.front s.hit s.back (subst IsClean s.whole clean)

  pub length-Split : (h : Header) → length (s.front ++ (h ∷ s.back)) ≡ length hs
  length-Split h = omega (
    arith,
    ap length s.whole,
    length-append s.front (h ∷ s.back),
    length-append s.front (s.hit ∷ s.back),
  )
