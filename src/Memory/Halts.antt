-- ===== src/Memory/Halts.antt =====
-- Runs that do not run out of fuel, and the calls on memory (http-parser/src/parser.c) among them.
use http_library.Prelude.{
  ℕ, zero, suc, ◌≢◌, Bool, true, false, Option, none, some, List, [], ◌∷◌, ◌==◌, arith,
  if◌then◌else◌,
}
use http_library.Memory.{
  null_pointer, use_after_free, out_of_bounds, out_of_fuel, overlapping_copy, uncaught_exception,
  Run, ok, fault, ◌>>=◌, Ptr, null, live, freed, deref, realloc, free, at, strlen, strn_eq,
  append_chars, set_chars,
}

-- The run ends: with a result, or with a fault of the program.
unfoldable pub Halts : {A : Type 0} → Run A → Type 0
Halts (ok a) = Unit
Halts (fault out_of_fuel) = ⊥
Halts (fault e) = Unit

pub Halts-fuel : {A : Type 0} (r : Run A) → Halts r → r ≢ fault out_of_fuel
unfolding Halts
Halts-fuel (ok a) h = ground arith
Halts-fuel (fault null_pointer) h = ground arith
Halts-fuel (fault use_after_free) h = ground arith
Halts-fuel (fault out_of_bounds) h = ground arith
Halts-fuel (fault out_of_fuel) h = absurd h
Halts-fuel (fault overlapping_copy) h = ground arith
Halts-fuel (fault uncaught_exception) h = ground arith

pub Halts-ok : {A : Type 0} (a : A) → Halts (ok a)
unfolding Halts
Halts-ok a = tt

pub Halts-null : (A : Type 0) → Halts {A = A} (fault null_pointer)
unfolding Halts
Halts-null A = tt

pub Halts-bounds : (A : Type 0) → Halts {A = A} (fault out_of_bounds)
unfolding Halts
Halts-bounds A = tt

pub Halts-overlap : (A : Type 0) → Halts {A = A} (fault overlapping_copy)
unfolding Halts
Halts-overlap A = tt

pub Halts-freed : (A : Type 0) → Halts {A = A} (fault use_after_free)
unfolding Halts
Halts-freed A = tt

pub Halts-bind :
    {A B : Type 0} (r : Run A) (k : A → Run B) → Halts r → ((a : A) → Halts (k a)) → Halts (r >>= k)
unfolding Halts
Halts-bind (ok a) k h next = next a
Halts-bind (fault null_pointer) k h next = tt
Halts-bind (fault use_after_free) k h next = tt
Halts-bind (fault out_of_bounds) k h next = tt
Halts-bind (fault out_of_fuel) k h next = absurd h
Halts-bind (fault overlapping_copy) k h next = tt
Halts-bind (fault uncaught_exception) k h next = tt

pub Halts-if :
    {A : Type 0} (b : Bool) (r q : Run A) → Halts r → Halts q → Halts (if b then r else q)
Halts-if true r q h g = h
Halts-if false r q h g = g

pub Halts-option :
    {A B : Type 0} (o : Option B) (r : Run A) (k : B → Run A)
    → Halts r
    → ((b : B) → Halts (k b))
    → Halts (elim o as (λ _. Run A) [ none ↦ r | some b ↦ k b ])
Halts-option none r k h next = h
Halts-option (some b) r k h next = next b

pub deref-Halts : (p : Ptr) → Halts (deref p)
unfolding deref
deref-Halts null = Halts-null _
deref-Halts (live bytes) = Halts-ok bytes
deref-Halts freed = Halts-freed _

pub realloc-Halts : (p : Ptr) → Halts (realloc p)
unfolding realloc
realloc-Halts null = Halts-ok []
realloc-Halts (live bytes) = Halts-ok bytes
realloc-Halts freed = Halts-freed _

pub free-Halts : (p : Ptr) → Halts (free p)
unfolding free
free-Halts null = Halts-ok null
free-Halts (live bytes) = Halts-ok freed
free-Halts freed = Halts-freed _

pub at-Halts : {A : Type 0} (xs : List A) (i : ℕ) → Halts (at xs i)
unfolding at
at-Halts [] i = Halts-bounds _
at-Halts (x ∷ xs) zero = Halts-ok x
at-Halts (x ∷ xs) (suc i) = at-Halts xs i

pub strlen-Halts : (s : List ℕ) → Halts (strlen s)
unfolding strlen
strlen-Halts [] = Halts-bounds _
strlen-Halts (b ∷ s) =
    Halts-if (b == 0) _ _ (Halts-ok 0)
      (Halts-bind (strlen s) _ (strlen-Halts s) (λ n. Halts-ok (suc n)))

pub strn_eq-Halts : (fold : ℕ → ℕ) (n : ℕ) (s t : List ℕ) → Halts (strn_eq fold n s t)
unfolding strn_eq
strn_eq-Halts fold zero s t = Halts-ok true
strn_eq-Halts fold (suc n) [] t = Halts-bounds _
strn_eq-Halts fold (suc n) (a ∷ s) [] = Halts-bounds _
strn_eq-Halts fold (suc n) (a ∷ s) (b ∷ t) =
    Halts-if (fold a == fold b) _ _
      (Halts-if (a == 0) _ _ (Halts-ok true) (strn_eq-Halts fold n s t)) (Halts-ok false)

appended-Halts :
    (p : Ptr) (bytes src : List ℕ) (k : List ℕ → ℕ → Ptr)
    → Halts (strlen bytes >>= λ n. realloc p >>= λ carried. ok (k carried n))
appended-Halts p bytes src k =
    Halts-bind (strlen bytes) _ (strlen-Halts bytes)
      (λ n. Halts-bind (realloc p) _ (realloc-Halts p) (λ carried. Halts-ok (k carried n)))

pub append_chars-Halts : (p : Ptr) (src : List ℕ) → Halts (append_chars p src)
unfolding append_chars
append_chars-Halts null src = Halts-ok _
append_chars-Halts (live bytes) src =
    Halts-bind (deref (live bytes)) _ (deref-Halts (live bytes))
      (λ b. appended-Halts (live bytes) b src _)
append_chars-Halts freed src =
    Halts-bind (deref freed) _ (deref-Halts freed) (λ b. appended-Halts freed b src _)

pub set_chars-Halts : (p : Ptr) (src : List ℕ) → Halts (set_chars p src)
unfolding set_chars
set_chars-Halts p src = Halts-bind (realloc p) _ (realloc-Halts p) (λ b. Halts-ok _)
