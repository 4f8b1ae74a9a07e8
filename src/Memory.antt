-- ===== src/Memory.antt =====
-- The C memory that the library works on: faults, the blocks that a pointer owns, and the calls of
-- the C library on them.
-- A pointer field of the program owns its block alone, so a pointer is modelled by the block's
-- state: `NULL`, a live block with its bytes, or a block that was given back.
-- Allocation never fails in the model. The helpers at the end are those of
-- http-parser/src/parser.c.
pub mod Strings
pub mod Halts
use http_library.Prelude.{
  ℕ, zero, suc, ◌+◌, Bool, true, false, List, [], ◌∷◌, ◌++◌, ◌==◌, leb, ◌&&◌, if◌then◌else◌, length,
  take,
}

-- What the C standard leaves undefined, as far as the program can meet it, and an exception that the
-- binding throws and nothing catches. `out_of_fuel` is no fault of the program: a loop of the model
-- was given too few rounds.
pub data Fault : Type 0 where
  null_pointer use_after_free out_of_bounds out_of_fuel overlapping_copy uncaught_exception : Fault

pub data Run {ℓ} (A : Type ℓ) : Type ℓ where
  ok : A → Run A
  fault : Fault → Run A

infixl 5 ◌>>=◌ ◌>>◌
abbrev pub ◌>>=◌ {ℓ κ} : {A : Type ℓ} {B : Type κ} → Run A → (A → Run B) → Run B
ok a >>= f = f a
fault e >>= f = fault e

abbrev pub ◌>>◌ {ℓ κ} : {A : Type ℓ} {B : Type κ} → Run A → Run B → Run B
m >> k = m >>= λ _. k

pub data Ptr : Type 0 where
  null : Ptr
  live : List ℕ → Ptr
  freed : Ptr

-- The block that is read through a pointer.
unfoldable pub deref : Ptr → Run (List ℕ)
deref null = fault null_pointer
deref (live bytes) = ok bytes
deref freed = fault use_after_free

-- What `realloc` carries over from the old block.
unfoldable pub realloc : Ptr → Run (List ℕ)
realloc null = ok []
realloc (live bytes) = ok bytes
realloc freed = fault use_after_free

unfoldable pub free : Ptr → Run Ptr
free null = ok null
free (live bytes) = ok freed
free freed = fault use_after_free

-- An array access.
unfoldable pub at {ℓ} : {A : Type ℓ} → List A → ℕ → Run A
at [] i = fault out_of_bounds
at (x ∷ xs) zero = ok x
at (x ∷ xs) (suc i) = at xs i

unfoldable pub strlen : List ℕ → Run ℕ
strlen [] = fault out_of_bounds
strlen (b ∷ bs) = if b == 0 then ok 0 else (do n ← strlen bs; ok (suc n))

-- `tolower` in the C locale.
unfoldable pub tolower : ℕ → ℕ
tolower b = if leb b'A' b && leb b b'Z' then b + 32 else b

-- `strncmp(s, t, n) == 0`, with `fold` applied to the bytes first: `tolower` for `strncasecmp`.
unfoldable pub strn_eq : (ℕ → ℕ) → ℕ → List ℕ → List ℕ → Run Bool
strn_eq fold zero s t = ok true
strn_eq fold (suc n) [] t = fault out_of_bounds
strn_eq fold (suc n) (a ∷ s) [] = fault out_of_bounds
strn_eq fold (suc n) (a ∷ s) (b ∷ t) =
    let rest = strn_eq fold n s t in
    if fold a == fold b then (if a == 0 then ok true else rest) else ok false

-- What `snprintf(dst, size, …)` leaves at `dst`, for the formatted bytes `text`.
unfoldable pub snprintf : ℕ → List ℕ → List ℕ
snprintf zero text = []
snprintf (suc n) text = take n text ++ 0 ∷ []

unfoldable pub append_chars : Ptr → List ℕ → Run Ptr
append_chars null src = ok (live (src ++ 0 ∷ []))
append_chars dst src = do
  bytes ← deref dst
  old_len ← strlen bytes
  carried ← realloc dst
  ok (live (take old_len carried ++ (src ++ 0 ∷ [])))

-- `*dst_len`, after the reset for `NULL`.
abbrev used : Ptr → ℕ → ℕ
used null dst_len = 0
used dst dst_len = dst_len

unfoldable pub append_bytes : Ptr → ℕ → List ℕ → Run (Ptr × ℕ)
append_bytes dst dst_len src = do
  let old_len = used dst dst_len
  carried ← realloc dst
  ok (live (take old_len carried ++ (src ++ 0 ∷ [])), old_len + length src)

unfoldable pub set_chars : Ptr → List ℕ → Run Ptr
set_chars dst src = do _ ← realloc dst; ok (live (src ++ 0 ∷ []))
