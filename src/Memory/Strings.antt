-- ===== src/Memory/Strings.antt =====
-- What the string helpers do on blocks that hold NUL-terminated strings.
use http_library.Prelude.{
  ℕ, ◌≡◌, refl, ◌≢◌, List, [], ◌∷◌, ◌++◌, append_assoc, arith, length, All, take-append,
}
use http_library.Memory.{ok, Ptr, live, deref, realloc, strlen, append_chars}

-- Bytes with no NUL among them.
abbrev pub IsText : List ℕ → Type 0
IsText = All (λ b. b ≢ 0)

-- The block of a NUL-terminated string.
abbrev pub c_string : List ℕ → Ptr
c_string s = live (s ++ 0 ∷ [])

pub strlen_text : (s rest : List ℕ) → IsText s → strlen (s ++ 0 ∷ rest) ≡ ok (length s)
unfolding strlen
strlen_text [] rest h = refl
strlen_text (b ∷ s) rest h = rw (strlen_text s rest h.1) (ground arith)

-- Bytes that are added to the block of a NUL-terminated string give the block of the two texts
-- together, where the first is free of NUL.
pub append_chars-c_string :
    (s t : List ℕ) → IsText s → append_chars (c_string s) t ≡ ok (c_string (s ++ t))
unfolding append_chars deref realloc
append_chars-c_string s t h =
    rw (strlen_text s [] h) (rw (take-append s (0 ∷ [])) (rw append_assoc refl))
