-- ===== src/Message/Raw/Decimal.antt =====
-- The decimal digits of `%u`.
use native.Mathlib.Nat.{pow-suc}
use http_library.Prelude.{
  ℕ, zero, suc, ◌+◌, ◌-◌, ◌*◌, ◌/◌, ◌%◌, ◌^◌, ◌<◌, ◌≤◌, ◌≡◌, ap, ◌∙◌, inl, inr, List, [], ◌∷◌,
  arith, ltb, Bool-cases, length,
}
use http_library.Message.Raw.{digits_u, format_u}
use http_library.Message.{u32}

-- The number that decimal digits stand for, read from the left behind a number `acc`.
unfoldable pub read_decimal : ℕ → List ℕ → ℕ
read_decimal acc [] = acc
read_decimal acc (d ∷ ds) = read_decimal (acc * 10 + (d - b'0')) ds

digits_u-read :
    (fuel n : ℕ) (behind : List ℕ)
    → n < 10 ^ fuel
    → read_decimal 0 (digits_u fuel n behind) ≡ read_decimal n behind
unfolding digits_u read_decimal
digits_u-read zero n behind h = ap (λ t. read_decimal t behind) (omega arith)
digits_u-read (suc fuel) n behind h = elim (Bool-cases (ltb n 10)) [
  | inl small ↦ rw small (ap (λ t. read_decimal t behind) (omega arith))
  | inr large ↦ rw large (
      digits_u-read fuel (n / 10) ((b'0' + n % 10) ∷ behind) (omega (arith, pow-suc 10 fuel))
      ∙ ap (λ t. read_decimal t behind) (omega arith))
]

-- The digits that are printed for a number below 2^32 read back as the number.
pub format_u-read_decimal : (n : ℕ) → n < u32 → read_decimal 0 (format_u n) ≡ n
unfolding format_u read_decimal
format_u-read_decimal n h = digits_u-read 10 n [] (omega arith)

-- A status code of three digits is printed in three bytes.
pub length-format_u : (n : ℕ) → 100 ≤ n → n < 1000 → length (format_u n) ≡ 3
unfolding format_u
length-format_u n lo hi = ground arith

-- Only numbers of three digits are printed in three bytes.
pub three_digits : (n : ℕ) → length (format_u n) ≡ 3 → (100 ≤ n) × (n < 1000)
unfolding format_u
three_digits n h = ground arith
