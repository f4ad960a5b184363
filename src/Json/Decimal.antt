-- ===== src/Json/Decimal.antt =====
-- `decimal` writes the number in base 10: its fuel suffices.
use h3_protocol.Json.{decimal_digits, decimal}
use h3_protocol.Prelude.Texts.{Text}
use h3_protocol.Prelude.{
  ℕ, zero, suc, ◌+◌, ◌*◌, ◌-◌, ◌/◌, ◌%◌, ◌≤◌, ◌≡◌, refl, [], ◌∷◌, ◌++◌, arith, ltb, inl, inr,
  Bool-cases,
}

-- The number that digits stand for, behind the number read so far.
abbrev pub read_digits : ℕ → Text → ℕ
read_digits n [] = n
read_digits n (c ∷ s) = read_digits (n * 10 + (c - b'0')) s

read_digits-append :
    (n c : ℕ) (s : Text) → read_digits n (s ++ c ∷ []) ≡ read_digits n s * 10 + (c - b'0')
read_digits-append n c [] = refl
read_digits-append n c (d ∷ s) = read_digits-append (n * 10 + (d - b'0')) c s

read-decimal_digits : (fuel n : ℕ) → n ≤ fuel → read_digits 0 (decimal_digits fuel n) ≡ n
unfolding decimal_digits
read-decimal_digits zero n h = omega arith
read-decimal_digits (suc fuel) n h = elim (Bool-cases (ltb n 10)) [
  | inl small ↦ rw small (omega arith)
  | inr big ↦
      rw (big, read_digits-append 0 (b'0' + n % 10) (decimal_digits fuel (n / 10)))
        (omega (arith, read-decimal_digits fuel (n / 10) (ground arith)))
]

-- The decimal digits that stand for a chunk's number in the signed content read back as that number.
pub read-decimal : (n : ℕ) → read_digits 0 (decimal n) ≡ n
unfolding decimal
read-decimal n = read-decimal_digits n n (omega arith)
