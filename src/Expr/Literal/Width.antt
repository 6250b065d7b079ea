-- ===== src/Expr/Literal/Width.antt =====
-- The widths that src/ir/expr_builder.cpp computes for constants.
use native.Mathlib.Nat.{pow-suc}
use abys.Prelude.{
  ℕ, zero, suc, ◌+◌, ◌*◌, ◌/◌, ◌^◌, ◌≤◌, ◌<◌, ◌≡◌, refl, ap, ◌⊎◌, inl, inr, ltb, ◌==◌, true, none,
  some, if◌then◌else◌, arith, Bool-cases,
}
use abys.Prelude.Int.{ℤ, pos, negsuc, ◌<ℤ◌}
use abys.Expr.Graph.{SignalWidth}
use abys.Expr.Literal.{
  digit_count, binary_length, count_width, count_bits, minimum_unsigned_width, signed_width,
  magnitude,
}

-- The number of binary digits: enough, at least one, and no more than needed.
abbrev pub IsLength : ℕ → ℕ → Type 0
IsLength n digits = (n < 2 ^ digits) × (1 ≤ digits) × ((digits ≡ 1) ⊎ (2 ^ digits ≤ 2 * n))

half_IsLength : (n d : ℕ) → 2 ≤ n → IsLength (n / 2) d → IsLength n (suc d)
half_IsLength n d h (enough, one, inl e) =
    let q : 2 ^ d ≡ 2 = rw e in
    (omega (arith, pow-suc 2 d), omega arith, inr (omega (arith, pow-suc 2 d)))
half_IsLength n d h (enough, one, inr tight) =
    (omega (arith, pow-suc 2 d), omega arith, inr (omega (arith, pow-suc 2 d)))

digit_count-IsLength : (rounds n : ℕ) → n < 2 ^ suc rounds → IsLength n (digit_count (suc rounds) n)
unfolding digit_count
digit_count-IsLength zero n h =
    let last : ltb n 2 ≡ true = ground arith in rw last (omega arith, omega arith, inl refl)
digit_count-IsLength (suc rounds) n h = elim (Bool-cases (ltb n 2)) [
  | inl last ↦ rw last (ground arith, omega arith, inl refl)
  | inr more ↦ rw more (
      half_IsLength n (digit_count (suc rounds) (n / 2)) (ground arith)
        (digit_count-IsLength rounds (n / 2) (omega (arith, pow-suc 2 (suc rounds)))))
]

-- The other loops count the same digits.
count_width-eq :
    (rounds n w : ℕ)
    → n < 2 ^ suc rounds
    → count_width (suc rounds) n w + 1 ≡ w + digit_count (suc rounds) n
unfolding count_width digit_count
count_width-eq zero n w h = ground arith
count_width-eq (suc rounds) n w h =
    ground (arith, pow-suc 2 (suc rounds), count_width-eq rounds (n / 2) (w + 1))

count_bits-eq :
    (rounds n w : ℕ)
    → n < 2 ^ suc rounds
    → count_bits (suc rounds) n w ≡ (if n == 0 then w else w + digit_count (suc rounds) n)
unfolding count_bits digit_count
count_bits-eq zero n w h = ground arith
count_bits-eq (suc rounds) n w h =
    ground (arith, pow-suc 2 (suc rounds), count_bits-eq rounds (n / 2) (w + 1))

pub binary_length-IsLength : (n : ℕ) → n < 2 ^ 64 → IsLength n (binary_length n)
unfolding binary_length
binary_length-IsLength n h = digit_count-IsLength 63 n h

-- The narrowest unsigned width is the number of digits that the constant's literal has.
pub minimum_unsigned_width-eq :
    (n : ℕ) → n < 2 ^ 64 → minimum_unsigned_width (pos n) ≡ some (binary_length n)
unfolding minimum_unsigned_width binary_length
minimum_unsigned_width-eq n h = ap some (omega (arith, count_width-eq 63 n 1 h))

pub signed_width-eq :
    (z : ℤ)
    → magnitude z < 2 ^ 64
    → signed_width z ≡ (if magnitude z == 0 then 1 else 1 + binary_length (magnitude z))
unfolding signed_width binary_length
signed_width-eq z h = count_bits-eq 63 (magnitude z) 1 h

minimum_unsigned_width_negative : (n : ℕ) → minimum_unsigned_width (negsuc n) ≡ none
unfolding minimum_unsigned_width
minimum_unsigned_width_negative n = refl

-- An index from 0 to 2 ^ 64 - 1 fits the width that is computed for it as an unsigned number, and no
-- smaller width that is not 0 would hold it; a negative index has none.
pub minimum_unsigned_width_minimal :
    (index : ℤ)
    → magnitude index < 2 ^ 64
    → (minimum_unsigned_width index ≡ none) × (index <ℤ pos 0)
      ⊎ ((w : SignalWidth) × (minimum_unsigned_width index ≡ some w) × IsLength (magnitude index) w)
minimum_unsigned_width_minimal (pos n) h =
    inr (binary_length n, minimum_unsigned_width-eq n h, binary_length-IsLength n h)
minimum_unsigned_width_minimal (negsuc n) h = inl (minimum_unsigned_width_negative n, omega arith)

count_bits_bound : (rounds n w : ℕ) → count_bits rounds n w ≤ w + rounds
unfolding count_bits
count_bits_bound zero n w = omega arith
count_bits_bound (suc rounds) n w = ground (arith, count_bits_bound rounds (n / 2) (w + 1))

pub signed_width_bound : (z : ℤ) → signed_width z ≤ 65
unfolding signed_width
signed_width_bound z = count_bits_bound 64 (magnitude z) 1
