-- ===== src/Expr/Eval/Word.antt =====
-- The operations of C++20 on a 32-bit `int`, as src/ir/expr_builder.cpp uses them. `none` is
-- undefined behaviour: an overflow, a division by zero, a shift by a negative or too large amount.
use abys.Prelude.{
  ℕ, suc, zero, ◌-◌, ◌*◌, ◌/◌, ◌%◌, ◌^◌, bit_and, bit_or, bit_xor, ltb, ◌==◌, Bool, true, false,
  ◌&&◌, Option, none, some, if◌then◌else◌,
}
use abys.Prelude.Int.{ℤ, pos, negsuc, ◌+ℤ◌, ◌-ℤ◌, ◌*ℤ◌, ◌/ℤ◌, ◌%ℤ◌, leb_ℤ, eqb_ℤ}

abbrev pub int32 : ℤ → Option ℤ
int32 z = if leb_ℤ (negsuc 2_147_483_647) z && leb_ℤ z (pos 2_147_483_647) then some z else none

-- the bits of an `int`, and the `int` with those bits
abbrev pub to_word : ℤ → ℕ
to_word (pos n) = n
to_word (negsuc n) = 4_294_967_295 - n

abbrev pub from_word : ℕ → ℤ
from_word w = if ltb w 2_147_483_648 then pos w else negsuc (4_294_967_295 - w)

abbrev pub truth : Bool → ℤ
truth true = pos 1
truth false = pos 0

abbrev pub is_true : ℤ → Bool
is_true (pos zero) = false
is_true (pos (suc n)) = true
is_true (negsuc n) = true

unfoldable pub not_int : ℤ → ℤ
not_int (pos n) = negsuc n
not_int (negsuc n) = pos n

unfoldable pub and_int : ℤ → ℤ → ℤ
and_int a b = from_word (bit_and (to_word a) (to_word b))

unfoldable pub or_int : ℤ → ℤ → ℤ
or_int a b = from_word (bit_or (to_word a) (to_word b))

unfoldable pub xor_int : ℤ → ℤ → ℤ
xor_int a b = from_word (bit_xor (to_word a) (to_word b))

unfoldable pub minus_int : ℤ → Option ℤ
minus_int a = int32 (pos 0 -ℤ a)

unfoldable pub add_int : ℤ → ℤ → Option ℤ
add_int a b = int32 (a +ℤ b)

unfoldable pub sub_int : ℤ → ℤ → Option ℤ
sub_int a b = int32 (a -ℤ b)

unfoldable pub mul_int : ℤ → ℤ → Option ℤ
mul_int a b = int32 (a *ℤ b)

-- The quotient of the least integer by -1 overflows, and its remainder is undefined with it.
unfoldable pub div_int : ℤ → ℤ → Option ℤ
div_int a b = if eqb_ℤ b (pos 0) then none else int32 (a /ℤ b)

unfoldable pub mod_int : ℤ → ℤ → Option ℤ
mod_int a b =
    if eqb_ℤ b (pos 0)
    then none
    else if eqb_ℤ a (negsuc 2_147_483_647) && eqb_ℤ b (negsuc 0)
    then none
    else some (a %ℤ b)

-- x >> i, by the floor of the quotient
abbrev pub shift_down : ℤ → ℕ → ℤ
shift_down (pos n) i = pos (n / 2 ^ i)
shift_down (negsuc n) i = negsuc (n / 2 ^ i)

unfoldable pub shr_by : ℤ → ℕ → Option ℤ
shr_by a i = if ltb i 32 then some (shift_down a i) else none

unfoldable pub shr_int : ℤ → ℤ → Option ℤ
unfolding shr_by
shr_int a (pos i) = shr_by a i
shr_int a (negsuc i) = none

unfoldable pub shl_int : ℤ → ℤ → Option ℤ
shl_int a (pos i) = if ltb i 32 then some (from_word (to_word a * 2 ^ i % 4_294_967_296)) else none
shl_int a (negsuc i) = none

-- A power of an integer, with the sign of the base.
abbrev power_ℤ : ℤ → ℕ → ℤ
power_ℤ (pos n) k = pos (n ^ k)
power_ℤ (negsuc n) k = if k % 2 == 0 then pos (suc n ^ k) else pos 0 -ℤ pos (suc n ^ k)

-- The fraction 1 / base ^ k, truncated. At base 0 it is infinite.
inverse_power : ℤ → ℕ → Option ℤ
inverse_power (pos zero) k = none
inverse_power (pos (suc zero)) k = some (pos 1)
inverse_power (pos (suc (suc n))) k = some (pos 0)
inverse_power (negsuc zero) k = some (if k % 2 == 0 then pos 1 else negsuc 0)
inverse_power (negsuc (suc n)) k = some (pos 0)

-- `static_cast<int>(std::pow(a, b))`: a power that fits an `int` is exact in a double, and the
-- conversion of one that does not fit is undefined.
unfoldable pub pow_int : ℤ → ℤ → Option ℤ
unfolding inverse_power
pow_int a (pos k) = int32 (power_ℤ a k)
pow_int a (negsuc k) = inverse_power a (suc k)

-- `(x >> i) & 1`
unfoldable pub bit_at : ℤ → ℕ → Option Bool
bit_at a i = if ltb i 32 then some (to_word (shift_down a i) % 2 == 1) else none
