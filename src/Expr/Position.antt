-- ===== src/Expr/Position.antt =====
-- The positions of the indices of a declared range in src/ir/expr_builder.cpp.
use mathlib.Core.Option.{some-injective}
use abys.Prelude.{
  ℕ, ◌^◌, ◌<◌, ◌≡◌, ◌↔◌, ◌∙◌, sym, ap, true, ◌&&◌, some, inl, inr, arith, if◌then◌else◌, Bool-cases,
  none-ne-some,
}
use abys.Prelude.Int.{
  ℤ, pos, negsuc, pos_part, neg_part, ◌+ℤ◌, ◌-ℤ◌, leb_ℤ, eqb_ℤ, +ℤ_parts, -ℤ_parts, eq_of_parts,
}
use abys.Expr.Builder.Index.{int64, normalize_index}

-- The index at a distance from the lower bound, on the side of the upper one.
abbrev pub index_at : ℤ → ℤ → ℕ → ℤ
index_at msb lsb n = if leb_ℤ lsb msb then lsb +ℤ pos n else lsb -ℤ pos n

add_back : (z : ℤ) (n : ℕ) → (z +ℤ pos n) -ℤ z ≡ pos n
add_back z n = eq_of_parts _ _ (omega (arith, +ℤ_parts z (pos n), -ℤ_parts (z +ℤ pos n) z))

sub_back : (z : ℤ) (n : ℕ) → z -ℤ (z -ℤ pos n) ≡ pos n
sub_back z n = eq_of_parts _ _ (omega (arith, -ℤ_parts z (pos n), -ℤ_parts z (z -ℤ pos n)))

add_unique : (z i : ℤ) (n : ℕ) → i -ℤ z ≡ pos n → i ≡ z +ℤ pos n
add_unique z i n e =
    let p : pos_part (i -ℤ z) ≡ n = ap pos_part e in
    let q : neg_part (i -ℤ z) ≡ 0 = ap neg_part e in
    eq_of_parts _ _ (omega (arith, +ℤ_parts z (pos n), -ℤ_parts i z))

sub_unique : (z i : ℤ) (n : ℕ) → z -ℤ i ≡ pos n → i ≡ z -ℤ pos n
sub_unique z i n e =
    let p : pos_part (z -ℤ i) ≡ n = ap pos_part e in
    let q : neg_part (z -ℤ i) ≡ 0 = ap neg_part e in
    eq_of_parts _ _ (omega (arith, -ℤ_parts z (pos n), -ℤ_parts z i))

int64-pos : (n : ℕ) → n < 2 ^ 63 → int64 (pos n) ≡ some (pos n)
int64-pos n h = ground arith

int64-some : (z w : ℤ) → int64 z ≡ some w → z ≡ w
int64-some z w h =
    elim (Bool-cases
      (leb_ℤ (negsuc 9_223_372_036_854_775_807) z && leb_ℤ z (pos 9_223_372_036_854_775_807))) [
        | inl fits ↦ some-injective z w (rw fits at h)
        | inr big ↦ absurd (none-ne-some w (rw big at h))
      ]

zero_add : (z : ℤ) (n : ℕ) → eqb_ℤ z (pos 0) ≡ true → z +ℤ pos n ≡ pos n
zero_add z n h =
    let same : pos_part z ≡ neg_part z = ground arith in
    eq_of_parts _ _ (omega (arith, +ℤ_parts z (pos n)))

from_lower :
    (index lsb : ℤ) (n : ℕ)
    → n < 2 ^ 63
    → int64 (lsb -ℤ index) ≡ some (pos n) ↔ index ≡ lsb -ℤ pos n
from_lower index lsb n h = (
  λ e. sub_unique lsb index n (int64-some (lsb -ℤ index) (pos n) e),
  λ e. rw (e, sub_back lsb n) (int64-pos n h),
)

-- An index of a declared range has a position n below 2 ^ 63 exactly where it lies at the distance n
-- from the lower bound, on the side of the upper bound; the bounds may be in either order and of any
-- sign.
pub normalize_index-index_at :
    (index msb lsb : ℤ) (n : ℕ)
    → n < 2 ^ 63
    → normalize_index index msb lsb ≡ some (pos n) ↔ index ≡ index_at msb lsb n
unfolding normalize_index
normalize_index-index_at index msb lsb n h = elim (Bool-cases (leb_ℤ lsb msb)) [
  | inl up ↦ rw up (elim (Bool-cases (eqb_ℤ lsb (pos 0))) [
    | inl from_zero ↦ rw from_zero (
      λ e. some-injective index (pos n) e ∙ sym (zero_add lsb n from_zero),
      λ e. ap some (e ∙ zero_add lsb n from_zero),
    )
    | inr shifted ↦ rw shifted (
      λ e. add_unique lsb index n (int64-some (index -ℤ lsb) (pos n) e),
      λ e. rw (e, add_back lsb n) (int64-pos n h),
    )
  ])
  | inr down ↦ rw down (elim (Bool-cases (eqb_ℤ lsb (pos 0))) [
    | inl zero_bound ↦ rw zero_bound (from_lower index lsb n h)
    | inr other_bound ↦ rw other_bound (from_lower index lsb n h)
  ])
]
