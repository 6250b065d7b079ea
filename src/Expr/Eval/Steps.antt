-- ===== src/Expr/Eval/Steps.antt =====
-- The loops and operators that `try_evaluate` and `evaluate` share: src/ir/expr_builder.cpp.
use abys.Prelude.{
  ℕ, suc, zero, ◌+◌, ◌-◌, ◌==◌, ltb, Bool, Option, none, some, List, [], ◌∷◌, get_elem?,
  if◌then◌else◌,
}
use mathlib.Core.Bool.{xor}
use abys.Prelude.Int.{ℤ, pos, negsuc, ltb_ℤ, leb_ℤ, eqb_ℤ}
use abys.Prelude.Text.{Text}
use abys.Expr.Graph.{ExprGraph, ExprId, Node, Constant, Op, SignalWidth}
use abys.Expr.Eval.Word.{
  bit_at, truth, shr_by, or_int, and_int, xor_int, add_int, sub_int, mul_int, div_int, mod_int,
  pow_int, shl_int, shr_int, from_word,
}
use abys.Expr.Eval.Answer.{Answer, known, fault, read}

-- the value of the first entry for a node
unfoldable pub constant_value : ExprId → List Constant → Option Text
constant_value id [] = none
constant_value id (entry ∷ rest) =
    if entry.id == id then some entry.value else constant_value id rest

-- The loops over the bits of the operand, from bit `i` on, with the rounds that are left.
unfoldable pub all_bits : ℕ → ℕ → ℤ → Answer ℤ
all_bits zero i value = known (pos 1)
all_bits (suc rounds) i value =
    let more = all_bits rounds (i + 1) value in
    elim (bit_at value i) [ none ↦ fault | some bit ↦ if bit then more else known (pos 0) ]

unfoldable pub any_bit : ℕ → ℕ → ℤ → Answer ℤ
any_bit zero i value = known (pos 0)
any_bit (suc rounds) i value =
    let more = any_bit rounds (i + 1) value in
    elim (bit_at value i) [ none ↦ fault | some bit ↦ if bit then known (pos 1) else more ]

unfoldable pub parity : ℕ → ℕ → ℤ → Bool → Answer ℤ
parity zero i value odd = known (truth odd)
parity (suc rounds) i value odd = elim (bit_at value i) [
  | none ↦ fault
  | some bit ↦ parity rounds (i + 1) value (xor odd bit)
]

-- `for (i = 0; i < shamt; ++i) value = (value >> 1) | mask;`
unfoldable pub ashr_loop : ℕ → ℤ → ℤ → ℤ
ashr_loop zero mask value = value
ashr_loop (suc rounds) mask value =
    ashr_loop rounds mask (or_int (abys.Expr.Eval.Word.shift_down value 1) mask)

-- `1 << (width - 1)`, which a width from 1 to 32 defines
sign_mask : SignalWidth → Option ℤ
sign_mask width = if ltb 0 width then shl_int (pos 1) (pos (width - 1)) else none

-- the rounds of a loop up to an `int`
abbrev rounds_of : ℤ → ℕ
rounds_of (pos n) = n
rounds_of (negsuc n) = 0

unfoldable pub ashr_int : SignalWidth → ℤ → ℤ → Option ℤ
unfolding ashr_loop sign_mask
ashr_int width value shamt = elim (sign_mask width) [
  | none ↦ none
  | some bit ↦ some (ashr_loop (rounds_of shamt) (and_int value bit) value)
]

-- the bitwise operator of a node
unfoldable pub bitwise : Op → ℤ → ℤ → ℤ
bitwise Op.and a b = and_int a b
bitwise Op.or a b = or_int a b
bitwise _ a b = xor_int a b

-- The binary operators but for `/` and `%`, whose zero divisors differ.
unfoldable pub operate : Op → ℤ → ℤ → Option ℤ
operate Op.add a b = add_int a b
operate Op.sub a b = sub_int a b
operate Op.mul a b = mul_int a b
operate Op.div a b = div_int a b
operate Op.mod_op a b = mod_int a b
operate Op.pow a b = pow_int a b
operate Op.shl a b = shl_int a b
operate Op.shr a b = shr_int a b
operate Op.eq a b = some (truth (eqb_ℤ a b))
operate Op.lt a b = some (truth (ltb_ℤ a b))
operate Op.le a b = some (truth (leb_ℤ a b))
operate _ a b = none

-- An operand that is not there, or a node that is not in the graph, is read out of bounds.
unfoldable pub at_operand : {B : Type 0} → Node → ℕ → (ExprId → Answer B) → Answer B
at_operand node k = read (get_elem? node.operands k)

unfoldable pub at_node : {B : Type 0} → ExprGraph → ExprId → (Node → Answer B) → Answer B
at_node graph id = read (get_elem? graph.nodes id)
