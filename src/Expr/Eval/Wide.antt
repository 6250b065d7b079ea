-- ===== src/Expr/Eval/Wide.antt =====
-- The reductions of src/ir/expr_builder.cpp shift an `int` by each index below the operand's width:
-- what an operand of more than 32 bits does.
use abys.Prelude.{
  ℕ, zero, suc, ◌+◌, ◌≤◌, ◌<◌, ◌≡◌, ◌≢◌, refl, ◌==◌, ltb, false, Bool, some, [], ◌∷◌, arith,
  Bool-cases, inl, inr, get_elem?,
}
use abys.Prelude.Int.{ℤ}
use abys.Expr.Graph.{ExprGraph, ExprId, Node, Op, invalid_id}
use abys.Expr.Eval.Word.{bit_at}
use abys.Expr.Eval.Answer.{known, fault}
use abys.Expr.Eval.Steps.{parity}
use abys.Expr.Eval.Try.{try_evaluate}

parity_wide :
    (rounds i : ℕ) (value : ℤ) (odd : Bool)
    → i ≤ 32
    → 32 < i + rounds
    → parity rounds i value odd ≡ fault
unfolding parity bit_at
parity_wide zero i value odd h k = absurd (omega arith)
parity_wide (suc rounds) i value odd h k = elim (Bool-cases (ltb i 32)) [
  | inl inside ↦
      rw (parity, inside) (parity_wide rounds (i + 1) value _ (ground arith) (omega arith))
  | inr outside ↦ rw (parity, outside) refl
]

-- Where `try_evaluate` yields a value for an operand of more than 32 bits, the xor-reduction of that
-- operand, with one call more, shifts an int of 32 bits by 32, which is undefined.
pub xor_reduce_wide :
    (graph : ExprGraph) (fuel : ℕ) (id a : ExprId) (node operand : Node) (value : ℤ)
    → id ≢ invalid_id
    → get_elem? graph.nodes id ≡ some node
    → node.op ≡ Op.xor_reduce
    → node.operands ≡ a ∷ []
    → get_elem? graph.nodes a ≡ some operand
    → 32 < operand.width
    → try_evaluate graph fuel a ≡ known value
    → try_evaluate graph (suc fuel) id ≡ fault
unfolding try_evaluate
xor_reduce_wide graph fuel id a node operand value valid there is_xor one a_there wide e =
    let v : (id == invalid_id) ≡ false = ground arith in
    rw (v, there, is_xor, one, a_there, e)
      (parity_wide operand.width 0 value false (omega arith) (omega arith))
