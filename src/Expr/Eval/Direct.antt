-- ===== src/Expr/Eval/Direct.antt =====
-- `evaluate` of src/ir/expr_builder.cpp, which asserts what `try_evaluate` asks.
use abys.Prelude.{ℕ, suc, zero, ◌==◌, not, false, none, some, if◌then◌else◌}
use abys.Prelude.Int.{ℤ}
use abys.Expr.Graph.{ExprGraph, ExprId, Node, Op, invalid_id}
use abys.Expr.Literal.{parse_binary_constant}
use abys.Expr.Eval.Word.{truth, is_true, not_int, minus_int}
use abys.Expr.Eval.Answer.{Answer, known, fault, out_of_fuel, defined, ◌>>=◌}
use abys.Expr.Eval.Steps.{
  constant_value, all_bits, any_bit, parity, ashr_int, bitwise, operate, at_operand, at_node,
}

-- a constant that is not in the table, or does not parse, fails an assertion
unfoldable pub direct_constant : ExprGraph → ExprId → Answer ℤ
direct_constant graph id = elim (constant_value id graph.constants) [
  | none ↦ fault
  | some value ↦ defined (parse_binary_constant value)
]

unfoldable pub direct_reduce :
    ExprGraph → (ExprId → Answer ℤ) → Node → (ℕ → ℤ → Answer ℤ) → Answer ℤ
direct_reduce graph recurse node loop =
    at_operand node 0 (λ id. at_node graph id (λ operand. recurse id >>= loop operand.width))

unfoldable pub direct_pair : (ExprId → Answer ℤ) → Node → (ℤ → ℤ → Answer ℤ) → Answer ℤ
direct_pair recurse node f =
    at_operand node 0 (λ a. at_operand node 1 (λ b. recurse a >>= λ v. recurse b >>= f v))

-- One call. A bitwise node is read as one of two operands.
unfoldable pub direct_step : ExprGraph → (ExprId → Answer ℤ) → ExprId → Node → Op → Answer ℤ
unfolding direct_constant direct_reduce direct_pair at_operand at_node
direct_step graph recurse id node Op.const = direct_constant graph id
direct_step graph recurse id node Op.logical_not =
    at_operand node 0 (λ a. recurse a >>= λ v. known (truth (not (is_true v))))
direct_step graph recurse id node Op.and_reduce =
    direct_reduce graph recurse node (λ width. all_bits width 0)
direct_step graph recurse id node Op.or_reduce =
    direct_reduce graph recurse node (λ width. any_bit width 0)
direct_step graph recurse id node Op.xor_reduce =
    direct_reduce graph recurse node (λ width v. parity width 0 v false)
direct_step graph recurse id node Op.bitwise_not =
    at_operand node 0 (λ a. recurse a >>= λ v. known (not_int v))
direct_step graph recurse id node Op.and =
    direct_pair recurse node (λ a b. known (bitwise Op.and a b))
direct_step graph recurse id node Op.or =
    direct_pair recurse node (λ a b. known (bitwise Op.or a b))
direct_step graph recurse id node Op.xor =
    direct_pair recurse node (λ a b. known (bitwise Op.xor a b))
direct_step graph recurse id node Op.unary_minus =
    at_operand node 0 (λ a. recurse a >>= λ v. defined (minus_int v))
direct_step graph recurse id node Op.add =
    direct_pair recurse node (λ a b. defined (operate Op.add a b))
direct_step graph recurse id node Op.sub =
    direct_pair recurse node (λ a b. defined (operate Op.sub a b))
direct_step graph recurse id node Op.mul =
    direct_pair recurse node (λ a b. defined (operate Op.mul a b))
direct_step graph recurse id node Op.div =
    direct_pair recurse node (λ a b. defined (operate Op.div a b))
direct_step graph recurse id node Op.mod_op =
    direct_pair recurse node (λ a b. defined (operate Op.mod_op a b))
direct_step graph recurse id node Op.pow =
    direct_pair recurse node (λ a b. defined (operate Op.pow a b))
direct_step graph recurse id node Op.shl =
    direct_pair recurse node (λ a b. defined (operate Op.shl a b))
direct_step graph recurse id node Op.shr =
    direct_pair recurse node (λ a b. defined (operate Op.shr a b))
direct_step graph recurse id node Op.eq =
    direct_pair recurse node (λ a b. defined (operate Op.eq a b))
direct_step graph recurse id node Op.lt =
    direct_pair recurse node (λ a b. defined (operate Op.lt a b))
direct_step graph recurse id node Op.le =
    direct_pair recurse node (λ a b. defined (operate Op.le a b))
direct_step graph recurse id node Op.ashr =
    direct_pair recurse node (λ a b. defined (ashr_int node.width a b))
direct_step graph recurse id node Op.mux =
    at_operand node 0 (λ c. recurse c >>= λ v. at_operand node (if is_true v then 1 else 2) recurse)
direct_step graph recurse id node Op.convert = at_operand node 0 recurse
direct_step graph recurse id node _ = fault

unfoldable pub evaluate : ExprGraph → ℕ → ExprId → Answer ℤ
unfolding direct_step at_node
evaluate graph zero id = out_of_fuel
evaluate graph (suc fuel) id =
    let step = at_node graph id (λ node. direct_step graph (evaluate graph fuel) id node node.op) in
    if id == invalid_id then fault else step
