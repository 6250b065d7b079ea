-- ===== src/Expr/Eval/Try.antt =====
-- `try_evaluate` of src/ir/expr_builder.cpp.
use abys.Prelude.{ℕ, suc, zero, ◌==◌, Option, none, some, List, [], ◌∷◌, if◌then◌else◌}
use abys.Prelude.Int.{ℤ, pos, eqb_ℤ}
use abys.Expr.Graph.{ExprGraph, ExprId, Node, Op, invalid_id}
use abys.Expr.Literal.{parse_binary_constant}
use abys.Expr.Eval.Word.{truth, is_true, not_int, minus_int}
use abys.Prelude.{not, false}
use abys.Expr.Eval.Answer.{Answer, known, unknown, fault, out_of_fuel, defined, ◌>>=◌, both}
use abys.Expr.Eval.Steps.{
  constant_value, all_bits, any_bit, parity, ashr_int, bitwise, operate, at_operand, at_node,
}

-- an optional that the code returns as it is
abbrev pub optional : {A : Type 0} → Option A → Answer A
optional none = unknown
optional (some a) = known a

unfoldable pub try_constant : ExprGraph → ExprId → Answer ℤ
try_constant graph id = elim (constant_value id graph.constants) [
  | none ↦ unknown
  | some value ↦ optional (parse_binary_constant value)
]

-- The reductions read the width of the operand's node.
unfoldable pub try_reduce : ExprGraph → (ExprId → Answer ℤ) → Node → (ℕ → ℤ → Answer ℤ) → Answer ℤ
try_reduce graph recurse node loop =
    at_operand node 0 (λ id. at_node graph id (λ operand. recurse id >>= loop operand.width))

-- the loop over the operands from the second on
unfoldable pub try_fold : Op → (ExprId → Answer ℤ) → List ExprId → ℤ → Answer ℤ
try_fold op recurse [] value = known value
try_fold op recurse (operand ∷ rest) value =
    recurse operand >>= λ b. try_fold op recurse rest (bitwise op value b)

unfoldable pub try_bitwise : Op → (ExprId → Answer ℤ) → List ExprId → Answer ℤ
try_bitwise op recurse [] = unknown
try_bitwise op recurse (operand ∷ rest) = recurse operand >>= try_fold op recurse rest

-- a zero divisor is the empty optional
unfoldable pub try_divide : Op → ℤ → ℤ → Answer ℤ
try_divide op a b = if eqb_ℤ b (pos 0) then unknown else defined (operate op a b)

unfoldable pub try_pair : (ExprId → Answer ℤ) → Node → (ℤ → ℤ → Answer ℤ) → Answer ℤ
try_pair recurse node f =
    at_operand node 0 (λ a. at_operand node 1 (λ b. both (recurse a) (recurse b) f))

-- one call, with `recurse` for the calls on operands
unfoldable pub try_step : ExprGraph → (ExprId → Answer ℤ) → ExprId → Node → Op → Answer ℤ
unfolding try_constant try_reduce try_fold try_bitwise try_divide try_pair at_operand at_node
try_step graph recurse id node Op.unknown = unknown
try_step graph recurse id node Op.input = unknown
try_step graph recurse id node Op.const = try_constant graph id
try_step graph recurse id node Op.logical_not =
    at_operand node 0 (λ a. recurse a >>= λ v. known (truth (not (is_true v))))
try_step graph recurse id node Op.and_reduce =
    try_reduce graph recurse node (λ width. all_bits width 0)
try_step graph recurse id node Op.or_reduce =
    try_reduce graph recurse node (λ width. any_bit width 0)
try_step graph recurse id node Op.xor_reduce =
    try_reduce graph recurse node (λ width v. parity width 0 v false)
try_step graph recurse id node Op.bitwise_not =
    at_operand node 0 (λ a. recurse a >>= λ v. known (not_int v))
try_step graph recurse id node Op.and = try_bitwise Op.and recurse node.operands
try_step graph recurse id node Op.or = try_bitwise Op.or recurse node.operands
try_step graph recurse id node Op.xor = try_bitwise Op.xor recurse node.operands
try_step graph recurse id node Op.unary_minus =
    at_operand node 0 (λ a. recurse a >>= λ v. defined (minus_int v))
try_step graph recurse id node Op.add = try_pair recurse node (λ a b. defined (operate Op.add a b))
try_step graph recurse id node Op.sub = try_pair recurse node (λ a b. defined (operate Op.sub a b))
try_step graph recurse id node Op.mul = try_pair recurse node (λ a b. defined (operate Op.mul a b))
try_step graph recurse id node Op.div = try_pair recurse node (try_divide Op.div)
try_step graph recurse id node Op.mod_op = try_pair recurse node (try_divide Op.mod_op)
try_step graph recurse id node Op.pow = try_pair recurse node (λ a b. defined (operate Op.pow a b))
try_step graph recurse id node Op.shl = try_pair recurse node (λ a b. defined (operate Op.shl a b))
try_step graph recurse id node Op.shr = try_pair recurse node (λ a b. defined (operate Op.shr a b))
try_step graph recurse id node Op.eq = try_pair recurse node (λ a b. defined (operate Op.eq a b))
try_step graph recurse id node Op.lt = try_pair recurse node (λ a b. defined (operate Op.lt a b))
try_step graph recurse id node Op.le = try_pair recurse node (λ a b. defined (operate Op.le a b))
try_step graph recurse id node Op.ashr =
    try_pair recurse node (λ a b. defined (ashr_int node.width a b))
try_step graph recurse id node Op.mux =
    at_operand node 0 (λ c. recurse c >>= λ v. at_operand node (if is_true v then 1 else 2) recurse)
try_step graph recurse id node Op.convert = at_operand node 0 recurse
try_step graph recurse id node _ = unknown

-- An invalid identifier fails the assertion. The fuel bounds the depth of the calls.
unfoldable pub try_evaluate : ExprGraph → ℕ → ExprId → Answer ℤ
unfolding try_step at_node
try_evaluate graph zero id = out_of_fuel
try_evaluate graph (suc fuel) id =
    let step =
      at_node graph id (λ node. try_step graph (try_evaluate graph fuel) id node node.op) in
    if id == invalid_id then fault else step
