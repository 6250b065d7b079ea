-- ===== src/Tests/Values.antt =====
-- Literals, the evaluators and the search of src/ir/expr_builder.cpp on small inputs.
use mathlib.Core.Path.{subst}
use mathlib.Core.Option.{some-injective}
use abys.Prelude.{
  ◌↔◌, zero, suc, ◌≡◌, ◌≢◌, ◌⊎◌, refl, true, false, none, some, inl, inr, [], ◌∷◌, arith,
  none-ne-some,
}
use abys.Prelude.Int.{pos, negsuc, ◌<ℤ◌}
use abys.Expr.Graph.{ExprGraph, Node, Op, SignalWidth, initial_graph, bit_node}
use abys.Expr.Literal.{literal, parse_binary_constant, minimum_unsigned_width}
use abys.Expr.Literal.Digits.{parse-literal}
use abys.Expr.Literal.Width.{IsLength, minimum_unsigned_width_minimal}
use abys.Expr.Builder.Names.{check_dependency}
use abys.Expr.Eval.Answer.{known, fault, out_of_fuel}
use abys.Expr.Eval.Word.{int32}
use abys.Expr.Eval.Try.{try_evaluate}
use abys.Expr.Eval.Direct.{evaluate}
use abys.Expr.Eval.Agree.{ArePaired, IsPaired, try_evaluate-Refines-evaluate}
use abys.Expr.Eval.Ends.{try_evaluate_terminates}
use abys.Expr.Eval.Wide.{xor_reduce_wide}
use abys.Expr.Builder.Index.{normalize_index}
use abys.Expr.Position.{index_at, normalize_index-index_at}
use abys.Prelude.Text.{text}
use abys.Expr.Dependency.{Depends, check_dependency_lem}
use abys.Expr.Valid.Initial.{initial-IsWellFormed}

parse-literal_example : parse_binary_constant (literal (negsuc 5) 8 true) ≡ int32 (negsuc 5)
parse-literal_example = parse-literal (negsuc 5) 8 true (omega arith)

minimum_unsigned_width_minimal_example :
    (minimum_unsigned_width (pos 5) ≡ none) × (pos 5 <ℤ pos 0)
    ⊎ ((w : SignalWidth) × (minimum_unsigned_width (pos 5) ≡ some w) × IsLength 5 w)
minimum_unsigned_width_minimal_example = minimum_unsigned_width_minimal (pos 5) (omega arith)

-- The conjunction of the two shared constants.
abbrev and_node : Node
and_node = record { op = Op.and; width = 1; sign = false; operands = 1 ∷ 0 ∷ [] }

abbrev conjunction : ExprGraph
conjunction = record initial_graph { nodes = bit_node ∷ bit_node ∷ and_node ∷ [] }

bit_node-IsPaired : IsPaired bit_node
bit_node-IsPaired (inl h) = absurd (cc)
bit_node-IsPaired (inr (inl h)) = absurd (cc)
bit_node-IsPaired (inr (inr h)) = absurd (cc)

conjunction-ArePaired : ArePaired conjunction
conjunction-ArePaired zero node e =
    subst IsPaired (some-injective bit_node node e) bit_node-IsPaired
conjunction-ArePaired (suc zero) node e =
    subst IsPaired (some-injective bit_node node e) bit_node-IsPaired
conjunction-ArePaired (suc (suc zero)) node e =
    subst IsPaired (some-injective and_node node e) (λ h. refl)
conjunction-ArePaired (suc (suc (suc i))) node e = absurd (none-ne-some node e)

conjunction_value : try_evaluate conjunction 3 2 ≡ known (pos 0)
unfolding try_evaluate abys.Expr.Eval.Steps.constant_value parse_binary_constant
    abys.Expr.Eval.Steps.bitwise abys.Expr.Eval.Word.and_int
conjunction_value = refl

try_evaluate-Refines-evaluate_example : evaluate conjunction 3 2 ≡ known (pos 0)
try_evaluate-Refines-evaluate_example =
    try_evaluate-Refines-evaluate conjunction conjunction-ArePaired 3 2 (pos 0) conjunction_value

try_evaluate_terminates_example : try_evaluate initial_graph 3 1 ≢ out_of_fuel
try_evaluate_terminates_example =
    try_evaluate_terminates initial_graph (initial-IsWellFormed.rank, initial-IsWellFormed.ranked) 1
      (omega arith)

check_dependency_lem_example :
    ((check_dependency initial_graph.nodes 1 0 ≡ some true) × Depends initial_graph.nodes 0 1)
    ⊎ ((check_dependency initial_graph.nodes 1 0 ≡ some false)
        × ¬ (Depends initial_graph.nodes 0 1))
check_dependency_lem_example =
    check_dependency_lem initial_graph 1 0 initial-IsWellFormed (inr (omega arith))

normalize_index-index_at_example :
    normalize_index (pos 5) (pos 3) (pos 7) ≡ some (pos 2) ↔ pos 5 ≡ index_at (pos 3) (pos 7) 2
normalize_index-index_at_example = normalize_index-index_at (pos 5) (pos 3) (pos 7) 2 (omega arith)

-- The parity of a zero of 64 bits.
abbrev wide_zero : Node
wide_zero = record { op = Op.const; width = 64; sign = false; operands = [] }

abbrev wide_parity : Node
wide_parity = record { op = Op.xor_reduce; width = 1; sign = false; operands = 2 ∷ [] }

abbrev wide : ExprGraph
wide = record initial_graph {
  nodes = bit_node ∷ bit_node ∷ wide_zero ∷ wide_parity ∷ [];
  constants = record { id = 2; value = text "64'b0" } ∷ [];
}

wide_value : try_evaluate wide 1 2 ≡ known (pos 0)
unfolding try_evaluate abys.Expr.Eval.Steps.constant_value parse_binary_constant
wide_value = refl

xor_reduce_wide_example : try_evaluate wide 2 3 ≡ fault
xor_reduce_wide_example =
    xor_reduce_wide wide 1 3 2 wide_parity wide_zero (pos 0) (omega arith) refl refl refl refl
      (omega arith) wide_value
