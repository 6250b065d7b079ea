-- ===== src/Expr/Valid/Initial.antt =====
-- The graph and the builder that every construction of src/ir/expr_builder.cpp starts from.
use mathlib.Core.Option.{some-injective}
use abys.Prelude.{zero, suc, ◌<◌, ◌≡◌, refl, sym, some, arith, get_elem?, none-ne-some, lookup}
use abys.Prelude.Text.{Text, text}
use abys.Diagnostics.{Diagnostics}
use abys.Expr.Graph.{ExprId, Node, bit_node, initial_graph}
use abys.Expr.Builder.{new_builder}
use abys.Expr.Eval.Steps.{constant_value}
use abys.Expr.Valid.{IsWellFormed, IsValid}

only_bits :
    (i : ExprId) (node : Node)
    → get_elem? initial_graph.nodes i ≡ some node
    → (i < 2) × (node ≡ bit_node)
only_bits zero node e = (omega arith, sym (some-injective bit_node node e))
only_bits (suc zero) node e = (omega arith, sym (some-injective bit_node node e))
only_bits (suc (suc i)) node e = absurd (none-ne-some node e)

bit_value : (i : ExprId) → i < 2 → (v : Text) × (constant_value i initial_graph.constants ≡ some v)
unfolding constant_value
bit_value zero h = (text "1'b0", refl)
bit_value (suc zero) h = (text "1'b1", refl)
bit_value (suc (suc i)) h = absurd (omega arith)

pub initial-IsWellFormed : IsWellFormed initial_graph
unfolding lookup
initial-IsWellFormed = record {
  rank = λ i. 0;
  ranked = record {
    falls = λ i node e. rw ((only_bits i node e).1) tt;
    below = λ i h. omega arith;
  };
  shared = omega arith;
  fits = omega arith;
  inputs = λ name id h. absurd (none-ne-some id h);
  constants = λ i (node, e, is_const). bit_value i (only_bits i node e).0;
  sequences = λ i (node, e, is_sequence). absurd (cc ((only_bits i node e).1));
}

pub new_builder-IsValid : (d : Diagnostics) → IsValid (new_builder initial_graph d)
unfolding new_builder lookup
new_builder-IsValid d = record {
  well_formed = initial-IsWellFormed;
  names = λ name id h. absurd (none-ne-some id h);
}
