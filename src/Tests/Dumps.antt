-- ===== src/Tests/Dumps.antt =====
-- The conditions of src/ir/tig_dumper.cpp under a reset, and the text of a module, on small designs.
use mathlib.Core.Option.{some-injective}
use text.Mathlib.TextEquality.{eq_iff}
use abys.Prelude.{
  ℕ, zero, suc, ◌==◌, ◌≡◌, refl, sym, ap, ◌∙◌, true, false, Bool, String, str_eq, none, some, inl,
  inr, [], ◌∷◌, Assoc, arith, get_elem?, lookup, none-ne-some, Bool-cases, if◌then◌else◌,
}
use abys.Diagnostics.{Diagnostics}
use abys.Expr.Graph.{ExprId, Node, Op, is_op, initial_graph, bit_node}
use abys.Expr.Builder.{Builder, create_node, put_node}
use abys.Expr.Building.{Operation, Builds, Allowed, perform}
use abys.Expr.Building.Sound.{Builds-IsValid}
use abys.Expr.Valid.{IsWellFormed}
use abys.Expr.Valid.Initial.{new_builder-IsValid}
use abys.Tig.Graph.{Module, new_module}
use abys.Tig.Dumper.{lookup_assumed_condition, emit_module_header}
use abys.Tig.Dumper.Conditions.{IsAssumed, IsWalk, Respects, Tells, bit}
use abys.Tig.Dumper.Assumed.{lookup_assumed_condition_lem}

abbrev no_entries : Diagnostics
no_entries = record { output = none; entries = [] }

abbrev empty : Builder
empty = record { graph = initial_graph; diagnostics = no_entries; name_map = [] }

abbrev rst_node : Node
rst_node = record { op = Op.input; width = 1; sign = false; operands = [] }

abbrev not_node : Node
not_node = record { op = Op.logical_not; width = 1; sign = false; operands = 2 ∷ [] }

abbrev reset : Builder
reset = record {
  graph = record initial_graph {
    nodes = bit_node ∷ bit_node ∷ rst_node ∷ [];
    inputs = ("rst", 2) ∷ [];
  };
  diagnostics = no_entries;
  name_map = ("rst", 2) ∷ [];
}

-- the graph of `!rst`
abbrev not_reset : Builder
not_reset = record reset {
  graph = record reset.graph { nodes = bit_node ∷ bit_node ∷ rst_node ∷ not_node ∷ [] };
}

reset_made : perform (Operation.input "rst" 1 false) empty ≡ some (2, reset)
unfolding perform create_node put_node abys.Expr.Builder.Names.find_or_create_input
reset_made = refl

not_made : perform (Operation.unary_reduce Op.logical_not 2) reset ≡ some (3, not_reset)
unfolding perform create_node put_node abys.Expr.Builder.Simple.create_unary_reduce
not_made = refl

not_reset-IsWellFormed : IsWellFormed not_reset.graph
unfolding Allowed abys.Expr.Builder.new_builder
not_reset-IsWellFormed =
    (Builds-IsValid not_reset empty (new_builder-IsValid no_entries) (
      Builds.make empty (Operation.input "rst" 1 false) 2 reset tt (omega arith) reset_made (
        Builds.make reset (Operation.unary_reduce Op.logical_not 2) 3 not_reset (refl, omega arith)
          (omega arith) not_made Builds.done))).well_formed

only_rst :
    (name : String) (id : ExprId)
    → lookup name not_reset.graph.inputs ≡ some id
    → (name ≡ "rst") × (id ≡ 2)
unfolding lookup
only_rst name id e = elim (Bool-cases (str_eq "rst" name)) [
  | inl same ↦ (ground (arith, eq_iff "rst" name), sym (some-injective 2 id (rw same at e)))
  | inr other ↦ absurd (none-ne-some id (rw other at e))
]

not_reset-IsWalk : IsWalk not_reset.graph.inputs (("rst", 2) ∷ [])
unfolding lookup
not_reset-IsWalk = record {
  sound = (refl, tt);
  complete = λ name id e. let (a, b) = only_rst name id e in (0, rw (a, b) refl);
  one_name = λ name name' id e e'. (only_rst name id e).0 ∙ sym (only_rst name' id e').0;
}

abbrev levels : ExprId → ℕ
levels id = if id == 1 then 1 else if id == 3 then 1 else 0

-- Under an active low reset `rst` is 0.
abbrev low : Assoc Bool
low = ("rst", false) ∷ []

low-Respects : Respects not_reset.graph low levels
unfolding lookup
low-Respects = record {
  inputs = λ name id b listed found.
      let (a, i) = only_rst name id listed in
      let value = some-injective false b (rw a at found) in rw i (ap bit value);
  logical_nots = nots;
  bitwise_nots = λ id o node there is operands. absurd (no_bitwise id node there is);
}
  where
    nots :
        (id o : ExprId) (node : Node)
        → get_elem? not_reset.graph.nodes id ≡ some node
        → is_op node.op Op.logical_not ≡ true
        → node.operands ≡ o ∷ []
        → levels id ≡ bit (levels o == 0)
    nots zero o node there is operands = cc
    nots (suc zero) o node there is operands = cc
    nots (suc (suc zero)) o node there is operands = cc
    nots (suc (suc (suc zero))) o node there is operands =
        let same = some-injective not_node node there in
        let first : 2 ≡ o = cc in rw (sym first) refl
    nots (suc (suc (suc (suc i)))) o node there is operands = absurd (none-ne-some node there)

    no_bitwise :
        (id : ExprId) (node : Node)
        → get_elem? not_reset.graph.nodes id ≡ some node
        → is_op node.op Op.bitwise_not ≡ true
        → ⊥
    no_bitwise zero node there is = cc
    no_bitwise (suc zero) node there is = cc
    no_bitwise (suc (suc zero)) node there is = cc
    no_bitwise (suc (suc (suc zero))) node there is = cc
    no_bitwise (suc (suc (suc (suc i)))) node there is = absurd (none-ne-some node there)

lookup_assumed_condition_lem_example :
    Tells
      (IsAssumed not_reset.graph low 3)
      1
      (lookup_assumed_condition (("rst", 2) ∷ []) not_reset.graph 5 3 (some low))
lookup_assumed_condition_lem_example =
    lookup_assumed_condition_lem not_reset.graph (("rst", 2) ∷ []) low levels 3
      not_reset-IsWellFormed not_reset-IsWalk low-Respects (inr (omega arith))

-- the header of a module with an input
abbrev adder : Module
adder = record (new_module "adder" "") {
  input_ports = record { name = "a"; unpacked_dims = 4 ∷ []; width = 8; sign = true } ∷ [];
  output_ports = record { name = "s"; unpacked_dims = []; width = 1; sign = false } ∷ [];
}

adder_header :
    emit_module_header adder ""
    ≡ some (tt, "module adder (\n  input signed [7:0] a [3:0],\n  output  logic s);\n\n")
unfolding emit_module_header
adder_header = refl
