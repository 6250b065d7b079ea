-- ===== src/Tests/Subroutines.antt =====
-- Calls of subroutines and `flatten_calls` in src/ir/tig_builder.cpp, on small designs.
use mathlib.Core.Option.{some-injective}
use abys.Prelude.{
  ◌+◌, ℕ, zero, suc, ◌≤◌, ◌<◌, ◌≡◌, refl, sym, true, false, none, some, List, [], ◌∷◌, arith,
  length, none-ne-some, get_elem?,
}
use mathlib.Core.Path.{subst}
use abys.Run.{Returns}
use abys.Expr.Graph.{ExprId, SubrId, Op, Node, Call, initial_graph, bit_node}
use abys.Tig.Graph.{
  Node as TigNode, NodeKind, Module, Subroutine, node_of_kind, new_module, default_naming,
}
use abys.Tig.Builder.{TigBuilder}
use abys.Tig.Builder.Inline.{find_call, find_unpacked}
use abys.Tig.Builder.Flatten.{flatten_calls}
use abys.Tig.Calls.{is_call, AreListed, CanBeCopied, IsCost, cost_from, nodes_cost}
use abys.Tig.Calls.Ends.{IsFlatModuleOf, Zipped, flatten_calls_ends}
use abys.Tig.Calls.Endless.{CallsItself, AtSelfCall, flatten_calls_endless}

abbrev node_of : Op → List ExprId → Node
node_of op operands = record { op = op; width = 1; sign = false; operands = operands }

-- a subroutine that negates its input
abbrev negation : Subroutine
negation = record {
  name = "negation";
  inputs = record { name = "a"; unpacked_dims = []; width = 1; sign = false } ∷ [];
  expr_graph = record initial_graph {
    nodes = bit_node ∷ bit_node ∷ node_of Op.input [] ∷ node_of Op.logical_not (2 ∷ []) ∷ [];
    inputs = ("a", 2) ∷ [];
  };
  expr_root = 3;
}

-- a subroutine that yields its own call
abbrev endless : Subroutine
endless = record {
  name = "endless";
  inputs = [];
  expr_graph = record initial_graph {
    nodes = bit_node ∷ bit_node ∷ node_of Op.call [] ∷ [];
    calls = record { id = 2; subr_id = 0; name = "endless" } ∷ [];
  };
  expr_root = 2;
}

-- a node whose graph calls the subroutine with such operands
abbrev caller : List ExprId → TigNode
caller operands = record (node_of_kind NodeKind.op) {
  expr_graph = record initial_graph {
    nodes = bit_node ∷ bit_node ∷ node_of Op.call operands ∷ [];
    calls = record { id = 2; subr_id = 0; name = "call" } ∷ [];
  };
}

abbrev module_of : TigNode → Module
module_of node = record (new_module "top" "") { nodes = node ∷ [] }

abbrev builder_of : Subroutine → TigNode → TigBuilder
builder_of subr node = record {
  design = record {
    top_module_name = "top";
    modules = module_of node ∷ [];
    subroutines = subr ∷ [];
  };
  diagnostics = record { output = none; entries = [] };
  naming = default_naming;
  temporary_name_count = 0;
  module_name_counts = [];
  signal_maps = [] ∷ [];
  pending_ffs = [] ∷ [];
  input_specs = [] ∷ [];
}

negation-CanBeCopied : CanBeCopied negation.expr_graph
unfolding find_unpacked
negation-CanBeCopied = record {
  constants = ((bit_node, refl, refl), ((bit_node, refl, refl), tt));
  nodes = (
    λ e. absurd (cc),
    tt,
    (λ e. absurd (cc), tt, (λ e. absurd (cc), tt, (λ e. absurd (cc), tt, tt))),
  );
}

only_subroutine :
    (P : Subroutine → Type 0) (only : Subroutine) (id : SubrId) (subr : Subroutine)
    → get_elem? (only ∷ []) id ≡ some subr
    → P only
    → P subr
only_subroutine P only zero subr e p = subst P (some-injective only subr e) p
only_subroutine P only (suc id) subr e p = absurd (none-ne-some subr e)

abbrev eight : SubrId → ℕ
eight id = 8

negation-IsCost : IsCost eight (negation ∷ [])
unfolding nodes_cost find_call
negation-IsCost id subr e =
    only_subroutine
      (λ subr.
        length subr.expr_graph.constants
          + nodes_cost eight subr.expr_graph.calls 0 subr.expr_graph.nodes
        ≤ 8)
      negation id subr e (omega arith)

constant : (node : Node) → bit_node ≡ node → is_call node ≡ true → ⊥
constant node e c = cc (subst (λ n. is_call n ≡ true) (sym e) c)

caller-AreListed : (operands : List ExprId) → AreListed 0 (caller operands).expr_graph
caller-AreListed operands = record { there = there; listed = listed }
  where
    there :
        (j : ℕ) (call : Call)
        → get_elem? (caller operands).expr_graph.calls j ≡ some call
        → call.id < 3
    there zero call e = subst (λ (c : Call). c.id < 3) (some-injective _ call e) (omega arith)
    there (suc j) call e = absurd (none-ne-some call e)

    listed :
        (id : ExprId) (node : Node)
        → get_elem? (caller operands).expr_graph.nodes id ≡ some node
        → is_call node ≡ true
        → (j : ℕ) × (call : Call) × (0 ≤ j)
          × (get_elem? (caller operands).expr_graph.calls j ≡ some call)
          × (call.id ≡ id)
    listed zero node e c = absurd (constant node (some-injective _ node e) c)
    listed (suc zero) node e c = absurd (constant node (some-injective _ node e) c)
    listed (suc (suc zero)) node e c =
        (0, record { id = 2; subr_id = 0; name = "call" }, omega arith, refl, refl)
    listed (suc (suc (suc id))) node e c = absurd (none-ne-some node e)

flatten_calls_ends_example :
    Returns
      (λ done t.
        (done ≡ true)
        × Zipped IsFlatModuleOf (module_of (caller (1 ∷ [])) ∷ []) t.design.modules
        × (t.design.subroutines ≡ negation ∷ []))
      (flatten_calls 9 (builder_of negation (caller (1 ∷ []))))
unfolding cost_from
flatten_calls_ends_example =
    flatten_calls_ends eight 9 (builder_of negation (caller (1 ∷ [])))
      (λ id subr e.
        only_subroutine (λ subr. CanBeCopied subr.expr_graph) negation id subr e
          negation-CanBeCopied)
      negation-IsCost (((caller-AreListed (1 ∷ []), omega arith, omega arith), tt), tt)

endless-CallsItself : CallsItself 0 endless
endless-CallsItself = record {
  node = node_of Op.call [];
  call = record { id = 2; subr_id = 0; name = "endless" };
  is_call' = refl;
  no_operands = refl;
  at = refl;
  self = refl;
  inputs = refl;
  graph = refl;
  root = refl;
}

caller-AtSelfCall : AtSelfCall 0 0 (caller []).expr_graph
caller-AtSelfCall = record {
  call = record { id = 2; subr_id = 0; name = "call" };
  node = node_of Op.call [];
  last = refl;
  listed = refl;
  self = refl;
  there = refl;
  no_operands = refl;
}

flatten_calls_endless_example :
    Returns (λ done t. done ≡ false) (flatten_calls 4_000_000_000 (builder_of endless (caller [])))
flatten_calls_endless_example =
    flatten_calls_endless 0 endless 4_000_000_000 (builder_of endless (caller []))
      (module_of (caller [])) [] (caller []) [] endless-CallsItself refl refl refl caller-AtSelfCall
      (omega arith)
