-- ===== src/Expr/Builder.antt =====
-- The state of an `ExprBuilder` and its access to nodes: src/ir/expr_builder.cpp.
pub mod Simple
pub mod Choice
pub mod Index
pub mod Unpacked
pub mod Names
use abys.Prelude.{
  ℕ, ◌%◌, Bool, Option, none, some, List, [], ◌∷◌, ◌++◌, Assoc, length, get_elem?, set, ltb,
  if◌then◌else◌,
}
use abys.Run.{Run, found, ◌>>=◌, pure}
use abys.Diagnostics.{Diagnostics}
use abys.Expr.Graph.{
  ExprGraph, ExprId, Node, SignalWidth, Op, blank, id_limit, constant_zero, constant_one, is_op,
  invalid_id,
}

-- The graph and the diagnostics are shared by reference, the map of names is the builder's own.
pub record Builder : Type 0 where
  pub graph : ExprGraph
  pub diagnostics : Diagnostics
  pub name_map : Assoc ExprId

-- A builder on a graph, and a builder that inherits the names of its parent.
unfoldable pub new_builder : ExprGraph → Diagnostics → Builder
new_builder graph diagnostics = record { graph = graph; diagnostics = diagnostics; name_map = [] }

unfoldable pub new_child : Builder → Builder
new_child parent = record {
  graph = parent.graph;
  diagnostics = parent.diagnostics;
  name_map = parent.name_map;
}

abbrev pub nodes : Builder → List Node
nodes b = b.graph.nodes

abbrev pub size : Builder → ℕ
size b = length b.graph.nodes

abbrev pub with_nodes : Builder → List Node → Builder
with_nodes b ns = record b { graph = record b.graph { nodes = ns } }

unfoldable pub create_node : Run Builder ExprId
create_node b = some (size b % id_limit, with_nodes b (nodes b ++ blank ∷ []))

unfoldable pub get_node : ExprId → Run Builder Node
get_node id b = found (get_elem? (nodes b) id) b

-- the assignments through the reference that `get_node` returns
unfoldable pub put_node : ExprId → Node → Run Builder (Unit {0})
put_node id node b =
    if ltb id (size b) then some (tt, with_nodes b (set (nodes b) id node)) else none

unfoldable pub get_width : ExprId → Run Builder SignalWidth
unfolding get_node
get_width id = do node ← get_node id; pure node.width

unfoldable pub get_sign : ExprId → Run Builder Bool
unfolding get_node
get_sign id = do node ← get_node id; pure node.sign

unfoldable pub get_constant_zero : ExprId
get_constant_zero = constant_zero

unfoldable pub get_constant_one : ExprId
get_constant_one = constant_one
