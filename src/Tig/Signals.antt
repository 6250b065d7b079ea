-- ===== src/Tig/Signals.antt =====
-- The signals of a module in src/ir/tig_builder.cpp: the output that drives each name, and what the map
-- of signals says of it.
pub mod Nodes
pub mod Steps
pub mod Names
pub mod Moved
pub mod Driven
pub mod Clocked
pub mod Clusters
pub mod Runs
pub mod Ran
pub mod Inserted
pub mod Wires
pub mod Wired
use abys.Prelude.{
  ℕ, ◌<◌, ◌≡◌, ◌≢◌, ◌||◌, String, Bool, true, false, Option, none, some, List, Assoc, All, length,
  get_elem?, lookup, if◌then◌else◌,
}
use abys.Expr.Graph.{SignalWidth}
use abys.Tig.Graph.{Node, NodeKind, Module, ModuleId, EdgeRef, Output, is_kind}
use abys.Tig.Builder.{TigBuilder}

abbrev pub port_of : Option Node → EdgeRef → Option Output
port_of none edge = none
port_of (some node) edge = get_elem? node.outputs edge.port_idx

-- the output at the source of an edge
unfoldable pub output_at : List Node → EdgeRef → Option Output
output_at nodes edge = port_of (get_elem? nodes edge.node_id) edge

abbrev pub shape_of : Option Output → Option (SignalWidth × Bool)
shape_of none = none
shape_of (some output) = some (output.width, output.sign)

abbrev pub shape_at : List Node → Option EdgeRef → Option (SignalWidth × Bool)
shape_at nodes none = none
shape_at nodes (some edge) = shape_of (output_at nodes edge)

-- What a module promises of its signals: the width and sign of each name that is driven.
unfoldable pub signal_shape : List Node → Assoc EdgeRef → String → Option (SignalWidth × Bool)
signal_shape nodes signal_map name = shape_at nodes (lookup name signal_map)

-- The map of signals has exactly the outputs with names.
pub record AreNamed (nodes : List Node) (signal_map : Assoc EdgeRef) : Type 0 where
  pub named :
      (name : String) (edge : EdgeRef)
      → lookup name signal_map ≡ some edge
      → (output : Output) × (output_at nodes edge ≡ some output) × (output.name ≡ name)
  pub mapped :
      (edge : EdgeRef) (output : Output)
      → output_at nodes edge ≡ some output
      → output.name ≢ ""
      → lookup output.name signal_map ≡ some edge

-- The state of a builder for one module.
pub record At (module_id : ModuleId) (m : Module) (signal_map : Assoc EdgeRef) (s : TigBuilder)
    : Type 0 where
  pub module' : get_elem? s.design.modules module_id ≡ some m
  pub signals : get_elem? s.signal_maps module_id ≡ some signal_map
  pub specs : module_id < length s.input_specs
  pub pending : module_id < length s.pending_ffs

-- The driver of a name, if it has one, is a node of such a kind.
abbrev pub HasKind : (NodeKind → Bool) → Module → Assoc EdgeRef → String → Type 0
HasKind is m signal_map name =
    (d : EdgeRef)
    → lookup name signal_map ≡ some d
    → (node : Node) × (get_elem? m.nodes d.node_id ≡ some node) × (is node.kind ≡ true)

abbrev pub is_sequential : NodeKind → Bool
is_sequential kind = is_kind kind NodeKind.ff || is_kind kind NodeKind.ff_merge
