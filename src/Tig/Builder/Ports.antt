-- ===== src/Tig/Builder/Ports.antt =====
-- The ports, signals and nodes of a module, the flip-flops that it asks for, and the inputs and outputs
-- of a node: src/ir/tig_builder.cpp.
use abys.Prelude.{
  ltb, String, Bool, false, not, ◌||◌, Option, none, some, List, [], ◌∷◌, ◌++◌, length, get_elem?,
  set, str_eq, if◌then◌else◌,
}
use abys.Run.{Run, pure, found, check, modify, ◌>>=◌, ◌>>◌}
use abys.Expr.Graph.{ExprGraph, ExprId, SignalWidth}
use abys.Tig.Graph.{Node, NodeKind, NodeId, ModuleId, PortIndex, EdgeRef, Output, no_edge}
use abys.Tig.Builder.{
  TigBuilder, PendingFf, get_module, put_module, get_node, put_node, create_node, add_signal,
  add_input_spec, generate_temporary_name,
}

-- An unpacked port stands for its first dimension, which has no sign.
unfoldable pub interface_width : List SignalWidth → SignalWidth → SignalWidth
interface_width [] width = width
interface_width (dim ∷ dims) width = dim

unfoldable pub interface_sign : List SignalWidth → Bool → Bool
interface_sign [] sign = sign
interface_sign (dim ∷ dims) sign = false

abbrev pub push_input : Node → EdgeRef → Node
push_input node input = record node { inputs = node.inputs ++ input ∷ [] }

abbrev pub push_output : Node → Output → ExprId → Bool → Node
push_output node output expr_id comb = record node {
  outputs = node.outputs ++ output ∷ [];
  expr_roots = node.expr_roots ++ expr_id ∷ [];
  combs = node.combs ++ comb ∷ [];
}

unfoldable pub create_module_input :
    ModuleId → String → SignalWidth → Bool → List SignalWidth → Run TigBuilder NodeId
create_module_input module_id name width sign unpacked_dims = do
  module' ← get_module module_id
  put_module module_id (record module' {
    input_ports =
        module'.input_ports
        ++ record { name = name; unpacked_dims = unpacked_dims; width = width; sign = sign } ∷ [];
  })
  node_id ← create_node module_id NodeKind.pi
  node ← get_node module_id node_id
  put_node module_id node_id (record node {
    outputs =
        node.outputs
        ++ record {
          name = name;
          width = interface_width unpacked_dims width;
          sign = interface_sign unpacked_dims sign;
        }
          ∷ [];
  })
  add_signal module_id name (record { node_id = node_id; port_idx = 0 })
  pure node_id

unfoldable pub create_module_output :
    ModuleId
    → String
    → SignalWidth
    → Bool
    → String
    → NodeId
    → PortIndex
    → List SignalWidth
    → Run TigBuilder NodeId
create_module_output module_id name width sign input_name input_id port_idx unpacked_dims = do
  module' ← get_module module_id
  put_module module_id (record module' {
    output_ports =
        module'.output_ports
        ++ record { name = name; unpacked_dims = unpacked_dims; width = width; sign = sign } ∷ [];
  })
  node_id ← create_node module_id NodeKind.po
  let add_spec = add_input_spec module_id node_id (record {
    name = input_name;
    width = interface_width unpacked_dims width;
    sign = interface_sign unpacked_dims sign;
  })
  if str_eq input_name "" then pure tt else add_spec
  node ← get_node module_id node_id
  put_node module_id node_id (push_input node (record { node_id = input_id; port_idx = port_idx }))
  pure node_id

unfoldable pub create_signal :
    ModuleId → String → SignalWidth → Bool → List SignalWidth → Run TigBuilder (Unit {0})
create_signal module_id name width sign unpacked_dims = do
  module' ← get_module module_id
  put_module module_id (record module' {
    signals =
        module'.signals
        ++ record { name = name; unpacked_dims = unpacked_dims; width = width; sign = sign } ∷ [];
  })

unfoldable pub create_temporary_signal :
    ModuleId → SignalWidth → Bool → List SignalWidth → Run TigBuilder String
create_temporary_signal module_id width sign unpacked_dims = do
  name ← generate_temporary_name
  create_signal module_id name width sign unpacked_dims
  pure name

unfoldable pub create_instance : ModuleId → String → ModuleId → Run TigBuilder NodeId
create_instance module_id name instance_module_id = do
  node_id ← create_node module_id NodeKind.submodule
  node ← get_node module_id node_id
  put_node module_id node_id (record node { name = name; module_id = instance_module_id })
  pure node_id

unfoldable pub create_operation : ModuleId → Run TigBuilder NodeId
create_operation module_id = create_node module_id NodeKind.op

unfoldable pub create_merge : ModuleId → Run TigBuilder NodeId
create_merge module_id = create_node module_id NodeKind.merge

unfoldable pub create_ff_merge : ModuleId → Run TigBuilder NodeId
create_ff_merge module_id = create_node module_id NodeKind.ff_merge

unfoldable pub record_ff : ModuleId → PendingFf → Run TigBuilder (Unit {0})
record_ff module_id ff = do
  check (not (str_eq ff.clk_spec.name ""))
  pending ← (λ s. found (get_elem? s.pending_ffs module_id) s)
  modify (λ s. record s { pending_ffs = set s.pending_ffs module_id (pending ++ ff ∷ []) })

abbrev pub no_spec : Output
no_spec = record { name = ""; width = 0; sign = false }

unfoldable pub add_node_input : ModuleId → NodeId → NodeId → PortIndex → Run TigBuilder (Unit {0})
add_node_input module_id node_id input_id port_idx = do
  node ← get_node module_id node_id
  put_node module_id node_id (push_input node (record { node_id = input_id; port_idx = port_idx }))
  add_input_spec module_id node_id no_spec

unfoldable pub add_node_input_spec :
    ModuleId → NodeId → String → SignalWidth → Bool → Run TigBuilder (Unit {0})
add_node_input_spec module_id node_id name width sign = do
  node ← get_node module_id node_id
  put_node module_id node_id (push_input node no_edge)
  add_input_spec module_id node_id (record { name = name; width = width; sign = sign })

unfoldable pub any_named : List Output → Bool
any_named [] = false
any_named (spec ∷ rest) = not (str_eq spec.name "") || any_named rest

-- `input_specs_[module_id]`, and `none` out of range: the early return
abbrev pub specs_of : TigBuilder → ModuleId → NodeId → Option (List Output)
specs_of s module_id node_id = elim (get_elem? s.input_specs module_id) [
  | none ↦ none
  | some nodes ↦ get_elem? nodes node_id
]

abbrev pub put_specs : ModuleId → NodeId → List Output → TigBuilder → TigBuilder
put_specs module_id node_id specs s = elim (get_elem? s.input_specs module_id) [
  | none ↦ s
  | some nodes ↦ record s { input_specs = set s.input_specs module_id (set nodes node_id specs) }
]

unfoldable pub finalize_node_input : ModuleId → NodeId → TigBuilder → TigBuilder
finalize_node_input module_id node_id s = elim (specs_of s module_id node_id) [
  | none ↦ s
  | some specs ↦ if any_named specs then s else put_specs module_id node_id [] s
]

unfoldable pub set_node_input : ModuleId → NodeId → PortIndex → EdgeRef → Run TigBuilder (Unit {0})
set_node_input module_id node_id port_idx input = do
  node ← get_node module_id node_id
  check (ltb port_idx (length node.inputs))
  put_node module_id node_id (record node { inputs = set node.inputs port_idx input })

unfoldable pub get_node_input : ModuleId → NodeId → PortIndex → Run TigBuilder EdgeRef
get_node_input module_id node_id port_idx = do
  node ← get_node module_id node_id
  found (get_elem? node.inputs port_idx)

unfoldable pub get_signal_spec : ModuleId → EdgeRef → Run TigBuilder Output
get_signal_spec module_id signal = do
  node ← get_node module_id signal.node_id
  found (get_elem? node.outputs signal.port_idx)

unfoldable pub get_expr_graph : ModuleId → NodeId → Run TigBuilder ExprGraph
get_expr_graph module_id node_id = do node ← get_node module_id node_id; pure node.expr_graph
