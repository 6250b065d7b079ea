-- ===== src/Tig/Builder/Outputs.antt =====
-- The outputs of nodes: the first driver of a name gets it, a further one is merged:
-- src/ir/tig_builder.cpp.
use abys.Prelude.{
  ◌%◌, ◌==◌, String, Bool, true, false, not, ◌&&◌, Option, none, some, length, get_elem?, set,
  str_eq, lookup, insert, if◌then◌else◌,
}
use abys.Run.{Run, pure, found, check, ◌>>=◌, ◌>>◌}
use abys.Expr.Graph.{ExprId, SignalWidth, id_limit, invalid_id}
use abys.Tig.Graph.{NodeKind, NodeId, ModuleId, PortIndex, EdgeRef, is_kind, invalid_node}
use abys.Tig.Builder.{TigBuilder, get_signal_map, put_signal_map, get_node, put_node, add_signal}
use abys.Tig.Builder.Ports.{
  push_output, create_merge, add_node_input, get_signal_spec, get_expr_graph,
}

abbrev pub eq_bool : Bool → Bool → Bool
eq_bool true b = b
eq_bool false b = not b

-- `outputs[port].name.clear()`
unfoldable pub clear_name : ModuleId → EdgeRef → Run TigBuilder (Unit {0})
clear_name module_id signal = do
  node ← get_node module_id signal.node_id
  output ← found (get_elem? node.outputs signal.port_idx)
  put_node module_id signal.node_id
      (record node { outputs = set node.outputs signal.port_idx (record output { name = "" }) })

-- `it->second = signal`
unfoldable pub move_signal : ModuleId → String → EdgeRef → Run TigBuilder (Unit {0})
move_signal module_id name signal = do
  signal_map ← get_signal_map module_id
  put_signal_map module_id (insert name signal signal_map)

-- a new node between a driver and the name that it had
unfoldable pub insert_merge :
    ModuleId → String → SignalWidth → Bool → EdgeRef → Run TigBuilder EdgeRef
insert_merge module_id name width sign driver = do
  merge_id ← create_merge module_id
  merge_node ← get_node module_id merge_id
  put_node module_id merge_id
      (push_output merge_node (record { name = name; width = width; sign = sign }) invalid_id false)
  add_node_input module_id merge_id driver.node_id driver.port_idx
  move_signal module_id name (record { node_id = merge_id; port_idx = 0 })
  pure (record { node_id = merge_id; port_idx = 0 })

-- the merge node that a name has, or gets
unfoldable pub merge_of : ModuleId → String → SignalWidth → Bool → EdgeRef → Run TigBuilder EdgeRef
merge_of module_id name width sign driver = do
  current_node ← get_node module_id driver.node_id
  let clear = clear_name module_id driver
  let new_merge = do
    if is_kind current_node.kind NodeKind.op then clear else pure tt
    insert_merge module_id name width sign driver
  if is_kind current_node.kind NodeKind.merge then pure driver else new_merge

-- The name that the new output keeps.
unfoldable pub name_output :
    ModuleId
    → NodeId
    → PortIndex
    → String
    → SignalWidth
    → Bool
    → Option EdgeRef
    → Run TigBuilder String
name_output module_id node_id port_idx name width sign none = do
  add_signal module_id name (record { node_id = node_id; port_idx = port_idx })
  pure name
name_output module_id node_id port_idx name width sign (some driver) = do
  spec ← get_signal_spec module_id driver
  check (spec.width == width && eq_bool spec.sign sign)
  check (not (driver.node_id == invalid_node))
  merge ← merge_of module_id name width sign driver
  add_node_input module_id merge.node_id node_id port_idx
  pure ""

unfoldable pub add_node_output :
    ModuleId → NodeId → String → SignalWidth → Bool → ExprId → Bool → Run TigBuilder PortIndex
add_node_output module_id node_id name width sign expr_id comb = do
  before ← get_node module_id node_id
  let port_idx = length before.outputs % id_limit
  signal_map ← get_signal_map module_id
  let named = name_output module_id node_id port_idx name width sign (lookup name signal_map)
  final_name ← if str_eq name "" then pure "" else named
  node ← get_node module_id node_id
  put_node module_id node_id
      (push_output node (record { name = final_name; width = width; sign = sign }) expr_id comb)
  pure port_idx

unfoldable pub add_node_output_expr :
    ModuleId → NodeId → String → ExprId → Bool → Run TigBuilder PortIndex
add_node_output_expr module_id node_id name expr_id comb = do
  graph ← get_expr_graph module_id node_id
  expr_node ← found (get_elem? graph.nodes expr_id)
  add_node_output module_id node_id name expr_node.width expr_node.sign expr_id comb
