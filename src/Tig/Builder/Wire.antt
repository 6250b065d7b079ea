-- ===== src/Tig/Builder/Wire.antt =====
-- The inputs that are given by name, connected to the drivers of the names: src/ir/tig_builder.cpp.
use abys.Prelude.{
  ℕ, suc, ◌==◌, ◌%◌, String, not, ◌&&◌, Option, none, some, List, [], ◌∷◌, get_elem?, str_eq,
  lookup, if◌then◌else◌,
}
use abys.Run.{Run, pure, found, check, modify, ◌>>=◌, ◌>>◌}
use abys.Diagnostics.{DiagnosticId, warning, ◌<>◌}
use abys.Expr.Graph.{id_limit}
use abys.Tig.Graph.{NodeId, ModuleId, PortIndex, EdgeRef, Output, invalid_node}
use abys.Tig.Builder.{TigBuilder, get_module, get_signal_map}
use abys.Tig.Builder.Ports.{get_signal_spec, set_node_input, get_node_input}
use abys.Tig.Builder.Outputs.{eq_bool}

unfoldable pub report_unresolved : ModuleId → String → Run TigBuilder (Unit {0})
report_unresolved module_id name = do
  module' ← get_module module_id
  modify (λ s. record s {
    diagnostics =
        warning DiagnosticId.lowering_unresolved_signal_input
          (module'.name <> (module'.variant_suffix <> ("." <> name))) s.diagnostics;
  })

unfoldable pub connect :
    ModuleId → NodeId → PortIndex → Output → Option EdgeRef → Run TigBuilder (Unit {0})
connect module_id node_id i spec none = report_unresolved module_id spec.name
connect module_id node_id i spec (some driver) = do
  check (not (driver.node_id == invalid_node))
  found_spec ← get_signal_spec module_id driver
  check (spec.width == found_spec.width && eq_bool spec.sign found_spec.sign)
  set_node_input module_id node_id i driver

-- An input without a name was connected before; it is only read.
unfoldable pub wire_input : ModuleId → NodeId → PortIndex → Output → Run TigBuilder (Unit {0})
wire_input module_id node_id i spec = do
  signal_map ← get_signal_map module_id
  let read = do input ← get_node_input module_id node_id i; pure tt
  let named = connect module_id node_id i spec (lookup spec.name signal_map)
  if str_eq spec.name "" then read else named

-- the inputs of a node from `i` on
unfoldable pub wire_node : ModuleId → NodeId → List Output → ℕ → Run TigBuilder (Unit {0})
wire_node module_id node_id [] i = pure tt
wire_node module_id node_id (spec ∷ rest) i = do
  wire_input module_id (node_id % id_limit) (i % id_limit) spec
  wire_node module_id node_id rest (suc i)

-- the nodes from `node_id` on
unfoldable pub wire_nodes : ModuleId → List (List Output) → ℕ → Run TigBuilder (Unit {0})
wire_nodes module_id [] node_id = pure tt
wire_nodes module_id (specs ∷ rest) node_id = do
  wire_node module_id node_id specs 0
  wire_nodes module_id rest (suc node_id)

unfoldable pub wire_connections : ModuleId → Run TigBuilder (Unit {0})
wire_connections module_id = do
  module' ← get_module module_id
  nodes ← (λ s. found (get_elem? s.input_specs module_id) s)
  wire_nodes module_id nodes 0
