-- ===== src/Tig/Builder/Ffs.antt =====
-- The insertion of flip-flops behind the drivers of signals: src/ir/tig_builder.cpp.
use abys.Prelude.{
  ℕ, ◌==◌, String, Bool, true, false, not, ◌&&◌, ◌||◌, Option, none, some, List, [], ◌∷◌, ◌++◌,
  get_elem?, set, str_eq, lookup, if◌then◌else◌,
}
use abys.Run.{Run, pure, found, check, modify, for_each, ◌>>=◌, ◌>>◌}
use abys.Diagnostics.{DiagnosticId, error, ◌<>◌}
use abys.Expr.Graph.{EdgeKind, SignalWidth, invalid_id}
use abys.Tig.Graph.{NodeKind, NodeId, ModuleId, EdgeRef, Output, is_kind}
use abys.Tig.Builder.{TigBuilder, PendingFf, get_signal_map, get_node, put_node, create_node}
use abys.Tig.Builder.Ports.{
  push_output, create_merge, create_ff_merge, add_node_input, add_node_input_spec, get_signal_spec,
}
use abys.Tig.Builder.Outputs.{eq_bool, clear_name, move_signal}

abbrev pub edge_code : EdgeKind → ℕ
edge_code EdgeKind.none = 0
edge_code EdgeKind.posedge = 1
edge_code EdgeKind.negedge = 2
edge_code EdgeKind.both_edges = 3

unfoldable pub same_signal : Output → EdgeKind → Output → EdgeKind → Bool
same_signal a a_edge b b_edge =
    str_eq a.name b.name
    && (a.width == b.width && (eq_bool a.sign b.sign && edge_code a_edge == edge_code b_edge))

abbrev pub has_rst : PendingFf → Bool
has_rst ff = not (str_eq ff.rst_spec.name "")

unfoldable pub same_ff_props : PendingFf → PendingFf → Bool
same_ff_props a b =
    same_signal a.clk_spec a.clk_edge b.clk_spec b.clk_edge
    && (eq_bool (has_rst a) (has_rst b)
        && (not (has_rst a) || same_signal a.rst_spec a.rst_edge b.rst_spec b.rst_edge))

-- the outputs of a node that is made here
unfoldable pub push_plain_output :
    ModuleId → NodeId → String → SignalWidth → Bool → Run TigBuilder (Unit {0})
push_plain_output module_id node_id name width sign = do
  node ← get_node module_id node_id
  put_node module_id node_id
      (push_output node (record { name = name; width = width; sign = sign }) invalid_id false)

unfoldable pub add_reset : ModuleId → NodeId → PendingFf → Run TigBuilder (Unit {0})
add_reset module_id ff_id ff = do
  add_node_input_spec module_id ff_id ff.rst_spec.name ff.rst_spec.width ff.rst_spec.sign
  node ← get_node module_id ff_id
  put_node module_id ff_id (record node { rst_edge = ff.rst_edge })

unfoldable pub create_ff : ModuleId → PendingFf → EdgeRef → Output → Bool → Run TigBuilder EdgeRef
create_ff module_id ff signal spec named = do
  ff_id ← create_node module_id NodeKind.ff
  add_node_input module_id ff_id signal.node_id signal.port_idx
  add_node_input_spec module_id ff_id ff.clk_spec.name ff.clk_spec.width ff.clk_spec.sign
  node ← get_node module_id ff_id
  put_node module_id ff_id (record node { clk_edge = ff.clk_edge })
  let reset = add_reset module_id ff_id ff
  if has_rst ff then reset else pure tt
  push_plain_output module_id ff_id (if named then ff.name else "") spec.width spec.sign
  pure (record { node_id = ff_id; port_idx = 0 })

-- A list that is not empty: its first item and the others.
abbrev pub Items : Type 0
Items = PendingFf × List PendingFf

-- the runs of one name
unfoldable pub join_run : PendingFf → List Items → List Items
join_run ff [] = (ff, []) ∷ []
join_run ff ((next, others) ∷ runs) =
    if str_eq next.name ff.name
    then (ff, next ∷ others) ∷ runs
    else (ff, []) ∷ (next, others) ∷ runs

unfoldable pub runs_of : List PendingFf → List Items
runs_of [] = []
runs_of (ff ∷ rest) = join_run ff (runs_of rest)

-- The first cluster with the same properties gets the flip-flop, or a new one at the end.
unfoldable pub add_to_clusters : PendingFf → List Items → List Items
add_to_clusters ff [] = (ff, []) ∷ []
add_to_clusters ff ((front, others) ∷ rest) =
    let later = (front, others) ∷ add_to_clusters ff rest in
    if same_ff_props ff front then (front, others ++ ff ∷ []) ∷ rest else later

unfoldable pub clusters_of : List PendingFf → List Items → List Items
clusters_of [] clusters = clusters
clusters_of (ff ∷ rest) clusters = clusters_of rest (add_to_clusters ff clusters)

-- What a cluster drives its flip-flop with.
unfoldable pub cluster_signal : ModuleId → Output → Items → Run TigBuilder EdgeRef
cluster_signal module_id spec (front, []) =
    pure (record { node_id = front.node_id; port_idx = front.port_idx })
cluster_signal module_id spec (front, next ∷ others) = do
  merge_id ← create_merge module_id
  for_each (front ∷ next ∷ others) (λ ff. add_node_input module_id merge_id ff.node_id ff.port_idx)
  push_plain_output module_id merge_id "" spec.width spec.sign
  pure (record { node_id = merge_id; port_idx = 0 })

unfoldable pub cluster_ffs : ModuleId → Output → List Items → Run TigBuilder (List EdgeRef)
cluster_ffs module_id spec [] = pure []
cluster_ffs module_id spec ((front, others) ∷ rest) = do
  signal ← cluster_signal module_id spec (front, others)
  ff ← create_ff module_id front signal spec false
  ffs ← cluster_ffs module_id spec rest
  pure (ff ∷ ffs)

unfoldable pub merge_ffs : ModuleId → String → Output → List Items → Run TigBuilder EdgeRef
merge_ffs module_id name spec clusters = do
  ffs ← cluster_ffs module_id spec clusters
  ff_merge_id ← create_ff_merge module_id
  for_each ffs (λ ff. add_node_input module_id ff_merge_id ff.node_id ff.port_idx)
  push_plain_output module_id ff_merge_id name spec.width spec.sign
  pure (record { node_id = ff_merge_id; port_idx = 0 })

-- The new driver of a signal: one flip-flop, or one for each cluster.
unfoldable pub ff_signal :
    ModuleId → String → EdgeRef → Output → List Items → Run TigBuilder EdgeRef
ff_signal module_id name driver spec [] = merge_ffs module_id name spec []
ff_signal module_id name driver spec ((front, others) ∷ []) =
    create_ff module_id front driver spec true
ff_signal module_id name driver spec (a ∷ b ∷ rest) = merge_ffs module_id name spec (a ∷ b ∷ rest)

-- the clusters of a run; a run of one flip-flop is one cluster
unfoldable pub run_clusters : Items → List Items
run_clusters (first, others) = clusters_of (first ∷ others) []

abbrev pub is_driver_kind : NodeKind → Bool
is_driver_kind kind = is_kind kind NodeKind.op || is_kind kind NodeKind.merge

unfoldable pub insert_run_at : ModuleId → Items → Option EdgeRef → Run TigBuilder (Unit {0})
insert_run_at module_id (first, others) none = modify (λ s. record s {
  diagnostics =
      error DiagnosticId.lowering_invalid_ff_treated_as_combinational
        (first.name <> " (signal not found)") s.diagnostics;
})
insert_run_at module_id (first, others) (some driver) = do
  spec ← get_signal_spec module_id driver
  node ← get_node module_id driver.node_id
  check (is_driver_kind node.kind)
  clear_name module_id driver
  signal ← ff_signal module_id first.name driver spec (run_clusters (first, others))
  move_signal module_id first.name signal

unfoldable pub insert_run : ModuleId → Items → Run TigBuilder (Unit {0})
insert_run module_id (first, others) = do
  signal_map ← get_signal_map module_id
  insert_run_at module_id (first, others) (lookup first.name signal_map)

-- `std::sort` by name, whose order among equal names is not specified, is the argument.
unfoldable pub insert_ffs : (List PendingFf → List PendingFf) → ModuleId → Run TigBuilder (Unit {0})
insert_ffs sort_by_name module_id = do
  pending ← (λ s. found (get_elem? s.pending_ffs module_id) s)
  for_each (runs_of (sort_by_name pending)) (insert_run module_id)
  modify (λ s. record s { pending_ffs = set s.pending_ffs module_id [] })
