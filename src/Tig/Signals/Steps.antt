-- ===== src/Tig/Signals/Steps.antt =====
-- What the steps of src/ir/tig_builder.cpp on a module do to its state.
use abys.Prelude.{
  ℕ, zero, suc, ◌+◌, ◌%◌, ◌<◌, ◌≡◌, inl, inr, refl, String, Bool, false, leb, lt→ltb, Option, none,
  some, List, [], ◌∷◌, ◌++◌, length, get_elem?, set, lookup, insert, Assoc, arith,
  get_elem?-set_self, get_elem?-lt, lt_of_get_elem?, length-set, set-append_right, Bool-cases,
  Option-cases, none-ne-some,
}
use abys.Expr.Graph.{id_limit, SignalWidth}
use abys.Stmt.Case.{resize}
use abys.Tig.Graph.{
  Node, NodeKind, NodeId, Module, ModuleId, EdgeRef, Output, PortIndex, node_of_kind, no_edge,
}
use abys.Tig.Builder.{
  TigBuilder, get_module, put_module, get_signal_map, put_signal_map, get_node, put_node, with_node,
  create_node, add_signal, make_room, add_input_spec,
}
use abys.Tig.Builder.Ports.{
  add_node_input, add_node_input_spec, push_input, no_spec, get_signal_spec,
}
use abys.Tig.Builder.Outputs.{move_signal}
use abys.Tig.Signals.{At, output_at}

abbrev pub with_nodes : Module → List Node → Module
with_nodes m nodes = record m { nodes = nodes }

-- A run that ends in a state with the module and the map.
abbrev pub Reaches :
    {A : Type 0} → ModuleId → Module → Assoc EdgeRef → A → Option (A × TigBuilder) → Type 0
Reaches module_id m sm a o = (t : TigBuilder) × (o ≡ some (a, t)) × At module_id m sm t

module _ (k : ModuleId) (m : Module) (sm : Assoc EdgeRef) (s : TigBuilder) (at : At k m sm s) where
  pub get_module_lem : get_module k s ≡ some (m, s)
  unfolding get_module
  get_module_lem = rw at.module' refl

  pub get_signal_map_lem : get_signal_map k s ≡ some (sm, s)
  unfolding get_signal_map
  get_signal_map_lem = rw at.signals refl

  pub get_node_lem :
      (n : NodeId) (node : Node) → get_elem? m.nodes n ≡ some node → get_node k n s ≡ some (node, s)
  unfolding get_node get_module
  get_node_lem n node e = rw (at.module', e) refl

  pub put_module_lem : (m' : Module) → Reaches k m' sm tt (put_module k m' s)
  unfolding put_module
  put_module_lem m' = (
    _,
    refl,
    record {
      module' =
          get_elem?-set_self s.design.modules k m' (lt_of_get_elem? s.design.modules k at.module');
      signals = at.signals;
      specs = at.specs;
      pending = at.pending;
    },
  )

  pub put_node_lem :
      (n : NodeId) (old node : Node)
      → get_elem? m.nodes n ≡ some old
      → Reaches k (with_node m n node) sm tt (put_node k n node s)
  unfolding put_node get_module
  put_node_lem n old node e =
      rw (at.module', lt→ltb n (length m.nodes) (lt_of_get_elem? m.nodes n e))
        (put_module_lem (with_node m n node))

  pub create_node_lem :
      (kind : NodeKind)
      → length m.nodes < id_limit
      → Reaches k
          (with_nodes m (m.nodes ++ node_of_kind kind ∷ []))
          sm
          (length m.nodes)
          (create_node k kind s)
  unfolding create_node get_module
  create_node_lem kind room =
      let e : length m.nodes % id_limit ≡ length m.nodes = omega arith in
      let (t, e', at') = put_module_lem (with_nodes m (m.nodes ++ node_of_kind kind ∷ [])) in
      (t, rw (at.module', e', e) refl, at')

  pub move_signal_lem :
      (name : String) (edge : EdgeRef)
      → Reaches k m (insert name edge sm) tt (move_signal k name edge s)
  unfolding move_signal put_signal_map
  move_signal_lem name edge =
      let t : TigBuilder = record s { signal_maps = set s.signal_maps k (insert name edge sm) } in
      (
        t,
        rw get_signal_map_lem refl,
        record {
          module' = at.module';
          signals =
              get_elem?-set_self s.signal_maps k (insert name edge sm)
                (lt_of_get_elem? s.signal_maps k at.signals);
          specs = at.specs;
          pending = at.pending;
        },
      )

  pub add_signal_lem :
      (name : String) (edge : EdgeRef)
      → lookup name sm ≡ none
      → Reaches k m (insert name edge sm) tt (add_signal k name edge s)
  unfolding add_signal put_signal_map
  add_signal_lem name edge free =
      let t : TigBuilder = record s { signal_maps = set s.signal_maps k (insert name edge sm) } in
      (
        t,
        rw (get_signal_map_lem, free) refl,
        record {
          module' = at.module';
          signals =
              get_elem?-set_self s.signal_maps k (insert name edge sm)
                (lt_of_get_elem? s.signal_maps k at.signals);
          specs = at.specs;
          pending = at.pending;
        },
      )

  pub get_signal_spec_lem :
      (edge : EdgeRef) (output : Output)
      → output_at m.nodes edge ≡ some output
      → get_signal_spec k edge s ≡ some (output, s)
  unfolding get_signal_spec output_at
  get_signal_spec_lem edge output h = elim (Option-cases (get_elem? m.nodes edge.node_id)) [
    | inl e ↦ absurd (none-ne-some output (rw e at h))
    | inr (node, e) ↦ rw (get_node_lem edge.node_id node e, rw e at h) refl
  ]

module _ {A : Type 0} where
  get_elem?-resize :
      (n : ℕ) (default : A) (xs : List A)
      → (x : A) × (get_elem? (resize (suc n) default xs) n ≡ some x)
  unfolding resize
  get_elem?-resize zero default [] = (default, refl)
  get_elem?-resize zero default (x ∷ xs) = (x, refl)
  get_elem?-resize (suc n) default [] = get_elem?-resize n default []
  get_elem?-resize (suc n) default (x ∷ xs) = get_elem?-resize n default xs

  get_elem?-make_room :
      (n : ℕ) (default : A) (xs : List A)
      → suc n < id_limit
      → (x : A) × (get_elem? (make_room n default xs) n ≡ some x)
  unfolding make_room
  get_elem?-make_room n default xs room = elim (Bool-cases (leb (length xs) n)) [
    | inl e ↦
        let e' : (n + 1) % id_limit ≡ suc n = omega arith in
        rw (e, e') (get_elem?-resize n default xs)
    | inr e ↦ rw e (get_elem?-lt xs n (ground arith))
  ]

  make_room-same : (n : ℕ) (default : A) (xs : List A) → n < length xs → make_room n default xs ≡ xs
  unfolding make_room
  make_room-same n default xs h = let e : leb (length xs) n ≡ false = ground arith in rw e refl

module _ (k : ModuleId) (m : Module) (sm : Assoc EdgeRef) (s : TigBuilder) (at : At k m sm s) where
  add_input_spec_lem :
      (n : NodeId) (spec : Output)
      → suc n < id_limit
      → Reaches k m sm tt (add_input_spec k n spec s)
  unfolding add_input_spec
  add_input_spec_lem n spec room =
      let (nodes, e) = get_elem?-lt s.input_specs k at.specs in
      let (specs, e') = get_elem?-make_room n [] nodes room in
      let t : TigBuilder = record s {
        input_specs = set s.input_specs k (set (make_room n [] nodes) n (specs ++ spec ∷ []));
      } in
      (
        t,
        rw (make_room-same k [] s.input_specs at.specs, e, e') refl,
        record {
          module' = at.module';
          signals = at.signals;
          specs =
              rw (length-set s.input_specs k (set (make_room n [] nodes) n (specs ++ spec ∷ [])))
                at.specs;
          pending = at.pending;
        },
      )

module _ (k : ModuleId) (m : Module) (sm : Assoc EdgeRef) (s : TigBuilder) (at : At k m sm s) where
  -- an input of a node, with or without a name
  pub add_node_input_lem :
      (n : NodeId) (node : Node) (input_id : NodeId) (port_idx : PortIndex)
      → get_elem? m.nodes n ≡ some node
      → suc n < id_limit
      → Reaches k
          (with_node m n (push_input node (record { node_id = input_id; port_idx = port_idx })))
          sm
          tt
          (add_node_input k n input_id port_idx s)
  unfolding add_node_input
  add_node_input_lem n node input_id port_idx there room =
      let (t, e, at') =
        put_node_lem k m sm s at n node
          (push_input node (record { node_id = input_id; port_idx = port_idx })) there in
      let (u, e', at'') = add_input_spec_lem k _ sm t at' n no_spec room in
      (u, rw (get_node_lem k m sm s at n node there, e, e') refl, at'')

  pub add_node_input_spec_lem :
      (n : NodeId) (node : Node) (name : String) (width : SignalWidth) (sign : Bool)
      → get_elem? m.nodes n ≡ some node
      → suc n < id_limit
      → Reaches k
          (with_node m n (push_input node no_edge))
          sm
          tt
          (add_node_input_spec k n name width sign s)
  unfolding add_node_input_spec
  add_node_input_spec_lem n node name width sign there room =
      let (t, e, at') = put_node_lem k m sm s at n node (push_input node no_edge) there in
      let (u, e', at'') =
        add_input_spec_lem k _ sm t at' n (record { name = name; width = width; sign = sign })
          room in
      (u, rw (get_node_lem k m sm s at n node there, e, e') refl, at'')

-- A write to that node.
pub At-top :
    (k : ModuleId) (m : Module) (nodes : List Node) (old node : Node) (sm : Assoc EdgeRef)
    (s : TigBuilder)
    → At k (with_node (with_nodes m (nodes ++ old ∷ [])) (length nodes) node) sm s
    → At k (with_nodes m (nodes ++ node ∷ [])) sm s
At-top k m nodes old node sm s at = rw (set-append_right nodes [] old node) at at
