-- ===== src/Tig/Signals/Clocked.antt =====
-- The nodes that the insertion of flip-flops adds, in src/ir/tig_builder.cpp.
use abys.Prelude.{
  suc, ◌<◌, ◌≡◌, refl, String, Bool, true, false, some, List, [], ◌∷◌, ◌++◌, Assoc, length,
  if◌then◌else◌, arith, get_elem?-top,
}
use abys.Run.{pure}
use abys.Expr.Graph.{SignalWidth, id_limit, invalid_id}
use abys.Tig.Graph.{Node, NodeKind, Module, ModuleId, EdgeRef, Output, node_of_kind, no_edge}
use abys.Tig.Builder.{TigBuilder, PendingFf, get_node, put_node}
use abys.Tig.Builder.Ports.{push_input, push_output, add_node_input, add_node_input_spec}
use abys.Tig.Builder.Ffs.{has_rst, create_ff, add_reset, push_plain_output}
use abys.Tig.Signals.{At}
use abys.Tig.Signals.Nodes.{at_port}
use abys.Tig.Signals.Steps.{
  Reaches, with_nodes, get_node_lem, put_node_lem, create_node_lem, add_node_input_lem,
  add_node_input_spec_lem, At-top,
}

-- The steps on the last node of a module.
module _ (k : ModuleId) (m : Module) (sm : Assoc EdgeRef) (old : Node) (s : TigBuilder)
    (at : At k (with_nodes m (m.nodes ++ old ∷ [])) sm s) where
  get_top : get_node k (length m.nodes) s ≡ some (old, s)
  get_top = get_node_lem k _ sm s at (length m.nodes) old (get_elem?-top m.nodes old)

  put_top :
      (new : Node)
      → Reaches k (with_nodes m (m.nodes ++ new ∷ [])) sm tt (put_node k (length m.nodes) new s)
  put_top new =
      let (t, e, at') =
        put_node_lem k _ sm s at (length m.nodes) old new (get_elem?-top m.nodes old) in
      (t, e, At-top k m m.nodes old new sm t at')

  module _ (room : suc (length m.nodes) < id_limit) where
    pub input_top :
        (edge : EdgeRef)
        → Reaches k
            (with_nodes m (m.nodes ++ push_input old edge ∷ []))
            sm
            tt
            (add_node_input k (length m.nodes) edge.node_id edge.port_idx s)
    input_top edge =
        let (t, e, at') =
          add_node_input_lem k _ sm s at (length m.nodes) old edge.node_id edge.port_idx
            (get_elem?-top m.nodes old) room in
        (t, e, At-top k m m.nodes old (push_input old edge) sm t at')

    spec_top :
        (name : String) (width : SignalWidth) (sign : Bool)
        → Reaches k
            (with_nodes m (m.nodes ++ push_input old no_edge ∷ []))
            sm
            tt
            (add_node_input_spec k (length m.nodes) name width sign s)
    spec_top name width sign =
        let (t, e, at') =
          add_node_input_spec_lem k _ sm s at (length m.nodes) old name width sign
            (get_elem?-top m.nodes old) room in
        (t, e, At-top k m m.nodes old (push_input old no_edge) sm t at')

  abbrev pub plain_output : String → SignalWidth → Bool → Node
  plain_output name width sign =
      push_output old (record { name = name; width = width; sign = sign }) invalid_id false

  pub output_top :
      (name : String) (width : SignalWidth) (sign : Bool)
      → Reaches k
          (with_nodes m (m.nodes ++ plain_output name width sign ∷ []))
          sm
          tt
          (push_plain_output k (length m.nodes) name width sign s)
  unfolding push_plain_output
  output_top name width sign =
      let (t, e, at') = put_top (plain_output name width sign) in (t, rw (get_top, e) refl, at')

-- The node of a flip-flop: its inputs are the driver, the clock and the reset, if there is one.
abbrev pub clocked : PendingFf → EdgeRef → Node
clocked ff signal = record (push_input (push_input (node_of_kind NodeKind.ff) signal) no_edge) {
  clk_edge = ff.clk_edge;
}

abbrev pub reset_of : Bool → PendingFf → Node → Node
reset_of has ff node = record node {
  inputs = if has then node.inputs ++ no_edge ∷ [] else node.inputs;
  rst_edge = if has then ff.rst_edge else node.rst_edge;
}

abbrev pub ff_node : PendingFf → EdgeRef → Output → Bool → Node
ff_node ff signal spec named =
    push_output (reset_of (has_rst ff) ff (clocked ff signal))
      (record { name = if named then ff.name else ""; width = spec.width; sign = spec.sign })
      invalid_id false

module _ (k : ModuleId) (m : Module) (sm : Assoc EdgeRef)
    (room : suc (length m.nodes) < id_limit) where
  add_reset_top :
      (ff : PendingFf) (old : Node) (s : TigBuilder)
      → At k (with_nodes m (m.nodes ++ old ∷ [])) sm s
      → Reaches k
          (with_nodes m (m.nodes ++ reset_of true ff old ∷ []))
          sm
          tt
          (add_reset k (length m.nodes) ff s)
  unfolding add_reset
  add_reset_top ff old s at =
      let (t₁, e₁, at₁) =
        spec_top k m sm old s at room ff.rst_spec.name ff.rst_spec.width ff.rst_spec.sign in
      let (t₂, e₂, at₂) = put_top k m sm (push_input old no_edge) t₁ at₁ (reset_of true ff old) in
      (t₂, rw (e₁, get_top k m sm (push_input old no_edge) t₁ at₁, e₂) refl, at₂)

  -- the reset, if there is one
  reset_top :
      (has : Bool) (ff : PendingFf) (old : Node) (s : TigBuilder)
      → At k (with_nodes m (m.nodes ++ old ∷ [])) sm s
      → Reaches k
          (with_nodes m (m.nodes ++ reset_of has ff old ∷ []))
          sm
          tt
          ((if has then add_reset k (length m.nodes) ff else pure tt) s)
  reset_top false ff old s at = (s, refl, at)
  reset_top true ff old s at = add_reset_top ff old s at

  pub create_ff_lem :
      (ff : PendingFf) (signal : EdgeRef) (spec : Output) (named : Bool) (s : TigBuilder)
      → At k m sm s
      → Reaches k
          (with_nodes m (m.nodes ++ ff_node ff signal spec named ∷ []))
          sm
          (at_port (length m.nodes) 0)
          (create_ff k ff signal spec named s)
  unfolding create_ff
  create_ff_lem ff signal spec named s at =
      let blank : Node = node_of_kind NodeKind.ff in
      let (t₁, e₁, at₁) = create_node_lem k m sm s at NodeKind.ff (omega arith) in
      let (t₂, e₂, at₂) = input_top k m sm blank t₁ at₁ room signal in
      let (t₃, e₃, at₃) =
        spec_top k m sm (push_input blank signal) t₂ at₂ room ff.clk_spec.name ff.clk_spec.width
          ff.clk_spec.sign in
      let wired : Node = push_input (push_input blank signal) no_edge in
      let (t₄, e₄, at₄) = put_top k m sm wired t₃ at₃ (clocked ff signal) in
      let (t₅, e₅, at₅) = reset_top (has_rst ff) ff (clocked ff signal) t₄ at₄ in
      let (t₆, e₆, at₆) =
        output_top k m sm (reset_of (has_rst ff) ff (clocked ff signal)) t₅ at₅
          (if named then ff.name else "") spec.width spec.sign in
      (t₆, rw (e₁, e₂, e₃, get_top k m sm wired t₃ at₃, e₄, e₅, e₆) refl, at₆)

-- a node with more inputs
abbrev pub push_inputs : Node → List EdgeRef → Node
push_inputs node [] = node
push_inputs node (edge ∷ rest) = push_inputs (push_input node edge) rest

pub push_inputs-outputs :
    (node : Node) (edges : List EdgeRef) → (push_inputs node edges).outputs ≡ node.outputs
push_inputs-outputs node [] = refl
push_inputs-outputs node (edge ∷ rest) = push_inputs-outputs (push_input node edge) rest

pub push_inputs-kind :
    (node : Node) (edges : List EdgeRef) → (push_inputs node edges).kind ≡ node.kind
push_inputs-kind node [] = refl
push_inputs-kind node (edge ∷ rest) = push_inputs-kind (push_input node edge) rest
