-- ===== src/Tig/Signals/Clusters.antt =====
-- The flip-flops of a signal, by clusters of one clock and reset, in src/ir/tig_builder.cpp.
use mathlib.Core.List
use abys.Prelude.{
  ℕ, suc, ◌+◌, ◌*◌, ◌≤◌, ◌<◌, ◌≡◌, refl, ap, ◌∙◌, String, true, false, Option, some, List, [], ◌∷◌,
  ◌++◌, map, All, All-append, Assoc, length, arith, length-append,
}
use abys.Run.{for_each}
use abys.Expr.Graph.{id_limit, invalid_id}
use abys.Tig.Graph.{Node, NodeKind, Module, ModuleId, EdgeRef, Output, node_of_kind}
use abys.Tig.Builder.{TigBuilder, PendingFf, create_node}
use abys.Tig.Builder.Ports.{push_input, push_output, add_node_input, create_merge, create_ff_merge}
use abys.Tig.Builder.Ffs.{
  Items, push_plain_output, cluster_signal, cluster_ffs, merge_ffs, ff_signal,
}
use abys.Tig.Signals.{At, is_sequential}
use abys.Tig.Signals.Nodes.{at_port}
use abys.Tig.Signals.Steps.{Reaches, with_nodes, create_node_lem}
use abys.Tig.Signals.Names.{IsUnnamed}
use abys.Tig.Signals.Clocked.{
  input_top, output_top, create_ff_lem, ff_node, push_inputs, push_inputs-outputs, push_inputs-kind,
}

abbrev pub source_of : PendingFf → EdgeRef
source_of ff = record { node_id = ff.node_id; port_idx = ff.port_idx }

module _ (k : ModuleId) (m : Module) (sm : Assoc EdgeRef)
    (room : suc (length m.nodes) < id_limit) where
  -- The loops that add inputs to the last node.
  inputs_top :
      {A : Type 0} (edge_of : A → EdgeRef) (items : List A) (old : Node) (s : TigBuilder)
      → At k (with_nodes m (m.nodes ++ old ∷ [])) sm s
      → Reaches k (with_nodes m (m.nodes ++ push_inputs old (map edge_of items) ∷ [])) sm tt (
          for_each items
            (λ x. add_node_input k (length m.nodes) (edge_of x).node_id (edge_of x).port_idx)
            s)
  unfolding for_each
  inputs_top edge_of [] old s at = (s, refl, at)
  inputs_top edge_of (x ∷ rest) old s at =
      let (t₁, e₁, at₁) = input_top k m sm old s at room (edge_of x) in
      let (t₂, e₂, at₂) = inputs_top edge_of rest (push_input old (edge_of x)) t₁ at₁ in
      (t₂, rw (e₁, e₂) refl, at₂)

  -- A new node with inputs and one output.
  abbrev joined : NodeKind → List EdgeRef → String → Output → Node
  joined kind edges name spec =
      push_output (push_inputs (node_of_kind kind) edges)
        (record { name = name; width = spec.width; sign = spec.sign }) invalid_id false

  joined-outputs :
      (kind : NodeKind) (edges : List EdgeRef) (name : String) (spec : Output)
      → (joined kind edges name spec).outputs
        ≡ record { name = name; width = spec.width; sign = spec.sign } ∷ []
  joined-outputs kind edges name spec =
      ap (λ os. os ++ record { name = name; width = spec.width; sign = spec.sign } ∷ [])
        (push_inputs-outputs (node_of_kind kind) edges)

  cluster_merge :
      (kind : NodeKind) {A : Type 0} (edge_of : A → EdgeRef) (items : List A) (name : String)
      (spec : Output) (s : TigBuilder)
      → At k m sm s
      → (t₁ : TigBuilder) × (t₂ : TigBuilder) × (create_node k kind s ≡ some (length m.nodes, t₁))
        × (for_each items
              (λ x. add_node_input k (length m.nodes) (edge_of x).node_id (edge_of x).port_idx)
              t₁
            ≡ some (tt, t₂))
        × Reaches k
            (with_nodes m (m.nodes ++ joined kind (map edge_of items) name spec ∷ []))
            sm
            tt
            (push_plain_output k (length m.nodes) name spec.width spec.sign t₂)
  cluster_merge kind edge_of items name spec s at =
      let (t₁, e₁, at₁) = create_node_lem k m sm s at kind (omega arith) in
      let (t₂, e₂, at₂) = inputs_top edge_of items (node_of_kind kind) t₁ at₁ in
      (t₁, t₂, e₁, e₂, output_top k m sm _ t₂ at₂ name spec.width spec.sign)

-- What is added to a module: nodes without names, at most `most` of them.
pub record Added (most : ℕ) (k : ModuleId) (m : Module) (sm : Assoc EdgeRef) {A : Type 0} (a : A)
    (o : Option (A × TigBuilder)) : Type 0 where
  pub more : List Node
  pub unnamed : All IsUnnamed more
  pub few : length more ≤ most
  pub reaches : Reaches k (with_nodes m (m.nodes ++ more)) sm a o

module _ (k : ModuleId) (sm : Assoc EdgeRef) (spec : Output) where
  nothing : (m : Module) (s : TigBuilder) → At k m sm s → At k (with_nodes m (m.nodes ++ [])) sm s
  nothing m s at = rw (List.append-nil m.nodes) at

  cluster_signal_lem :
      (cluster : Items) (m : Module) (s : TigBuilder)
      → suc (length m.nodes) < id_limit
      → At k m sm s
      → (edge : EdgeRef) × Added 1 k m sm edge (cluster_signal k spec cluster s)
  unfolding cluster_signal create_merge
  cluster_signal_lem (front, []) m s room at = (
    source_of front,
    record { more = []; unnamed = tt; few = omega arith; reaches = (s, refl, nothing m s at) },
  )
  cluster_signal_lem (front, next ∷ others) m s room at =
      let (t₁, t₂, e₁, e₂, (t₃, e₃, at₃)) =
        cluster_merge k m sm room NodeKind.merge source_of (front ∷ next ∷ others) "" spec s at in
      (
        at_port (length m.nodes) 0,
        record {
          more =
              joined k m sm room NodeKind.merge (map source_of (front ∷ next ∷ others)) "" spec
              ∷ [];
          unnamed = (
            rw
                (joined-outputs k m sm room NodeKind.merge (map source_of (front ∷ next ∷ others))
                  "" spec)
                (refl, tt),
            tt,
          );
          few = omega arith;
          reaches = (t₃, rw (e₁, e₂, e₃) refl, at₃);
        },
      )

  cluster_ffs_lem :
      (clusters : List Items) (m : Module) (s : TigBuilder)
      → suc (length m.nodes + 2 * length clusters) < id_limit
      → At k m sm s
      → (edges : List EdgeRef) × Added
          (2 * length clusters)
          k
          m
          sm
          edges
          (cluster_ffs k spec clusters s)
  unfolding cluster_ffs
  cluster_ffs_lem [] m s room at = (
    [],
    record { more = []; unnamed = tt; few = omega arith; reaches = (s, refl, nothing m s at) },
  )
  cluster_ffs_lem ((front, others) ∷ rest) m s room at =
      let (edge, first) = cluster_signal_lem (front, others) m s (omega (arith, room)) at in
      let (t₁, e₁, at₁) = first.reaches in
      let m₁ : Module = with_nodes m (m.nodes ++ first.more) in
      let long₁ = length-append m.nodes first.more in
      let ff : Node = ff_node front edge spec false in
      let (t₂, e₂, at₂) =
        create_ff_lem k m₁ sm (omega (arith, long₁, first.few, room)) front edge spec false t₁
          at₁ in
      let m₂ : Module = with_nodes m (m₁.nodes ++ ff ∷ []) in
      let long₂ = length-append m₁.nodes (ff ∷ []) in
      let (edges, later) =
        cluster_ffs_lem rest m₂ t₂ (omega (arith, long₁, long₂, first.few, room)) at₂ in
      let (t₃, e₃, at₃) = later.reaches in
      (
        at_port (length m₁.nodes) 0 ∷ edges,
        record {
          more = first.more ++ (ff ∷ later.more);
          unnamed =
              All-append IsUnnamed first.more (ff ∷ later.more) first.unnamed
                (((refl, tt)), later.unnamed);
          few = omega (arith, first.few, later.few, length-append first.more (ff ∷ later.more));
          reaches =
              (t₃, rw (e₁, e₂, e₃) refl, rw (all_nodes m.nodes first.more ff later.more) at at₃);
        },
      )
    where
      all_nodes :
          (xs ys : List Node) (z : Node) (zs : List Node)
          → ((xs ++ ys) ++ z ∷ []) ++ zs ≡ xs ++ (ys ++ (z ∷ zs))
      all_nodes xs ys z zs =
          List.append_assoc (xs ++ ys) (z ∷ []) zs ∙ List.append_assoc xs ys (z ∷ zs)

-- What becomes of a driver: nodes are added, and the last one has the name, and is a flip-flop or joins
-- some.
pub record Replaced (most : ℕ) (k : ModuleId) (m : Module) (sm : Assoc EdgeRef) (name : String)
    (spec : Output) (o : Option (EdgeRef × TigBuilder)) : Type 0 where
  pub more : List Node
  pub last : Node
  pub unnamed : All IsUnnamed more
  pub few : length more ≤ most
  pub output : last.outputs ≡ record { name = name; width = spec.width; sign = spec.sign } ∷ []
  pub sequential : is_sequential last.kind ≡ true
  pub reaches :
      Reaches k
        (with_nodes m ((m.nodes ++ more) ++ last ∷ []))
        sm
        (at_port (length (m.nodes ++ more)) 0)
        o

module _ (k : ModuleId) (sm : Assoc EdgeRef) (spec : Output) (name : String) (m : Module)
    (s : TigBuilder) (at : At k m sm s) where
  merge_ffs_lem :
      (clusters : List Items)
      → suc (length m.nodes + 2 * length clusters) < id_limit
      → Replaced (2 * length clusters) k m sm name spec (merge_ffs k name spec clusters s)
  unfolding merge_ffs create_ff_merge
  merge_ffs_lem clusters room =
      let (edges, added) = cluster_ffs_lem k sm spec clusters m s room at in
      let (t₁, e₁, at₁) = added.reaches in
      let m₁ : Module = with_nodes m (m.nodes ++ added.more) in
      let long₁ = length-append m.nodes added.more in
      let room₁ : suc (length m₁.nodes) < id_limit = omega (arith, long₁, added.few, room) in
      let (t₂, t₃, e₂, e₃, (t₄, e₄, at₄)) =
        cluster_merge k m₁ sm room₁ NodeKind.ff_merge (λ (e : EdgeRef). e) edges name spec t₁ at₁ in
      record {
        more = added.more;
        last = joined k m₁ sm room₁ NodeKind.ff_merge (map (λ (e : EdgeRef). e) edges) name spec;
        unnamed = added.unnamed;
        few = added.few;
        output =
            joined-outputs k m₁ sm room₁ NodeKind.ff_merge (map (λ (e : EdgeRef). e) edges) name
              spec;
        sequential =
            rw (push_inputs-kind (node_of_kind NodeKind.ff_merge) (map (λ (e : EdgeRef). e) edges))
              refl;
        reaches = (t₄, rw (e₁, e₂, e₃, e₄) refl, at₄);
      }

  pub ff_signal_lem :
      (clusters : List Items) (d : EdgeRef)
      → suc (length m.nodes + 2 * length clusters) < id_limit
      → All (λ (c : Items). c.0.name ≡ name) clusters
      → Replaced (2 * length clusters) k m sm name spec (ff_signal k name d spec clusters s)
  unfolding ff_signal
  ff_signal_lem [] d room names = merge_ffs_lem [] room
  ff_signal_lem ((front, others) ∷ []) d room names =
      let (t, e, at') = create_ff_lem k m sm (omega (arith, room)) front d spec true s at in
      record {
        more = [];
        last = ff_node front d spec true;
        unnamed = tt;
        few = omega arith;
        output =
            ap (λ (n : String). record { name = n; width = spec.width; sign = spec.sign } ∷ [])
              names.0;
        sequential = refl;
        reaches = rw (List.append-nil m.nodes) (t, e, at');
      }
  ff_signal_lem (a ∷ b ∷ rest) d room names = merge_ffs_lem (a ∷ b ∷ rest) room
