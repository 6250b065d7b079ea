-- ===== src/Tig/Signals/Ran.antt =====
-- The insertion for the flip-flops of one name: a round of `insert_ffs` in src/ir/tig_builder.cpp.
use mathlib.Core.Option.{some-injective}
use abys.Prelude.{
  ℕ, suc, ◌+◌, ◌*◌, ◌≤◌, ◌≡◌, inl, inr, refl, sym, ap, ◌∙◌, String, Bool, true, none, some, [], ◌∷◌,
  ◌++◌, Assoc, length, get_elem?, lookup, insert, arith, none-ne-some, Option-cases, length-append,
  length-set, get_elem?-top,
}
use abys.Expr.Graph.{id_limit}
use abys.Tig.Graph.{Node, NodeKind, NodeId, Module, ModuleId, EdgeRef, Output}
use abys.Tig.Builder.{TigBuilder, with_node}
use abys.Tig.Builder.Ffs.{ff_signal, Items, insert_run, insert_run_at, run_clusters, is_driver_kind}
use abys.Tig.Signals.{output_at, At, AreNamed, signal_shape, HasKind, is_sequential}
use abys.Tig.Signals.Nodes.{
  at_port, output_at-append, node_after, output_at_of, output_of, get_elem?-more,
}
use abys.Tig.Signals.Steps.{
  Reaches, with_nodes, get_node_lem, get_signal_map_lem, get_signal_spec_lem, move_signal_lem,
}
use abys.Tig.Signals.Names.{
  AreNamedBut-append, AreNamed-take, AreNamed-top, take-keeps, signal_shape-others, signal_shape_of,
  lookup-insert_self, lookup-insert_other, same_name,
}
use abys.Tig.Signals.Moved.{cleared, clear_name_lem}
use abys.Tig.Signals.Clusters.{Replaced, ff_signal_lem}
use abys.Tig.Signals.Runs.{IsRun, nodes_for, run_clusters-names}

-- All nodes keep their kinds.
abbrev pub KeepsKinds : Module → Module → Type 0
KeepsKinds m m' =
    (n : NodeId) (node : Node)
    → get_elem? m.nodes n ≡ some node
    → (node' : Node) × (get_elem? m'.nodes n ≡ some node') × (node'.kind ≡ node.kind)

pub HasKind-keeps :
    (is : NodeKind → Bool) (name : String) (m m' : Module) (sm sm' : Assoc EdgeRef)
    → KeepsKinds m m'
    → lookup name sm' ≡ lookup name sm
    → HasKind is m sm name
    → HasKind is m' sm' name
HasKind-keeps is name m m' sm sm' keeps same h d found =
    let (node, there, kind) = h d (sym same ∙ found) in
    let (node', there', kind') = keeps d.node_id node there in (node', there', ap is kind' ∙ kind)

-- What the insertion for some names leaves: the shapes of all signals, and the drivers of all other
-- names.
pub record Ran (Touches : String → Type 0) (most : ℕ) (k : ModuleId) (m : Module)
    (sm : Assoc EdgeRef) (m' : Module) (sm' : Assoc EdgeRef) : Type 0 where
  pub named : AreNamed m'.nodes sm'
  pub shapes : (asked : String) → signal_shape m'.nodes sm' asked ≡ signal_shape m.nodes sm asked
  pub kinds : KeepsKinds m m'
  pub others : (asked : String) → ¬ (Touches asked) → lookup asked sm' ≡ lookup asked sm
  pub grows : length m'.nodes ≤ length m.nodes + most

module _ (k : ModuleId) (m : Module) (sm : Assoc EdgeRef) (s : TigBuilder) (at : At k m sm s)
    (h : AreNamed m.nodes sm) (run : Items) (is_run : IsRun run) where
  module _ (d : EdgeRef) (found : lookup run.0.name sm ≡ some d) (node : Node)
      (there : get_elem? m.nodes d.node_id ≡ some node) (kind : is_driver_kind node.kind ≡ true)
      (room : suc (length m.nodes + nodes_for run) ≤ id_limit) where
    module _ (o : Output) (o_at : output_at m.nodes d ≡ some o) (o_is : o.name ≡ run.0.name)
        (t : TigBuilder) where
      abbrev name : String
      name = run.0.name

      abbrev driver : get_elem? node.outputs d.port_idx ≡ some o
      driver = output_of m.nodes d node o o_at there

      abbrev wiped : Node
      wiped = cleared k m sm s at d node o there driver

      -- the module whose old driver has no name
      abbrev m₁ : Module
      m₁ = with_node m d.node_id wiped

      module _
          (r : Replaced
            (2 * length (run_clusters run))
            k
            m₁
            sm
            name
            o
            (ff_signal k name d o (run_clusters run) t)) where
        -- the module with the nodes that drive the name
        abbrev m₂ : Module
        m₂ = with_nodes m ((m₁.nodes ++ r.more) ++ r.last ∷ [])

        abbrev edge : EdgeRef
        edge = at_port (length (m₁.nodes ++ r.more)) 0

        abbrev out : Output
        out = record { name = name; width = o.width; sign = o.sign }

        last_at : get_elem? m₂.nodes edge.node_id ≡ some r.last
        last_at = get_elem?-top (m₁.nodes ++ r.more) r.last

        driven-AreNamed : AreNamed m₂.nodes (insert name edge sm)
        driven-AreNamed =
            AreNamed-top (m₁.nodes ++ r.more) r.last out sm
              (AreNamedBut-append name m₁.nodes r.more sm
                (AreNamed-take m.nodes name d node wiped o there driver refl sm h found) r.unnamed)
              r.output

        driven-shapes :
            (asked : String)
            → signal_shape m₂.nodes (insert name edge sm) asked ≡ signal_shape m.nodes sm asked
        driven-shapes asked = elim (same_name asked name) [
          | inl e ↦ rw e (
              signal_shape_of name m₂.nodes _ edge out (lookup-insert_self name edge sm)
                (output_at_of m₂.nodes edge r.last out last_at (ap (λ os. get_elem? os 0) r.output))
              ∙ sym (signal_shape_of name m.nodes sm d o found o_at))
          | inr ne ↦
              signal_shape-others name asked m.nodes m₂.nodes sm _ h
                (λ e p p_at ne'. output_at-append (m₁.nodes ++ r.more) (r.last ∷ []) e p (
                  output_at-append m₁.nodes r.more e p
                    (take-keeps m.nodes name d node wiped o there driver refl e p o_is p_at ne')))
                (lookup-insert_other name asked edge sm ne) ne
        ]

        driven-KeepsKinds : KeepsKinds m m₂
        driven-KeepsKinds n old old_at =
            let (new, new_at, same) =
              node_after (λ (q : Node). q.kind) m.nodes d.node_id n node wiped old there refl
                old_at in
            (
              new,
              get_elem?-more (m₁.nodes ++ r.more) (r.last ∷ []) n new
                  (get_elem?-more m₁.nodes r.more n new new_at),
              same,
            )

        driven-Ran :
            length (run_clusters run) ≤ suc (length run.1)
            → Ran (λ asked. asked ≡ name) (nodes_for run) k m sm m₂ (insert name edge sm)
        driven-Ran few = record {
          named = driven-AreNamed;
          shapes = driven-shapes;
          kinds = driven-KeepsKinds;
          others = λ asked ne. lookup-insert_other name asked edge sm ne;
          grows = omega (
            arith,
            length-set m.nodes d.node_id wiped,
            few,
            r.few,
            length-append (m₁.nodes ++ r.more) (r.last ∷ []),
            length-append m₁.nodes r.more,
          );
        }

        driven-HasKind : HasKind is_sequential m₂ (insert name edge sm) name
        driven-HasKind d' found' = (
          r.last,
          ap (get_elem? m₂.nodes) (
                ap (λ (q : EdgeRef). q.node_id)
                  (some-injective d' edge (sym found' ∙ lookup-insert_self name edge sm)))
              ∙ last_at,
          r.sequential,
        )

    driven_run :
        (m' : Module) × (sm' : Assoc EdgeRef) × Ran
          (λ asked. asked ≡ run.0.name)
          (nodes_for run)
          k
          m
          sm
          m'
          sm'
        × HasKind is_sequential m' sm' run.0.name
        × Reaches k m' sm' tt (insert_run_at k run (some d) s)
    unfolding insert_run_at
    driven_run =
        let (o, o_at, o_is) = h.named run.0.name d found in
        let (t₁, e₁, at₁) = clear_name_lem k m sm s at d node o there (driver o o_at o_is s) in
        let first : Module = m₁ o o_at o_is t₁ in
        let (names, few) = run_clusters-names run is_run in
        let r =
          ff_signal_lem k sm o run.0.name first t₁ at₁ (run_clusters run) d
            (omega (arith, length-set m.nodes d.node_id (wiped o o_at o_is t₁), few, room)) names in
        let (t₂, e₂, at₂) = r.reaches in
        let (t₃, e₃, at₃) =
          move_signal_lem k (m₂ o o_at o_is t₁ r) sm t₂ at₂ run.0.name (edge o o_at o_is t₁ r) in
        (
          m₂ o o_at o_is t₁ r,
          insert run.0.name (edge o o_at o_is t₁ r) sm,
          driven-Ran o o_at o_is t₁ r few,
          driven-HasKind o o_at o_is t₁ r,
          (
            t₃,
            rw
                (
                  get_signal_spec_lem k m sm s at d o o_at,
                  get_node_lem k m sm s at d.node_id node there,
                  kind,
                  e₁,
                  e₂,
                  e₃,
                )
                refl,
            at₃,
          ),
        )

  -- A name that no output has is reported.
  free_run :
      lookup run.0.name sm ≡ none
      → Ran (λ asked. asked ≡ run.0.name) (nodes_for run) k m sm m sm
        × HasKind is_sequential m sm run.0.name
        × Reaches k m sm tt (insert_run_at k run none s)
  unfolding insert_run_at
  free_run free = (
    record {
      named = h;
      shapes = λ asked. refl;
      kinds = λ n node there. (node, there, refl);
      others = λ asked ne. refl;
      grows = omega arith;
    },
    λ d found. absurd (none-ne-some d (sym free ∙ found)),
    (
      _,
      refl,
      record { module' = at.module'; signals = at.signals; specs = at.specs; pending = at.pending },
    ),
  )

  pub insert_run_lem :
      HasKind is_driver_kind m sm run.0.name
      → suc (length m.nodes + nodes_for run) ≤ id_limit
      → (m' : Module) × (sm' : Assoc EdgeRef) × Ran
          (λ asked. asked ≡ run.0.name)
          (nodes_for run)
          k
          m
          sm
          m'
          sm'
        × HasKind is_sequential m' sm' run.0.name
        × Reaches k m' sm' tt (insert_run k run s)
  unfolding insert_run
  insert_run_lem drivable room = elim (Option-cases (lookup run.0.name sm)) [
    | inl free ↦
        let (ran, clocked, (t, e, at')) = free_run free in
        (m, sm, ran, clocked, (t, rw (get_signal_map_lem k m sm s at, free) e, at'))
    | inr (d, found) ↦
        let (node, there, kind) = drivable d found in
        let (m', sm', ran, clocked, (t, e, at')) = driven_run d found node there kind room in
        (m', sm', ran, clocked, (t, rw (get_signal_map_lem k m sm s at, found) e, at'))
  ]
