-- ===== src/Tig/Signals/Nodes.antt =====
-- The outputs of nodes when nodes are added or changed: src/ir/tig_builder.cpp.
use native.Mathlib.Decide.{ℕ_discrete}
use mathlib.Core.Option.{some-injective}
use abys.Prelude.{
  ℕ, zero, suc, ◌+◌, ◌<◌, ◌≡◌, ◌≢◌, ◌⊎◌, inl, inr, refl, sym, ap, ◌∙◌, some, List, [], ◌∷◌, ◌++◌,
  length, get_elem?, set, arith, get_elem?-set_self, get_elem?-set_other, lt_of_get_elem?,
  get_elem?-append_left, get_elem?-append_right, get_elem?-append_cases, none-ne-some, Option-cases,
}
use abys.Tig.Graph.{Node, EdgeRef, Output}
use abys.Tig.Signals.{output_at}

-- a node whose outputs stay
pub output_at-same :
    (nodes : List Node) (k : ℕ) (old new : Node) (edge : EdgeRef)
    → get_elem? nodes k ≡ some old
    → new.outputs ≡ old.outputs
    → output_at (set nodes k new) edge ≡ output_at nodes edge
unfolding output_at
output_at-same nodes k old new edge there same = elim (ℕ_discrete k edge.node_id) [
  | yes e ↦
      rw (sym e, there, get_elem?-set_self nodes k new (lt_of_get_elem? nodes k there))
        (ap (λ os. get_elem? os edge.port_idx) same)
  | no ne ↦ rw (get_elem?-set_other nodes k edge.node_id new ne) refl
]

-- the edges into the older nodes
pub output_at-append :
    (nodes more : List Node) (edge : EdgeRef) (output : Output)
    → output_at nodes edge ≡ some output
    → output_at (nodes ++ more) edge ≡ some output
unfolding output_at
output_at-append nodes more edge output h = elim (Option-cases (get_elem? nodes edge.node_id)) [
  | inl e ↦ absurd (none-ne-some output (rw e at h))
  | inr (node, e) ↦
      rw (get_elem?-append_left nodes more edge.node_id (lt_of_get_elem? nodes edge.node_id e)) h
]

-- an output of an older node or of a newer one
pub output_at-append_cases :
    (nodes more : List Node) (edge : EdgeRef) (output : Output)
    → output_at (nodes ++ more) edge ≡ some output
    → (output_at nodes edge ≡ some output)
      ⊎ ((j : ℕ) × (node : Node) × (edge.node_id ≡ length nodes + j)
          × (get_elem? more j ≡ some node)
          × (get_elem? node.outputs edge.port_idx ≡ some output))
unfolding output_at
output_at-append_cases nodes more edge output h =
    elim (Option-cases (get_elem? (nodes ++ more) edge.node_id)) [
      | inl e ↦ absurd (none-ne-some output (rw e at h))
      | inr (node, e) ↦ elim (get_elem?-append_cases nodes more edge.node_id node e) [
        | inl old ↦ inl (rw old (rw e at h))
        | inr (j, e', new) ↦ inr (j, node, e', new, rw e at h)
      ]
    ]

-- the edge of a new output of a node
abbrev pub at_port : ℕ → ℕ → EdgeRef
at_port node_id port_idx = record { node_id = node_id; port_idx = port_idx }

pub edge_eq : (a b : EdgeRef) → a.node_id ≡ b.node_id → a.port_idx ≡ b.port_idx → a ≡ b
edge_eq a b p q = λ i. record { node_id = p i; port_idx = q i }

-- one more output of a node
pub output_at-push_old :
    (nodes : List Node) (k : ℕ) (old new : Node) (output : Output) (edge : EdgeRef) (o : Output)
    → get_elem? nodes k ≡ some old
    → new.outputs ≡ old.outputs ++ output ∷ []
    → output_at nodes edge ≡ some o
    → output_at (set nodes k new) edge ≡ some o
unfolding output_at
output_at-push_old nodes k old new output edge o there more h = elim (ℕ_discrete k edge.node_id) [
  | yes e ↦
      let h' : get_elem? old.outputs edge.port_idx ≡ some o = rw (sym e, there) at h in
      rw (sym e, get_elem?-set_self nodes k new (lt_of_get_elem? nodes k there), more)
        (get_elem?-append_left old.outputs (output ∷ []) edge.port_idx
            (lt_of_get_elem? old.outputs edge.port_idx h')
          ∙ h')
  | no ne ↦ rw (get_elem?-set_other nodes k edge.node_id new ne) h
]

pub output_at-push_new :
    (nodes : List Node) (k : ℕ) (old new : Node) (output : Output)
    → get_elem? nodes k ≡ some old
    → new.outputs ≡ old.outputs ++ output ∷ []
    → output_at (set nodes k new) (at_port k (length old.outputs)) ≡ some output
unfolding output_at
output_at-push_new nodes k old new output there more =
    let e : length old.outputs ≡ length old.outputs + 0 = omega arith in
    rw (get_elem?-set_self nodes k new (lt_of_get_elem? nodes k there), more)
      (ap (get_elem? (old.outputs ++ output ∷ [])) e
        ∙ get_elem?-append_right old.outputs (output ∷ []) 0)

pub output_at-push_cases :
    (nodes : List Node) (k : ℕ) (old new : Node) (output : Output) (edge : EdgeRef) (o : Output)
    → get_elem? nodes k ≡ some old
    → new.outputs ≡ old.outputs ++ output ∷ []
    → output_at (set nodes k new) edge ≡ some o
    → (output_at nodes edge ≡ some o) ⊎ ((edge ≡ at_port k (length old.outputs)) × (o ≡ output))
unfolding output_at
output_at-push_cases nodes k old new output edge o there more h = elim (ℕ_discrete k edge.node_id) [
  | yes e ↦
      let h' : get_elem? new.outputs edge.port_idx ≡ some o =
        rw (sym e, get_elem?-set_self nodes k new (lt_of_get_elem? nodes k there)) at h in
      elim (get_elem?-append_cases old.outputs (output ∷ []) edge.port_idx o (rw more at h')) [
        | inl old_one ↦ inl (rw (sym e, there) old_one)
        | inr (zero, e', new_one) ↦ inr (
          edge_eq edge (at_port k (length old.outputs)) (sym e) (omega (arith, e')),
          sym (some-injective output o new_one),
        )
        | inr (suc j, e', new_one) ↦ absurd (none-ne-some o new_one)
      ]
  | no ne ↦ inl (rw (get_elem?-set_other nodes k edge.node_id new ne) at h)
]

-- A name is cleared: the output at an edge changes, and no other one.
pub output_at-set :
    (nodes : List Node) (d : EdgeRef) (old : Node) (new : Node) (output : Output) (edge : EdgeRef)
    → get_elem? nodes d.node_id ≡ some old
    → new.outputs ≡ set old.outputs d.port_idx output
    → edge ≢ d
    → output_at (set nodes d.node_id new) edge ≡ output_at nodes edge
unfolding output_at
output_at-set nodes d old new output edge there more other =
    elim (ℕ_discrete d.node_id edge.node_id) [
      | yes e ↦
          rw
            (
              sym e,
              there,
              get_elem?-set_self nodes d.node_id new (lt_of_get_elem? nodes d.node_id there),
              more,
            )
            (get_elem?-set_other old.outputs d.port_idx edge.port_idx output
              (λ q. other (edge_eq edge d (sym e) (sym q))))
      | no ne ↦ rw (get_elem?-set_other nodes d.node_id edge.node_id new ne) refl
    ]

pub output_at-set_self :
    (nodes : List Node) (d : EdgeRef) (old : Node) (new : Node) (output : Output)
    → get_elem? nodes d.node_id ≡ some old
    → d.port_idx < length old.outputs
    → new.outputs ≡ set old.outputs d.port_idx output
    → output_at (set nodes d.node_id new) d ≡ some output
unfolding output_at
output_at-set_self nodes d old new output there lt more =
    rw (get_elem?-set_self nodes d.node_id new (lt_of_get_elem? nodes d.node_id there), more)
      (get_elem?-set_self old.outputs d.port_idx output lt)

pub output_at_of :
    (nodes : List Node) (edge : EdgeRef) (node : Node) (output : Output)
    → get_elem? nodes edge.node_id ≡ some node
    → get_elem? node.outputs edge.port_idx ≡ some output
    → output_at nodes edge ≡ some output
unfolding output_at
output_at_of nodes edge node output there at = rw there at

pub node_of :
    (nodes : List Node) (edge : EdgeRef) (output : Output)
    → output_at nodes edge ≡ some output
    → (node : Node) × (get_elem? nodes edge.node_id ≡ some node)
unfolding output_at
node_of nodes edge output h = elim (Option-cases (get_elem? nodes edge.node_id)) [
  | inl e ↦ absurd (none-ne-some output (rw e at h))
  | inr found ↦ found
]

-- What a write to a node leaves of each node.
pub node_after :
    {B : Type 0} (f : Node → B) (nodes : List Node) (k n : ℕ) (old new node : Node)
    → get_elem? nodes k ≡ some old
    → f new ≡ f old
    → get_elem? nodes n ≡ some node
    → (node' : Node) × (get_elem? (set nodes k new) n ≡ some node') × (f node' ≡ f node)
node_after f nodes k n old new node at same there = elim (ℕ_discrete k n) [
  | yes e ↦ (
    new,
    ap (get_elem? (set nodes k new)) (sym e)
        ∙ get_elem?-set_self nodes k new (lt_of_get_elem? nodes k at),
    same ∙ ap f (some-injective old node (sym at ∙ ap (get_elem? nodes) e ∙ there)),
  )
  | no ne ↦ (node, get_elem?-set_other nodes k n new ne ∙ there, refl)
]

pub output_of :
    (nodes : List Node) (edge : EdgeRef) (node : Node) (output : Output)
    → output_at nodes edge ≡ some output
    → get_elem? nodes edge.node_id ≡ some node
    → get_elem? node.outputs edge.port_idx ≡ some output
unfolding output_at
output_of nodes edge node output h there = rw there at h

pub get_elem?-more :
    (nodes more : List Node) (n : ℕ) (node : Node)
    → get_elem? nodes n ≡ some node
    → get_elem? (nodes ++ more) n ≡ some node
get_elem?-more nodes more n node there =
    get_elem?-append_left nodes more n (lt_of_get_elem? nodes n there) ∙ there
