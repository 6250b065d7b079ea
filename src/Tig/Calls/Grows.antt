-- ===== src/Tig/Calls/Grows.antt =====
-- How a graph grows in the loop of `flatten_calls` in src/ir/tig_builder.cpp.
use mathlib.Core.List
use abys.Prelude.{
  ℕ, ◌+◌, ◌≤◌, ◌<◌, ◌≡◌, refl, sym, ap, ◌∙◌, some, List, [], ◌∷◌, ◌++◌, All, All-append, All-map,
  length, get_elem?, arith, length-append, lt_of_get_elem?, get_elem?-append_left,
}
use abys.Expr.Graph.{ExprGraph, ExprId, Node, Call, Constant, UnpackedProperties, id_limit}

-- The graph `h` grows out of `g`, where only some nodes may change: the inputs are the same, the
-- constants, the properties and the calls are kept, and so are the other nodes, and the calls behind them
-- are those of new nodes, unless identifiers run out.
pub record Grows (Changes : ExprId → Type 0) (g h : ExprGraph) : Type 0 where
  pub inputs : h.inputs ≡ g.inputs
  pub longer : length g.nodes ≤ length h.nodes
  pub nodes :
      length h.nodes ≤ id_limit
      → (id : ExprId) (node : Node) → get_elem? g.nodes id ≡ some node
      → ¬ (Changes id)
      → get_elem? h.nodes id ≡ some node
  pub constants : (more : List Constant) × (h.constants ≡ g.constants ++ more)
  pub properties :
      (more : List UnpackedProperties) × (h.unpacked_properties ≡ g.unpacked_properties ++ more)
  pub calls :
      (more : List Call) × (h.calls ≡ g.calls ++ more)
      × (length h.nodes ≤ id_limit → All (λ (c : Call). length g.nodes ≤ c.id) more)

pub Grows-refl : (C : ExprId → Type 0) (g : ExprGraph) → Grows C g g
Grows-refl C g = record {
  inputs = refl;
  longer = omega arith;
  nodes = λ le id node e ne. e;
  constants = ([], sym (List.append-nil g.constants));
  properties = ([], sym (List.append-nil g.unpacked_properties));
  calls = ([], sym (List.append-nil g.calls), λ le. tt);
}

appended :
    {A : Type 0} (xs ys zs more more' : List A)
    → ys ≡ xs ++ more
    → zs ≡ ys ++ more'
    → zs ≡ xs ++ (more ++ more')
appended xs ys zs more more' e e' = e' ∙ ap (λ l. l ++ more') e ∙ List.append_assoc xs more more'

-- One growth after another, where the second changes no old node that the first does not.
pub Grows-trans :
    (C D : ExprId → Type 0) (g h k : ExprGraph)
    → Grows C g h
    → Grows D h k
    → (length k.nodes ≤ id_limit → (id : ExprId) → id < length g.nodes → ¬ (C id) → ¬ (D id))
    → Grows C g k
Grows-trans C D g h k p q apart =
    let (cs, p_cs) = p.constants in
    let (cs', q_cs) = q.constants in
    let (ps, p_ps) = p.properties in
    let (ps', q_ps) = q.properties in
    let (ds, p_ds, p_new) = p.calls in
    let (ds', q_ds, q_new) = q.calls in
    record {
      inputs = q.inputs ∙ p.inputs;
      longer = omega (arith, p.longer, q.longer);
      nodes = λ le id node e ne.
          q.nodes le id node (p.nodes (omega (arith, q.longer, le)) id node e ne)
            (apart le id (lt_of_get_elem? g.nodes id e) ne);
      constants = (cs ++ cs', appended g.constants h.constants k.constants cs cs' p_cs q_cs);
      properties = (
        ps ++ ps',
        appended g.unpacked_properties h.unpacked_properties k.unpacked_properties ps ps' p_ps q_ps,
      );
      calls = (
        ds ++ ds',
        appended g.calls h.calls k.calls ds ds' p_ds q_ds,
        λ le.
            All-append (λ (c : Call). length g.nodes ≤ c.id) ds ds'
              (p_new (omega (arith, q.longer, le)))
              (All-map _ _ (λ (c : Call) lt. omega (arith, p.longer, lt)) ds' (q_new le)),
      );
    }

-- one more node, with entries
pub pushed-Grows :
    (C : ExprId → Type 0) (g h : ExprGraph) (node : Node) (cs : List Constant) (ds : List Call)
    → h.inputs ≡ g.inputs
    → h.nodes ≡ g.nodes ++ node ∷ []
    → h.constants ≡ g.constants ++ cs
    → h.unpacked_properties ≡ g.unpacked_properties
    → h.calls ≡ g.calls ++ ds
    → (length g.nodes < id_limit → All (λ (c : Call). length g.nodes ≤ c.id) ds)
    → Grows C g h
pushed-Grows C g h node cs ds inputs nodes constants properties calls new =
    let more : length h.nodes ≡ length g.nodes + 1 = rw nodes (length-append g.nodes (node ∷ [])) in
    record {
      inputs = inputs;
      longer = omega (arith, more);
      nodes = λ le id n e ne.
          rw nodes
            (get_elem?-append_left g.nodes (node ∷ []) id (lt_of_get_elem? g.nodes id e) ∙ e);
      constants = (cs, constants);
      properties = ([], properties ∙ sym (List.append-nil g.unpacked_properties));
      calls = (ds, calls, λ le. new (omega (arith, more, le)));
    }

-- A node that some call of the graph is of.
abbrev pub IsCalled : ExprGraph → ExprId → Type 0
IsCalled g id = (j : ℕ) × (call : Call) × (get_elem? g.calls j ≡ some call) × (call.id ≡ id)

-- What a graph has of the one before the flattening: the same inputs, each node that no call is of, and
-- the constants and the properties, with others behind them.
pub record IsExtension (g h : ExprGraph) : Type 0 where
  pub inputs : h.inputs ≡ g.inputs
  pub nodes :
      (id : ExprId) (node : Node)
      → get_elem? g.nodes id ≡ some node
      → ¬ (IsCalled g id)
      → get_elem? h.nodes id ≡ some node
  pub constants : (more : List Constant) × (h.constants ≡ g.constants ++ more)
  pub properties :
      (more : List UnpackedProperties) × (h.unpacked_properties ≡ g.unpacked_properties ++ more)

pub IsExtension-cleared :
    (g h : ExprGraph)
    → length h.nodes ≤ id_limit
    → Grows (IsCalled g) g h
    → IsExtension g (record h { calls = [] })
IsExtension-cleared g h le p = record {
  inputs = p.inputs;
  nodes = p.nodes le;
  constants = p.constants;
  properties = p.properties;
}
