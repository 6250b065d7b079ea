-- ===== src/Tig/Calls/Inlines.antt =====
-- One round of the loop of `flatten_calls` in src/ir/tig_builder.cpp.
use abys.Prelude.{
  ℕ, suc, ◌+◌, ◌≡◌, inl, inr, Option, none, some, List, [], ◌∷◌, ◌==◌, ==_iff, length, get_elem?,
  get_elem?-lt, arith, Option-cases, Bool-cases, lookup, Assoc,
}
use abys.Run.{pure, Returns, bind-Returns}
use abys.Expr.Graph.{ExprId, SubrId, Node, Call, invalid_id}
use abys.Tig.Graph.{Subroutine, SignalProperties}
use abys.Tig.Builder.Inline.{
  Inlining, IdMap, map_inputs, map_return, emplace, find_id, map_operands, copy_next, copy_nodes,
  copy_node, copy_constants, finish_call, copy_graph, inline_subroutine, inline_known, inline_call,
}
use abys.Tig.Calls.{AreCopied, CanBeCopied, nodes_cost, IsCost}
use abys.Tig.Calls.Map.{Covers, known-Covers}
use abys.Tig.Calls.Inlined.{
  Going, Gone, Outcome, Going-weaken, convert_call-Gone, replace_call_with_zero-Gone,
  give_up-Outcome,
}
use abys.Tig.Calls.Copied.{copy_constants-Going, copy_node-Going}

module _ (cost : SubrId → ℕ) (i : ℕ) (x : ExprId) (fuel : ℕ) where
  map_inputs-Outcome :
      (inputs : Assoc ExprId) (formals : List SignalProperties) (operands : List ExprId)
      (id_map : IdMap) (b : ℕ) (s : Inlining)
      → length operands ≡ length formals
      → Going cost i x fuel b s
      → Returns
          (Outcome cost i x fuel (λ m t. Going cost i x fuel b t))
          (map_inputs x inputs formals operands id_map s)
  unfolding map_inputs
  map_inputs-Outcome inputs [] operands id_map b s h g = g
  map_inputs-Outcome inputs (formal ∷ rest) [] id_map b s h g = absurd (omega (arith, h))
  map_inputs-Outcome inputs (formal ∷ rest) (operand ∷ operands) id_map b s h g =
      elim (Option-cases (lookup formal.name inputs)) [
        | inl e ↦ rw (e, Returns) (give_up-Outcome cost i x fuel _ b _ s g)
        | inr (id, e) ↦
            rw (e, Returns)
              (map_inputs-Outcome inputs rest operands (emplace id operand id_map) b s
                (omega (arith, h)) g)
      ]

  module _ (subr : Subroutine) where
    -- The map covers what is copied, up to `id`.
    abbrev Copied : ExprId → ℕ → IdMap → Inlining → Type 0
    Copied id b m t = Going cost i x fuel b t × Covers m id

    copy_next-Outcome :
        (id : ExprId) (src : Node) (rest : List Node) (m : IdMap) (b : ℕ) (s : Inlining)
        → AreCopied subr.expr_graph id (src ∷ rest)
        → Copied id (nodes_cost cost subr.expr_graph.calls id (src ∷ rest) + b) m s
        → Returns
            (Outcome cost i x fuel
              (Copied (suc id) (nodes_cost cost subr.expr_graph.calls (suc id) rest + b)))
            (copy_next x subr id src m s)
    unfolding copy_next nodes_cost
    copy_next-Outcome id src rest m b s h (g, covers) = elim (Option-cases (find_id id m)) [
      | inr (v, e) ↦
          rw e (Going-weaken cost i x fuel _ _ s (omega arith) g, known-Covers id v m e covers)
      | inl e ↦ elim (Option-cases (map_operands m src.operands)) [
        | inl e' ↦ rw (e, e') (give_up-Outcome cost i x fuel _ _ _ s g)
        | inr (operands, e') ↦
            rw (e, e')
              (bind-Returns
                (Outcome cost i x fuel
                  (Copied (suc id) (nodes_cost cost subr.expr_graph.calls (suc id) rest + b)))
                (Copied (suc id) (nodes_cost cost subr.expr_graph.calls (suc id) rest + b))
                (copy_node subr.expr_graph id src operands m) (λ next. pure (some next)) s
                (copy_node-Going cost i x fuel subr.expr_graph id src operands m _ s covers h.1 h.0
                  (Going-weaken cost i x fuel _ _ s (omega arith) g))
                (λ next t done. done))
      ]
    ]

    copy_nodes-Outcome :
        (nodes : List Node) (id : ExprId) (m : Option IdMap) (b : ℕ) (s : Inlining)
        → AreCopied subr.expr_graph id nodes
        → Outcome cost i x fuel (Copied id (nodes_cost cost subr.expr_graph.calls id nodes + b)) m s
        → Returns
            (Outcome cost i x fuel (λ m t. Going cost i x fuel b t))
            (copy_nodes x subr nodes id m s)
    unfolding copy_nodes nodes_cost
    copy_nodes-Outcome [] id none b s h g = g
    copy_nodes-Outcome (src ∷ rest) id none b s h g = g
    copy_nodes-Outcome [] id (some m) b s h g = Going-weaken cost i x fuel _ b s (omega arith) g.0
    copy_nodes-Outcome (src ∷ rest) id (some m) b s h g =
        bind-Returns (Outcome cost i x fuel (λ m t. Going cost i x fuel b t))
          (Outcome cost i x fuel
            (Copied (suc id) (nodes_cost cost subr.expr_graph.calls (suc id) rest + b)))
          (copy_next x subr id src m) (copy_nodes x subr rest (suc id)) s
          (copy_next-Outcome id src rest m b s h g)
          (λ next t going. copy_nodes-Outcome rest (suc id) next b t h.2 going)

    finish_call-Gone :
        (m : Option IdMap) (b : ℕ) (s : Inlining)
        → Outcome cost i x fuel (λ m t. Going cost i x fuel b t) m s
        → Returns (λ r t. Gone cost i x fuel t) (finish_call x subr m s)
    unfolding finish_call
    finish_call-Gone none b s g = g
    finish_call-Gone (some m) b s g = elim (Option-cases (find_id subr.expr_root m)) [
      | inl e ↦ rw (e, Returns) (replace_call_with_zero-Gone cost i x fuel b _ s g)
      | inr (root, e) ↦ rw (e, Returns) (convert_call-Gone cost i x fuel b root s g)
    ]

    copy_graph-Gone :
        (m : Option IdMap) (s : Inlining)
        → CanBeCopied subr.expr_graph
        → Outcome cost i x fuel
            (λ m t.
              Going cost i x fuel
                (length subr.expr_graph.constants
                  + nodes_cost cost subr.expr_graph.calls 0 subr.expr_graph.nodes)
                t)
            m
            s
        → Returns (λ r t. Gone cost i x fuel t) (copy_graph x subr m s)
    unfolding copy_graph
    copy_graph-Gone none s h g = g
    copy_graph-Gone (some m) s h g =
        let cost_left = nodes_cost cost subr.expr_graph.calls 0 subr.expr_graph.nodes in
        bind-Returns (λ r t. Gone cost i x fuel t) (λ m t. Going cost i x fuel cost_left t)
          (copy_constants subr.expr_graph subr.expr_graph.constants m) _ s
          (copy_constants-Going cost i x fuel subr.expr_graph subr.expr_graph.constants cost_left m
            s h.constants g)
          (λ m' t g'.
            bind-Returns (λ r t. Gone cost i x fuel t)
              (Outcome cost i x fuel (λ m t. Going cost i x fuel 0 t))
              (copy_nodes x subr subr.expr_graph.nodes 0
                (some (map_return (lookup subr.name subr.expr_graph.inputs) m')))
              (finish_call x subr) t
              (copy_nodes-Outcome subr.expr_graph.nodes 0
                (some (map_return (lookup subr.name subr.expr_graph.inputs) m')) 0 t h.nodes
                (
                  Going-weaken cost i x fuel cost_left (cost_left + 0) t (omega arith) g',
                  λ j lt. absurd (omega arith),
                ))
              (λ mapped u g''. finish_call-Gone mapped 0 u g''))

  inline_subroutine-Gone :
      (call : Call) (subr : Subroutine) (s : Inlining)
      → call.id ≡ x
      → CanBeCopied subr.expr_graph
      → Going cost i x fuel
          (length subr.expr_graph.constants
            + nodes_cost cost subr.expr_graph.calls 0 subr.expr_graph.nodes)
          s
      → Returns (λ r t. Gone cost i x fuel t) (inline_subroutine call subr s)
  unfolding inline_subroutine
  inline_subroutine-Gone call subr s same h g =
      let (node, there) = get_elem?-lt s.graph.nodes x g.here in
      elim (Bool-cases (length node.operands == length subr.inputs)) [
        | inl e ↦
            rw (same, there, e)
              (bind-Returns (λ r t. Gone cost i x fuel t)
                (Outcome cost i x fuel (λ m t.
                  Going cost i x fuel
                    (length subr.expr_graph.constants
                      + nodes_cost cost subr.expr_graph.calls 0 subr.expr_graph.nodes)
                    t))
                (map_inputs x subr.expr_graph.inputs subr.inputs node.operands
                  ((invalid_id, invalid_id) ∷ []))
                (copy_graph x subr) s
                (map_inputs-Outcome subr.expr_graph.inputs subr.inputs node.operands _ _ s
                  ((==_iff (length node.operands) (length subr.inputs)).0 e) g)
                (λ m t g'. copy_graph-Gone subr m t h g'))
        | inr e ↦ rw (same, there, e) (replace_call_with_zero-Gone cost i x fuel _ _ s g)
      ]

  pub inline_call-Gone :
      (subroutines : List Subroutine) (call : Call) (s : Inlining)
      → call.id ≡ x
      → ((id : SubrId) (subr : Subroutine)
          → get_elem? subroutines id ≡ some subr
          → CanBeCopied subr.expr_graph)
      → IsCost cost subroutines
      → Going cost i x fuel (cost call.subr_id) s
      → Returns (λ r t. Gone cost i x fuel t) (inline_call subroutines call s)
  unfolding inline_call inline_known
  inline_call-Gone subroutines call s same h costs g =
      elim (Option-cases (get_elem? subroutines call.subr_id)) [
        | inl e ↦ rw (e, same) (replace_call_with_zero-Gone cost i x fuel _ _ s g)
        | inr (subr, e) ↦ elim (Bool-cases (subr.expr_root == invalid_id)) [
          | inl e' ↦ rw (e, e', same) (replace_call_with_zero-Gone cost i x fuel _ _ s g)
          | inr e' ↦
              rw (e, e')
                (inline_subroutine-Gone call subr s same (h call.subr_id subr e)
                  (Going-weaken cost i x fuel _ _ s (costs call.subr_id subr e) g))
        ]
      ]
