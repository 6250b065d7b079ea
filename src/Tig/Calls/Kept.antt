-- ===== src/Tig/Calls/Kept.antt =====
-- What the loop of `flatten_calls` in src/ir/tig_builder.cpp keeps of a graph, besides its calls.
use mathlib.Core.Path.{subst}
use abys.Prelude.{
  ℕ, zero, suc, ◌%◌, ◌≤◌, ◌<◌, ◌≡◌, inl, inr, refl, sym, ap, ◌∙◌, Option, none, some, List, [], ◌∷◌,
  ◌++◌, ◌==◌, length, get_elem?, lookup, arith, get_elem?-append_cases, All-get_elem?, Option-cases,
  Bool-cases,
}
use abys.Run.{pure, Whenever, Whenever-map, bind-Whenever}
use abys.Expr.Graph.{ExprGraph, ExprId, Node, Op, Call, is_op, id_limit, invalid_id}
use abys.Tig.Builder.Flatten.{inline_calls}
use abys.Tig.Graph.{Subroutine}
use abys.Tig.Builder.Inline.{
  Inlining, IdMap, map_inputs, copy_constants, copy_node, copy_next, copy_nodes, copy_call,
  copy_properties, finish_call, copy_graph, inline_subroutine, inline_known, inline_call,
  known_subroutine, push_node, emplace, find_id, map_operands, map_return, find_call, find_unpacked,
}
use abys.Tig.Calls.Grows.{Grows, Grows-refl, Grows-trans, IsCalled}
use abys.Tig.Calls.Steps.{
  Kept, with_call, convert_call-Kept, replace_call_with_zero-Kept, give_up-Kept, then-Kept,
  map_inputs-Kept, copy_constants-Kept, copy_properties-Kept, called-Kept,
}

module _ (x : ExprId) where
  copy_call-with_call :
      (op : Op) (calls : List Call) (src_id dst_id : ExprId) (s : Inlining)
      → copy_call op calls src_id dst_id s
        ≡ with_call (find_call src_id calls) (is_op op Op.call) dst_id s
  unfolding copy_call
  copy_call-with_call op calls src_id dst_id s = elim (Bool-cases (is_op op Op.call)) [
    | inl e ↦ rw e refl
    | inr e ↦ rw e refl
  ]

  copy_node-Kept :
      (source : ExprGraph) (src_id : ExprId) (src : Node) (operands : List ExprId) (id_map : IdMap)
      (s : Inlining)
      → Whenever (Kept x s) (copy_node source src_id src operands id_map s)
  unfolding copy_node push_node
  copy_node-Kept source src_id src operands id_map s =
      let dst : ExprId = length s.graph.nodes % id_limit in
      let copy : Node = record src { operands = operands } in
      let pushed : Inlining = record s {
        graph = record s.graph { nodes = s.graph.nodes ++ copy ∷ [] };
      } in
      let call = find_call src_id source.calls in
      let t = with_call call (is_op src.op Op.call) dst pushed in
      rw (copy_call-with_call src.op source.calls src_id dst pushed) (
        Whenever-map (Kept x s) (Kept x t) _
          (λ m u q.
            Grows-trans (λ id. x ≡ id) (λ id. x ≡ id) s.graph t.graph u.graph
              (called-Kept x call (is_op src.op Op.call) copy s) q (λ le id lt ne. ne))
          (then-Kept x
            (copy_properties (find_unpacked src_id source.unpacked_properties)
              (emplace src_id dst id_map) dst)
            (λ r. pure (emplace src_id dst id_map)) t
            (copy_properties-Kept x (find_unpacked src_id source.unpacked_properties)
              (emplace src_id dst id_map) dst t)
            (λ r u. Grows-refl _ u.graph)))

  module _ (subr : Subroutine) where
    copy_next-Kept :
        (src_id : ExprId) (src : Node) (id_map : IdMap) (s : Inlining)
        → Whenever (Kept x s) (copy_next x subr src_id src id_map s)
    unfolding copy_next
    copy_next-Kept src_id src id_map s = elim (Option-cases (find_id src_id id_map)) [
      | inr (v, e) ↦ rw e (Grows-refl _ s.graph)
      | inl e ↦ elim (Option-cases (map_operands id_map src.operands)) [
        | inl e' ↦ rw (e, e') (give_up-Kept x _ s)
        | inr (operands, e') ↦
            rw (e, e')
              (then-Kept x (copy_node subr.expr_graph src_id src operands id_map)
                (λ next. pure (some next)) s
                (copy_node-Kept subr.expr_graph src_id src operands id_map s)
                (λ next t. Grows-refl _ t.graph))
      ]
    ]

    copy_nodes-Kept :
        (nodes : List Node) (src_id : ExprId) (id_map : Option IdMap) (s : Inlining)
        → Whenever (Kept x s) (copy_nodes x subr nodes src_id id_map s)
    unfolding copy_nodes
    copy_nodes-Kept [] src_id none s = Grows-refl _ s.graph
    copy_nodes-Kept (src ∷ rest) src_id none s = Grows-refl _ s.graph
    copy_nodes-Kept [] src_id (some id_map) s = Grows-refl _ s.graph
    copy_nodes-Kept (src ∷ rest) src_id (some id_map) s =
        then-Kept x (copy_next x subr src_id src id_map) (copy_nodes x subr rest (suc src_id)) s
          (copy_next-Kept src_id src id_map s) (λ next t. copy_nodes-Kept rest (suc src_id) next t)

    finish_call-Kept :
        (id_map : Option IdMap) (s : Inlining) → Whenever (Kept x s) (finish_call x subr id_map s)
    unfolding finish_call
    finish_call-Kept none s = Grows-refl _ s.graph
    finish_call-Kept (some id_map) s = elim (Option-cases (find_id subr.expr_root id_map)) [
      | inl e ↦ rw (e, Whenever) (replace_call_with_zero-Kept x _ s)
      | inr (root, e) ↦ rw (e, Whenever) (convert_call-Kept x root s)
    ]

    copy_graph-Kept :
        (id_map : Option IdMap) (s : Inlining) → Whenever (Kept x s) (copy_graph x subr id_map s)
    unfolding copy_graph
    copy_graph-Kept none s = Grows-refl _ s.graph
    copy_graph-Kept (some id_map) s =
        then-Kept x (copy_constants subr.expr_graph subr.expr_graph.constants id_map) _ s
          (copy_constants-Kept x subr.expr_graph subr.expr_graph.constants id_map s)
          (λ m t.
            then-Kept x
              (copy_nodes x subr subr.expr_graph.nodes 0
                (some (map_return (lookup subr.name subr.expr_graph.inputs) m)))
              (finish_call x subr) t
              (copy_nodes-Kept subr.expr_graph.nodes 0
                (some (map_return (lookup subr.name subr.expr_graph.inputs) m)) t)
              finish_call-Kept)

  inline_subroutine-Kept :
      (call : Call) (subr : Subroutine) (s : Inlining)
      → call.id ≡ x
      → Whenever (Kept x s) (inline_subroutine call subr s)
  unfolding inline_subroutine
  inline_subroutine-Kept call subr s same = elim (Option-cases (get_elem? s.graph.nodes x)) [
    | inl e ↦ rw (same, e) tt
    | inr (node, e) ↦ elim (Bool-cases (length node.operands == length subr.inputs)) [
      | inl fits ↦
          rw (same, e, fits)
            (then-Kept x
              (map_inputs x subr.expr_graph.inputs subr.inputs node.operands
                ((invalid_id, invalid_id) ∷ []))
              (copy_graph x subr) s
              (map_inputs-Kept x subr.expr_graph.inputs subr.inputs node.operands _ s)
              (copy_graph-Kept subr))
      | inr differs ↦ rw (same, e, differs) (replace_call_with_zero-Kept x _ s)
    ]
  ]

  pub inline_call-Kept :
      (subroutines : List Subroutine) (call : Call) (s : Inlining)
      → call.id ≡ x
      → Whenever (Kept x s) (inline_call subroutines call s)
  unfolding inline_call inline_known
  inline_call-Kept subroutines call s same =
      known (known_subroutine (get_elem? subroutines call.subr_id))
    where
      known : (o : Option Subroutine) → Whenever (Kept x s) (inline_known call o s)
      known none = rw same (replace_call_with_zero-Kept x _ s)
      known (some subr) = inline_subroutine-Kept call subr s same

Grows-IsCalled :
    (g h : ExprGraph) (p : Grows (IsCalled g) g h) (j : ℕ) (call : Call)
    → length h.nodes ≤ id_limit
    → get_elem? h.calls j ≡ some call
    → call.id < length g.nodes
    → IsCalled g call.id
Grows-IsCalled g h p j call le there lt =
    let (ds, same, new) = p.calls in
    elim (get_elem?-append_cases g.calls ds j call (ap (λ l. get_elem? l j) (sym same) ∙ there)) [
      | inl old ↦ (j, call, old, refl)
      | inr (k, e, later) ↦ absurd (
          omega
            (arith, lt, All-get_elem? (λ (c : Call). length g.nodes ≤ c.id) ds k (new le) later))
    ]

pub inline_calls-Grows :
    (subroutines : List Subroutine) (g : ExprGraph) (fuel i : ℕ) (s : Inlining)
    → Grows (IsCalled g) g s.graph
    → Whenever (λ done t. Grows (IsCalled g) g t.graph) (inline_calls subroutines fuel i s)
unfolding inline_calls
inline_calls-Grows subroutines g zero i s p = p
inline_calls-Grows subroutines g (suc fuel) i s p =
    elim (Option-cases (get_elem? s.graph.calls i)) [
      | inl e ↦ rw (e, Whenever) p
      | inr (call, e) ↦
          rw (e, Whenever)
            (bind-Whenever (λ done t. Grows (IsCalled g) g t.graph) (Kept call.id s)
              (inline_call subroutines call) (λ r. inline_calls subroutines fuel (suc i)) s
              (inline_call-Kept call.id subroutines call s refl)
              (λ r t q. inline_calls-Grows subroutines g fuel (suc i) t (
                Grows-trans (IsCalled g) (λ id. call.id ≡ id) g s.graph t.graph p q
                  (λ le id lt ne same. ne (
                    subst (IsCalled g) same (
                      Grows-IsCalled g s.graph p i call (omega (arith, q.longer, le)) e
                        (omega (arith, lt, same))))))))
    ]

pub starts-Grows : (g : ExprGraph) → Grows (IsCalled g) g g
starts-Grows g = Grows-refl (IsCalled g) g
