-- ===== src/Tig/Calls/Steps.antt =====
-- What the steps of one call keep of a graph: src/ir/tig_builder.cpp.
use mathlib.Core.List
use abys.Prelude.{
  ◌%◌, ◌≡◌, inl, inr, refl, sym, ◌∙◌, true, false, Bool, Option, none, some, List, [], ◌∷◌, ◌++◌,
  ◌==◌, ◌||◌, String, Assoc, length, get_elem?, lookup, arith, length-set, get_elem?-set_other,
  Option-cases, Bool-cases, if◌then◌else◌,
}
use abys.Run.{Run, pure, ◌>>=◌, Whenever, Whenever-map, bind-Whenever}
use abys.Expr.Graph.{
  ExprGraph, ExprId, Node, Op, Call, Constant, UnpackedProperties, id_limit, invalid_id,
  constant_zero, constant_one,
}
use abys.Tig.Graph.{SignalProperties}
use abys.Tig.Builder.Inline.{
  push_found_call, Inlining, IdMap, convert_call, replace_call_with_zero, give_up, map_inputs,
  copy_constant, copy_constants, copy_properties, push_node, emplace, find_id,
}
use abys.Tig.Calls.Grows.{Grows, Grows-refl, Grows-trans, pushed-Grows}

abbrev pub Kept : ExprId → Inlining → {A : Type 0} → A → Inlining → Type 0
Kept x s a t = Grows (λ id. x ≡ id) s.graph t.graph

-- `copy_call`, told by whether the node is a call
abbrev pub with_call : Option Call → Bool → ExprId → Inlining → Inlining
with_call call true dst_id s = push_found_call call dst_id s
with_call call false dst_id s = s

module _ (x : ExprId) where
  pub convert_call-Kept :
      (operand : ExprId) (s : Inlining) → Whenever (Kept x s) (convert_call x operand s)
  unfolding convert_call
  convert_call-Kept operand s = elim (Option-cases (get_elem? s.graph.nodes x)) [
    | inl e ↦ rw e tt
    | inr (node, e) ↦
        let converted : Node = record node { op = Op.convert; operands = operand ∷ [] } in
        rw e (record {
          inputs = refl;
          longer = omega (arith, length-set s.graph.nodes x converted);
          nodes = λ le id n there ne. get_elem?-set_other s.graph.nodes x id converted ne ∙ there;
          constants = ([], sym (List.append-nil s.graph.constants));
          properties = ([], sym (List.append-nil s.graph.unpacked_properties));
          calls = ([], sym (List.append-nil s.graph.calls), λ le. tt);
        })
  ]

  pub replace_call_with_zero-Kept :
      (detail : String) (s : Inlining) → Whenever (Kept x s) (replace_call_with_zero x detail s)
  unfolding replace_call_with_zero
  replace_call_with_zero-Kept detail s = convert_call-Kept constant_zero _

  pub give_up-Kept : (detail : String) (s : Inlining) → Whenever (Kept x s) (give_up x detail s)
  unfolding give_up
  give_up-Kept detail s =
      bind-Whenever (Kept x s) (Kept x s) (replace_call_with_zero x detail) _ s
        (replace_call_with_zero-Kept detail s) (λ r t k. k)

  -- Runs one after the other.
  pub then-Kept :
      {A B : Type 0} (m : Run Inlining A) (f : A → Run Inlining B) (s : Inlining)
      → Whenever (Kept x s) (m s)
      → ((a : A) (t : Inlining) → Whenever (Kept x t) (f a t))
      → Whenever (Kept x s) ((m >>= f) s)
  then-Kept m f s h k = bind-Whenever (Kept x s) (Kept x s) m f s h (λ a t p.
      Whenever-map (Kept x s) (Kept x t) (f a t)
        (λ b u q.
          Grows-trans (λ id. x ≡ id) (λ id. x ≡ id) s.graph t.graph u.graph p q (λ le id lt ne. ne))
        (k a t))

  pub map_inputs-Kept :
      (inputs : Assoc ExprId) (formals : List SignalProperties) (operands : List ExprId)
      (id_map : IdMap) (s : Inlining)
      → Whenever (Kept x s) (map_inputs x inputs formals operands id_map s)
  unfolding map_inputs
  map_inputs-Kept inputs [] operands id_map s = Grows-refl _ s.graph
  map_inputs-Kept inputs (formal ∷ rest) [] id_map s = tt
  map_inputs-Kept inputs (formal ∷ rest) (operand ∷ operands) id_map s =
      elim (Option-cases (lookup formal.name inputs)) [
        | inl e ↦ rw (e, Whenever) (give_up-Kept _ s)
        | inr (id, e) ↦
            rw (e, Whenever) (map_inputs-Kept inputs rest operands (emplace id operand id_map) s)
      ]

  copy_constant-Kept :
      (source : ExprGraph) (constant : Constant) (s : Inlining)
      → Whenever (Kept x s) (copy_constant source constant s)
  unfolding copy_constant push_node
  copy_constant-Kept source constant s = elim (Option-cases (get_elem? source.nodes constant.id)) [
    | inl e ↦ rw e tt
    | inr (node, e) ↦ rw e (
        pushed-Grows _ s.graph _ node _ [] refl refl refl refl (sym (List.append-nil s.graph.calls))
          (λ lt. tt))
  ]

  choose-Kept :
      (shared : Bool) (source : ExprGraph) (constant : Constant) (s : Inlining)
      → Whenever (Kept x s) ((if shared then pure constant.id else copy_constant source constant) s)
  choose-Kept true source constant s = Grows-refl _ s.graph
  choose-Kept false source constant s = copy_constant-Kept source constant s

  pub copy_constants-Kept :
      (source : ExprGraph) (constants : List Constant) (id_map : IdMap) (s : Inlining)
      → Whenever (Kept x s) (copy_constants source constants id_map s)
  unfolding copy_constants
  copy_constants-Kept source [] id_map s = Grows-refl _ s.graph
  copy_constants-Kept source (constant ∷ rest) id_map s =
      then-Kept
        (if constant.id == constant_zero || constant.id == constant_one
          then pure constant.id
          else copy_constant source constant)
        (λ id. copy_constants source rest (emplace constant.id id id_map)) s
        (choose-Kept (constant.id == constant_zero || constant.id == constant_one) source constant
          s)
        (λ id t. copy_constants-Kept source rest (emplace constant.id id id_map) t)

  described-Kept :
      (g h : ExprGraph) (p : UnpackedProperties)
      → h ≡ record g { unpacked_properties = g.unpacked_properties ++ p ∷ [] }
      → Grows (λ id. x ≡ id) g h
  described-Kept g h p e = rw e (record {
    inputs = refl;
    longer = omega arith;
    nodes = λ le id node there ne. there;
    constants = ([], sym (List.append-nil g.constants));
    properties = (p ∷ [], refl);
    calls = ([], sym (List.append-nil g.calls), λ le. tt);
  })

  pub copy_properties-Kept :
      (p : Option UnpackedProperties) (id_map : IdMap) (dst_id : ExprId) (s : Inlining)
      → Whenever (Kept x s) (copy_properties p id_map dst_id s)
  unfolding copy_properties
  copy_properties-Kept none id_map dst_id s = Grows-refl _ s.graph
  copy_properties-Kept (some p) id_map dst_id s = elim (Bool-cases (p.base == invalid_id)) [
    | inl e ↦ rw e (described-Kept s.graph _ _ refl)
    | inr ne ↦ elim (Option-cases (find_id p.base id_map)) [
      | inl e ↦ rw (ne, e) tt
      | inr (base, e) ↦ rw (ne, e) (described-Kept s.graph _ _ refl)
    ]
  ]

  -- a node and the entry of its call
  pub called-Kept :
      (call : Option Call) (is_call' : Bool) (node : Node) (s : Inlining)
      → Grows
          (λ id. x ≡ id)
          s.graph
          (with_call call is_call'
            (length s.graph.nodes % id_limit)
            (record s { graph = record s.graph { nodes = s.graph.nodes ++ node ∷ [] } })).graph
  called-Kept call false node s =
      pushed-Grows _ s.graph _ node [] [] refl refl (sym (List.append-nil s.graph.constants)) refl
        (sym (List.append-nil s.graph.calls)) (λ lt. tt)
  called-Kept none true node s =
      pushed-Grows _ s.graph _ node [] [] refl refl (sym (List.append-nil s.graph.constants)) refl
        (sym (List.append-nil s.graph.calls)) (λ lt. tt)
  called-Kept (some call) true node s =
      pushed-Grows _ s.graph _ node [] (_ ∷ []) refl refl (sym (List.append-nil s.graph.constants))
        refl refl
        (λ lt.
          let same : length s.graph.nodes % id_limit ≡ length s.graph.nodes = omega arith in
          (omega (arith, same), tt))
