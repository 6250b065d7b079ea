-- ===== src/Tig/Calls/Endless.antt =====
-- A subroutine that calls itself, in `flatten_calls` of src/ir/tig_builder.cpp.
use abys.Prelude.{
  lookup, ℕ, zero, suc, ◌+◌, ◌≤◌, ◌<◌, ◌%◌, ◌≡◌, ◌≢◌, refl, ap, ◌∙◌, Bool, true, false, Option,
  none, some, List, [], ◌∷◌, ◌++◌, length, get_elem?, set, length-append, length-set,
  get_elem?-set_other, get_elem?-append_left, get_elem?-append_right, lt_of_get_elem?, arith,
}
use abys.Run.{Returns}
use abys.Expr.Graph.{ExprGraph, SubrId, Node, Op, Call, id_limit, bit_node, initial_graph}
use abys.Tig.Graph.{Subroutine, Module, Node as TigNode}
use abys.Tig.Builder.{TigBuilder}
use abys.Tig.Builder.Inline.{
  Inlining, inline_call, inline_known, inline_subroutine, map_inputs, copy_graph, copy_constants,
  copy_constant, emplace, find_id, map_return, copy_nodes, copy_next, map_operands, copy_node,
  push_node, copy_call, find_call, copy_properties, find_unpacked, finish_call, convert_call,
}
use abys.Tig.Builder.Flatten.{
  inline_calls, flatten_each, flatten_module, flatten_node, flatten_calls, keep_first,
}
use abys.Tig.Calls.{is_call}

-- A subroutine without inputs that yields its own call.
pub record CallsItself (id : SubrId) (subr : Subroutine) : Type 0 where
  pub node : Node
  pub call : Call
  pub is_call' : is_call node ≡ true
  pub no_operands : node.operands ≡ []
  pub at : call.id ≡ 2
  pub self : call.subr_id ≡ id
  pub inputs : subr.inputs ≡ []
  pub graph :
      subr.expr_graph
      ≡ record initial_graph { nodes = bit_node ∷ bit_node ∷ node ∷ []; calls = call ∷ [] }
  pub root : subr.expr_root ≡ 2

-- The state behind the inlining of the call `c`, whose node is `n`.
abbrev inlined : Node → Call → Call → Node → Inlining → Inlining
inlined node call c n s =
    let dst = length s.graph.nodes % id_limit in
    record s {
      graph = record s.graph {
        nodes =
            set (s.graph.nodes ++ record node { operands = [] } ∷ []) c.id
              (record n { op = Op.convert; operands = dst ∷ [] });
        calls = s.graph.calls ++ record { id = dst; subr_id = call.subr_id; name = call.name } ∷ [];
      };
    }

inline_call_self :
    (id : SubrId) (subr : Subroutine) (self : CallsItself id subr) (subroutines : List Subroutine)
    (c : Call) (n : Node) (s : Inlining)
    → get_elem? subroutines id ≡ some subr
    → c.subr_id ≡ id
    → get_elem? s.graph.nodes c.id ≡ some n
    → n.operands ≡ []
    → inline_call subroutines c s ≡ some (tt, inlined self.node self.call c n s)
unfolding inline_call inline_known inline_subroutine map_inputs copy_graph copy_constants
    copy_constant emplace find_id map_return copy_nodes copy_next map_operands copy_node push_node
    copy_call find_call copy_properties find_unpacked finish_call convert_call lookup
inline_call_self id subr self subroutines c n s known same there bare =
    rw
      (
        same, known, self.root, there, bare, self.inputs, self.graph, self.no_operands,
        self.is_call', self.at,
      )
      (rw
        (get_elem?-append_left s.graph.nodes (record self.node { operands = [] } ∷ []) c.id
            (lt_of_get_elem? s.graph.nodes c.id there)
          ∙ there)
        refl)

-- The last call of a graph, at `i`, is one of the subroutine, and its node has no operands.
pub record AtSelfCall (id : SubrId) (i : ℕ) (g : ExprGraph) : Type 0 where
  pub call : Call
  pub node : Node
  pub last : length g.calls ≡ suc i
  pub listed : get_elem? g.calls i ≡ some call
  pub self : call.subr_id ≡ id
  pub there : get_elem? g.nodes call.id ≡ some node
  pub no_operands : node.operands ≡ []

module _ (id : SubrId) (subr : Subroutine) (self : CallsItself id subr)
    (subroutines : List Subroutine) (known : get_elem? subroutines id ≡ some subr) where
  -- The copy ends in a call of the same subroutine.
  next-AtSelfCall :
      (i : ℕ) (s : Inlining) (a : AtSelfCall id i s.graph)
      → length s.graph.nodes < id_limit
      → AtSelfCall id (suc i) (inlined self.node self.call a.call a.node s).graph
  next-AtSelfCall i s a room =
      let e : length s.graph.nodes % id_limit ≡ length s.graph.nodes = omega arith in
      let entry : Call = record {
        id = length s.graph.nodes % id_limit;
        subr_id = self.call.subr_id;
        name = self.call.name;
      } in
      let copy : Node = record self.node { operands = [] } in
      let z : suc i ≡ length s.graph.calls + 0 = omega (arith, a.last) in
      record {
        call = entry;
        node = copy;
        last = omega (arith, length-append s.graph.calls (entry ∷ []), a.last);
        listed = rw z (get_elem?-append_right s.graph.calls (entry ∷ []) 0);
        self = self.self;
        there = rw e (
            get_elem?-set_other (s.graph.nodes ++ copy ∷ []) a.call.id (length s.graph.nodes) _
              (other e)
            ∙ new copy);
        no_operands = refl;
      }
    where
      other :
          length s.graph.nodes % id_limit ≡ length s.graph.nodes → a.call.id ≢ length s.graph.nodes
      other e = let lt = lt_of_get_elem? s.graph.nodes a.call.id a.there in omega arith

      new :
          (copy : Node) → get_elem? (s.graph.nodes ++ copy ∷ []) (length s.graph.nodes) ≡ some copy
      new copy =
          let z : length s.graph.nodes ≡ length s.graph.nodes + 0 = omega arith in
          ap (get_elem? (s.graph.nodes ++ copy ∷ [])) z
          ∙ get_elem?-append_right s.graph.nodes (copy ∷ []) 0

  inline_calls_endless :
      (fuel i : ℕ) (s : Inlining)
      → AtSelfCall id i s.graph
      → length s.graph.nodes + fuel ≤ id_limit
      → Returns (λ done t. done ≡ false) (inline_calls subroutines fuel i s)
  unfolding inline_calls
  inline_calls_endless zero i s a room = let e = a.last in ground arith
  inline_calls_endless (suc fuel) i s a room =
      let more = length-append s.graph.nodes (record self.node { operands = [] } ∷ []) in
      let same =
        length-set (s.graph.nodes ++ record self.node { operands = [] } ∷ []) a.call.id
          (record a.node { op = Op.convert; operands = (length s.graph.nodes % id_limit) ∷ [] }) in
      rw
        (
          a.listed,
          inline_call_self id subr self subroutines a.call a.node s known a.self a.there
              a.no_operands,
        )
        (inline_calls_endless fuel (suc i) _ (next-AtSelfCall i s a (omega arith))
          (omega (arith, more, same)))

-- Where the list of calls of the first node of a design is one call, without operands, of a
-- subroutine without inputs that yields its own call, the flattening of calls has not ended after
-- any number of rounds for which identifiers are left.
pub flatten_calls_endless :
    (id : SubrId) (subr : Subroutine) (fuel : ℕ) (s : TigBuilder) (m : Module) (ms : List Module)
    (node : TigNode) (nodes : List TigNode)
    → CallsItself id subr
    → get_elem? s.design.subroutines id ≡ some subr
    → s.design.modules ≡ m ∷ ms
    → m.nodes ≡ node ∷ nodes
    → AtSelfCall id 0 node.expr_graph
    → length node.expr_graph.nodes + fuel ≤ id_limit
    → Returns (λ done t. done ≡ false) (flatten_calls fuel s)
unfolding flatten_calls flatten_each flatten_module flatten_node keep_first
flatten_calls_endless id subr fuel s m ms node nodes self known first_module first_node at room =
    let (t, e) = stopped _ (
      inline_calls_endless id subr self s.design.subroutines known fuel 0
        (record { graph = node.expr_graph; diagnostics = s.diagnostics }) at room) in
    rw (first_module, first_node, e) refl
  where
    stopped :
        (o : Option (Bool × Inlining))
        → Returns (λ done t. done ≡ false) o
        → (t : Inlining) × (o ≡ some (false, t))
    stopped none h = absurd h
    stopped (some (b, t)) h = (t, ap (λ b. some (b, t)) h)
