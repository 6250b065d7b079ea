-- ===== src/Tig/Calls.antt =====
-- What the loop of `flatten_calls` in src/ir/tig_builder.cpp keeps of a graph: its calls are listed, and
-- their cost, which bounds what the loop has left to do.
pub mod Map
pub mod Inlined
pub mod Copied
pub mod Inlines
pub mod Grows
pub mod Steps
pub mod Kept
pub mod Ends
pub mod Endless
use abys.Prelude.{
  ℕ, zero, suc, ◌+◌, ◌≤◌, ◌<◌, ◌≡◌, ◌⊎◌, Bool, true, false, Option, none, some, List, [], ◌∷◌, All,
  length, get_elem?, if◌then◌else◌,
}
use abys.Expr.Graph.{
  ExprGraph, ExprId, SubrId, Node, Op, Call, Constant, UnpackedProperties, is_op, invalid_id,
  id_limit,
}
use abys.Tig.Graph.{Subroutine}
use abys.Tig.Builder.Inline.{Inlining, find_call, find_unpacked}

abbrev pub is_call : Node → Bool
is_call node = is_op node.op Op.call

-- A node has a call from `i` on.
abbrev pub IsListed : ℕ → List Call → ExprId → Type 0
IsListed i calls id =
    (j : ℕ) × (call : Call) × (i ≤ j) × (get_elem? calls j ≡ some call) × (call.id ≡ id)

-- The calls are those of nodes that are there, and each node of a call is listed from `i` on.
pub record AreListed (i : ℕ) (g : ExprGraph) : Type 0 where
  pub there : (j : ℕ) (call : Call) → get_elem? g.calls j ≡ some call → call.id < length g.nodes
  pub listed :
      (id : ExprId) (node : Node)
      → get_elem? g.nodes id ≡ some node
      → is_call node ≡ true
      → IsListed i g.calls id

abbrev pub HasNoCall : List Node → Type 0
HasNoCall nodes =
    (id : ExprId) (node : Node) → get_elem? nodes id ≡ some node → is_call node ≡ false

-- The properties of a node are based on an earlier node, or on none.
abbrev pub IsBased : ExprId → Option UnpackedProperties → Type 0
IsBased id none = Unit
IsBased id (some p) = (p.base ≡ invalid_id) ⊎ (p.base < id)

-- What the copy of a graph asks of its nodes, from `id` on.
abbrev pub AreCopied : ExprGraph → ExprId → List Node → Type 0
AreCopied g id [] = Unit
AreCopied g id (node ∷ rest) =
    (is_call node ≡ true → (call : Call) × (find_call id g.calls ≡ some call))
    × IsBased id (find_unpacked id g.unpacked_properties)
    × AreCopied g (suc id) rest

abbrev pub IsCopiedConstant : ExprGraph → Constant → Type 0
IsCopiedConstant g constant =
    (node : Node) × (get_elem? g.nodes constant.id ≡ some node) × (is_call node ≡ false)

pub record CanBeCopied (g : ExprGraph) : Type 0 where
  pub constants : All (IsCopiedConstant g) g.constants
  pub nodes : AreCopied g 0 g.nodes

module _ (cost : SubrId → ℕ) where
  -- The cost of calls from `i` on: one round for each of them, and the cost of its subroutine.
  unfoldable pub cost_from : ℕ → List Call → ℕ
  cost_from i [] = 0
  cost_from zero (call ∷ rest) = suc (cost call.subr_id) + cost_from zero rest
  cost_from (suc i) (call ∷ rest) = cost_from i rest

  abbrev pub call_cost : Option Call → ℕ
  call_cost none = 0
  call_cost (some call) = suc (cost call.subr_id)

  -- The cost of copying nodes from `id` on: one for each of them, and the cost of its call.
  unfoldable pub nodes_cost : List Call → ExprId → List Node → ℕ
  unfolding find_call
  nodes_cost calls id [] = 0
  nodes_cost calls id (node ∷ rest) =
      suc (if is_call node then call_cost (find_call id calls) else 0)
      + nodes_cost calls (suc id) rest

  -- A cost of subroutines that covers what they hold and what they call. A subroutine that calls itself
  -- has none.
  abbrev pub IsCost : List Subroutine → Type 0
  IsCost subroutines =
      (id : SubrId) (subr : Subroutine)
      → get_elem? subroutines id ≡ some subr
      → length subr.expr_graph.constants + nodes_cost subr.expr_graph.calls 0 subr.expr_graph.nodes
        ≤ cost id
