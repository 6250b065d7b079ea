-- ===== src/Tig/Dumper/Conditions.antt =====
-- What conditions are under assumptions on inputs: `lookup_assumed_condition` of src/ir/tig_dumper.cpp.
use abys.Prelude.{
  ℕ, ◌+◌, ◌^◌, ◌≡◌, ◌==◌, String, Bool, true, false, Option, none, some, [], ◌∷◌, Assoc, All,
  get_elem?, lookup,
}
use abys.Expr.Graph.{ExprGraph, ExprId, Node, Op, is_op}
use abys.Tig.Dumper.{is_inverter}

abbrev pub bit : Bool → ℕ
bit true = 1
bit false = 0

-- Values of the nodes of a graph under which the assumptions on its inputs hold.
pub record Respects (graph : ExprGraph) (assumptions : Assoc Bool) (value : ExprId → ℕ)
    : Type 0 where
  pub inputs :
      (name : String) (id : ExprId) (b : Bool)
      → lookup name graph.inputs ≡ some id
      → lookup name assumptions ≡ some b
      → value id ≡ bit b
  pub logical_nots :
      (id o : ExprId) (node : Node)
      → get_elem? graph.nodes id ≡ some node
      → is_op node.op Op.logical_not ≡ true
      → node.operands ≡ o ∷ []
      → value id ≡ bit (value o == 0)
  pub bitwise_nots :
      (id o : ExprId) (node : Node)
      → get_elem? graph.nodes id ≡ some node
      → is_op node.op Op.bitwise_not ≡ true
      → node.operands ≡ o ∷ []
      → value id + value o + 1 ≡ 2 ^ node.width

-- The node of an input that has an assumption, behind any number of inverters.
pub data IsAssumed (graph : ExprGraph) (assumptions : Assoc Bool) : ExprId → Type 0 where
  input :
      (id : ExprId) (node : Node) (name : String) (b : Bool)
      → get_elem? graph.nodes id ≡ some node
      → is_op node.op Op.input ≡ true
      → lookup name graph.inputs ≡ some id
      → lookup name assumptions ≡ some b
      → IsAssumed graph assumptions id
  inverter :
      (id o : ExprId) (node : Node)
      → get_elem? graph.nodes id ≡ some node
      → is_inverter node ≡ true
      → node.operands ≡ o ∷ []
      → IsAssumed graph assumptions o
      → IsAssumed graph assumptions id

-- The inputs are those of the map, in any order, and each node has one name.
pub record IsWalk (inputs walk : Assoc ExprId) : Type 0 where
  pub sound : All (λ input. lookup input.0 inputs ≡ some input.1) walk
  pub complete :
      (name : String) (id : ExprId)
      → lookup name inputs ≡ some id
      → (k : ℕ) × (get_elem? walk k ≡ some (name, id))
  pub one_name :
      (name name' : String) (id : ExprId)
      → lookup name inputs ≡ some id
      → lookup name' inputs ≡ some id
      → name ≡ name'

-- There is an answer: a truth value, which the value `v` is, or none, and then `P` does not hold.
abbrev pub Tells : Type 0 → ℕ → Option (Option Bool) → Type 0
Tells P v none = ⊥
Tells P v (some none) = ¬ P
Tells P v (some (some b)) = v ≡ bit b
