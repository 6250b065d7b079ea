-- ===== src/Expr/Valid.antt =====
-- The valid graphs and builders of src/ir/expr_builder.cpp: operands exist and are earlier in some
-- order, inputs and constants are found in their tables.
pub mod Rank
pub mod Append
pub mod Made
pub mod Simple
pub mod Nary
pub mod Logical
pub mod Order
pub mod Choice
pub mod Mux
pub mod Match
pub mod Case
pub mod Constant
pub mod Indices
pub mod Index
pub mod Select
pub mod Names
pub mod Sequence
pub mod Initial
pub mod Unpacked
use abys.Prelude.{ℕ, ◌+◌, ◌≤◌, ◌<◌, ◌≡◌, ◌⊎◌, String, some, List, All, length, get_elem?, lookup}
use abys.Prelude.Text.{Text}
use abys.Expr.Graph.{ExprGraph, ExprId, Node, UnpackedProperties, Op, invalid_id}
use abys.Expr.Builder.{Builder, size}
use abys.Expr.Builder.Unpacked.{find_properties}
use abys.Expr.Eval.Steps.{constant_value}

-- An operand is left out, or is a node of a rank below the bound.
abbrev pub IsOperand : List Node → (ExprId → ℕ) → ℕ → ExprId → Type 0
IsOperand nodes rank bound o = (o ≡ invalid_id) ⊎ ((o < length nodes) × (rank o < bound))

-- The operands of a node have lower ranks than the node, and ranks are below the number of nodes.
-- The order of creation is no such rank.
pub record IsRanked (nodes : List Node) (rank : ExprId → ℕ) : Type 0 where
  pub falls :
      (i : ExprId) (node : Node)
      → get_elem? nodes i ≡ some node
      → All (IsOperand nodes rank (rank i)) node.operands
  pub below : (i : ExprId) → i < length nodes → rank i < length nodes

abbrev pub IsAcyclic : List Node → Type 0
IsAcyclic nodes = (rank : ExprId → ℕ) × IsRanked nodes rank

abbrev pub HasOp : List Node → Op → ExprId → Type 0
HasOp nodes op i = (node : Node) × (get_elem? nodes i ≡ some node) × (node.op ≡ op)

-- The two shared constants are there, every constant has its value in the table, every sequence its properties, and each input is the node
-- of an input. No identifier is the invalid one.
pub record IsWellFormed (g : ExprGraph) : Type 0 where
  pub rank : ExprId → ℕ
  pub ranked : IsRanked g.nodes rank
  pub shared : 2 ≤ length g.nodes
  pub fits : length g.nodes ≤ invalid_id
  pub inputs :
      (name : String) (id : ExprId) → lookup name g.inputs ≡ some id → HasOp g.nodes Op.input id
  pub constants :
      (i : ExprId) → HasOp g.nodes Op.const i → (v : Text) × (constant_value i g.constants ≡ some v)
  pub sequences :
      (i : ExprId)
      → HasOp g.nodes Op.sequence i
      → (p : UnpackedProperties) × (find_properties i g.unpacked_properties ≡ some p)

-- The names of the builder stand for nodes of the graph.
pub record IsValid (b : Builder) : Type 0 where
  pub well_formed : IsWellFormed b.graph
  pub names : (name : String) (id : ExprId) → lookup name b.name_map ≡ some id → id < size b

-- What an operation does to a graph: it yields a node of it, keeps all nodes as they are, and adds at
-- most `most` nodes.
pub record Adds (most : ℕ) (b : Builder) (id : ExprId) (b' : Builder) : Type 0 where
  pub valid : IsValid b'
  pub there : id < size b'
  pub keeps :
      (i : ExprId) (node : Node)
      → get_elem? b.graph.nodes i ≡ some node
      → get_elem? b'.graph.nodes i ≡ some node
  pub grows : size b ≤ size b'
  pub bounded : size b' ≤ size b + most
