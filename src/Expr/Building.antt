-- ===== src/Expr/Building.antt =====
-- Sequences of the operations of src/ir/expr_builder.cpp, with what each asks of its operands.
pub mod Sound
use abys.Prelude.{
  ℕ, suc, ◌+◌, ◌≤◌, ◌<◌, ◌≡◌, ◌≢◌, refl, ◌==◌, not, true, false, Bool, String, some, List, [], ◌∷◌,
  inl, inr, arith, All, is_empty, if◌then◌else◌, get_elem?, length,
}
use abys.Prelude.Int.{ℤ}
use abys.Prelude.Text.{Text}
use abys.Run.{Run, Returns, Returns-map}
use abys.Expr.Graph.{ExprId, SubrId, Node, Op, SignalWidth, invalid_id}
use abys.Expr.Builder.{Builder, size, nodes}
use abys.Expr.Builder.Simple.{
  create_unary_reduce, create_unary, create_nary, create_logical_binary, create_binary,
  create_shift, create_compare,
}
use abys.Expr.Builder.Choice.{
  create_mux, create_list, create_match, create_case, create_convert, create_concat,
}
use abys.Expr.Builder.Index.{
  find_or_create_const, find_or_create_index, create_select, create_range,
}
use abys.Expr.Builder.Unpacked.{
  create_gather, start_sequence, extend_sequence, create_masked_assign, create_call,
  create_both_edge,
}
use abys.Expr.Builder.Names.{find_or_create_input, update_value, remove_input}
use abys.Expr.Valid.{IsValid, Adds}
use abys.Expr.Valid.Rank.{Exists}
use abys.Expr.Valid.Append.{Adds-weaken, is_plain}
use abys.Expr.Valid.Simple.{
  create_unary_reduce-Adds, create_unary-Adds, create_binary-Adds, create_shift-Adds,
  create_compare-Adds,
}
use abys.Expr.Valid.Nary.{IsNary, create_nary-IsNary}
use abys.Expr.Valid.Logical.{create_logical_binary-Adds}
use abys.Expr.Valid.Choice.{
  create_mux-Adds, create_list-Adds, create_convert-Adds, create_concat-Adds,
}
use abys.Expr.Valid.Match.{create_match-Adds}
use abys.Expr.Valid.Case.{HasShape, SomeValid, CaseCounts, create_case-Adds}
use abys.Expr.Valid.Constant.{FitsWidth, find_or_create_const-Adds, find_or_create_index-Adds}
use abys.Expr.Valid.Index.{HasRoom, IsSmall, create_select-Adds}
use abys.Expr.Valid.Names.{find_or_create_input-Adds}
use abys.Expr.Valid.Sequence.{start_sequence-Adds, extend_sequence-Adds}
use abys.Expr.Valid.Unpacked.{
  create_gather-Adds, create_both_edge-Adds, create_range-Adds, create_call-Adds,
  create_masked_assign-Adds,
}

-- The calls of an expression builder that make a node.
pub data Operation : Type 0 where
  unary_reduce unary : Op → ExprId → Operation
  nary : Op → List ExprId → Operation
  logical binary shift compare : Op → ExprId → ExprId → Operation
  mux : ExprId → ExprId → ExprId → Operation
  list : List ExprId → Operation
  match_value : ExprId → ExprId → Operation
  case_of : ExprId → List ExprId → List ExprId → Operation
  convert : ExprId → SignalWidth → Bool → Operation
  concat : List ExprId → Bool → Operation
  constant : Text → SignalWidth → Bool → Operation
  index_constant : ℤ → SignalWidth → Bool → Operation
  select : ExprId → ExprId → ℤ → ℤ → Operation
  range : ExprId → ExprId → SignalWidth → Bool → Operation
  gather : List ExprId → Operation
  first_assignment : ExprId → ExprId → List SignalWidth → SignalWidth → Bool → Operation
  next_assignment : ExprId → ExprId → Operation
  masked_assignment : ExprId → ExprId → ExprId → SignalWidth → SignalWidth → Bool → Operation
  call : SubrId → String → List ExprId → SignalWidth → Bool → Operation
  both_edge : ExprId → Operation
  input : String → SignalWidth → Bool → Operation

unfoldable pub perform : Operation → Run Builder ExprId
perform (unary_reduce op a) = create_unary_reduce op a
perform (unary op a) = create_unary op a
perform (nary op l) = create_nary op l
perform (logical op a c) = create_logical_binary op a c
perform (binary op a c) = create_binary op a c
perform (shift op a c) = create_shift op a c
perform (compare op a c) = create_compare op a c
perform (mux c p q) = create_mux c p q
perform (list l) = create_list l
perform (match_value selector value) = create_match selector value
perform (case_of selector values items) = create_case selector values items
perform (convert a width sign) = create_convert a width sign
perform (concat l sign) = create_concat l sign
perform (constant value width sign) = find_or_create_const value width sign
perform (index_constant z width sign) = find_or_create_index z width sign
perform (select value index msb lsb) = create_select value index msb lsb
perform (range value base width sign) = create_range value base width sign
perform (gather l) = create_gather l
perform (first_assignment next base dims width sign) = start_sequence next base dims width sign
perform (next_assignment current next) = extend_sequence current next
perform (masked_assignment current next base slice width sign) =
    create_masked_assign current next base slice width sign
perform (call subr_id name l width sign) = create_call subr_id name l width sign
perform (both_edge a) = create_both_edge a
perform (input name width sign) = find_or_create_input name width sign

-- What the assertions and the types of the operands ask of a call: operands that are there, or are
-- left out where the operation allows that.
unfoldable pub Allowed : Builder → Operation → Type 0
Allowed b (unary_reduce op a) = (is_plain op ≡ true) × (a < size b)
Allowed b (unary op a) = (is_plain op ≡ true) × (a < size b)
Allowed b (nary op l) = (is_plain op ≡ true) × (l ≢ []) × All (λ o. o < size b) l
Allowed b (logical op a c) = (is_plain op ≡ true) × (a < size b) × (c < size b)
Allowed b (binary op a c) = (is_plain op ≡ true) × (a < size b) × (c < size b)
Allowed b (shift op a c) = (is_plain op ≡ true) × (a < size b) × (c < size b)
Allowed b (compare op a c) = (is_plain op ≡ true) × Exists (size b) a × Exists (size b) c
Allowed b (mux c p q) = (c < size b) × Exists (size b) p × Exists (size b) q
Allowed b (list l) = All (Exists (size b)) l
Allowed b (match_value selector value) =
    (node : Node) × (get_elem? (nodes b) value ≡ some node)
    × (selector < size b)
    × (value < size b)
    × (node.op ≡ Op.list → node.operands ≢ [])
    × (size b + length node.operands + 1 < invalid_id)
Allowed b (case_of selector values items) =
    (width : SignalWidth) × (sign : Bool) × (selector < size b)
    × CaseCounts values items
    × All (Exists (size b)) values
    × All (HasShape b width sign) items
    × SomeValid items
Allowed b (convert a width sign) = Exists (size b) a
Allowed b (concat l sign) = (not (is_empty l) ≡ true) × All (Exists (size b)) l
Allowed b (constant value width sign) = Unit {0}
Allowed b (index_constant z width sign) = FitsWidth z width sign
Allowed b (select value index msb lsb) =
    (node : Node) × (get_elem? (nodes b) index ≡ some node)
    × HasRoom node
    × (value < size b)
    × IsSmall lsb
Allowed b (range value base width sign) = (0 < width) × (value < size b) × (base < size b)
Allowed b (gather l) = (not (is_empty l) ≡ true) × All (Exists (size b)) l
Allowed b (first_assignment next base dims width sign) = next < size b
Allowed b (next_assignment current next) =
    (node : Node) × (last : Node) × (get_elem? (nodes b) current ≡ some node)
    × (node.op ≡ Op.sequence)
    × (get_elem? (nodes b) next ≡ some last)
    × (last.width ≡ node.width)
Allowed b (masked_assignment current next base slice width sign) =
    (0 < slice)
    × (slice ≤ 9_223_372_036_854_775_807)
    × (current < size b)
    × (next < size b)
    × (base < size b)
Allowed b (call subr_id name l width sign) = All (Exists (size b)) l
Allowed b (both_edge a) = a < size b
Allowed b (input name width sign) = Unit {0}

-- The builders from which a sequence of allowed operations and of assignments to names leads to `c`,
-- each with room for the nodes that it may add.
pub data Builds (c : Builder) : Builder → Type 0 where
  done : Builds c c
  make :
      (b : Builder) (op : Operation) (id : ExprId) (t : Builder)
      → Allowed b op
      → size b + 6 < invalid_id
      → perform op b ≡ some (id, t)
      → Builds c t
      → Builds c b
  assign :
      (b : Builder) (name : String) (id : ExprId) (t : Builder)
      → id < size b
      → update_value name id b ≡ some (tt, t)
      → Builds c t
      → Builds c b
  forget :
      (b : Builder) (name : String) (t : Builder)
      → remove_input name b ≡ some (tt, t)
      → Builds c t
      → Builds c b
