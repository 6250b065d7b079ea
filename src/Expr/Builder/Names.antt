-- ===== src/Expr/Builder/Names.antt =====
-- Inputs and the current values of names, and the search through operands: src/ir/expr_builder.cpp.
use abys.Prelude.{
  ℕ, suc, zero, ◌==◌, String, Bool, true, false, Option, none, some, List, [], ◌∷◌, get_elem?,
  length, Assoc, lookup, insert, erase, if◌then◌else◌,
}
use mathlib.Core.Option
use abys.Run.{Run, pure, found, gets, modify, ◌>>=◌, ◌>>◌}
use abys.Expr.Graph.{ExprId, Node, SignalWidth, Op, is_op, invalid_id}
use abys.Expr.Builder.{Builder, create_node, get_node, put_node}

unfoldable pub or_invalid : Option ExprId → ExprId
or_invalid none = invalid_id
or_invalid (some id) = id

unfoldable pub get_current_value : String → Builder → ExprId
unfolding or_invalid lookup
get_current_value name b = or_invalid (lookup name b.name_map)

unfoldable pub update_value : String → ExprId → Run Builder (Unit {0})
unfolding insert
update_value name id = modify (λ (b : Builder). record b { name_map = insert name id b.name_map })

unfoldable pub remove_input : String → Run Builder (Unit {0})
unfolding erase
remove_input name =
    modify
      (λ (b : Builder). record b { graph = record b.graph { inputs = erase name b.graph.inputs } })

unfoldable pub add_input : String → SignalWidth → Bool → Run Builder ExprId
unfolding update_value
add_input name width sign = do
  id ← create_node
  update_value name id
  modify (λ (b : Builder). record b {
    graph = record b.graph { inputs = insert name id b.graph.inputs };
  })
  put_node id (record { op = Op.input; width = width; sign = sign; operands = [] })
  pure id

unfoldable pub known_input : Option ExprId → String → SignalWidth → Bool → Run Builder ExprId
unfolding add_input
known_input (some id) name width sign = pure id
known_input none name width sign = add_input name width sign

-- The current value of the name, the input of that name, or a new input.
unfoldable pub find_or_create_input : String → SignalWidth → Bool → Run Builder ExprId
unfolding get_current_value known_input
find_or_create_input name width sign = do
  current ← gets (get_current_value name)
  input ← gets (λ (b : Builder). lookup name b.graph.inputs)
  if current == invalid_id then known_input input name width sign else pure current

-- what `get_input_spec` hands back through its references
pub record InputSpec : Type 0 where
  pub input_id : ExprId
  pub name : String
  pub width : SignalWidth
  pub sign : Bool

-- the name of an input; the inputs of a graph have different nodes
unfoldable pub name_of : ExprId → Assoc ExprId → Option String
name_of id [] = none
name_of id ((name, input) ∷ rest) = if input == id then some name else name_of id rest

unfoldable pub input_spec : ExprId → Node → String → InputSpec
input_spec input_id node name = record {
  input_id = input_id;
  name = name;
  width = node.width;
  sign = node.sign;
}

unfoldable pub describe_input : ExprId → Run Builder (Option InputSpec)
unfolding name_of input_spec
describe_input input_id = do
  node ← get_node input_id
  inputs ← gets (λ (b : Builder). b.graph.inputs)
  if is_op node.op Op.input
      then pure (Option.map (input_spec input_id node) (name_of input_id inputs))
      else pure none

-- `none` is the result `false`. A conversion is looked through.
unfoldable pub get_input_spec : ExprId → Run Builder (Option InputSpec)
unfolding describe_input
get_input_spec id = do
  node ← get_node id
  let through = do operand ← found (get_elem? node.operands 0); describe_input operand
  if is_op node.op Op.convert then through else describe_input id

-- The search of `check_dependency_rec`. The state is the set of visited nodes; a node that is not
-- there is a fault, and so is the end of the fuel.
unfoldable pub is_visited : ExprId → List ExprId → Bool
is_visited id [] = false
is_visited id (v ∷ rest) = if v == id then true else is_visited id rest

abbrev pub visit : ExprId → List ExprId → Option (Unit {0} × List ExprId)
visit id visited = some (tt, id ∷ visited)

-- `for (operand : node.operands) if (search(operand)) return true;`
unfoldable pub any_operand :
    (ExprId → Run (List ExprId) Bool) → List ExprId → Run (List ExprId) Bool
any_operand search_from [] = pure false
any_operand search_from (operand ∷ rest) = do
  hit ← search_from operand
  if hit then pure true else any_operand search_from rest

unfoldable pub check_dependency_rec : List Node → ℕ → ExprId → ExprId → Run (List ExprId) Bool
unfolding is_visited any_operand
check_dependency_rec nodes zero target id visited = none
check_dependency_rec nodes (suc fuel) target id visited =
    let go_on = do
      visit id
      node ← found (get_elem? nodes id)
      any_operand (check_dependency_rec nodes fuel target) node.operands
    in if id == target
      then some (true, visited)
      else if id == invalid_id
      then some (false, visited)
      else if is_visited id visited
      then some (false, visited)
      else go_on visited

-- Each node is entered once, so the nodes and one call more are enough fuel.
unfoldable pub check_dependency : List Node → ExprId → ExprId → Option Bool
unfolding check_dependency_rec
check_dependency nodes id target =
    Option.map (λ r. r.0) (check_dependency_rec nodes (suc (length nodes)) target id [])
