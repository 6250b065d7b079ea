-- ===== src/Expr/Builder/Choice.antt =====
-- The choices of src/ir/expr_builder.cpp, `mux`, `match` and `case`, and its conversions and
-- concatenations.
use abys.Prelude.{
  suc, ◌+◌, ◌%◌, max, ◌==◌, Bool, false, ◌&&◌, ◌||◌, not, Option, none, some, List, [], ◌∷◌, length,
  is_empty, if◌then◌else◌,
}
use mathlib.Core.Bool.{beq}
use abys.Run.{found, Run, pure, check, modify, ◌>>=◌, ◌>>◌}
use abys.Diagnostics.{error, lowering_unsupported_expression_replaced_with_zero}
use abys.Expr.Graph.{
  ExprId, Node, SignalWidth, Op, is_op, invalid_id, constant_zero, width_limit, blank,
}
use abys.Expr.Builder.{Builder, create_node, get_node, put_node}
use abys.Expr.Builder.Simple.{create_eq, create_or}

-- The node made for it stays in the graph where no data operand is valid.
unfoldable pub create_mux : ExprId → ExprId → ExprId → Run Builder ExprId
create_mux condition then_id else_id = do
  id ← create_node
  let store = λ (width : SignalWidth) (sign : Bool). do
    put_node id (record {
      op = Op.mux;
      width = width;
      sign = sign;
      operands = condition ∷ then_id ∷ else_id ∷ [];
    })
    pure id
  let take_one = λ (operand : ExprId). do
    operand_node ← get_node operand
    store operand_node.width operand_node.sign
  let take_both = do
    then_node ← get_node then_id
    else_node ← get_node else_id
    store (max then_node.width else_node.width) (then_node.sign && else_node.sign)
  let give_up = do
    put_node id (record blank { op = Op.mux })
    modify (λ (b : Builder). record b {
      diagnostics =
          error lowering_unsupported_expression_replaced_with_zero "mux has no valid data operand"
            b.diagnostics;
    })
    pure constant_zero
  if not (then_id == invalid_id) && not (else_id == invalid_id)
      then take_both
      else if not (then_id == invalid_id)
      then take_one then_id
      else if not (else_id == invalid_id)
      then take_one else_id
      else give_up

unfoldable pub create_list : List ExprId → Run Builder ExprId
create_list operands = do
  id ← create_node
  put_node id (record { op = Op.list; width = 0; sign = false; operands = operands })
  pure id

-- the loop of `create_match`
unfoldable pub create_eqs : ExprId → List ExprId → Run Builder (List ExprId)
create_eqs selector [] = pure []
create_eqs selector (item ∷ rest) = do
  id ← create_eq selector item
  ids ← create_eqs selector rest
  pure (id ∷ ids)

unfoldable pub create_match : ExprId → ExprId → Run Builder ExprId
unfolding create_eqs
create_match selector case_value = do
  case_value_node ← get_node case_value
  let each = do eqs ← create_eqs selector case_value_node.operands; create_or eqs
  if is_op case_value_node.op Op.list then each else create_eq selector case_value

-- the operands of a `case` behind its selector: values and data in turn, and the data left over
unfoldable pub case_operands : List ExprId → List ExprId → List ExprId
case_operands values [] = []
case_operands [] (item ∷ rest) = item ∷ case_operands [] rest
case_operands (value ∷ values) (item ∷ rest) = value ∷ item ∷ case_operands values rest

unfoldable pub agree : Node → Option (SignalWidth × Bool) → Run Builder (SignalWidth × Bool)
agree node none = pure (node.width, node.sign)
agree node (some (width, sign)) = do
  check (node.width == width)
  check (beq node.sign sign)
  pure (width, sign)

-- The shape of the first valid data operand, which the others must have.
unfoldable pub case_shape :
    List ExprId → Option (SignalWidth × Bool) → Run Builder (Option (SignalWidth × Bool))
case_shape [] shape = pure shape
case_shape (item ∷ rest) shape =
    let skip = case_shape rest shape in
    let read = do
      item_node ← get_node item
      shape' ← agree item_node shape
      case_shape rest (some shape')
    in if item == invalid_id then skip else read

unfoldable pub create_case : ExprId → List ExprId → List ExprId → Run Builder ExprId
unfolding case_operands case_shape agree
create_case selector case_values data_ids = do
  check (length case_values == length data_ids || suc (length case_values) == length data_ids)
  id ← create_node
  shape ← case_shape data_ids none
  (width, sign) ← found shape
  put_node id (record {
    op = Op.case;
    width = width;
    sign = sign;
    operands = selector ∷ case_operands case_values data_ids;
  })
  pure id

unfoldable pub create_convert : ExprId → SignalWidth → Bool → Run Builder ExprId
create_convert operand width sign = do
  id ← create_node
  put_node id (record { op = Op.convert; width = width; sign = sign; operands = operand ∷ [] })
  pure id

-- The loop of `create_concat`. An operand that is left out stands for one bit.
unfoldable pub add_widths : List ExprId → SignalWidth → Run Builder SignalWidth
add_widths [] width = pure width
add_widths (operand ∷ rest) width =
    let skip = add_widths rest ((width + 1) % width_limit) in
    let read = do
      operand_node ← get_node operand
      add_widths rest ((width + operand_node.width) % width_limit)
    in if operand == invalid_id then skip else read

unfoldable pub create_concat : List ExprId → Bool → Run Builder ExprId
unfolding add_widths
create_concat operands sign = do
  check (not (is_empty operands))
  id ← create_node
  width ← add_widths operands 0
  put_node id (record { op = Op.concat; width = width; sign = sign; operands = operands })
  pure id
