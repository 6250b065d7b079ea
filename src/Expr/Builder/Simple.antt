-- ===== src/Expr/Builder/Simple.antt =====
-- The operations of src/ir/expr_builder.cpp that add one node, or a node and its reductions.
use abys.Prelude.{max, ltb, Bool, true, false, ◌&&◌, not, List, [], ◌∷◌, is_empty, if◌then◌else◌}
use abys.Run.{Run, pure, check, ◌>>=◌, ◌>>◌}
use abys.Expr.Graph.{ExprId, SignalWidth, Op}
use abys.Expr.Builder.{Builder, create_node, get_node, put_node}

unfoldable pub create_unary_reduce : Op → ExprId → Run Builder ExprId
create_unary_reduce op operand = do
  id ← create_node
  put_node id (record { op = op; width = 1; sign = false; operands = operand ∷ [] })
  pure id

unfoldable pub create_logical_not : ExprId → Run Builder ExprId
unfolding create_unary_reduce
create_logical_not = create_unary_reduce Op.logical_not

unfoldable pub create_and_reduce : ExprId → Run Builder ExprId
unfolding create_unary_reduce
create_and_reduce = create_unary_reduce Op.and_reduce

unfoldable pub create_or_reduce : ExprId → Run Builder ExprId
unfolding create_unary_reduce
create_or_reduce = create_unary_reduce Op.or_reduce

unfoldable pub create_xor_reduce : ExprId → Run Builder ExprId
unfolding create_unary_reduce
create_xor_reduce = create_unary_reduce Op.xor_reduce

unfoldable pub create_unary : Op → ExprId → Run Builder ExprId
create_unary op operand = do
  id ← create_node
  operand_node ← get_node operand
  put_node id (record {
    op = op;
    width = operand_node.width;
    sign = operand_node.sign;
    operands = operand ∷ [];
  })
  pure id

unfoldable pub create_bitwise_not : ExprId → Run Builder ExprId
unfolding create_unary
create_bitwise_not = create_unary Op.bitwise_not

unfoldable pub create_unary_plus : ExprId → Run Builder ExprId
create_unary_plus a = pure a

unfoldable pub create_unary_minus : ExprId → Run Builder ExprId
unfolding create_unary
create_unary_minus = create_unary Op.unary_minus

unfoldable pub create_reverse : ExprId → Run Builder ExprId
unfolding create_unary
create_reverse = create_unary Op.reverse

-- the loop of `create_nary`: the largest width, and whether all operands are signed
unfoldable pub join_operands : List ExprId → SignalWidth → Bool → Run Builder (SignalWidth × Bool)
join_operands [] width sign = pure (width, sign)
join_operands (operand ∷ rest) width sign = do
  operand_node ← get_node operand
  join_operands rest (max width operand_node.width) (sign && operand_node.sign)

unfoldable pub create_nary : Op → List ExprId → Run Builder ExprId
unfolding join_operands
create_nary op operands = do
  check (not (is_empty operands))
  id ← create_node
  (width, sign) ← join_operands operands 0 true
  put_node id (record { op = op; width = width; sign = sign; operands = operands })
  pure id

unfoldable pub create_and : List ExprId → Run Builder ExprId
unfolding create_nary
create_and = create_nary Op.and

unfoldable pub create_or : List ExprId → Run Builder ExprId
unfolding create_nary
create_or = create_nary Op.or

unfoldable pub create_xor : List ExprId → Run Builder ExprId
unfolding create_nary
create_xor = create_nary Op.xor

-- an operand of more than one bit stands for its reduction by `or`
unfoldable pub to_bit : ExprId → Run Builder ExprId
unfolding create_or_reduce
to_bit a = do a_node ← get_node a; if ltb 1 a_node.width then create_or_reduce a else pure a

-- The node is made before the reductions that it reads.
unfoldable pub create_logical_binary : Op → ExprId → ExprId → Run Builder ExprId
unfolding to_bit
create_logical_binary op a b = do
  id ← create_node
  a' ← to_bit a
  b' ← to_bit b
  put_node id (record { op = op; width = 1; sign = false; operands = a' ∷ b' ∷ [] })
  pure id

unfoldable pub create_logical_and : ExprId → ExprId → Run Builder ExprId
unfolding create_logical_binary
create_logical_and = create_logical_binary Op.and

unfoldable pub create_logical_or : ExprId → ExprId → Run Builder ExprId
unfolding create_logical_binary
create_logical_or = create_logical_binary Op.or

unfoldable pub create_binary : Op → ExprId → ExprId → Run Builder ExprId
create_binary op a b = do
  id ← create_node
  a_node ← get_node a
  b_node ← get_node b
  put_node id (record {
    op = op;
    width = max a_node.width b_node.width;
    sign = a_node.sign && b_node.sign;
    operands = a ∷ b ∷ [];
  })
  pure id

unfoldable pub create_add : ExprId → ExprId → Run Builder ExprId
unfolding create_binary
create_add = create_binary Op.add

unfoldable pub create_sub : ExprId → ExprId → Run Builder ExprId
unfolding create_binary
create_sub = create_binary Op.sub

unfoldable pub create_mul : ExprId → ExprId → Run Builder ExprId
unfolding create_binary
create_mul = create_binary Op.mul

unfoldable pub create_div : ExprId → ExprId → Run Builder ExprId
unfolding create_binary
create_div = create_binary Op.div

unfoldable pub create_mod : ExprId → ExprId → Run Builder ExprId
unfolding create_binary
create_mod = create_binary Op.mod_op

unfoldable pub create_pow : ExprId → ExprId → Run Builder ExprId
unfolding create_binary
create_pow = create_binary Op.pow

unfoldable pub create_shift : Op → ExprId → ExprId → Run Builder ExprId
create_shift op value shamt = do
  id ← create_node
  value_node ← get_node value
  put_node id (record {
    op = op;
    width = value_node.width;
    sign = value_node.sign;
    operands = value ∷ shamt ∷ [];
  })
  pure id

unfoldable pub create_shl : ExprId → ExprId → Run Builder ExprId
unfolding create_shift
create_shl = create_shift Op.shl

unfoldable pub create_shr : ExprId → ExprId → Run Builder ExprId
unfolding create_shift
create_shr = create_shift Op.shr

unfoldable pub create_ashr : ExprId → ExprId → Run Builder ExprId
unfolding create_shift
create_ashr = create_shift Op.ashr

unfoldable pub create_compare : Op → ExprId → ExprId → Run Builder ExprId
create_compare op a b = do
  id ← create_node
  put_node id (record { op = op; width = 1; sign = false; operands = a ∷ b ∷ [] })
  pure id

unfoldable pub create_eq : ExprId → ExprId → Run Builder ExprId
unfolding create_compare
create_eq = create_compare Op.eq

unfoldable pub create_neq : ExprId → ExprId → Run Builder ExprId
unfolding create_compare create_logical_not
create_neq a b = do id ← create_compare Op.eq a b; create_logical_not id

unfoldable pub create_lt : ExprId → ExprId → Run Builder ExprId
unfolding create_compare
create_lt = create_compare Op.lt

unfoldable pub create_le : ExprId → ExprId → Run Builder ExprId
unfolding create_compare
create_le = create_compare Op.le

unfoldable pub create_gt : ExprId → ExprId → Run Builder ExprId
unfolding create_lt
create_gt a b = create_lt b a

unfoldable pub create_ge : ExprId → ExprId → Run Builder ExprId
unfolding create_le
create_ge a b = create_le b a
