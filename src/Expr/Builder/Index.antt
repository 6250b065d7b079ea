-- ===== src/Expr/Builder/Index.antt =====
-- Constants and indices of src/ir/expr_builder.cpp: an index of a declared range becomes a position
-- counted from the lowest bit, for a known index as a number and for any other as an expression.
use abys.Prelude.{
  ◌+◌, ◌-◌, max, ltb, leb, ◌==◌, Bool, true, false, ◌&&◌, ◌||◌, not, Option, none, some, [], ◌∷◌,
  ◌++◌, if◌then◌else◌,
}
use abys.Prelude.Int.{ℤ, pos, negsuc, ◌+ℤ◌, ◌-ℤ◌, leb_ℤ, ltb_ℤ, eqb_ℤ, is_negative, pos_part}
use abys.Prelude.Text.{Text, text, text_eq}
use abys.Run.{Run, pure, check, found, modify, ◌>>=◌, ◌>>◌}
use abys.Expr.Graph.{
  ExprId, Node, Constant, SignalWidth, Op, constant_zero, constant_one, width_limit,
}
use abys.Expr.Literal.{literal, binary_length, magnitude, minimum_unsigned_width, signed_width}
use abys.Expr.Builder.{Builder, create_node, get_node, put_node}
use abys.Expr.Builder.Simple.{create_add, create_sub, create_reverse}
use abys.Expr.Builder.Choice.{create_convert}

-- a new entry of the table of constants
unfoldable pub add_constant : Constant → Run Builder (Unit {0})
add_constant entry = modify (λ (b : Builder). record b {
  graph = record b.graph { constants = b.graph.constants ++ entry ∷ [] };
})

unfoldable pub add_const_node : Text → SignalWidth → Bool → Run Builder ExprId
unfolding add_constant
add_const_node value width sign = do
  id ← create_node
  add_constant (record { id = id; value = value })
  put_node id (record { op = Op.const; width = width; sign = sign; operands = [] })
  pure id

-- The two constants of one unsigned bit are shared, any other is a new node.
unfoldable pub find_or_create_const : Text → SignalWidth → Bool → Run Builder ExprId
unfolding add_const_node
find_or_create_const value width sign =
    let is_bit = width == 1 && not sign in
    if is_bit && text_eq value (text "1'b0")
    then pure constant_zero
    else if is_bit && text_eq value (text "1'b1")
    then pure constant_one
    else add_const_node value width sign

-- the overload for an index
unfoldable pub find_or_create_index : ℤ → SignalWidth → Bool → Run Builder ExprId
find_or_create_index index width sign = do
  check (ltb 0 width)
  check (not (is_negative index) || sign)
  check (leb (binary_length (magnitude index)) width)
  check (not sign || magnitude index == 0 || ltb (binary_length (magnitude index)) width)
  find_or_create_const (literal index width sign) width sign

-- An operation on int64_t whose result is out of range is undefined.
abbrev pub int64 : ℤ → Option ℤ
int64 z =
    if leb_ℤ (negsuc 9_223_372_036_854_775_807) z && leb_ℤ z (pos 9_223_372_036_854_775_807)
    then some z
    else none

unfoldable pub normalize_index : ℤ → ℤ → ℤ → Option ℤ
normalize_index index msb lsb =
    if eqb_ℤ lsb (pos 0) && leb_ℤ lsb msb
    then some index
    else if leb_ℤ lsb msb
    then int64 (index -ℤ lsb)
    else int64 (lsb -ℤ index)

-- `++width`, behind the assertion that it does not wrap
unfoldable pub grow : SignalWidth → Run Builder SignalWidth
grow width = do check (ltb width (width_limit - 1)); pure (width + 1)

unfoldable pub arithmetic_width : Node → ℤ → ℤ → ℤ → Run Builder SignalWidth
unfolding grow
arithmetic_width node msb lsb index_offset = do
  index_width ← if node.sign then pure node.width else grow node.width
  let widest =
      max (max index_width (signed_width msb)) (max (signed_width lsb) (signed_width index_offset))
  width ← grow widest
  if eqb_ℤ index_offset (pos 0) then pure width else grow width

unfoldable pub add_offset : ExprId → SignalWidth → ℤ → Run Builder ExprId
add_offset index width index_offset =
    if eqb_ℤ index_offset (pos 0)
    then pure index
    else do offset ← find_or_create_index index_offset width true; create_add index offset

unfoldable pub normalize_index_expr : ExprId → ℤ → ℤ → ℤ → Run Builder ExprId
unfolding arithmetic_width add_offset
normalize_index_expr index msb lsb index_offset =
    let build = do
      index_node ← get_node index
      width ← arithmetic_width index_node msb lsb index_offset
      wide ← create_convert index width true
      moved ← add_offset wide width index_offset
      offset ← find_or_create_index lsb width true
      if leb_ℤ lsb msb then create_sub moved offset else create_sub offset moved
    in if eqb_ℤ index_offset (pos 0) && eqb_ℤ lsb (pos 0) && leb_ℤ lsb msb
      then pure index
      else build

unfoldable pub add_range : ExprId → ExprId → SignalWidth → Bool → Run Builder ExprId
add_range base_data base width sign = do
  id ← create_node
  put_node id
      (record { op = Op.range; width = width; sign = sign; operands = base_data ∷ base ∷ [] })
  pure id

unfoldable pub create_select : ExprId → ExprId → ℤ → ℤ → Run Builder ExprId
unfolding add_range
create_select value index msb lsb = do
  position ← normalize_index_expr index msb lsb (pos 0)
  add_range value position 1 false

-- The positions of both ends, the higher one first, and whether they were exchanged.
pub record Span : Type 0 where
  pub high : ℤ
  pub low : ℤ
  pub is_reverse : Bool

unfoldable pub normalize_span : ℤ → ℤ → ℤ → ℤ → Run Builder Span
normalize_span left right msb lsb = do
  left_position ← found (normalize_index left msb lsb)
  right_position ← found (normalize_index right msb lsb)
  if ltb_ℤ left_position right_position
      then pure (record { high = right_position; low = left_position; is_reverse = true })
      else pure (record { high = left_position; low = right_position; is_reverse = false })

-- `left_pos - right_pos + 1` of int64_t
unfoldable pub span_width : Span → Run Builder ℤ
span_width span = do
  difference ← found (int64 (span.high -ℤ span.low))
  found (int64 (difference +ℤ pos 1))

-- a constant for an index that must not be negative, as narrow as it can be
unfoldable pub create_position : ℤ → Run Builder ExprId
create_position index = do
  width ← found (minimum_unsigned_width index)
  find_or_create_index index width false

unfoldable pub create_simple_range : ExprId → ℤ → ℤ → ℤ → ℤ → Run Builder ExprId
unfolding add_range
create_simple_range value left right msb lsb = do
  span ← normalize_span left right msb lsb
  position ← create_position span.low
  width ← span_width span
  id ← add_range value position (pos_part width) false
  if span.is_reverse then create_reverse id else pure id

unfoldable pub create_range : ExprId → ExprId → SignalWidth → Bool → Run Builder ExprId
unfolding add_range
create_range value base width sign = do check (ltb 0 width); add_range value base width sign

unfoldable pub create_unpacked_range : ExprId → ExprId → SignalWidth → Run Builder ExprId
create_unpacked_range value base width = do
  check (ltb 0 width)
  id ← create_node
  put_node id
      (record { op = Op.unpacked_range; width = width; sign = false; operands = value ∷ base ∷ [] })
  pure id
