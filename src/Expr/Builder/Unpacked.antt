-- ===== src/Expr/Builder/Unpacked.antt =====
-- Unpacked arrays in src/ir/expr_builder.cpp: sequences of assignments with the properties of the
-- array that they build, assignments to slices, and the nodes for calls and edges.
use abys.Prelude.{
  ◌-◌, ltb, leb, ◌==◌, String, Bool, false, ◌&&◌, not, Option, none, some, List, [], ◌∷◌, ◌++◌,
  is_empty, length, if◌then◌else◌,
}
use abys.Prelude.Int.{ℤ, pos, ◌-ℤ◌, leb_ℤ, ltb_ℤ}
use abys.Run.{Run, pure, check, found, gets, modify, ◌>>=◌, ◌>>◌}
use abys.Expr.Graph.{
  ExprId, SubrId, UnpackedProperties, SignalWidth, Op, is_op, invalid_id, constant_one,
}
use abys.Expr.Builder.{Builder, create_node, get_node, put_node}
use abys.Expr.Builder.Simple.{create_reverse}
use abys.Expr.Builder.Index.{normalize_index_expr, normalize_span, span_width, create_position}

unfoldable pub is_sequence : ExprId → Run Builder Bool
is_sequence id = do
  check (not (id == invalid_id))
  node ← get_node id
  pure (is_op node.op Op.sequence)

unfoldable pub create_gather : List ExprId → Run Builder ExprId
create_gather operands = do
  check (not (is_empty operands))
  id ← create_node
  put_node id
      (record { op = Op.gather; width = length operands; sign = false; operands = operands })
  pure id

unfoldable pub add_properties : UnpackedProperties → Run Builder (Unit {0})
add_properties entry = modify (λ (b : Builder). record b {
  graph = record b.graph { unpacked_properties = b.graph.unpacked_properties ++ entry ∷ [] };
})

-- the first entry for a node
unfoldable pub find_properties : ExprId → List UnpackedProperties → Option UnpackedProperties
find_properties id [] = none
find_properties id (entry ∷ rest) = if entry.id == id then some entry else find_properties id rest

unfoldable pub properties_of : ExprId → Run Builder UnpackedProperties
unfolding find_properties
properties_of id = do
  entries ← gets (λ (b : Builder). b.graph.unpacked_properties)
  found (find_properties id entries)

-- the new node of the three overloads, with the shape of its last assignment
unfoldable pub add_sequence : ExprId → List ExprId → Run Builder ExprId
add_sequence next operands = do
  id ← create_node
  next_node ← get_node next
  put_node id (record {
    op = Op.sequence;
    width = next_node.width;
    sign = next_node.sign;
    operands = operands;
  })
  pure id

-- a sequence of one assignment, with the properties of the array
unfoldable pub start_sequence :
    ExprId → ExprId → List SignalWidth → SignalWidth → Bool → Run Builder ExprId
unfolding add_sequence add_properties
start_sequence next base unpacked_dims width sign = do
  check (not (next == invalid_id))
  id ← add_sequence next (next ∷ [])
  add_properties
      (record { id = id; base = base; unpacked_dims = unpacked_dims; width = width; sign = sign })
  pure id

-- the assignments of the sequence before `next`
unfoldable pub previous_operands : ExprId → ExprId → Run Builder (List ExprId)
previous_operands current next = do
  current_node ← get_node current
  check (is_op current_node.op Op.sequence)
  next_node ← get_node next
  check (next_node.width == current_node.width)
  pure current_node.operands

-- the overload that takes the properties from a node that it is given
unfoldable pub create_sequence : ExprId → ExprId → ExprId → Run Builder ExprId
unfolding previous_operands properties_of add_sequence add_properties
create_sequence current next source = do
  check (not (next == invalid_id))
  previous ← if current == invalid_id then pure [] else previous_operands current next
  properties ← properties_of source
  id ← add_sequence next (previous ++ next ∷ [])
  add_properties (record properties { id = id })
  pure id

-- the overload that takes the properties from the sequence which it extends
unfoldable pub extend_sequence : ExprId → ExprId → Run Builder ExprId
extend_sequence current next = do
  check (not (current == invalid_id))
  create_sequence current next current

unfoldable pub create_unpacked_assign :
    ExprId → ExprId → ExprId → SignalWidth → Bool → Run Builder ExprId
create_unpacked_assign next base slice_width width sign = do
  id ← create_node
  slice_node ← get_node slice_width
  check (is_op slice_node.op Op.const)
  put_node id (record {
    op = Op.unpacked_assign;
    width = width;
    sign = sign;
    operands = next ∷ base ∷ slice_width ∷ [];
  })
  pure id

-- a width that is an index too
abbrev pub check_slice : SignalWidth → Run Builder (Unit {0})
check_slice slice_width = do
  check (ltb 0 slice_width)
  check (leb slice_width 9_223_372_036_854_775_807)

unfoldable pub create_masked_assign :
    ExprId → ExprId → ExprId → SignalWidth → SignalWidth → Bool → Run Builder ExprId
create_masked_assign current next base slice_width width sign = do
  check (not (current == invalid_id))
  check_slice slice_width
  slice_width_id ← create_position (pos slice_width)
  id ← create_node
  put_node id (record {
    op = Op.masked_assign;
    width = width;
    sign = sign;
    operands = current ∷ next ∷ base ∷ slice_width_id ∷ [];
  })
  pure id

unfoldable pub unpacked_assign_select :
    ExprId → ExprId → ℤ → ℤ → SignalWidth → Bool → Run Builder ExprId
unpacked_assign_select next index msb lsb width sign = do
  position ← normalize_index_expr index msb lsb (pos 0)
  create_unpacked_assign next position constant_one width sign

unfoldable pub unpacked_assign_range :
    ExprId → ℤ → ℤ → ℤ → ℤ → SignalWidth → Bool → Run Builder ExprId
unpacked_assign_range next left right msb lsb width sign = do
  span ← normalize_span left right msb lsb
  next' ← if span.is_reverse then create_reverse next else pure next
  base_id ← create_position span.low
  range_width ← span_width span
  width_id ← create_position range_width
  create_unpacked_assign next' base_id width_id width sign

-- The offset of the lowest position of a slice of several bits that runs against its range.
unfoldable pub slice_offset : SignalWidth → Bool → ℤ → ℤ → ℤ
slice_offset slice_width dir msb lsb =
    if ltb 1 slice_width && dir && ltb_ℤ msb lsb
    then pos (slice_width - 1)
    else if ltb 1 slice_width && not dir && leb_ℤ lsb msb
    then pos 0 -ℤ pos (slice_width - 1)
    else pos 0

unfoldable pub unpacked_assign_part_select :
    ExprId → ExprId → SignalWidth → Bool → ℤ → ℤ → SignalWidth → Bool → Run Builder ExprId
unpacked_assign_part_select next base slice_width dir msb lsb width sign = do
  check_slice slice_width
  next' ← if ltb_ℤ msb lsb then create_reverse next else pure next
  base_id ← normalize_index_expr base msb lsb (slice_offset slice_width dir msb lsb)
  width_id ← create_position (pos slice_width)
  create_unpacked_assign next' base_id width_id width sign

unfoldable pub create_call : SubrId → String → List ExprId → SignalWidth → Bool → Run Builder ExprId
create_call subr_id name operands width sign = do
  id ← create_node
  put_node id (record { op = Op.call; width = width; sign = sign; operands = operands })
  modify (λ (b : Builder). record b {
    graph = record b.graph {
      calls = b.graph.calls ++ record { id = id; subr_id = subr_id; name = name } ∷ [];
    };
  })
  pure id

unfoldable pub create_both_edge : ExprId → Run Builder ExprId
create_both_edge operand = do
  id ← create_node
  put_node id (record { op = Op.both_edge; width = 1; sign = false; operands = operand ∷ [] })
  pure id

-- The element of an array. Where it is an array itself, its properties have no base.
unfoldable pub create_unpacked_select :
    ExprId
    → ExprId
    → ℤ
    → ℤ
    → SignalWidth
    → Bool
    → List SignalWidth
    → SignalWidth
    → Bool
    → Run Builder ExprId
create_unpacked_select value index msb lsb width sign unpacked_dims element_width element_sign = do
  position ← normalize_index_expr index msb lsb (pos 0)
  id ← create_node
  put_node id (record {
    op = Op.unpacked_select;
    width = width;
    sign = sign;
    operands = value ∷ position ∷ [];
  })
  let describe = add_properties (record {
    id = id;
    base = invalid_id;
    unpacked_dims = unpacked_dims;
    width = element_width;
    sign = element_sign;
  })
  if is_empty unpacked_dims then pure tt else describe
  pure id
