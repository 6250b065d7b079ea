-- ===== src/Expr/Valid/Unpacked.antt =====
-- The nodes for slices, calls and edges of src/ir/expr_builder.cpp on valid builders.
use abys.Prelude.{
  ◌+◌, ◌≤◌, ◌<◌, ◌≡◌, refl, ◌==◌, not, true, Bool, String, List, inl, inr, arith, All, is_empty,
  leb, lt→ltb,
}
use abys.Prelude.Int.{pos}
use abys.Run.{Returns}
use abys.Expr.Graph.{ExprId, SubrId, Op, SignalWidth, invalid_id}
use abys.Expr.Builder.{Builder, size}
use abys.Expr.Builder.Index.{create_range, create_unpacked_range, create_position}
use abys.Expr.Builder.Unpacked.{
  create_gather, create_unpacked_assign, create_masked_assign, create_call, create_both_edge,
}
use abys.Expr.Valid.{IsValid, Adds}
use abys.Expr.Valid.Rank.{Exists}
use abys.Expr.Valid.Append.{add-Adds, plain-Adds, bind-Adds}
use abys.Expr.Valid.Made.{create_node_lem, put_node-more, get_node-more, node_at}
use abys.Expr.Valid.Constant.{create_position-Adds}
use abys.Expr.Valid.Index.{add_range-Adds}

module _ (b : Builder) (v : IsValid b) (room : size b < invalid_id) where
  pub create_gather-Adds :
      (l : List ExprId)
      → not (is_empty l) ≡ true
      → All (Exists (size b)) l
      → Returns (Adds 1 b) (create_gather l b)
  unfolding create_gather
  create_gather-Adds l some_operand h =
      rw (some_operand, create_node_lem b room, put_node-more b _) (plain-Adds b _ v room h refl)

  pub create_both_edge-Adds : (a : ExprId) → a < size b → Returns (Adds 1 b) (create_both_edge a b)
  unfolding create_both_edge
  create_both_edge-Adds a h =
      rw (create_node_lem b room, put_node-more b _) (plain-Adds b _ v room (inr h, tt) refl)

  pub create_range-Adds :
      (value base : ExprId) (width : SignalWidth) (sign : Bool)
      → 0 < width
      → value < size b
      → base < size b
      → Returns (Adds 1 b) (create_range value base width sign b)
  unfolding create_range
  create_range-Adds value base width sign some_width h k =
      rw (lt→ltb 0 width some_width) (add_range-Adds b v room value base width sign h k)

  pub create_unpacked_range-Adds :
      (value base : ExprId) (width : SignalWidth)
      → 0 < width
      → value < size b
      → base < size b
      → Returns (Adds 1 b) (create_unpacked_range value base width b)
  unfolding create_unpacked_range
  create_unpacked_range-Adds value base width some_width h k =
      rw (lt→ltb 0 width some_width, create_node_lem b room, put_node-more b _)
        (plain-Adds b _ v room (inr h, (inr k, tt)) refl)

  -- A call is recorded in its table, which no other table refers to.
  pub create_call-Adds :
      (subr_id : SubrId) (name : String) (l : List ExprId) (width : SignalWidth) (sign : Bool)
      → All (Exists (size b)) l
      → Returns (Adds 1 b) (create_call subr_id name l width sign b)
  unfolding create_call
  create_call-Adds subr_id name l width sign h =
      rw (create_node_lem b room, put_node-more b _)
        (add-Adds b _ (record { op = Op.call; width = width; sign = sign; operands = l }) v room h
          (record {
            nodes = refl;
            inputs = λ n id k. inl k;
            constants = λ i w k. (w, k);
            constant = λ e. absurd (cc);
            properties = λ i p k. (p, k);
            property = λ e. absurd (cc);
          })
          (λ n id k. inl k))

  -- The width of a slice is a constant.
  pub create_unpacked_assign-Adds :
      (next base slice_width : ExprId) (width : SignalWidth) (sign : Bool)
      → next < size b
      → base < size b
      → (there : slice_width < size b) → (node_at b slice_width there).op ≡ Op.const
      → Returns (Adds 1 b) (create_unpacked_assign next base slice_width width sign b)
  unfolding create_unpacked_assign
  create_unpacked_assign-Adds next base slice_width width sign h k there is_const =
      rw (create_node_lem b room, get_node-more b _ slice_width there, is_const, put_node-more b _)
        (plain-Adds b _ v room (inr h, (inr k, (inr there, tt))) refl)

module _ (b : Builder) (v : IsValid b) (room : size b + 1 < invalid_id) where
  pub create_masked_assign-Adds :
      (current next base : ExprId) (slice width : SignalWidth) (sign : Bool)
      → 0 < slice
      → slice ≤ 9_223_372_036_854_775_807
      → current < size b
      → next < size b
      → base < size b
      → Returns (Adds 2 b) (create_masked_assign current next base slice width sign b)
  unfolding create_masked_assign
  create_masked_assign-Adds current next base slice width sign low high hc hn hb =
      let valid : (not (current == invalid_id)) ≡ true = ground arith in
      let small : leb slice 9_223_372_036_854_775_807 ≡ true = ground arith in
      rw (valid, lt→ltb 0 slice low, small)
        (bind-Adds 1 1 b (create_position (pos slice)) _
          (create_position-Adds b v (omega arith) slice (omega arith))
          (λ i t p.
            rw (create_node_lem t (omega (arith, p.bounded)), put_node-more t _)
              (plain-Adds t _ p.valid (omega (arith, p.bounded))
                (
                  inr (omega (arith, p.grows)),
                  (inr (omega (arith, p.grows)), (inr (omega (arith, p.grows)), (inr p.there, tt))),
                )
                refl)))
