-- ===== src/Expr/Valid/Mux.antt =====
-- The choice `create_mux` of src/ir/expr_builder.cpp between data operands, which may be left out.
use abys.Prelude.{
  ◌<◌, ◌≡◌, refl, max, ◌==◌, ◌&&◌, false, Bool, some, [], ◌∷◌, ◌++◌, inl, inr, arith, get_elem?,
}
use abys.Run.{Returns, Returns-both}
use abys.Diagnostics.{error, lowering_unsupported_expression_replaced_with_zero}
use abys.Expr.Graph.{ExprId, Node, Op, SignalWidth, blank, invalid_id, constant_zero}
use abys.Expr.Builder.{Builder, size, nodes}
use abys.Expr.Builder.Choice.{create_mux}
use abys.Expr.Valid.{IsValid, Adds}
use abys.Expr.Valid.Rank.{Exists}
use abys.Expr.Valid.Made.{create_node_lem, node_at, node_at_lem, get_node-more, put_node-more}
use abys.Expr.Valid.Choice.{create_mux-Adds}

-- a new node that takes one of two operands
pub record IsNew (b : Builder) (c p q : ExprId) (width : SignalWidth) (sign : Bool) (id : ExprId)
    (t : Builder) : Type 0 where
  pub at : id ≡ size b
  pub made :
      nodes t
      ≡ nodes b
        ++ record { op = Op.mux; width = width; sign = sign; operands = c ∷ p ∷ q ∷ [] } ∷ []
  pub silent : t.diagnostics ≡ b.diagnostics

-- The shape is that of both operands, of the only one, or there is none: then the result is a zero, an
-- error is reported, and a node without operands is left.
pub data IsMux (b : Builder) (c p q : ExprId) (id : ExprId) (t : Builder) : Type 0 where
  both :
      (m n : Node)
      → get_elem? (nodes b) p ≡ some m
      → get_elem? (nodes b) q ≡ some n
      → IsNew b c p q (max m.width n.width) (m.sign && n.sign) id t
      → IsMux b c p q id t
  then_only :
      (m : Node)
      → get_elem? (nodes b) p ≡ some m
      → q ≡ invalid_id
      → IsNew b c p q m.width m.sign id t
      → IsMux b c p q id t
  else_only :
      (n : Node)
      → p ≡ invalid_id
      → get_elem? (nodes b) q ≡ some n
      → IsNew b c p q n.width n.sign id t
      → IsMux b c p q id t
  neither :
      p ≡ invalid_id
      → q ≡ invalid_id
      → id ≡ constant_zero
      → nodes t ≡ nodes b ++ record blank { op = Op.mux } ∷ []
      → t.diagnostics
        ≡ error lowering_unsupported_expression_replaced_with_zero "mux has no valid data operand"
            b.diagnostics
      → IsMux b c p q id t

module _ (b : Builder) (v : IsValid b) (room : size b < invalid_id) where
  chosen :
      (c p q : ExprId)
      → Exists (size b) p
      → Exists (size b) q
      → Returns (IsMux b c p q) (create_mux c p q b)
  unfolding create_mux
  chosen c p q (inr hp) (inr hq) =
      let ep : (p == invalid_id) ≡ false = ground arith in
      let eq : (q == invalid_id) ≡ false = ground arith in
      rw
        (
          ep,
          eq,
          create_node_lem b room,
          get_node-more b blank p hp,
          get_node-more b blank q hq,
          put_node-more b _,
        )
        (IsMux.both (node_at b p hp) (node_at b q hq) (node_at_lem b p hp) (node_at_lem b q hq)
          (record { at = refl; made = refl; silent = refl }))
  chosen c p q (inr hp) (inl eq) =
      let ep : (p == invalid_id) ≡ false = ground arith in
      rw (ep, eq, create_node_lem b room, get_node-more b blank p hp, put_node-more b _)
        (IsMux.then_only (node_at b p hp) (node_at_lem b p hp) refl
          (record { at = refl; made = refl; silent = refl }))
  chosen c p q (inl ep) (inr hq) =
      let eq : (q == invalid_id) ≡ false = ground arith in
      rw (ep, eq, create_node_lem b room, get_node-more b blank q hq, put_node-more b _)
        (IsMux.else_only (node_at b q hq) refl (node_at_lem b q hq)
          (record { at = refl; made = refl; silent = refl }))
  chosen c p q (inl ep) (inl eq) =
      rw (ep, eq, create_node_lem b room, put_node-more b _)
        (IsMux.neither refl refl refl refl refl)

  -- A choice by a condition that is there between operands that are there or left out, where an
  -- identifier is left: between two it is a new mux as wide as the wider one, which is signed where
  -- both are; with one it has the shape of that one, and nothing is reported. With neither the
  -- result is the shared zero, an error is reported, and a mux without operands is left in the
  -- graph. It has no fault, the earlier nodes are kept, and the builder stays valid.
  pub create_mux-IsMux :
      (c p q : ExprId)
      → c < size b
      → Exists (size b) p
      → Exists (size b) q
      → Returns (λ id t. Adds 1 b id t × IsMux b c p q id t) (create_mux c p q b)
  create_mux-IsMux c p q h hp hq =
      Returns-both (Adds 1 b) (IsMux b c p q) (create_mux c p q b)
        (create_mux-Adds b v room c p q h hp hq) (chosen c p q hp hq)
