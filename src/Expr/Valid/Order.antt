-- ===== src/Expr/Valid/Order.antt =====
-- The order of the nodes of a logical operation in src/ir/expr_builder.cpp.
use abys.Prelude.{
  ◌+◌, ◌<◌, ◌≡◌, refl, some, List, [], ◌∷◌, ◌++◌, arith, lt→ltb, length, get_elem?,
  get_elem?-append_left, lt_of_get_elem?,
}
use abys.Expr.Graph.{ExprId, Node, Op, blank, invalid_id}
use abys.Expr.Builder.{Builder, size, nodes, with_nodes, get_node}
use abys.Expr.Builder.Simple.{to_bit, create_logical_binary}
use abys.Expr.Valid.Made.{create_node_lem}
use abys.Expr.Valid.Logical.{held, reduction, or_reduce-held, put_node-held, logical_node}

to_bit_wide :
    (b : Builder) (ns : List Node) (a : ExprId) (m : Node)
    → get_elem? (nodes b) a ≡ some m
    → 1 < m.width
    → size b + 1 + length ns < invalid_id
    → to_bit a (held b ns) ≡ some (size b + 1 + length ns, held b (ns ++ reduction a ∷ []))
unfolding to_bit get_node
to_bit_wide b ns a m there wide room =
    let before : a < size b = lt_of_get_elem? (nodes b) a there in
    rw
      (
        get_elem?-append_left (nodes b) (blank ∷ ns) a before,
        there,
        lt→ltb 1 m.width wide,
        or_reduce-held b ns a room,
      )
      refl

-- A logical operation on two operands of more than one bit, where three identifiers are left, yields
-- the next identifier, and adds its node with the operator and the two reductions behind it, which
-- are its operands: the node is older than both.
pub create_logical_binary_order :
    (b : Builder) (op : Op) (a c : ExprId) (m n : Node)
    → size b + 2 < invalid_id
    → get_elem? (nodes b) a ≡ some m
    → get_elem? (nodes b) c ≡ some n
    → 1 < m.width
    → 1 < n.width
    → create_logical_binary op a c b
      ≡ some (
        size b,
        with_nodes b
            (nodes b ++ logical_node op (size b + 1) (size b + 2) ∷ reduction a ∷ reduction c ∷ []),
      )
unfolding create_logical_binary
create_logical_binary_order b op a c m n room there there' wide wide' =
    let e : size b + 1 + 0 ≡ size b + 1 = omega arith in
    let f : size b + 1 + 1 ≡ size b + 2 = omega arith in
    rw
      (
        create_node_lem b (omega arith),
        to_bit_wide b [] a m there wide (omega arith),
        to_bit_wide b (reduction a ∷ []) c n there' wide' (omega arith),
        e,
        f,
        put_node-held b (reduction a ∷ reduction c ∷ []) _,
      )
      refl
