-- ===== src/Expr/Valid/Simple.antt =====
-- The operations of src/ir/expr_builder.cpp that add one node, on valid builders.
use abys.Prelude.{◌<◌, ◌≡◌, max, ◌&&◌, true, false, [], ◌∷◌, some, inr}
use abys.Run.{Returns, Returns-of_eq}
use abys.Expr.Graph.{ExprId, Op, blank, invalid_id}
use abys.Expr.Builder.{Builder, size}
use abys.Expr.Builder.Simple.{
  create_unary_reduce, create_unary, create_binary, create_shift, create_compare,
}
use abys.Expr.Valid.{IsValid, Adds}
use abys.Expr.Valid.Rank.{Exists}
use abys.Expr.Valid.Append.{plain-Adds, is_plain}
use abys.Expr.Valid.Made.{more, create_node_lem, node_at, get_node-more, put_node-more}

-- Each of the lemmas tells the new node.
pub unary_reduce_lem :
    (b : Builder)
    → size b < invalid_id
    → (op : Op) (a : ExprId)
    → create_unary_reduce op a b
      ≡ some (size b, more b (record { op = op; width = 1; sign = false; operands = a ∷ [] }))
unfolding create_unary_reduce
unary_reduce_lem b room op a = rw (create_node_lem b room, put_node-more b _)

module _ (b : Builder) (v : IsValid b) (room : size b < invalid_id) where
  pub create_unary_reduce-Adds :
      (op : Op) (a : ExprId)
      → is_plain op ≡ true
      → a < size b
      → Returns (Adds 1 b) (create_unary_reduce op a b)
  create_unary_reduce-Adds op a plain h =
      Returns-of_eq (Adds 1 b) _ _ _ (unary_reduce_lem b room op a)
        (plain-Adds b _ v room (inr h, tt) plain)

  unary_lem :
      (op : Op) (a : ExprId) (h : a < size b)
      → create_unary op a b
        ≡ some (
          size b,
          more b (record {
            op = op;
            width = (node_at b a h).width;
            sign = (node_at b a h).sign;
            operands = a ∷ [];
          }),
        )
  unfolding create_unary
  unary_lem op a h = rw (create_node_lem b room, get_node-more b blank a h, put_node-more b _)

  pub create_unary-Adds :
      (op : Op) (a : ExprId)
      → is_plain op ≡ true
      → a < size b
      → Returns (Adds 1 b) (create_unary op a b)
  create_unary-Adds op a plain h =
      Returns-of_eq (Adds 1 b) _ _ _ (unary_lem op a h) (plain-Adds b _ v room (inr h, tt) plain)

  binary_lem :
      (op : Op) (a c : ExprId) (h : a < size b) (k : c < size b)
      → create_binary op a c b
        ≡ some (
          size b,
          more b (record {
            op = op;
            width = max (node_at b a h).width (node_at b c k).width;
            sign = (node_at b a h).sign && (node_at b c k).sign;
            operands = a ∷ c ∷ [];
          }),
        )
  unfolding create_binary
  binary_lem op a c h k = rw (
    create_node_lem b room,
    get_node-more b blank a h,
    get_node-more b blank c k,
    put_node-more b _,
  )

  pub create_binary-Adds :
      (op : Op) (a c : ExprId)
      → is_plain op ≡ true
      → a < size b
      → c < size b
      → Returns (Adds 1 b) (create_binary op a c b)
  create_binary-Adds op a c plain h k =
      Returns-of_eq (Adds 1 b) _ _ _ (binary_lem op a c h k)
        (plain-Adds b _ v room (inr h, (inr k, tt)) plain)

  shift_lem :
      (op : Op) (a c : ExprId) (h : a < size b)
      → create_shift op a c b
        ≡ some (
          size b,
          more b (record {
            op = op;
            width = (node_at b a h).width;
            sign = (node_at b a h).sign;
            operands = a ∷ c ∷ [];
          }),
        )
  unfolding create_shift
  shift_lem op a c h = rw (create_node_lem b room, get_node-more b blank a h, put_node-more b _)

  pub create_shift-Adds :
      (op : Op) (a c : ExprId)
      → is_plain op ≡ true
      → a < size b
      → c < size b
      → Returns (Adds 1 b) (create_shift op a c b)
  create_shift-Adds op a c plain h k =
      Returns-of_eq (Adds 1 b) _ _ _ (shift_lem op a c h)
        (plain-Adds b _ v room (inr h, (inr k, tt)) plain)

  pub compare_lem :
      (op : Op) (a c : ExprId)
      → create_compare op a c b
        ≡ some (size b, more b (record { op = op; width = 1; sign = false; operands = a ∷ c ∷ [] }))
  unfolding create_compare
  compare_lem op a c = rw (create_node_lem b room, put_node-more b _)

  -- The operands of a comparison are not read.
  pub create_compare-Adds :
      (op : Op) (a c : ExprId)
      → is_plain op ≡ true
      → Exists (size b) a
      → Exists (size b) c
      → Returns (Adds 1 b) (create_compare op a c b)
  create_compare-Adds op a c plain h k =
      Returns-of_eq (Adds 1 b) _ _ _ (compare_lem op a c) (plain-Adds b _ v room (h, (k, tt)) plain)
