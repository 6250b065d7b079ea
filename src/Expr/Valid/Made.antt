-- ===== src/Expr/Valid/Made.antt =====
-- The access to nodes of src/ir/expr_builder.cpp while a node is made.
use native.Mathlib.Nat.{mod-eq_of_lt}
use abys.Prelude.{
  ◌+◌, ◌%◌, ◌<◌, ◌≡◌, some, [], ◌∷◌, ◌++◌, length-append, get_elem?, get_elem?-append_left,
  get_elem?-lt, set-append_right, arith, ltb, lt→ltb, true,
}
use abys.Expr.Graph.{ExprId, Node, blank, id_limit, invalid_id}
use abys.Expr.Builder.{Builder, size, nodes, with_nodes, create_node, get_node, put_node}

-- the builder with a new node at the end
abbrev pub more : Builder → Node → Builder
more b node = with_nodes b (nodes b ++ node ∷ [])

pub size-more : (b : Builder) (node : Node) → size (more b node) ≡ size b + 1
size-more b node = length-append (nodes b) (node ∷ [])

pub create_node_lem :
    (b : Builder) → size b < invalid_id → create_node b ≡ some (size b, more b blank)
unfolding create_node
create_node_lem b room = let e : size b % id_limit ≡ size b = mod-eq_of_lt (omega arith) in rw e

-- A node that is there can be read, before and after the new node is made.
pub node_at : (b : Builder) (id : ExprId) → id < size b → Node
node_at b id h = (get_elem?-lt (nodes b) id h).0

pub get_node_lem :
    (b : Builder) (id : ExprId) (h : id < size b) → get_node id b ≡ some (node_at b id h, b)
unfolding get_node node_at
get_node_lem b id h = rw ((get_elem?-lt (nodes b) id h).1)

pub get_node-more :
    (b : Builder) (node : Node) (id : ExprId) (h : id < size b)
    → get_node id (more b node) ≡ some (node_at b id h, more b node)
unfolding get_node node_at
get_node-more b node id h =
    rw (get_elem?-append_left (nodes b) (node ∷ []) id h, (get_elem?-lt (nodes b) id h).1)

pub put_node-more :
    (b : Builder) (node : Node) → put_node (size b) node (more b blank) ≡ some (tt, more b node)
unfolding put_node
put_node-more b node =
    let bound : ltb (size b) (size (more b blank)) ≡ true =
      lt→ltb _ _ (omega (arith, size-more b blank)) in
    rw (bound, set-append_right (nodes b) [] blank node)

pub node_at_lem :
    (b : Builder) (id : ExprId) (h : id < size b) → get_elem? (nodes b) id ≡ some (node_at b id h)
unfolding node_at
node_at_lem b id h = (get_elem?-lt (nodes b) id h).1
