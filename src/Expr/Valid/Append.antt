-- ===== src/Expr/Valid/Append.antt =====
-- Graphs and builders of src/ir/expr_builder.cpp with a new node and its entries in the tables.
use mathlib.Core.Option.{some-injective}
use abys.Prelude.{
  ℕ, zero, suc, ◌+◌, ◌≤◌, ◌<◌, ◌≡◌, refl, sym, ◌∙◌, ◌⊎◌, inl, inr, String, Bool, true, not, ◌&&◌,
  some, List, [], ◌∷◌, ◌++◌, All, length, length-append, get_elem?, get_elem?-append_left,
  get_elem?-append_right, get_elem?-append_cases, lt_of_get_elem?, none-ne-some, lookup, arith,
}
use abys.Prelude.Text.{Text}
use abys.Run.{Run, Returns, Returns-map, bind-Returns, ◌>>=◌}
use abys.Expr.Graph.{ExprGraph, ExprId, Node, Constant, UnpackedProperties, Op, is_op, invalid_id}
use abys.Expr.Builder.{Builder, size, with_nodes}
use abys.Expr.Builder.Unpacked.{find_properties}
use abys.Expr.Eval.Steps.{constant_value}
use abys.Expr.Valid.{IsWellFormed, IsValid, HasOp, Adds}
use abys.Expr.Valid.Rank.{Exists, add-IsRanked, top_rank}

pub constant_value-append :
    (i : ExprId) (old new : List Constant) (v : Text)
    → constant_value i old ≡ some v
    → constant_value i (old ++ new) ≡ some v
unfolding constant_value
constant_value-append i [] new v h = cc
constant_value-append i (entry ∷ old) new v h = ground (arith, constant_value-append i old new v)

pub find_properties-append :
    (i : ExprId) (old new : List UnpackedProperties) (p : UnpackedProperties)
    → find_properties i old ≡ some p
    → find_properties i (old ++ new) ≡ some p
unfolding find_properties
find_properties-append i [] new p h = cc
find_properties-append i (entry ∷ old) new p h = ground (arith, find_properties-append i old new p)

-- a node of the longer list is an old one or the new one
node_cases :
    (nodes : List Node) (node : Node) (i : ExprId) (m : Node)
    → get_elem? (nodes ++ node ∷ []) i ≡ some m
    → (get_elem? nodes i ≡ some m) ⊎ ((i ≡ length nodes) × (m ≡ node))
node_cases nodes node i m h = elim (get_elem?-append_cases nodes (node ∷ []) i m h) [
  | inl old ↦ inl old
  | inr (j, e, new) ↦ inr (last j e new)
]
  where
    last :
        (j : ℕ)
        → i ≡ length nodes + j
        → get_elem? (node ∷ []) j ≡ some m
        → (i ≡ length nodes) × (m ≡ node)
    last zero e new = (omega arith, sym (some-injective node m new))
    last (suc j) e new = absurd (none-ne-some m new)

pub get_elem?-last :
    (nodes : List Node) (node : Node) → get_elem? (nodes ++ node ∷ []) (length nodes) ≡ some node
get_elem?-last nodes node =
    let e : length nodes + 0 ≡ length nodes = omega arith in
    rw e at (get_elem?-append_right nodes (node ∷ []) 0)

pub get_elem?-keeps :
    (nodes : List Node) (node : Node) (i : ExprId) (m : Node)
    → get_elem? nodes i ≡ some m
    → get_elem? (nodes ++ node ∷ []) i ≡ some m
get_elem?-keeps nodes node i m h =
    get_elem?-append_left nodes (node ∷ []) i (lt_of_get_elem? nodes i h) ∙ h

-- What the tables hold for a new node.
pub record Tables (g : ExprGraph) (node : Node) (g' : ExprGraph) : Type 0 where
  pub nodes : g'.nodes ≡ g.nodes ++ node ∷ []
  pub inputs :
      (name : String) (id : ExprId)
      → lookup name g'.inputs ≡ some id
      → (lookup name g.inputs ≡ some id) ⊎ ((id ≡ length g.nodes) × (node.op ≡ Op.input))
  pub constants :
      (i : ExprId) (v : Text)
      → constant_value i g.constants ≡ some v
      → (w : Text) × (constant_value i g'.constants ≡ some w)
  pub constant :
      node.op ≡ Op.const → (w : Text) × (constant_value (length g.nodes) g'.constants ≡ some w)
  pub properties :
      (i : ExprId) (p : UnpackedProperties)
      → find_properties i g.unpacked_properties ≡ some p
      → (q : UnpackedProperties) × (find_properties i g'.unpacked_properties ≡ some q)
  pub property :
      node.op ≡ Op.sequence
      → (q : UnpackedProperties) × (find_properties (length g.nodes) g'.unpacked_properties
          ≡ some q)

HasOp-keeps :
    (nodes : List Node) (node : Node) (op : Op) (i : ExprId)
    → HasOp nodes op i
    → HasOp (nodes ++ node ∷ []) op i
HasOp-keeps nodes node op i (m, there, e) = (m, get_elem?-keeps nodes node i m there, e)

pub add-IsWellFormed :
    (g g' : ExprGraph) (node : Node)
    → IsWellFormed g
    → length g.nodes < invalid_id
    → All (Exists (length g.nodes)) node.operands
    → Tables g node g'
    → IsWellFormed g'
add-IsWellFormed g g' node w room operands t = record {
  rank = top_rank (length g.nodes) w.rank;
  ranked = rw t.nodes (add-IsRanked g.nodes w.rank w.ranked node operands);
  shared = rw t.nodes (omega (arith, length-append g.nodes (node ∷ []), w.shared));
  fits = rw t.nodes (omega (arith, length-append g.nodes (node ∷ [])));
  inputs = λ name id h. rw t.nodes (input name id (t.inputs name id h));
  constants = λ i h. constant i (rw t.nodes at h);
  sequences = λ i h. sequence i (rw t.nodes at h);
}
  where
    input :
        (name : String) (id : ExprId)
        → (lookup name g.inputs ≡ some id) ⊎ ((id ≡ length g.nodes) × (node.op ≡ Op.input))
        → HasOp (g.nodes ++ node ∷ []) Op.input id
    input name id (inl old) = HasOp-keeps g.nodes node Op.input id (w.inputs name id old)
    input name id (inr (e, is_input)) = (node, rw e (get_elem?-last g.nodes node), is_input)

    constant :
        (i : ExprId)
        → HasOp (g.nodes ++ node ∷ []) Op.const i
        → (v : Text) × (constant_value i g'.constants ≡ some v)
    constant i (m, h, e) = elim (node_cases g.nodes node i m h) [
      | inl old ↦ let (v, found) = w.constants i (m, old, e) in t.constants i v found
      | inr (last, same) ↦ rw last (t.constant (rw same at e))
    ]

    sequence :
        (i : ExprId)
        → HasOp (g.nodes ++ node ∷ []) Op.sequence i
        → (p : UnpackedProperties) × (find_properties i g'.unpacked_properties ≡ some p)
    sequence i (m, h, e) = elim (node_cases g.nodes node i m h) [
      | inl old ↦ let (v, found) = w.sequences i (m, old, e) in t.properties i v found
      | inr (last, same) ↦ rw last (t.property (rw same at e))
    ]

pub add-Adds :
    (b b' : Builder) (node : Node)
    → IsValid b
    → size b < invalid_id
    → All (Exists (size b)) node.operands
    → Tables b.graph node b'.graph
    → ((name : String) (id : ExprId)
        → lookup name b'.name_map ≡ some id
        → (lookup name b.name_map ≡ some id) ⊎ (id ≡ size b))
    → Adds 1 b (size b) b'
add-Adds b b' node v room operands t names =
    let total : size b' ≡ size b + 1 = rw t.nodes (length-append b.graph.nodes (node ∷ [])) in
    record {
      valid = record {
        well_formed = add-IsWellFormed b.graph b'.graph node v.well_formed room operands t;
        names = λ name id h. elim (names name id h) [
          | inl old ↦ omega (arith, total, v.names name id old)
          | inr new ↦ omega (arith, total)
        ];
      };
      there = omega (arith, total);
      keeps = λ i m h. rw t.nodes (get_elem?-keeps b.graph.nodes node i m h);
      grows = omega (arith, total);
      bounded = omega (arith, total);
    }

-- A node of any operator but `const` and `sequence` needs no entry.
abbrev pub is_plain : Op → Bool
is_plain op = not (is_op op Op.const) && not (is_op op Op.sequence)

pub plain-Tables :
    (b : Builder) (node : Node)
    → is_plain node.op ≡ true
    → Tables b.graph node (with_nodes b (b.graph.nodes ++ node ∷ [])).graph
plain-Tables b node plain = record {
  nodes = refl;
  inputs = λ name id h. inl h;
  constants = λ i v h. (v, h);
  constant = λ e. absurd (ground arith);
  properties = λ i p h. (p, h);
  property = λ e. absurd (ground arith);
}

pub plain-Adds :
    (b : Builder) (node : Node)
    → IsValid b
    → size b < invalid_id
    → All (Exists (size b)) node.operands
    → is_plain node.op ≡ true
    → Adds 1 b (size b) (with_nodes b (b.graph.nodes ++ node ∷ []))
plain-Adds b node v room operands plain =
    add-Adds b _ node v room operands (plain-Tables b node plain) (λ name id h. inl h)

-- What two operations do, one after the other.
pub Adds-trans :
    (m n : ℕ) (b : Builder) (i : ExprId) (t : Builder) (j : ExprId) (u : Builder)
    → Adds m b i t
    → Adds n t j u
    → Adds (m + n) b j u
Adds-trans m n b i t j u p q = record {
  valid = q.valid;
  there = q.there;
  keeps = λ k node h. q.keeps k node (p.keeps k node h);
  grows = omega (arith, p.grows, q.grows);
  bounded = omega (arith, p.bounded, q.bounded);
}

pub Adds-weaken :
    (m n : ℕ) (b : Builder) (i : ExprId) (t : Builder) → m ≤ n → Adds m b i t → Adds n b i t
Adds-weaken m n b i t le p = record {
  valid = p.valid;
  there = p.there;
  keeps = p.keeps;
  grows = p.grows;
  bounded = omega (arith, p.bounded);
}

-- The same, told of another node of the new graph.
pub Adds-at :
    (m : ℕ) (b : Builder) (i j : ExprId) (t : Builder) → j < size t → Adds m b i t → Adds m b j t
Adds-at m b i j t h p = record {
  valid = p.valid;
  there = h;
  keeps = p.keeps;
  grows = p.grows;
  bounded = p.bounded;
}

-- Nothing is added where a node that is there is the result.
pub Adds-same : (b : Builder) (i : ExprId) → IsValid b → i < size b → Adds 0 b i b
Adds-same b i v h = record {
  valid = v;
  there = h;
  keeps = λ k node e. e;
  grows = omega arith;
  bounded = omega arith;
}

module _ (m n : ℕ) (b : Builder) where
  -- A run that goes on from the result of another, with the room that is left.
  pub bind-Adds :
      (first : Run Builder ExprId) (next : ExprId → Run Builder ExprId)
      → Returns (Adds m b) (first b)
      → ((i : ExprId) (t : Builder) → Adds m b i t → Returns (Adds n t) (next i t))
      → Returns (Adds (m + n) b) ((first >>= next) b)
  bind-Adds first next h k = bind-Returns (Adds (m + n) b) (Adds m b) first next b h (λ i t p.
      Returns-map (Adds (m + n) b) (Adds n t) (next i t) (λ j u q. Adds-trans m n b i t j u p q)
        (k i t p))
