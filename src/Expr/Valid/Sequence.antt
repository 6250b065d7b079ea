-- ===== src/Expr/Valid/Sequence.antt =====
-- The sequences of assignments of src/ir/expr_builder.cpp and their properties.
use abys.Prelude.{
  ◌+◌, ◌<◌, ◌≡◌, refl, ◌==◌, ◌⊎◌, not, true, false, Bool, some, List, [], ◌∷◌, ◌++◌, inl, inr,
  arith, if◌then◌else◌, Bool-cases, All, All-append, All-map, get_elem?, lt_of_get_elem?,
}
use abys.Run.{Returns, Returns-map, pure}
use abys.Expr.Graph.{ExprId, Node, Op, SignalWidth, UnpackedProperties, invalid_id}
use abys.Expr.Builder.{Builder, size, nodes, get_node}
use abys.Expr.Builder.Unpacked.{
  add_properties, find_properties, properties_of, add_sequence, start_sequence, previous_operands,
  create_sequence, extend_sequence,
}
use abys.Expr.Valid.{IsValid, IsOperand, Adds}
use abys.Expr.Valid.Rank.{Exists}
use abys.Expr.Valid.Append.{add-Adds, find_properties-append, get_elem?-last}
use abys.Expr.Valid.Made.{
  more, create_node_lem, put_node-more, node_at, node_at_lem, size-more, get_node-more,
}

abbrev with_properties : Builder → UnpackedProperties → Builder
with_properties b entry = record b {
  graph = record b.graph { unpacked_properties = b.graph.unpacked_properties ++ entry ∷ [] };
}

find_properties-last :
    (i : ExprId) (old : List UnpackedProperties) (entry : UnpackedProperties)
    → entry.id ≡ i
    → (p : UnpackedProperties) × (find_properties i (old ++ entry ∷ []) ≡ some p)
unfolding find_properties
find_properties-last i [] entry e = (entry, ground arith)
find_properties-last i (first ∷ old) entry e = elim (Bool-cases (first.id == i)) [
  | inl found ↦ (first, rw found)
  | inr other ↦ let (p, h) = find_properties-last i old entry e in (p, rw other h)
]

abbrev sequence_node : Node → List ExprId → Node
sequence_node next operands = record {
  op = Op.sequence;
  width = next.width;
  sign = next.sign;
  operands = operands;
}

module _ (b : Builder) (v : IsValid b) (room : size b < invalid_id) where
  add_sequence_lem :
      (next : ExprId) (h : next < size b) (operands : List ExprId)
      → add_sequence next operands b
        ≡ some (size b, more b (sequence_node (node_at b next h) operands))
  unfolding add_sequence
  add_sequence_lem next h operands =
      rw (create_node_lem b room, get_node-more b _ next h, put_node-more b _) refl

  -- a sequence together with its properties
  described-Adds :
      (next : Node) (operands : List ExprId) (entry : UnpackedProperties)
      → entry.id ≡ size b
      → All (Exists (size b)) operands
      → Adds 1 b (size b) (with_properties (more b (sequence_node next operands)) entry)
  described-Adds next operands entry e h =
      add-Adds b _ (sequence_node next operands) v room h
        (record {
          nodes = refl;
          inputs = λ name id k. inl k;
          constants = λ i w k. (w, k);
          constant = λ k. absurd (cc);
          properties = λ i p k. (p, find_properties-append i b.graph.unpacked_properties _ p k);
          property = λ k. find_properties-last (size b) b.graph.unpacked_properties entry e;
        })
        (λ name id k. inl k)

  -- The first assignment to an array starts a sequence, which gets the array's properties: with a node
  -- to assign and an identifier left, nothing fails.
  pub start_sequence-Adds :
      (next base : ExprId) (dims : List SignalWidth) (width : SignalWidth) (sign : Bool)
      → next < size b
      → Returns (Adds 1 b) (start_sequence next base dims width sign b)
  unfolding start_sequence add_properties
  start_sequence-Adds next base dims width sign h =
      let valid : (not (next == invalid_id)) ≡ true = ground arith in
      rw (valid, add_sequence_lem next h (next ∷ []))
        (described-Adds (node_at b next h) (next ∷ []) _ refl (inr h, tt))

-- What `create_sequence` asks of the sequence that it extends: none, or a sequence of the width of the
-- next assignment.
abbrev pub Continues : Builder → ExprId → ExprId → Type 0
Continues b current next =
    (current ≡ invalid_id)
    ⊎ ((node : Node) × (last : Node) × (get_elem? (nodes b) current ≡ some node)
        × (node.op ≡ Op.sequence)
        × (get_elem? (nodes b) next ≡ some last)
        × (last.width ≡ node.width)
        × (current < invalid_id))

-- The assignments of a sequence so far: none, or those that it holds.
abbrev pub Was : Builder → ExprId → List ExprId → Type 0
Was b current before =
    ((current ≡ invalid_id) × (before ≡ []))
    ⊎ ((old : Node) × (get_elem? (nodes b) current ≡ some old) × (old.operands ≡ before))

-- A new sequence of the assignments so far and the next one, with the shape of that one and an entry
-- with the properties.
pub record IsExtended (b : Builder) (current next : ExprId) (properties : UnpackedProperties)
    (id : ExprId) (b' : Builder) : Type 0 where
  pub adds : Adds 1 b id b'
  pub grown : size b' ≡ size b + 1
  pub node : Node
  pub made : get_elem? (nodes b') id ≡ some node
  pub operator : node.op ≡ Op.sequence
  pub last : Node
  pub assigned : get_elem? (nodes b) next ≡ some last
  pub shape : (node.width ≡ last.width) × (node.sign ≡ last.sign)
  pub before : List ExprId
  pub was : Was b current before
  pub operands : node.operands ≡ before ++ next ∷ []
  pub described :
      b'.graph.unpacked_properties
      ≡ b.graph.unpacked_properties ++ record properties { id = id } ∷ []

module _ (b : Builder) (v : IsValid b) where
  -- the operands of a node that is there, as operands of a new one
  old_operands :
      (i : ExprId) (node : Node)
      → get_elem? (nodes b) i ≡ some node
      → All (Exists (size b)) node.operands
  old_operands i node there =
      All-map _ _ known node.operands (v.well_formed.ranked.falls i node there)
    where
      known :
          (o : ExprId)
          → IsOperand (nodes b) v.well_formed.rank (v.well_formed.rank i) o
          → Exists (size b) o
      known o (inl invalid) = inl invalid
      known o (inr (h, lower)) = inr h

  -- the assignments that are there, and that they are operands
  previous :
      (current next : ExprId)
      → Continues b current next
      → (operands : List ExprId) × ((if current == invalid_id
              then pure []
              else previous_operands current next)
            b
          ≡ some (operands, b))
        × All (Exists (size b)) operands
        × Was b current operands
  unfolding previous_operands get_node
  previous current next (inl none_yet) = ([], rw none_yet refl, tt, inl (none_yet, refl))
  previous current next (inr (node, last, there, is_sequence, next_there, same, valid)) =
      let e : (current == invalid_id) ≡ false = ground arith in
      let w : (last.width == node.width) ≡ true = ground arith in
      (
        node.operands,
        rw (e, there, is_sequence, next_there, w) refl,
        old_operands current node there,
        inr (node, there, refl),
      )

module _ (b : Builder) (v : IsValid b) (room : size b < invalid_id) where
  -- Extending a sequence, which is none or one as wide as the next assignment, adds exactly one node
  -- where an identifier is left: it is a sequence of the assignments so far, in order, and the next
  -- one behind them, with the shape of that one and an entry with the properties of the source; it
  -- has no fault, the earlier nodes are kept, and the builder stays valid.
  pub create_sequence-IsExtended :
      (current next source : ExprId) (properties : UnpackedProperties)
      → Continues b current next
      → next < size b
      → find_properties source b.graph.unpacked_properties ≡ some properties
      → Returns (IsExtended b current next properties) (create_sequence current next source b)
  unfolding create_sequence properties_of add_properties
  create_sequence-IsExtended current next source properties continues h described =
      let (operands, e, known, was) = previous b v current next continues in
      let valid : (not (next == invalid_id)) ≡ true = ground arith in
      let node : Node = sequence_node (node_at b next h) (operands ++ next ∷ []) in
      rw (valid, e, described, add_sequence_lem b v room next h (operands ++ next ∷ []))
        (record {
          adds =
              described-Adds b v room (node_at b next h) (operands ++ next ∷ []) _ refl
                (All-append (Exists (size b)) operands (next ∷ []) known (inr h, tt));
          grown = size-more b node;
          node = node;
          made = get_elem?-last (nodes b) node;
          operator = refl;
          last = node_at b next h;
          assigned = node_at_lem b next h;
          shape = (refl, refl);
          before = operands;
          was = was;
          operands = refl;
          described = refl;
        })

  create_sequence-Adds :
      (current next source : ExprId) (properties : UnpackedProperties)
      → Continues b current next
      → next < size b
      → find_properties source b.graph.unpacked_properties ≡ some properties
      → Returns (Adds 1 b) (create_sequence current next source b)
  create_sequence-Adds current next source properties continues h described =
      Returns-map (Adds 1 b) (IsExtended b current next properties)
        (create_sequence current next source b) (λ id t c. c.adds)
        (create_sequence-IsExtended current next source properties continues h described)

  -- A sequence has its properties, so it can be its own source.
  pub extend_sequence-Adds :
      (current next : ExprId) (node last : Node)
      → get_elem? (nodes b) current ≡ some node
      → node.op ≡ Op.sequence
      → get_elem? (nodes b) next ≡ some last
      → last.width ≡ node.width
      → Returns (Adds 1 b) (extend_sequence current next b)
  unfolding extend_sequence
  extend_sequence-Adds current next node last there is_sequence next_there same =
      let bound : current < size b = lt_of_get_elem? (nodes b) current there in
      let valid : (not (current == invalid_id)) ≡ true = ground arith in
      let (properties, described) = v.well_formed.sequences current (node, there, is_sequence) in
      rw valid (
        create_sequence-Adds current next current properties
          (inr (node, last, there, is_sequence, next_there, same, omega arith))
          (lt_of_get_elem? (nodes b) next next_there) described)
