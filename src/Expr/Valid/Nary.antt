-- ===== src/Expr/Valid/Nary.antt =====
-- The operations of src/ir/expr_builder.cpp on lists of operands.
use abys.Prelude.{
  ◌+◌, ◌≢◌, ◌≤◌, ◌<◌, ◌≡◌, refl, max, ltb, ◌⊎◌, ◌&&◌, not, true, Bool, List, [], ◌∷◌, All, All-map,
  get_elem?, is_empty, some, inl, inr, arith, Bool-cases, and_left, and_right, and_intro, tests,
}
use abys.Run.{pure, ◌>>◌, Returns, Returns-map, bind-Returns}
use abys.Expr.Graph.{ExprId, Node, Op, SignalWidth, blank, invalid_id}
use abys.Expr.Builder.{Builder, size, nodes, put_node}
use abys.Expr.Builder.Simple.{create_nary, join_operands}
use abys.Expr.Valid.{IsValid, Adds}
use abys.Expr.Valid.Append.{plain-Adds, is_plain, get_elem?-last}
use abys.Expr.Valid.Made.{
  more, size-more, create_node_lem, node_at, node_at_lem, get_node-more, put_node-more,
}

-- The operand is no wider than the result, and signed where the result is.
abbrev pub IsCovered : Builder → SignalWidth → Bool → ExprId → Type 0
IsCovered b width sign o =
    (m : Node) × (get_elem? (nodes b) o ≡ some m)
    × (m.width ≤ width)
    × (sign ≡ true → m.sign ≡ true)

-- The width is that of an operand.
abbrev pub IsAttained : Builder → SignalWidth → List ExprId → Type 0
IsAttained b width [] = ⊥
IsAttained b width (o ∷ l) =
    ((m : Node) × (get_elem? (nodes b) o ≡ some m) × (m.width ≡ width)) ⊎ IsAttained b width l

-- All operands are signed.
abbrev pub AreSigned : Builder → List ExprId → Type 0
AreSigned b l = All (λ o. (m : Node) × (get_elem? (nodes b) o ≡ some m) × (m.sign ≡ true)) l

record Joined (b : Builder) (node : Node) (l : List ExprId) (width : SignalWidth) (sign : Bool)
    (shape : SignalWidth × Bool) (t : Builder) : Type 0 where
  same : t ≡ more b node
  wider : width ≤ shape.0
  signed : shape.1 ≡ true → sign ≡ true
  covered : All (IsCovered b shape.0 shape.1) l
  attained : (shape.0 ≡ width) ⊎ IsAttained b shape.0 l
  all_signed : sign ≡ true → AreSigned b l → shape.1 ≡ true

-- The loop over the operands of `create_nary` reads nodes that are there.
join_operands-Joined :
    (b : Builder) (node : Node) (l : List ExprId) (width : SignalWidth) (sign : Bool)
    → All (λ o. o < size b) l
    → Returns (Joined b node l width sign) (join_operands l width sign (more b node))
unfolding join_operands
join_operands-Joined b node [] width sign h = record {
  same = refl;
  wider = omega arith;
  signed = λ e. e;
  covered = tt;
  attained = inl refl;
  all_signed = λ e k. e;
}
join_operands-Joined b node (a ∷ l) width sign h = rw (get_node-more b node a h.0) (
    Returns-map _ _ _ wrap (join_operands-Joined b node l (max width m.width) (sign && m.sign) h.1))
  where
    m : Node
    m = node_at b a h.0

    read : get_elem? (nodes b) a ≡ some m
    read = node_at_lem b a h.0

    attain :
        (w : SignalWidth)
        → (w ≡ max width m.width) ⊎ IsAttained b w l
        → (w ≡ width) ⊎ IsAttained b w (a ∷ l)
    attain w (inr later) = inr (inr later)
    attain w (inl e) = elim (Bool-cases (ltb width m.width)) [
      | inl less ↦ inr (inl (m, read, omega (tests)))
      | inr other ↦ inl (ground arith)
    ]

    mine : (n : Node) × (get_elem? (nodes b) a ≡ some n) × (n.sign ≡ true) → m.sign ≡ true
    mine (n, there, e) = cc (node_at_lem b a h.0)

    wrap :
        (shape : SignalWidth × Bool) (t : Builder)
        → Joined b node l (max width m.width) (sign && m.sign) shape t
        → Joined b node (a ∷ l) width sign shape t
    wrap shape t j = record {
      same = j.same;
      wider = omega (arith, j.wider);
      signed = λ e. and_left sign m.sign (j.signed e);
      covered =
          ((m, read, omega (arith, j.wider), λ e. and_right sign m.sign (j.signed e)), j.covered);
      attained = attain shape.0 j.attained;
      all_signed = λ e k. j.all_signed (and_intro sign m.sign e (mine k.0)) k.1;
    }

-- The shape of an operation on a list: as wide as its widest operand, and signed where all are.
pub record IsNary (b : Builder) (op : Op) (l : List ExprId) (id : ExprId) (b' : Builder)
    : Type 0 where
  pub adds : Adds 1 b id b'
  pub grown : size b' ≡ size b + 1
  pub node : Node
  pub made : get_elem? (nodes b') id ≡ some node
  pub operator : node.op ≡ op
  pub operands : node.operands ≡ l
  pub covered : All (IsCovered b node.width node.sign) l
  pub attained : IsAttained b node.width l
  pub all_signed : AreSigned b l → node.sign ≡ true

attain_zero :
    (b : Builder) (w : SignalWidth) (sign : Bool) (l : List ExprId)
    → l ≢ []
    → All (IsCovered b w sign) l
    → (w ≡ 0) ⊎ IsAttained b w l
    → IsAttained b w l
attain_zero b w sign [] h c a = absurd (h refl)
attain_zero b w sign (o ∷ l) h c (inr later) = later
attain_zero b w sign (o ∷ l) h ((m, there, le, s), c) (inl e) = inl (m, there, omega arith)

module _ (b : Builder) (v : IsValid b) (room : size b < invalid_id) where
  finish-IsNary :
      (op : Op) (l : List ExprId) (shape : SignalWidth × Bool) (t : Builder)
      → is_plain op ≡ true
      → l ≢ []
      → All (λ o. o < size b) l
      → Joined b blank l 0 true shape t
      → Returns (IsNary b op l) (
          (do
            put_node (size b) (record { op = op; width = shape.0; sign = shape.1; operands = l })
            pure (size b))
            t)
  finish-IsNary op l shape t plain some_operand h j =
      rw
        (
          j.same,
          put_node-more b (record { op = op; width = shape.0; sign = shape.1; operands = l }),
        )
        (record {
          adds = plain-Adds b _ v room (All-map _ _ (λ o k. inr k) l h) plain;
          grown = size-more b (record { op = op; width = shape.0; sign = shape.1; operands = l });
          node = record { op = op; width = shape.0; sign = shape.1; operands = l };
          made = get_elem?-last (nodes b) _;
          operator = refl;
          operands = refl;
          covered = j.covered;
          attained = attain_zero b shape.0 shape.1 l some_operand j.covered j.attained;
          all_signed = j.all_signed refl;
        })

  not-is_empty : (l : List ExprId) → l ≢ [] → not (is_empty l) ≡ true
  not-is_empty [] h = absurd (h refl)
  not-is_empty (x ∷ l) h = refl

  -- An operation on a list of nodes that are there, which is not empty, adds one node where an
  -- identifier is left and its operator is not that of a constant or a sequence: the node has the
  -- operator and the operands, is as wide as its widest operand, and is signed exactly where all
  -- operands are; the builder stays valid and the earlier nodes are kept.
  pub create_nary-IsNary :
      (op : Op) (l : List ExprId)
      → is_plain op ≡ true
      → l ≢ []
      → All (λ o. o < size b) l
      → Returns (IsNary b op l) (create_nary op l b)
  unfolding create_nary
  create_nary-IsNary op l plain some_operand h =
      rw (not-is_empty l some_operand, create_node_lem b room)
        (bind-Returns _ (Joined b blank l 0 true) (join_operands l 0 true) _ (more b blank)
          (join_operands-Joined b blank l 0 true h)
          (λ shape t j. finish-IsNary op l shape t plain some_operand h j))
