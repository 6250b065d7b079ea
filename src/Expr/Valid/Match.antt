-- ===== src/Expr/Valid/Match.antt =====
-- The comparison with a case value of src/ir/expr_builder.cpp, which may be a list.
use abys.Prelude.{
  ℕ, suc, ◌+◌, ◌≤◌, ◌<◌, ◌≡◌, ◌≢◌, refl, true, some, List, [], ◌∷◌, All, All-map, length, get_elem?,
  inl, inr, arith, Bool-cases, Bool, false, lt_of_get_elem?,
}
use abys.Run.{◌>>=◌, Returns, Returns-of_eq, Returns-map, bind-Returns}
use abys.Expr.Graph.{ExprId, Node, Op, invalid_id, is_op}
use abys.Expr.Builder.{Builder, size, nodes, get_node}
use abys.Expr.Builder.Simple.{create_eq, create_or}
use abys.Expr.Builder.Choice.{create_eqs, create_match}
use abys.Expr.Valid.{IsValid, Adds, IsOperand}
use abys.Expr.Valid.Rank.{Exists}
use abys.Expr.Valid.Append.{get_elem?-last, plain-Adds, Adds-same, Adds-trans, Adds-weaken}
use abys.Expr.Valid.Simple.{compare_lem}
use abys.Expr.Valid.Made.{size-more}
use abys.Expr.Valid.Nary.{IsNary, create_nary-IsNary}

-- a node that compares a selector with an item
abbrev eq_node : ExprId → ExprId → Node
eq_node selector item = record {
  op = Op.eq;
  width = 1;
  sign = false;
  operands = selector ∷ item ∷ [];
}

-- The nodes compare the selector with the items, one by one.
abbrev pub AreEqs : Builder → ExprId → List ExprId → List ExprId → Type 0
AreEqs t selector [] [] = Unit
AreEqs t selector [] (i ∷ ids) = ⊥
AreEqs t selector (o ∷ l) [] = ⊥
AreEqs t selector (o ∷ l) (i ∷ ids) =
    (get_elem? (nodes t) i ≡ some (eq_node selector o)) × AreEqs t selector l ids

-- The loop of `create_match`, from a graph with room for a node for each item.
record Compared (b : Builder) (selector : ExprId) (l ids : List ExprId) (t : Builder) : Type 0 where
  adds : Adds (length l) b selector t
  made : All (λ o. o < size t) ids
  grown : size t ≡ size b + length l
  eqs : AreEqs t selector l ids

-- One new node, which compares a selector with an item.
pub record IsEq (b : Builder) (selector item id : ExprId) (t : Builder) : Type 0 where
  pub adds : Adds 1 b id t
  pub grown : size t ≡ size b + 1
  pub made : get_elem? (nodes t) id ≡ some (eq_node selector item)

AreEqs-keeps :
    (m : ℕ) (t u : Builder) (i selector : ExprId)
    → Adds m t i u
    → (l ids : List ExprId) → AreEqs t selector l ids
    → AreEqs u selector l ids
AreEqs-keeps m t u i selector a [] [] h = tt
AreEqs-keeps m t u i selector a [] (id ∷ ids) h = h
AreEqs-keeps m t u i selector a (o ∷ l) [] h = h
AreEqs-keeps m t u i selector a (o ∷ l) (id ∷ ids) (e, h) =
    (a.keeps id (eq_node selector o) e, AreEqs-keeps m t u i selector a l ids h)

create_eq-IsEq :
    (b : Builder)
    → IsValid b
    → size b < invalid_id
    → (selector item : ExprId) → selector < size b
    → Exists (size b) item
    → Returns (IsEq b selector item) (create_eq selector item b)
unfolding create_eq
create_eq-IsEq b v room selector item h k =
    Returns-of_eq (IsEq b selector item) _ _ _ (compare_lem b v room Op.eq selector item) (record {
      adds = plain-Adds b (eq_node selector item) v room (inr h, (k, tt)) refl;
      grown = size-more b (eq_node selector item);
      made = get_elem?-last (nodes b) (eq_node selector item);
    })

Exists-grow : (m n : ℕ) → m ≤ n → (o : ExprId) → Exists m o → Exists n o
Exists-grow m n le o (inl invalid) = inl invalid
Exists-grow m n le o (inr there) = inr (omega arith)

create_eqs-Compared :
    (b : Builder) (selector : ExprId) (l : List ExprId)
    → IsValid b
    → size b + length l < invalid_id
    → selector < size b
    → All (Exists (size b)) l
    → Returns (Compared b selector l) (create_eqs selector l b)
unfolding create_eqs
create_eqs-Compared b selector [] v room h k = record {
  adds = Adds-same b selector v h;
  made = tt;
  grown = omega arith;
  eqs = tt;
}
create_eqs-Compared b selector (o ∷ l) v room h (k, ks) =
    bind-Returns (Compared b selector (o ∷ l)) (IsEq b selector o) (create_eq selector o) _ b
      (create_eq-IsEq b v (omega arith) selector o h k)
      (λ i t p.
        bind-Returns (Compared b selector (o ∷ l)) (Compared t selector l) (create_eqs selector l) _
          t
          (create_eqs-Compared t selector l p.adds.valid (omega (arith, p.grown))
            (omega (arith, p.grown))
            (All-map _ _ (Exists-grow (size b) (size t) p.adds.grows) l ks))
          (λ ids u q. record {
            adds =
                Adds-weaken (1 + length l) (suc (length l)) b selector u (omega arith)
                  (Adds-trans 1 (length l) b i t selector u p.adds q.adds);
            made = (omega (arith, p.adds.there, q.adds.grows), q.made);
            grown = omega (arith, p.grown, q.grown);
            eqs = (q.adds.keeps i (eq_node selector o) p.made, q.eqs);
          }))

-- A new node for each item, which compares the selector with it, and one that joins them.
pub record IsEither (b : Builder) (selector : ExprId) (l : List ExprId) (id : ExprId) (t : Builder)
    : Type 0 where
  pub adds : Adds (length l + 1) b id t
  pub grown : size t ≡ size b + length l + 1
  pub ids : List ExprId
  pub eqs : AreEqs t selector l ids
  pub node : Node
  pub made : get_elem? (nodes t) id ≡ some node
  pub operator : node.op ≡ Op.or
  pub operands : node.operands ≡ ids

-- What a comparison makes, of the items of a list or of one value.
abbrev pub IsMatch : Builder → ExprId → ExprId → List ExprId → Bool → ExprId → Builder → Type 0
IsMatch b selector case_value items true id t = IsEither b selector items id t
IsMatch b selector case_value items false id t = IsEq b selector case_value id t

-- the number of nodes that it makes
abbrev pub nodes_for : List ExprId → Bool → ℕ
nodes_for items true = length items + 1
nodes_for items false = 1

module _ (b : Builder) (v : IsValid b) where
  match_each :
      (selector : ExprId) (l : List ExprId)
      → size b + (length l + 1) ≤ invalid_id
      → selector < size b
      → l ≢ []
      → All (Exists (size b)) l
      → Returns (IsEither b selector l) ((create_eqs selector l >>= create_or) b)
  unfolding create_or
  match_each selector l room h some_item k =
      bind-Returns (IsEither b selector l) (Compared b selector l) (create_eqs selector l) create_or
        b (create_eqs-Compared b selector l v (omega arith) h k)
        (λ ids t p.
          Returns-map (IsEither b selector l) (IsNary t Op.or ids) (create_or ids t)
            (λ j u q. record {
              adds = Adds-trans (length l) 1 b selector t j u p.adds q.adds;
              grown = omega (arith, p.grown, q.grown);
              ids = ids;
              eqs = AreEqs-keeps 1 t u j selector q.adds l ids p.eqs;
              node = q.node;
              made = q.made;
              operator = q.operator;
              operands = q.operands;
            })
            (create_nary-IsNary t p.adds.valid (omega (arith, p.grown)) Op.or ids refl
              (not_empty t ids l p.eqs some_item) p.made))
    where
      not_empty :
          (t : Builder) (ids items : List ExprId)
          → AreEqs t selector items ids
          → items ≢ []
          → ids ≢ []
      not_empty t [] [] e h = h
      not_empty t [] (o ∷ l) e h = absurd e
      not_empty t (i ∷ ids) items e h = λ none_left. cc

  -- The comparison of a selector with a case value that is no list adds exactly one node, which
  -- compares the two; the comparison with a list that has an item adds exactly one node for each
  -- item, which compares the selector with it, and one more, the disjunction of these in order.
  -- Where as many identifiers are left, it has no fault, the earlier nodes are kept, and the builder
  -- stays valid.
  pub create_match-IsMatch :
      (selector case_value : ExprId) (node : Node)
      → get_elem? (nodes b) case_value ≡ some node
      → size b + nodes_for node.operands (is_op node.op Op.list) ≤ invalid_id
      → selector < size b
      → (node.op ≡ Op.list → node.operands ≢ [])
      → Returns
          (IsMatch b selector case_value node.operands (is_op node.op Op.list))
          (create_match selector case_value b)
  unfolding create_match get_node
  create_match-IsMatch selector case_value node there room h items =
      rw there (elim (Bool-cases (is_op node.op Op.list)) [
        | inl is_list ↦ rw is_list (
            match_each selector node.operands (rw is_list at room) h
              (items (list_op node.op is_list))
              (All-map _ _ operand node.operands
                (v.well_formed.ranked.falls case_value node there)))
        | inr other ↦ rw other (
            create_eq-IsEq b v (omega (arith, rw other at room)) selector case_value h
              (inr (lt_of_get_elem? (nodes b) case_value there)))
      ])
    where
      list_op : (op : Op) → is_op op Op.list ≡ true → op ≡ Op.list
      list_op Op.list e = refl
      list_op _ e = cc

      operand :
          (o : ExprId)
          → IsOperand (nodes b) v.well_formed.rank (v.well_formed.rank case_value) o
          → Exists (size b) o
      operand o (inl invalid) = inl invalid
      operand o (inr (lt, lower)) = inr lt

  pub create_match-Adds :
      (selector case_value : ExprId) (node : Node)
      → get_elem? (nodes b) case_value ≡ some node
      → size b + length node.operands + 1 < invalid_id
      → selector < size b
      → (node.op ≡ Op.list → node.operands ≢ [])
      → Returns (Adds (length node.operands + 1) b) (create_match selector case_value b)
  create_match-Adds selector case_value node there room h items =
      Returns-map (Adds (length node.operands + 1) b)
        (IsMatch b selector case_value node.operands (is_op node.op Op.list))
        (create_match selector case_value b) (added (is_op node.op Op.list))
        (create_match-IsMatch selector case_value node there (enough (is_op node.op Op.list)) h
          items)
    where
      enough : (list : Bool) → size b + nodes_for node.operands list ≤ invalid_id
      enough true = omega arith
      enough false = omega arith

      added :
          (list : Bool) (id : ExprId) (t : Builder)
          → IsMatch b selector case_value node.operands list id t
          → Adds (length node.operands + 1) b id t
      added true id t m = m.adds
      added false id t m = Adds-weaken 1 (length node.operands + 1) b id t (omega arith) m.adds
