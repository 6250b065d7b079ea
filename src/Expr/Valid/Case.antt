-- ===== src/Expr/Valid/Case.antt =====
-- The case expression of src/ir/expr_builder.cpp, for data operands of one shape.
use Prim.Native.Nat.{min}
use abys.Prelude.{
  ℕ, zero, suc, ◌+◌, none-ne-some, ◌≤◌, ◌<◌, ◌≡◌, ◌≢◌, refl, ◌==◌, ◌⊎◌, ◌||◌, true, false, Bool,
  Option, none, some, List, [], ◌∷◌, All, All-map, length, get_elem?, lt_of_get_elem?, sym, ◌∙◌,
  inl, inr, arith,
}
use mathlib.Core.Bool.{beq}
use mathlib.Core.Option.{some-injective}
use abys.Run.{Returns, Returns-map}
use abys.Expr.Graph.{ExprId, Node, SignalWidth, Op, blank, invalid_id}
use abys.Expr.Builder.{Builder, size, nodes}
use abys.Expr.Builder.Choice.{agree, case_shape, case_operands, create_case}
use abys.Expr.Valid.{IsValid, Adds}
use abys.Expr.Valid.Rank.{Exists}
use abys.Expr.Valid.Append.{plain-Adds, get_elem?-last}
use abys.Expr.Valid.Made.{
  more, size-more, create_node_lem, node_at, node_at_lem, get_node-more, put_node-more,
}

-- Every data operand is left out, or has the given shape; and one is there.
abbrev pub HasShape : Builder → SignalWidth → Bool → ExprId → Type 0
HasShape b width sign o =
    (o ≡ invalid_id)
    ⊎ ((node : Node) × (get_elem? (nodes b) o ≡ some node)
        × (node.width ≡ width)
        × (node.sign ≡ sign))

abbrev pub SomeValid : List ExprId → Type 0
SomeValid [] = ⊥
SomeValid (o ∷ l) = (o ≢ invalid_id) ⊎ SomeValid l

agree_lem :
    (m : Node) (shape : Option (SignalWidth × Bool)) (t : Builder)
    → (shape ≡ none) ⊎ (shape ≡ some (m.width, m.sign))
    → agree m shape t ≡ some ((m.width, m.sign), t)
unfolding agree
agree_lem m shape t (inl e) = rw e
agree_lem m shape t (inr e) =
    let same_width : (m.width == m.width) ≡ true = ground arith in
    let same_sign : beq m.sign m.sign ≡ true = ground arith in rw (e, same_width, same_sign)

-- The loop of `create_case` on data operands of one shape: it finds the shape.
case_shape_lem :
    (b : Builder) (node : Node) (width : SignalWidth) (sign : Bool) (l : List ExprId)
    (shape : Option (SignalWidth × Bool))
    → size b ≤ invalid_id
    → (shape ≡ none) ⊎ (shape ≡ some (width, sign))
    → All (HasShape b width sign) l
    → SomeValid l ⊎ (shape ≡ some (width, sign))
    → case_shape l shape (more b node) ≡ some (some (width, sign), more b node)
unfolding case_shape
case_shape_lem b node width sign [] shape fits s h (inr known) = rw known
case_shape_lem b node width sign [] shape fits s h (inl valid) = absurd valid
case_shape_lem b node width sign (o ∷ l) shape fits s (inl left_out, hs) k =
    rw left_out (case_shape_lem b node width sign l shape fits s hs (drop k))
  where
    drop :
        SomeValid (o ∷ l) ⊎ (shape ≡ some (width, sign))
        → SomeValid l ⊎ (shape ≡ some (width, sign))
    drop (inl (inl valid)) = absurd (valid left_out)
    drop (inl (inr later)) = inl later
    drop (inr known) = inr known
case_shape_lem b node width sign (o ∷ l) shape fits s (inr (m, there, w, z), hs) k =
    let h = lt_of_get_elem? (nodes b) o there in
    let valid : (o == invalid_id) ≡ false = ground arith in
    let read : node_at b o h ≡ m = some-injective _ _ (sym (node_at_lem b o h) ∙ there) in
    rw (valid, get_node-more b node o h, read, agree_lem m shape (more b node) (rw (w, z) s), w, z)
      (case_shape_lem b node width sign l (some (width, sign)) fits (inr refl) hs (inr refl))

All-Exists_of_HasShape :
    (b : Builder) (width : SignalWidth) (sign : Bool) (o : ExprId)
    → HasShape b width sign o
    → Exists (size b) o
All-Exists_of_HasShape b width sign o (inl invalid) = inl invalid
All-Exists_of_HasShape b width sign o (inr (m, there, w, z)) =
    inr (lt_of_get_elem? (nodes b) o there)

case_operands-Exists :
    (n : ℕ) (values items : List ExprId)
    → All (Exists n) values
    → All (Exists n) items
    → All (Exists n) (case_operands values items)
unfolding case_operands
case_operands-Exists n values [] h k = tt
case_operands-Exists n [] (o ∷ l) h (k, ks) = (k, case_operands-Exists n [] l tt ks)
case_operands-Exists n (x ∷ values) (o ∷ l) (h, hs) (k, ks) =
    (h, (k, case_operands-Exists n values l hs ks))

-- The counts that `create_case` allows: a value for each item, or a default behind them.
abbrev pub CaseCounts : List ExprId → List ExprId → Type 0
CaseCounts values items = (length values ≡ length items) ⊎ (suc (length values) ≡ length items)

counts_test :
    (values items : List ExprId)
    → CaseCounts values items
    → (length values == length items || suc (length values) == length items) ≡ true
counts_test values items h = ground arith

-- The operands of a case expression: the selector, the value `k` at `2 * k + 1`, and the item `k`
-- behind it, or behind the item before it where there are no more values.
pub record IsCase (b : Builder) (selector : ExprId) (values items : List ExprId)
    (width : SignalWidth) (sign : Bool) (id : ExprId) (b' : Builder) : Type 0 where
  pub adds : Adds 1 b id b'
  pub grown : size b' ≡ size b + 1
  pub node : Node
  pub made : get_elem? (nodes b') id ≡ some node
  pub operator : node.op ≡ Op.case
  pub shape : (node.width ≡ width) × (node.sign ≡ sign)
  pub first : get_elem? node.operands 0 ≡ some selector
  pub value_at :
      (k : ℕ) (x : ExprId)
      → get_elem? values k ≡ some x
      → get_elem? node.operands (k + k + 1) ≡ some x
  pub item_at :
      (k : ℕ) (x : ExprId)
      → get_elem? items k ≡ some x
      → get_elem? node.operands (k + min (suc k) (length values) + 1) ≡ some x
  pub count : length node.operands ≡ length values + length items + 1

-- from the place of an operand to that of the one it is behind
shift :
    (xs : List ExprId) (x a : ExprId) (m n : ℕ)
    → n ≡ suc m
    → get_elem? xs m ≡ some x
    → get_elem? (a ∷ xs) n ≡ some x
shift xs x a m n e h = rw e h

value_place :
    (values items : List ExprId) (k : ℕ) (x : ExprId)
    → length values ≤ length items
    → get_elem? values k ≡ some x
    → get_elem? (case_operands values items) (k + k) ≡ some x
unfolding case_operands
value_place [] items k x le h = absurd (none-ne-some x h)
value_place (v ∷ values) [] k x le h = absurd (omega arith)
value_place (v ∷ values) (o ∷ items) zero x le h = h
value_place (v ∷ values) (o ∷ items) (suc k) x le h =
    let e : suc k + suc k ≡ suc (suc (k + k)) = omega arith in
    rw e (value_place values items k x (omega (arith, le)) h)

item_place :
    (values items : List ExprId) (k : ℕ) (x : ExprId)
    → get_elem? items k ≡ some x
    → get_elem? (case_operands values items) (k + min (suc k) (length values)) ≡ some x
unfolding case_operands
item_place values [] k x h = absurd (none-ne-some x h)
item_place [] (o ∷ items) zero x h = h
item_place [] (o ∷ items) (suc k) x h =
    let e : suc k + min (suc (suc k)) 0 ≡ suc (k + min (suc k) 0) = omega arith in
    rw e (item_place [] items k x h)
item_place (v ∷ values) (o ∷ items) zero x h =
    let e : 0 + min 1 (suc (length values)) ≡ 1 = omega arith in rw e h
item_place (v ∷ values) (o ∷ items) (suc k) x h =
    let e : suc k + min (suc (suc k)) (suc (length values))
        ≡ suc (suc (k + min (suc k) (length values))) =
      omega arith in
    rw e (item_place values items k x h)

length-case_operands :
    (values items : List ExprId)
    → length values ≤ length items
    → length (case_operands values items) ≡ length values + length items
unfolding case_operands
length-case_operands [] [] le = refl
length-case_operands [] (o ∷ items) le = omega (arith, length-case_operands [] items (omega arith))
length-case_operands (v ∷ values) [] le = absurd (omega arith)
length-case_operands (v ∷ values) (o ∷ items) le =
    omega (arith, length-case_operands values items (omega (arith, le)))

-- A case expression on data operands of one shape, some left out but not all, with a value for each
-- or for each but the last, adds exactly one node where an identifier is left: it is a case of that
-- shape whose operands are the selector, then values and data in turn, each value before its data,
-- and data without values behind them; it has no fault, the earlier nodes are kept, and the builder
-- stays valid.
pub create_case-IsCase :
    (b : Builder)
    → IsValid b
    → size b < invalid_id
    → (selector : ExprId) (values items : List ExprId) (width : SignalWidth) (sign : Bool)
    → selector < size b
    → CaseCounts values items
    → All (Exists (size b)) values
    → All (HasShape b width sign) items
    → SomeValid items
    → Returns (IsCase b selector values items width sign) (create_case selector values items b)
unfolding create_case
create_case-IsCase b v room selector values items width sign h counts hv hi valid =
    let operands = case_operands values items in
    let le : length values ≤ length items = ground (arith, counts) in
    let node : Node = record {
      op = Op.case;
      width = width;
      sign = sign;
      operands = selector ∷ operands;
    } in
    rw
      (
        counts_test values items counts,
        create_node_lem b room,
        case_shape_lem b blank width sign items none (omega arith) (inl refl) hi (inl valid),
        put_node-more b _,
      )
      (record {
        adds =
            plain-Adds b node v room
              (
                inr h,
                case_operands-Exists (size b) values items hv
                    (All-map _ _ (All-Exists_of_HasShape b width sign) items hi),
              )
              refl;
        grown = size-more b node;
        node = node;
        made = get_elem?-last (nodes b) node;
        operator = refl;
        shape = (refl, refl);
        first = refl;
        value_at = λ k x e.
            shift operands x selector (k + k) (k + k + 1) (omega arith)
              (value_place values items k x le e);
        item_at = λ k x e.
            shift operands x selector (k + min (suc k) (length values)) _ (omega arith)
              (item_place values items k x e);
        count = omega (arith, length-case_operands values items le);
      })

pub create_case-Adds :
    (b : Builder)
    → IsValid b
    → size b < invalid_id
    → (selector : ExprId) (values items : List ExprId) (width : SignalWidth) (sign : Bool)
    → selector < size b
    → CaseCounts values items
    → All (Exists (size b)) values
    → All (HasShape b width sign) items
    → SomeValid items
    → Returns (Adds 1 b) (create_case selector values items b)
create_case-Adds b v room selector values items width sign h counts hv hi valid =
    Returns-map (Adds 1 b) (IsCase b selector values items width sign)
      (create_case selector values items b) (λ id t c. c.adds)
      (create_case-IsCase b v room selector values items width sign h counts hv hi valid)
