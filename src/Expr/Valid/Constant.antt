-- ===== src/Expr/Valid/Constant.antt =====
-- The constants of src/ir/expr_builder.cpp on valid builders, and the widths that hold them.
use abys.Prelude.{
  ℕ, ◌+◌, ◌^◌, ◌≤◌, ◌<◌, ◌≡◌, refl, ltb, leb, ◌==◌, ◌⊎◌, ◌&&◌, ◌||◌, not, true, false, Bool, some,
  List, [], ◌∷◌, ◌++◌, inl, inr, arith, Bool-cases, lt→ltb, set-append_right,
}
use abys.Prelude.Int.{ℤ, pos, negsuc, is_negative}
use abys.Prelude.Text.{Text, text, text_eq}
use abys.Run.{Returns, Returns-of_eq}
use abys.Expr.Graph.{ExprId, Node, Constant, Op, SignalWidth, blank, invalid_id}
use abys.Expr.Literal.{literal, binary_length, magnitude, signed_width}
use abys.Expr.Literal.Width.{minimum_unsigned_width-eq, signed_width-eq, binary_length-IsLength}
use abys.Expr.Builder.{Builder, size, nodes, put_node}
use abys.Expr.Builder.Index.{
  add_const_node, find_or_create_const, find_or_create_index, create_position,
}
use abys.Expr.Eval.Steps.{constant_value}
use abys.Expr.Valid.{IsValid, Adds}
use abys.Expr.Valid.Append.{add-Adds, Adds-same, Adds-weaken, constant_value-append}
use abys.Expr.Valid.Made.{more, create_node_lem, size-more}

abbrev pub with_constant : Builder → Constant → Builder
with_constant b entry = record b {
  graph = record b.graph { constants = b.graph.constants ++ entry ∷ [] };
}

constant_value-last :
    (i : ExprId) (old : List Constant) (v : Text)
    → (w : Text) × (constant_value i (old ++ record { id = i; value = v } ∷ []) ≡ some w)
unfolding constant_value
constant_value-last i [] v = (v, ground arith)
constant_value-last i (entry ∷ old) v = elim (Bool-cases (entry.id == i)) [
  | inl first ↦ (entry.value, rw first)
  | inr other ↦ let (w, e) = constant_value-last i old v in (w, rw other e)
]

abbrev pub const_node : SignalWidth → Bool → Node
const_node width sign = record { op = Op.const; width = width; sign = sign; operands = [] }

put_node_const :
    (b : Builder) (node : Node) (entry : Constant)
    → put_node (size b) node (with_constant (more b blank) entry)
      ≡ some (tt, with_constant (more b node) entry)
unfolding put_node
put_node_const b node entry =
    let bound : ltb (size b) (size (more b blank)) ≡ true =
      lt→ltb _ _ (omega (arith, size-more b blank)) in
    rw (bound, set-append_right (nodes b) [] blank node)

module _ (b : Builder) (v : IsValid b) where
  pub const_node_lem :
      size b < invalid_id
      → (value : Text) (width : SignalWidth) (sign : Bool)
      → add_const_node value width sign b
        ≡ some (
          size b,
          with_constant (more b (const_node width sign)) (record { id = size b; value = value }),
        )
  unfolding add_const_node
  const_node_lem room value width sign = rw (create_node_lem b room, put_node_const b _ _)

  pub add_const_node-Adds :
      size b < invalid_id
      → (value : Text) (width : SignalWidth) (sign : Bool)
      → Returns (Adds 1 b) (add_const_node value width sign b)
  add_const_node-Adds room value width sign =
      Returns-of_eq (Adds 1 b) _ _ _ (const_node_lem room value width sign) (
        add-Adds b _ (const_node width sign) v room tt
          (record {
            nodes = refl;
            inputs = λ name id h. inl h;
            constants = λ i w h. (w, constant_value-append i b.graph.constants _ w h);
            constant = λ e. constant_value-last (size b) b.graph.constants value;
            properties = λ i p h. (p, h);
            property = λ e. absurd (cc);
          })
          (λ name id h. inl h))

  pub find_or_create_const-Adds :
      size b < invalid_id
      → (value : Text) (width : SignalWidth) (sign : Bool)
      → Returns (Adds 1 b) (find_or_create_const value width sign b)
  unfolding find_or_create_const
  find_or_create_const-Adds room value width sign =
      elim (Bool-cases (width == 1 && not sign && text_eq value (text "1'b0"))) [
        | inl zero_bit ↦ rw zero_bit (
            Adds-weaken 0 1 b 0 b (omega arith)
              (Adds-same b 0 v (omega (arith, v.well_formed.shared))))
        | inr other ↦
            rw other (elim (Bool-cases (width == 1 && not sign && text_eq value (text "1'b1"))) [
              | inl one_bit ↦ rw one_bit (
                  Adds-weaken 0 1 b 1 b (omega arith)
                    (Adds-same b 1 v (omega (arith, v.well_formed.shared))))
              | inr new ↦ rw new (add_const_node-Adds room value width sign)
            ])
      ]

-- What the assertions of `find_or_create_const` ask of an index and a width.
abbrev pub FitsWidth : ℤ → SignalWidth → Bool → Type 0
FitsWidth index width sign =
    (0 < width)
    × (is_negative index ≡ true → sign ≡ true)
    × (binary_length (magnitude index) ≤ width)
    × (sign ≡ true → (magnitude index ≡ 0) ⊎ (binary_length (magnitude index) < width))

sign_test :
    (z : ℤ) (sign : Bool)
    → (is_negative z ≡ true → sign ≡ true)
    → (not (is_negative z) || sign) ≡ true
sign_test (pos n) sign h = refl
sign_test (negsuc n) sign h = h refl

leb_intro : (m n : ℕ) → m ≤ n → leb m n ≡ true
leb_intro m n h = ground arith

room_test :
    (z : ℤ) (width : SignalWidth) (sign : Bool)
    → (sign ≡ true → (magnitude z ≡ 0) ⊎ (binary_length (magnitude z) < width))
    → (not sign || magnitude z == 0 || ltb (binary_length (magnitude z)) width) ≡ true
room_test z width false h = refl
room_test z width true h = elim (h refl) [
  | inl none_needed ↦ rw none_needed
  | inr enough ↦ ground arith
]

-- Behind the assertions stands the search for the literal.
pub index_checks :
    (b : Builder) (z : ℤ) (width : SignalWidth) (sign : Bool)
    → FitsWidth z width sign
    → find_or_create_index z width sign b ≡ find_or_create_const (literal z width sign) width sign b
unfolding find_or_create_index
index_checks b z width sign (some_width, negative, digits, spare) =
    rw
      (
        lt→ltb 0 width some_width,
        sign_test z sign negative,
        leb_intro (binary_length (magnitude z)) width digits,
        room_test z width sign spare,
      )
      refl

module _ (b : Builder) (v : IsValid b) (room : size b < invalid_id) where
  pub find_or_create_index-Adds :
      (z : ℤ) (width : SignalWidth) (sign : Bool)
      → FitsWidth z width sign
      → Returns (Adds 1 b) (find_or_create_index z width sign b)
  unfolding find_or_create_index
  find_or_create_index-Adds z width sign (some_width, negative, digits, spare) =
      rw
        (
          lt→ltb 0 width some_width,
          sign_test z sign negative,
          leb_intro (binary_length (magnitude z)) width digits,
          room_test z width sign spare,
        )
        (find_or_create_const-Adds b v room (literal z width sign) width sign)

  -- A signed constant is always a new one.
  pub signed_index_lem :
      (z : ℤ) (width : SignalWidth)
      → FitsWidth z width true
      → find_or_create_index z width true b
        ≡ some (
          size b,
          with_constant
              (more b (const_node width true))
              (record { id = size b; value = literal z width true }),
        )
  unfolding find_or_create_index find_or_create_const
  signed_index_lem z width (some_width, negative, digits, spare) =
      rw
        (
          lt→ltb 0 width some_width,
          sign_test z true negative,
          leb_intro (binary_length (magnitude z)) width digits,
          room_test z width true spare,
          unsigned (width == 1) (text_eq (literal z width true) (text "1'b0")),
          unsigned (width == 1) (text_eq (literal z width true) (text "1'b1")),
        )
        (const_node_lem b v room (literal z width true) width true)
    where
      unsigned : (p q : Bool) → (p && not true && q) ≡ false
      unsigned p q = ground arith

  -- A position is a constant of the least width that holds it.
  pub create_position-Adds : (n : ℕ) → n < 2 ^ 64 → Returns (Adds 1 b) (create_position (pos n) b)
  unfolding create_position
  create_position-Adds n h =
      let (enough, one, tight) = binary_length-IsLength n h in
      rw (minimum_unsigned_width-eq n h) (
        find_or_create_index-Adds (pos n) (binary_length n) false
          (omega arith, λ e. absurd (cc), omega arith, λ e. absurd (cc)))

no_digits : (n : ℕ) → n ≡ 0 → binary_length n ≡ 1
unfolding binary_length
no_digits n e = rw e refl

-- A width above that of a signed value holds the value's literal.
pub signed_width-FitsWidth :
    (z : ℤ) (width : SignalWidth)
    → magnitude z < 2 ^ 64
    → signed_width z < width
    → FitsWidth z width true
signed_width-FitsWidth z width h k = elim (Bool-cases (magnitude z == 0)) [
  | inl none_needed ↦
      let e : magnitude z ≡ 0 = ground arith in
      (omega arith, λ t. refl, omega (arith, no_digits (magnitude z) e), λ t. inl e)
  | inr some_needed ↦
      let e : signed_width z ≡ 1 + binary_length (magnitude z) =
        rw some_needed at (signed_width-eq z h) in
      (omega arith, λ t. refl, omega arith, λ t. inr (omega arith))
]
