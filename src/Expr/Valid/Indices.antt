-- ===== src/Expr/Valid/Indices.antt =====
-- The constants that `find_or_create_const` of src/ir/expr_builder.cpp finds or makes for indices.
use native.Mathlib.Nat.{pow-suc, pow-le-pow_right}
use abys.Prelude.{
  ℕ, suc, ◌*◌, ◌-◌, ◌^◌, ◌≤◌, ◌<◌, ◌≡◌, refl, ltb, ◌==◌, ◌⊎◌, ◌&&◌, not, true, false, Bool, [], ◌∷◌,
  ◌++◌, inl, inr, arith, Bool-cases, and_right,
}
use abys.Prelude.Int.{ℤ, is_negative}
use abys.Prelude.Text.{Text, text, text_eq}
use abys.Run.{Returns, Returns-both, Returns-map}
use abys.Expr.Graph.{ExprId, SignalWidth, invalid_id, constant_zero, constant_one}
use abys.Expr.Literal.{literal, binary_length, magnitude, parse_binary_constant}
use abys.Expr.Literal.Width.{binary_length-IsLength}
use abys.Expr.Literal.Digits.{parse-literal}
use abys.Expr.Eval.Word.{int32}
use abys.Expr.Builder.{Builder, size, nodes}
use abys.Expr.Builder.Index.{find_or_create_const, find_or_create_index}
use abys.Expr.Valid.{IsValid, Adds}
use abys.Expr.Valid.Constant.{
  FitsWidth, const_node, const_node_lem, index_checks, find_or_create_index-Adds,
}

-- The index is a number of the width: not negative where it is unsigned, and below the bit of the sign.
abbrev pub InRange : ℤ → SignalWidth → Bool → Type 0
InRange z width true = (0 < width) × (magnitude z < 2 ^ (width - 1))
InRange z width false = (0 < width) × (is_negative z ≡ false) × (magnitude z < 2 ^ width)

-- The node of a constant, whose text is `v`: a shared bit, or a new node with an entry.
pub data IsConstant (b : Builder) (width : SignalWidth) (sign : Bool) (v : Text) (id : ExprId)
    (t : Builder) : Type 0 where
  zero_bit :
      width ≡ 1
      → sign ≡ false
      → v ≡ text "1'b0"
      → id ≡ constant_zero
      → t ≡ b
      → IsConstant b width sign v id t
  one_bit :
      width ≡ 1
      → sign ≡ false
      → v ≡ text "1'b1"
      → id ≡ constant_one
      → t ≡ b
      → IsConstant b width sign v id t
  new :
      id ≡ size b
      → nodes t ≡ nodes b ++ const_node width sign ∷ []
      → t.graph.constants ≡ b.graph.constants ++ record { id = id; value = v } ∷ []
      → IsConstant b width sign v id t

-- a number below a power has no more digits than its exponent
digits_bound : (n k : ℕ) → n < 2 ^ 64 → 1 ≤ k → n < 2 ^ k → binary_length n ≤ k
digits_bound n k h one small = elim (Bool-cases (ltb k (binary_length n))) [
  | inr le ↦ ground arith
  | inl larger ↦
      let lt : suc k ≤ binary_length n = ground arith in
      absurd (too_long lt (binary_length-IsLength n h).2)
]
  where
    too_long : suc k ≤ binary_length n → (binary_length n ≡ 1) ⊎ (2 ^ binary_length n ≤ 2 * n) → ⊥
    too_long lt (inl e) = omega (arith, e, lt, one)
    too_long lt (inr tight) =
        let power : 2 ^ suc k ≤ 2 ^ binary_length n = pow-le-pow_right (omega arith) lt in
        let twice : 2 ^ suc k ≡ 2 ^ k * 2 = pow-suc 2 k in omega (arith, power, twice, tight, small)

InRange-FitsWidth :
    (z : ℤ) (width : SignalWidth) (sign : Bool)
    → magnitude z < 2 ^ 64
    → InRange z width sign
    → FitsWidth z width sign
InRange-FitsWidth z width false h (some_width, positive, small) = (
  some_width,
  λ e. absurd (cc),
  digits_bound (magnitude z) width h some_width small,
  λ e. absurd (cc),
)
InRange-FitsWidth z width true h (some_width, small) = elim (Bool-cases (ltb 1 width)) [
  | inl larger ↦
      let enough : binary_length (magnitude z) ≤ width - 1 =
        digits_bound (magnitude z) (width - 1) h (ground arith) small in
      (some_width, λ e. refl, omega (arith, enough), λ e. inr (omega (arith, enough)))
  | inr one ↦
      let last : width ≡ 1 = ground arith in
      let none_needed : magnitude z ≡ 0 = nothing (magnitude z) (rw last at small) in
      (
        some_width,
        λ e. refl,
        omega (
          arith,
          digits_bound (magnitude z) 1 h (omega arith) (omega (arith, none_needed)),
          last,
        ),
        λ e. inl none_needed,
      )
]
  where
    nothing : (n : ℕ) → n < 2 ^ (1 - 1) → n ≡ 0
    nothing n h = omega arith

text_eq_lem : (s t : Text) → text_eq s t ≡ true → s ≡ t
text_eq_lem [] [] e = refl
text_eq_lem [] (d ∷ t) e = cc
text_eq_lem (c ∷ s) [] e = cc
text_eq_lem (c ∷ s) (d ∷ t) e =
    let same : c ≡ d = ground arith in
    let rest = text_eq_lem s t (and_right (c == d) (text_eq s t) e) in cc

module _ (b : Builder) (v : IsValid b) (room : size b < invalid_id) where
  found-IsConstant :
      (value : Text) (width : SignalWidth) (sign : Bool)
      → Returns (IsConstant b width sign value) (find_or_create_const value width sign b)
  unfolding find_or_create_const
  found-IsConstant value width sign =
      elim (Bool-cases (width == 1 && not sign && text_eq value (text "1'b0"))) [
        | inl e ↦ rw e (IsConstant.zero_bit (one_wide _ e) (unsigned _ e) (equal _ e) refl refl)
        | inr other ↦
            rw other (elim (Bool-cases (width == 1 && not sign && text_eq value (text "1'b1"))) [
              | inl e ↦
                  rw e (IsConstant.one_bit (one_wide _ e) (unsigned _ e) (equal _ e) refl refl)
              | inr made ↦
                  rw (made, const_node_lem b v room value width sign)
                    (IsConstant.new refl refl refl)
            ])
      ]
    where
      one_wide : (q : Bool) → (width == 1 && not sign && q) ≡ true → width ≡ 1
      one_wide q e = ground arith

      unsigned : (q : Bool) → (width == 1 && not sign && q) ≡ true → sign ≡ false
      unsigned q e = ground arith

      whole :
          (q : Bool) → (width == 1 && not sign && q) ≡ true → ((width == 1 && not sign) && q) ≡ true
      whole q e = ground arith

      equal : (t : Text) → (width == 1 && not sign && text_eq value t) ≡ true → value ≡ t
      equal t e =
          text_eq_lem value t
            (and_right (width == 1 && not sign) (text_eq value t) (whole (text_eq value t) e))

  -- For an index in the range of a width, where an identifier is left, the constant that is found or
  -- made has a text which `parse_binary_constant` reads as the index, as an `int`: it is the shared
  -- bit of that text, and then nothing changes, or a new node of the width and sign with an entry
  -- for the text. No assertion fails, the earlier nodes are kept, and the builder stays valid. The
  -- range of a signed width does not include its lowest number.
  pub find_or_create_index_lem :
      (z : ℤ) (width : SignalWidth) (sign : Bool)
      → magnitude z < 2 ^ 64
      → InRange z width sign
      → Returns
          (λ id t.
            Adds 1 b id t
            × (text : Text) × (parse_binary_constant text ≡ int32 z)
            × IsConstant b width sign text id t)
          (find_or_create_index z width sign b)
  find_or_create_index_lem z width sign small range =
      let fits = InRange-FitsWidth z width sign small range in
      Returns-map _ _ (find_or_create_index z width sign b)
        (λ id t (adds, constant).
          (adds, literal z width sign, parse-literal z width sign small, constant))
        (Returns-both (Adds 1 b) (IsConstant b width sign (literal z width sign))
          (find_or_create_index z width sign b)
          (find_or_create_index-Adds b v room z width sign fits)
          (rw (index_checks b z width sign fits)
            (found-IsConstant (literal z width sign) width sign)))
