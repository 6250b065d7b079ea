-- ===== src/Expr/Literal/Digits.antt =====
-- Reading a literal that src/ir/expr_builder.cpp wrote.
use native.Mathlib.Nat.{pow-suc}
use mathlib.Core.Option
use abys.Prelude.{
  ap, ℕ, zero, suc, ◌+◌, ◌/◌, ◌%◌, ◌^◌, ◌≤◌, ◌<◌, ◌≡◌, refl, ◌∙◌, ltb, leb, Bool, true, false, none,
  some, [], ◌∷◌, ◌++◌, if◌then◌else◌, arith, Bool-cases, inl, inr,
}
use abys.Prelude.Int.{ℤ, pos, negsuc}
use abys.Prelude.Text.{Text, text}
use abys.Expr.Graph.{SignalWidth}
use abys.Expr.Eval.Word.{int32}
use abys.Expr.Literal.{
  put_digits, decimal, binary, magnitude, literal, behind_quote, skip_sign, read_digits,
  read_binary, parse_magnitude, parse_binary_constant, signed, from_quote, limit_of,
}

-- Decimal digits hold no quote.
behind_quote-decimal :
    (rounds n : ℕ) (rest : Text) → behind_quote (put_digits 10 rounds n rest) ≡ behind_quote rest
unfolding put_digits behind_quote
behind_quote-decimal zero n rest = refl
behind_quote-decimal (suc rounds) n rest =
    ground (arith, behind_quote-decimal rounds (n / 10) ((b'0' + n % 10) ∷ rest))

-- The text begins with a digit.
abbrev StartsWithDigit : Text → Type 0
StartsWithDigit [] = ⊥
StartsWithDigit (c ∷ t) = b'0' ≤ c

put_digits-StartsWithDigit :
    (base rounds n : ℕ) (rest : Text)
    → StartsWithDigit rest
    → StartsWithDigit (put_digits base rounds n rest)
unfolding put_digits
put_digits-StartsWithDigit base zero n rest h = h
put_digits-StartsWithDigit base (suc rounds) n rest h = elim (Bool-cases (ltb n base)) [
  | inl last ↦ rw last (omega arith)
  | inr more ↦ rw more (put_digits-StartsWithDigit base rounds (n / base) _ (omega arith))
]

-- Reading the digits of a number gives the number, where the limit allows it.
read_digits-binary :
    (limit rounds n : ℕ) (rest : Text)
    → 0 < limit
    → n < 2 ^ rounds
    → read_digits limit (put_digits 2 rounds n rest) 0
      ≡ (if leb n limit then read_digits limit rest n else none)
unfolding put_digits read_digits
read_digits-binary limit zero n rest l h = let e : n ≡ 0 = omega arith in ground arith
read_digits-binary limit (suc rounds) n rest l h =
    ground
      (arith, pow-suc 2 rounds, read_digits-binary limit rounds (n / 2) ((b'0' + n % 2) ∷ rest))

read_binary_digits :
    (limit : ℕ) (digits : Text)
    → StartsWithDigit digits
    → read_binary limit (b'b' ∷ digits) ≡ read_digits limit digits 0
unfolding read_binary
read_binary_digits limit [] h = absurd h
read_binary_digits limit (c ∷ t) h = refl

binary-StartsWithDigit : (m : ℕ) → StartsWithDigit (binary m [])
unfolding binary
binary-StartsWithDigit m = elim (Bool-cases (ltb m 2)) [
  | inl last ↦ rw last (omega arith)
  | inr more ↦ rw more (put_digits-StartsWithDigit 2 63 (m / 2) _ (omega arith))
]

read_binary-binary :
    (limit m : ℕ)
    → 0 < limit
    → m < 2 ^ 64
    → read_binary limit (b'b' ∷ binary m []) ≡ (if leb m limit then some m else none)
unfolding binary read_digits
read_binary-binary limit m l h =
    read_binary_digits limit (binary m []) (binary-StartsWithDigit m)
    ∙ read_digits-binary limit 64 m [] l h

behind_quote-decimal_lem : (n : ℕ) (t : Text) → behind_quote (decimal n (b'\'' ∷ t)) ≡ some t
unfolding decimal behind_quote
behind_quote-decimal_lem n t = behind_quote-decimal 64 n (b'\'' ∷ t)

from_quote_lem :
    (negative : Bool) (t : Text)
    → from_quote negative (some t)
      ≡ Option.map (signed negative) (read_binary (limit_of negative) (skip_sign t))
unfolding from_quote
from_quote_lem negative t = refl

parse_magnitude_lem :
    (negative : Bool) (value : Text)
    → parse_magnitude negative value ≡ from_quote negative (behind_quote value)
unfolding parse_magnitude
parse_magnitude_lem negative value = refl

Option-map_if :
    (b : Bool) (m : ℕ) (f : ℕ → ℤ)
    → Option.map f (if b then some m else none) ≡ (if b then some (f m) else none)
Option-map_if true m f = refl
Option-map_if false m f = refl

-- the part of a literal behind its width
abbrev tail_of : ℕ → Bool → Text
tail_of m sign = (if sign then text "s" else []) ++ (text "b" ++ binary m [])

skip_sign-tail_of : (m : ℕ) (sign : Bool) → skip_sign (tail_of m sign) ≡ b'b' ∷ binary m []
unfolding skip_sign
skip_sign-tail_of m true = refl
skip_sign-tail_of m false = refl

from_quote-tail_of :
    (negative : Bool) (m : ℕ) (sign : Bool)
    → m < 2 ^ 64
    → from_quote negative (some (tail_of m sign))
      ≡ (if leb m (limit_of negative) then some (signed negative m) else none)
from_quote-tail_of negative m sign h =
    from_quote_lem negative (tail_of m sign)
    ∙ rw (skip_sign-tail_of m sign, read_binary-binary (limit_of negative) m (limit_pos negative) h)
        (Option-map_if (leb m (limit_of negative)) m (signed negative))
  where
    limit_pos : (b : Bool) → 0 < limit_of b
    limit_pos true = omega arith
    limit_pos false = omega arith

parse_magnitude-literal :
    (negative : Bool) (m width : ℕ) (sign : Bool)
    → m < 2 ^ 64
    → parse_magnitude negative (decimal width (text "'" ++ tail_of m sign))
      ≡ (if leb m (limit_of negative) then some (signed negative m) else none)
parse_magnitude-literal negative m width sign h =
    parse_magnitude_lem negative _
    ∙ ap (from_quote negative) (behind_quote-decimal_lem width _)
    ∙ from_quote-tail_of negative m sign h

decimal-StartsWithDigit : (n : ℕ) (rest : Text) → StartsWithDigit (decimal n rest)
unfolding decimal
decimal-StartsWithDigit n rest = elim (Bool-cases (ltb n 10)) [
  | inl last ↦ rw last (omega arith)
  | inr more ↦ rw more (put_digits-StartsWithDigit 10 63 (n / 10) _ (omega arith))
]

parse_unsigned : (t : Text) → StartsWithDigit t → parse_binary_constant t ≡ parse_magnitude false t
unfolding parse_binary_constant
parse_unsigned [] h = refl
parse_unsigned (c ∷ t) h = ground arith

parse_negative : (t : Text) → parse_binary_constant (b'-' ∷ t) ≡ parse_magnitude true t
unfolding parse_binary_constant
parse_negative t = refl

-- Reading the literal that is written for an index gives the index, where it is an `int`, and
-- nothing where it is not, at every width and sign; the index is one whose magnitude has 64 bits.
pub parse-literal :
    (index : ℤ) (width : SignalWidth) (sign : Bool)
    → magnitude index < 2 ^ 64
    → parse_binary_constant (literal index width sign) ≡ int32 index
unfolding literal signed
parse-literal (pos n) width sign h =
    parse_unsigned _ (decimal-StartsWithDigit width _)
    ∙ parse_magnitude-literal false n width sign h
    ∙ ground arith
parse-literal (negsuc n) width sign h =
    parse_negative _ ∙ parse_magnitude-literal true (suc n) width sign h ∙ ground arith
