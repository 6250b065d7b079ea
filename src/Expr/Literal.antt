-- ===== src/Expr/Literal.antt =====
-- Binary literals, as src/ir/expr_builder.cpp writes them (`find_or_create_const`) and reads them
-- (`parse_binary_constant`), and the widths that it computes by halving.
pub mod Digits
pub mod Width
use mathlib.Core.Option
use abys.Prelude.{
  ℕ, zero, suc, ◌+◌, ◌-◌, ◌*◌, ◌/◌, ◌%◌, ◌^◌, ◌<◌, ltb, leb, ◌==◌, Bool, true, false, ◌&&◌, ◌||◌,
  not, Option, none, some, List, [], ◌∷◌, ◌++◌, if◌then◌else◌, ◌≡◌, refl,
}
use abys.Prelude.Int.{ℤ, pos, negsuc, pos_part, neg_part, is_negative}
use abys.Prelude.Text.{Text, text}
use abys.Expr.Graph.{SignalWidth}

-- Digits of a number below 2 ^ 64, the highest first, before what is written behind them:
-- std::to_string and std::to_chars. Each round takes a digit, so 64 rounds are enough.
put_digits : ℕ → ℕ → ℕ → Text → Text
put_digits base zero n rest = rest
put_digits base (suc rounds) n rest =
    let more = put_digits base rounds (n / base) ((b'0' + n % base) ∷ rest) in
    if ltb n base then (b'0' + n) ∷ rest else more

unfoldable pub decimal : ℕ → Text → Text
unfolding put_digits
decimal n = put_digits 10 64 n

unfoldable pub binary : ℕ → Text → Text
unfolding put_digits
binary n = put_digits 2 64 n

-- the number of digits that `binary` writes, as the difference of the two pointers
digit_count : ℕ → ℕ → ℕ
digit_count zero n = 0
digit_count (suc rounds) n =
    let more = suc (digit_count rounds (n / 2)) in if ltb n 2 then 1 else more

unfoldable pub binary_length : ℕ → ℕ
unfolding digit_count
binary_length n = digit_count 64 n

-- The magnitude of an index: of a negative one it is found without overflow.
abbrev pub magnitude : ℤ → ℕ
magnitude (pos n) = n
magnitude (negsuc n) = suc n

-- the text of the literal in `find_or_create_const(BitIndex, …)`
unfoldable pub literal : ℤ → SignalWidth → Bool → Text
unfolding decimal binary
literal index width sign =
    (if is_negative index then text "-" else [])
    ++ decimal width
        (text "'" ++ ((if sign then text "s" else []) ++ (text "b" ++ binary (magnitude index) [])))

-- `while (index > 1) { ++width; index >>= 1; }`: an index is below 2 ^ 63
count_width : ℕ → ℕ → SignalWidth → SignalWidth
count_width zero index width = width
count_width (suc rounds) index width =
    let more = count_width rounds (index / 2) (width + 1) in if ltb 1 index then more else width

-- An index below zero fails the assertion.
unfoldable pub minimum_unsigned_width : ℤ → Option SignalWidth
unfolding count_width
minimum_unsigned_width (pos index) = some (count_width 64 index 1)
minimum_unsigned_width (negsuc n) = none

-- `while (magnitude != 0) { ++width; magnitude >>= 1; }`: a magnitude is below 2 ^ 64
count_bits : ℕ → ℕ → SignalWidth → SignalWidth
count_bits zero m width = width
count_bits (suc rounds) m width =
    let more = count_bits rounds (m / 2) (width + 1) in if m == 0 then width else more

unfoldable pub signed_width : ℤ → SignalWidth
unfolding count_bits
signed_width value = count_bits 64 (magnitude value) 1

-- Reading: the part behind the first quote, if there is one.
behind_quote : Text → Option Text
behind_quote [] = none
behind_quote (c ∷ t) = let rest = behind_quote t in if c == b'\'' then some t else rest

skip_sign : Text → Text
skip_sign [] = []
skip_sign (c ∷ t) = if c == b's' then t else c ∷ t

-- The digits behind `b`. The unsigned test keeps the magnitude from passing the limit.
read_digits : ℕ → Text → ℕ → Option ℕ
read_digits limit [] m = some m
read_digits limit (c ∷ t) m =
    let bit = c - b'0' in
    let rest = read_digits limit t (m * 2 + bit) in
    if not (c == b'0') && not (c == b'1')
    then none
    else if ltb ((limit - bit) / 2) m
    then none
    else rest

read_binary : ℕ → Text → Option ℕ
unfolding read_digits
read_binary limit [] = none
read_binary limit (c ∷ []) = none
read_binary limit (c ∷ d ∷ t) = if c == b'b' then read_digits limit (d ∷ t) 0 else none

-- std::numeric_limits<int>::max()
abbrev pub int_max : ℕ
int_max = 2_147_483_647

signed : Bool → ℕ → ℤ
signed false m = pos m
signed true zero = pos 0
signed true (suc m) = negsuc m

abbrev limit_of : Bool → ℕ
limit_of negative = if negative then int_max + 1 else int_max

from_quote : Bool → Option Text → Option ℤ
unfolding skip_sign read_binary signed
from_quote negative none = none
from_quote negative (some t) =
    Option.map (signed negative) (read_binary (limit_of negative) (skip_sign t))

parse_magnitude : Bool → Text → Option ℤ
unfolding behind_quote from_quote
parse_magnitude negative value = from_quote negative (behind_quote value)

unfoldable pub parse_binary_constant : Text → Option ℤ
unfolding parse_magnitude
parse_binary_constant [] = parse_magnitude false []
parse_binary_constant (c ∷ t) =
    if c == b'-' then parse_magnitude true t else parse_magnitude false (c ∷ t)

literal-text : literal (negsuc 4) 8 true ≡ text "-8'sb101"
unfolding literal
literal-text = refl

parsed : parse_binary_constant (text "-8'sb101") ≡ some (negsuc 4)
unfolding parse_binary_constant
parsed = refl
