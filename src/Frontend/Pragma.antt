-- ===== src/Frontend/Pragma.antt =====
-- The text of comments and the pragmas in it: src/frontend/slang_pragma.cpp.
pub mod Words
pub mod Collect
pub mod Reports
use abys.Prelude.{
  ℕ, zero, suc, ◌+◌, ◌==◌, leb, Bool, true, false, ◌&&◌, ◌||◌, not, List, [], ◌∷◌, ◌++◌, map,
  length, is_empty, if◌then◌else◌,
}
use abys.Prelude.Text.{Text, text, text_eq}

-- `std::isspace` and `std::tolower` of the C locale
unfoldable pub is_space : ℕ → Bool
is_space c = (leb 9 c && leb c 13) || c == 32

unfoldable pub to_lower : ℕ → ℕ
to_lower c = if leb 65 c && leb c 90 then c + 32 else c

-- the rest of a text behind two characters, `none` where it starts with others
unfoldable pub starts_with : ℕ → ℕ → Text → Bool
starts_with a b [] = false
starts_with a b (c ∷ []) = false
starts_with a b (c ∷ d ∷ rest) = c == a && d == b

unfoldable pub remove_prefix : ℕ → Text → Text
remove_prefix zero s = s
remove_prefix (suc n) [] = []
remove_prefix (suc n) (c ∷ s) = remove_prefix n s

unfoldable pub remove_suffix : ℕ → ℕ → Text → Text
remove_suffix a b [] = []
remove_suffix a b (c ∷ []) = c ∷ []
remove_suffix a b (c ∷ d ∷ []) = if c == a && d == b then [] else c ∷ d ∷ []
remove_suffix a b (c ∷ d ∷ e ∷ rest) = c ∷ remove_suffix a b (d ∷ e ∷ rest)

unfoldable pub trim_front : Text → Text
trim_front [] = []
trim_front (c ∷ s) = let rest = trim_front s in if is_space c then rest else c ∷ s

unfoldable pub trim_back : Text → Text
trim_back [] = []
trim_back (c ∷ s) = let rest = trim_back s in if is_space c && is_empty rest then [] else c ∷ rest

-- the comment without its marks, `//` or `/*` and `*/`
unfoldable pub strip_marks : Text → Text
unfolding starts_with remove_prefix remove_suffix
strip_marks raw =
    if starts_with 47 47 raw
    then remove_prefix 2 raw
    else if starts_with 47 42 raw
    then remove_suffix 42 47 (remove_prefix 2 raw)
    else raw

unfoldable pub normalize_pragma_comment : Text → Text
normalize_pragma_comment raw = map to_lower (trim_back (trim_front (strip_marks raw)))

-- the characters up to a space, and those from there on
unfoldable pub take_word : Text → Text
take_word [] = []
take_word (c ∷ s) = let rest = take_word s in if is_space c then [] else c ∷ rest

unfoldable pub drop_word : Text → Text
drop_word [] = []
drop_word (c ∷ s) = let rest = drop_word s in if is_space c then c ∷ s else rest

unfoldable pub push_word : Text → List Text → List Text
push_word word words = if is_empty word then words else word ∷ words

-- The rounds of the loop are fuel: each of them takes a character of what is left.
unfoldable pub split_from : ℕ → Text → List Text
split_from zero s = []
split_from (suc fuel) [] = []
split_from (suc fuel) (c ∷ s) =
    push_word (take_word (trim_front (c ∷ s))) (split_from fuel (drop_word (trim_front (c ∷ s))))

unfoldable pub split_words : Text → List Text
split_words s = split_from (length s) s

unfoldable pub is_synthesis_pragma_prefix : Text → Bool
is_synthesis_pragma_prefix word =
    text_eq word (text "synopsys")
    || (text_eq word (text "synthesis") || text_eq word (text "pragma"))

unfoldable pub is_synthesis_comment : Text → Bool
is_synthesis_comment s = is_synthesis_pragma_prefix (take_word s)
