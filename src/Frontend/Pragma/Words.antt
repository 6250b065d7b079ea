-- ===== src/Frontend/Pragma/Words.antt =====
-- The words of a comment: src/frontend/slang_pragma.cpp.
use abys.Prelude.{
  ℕ, zero, suc, ◌≤◌, ◌≡◌, ◌⊎◌, inl, inr, refl, sym, ap, ◌∙◌, Bool, true, false, not, List, [], ◌∷◌,
  map, length, if◌then◌else◌, Bool-cases, arith,
}
use abys.Prelude.Text.{Text}
use abys.Frontend.Pragma.{
  is_space, trim_front, take_word, drop_word, push_word, split_from, split_words, trim_back,
  to_lower, strip_marks, normalize_pragma_comment, is_synthesis_comment, is_synthesis_pragma_prefix,
}

-- The words of a text, read from its end: a character that is no space begins a word, or goes before
-- the word that begins behind it.
abbrev extend : ℕ → Bool → List Text → List Text
extend c joins [] = (c ∷ []) ∷ []
extend c true (word ∷ words) = (c ∷ word) ∷ words
extend c false (word ∷ words) = (c ∷ []) ∷ word ∷ words

abbrev goes_on : Text → Bool
goes_on [] = false
goes_on (c ∷ s) = not (is_space c)

pub words : Text → List Text
words [] = []
words (c ∷ s) = let rest = words s in if is_space c then rest else extend c (goes_on s) rest

-- a word in front of a text that starts with a space, or is empty
words-space : (c : ℕ) (s : Text) → is_space c ≡ true → words (c ∷ s) ≡ words s
unfolding words
words-space c s e = rw e refl

words-trim : (s : Text) → words (trim_front s) ≡ words s
unfolding words trim_front
words-trim [] = refl
words-trim (c ∷ s) = elim (Bool-cases (is_space c)) [
  | inl e ↦ rw e (words-trim s)
  | inr e ↦ rw (e, e) refl
]

extend-false : (c : ℕ) (rest : List Text) → extend c false rest ≡ (c ∷ []) ∷ rest
extend-false c [] = refl
extend-false c (word ∷ rest) = refl

nonspace : (c : ℕ) → not (is_space c) ≡ true → is_space c ≡ false
nonspace c e = ground arith

words-word : (s : Text) → goes_on s ≡ true → words s ≡ take_word s ∷ words (drop_word s)
unfolding words take_word drop_word
words-word [] e = cc
words-word (c ∷ []) e = rw (nonspace c e) refl
words-word (c ∷ d ∷ s) e = elim (Bool-cases (is_space d)) [
  | inl space ↦ rw (nonspace c e, space, space) (extend-false c (words s))
  | inr letter ↦
      let ih : words (d ∷ s) ≡ take_word (d ∷ s) ∷ words (drop_word (d ∷ s)) =
        words-word (d ∷ s) (rw letter refl) in
      rw (nonspace c e, letter) (ap (extend c true) (rw letter at ih))
]

trim_front-starts : (s : Text) → (trim_front s ≡ []) ⊎ (goes_on (trim_front s) ≡ true)
unfolding trim_front
trim_front-starts [] = inl refl
trim_front-starts (c ∷ s) = elim (Bool-cases (is_space c)) [
  | inl e ↦ rw e (trim_front-starts s)
  | inr e ↦ inr (rw (e, e) refl)
]

length-trim_front : (s : Text) → length (trim_front s) ≤ length s
unfolding trim_front
length-trim_front [] = omega arith
length-trim_front (c ∷ s) = ground (arith, length-trim_front s)

length-drop_word : (s : Text) → length (drop_word s) ≤ length s
unfolding drop_word
length-drop_word [] = omega arith
length-drop_word (c ∷ s) = ground (arith, length-drop_word s)

length-drop_word_lt : (s : Text) → goes_on s ≡ true → suc (length (drop_word s)) ≤ length s
unfolding drop_word
length-drop_word_lt [] e = cc
length-drop_word_lt (c ∷ s) e = rw (nonspace c e) (omega (arith, length-drop_word s))

push_word-take :
    (s : Text) (rest : List Text)
    → goes_on s ≡ true
    → push_word (take_word s) rest ≡ take_word s ∷ rest
unfolding take_word push_word
push_word-take [] rest e = cc
push_word-take (c ∷ s) rest e = rw (nonspace c e) refl

nothing : (fuel : ℕ) → push_word (take_word []) (split_from fuel (drop_word [])) ≡ []
unfolding take_word drop_word push_word split_from
nothing zero = refl
nothing (suc fuel) = refl

split_from-words : (fuel : ℕ) (s : Text) → length s ≤ fuel → split_from fuel s ≡ words s
unfolding split_from words
split_from-words zero [] h = refl
split_from-words zero (c ∷ s) h = elim h [ ]
split_from-words (suc fuel) [] h = refl
split_from-words (suc fuel) (c ∷ s) h = elim (trim_front-starts (c ∷ s)) [
  | inl e ↦ rw e (nothing fuel) ∙ ap words (sym e) ∙ words-trim (c ∷ s)
  | inr e ↦
      push_word-take (trim_front (c ∷ s)) _ e
      ∙ ap (λ rest. take_word (trim_front (c ∷ s)) ∷ rest)
          (split_from-words fuel (drop_word (trim_front (c ∷ s)))
            (omega (arith, length-drop_word_lt (trim_front (c ∷ s)) e, length-trim_front (c ∷ s))))
      ∙ sym (words-word (trim_front (c ∷ s)) e)
      ∙ words-trim (c ∷ s)
]

-- The words that the loops split off from the front of a text are the words that a reader from its
-- end finds, where each character that is no space begins a word or goes before the one that begins
-- behind it; the rounds of the loops are enough for every text.
pub split_words-words : (s : Text) → split_words s ≡ words s
unfolding split_words
split_words-words s = split_from-words (length s) s (omega arith)

-- whether the first word is the prefix of a pragma
abbrev pub starts_pragma : List Text → Bool
starts_pragma [] = false
starts_pragma (word ∷ rest) = is_synthesis_pragma_prefix word

is_synthesis_comment-words :
    (s : Text) → (s ≡ []) ⊎ (goes_on s ≡ true) → is_synthesis_comment s ≡ starts_pragma (words s)
unfolding is_synthesis_comment is_synthesis_pragma_prefix take_word words
is_synthesis_comment-words s (inl e) = rw e no_word
  where
    no_word : is_synthesis_pragma_prefix (take_word []) ≡ starts_pragma (words [])
    no_word = refl
is_synthesis_comment-words s (inr e) = rw (words-word s e) refl

trim_back-starts : (s : Text) → goes_on s ≡ true → goes_on (trim_back s) ≡ true
unfolding trim_back
trim_back-starts [] e = cc
trim_back-starts (c ∷ s) e = rw (nonspace c e) (rw (nonspace c e) refl)

is_space-to_lower : (c : ℕ) → is_space (to_lower c) ≡ is_space c
unfolding is_space to_lower
is_space-to_lower c = ground arith

lower-starts : (s : Text) → goes_on s ≡ true → goes_on (map to_lower s) ≡ true
lower-starts [] e = cc
lower-starts (c ∷ s) e = rw (is_space-to_lower c) e

normalize_starts :
    (raw : Text)
    → (normalize_pragma_comment raw ≡ []) ⊎ (goes_on (normalize_pragma_comment raw) ≡ true)
unfolding normalize_pragma_comment trim_back
normalize_starts raw = elim (trim_front-starts (strip_marks raw)) [
  | inl e ↦ inl (rw e nothing_left)
  | inr e ↦ inr (
      lower-starts (trim_back (trim_front (strip_marks raw)))
        (trim_back-starts (trim_front (strip_marks raw)) e))
]
  where
    nothing_left : map to_lower (trim_back []) ≡ []
    nothing_left = refl

-- The two tests for a pragma agree on every comment: its normalized text up to the first space is a
-- prefix exactly where its first word is one.
pub synthesis_comment_lem :
    (raw : Text)
    → is_synthesis_comment (normalize_pragma_comment raw)
      ≡ starts_pragma (split_words (normalize_pragma_comment raw))
synthesis_comment_lem raw =
    is_synthesis_comment-words (normalize_pragma_comment raw) (normalize_starts raw)
    ∙ ap starts_pragma (sym (split_words-words (normalize_pragma_comment raw)))
