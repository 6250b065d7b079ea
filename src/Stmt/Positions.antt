-- ===== src/Stmt/Positions.antt =====
-- The last position of a name among the outputs of a block: src/ir/stmt_builder.cpp.
use text.Mathlib.TextEquality.{eq_iff}
use mathlib.Core.Path.{subst}
use mathlib.Core.Option.{some-injective}
use abys.Prelude.{
  ℕ, zero, suc, ◌+◌, ◌<◌, ◌≡◌, ◌≢◌, refl, sym, ◌∙◌, ap, str_eq, String, ◌⊎◌, inl, inr, false,
  Option, some, none, List, [], ◌∷◌, arith, if◌then◌else◌, Bool-cases, get_elem?, none-ne-some,
}

-- The last position of a name in a list whose first element has the position `i`, or else `before`.
unfoldable pub position : String → List String → ℕ → Option ℕ → Option ℕ
position n [] i before = before
position n (x ∷ rest) i before = position n rest (suc i) (if str_eq x n then some i else before)

-- No later element has the name.
abbrev pub IsLast : List String → ℕ → Type 0
IsLast names k =
    (n : String) × (get_elem? names k ≡ some n) × ((j : ℕ) → k < j → get_elem? names j ≢ some n)

abbrev pub NoneLater : String → List String → ℕ → Type 0
NoneLater n names k = (j : ℕ) → k < j → get_elem? names j ≢ some n

abbrev Nowhere : String → List String → Type 0
Nowhere n names = (j : ℕ) → get_elem? names j ≢ some n

later_suc :
    (n x : String) (rest : List String) (k : ℕ)
    → NoneLater n rest k
    → NoneLater n (x ∷ rest) (suc k)
later_suc n x rest k last zero lt e = omega arith
later_suc n x rest k last (suc j) lt e = last j (omega arith) e

later_first : (n x : String) (rest : List String) → Nowhere n rest → NoneLater n (x ∷ rest) 0
later_first n x rest nowhere zero lt e = omega arith
later_first n x rest nowhere (suc j) lt e = nowhere j e

Nowhere-cons :
    (n x : String) (rest : List String) → str_eq x n ≡ false → Nowhere n rest → Nowhere n (x ∷ rest)
Nowhere-cons n x rest other nowhere zero e =
    let same : x ≡ n = some-injective x n e in ground (arith, eq_iff x n)
Nowhere-cons n x rest other nowhere (suc j) e = nowhere j e

-- The position is that of the last element with the name, or the old one where there is none.
position_cases :
    (n : String) (names : List String) (i : ℕ) (before : Option ℕ)
    → ((position n names i before ≡ before) × Nowhere n names)
      ⊎ ((k : ℕ) × (position n names i before ≡ some (i + k))
          × (get_elem? names k ≡ some n)
          × NoneLater n names k)
unfolding position
position_cases n [] i before = inl (refl, λ j e. none-ne-some n e)
position_cases n (x ∷ rest) i before =
    elim (position_cases n rest (suc i) (if str_eq x n then some i else before)) [
      | inr (k, e, there, last) ↦
          inr (suc k, e ∙ ap some (omega arith), there, later_suc n x rest k last)
      | inl (e, nowhere) ↦ elim (Bool-cases (str_eq x n)) [
        | inl same ↦
            let q : x ≡ n = ground (arith, eq_iff x n) in
            let z : i ≡ i + 0 = omega arith in
            let f : position n rest (suc i) (some i) ≡ some i = rw same at e in
            inr (0, rw same (f ∙ ap some z), ap some q, later_first n x rest nowhere)
        | inr other ↦ inl (rw other (rw other at e), Nowhere-cons n x rest other nowhere)
      ]
    ]

-- the position of the last element is that of no other
last_unique :
    (n : String) (names : List String) (k l : ℕ)
    → get_elem? names k ≡ some n
    → NoneLater n names k
    → get_elem? names l ≡ some n
    → NoneLater n names l
    → k ≡ l
last_unique n names k l there last there' last' =
    omega (arith, λ (h : k < l). last l h there', λ (h : l < k). last' k h there)

pub last_index_of :
    (n : String) (names : List String) (k : ℕ)
    → position n names 0 none ≡ some k
    → (get_elem? names k ≡ some n) × NoneLater n names k
last_index_of n names k e = elim (position_cases n names 0 none) [
  | inl (e', nowhere) ↦ absurd (none-ne-some k (sym e' ∙ e))
  | inr (l, e', there, last) ↦
      let q : l ≡ k = omega (arith, some-injective (0 + l) k (sym e' ∙ e)) in
      (rw q at there, subst (NoneLater n names) q last)
]

pub position_of_last :
    (n : String) (names : List String) (k : ℕ)
    → get_elem? names k ≡ some n
    → NoneLater n names k
    → position n names 0 none ≡ some k
position_of_last n names k there last = elim (position_cases n names 0 none) [
  | inl (e', nowhere) ↦ absurd (nowhere k there)
  | inr (l, e', there', last') ↦
      let q : 0 + l ≡ k = omega (arith, last_unique n names k l there last there' last') in
      e' ∙ ap some q
]
