-- ===== src/Stmt/Last.antt =====
-- The indices that `collect_last_output_indices` of src/ir/stmt_builder.cpp finds.
use mathlib.Core.Option.{some-injective}
use abys.Prelude.{
  ℕ, zero, suc, ◌+◌, ◌≤◌, ◌<◌, ◌≡◌, ◌↔◌, refl, sym, ◌∙◌, ap, ◌==◌, str_eq, String, inl, inr, true,
  false, Bool, Option, some, none, List, [], ◌∷◌, arith, if◌then◌else◌, Bool-cases, length,
  length-set, get_elem?, get_elem?-lt, none-ne-some, set, lookup, lookup-insert, Assoc,
}
use abys.Run.{Returns, Returns-map, bind-Returns, found}
use abys.Stmt.Builder.{StmtBuilder, Context}
use abys.Stmt.Positions.{position, IsLast, last_index_of, position_of_last}
use abys.Stmt.Outputs.{
  Last, is_mixed, note_output, note_outputs, is_index, select_indices, collect_last_output_indices,
}

abbrev Noted : String → ℕ → Last → Last → Type 0
Noted name i last next =
    (length next.nonblocking ≡ length last.nonblocking)
    × ((n : String)
        → lookup n next.last_index ≡ (if str_eq name n then some i else lookup n last.last_index))

note_output_lem :
    (seen : Option ℕ) (name : String) (i : ℕ) (last : Last) (s : StmtBuilder)
    → ((j : ℕ) → seen ≡ some j → j < length last.nonblocking)
    → i < length last.nonblocking
    → Returns (λ next t. Noted name i last next) (note_output seen name i last s)
unfolding note_output
note_output_lem none name i last s h k = (refl, λ n. lookup-insert name n i last.last_index)
note_output_lem (some j) name i last s h k =
    let (before, there) = get_elem?-lt last.nonblocking j (h j refl) in
    let (now, here) = get_elem?-lt last.nonblocking i k in
    elim (Bool-cases (is_mixed before now)) [
      | inl mixed ↦
          rw (there, here, mixed)
            (
              length-set (set last.nonblocking j true) i true ∙ length-set last.nonblocking j true,
              λ n. lookup-insert name n i last.last_index,
            )
      | inr same ↦ rw (there, here, same) (refl, λ n. lookup-insert name n i last.last_index)
    ]

pub note_outputs_lem :
    (rest : List String) (i : ℕ) (last : Last) (s : StmtBuilder)
    → ((n : String) (j : ℕ) → lookup n last.last_index ≡ some j → j < i)
    → i + length rest ≤ length last.nonblocking
    → Returns
        (λ next t.
          (n : String) → lookup n next.last_index ≡ position n rest i (lookup n last.last_index))
        (note_outputs rest i last s)
unfolding note_outputs position
note_outputs_lem [] i last s h k = λ n. refl
note_outputs_lem (name ∷ rest) i last s h k =
    bind-Returns _ (λ next t. Noted name i last next)
      (note_output (lookup name last.last_index) name i last) (note_outputs rest (suc i)) s
      (note_output_lem (lookup name last.last_index) name i last s
        (λ j e. omega (arith, h name j e)) (omega arith))
      (λ next t (same, noted).
        Returns-map _ _ (note_outputs rest (suc i) next t)
          (λ last' u found_all n. rw (found_all n, noted n) refl)
          (note_outputs_lem rest (suc i) next t
            (λ n j e. earlier name n i j last next (noted n) (h n j) e) (omega arith)))
  where
    earlier :
        (name n : String) (i j : ℕ) (last next : Last)
        → lookup n next.last_index ≡ (if str_eq name n then some i else lookup n last.last_index)
        → (lookup n last.last_index ≡ some j → j < i)
        → lookup n next.last_index ≡ some j
        → j < suc i
    earlier name n i j last next noted old e = elim (Bool-cases (str_eq name n)) [
      | inl same ↦ omega (arith, some-injective i j (sym (rw same at noted) ∙ e))
      | inr other ↦ omega (arith, old (sym (rw other at noted) ∙ e))
    ]

-- Whether a position is among the indices.
unfoldable pub member : ℕ → List ℕ → Bool
member i [] = false
member i (x ∷ xs) = if x == i then true else member i xs

is_index-some : (o : Option ℕ) (i : ℕ) → is_index o i ≡ true → o ≡ some i
unfolding is_index
is_index-some none i h = absurd (ground arith)
is_index-some (some j) i h = ap some (ground arith)

-- The element at `k` of the names has the position `j`, which is the one that the map has for it.
abbrev Selects : Assoc ℕ → List String → ℕ → ℕ → Type 0
Selects m names i j =
    (k : ℕ) × (n : String) × (j ≡ i + k) × (get_elem? names k ≡ some n) × (lookup n m ≡ some j)

selected_later :
    (m : Assoc ℕ) (name : String) (rest : List String) (i j : ℕ)
    → Selects m rest (suc i) j
    → Selects m (name ∷ rest) i j
selected_later m name rest i j (k, n, e, there, found) = (suc k, n, omega arith, there, found)

selected_sound :
    (m : Assoc ℕ) (names : List String) (i j : ℕ)
    → member j (select_indices m names i) ≡ true
    → Selects m names i j
unfolding member select_indices
selected_sound m [] i j h = absurd (ground arith)
selected_sound m (name ∷ rest) i j h = elim (Bool-cases (is_index (lookup name m) i)) [
  | inl hit ↦ elim (Bool-cases (i == j)) [
    | inl same ↦
        let e : i ≡ j = ground arith in
        (0, name, omega arith, refl, is_index-some (lookup name m) i hit ∙ ap some e)
    | inr other ↦
        selected_later m name rest i j (selected_sound m rest (suc i) j (rw (hit, other) at h))
  ]
  | inr miss ↦ selected_later m name rest i j (selected_sound m rest (suc i) j (rw miss at h))
]

selected_complete :
    (m : Assoc ℕ) (names : List String) (i k : ℕ) (n : String)
    → get_elem? names k ≡ some n
    → lookup n m ≡ some (i + k)
    → member (i + k) (select_indices m names i) ≡ true
unfolding member select_indices is_index
selected_complete m [] i k n there found = absurd (none-ne-some n there)
selected_complete m (name ∷ rest) i zero n there found =
    let e : name ≡ n = some-injective name n there in
    let f : lookup name m ≡ some i = rw e (found ∙ ap some (omega arith)) in
    let same : (i == i) ≡ true = ground arith in
    let same' : (i == i + 0) ≡ true = ground arith in rw (f, same, same') refl
selected_complete m (name ∷ rest) i (suc k) n there found =
    let e : i + suc k ≡ suc i + k = omega arith in
    let later : member (i + suc k) (select_indices m rest (suc i)) ≡ true =
      rw e (selected_complete m rest (suc i) k n there (rw e at found)) in
    elim (Bool-cases (is_index (lookup name m) i)) [
      | inl hit ↦ rw hit (elim (Bool-cases (i == i + suc k)) [
        | inl same ↦ rw same refl
        | inr other ↦ rw other later
      ])
      | inr miss ↦ rw miss later
    ]

module _ (m : Assoc ℕ) (names : List String)
    (noted : (n : String) → lookup n m ≡ position n names 0 none) where
  selected-IsLast : (k : ℕ) → member k (select_indices m names 0) ≡ true → IsLast names k
  selected-IsLast k h =
      let (k', n, e, there, known) = selected_sound m names 0 k h in
      let (at_k, last) = last_index_of n names k (sym (noted n) ∙ known) in (n, at_k, last)

  IsLast-selected : (k : ℕ) → IsLast names k → member k (select_indices m names 0) ≡ true
  IsLast-selected k (n, there, last) =
      let e : 0 + k ≡ k = omega arith in
      let known : lookup n m ≡ some (0 + k) =
        noted n ∙ position_of_last n names k there last ∙ ap some (sym e) in
      rw e at (selected_complete m names 0 k n there known)

-- Where every output of a block has a kind, collecting has no fault, and the indices are exactly
-- those of the last assignment to each name.
pub collect_last_output_indices_lem :
    (ctx : Context) (s : StmtBuilder)
    → length ctx.output_names ≤ length ctx.output_nonblocking
    → Returns
        (λ (indices, kinds) t. (k : ℕ) → member k indices ≡ true ↔ IsLast ctx.output_names k)
        (collect_last_output_indices ctx s)
unfolding collect_last_output_indices lookup
collect_last_output_indices_lem ctx s h =
    bind-Returns _ _ (note_outputs ctx.output_names 0 _) _ s
      (note_outputs_lem ctx.output_names 0
        (record { last_index = []; nonblocking = ctx.output_nonblocking }) s
        (λ n j e. absurd (none-ne-some j e)) (omega arith))
      (λ last t noted k. (
        selected-IsLast last.last_index ctx.output_names noted k,
        IsLast-selected last.last_index ctx.output_names noted k,
      ))
