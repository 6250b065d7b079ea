-- ===== src/Stmt/Flags.antt =====
-- What one round of the first loop of `collect_last_output_indices` in src/ir/stmt_builder.cpp does to
-- the kinds of the names.
use mathlib.Core.Path.{subst}
use mathlib.Core.Option.{some-injective}
use abys.Prelude.{
  ℕ, suc, ◌<◌, ◌≡◌, ◌≢◌, refl, sym, ◌∙◌, ap, str_eq, String, inl, inr, true, false, Bool, ◌||◌,
  Option, some, none, List, arith, if◌then◌else◌, Bool-cases, Option-cases, length, length-set,
  get_elem?, get_elem?-lt, get_elem?-set_self, get_elem?-set_other, set, lookup, insert,
  lookup-insert, eq_iff,
}
use abys.Run.{Returns}
use abys.Stmt.Builder.{StmtBuilder}
use abys.Stmt.Outputs.{Last, is_mixed, note_output}

-- the flag at a position, where there is one
abbrev pub flag_at : Option ℕ → List Bool → Option Bool
flag_at none flags = none
flag_at (some j) flags = get_elem? flags j

-- The kind that the map and the flags give a name.
abbrev pub kind_of : Last → String → Option Bool
kind_of last n = flag_at (lookup n last.last_index) last.nonblocking

abbrev pub joined : Option Bool → Bool → Bool
joined none kind = kind
joined (some before) kind = before || kind

-- Different names have different positions, all before `i`.
pub record Tidy (last : Last) (i : ℕ) : Type 0 where
  pub before : (n : String) (j : ℕ) → lookup n last.last_index ≡ some j → j < i
  pub apart :
      (n m : String) (j : ℕ)
      → lookup n last.last_index ≡ some j
      → lookup m last.last_index ≡ some j
      → str_eq n m ≡ true

pub record Step (name : String) (i : ℕ) (kind : Bool) (last next : Last) : Type 0 where
  pub tidy : Tidy next (suc i)
  pub same_length : length next.nonblocking ≡ length last.nonblocking
  pub later : (k : ℕ) → i < k → get_elem? next.nonblocking k ≡ get_elem? last.nonblocking k
  pub kinds :
      (n : String)
      → kind_of next n
        ≡ (if str_eq name n then some (joined (kind_of last n) kind) else kind_of last n)

Tidy-insert :
    (name : String) (i : ℕ) (last : Last) (flags : List Bool)
    → Tidy last i
    → Tidy (record { last_index = insert name i last.last_index; nonblocking = flags }) (suc i)
Tidy-insert name i last flags t = record {
  before = λ n j h. elim (Bool-cases (str_eq name n)) [
    | inl same ↦
        omega (arith, some-injective i j (rw (lookup-insert name n i last.last_index, same) at h))
    | inr other ↦
        omega (arith, t.before n j (rw (lookup-insert name n i last.last_index, other) at h))
  ];
  apart = λ n m j h k. elim (Bool-cases (str_eq name n)) [
    | inl same ↦ elim (Bool-cases (str_eq name m)) [
      | inl same' ↦ ground (arith, eq_iff name n, eq_iff name m, eq_iff n m)
      | inr other' ↦
          let e : i ≡ j =
            some-injective i j (rw (lookup-insert name n i last.last_index, same) at h) in
          let f : j < i = t.before m j (rw (lookup-insert name m i last.last_index, other') at k) in
          absurd (omega arith)
    ]
    | inr other ↦ elim (Bool-cases (str_eq name m)) [
      | inl same' ↦
          let e : i ≡ j =
            some-injective i j (rw (lookup-insert name m i last.last_index, same') at k) in
          let f : j < i = t.before n j (rw (lookup-insert name n i last.last_index, other) at h) in
          absurd (omega arith)
      | inr other' ↦
          t.apart n m j (rw (lookup-insert name n i last.last_index, other) at h)
            (rw (lookup-insert name m i last.last_index, other') at k)
    ]
  ];
}

mixed_or : (b k : Bool) → is_mixed b k ≡ true → (b || k) ≡ true
mixed_or true k h = refl
mixed_or false k h = h

same_or : (b k : Bool) → is_mixed b k ≡ false → (b || k) ≡ k
same_or true true h = refl
same_or true false h = absurd (cc)
same_or false k h = refl

moved : String → ℕ → Last → List Bool → Last
moved name i last flags = record { last_index = insert name i last.last_index; nonblocking = flags }

moved_kinds :
    (name : String) (i : ℕ) (kind : Bool) (last : Last) (flags : List Bool)
    → get_elem? flags i ≡ some (joined (kind_of last name) kind)
    → ((n : String)
        → str_eq name n ≡ false
        → flag_at (lookup n last.last_index) flags ≡ kind_of last n)
    → (n : String)
    → kind_of (moved name i last flags) n
      ≡ (if str_eq name n then some (joined (kind_of last n) kind) else kind_of last n)
unfolding moved
moved_kinds name i kind last flags here others n = elim (Bool-cases (str_eq name n)) [
  | inl same ↦
      let e : name ≡ n = ground (arith, eq_iff name n) in
      rw (lookup-insert name n i last.last_index, same)
        (subst (λ m. get_elem? flags i ≡ some (joined (kind_of last m) kind)) e here)
  | inr other ↦ rw (lookup-insert name n i last.last_index, other) (others n other)
]

-- The flags of other names are not touched.
others_kept :
    (name : String) (i j : ℕ) (last : Last)
    → Tidy last i
    → lookup name last.last_index ≡ some j
    → (n : String) → str_eq name n ≡ false
    → flag_at (lookup n last.last_index) (set (set last.nonblocking j true) i true) ≡ kind_of last n
others_kept name i j last t known n other = elim (Option-cases (lookup n last.last_index)) [
  | inl missing ↦ rw missing refl
  | inr (k, there) ↦
      let f : k < i = t.before n k there in
      let apart : j ≢ k = λ e. differs (t.apart n name k there (known ∙ ap some e)) in
      rw there (
        get_elem?-set_other (set last.nonblocking j true) i k true (omega arith)
        ∙ get_elem?-set_other last.nonblocking j k true apart)
]
  where
    differs : str_eq n name ≡ true → ⊥
    differs h = ground (arith, eq_iff n name, eq_iff name n)

pub note_output-Step :
    (seen : Option ℕ) (name : String) (i : ℕ) (kind : Bool) (last : Last) (s : StmtBuilder)
    → lookup name last.last_index ≡ seen
    → Tidy last i
    → i < length last.nonblocking
    → get_elem? last.nonblocking i ≡ some kind
    → Returns (λ next t. Step name i kind last next) (note_output seen name i last s)
unfolding note_output moved
note_output-Step none name i kind last s known t bound here = record {
  tidy = Tidy-insert name i last last.nonblocking t;
  same_length = refl;
  later = λ k h. refl;
  kinds = moved_kinds name i kind last last.nonblocking (rw known here) (λ n h. refl);
}
note_output-Step (some j) name i kind last s known t bound here =
    let lower : j < i = t.before name j known in
    let (b, there) = get_elem?-lt last.nonblocking j (omega arith) in
    elim (Bool-cases (is_mixed b kind)) [
      | inl mixed ↦
          let flags = set (set last.nonblocking j true) i true in
          rw (there, here, mixed)
            (record {
              tidy = Tidy-insert name i last flags t;
              same_length =
                  length-set (set last.nonblocking j true) i true
                  ∙ length-set last.nonblocking j true;
              later = λ k h.
                  get_elem?-set_other (set last.nonblocking j true) i k true (omega arith)
                  ∙ get_elem?-set_other last.nonblocking j k true (omega arith);
              kinds =
                  moved_kinds name i kind last flags
                    (get_elem?-set_self (set last.nonblocking j true) i true
                        (omega (arith, length-set last.nonblocking j true))
                      ∙ rw (known, there) (ap some (sym (mixed_or b kind mixed))))
                    (others_kept name i j last t known);
            })
      | inr same ↦
          rw (there, here, same)
            (record {
              tidy = Tidy-insert name i last last.nonblocking t;
              same_length = refl;
              later = λ k h. refl;
              kinds =
                  moved_kinds name i kind last last.nonblocking
                    (here ∙ rw (known, there) (ap some (sym (same_or b kind same)))) (λ n h. refl);
            })
    ]
