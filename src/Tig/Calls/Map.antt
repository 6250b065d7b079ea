-- ===== src/Tig/Calls/Map.antt =====
-- The map of identifiers and the costs in the inlining of calls: src/ir/tig_builder.cpp.
use native.Mathlib.Decide.{dec_lt}
use mathlib.Core.Option.{some-injective}
use abys.Prelude.{
  sym, ℕ, zero, suc, ◌+◌, ◌≤◌, ◌<◌, ◌≡◌, ◌⊎◌, inl, inr, refl, ==_iff, none, some, List, [], ◌∷◌,
  ◌++◌, get_elem?, arith, Option-cases,
}
use abys.Expr.Graph.{ExprId, SubrId, Call}
use abys.Tig.Builder.Inline.{IdMap, find_id, emplace}
use abys.Tig.Calls.{cost_from}

-- All identifiers below `id` are mapped.
abbrev pub Covers : IdMap → ExprId → Type 0
Covers id_map id = (j : ExprId) → j < id → (v : ExprId) × (find_id j id_map ≡ some v)

pub emplace-keeps :
    (key value asked v : ExprId) (id_map : IdMap)
    → find_id asked id_map ≡ some v
    → find_id asked (emplace key value id_map) ≡ some v
unfolding emplace find_id
emplace-keeps key value asked v id_map h = ground (arith, ==_iff key asked)

emplace-new :
    (key value : ExprId) (id_map : IdMap)
    → find_id key id_map ≡ none
    → find_id key (emplace key value id_map) ≡ some value
unfolding emplace find_id
emplace-new key value id_map e = rw e (ground (arith, ==_iff key key))

pub emplace-has :
    (key value : ExprId) (id_map : IdMap)
    → (v : ExprId) × (find_id key (emplace key value id_map) ≡ some v)
emplace-has key value id_map = elim (Option-cases (find_id key id_map)) [
  | inl e ↦ (value, emplace-new key value id_map e)
  | inr (v, e) ↦ (v, emplace-keeps key value key v id_map e)
]

below_suc : (j id : ℕ) → j < suc id → (j < id) ⊎ (j ≡ id)
below_suc j id h = elim (dec_lt j id) [ yes p ↦ inl p | no p ↦ inr (omega arith) ]

pub emplace-Covers :
    (id value : ExprId) (id_map : IdMap)
    → Covers id_map id
    → Covers (emplace id value id_map) (suc id)
emplace-Covers id value id_map h j lt = elim (below_suc j id lt) [
  | inl below ↦ let (v, e) = h j below in (v, emplace-keeps id value j v id_map e)
  | inr e ↦ rw e (emplace-has id value id_map)
]

-- An identifier that is mapped already.
pub known-Covers :
    (id v : ExprId) (id_map : IdMap)
    → find_id id id_map ≡ some v
    → Covers id_map id
    → Covers id_map (suc id)
known-Covers id v id_map e h j lt = elim (below_suc j id lt) [
  | inl below ↦ h j below
  | inr same ↦ (v, rw same e)
]

module _ (cost : SubrId → ℕ) where
  pub cost_from-append :
      (i : ℕ) (calls : List Call) (call : Call)
      → cost_from cost i (calls ++ call ∷ []) ≤ cost_from cost i calls + suc (cost call.subr_id)
  unfolding cost_from
  cost_from-append zero [] call = omega arith
  cost_from-append (suc i) [] call = omega arith
  cost_from-append zero (c ∷ calls) call = omega (arith, cost_from-append zero calls call)
  cost_from-append (suc i) (c ∷ calls) call = cost_from-append i calls call

  pub cost_from-step :
      (i : ℕ) (calls : List Call) (call : Call)
      → get_elem? calls i ≡ some call
      → cost_from cost i calls ≡ suc (cost call.subr_id) + cost_from cost (suc i) calls
  unfolding cost_from
  cost_from-step i [] call h = cc
  cost_from-step zero (c ∷ calls) call h = rw (sym (some-injective c call h)) refl
  cost_from-step (suc i) (c ∷ calls) call h = cost_from-step i calls call h
