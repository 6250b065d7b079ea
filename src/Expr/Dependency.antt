-- ===== src/Expr/Dependency.antt =====
-- What a node depends on, and the search for it in src/ir/expr_builder.cpp.
use mathlib.Core.Path.{subst}
use mathlib.Core.Option
use mathlib.Core.Option.{some-injective}
use abys.Prelude.{
  ℕ, zero, suc, ◌≤◌, ◌<◌, ◌≡◌, refl, sym, ◌∙◌, ap, ◌==◌, ◌⊎◌, inl, inr, true, false, Bool, Option,
  some, none, List, [], ◌∷◌, All, All-get_elem?, arith, if◌then◌else◌, Bool-cases, length,
  get_elem?, Option-cases, get_elem?-lt, lt_of_get_elem?, none-ne-some,
}
use abys.Run.{Run, Returns, Returns-map, bind-Returns, pure, found, ◌>>=◌, ◌>>◌}
use abys.Expr.Graph.{ExprGraph, ExprId, Node, invalid_id}
use abys.Expr.Builder.Names.{is_visited, visit, any_operand, check_dependency_rec, check_dependency}
use abys.Expr.Valid.{IsOperand, IsRanked, IsWellFormed}

-- A node depends on itself and on what its operands depend on.
pub data Depends (nodes : List Node) (target : ExprId) : ExprId → Type 0 where
  itself : Depends nodes target target
  operand :
      (i : ExprId) (node : Node) (k : ℕ) (o : ExprId)
      → get_elem? nodes i ≡ some node
      → get_elem? node.operands k ≡ some o
      → Depends nodes target o
      → Depends nodes target i

module _ (nodes : List Node) (rank : ExprId → ℕ) (ranked : IsRanked nodes rank)
    (fits : length nodes ≤ invalid_id) (target : ExprId) where
  abbrev Fresh : List ExprId → List ExprId → Type 0
  Fresh before after =
      (v : ExprId)
      → is_visited v after ≡ true
      → (is_visited v before ≡ true) ⊎ ¬ (Depends nodes target v)

  -- No visited node below the bound depends on the target.
  abbrev Explored : ℕ → List ExprId → Type 0
  Explored bound visited =
      (v : ExprId) → is_visited v visited ≡ true → rank v < bound → ¬ (Depends nodes target v)

  abbrev Found : ExprId → List ExprId → Bool → List ExprId → Type 0
  Found id before true after = Depends nodes target id
  Found id before false after = (¬ (Depends nodes target id)) × Fresh before after

  abbrev FoundAny : List ExprId → List ExprId → Bool → List ExprId → Type 0
  FoundAny operands before true after =
      (k : ℕ) × (o : ExprId) × (get_elem? operands k ≡ some o) × Depends nodes target o
  FoundAny operands before false after =
      All (λ o. ¬ (Depends nodes target o)) operands × Fresh before after

  Explored-Fresh :
      (bound : ℕ) (before after : List ExprId)
      → Fresh before after
      → Explored bound before
      → Explored bound after
  Explored-Fresh bound before after fresh explored v seen lower = elim (fresh v seen) [
    | inl old ↦ explored v old lower
    | inr new ↦ new
  ]

  Fresh-trans : (s t u : List ExprId) → Fresh s t → Fresh t u → Fresh s u
  Fresh-trans s t u p q v seen = elim (q v seen) [ inl old ↦ p v old | inr new ↦ inr new ]

  FoundAny-next :
      (o : ExprId) (rest : List ExprId) (s t : List ExprId)
      → ¬ (Depends nodes target o)
      → Fresh s t
      → (hit : Bool) (u : List ExprId) → FoundAny rest t hit u
      → FoundAny (o ∷ rest) s hit u
  FoundAny-next o rest s t none_here fresh true u (k, p, there, h) = (suc k, p, there, h)
  FoundAny-next o rest s t none_here fresh false u (none_later, fresh') =
      ((none_here, none_later), Fresh-trans s t u fresh fresh')

  module _ (r : ℕ) (search : ExprId → Run (List ExprId) Bool)
      (finds : (o : ExprId) (visited : List ExprId)
        → IsOperand nodes rank r o
        → Explored r visited
        → Returns (Found o visited) (search o visited)) where
    any_next :
        (o : ExprId) (rest visited : List ExprId)
        → ((t : List ExprId) → Explored r t → Returns (FoundAny rest t) (any_operand search rest t))
        → Explored r visited
        → (hit : Bool) (t : List ExprId) → Found o visited hit t
        → Returns
            (FoundAny (o ∷ rest) visited)
            ((if hit then pure true else any_operand search rest) t)
    any_next o rest visited later explored true t h = (0, o, refl, h)
    any_next o rest visited later explored false t (none_here, fresh) =
        Returns-map (FoundAny (o ∷ rest) visited) (FoundAny rest t) (any_operand search rest t)
          (FoundAny-next o rest visited t none_here fresh)
          (later t (Explored-Fresh r visited t fresh explored))

    any_lem :
        (operands visited : List ExprId)
        → All (IsOperand nodes rank r) operands
        → Explored r visited
        → Returns (FoundAny operands visited) (any_operand search operands visited)
    unfolding any_operand
    any_lem [] visited known explored = (tt, λ v seen. inl seen)
    any_lem (o ∷ rest) visited known explored =
        bind-Returns (FoundAny (o ∷ rest) visited) (Found o visited) (search o)
          (λ hit. if hit then pure true else any_operand search rest) visited
          (finds o visited known.0 explored)
          (any_next o rest visited (λ t e. any_lem rest t known.1 e) explored)

  -- a node that is not there, or differs from the target and has no operand that depends on it
  missing_free :
      (id : ExprId)
      → get_elem? nodes id ≡ none
      → (id == target) ≡ false
      → ¬ (Depends nodes target id)
  missing_free id missing differs h = go id missing differs h
    where
      go :
          (i : ExprId)
          → get_elem? nodes i ≡ none
          → (i == target) ≡ false
          → Depends nodes target i
          → ⊥
      go i m d itself = ground arith
      go i m d (operand j node k o there k_there h) = none-ne-some node (sym m ∙ there)

  node_free :
      (id : ExprId) (node : Node)
      → get_elem? nodes id ≡ some node
      → (id == target) ≡ false
      → All (λ o. ¬ (Depends nodes target o)) node.operands
      → ¬ (Depends nodes target id)
  node_free id node there differs free h = go id there differs h
    where
      go :
          (i : ExprId)
          → get_elem? nodes i ≡ some node
          → (i == target) ≡ false
          → Depends nodes target i
          → ⊥
      go i e d itself = ground arith
      go i e d (operand j node' k o there' k_there h') =
          let same : node ≡ node' = some-injective node node' (sym e ∙ there') in
          All-get_elem? _ node.operands k free (rw same k_there) h'

  out_of_range : (id : ExprId) → length nodes ≤ id → get_elem? nodes id ≡ none
  out_of_range id h = elim (Option-cases (get_elem? nodes id)) [
    | inl missing ↦ missing
    | inr (node, there) ↦ absurd (omega (arith, lt_of_get_elem? nodes id there))
  ]

  known_there :
      (r : ℕ) (id : ExprId)
      → IsOperand nodes rank r id
      → (id == invalid_id) ≡ false
      → (id < length nodes) × (rank id < r)
  known_there r id (inl invalid) valid = absurd (ground arith)
  known_there r id (inr h) valid = h

  abbrev search : ℕ → ExprId → Run (List ExprId) Bool
  search fuel id = check_dependency_rec nodes fuel target id

  abbrev enter : ℕ → ExprId → Run (List ExprId) Bool
  enter fuel id = do
    visit id
    node ← found (get_elem? nodes id)
    any_operand (search fuel) node.operands

  -- One call of the search, with what it does where it enters the node.
  call_lem :
      (f r : ℕ) (id : ExprId) (visited : List ExprId)
      → IsOperand nodes rank r id
      → Explored r visited
      → (id < length nodes
          → rank id < r
          → (id == target) ≡ false
          → Returns (Found id visited) (enter f id visited))
      → Returns (Found id visited) (search (suc f) id visited)
  unfolding check_dependency_rec
  call_lem f r id visited known explored go = elim (Bool-cases (id == target)) [
    | inl same ↦
        let e : target ≡ id = ground arith in rw same (subst (λ x. Depends nodes target x) e itself)
    | inr differs ↦ rw differs (elim (Bool-cases (id == invalid_id)) [
      | inl invalid ↦
          rw invalid (missing_free id (out_of_range id (ground arith)) differs, λ v seen. inl seen)
      | inr valid ↦ rw valid (elim (Bool-cases (is_visited id visited)) [
        | inl seen ↦
            let (there, lower) = known_there r id known valid in
            rw seen (explored id seen lower, λ v s. inl s)
        | inr new ↦
            let (there, lower) = known_there r id known valid in rw new (go there lower differs)
      ])
    ])
  ]

  was_visited :
      (i v : ExprId) (before : List ExprId)
      → ¬ (Depends nodes target i)
      → is_visited v (i ∷ before) ≡ true
      → (is_visited v before ≡ true) ⊎ ¬ (Depends nodes target v)
  unfolding is_visited
  was_visited i v before free seen = elim (Bool-cases (i == v)) [
    | inl same ↦
        let e : i ≡ v = ground arith in inr (subst (λ x. ¬ (Depends nodes target x)) e free)
    | inr other ↦ inl (rw other at seen)
  ]

  -- What the operands of a node tell of the node.
  entered-Found :
      (id : ExprId) (node : Node) (visited : List ExprId)
      → get_elem? nodes id ≡ some node
      → (id == target) ≡ false
      → (hit : Bool) (t : List ExprId) → FoundAny node.operands (id ∷ visited) hit t
      → Found id visited hit t
  entered-Found id node visited there differs true t (k, o, k_there, h) =
      operand id node k o there k_there h
  entered-Found id node visited there differs false t (free, fresh) =
      let none_here = node_free id node there differs free in
      (
        none_here,
        λ v seen. elim (fresh v seen) [
          | inl old ↦ was_visited id v visited none_here old
          | inr new ↦ inr new
        ],
      )

  Explored-entered :
      (r : ℕ) (id : ExprId) (visited : List ExprId)
      → rank id < r
      → Explored r visited
      → Explored (rank id) (id ∷ visited)
  unfolding is_visited
  Explored-entered r id visited lower explored v seen below = elim (Bool-cases (id == v)) [
    | inl same ↦ let e : id ≡ v = ground arith in λ d. absurd (omega (arith, ap rank e))
    | inr other ↦ explored v (rw other at seen) (omega arith)
  ]

  -- With as much fuel as the ranks below the bound, the search ends and finds what there is.
  search_lem :
      (f r : ℕ) (id : ExprId) (visited : List ExprId)
      → r ≤ f
      → IsOperand nodes rank r id
      → Explored r visited
      → Returns (Found id visited) (search (suc f) id visited)
  search_lem zero r id visited le known explored =
      call_lem zero r id visited known explored (λ there lower differs. absurd (omega arith))
  search_lem (suc f) r id visited le known explored =
      call_lem (suc f) r id visited known explored (λ there lower differs.
        let (node, e) = get_elem?-lt nodes id there in
        rw e (
          Returns-map (Found id visited) (FoundAny node.operands (id ∷ visited)) _
            (entered-Found id node visited e differs)
            (any_lem (rank id) (search (suc f))
              (λ o t k x. search_lem f (rank id) o t (omega arith) k x) node.operands (id ∷ visited)
              (ranked.falls id node e) (Explored-entered r id visited lower explored))))

-- In a well-formed graph the search ends within its fuel, for a node that is there or one that is
-- left out, and its answer is whether the node depends on the target.
pub check_dependency_lem :
    (g : ExprGraph) (id target : ExprId)
    → IsWellFormed g
    → (id ≡ invalid_id) ⊎ (id < length g.nodes)
    → ((check_dependency g.nodes id target ≡ some true) × Depends g.nodes target id)
      ⊎ ((check_dependency g.nodes id target ≡ some false) × ¬ (Depends g.nodes target id))
unfolding check_dependency
check_dependency_lem g id target w known =
    answer (check_dependency_rec g.nodes (suc (length g.nodes)) target id []) (
      search_lem g.nodes w.rank w.ranked w.fits target (length g.nodes) (length g.nodes) id []
        (omega arith) (operand_of known) (λ v seen. absurd (ground arith)))
  where
    operand_of :
        (id ≡ invalid_id) ⊎ (id < length g.nodes) → IsOperand g.nodes w.rank (length g.nodes) id
    operand_of (inl invalid) = inl invalid
    operand_of (inr there) = inr (there, w.ranked.below id there)

    answer :
        (o : Option (Bool × List ExprId))
        → Returns (Found g.nodes w.rank w.ranked w.fits target id []) o
        → ((Option.map (λ r. r.0) o ≡ some true) × Depends g.nodes target id)
          ⊎ ((Option.map (λ r. r.0) o ≡ some false) × ¬ (Depends g.nodes target id))
    answer none h = absurd h
    answer (some (true, t)) h = inl (refl, h)
    answer (some (false, t)) h = inr (refl, h.0)
