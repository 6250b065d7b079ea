-- ===== src/Tig/Dumper/Assumed.antt =====
-- What is assumed of conditions under a reset: `lookup_assumed_condition` of src/ir/tig_dumper.cpp.
use mathlib.Core.Path.{subst}
use mathlib.Core.Option.{some-injective}
use abys.Prelude.{
  ℕ, zero, suc, ◌+◌, ◌^◌, ◌≤◌, ◌<◌, ◌≡◌, refl, sym, ap, ◌∙◌, ◌==◌, inl, inr, String, Bool, true,
  false, not, Option, none, some, List, [], ◌∷◌, Assoc, All, length, get_elem?, lookup, arith,
  Bool-cases, none-ne-some, get_elem?-lt, lt_of_get_elem?, All-map, ◌⊎◌,
}
use abys.Expr.Graph.{ExprGraph, ExprId, Node, Op, is_op, invalid_id}
use abys.Expr.Valid.{IsOperand, IsRanked, IsWellFormed}
use abys.Tig.Dumper.{
  negated, assumed_input, negated_operand, is_inverter, assumed_node, lookup_assumed_condition,
}
use abys.Tig.Dumper.Conditions.{bit, Respects, IsAssumed, IsWalk, Tells}

told :
    {P : Type 0} (v : ℕ) (o : Option Bool)
    → ((b : Bool) → o ≡ some b → v ≡ bit b)
    → (P → (b : Bool) × (o ≡ some b))
    → Tells P v (some o)
told v none h there = λ p. let (b, e) = there p in none-ne-some b e
told v (some b) h there = h b refl

is_input-is_inverter : (node : Node) → is_op node.op Op.input ≡ true → is_inverter node ≡ true → ⊥
is_input-is_inverter node e e' = ground arith

module _ (graph : ExprGraph) (assumptions : Assoc Bool) (value : ExprId → ℕ)
    (respects : Respects graph assumptions value) where
  abbrev Known : ExprId → Type 0
  Known id = IsAssumed graph assumptions id

  assumed_input-value :
      (id : ExprId) (walk : Assoc ExprId)
      → All (λ input. lookup input.0 graph.inputs ≡ some input.1) walk
      → (b : Bool) → assumed_input id assumptions walk ≡ some b
      → value id ≡ bit b
  unfolding assumed_input
  assumed_input-value id [] known b found = absurd (none-ne-some b found)
  assumed_input-value id ((name, key) ∷ rest) known b found = elim (Bool-cases (key == id)) [
    | inl e ↦
        let same : key ≡ id = ground arith in
        respects.inputs name id b (known.0 ∙ ap some same) (rw e at found)
    | inr e ↦ assumed_input-value id rest known.1 b (rw e at found)
  ]

  assumed_input-found :
      (id : ExprId) (name : String) (b : Bool) (walk : Assoc ExprId) (k : ℕ)
      → get_elem? walk k ≡ some (name, id)
      → ((other : String) → lookup other graph.inputs ≡ some id → other ≡ name)
      → All (λ input. lookup input.0 graph.inputs ≡ some input.1) walk
      → lookup name assumptions ≡ some b
      → assumed_input id assumptions walk ≡ some b
  unfolding assumed_input
  assumed_input-found id name b [] k there one known found = absurd (none-ne-some _ there)
  assumed_input-found id name b ((other, key) ∷ rest) zero there one known found =
      let at = some-injective (other, key) (name, id) there in
      let same : key ≡ id = ap (λ (input : String × ExprId). input.1) at in
      let equal : (key == id) ≡ true = ground arith in
      rw (equal, ap (λ (input : String × ExprId). input.0) at) found
  assumed_input-found id name b ((other, key) ∷ rest) (suc k) there one known found =
      elim (Bool-cases (key == id)) [
        | inl e ↦
            let same : key ≡ id = ground arith in rw (e, one other (known.0 ∙ ap some same)) found
        | inr e ↦ rw e (assumed_input-found id name b rest k there one known.1 found)
      ]

  input-Tells :
      (walk : Assoc ExprId) (id : ExprId) (node : Node)
      → IsWalk graph.inputs walk
      → get_elem? graph.nodes id ≡ some node
      → is_op node.op Op.input ≡ true
      → Tells (Known id) (value id) (some (assumed_input id assumptions walk))
  input-Tells walk id node all there e =
      told (value id) (assumed_input id assumptions walk) (assumed_input-value id walk all.sound)
        name_of
    where
      name_of : Known id → (b : Bool) × (assumed_input id assumptions walk ≡ some b)
      name_of (IsAssumed.input _ _ name b _ _ listed found) =
          let (k, at) = all.complete name id listed in
          (
            b,
            assumed_input-found id name b walk k at (λ other h. all.one_name other name id h listed)
                all.sound found,
          )
      name_of (IsAssumed.inverter _ o node' there' e' operands h) =
          let same = some-injective node node' (sym there ∙ there') in
          absurd (is_input-is_inverter node e (ap is_inverter same ∙ e'))

  -- an inverted bit
  inverted :
      (id o : ExprId) (node : Node) (b : Bool)
      → get_elem? graph.nodes id ≡ some node
      → is_inverter node ≡ true
      → node.operands ≡ o ∷ []
      → value o ≡ bit b
      → value id ≡ bit (not b)
  inverted id o node b there e operands h = elim (Bool-cases (is_op node.op Op.logical_not)) [
    | inl logical ↦
        respects.logical_nots id o node there logical operands
        ∙ ap (λ v. bit (v == 0)) h
        ∙ bit_not b
    | inr other ↦
        let bitwise : is_op node.op Op.bitwise_not ≡ true = ground arith in
        let one : node.width ≡ 1 = ground arith in
        let sum = respects.bitwise_nots id o node there bitwise operands in
        minus_bit b (value id) (value o) h (sum ∙ ap (λ w. 2 ^ w) one)
  ]
    where
      bit_not : (c : Bool) → bit (bit c == 0) ≡ bit (not c)
      bit_not true = refl
      bit_not false = refl

      minus_bit : (c : Bool) (v w : ℕ) → w ≡ bit c → v + w + 1 ≡ 2 → v ≡ bit (not c)
      minus_bit true v w p q = omega (arith, p, q)
      minus_bit false v w p q = omega (arith, p, q)

  -- what is known of an inverter
  operand_of :
      (id : ExprId) (node : Node)
      → get_elem? graph.nodes id ≡ some node
      → is_inverter node ≡ true
      → Known id
      → (o : ExprId) × (node.operands ≡ o ∷ []) × Known o
  operand_of id node there e (IsAssumed.input _ node' name b there' e' listed found) =
      let same = some-injective node' node (sym there' ∙ there) in
      absurd (is_input-is_inverter node (sym (ap (λ (n : Node). is_op n.op Op.input) same) ∙ e') e)
  operand_of id node there e (IsAssumed.inverter _ o node' there' e' operands h) =
      let same = some-injective node node' (sym there ∙ there') in
      (o, ap (λ (n : Node). n.operands) same ∙ operands, h)

  negated_operand-Tells :
      (recurse : ExprId → Option (Option Bool)) (id : ExprId) (node : Node)
      → get_elem? graph.nodes id ≡ some node
      → is_inverter node ≡ true
      → (operands : List ExprId) → node.operands ≡ operands
      → All (λ o. Tells (Known o) (value o) (recurse o)) operands
      → Tells (Known id) (value id) (negated_operand recurse operands)
  unfolding negated_operand
  negated_operand-Tells recurse id node there e [] same h =
      λ p. let (o, operands, q) = operand_of id node there e p in cc
  negated_operand-Tells recurse id node there e (o ∷ p ∷ rest) same h =
      λ p. let (o, operands, q) = operand_of id node there e p in cc
  negated_operand-Tells recurse id node there e (o ∷ []) same h = tell (recurse o) h.0
    where
      tell :
          (r : Option (Option Bool))
          → Tells (Known o) (value o) r
          → Tells (Known id) (value id) (negated r)
      tell none t = t
      tell (some none) t = λ p.
          let (o', operands, q) = operand_of id node there e p in
          let one : o' ≡ o = cc in t (subst Known one q)
      tell (some (some b)) t = inverted id o node b there e same t

  other-Tells :
      (id : ExprId) (node : Node)
      → get_elem? graph.nodes id ≡ some node
      → is_op node.op Op.input ≡ false
      → is_inverter node ≡ false
      → ¬ Known id
  other-Tells id node there e e' (IsAssumed.input _ node' name b there' is listed found) =
      let same = some-injective node' node (sym there' ∙ there) in
      let is' : is_op node.op Op.input ≡ true =
        sym (ap (λ (n : Node). is_op n.op Op.input) same) ∙ is in
      cc
  other-Tells id node there e e' (IsAssumed.inverter _ o node' there' is operands h) =
      let same = some-injective node' node (sym there' ∙ there) in
      let is' : is_inverter node ≡ true = sym (ap is_inverter same) ∙ is in cc

  module _ (rank : ExprId → ℕ) (ranked : IsRanked graph.nodes rank)
      (fits : length graph.nodes ≤ invalid_id) (walk : Assoc ExprId)
      (all : IsWalk graph.inputs walk) where
    nothing-Known : ¬ Known invalid_id
    nothing-Known (IsAssumed.input _ node name b there e listed found) =
        absurd (omega (arith, fits, lt_of_get_elem? graph.nodes invalid_id there))
    nothing-Known (IsAssumed.inverter _ o node there e operands h) =
        absurd (omega (arith, fits, lt_of_get_elem? graph.nodes invalid_id there))

    abbrev answer : ℕ → ExprId → Option (Option Bool)
    answer fuel id = lookup_assumed_condition walk graph fuel id (some assumptions)

    node-Tells :
        (fuel : ℕ) (id : ExprId) (node : Node)
        → get_elem? graph.nodes id ≡ some node
        → All (λ o. Tells (Known o) (value o) (answer fuel o)) node.operands
        → Tells (Known id) (value id) (assumed_node walk assumptions (answer fuel) id (some node))
    unfolding assumed_node
    node-Tells fuel id node there h = elim (Bool-cases (is_op node.op Op.input)) [
      | inl e ↦ rw e (input-Tells walk id node all there e)
      | inr e ↦ elim (Bool-cases (is_inverter node)) [
        | inl e' ↦
            rw (e, e') (negated_operand-Tells (answer fuel) id node there e' node.operands refl h)
        | inr e' ↦ rw (e, e') (other-Tells id node there e e')
      ]
    ]

    answer-Tells :
        (fuel bound : ℕ) (id : ExprId)
        → bound < fuel
        → IsOperand graph.nodes rank bound id
        → Tells (Known id) (value id) (answer fuel id)
    unfolding lookup_assumed_condition
    answer-Tells zero bound id k h = elim k [ ]
    answer-Tells (suc fuel) bound id k (inl e) = rw e nothing-Known
    answer-Tells (suc fuel) bound id k (inr (there, lower)) =
        let (node, at) = get_elem?-lt graph.nodes id there in
        let valid : (id == invalid_id) ≡ false = ground (arith, fits, there) in
        rw (valid, at)
          (node-Tells fuel id node at (
            All-map _ _ (λ o h. answer-Tells fuel (rank id) o (omega (arith, k, lower)) h)
              node.operands (ranked.falls id node at)))

-- In a well-formed graph whose inputs are walked in any order and have one name each, the search for
-- an assumption ends within a depth of calls of the number of nodes and one, for a node that is
-- there or one that is left out: it finds a truth value for the node of every input with an
-- assumption behind any number of logical negations or inversions of one bit, and a truth value that
-- it finds is the value of the node wherever the inputs have the values that are assumed and
-- negations negate.
pub lookup_assumed_condition_lem :
    (graph : ExprGraph) (walk : Assoc ExprId) (assumptions : Assoc Bool) (value : ExprId → ℕ)
    (id : ExprId)
    → IsWellFormed graph
    → IsWalk graph.inputs walk
    → Respects graph assumptions value
    → (id ≡ invalid_id) ⊎ (id < length graph.nodes)
    → Tells
        (IsAssumed graph assumptions id)
        (value id)
        (lookup_assumed_condition walk graph (length graph.nodes + 1) id (some assumptions))
lookup_assumed_condition_lem graph walk assumptions value id valid all respects h =
    answer-Tells graph assumptions value respects valid.rank valid.ranked valid.fits walk all
      (length graph.nodes + 1) (length graph.nodes) id (omega arith) (operand h)
  where
    operand :
        (id ≡ invalid_id) ⊎ (id < length graph.nodes)
        → IsOperand graph.nodes valid.rank (length graph.nodes) id
    operand (inl e) = inl e
    operand (inr there) = inr (there, valid.ranked.below id there)
