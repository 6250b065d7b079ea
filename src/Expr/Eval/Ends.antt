-- ===== src/Expr/Eval/Ends.antt =====
-- The end of the recursion of `try_evaluate` in src/ir/expr_builder.cpp.
use abys.Prelude.{
  ℕ, suc, zero, ◌+◌, ◌<◌, ◌≡◌, ◌≢◌, refl, ◌==◌, inl, inr, Bool, true, false, Option, none, some,
  List, [], ◌∷◌, All, length, get_elem?, arith, if◌then◌else◌, Bool-cases, All-get_elem?, All-map,
}
use mathlib.Core.Bool.{xor}
use abys.Prelude.Int.{ℤ}
use abys.Expr.Graph.{ExprGraph, ExprId, Node, Op, invalid_id}
use abys.Expr.Valid.{IsOperand, IsRanked, IsAcyclic}
use abys.Expr.Eval.Word.{is_true, minus_int}
use abys.Expr.Eval.Answer.{Answer, known, unknown, fault, out_of_fuel, defined, read, ◌>>=◌, both}
use abys.Expr.Eval.Steps.{
  at_operand, at_node, operate, ashr_int, bitwise, all_bits, any_bit, parity,
}
use abys.Expr.Eval.Try.{
  try_evaluate, try_step, try_pair, try_divide, try_reduce, try_bitwise, try_fold, try_constant,
}

abbrev Ends : {A : Type 0} → Answer A → Type 0
Ends m = m ≢ out_of_fuel

known-Ends : {A : Type 0} (a : A) → Ends (known a)
known-Ends a e = cc

unknown-Ends : {A : Type 0} → Ends {A = A} unknown
unknown-Ends e = cc

fault-Ends : {A : Type 0} → Ends {A = A} fault
fault-Ends e = cc

defined-Ends : {A : Type 0} (o : Option A) → Ends (defined o)
defined-Ends none = fault-Ends
defined-Ends (some a) = known-Ends a

module _ {A B : Type 0} where
  bind-Ends : (m : Answer A) (f : A → Answer B) → Ends m → ((a : A) → Ends (f a)) → Ends (m >>= f)
  bind-Ends (known a) f h k = k a
  bind-Ends unknown f h k = unknown-Ends
  bind-Ends fault f h k = fault-Ends
  bind-Ends out_of_fuel f h k = absurd (h refl)

  both-Ends :
      (m n : Answer A) (f : A → A → Answer B)
      → Ends m
      → Ends n
      → ((a b : A) → Ends (f a b))
      → Ends (both m n f)
  both-Ends (known a) n f h k l = bind-Ends n (f a) k (l a)
  both-Ends unknown (known b) f h k l = unknown-Ends
  both-Ends unknown unknown f h k l = unknown-Ends
  both-Ends unknown fault f h k l = fault-Ends
  both-Ends unknown out_of_fuel f h k l = absurd (k refl)
  both-Ends fault n f h k l = fault-Ends
  both-Ends out_of_fuel n f h k l = absurd (h refl)

  read-Ends :
      (o : Option A) (f : A → Answer B) → ((a : A) → o ≡ some a → Ends (f a)) → Ends (read o f)
  read-Ends none f h = fault-Ends
  read-Ends (some a) f h = h a refl

all_bits-Ends : (rounds i : ℕ) (v : ℤ) → Ends (all_bits rounds i v)
unfolding all_bits
all_bits-Ends zero i v = known-Ends _
all_bits-Ends (suc rounds) i v = ground (arith, all_bits-Ends rounds (i + 1) v)

any_bit-Ends : (rounds i : ℕ) (v : ℤ) → Ends (any_bit rounds i v)
unfolding any_bit
any_bit-Ends zero i v = known-Ends _
any_bit-Ends (suc rounds) i v = ground (arith, any_bit-Ends rounds (i + 1) v)

parity-Ends : (rounds i : ℕ) (v : ℤ) (odd : Bool) → Ends (parity rounds i v odd)
unfolding parity
parity-Ends zero i v odd = known-Ends _
parity-Ends (suc rounds) i v odd = ground (
  arith,
  parity-Ends rounds (i + 1) v (xor odd false),
  parity-Ends rounds (i + 1) v (xor odd true),
)

module _ (graph : ExprGraph) (r : ExprId → Answer ℤ) (node : Node)
    (ends : All (λ o. Ends (r o)) node.operands) where
  at_operand-Ends :
      (k : ℕ) (f : ExprId → Answer ℤ)
      → ((a : ExprId) → Ends (r a) → Ends (f a))
      → Ends (at_operand node k f)
  unfolding at_operand
  at_operand-Ends k f h =
      read-Ends (get_elem? node.operands k) f
        (λ a there. h a (All-get_elem? (λ o. Ends (r o)) node.operands k ends there))

  unary-Ends :
      (f : ℤ → Answer ℤ) → ((v : ℤ) → Ends (f v)) → Ends (at_operand node 0 (λ a. r a >>= f))
  unary-Ends f h = at_operand-Ends 0 _ (λ a e. bind-Ends (r a) f e h)

  pair-Ends : (f : ℤ → ℤ → Answer ℤ) → ((a b : ℤ) → Ends (f a b)) → Ends (try_pair r node f)
  unfolding try_pair
  pair-Ends f h =
      at_operand-Ends 0 _ (λ a p. at_operand-Ends 1 _ (λ b q. both-Ends (r a) (r b) f p q h))

  reduce-Ends :
      (loop : ℕ → ℤ → Answer ℤ)
      → ((w : ℕ) (v : ℤ) → Ends (loop w v))
      → Ends (try_reduce graph r node loop)
  unfolding try_reduce at_node
  reduce-Ends loop h = at_operand-Ends 0 _ (λ a p.
      read-Ends (get_elem? graph.nodes a) _
        (λ operand there. bind-Ends (r a) (loop operand.width) p (h operand.width)))

  divide-Ends : (op : Op) (a b : ℤ) → Ends (try_divide op a b)
  unfolding try_divide
  divide-Ends op a b = ground (arith, defined-Ends (operate op a b))

  fold-Ends :
      (op : Op) (l : List ExprId) (v : ℤ) → All (λ o. Ends (r o)) l → Ends (try_fold op r l v)
  unfolding try_fold
  fold-Ends op [] v h = known-Ends v
  fold-Ends op (a ∷ l) v h = bind-Ends (r a) _ h.0 (λ b. fold-Ends op l (bitwise op v b) h.1)

  bitwise-Ends : (op : Op) (l : List ExprId) → All (λ o. Ends (r o)) l → Ends (try_bitwise op r l)
  unfolding try_bitwise
  bitwise-Ends op [] h = unknown-Ends
  bitwise-Ends op (a ∷ l) h = bind-Ends (r a) _ h.0 (λ v. fold-Ends op l v h.1)

  constant-Ends : (id : ExprId) → Ends (try_constant graph id)
  unfolding try_constant
  constant-Ends id = ground arith

  step-Ends : (id : ExprId) (op : Op) → Ends (try_step graph r id node op)
  unfolding try_step
  step-Ends id Op.const = constant-Ends id
  step-Ends id Op.logical_not = unary-Ends _ (λ v. known-Ends _)
  step-Ends id Op.and_reduce = reduce-Ends _ (λ w v. all_bits-Ends w 0 v)
  step-Ends id Op.or_reduce = reduce-Ends _ (λ w v. any_bit-Ends w 0 v)
  step-Ends id Op.xor_reduce = reduce-Ends _ (λ w v. parity-Ends w 0 v false)
  step-Ends id Op.bitwise_not = unary-Ends _ (λ v. known-Ends _)
  step-Ends id Op.and = bitwise-Ends Op.and node.operands ends
  step-Ends id Op.or = bitwise-Ends Op.or node.operands ends
  step-Ends id Op.xor = bitwise-Ends Op.xor node.operands ends
  step-Ends id Op.unary_minus = unary-Ends _ (λ v. defined-Ends (minus_int v))
  step-Ends id Op.add = pair-Ends _ (λ a b. defined-Ends (operate Op.add a b))
  step-Ends id Op.sub = pair-Ends _ (λ a b. defined-Ends (operate Op.sub a b))
  step-Ends id Op.mul = pair-Ends _ (λ a b. defined-Ends (operate Op.mul a b))
  step-Ends id Op.pow = pair-Ends _ (λ a b. defined-Ends (operate Op.pow a b))
  step-Ends id Op.shl = pair-Ends _ (λ a b. defined-Ends (operate Op.shl a b))
  step-Ends id Op.shr = pair-Ends _ (λ a b. defined-Ends (operate Op.shr a b))
  step-Ends id Op.eq = pair-Ends _ (λ a b. defined-Ends (operate Op.eq a b))
  step-Ends id Op.lt = pair-Ends _ (λ a b. defined-Ends (operate Op.lt a b))
  step-Ends id Op.le = pair-Ends _ (λ a b. defined-Ends (operate Op.le a b))
  step-Ends id Op.div = pair-Ends _ (divide-Ends Op.div)
  step-Ends id Op.mod_op = pair-Ends _ (divide-Ends Op.mod_op)
  step-Ends id Op.ashr = pair-Ends _ (λ a b. defined-Ends (ashr_int node.width a b))
  step-Ends id Op.mux =
      at_operand-Ends 0 _ (λ c p.
        bind-Ends (r c) _ p (λ v. at_operand-Ends (if is_true v then 1 else 2) r (λ a q. q)))
  step-Ends id Op.convert = at_operand-Ends 0 r (λ a q. q)
  step-Ends id _ = unknown-Ends

invalid-Ends : (graph : ExprGraph) (fuel : ℕ) → 0 < fuel → Ends (try_evaluate graph fuel invalid_id)
unfolding try_evaluate
invalid-Ends graph zero h = elim h [ ]
invalid-Ends graph (suc fuel) h = fault-Ends

module _ (graph : ExprGraph) (rank : ExprId → ℕ) (ranked : IsRanked graph.nodes rank) where
  operand-Ends :
      (fuel bound : ℕ)
      → bound < fuel
      → ((o : ExprId)
          → o < length graph.nodes
          → rank o + 1 < fuel
          → Ends (try_evaluate graph fuel o))
      → (o : ExprId) → IsOperand graph.nodes rank bound o
      → Ends (try_evaluate graph fuel o)
  operand-Ends fuel bound k ih o (inl invalid) = rw invalid (invalid-Ends graph fuel (omega arith))
  operand-Ends fuel bound k ih o (inr (there, lower)) = ih o there (omega arith)

  -- One call needs as much fuel as its rank, and one more for an operand that is left out.
  Ends-by_rank :
      (fuel : ℕ) (id : ExprId)
      → id < length graph.nodes
      → rank id + 1 < fuel
      → Ends (try_evaluate graph fuel id)
  unfolding try_evaluate at_node
  Ends-by_rank zero id h k = elim k [ ]
  Ends-by_rank (suc fuel) id h k = elim (Bool-cases (id == invalid_id)) [
    | inl bad ↦ rw bad fault-Ends
    | inr good ↦ rw good (
        read-Ends (get_elem? graph.nodes id) _ (λ node there.
          step-Ends graph (try_evaluate graph fuel) node
            (All-map _ _ (operand-Ends fuel (rank id) (omega arith) (Ends-by_rank fuel))
              node.operands (ranked.falls id node there))
            id node.op))
  ]

-- On an acyclic graph `try_evaluate` ends for each of its expressions, whatever it holds, within a
-- depth of calls of the number of nodes and one.
pub try_evaluate_terminates :
    (graph : ExprGraph)
    → IsAcyclic graph.nodes
    → (id : ExprId) → id < length graph.nodes
    → try_evaluate graph (length graph.nodes + 1) id ≢ out_of_fuel
try_evaluate_terminates graph (rank, ranked) id h =
    Ends-by_rank graph rank ranked (length graph.nodes + 1) id h (omega (arith, ranked.below id h))
