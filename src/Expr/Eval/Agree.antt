-- ===== src/Expr/Eval/Agree.antt =====
-- `evaluate` against `try_evaluate`: src/ir/expr_builder.cpp.
use abys.Prelude.{
  ℕ, suc, zero, ◌≡◌, refl, ◌==◌, ◌⊎◌, inl, inr, Option, none, some, List, [], ◌∷◌, length,
  get_elem?, arith, if◌then◌else◌, Bool-cases,
}
use abys.Prelude.Int.{ℤ, pos, eqb_ℤ}
use abys.Expr.Graph.{ExprGraph, ExprId, Node, Op, invalid_id}
use abys.Expr.Eval.Word.{is_true}
use abys.Expr.Eval.Answer.{Answer, known, fault, defined, read, ◌>>=◌}
use abys.Expr.Eval.Steps.{at_operand, operate, ashr_int, bitwise}
use abys.Expr.Eval.Refines.{
  Refines, bind-Refines, both-Refines, at_operand-Refines, at_node-Refines, Refines-refl,
  unknown-Refines,
}
use abys.Expr.Eval.Try.{
  try_evaluate, try_step, try_pair, try_divide, try_reduce, try_bitwise, try_fold, try_constant,
}
use abys.Expr.Eval.Direct.{evaluate, direct_step, direct_pair, direct_reduce, direct_constant}

-- A bitwise node has two operands.
abbrev pub IsPaired : Node → Type 0
IsPaired node =
    (node.op ≡ Op.and) ⊎ (node.op ≡ Op.or) ⊎ (node.op ≡ Op.xor) → length node.operands ≡ 2

-- Every value of one evaluator is a value of the other.
abbrev Simulates : (ExprId → Answer ℤ) → (ExprId → Answer ℤ) → Type 0
Simulates r s = (o : ExprId) → Refines (r o) (s o)

module _ (graph : ExprGraph) (r s : ExprId → Answer ℤ) (sim : Simulates r s) (node : Node) where
  divide-Refines : (op : Op) (a b : ℤ) → Refines (try_divide op a b) (defined (operate op a b))
  unfolding try_divide
  divide-Refines op a b v e = elim (Bool-cases (eqb_ℤ b (pos 0))) [
    | inl zero_divisor ↦ cc (rw zero_divisor at e)
    | inr other ↦ rw other at e
  ]

  pair-Refines :
      (f g : ℤ → ℤ → Answer ℤ)
      → ((a b : ℤ) → Refines (f a b) (g a b))
      → Refines (try_pair r node f) (direct_pair s node g)
  unfolding try_pair direct_pair
  pair-Refines f g h =
      at_operand-Refines _ _
        (λ a.
          at_operand-Refines _ _ (λ b. both-Refines (r a) (r b) (s a) (s b) f g (sim a) (sim b) h)
            node 1)
        node 0

  reduce-Refines :
      (loop : ℕ → ℤ → Answer ℤ)
      → Refines (try_reduce graph r node loop) (direct_reduce graph s node loop)
  unfolding try_reduce direct_reduce
  reduce-Refines loop =
      at_operand-Refines _ _
        (λ a.
          at_node-Refines _ _
            (λ operand.
              bind-Refines (r a) (s a) (loop operand.width) (loop operand.width) (sim a)
                (λ v. Refines-refl (loop operand.width v)))
            graph a)
        node 0

  constant-Refines : (id : ExprId) → Refines (try_constant graph id) (direct_constant graph id)
  unfolding try_constant direct_constant
  constant-Refines id v e = ground arith

  unary-Refines :
      (f : ℤ → Answer ℤ)
      → Refines (at_operand node 0 (λ a. r a >>= f)) (at_operand node 0 (λ a. s a >>= f))
  unary-Refines f =
      at_operand-Refines _ _ (λ a. bind-Refines (r a) (s a) f f (sim a) (λ v. Refines-refl (f v)))
        node 0

  bitwise-Refines :
      (op : Op) (l : List ExprId)
      → length l ≡ 2
      → Refines (try_bitwise op r l) (
          read
            (get_elem? l 0)
            (λ a. read (get_elem? l 1) (λ b. s a >>= λ v. s b >>= λ w. known (bitwise op v w))))
  unfolding try_bitwise try_fold
  bitwise-Refines op [] h = absurd (omega arith)
  bitwise-Refines op (a ∷ []) h = absurd (omega arith)
  bitwise-Refines op (a ∷ b ∷ c ∷ l) h = absurd (omega arith)
  bitwise-Refines op (a ∷ b ∷ []) h =
      bind-Refines (r a) (s a) _ _ (sim a)
        (λ v. bind-Refines (r b) (s b) _ _ (sim b) (λ w. Refines-refl (known (bitwise op v w))))

  -- One step of `try_evaluate` against one of `evaluate`.
  step-Refines :
      (id : ExprId) (op : Op)
      → node.op ≡ op
      → IsPaired node
      → Refines (try_step graph r id node op) (direct_step graph s id node op)
  unfolding try_step direct_step
  step-Refines id Op.const e p = constant-Refines id
  step-Refines id Op.logical_not e p = unary-Refines _
  step-Refines id Op.and_reduce e p = reduce-Refines _
  step-Refines id Op.or_reduce e p = reduce-Refines _
  step-Refines id Op.xor_reduce e p = reduce-Refines _
  step-Refines id Op.bitwise_not e p = unary-Refines _
  step-Refines id Op.and e p = bitwise-Refines Op.and node.operands (p (inl e))
  step-Refines id Op.or e p = bitwise-Refines Op.or node.operands (p (inr (inl e)))
  step-Refines id Op.xor e p = bitwise-Refines Op.xor node.operands (p (inr (inr e)))
  step-Refines id Op.unary_minus e p = unary-Refines _
  step-Refines id Op.add e p = pair-Refines _ _ (λ a b. Refines-refl (defined (operate Op.add a b)))
  step-Refines id Op.sub e p = pair-Refines _ _ (λ a b. Refines-refl (defined (operate Op.sub a b)))
  step-Refines id Op.mul e p = pair-Refines _ _ (λ a b. Refines-refl (defined (operate Op.mul a b)))
  step-Refines id Op.pow e p = pair-Refines _ _ (λ a b. Refines-refl (defined (operate Op.pow a b)))
  step-Refines id Op.shl e p = pair-Refines _ _ (λ a b. Refines-refl (defined (operate Op.shl a b)))
  step-Refines id Op.shr e p = pair-Refines _ _ (λ a b. Refines-refl (defined (operate Op.shr a b)))
  step-Refines id Op.eq e p = pair-Refines _ _ (λ a b. Refines-refl (defined (operate Op.eq a b)))
  step-Refines id Op.lt e p = pair-Refines _ _ (λ a b. Refines-refl (defined (operate Op.lt a b)))
  step-Refines id Op.le e p = pair-Refines _ _ (λ a b. Refines-refl (defined (operate Op.le a b)))
  step-Refines id Op.div e p = pair-Refines _ _ (divide-Refines Op.div)
  step-Refines id Op.mod_op e p = pair-Refines _ _ (divide-Refines Op.mod_op)
  step-Refines id Op.ashr e p =
      pair-Refines _ _ (λ a b. Refines-refl (defined (ashr_int node.width a b)))
  step-Refines id Op.mux e p =
      at_operand-Refines _ _
        (λ c.
          bind-Refines (r c) (s c) _ _ (sim c)
            (λ v. at_operand-Refines r s sim node (if is_true v then 1 else 2)))
        node 0
  step-Refines id Op.convert e p = at_operand-Refines r s sim node 0
  step-Refines id _ e p = unknown-Refines _

-- Every node of the graph that is bitwise has two operands.
abbrev pub ArePaired : ExprGraph → Type 0
ArePaired graph = (i : ExprId) (node : Node) → get_elem? graph.nodes i ≡ some node → IsPaired node

node-Refines :
    (graph : ExprGraph) (r s : ExprId → Answer ℤ)
    → Simulates r s
    → (id : ExprId) (o : Option Node) → ((node : Node) → o ≡ some node → IsPaired node)
    → Refines
        (read o (λ node. try_step graph r id node node.op))
        (read o (λ node. direct_step graph s id node node.op))
node-Refines graph r s sim id none paired = Refines-refl fault
node-Refines graph r s sim id (some node) paired =
    step-Refines graph r s sim node id node.op refl (paired node refl)

-- Where every bitwise node of the graph has two operands, a value that `try_evaluate` yields for an
-- expression is the value that `evaluate` yields, with the same fuel.
pub try_evaluate-Refines-evaluate :
    (graph : ExprGraph)
    → ArePaired graph
    → (fuel : ℕ) (id : ExprId) (v : ℤ) → try_evaluate graph fuel id ≡ known v
    → evaluate graph fuel id ≡ known v
unfolding try_evaluate evaluate
try_evaluate-Refines-evaluate graph paired zero id v e = cc
try_evaluate-Refines-evaluate graph paired (suc fuel) id v e =
    elim (Bool-cases (id == invalid_id)) [
      | inl bad ↦ cc (rw bad at e)
      | inr good ↦ rw good (
          node-Refines graph _ _ (try_evaluate-Refines-evaluate graph paired fuel) id
            (get_elem? graph.nodes id) (paired id) v (rw good at e))
    ]
