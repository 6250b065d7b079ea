-- ===== src/Expr/Valid/Rank.antt =====
-- The ranks of the nodes that are added to a graph of src/ir/expr_builder.cpp.
use abys.Prelude.{
  ℕ, zero, suc, ◌+◌, ◌<◌, ◌≡◌, ◌⊎◌, inl, inr, ltb, ◌==◌, some, List, [], ◌∷◌, ◌++◌, All, All-map,
  length, length-append, get_elem?, get_elem?-append_cases, lt_of_get_elem?, arith, ◌-◌, Bool-cases,
  tests, if◌then◌else◌, none-ne-some,
}
use mathlib.Core.Path.{subst}
use mathlib.Core.Option.{some-injective}
use abys.Expr.Graph.{ExprId, Node, invalid_id}
use abys.Expr.Valid.{IsOperand, IsRanked}

-- An operand that a caller passes: left out, or a node that is there.
abbrev pub Exists : ℕ → ExprId → Type 0
Exists size o = (o ≡ invalid_id) ⊎ (o < size)

module _ (nodes ns : List Node) (rank rank' : ExprId → ℕ) where
  module _ (same : (i : ExprId) → i < length nodes → rank' i ≡ rank i) where
    IsOperand-append :
        (i : ExprId)
        → i < length nodes
        → (o : ExprId) → IsOperand nodes rank (rank i) o
        → IsOperand (nodes ++ ns) rank' (rank' i) o
    IsOperand-append i h o (inl invalid) = inl invalid
    IsOperand-append i h o (inr (there, lower)) =
        inr (omega (arith, length-append nodes ns), omega (arith, same i h, same o there))

    below_all :
        ((i : ExprId) → i < length nodes → rank i < length nodes)
        → ((j : ℕ) → j < length ns → rank' (length nodes + j) < length nodes + length ns)
        → (i : ExprId) → i < length (nodes ++ ns)
        → rank' i < length (nodes ++ ns)
    below_all old new i h =
        let total = length-append nodes ns in
        elim (Bool-cases (ltb i (length nodes))) [
          | inl left ↦ omega (tests, total, same i, old i)
          | inr right ↦
              let j = i - length nodes in
              let e : i ≡ length nodes + j = ground arith in
              let h' : j < length ns = omega arith in
              let k : rank' i < length nodes + length ns = rw e (new j h') in omega arith
        ]

    -- The new nodes have operands of lower ranks, and ranks that are not too large.
    pub append-IsRanked :
        IsRanked nodes rank
        → ((j : ℕ) (node : Node)
            → get_elem? ns j ≡ some node
            → All (IsOperand (nodes ++ ns) rank' (rank' (length nodes + j))) node.operands)
        → ((j : ℕ) → j < length ns → rank' (length nodes + j) < length nodes + length ns)
        → IsRanked (nodes ++ ns) rank'
    append-IsRanked r news below = record {
      falls = λ i node there. elim (get_elem?-append_cases nodes ns i node there) [
        | inl old ↦
            let h = lt_of_get_elem? nodes i old in
            All-map _ _ (IsOperand-append i h) node.operands (r.falls i node old)
        | inr (j, e, new) ↦ rw e (news j node new)
      ];
      below = λ i h. below_all r.below below i h;
    }

-- The rank of one new node: above all others.
abbrev pub top_rank : ℕ → (ExprId → ℕ) → ExprId → ℕ
top_rank n rank i = if i == n then n else rank i

All-Exists-top :
    (nodes : List Node) (node : Node) (rank : ExprId → ℕ)
    → ((i : ExprId) → i < length nodes → rank i < length nodes)
    → (o : ExprId) → Exists (length nodes) o
    → IsOperand (nodes ++ node ∷ []) (top_rank (length nodes) rank) (length nodes) o
All-Exists-top nodes node rank below o (inl invalid) = inl invalid
All-Exists-top nodes node rank below o (inr there) =
    inr (omega (arith, length-append nodes (node ∷ [])), ground (arith, below o there))

-- A node whose operands are there can be added.
pub add-IsRanked :
    (nodes : List Node) (rank : ExprId → ℕ)
    → IsRanked nodes rank
    → (node : Node) → All (Exists (length nodes)) node.operands
    → IsRanked (nodes ++ node ∷ []) (top_rank (length nodes) rank)
add-IsRanked nodes rank r node h =
    append-IsRanked nodes (node ∷ []) rank (top_rank (length nodes) rank) (λ i lt. ground arith) r
      news (λ j lt. ground arith)
  where
    news :
        (j : ℕ) (m : Node)
        → get_elem? (node ∷ []) j ≡ some m
        → All
            (IsOperand
              (nodes ++ node ∷ [])
              (top_rank (length nodes) rank)
              (top_rank (length nodes) rank (length nodes + j)))
            m.operands
    news zero m e =
        let top : top_rank (length nodes) rank (length nodes + 0) ≡ length nodes = ground arith in
        rw top (
          subst
            (λ x.
              All (IsOperand (nodes ++ node ∷ []) (top_rank (length nodes) rank) (length nodes))
                x.operands)
            (some-injective node m e)
            (All-map _ _ (All-Exists-top nodes node rank r.below) node.operands h))
    news (suc j) m e = absurd (none-ne-some m e)
