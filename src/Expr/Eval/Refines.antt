-- ===== src/Expr/Eval/Refines.antt =====
-- One evaluation yields at least the values of another: the rules for the parts of a step of
-- src/ir/expr_builder.cpp.
use abys.Prelude.{ℕ, ◌≡◌, refl, Option, none, some, get_elem?}
use abys.Expr.Graph.{ExprGraph, ExprId, Node}
use abys.Expr.Eval.Answer.{Answer, known, unknown, fault, out_of_fuel, read, ◌>>=◌, both}
use abys.Expr.Eval.Steps.{at_operand, at_node}

abbrev pub Refines : {A : Type 0} → Answer A → Answer A → Type 0
Refines {A} m n = (v : A) → m ≡ known v → n ≡ known v

pub bind-Refines :
    {A B : Type 0} (m n : Answer A) (f g : A → Answer B)
    → Refines m n
    → ((a : A) → Refines (f a) (g a))
    → Refines (m >>= f) (n >>= g)
bind-Refines (known a) n f g h k v e = let q = h a refl in rw q (k a v e)
bind-Refines unknown n f g h k v e = cc
bind-Refines fault n f g h k v e = cc
bind-Refines out_of_fuel n f g h k v e = cc

-- `both` looks at the same values as one operand after the other.
pub both-Refines :
    {A B : Type 0} (m n m' n' : Answer A) (f g : A → A → Answer B)
    → Refines m m'
    → Refines n n'
    → ((a b : A) → Refines (f a b) (g a b))
    → Refines (both m n f) (m' >>= λ a. n' >>= g a)
both-Refines (known a) n m' n' f g h k l v e =
    let q = h a refl in rw q (bind-Refines n n' (f a) (g a) k (l a) v e)
both-Refines unknown (known b) m' n' f g h k l v e = cc
both-Refines unknown unknown m' n' f g h k l v e = cc
both-Refines unknown fault m' n' f g h k l v e = cc
both-Refines unknown out_of_fuel m' n' f g h k l v e = cc
both-Refines fault n m' n' f g h k l v e = cc
both-Refines out_of_fuel n m' n' f g h k l v e = cc

pub read-Refines :
    {A B : Type 0} (o : Option A) (f g : A → Answer B)
    → ((a : A) → Refines (f a) (g a))
    → Refines (read o f) (read o g)
read-Refines none f g h v e = cc
read-Refines (some a) f g h v e = h a v e

module _ {B : Type 0} (f g : ExprId → Answer B) (h : (id : ExprId) → Refines (f id) (g id)) where
  pub at_operand-Refines :
      (node : Node) (k : ℕ) → Refines (at_operand node k f) (at_operand node k g)
  unfolding at_operand
  at_operand-Refines node k = read-Refines (get_elem? node.operands k) f g h

module _ {B : Type 0} (f g : Node → Answer B) (h : (node : Node) → Refines (f node) (g node)) where
  pub at_node-Refines :
      (graph : ExprGraph) (id : ExprId) → Refines (at_node graph id f) (at_node graph id g)
  unfolding at_node
  at_node-Refines graph id = read-Refines (get_elem? graph.nodes id) f g h

pub Refines-refl : {A : Type 0} (m : Answer A) → Refines m m
Refines-refl m v e = e

pub unknown-Refines : {A : Type 0} (n : Answer A) → Refines unknown n
unknown-Refines n v e = cc
