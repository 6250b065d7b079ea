-- ===== src/Expr/Valid/Logical.antt =====
-- The logical operations of src/ir/expr_builder.cpp on valid builders.
use mathlib.Core.List.{append_assoc}
use mathlib.Core.Path.{subst}
use mathlib.Core.Option.{some-injective}
use abys.Prelude.{
  ℕ, zero, suc, ◌+◌, ◌≤◌, ◌<◌, ◌≡◌, refl, ◌∙◌, ltb, lt→ltb, ◌==◌, ◌⊎◌, inl, inr, true, false, List,
  [], ◌∷◌, ◌++◌, All, All-append, All-map, length, length-append, some, get_elem?,
  get_elem?-append_cases, get_elem?-append_left, All-get_elem?, lt_of_get_elem?, set-append_right,
  arith, if◌then◌else◌, Bool-cases,
}
use abys.Run.{Returns, bind-Returns}
use abys.Expr.Graph.{ExprGraph, ExprId, Node, Op, blank, invalid_id}
use abys.Expr.Builder.{Builder, size, nodes, with_nodes, put_node, get_node}
use abys.Expr.Builder.Simple.{create_logical_binary, to_bit, create_or_reduce}
use abys.Expr.Valid.{IsWellFormed, IsValid, IsRanked, IsOperand, HasOp, Adds}
use abys.Expr.Valid.Rank.{append-IsRanked}
use abys.Expr.Valid.Append.{is_plain}
use abys.Expr.Valid.Simple.{unary_reduce_lem}
use abys.Expr.Valid.Made.{more, create_node_lem, node_at, node_at_lem}

-- nodes without entries in the tables, added together
append-IsWellFormed :
    (g : ExprGraph) (ns : List Node) (rank : ExprId → ℕ)
    → IsWellFormed g
    → IsRanked (g.nodes ++ ns) rank
    → length g.nodes + length ns ≤ invalid_id
    → All (λ node. is_plain node.op ≡ true) ns
    → IsWellFormed (record g { nodes = g.nodes ++ ns })
append-IsWellFormed g ns rank w r room plain = record {
  rank = rank;
  ranked = r;
  shared = omega (arith, length-append g.nodes ns, w.shared);
  fits = omega (arith, length-append g.nodes ns);
  inputs = λ name id h.
      let (m, there, e) = w.inputs name id h in
      (m, get_elem?-append_left g.nodes ns id (lt_of_get_elem? g.nodes id there) ∙ there, e);
  constants = λ i h. w.constants i (old Op.const refl i h);
  sequences = λ i h. w.sequences i (old Op.sequence refl i h);
}
  where
    old :
        (op : Op)
        → is_plain op ≡ false
        → (i : ExprId) → HasOp (g.nodes ++ ns) op i
        → HasOp g.nodes op i
    old op special i (m, there, e) = elim (get_elem?-append_cases g.nodes ns i m there) [
      | inl before ↦ (m, before, e)
      | inr (j, at, new) ↦ absurd (clash (All-get_elem? _ ns j plain new))
    ]
      where
        clash : is_plain m.op ≡ true → ⊥
        clash p = cc

-- The builder while the node is made: it stands for itself, with the reductions behind it.
abbrev pub held : Builder → List Node → Builder
held b ns = with_nodes b (nodes b ++ blank ∷ ns)

abbrev pub reduction : ExprId → Node
reduction a = record { op = Op.or_reduce; width = 1; sign = false; operands = a ∷ [] }

abbrev IsReduction : ℕ → Node → Type 0
IsReduction n node = (a : ExprId) × (a < n) × (node ≡ reduction a)

-- What `to_bit` yields: the operand itself, or a reduction of it at the end.
record Bit (b : Builder) (ns : List Node) (a : ExprId) (a' : ExprId) (t : Builder) : Type 0 where
  ns' : List Node
  state : t ≡ held b ns'
  reductions : All (IsReduction (size b)) ns → All (IsReduction (size b)) ns'
  keeps : length ns ≤ length ns'
  most : length ns' ≤ length ns + 1
  which : (a' ≡ a) ⊎ ((a' ≡ size b + 1 + length ns) × (length ns' ≡ length ns + 1))

size-held : (b : Builder) (ns : List Node) → size (held b ns) ≡ size b + 1 + length ns
size-held b ns = omega (arith, length-append (nodes b) (blank ∷ ns))

pub or_reduce-held :
    (b : Builder) (ns : List Node) (a : ExprId)
    → size b + 1 + length ns < invalid_id
    → create_or_reduce a (held b ns)
      ≡ some (size b + 1 + length ns, held b (ns ++ reduction a ∷ []))
unfolding create_or_reduce
or_reduce-held b ns a room =
    let e = size-held b ns in
    unary_reduce_lem (held b ns) (omega arith) Op.or_reduce a
    ∙ rw (e, append_assoc (nodes b) (blank ∷ ns) (reduction a ∷ []))

to_bit-Bit :
    (b : Builder) (ns : List Node) (a : ExprId)
    → a < size b
    → size b + 1 + length ns < invalid_id
    → Returns (Bit b ns a) (to_bit a (held b ns))
unfolding to_bit get_node
to_bit-Bit b ns a h room =
    rw (get_elem?-append_left (nodes b) (blank ∷ ns) a h, node_at_lem b a h)
      (elim (Bool-cases (ltb 1 (node_at b a h).width)) [
        | inl wide ↦
            rw (wide, or_reduce-held b ns a room)
              (record {
                ns' = ns ++ reduction a ∷ [];
                state = refl;
                reductions = λ r. All-append _ ns _ r ((a, h, refl), tt);
                keeps = omega (arith, length-append ns (reduction a ∷ []));
                most = omega (arith, length-append ns (reduction a ∷ []));
                which = inr (refl, length-append ns (reduction a ∷ []));
              })
        | inr narrow ↦ rw narrow (record {
          ns' = ns;
          state = refl;
          reductions = λ r. r;
          keeps = omega arith;
          most = omega arith;
          which = inl refl;
        })
      ])

pub put_node-held :
    (b : Builder) (ns : List Node) (node : Node)
    → put_node (size b) node (held b ns) ≡ some (tt, with_nodes b (nodes b ++ node ∷ ns))
unfolding put_node
put_node-held b ns node =
    let bound : ltb (size b) (size (held b ns)) ≡ true =
      lt→ltb _ _ (omega (arith, size-held b ns)) in
    rw (bound, set-append_right (nodes b) ns blank node)

-- An operand of the finished node: an old node, or a reduction behind it.
abbrev IsBit : ℕ → List Node → ExprId → Type 0
IsBit n ns o = (o < n) ⊎ ((n < o) × (o < n + 1 + length ns))

abbrev pub logical_node : Op → ExprId → ExprId → Node
logical_node op a c = record { op = op; width = 1; sign = false; operands = a ∷ c ∷ [] }

-- The node has the highest rank, its reductions the one below.
abbrev logical_rank : ℕ → ℕ → (ExprId → ℕ) → ExprId → ℕ
logical_rank n extra rank i = if ltb i n then rank i else if i == n then n + extra else n

module _ (old : List Node) (rank : ExprId → ℕ) (r : IsRanked old rank) (ns : List Node) where
  abbrev rank' : ExprId → ℕ
  rank' = logical_rank (length old) (length ns) rank

  bit-IsOperand :
      (node : Node) (o : ExprId)
      → IsBit (length old) ns o
      → IsOperand (old ++ node ∷ ns) rank' (length old + length ns) o
  bit-IsOperand node o (inl before) =
      inr (omega (arith, length-append old (node ∷ ns)), ground (arith, r.below o before))
  bit-IsOperand node o (inr (behind, bound)) =
      inr (omega (arith, length-append old (node ∷ ns)), ground arith)

  logical-IsRanked :
      (op : Op) (a c : ExprId)
      → IsBit (length old) ns a
      → IsBit (length old) ns c
      → All (IsReduction (length old)) ns
      → IsRanked (old ++ logical_node op a c ∷ ns) rank'
  logical-IsRanked op a c h k reds =
      append-IsRanked old (logical_node op a c ∷ ns) rank rank' (λ i lt. ground arith) r news
        (λ j lt. ground arith)
    where
      news :
          (j : ℕ) (m : Node)
          → get_elem? (logical_node op a c ∷ ns) j ≡ some m
          → All
              (IsOperand (old ++ logical_node op a c ∷ ns) rank' (rank' (length old + j)))
              m.operands
      news zero m e =
          let top : rank' (length old + 0) ≡ length old + length ns = ground arith in
          rw top (
            subst
              (λ x.
                All (IsOperand (old ++ logical_node op a c ∷ ns) rank' (length old + length ns))
                  x.operands)
              (some-injective (logical_node op a c) m e)
              (
                bit-IsOperand (logical_node op a c) a h,
                (bit-IsOperand (logical_node op a c) c k, tt),
              ))
      news (suc j) m e =
          let (x, lt, same) = All-get_elem? _ ns j reds e in
          let low : rank' (length old + suc j) ≡ length old = ground arith in
          rw (low, same)
            (
              inr (
                omega (arith, length-append old (logical_node op a c ∷ ns)),
                ground (arith, r.below x lt),
              ),
              tt,
            )

IsReduction-is_plain : (n : ℕ) (node : Node) → IsReduction n node → is_plain node.op ≡ true
IsReduction-is_plain n node (a, lt, e) = rw e

module _ (b : Builder) (v : IsValid b) (room : size b + 2 < invalid_id) where
  finished :
      (op : Op) (ns : List Node) (a c : ExprId)
      → is_plain op ≡ true
      → IsBit (size b) ns a
      → IsBit (size b) ns c
      → All (IsReduction (size b)) ns
      → length ns ≤ 2
      → Adds 3 b (size b) (with_nodes b (nodes b ++ logical_node op a c ∷ ns))
  finished op ns a c plain h k reds few =
      let total : length (nodes b ++ logical_node op a c ∷ ns) ≡ size b + 1 + length ns =
        omega (arith, length-append (nodes b) (logical_node op a c ∷ ns)) in
      record {
        valid = record {
          well_formed =
              append-IsWellFormed b.graph (logical_node op a c ∷ ns) _ v.well_formed
                (logical-IsRanked (nodes b) v.well_formed.rank v.well_formed.ranked ns op a c h k
                  reds)
                (omega arith) (plain, All-map _ _ (IsReduction-is_plain (size b)) ns reds);
          names = λ name id there. omega (arith, total, v.names name id there);
        };
        there = omega (arith, total);
        keeps = λ i m there.
            get_elem?-append_left (nodes b) (logical_node op a c ∷ ns) i
              (lt_of_get_elem? (nodes b) i there)
            ∙ there;
        grows = omega (arith, total);
        bounded = omega (arith, total);
      }

  -- A logical operation on two nodes that are there adds at most three nodes, where three
  -- identifiers are left and its operator is not that of a constant or a sequence: it has no fault,
  -- the result is a node of the new graph, the earlier nodes are kept, and the builder stays valid,
  -- although the new node is older than the reductions that it reads.
  pub create_logical_binary-Adds :
      (op : Op) (a c : ExprId)
      → is_plain op ≡ true
      → a < size b
      → c < size b
      → Returns (Adds 3 b) (create_logical_binary op a c b)
  unfolding create_logical_binary
  create_logical_binary-Adds op a c plain h k = rw (create_node_lem b (omega arith)) (
      bind-Returns (Adds 3 b) (Bit b [] a) (to_bit a) _ (held b [])
        (to_bit-Bit b [] a h (omega arith))
        (λ a' t p. rw p.state (
          bind-Returns (Adds 3 b) (Bit b p.ns' c) (to_bit c) _ (held b p.ns')
            (to_bit-Bit b p.ns' c k (omega (arith, p.most)))
            (λ c' u q.
              rw (q.state, put_node-held b q.ns' (logical_node op a' c'))
                (finished op q.ns' a' c' plain (first p.ns' q.ns' p.which q.keeps)
                  (second p.ns' q.ns' q.which) (q.reductions (p.reductions tt))
                  (omega (arith, p.most, q.most)))))))
    where
      first :
          {a' : ExprId} (l m : List Node)
          → (a' ≡ a) ⊎ ((a' ≡ size b + 1 + 0) × (length l ≡ 1))
          → length l ≤ length m
          → IsBit (size b) m a'
      first l m (inl e) le = inl (omega arith)
      first l m (inr (e, one)) le = inr (omega arith, omega arith)

      second :
          {c' : ExprId} (l m : List Node)
          → (c' ≡ c) ⊎ ((c' ≡ size b + 1 + length l) × (length m ≡ length l + 1))
          → IsBit (size b) m c'
      second l m (inl e) = inl (omega arith)
      second l m (inr (e, more)) = inr (omega arith, omega arith)
