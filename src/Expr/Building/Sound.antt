-- ===== src/Expr/Building/Sound.antt =====
-- What holds of sequences of the operations of src/ir/expr_builder.cpp.
use abys.Prelude.{
  ℕ, ◌+◌, ◌<◌, ◌≡◌, ◌≢◌, refl, String, some, Option, arith, get_elem?, length, Option,
}
use abys.Diagnostics.{Diagnostics}
use abys.Expr.Eval.Answer.{out_of_fuel}
use abys.Expr.Eval.Try.{try_evaluate}
use abys.Expr.Eval.Ends.{try_evaluate_terminates}
use abys.Expr.Valid.Initial.{new_builder-IsValid}
use abys.Run.{Returns, Returns-map}
use abys.Expr.Graph.{initial_graph, ExprId, Node, invalid_id}
use abys.Expr.Builder.{Builder, new_builder, size, nodes}
use abys.Expr.Builder.Names.{update_value, remove_input}
use abys.Expr.Building.{
  Builds, done, make, assign, forget, Operation, perform, Allowed, unary_reduce, unary, nary,
  logical, binary, shift, compare, mux, list, match_value, case_of, convert, concat, constant,
  index_constant, select, range, gather, first_assignment, next_assignment, masked_assignment, call,
  both_edge, input,
}
use abys.Expr.Valid.{IsValid, Adds}
use abys.Expr.Valid.Simple.{
  create_unary_reduce-Adds, create_unary-Adds, create_binary-Adds, create_shift-Adds,
  create_compare-Adds,
}
use abys.Expr.Valid.Nary.{IsNary, create_nary-IsNary}
use abys.Expr.Valid.Logical.{create_logical_binary-Adds}
use abys.Expr.Valid.Choice.{
  create_mux-Adds, create_list-Adds, create_convert-Adds, create_concat-Adds,
}
use abys.Expr.Valid.Match.{create_match-Adds}
use abys.Expr.Valid.Case.{create_case-Adds}
use abys.Expr.Valid.Constant.{find_or_create_const-Adds, find_or_create_index-Adds}
use abys.Expr.Valid.Index.{create_select-Adds}
use abys.Expr.Valid.Names.{find_or_create_input-Adds, update_value_lem, remove_input_lem}
use abys.Expr.Valid.Sequence.{start_sequence-Adds, extend_sequence-Adds}
use abys.Expr.Valid.Unpacked.{
  create_gather-Adds, create_both_edge-Adds, create_range-Adds, create_call-Adds,
  create_masked_assign-Adds,
}

-- The nodes that were there are kept, and the result is a node.
pub record Made (b : Builder) (id : ExprId) (b' : Builder) : Type 0 where
  pub most : ℕ
  pub adds : Adds most b id b'

made :
    (most : ℕ) (b : Builder) (o : Option (ExprId × Builder))
    → Returns (Adds most b) o
    → Returns (Made b) o
made most b o h =
    Returns-map (Made b) (Adds most b) o (λ id t p. record { most = most; adds = p }) h

module _ (b : Builder) (v : IsValid b) (room : size b + 6 < invalid_id) where
  -- Every allowed operation that makes a node succeeds on a valid builder with six identifiers left:
  -- no assertion fails, no access is out of range, the result is a node of the new graph, the
  -- earlier nodes are kept, and the builder stays valid.
  pub perform-Made : (op : Operation) → Allowed b op → Returns (Made b) (perform op b)
  unfolding perform Allowed
  perform-Made (unary_reduce op a) (plain, h) =
      made 1 b _ (create_unary_reduce-Adds b v (omega arith) op a plain h)
  perform-Made (unary op a) (plain, h) =
      made 1 b _ (create_unary-Adds b v (omega arith) op a plain h)
  perform-Made (nary op l) (plain, some_operand, h) =
      Returns-map (Made b) (IsNary b op l) _ (λ id t p. record { most = 1; adds = p.adds })
        (create_nary-IsNary b v (omega arith) op l plain some_operand h)
  perform-Made (logical op a c) (plain, h, k) =
      made 3 b _ (create_logical_binary-Adds b v (omega arith) op a c plain h k)
  perform-Made (binary op a c) (plain, h, k) =
      made 1 b _ (create_binary-Adds b v (omega arith) op a c plain h k)
  perform-Made (shift op a c) (plain, h, k) =
      made 1 b _ (create_shift-Adds b v (omega arith) op a c plain h k)
  perform-Made (compare op a c) (plain, h, k) =
      made 1 b _ (create_compare-Adds b v (omega arith) op a c plain h k)
  perform-Made (mux c p q) (h, hp, hq) =
      made 1 b _ (create_mux-Adds b v (omega arith) c p q h hp hq)
  perform-Made (list l) h = made 1 b _ (create_list-Adds b v (omega arith) l h)
  perform-Made (match_value selector value) (node, there, h, k, items, enough) =
      made (length node.operands + 1) b _
        (create_match-Adds b v selector value node there enough h items)
  perform-Made (case_of selector values items) (width, sign, h, counts, hv, hi, valid) =
      made 1 b _
        (create_case-Adds b v (omega arith) selector values items width sign h counts hv hi valid)
  perform-Made (convert a width sign) h =
      made 1 b _ (create_convert-Adds b v (omega arith) a width sign h)
  perform-Made (concat l sign) (some_operand, h) =
      made 1 b _ (create_concat-Adds b v (omega arith) l sign some_operand h)
  perform-Made (constant value width sign) h =
      made 1 b _ (find_or_create_const-Adds b v (omega arith) value width sign)
  perform-Made (index_constant z width sign) fits =
      made 1 b _ (find_or_create_index-Adds b v (omega arith) z width sign fits)
  perform-Made (select value index msb lsb) (node, there, wide, h, small) =
      made 6 b _ (create_select-Adds b v index node there wide value msb lsb h (omega arith) small)
  perform-Made (range value base width sign) (some_width, h, k) =
      made 1 b _ (create_range-Adds b v (omega arith) value base width sign some_width h k)
  perform-Made (gather l) (some_operand, h) =
      made 1 b _ (create_gather-Adds b v (omega arith) l some_operand h)
  perform-Made (first_assignment next base dims width sign) h =
      made 1 b _ (start_sequence-Adds b v (omega arith) next base dims width sign h)
  perform-Made (next_assignment current next) (node, last, there, is_sequence, next_there, same) =
      made 1 b _ (
        extend_sequence-Adds b v (omega arith) current next node last there is_sequence next_there
          same)
  perform-Made (masked_assignment current next base slice width sign) (low, high, hc, hn, hb) =
      made 2 b _ (
        create_masked_assign-Adds b v (omega arith) current next base slice width sign low high hc
          hn hb)
  perform-Made (call subr_id name l width sign) h =
      made 1 b _ (create_call-Adds b v (omega arith) subr_id name l width sign h)
  perform-Made (both_edge a) h = made 1 b _ (create_both_edge-Adds b v (omega arith) a h)
  perform-Made (input name width sign) h =
      made 1 b _ (find_or_create_input-Adds b v (omega arith) name width sign)

-- What holds of a run holds of what it yields.
yields :
    {A : Type 0} (P : A → Builder → Type 0) (o : Option (A × Builder)) (a : A) (t : Builder)
    → Returns P o
    → o ≡ some (a, t)
    → P a t
yields P o a t h e = rw e at h

pub Builds-IsValid : (c b : Builder) → IsValid b → Builds c b → IsValid c
Builds-IsValid c b v done = v
Builds-IsValid c b v (make b' op id t allowed room e rest) =
    Builds-IsValid c t
      (yields (Made b') (perform op b') id t (perform-Made b' v room op allowed) e).adds.valid rest
Builds-IsValid c b v (assign b' name id t there e rest) =
    Builds-IsValid c t
      (yields _ (update_value name id b') tt t (update_value_lem b' v name id there) e).0 rest
Builds-IsValid c b v (forget b' name t e rest) =
    Builds-IsValid c t (yields _ (remove_input name b') tt t (remove_input_lem b' v name) e).0 rest

update_value-graph :
    (b : Builder) (name : String) (id : ExprId)
    → Returns (λ u t. nodes t ≡ nodes b) (update_value name id b)
unfolding update_value
update_value-graph b name id = refl

remove_input-graph :
    (b : Builder) (name : String) → Returns (λ u t. nodes t ≡ nodes b) (remove_input name b)
unfolding remove_input
remove_input-graph b name = refl

-- A node of a valid builder is the same after any sequence of allowed operations, assignments to
-- names and removals of inputs, with six identifiers left for each operation.
pub Builds-keeps :
    (c b : Builder) (i : ExprId) (node : Node)
    → IsValid b
    → Builds c b
    → get_elem? (nodes b) i ≡ some node
    → get_elem? (nodes c) i ≡ some node
Builds-keeps c b i node v done e = e
Builds-keeps c b i node v (make b' op id t allowed room q rest) e =
    let p = yields (Made b') (perform op b') id t (perform-Made b' v room op allowed) q in
    Builds-keeps c t i node p.adds.valid rest (p.adds.keeps i node e)
Builds-keeps c b i node v (assign b' name id t there q rest) e =
    let p = yields _ (update_value name id b') tt t (update_value_lem b' v name id there) q in
    let same = yields _ (update_value name id b') tt t (update_value-graph b' name id) q in
    Builds-keeps c t i node p.0 rest (rw same e)
Builds-keeps c b i node v (forget b' name t q rest) e =
    let p = yields _ (remove_input name b') tt t (remove_input_lem b' v name) q in
    let same = yields _ (remove_input name b') tt t (remove_input-graph b' name) q in
    Builds-keeps c t i node p.0 rest (rw same e)

-- In a graph that allowed operations, assignments to names and removals of inputs build from the
-- initial graph, with six identifiers left for each operation, `try_evaluate` ends for every node
-- within a depth of calls of the number of nodes and one.
pub built_evaluates :
    (d : Diagnostics) (c : Builder) (id : ExprId)
    → Builds c (new_builder initial_graph d)
    → id < size c
    → try_evaluate c.graph (size c + 1) id ≢ out_of_fuel
built_evaluates d c id built there =
    let w = (Builds-IsValid c _ (new_builder-IsValid d) built).well_formed in
    try_evaluate_terminates c.graph (w.rank, w.ranked) id there
