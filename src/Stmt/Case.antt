-- ===== src/Stmt/Case.antt =====
-- The merge of the branches of a case statement: src/ir/stmt_builder.cpp. The order in which an
-- `unordered_map` is walked is not specified, and is an argument.
use abys.Prelude.{
  ℕ, zero, suc, ◌+◌, ◌-◌, ◌==◌, leb, String, Bool, false, ◌&&◌, ◌||◌, not, Option, none, some, List,
  [], ◌∷◌, get_elem?, set, Assoc, lookup, insert, length, if◌then◌else◌,
}
use abys.Run.{Run, pure, check, found, gets, modify, for_each, ◌>>=◌, ◌>>◌}
use abys.Expr.Graph.{ExprId, invalid_id}
use abys.Expr.Builder.Choice.{create_case}
use abys.Expr.Builder.Unpacked.{is_sequence, create_sequence}
use abys.Expr.Builder.Names.{update_value}
use abys.Stmt.Builder.{StmtBuilder, Context, in_expr_builder, fallback_value, add_output, schedule}
use abys.Stmt.Outputs.{is_mixed}
use abys.Stmt.Conditional.{value_or_input}

-- `vector::resize(n, value)`
unfoldable pub resize : {A : Type 0} → ℕ → A → List A → List A
resize zero value xs = []
resize (suc n) value [] = value ∷ resize n value []
resize (suc n) value (x ∷ xs) = x ∷ resize n value xs

unfoldable pub resize_and_set : {A : Type 0} → ℕ → A → A → List A → List A
unfolding resize
resize_and_set j default value xs = set (resize (suc j) default xs) j value

-- What the branches assign to one output: `case_output_ids`, `case_output_nonblocking` and
-- `case_output_sequence` at its index.
pub record CaseOutput : Type 0 where
  pub ids : List ExprId
  pub nonblocking : List Bool
  pub sequence : List Bool

abbrev or_new : Option CaseOutput → CaseOutput
or_new none = record { ids = []; nonblocking = []; sequence = [] }
or_new (some output) = output

unfoldable pub record_output : ℕ → ExprId → Bool → Bool → CaseOutput → CaseOutput
unfolding resize_and_set
record_output j id nonblocking sequence output = record {
  ids = resize_and_set j invalid_id id output.ids;
  nonblocking = resize_and_set j false nonblocking output.nonblocking;
  sequence = resize_and_set j false sequence output.sequence;
}

-- the outputs of branch `j`, from index `i`
unfoldable pub collect_outputs :
    ℕ → Context → List String → ℕ → Assoc CaseOutput → Run StmtBuilder (Assoc CaseOutput)
unfolding record_output
collect_outputs j ctx [] i outputs = pure outputs
collect_outputs j ctx (name ∷ rest) i outputs = do
  id ← found (get_elem? ctx.output_ids i)
  kind ← found (get_elem? ctx.output_nonblocking i)
  sequence ← in_expr_builder (is_sequence id)
  let output = record_output j id kind sequence (or_new (lookup name outputs))
  collect_outputs j ctx rest (suc i) (insert name output outputs)

unfoldable pub collect_branches :
    List Context → ℕ → Assoc CaseOutput → Run StmtBuilder (Assoc CaseOutput)
unfolding collect_outputs
collect_branches [] j outputs = pure outputs
collect_branches (ctx ∷ rest) j outputs = do
  next ← collect_outputs j ctx ctx.output_names 0 outputs
  collect_branches rest (suc j) next

-- The kind of an output, and the source of its properties where it is a sequence.
pub record CaseKind : Type 0 where
  pub is_nonblocking : Bool
  pub is_sequence : Bool
  pub sequence_source : ExprId

abbrev kind_of : ExprId → Bool → Bool → CaseKind
kind_of id nonblocking sequence = record {
  is_nonblocking = nonblocking;
  is_sequence = sequence;
  sequence_source = if sequence then id else invalid_id;
}

-- The loop that asserts that all branches with the output agree. `seen` is the kind so far.
unfoldable pub same_kind :
    CaseOutput → List ExprId → ℕ → Option CaseKind → Run StmtBuilder (Option CaseKind)
same_kind output [] j seen = pure seen
same_kind output (id ∷ rest) j seen =
    let skip = same_kind output rest (suc j) seen in
    let use_it = do
      nonblocking ← found (get_elem? output.nonblocking j)
      sequence ← found (get_elem? output.sequence j)
      kind ← compare nonblocking sequence seen
      same_kind output rest (suc j) (some kind)
    in if id == invalid_id then skip else use_it
  where
    compare : Bool → Bool → Option CaseKind → Run StmtBuilder CaseKind
    compare nonblocking sequence none = pure (kind_of id nonblocking sequence)
    compare nonblocking sequence (some kind) = do
      check (not (is_mixed kind.is_nonblocking nonblocking))
      check (not (is_mixed kind.is_sequence sequence))
      pure kind

-- the first branch that assigns the output
unfoldable pub first_valid : List ExprId → Option ExprId
first_valid [] = none
first_valid (id ∷ rest) = if id == invalid_id then first_valid rest else some id

-- the value that a branch without the output leaves in place
unfoldable pub base_value : String → ExprId → List ExprId → Run StmtBuilder ExprId
unfolding first_valid value_or_input
base_value name current ids = base (first_valid ids)
  where
    base : Option ExprId → Run StmtBuilder ExprId
    base none = pure current
    base (some id) = value_or_input name current id

-- The missing values are filled in, but for the default branch of a full case.
unfoldable pub fill_values : ExprId → Bool → List ExprId → List ExprId
fill_values current full_case [] = []
fill_values current full_case (id ∷ []) =
    (if id == invalid_id && not full_case then current else id) ∷ []
fill_values current full_case (id ∷ (next ∷ rest)) =
    (if id == invalid_id then current else id) ∷ fill_values current full_case (next ∷ rest)

unfoldable pub without_last : List ExprId → List ExprId
without_last [] = []
without_last (id ∷ []) = []
without_last (id ∷ (next ∷ rest)) = id ∷ without_last (next ∷ rest)

unfoldable pub merge_output :
    ExprId → List ExprId → ℕ → Bool → String × CaseOutput → Run StmtBuilder (Unit {0})
unfolding resize same_kind base_value fill_values without_last schedule add_output
merge_output selector_id case_values branch_count full_case (name, found_output) = do
  current ← gets (fallback_value name)
  let output : CaseOutput = record {
    ids = resize branch_count invalid_id found_output.ids;
    nonblocking = resize branch_count false found_output.nonblocking;
    sequence = found_output.sequence;
  }
  seen ← same_kind output output.ids 0 none
  kind ← found seen
  base ← if kind.is_sequence then pure current else base_value name current output.ids
  let filled = if kind.is_sequence then output.ids else fill_values base full_case output.ids
  check (not full_case || length filled == length case_values + 1)
  let ids = if full_case then without_last filled else filled
  value ← in_expr_builder (create_case selector_id case_values ids)
  new_id ←
      if kind.is_sequence
      then in_expr_builder (create_sequence base value kind.sequence_source)
      else pure value
  if kind.is_nonblocking then pure tt else in_expr_builder (update_value name new_id)
  schedule name new_id
  add_output name kind.is_nonblocking new_id

-- `context_stack` has the newest context first, the branches are walked from the oldest. Above the size
-- of the stack the difference wraps around, and the first read is out of range.
unfoldable pub merge_case :
    (Assoc CaseOutput → Assoc CaseOutput)
    → ExprId
    → List ExprId
    → ℕ
    → Bool
    → Run StmtBuilder (Unit {0})
unfolding collect_branches merge_output
merge_case order selector_id case_values stack_index full_case = do
  stack ← gets (λ (s : StmtBuilder). s.context_stack)
  check (leb stack_index (length stack))
  let branch_count = length stack - stack_index
  let branches = oldest_first (first_of branch_count stack) []
  outputs ← collect_branches branches 0 []
  for_each (order outputs) (merge_output selector_id case_values branch_count full_case)
  modify (λ (s : StmtBuilder). record s { context_stack = behind branch_count s.context_stack })
  where
    oldest_first : List Context → List Context → List Context
    oldest_first [] done = done
    oldest_first (c ∷ rest) done = oldest_first rest (c ∷ done)

    first_of : ℕ → List Context → List Context
    first_of zero xs = []
    first_of (suc n) [] = []
    first_of (suc n) (x ∷ xs) = x ∷ first_of n xs

    behind : ℕ → List Context → List Context
    behind zero xs = xs
    behind (suc n) [] = []
    behind (suc n) (x ∷ xs) = behind n xs
