-- ===== src/Stmt/Conditional.antt =====
-- The merge of the two branches of a conditional: src/ir/stmt_builder.cpp.
use abys.Prelude.{
  ℕ, ◌==◌, String, Bool, true, false, not, Option, none, some, List, [], ◌∷◌, is_empty, get_elem?,
  set, Assoc, lookup, insert, length, ltb, if◌then◌else◌,
}
use abys.Run.{Run, pure, check, found, gets, modify, for_each, ◌>>=◌, ◌>>◌}
use abys.Expr.Graph.{ExprId, invalid_id}
use abys.Expr.Builder.{get_width, get_sign}
use abys.Expr.Builder.Choice.{create_mux}
use abys.Expr.Builder.Unpacked.{is_sequence, create_sequence}
use abys.Expr.Builder.Names.{find_or_create_input}
use abys.Stmt.Builder.{
  StmtBuilder, Context, in_expr_builder, fallback_value, transfer_output, pop_stack,
}
use abys.Stmt.Outputs.{report_mixed, is_mixed, collect_last_output_indices, contains}

-- the names at some indices
unfoldable pub names_at : List String → List ℕ → Option (List String)
names_at names [] = some []
names_at names (i ∷ rest) = cons (get_elem? names i) (names_at names rest)
  where
    cons : Option String → Option (List String) → Option (List String)
    cons (some n) (some ns) = some (n ∷ ns)
    cons (some n) none = none
    cons none ns = none

-- The outputs of the else branch that the then branch has too, with their index.
unfoldable pub shared_outputs : List String → List String → List ℕ → Option (Assoc ℕ)
unfolding contains
shared_outputs then_outputs names [] = some []
shared_outputs then_outputs names (i ∷ rest) =
    add (get_elem? names i) (shared_outputs then_outputs names rest)
  where
    add : Option String → Option (Assoc ℕ) → Option (Assoc ℕ)
    add (some name) (some m) = if contains name then_outputs then some (insert name i m) else some m
    add (some name) none = none
    add none m = none

-- The current value of a name, or its input of the shape of a value for it.
unfoldable pub value_or_input : String → ExprId → ExprId → Run StmtBuilder ExprId
value_or_input name current like =
    let make = do
      width ← in_expr_builder (get_width like)
      sign ← in_expr_builder (get_sign like)
      in_expr_builder (find_or_create_input name width sign)
    in if current == invalid_id then make else pure current

-- The multiplexer for an output of the then branch, and the branch's kinds.
unfoldable pub then_value :
    ExprId
    → Context
    → Context
    → ℕ
    → String
    → ExprId
    → Bool
    → Option ℕ
    → Run StmtBuilder (ExprId × Context)
unfolding value_or_input
then_value cond_id then_ctx else_ctx i name then_id sequence (some j) = do
  else_id ← found (get_elem? else_ctx.output_ids j)
  else_sequence ← in_expr_builder (is_sequence else_id)
  check (not (is_mixed else_sequence sequence))
  new_id ← in_expr_builder (create_mux cond_id then_id else_id)
  then_kind ← found (get_elem? then_ctx.output_nonblocking i)
  else_kind ← found (get_elem? else_ctx.output_nonblocking j)
  let mixed = do
    modify (report_mixed name)
    pure (new_id, record then_ctx { output_nonblocking = set then_ctx.output_nonblocking i true })
  if is_mixed then_kind else_kind then mixed else pure (new_id, then_ctx)
then_value cond_id then_ctx else_ctx i name then_id false none = do
  current ← gets (fallback_value name)
  else_id ← value_or_input name current then_id
  new_id ← in_expr_builder (create_mux cond_id then_id else_id)
  pure (new_id, then_ctx)
then_value cond_id then_ctx else_ctx i name then_id true none = do
  new_id ← in_expr_builder (create_mux cond_id then_id invalid_id)
  pure (new_id, then_ctx)

-- The first loop. Only the kind at `i` of the then branch changes, and the kind at `j` of the else
-- branch, which no later round reads.
unfoldable pub merge_then : ExprId → Context → Context → Assoc ℕ → ℕ → Run StmtBuilder (Unit {0})
unfolding then_value
merge_then cond_id then_ctx else_ctx shared i = do
  check (is_empty then_ctx.local_names)
  then_id ← found (get_elem? then_ctx.output_ids i)
  sequence ← in_expr_builder (is_sequence then_id)
  name ← found (get_elem? then_ctx.output_names i)
  (new_id, from) ← then_value cond_id then_ctx else_ctx i name then_id sequence (lookup name shared)
  check (not (new_id == invalid_id))
  current_id ← gets (fallback_value name)
  stored_id ←
      if sequence then in_expr_builder (create_sequence current_id new_id then_id) else pure new_id
  transfer_output from i stored_id

unfoldable pub has_key : Option ℕ → Bool
has_key none = false
has_key (some j) = true

-- the second loop, for the outputs that the then branch has not
unfoldable pub merge_else : ExprId → Context → Assoc ℕ → ℕ → Run StmtBuilder (Unit {0})
unfolding value_or_input has_key
merge_else cond_id else_ctx shared i = do
  check (is_empty else_ctx.local_names)
  name ← found (get_elem? else_ctx.output_names i)
  let merge = do
    then_id ← gets (fallback_value name)
    else_id ← found (get_elem? else_ctx.output_ids i)
    sequence ← in_expr_builder (is_sequence else_id)
    let assign = do
      value ← in_expr_builder (create_mux cond_id invalid_id else_id)
      in_expr_builder (create_sequence then_id value else_id)
    let choose = do
      base ← value_or_input name then_id else_id
      in_expr_builder (create_mux cond_id base else_id)
    new_id ← if sequence then assign else choose
    transfer_output else_ctx i new_id
  if has_key (lookup name shared) then pure tt else merge

unfoldable pub merge_conditional : ExprId → Run StmtBuilder (Unit {0})
unfolding merge_then merge_else names_at shared_outputs
merge_conditional cond_id = do
  count ← gets (λ (s : StmtBuilder). length s.context_stack)
  check (ltb 1 count)
  else_branch ← pop_stack
  then_branch ← pop_stack
  (then_indices, then_ctx) ← collect_last_output_indices then_branch
  (else_indices, else_ctx) ← collect_last_output_indices else_branch
  then_outputs ← found (names_at then_ctx.output_names then_indices)
  shared ← found (shared_outputs then_outputs else_ctx.output_names else_indices)
  for_each then_indices (merge_then cond_id then_ctx else_ctx shared)
  for_each else_indices (merge_else cond_id else_ctx shared)
