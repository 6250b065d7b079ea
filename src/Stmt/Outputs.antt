-- ===== src/Stmt/Outputs.antt =====
-- The last assignment to each output of a block, and the end of a block: src/ir/stmt_builder.cpp.
use abys.Prelude.{
  ℕ, suc, ◌==◌, str_eq, String, Bool, true, false, not, Option, none, some, List, [], ◌∷◌,
  get_elem?, set, Assoc, lookup, insert, erase, if◌then◌else◌,
}
use abys.Run.{Run, pure, found, modify, for_each, ◌>>=◌, ◌>>◌}
use abys.Diagnostics.{DiagnosticId}
use abys.Stmt.Builder.{
  StmtBuilder, Context, Policy, is_policy, report_warning, report_error, pop_context,
  transfer_output,
}

-- blocking and nonblocking assignments to one name
unfoldable pub report_mixed : String → StmtBuilder → StmtBuilder
unfolding report_warning report_error
report_mixed name s =
    if not (is_policy s.policy Policy.ff)
    then report_error DiagnosticId.lowering_mixed_assignment_treated_as_nonblocking name s
    else report_warning DiagnosticId.lowering_mixed_assignment_treated_as_nonblocking name s

abbrev pub is_mixed : Bool → Bool → Bool
is_mixed true b = not b
is_mixed false b = b

-- What the first loop of `collect_last_output_indices` keeps.
pub record Last : Type 0 where
  pub last_index : Assoc ℕ
  pub nonblocking : List Bool

-- The name at `i` was last seen at `j`, or was not seen.
unfoldable pub note_output : Option ℕ → String → ℕ → Last → Run StmtBuilder Last
unfolding report_mixed
note_output none name i last = pure (record last { last_index = insert name i last.last_index })
note_output (some j) name i last = do
  before ← found (get_elem? last.nonblocking j)
  now ← found (get_elem? last.nonblocking i)
  let moved = insert name i last.last_index
  let mixed = do
    modify (report_mixed name)
    pure (record { last_index = moved; nonblocking = set (set last.nonblocking j true) i true })
  if is_mixed before now then mixed else pure (record last { last_index = moved })

unfoldable pub note_outputs : List String → ℕ → Last → Run StmtBuilder Last
unfolding note_output
note_outputs [] i last = pure last
note_outputs (name ∷ rest) i last = do
  next ← note_output (lookup name last.last_index) name i last
  note_outputs rest (suc i) next

-- the second loop
unfoldable pub is_index : Option ℕ → ℕ → Bool
is_index none i = false
is_index (some j) i = j == i

unfoldable pub select_indices : Assoc ℕ → List String → ℕ → List ℕ
unfolding is_index
select_indices last_index [] i = []
select_indices last_index (name ∷ rest) i =
    let later = select_indices last_index rest (suc i) in
    if is_index (lookup name last_index) i then i ∷ later else later

-- The indices, and the context with the kinds that the first loop corrects.
unfoldable pub collect_last_output_indices : Context → Run StmtBuilder (List ℕ × Context)
unfolding note_outputs select_indices
collect_last_output_indices ctx = do
  last ←
      note_outputs ctx.output_names 0
        (record { last_index = []; nonblocking = ctx.output_nonblocking })
  pure (
    select_indices last.last_index ctx.output_names 0,
    record ctx { output_nonblocking = last.nonblocking },
  )

unfoldable pub contains : String → List String → Bool
contains name [] = false
contains name (n ∷ rest) = if str_eq n name then true else contains name rest

-- `child.expr_builder.remove_input(name)`: the graph is shared.
unfoldable pub forget_local : String → Run StmtBuilder (Unit {0})
forget_local name = modify (λ (s : StmtBuilder). record s {
  graph = record s.graph { inputs = erase name s.graph.inputs };
})

unfoldable pub transfer_unless_local : Context → ℕ → Run StmtBuilder (Unit {0})
unfolding contains
transfer_unless_local child i = do
  name ← found (get_elem? child.output_names i)
  let transfer = do id ← found (get_elem? child.output_ids i); transfer_output child i id
  if contains name child.local_names then pure tt else transfer

unfoldable pub merge_context : Run StmtBuilder (Unit {0})
unfolding forget_local transfer_unless_local collect_last_output_indices
merge_context = do
  child ← pop_context
  for_each child.local_names forget_local
  (indices, kinds) ← collect_last_output_indices child
  for_each indices (transfer_unless_local kinds)
