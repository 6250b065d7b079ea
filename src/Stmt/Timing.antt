-- ===== src/Stmt/Timing.antt =====
-- The clock and the reset of a process, and its outputs: src/ir/stmt_builder.cpp and
-- include/abys/ir/stmt_builder.h.
use abys.Prelude.{
  str_eq, String, Bool, true, false, ◌&&◌, ◌||◌, not, Option, none, some, List, [], ◌∷◌, Assoc,
  lookup, insert, if◌then◌else◌,
}
use abys.Run.{Run, pure, check, found, gets, modify, for_each, ◌>>=◌, ◌>>◌}
use abys.Diagnostics.{DiagnosticId}
use abys.Expr.Graph.{ExprId, SignalWidth, EdgeKind, invalid_id}
use abys.Expr.Builder.Names.{InputSpec, get_input_spec, check_dependency}
use abys.Stmt.Builder.{
  StmtBuilder, TimingEvent, Policy, is_policy, is_level, in_expr_builder, report_error,
}

-- the parameters by reference that describe a signal
pub record Signal : Type 0 where
  pub name : String
  pub width : SignalWidth
  pub sign : Bool
  pub edge : EdgeKind

pub record TimingSpec : Type 0 where
  pub clk : Signal
  pub rst : Signal

unfoldable pub invalid_ff : String → Run StmtBuilder (Unit {0})
unfolding report_error
invalid_ff detail =
    modify (report_error DiagnosticId.lowering_invalid_ff_treated_as_combinational detail)

-- `return false;` behind a report
unfoldable pub reject : {A : Type 0} → String → Run StmtBuilder (Option A)
unfolding invalid_ff
reject detail = do invalid_ff detail; pure none

-- `if (!f(…)) { return false; }`
unfoldable pub or_return :
    {A B : Type 0} → (A → Run StmtBuilder (Option B)) → Option A → Run StmtBuilder (Option B)
or_return next none = pure none
or_return next (some a) = next a

-- The lambda `get_input_spec`: `none` is the result `false`, which was reported. What the references
-- hold then is left out.
unfoldable pub event_input : TimingEvent → Run StmtBuilder (Option (ExprId × Signal))
unfolding reject
event_input ev =
    let describe = do spec ← in_expr_builder (get_input_spec ev.expr_id); accept spec
    in if is_level ev.edge then reject "timing event is not edge-triggered" else describe
  where
    accept : Option InputSpec → Run StmtBuilder (Option (ExprId × Signal))
    accept none = reject "timing event is not a named input"
    accept (some spec) = pure (
        some (
          spec.input_id,
          record { name = spec.name; width = spec.width; sign = spec.sign; edge = ev.edge },
        ))

-- `for (kv : outputs) if (check_dependency(kv.second, input_id)) …`
unfoldable pub is_used : ExprId → List (String × ExprId) → Run StmtBuilder Bool
is_used input_id [] = pure false
is_used input_id ((name, id) ∷ rest) = do
  graph_nodes ← gets (λ (s : StmtBuilder). s.graph.nodes)
  hit ← found (check_dependency graph_nodes id input_id)
  if hit then pure true else is_used input_id rest

-- A signal that the outputs depend on is the reset, any other is the clock; there is one of each.
unfoldable pub assign_signal : Bool → Signal → TimingSpec → Run StmtBuilder (Option TimingSpec)
unfolding reject
assign_signal used signal spec =
    if used
    then (if str_eq spec.rst.name ""
        then pure (some (record spec { rst = signal }))
        else reject "ambiguous reset inference")
    else if str_eq spec.clk.name ""
    then pure (some (record spec { clk = signal }))
    else reject "ambiguous clock inference"

-- one round of the loop over both events
unfoldable pub assign_event :
    List (String × ExprId) → TimingEvent → TimingSpec → Run StmtBuilder (Option TimingSpec)
unfolding event_input is_used assign_signal or_return
assign_event outputs ev spec = do
  input ← event_input ev
  or_return
      (λ (input_id, signal). do used ← is_used input_id outputs; assign_signal used signal spec)
      input

unfoldable pub assign_events :
    List (String × ExprId) → List TimingEvent → TimingSpec → Run StmtBuilder (Option TimingSpec)
unfolding assign_event or_return
assign_events outputs [] spec = pure (some spec)
assign_events outputs (ev ∷ rest) spec = do
  assigned ← assign_event outputs ev spec
  or_return (assign_events outputs rest) assigned

unfoldable pub only_clock : TimingEvent → TimingSpec → Run StmtBuilder (Option TimingSpec)
unfolding event_input or_return
only_clock ev spec = do
  input ← event_input ev
  or_return (λ (input_id, signal). pure (some (record spec { clk = signal }))) input

-- by the number of the events
unfoldable pub spec_of_events :
    List (String × ExprId) → TimingSpec → List TimingEvent → Run StmtBuilder (Option TimingSpec)
unfolding assign_events only_clock reject
spec_of_events outputs before [] = reject "expected one or two timing events"
spec_of_events outputs before (ev ∷ []) = only_clock ev before
spec_of_events outputs before (first ∷ (second ∷ [])) =
    assign_events outputs (first ∷ second ∷ []) before
spec_of_events outputs before (first ∷ (second ∷ (third ∷ rest))) =
    reject "expected one or two timing events"

-- The caller passes what the references hold before; `none` is the result `false`, and what the
-- references hold then is left out.
unfoldable pub get_timing_spec :
    List (String × ExprId) → TimingSpec → Run StmtBuilder (Option TimingSpec)
unfolding spec_of_events
get_timing_spec outputs before = do
  events ← gets (λ (s : StmtBuilder). s.timing_events)
  spec_of_events outputs before events

-- What `for_each_output` finds of one output.
pub record OutputInfo : Type 0 where
  pub expr_id : ExprId
  pub seen_blocking : Bool
  pub seen_nonblocking : Bool

abbrev or_default : Option OutputInfo → OutputInfo
or_default none = record { expr_id = invalid_id; seen_blocking = false; seen_nonblocking = false }
or_default (some info) = info

-- the loop over the three vectors
unfoldable pub gather_outputs :
    List String → List Bool → List ExprId → Assoc OutputInfo → Option (Assoc OutputInfo)
gather_outputs [] kinds ids info = some info
gather_outputs (name ∷ names) [] ids info = none
gather_outputs (name ∷ names) (kind ∷ kinds) [] info = none
gather_outputs (name ∷ names) (kind ∷ kinds) (id ∷ ids) info =
    let entry = or_default (lookup name info) in
    gather_outputs names kinds ids (
      insert name
        (record {
          expr_id = id;
          seen_blocking = entry.seen_blocking || not kind;
          seen_nonblocking = entry.seen_nonblocking || kind;
        })
        info)

-- `for_each_output`: a name with both kinds is reported. The order of the walk is not specified, and
-- is an argument, as is what the caller does with an output.
unfoldable pub for_each_output :
    (Assoc OutputInfo → Assoc OutputInfo)
    → (String → ExprId → Run StmtBuilder (Unit {0}))
    → Run StmtBuilder (Unit {0})
unfolding gather_outputs report_error
for_each_output order func = do
  policy ← gets (λ (s : StmtBuilder). s.policy)
  check (not (is_policy policy Policy.undecided))
  ctx ← gets (λ (s : StmtBuilder). s.context)
  info ← found (gather_outputs ctx.output_names ctx.output_nonblocking ctx.output_ids [])
  for_each (order info) visit
  where
    visit : String × OutputInfo → Run StmtBuilder (Unit {0})
    visit (name, entry) =
        let report =
          modify
            (report_error DiagnosticId.lowering_mixed_assignment_treated_as_nonblocking name) in
        do
          if entry.seen_blocking && entry.seen_nonblocking then report else pure tt
          func name entry.expr_id
