-- ===== src/Stmt/Builder.antt =====
-- The state of a `StmtBuilder`, its policy and its contexts: src/ir/stmt_builder.cpp and
-- include/abys/ir/stmt_builder.h.
use abys.Prelude.{
  ℕ, ◌==◌, String, Bool, true, false, ◌&&◌, not, Option, none, some, List, [], ◌∷◌, ◌++◌, is_empty,
  length, get_elem?, Assoc, lookup, insert, if◌then◌else◌,
}
use abys.Run.{Run, pure, found, modify, ◌>>=◌, ◌>>◌}
use abys.Diagnostics.{Diagnostics, DiagnosticId, warning, error}
use abys.Expr.Graph.{ExprGraph, ExprId, EdgeKind}
use abys.Expr.Builder.{Builder}
use abys.Expr.Builder.Names.{get_current_value, update_value}

pub data Policy : Type 0 where
  comb latch comb_or_latch ff undecided : Policy

-- What a block has assigned: the names, the kinds and the values of its outputs in order, its local
-- variables, and what a name is going to be. `name_map` is the state of the block's own `ExprBuilder`,
-- whose graph and diagnostics are shared.
pub record Context : Type 0 where
  pub name_map : Assoc ExprId
  pub output_names : List String
  pub output_nonblocking : List Bool
  pub output_ids : List ExprId
  pub local_names : List String
  pub scheduled_assignments : Assoc ExprId

pub record TimingEvent : Type 0 where
  pub edge : EdgeKind
  pub expr_id : ExprId
  pub iff_id : ExprId

-- The vector `contexts_` is never empty: its last element is `context`, the others are `outer`, the last one first, and `context_stack` has its last element first, too.
pub record StmtBuilder : Type 0 where
  pub graph : ExprGraph
  pub diagnostics : Diagnostics
  pub policy : Policy
  pub context : Context
  pub outer : List Context
  pub context_stack : List Context
  pub timing_events : List TimingEvent

abbrev pub new_context : Assoc ExprId → Assoc ExprId → Context
new_context name_map scheduled = record {
  name_map = name_map;
  output_names = [];
  output_nonblocking = [];
  output_ids = [];
  local_names = [];
  scheduled_assignments = scheduled;
}

unfoldable pub new_stmt_builder : ExprGraph → Diagnostics → StmtBuilder
new_stmt_builder graph diagnostics = record {
  graph = graph;
  diagnostics = diagnostics;
  policy = Policy.undecided;
  context = new_context [] [];
  outer = [];
  context_stack = [];
  timing_events = [];
}

-- `get_expr_builder`: an operation of the current context's expression builder.
abbrev pub expr_builder : StmtBuilder → Builder
expr_builder s = record {
  graph = s.graph;
  diagnostics = s.diagnostics;
  name_map = s.context.name_map;
}

abbrev pub with_expr_builder : StmtBuilder → Builder → StmtBuilder
with_expr_builder s b = record s {
  graph = b.graph;
  diagnostics = b.diagnostics;
  context = record s.context { name_map = b.name_map };
}

abbrev resume : {A : Type 0} → StmtBuilder → Option (A × Builder) → Option (A × StmtBuilder)
resume s none = none
resume s (some (a, b)) = some (a, with_expr_builder s b)

abbrev pub in_expr_builder : {A : Type 0} → Run Builder A → Run StmtBuilder A
in_expr_builder m s = resume s (m (expr_builder s))

abbrev modify_context : (Context → Context) → Run StmtBuilder (Unit {0})
modify_context f = modify (λ (s : StmtBuilder). record s { context = f s.context })

unfoldable pub add_output : String → Bool → ExprId → Run StmtBuilder (Unit {0})
add_output name nonblocking id = modify_context (λ (c : Context). record c {
  output_names = c.output_names ++ name ∷ [];
  output_nonblocking = c.output_nonblocking ++ nonblocking ∷ [];
  output_ids = c.output_ids ++ id ∷ [];
})

-- `scheduled_assignments()[name] = id`
unfoldable pub schedule : String → ExprId → Run StmtBuilder (Unit {0})
schedule name id =
    modify_context
      (λ (c : Context). record c { scheduled_assignments = insert name id c.scheduled_assignments })

unfoldable pub add_local_variable : String → Run StmtBuilder (Unit {0})
add_local_variable name =
    modify_context (λ (c : Context). record c { local_names = name ∷ c.local_names })

unfoldable pub get_context_stack_index : StmtBuilder → ℕ
get_context_stack_index s = length s.context_stack

unfoldable pub set_policy : Policy → StmtBuilder → StmtBuilder
set_policy policy s = record s { policy = policy }

abbrev policy_code : Policy → ℕ
policy_code Policy.comb = 0
policy_code Policy.latch = 1
policy_code Policy.comb_or_latch = 2
policy_code Policy.ff = 3
policy_code Policy.undecided = 4

abbrev pub is_policy : Policy → Policy → Bool
is_policy p q = policy_code p == policy_code q

unfoldable pub is_root_context : StmtBuilder → Bool
is_root_context s = is_empty s.outer

unfoldable pub has_timing : StmtBuilder → Bool
has_timing s = not (is_empty s.timing_events)

-- the diagnostics of the statement builder
unfoldable pub report_warning : DiagnosticId → String → StmtBuilder → StmtBuilder
report_warning id detail s = record s { diagnostics = warning id detail s.diagnostics }

unfoldable pub report_error : DiagnosticId → String → StmtBuilder → StmtBuilder
report_error id detail s = record s { diagnostics = error id detail s.diagnostics }

unfoldable pub edge_kind : Bool → Bool → EdgeKind
edge_kind posedge negedge =
    if posedge && negedge
    then EdgeKind.both_edges
    else if posedge
    then EdgeKind.posedge
    else if negedge
    then EdgeKind.negedge
    else EdgeKind.none

abbrev pub is_level : EdgeKind → Bool
is_level EdgeKind.none = true
is_level EdgeKind.posedge = false
is_level EdgeKind.negedge = false
is_level EdgeKind.both_edges = false

unfoldable pub add_event : EdgeKind → ExprId → ExprId → StmtBuilder → StmtBuilder
add_event edge expr_id iff_id s = record s {
  timing_events =
      s.timing_events ++ record { edge = edge; expr_id = expr_id; iff_id = iff_id } ∷ [];
}

-- An event of the other kind than those before it is reported and left out.
unfoldable pub add_timing : ExprId → ExprId → Bool → Bool → StmtBuilder → StmtBuilder
unfolding edge_kind add_event report_warning report_error set_policy
add_timing expr_id iff_id posedge negedge s =
    let edge = edge_kind posedge negedge in
    let undecided = is_policy s.policy Policy.undecided in
    if is_level edge
    then (if not (is_policy s.policy Policy.comb_or_latch) && not undecided
        then report_warning DiagnosticId.lowering_level_sensitive_event_ignored "" s
        else add_event edge expr_id iff_id (set_policy Policy.comb_or_latch s))
    else if not undecided && not (is_policy s.policy Policy.ff)
    then report_error DiagnosticId.lowering_unsupported_timing_control_ignored
        "edge event in combinational or latch block" s
    else add_event edge expr_id iff_id (set_policy Policy.ff s)

unfoldable pub create_context : StmtBuilder → StmtBuilder
create_context s = record s {
  context = new_context s.context.name_map s.context.scheduled_assignments;
  outer = s.context ∷ s.outer;
}

-- `contexts_.pop_back()`, behind the assertion that a context is left
unfoldable pub pop_context : Run StmtBuilder Context
pop_context s = pop s.outer
  where
    pop : List Context → Option (Context × StmtBuilder)
    pop [] = none
    pop (c ∷ rest) = some (s.context, record s { context = c; outer = rest })

unfoldable pub stack_context : Run StmtBuilder (Unit {0})
unfolding pop_context
stack_context = do
  child ← pop_context
  modify (λ (s : StmtBuilder). record s { context_stack = child ∷ s.context_stack })

-- `context_stack_.back()` is taken off
unfoldable pub pop_stack : Run StmtBuilder Context
pop_stack s = pop s.context_stack
  where
    pop : List Context → Option (Context × StmtBuilder)
    pop [] = none
    pop (c ∷ rest) = some (c, record s { context_stack = rest })

-- What a name is going to be, or else what it is.
unfoldable pub fallback_value : String → StmtBuilder → ExprId
fallback_value name s = scheduled (lookup name s.context.scheduled_assignments)
  where
    scheduled : Option ExprId → ExprId
    scheduled (some id) = id
    scheduled none = get_current_value name (expr_builder s)

unfoldable pub transfer_output : Context → ℕ → ExprId → Run StmtBuilder (Unit {0})
unfolding add_output schedule
transfer_output from i expr_id = do
  nonblocking ← found (get_elem? from.output_nonblocking i)
  name ← found (get_elem? from.output_names i)
  if nonblocking then pure tt else in_expr_builder (update_value name expr_id)
  schedule name expr_id
  add_output name nonblocking expr_id
