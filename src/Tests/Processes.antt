-- ===== src/Tests/Processes.antt =====
-- Diagnostics and the statement builder of src/ir/stmt_builder.cpp on small inputs.
use abys.Prelude.{String, ℕ, ◌≡◌, ◌↔◌, refl, true, false, none, some, [], ◌∷◌, arith}
use abys.Run.{Returns}
use abys.Diagnostics.{Diagnostics, DiagnosticId, Entry, error_level}
use abys.Diagnostics.Log.{log, lines, written, log_lem}
use abys.Expr.Graph.{initial_graph}
use abys.Stmt.Builder.{StmtBuilder, Context, Policy, new_context}
use abys.Stmt.Outputs.{collect_last_output_indices}
use abys.Stmt.Policy.{TimingCall, Kept, add_timings, add_timings_lem}
use abys.Stmt.Positions.{IsLast, position}
use abys.Stmt.Flags.{flag_at}
use abys.Stmt.Kinds.{any_kind, collect_last_output_indices-kinds}
use abys.Stmt.Last.{member, collect_last_output_indices_lem}

abbrev silent : Diagnostics
silent = record { output = none; entries = [] }

abbrev start : StmtBuilder
start = record {
  graph = initial_graph;
  diagnostics = silent;
  policy = Policy.undecided;
  context = new_context [] [];
  outer = [];
  context_stack = [];
  timing_events = [];
}

abbrev clock_edge : TimingCall
clock_edge = record { expr_id = 0; iff_id = 1; posedge = true; negedge = false }

abbrev level_event : TimingCall
level_event = record { expr_id = 1; iff_id = 1; posedge = false; negedge = false }

add_timings_lem_example :
    Kept false
      (clock_edge ∷ level_event ∷ [])
      start
      (add_timings (clock_edge ∷ level_event ∷ []) start)
add_timings_lem_example = add_timings_lem clock_edge (level_event ∷ []) start refl

-- Two assignments to one name, of both kinds, around one to another.
abbrev block : Context
block = record (new_context [] []) {
  output_names = "q" ∷ "p" ∷ "q" ∷ [];
  output_nonblocking = false ∷ false ∷ true ∷ [];
  output_ids = 0 ∷ 1 ∷ 1 ∷ [];
}

collect_last_output_indices_lem_example :
    Returns
      (λ (indices, kinds) t. (k : ℕ) → member k indices ≡ true ↔ IsLast block.output_names k)
      (collect_last_output_indices block start)
collect_last_output_indices_lem_example = collect_last_output_indices_lem block start (omega arith)

abbrev mixed : Entry
mixed = record {
  level = error_level;
  id = DiagnosticId.lowering_mixed_assignment_treated_as_nonblocking;
  detail = "q";
}

abbrev printed : Diagnostics
printed = record { output = some ""; entries = [] }

log_lem_example :
    log (mixed ∷ []) printed
    ≡ record { output = written printed.output (lines (mixed ∷ [])); entries = mixed ∷ [] }
log_lem_example = log_lem (mixed ∷ []) printed

collect_last_output_indices-kinds_example :
    Returns
      (λ (indices, kinds) t.
        (n : String)
        → flag_at (position n block.output_names 0 none) kinds.output_nonblocking
          ≡ any_kind n block.output_names block.output_nonblocking none)
      (collect_last_output_indices block start)
collect_last_output_indices-kinds_example =
    collect_last_output_indices-kinds block start (omega arith)
