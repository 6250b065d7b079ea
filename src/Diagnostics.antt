-- ===== src/Diagnostics.antt =====
-- include/abys/infra/diagnostics.h and src/infra/diagnostics.cpp: the log of warnings and errors, and
-- the stream to which each of them is printed.
pub mod Log
use abys.Prelude.{String, Option, none, some, List, [], ◌∷◌, ◌++◌, if◌then◌else◌, str_eq}

infixr 65 ◌<>◌
abbrev pub ◌<>◌ : String → String → String
a <> b = Prim.Native.String.◌++◌ a b

pub data DiagnosticLevel : Type 0 where
  warning_level error_level : DiagnosticLevel

pub data DiagnosticId : Type 0 where
  lowering_unresolved_signal_input : DiagnosticId
  lowering_level_sensitive_event_ignored : DiagnosticId
  lowering_mixed_assignment_treated_as_nonblocking : DiagnosticId
  lowering_system_function_replaced_with_zero : DiagnosticId
  lowering_system_call_ignored : DiagnosticId
  lowering_full_case_with_default_ignored : DiagnosticId
  lowering_unconnected_input_port : DiagnosticId
  lowering_procedural_block_ignored : DiagnosticId
  lowering_task_ignored : DiagnosticId
  lowering_large_compile_time_loop : DiagnosticId
  lowering_unsupported_ast_node : DiagnosticId
  lowering_unsupported_expression_replaced_with_zero : DiagnosticId
  lowering_unsupported_statement_ignored : DiagnosticId
  lowering_unsupported_timing_control_ignored : DiagnosticId
  lowering_unsupported_port_ignored : DiagnosticId
  lowering_unsupported_definition_ignored : DiagnosticId
  lowering_unsupported_instance_ignored : DiagnosticId
  lowering_unsupported_instance_connection_ignored : DiagnosticId
  lowering_unsupported_subroutine_formal_treated_as_input : DiagnosticId
  lowering_unsupported_assignment_ignored : DiagnosticId
  lowering_subroutine_limit_exceeded : DiagnosticId
  lowering_unsupported_type_replaced_with_bit : DiagnosticId
  lowering_invalid_ff_treated_as_combinational : DiagnosticId
  lowering_duplicate_subroutine_ignored : DiagnosticId
  lowering_undecided_process_treated_as_comb_or_latch : DiagnosticId
  emitter_invalid_edge_treated_as_posedge : DiagnosticId
  emitter_missing_expression_value_replaced_with_zero : DiagnosticId
  emitter_unsupported_expression_replaced_with_zero : DiagnosticId
  frontend_unhandled_synthesis_attribute : DiagnosticId
  frontend_unhandled_synthesis_comment : DiagnosticId

unfoldable pub diagnostic_message : DiagnosticId → String
diagnostic_message lowering_unresolved_signal_input = "leaving unresolved signal input unconnected"
diagnostic_message lowering_level_sensitive_event_ignored =
    "ignoring level-sensitive event in edge-sensitive procedural block"
diagnostic_message lowering_mixed_assignment_treated_as_nonblocking =
    "treating mixed blocking/nonblocking assignments as nonblocking"
diagnostic_message lowering_system_function_replaced_with_zero =
    "replacing non-synthesizable system function with zero"
diagnostic_message lowering_system_call_ignored = "ignoring non-synthesizable system call"
diagnostic_message lowering_full_case_with_default_ignored =
    "ignoring full_case on case statement with default"
diagnostic_message lowering_unconnected_input_port = "leaving unconnected input port"
diagnostic_message lowering_procedural_block_ignored = "ignoring procedural block"
diagnostic_message lowering_task_ignored = "ignoring task in synthesis lowering"
diagnostic_message lowering_large_compile_time_loop = "compile-time loop iteration count is large"
diagnostic_message lowering_unsupported_ast_node = "unsupported AST node ignored"
diagnostic_message lowering_unsupported_expression_replaced_with_zero =
    "unsupported expression replaced with zero"
diagnostic_message lowering_unsupported_statement_ignored = "unsupported statement ignored"
diagnostic_message lowering_unsupported_timing_control_ignored =
    "unsupported timing control ignored"
diagnostic_message lowering_unsupported_port_ignored = "unsupported port ignored"
diagnostic_message lowering_unsupported_definition_ignored = "unsupported definition ignored"
diagnostic_message lowering_unsupported_instance_ignored = "unsupported instance ignored"
diagnostic_message lowering_unsupported_instance_connection_ignored =
    "unsupported instance connection ignored"
diagnostic_message lowering_unsupported_subroutine_formal_treated_as_input =
    "unsupported subroutine formal treated as input"
diagnostic_message lowering_unsupported_assignment_ignored = "unsupported assignment ignored"
diagnostic_message lowering_subroutine_limit_exceeded = "subroutine limit exceeded"
diagnostic_message lowering_unsupported_type_replaced_with_bit =
    "unsupported type represented as one unsigned bit"
diagnostic_message lowering_invalid_ff_treated_as_combinational =
    "invalid flip-flop process treated as combinational"
diagnostic_message lowering_duplicate_subroutine_ignored = "duplicate subroutine definition ignored"
diagnostic_message lowering_undecided_process_treated_as_comb_or_latch =
    "undecided process treated as combinational or latch"
diagnostic_message emitter_invalid_edge_treated_as_posedge =
    "invalid sequential edge treated as posedge"
diagnostic_message emitter_missing_expression_value_replaced_with_zero =
    "missing expression value emitted as zero"
diagnostic_message emitter_unsupported_expression_replaced_with_zero =
    "unsupported expression emitted as zero"
diagnostic_message frontend_unhandled_synthesis_attribute = "unhandled synthesis attribute"
diagnostic_message frontend_unhandled_synthesis_comment = "unhandled synthesis comment"

pub record Entry : Type 0 where
  pub level : DiagnosticLevel
  pub id : DiagnosticId
  pub detail : String

-- `output` is what was written to the stream, and `none` where there is no stream.
pub record Diagnostics : Type 0 where
  pub output : Option String
  pub entries : List Entry

pub format : Entry → String
format entry =
    if str_eq entry.detail ""
    then diagnostic_message entry.id
    else diagnostic_message entry.id <> (": " <> entry.detail)

-- `os << text`, where there is a stream
print : Option String → String → Option String
print none text = none
print (some written) text = some (written <> text)

level_prefix : DiagnosticLevel → String
level_prefix warning_level = "warning: "
level_prefix error_level = "error: "

-- what `warning` and `error` share, but for the level and its word
report : DiagnosticLevel → DiagnosticId → String → Diagnostics → Diagnostics
unfolding print level_prefix
report level id detail d =
    let entry : Entry = record { level = level; id = id; detail = detail } in
    record {
      output = print d.output (level_prefix level <> (format entry <> "\n"));
      entries = d.entries ++ entry ∷ [];
    }

unfoldable pub warning : DiagnosticId → String → Diagnostics → Diagnostics
unfolding report
warning id detail d = report warning_level id detail d

unfoldable pub error : DiagnosticId → String → Diagnostics → Diagnostics
unfolding report
error id detail d = report error_level id detail d
