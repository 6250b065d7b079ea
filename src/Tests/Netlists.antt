-- ===== src/Tests/Netlists.antt =====
-- The builder of modules in src/ir/tig_builder.cpp, on small designs.
use mathlib.Core.Option.{some-injective}
use abys.Prelude.{
  ◌≡◌, refl, sym, ap, String, true, false, none, some, List, [], ◌∷◌, Assoc, insert, lookup, arith,
  none-ne-some,
}
use Prim.Native.String.{compare}
use Prim.Native.Nat.{Ordering}
use abys.Run.{Returns}
use abys.Diagnostics.{Diagnostics}
use abys.Expr.Graph.{EdgeKind}
use abys.Tig.Graph.{
  Node, NodeKind, Module, EdgeRef, Output, node_of_kind, new_module, default_naming, no_edge,
}
use abys.Tig.Builder.{TigBuilder, PendingFf}
use abys.Tig.Builder.Ports.{push_output, no_spec}
use abys.Tig.Builder.Outputs.{add_node_output}
use mathlib.Core.Path.{subst}
use abys.Tig.Signals.{At, AreNamed, output_at}
use abys.Tig.Signals.Nodes.{at_port}
use abys.Tig.Signals.Names.{AreNamed-append, AreNamed-none, AreNamed-top}
use abys.Tig.Signals.Moved.{IsDriver}
use abys.Tig.Signals.Driven.{HasOutput, add_node_output_lem}
use abys.Tig.Builder.Wire.{wire_connections}
use abys.Diagnostics.Log.{log}
use abys.Tig.Signals.Steps.{with_nodes}
use abys.Tig.Signals.Wires.{Fits, wired_nodes, missing_all}
use abys.Tig.Signals.Wired.{wire_connections_lem}

abbrev output : String → Output
output name = record { name = name; width = 8; sign = false }

abbrev operation : String → Node
operation name = push_output (node_of_kind NodeKind.op) (output name) 0 true

-- a module with the signals q and d, and an operation without outputs
abbrev counter : Module
counter = record (new_module "counter" "") {
  nodes = operation "q" ∷ operation "d" ∷ node_of_kind NodeKind.op ∷ [];
}

abbrev counter_signals : Assoc EdgeRef
counter_signals = insert "d" (at_port 1 0) (insert "q" (at_port 0 0) [])

abbrev clocked_by : String → String → PendingFf
clocked_by name clk = record {
  name = name;
  clk_spec = record { name = clk; width = 1; sign = false };
  clk_edge = EdgeKind.posedge;
  rst_spec = no_spec;
  rst_edge = EdgeKind.none;
  node_id = 0;
  port_idx = 0;
}

abbrev counter_ffs : List PendingFf
counter_ffs = clocked_by "q" "clk" ∷ clocked_by "d" "clk" ∷ clocked_by "q" "slow_clk" ∷ []

abbrev no_diagnostics : Diagnostics
no_diagnostics = record { output = none; entries = [] }

abbrev counter_builder : TigBuilder
counter_builder = record {
  design = record { top_module_name = "counter"; modules = counter ∷ []; subroutines = [] };
  diagnostics = no_diagnostics;
  naming = default_naming;
  temporary_name_count = 0;
  module_name_counts = [];
  signal_maps = counter_signals ∷ [];
  pending_ffs = counter_ffs ∷ [];
  input_specs = [] ∷ [];
}

counter-At : At 0 counter counter_signals counter_builder
counter-At = record { module' = refl; signals = refl; specs = omega arith; pending = omega arith }

empty-AreNamed : AreNamed [] []
unfolding lookup output_at
empty-AreNamed = record {
  named = λ name edge e. absurd (none-ne-some edge e);
  mapped = λ edge o e has. absurd (none-ne-some o e);
}

counter-AreNamed : AreNamed counter.nodes counter_signals
unfolding lookup insert
counter-AreNamed =
    let q =
      AreNamed-top [] (operation "q") (output "q") [] (AreNamed-none "q" [] [] empty-AreNamed refl)
        refl in
    let d =
      AreNamed-top (operation "q" ∷ []) (operation "d") (output "d") _
        (AreNamed-none "d" _ _ q refl) refl in
    AreNamed-append (operation "q" ∷ operation "d" ∷ []) (node_of_kind NodeKind.op ∷ [])
      counter_signals d (tt, tt)

q_driver : (d : EdgeRef) → lookup "q" counter_signals ≡ some d → at_port 0 0 ≡ d
unfolding lookup insert
q_driver d e = some-injective (at_port 0 0) d e

q-IsDriver : IsDriver counter (at_port 0 0) 8 false
q-IsDriver = record {
  node = operation "q";
  output = output "q";
  there = refl;
  driver = refl;
  kind = refl;
  same_width = refl;
  same_sign = refl;
}

add_node_output_lem_example :
    Returns
      (λ port t. (port ≡ 0) × HasOutput 0 counter counter_signals "q" 8 false (at_port 2 0) t)
      (add_node_output 0 2 "q" 8 false 1 true counter_builder)
add_node_output_lem_example =
    add_node_output_lem 0 counter counter_signals counter-AreNamed 2 (node_of_kind NodeKind.op) refl
      "q" 8 false counter_builder counter-At 1 true (omega arith) (omega arith)
      (λ d ne found. subst (λ e. IsDriver counter e 8 false) (q_driver d found) q-IsDriver)

abbrev before_by :
    Ordering → PendingFf → PendingFf → List PendingFf → List PendingFf → List PendingFf
before_by Ordering.gt ff next rest later = next ∷ later
before_by Ordering.eq ff next rest later = ff ∷ next ∷ rest
before_by Ordering.lt ff next rest later = ff ∷ next ∷ rest

abbrev insert_by_name : PendingFf → List PendingFf → List PendingFf
insert_by_name ff [] = ff ∷ []
insert_by_name ff (next ∷ rest) =
    before_by (compare ff.name next.name) ff next rest (insert_by_name ff rest)

abbrev sort_by_name : List PendingFf → List PendingFf
sort_by_name [] = []
sort_by_name (ff ∷ rest) = insert_by_name ff (sort_by_name rest)

-- an operation that reads q, a name that nothing drives, and an edge
abbrev reader : Node
reader = record (node_of_kind NodeKind.op) { inputs = no_edge ∷ no_edge ∷ at_port 0 0 ∷ [] }

abbrev reading : Module
reading = record (new_module "reading" "") { nodes = operation "q" ∷ reader ∷ [] }

abbrev reading_signals : Assoc EdgeRef
reading_signals = insert "q" (at_port 0 0) []

abbrev reading_specs : List (List Output)
reading_specs = [] ∷ (output "q" ∷ output "x" ∷ no_spec ∷ []) ∷ []

abbrev reading_builder : TigBuilder
reading_builder = record {
  design = record { top_module_name = "reading"; modules = reading ∷ []; subroutines = [] };
  diagnostics = no_diagnostics;
  naming = default_naming;
  temporary_name_count = 0;
  module_name_counts = [];
  signal_maps = reading_signals ∷ [];
  pending_ffs = [] ∷ [];
  input_specs = reading_specs ∷ [];
}

reads_q : Fits reading reading_signals (output "q")
unfolding lookup insert output_at
reads_q d found = (
  output "q",
  ap (output_at reading.nodes) (sym (some-injective (at_port 0 0) d found)),
  refl,
  refl,
)

reads_x : Fits reading reading_signals (output "x")
unfolding lookup insert
reads_x d found = absurd (none-ne-some d found)

reads_edge : Fits reading reading_signals no_spec
unfolding lookup insert
reads_edge d found = absurd (none-ne-some d found)

wire_connections_lem_example :
    Returns
      (λ r t.
        At 0
          (with_nodes reading (wired_nodes reading_signals reading_specs reading.nodes))
          reading_signals
          t
        × (t.diagnostics ≡ log (missing_all reading reading_signals reading_specs) no_diagnostics))
      (wire_connections 0 reading_builder)
wire_connections_lem_example =
    wire_connections_lem 0 reading reading_signals reading_builder reading_specs
      (record { module' = refl; signals = refl; specs = omega arith; pending = omega arith }) refl
      (omega arith) (tt, omega arith, ((reads_q, (reads_x, (reads_edge, tt))), omega arith, tt))
