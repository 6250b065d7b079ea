-- ===== src/Tests/Designs.antt =====
-- A graph with a clock and a reset that the operations of src/ir/expr_builder.cpp build, and the
-- inference of src/ir/stmt_builder.cpp on it.
use abys.Prelude.{
  ℕ, ◌≡◌, ◌≢◌, ◌↔◌, refl, true, false, Bool, String, none, some, inl, inr, List, [], ◌∷◌, arith,
  get_elem?,
}
use abys.Run.{Returns}
use abys.Diagnostics.{Diagnostics}
use abys.Expr.Graph.{Node, Op, EdgeKind, initial_graph, bit_node, invalid_id}
use abys.Expr.Builder.{Builder, new_builder, nodes, size, create_node, put_node}
use abys.Expr.Eval.Answer.{out_of_fuel}
use abys.Expr.Eval.Try.{try_evaluate}
use abys.Expr.Building.{Operation, Builds, Allowed, perform}
use abys.Expr.Building.Sound.{Made, perform-Made, Builds-IsValid, Builds-keeps, built_evaluates}
use abys.Expr.Valid.{IsValid, IsWellFormed}
use abys.Expr.Valid.Initial.{new_builder-IsValid}
use abys.Stmt.Builder.{StmtBuilder, TimingEvent, Policy, new_context}
use abys.Stmt.Timing.{Signal, TimingSpec, event_input, get_timing_spec}
use abys.Stmt.Clock.{SomeDepends, inferred, get_timing_spec_lem}

abbrev silent : Diagnostics
silent = record { output = none; entries = [] }

abbrev start : Builder
start = record { graph = initial_graph; diagnostics = silent; name_map = [] }

abbrev input_node : Node
input_node = record { op = Op.input; width = 1; sign = false; operands = [] }

abbrev with_clk : Builder
with_clk = record {
  graph = record initial_graph {
    nodes = bit_node ∷ bit_node ∷ input_node ∷ [];
    inputs = ("clk", 2) ∷ [];
  };
  diagnostics = silent;
  name_map = ("clk", 2) ∷ [];
}

abbrev with_rst : Builder
with_rst = record {
  graph = record initial_graph {
    nodes = bit_node ∷ bit_node ∷ input_node ∷ input_node ∷ [];
    inputs = ("clk", 2) ∷ ("rst", 3) ∷ [];
  };
  diagnostics = silent;
  name_map = ("clk", 2) ∷ ("rst", 3) ∷ [];
}

clk_made : perform (Operation.input "clk" 1 false) start ≡ some (2, with_clk)
unfolding perform create_node put_node abys.Expr.Builder.Names.find_or_create_input
clk_made = refl

rst_made : perform (Operation.input "rst" 1 false) with_clk ≡ some (3, with_rst)
unfolding perform create_node put_node abys.Expr.Builder.Names.find_or_create_input
rst_made = refl

both_built : Builds with_rst start
unfolding Allowed
both_built =
    Builds.make start (Operation.input "clk" 1 false) 2 with_clk tt (omega arith) clk_made (
      Builds.make with_clk (Operation.input "rst" 1 false) 3 with_rst tt (omega arith) rst_made
        Builds.done)

start-IsValid : IsValid start
unfolding new_builder
start-IsValid = new_builder-IsValid silent

perform-Made_example : Returns (Made start) (perform (Operation.mux 0 1 invalid_id) start)
unfolding Allowed
perform-Made_example =
    perform-Made start start-IsValid (omega arith) (Operation.mux 0 1 invalid_id)
      (omega arith, inr (omega arith), inl refl)

Builds-keeps_example : get_elem? (nodes with_rst) 1 ≡ some bit_node
Builds-keeps_example = Builds-keeps with_rst start 1 bit_node start-IsValid both_built refl

built_from_new : Builds with_rst (new_builder initial_graph silent)
unfolding new_builder
built_from_new = both_built

built_evaluates_example : try_evaluate with_rst.graph 5 3 ≢ out_of_fuel
built_evaluates_example = built_evaluates silent with_rst 3 built_from_new (omega arith)

abbrev clk_event : TimingEvent
clk_event = record { edge = EdgeKind.posedge; expr_id = 2; iff_id = invalid_id }

abbrev rst_event : TimingEvent
rst_event = record { edge = EdgeKind.negedge; expr_id = 3; iff_id = invalid_id }

abbrev process : StmtBuilder
process = record {
  graph = with_rst.graph;
  diagnostics = silent;
  policy = Policy.ff;
  context = new_context [] [];
  outer = [];
  context_stack = [];
  timing_events = clk_event ∷ rst_event ∷ [];
}

abbrev clk : Signal
clk = record { name = "clk"; width = 1; sign = false; edge = EdgeKind.posedge }

abbrev rst : Signal
rst = record { name = "rst"; width = 1; sign = false; edge = EdgeKind.negedge }

abbrev unset : TimingSpec
unset = record {
  clk = record { name = ""; width = 0; sign = false; edge = EdgeKind.none };
  rst = record { name = ""; width = 0; sign = false; edge = EdgeKind.none };
}

clk_found : event_input clk_event process ≡ some (some (2, clk), process)
unfolding event_input abys.Expr.Builder.Names.get_input_spec abys.Expr.Builder.get_node
clk_found = refl

rst_found : event_input rst_event process ≡ some (some (3, rst), process)
unfolding event_input abys.Expr.Builder.Names.get_input_spec abys.Expr.Builder.get_node
rst_found = refl

abbrev outputs : List (String × ℕ)
outputs = ("q", 3) ∷ []

process-IsWellFormed : IsWellFormed process.graph
process-IsWellFormed = (Builds-IsValid with_rst start start-IsValid both_built).well_formed

get_timing_spec_lem_example :
    (u : Bool) × (w : Bool) × (u ≡ true ↔ SomeDepends process 2 outputs)
    × (w ≡ true ↔ SomeDepends process 3 outputs)
    × (get_timing_spec outputs unset process ≡ some (inferred u w clk rst process))
get_timing_spec_lem_example =
    get_timing_spec_lem process outputs unset (record { no_clk = refl; no_rst = refl }) clk_event
      rst_event 2 3 clk rst refl refl clk_found rst_found process-IsWellFormed
      (inr (omega arith), tt)
