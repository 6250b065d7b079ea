-- ===== src/Lib.antt =====
-- abys lowers SystemVerilog to a graph of timing and expressions. This library models the core of
-- its intermediate representation: the diagnostics, the expression graph with its builder and
-- evaluators, the statement builder that merges the assignments of a process, the builder of
-- modules that connects processes, flip-flops and instances, and the pragmas of the source text.
--
-- The parts and how they interact. The frontend calls a `StmtBuilder` for each process and
-- subroutine. A statement builder keeps a stack of contexts, one for each open block, each with an
-- `ExprBuilder` of its own; all expression builders share one `ExprGraph` and one `Diagnostics` by
-- reference. An expression builder adds nodes to the graph and keeps the current values of names.
-- At the end of a block the statement builder merges the outputs of its branches by multiplexers
-- and case expressions, and at the end of a process it infers the clock and the reset from the
-- timing events. A `TigBuilder` keeps the modules of a design: the frontend gives it the ports, the
-- nodes with their finished graphs, the names that they drive and read and the flip-flops, and then
-- it inserts the flip-flops, wires the inputs and replaces the calls of subroutines by their
-- graphs.
--
-- Prelude holds what the modules share: lists and maps over the native numbers, integers, texts as
-- lists of characters and Boolean tests. Run is the monad of stateful code: `none` is a fault,
-- which stands for a failed assertion, an access out of range or another undefined behaviour.
--
-- Diagnostics models include/abys/infra/diagnostics.h and src/infra/diagnostics.cpp: `warning` and
-- `error` on the log and the stream, which is the text that was written to it.
--
-- Expr.Graph models include/abys/ir/type.h and include/abys/ir/expr.h. Identifiers are numbers
-- below 2 ^ 32, widths are below 2 ^ 64 and their arithmetic wraps where the source's does.
--
-- Expr.Literal models the text of binary constants in src/ir/expr_builder.cpp:
-- `parse_binary_constant`, the overload of `find_or_create_const` for an index, and the widths of
-- indices. The loops over the bits of an index have 64 rounds of fuel, which is enough for a number
-- of 64 bits.
--
-- Expr.Builder and its children model `ExprBuilder` of src/ir/expr_builder.cpp and
-- include/abys/ir/expr_builder.h, a function for each member function of the same name; `put_node`
-- is the assignment through the reference that `get_node` returns. The overloads of
-- `create_sequence` are `start_sequence`, `extend_sequence` and `create_sequence`, and the
-- overloads of `find_or_create_const` are `find_or_create_const` and `find_or_create_index`. The
-- search of `check_dependency` has the number of nodes and one as fuel: each level of calls enters
-- another node of an acyclic graph.
--
-- Expr.Eval models `try_evaluate` (Try) and `evaluate` (Direct) of src/ir/expr_builder.cpp on an
-- int of 32 bits. The depth of their calls is fuel, and its end is an answer of its own. An
-- overflow of a signed operation and a shift out of range are faults.
--
-- Expr.Valid says what a valid builder is: the graph is acyclic, inputs, constants and sequences
-- are found in their tables, and names stand for nodes. Identifiers need not be in the order of
-- operands, since a logical operation takes its identifier before those of its reductions. Its
-- children are about the operations on valid builders. Expr.Building describes sequences of
-- operations, with what each operation asks of its operands, as a step relation on builders.
-- Expr.Position is about normalized indices, and Expr.Dependency about the search for dependencies.
--
-- Stmt.Builder, Stmt.Outputs, Stmt.Conditional, Stmt.Case and Stmt.Timing model `StmtBuilder` of
-- src/ir/stmt_builder.cpp and include/abys/ir/stmt_builder.h. The last context is the field
-- `context` and the others are `outer`, since the vector of contexts is never empty. The order in
-- which an unordered map is walked is not specified, and is an argument of `merge_case` and
-- `for_each_output`. Stmt.Policy, Stmt.Positions, Stmt.Last, Stmt.Flags, Stmt.Kinds and Stmt.Clock
-- hold the proofs.
--
-- Tig.Graph models include/abys/ir/tig.h and include/abys/infra/naming.h. Tig.Builder and its
-- children model `TigBuilder` of src/ir/tig_builder.cpp and include/abys/ir/tig_builder.h: Ports
-- the modules' ports, nodes and inputs, Outputs the outputs of nodes and the merges of drivers, Ffs
-- `insert_ffs`, Wire `wire_connections`, Subroutines the table of subroutines, Inline one round of
-- the loop of `flatten_calls` and Flatten its loops. An assignment through a reference to a module
-- or a node is `put_module` or `put_node`. The order in which `std::sort` leaves flip-flops of one
-- name is not specified, so `insert_ffs` takes the sort as an argument. The loop over the calls of
-- a graph may append to them; its rounds are fuel, and the end of the fuel is an answer of its own.
--
-- Tig.Calls is about the flattening of calls: Map, Inlined, Copied and Inlines follow the cost of
-- one round, Grows, Steps and Kept what a graph keeps, Ends and Endless the loop. Tig.Signals is
-- about the names of outputs and the map of signals: Nodes, Steps and Names hold what single steps
-- do, Moved and Driven are about `add_node_output`, Clocked, Clusters, Runs, Ran and Inserted about
-- `insert_ffs`, and Wires and Wired about `wire_connections`.
--
-- Tig.Dumper models a part of src/ir/tig_dumper.cpp: the text of the header, the declarations, the
-- instances and the footer of a module, with the stream as the text that was written to it, and
-- `lookup_assumed_condition`, which finds what a condition is under a reset. Its depth of calls is
-- fuel, for which the number of nodes and one is enough, and the inputs are given in the order in
-- which their map is walked. Conditions says what a condition is under assumptions, and Assumed
-- holds the proofs.
--
-- Frontend.Pragma and Frontend.Pragma.Collect model src/frontend/slang_pragma.cpp: the text
-- functions and `PragmaCollector`. What its visitor reads of the syntax tree of the slang library
-- is given by value: the names of attributes, the trivia of a token with the kind, the text and the
-- address of each, and the location of a token; the visits of children are arguments. The words of
-- a text are split in as many rounds as it has characters, since each round takes one. Words and
-- Reports hold the proofs.
--
-- Tests applies the theorems at concrete inputs.
--
-- Not modelled: the rest of src/ir/tig_dumper.cpp, which prints the expressions and the blocks of
-- the finished design; the frontend under src/frontend other than its pragmas, whose input is the
-- syntax tree of the slang library; the command line in src/main.cpp. The capacity of memory is not
-- modelled, and a text is compared as a whole.
pub mod Prelude
pub mod Run
pub mod Diagnostics
pub mod Expr
pub mod Stmt
pub mod Tig
pub mod Frontend
mod Tests
