-- ===== src/Tig/Signals/Wires.antt =====
-- What the wiring of inputs makes of a module: `wire_connections` in src/ir/tig_builder.cpp.
use abys.Prelude.{
  ◌<◌, ◌≡◌, str_eq, Option, none, some, List, [], ◌∷◌, ◌++◌, Assoc, length, lookup, if◌then◌else◌,
}
use abys.Diagnostics.{DiagnosticId, Entry, warning_level, ◌<>◌}
use abys.Expr.Graph.{id_limit}
use abys.Tig.Graph.{Node, Module, EdgeRef, Output}
use abys.Tig.Signals.{output_at}

-- What an input is connected to: the driver of its name, if it has a name that is driven.
abbrev pub joined_to : Option EdgeRef → EdgeRef → EdgeRef
joined_to none edge = edge
joined_to (some driver) edge = driver

abbrev pub connected : Assoc EdgeRef → Output → EdgeRef → EdgeRef
connected sm spec edge = if str_eq spec.name "" then edge else joined_to (lookup spec.name sm) edge

unfoldable pub wired : Assoc EdgeRef → List Output → List EdgeRef → List EdgeRef
wired sm [] edges = edges
wired sm (spec ∷ specs) [] = []
wired sm (spec ∷ specs) (edge ∷ edges) = connected sm spec edge ∷ wired sm specs edges

unfoldable pub wired_nodes : Assoc EdgeRef → List (List Output) → List Node → List Node
wired_nodes sm [] nodes = nodes
wired_nodes sm (specs ∷ rest) [] = []
wired_nodes sm (specs ∷ rest) (node ∷ nodes) =
    record node { inputs = wired sm specs node.inputs } ∷ wired_nodes sm rest nodes

-- The report of a name that no output has.
abbrev pub unresolved : Module → Output → Entry
unresolved m spec = record {
  level = warning_level;
  id = DiagnosticId.lowering_unresolved_signal_input;
  detail = m.name <> (m.variant_suffix <> ("." <> spec.name));
}

abbrev pub report_of : Module → Output → Option EdgeRef → List Entry
report_of m spec none = unresolved m spec ∷ []
report_of m spec (some driver) = []

unfoldable pub missing : Module → Assoc EdgeRef → List Output → List Entry
missing m sm [] = []
missing m sm (spec ∷ specs) =
    (if str_eq spec.name "" then [] else report_of m spec (lookup spec.name sm))
    ++ missing m sm specs

unfoldable pub missing_all : Module → Assoc EdgeRef → List (List Output) → List Entry
missing_all m sm [] = []
missing_all m sm (specs ∷ rest) = missing m sm specs ++ missing_all m sm rest

-- The specifications are those of inputs that are there, and a name that is driven has their width and
-- sign.
abbrev pub Fits : Module → Assoc EdgeRef → Output → Type 0
Fits m sm spec =
    (d : EdgeRef)
    → lookup spec.name sm ≡ some d
    → (o : Output) × (output_at m.nodes d ≡ some o) × (o.width ≡ spec.width) × (o.sign ≡ spec.sign)

abbrev pub FitInputs : Module → Assoc EdgeRef → List Output → List EdgeRef → Type 0
FitInputs m sm [] edges = Unit
FitInputs m sm (spec ∷ specs) [] = ⊥
FitInputs m sm (spec ∷ specs) (edge ∷ edges) = Fits m sm spec × FitInputs m sm specs edges

abbrev pub FitNodes : Module → Assoc EdgeRef → List (List Output) → List Node → Type 0
FitNodes m sm [] nodes = Unit
FitNodes m sm (specs ∷ rest) [] = ⊥
FitNodes m sm (specs ∷ rest) (node ∷ nodes) =
    FitInputs m sm specs node.inputs × (length node.inputs < id_limit) × FitNodes m sm rest nodes
