-- ===== src/Tig/Builder.antt =====
-- The state of a `TigBuilder`, its access to modules and nodes, and the names that it makes up:
-- src/ir/tig_builder.cpp and include/abys/ir/tig_builder.h.
pub mod Ports
pub mod Outputs
pub mod Ffs
pub mod Wire
pub mod Subroutines
pub mod Inline
pub mod Flatten
use abys.Prelude.{
  ℕ, zero, suc, ◌+◌, ◌/◌, ◌%◌, ◌==◌, leb, ltb, String, Bool, true, false, Option, none, some, List,
  [], ◌∷◌, ◌++◌, length, get_elem?, set, map, Assoc, lookup, insert, if◌then◌else◌, is_empty,
}
use abys.Run.{Run, pure, found, check, gets, modify, ◌>>=◌, ◌>>◌}
use abys.Diagnostics.{Diagnostics, ◌<>◌}
use abys.Expr.Graph.{EdgeKind, id_limit, width_limit}
use abys.Stmt.Case.{resize}
use abys.Tig.Graph.{
  Tig, Module, Node, NodeKind, NodeId, ModuleId, PortIndex, EdgeRef, Output, NamingOptions,
  node_of_kind, new_module,
}

-- a flip-flop that a process asks for
pub record PendingFf : Type 0 where
  pub name : String
  pub clk_spec : Output
  pub clk_edge : EdgeKind
  pub rst_spec : Output
  pub rst_edge : EdgeKind
  pub node_id : NodeId
  pub port_idx : PortIndex

-- The design and the diagnostics are shared by reference. The last three fields have an item for each
-- module.
pub record TigBuilder : Type 0 where
  pub design : Tig
  pub diagnostics : Diagnostics
  pub naming : NamingOptions
  pub temporary_name_count : ℕ
  pub module_name_counts : Assoc ℕ
  pub signal_maps : List (Assoc EdgeRef)
  pub pending_ffs : List (List PendingFf)
  pub input_specs : List (List (List Output))

unfoldable pub new_tig_builder : Tig → Diagnostics → NamingOptions → TigBuilder
unfolding resize
new_tig_builder design diagnostics naming = record {
  design = design;
  diagnostics = diagnostics;
  naming = naming;
  temporary_name_count = 0;
  module_name_counts = [];
  signal_maps = resize (length design.modules) [] [];
  pending_ffs = resize (length design.modules) [] [];
  input_specs = resize (length design.modules) [] [];
}

unfoldable pub set_top_module : String → TigBuilder → TigBuilder
set_top_module name s = record s { design = record s.design { top_module_name = name } }

-- `design_.modules[module_id]`, `signal_maps_[module_id]` and so on, and the assignments through such
-- references
unfoldable pub get_module : ModuleId → Run TigBuilder Module
get_module module_id s = found (get_elem? s.design.modules module_id) s

unfoldable pub put_module : ModuleId → Module → Run TigBuilder (Unit {0})
put_module module_id module' = modify (λ s. record s {
  design = record s.design { modules = set s.design.modules module_id module' };
})

unfoldable pub get_signal_map : ModuleId → Run TigBuilder (Assoc EdgeRef)
get_signal_map module_id s = found (get_elem? s.signal_maps module_id) s

unfoldable pub put_signal_map : ModuleId → Assoc EdgeRef → Run TigBuilder (Unit {0})
put_signal_map module_id signal_map =
    modify (λ s. record s { signal_maps = set s.signal_maps module_id signal_map })

unfoldable pub get_node : ModuleId → NodeId → Run TigBuilder Node
get_node module_id node_id = do
  module' ← get_module module_id
  found (get_elem? module'.nodes node_id)

abbrev pub with_node : Module → NodeId → Node → Module
with_node module' node_id node = record module' { nodes = set module'.nodes node_id node }

unfoldable pub put_node : ModuleId → NodeId → Node → Run TigBuilder (Unit {0})
put_node module_id node_id node = do
  module' ← get_module module_id
  check (ltb node_id (length module'.nodes))
  put_module module_id (with_node module' node_id node)

-- `std::to_string` of a number below 2 ^ 64, which has at most twenty digits
digit : ℕ → String
digit n =
    if n == 0
    then "0"
    else if n == 1
    then "1"
    else if n == 2
    then "2"
    else if n == 3
    then "3"
    else if n == 4
    then "4"
    else if n == 5
    then "5"
    else if n == 6
    then "6"
    else if n == 7
    then "7"
    else if n == 8
    then "8"
    else "9"

put_decimal : ℕ → ℕ → String → String
unfolding digit
put_decimal zero n rest = rest
put_decimal (suc fuel) n rest =
    let more = put_decimal fuel (n / 10) (digit (n % 10) <> rest) in
    if ltb n 10 then digit n <> rest else more

unfoldable pub to_string : ℕ → String
unfolding put_decimal
to_string n = put_decimal 20 n ""

unfoldable pub generate_temporary_name : Run TigBuilder String
generate_temporary_name = do
  count ← gets (λ s. s.temporary_name_count)
  prefix ← gets (λ s. s.naming.builder_temporary_signal_prefix)
  modify (λ s. record s { temporary_name_count = (count + 1) % id_limit })
  pure (prefix <> to_string count)

unfoldable pub create_node : ModuleId → NodeKind → Run TigBuilder NodeId
create_node module_id kind = do
  module' ← get_module module_id
  put_module module_id (record module' { nodes = module'.nodes ++ node_of_kind kind ∷ [] })
  pure (length module'.nodes % id_limit)

-- The assertion that `emplace` inserts is one on the name.
abbrev pub is_none {ℓ} : {A : Type ℓ} → Option A → Bool
is_none none = true
is_none (some x) = false

unfoldable pub add_signal : ModuleId → String → EdgeRef → Run TigBuilder (Unit {0})
add_signal module_id name signal = do
  signal_map ← get_signal_map module_id
  check (is_none (lookup name signal_map))
  put_signal_map module_id (insert name signal signal_map)

-- `v.resize(i + 1)` where `i` is out of range
unfoldable pub make_room : {A : Type 0} → ℕ → A → List A → List A
unfolding resize
make_room i default xs = if leb (length xs) i then resize ((i + 1) % id_limit) default xs else xs

unfoldable pub add_input_spec : ModuleId → NodeId → Output → Run TigBuilder (Unit {0})
add_input_spec module_id node_id input_spec = do
  modules ← gets (λ s. make_room module_id [] s.input_specs)
  nodes ← found (get_elem? modules module_id)
  let grown = make_room node_id [] nodes
  specs ← found (get_elem? grown node_id)
  modify (λ s. record s {
    input_specs = set modules module_id (set grown node_id (specs ++ input_spec ∷ []));
  })

-- the number of modules of a name, and the suffix of the next one
unfoldable pub variant_of : NamingOptions → ℕ → String
unfolding to_string
variant_of naming count =
    if count == 0 then "" else naming.builder_module_variant_prefix <> to_string count

abbrev pub count_of : Option ℕ → ℕ
count_of none = 0
count_of (some n) = n

unfoldable pub create_module : String → Run TigBuilder ModuleId
unfolding variant_of
create_module name s =
    let count = count_of (lookup name s.module_name_counts) in
    some (
      length s.design.modules % id_limit,
      record s {
        design = record s.design {
          modules = s.design.modules ++ new_module name (variant_of s.naming count) ∷ [];
        };
        module_name_counts = insert name ((count + 1) % width_limit) s.module_name_counts;
        signal_maps = s.signal_maps ++ [] ∷ [];
        pending_ffs = s.pending_ffs ++ [] ∷ [];
        input_specs = s.input_specs ++ [] ∷ [];
      },
    )
