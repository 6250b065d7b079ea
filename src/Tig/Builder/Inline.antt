-- ===== src/Tig/Builder/Inline.antt =====
-- One call of a subroutine in a graph, replaced by a copy of the subroutine's graph: the body of the
-- loop of `flatten_calls` in src/ir/tig_builder.cpp.
use abys.Prelude.{
  suc, ◌==◌, ◌%◌, String, Bool, true, false, ◌||◌, Option, none, some, List, [], ◌∷◌, ◌++◌, length,
  get_elem?, set, Assoc, lookup, if◌then◌else◌,
}
use abys.Run.{Run, pure, found, modify, ◌>>=◌, ◌>>◌}
use abys.Diagnostics.{Diagnostics, DiagnosticId, error, ◌<>◌}
use abys.Expr.Graph.{
  ExprGraph, ExprId, Node, Op, Constant, Call, UnpackedProperties, is_op, id_limit, invalid_id,
  constant_zero, constant_one,
}
use abys.Tig.Graph.{Subroutine, SignalProperties}

-- the graph of the node whose calls are replaced, and the log
pub record Inlining : Type 0 where
  pub graph : ExprGraph
  pub diagnostics : Diagnostics

abbrev pub with_expr_nodes : Inlining → List Node → Inlining
with_expr_nodes s nodes = record s { graph = record s.graph { nodes = nodes } }

-- `id_map`, where `emplace` keeps an earlier entry
abbrev pub IdMap : Type 0
IdMap = List (ExprId × ExprId)

unfoldable pub find_id : ExprId → IdMap → Option ExprId
find_id id [] = none
find_id id ((key, value) ∷ rest) = if key == id then some value else find_id id rest

abbrev emplace_at : Option ExprId → ExprId → ExprId → IdMap → IdMap
emplace_at none key value id_map = (key, value) ∷ id_map
emplace_at (some old) key value id_map = id_map

unfoldable pub emplace : ExprId → ExprId → IdMap → IdMap
unfolding find_id
emplace key value id_map = emplace_at (find_id key id_map) key value id_map

-- The node of a call becomes a conversion of one operand.
unfoldable pub convert_call : ExprId → ExprId → Run Inlining (Unit {0})
convert_call call_id operand = do
  call_node ← (λ s. found (get_elem? s.graph.nodes call_id) s)
  modify (λ s.
      with_expr_nodes s
        (set s.graph.nodes call_id (record call_node { op = Op.convert; operands = operand ∷ [] })))

unfoldable pub replace_call_with_zero : ExprId → String → Run Inlining (Unit {0})
unfolding convert_call
replace_call_with_zero call_id detail = do
  modify (λ s. record s {
    diagnostics =
        error DiagnosticId.lowering_unsupported_expression_replaced_with_zero detail s.diagnostics;
  })
  convert_call call_id constant_zero

-- `call_valid = false`
unfoldable pub give_up : ExprId → String → Run Inlining (Option IdMap)
unfolding replace_call_with_zero
give_up call_id detail = do replace_call_with_zero call_id detail; pure none

-- The inputs of the subroutine stand for the operands of the call.
unfoldable pub map_inputs :
    ExprId
    → Assoc ExprId
    → List SignalProperties
    → List ExprId
    → IdMap
    → Run Inlining (Option IdMap)
unfolding give_up emplace
map_inputs call_id inputs [] operands id_map = pure (some id_map)
map_inputs call_id inputs (input ∷ rest) [] id_map = λ s. none
map_inputs call_id inputs (input ∷ rest) (operand ∷ operands) id_map =
    elim (lookup input.name inputs) [
      | none ↦ give_up call_id ("subroutine input not found: " <> input.name)
      | some id ↦ map_inputs call_id inputs rest operands (emplace id operand id_map)
    ]

-- `nodes.push_back(src)`, and its identifier
unfoldable pub push_node : Node → Run Inlining ExprId
push_node node s =
    some (length s.graph.nodes % id_limit, with_expr_nodes s (s.graph.nodes ++ node ∷ []))

unfoldable pub copy_constant : ExprGraph → Constant → Run Inlining ExprId
unfolding push_node
copy_constant source constant = do
  src ← found (get_elem? source.nodes constant.id)
  dst_id ← push_node src
  modify (λ s. record s {
    graph = record s.graph {
      constants = s.graph.constants ++ record { id = dst_id; value = constant.value } ∷ [];
    };
  })
  pure dst_id

unfoldable pub copy_constants : ExprGraph → List Constant → IdMap → Run Inlining IdMap
unfolding copy_constant emplace
copy_constants source [] id_map = pure id_map
copy_constants source (constant ∷ rest) id_map = do
  let copied = copy_constant source constant
  let is_shared = constant.id == constant_zero || constant.id == constant_one
  dst_id ← if is_shared then pure constant.id else copied
  copy_constants source rest (emplace constant.id dst_id id_map)

unfoldable pub map_operands : IdMap → List ExprId → Option (List ExprId)
unfolding find_id
map_operands id_map [] = some []
map_operands id_map (operand ∷ rest) = elim (find_id operand id_map) [
  | none ↦ none
  | some id ↦ elim (map_operands id_map rest) [ none ↦ none | some ids ↦ some (id ∷ ids) ]
]

-- the first call of a node
unfoldable pub find_call : ExprId → List Call → Option Call
find_call id [] = none
find_call id (call ∷ rest) = if call.id == id then some call else find_call id rest

abbrev pub push_found_call : Option Call → ExprId → Inlining → Inlining
push_found_call none dst_id s = s
push_found_call (some call) dst_id s = record s {
  graph = record s.graph {
    calls = s.graph.calls ++ record { id = dst_id; subr_id = call.subr_id; name = call.name } ∷ [];
  };
}

unfoldable pub copy_call : Op → List Call → ExprId → ExprId → Inlining → Inlining
unfolding find_call
copy_call op calls src_id dst_id s =
    if is_op op Op.call then push_found_call (find_call src_id calls) dst_id s else s

-- the first properties of a node
unfoldable pub find_unpacked : ExprId → List UnpackedProperties → Option UnpackedProperties
find_unpacked id [] = none
find_unpacked id (p ∷ rest) = if p.id == id then some p else find_unpacked id rest

unfoldable pub copy_properties :
    Option UnpackedProperties → IdMap → ExprId → Run Inlining (Unit {0})
unfolding find_id
copy_properties none id_map dst_id = pure tt
copy_properties (some p) id_map dst_id = do
  base ← if p.base == invalid_id then pure invalid_id else found (find_id p.base id_map)
  modify (λ s. record s {
    graph = record s.graph {
      unpacked_properties =
          s.graph.unpacked_properties ++ record p { id = dst_id; base = base } ∷ [];
    };
  })

-- one node of the subroutine, with its new operands
unfoldable pub copy_node : ExprGraph → ExprId → Node → List ExprId → IdMap → Run Inlining IdMap
unfolding push_node emplace copy_call copy_properties find_unpacked
copy_node source src_id src operands id_map = do
  dst_id ← push_node (record src { operands = operands })
  modify (copy_call src.op source.calls src_id dst_id)
  copy_properties (find_unpacked src_id source.unpacked_properties) (emplace src_id dst_id id_map)
      dst_id
  pure (emplace src_id dst_id id_map)

abbrev is_some {ℓ} : {A : Type ℓ} → Option A → Bool
is_some none = false
is_some (some x) = true

-- A node that is mapped already is left out, and an operand that is not mapped ends the copy.
unfoldable pub copy_next : ExprId → Subroutine → ExprId → Node → IdMap → Run Inlining (Option IdMap)
unfolding find_id map_operands give_up copy_node
copy_next call_id subr src_id src id_map =
    if is_some (find_id src_id id_map)
    then pure (some id_map)
    else (elim (map_operands id_map src.operands) [
      | none ↦ give_up call_id ("subroutine graph is not topologically ordered: " <> subr.name)
      | some operands ↦ do
        next ← copy_node subr.expr_graph src_id src operands id_map
        pure (some next)
    ])

-- the nodes from `src_id` on
unfoldable pub copy_nodes :
    ExprId → Subroutine → List Node → ExprId → Option IdMap → Run Inlining (Option IdMap)
unfolding copy_next
copy_nodes call_id subr nodes src_id none = pure none
copy_nodes call_id subr [] src_id (some id_map) = pure (some id_map)
copy_nodes call_id subr (src ∷ rest) src_id (some id_map) = do
  next ← copy_next call_id subr src_id src id_map
  copy_nodes call_id subr rest (suc src_id) next

unfoldable pub finish_call : ExprId → Subroutine → Option IdMap → Run Inlining (Unit {0})
unfolding find_id replace_call_with_zero convert_call
finish_call call_id subr none = pure tt
finish_call call_id subr (some id_map) = elim (find_id subr.expr_root id_map) [
  | none ↦ replace_call_with_zero call_id ("failed to map subroutine root: " <> subr.name)
  | some root ↦ convert_call call_id root
]

-- The input of the subroutine's own name, its return value, has no value at the start.
unfoldable pub map_return : Option ExprId → IdMap → IdMap
unfolding emplace
map_return none id_map = id_map
map_return (some id) id_map = emplace id invalid_id id_map

unfoldable pub copy_graph : ExprId → Subroutine → Option IdMap → Run Inlining (Unit {0})
unfolding copy_constants map_return copy_nodes finish_call
copy_graph call_id subr none = pure tt
copy_graph call_id subr (some id_map) = do
  with_constants ← copy_constants subr.expr_graph subr.expr_graph.constants id_map
  let start = map_return (lookup subr.name subr.expr_graph.inputs) with_constants
  mapped ← copy_nodes call_id subr subr.expr_graph.nodes 0 (some start)
  finish_call call_id subr mapped

unfoldable pub inline_subroutine : Call → Subroutine → Run Inlining (Unit {0})
unfolding replace_call_with_zero map_inputs copy_graph
inline_subroutine call subr = do
  call_node ← (λ s. found (get_elem? s.graph.nodes call.id) s)
  let mismatch = replace_call_with_zero call.id ("call arity mismatch: " <> call.name)
  let inlined = do
    mapped ←
        map_inputs call.id subr.expr_graph.inputs subr.inputs call_node.operands
          ((invalid_id, invalid_id) ∷ [])
    copy_graph call.id subr mapped
  if length call_node.operands == length subr.inputs then inlined else mismatch

-- Only a subroutine with a root is there.
abbrev pub known_subroutine : Option Subroutine → Option Subroutine
known_subroutine none = none
known_subroutine (some subr) = if subr.expr_root == invalid_id then none else some subr

unfoldable pub inline_known : Call → Option Subroutine → Run Inlining (Unit {0})
unfolding replace_call_with_zero inline_subroutine
inline_known call none = replace_call_with_zero call.id ("unknown subroutine: " <> call.name)
inline_known call (some subr) = inline_subroutine call subr

unfoldable pub inline_call : List Subroutine → Call → Run Inlining (Unit {0})
unfolding inline_known
inline_call subroutines call =
    inline_known call (known_subroutine (get_elem? subroutines call.subr_id))
