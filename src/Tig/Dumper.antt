-- ===== src/Tig/Dumper.antt =====
-- The text of a finished design: src/ir/tig_dumper.cpp. The stream is the text that was written to it.
pub mod Conditions
pub mod Assumed
use abys.Prelude.{
  ℕ, zero, suc, ◌+◌, ◌-◌, ◌%◌, ◌==◌, ltb, String, str_eq, Bool, true, false, ◌&&◌, ◌||◌, not,
  Option, none, some, List, [], ◌∷◌, ◌++◌, map, Assoc, get_elem?, lookup, if◌then◌else◌,
}
use abys.Run.{Run, pure, fault, found, check, modify, for_each, ◌>>=◌, ◌>>◌}
use abys.Diagnostics.{◌<>◌}
use abys.Expr.Graph.{ExprGraph, ExprId, Op, SignalWidth, is_op, invalid_id, width_limit}
use abys.Tig.Graph.{
  Tig, Node, NodeKind, Module, EdgeRef, Output, SignalProperties, is_kind, invalid_node,
}
use abys.Tig.Builder.{to_string}

abbrev write : String → Run String (Unit {0})
write text = modify (λ os. os <> text)

-- the index of the last of some bits or elements
abbrev top_index : SignalWidth → String
top_index width = to_string ((width + (width_limit - 1)) % width_limit)

abbrev put_sign : Bool → String
put_sign sign = if sign then "signed " else ""

abbrev put_width : SignalWidth → String
put_width width = if ltb 1 width then "[" <> (top_index width <> ":0] ") else ""

unfoldable pub put_dims : List SignalWidth → String
put_dims [] = ""
put_dims (dim ∷ rest) = " [" <> (top_index dim <> (":0]" <> put_dims rest))

-- a port or a signal behind its keywords
unfoldable pub put_signal : SignalProperties → String
unfolding put_dims to_string
put_signal s = put_sign s.sign <> (put_width s.width <> (s.name <> put_dims s.unpacked_dims))

-- the texts with commas between them; whether the next one is the first
unfoldable pub emit_ports : List String → Bool → Run String Bool
emit_ports [] first = pure first
emit_ports (port ∷ rest) first = do
  write (if first then "" else ",\n")
  write port
  emit_ports rest false

unfoldable pub emit_module_header : Module → Run String (Unit {0})
unfolding put_signal emit_ports
emit_module_header module' = do
  write ("module " <> (module'.name <> (module'.variant_suffix <> " (\n")))
  first ← emit_ports (map (λ p. "  input " <> put_signal p) module'.input_ports) true
  last ←
      emit_ports (map (λ p. "  output " <> (" logic " <> put_signal p)) module'.output_ports) first
  write ");\n\n"

unfoldable pub is_port_name : String → List SignalProperties → Bool
is_port_name name [] = false
is_port_name name (p ∷ rest) = str_eq name p.name || is_port_name name rest

-- The signals that are no ports are declared.
unfoldable pub emit_signal_decls : Module → Run String (Unit {0})
unfolding put_signal is_port_name for_each
emit_signal_decls module' = do
  for_each module'.signals (λ var.
      if is_port_name var.name module'.input_ports || is_port_name var.name module'.output_ports
      then pure tt
      else write ("  " <> ("logic " <> (put_signal var <> ";\n"))))
  write "\n"

-- the name of the driver of an input of an instance
unfoldable pub data_name : Module → EdgeRef → Run String String
data_name module' data_ref = do
  data_node ← found (get_elem? module'.nodes data_ref.node_id)
  output ← found (get_elem? data_node.outputs data_ref.port_idx)
  check (not (str_eq output.name ""))
  pure output.name

unfoldable pub emit_input_binds :
    Module → List SignalProperties → List EdgeRef → Bool → Run String Bool
unfolding data_name
emit_input_binds module' [] inputs first = pure first
emit_input_binds module' (p ∷ ports) [] first = fault
emit_input_binds module' (p ∷ ports) (data_ref ∷ inputs) first = do
  write (if first then "" else ",\n")
  write ("    ." <> (p.name <> "("))
  let driven = data_name module' data_ref
  name ← if data_ref.node_id == invalid_node then pure "1'bx" else driven
  write name
  write ")"
  emit_input_binds module' ports inputs false

unfoldable pub emit_output_binds : List SignalProperties → List Output → Bool → Run String Bool
emit_output_binds [] outputs first = pure first
emit_output_binds (p ∷ ports) [] first = fault
emit_output_binds (p ∷ ports) (output ∷ outputs) first = do
  write (if first then "" else ",\n")
  write ("    ." <> (p.name <> ("(" <> (output.name <> ")"))))
  emit_output_binds ports outputs false

unfoldable pub emit_instance : Tig → Module → Node → Run String (Unit {0})
unfolding emit_input_binds emit_output_binds
emit_instance design module' node = do
  child ← found (get_elem? design.modules node.module_id)
  write ("  " <> (child.name <> (child.variant_suffix <> (" " <> (node.name <> " (\n")))))
  first ← emit_input_binds module' child.input_ports node.inputs true
  last ← emit_output_binds child.output_ports node.outputs first
  write "  );\n"

unfoldable pub emit_instances : Tig → Module → Run String (Unit {0})
unfolding emit_instance for_each
emit_instances design module' = do
  for_each module'.nodes (λ node.
      let instance = emit_instance design module' node in
      if is_kind node.kind NodeKind.submodule then instance else pure tt)
  write "\n"

unfoldable pub emit_module_footer : Run String (Unit {0})
emit_module_footer = write "endmodule\n"

-- the assumption on the name of an input
unfoldable pub assumed_input : ExprId → Assoc Bool → Assoc ExprId → Option Bool
assumed_input id assumptions [] = none
assumed_input id assumptions ((name, key) ∷ rest) =
    let later = assumed_input id assumptions rest in
    if key == id then lookup name assumptions else later

abbrev pub negated : Option (Option Bool) → Option (Option Bool)
negated none = none
negated (some none) = some none
negated (some (some value)) = some (some (not value))

unfoldable pub negated_operand :
    (ExprId → Option (Option Bool)) → List ExprId → Option (Option Bool)
negated_operand recurse [] = some none
negated_operand recurse (o ∷ []) = negated (recurse o)
negated_operand recurse (o ∷ p ∷ rest) = some none

abbrev pub is_inverter : abys.Expr.Graph.Node → Bool
is_inverter node = is_op node.op Op.logical_not || (is_op node.op Op.bitwise_not && node.width == 1)

unfoldable pub assumed_node :
    Assoc ExprId
    → Assoc Bool
    → (ExprId → Option (Option Bool))
    → ExprId
    → Option abys.Expr.Graph.Node
    → Option (Option Bool)
assumed_node inputs assumptions recurse id none = none
assumed_node inputs assumptions recurse id (some node) =
    let inner = negated_operand recurse node.operands in
    if is_op node.op Op.input
    then some (assumed_input id assumptions inputs)
    else if is_inverter node
    then inner
    else some none

-- The depth of the calls is fuel, and `none` is its end or a read out of range. `inputs` are those of
-- the graph in the order in which the map is walked.
unfoldable pub lookup_assumed_condition :
    Assoc ExprId → ExprGraph → ℕ → ExprId → Option (Assoc Bool) → Option (Option Bool)
lookup_assumed_condition inputs graph zero id assumptions = none
lookup_assumed_condition inputs graph (suc fuel) id none = some none
lookup_assumed_condition inputs graph (suc fuel) id (some assumptions) =
    let rest =
      assumed_node inputs assumptions
        (λ o. lookup_assumed_condition inputs graph fuel o (some assumptions)) id
        (get_elem? graph.nodes id) in
    if id == invalid_id then some none else rest
