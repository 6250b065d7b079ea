-- ===== src/Tests/Graphs.antt =====
-- The operations of src/ir/expr_builder.cpp on small graphs.
use abys.Prelude.{◌≡◌, refl, true, false, none, some, inl, inr, [], ◌∷◌, arith}
use abys.Prelude.Int.{pos, negsuc}
use abys.Run.{Returns}
use abys.Diagnostics.{Diagnostics}
use abys.Expr.Graph.{Node, Op, initial_graph, bit_node, invalid_id, UnpackedProperties}
use abys.Expr.Builder.{Builder, new_builder, size, nodes}
use abys.Expr.Builder.Simple.{create_logical_binary, create_nary}
use abys.Expr.Builder.Choice.{create_mux, create_match, create_case, create_concat}
use abys.Expr.Builder.Index.{find_or_create_index, normalize_index_expr, create_select}
use abys.Expr.Builder.Unpacked.{start_sequence, create_sequence, find_properties}
use abys.Expr.Builder.Names.{find_or_create_input}
use abys.Expr.Valid.{IsValid, Adds}
use abys.Expr.Valid.Initial.{new_builder-IsValid}
use abys.Expr.Valid.Logical.{create_logical_binary-Adds}
use abys.Expr.Valid.Logical.{logical_node, reduction}
use abys.Expr.Valid.Order.{create_logical_binary_order}
use abys.Prelude.{◌++◌}
use abys.Expr.Builder.{with_nodes}
use abys.Expr.Valid.Nary.{IsNary, create_nary-IsNary}
use abys.Expr.Valid.Choice.{create_mux-Adds, IsConcat, create_concat-IsConcat}
use abys.Expr.Valid.Mux.{IsMux, create_mux-IsMux}
use abys.Expr.Valid.Match.{IsMatch, create_match-IsMatch}
use abys.Expr.Valid.Case.{IsCase, create_case-IsCase}
use abys.Expr.Valid.Indices.{IsConstant, find_or_create_index_lem}
use abys.Expr.Valid.Select.{Selects, create_select_lem}
use abys.Prelude.Text.{Text}
use abys.Expr.Literal.{parse_binary_constant}
use abys.Expr.Eval.Word.{int32}
use abys.Expr.Valid.Index.{normalize_index_expr-Adds}
use abys.Expr.Valid.Names.{Source, find_or_create_input-IsFound}
use abys.Expr.Valid.Sequence.{start_sequence-Adds, IsExtended, create_sequence-IsExtended}

abbrev silent : Diagnostics
silent = record { output = none; entries = [] }

abbrev start : Builder
start = record { graph = initial_graph; diagnostics = silent; name_map = [] }

start-IsValid : IsValid start
unfolding new_builder
start-IsValid = new_builder-IsValid silent

create_logical_binary-Adds_example : Returns (Adds 3 start) (create_logical_binary Op.and 0 1 start)
create_logical_binary-Adds_example =
    create_logical_binary-Adds start start-IsValid (omega arith) Op.and 0 1 refl (omega arith)
      (omega arith)

create_nary-IsNary_example :
    Returns (IsNary start Op.xor (0 ∷ 1 ∷ 1 ∷ [])) (create_nary Op.xor (0 ∷ 1 ∷ 1 ∷ []) start)
create_nary-IsNary_example =
    create_nary-IsNary start start-IsValid (omega arith) Op.xor (0 ∷ 1 ∷ 1 ∷ []) refl (λ e. cc)
      (omega arith, (omega arith, (omega arith, tt)))

create_mux-Adds_example : Returns (Adds 1 start) (create_mux 0 invalid_id 1 start)
create_mux-Adds_example =
    create_mux-Adds start start-IsValid (omega arith) 0 invalid_id 1 (omega arith) (inl refl)
      (inr (omega arith))

normalize_index_expr-Adds_example :
    Returns (Adds 5 start) (normalize_index_expr 1 (pos 0) (pos 7) (pos 2) start)
normalize_index_expr-Adds_example =
    normalize_index_expr-Adds start start-IsValid 1 bit_node refl (omega arith) (pos 0) (pos 7)
      (pos 2) (omega arith) (omega arith) (omega arith)

start_sequence-Adds_example : Returns (Adds 1 start) (start_sequence 1 0 (4 ∷ []) 1 false start)
start_sequence-Adds_example =
    start_sequence-Adds start start-IsValid (omega arith) 1 0 (4 ∷ []) 1 false (omega arith)

-- A graph with a sequence.
abbrev sequence_node : Node
sequence_node = record { op = Op.sequence; width = 1; sign = false; operands = 1 ∷ [] }

abbrev array : UnpackedProperties
array = record { id = 2; base = 0; unpacked_dims = 4 ∷ []; width = 1; sign = false }

abbrev assigned : Builder
assigned = record {
  graph = record initial_graph {
    nodes = bit_node ∷ bit_node ∷ sequence_node ∷ [];
    unpacked_properties = array ∷ [];
  };
  diagnostics = silent;
  name_map = [];
}

assigned-IsValid : IsValid assigned
unfolding start_sequence abys.Expr.Builder.create_node abys.Expr.Builder.get_node
    abys.Expr.Builder.put_node
assigned-IsValid =
    (start_sequence-Adds start start-IsValid (omega arith) 1 0 (4 ∷ []) 1 false (omega arith)).valid

found_array : find_properties 2 assigned.graph.unpacked_properties ≡ some array
unfolding find_properties
found_array = refl

-- A graph with an input of four bits.
abbrev nibble : Node
nibble = record { op = Op.input; width = 4; sign = false; operands = [] }

abbrev with_nibble : Builder
with_nibble = record start {
  graph = record initial_graph { nodes = bit_node ∷ bit_node ∷ nibble ∷ [] };
}

create_logical_binary_order_example :
    create_logical_binary Op.or 2 2 with_nibble
    ≡ some (
      3,
      with_nodes with_nibble
          (nodes with_nibble ++ logical_node Op.or 4 5 ∷ reduction 2 ∷ reduction 2 ∷ []),
    )
create_logical_binary_order_example =
    create_logical_binary_order with_nibble Op.or 2 2 nibble nibble (omega arith) refl refl
      (omega arith) (omega arith)

create_match-IsMatch_example : Returns (IsMatch start 0 1 [] false) (create_match 0 1 start)
create_match-IsMatch_example =
    create_match-IsMatch start start-IsValid 0 1 bit_node refl (omega arith) (omega arith)
      (λ e. absurd (cc))

create_case-IsCase_example :
    Returns
      (IsCase start 0 (1 ∷ []) (1 ∷ invalid_id ∷ []) 1 false)
      (create_case 0 (1 ∷ []) (1 ∷ invalid_id ∷ []) start)
create_case-IsCase_example =
    create_case-IsCase start start-IsValid (omega arith) 0 (1 ∷ []) (1 ∷ invalid_id ∷ []) 1 false
      (omega arith) (inr refl) (inr (omega arith), tt)
      (inr (bit_node, refl, refl, refl), (inl refl, tt)) (inl (omega arith))

create_concat-IsConcat_example :
    Returns
      (IsConcat start (0 ∷ invalid_id ∷ []) true)
      (create_concat (0 ∷ invalid_id ∷ []) true start)
create_concat-IsConcat_example =
    create_concat-IsConcat start start-IsValid (omega arith) (0 ∷ invalid_id ∷ []) true refl
      (inr (omega arith), (inl refl, tt))

find_or_create_index_lem_example :
    Returns
      (λ id t.
        Adds 1 start id t
        × (text : Text) × (parse_binary_constant text ≡ int32 (negsuc 4))
        × IsConstant start 4 true text id t)
      (find_or_create_index (negsuc 4) 4 true start)
find_or_create_index_lem_example =
    find_or_create_index_lem start start-IsValid (omega arith) (negsuc 4) 4 true (omega arith)
      (omega arith, omega arith)

create_select_lem_example :
    Returns
      (λ id t. Adds 6 start id t × Selects start 0 1 bit_node (pos 3) (negsuc 1) false id t)
      (create_select 0 1 (pos 3) (negsuc 1) start)
create_select_lem_example =
    create_select_lem start start-IsValid 1 bit_node refl (omega arith) (pos 3) (negsuc 1)
      (omega arith) (omega arith) 0 (omega arith)

find_or_create_input-IsFound_example :
    Returns
      (λ id t. Adds 1 start id t × Source start "clk" 1 false id t)
      (find_or_create_input "clk" 1 false start)
find_or_create_input-IsFound_example =
    find_or_create_input-IsFound start start-IsValid (omega arith) "clk" 1 false

create_sequence-IsExtended_example :
    Returns (IsExtended assigned 2 0 array) (create_sequence 2 0 2 assigned)
create_sequence-IsExtended_example =
    create_sequence-IsExtended assigned assigned-IsValid (omega arith) 2 0 2 array
      (inr (sequence_node, bit_node, refl, refl, refl, refl, omega arith)) (omega arith) found_array

create_mux-IsMux_example :
    Returns
      (λ id t. Adds 1 start id t × IsMux start 1 invalid_id invalid_id id t)
      (create_mux 1 invalid_id invalid_id start)
create_mux-IsMux_example =
    create_mux-IsMux start start-IsValid (omega arith) 1 invalid_id invalid_id (omega arith)
      (inl refl) (inl refl)
