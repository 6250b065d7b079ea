-- ===== src/Expr/Graph.antt =====
-- include/abys/ir/type.h and include/abys/ir/expr.h: identifiers and the graph of expressions.
use abys.Prelude.{ℕ, ◌^◌, String, Bool, false, List, [], ◌∷◌, Assoc, ◌==◌}
use abys.Prelude.Text.{Text, text}

-- The identifiers are uint32_t, a width is a uint64_t.
abbrev pub ExprId : Type 0
ExprId = ℕ

abbrev pub SubrId : Type 0
SubrId = ℕ

abbrev pub SignalWidth : Type 0
SignalWidth = ℕ

abbrev pub id_limit : ℕ
id_limit = 2 ^ 32

abbrev pub width_limit : ℕ
width_limit = 2 ^ 64

-- kInvalidExprId, the largest uint32_t
abbrev pub invalid_id : ExprId
invalid_id = 4_294_967_295

-- the edge that an event waits for
pub data EdgeKind : Type 0 where
  none posedge negedge both_edges : EdgeKind

pub data Op : Type 0 where
  unknown const input : Op
  logical_not and_reduce or_reduce xor_reduce bitwise_not : Op
  and or xor unary_minus : Op
  add sub mul div mod_op pow : Op
  shl shr ashr : Op
  eq lt le : Op
  mux list case convert concat gather sequence unpacked_assign masked_assign : Op
  reverse range unpacked_range unpacked_select both_edge call : Op

-- the value of the enumerator
abbrev pub op_code : Op → ℕ
op_code Op.unknown = 0
op_code Op.const = 1
op_code Op.input = 2
op_code Op.logical_not = 3
op_code Op.and_reduce = 4
op_code Op.or_reduce = 5
op_code Op.xor_reduce = 6
op_code Op.bitwise_not = 7
op_code Op.and = 8
op_code Op.or = 9
op_code Op.xor = 10
op_code Op.unary_minus = 11
op_code Op.add = 12
op_code Op.sub = 13
op_code Op.mul = 14
op_code Op.div = 15
op_code Op.mod_op = 16
op_code Op.pow = 17
op_code Op.shl = 18
op_code Op.shr = 19
op_code Op.ashr = 20
op_code Op.eq = 21
op_code Op.lt = 22
op_code Op.le = 23
op_code Op.mux = 24
op_code Op.list = 25
op_code Op.case = 26
op_code Op.convert = 27
op_code Op.concat = 28
op_code Op.gather = 29
op_code Op.sequence = 30
op_code Op.unpacked_assign = 31
op_code Op.masked_assign = 32
op_code Op.reverse = 33
op_code Op.range = 34
op_code Op.unpacked_range = 35
op_code Op.unpacked_select = 36
op_code Op.both_edge = 37
op_code Op.call = 38

abbrev pub is_op : Op → Op → Bool
is_op a b = op_code a == op_code b

pub record Node : Type 0 where
  pub op : Op
  pub width : SignalWidth
  pub sign : Bool
  pub operands : List ExprId

-- what a node holds before its fields are assigned
abbrev pub blank : Node
blank = record { op = Op.unknown; width = 0; sign = false; operands = [] }

pub record Constant : Type 0 where
  pub id : ExprId
  pub value : Text

pub record Call : Type 0 where
  pub id : ExprId
  pub subr_id : SubrId
  pub name : String

pub record UnpackedProperties : Type 0 where
  pub id : ExprId
  pub base : ExprId
  pub unpacked_dims : List SignalWidth
  pub width : SignalWidth
  pub sign : Bool

pub record ExprGraph : Type 0 where
  pub nodes : List Node
  pub inputs : Assoc ExprId
  pub constants : List Constant
  pub calls : List Call
  pub unpacked_properties : List UnpackedProperties

abbrev pub constant_zero : ExprId
constant_zero = 0

abbrev pub constant_one : ExprId
constant_one = 1

abbrev pub bit_node : Node
bit_node = record { op = Op.const; width = 1; sign = false; operands = [] }

-- the two constants that every graph begins with
abbrev pub initial_graph : ExprGraph
initial_graph = record {
  nodes = bit_node ∷ bit_node ∷ [];
  inputs = [];
  constants =
      record { id = constant_zero; value = text "1'b0" }
      ∷ record { id = constant_one; value = text "1'b1" }
      ∷ [];
  calls = [];
  unpacked_properties = [];
}
