-- ===== src/Tig/Graph.antt =====
-- include/abys/ir/tig.h and include/abys/infra/naming.h: modules, their nodes and edges, subroutines,
-- and the prefixes of the names that are made up.
use abys.Prelude.{ℕ, String, Bool, List, [], ◌==◌}
use abys.Expr.Graph.{ExprId, SignalWidth, EdgeKind, ExprGraph, initial_graph, invalid_id}

abbrev pub NodeId : Type 0
NodeId = ℕ

abbrev pub ModuleId : Type 0
ModuleId = ℕ

abbrev pub PortIndex : Type 0
PortIndex = ℕ

-- kInvalidNodeId and kInvalidModuleId, the largest uint32_t
abbrev pub invalid_node : NodeId
invalid_node = 4_294_967_295

abbrev pub invalid_module : ModuleId
invalid_module = 4_294_967_295

pub record SignalProperties : Type 0 where
  pub name : String
  pub unpacked_dims : List SignalWidth
  pub width : SignalWidth
  pub sign : Bool

pub record EdgeRef : Type 0 where
  pub node_id : NodeId
  pub port_idx : PortIndex

-- an edge whose fields have their defaults
abbrev pub no_edge : EdgeRef
no_edge = record { node_id = invalid_node; port_idx = 0 }

pub data NodeKind : Type 0 where
  submodule pi po op merge ff_merge ff latch memory macro unknown : NodeKind

abbrev pub kind_code : NodeKind → ℕ
kind_code NodeKind.submodule = 0
kind_code NodeKind.pi = 1
kind_code NodeKind.po = 2
kind_code NodeKind.op = 3
kind_code NodeKind.merge = 4
kind_code NodeKind.ff_merge = 5
kind_code NodeKind.ff = 6
kind_code NodeKind.latch = 7
kind_code NodeKind.memory = 8
kind_code NodeKind.macro = 9
kind_code NodeKind.unknown = 10

abbrev pub is_kind : NodeKind → NodeKind → Bool
is_kind a b = kind_code a == kind_code b

pub record Output : Type 0 where
  pub name : String
  pub width : SignalWidth
  pub sign : Bool

pub record Node : Type 0 where
  pub kind : NodeKind
  pub name : String
  pub module_id : ModuleId
  pub clk_edge : EdgeKind
  pub rst_edge : EdgeKind
  pub inputs : List EdgeRef
  pub outputs : List Output
  pub expr_roots : List ExprId
  pub combs : List Bool
  pub expr_graph : ExprGraph

-- a node whose fields have their defaults, but for its kind
abbrev pub node_of_kind : NodeKind → Node
node_of_kind kind = record {
  kind = kind;
  name = "";
  module_id = invalid_module;
  clk_edge = EdgeKind.none;
  rst_edge = EdgeKind.none;
  inputs = [];
  outputs = [];
  expr_roots = [];
  combs = [];
  expr_graph = initial_graph;
}

pub record Module : Type 0 where
  pub name : String
  pub variant_suffix : String
  pub input_ports : List SignalProperties
  pub output_ports : List SignalProperties
  pub nodes : List Node
  pub signals : List SignalProperties

abbrev pub new_module : String → String → Module
new_module name variant_suffix = record {
  name = name;
  variant_suffix = variant_suffix;
  input_ports = [];
  output_ports = [];
  nodes = [];
  signals = [];
}

pub record Subroutine : Type 0 where
  pub name : String
  pub inputs : List SignalProperties
  pub expr_graph : ExprGraph
  pub expr_root : ExprId

abbrev pub new_subroutine : Subroutine
new_subroutine = record {
  name = "";
  inputs = [];
  expr_graph = initial_graph;
  expr_root = invalid_id;
}

pub record Tig : Type 0 where
  pub top_module_name : String
  pub modules : List Module
  pub subroutines : List Subroutine

pub record NamingOptions : Type 0 where
  pub lowering_scope_marker : String
  pub lowering_scope_separator : String
  pub lowering_anonymous_block_name : String
  pub builder_temporary_signal_prefix : String
  pub builder_module_variant_prefix : String
  pub dumper_temporary_signal_prefix : String

abbrev pub default_naming : NamingOptions
default_naming = record {
  lowering_scope_marker = "_abys";
  lowering_scope_separator = "_";
  lowering_anonymous_block_name = "block";
  builder_temporary_signal_prefix = "abys_builder_tmp";
  builder_module_variant_prefix = "_abys_variant";
  dumper_temporary_signal_prefix = "abys_dumper_tmp";
}
