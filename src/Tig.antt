-- ===== src/Tig.antt =====
-- The graph of modules and the builder that makes it: include/abys/ir/tig.h and
-- src/ir/tig_builder.cpp.
pub mod Graph
pub mod Builder
pub mod Calls
pub mod Signals
pub mod Dumper
