-- ===== src/Stmt.antt =====
-- The statement builder: src/ir/stmt_builder.cpp and include/abys/ir/stmt_builder.h.
pub mod Builder
pub mod Outputs
pub mod Conditional
pub mod Case
pub mod Timing
pub mod Policy
pub mod Positions
pub mod Last
pub mod Clock
pub mod Flags
pub mod Kinds
