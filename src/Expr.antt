-- ===== src/Expr.antt =====
-- src/ir/expr_builder.cpp and its headers: the graph of expressions and its builder.
pub mod Graph
pub mod Literal
pub mod Builder
pub mod Eval
pub mod Valid
pub mod Dependency
pub mod Building
pub mod Position
