-- ===== src/Expr/Eval.antt =====
-- The evaluation of constant expressions by `int`: `try_evaluate` and `evaluate` of
-- src/ir/expr_builder.cpp.
pub mod Word
pub mod Answer
pub mod Steps
pub mod Try
pub mod Direct
pub mod Refines
pub mod Agree
pub mod Ends
pub mod Wide
