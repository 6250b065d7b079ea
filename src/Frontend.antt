-- ===== src/Frontend.antt =====
-- The frontend: the pragmas in the comments and attributes of a source text, under src/frontend.
pub mod Pragma
