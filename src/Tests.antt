-- ===== src/Tests.antt =====
-- Runs at concrete inputs: the theorems on expressions and on statements applied.
mod Graphs
mod Values
mod Processes
mod Designs
mod Netlists
mod Subroutines
mod Pragmas
mod Dumps
