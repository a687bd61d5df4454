-- ===== src/Splits.antt =====
-- app/services/split_solver.py: the search for the sizes of several sleeves at once. The measure of a
-- split, a simulation, is an argument.
pub mod Grid
pub mod Neighbours
pub mod Reading
pub mod Search
mod Tests
