-- ===== src/Rules.antt =====
-- app/services/rules_service.py: the trading rules of a user, their latches and the log of their
-- firings. Python's methods of strings, the ids of new rows and the clock are arguments.
pub mod Data
pub mod Conditions
pub mod Holdings
pub mod Evaluation
pub mod Writes
pub mod Outcomes
pub mod Cards
pub mod Suggestions
pub mod Reachable
mod Tests
