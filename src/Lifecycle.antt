-- ===== src/Lifecycle.antt =====
-- The position lifecycle: Detected, Vetted, Optimized, Ranked, Displayed, or Vetoed. One module for
-- each engine, and the orchestrator of app/engines/state_machine.py over them.
pub mod Tests
pub mod Signals
pub mod Scoring
pub mod Tax
pub mod Risk
pub mod Decision
pub mod Adversary
pub mod Machine
