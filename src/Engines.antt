-- ===== src/Engines.antt =====
-- The engines of app/engines that report on a whole portfolio.
pub mod Safety
pub mod Lag
pub mod Fees
pub mod Rebalance
pub mod Learning
pub mod Health
pub mod Tests
