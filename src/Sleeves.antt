-- ===== src/Sleeves.antt =====
-- app/services/sleeve_service.py and the table `PlanSleeve` of app/models/tables.py. The two catalogs
-- of strategies and Python's `strip` and `upper` are arguments of what asks them.
pub mod Book
pub mod Rules
pub mod Writes
pub mod Core
pub mod Backfill
pub mod Steps
pub mod Rows
pub mod Cores
pub mod Effects
pub mod Once
pub mod Tests
