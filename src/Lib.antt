-- ===== src/Lib.antt =====
-- Verification library of InvestWise Pro: the guard around the market data providers, the
-- lifecycle of a signal from its detection to the item that is displayed with the engines it
-- passes, the sleeves of a book, the engines that report on a portfolio, the funding of a
-- purchase, the trading rules of a user, and the search for the sizes of several sleeves.
--
-- The parts, each with the code it is about:
--
--  Resilience: app/providers/resilience.py. `Breaker`, `Bucket`, `Cache` and `Retry` are its classes
--  and `retry`; `Tier` is `ResilienceTier.call` as one caller runs it, where what the other callers
--  do while a follower waits is a function of the state; `Flight` has the claims of many threads, with
--  one step for each block that holds the lock, and one for the event that a release sets after it.
--  Lifecycle: app/engines/state_machine.py with the engines that it calls: `Signals` (the stages of
--  app/schemas/state_machine.py), `Scoring`, `Tax`, `Risk`, `Decision`, `Adversary`
--  (app/agents/adversary.py) and `Machine` (the orchestrator).
--  Sleeves: app/services/sleeve_service.py over the table plan_sleeves: `Book` (the queries), `Rules`
--  (the checks), `Writes`, `Core`, `Backfill`, and `Steps`, every write as one step.
--  Engines: app/engines/safety_engine.py, lag_engine.py, fee_engine.py, allocation_engine.py
--  (`Rebalance`), learning_engine.py and whs_engine.py (`Health`).
--  Funding: app/services/funding_service.py: the amounts and the ledger, `Positions` (the rows and the
--  ranking of trims, with the currencies of app/services/fx.py), `Sales` (the funding plan), `Prose` and
--  `Purchase`; `Mix` and the classes of app/services/allocation_mix.py.
--  Rules: app/services/rules_service.py over the tables trading_rules and rule_events: `Conditions` (what
--  a rule says of a holding), `Holdings` (the index and the purge), `Evaluation`, `Writes`, `Outcomes`,
--  `Cards` and `Suggestions`; `Reachable` has every write but the
--  toggle as one step.
--  Splits: app/services/split_solver.py: `Grid` and `Neighbours` (the geometry), `Reading` (what is said of
--  a result) and `Search`.
--  Settings and Money: app/core/config.py and app/core/money.py.
--
-- How they interact: the orchestrator takes the engines as functions, and the tests fill it with
-- the modelled ones; the tax engine's numbers are what the adversary examines; the tier composes
-- the breaker, the bucket, the cache and retry; a purchase is planned on the holdings as the
-- currencies value them and on what the ledger leaves; the evaluation of rules starts with the
-- purge and reads the plans of execution.
--
-- Numbers: Python's floats and decimals are an interface, `Float`, whose laws are those of rounded
-- arithmetic and hold of NaN; `Float.Fixed` meets them, and the tests run on it. Counts are
-- natural numbers. Each method that reads the clock takes the reading, and the tier takes the
-- sequence of all readings. Failures of a handler are values: `Result`, `Reply` and `Outcome`.
--
-- Loops are structural recursion, over the attempts that `retry` has left, over the rounds that a
-- search has left or over a list. The bounds are the code's own: eight doublings of a grid's step
-- and six rounds of a refinement step.
--
-- Not modelled: the simulation of price paths, which is numpy and an argument of the risk engine;
-- the strategy catalogs, arguments of the sleeves; the language model behind the adversary's
-- narrative; the pushes of fired rules, the target solver, the recommendations, the backtests,
-- network clients and HTTP routes.
pub mod Prelude
pub mod Float
pub mod Money
pub mod Settings
pub mod Resilience
pub mod Lifecycle
pub mod Sleeves
pub mod Engines
pub mod Funding
pub mod Rules
pub mod Splits
