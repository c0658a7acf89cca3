-- ===== src/Examples.antt =====
-- Runs of the model, and the theorems at inputs that meet their hypotheses.
mod Trees
mod Packing
mod Draws
mod Changes
mod Database
mod Transactions
mod Outcomes
mod Placements
mod Programs
mod Reports
mod StockLevels
