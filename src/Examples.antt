-- ===== src/Examples.antt =====
-- Concrete runs of the modelled code, at which the theorems are applied.
mod Data
mod Graphs
mod Rules
mod Reviews
mod Codes
mod Merges
mod Scopes
mod Queue
