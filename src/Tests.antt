-- ===== src/Tests.antt =====
-- Runs of the theorems at concrete inputs, where their hypotheses hold.
mod Registry
mod Interleavings
mod Strings
mod Reports
mod Packages
mod Tasks
mod Synchronisation
mod Offers
mod Downloads
mod Executions
mod Logs
mod Agents
mod Tunnels
