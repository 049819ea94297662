-- ===== src/Examples.antt =====
-- Services in memory, which meet the assumptions, and the theorems at concrete inputs.
mod Memory
mod Services
mod Sorting
mod Locks
mod Accounts
mod Reports
mod Settlement
mod Orders
mod Payments
mod Sagas
mod Flows
mod Messages
mod Runs
mod Cleanup
mod Brokers
mod App
mod Ledger
mod Races
