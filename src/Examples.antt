-- ===== src/Examples.antt =====
-- Concrete inputs at which the theorems apply, and runs of the code at them.
mod Data
mod Tasks
mod Caches
mod Daemons
mod Databases
mod Requests
mod Logs
mod Workers
mod Pools
mod Runs
mod Groups
mod Factorials
mod Messages
mod Settings
