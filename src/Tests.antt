-- ===== src/Tests.antt =====
-- A concrete chain, runs of the contract on it, and instances of the theorems.
mod Chain
mod Wallets
mod Handlers
mod Calls
mod Limits
mod Transfers
mod Prices
mod Runs
mod Suite
