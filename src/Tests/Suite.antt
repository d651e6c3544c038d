-- ===== src/Tests/Suite.antt =====
-- The repository's own tests, each as the proposition that its assertions hold of the model.
mod LocalChain
mod Wallet
mod Limits
mod Queries
mod Helpers
mod Calls
mod Wallets
