-- ===== src/Lib.antt =====
-- A verification library for the Obi proxy contract: a CosmWasm account that runs messages for its
-- admin, and for hot wallets within a spend limit in USD.
--
-- How the program works and where it is modelled
--
-- The chain calls the entry points of src/contract.rs. `instantiate` stores a `State` (src/state.rs);
-- `execute` loads it, lets a handler check the caller and change it, saves it, and returns a response
-- whose messages the chain then runs; `query` answers from it. A spend goes from `execute_execute`
-- through a sub-message (src/submsgs.rs), which says what coins it moves, to `check_coins`, which first
-- pays the contract's fee debt with one of the coins and then charges the caller's hot wallet
-- (src/hot_wallet.rs). The wallet converts each coin to USDC (src/sourced_coin.rs) by asking a pair
-- contract (src/pair_contract.rs, src/simulation.rs), whose replies are logged (src/sources.rs).
--
--   Types             the data: src/msg.rs, src/error.rs, the structs of the other files, and the types
--                     of cosmwasm_std and cw20 that they use
--   World             what the program calls and does not contain, as one record of parameters
--   Constants         src/constants.rs
--   Sources           src/sources.rs
--   Simulation        src/simulation.rs
--   PairContract      src/pair_contract.rs
--   PairTable         src/pair_contract_defaults.rs and the lookup in src/state.rs
--   SourcedCoin       src/sourced_coin.rs
--   HotWallet         src/hot_wallet.rs
--   State             src/state.rs
--   Submsgs           src/submsgs.rs
--   Contract          src/contract.rs: Start (instantiate, migrate), Admin, Wallets, Debt (the
--                     repayment and the check of coins), Spend (Execute, SimExecute), Queries; the
--                     other modules hold theorems: Changes, Effect and Outsiders on one call; Run,
--                     Succession, Distinct, Every, Ceiling, Outlays and Period on sequences of calls;
--                     Total on calls that do not abort; Refines on the account; Instantiated and
--                     Migrated on the entry points; CanSpend, Transfer and Agreement on the query
--                     beside the spend
--   Account           an abstract account, the requests it gets and the step for each; execute of
--                     src/contract.rs implements it, with State/Draws on the spender's wallet
--   Common            shared names, lists, results and actions
--   Tests             a concrete chain and runs on it; Tests/Suite the repository's own unit tests, from
--                     src/tests_hot_wallet.rs, src/tests_state.rs, src/tests_pair_contract.rs,
--                     src/tests_contract.rs, src/tests_helpers.rs and src/tests_constants.rs
--
-- How it is modelled
--
-- Every function keeps its name. A method on `&mut self`, and a handler, takes the state and returns it
-- beside its result (`Exec` in Common/Exec.antt), so what was written before an error is kept, as in
-- `check_coins`, which goes on after a failed repayment. A result is `ok`, `err` or `panic`: indexing an
-- empty list, overflow of an addition and the panics of chrono are `panic`. Amounts are natural numbers;
-- where the source leaves `u64`, `u128` or `u16`, the model writes `% u64_mod`, the saturation or the
-- panic out. The only fuel is that of `to_string`, 39 digits, which a `u128` needs at most.
--
-- `World` stands for the storage, the validation of addresses, the serialisation of messages, the
-- exchanges, semver and chrono. Theorems name what they rely on: `StoreLaws` (a load returns what was
-- saved), `VersionLaws` (the recorded version is the one that was set, and no version is older than
-- itself), `ChronoLaws` (months run from 1 to 12, adding days adds seconds, a later month begins later)
-- and `ChainReturns` (no call of the chain aborts, and each month of the years 1970 to 9999 has a first
-- day). In a sequence of calls (Contract/Run.antt) each call has its own answers of the exchanges, so
-- prices may change from call to call, and stay during one.
--
-- A wallet counts the value of a coin as the source does, cast to a `u64`: wherever a theorem speaks of
-- a cost, it is the sum of the values of the coins, each modulo 2^64.
--
-- Not modelled: src/integration_tests.rs, a harness that no test uses; src/lib.rs, examples/schema.rs,
-- the TypeScript client, the scripts and the output of `println!`. The branch of `query_contract` under
-- `cfg(test)` is not part of the contract: the unit tests run on an exchange that quotes its prices.
-- The expiry of an allowance and the logo of a token are never read, and are left out of the types.
pub mod Common
pub mod Types
pub mod World
pub mod Constants
pub mod Sources
pub mod Simulation
pub mod PairContract
pub mod PairTable
pub mod SourcedCoin
pub mod HotWallet
pub mod Account
pub mod State
pub mod Submsgs
pub mod Contract
pub mod Tests
