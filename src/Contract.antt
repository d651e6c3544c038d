-- ===== src/Contract.antt =====
-- src/contract.rs: the entry points. The handlers stand in the modules below; `execute` and `query`
-- choose among them.
pub mod Storage
pub mod Start
pub mod Admin
pub mod Wallets
pub mod Debt
pub mod Spend
pub mod Queries
pub mod Changes
pub mod Effect
pub mod Refines
pub mod Run
pub mod Outsiders
pub mod Outlays
pub mod Period
pub mod Succession
pub mod Distinct
pub mod Every
pub mod Ceiling
pub mod Total
pub mod CanSpend
pub mod Migrated
pub mod Transfer
pub mod Agreement
pub mod Instantiated
use juno_alpha_proxy_contrac.Common.{false, true}
use juno_alpha_proxy_contrac.Common.Exec.{Exec}
use juno_alpha_proxy_contrac.Common.Outcome.{◌>>=◌}
use juno_alpha_proxy_contrac.Types.{
  Binary, Env, MessageInfo, Response, ExecuteMsg, QueryMsg, QueryReply, ContractError, StdResult,
}
use juno_alpha_proxy_contrac.World.{World}
use juno_alpha_proxy_contrac.Contract.Admin.{
  propose_update_admin, confirm_update_admin, cancel_update_admin,
}
use juno_alpha_proxy_contrac.Contract.Wallets.{add_hot_wallet, rm_hot_wallet}
use juno_alpha_proxy_contrac.Contract.Spend.{execute_execute}
use juno_alpha_proxy_contrac.Contract.Queries.{
  query_admin, query_pending, query_can_execute, query_hot_wallets, query_can_spend,
}

module _ (w : World) where
  unfoldable pub execute : Env → MessageInfo → ExecuteMsg → Exec w.Storage ContractError Response
  execute env info (ExecuteMsg.execute msgs) = execute_execute w env info msgs false
  execute env info (ExecuteMsg.sim_execute msgs) = execute_execute w env info msgs true
  execute env info (ExecuteMsg.add_hot_wallet new_hot_wallet) =
      add_hot_wallet w env info new_hot_wallet
  execute env info (ExecuteMsg.rm_hot_wallet doomed_hot_wallet) =
      rm_hot_wallet w env info doomed_hot_wallet
  execute env info (ExecuteMsg.propose_update_admin new_admin) =
      propose_update_admin w env info new_admin
  execute env info (ExecuteMsg.confirm_update_admin signers) =
      confirm_update_admin w env info signers
  execute env info ExecuteMsg.cancel_update_admin = cancel_update_admin w env info

  unfoldable pub query : w.Storage → Env → QueryMsg → StdResult Binary
  query storage env QueryMsg.admin = do
    r ← query_admin w storage
    w.reply_to_binary (QueryReply.admin r)
  query storage env QueryMsg.pending = do
    r ← query_pending w storage
    w.reply_to_binary (QueryReply.admin r)
  query storage env (QueryMsg.can_execute sender msg) = do
    r ← query_can_execute w storage sender msg
    w.reply_to_binary (QueryReply.can_execute r)
  query storage env QueryMsg.hot_wallets = do
    r ← query_hot_wallets w storage
    w.reply_to_binary (QueryReply.hot_wallets r)
  query storage env (QueryMsg.can_spend sender msgs) = do
    r ← query_can_spend w storage env sender msgs
    w.reply_to_binary (QueryReply.can_spend r)
