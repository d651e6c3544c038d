-- ===== src/Contract/Agreement.antt =====
-- Where the answer of the query `CanSpend` of src/contract.rs is exact.
use juno_alpha_proxy_contrac.Common.{String, ◌≡◌, ◌↔◌, false, true, List, [], ◌∷◌, ok, arith, IsOk}
use juno_alpha_proxy_contrac.Types.{Coin, CoinLimit, HotWallet, State, Env, MessageInfo}
use juno_alpha_proxy_contrac.World.{World}
use juno_alpha_proxy_contrac.HotWallet.{should_reset, check_spend_vec}
use juno_alpha_proxy_contrac.HotWallet.Spending.{process_spend_vec-IsOk_iff}
use juno_alpha_proxy_contrac.HotWallet.Checking.{check_spend_vec-single}
use juno_alpha_proxy_contrac.State.{is_admin, maybe_get_hot_wallet, check_spend_limits}
use juno_alpha_proxy_contrac.Contract.Spend.{execute_execute}
use juno_alpha_proxy_contrac.Contract.Queries.{spendable_funds, is_authorized_msg, query_can_spend}
use juno_alpha_proxy_contrac.Contract.CanSpend.{bank_send, query_can_spend_complete}
use juno_alpha_proxy_contrac.Contract.Transfer.{execute_execute-IsOk_iff}

module _ (w : World) (storage : w.Storage) (env : Env) (sender : String) (cfg : State)
    (wal : HotWallet) (loaded : w.load storage ≡ ok cfg) (not_admin : is_admin cfg sender ≡ false)
    (found : maybe_get_hot_wallet cfg sender ≡ ok wal)
    (running : should_reset w env.block.time wal ≡ false) where
  -- The answer yes to a transfer comes from the dry run on the wallet.
  query_can_spend-yes :
      (to_address : String) (amount : List Coin)
      → query_can_spend w storage env sender (bank_send to_address amount ∷ [])
        ≡ ok (record { can_spend = true })
      → IsOk (check_spend_vec w storage amount false wal)
  unfolding query_can_spend spendable_funds is_authorized_msg check_spend_limits
  query_can_spend-yes to_address amount answer = ground arith

-- Where there is no debt, the state can be saved, and the sender is not the admin but a hot wallet
-- whose period is not over: `CanSpend` answers with yes to a transfer of a single coin exactly if
-- `Execute` would make that transfer.
pub query_can_spend_single :
    (w : World) (env : Env) (info : MessageInfo) (to_address : String) (coin : Coin)
    (storage : w.Storage) (cfg : State) {wal : HotWallet} {l : CoinLimit} {limits : List CoinLimit}
    → w.load storage ≡ ok cfg
    → cfg.uusd_fee_debt ≡ 0
    → ((s : State) → IsOk (w.save s storage))
    → is_admin cfg info.sender ≡ false
    → maybe_get_hot_wallet cfg info.sender ≡ ok wal
    → wal.spend_limits ≡ l ∷ limits
    → should_reset w env.block.time wal ≡ false
    → (query_can_spend w storage env info.sender (bank_send to_address (coin ∷ []) ∷ [])
        ≡ ok (record { can_spend = true }))
      ↔ IsOk (execute_execute w env info (bank_send to_address (coin ∷ []) ∷ []) false storage).0
query_can_spend_single w env info to_address coin storage cfg {wal} loaded no_debt saves not_admin
      found e running =
    (
      λ answer.
          let checked =
            query_can_spend-yes w storage env info.sender cfg wal loaded not_admin found running
              to_address (coin ∷ []) answer in
          (execute_execute-IsOk_iff w env info to_address (coin ∷ []) storage cfg loaded no_debt
              saves not_admin found e running).1
            ((process_spend_vec-IsOk_iff w storage wal e (coin ∷ [])).0
              ((check_spend_vec-single w storage wal e coin).0 checked)),
      query_can_spend_complete w env info to_address (coin ∷ []) storage cfg loaded no_debt
          not_admin found e,
    )
