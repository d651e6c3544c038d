-- ===== src/Contract/Transfer.antt =====
-- When a hot wallet's transfer goes through `Execute` of src/contract.rs.
use juno_alpha_proxy_contrac.Common.{
  ℕ, ◌≤◌, String, ◌≡◌, refl, ◌↔◌, false, List, [], ◌∷◌, ok, arith, IsOk,
}
use juno_alpha_proxy_contrac.Common.Exec
use juno_alpha_proxy_contrac.Types.{
  Coin, CoinLimit, HotWallet, State, Env, MessageInfo, CorePayload,
}
use juno_alpha_proxy_contrac.World.{World}
use juno_alpha_proxy_contrac.HotWallet.{should_reset, process_spend_vec}
use juno_alpha_proxy_contrac.HotWallet.Spending.{Costs, process_spend_vec-IsOk_iff}
use juno_alpha_proxy_contrac.State.{
  is_admin, maybe_get_hot_wallet, maybe_get_hot_wallet_mut, update_wallet,
  check_and_update_spend_limits,
}
use juno_alpha_proxy_contrac.State.Spending.{check_and_update_spend_limits-charges}
use juno_alpha_proxy_contrac.Submsgs.{add_funds}
use juno_alpha_proxy_contrac.Contract.Debt.{repay_from, spent_state, save_spent, check_coins}
use juno_alpha_proxy_contrac.Contract.Spend.Cases.{payload_of, execute_execute-Way}
use juno_alpha_proxy_contrac.Contract.Spend.{
  pending_submsg, is_authorized_call, check_by_type, check_and_spend_total_coins, execute_from,
  execute_execute,
}
use juno_alpha_proxy_contrac.Contract.CanSpend.{bank_send, bank_send-processed, Way-bank_send}

module _ (w : World) (storage : w.Storage) (cfg : State) (loaded : w.load storage ≡ ok cfg)
    (no_debt : cfg.uusd_fee_debt ≡ 0) (saves : (s : State) → IsOk (w.save s storage)) where
  IsOk-check_coins :
      (payload : CorePayload) (spend : List Coin)
      → IsOk
          (check_and_update_spend_limits w storage payload.current_time payload.info.sender spend
            cfg).0
      → IsOk (check_coins w payload spend storage).0
  unfolding check_coins repay_from save_spent spent_state
  IsOk-check_coins payload spend h =
      let p =
        check_and_update_spend_limits w storage payload.current_time payload.info.sender spend
          cfg in
      ground (arith, saves p.1)

  IsOk-bank_send :
      (payload : CorePayload) (to_address : String) (amount : List Coin)
      → IsOk (check_coins w payload amount storage).0
      → IsOk (check_and_spend_total_coins w (bank_send to_address amount) payload storage).0
  unfolding check_and_spend_total_coins check_by_type add_funds
  IsOk-bank_send payload to_address amount h =
      let (self', processed, same) =
        bank_send-processed w
          (add_funds payload.info.funds (pending_submsg (bank_send to_address amount))) refl in
      ground arith

  IsOk-execute_execute :
      (env : Env) (info : MessageInfo) (to_address : String) (amount : List Coin)
      → is_admin cfg info.sender ≡ false
      → IsOk (check_and_update_spend_limits w storage env.block.time info.sender amount cfg).0
      → IsOk (execute_execute w env info (bank_send to_address amount ∷ []) false storage).0
  unfolding execute_execute execute_from is_authorized_call
  IsOk-execute_execute env info to_address amount not_admin h =
      let payload : CorePayload = record (payload_of env info) {
        this_msg = bank_send to_address amount;
      } in
      let spent = IsOk-bank_send payload to_address amount (IsOk-check_coins payload amount h) in
      ground arith

IsOk-update :
    (w : World) (storage : w.Storage) (env : Env) (addr : String) (amount : List Coin) (cfg : State)
    {wal : HotWallet}
    → is_admin cfg addr ≡ false
    → maybe_get_hot_wallet cfg addr ≡ ok wal
    → should_reset w env.block.time wal ≡ false
    → IsOk (process_spend_vec w storage amount wal).0
    → IsOk (check_and_update_spend_limits w storage env.block.time addr amount cfg).0
unfolding check_and_update_spend_limits maybe_get_hot_wallet maybe_get_hot_wallet_mut update_wallet
IsOk-update w storage env addr amount cfg not_admin found running h = ground arith

-- Where there is no debt, the state can be saved, and the sender is not the admin but a hot wallet
-- whose period is not over: its transfer of coins by `Execute` succeeds exactly if the coins can be
-- converted and their cost, the sum of their values each counted modulo 2^64, is within what
-- remains of the wallet's limit.
pub execute_execute-IsOk_iff :
    (w : World) (env : Env) (info : MessageInfo) (to_address : String) (amount : List Coin)
    (storage : w.Storage) (cfg : State) {wal : HotWallet} {l : CoinLimit} {limits : List CoinLimit}
    → w.load storage ≡ ok cfg
    → cfg.uusd_fee_debt ≡ 0
    → ((s : State) → IsOk (w.save s storage))
    → is_admin cfg info.sender ≡ false
    → maybe_get_hot_wallet cfg info.sender ≡ ok wal
    → wal.spend_limits ≡ l ∷ limits
    → should_reset w env.block.time wal ≡ false
    → IsOk (execute_execute w env info (bank_send to_address amount ∷ []) false storage).0
      ↔ ((n : ℕ) × Costs w storage amount n × (n ≤ l.limit_remaining))
execute_execute-IsOk_iff w env info to_address amount storage cfg {wal} loaded no_debt saves
      not_admin found e running =
    (
      λ h.
          let spent =
            Way-bank_send w storage cfg loaded no_debt env info to_address amount not_admin
              (execute_execute-Way w env info false storage cfg loaded
                (bank_send to_address amount ∷ []))
              (Exec.IsOk-value _ h).1 in
          let ((wal', _, (n, cost, fits, _)), _) =
            check_and_update_spend_limits-charges w storage env.block.time info.sender amount cfg
              not_admin found e (Exec.IsOk-value _ spent).1 in
          (n, cost, rw running at fits),
      λ fits.
          IsOk-execute_execute w storage cfg loaded no_debt saves env info to_address amount
            not_admin
            (IsOk-update w storage env info.sender amount cfg not_admin found running
              ((process_spend_vec-IsOk_iff w storage wal e amount).1 fits)),
    )
