-- ===== src/Contract/CanSpend.antt =====
-- The query `CanSpend` of src/contract.rs beside `Execute`.
use juno_alpha_proxy_contrac.Common.{
  String, ◌≡◌, refl, sym, ap, ◌∙◌, false, true, Option, List, [], ◌∷◌, ok, Result, arith, IsOk,
}
use juno_alpha_proxy_contrac.Common.Exec
use juno_alpha_proxy_contrac.Types.{
  BankMsg, Coin, CosmosMsg, CoinLimit, HotWallet, State, Env, MessageInfo, Response, CorePayload,
  SubmsgType, PendingSubmsg, SourcedRepayMsg, ContractError,
}
use juno_alpha_proxy_contrac.World.{World}
use juno_alpha_proxy_contrac.State.{is_admin, maybe_get_hot_wallet, check_and_update_spend_limits}
use juno_alpha_proxy_contrac.State.Checking.{check_spend_limits_complete}
use juno_alpha_proxy_contrac.Submsgs.Counted.{moved, process_and_get_msg_type-moved}
use juno_alpha_proxy_contrac.Submsgs.{add_funds, process_bank_type, process_and_get_msg_type}
use juno_alpha_proxy_contrac.Contract.Debt.{repay_from, spent_state, save_spent, check_coins}
use juno_alpha_proxy_contrac.Contract.Spend.Cases.{
  Way, immediate, authorized, checked, execute_execute-Way, payload_of,
}
use juno_alpha_proxy_contrac.Contract.Spend.{
  pending_submsg, is_authorized_call, check_by_type, check_and_spend_total_coins, execute_from,
  execute_execute,
}
use juno_alpha_proxy_contrac.Contract.Queries.{spendable_funds, is_authorized_msg, query_can_spend}

abbrev pub bank_send : String → List Coin → CosmosMsg
bank_send to_address amount = CosmosMsg.bank (BankMsg.send to_address amount)

pub bank_send-processed :
    (w : World) (self : PendingSubmsg) {to_address : String} {amount : List Coin}
    → self.msg ≡ bank_send to_address amount
    → (self' : PendingSubmsg) × (process_and_get_msg_type w self ≡ (ok SubmsgType.bank_send, self'))
      × (self'.funds ≡ amount)
unfolding process_and_get_msg_type process_bank_type
bank_send-processed w self {to_address} {amount} is_msg =
    let self' = (process_and_get_msg_type w self).1 in
    let processed : process_and_get_msg_type w self ≡ (ok SubmsgType.bank_send, self') =
      ground arith in
    (
      self',
      processed,
      process_and_get_msg_type-moved w self processed (λ e. ground arith) ∙ ap (moved w) is_msg,
    )

module _ (w : World) (storage : w.Storage) (cfg : State) (loaded : w.load storage ≡ ok cfg)
    (no_debt : cfg.uusd_fee_debt ≡ 0) where
  check_coins-IsOk :
      (payload : CorePayload) (spend : List Coin)
      → IsOk (check_coins w payload spend storage).0
      → IsOk
          (check_and_update_spend_limits w storage payload.current_time payload.info.sender spend
            cfg).0
  unfolding check_coins repay_from save_spent spent_state
  check_coins-IsOk payload spend h = ground arith

  bank_send-IsOk :
      (payload : CorePayload) (to_address : String) (amount : List Coin)
      {r : Option SourcedRepayMsg} {storage' : w.Storage}
      → check_and_spend_total_coins w (bank_send to_address amount) payload storage
        ≡ (ok r, storage')
      → IsOk (check_coins w payload amount storage).0
  unfolding check_and_spend_total_coins check_by_type add_funds
  bank_send-IsOk payload to_address amount e =
      let (self', processed, same) =
        bank_send-processed w
          (add_funds payload.info.funds (pending_submsg (bank_send to_address amount))) refl in
      ground arith

  pub Way-bank_send :
      (env : Env) (info : MessageInfo) (to_address : String) (amount : List Coin)
      {p : Result ContractError Response × w.Storage} {res : Response} {storage' : w.Storage}
      → is_admin cfg info.sender ≡ false
      → Way w env info false storage cfg loaded (bank_send to_address amount ∷ []) p
      → p ≡ (ok res, storage')
      → IsOk (check_and_update_spend_limits w storage env.block.time info.sender amount cfg).0
  unfolding is_authorized_call execute_from
  Way-bank_send env info to_address amount not_admin (immediate at_once q) e = absurd (ground arith)
  Way-bank_send env info to_address amount not_admin (authorized slow call q) e =
      absurd (ground arith)
  Way-bank_send env info to_address amount not_admin (checked slow call q) e =
      let payload : CorePayload = record (payload_of env info) {
        this_msg = bank_send to_address amount;
      } in
      let (r, s1, first_check, later) =
        Exec.>>=-eq-ok (check_and_spend_total_coins w (bank_send to_address amount) payload) _
          storage (sym q ∙ e) in
      check_coins-IsOk payload amount (bank_send-IsOk payload to_address amount first_check)

-- While there is no debt, a transfer of coins that a hot wallet can make with `Execute` is one that
-- `CanSpend`, asked just before, answers with yes.
pub query_can_spend_complete :
    (w : World) (env : Env) (info : MessageInfo) (to_address : String) (amount : List Coin)
    (storage : w.Storage) (cfg : State) {wal : HotWallet} {l : CoinLimit} {limits : List CoinLimit}
    → w.load storage ≡ ok cfg
    → cfg.uusd_fee_debt ≡ 0
    → is_admin cfg info.sender ≡ false
    → maybe_get_hot_wallet cfg info.sender ≡ ok wal
    → wal.spend_limits ≡ l ∷ limits
    → IsOk (execute_execute w env info (bank_send to_address amount ∷ []) false storage).0
    → query_can_spend w storage env info.sender (bank_send to_address amount ∷ [])
      ≡ ok (record { can_spend = true })
unfolding query_can_spend spendable_funds is_authorized_msg
query_can_spend_complete w env info to_address amount storage cfg loaded no_debt not_admin found e
      h =
    let spent =
      Way-bank_send w storage cfg loaded no_debt env info to_address amount not_admin
        (execute_execute-Way w env info false storage cfg loaded (bank_send to_address amount ∷ []))
        (Exec.IsOk-value _ h).1 in
    let checks =
      check_spend_limits_complete w storage env.block.time info.sender amount cfg not_admin found e
        spent in
    ground arith
