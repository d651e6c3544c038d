-- ===== src/Contract/Spend/Access.antt =====
-- Who may use `Execute` in src/contract.rs.
use juno_alpha_proxy_contrac.Common.{
  String, ◌≢◌, ◌≡◌, sym, ◌∙◌, inl, inr, Bool, false, true, Option, none, List, ◌∷◌, Result, ok,
  arith, Bool-cases, find?, IsOk,
}
use juno_alpha_proxy_contrac.Common.Exec
use juno_alpha_proxy_contrac.Common.Outcome.{Result-cases}
use juno_alpha_proxy_contrac.Types.{
  Coin, CosmosMsg, WasmMsg, Env, MessageInfo, Response, State, CorePayload, SourcedRepayMsg,
  SubmsgType, ContractError,
}
use juno_alpha_proxy_contrac.World.{World, StoreLaws}
use juno_alpha_proxy_contrac.State.{is_admin, has_address, is_active_hot_wallet}
use juno_alpha_proxy_contrac.State.Spending.{check_and_update_spend_limits-stranger}
use juno_alpha_proxy_contrac.Submsgs.{add_funds, process_and_get_msg_type}
use juno_alpha_proxy_contrac.Contract.Debt.{repay_from, spent_state, save_spent, check_coins}
use juno_alpha_proxy_contrac.Contract.Debt.Repay.{debt_free, repay_from-ok}
use juno_alpha_proxy_contrac.Contract.Spend.Cases.{
  Way, immediate, empty, authorized, checked, execute_execute-Way,
}
use juno_alpha_proxy_contrac.Contract.Spend.{
  is_spend, pending_submsg, attach, is_authorized_call, check_by_type, check_and_spend_total_coins,
  execute_from, execute_execute,
}

-- Neither the admin nor a hot wallet.
pub record IsStranger (cfg : State) (addr : String) : Type 0 where
  pub not_admin : is_admin cfg addr ≡ false
  pub not_wallet : find? (has_address addr) cfg.hot_wallets ≡ none

is_authorized_call-stranger :
    (cfg : State) (info : MessageInfo) (m : CosmosMsg)
    → IsStranger cfg info.sender
    → is_authorized_call cfg info m ≢ ok true
unfolding is_authorized_call is_active_hot_wallet
is_authorized_call-stranger cfg info (CosmosMsg.wasm (WasmMsg.execute addr msg funds)) s e =
    ground arith
is_authorized_call-stranger cfg info _ s e = cc

IsStranger-debt_free :
    {cfg : State} {addr : String} → IsStranger cfg addr → IsStranger (debt_free cfg) addr
unfolding is_admin
IsStranger-debt_free s = record { not_admin = s.not_admin; not_wallet = s.not_wallet }

module _ (w : World) where
  spent_state-stranger :
      (payload : CorePayload) (spend : List Coin) (cfg : State) (storage : w.Storage) {cfg' : State}
      → IsStranger cfg payload.info.sender
      → spent_state w payload spend cfg storage ≢ ok cfg'
  unfolding spent_state
  spent_state-stranger payload spend cfg storage s e =
      let refused =
        check_and_update_spend_limits-stranger w storage payload.current_time payload.info.sender
          spend cfg s.not_admin s.not_wallet in
      ground arith

  save_spent-stranger :
      (payload : CorePayload) (spend : List Coin) (p : Option SourcedRepayMsg × State)
      (storage : w.Storage) {r : Option SourcedRepayMsg} {storage' : w.Storage}
      → IsStranger p.1 payload.info.sender
      → save_spent w payload spend p storage ≢ (ok r, storage')
  unfolding save_spent
  save_spent-stranger payload spend p storage s e =
      elim (Result-cases (spent_state w payload spend p.1 storage)) [
        | inl (cfg', spent) ↦ spent_state-stranger payload spend p.1 storage s spent
        | inr failed ↦ ground arith
      ]

  module _ (laws : StoreLaws w) (storage : w.Storage) (cfg : State)
      (loaded : w.load storage ≡ ok cfg) where
    check_coins-stranger :
        (payload : CorePayload) (spend : List Coin) {r : Option SourcedRepayMsg}
        {storage' : w.Storage}
        → IsStranger cfg payload.info.sender
        → check_coins w payload spend storage ≢ (ok r, storage')
    unfolding check_coins
    check_coins-stranger payload spend s e =
        let (p, s1, first_half, second_half) =
          Exec.>>=-eq-ok (repay_from w cfg spend) (save_spent w payload spend) storage
            (rw loaded at e) in
        let (now_free, _, _) = repay_from-ok w laws cfg spend storage loaded first_half in
        save_spent-stranger payload spend p s1 (rw now_free (IsStranger-debt_free s)) second_half

    check_by_type-stranger :
        (ty : SubmsgType) (funds : List Coin) (payload : CorePayload) {r : Option SourcedRepayMsg}
        {storage' : w.Storage}
        → IsStranger cfg payload.info.sender
        → check_by_type w ty funds payload storage ≢ (ok r, storage')
    unfolding check_by_type
    check_by_type-stranger SubmsgType.bank_send funds payload s e =
        check_coins-stranger payload funds s e
    check_by_type-stranger SubmsgType.bank_burn funds payload s e =
        check_coins-stranger payload funds s e
    check_by_type-stranger SubmsgType.unknown funds payload s e = cc
    check_by_type-stranger (SubmsgType.execute_wasm ty) funds payload s e =
        elim (Bool-cases (is_spend (SubmsgType.execute_wasm ty))) [
          | inl spends ↦ check_coins-stranger payload funds s (rw spends at e)
          | inr other ↦ let refused = s.not_admin in ground arith
        ]

    check_and_spend_total_coins-stranger :
        (msg : CosmosMsg) (payload : CorePayload) {r : Option SourcedRepayMsg}
        {storage' : w.Storage}
        → IsStranger cfg payload.info.sender
        → check_and_spend_total_coins w msg payload storage ≢ (ok r, storage')
    unfolding check_and_spend_total_coins
    check_and_spend_total_coins-stranger msg payload s e =
        let p = process_and_get_msg_type w (add_funds payload.info.funds (pending_submsg msg)) in
        elim (Result-cases p.0) [
          | inl (ty, q) ↦ check_by_type-stranger ty p.1.funds payload s (rw q at e)
          | inr failed ↦ ground arith
        ]

    execute_from-stranger :
        (simulation : Bool) (m : CosmosMsg) (rest : List CosmosMsg) (payload : CorePayload)
        (res : Response) {res' : Response} {storage' : w.Storage}
        → IsStranger cfg payload.info.sender
        → execute_from w simulation (m ∷ rest) payload res storage ≢ (ok res', storage')
    unfolding execute_from
    execute_from-stranger simulation m rest payload res s e =
        let payload' = record payload { this_msg = m } in
        let (r, s1, first_check, later) =
          Exec.>>=-eq-ok (check_and_spend_total_coins w m payload')
            (λ r. execute_from w simulation rest payload' (attach simulation m r res)) storage e in
        check_and_spend_total_coins-stranger m payload' s first_check

    Way-stranger :
        (env : Env) (info : MessageInfo) (simulation : Bool) {msgs : List CosmosMsg}
        {p : Result ContractError Response × w.Storage} {res : Response} {storage' : w.Storage}
        → IsStranger cfg info.sender
        → Way w env info simulation storage cfg loaded msgs p
        → p ≢ (ok res, storage')
    Way-stranger env info simulation s (immediate at_once q) e =
        let refused = s.not_admin in ground arith
    Way-stranger env info simulation s (empty slow q) e = ground arith
    Way-stranger env info simulation s (authorized {m} slow call q) e =
        is_authorized_call-stranger cfg info m s call
    Way-stranger env info simulation s (checked {m} {rest} slow call q) e =
        execute_from-stranger simulation m rest _ _ s (sym q ∙ e)

-- An address that is neither the admin nor a hot wallet never succeeds with `Execute` or
-- `SimExecute`, whatever the messages, the attached funds and the debt.
pub execute_execute-stranger :
    (w : World)
    → StoreLaws w
    → (env : Env) (info : MessageInfo) (msgs : List CosmosMsg) (simulation : Bool)
      (storage : w.Storage) (cfg : State)
    → w.load storage ≡ ok cfg
    → IsStranger cfg info.sender
    → ¬ IsOk (execute_execute w env info msgs simulation storage).0
execute_execute-stranger w laws env info msgs simulation storage cfg loaded s h =
    Way-stranger w laws storage cfg loaded env info simulation s
      (execute_execute-Way w env info simulation storage cfg loaded msgs) (Exec.IsOk-value _ h).1
