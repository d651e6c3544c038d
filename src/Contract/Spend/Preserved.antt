-- ===== src/Contract/Spend/Preserved.antt =====
-- What every spend of src/state.rs does is also what a call of `Execute` or `SimExecute` of
-- src/contract.rs does.
use juno_alpha_proxy_contrac.Common.{
  ℕ, String, ◌≡◌, sym, ◌∙◌, inl, inr, Bool, Option, List, [], ◌∷◌, Result, ok, arith, Bool-cases,
}
use juno_alpha_proxy_contrac.Common.Exec
use juno_alpha_proxy_contrac.Common.Outcome.{Result-cases}
use juno_alpha_proxy_contrac.Types.{
  Coin, CosmosMsg, Env, MessageInfo, Response, State, CorePayload, SourcedCoin, SourcedRepayMsg,
  SubmsgType, ContractError, new_response,
}
use juno_alpha_proxy_contrac.World.{World, StoreLaws}
use juno_alpha_proxy_contrac.State.{check_and_update_spend_limits}
use juno_alpha_proxy_contrac.Submsgs.{add_funds, process_and_get_msg_type}
use juno_alpha_proxy_contrac.Contract.Debt.{repay_from, save_spent, check_coins}
use juno_alpha_proxy_contrac.Contract.Debt.Repay.{debt_free, repay_from-ok}
use juno_alpha_proxy_contrac.Contract.Spend.Cases.{
  Way, immediate, empty, authorized, checked, execute_execute-Way, payload_of,
}
use juno_alpha_proxy_contrac.Contract.Spend.Charges.{save_spent-eq-ok}
use juno_alpha_proxy_contrac.Contract.Spend.{
  is_spend, pending_submsg, attach, check_by_type, check_and_spend_total_coins, execute_from,
  execute_execute,
}

-- A kind of change that may be nothing and may be repeated, and that every successful spend at a time
-- from an address makes.
pub record IsSpending (w : World) (current_time : ℕ) (addr : String)
    (Change : State → State → Type 0) : Type 0 where
  pub nothing : (self : State) → Change self self
  pub repeated :
      (self self1 self2 : State) → Change self self1 → Change self1 self2 → Change self self2
  pub spent :
      (storage : w.Storage) (spend : List Coin) (self : State) {r : SourcedCoin} {self' : State}
      → check_and_update_spend_limits w storage current_time addr spend (debt_free self)
        ≡ (ok r, self')
      → Change self self'

-- The storage holds a state to which another one has changed.
abbrev pub Changed : (w : World) → (State → State → Type 0) → State → w.Storage → Type 0
Changed w Change cfg storage' = (cfg' : State) × (w.load storage' ≡ ok cfg') × Change cfg cfg'

module _ (w : World) (laws : StoreLaws w) (Change : State → State → Type 0) where
  module _ (payload : CorePayload)
      (h : IsSpending w payload.current_time payload.info.sender Change) (storage : w.Storage)
      (cfg : State) (loaded : w.load storage ≡ ok cfg) {r : Option SourcedRepayMsg}
      {storage' : w.Storage} where
    check_coins-Changed :
        (spend : List Coin)
        → check_coins w payload spend storage ≡ (ok r, storage')
        → Changed w Change cfg storage'
    unfolding check_coins
    check_coins-Changed spend e =
        let (p, s1, first_half, second_half) =
          Exec.>>=-eq-ok (repay_from w cfg spend) (save_spent w payload spend) storage
            (rw loaded at e) in
        let (now_free, stored, _) = repay_from-ok w laws cfg spend storage loaded first_half in
        let (cfg', spent, updated, found) =
          save_spent-eq-ok w laws payload spend p s1 second_half in
        (cfg', found, h.spent s1 spend cfg (rw now_free at updated))

    check_by_type-Changed :
        (ty : SubmsgType) (funds : List Coin)
        → check_by_type w ty funds payload storage ≡ (ok r, storage')
        → Changed w Change cfg storage'
    unfolding check_by_type
    check_by_type-Changed SubmsgType.bank_send funds e = check_coins-Changed funds e
    check_by_type-Changed SubmsgType.bank_burn funds e = check_coins-Changed funds e
    check_by_type-Changed SubmsgType.unknown funds e = cc
    check_by_type-Changed (SubmsgType.execute_wasm ty) funds e =
        elim (Bool-cases (is_spend (SubmsgType.execute_wasm ty))) [
          | inl spends ↦ check_coins-Changed funds (rw spends at e)
          | inr other ↦ (cfg, ground arith, h.nothing cfg)
        ]

    pub check_and_spend_total_coins-Changed :
        (msg : CosmosMsg)
        → check_and_spend_total_coins w msg payload storage ≡ (ok r, storage')
        → Changed w Change cfg storage'
    unfolding check_and_spend_total_coins
    check_and_spend_total_coins-Changed msg e =
        let p = process_and_get_msg_type w (add_funds payload.info.funds (pending_submsg msg)) in
        elim (Result-cases p.0) [
          | inl (ty, q) ↦ check_by_type-Changed ty p.1.funds (rw q at e)
          | inr failed ↦ absurd (ground arith)
        ]

  execute_from-Changed :
      (simulation : Bool) (msgs : List CosmosMsg) (payload : CorePayload) (res : Response)
      (storage : w.Storage) (cfg : State) {res' : Response} {storage' : w.Storage}
      → IsSpending w payload.current_time payload.info.sender Change
      → w.load storage ≡ ok cfg
      → execute_from w simulation msgs payload res storage ≡ (ok res', storage')
      → Changed w Change cfg storage'
  unfolding execute_from
  execute_from-Changed simulation [] payload res storage cfg h loaded e =
      (cfg, ground arith, h.nothing cfg)
  execute_from-Changed simulation (m ∷ msgs) payload res storage cfg h loaded e =
      let payload' = record payload { this_msg = m } in
      let (r, s1, first_check, later) =
        Exec.>>=-eq-ok (check_and_spend_total_coins w m payload')
          (λ r. execute_from w simulation msgs payload' (attach simulation m r res)) storage e in
      let (cfg1, found1, change1) =
        check_and_spend_total_coins-Changed payload' h storage cfg loaded m first_check in
      let (cfg2, found2, change2) =
        execute_from-Changed simulation msgs payload' (attach simulation m r res) s1 cfg1 h found1
          later in
      (cfg2, found2, h.repeated cfg cfg1 cfg2 change1 change2)

  module _ (env : Env) (info : MessageInfo) (h : IsSpending w env.block.time info.sender Change)
      (simulation : Bool) (storage : w.Storage) (cfg : State)
      (loaded : w.load storage ≡ ok cfg) where
    Way-Changed :
        (msgs : List CosmosMsg) {p : Result ContractError Response × w.Storage} {res : Response}
        {storage' : w.Storage}
        → Way w env info simulation storage cfg loaded msgs p
        → p ≡ (ok res, storage')
        → Changed w Change cfg storage'
    Way-Changed msgs (immediate at_once q) e = (cfg, ground arith, h.nothing cfg)
    Way-Changed msgs (empty slow q) e = absurd (ground arith)
    Way-Changed msgs (authorized slow call q) e = (cfg, ground arith, h.nothing cfg)
    Way-Changed msgs (checked slow call q) e =
        execute_from-Changed simulation msgs (payload_of env info) new_response storage cfg h loaded
          (sym q ∙ e)

    pub execute_execute-Changed :
        (msgs : List CosmosMsg) {res : Response} {storage' : w.Storage}
        → execute_execute w env info msgs simulation storage ≡ (ok res, storage')
        → Changed w Change cfg storage'
    execute_execute-Changed msgs e =
        Way-Changed msgs (execute_execute-Way w env info simulation storage cfg loaded msgs) e
