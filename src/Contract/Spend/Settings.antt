-- ===== src/Contract/Spend/Settings.antt =====
-- What `Execute` and `SimExecute` of src/contract.rs change of the state.
use juno_alpha_proxy_contrac.Common.{
  ◌≡◌, ◌<◌, refl, sym, ◌∙◌, ◌⊎◌, Result, inl, inr, Bool, Option, none, some, List, [], ◌∷◌, ok,
  arith, Bool-cases,
}
use juno_alpha_proxy_contrac.Common.Exec
use juno_alpha_proxy_contrac.Common.Outcome.{Result-cases}
use juno_alpha_proxy_contrac.Types.{
  Coin, CosmosMsg, Env, MessageInfo, Response, State, CorePayload, SourcedRepayMsg, SubmsgType,
  ContractError, BankMsg,
}
use juno_alpha_proxy_contrac.World.{World, StoreLaws}
use juno_alpha_proxy_contrac.State.Spending.{settings}
use juno_alpha_proxy_contrac.Submsgs.{add_funds, process_and_get_msg_type}
use juno_alpha_proxy_contrac.Contract.Debt.{check_coins}
use juno_alpha_proxy_contrac.Contract.Debt.Repay.{check_coins-settles}
use juno_alpha_proxy_contrac.Contract.Spend.Cases.{
  Way, immediate, empty, authorized, checked, execute_execute-Way,
}
use juno_alpha_proxy_contrac.Contract.Spend.{
  is_spend, pending_submsg, attach, check_by_type, check_and_spend_total_coins, execute_from,
  execute_execute,
}

-- What a message's check has done about the debt: nothing was paid, or one coin went to the repay
-- wallet and the debt is gone.
pub data Payment (cfg cfg' : State) (r : Option SourcedRepayMsg) : Type 0 where
  unpaid :
      (cfg'.uusd_fee_debt ≡ cfg.uusd_fee_debt) ⊎ (cfg'.uusd_fee_debt ≡ 0)
      → r ≡ none
      → Payment cfg cfg' r
  paid :
      0 < cfg.uusd_fee_debt
      → cfg'.uusd_fee_debt ≡ 0
      → (coin : Coin) (msg : SourcedRepayMsg) → r ≡ some msg
      → msg.repay_msg ≡ some (BankMsg.send cfg.fee_lend_repay_wallet (coin ∷ []))
      → Payment cfg cfg' r

pub Payment-debt :
    {cfg cfg' : State} {r : Option SourcedRepayMsg}
    → Payment cfg cfg' r
    → (cfg'.uusd_fee_debt ≡ cfg.uusd_fee_debt) ⊎ (cfg'.uusd_fee_debt ≡ 0)
Payment-debt (unpaid same q) = same
Payment-debt (paid debt free coin msg q m) = inr free

module _ (w : World) where
  -- The stored state has the settings of another one, and its debt or none.
  abbrev pub SameSettings : w.Storage → State → Type 0
  SameSettings storage cfg =
      (cfg' : State) × (w.load storage ≡ ok cfg')
      × (settings cfg' ≡ settings cfg)
      × ((cfg'.uusd_fee_debt ≡ cfg.uusd_fee_debt) ⊎ (cfg'.uusd_fee_debt ≡ 0))

  pub SameSettings-trans :
      {storage : w.Storage} (cfg1 cfg : State)
      → settings cfg1 ≡ settings cfg
      → ((cfg1.uusd_fee_debt ≡ cfg.uusd_fee_debt) ⊎ (cfg1.uusd_fee_debt ≡ 0))
      → SameSettings storage cfg1
      → SameSettings storage cfg
  SameSettings-trans cfg1 cfg s d (cfg2, found, s2, d2) = (cfg2, found, s2 ∙ s, ground arith)

  module _ (laws : StoreLaws w) (storage : w.Storage) (cfg : State)
      (loaded : w.load storage ≡ ok cfg) where
    -- A check keeps the settings, and its reply is a payment of the debt if there is one.
    abbrev pub Checked : Option SourcedRepayMsg → w.Storage → Type 0
    Checked r storage' =
        (cfg' : State) × (w.load storage' ≡ ok cfg')
        × (settings cfg' ≡ settings cfg)
        × Payment cfg cfg' r

    check_coins-Checked :
        (payload : CorePayload) (spend : List Coin) {r : Option SourcedRepayMsg}
        {storage' : w.Storage}
        → check_coins w payload spend storage ≡ (ok r, storage')
        → Checked r storage'
    check_coins-Checked payload spend e =
        let (after, settled) = check_coins-settles w laws payload spend storage cfg loaded e in
        let (cfg', found, free, same) = after in
        (
          cfg',
          found,
          same,
          elim settled [
            | inl (_, nothing) ↦ unpaid (inr free) nothing
            | inr (debt, (asset, msg, m, q, (swaps, converted, to_wallet))) ↦
                paid debt free swaps.coin msg q to_wallet
          ],
        )

    check_by_type-Checked :
        (ty : SubmsgType) (funds : List Coin) (payload : CorePayload) {r : Option SourcedRepayMsg}
        {storage' : w.Storage}
        → check_by_type w ty funds payload storage ≡ (ok r, storage')
        → Checked r storage'
    unfolding check_by_type
    check_by_type-Checked SubmsgType.bank_send funds payload e = check_coins-Checked payload funds e
    check_by_type-Checked SubmsgType.bank_burn funds payload e = check_coins-Checked payload funds e
    check_by_type-Checked SubmsgType.unknown funds payload e = cc
    check_by_type-Checked (SubmsgType.execute_wasm ty) funds payload e =
        elim (Bool-cases (is_spend (SubmsgType.execute_wasm ty))) [
          | inl spends ↦ check_coins-Checked payload funds (rw spends at e)
          | inr other ↦ (cfg, ground arith, refl, unpaid (inl refl) (ground arith))
        ]

    pub check_and_spend_total_coins-Checked :
        (msg : CosmosMsg) (payload : CorePayload) {r : Option SourcedRepayMsg}
        {storage' : w.Storage}
        → check_and_spend_total_coins w msg payload storage ≡ (ok r, storage')
        → Checked r storage'
    unfolding check_and_spend_total_coins
    check_and_spend_total_coins-Checked msg payload e =
        let p = process_and_get_msg_type w (add_funds payload.info.funds (pending_submsg msg)) in
        elim (Result-cases p.0) [
          | inl (ty, q) ↦ check_by_type-Checked ty p.1.funds payload (rw q at e)
          | inr failed ↦ absurd (ground arith)
        ]

  execute_from-SameSettings :
      StoreLaws w
      → (simulation : Bool) (msgs : List CosmosMsg) (payload : CorePayload) (res : Response)
        (storage : w.Storage) (cfg : State) {res' : Response} {storage' : w.Storage}
      → w.load storage ≡ ok cfg
      → execute_from w simulation msgs payload res storage ≡ (ok res', storage')
      → SameSettings storage' cfg
  unfolding execute_from
  execute_from-SameSettings laws simulation [] payload res storage cfg loaded e =
      (cfg, ground arith, refl, inl refl)
  execute_from-SameSettings laws simulation (m ∷ msgs) payload res storage cfg loaded e =
      let payload' = record payload { this_msg = m } in
      let (r, s1, first_check, later) =
        Exec.>>=-eq-ok (check_and_spend_total_coins w m payload')
          (λ r. execute_from w simulation msgs payload' (attach simulation m r res)) storage e in
      let (cfg1, found, same, payment) =
        check_and_spend_total_coins-Checked laws storage cfg loaded m payload' first_check in
      SameSettings-trans cfg1 cfg same (Payment-debt payment) (
        execute_from-SameSettings laws simulation msgs payload' (attach simulation m r res) s1 cfg1
          found later)

  Way-SameSettings :
      StoreLaws w
      → (env : Env) (info : MessageInfo) (simulation : Bool) (storage : w.Storage) (cfg : State)
        (loaded : w.load storage ≡ ok cfg) {msgs : List CosmosMsg}
        {p : Result ContractError Response × w.Storage} {res : Response} {storage' : w.Storage}
      → Way w env info simulation storage cfg loaded msgs p
      → p ≡ (ok res, storage')
      → SameSettings storage' cfg
  Way-SameSettings laws env info simulation storage cfg loaded (immediate at_once q) e =
      (cfg, ground arith, refl, inl refl)
  Way-SameSettings laws env info simulation storage cfg loaded (empty slow q) e =
      absurd (ground arith)
  Way-SameSettings laws env info simulation storage cfg loaded (authorized slow call q) e =
      (cfg, ground arith, refl, inl refl)
  Way-SameSettings laws env info simulation storage cfg loaded (checked slow call q) e =
      execute_from-SameSettings laws simulation _ _ _ storage cfg loaded (sym q ∙ e)

-- A call of `Execute` or `SimExecute` that succeeds, whoever makes it, leaves the settings of the
-- state alone: admin, pending admin, repay wallet, network, pair contracts, and of each hot wallet all
-- but its period's end and what remains of its limits. The debt stays or is paid in full.
pub execute_execute-SameSettings :
    (w : World)
    → StoreLaws w
    → (env : Env) (info : MessageInfo) (msgs : List CosmosMsg) (simulation : Bool)
      (storage : w.Storage) (cfg : State) {res : Response} {storage' : w.Storage}
    → w.load storage ≡ ok cfg
    → execute_execute w env info msgs simulation storage ≡ (ok res, storage')
    → SameSettings w storage' cfg
execute_execute-SameSettings w laws env info msgs simulation storage cfg {res} {storage'} loaded e =
    Way-SameSettings w laws env info simulation storage cfg loaded
      (execute_execute-Way w env info simulation storage cfg loaded msgs) e
