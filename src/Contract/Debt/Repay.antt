-- ===== src/Contract/Debt/Repay.antt =====
-- The repayment of the fee debt in src/contract.rs.
use juno_alpha_proxy_contrac.Common.{
  ◌<◌, ◌≡◌, refl, ◌∙◌, ap, subst, ◌⊎◌, Option, none, some, inl, inr, List, [], ◌∷◌, Result, ok, err,
  panic, arith, ltb, Bool-cases,
}
use mathlib.Core.List.{Memᴰ}
use juno_alpha_proxy_contrac.Common.Exec
use juno_alpha_proxy_contrac.Common.Outcome.{Result-cases}
use juno_alpha_proxy_contrac.Types.{
  BankMsg, Coin, CorePayload, State, SourcedCoin, SourcedRepayMsg, ContractError,
}
use juno_alpha_proxy_contrac.World.{World, StoreLaws}
use juno_alpha_proxy_contrac.State.Spending.{settings, settings-check_and_update_spend_limits}
use juno_alpha_proxy_contrac.State.{check_and_update_spend_limits}
use juno_alpha_proxy_contrac.Contract.Debt.{
  convert_debt_to_asset_spent, try_repay_debt, paid_or, debt_cycle, no_debt_left, repay_from,
  spent_state, save_spent, check_coins,
}

abbrev pub debt_free : State → State
debt_free cfg = record cfg { uusd_fee_debt = 0 }

module _ (w : World) where
  -- The message pays one coin, what the debt is worth in the asset, to the repay wallet.
  abbrev pub PaysWith : w.Storage → State → Coin → SourcedRepayMsg → Type 0
  PaysWith storage cfg asset msg =
      (swaps : SourcedCoin) × (convert_debt_to_asset_spent w storage cfg.uusd_fee_debt asset
        ≡ ok swaps)
      × (msg.repay_msg ≡ some (BankMsg.send cfg.fee_lend_repay_wallet (swaps.coin ∷ [])))

  try_repay_debt-ok :
      StoreLaws w
      → (asset : Coin) (storage : w.Storage) (cfg : State) {msg : SourcedRepayMsg}
        {storage' : w.Storage}
      → w.load storage ≡ ok cfg
      → try_repay_debt w asset storage ≡ (ok msg, storage')
      → (w.load storage' ≡ ok (debt_free cfg)) × PaysWith storage cfg asset msg
  unfolding try_repay_debt
  try_repay_debt-ok laws asset storage cfg {storage'} loaded e =
      elim (Result-cases (convert_debt_to_asset_spent w storage cfg.uusd_fee_debt asset)) [
        | inl (swaps, converted) ↦ (
          ground (arith, laws.load-save (debt_free cfg) storage {σ' = storage'}),
          (swaps, converted, ground arith),
        )
        | inr failed ↦ absurd (ground arith)
      ]

  try_repay_debt-err :
      (asset : Coin) (storage : w.Storage) {x : ContractError} {storage' : w.Storage}
      → try_repay_debt w asset storage ≡ (err x, storage')
      → storage' ≡ storage
  unfolding try_repay_debt
  try_repay_debt-err asset storage e = ground arith

  -- How a debt cycle that does not panic ends: no coin could pay and nothing has changed, or one did.
  abbrev pub Cycle : w.Storage → State → List Coin → Option SourcedRepayMsg → w.Storage → Type 0
  Cycle storage cfg coins r storage' =
      ((r ≡ none) × (storage' ≡ storage))
      ⊎ ((asset : Coin) × (msg : SourcedRepayMsg) × Memᴰ asset coins
          × (r ≡ some msg)
          × (w.load storage' ≡ ok (debt_free cfg))
          × PaysWith storage cfg asset msg)

  further :
      (c : Coin) (coins : List Coin) (storage : w.Storage) (cfg : State)
      {r : Option SourcedRepayMsg} {storage' : w.Storage}
      → Cycle storage cfg coins r storage'
      → Cycle storage cfg (c ∷ coins) r storage'
  further c coins storage cfg (inl nothing) = inl nothing
  further c coins storage cfg (inr (asset, msg, m, same, after, paid)) =
      inr (asset, msg, Memᴰ.tail m, same, after, paid)

  debt_cycle-ok :
      StoreLaws w
      → (coins : List Coin) (storage : w.Storage) (cfg : State) {r : Option SourcedRepayMsg}
        {storage' : w.Storage}
      → w.load storage ≡ ok cfg
      → debt_cycle w coins storage ≡ (ok r, storage')
      → Cycle storage cfg coins r storage'
  unfolding debt_cycle
  debt_cycle-ok laws [] storage cfg loaded e = inl (ground arith, ground arith)
  debt_cycle-ok laws (c ∷ coins) storage cfg {r} {storage'} loaded e =
      by_attempt (try_repay_debt w c storage) refl e (debt_cycle-ok laws coins storage cfg loaded)
    where
      by_attempt :
          (p : Result ContractError SourcedRepayMsg × w.Storage)
          → try_repay_debt w c storage ≡ p
          → paid_or w p.0 (debt_cycle w coins) p.1 ≡ (ok r, storage')
          → (debt_cycle w coins storage ≡ (ok r, storage') → Cycle storage cfg coins r storage')
          → Cycle storage cfg (c ∷ coins) r storage'
      by_attempt (ok msg, s1) q h ih =
          let (after, paid) = try_repay_debt-ok laws c storage cfg loaded q in
          inr (
            c,
            msg,
            Memᴰ.head refl,
            ground arith,
            subst (λ s. w.load s ≡ ok (debt_free cfg))
                (ap (λ (x : Result ContractError (Option SourcedRepayMsg) × w.Storage). x.1) h)
                after,
            paid,
          )
      by_attempt (err x, s1) q h ih = further c coins storage cfg (
          ih (
            subst (λ s. debt_cycle w coins s ≡ (ok r, storage')) (try_repay_debt-err c storage q)
              h))
      by_attempt (panic, s1) q h ih = cc

  -- What `check_coins` has done about the debt: nothing if there was none; otherwise one coin of the
  -- spend has paid it.
  abbrev pub Settled : w.Storage → State → List Coin → Option SourcedRepayMsg → Type 0
  Settled storage cfg spend r =
      ((cfg.uusd_fee_debt ≡ 0) × (r ≡ none))
      ⊎ ((0 < cfg.uusd_fee_debt)
          × ((asset : Coin) × (msg : SourcedRepayMsg) × Memᴰ asset spend
              × (r ≡ some msg)
              × PaysWith storage cfg asset msg))

  no_debt_left-ok :
      (r : Option SourcedRepayMsg) (storage : w.Storage) (cfg : State)
      {p : Option SourcedRepayMsg × State} {storage' : w.Storage}
      → w.load storage ≡ ok cfg
      → no_debt_left w r storage ≡ (ok p, storage')
      → (p.0 ≡ r) × (p.1 ≡ cfg) × (cfg.uusd_fee_debt ≡ 0) × (storage' ≡ storage)
  unfolding no_debt_left
  no_debt_left-ok r storage cfg loaded e = ground arith

  -- How the first half of `check_coins` ends when there is a debt.
  repaid :
      (cfg : State) (spend : List Coin) (storage : w.Storage) (r : Option SourcedRepayMsg)
      (s1 : w.Storage) {p : Option SourcedRepayMsg × State} {storage' : w.Storage}
      → w.load storage ≡ ok cfg
      → 0 < cfg.uusd_fee_debt
      → Cycle storage cfg spend r s1
      → no_debt_left w r s1 ≡ (ok p, storage')
      → (p.1 ≡ debt_free cfg)
        × (w.load storage' ≡ ok (debt_free cfg))
        × Settled storage cfg spend p.0
  repaid cfg spend storage r s1 loaded debt (inl (_, same)) e =
      absurd (omega (arith, no_debt_left-ok r s1 cfg (rw same loaded) e))
  repaid cfg spend storage r s1 loaded debt (inr (asset, msg, m, found, after, paid)) e =
      let (p0, p1, zero_debt, same) = no_debt_left-ok r s1 (debt_free cfg) after e in
      (p1, rw same after, inr (debt, (asset, msg, m, p0 ∙ found, paid)))

  pub repay_from-ok :
      StoreLaws w
      → (cfg : State) (spend : List Coin) (storage : w.Storage) {p : Option SourcedRepayMsg × State}
        {storage' : w.Storage}
      → w.load storage ≡ ok cfg
      → repay_from w cfg spend storage ≡ (ok p, storage')
      → (p.1 ≡ debt_free cfg)
        × (w.load storage' ≡ ok (debt_free cfg))
        × Settled storage cfg spend p.0
  unfolding repay_from
  repay_from-ok laws cfg spend storage {p} {storage'} loaded e =
      elim (Bool-cases (ltb 0 cfg.uusd_fee_debt)) [
        | inl debt ↦
            let (r, s1, cycled, later) =
              Exec.>>=-eq-ok (debt_cycle w spend) (no_debt_left w) storage (rw debt at e) in
            repaid cfg spend storage r s1 loaded (ground arith)
              (debt_cycle-ok laws spend storage cfg loaded cycled) later
        | inr free ↦ (ground arith, ground arith, inl (ground arith, ground arith))
      ]

  spent_state-ok :
      (payload : CorePayload) (spend : List Coin) (cfg : State) (storage : w.Storage) {cfg' : State}
      → spent_state w payload spend cfg storage ≡ ok cfg'
      → (settings cfg' ≡ settings cfg) × (cfg'.uusd_fee_debt ≡ cfg.uusd_fee_debt)
  unfolding spent_state
  spent_state-ok payload spend cfg storage {cfg'} e =
      let kept =
        settings-check_and_update_spend_limits w storage payload.current_time payload.info.sender
          spend cfg in
      let same : cfg'
          ≡ (check_and_update_spend_limits w storage payload.current_time payload.info.sender spend
              cfg).1 =
        ground arith in
      rw same kept

  save_spent-ok :
      StoreLaws w
      → (payload : CorePayload) (spend : List Coin) (p : Option SourcedRepayMsg × State)
        (storage : w.Storage) {r : Option SourcedRepayMsg} {storage' : w.Storage}
      → save_spent w payload spend p storage ≡ (ok r, storage')
      → (cfg' : State) × (w.load storage' ≡ ok cfg')
        × (cfg'.uusd_fee_debt ≡ p.1.uusd_fee_debt)
        × (settings cfg' ≡ settings p.1)
        × (r ≡ p.0)
  unfolding save_spent
  save_spent-ok laws payload spend p storage {r} {storage'} e =
      elim (Result-cases (spent_state w payload spend p.1 storage)) [
        | inl (cfg', spent) ↦
            let (same_settings, same_debt) = spent_state-ok payload spend p.1 storage spent in
            (
              cfg',
              ground (arith, laws.load-save cfg' storage {σ' = storage'}),
              same_debt,
              same_settings,
              ground arith,
            )
        | inr failed ↦ absurd (ground arith)
      ]

  -- When the coins of a message pass, the state that is saved has no debt and otherwise the settings
  -- of the old one; and there is a repayment exactly if there was a debt: one coin of the spend, in
  -- the amount that the debt is worth, to the repay wallet.
  pub check_coins-settles :
      StoreLaws w
      → (payload : CorePayload) (spend : List Coin) (storage : w.Storage) (cfg : State)
        {r : Option SourcedRepayMsg} {storage' : w.Storage}
      → w.load storage ≡ ok cfg
      → check_coins w payload spend storage ≡ (ok r, storage')
      → ((cfg' : State) × (w.load storage' ≡ ok cfg')
          × (cfg'.uusd_fee_debt ≡ 0)
          × (settings cfg' ≡ settings cfg))
        × Settled storage cfg spend r
  unfolding check_coins
  check_coins-settles laws payload spend storage cfg {r} {storage'} loaded e =
      let (p, s1, first_half, second_half) =
        Exec.>>=-eq-ok (repay_from w cfg spend) (save_spent w payload spend) storage
          (rw loaded at e) in
      let (now_free, _, settled) = repay_from-ok laws cfg spend storage loaded first_half in
      let (cfg', found, same_debt, same_settings, same_reply) =
        save_spent-ok laws payload spend p s1 second_half in
      (
        (cfg', found, ground (arith, now_free), same_settings ∙ ap settings now_free),
        rw same_reply settled,
      )
