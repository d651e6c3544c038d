-- ===== src/State/Draws.antt =====
-- What a spend of src/state.rs makes of the spender's own wallet, as the account of Account.antt
-- allows it.
use juno_alpha_proxy_contrac.Common.{
  String, ◌≡◌, refl, ap, ◌∙◌, sym, subst, true, false, some, inl, inr, List, [], ◌∷◌, ok, arith,
  find?, map_first, Option-cases, Bool-cases, ◌-◌, ◌⊎◌,
}
use juno_alpha_proxy_contrac.Common.Exec
use juno_alpha_proxy_contrac.Types.{Coin, Timestamp, CoinLimit, HotWallet, State, SourcedCoin}
use juno_alpha_proxy_contrac.World.{World}
use juno_alpha_proxy_contrac.Account.{Rules, Draws, nothing, lowered, restarted}
use juno_alpha_proxy_contrac.HotWallet.{should_reset, next_reset, reset_period, process_spend_vec}
use juno_alpha_proxy_contrac.HotWallet.NoLimit.{process_spend_vec-no_limit, reset_period-no_limit}
use juno_alpha_proxy_contrac.HotWallet.Reset.{reset_period-restores}
use juno_alpha_proxy_contrac.HotWallet.Spending.{process_spend_vec-charges}
use juno_alpha_proxy_contrac.State.{
  has_address, is_admin, maybe_get_hot_wallet_mut, update_wallet, check_and_update_spend_limits,
}
use juno_alpha_proxy_contrac.State.Spending.{terms-update_wallet}
use juno_alpha_proxy_contrac.State.Wallets.{find?-map_first_self, address-of_find?}

-- The chain's addresses and its clock, at a time.
abbrev pub rules : World → Timestamp → Rules
rules w current_time = record {
  names = λ text addr. w.addr_validate text ≡ ok addr;
  due = should_reset w current_time;
  ends = λ self end_of_period.
      (now : w.NaiveDateTime) × (dt : w.NaiveDateTime) × (w.from_timestamp (w.seconds current_time)
        ≡ some now)
      × (next_reset w self.period_type self.period_multiple now ≡ ok (ok dt))
      × (end_of_period ≡ w.timestamp dt);
}

module _ (w : World) (storage : w.Storage) (current_time : Timestamp) where
  List-cases :
      (limits : List CoinLimit)
      → (limits ≡ []) ⊎ ((l : CoinLimit) × (rest : List CoinLimit) × (limits ≡ l ∷ rest))
  List-cases [] = inl refl
  List-cases (l ∷ rest) = inr (l, rest, refl)

  restart-Draws :
      (spend : List Coin) (self self1 : HotWallet) {r : SourcedCoin} {self' : HotWallet}
      → should_reset w current_time self ≡ true
      → reset_period w current_time self ≡ (ok tt, self1)
      → process_spend_vec w storage spend self1 ≡ (ok r, self')
      → Draws (rules w current_time) (some self) (some self')
  restart-Draws spend self self1 due reset spent = elim (List-cases self.spend_limits) [
    | inl none_set ↦ absurd (reset_period-no_limit w current_time self none_set reset)
    | inr (l, limits, e) ↦
        let (now, dt, started, next, same) = reset_period-restores w current_time self e reset in
        let (n, cost, fits, same') =
          process_spend_vec-charges w storage self1 (ap (λ (x : HotWallet). x.spend_limits) same)
            spend spent in
        restarted l limits (l.amount - n) (w.timestamp dt) due (now, dt, started, next, refl) e
          (omega arith) (ground arith)
  ]

  go_on-Draws :
      (spend : List Coin) (self : HotWallet) {r : SourcedCoin} {self' : HotWallet}
      → should_reset w current_time self ≡ false
      → process_spend_vec w storage spend self ≡ (ok r, self')
      → Draws (rules w current_time) (some self) (some self')
  go_on-Draws spend self running spent = elim (List-cases self.spend_limits) [
    | inl none_set ↦
        subst (λ x. Draws (rules w current_time) (some self) (some x))
          (sym (process_spend_vec-no_limit w storage spend self none_set spent))
          (nothing (some self))
    | inr (l, limits, e) ↦
        let (n, cost, fits, same) = process_spend_vec-charges w storage self e spend spent in
        lowered l limits (l.limit_remaining - n) running e (omega arith) same
  ]

  update_wallet-Draws :
      (spend : List Coin) (self : HotWallet) {r : SourcedCoin} {self' : HotWallet}
      → update_wallet w storage current_time spend self ≡ (ok r, self')
      → Draws (rules w current_time) (some self) (some self')
  unfolding update_wallet
  update_wallet-Draws spend self e = elim (Bool-cases (should_reset w current_time self)) [
    | inl due ↦
        let (_, self1, reset, later) =
          Exec.>>=-eq-ok (reset_period w current_time) (λ _. process_spend_vec w storage spend) self
            (rw due at e) in
        restart-Draws spend self self1 due reset later
    | inr running ↦ go_on-Draws spend self running (rw running at e)
  ]

  -- A successful spend of src/state.rs draws on the wallet at the spender's address, or changes nothing
  -- there.
  pub check_and_update_spend_limits-Draws :
      (addr : String) (spend : List Coin) (self : State) {r : SourcedCoin} {self' : State}
      → check_and_update_spend_limits w storage current_time addr spend self ≡ (ok r, self')
      → Draws
          (rules w current_time)
          (find? (has_address addr) self.hot_wallets)
          (find? (has_address addr) self'.hot_wallets)
  unfolding check_and_update_spend_limits maybe_get_hot_wallet_mut
  check_and_update_spend_limits-Draws addr spend self {r} {self'} spent =
      elim (Bool-cases (is_admin self addr)) [
        | inl admin ↦
            let same : self' ≡ self = ground arith in
            rw same (nothing (find? (has_address addr) self.hot_wallets))
        | inr not_admin ↦ elim (Option-cases (find? (has_address addr) self.hot_wallets)) [
          | inl missing ↦ absurd (ground arith)
          | inr (wal, found) ↦
              let wal' : HotWallet = (update_wallet w storage current_time spend wal).1 in
              let updated : update_wallet w storage current_time spend wal ≡ (ok r, wal') =
                ground arith in
              let state : self' ≡ record self {
                hot_wallets = map_first (has_address addr) (λ _. wal') self.hot_wallets;
              } =
                ground arith in
              let same_address : wal'.address ≡ addr =
                ap (λ (x : HotWallet). x.address)
                  (terms-update_wallet w storage current_time spend wal)
                ∙ address-of_find? addr self.hot_wallets found in
              let left : find? (has_address addr) self'.hot_wallets ≡ some wal' =
                rw state (find?-map_first_self addr wal' self.hot_wallets same_address found) in
              rw (found, left) (update_wallet-Draws spend wal updated)
        ]
      ]
