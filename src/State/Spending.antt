-- ===== src/State/Spending.antt =====
-- `check_and_update_spend_limits` of src/state.rs: what a spend changes of the state.
use juno_alpha_proxy_contrac.Common.{
  ℕ, ◌-◌, ◌≤◌, String, ◌≡◌, ◌≢◌, refl, ap, ◌∙◌, false, true, none, some, inl, inr, List, [], ◌∷◌,
  map, ok, err, arith, find?, map_first, if◌then◌else◌, Option-cases, Bool-cases,
}
use juno_alpha_proxy_contrac.Common.Exec
use juno_alpha_proxy_contrac.Common.Exec.{Exec}
use juno_alpha_proxy_contrac.Types.{
  Coin, Timestamp, CoinLimit, HotWallet, State, SourcedCoin, hot_wallet_does_not_exist,
}
use juno_alpha_proxy_contrac.World.{World}
use juno_alpha_proxy_contrac.HotWallet.{should_reset, reset_period, process_spend_vec}
use juno_alpha_proxy_contrac.HotWallet.Terms.{terms, terms-process_spend_vec, terms-reset_period}
use juno_alpha_proxy_contrac.HotWallet.Reset.{reset_period-restores}
use juno_alpha_proxy_contrac.HotWallet.Spending.{Costs, process_spend_vec-charges}
use juno_alpha_proxy_contrac.State.{
  has_address, is_admin, maybe_get_hot_wallet, maybe_get_hot_wallet_mut, update_wallet,
  check_and_update_spend_limits,
}
use juno_alpha_proxy_contrac.State.Wallets.{
  find?-map_first_ne, find?-map_first_self, address-of_find?,
}

-- The state but for the debt, the ends of the periods and what remains of the limits.
abbrev pub settings : State → State
settings self = record self { uusd_fee_debt = 0; hot_wallets = map terms self.hot_wallets }

map-terms-map_first :
    (addr : String) {old : HotWallet} (wal : HotWallet) (ws : List HotWallet)
    → find? (has_address addr) ws ≡ some old
    → terms wal ≡ terms old
    → map terms (map_first (has_address addr) (λ _. wal) ws) ≡ map terms ws
map-terms-map_first addr wal [] h e = refl
map-terms-map_first addr {old} wal (x ∷ ws) h e =
    ground (arith, map-terms-map_first addr {old = old} wal ws)

module _ (w : World) (storage : w.Storage) (current_time : Timestamp) where
  pub terms-update_wallet :
      (spend : List Coin) → Exec.Keeps terms (update_wallet w storage current_time spend)
  unfolding update_wallet
  terms-update_wallet spend self = elim (Bool-cases (should_reset w current_time self)) [
    | inl due ↦ rw due (
        Exec.Keeps-bind terms (reset_period w current_time) _ (terms-reset_period w current_time)
          (λ _. terms-process_spend_vec w storage spend) self)
    | inr running ↦ rw running (terms-process_spend_vec w storage spend self)
  ]

  -- Whether it returns or fails, the check changes at most the period's end and the remaining limits
  -- of hot wallets: the debt and all settings stay.
  pub settings-check_and_update_spend_limits :
      (addr : String) (spend : List Coin) (self : State)
      → let self' = (check_and_update_spend_limits w storage current_time addr spend self).1 in
        (settings self' ≡ settings self) × (self'.uusd_fee_debt ≡ self.uusd_fee_debt)
  unfolding check_and_update_spend_limits maybe_get_hot_wallet_mut
  settings-check_and_update_spend_limits addr spend self =
      elim (Option-cases (find? (has_address addr) self.hot_wallets)) [
        | inl missing ↦ ground arith
        | inr (wal, found) ↦ ground (
          arith,
          map-terms-map_first addr (update_wallet w storage current_time spend wal).1
              self.hot_wallets found (terms-update_wallet spend wal),
        )
      ]

  -- The limit that a spend draws on: the full one if a reset is due, or what remains.
  abbrev pub available : HotWallet → CoinLimit → ℕ
  available self l = if should_reset w current_time self then l.amount else l.limit_remaining

  -- What a spend that succeeds has taken from a wallet.
  abbrev pub Charged : List Coin → CoinLimit → List CoinLimit → HotWallet → HotWallet → Type 0
  Charged spend l limits self self' =
      (n : ℕ) × Costs w storage spend n
      × (n ≤ available self l)
      × (self'.spend_limits ≡ record l { limit_remaining = available self l - n } ∷ limits)

  Charged-after_reset :
      (spend : List Coin) (self self1 : HotWallet) {l : CoinLimit} {limits : List CoinLimit}
      {r : SourcedCoin} {self' : HotWallet}
      → self.spend_limits ≡ l ∷ limits
      → reset_period w current_time self ≡ (ok tt, self1)
      → process_spend_vec w storage spend self1 ≡ (ok r, self')
      → should_reset w current_time self ≡ true
      → Charged spend l limits self self'
  Charged-after_reset spend self self1 {l} {limits} e reset spent due =
      let (_, _, _, _, restarted) = reset_period-restores w current_time self e reset in
      let restored = ap (λ (x : HotWallet). x.spend_limits) restarted in
      let (n, cost, fits, same) = process_spend_vec-charges w storage self1 restored spend spent in
      (n, cost, ground arith, ground arith)

  update_wallet-charges :
      (spend : List Coin) (self : HotWallet) {l : CoinLimit} {limits : List CoinLimit}
      {r : SourcedCoin} {self' : HotWallet}
      → self.spend_limits ≡ l ∷ limits
      → update_wallet w storage current_time spend self ≡ (ok r, self')
      → Charged spend l limits self self'
  unfolding update_wallet
  update_wallet-charges spend self {l} {limits} {r} {self'} e spent =
      elim (Bool-cases (should_reset w current_time self)) [
        | inl due ↦
            let (_, self1, reset, later) =
              Exec.>>=-eq-ok (reset_period w current_time) (λ _. process_spend_vec w storage spend)
                self (rw due at spent) in
            Charged-after_reset spend self self1 e reset later due
        | inr running ↦
            let (n, cost, fits, same) =
              process_spend_vec-charges w storage self e spend (rw running at spent) in
            (n, cost, ground arith, ground arith)
      ]

  -- When a hot wallet that is not the admin spends successfully, its coins' cost, the sum of their
  -- values each counted modulo 2^64, is within the limit (the full one if a reset is due), exactly
  -- that cost is taken from it, and every other address keeps its wallet.
  pub check_and_update_spend_limits-charges :
      (addr : String) (spend : List Coin) (self : State) {wal : HotWallet} {l : CoinLimit}
      {limits : List CoinLimit} {r : SourcedCoin} {self' : State}
      → is_admin self addr ≡ false
      → maybe_get_hot_wallet self addr ≡ ok wal
      → wal.spend_limits ≡ l ∷ limits
      → check_and_update_spend_limits w storage current_time addr spend self ≡ (ok r, self')
      → ((wal' : HotWallet) × (maybe_get_hot_wallet self' addr ≡ ok wal')
          × Charged spend l limits wal wal')
        × ((other : String)
            → other ≢ addr
            → maybe_get_hot_wallet self' other ≡ maybe_get_hot_wallet self other)
  unfolding check_and_update_spend_limits maybe_get_hot_wallet_mut maybe_get_hot_wallet
  check_and_update_spend_limits-charges addr spend self {wal} {l} {limits} {r} {self'} not_admin
        found e spent =
      let wal' : HotWallet = (update_wallet w storage current_time spend wal).1 in
      let at_addr : find? (has_address addr) self.hot_wallets ≡ some wal = ground arith in
      let updated : update_wallet w storage current_time spend wal ≡ (ok r, wal') = ground arith in
      let state : self' ≡ record self {
        hot_wallets = map_first (has_address addr) (λ _. wal') self.hot_wallets;
      } =
        ground arith in
      let same_address : wal'.address ≡ addr =
        ap (λ (x : HotWallet). x.address) (terms-update_wallet spend wal)
        ∙ address-of_find? addr self.hot_wallets at_addr in
      (
        (
          wal',
          rw state (
              ground (arith, find?-map_first_self addr wal' self.hot_wallets same_address at_addr)),
          update_wallet-charges spend wal e updated,
        ),
        λ other ne.
            rw state
              (ground (arith, find?-map_first_ne addr other wal' self.hot_wallets same_address ne)),
      )

  -- An address that is neither the admin nor a hot wallet cannot spend, and changes nothing.
  pub check_and_update_spend_limits-stranger :
      (addr : String) (spend : List Coin) (self : State)
      → is_admin self addr ≡ false
      → find? (has_address addr) self.hot_wallets ≡ none
      → check_and_update_spend_limits w storage current_time addr spend self
        ≡ (err hot_wallet_does_not_exist, self)
  unfolding check_and_update_spend_limits maybe_get_hot_wallet_mut
  check_and_update_spend_limits-stranger addr spend self not_admin missing = ground arith
