-- ===== src/State/Checking.antt =====
-- `check_spend_limits` of src/state.rs beside `check_and_update_spend_limits`.
use juno_alpha_proxy_contrac.Common.{
  String, ◌≡◌, inl, inr, Bool, false, true, List, ◌∷◌, ok, Bool-cases, IsOk,
}
use juno_alpha_proxy_contrac.Common.Exec
use juno_alpha_proxy_contrac.Types.{Coin, Timestamp, CoinLimit, HotWallet, State}
use juno_alpha_proxy_contrac.World.{World}
use juno_alpha_proxy_contrac.HotWallet.{should_reset, check_spend_vec}
use juno_alpha_proxy_contrac.HotWallet.Checking.{check_spend_vec-IsOk_iff, FitsAlone-of_Costs}
use juno_alpha_proxy_contrac.State.{
  is_admin, maybe_get_hot_wallet, check_and_update_spend_limits, check_spend_limits,
}
use juno_alpha_proxy_contrac.State.Spending.{Charged, check_and_update_spend_limits-charges}

module _ (w : World) (storage : w.Storage) (current_time : Timestamp) where
  wallet-fits :
      (spend : List Coin) (wal wal' : HotWallet) {l : CoinLimit} {limits : List CoinLimit}
      → wal.spend_limits ≡ l ∷ limits
      → Charged w storage current_time spend l limits wal wal'
      → (reset : Bool) → should_reset w current_time wal ≡ reset
      → IsOk (check_spend_vec w storage spend reset wal)
  wallet-fits spend wal wal' {l} e (n, cost, fits, _) reset due =
      (check_spend_vec-IsOk_iff w storage wal reset e spend).1
        (FitsAlone-of_Costs w storage _ cost (rw due at fits))

  -- What a hot wallet can spend passes the dry run just before, whether or not a reset is due.
  pub check_spend_limits_complete :
      (addr : String) (spend : List Coin) (self : State) {wal : HotWallet} {l : CoinLimit}
      {limits : List CoinLimit}
      → is_admin self addr ≡ false
      → maybe_get_hot_wallet self addr ≡ ok wal
      → wal.spend_limits ≡ l ∷ limits
      → IsOk (check_and_update_spend_limits w storage current_time addr spend self).0
      → IsOk (check_spend_limits w storage current_time addr spend self)
  unfolding check_spend_limits
  check_spend_limits_complete addr spend self {wal} not_admin found e h =
      let ((wal', _, charged), _) =
        check_and_update_spend_limits-charges w storage current_time addr spend self not_admin found
          e (Exec.IsOk-value _ h).1 in
      rw (not_admin, found)
        (elim (Bool-cases (should_reset w current_time wal)) [
          | inl due ↦ rw due (wallet-fits spend wal wal' e charged true due)
          | inr running ↦ rw running (wallet-fits spend wal wal' e charged false running)
        ])
