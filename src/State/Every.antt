-- ===== src/State/Every.antt =====
-- What holds of every hot wallet of src/state.rs.
use juno_alpha_proxy_contrac.Common.{
  String, ◌≡◌, inl, inr, Bool, some, List, [], ◌∷◌, ◌++◌, arith, subst, find?, map_first, retain,
  Option-cases, Bool-cases,
}
use juno_alpha_proxy_contrac.Common.Exec
use juno_alpha_proxy_contrac.Types.{Coin, Timestamp, HotWallet, State, ContractError}
use juno_alpha_proxy_contrac.World.{World}
use juno_alpha_proxy_contrac.HotWallet.{should_reset, reset_period, process_spend_vec}
use juno_alpha_proxy_contrac.HotWallet.Ceiling.{
  IsSound, process_spend_vec-IsSound, reset_period-IsSound,
}
use juno_alpha_proxy_contrac.State.{
  has_address, is_admin, maybe_get_hot_wallet_mut, update_wallet, check_and_update_spend_limits,
}

module _ (P : HotWallet → Type 0) where
  abbrev pub Every : List HotWallet → Type 0
  Every [] = Unit
  Every (x ∷ ws) = P x × Every ws

  pub Every-append_new :
      (new : HotWallet) (ws : List HotWallet) → P new → Every ws → Every (ws ++ new ∷ [])
  Every-append_new new [] h all = (h, tt)
  Every-append_new new (x ∷ ws) h all = (all.0, Every-append_new new ws h all.1)

  pub Every-retain : (p : HotWallet → Bool) (ws : List HotWallet) → Every ws → Every (retain p ws)
  Every-retain p [] all = tt
  Every-retain p (x ∷ ws) all = elim (Bool-cases (p x)) [
    | inl kept ↦ rw kept (all.0, Every-retain p ws all.1)
    | inr dropped ↦ rw dropped (Every-retain p ws all.1)
  ]

  pub Every-find? :
      (addr : String) {wal : HotWallet} (ws : List HotWallet)
      → find? (has_address addr) ws ≡ some wal
      → Every ws
      → P wal
  Every-find? addr [] found all = cc
  Every-find? addr {wal} (x ∷ ws) found all = elim (Bool-cases (has_address addr x)) [
    | inl here ↦ subst P (ground arith) all.0
    | inr later ↦ Every-find? addr ws (rw later at found) all.1
  ]

  Every-map_first :
      (addr : String) (wal : HotWallet) (ws : List HotWallet)
      → P wal
      → Every ws
      → Every (map_first (has_address addr) (λ _. wal) ws)
  Every-map_first addr wal [] h all = tt
  Every-map_first addr wal (x ∷ ws) h all = elim (Bool-cases (has_address addr x)) [
    | inl here ↦ rw here (h, all.1)
    | inr later ↦ rw later (all.0, Every-map_first addr wal ws h all.1)
  ]

  maybe_get_hot_wallet_mut-Every :
      {A : Type 0} (addr : String) (method : Exec.Exec HotWallet ContractError A)
      → Exec.Maintains P method
      → Exec.Maintains
          (λ (self : State). Every self.hot_wallets)
          (maybe_get_hot_wallet_mut addr method)
  unfolding maybe_get_hot_wallet_mut
  maybe_get_hot_wallet_mut-Every addr method k self all =
      elim (Option-cases (find? (has_address addr) self.hot_wallets)) [
        | inl missing ↦ subst Every (ground arith) all
        | inr (wal, found) ↦ subst Every (ground arith) (
            Every-map_first addr (method wal).1 self.hot_wallets
              (k wal (Every-find? addr self.hot_wallets found all)) all)
      ]

  module _ (w : World) (storage : w.Storage) (current_time : Timestamp) where
    pub check_and_update_spend_limits-Every :
        (addr : String) (spend : List Coin)
        → Exec.Maintains P (update_wallet w storage current_time spend)
        → (self : State) → Every self.hot_wallets
        → Every (check_and_update_spend_limits w storage current_time addr spend self).1.hot_wallets
    unfolding check_and_update_spend_limits
    check_and_update_spend_limits-Every addr spend keeps self all =
        elim (Bool-cases (is_admin self addr)) [
          | inl admin ↦ rw admin all
          | inr not_admin ↦ rw not_admin (
              maybe_get_hot_wallet_mut-Every addr (update_wallet w storage current_time spend) keeps
                self all)
        ]

module _ (P : HotWallet → Type 0) (w : World) (storage : w.Storage) (current_time : Timestamp) where
  -- What a reset and a spend maintain, so does both in turn.
  pub update_wallet-Maintains :
      (spend : List Coin)
      → Exec.Maintains P (reset_period w current_time)
      → Exec.Maintains P (process_spend_vec w storage spend)
      → Exec.Maintains P (update_wallet w storage current_time spend)
  unfolding update_wallet
  update_wallet-Maintains spend resets spends self h =
      elim (Bool-cases (should_reset w current_time self)) [
        | inl due ↦ rw due (
            Exec.Maintains-bind P (reset_period w current_time)
              (λ _. process_spend_vec w storage spend) resets (λ _. spends) self h)
        | inr running ↦ rw running (spends self h)
      ]

module _ (w : World) (storage : w.Storage) (current_time : Timestamp) (spend : List Coin) where
  pub update_wallet-IsSound : Exec.Maintains IsSound (update_wallet w storage current_time spend)
  update_wallet-IsSound =
      update_wallet-Maintains IsSound w storage current_time spend
        (reset_period-IsSound w current_time) (process_spend_vec-IsSound w storage spend)
