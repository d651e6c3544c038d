-- ===== src/State.antt =====
-- src/state.rs: who is admin, who is a hot wallet, and what a hot wallet may spend.
pub mod Wallets
pub mod Spending
pub mod Checking
pub mod Period
pub mod Every
pub mod Total
pub mod Draws
use juno_alpha_proxy_contrac.Common.{
  String, Bool, true, false, none, some, List, [], ◌∷◌, ◌++◌, not, Result, ok, err, find?, retain,
  map_first, if◌then◌else◌, ◌==◌,
}
use juno_alpha_proxy_contrac.Common.Outcome
use juno_alpha_proxy_contrac.Common.Exec.{Exec, pure, ◌>>◌}
use juno_alpha_proxy_contrac.Types.{
  Coin, Timestamp, HotWallet, SourcedCoin, State, StdResult, ContractError,
  hot_wallet_does_not_exist,
}
use juno_alpha_proxy_contrac.World.{World}
use juno_alpha_proxy_contrac.HotWallet.{
  should_reset, reset_period, process_spend_vec, check_spend_vec,
}

unfoldable pub get_admin_sourced_coin : SourcedCoin
get_admin_sourced_coin = record {
  coin = record { denom = "unlimited"; amount = 0 };
  wrapped_sources = record {
    sources = record { contract_addr = "no spend limit check"; query_msg = "caller is admin" } ∷ [];
  };
}

abbrev pub has_address : String → HotWallet → Bool
has_address addr a = a.address == addr

-- returns true if the address is a registered admin
unfoldable pub is_admin : State → String → Bool
is_admin self addr = self.admin == addr

-- returns true if the address is pending to become a registered admin
unfoldable pub is_pending : State → String → Bool
is_pending self addr = self.pending == addr

unfoldable pub assert_admin : State → String → ContractError → Result ContractError (Unit {0})
assert_admin self a e = if is_admin self a then err e else ok tt

unfoldable pub is_active_hot_wallet : State → String → StdResult Bool
is_active_hot_wallet self addr = elim (find? (has_address addr) self.hot_wallets) [
  | none ↦ ok false
  | some _ ↦ ok true
]

unfoldable pub is_authorized_hotwallet_contract : String → Bool
is_authorized_hotwallet_contract addr =
    if addr == "juno18c5uecrztn4rqakm23fskusasud7s8afujnl8yu54ule2kak5q4sdnvcz4"
    then true
    else if addr == "juno1x5xz6wu8qlau8znmc60tmazzj3ta98quhk7qkamul3am2x8fsaqqcwy7n9"
    then true
    else false

unfoldable pub add_hot_wallet : HotWallet → State → State
add_hot_wallet new_hot_wallet self = record self {
  hot_wallets = self.hot_wallets ++ new_hot_wallet ∷ [];
}

unfoldable pub rm_hot_wallet : String → State → State
rm_hot_wallet doomed_hot_wallet self = record self {
  hot_wallets = retain (λ wallet. not (has_address doomed_hot_wallet wallet)) self.hot_wallets;
}

unfoldable pub maybe_get_hot_wallet : State → String → Result ContractError HotWallet
maybe_get_hot_wallet self addr = elim (find? (has_address addr) self.hot_wallets) [
  | none ↦ err hot_wallet_does_not_exist
  | some wal ↦ ok wal
]

-- `maybe_get_hot_wallet_mut` followed by a method on the wallet that it lends: the method's writes go
-- to that wallet in the list.
unfoldable pub maybe_get_hot_wallet_mut {ℓ} :
    {A : Type ℓ} → String → Exec HotWallet ContractError A → Exec State ContractError A
maybe_get_hot_wallet_mut addr method self = elim (find? (has_address addr) self.hot_wallets) [
  | none ↦ (err hot_wallet_does_not_exist, self)
  | some wal ↦
      let (r, wal') = method wal in
      (r, record self { hot_wallets = map_first (has_address addr) (λ _. wal') self.hot_wallets })
]

module _ (w : World) where
  -- The body of `check_and_update_spend_limits`, on the wallet.
  unfoldable pub update_wallet :
      w.Storage → Timestamp → List Coin → Exec HotWallet ContractError SourcedCoin
  update_wallet storage current_time spend this_wallet =
      if should_reset w current_time this_wallet
      then (reset_period w current_time >> process_spend_vec w storage spend) this_wallet
      else process_spend_vec w storage spend this_wallet

  unfoldable pub check_and_update_spend_limits :
      w.Storage → Timestamp → String → List Coin → Exec State ContractError SourcedCoin
  check_and_update_spend_limits storage current_time addr spend self =
      if is_admin self addr
      then pure get_admin_sourced_coin self
      else maybe_get_hot_wallet_mut addr (update_wallet storage current_time spend) self

  unfoldable pub check_spend_limits :
      w.Storage → Timestamp → String → List Coin → State → Result ContractError SourcedCoin
  check_spend_limits storage current_time addr spend self =
      if is_admin self addr
      then ok get_admin_sourced_coin
      else Outcome.◌>>=◌ (maybe_get_hot_wallet self addr) λ this_wallet.
        if should_reset w current_time this_wallet
        then check_spend_vec w storage spend true this_wallet
        else check_spend_vec w storage spend false this_wallet
