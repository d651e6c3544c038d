-- ===== src/State/Wallets.antt =====
-- The hot wallets of src/state.rs as a table by address.
use juno_alpha_proxy_contrac.Common.{
  String, ◌≡◌, ◌≢◌, refl, false, not, none, some, List, [], ◌∷◌, ◌++◌, ok, err, arith, any, find?,
  map_first, retain, if◌then◌else◌, ◌==◌, eq_iff,
}
use juno_alpha_proxy_contrac.Types.{HotWallet, State, hot_wallet_does_not_exist}
use juno_alpha_proxy_contrac.State.{
  has_address, add_hot_wallet, rm_hot_wallet, maybe_get_hot_wallet,
}

pub find?-append_new :
    (addr : String) (new : HotWallet) (ws : List HotWallet)
    → any (has_address new.address) ws ≡ false
    → find? (has_address addr) (ws ++ new ∷ [])
      ≡ (if new.address == addr then some new else find? (has_address addr) ws)
find?-append_new addr new [] h = ground arith
find?-append_new addr new (x ∷ ws) h = ground (
  arith,
  find?-append_new addr new ws,
  eq_iff x.address addr,
  eq_iff new.address addr,
  eq_iff x.address new.address,
)

pub find?-retain :
    (doomed addr : String) (ws : List HotWallet)
    → find? (has_address addr) (retain (λ x. not (has_address doomed x)) ws)
      ≡ (if doomed == addr then none else find? (has_address addr) ws)
find?-retain doomed addr [] = ground arith
find?-retain doomed addr (x ∷ ws) = ground (
  arith,
  find?-retain doomed addr ws,
  eq_iff x.address addr,
  eq_iff doomed addr,
  eq_iff x.address doomed,
)

pub find?-map_first_ne :
    (addr other : String) (wal : HotWallet) (ws : List HotWallet)
    → wal.address ≡ addr
    → other ≢ addr
    → find? (has_address other) (map_first (has_address addr) (λ _. wal) ws)
      ≡ find? (has_address other) ws
find?-map_first_ne addr other wal [] e ne = refl
find?-map_first_ne addr other wal (x ∷ ws) e ne = ground (
  arith,
  find?-map_first_ne addr other wal ws e ne,
  eq_iff x.address addr,
  eq_iff x.address other,
  eq_iff wal.address other,
)

pub find?-map_first_self :
    (addr : String) {old : HotWallet} (wal : HotWallet) (ws : List HotWallet)
    → wal.address ≡ addr
    → find? (has_address addr) ws ≡ some old
    → find? (has_address addr) (map_first (has_address addr) (λ _. wal) ws) ≡ some wal
find?-map_first_self addr wal [] e h = cc
find?-map_first_self addr {old} wal (x ∷ ws) e h =
    ground (arith, find?-map_first_self addr {old = old} wal ws e, eq_iff wal.address addr)

pub address-of_find? :
    (addr : String) {wal : HotWallet} (ws : List HotWallet)
    → find? (has_address addr) ws ≡ some wal
    → wal.address ≡ addr
address-of_find? addr [] h = cc
address-of_find? addr {wal} (x ∷ ws) h =
    ground (arith, address-of_find? addr {wal = wal} ws, eq_iff x.address addr)

-- Looking a wallet up after one with a new address was added: that address finds the new wallet, any
-- other finds what it found before.
pub maybe_get_hot_wallet-add :
    (self : State) (new : HotWallet) (addr : String)
    → any (has_address new.address) self.hot_wallets ≡ false
    → maybe_get_hot_wallet (add_hot_wallet new self) addr
      ≡ (if new.address == addr then ok new else maybe_get_hot_wallet self addr)
unfolding maybe_get_hot_wallet add_hot_wallet
maybe_get_hot_wallet-add self new addr fresh =
    ground (arith, find?-append_new addr new self.hot_wallets fresh)

-- Looking a wallet up after an address was removed: that address finds nothing, any other finds what
-- it found before.
pub maybe_get_hot_wallet-rm :
    (self : State) (doomed addr : String)
    → maybe_get_hot_wallet (rm_hot_wallet doomed self) addr
      ≡ (if doomed == addr then err hot_wallet_does_not_exist else maybe_get_hot_wallet self addr)
unfolding maybe_get_hot_wallet rm_hot_wallet
maybe_get_hot_wallet-rm self doomed addr = ground (arith, find?-retain doomed addr self.hot_wallets)
