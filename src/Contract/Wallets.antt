-- ===== src/Contract/Wallets.antt =====
-- src/contract.rs: the admin adds and removes hot wallets.
use juno_alpha_proxy_contrac.Common.{String, not, any, if◌then◌else◌}
use juno_alpha_proxy_contrac.Common.Exec.{Exec, lift, fail, pure, ◌>>=◌, ◌>>◌}
use juno_alpha_proxy_contrac.Types.{
  Env, MessageInfo, Response, HotWallet, ContractError, unauthorized, hot_wallet_exists,
  hot_wallet_does_not_exist, from_std,
}
use juno_alpha_proxy_contrac.World.{World}
use juno_alpha_proxy_contrac.State
use juno_alpha_proxy_contrac.State.{is_admin, has_address}
use juno_alpha_proxy_contrac.Contract.Storage.{load, save, action}

module _ (w : World) where
  unfoldable pub add_hot_wallet :
      Env → MessageInfo → HotWallet → Exec w.Storage ContractError Response
  add_hot_wallet env info new_hot_wallet = do
    cfg ← load w
    if not (is_admin cfg info.sender)
        then fail unauthorized
        else if any (has_address new_hot_wallet.address) cfg.hot_wallets
        then fail hot_wallet_exists
        else do
          lift (from_std (w.addr_validate new_hot_wallet.address))
          save w (State.add_hot_wallet new_hot_wallet cfg)
          pure (action "add_hot_wallet")

  unfoldable pub rm_hot_wallet : Env → MessageInfo → String → Exec w.Storage ContractError Response
  rm_hot_wallet env info doomed_hot_wallet = do
    cfg ← load w
    if not (is_admin cfg info.sender)
        then fail unauthorized
        else if not (any (has_address doomed_hot_wallet) cfg.hot_wallets)
        then fail hot_wallet_does_not_exist
        else do save w (State.rm_hot_wallet doomed_hot_wallet cfg); pure (action "rm_hot_wallet")
