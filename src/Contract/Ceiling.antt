-- ===== src/Contract/Ceiling.antt =====
-- The limits of all hot wallets over calls of `execute` of src/contract.rs.
use juno_alpha_proxy_contrac.Common.{◌≡◌, ok}
use juno_alpha_proxy_contrac.Types.{State}
use juno_alpha_proxy_contrac.World.{World, StoreLaws}
use juno_alpha_proxy_contrac.HotWallet.Ceiling.{IsSound}
use juno_alpha_proxy_contrac.State.Every.{Every, update_wallet-IsSound}
use juno_alpha_proxy_contrac.Contract.Every.{Adds, Run-Every}
use juno_alpha_proxy_contrac.Contract.Run.{Run}

-- However many calls of `execute` succeed, whoever makes them and however prices change from call
-- to call: if every hot wallet had one limit, of which at most its amount remained, and every
-- wallet that is added is such a wallet, then every hot wallet is one at the end.
pub Run-IsSound :
    (w : World)
    → StoreLaws w
    → (cfg : State) {storage storage' : w.Storage} → w.load storage ≡ ok cfg
    → Every IsSound cfg.hot_wallets
    → Run w (Adds IsSound) storage storage'
    → (cfg' : State) × (w.load storage' ≡ ok cfg') × Every IsSound cfg'.hot_wallets
Run-IsSound w laws cfg loaded all run =
    Run-Every IsSound update_wallet-IsSound w laws cfg loaded all run
