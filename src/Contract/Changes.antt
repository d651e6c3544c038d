-- ===== src/Contract/Changes.antt =====
-- The changes of the stored state that the messages of `execute` in src/contract.rs ask for.
use juno_alpha_proxy_contrac.Common.{
  ◌≡◌, ◌≢◌, none, find?, ◌⊎◌, Bool, false, true, any, List, ok, String,
}
use juno_alpha_proxy_contrac.Types.{HotWallet, State, ExecuteMsg, CosmosMsg}
use juno_alpha_proxy_contrac.World.{World}
use juno_alpha_proxy_contrac.State
use juno_alpha_proxy_contrac.State.{is_admin, is_pending, has_address, maybe_get_hot_wallet}
use juno_alpha_proxy_contrac.State.Spending.{settings}

abbrev pub spending : List CosmosMsg → Bool → ExecuteMsg
spending msgs false = ExecuteMsg.execute msgs
spending msgs true = ExecuteMsg.sim_execute msgs

-- The changes of the state that the contract is for, who may make them and which message asks.
pub data Effect (w : World) (sender : String) (msg : ExecuteMsg) (cfg cfg' : State) : Type 0 where
  spent :
      (msgs : List CosmosMsg) (simulation : Bool)
      → msg ≡ spending msgs simulation
      → (cfg.admin ≡ sender) ⊎ (find? (has_address sender) cfg.hot_wallets ≢ none)
      → settings cfg' ≡ settings cfg
      → (cfg'.uusd_fee_debt ≡ cfg.uusd_fee_debt) ⊎ (cfg'.uusd_fee_debt ≡ 0)
      → ((other : String)
          → other ≢ sender
          → maybe_get_hot_wallet cfg' other ≡ maybe_get_hot_wallet cfg other)
      → Effect w sender msg cfg cfg'
  proposed :
      (new_admin pending : String)
      → msg ≡ ExecuteMsg.propose_update_admin new_admin
      → cfg.admin ≡ sender
      → w.addr_validate new_admin ≡ ok pending
      → cfg' ≡ record cfg { pending = pending }
      → Effect w sender msg cfg cfg'
  confirmed :
      (signers : List String)
      → msg ≡ ExecuteMsg.confirm_update_admin signers
      → cfg.pending ≡ sender
      → cfg' ≡ record cfg { admin = cfg.pending }
      → Effect w sender msg cfg cfg'
  cancelled :
      msg ≡ ExecuteMsg.cancel_update_admin
      → cfg.pending ≡ sender
      → cfg' ≡ record cfg { pending = cfg.admin }
      → Effect w sender msg cfg cfg'
  wallet_added :
      (wallet : HotWallet)
      → msg ≡ ExecuteMsg.add_hot_wallet wallet
      → cfg.admin ≡ sender
      → any (has_address wallet.address) cfg.hot_wallets ≡ false
      → cfg' ≡ State.add_hot_wallet wallet cfg
      → Effect w sender msg cfg cfg'
  wallet_removed :
      (doomed : String)
      → msg ≡ ExecuteMsg.rm_hot_wallet doomed
      → cfg.admin ≡ sender
      → any (has_address doomed) cfg.hot_wallets ≡ true
      → cfg' ≡ State.rm_hot_wallet doomed cfg
      → Effect w sender msg cfg cfg'

-- The state that a storage holds is the effect of a sender's message on another one.
abbrev pub Effected : (w : World) → String → ExecuteMsg → State → w.Storage → Type 0
Effected w sender msg cfg storage' =
    (cfg' : State) × (w.load storage' ≡ ok cfg') × Effect w sender msg cfg cfg'
