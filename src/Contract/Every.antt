-- ===== src/Contract/Every.antt =====
-- What holds of every hot wallet over calls of `execute` of src/contract.rs.
use juno_alpha_proxy_contrac.Common.{ℕ, String, ◌≡◌, Bool, true, false, List, ok, subst}
use juno_alpha_proxy_contrac.Common.Exec
use juno_alpha_proxy_contrac.Types.{
  Coin, CosmosMsg, HotWallet, Env, MessageInfo, Response, State, ExecuteMsg,
}
use juno_alpha_proxy_contrac.World.{World, StoreLaws}
use juno_alpha_proxy_contrac.State
use juno_alpha_proxy_contrac.State.{update_wallet}
use juno_alpha_proxy_contrac.State.Every.{
  Every, Every-append_new, Every-retain, check_and_update_spend_limits-Every,
}
use juno_alpha_proxy_contrac.Contract.{execute}
use juno_alpha_proxy_contrac.Contract.Debt.Repay.{debt_free}
use juno_alpha_proxy_contrac.Contract.Spend.Preserved.{IsSpending, Changed, execute_execute-Changed}
use juno_alpha_proxy_contrac.Contract.Changes.{
  Effect, spending, spent, proposed, confirmed, cancelled, wallet_added, wallet_removed,
}
use juno_alpha_proxy_contrac.Contract.Effect.{execute-Effect}
use juno_alpha_proxy_contrac.Contract.Run.{during, during-StoreLaws, Call, Run, no_call, call}

module _ (P : HotWallet → Type 0) where
  -- A call that adds at most a wallet of which this holds.
  abbrev pub Adds : Call → Type 0
  Adds c = (wallet : HotWallet) → c.msg ≡ ExecuteMsg.add_hot_wallet wallet → P wallet

  abbrev KeepsEvery : State → State → Type 0
  KeepsEvery cfg cfg' = Every P cfg.hot_wallets → Every P cfg'.hot_wallets

  module _
      (keeps : (w : World) (storage : w.Storage) (current_time : ℕ) (spend : List Coin)
        → Exec.Maintains P (update_wallet w storage current_time spend))
      (w : World) (laws : StoreLaws w) where
    KeepsEvery-IsSpending :
        (current_time : ℕ) (addr : String) → IsSpending w current_time addr KeepsEvery
    KeepsEvery-IsSpending current_time addr = record {
      nothing = λ self all. all;
      repeated = λ self self1 self2 k k1 all. k1 (k all);
      spent = λ storage spend self e all. rw e at (
          check_and_update_spend_limits-Every P w storage current_time addr spend
            (keeps w storage current_time spend) (debt_free self) all);
    }

    -- What a spend keeps, whichever message asks for it.
    spending-KeepsEvery :
        (env : Env) (info : MessageInfo) (msgs : List CosmosMsg) (simulation : Bool)
        (storage : w.Storage) (cfg cfg' : State) {res : Response} {storage' : w.Storage}
        → w.load storage ≡ ok cfg
        → w.load storage' ≡ ok cfg'
        → execute w env info (spending msgs simulation) storage ≡ (ok res, storage')
        → KeepsEvery cfg cfg'
    unfolding execute
    spending-KeepsEvery env info msgs false storage cfg cfg' loaded found e =
        let (cfg1, found1, kept) =
          execute_execute-Changed w laws KeepsEvery env info
            (KeepsEvery-IsSpending env.block.time info.sender) false storage cfg loaded msgs e in
        let one : cfg1 ≡ cfg' = cc in subst (KeepsEvery cfg) one kept
    spending-KeepsEvery env info msgs true storage cfg cfg' loaded found e =
        let (cfg1, found1, kept) =
          execute_execute-Changed w laws KeepsEvery env info
            (KeepsEvery-IsSpending env.block.time info.sender) true storage cfg loaded msgs e in
        let one : cfg1 ≡ cfg' = cc in subst (KeepsEvery cfg) one kept

    Effect-KeepsEvery :
        (sender : String) {msg : ExecuteMsg} {cfg cfg' : State}
        → Effect w sender msg cfg cfg'
        → ((wallet : HotWallet) → msg ≡ ExecuteMsg.add_hot_wallet wallet → P wallet)
        → ((msgs : List CosmosMsg) (simulation : Bool)
            → msg ≡ spending msgs simulation
            → KeepsEvery cfg cfg')
        → KeepsEvery cfg cfg'
    unfolding State.add_hot_wallet State.rm_hot_wallet
    Effect-KeepsEvery sender (spent msgs simulation ask who same debt others) adds spends all =
        spends msgs simulation ask all
    Effect-KeepsEvery sender (proposed new_admin pending ask q valid e) adds spends all = rw e all
    Effect-KeepsEvery sender (confirmed signers ask q e) adds spends all = rw e all
    Effect-KeepsEvery sender (cancelled ask q e) adds spends all = rw e all
    Effect-KeepsEvery sender {cfg} (wallet_added wallet ask q fresh e) adds spends all =
        rw e (Every-append_new P wallet cfg.hot_wallets (adds wallet ask) all)
    Effect-KeepsEvery sender {cfg} (wallet_removed doomed ask q found e) adds spends all =
        rw e (Every-retain P _ cfg.hot_wallets all)

    call-KeepsEvery :
        (c : Call) (storage : w.Storage) (cfg : State) {res : Response} {storage' : w.Storage}
        → w.load storage ≡ ok cfg
        → Adds c
        → execute w c.env c.info c.msg storage ≡ (ok res, storage')
        → Changed w KeepsEvery cfg storage'
    call-KeepsEvery c storage cfg {res} {storage'} loaded adds e =
        let (cfg', found, effect) = execute-Effect w laws c.env c.info c.msg storage cfg loaded e in
        (
          cfg',
          found,
          Effect-KeepsEvery c.info.sender effect adds (λ msgs simulation ask.
              spending-KeepsEvery c.env c.info msgs simulation storage cfg cfg' loaded found
                (subst (λ m. execute w c.env c.info m storage ≡ (ok res, storage')) ask e)),
        )

  module _
      (keeps : (w : World) (storage : w.Storage) (current_time : ℕ) (spend : List Coin)
        → Exec.Maintains P (update_wallet w storage current_time spend)) where
    pub Run-Every :
        (w : World)
        → StoreLaws w
        → (cfg : State) {storage storage' : w.Storage} → w.load storage ≡ ok cfg
        → Every P cfg.hot_wallets
        → Run w Adds storage storage'
        → (cfg' : State) × (w.load storage' ≡ ok cfg') × Every P cfg'.hot_wallets
    Run-Every w laws cfg loaded all no_call = (cfg, loaded, all)
    Run-Every w laws cfg loaded all (call c {storage} adds e rest) =
        let (cfg1, found, kept) =
          call-KeepsEvery keeps (during w c) (during-StoreLaws w c laws) c storage cfg loaded adds
            e in
        Run-Every w laws cfg1 found (kept all) rest
