-- ===== src/Contract/Effect.antt =====
-- What each message of `execute` in src/contract.rs may do to the stored state.
use juno_alpha_proxy_contrac.Common.{
  ◌≡◌, ◌≢◌, subst, none, find?, Bool-cases, refl, ◌⊎◌, inl, inr, Bool, false, true, List, ok, arith,
  String, eq_iff,
}
use juno_alpha_proxy_contrac.Common.Exec
use juno_alpha_proxy_contrac.Common.Outcome.{Result-cases}
use juno_alpha_proxy_contrac.Types.{
  Env, Event, MessageInfo, Response, HotWallet, State, ExecuteMsg, CosmosMsg, ContractError,
  from_std, add_event,
}
use juno_alpha_proxy_contrac.World.{World, StoreLaws}
use juno_alpha_proxy_contrac.State
use juno_alpha_proxy_contrac.State.{is_admin, is_pending, has_address, maybe_get_hot_wallet}
use juno_alpha_proxy_contrac.Contract.Changes.{
  spending, spent, proposed, confirmed, cancelled, wallet_added, wallet_removed, Effected,
}
use juno_alpha_proxy_contrac.Contract.{execute}
use juno_alpha_proxy_contrac.Contract.Start.{obisign, signers_event}
use juno_alpha_proxy_contrac.Contract.Admin.{
  propose_update_admin, execute_update_admin, confirm_update_admin, cancel_update_admin,
}
use juno_alpha_proxy_contrac.Contract.Wallets.{add_hot_wallet, rm_hot_wallet}
use juno_alpha_proxy_contrac.Contract.Spend.{execute_execute}
use juno_alpha_proxy_contrac.Contract.Spend.Access.{execute_execute-stranger}
use juno_alpha_proxy_contrac.Contract.Spend.Others.{execute_execute-OthersKept}
use juno_alpha_proxy_contrac.Contract.Spend.Settings.{execute_execute-SameSettings}

is_admin-eq : (cfg : State) (addr : String) → is_admin cfg addr ≡ true → cfg.admin ≡ addr
unfolding is_admin
is_admin-eq cfg addr e = ground (arith, eq_iff cfg.admin addr)

is_pending-eq : (cfg : State) (addr : String) → is_pending cfg addr ≡ true → cfg.pending ≡ addr
unfolding is_pending
is_pending-eq cfg addr e = ground (arith, eq_iff cfg.pending addr)

-- Only the admin and the hot wallets succeed with `Execute`.
permitted :
    (w : World)
    → StoreLaws w
    → (env : Env) (info : MessageInfo) (storage : w.Storage) (cfg : State) → w.load storage ≡ ok cfg
    → (msgs : List CosmosMsg) (simulation : Bool) {res : Response} {storage' : w.Storage}
    → execute_execute w env info msgs simulation storage ≡ (ok res, storage')
    → (cfg.admin ≡ info.sender) ⊎ (find? (has_address info.sender) cfg.hot_wallets ≢ none)
permitted w laws env info storage cfg loaded msgs simulation e =
    elim (Bool-cases (is_admin cfg info.sender)) [
      | inl admin ↦ inl (is_admin-eq cfg info.sender admin)
      | inr not_admin ↦ inr (λ not_wallet.
          execute_execute-stranger w laws env info msgs simulation storage cfg loaded
            (record { not_admin = not_admin; not_wallet = not_wallet }) (rw e tt))
    ]

module _ (w : World) (laws : StoreLaws w) (env : Env) (info : MessageInfo) (storage : w.Storage)
    (cfg : State) (loaded : w.load storage ≡ ok cfg) {res : Response} {storage' : w.Storage} where
  propose-Effect :
      (new_admin : String)
      → propose_update_admin w env info new_admin storage ≡ (ok res, storage')
      → Effected w info.sender (ExecuteMsg.propose_update_admin new_admin) cfg storage'
  unfolding propose_update_admin
  propose-Effect new_admin e = elim (Result-cases (w.addr_validate new_admin)) [
    | inl (pending, valid) ↦
        let cfg' : State = record cfg { pending = pending } in
        (
          cfg',
          ground (arith, laws.load-save cfg' storage {σ' = storage'}),
          proposed new_admin pending refl (is_admin-eq cfg info.sender (ground arith)) valid refl,
        )
    | inr failed ↦ absurd (ground arith)
  ]

  decline-Effect :
      execute_update_admin w env info true storage ≡ (ok res, storage')
      → Effected w info.sender ExecuteMsg.cancel_update_admin cfg storage'
  unfolding execute_update_admin
  decline-Effect e =
      let cfg' : State = record cfg { pending = cfg.admin } in
      (
        cfg',
        ground (arith, laws.load-save cfg' storage {σ' = storage'}),
        cancelled refl (is_pending-eq cfg info.sender (ground arith)) refl,
      )

  take_over-Effect :
      (signers : List String)
      → execute_update_admin w env info false storage ≡ (ok res, storage')
      → Effected w info.sender (ExecuteMsg.confirm_update_admin signers) cfg storage'
  unfolding execute_update_admin
  take_over-Effect signers e =
      let cfg' : State = record cfg { admin = cfg.pending } in
      (
        cfg',
        ground (arith, laws.load-save cfg' storage {σ' = storage'}),
        confirmed signers refl (is_pending-eq cfg info.sender (ground arith)) refl,
      )

  add-Effect :
      (wallet : HotWallet)
      → add_hot_wallet w env info wallet storage ≡ (ok res, storage')
      → Effected w info.sender (ExecuteMsg.add_hot_wallet wallet) cfg storage'
  unfolding add_hot_wallet
  add-Effect wallet e =
      let cfg' = State.add_hot_wallet wallet cfg in
      (
        cfg',
        ground (arith, laws.load-save cfg' storage {σ' = storage'}),
        wallet_added wallet refl (is_admin-eq cfg info.sender (ground arith)) (ground arith) refl,
      )

  rm-Effect :
      (doomed : String)
      → rm_hot_wallet w env info doomed storage ≡ (ok res, storage')
      → Effected w info.sender (ExecuteMsg.rm_hot_wallet doomed) cfg storage'
  unfolding rm_hot_wallet
  rm-Effect doomed e =
      let cfg' = State.rm_hot_wallet doomed cfg in
      (
        cfg',
        ground (arith, laws.load-save cfg' storage {σ' = storage'}),
        wallet_removed doomed refl (is_admin-eq cfg info.sender (ground arith)) (ground arith) refl,
      )

module _ (w : World) (laws : StoreLaws w) (env : Env) (info : MessageInfo) (storage : w.Storage)
    (cfg : State) (loaded : w.load storage ≡ ok cfg) where
  confirm-Effect :
      (signers : List String) {res : Response} {storage' : w.Storage}
      → confirm_update_admin w env info signers storage ≡ (ok res, storage')
      → Effected w info.sender (ExecuteMsg.confirm_update_admin signers) cfg storage'
  unfolding confirm_update_admin
  confirm-Effect signers {res} {storage'} e =
      let rest : Event → Exec.Exec w.Storage ContractError Response = λ event.
        Exec.◌>>=◌ (execute_update_admin w env info false)
          (λ res. Exec.pure (add_event event res)) in
      let (event, s1, q, later) =
        Exec.>>=-eq-ok (Exec.lift (from_std (signers_event w obisign signers))) rest storage e in
      let (res1, s2, updated, last) =
        Exec.>>=-eq-ok (execute_update_admin w env info false)
          (λ res. Exec.pure (add_event event res)) s1 later in
      let same : s1 ≡ storage = ground arith in
      let same' : s2 ≡ storage' = ground arith in
      let done : execute_update_admin w env info false storage ≡ (ok res1, storage') =
        ground arith in
      take_over-Effect w laws env info storage cfg loaded signers done

  spend-Effect :
      (msgs : List CosmosMsg) (simulation : Bool) {res : Response} {storage' : w.Storage}
      → execute_execute w env info msgs simulation storage ≡ (ok res, storage')
      → Effected w info.sender (spending msgs simulation) cfg storage'
  spend-Effect msgs simulation e =
      let (cfg1, found1, same, debt) =
        execute_execute-SameSettings w laws env info msgs simulation storage cfg loaded e in
      let (cfg2, found2, others) =
        execute_execute-OthersKept w laws env info msgs simulation storage cfg loaded e in
      let one : cfg2 ≡ cfg1 = cc in
      (
        cfg1,
        found1,
        spent msgs simulation refl (permitted w laws env info storage cfg loaded msgs simulation e)
            same debt
            (subst
              (λ (s : State).
                (other : String)
                → other ≢ info.sender
                → maybe_get_hot_wallet s other ≡ maybe_get_hot_wallet cfg other)
              one others),
      )

  cancel-Effect :
      {res : Response} {storage' : w.Storage}
      → cancel_update_admin w env info storage ≡ (ok res, storage')
      → Effected w info.sender ExecuteMsg.cancel_update_admin cfg storage'
  unfolding cancel_update_admin
  cancel-Effect e = decline-Effect w laws env info storage cfg loaded e

-- A call of `execute` that succeeds changes the stored state in one of these ways, each with its own
-- condition on the sender: it spends, as the admin or a hot wallet, which leaves all settings and the
-- wallets of other addresses alone and pays the debt in full or not at all; it proposes a valid
-- address, or adds or removes one hot wallet, as the admin; it takes over or declines, as the pending
-- admin. The change is the one that the message asks for.
pub execute-Effect :
    (w : World)
    → StoreLaws w
    → (env : Env) (info : MessageInfo) (msg : ExecuteMsg) (storage : w.Storage) (cfg : State)
      {res : Response} {storage' : w.Storage}
    → w.load storage ≡ ok cfg
    → execute w env info msg storage ≡ (ok res, storage')
    → Effected w info.sender msg cfg storage'
unfolding execute
execute-Effect w laws env info (ExecuteMsg.execute msgs) storage cfg loaded e =
    spend-Effect w laws env info storage cfg loaded msgs false e
execute-Effect w laws env info (ExecuteMsg.sim_execute msgs) storage cfg loaded e =
    spend-Effect w laws env info storage cfg loaded msgs true e
execute-Effect w laws env info (ExecuteMsg.add_hot_wallet wallet) storage cfg loaded e =
    add-Effect w laws env info storage cfg loaded wallet e
execute-Effect w laws env info (ExecuteMsg.rm_hot_wallet doomed) storage cfg loaded e =
    rm-Effect w laws env info storage cfg loaded doomed e
execute-Effect w laws env info (ExecuteMsg.propose_update_admin new_admin) storage cfg loaded e =
    propose-Effect w laws env info storage cfg loaded new_admin e
execute-Effect w laws env info (ExecuteMsg.confirm_update_admin signers) storage cfg loaded e =
    confirm-Effect w laws env info storage cfg loaded signers e
execute-Effect w laws env info ExecuteMsg.cancel_update_admin storage cfg loaded e =
    cancel-Effect w laws env info storage cfg loaded e
