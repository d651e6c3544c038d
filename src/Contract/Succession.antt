-- ===== src/Contract/Succession.antt =====
-- How the admin of src/contract.rs changes: one proposes, the other confirms.
use juno_alpha_proxy_contrac.Common.{
  String, ◌≡◌, refl, ap, ◌⊎◌, inl, inr, Result, ok, err, panic, arith, eq_iff, List,
}
use juno_alpha_proxy_contrac.Types.{
  Env, MessageInfo, Response, Event, ContractError, State, ExecuteMsg,
}
use juno_alpha_proxy_contrac.World.{World, StoreLaws}
use juno_alpha_proxy_contrac.State
use juno_alpha_proxy_contrac.State.{is_admin, is_pending}
use juno_alpha_proxy_contrac.Contract.{execute}
use juno_alpha_proxy_contrac.Contract.Changes.{
  Effect, spent, proposed, confirmed, cancelled, wallet_added, wallet_removed,
}
use juno_alpha_proxy_contrac.Contract.Effect.{execute-Effect}
use juno_alpha_proxy_contrac.Contract.Admin.{
  propose_update_admin, execute_update_admin, confirm_update_admin,
}
use juno_alpha_proxy_contrac.Contract.Start.{obisign, signers_event}

-- The admin stays, or gives way to the pending admin who calls; the pending admin stays, or is
-- replaced by a call of the admin or of the pending admin.
abbrev pub Succeeds : String → State → State → Type 0
Succeeds sender cfg cfg' =
    ((cfg'.admin ≡ cfg.admin) ⊎ ((cfg.pending ≡ sender) × (cfg'.admin ≡ sender)))
    × ((cfg'.pending ≡ cfg.pending)
        ⊎ ((cfg.admin ≡ sender) ⊎ ((cfg.pending ≡ sender) × (cfg'.pending ≡ cfg.admin))))

Effect-Succeeds :
    (w : World) (sender : String) {msg : ExecuteMsg} {cfg cfg' : State}
    → Effect w sender msg cfg cfg'
    → Succeeds sender cfg cfg'
unfolding State.add_hot_wallet State.rm_hot_wallet
Effect-Succeeds w sender (spent msgs simulation ask who same debt others) =
    (inl (ap (λ (s : State). s.admin) same), inl (ap (λ (s : State). s.pending) same))
Effect-Succeeds w sender (proposed new_admin pending ask q valid e) = rw e (inl refl, inr (inl q))
Effect-Succeeds w sender (confirmed signers ask q e) = rw e (inr (q, q), inl refl)
Effect-Succeeds w sender (cancelled ask q e) = rw e (inl refl, inr (inr (q, refl)))
Effect-Succeeds w sender (wallet_added wallet ask q fresh e) = rw e (inl refl, inl refl)
Effect-Succeeds w sender (wallet_removed doomed ask q found e) = rw e (inl refl, inl refl)

-- After a call of `execute` that succeeds, the admin is the old one, or the caller, who was pending.
-- The pending admin is the old one, or the caller was the admin, or the caller was the pending admin
-- and has put the admin in its place.
pub execute-succession :
    (w : World)
    → StoreLaws w
    → (env : Env) (info : MessageInfo) (msg : ExecuteMsg) (storage : w.Storage) (cfg : State)
      {res : Response} {storage' : w.Storage}
    → w.load storage ≡ ok cfg
    → execute w env info msg storage ≡ (ok res, storage')
    → (cfg' : State) × (w.load storage' ≡ ok cfg') × Succeeds info.sender cfg cfg'
execute-succession w laws env info msg storage cfg loaded e =
    let (cfg', found, effect) = execute-Effect w laws env info msg storage cfg loaded e in
    (cfg', found, Effect-Succeeds w info.sender effect)

-- The storage after a transaction: a failed one is rolled back.
abbrev pub after {ℓ} : {S : Type ℓ} → Result ContractError Response × S → S → S
after (ok _, storage') storage = storage'
after (err _, _) storage = storage
after (panic, _) storage = storage

module _ (w : World) (laws : StoreLaws w) where
  -- When the admin proposes a valid address and that address confirms, it is admin, provided that
  -- both states can be saved and the signers are valid; the hot wallets, the debt and the rest stay.
  pub propose-confirm :
      (env env' : Env) (info info' : MessageInfo) (new_admin : String) (signers : List String)
      (storage s1 s2 : w.Storage) (cfg : State) {event : Event}
      → w.load storage ≡ ok cfg
      → cfg.admin ≡ info.sender
      → w.addr_validate new_admin ≡ ok info'.sender
      → w.save (record cfg { pending = info'.sender }) storage ≡ ok s1
      → signers_event w obisign signers ≡ ok event
      → w.save (record cfg { pending = info'.sender; admin = info'.sender }) s1 ≡ ok s2
      → (after (execute w env info (ExecuteMsg.propose_update_admin new_admin) storage) storage
          ≡ s1)
        × (after (execute w env' info' (ExecuteMsg.confirm_update_admin signers) s1) s1 ≡ s2)
        × (w.load s2 ≡ ok (record cfg { pending = info'.sender; admin = info'.sender }))
  unfolding execute propose_update_admin confirm_update_admin execute_update_admin is_admin
      is_pending
  propose-confirm env env' info info' new_admin signers storage s1 s2 cfg loaded is_a valid saved
        signed saved' =
      let loaded1 = laws.load-save (record cfg { pending = info'.sender }) storage saved in
      (
        ground (arith, eq_iff cfg.admin info.sender),
        ground (arith, eq_iff info'.sender info'.sender),
        laws.load-save _ s1 saved',
      )
