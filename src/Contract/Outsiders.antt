-- ===== src/Contract/Outsiders.antt =====
-- What is left of `execute` of src/contract.rs for a sender that is neither the admin nor the
-- pending admin.
use juno_alpha_proxy_contrac.Common.{
  ◌≡◌, ◌≢◌, sym, subst, Bool, false, true, inl, inr, List, [], ok, arith, String, eq_iff, ◌==◌,
  Bool-cases,
}
use juno_alpha_proxy_contrac.Common.Exec
use juno_alpha_proxy_contrac.Types.{
  CosmosMsg, Env, Event, MessageInfo, Response, State, ExecuteMsg, ContractError, from_std,
  add_event,
}
use juno_alpha_proxy_contrac.World.{World}
use juno_alpha_proxy_contrac.State.{is_admin, is_pending}
use juno_alpha_proxy_contrac.Contract.{execute}
use juno_alpha_proxy_contrac.Contract.Start.{obisign, signers_event}
use juno_alpha_proxy_contrac.Contract.Admin.{
  propose_update_admin, execute_update_admin, confirm_update_admin, cancel_update_admin,
}
use juno_alpha_proxy_contrac.Contract.Wallets.{add_hot_wallet, rm_hot_wallet}
use juno_alpha_proxy_contrac.Contract.Spend.{execute_execute}

-- The messages that a call asks to run.
abbrev pub messages_of : ExecuteMsg → List CosmosMsg
messages_of (ExecuteMsg.execute msgs) = msgs
messages_of (ExecuteMsg.sim_execute msgs) = msgs
messages_of _ = []

pub not_is_admin : (cfg : State) (addr : String) → addr ≢ cfg.admin → is_admin cfg addr ≡ false
unfolding is_admin
not_is_admin cfg addr ne = elim (Bool-cases (cfg.admin == addr)) [
  | inl same ↦ absurd (ne (sym ((eq_iff cfg.admin addr).0 same)))
  | inr differ ↦ differ
]

not_is_pending : (cfg : State) (addr : String) → addr ≢ cfg.pending → is_pending cfg addr ≡ false
unfolding is_pending
not_is_pending cfg addr ne = elim (Bool-cases (cfg.pending == addr)) [
  | inl same ↦ absurd (ne (sym ((eq_iff cfg.pending addr).0 same)))
  | inr differ ↦ differ
]

module _ (w : World) (env : Env) (info : MessageInfo) (storage : w.Storage) (cfg : State)
    (loaded : w.load storage ≡ ok cfg) {res : Response} {storage' : w.Storage} where
  update-refused :
      (cancel : Bool)
      → is_pending cfg info.sender ≡ false
      → execute_update_admin w env info cancel storage ≢ (ok res, storage')
  unfolding execute_update_admin
  update-refused cancel p e = ground arith

module _ (w : World) (env : Env) (info : MessageInfo) (storage : w.Storage) (cfg : State)
    (loaded : w.load storage ≡ ok cfg) {res : Response} {storage' : w.Storage} where
  confirm-refused :
      (signers : List String)
      → is_pending cfg info.sender ≡ false
      → confirm_update_admin w env info signers storage ≢ (ok res, storage')
  unfolding confirm_update_admin
  confirm-refused signers p e =
      let rest : Event → Exec.Exec w.Storage ContractError Response = λ event.
        Exec.◌>>=◌ (execute_update_admin w env info false)
          (λ res. Exec.pure (add_event event res)) in
      let (event, s1, q, later) =
        Exec.>>=-eq-ok (Exec.lift (from_std (signers_event w obisign signers))) rest storage e in
      let (res1, s2, updated, _) =
        Exec.>>=-eq-ok (execute_update_admin w env info false)
          (λ res. Exec.pure (add_event event res)) s1 later in
      let same : s1 ≡ storage = ground arith in
      update-refused w env info storage cfg loaded false p
        (subst (λ s. execute_update_admin w env info false s ≡ (ok res1, s2)) same updated)

  -- A call by an outsider that succeeds is a spend.
  pub Outsider-execute :
      (msg : ExecuteMsg)
      → (info.sender ≢ cfg.admin) × (info.sender ≢ cfg.pending)
      → execute w env info msg storage ≡ (ok res, storage')
      → (simulation : Bool) × (execute_execute w env info (messages_of msg) simulation storage
          ≡ (ok res, storage'))
  unfolding execute propose_update_admin cancel_update_admin add_hot_wallet rm_hot_wallet
  Outsider-execute (ExecuteMsg.execute msgs) o e = (false, e)
  Outsider-execute (ExecuteMsg.sim_execute msgs) o e = (true, e)
  Outsider-execute (ExecuteMsg.add_hot_wallet wallet) o e =
      let n = not_is_admin cfg info.sender o.0 in absurd (ground arith)
  Outsider-execute (ExecuteMsg.rm_hot_wallet doomed) o e =
      let n = not_is_admin cfg info.sender o.0 in absurd (ground arith)
  Outsider-execute (ExecuteMsg.propose_update_admin new_admin) o e =
      let n = not_is_admin cfg info.sender o.0 in absurd (ground arith)
  Outsider-execute (ExecuteMsg.confirm_update_admin signers) o e =
      absurd (confirm-refused signers (not_is_pending cfg info.sender o.1) e)
  Outsider-execute ExecuteMsg.cancel_update_admin o e =
      absurd
        (update-refused w env info storage cfg loaded true (not_is_pending cfg info.sender o.1) e)
