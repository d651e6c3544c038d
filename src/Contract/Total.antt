-- ===== src/Contract/Total.antt =====
-- `execute` of src/contract.rs ends with a response or an error.
use juno_alpha_proxy_contrac.Common.{
  ◌≡◌, ◌≢◌, inl, inr, String, List, [], ◌∷◌, ok, arith, Returns, ap, false, true,
}
use juno_alpha_proxy_contrac.Common.Exec
use juno_alpha_proxy_contrac.Common.Outcome
use juno_alpha_proxy_contrac.Types.{
  Env, Event, MessageInfo, HotWallet, State, ExecuteMsg, from_std, add_event,
}
use juno_alpha_proxy_contrac.World.{World, StoreLaws, ChainReturns}
use juno_alpha_proxy_contrac.State
use juno_alpha_proxy_contrac.HotWallet.Total.{IsSteady}
use juno_alpha_proxy_contrac.State.Every.{Every}
use juno_alpha_proxy_contrac.Contract.{execute}
use juno_alpha_proxy_contrac.Contract.Start.{obisign, add_signer, signers_event}
use juno_alpha_proxy_contrac.Contract.Admin.{
  propose_update_admin, execute_update_admin, confirm_update_admin, cancel_update_admin,
}
use juno_alpha_proxy_contrac.Contract.Wallets.{add_hot_wallet, rm_hot_wallet}
use juno_alpha_proxy_contrac.Contract.Spend.Total.{execute_execute-Returns}

module _ (w : World) (chain_returns : ChainReturns w) where
  signers_event-Returns :
      (event : Event) (signers : List String) → Returns (signers_event w event signers)
  unfolding signers_event
  signers_event-Returns event [] = tt
  signers_event-Returns event (signer ∷ rest) =
      Outcome.Returns-bind (w.addr_validate signer) _ (chain_returns.addr_validate signer)
        (λ addr e. signers_event-Returns (add_signer event addr) rest)

  module _ (env : Env) (info : MessageInfo) (storage : w.Storage) (cfg : State)
      (loaded : w.load storage ≡ ok cfg) where
    update-Returns :
        (s1 : w.Storage) → w.load s1 ≡ ok cfg → Returns (execute_update_admin w env info false s1).0
    unfolding execute_update_admin
    update-Returns s1 e = ground (arith, chain_returns.save (record cfg { admin = cfg.pending }) s1)

    cancel-Returns : Returns (cancel_update_admin w env info storage).0
    unfolding cancel_update_admin execute_update_admin
    cancel-Returns = ground (arith, chain_returns.save (record cfg { pending = cfg.admin }) storage)

    confirm-Returns :
        (signers : List String) → Returns (confirm_update_admin w env info signers storage).0
    unfolding confirm_update_admin
    confirm-Returns signers =
        Exec.Returns-bind (Exec.lift (from_std (signers_event w obisign signers)))
          (λ event.
            Exec.◌>>=◌ (execute_update_admin w env info false)
              (λ res. Exec.pure (add_event event res)))
          storage
          (Outcome.Returns-map_err _ (signers_event w obisign signers)
            (signers_event-Returns obisign signers))
          (λ event s1 e.
            let same : s1 ≡ storage = ground arith in
            Exec.Returns-bind (execute_update_admin w env info false)
              (λ res. Exec.pure (add_event event res)) s1 (update-Returns s1 (rw same loaded))
              (λ res s2 e'. tt))

    propose-Returns :
        (new_admin : String) → Returns (propose_update_admin w env info new_admin storage).0
    unfolding propose_update_admin
    propose-Returns new_admin = elim (Outcome.Result-cases (w.addr_validate new_admin)) [
      | inl (pending, valid) ↦
          ground (arith, chain_returns.save (record cfg { pending = pending }) storage)
      | inr failed ↦ ground (arith, chain_returns.addr_validate new_admin)
    ]

    add-Returns : (wallet : HotWallet) → Returns (add_hot_wallet w env info wallet storage).0
    unfolding add_hot_wallet
    add-Returns wallet = ground (
      arith,
      chain_returns.addr_validate wallet.address,
      chain_returns.save (State.add_hot_wallet wallet cfg) storage,
    )

    rm-Returns : (doomed : String) → Returns (rm_hot_wallet w env info doomed storage).0
    unfolding rm_hot_wallet
    rm-Returns doomed = ground (arith, chain_returns.save (State.rm_hot_wallet doomed cfg) storage)

-- No call of `execute` aborts: it ends with a response or an error, if it asks for a spend then of
-- at least one message, if what the contract calls does not abort, if the time is in the years 1970
-- to 9977, and if every hot wallet has one limit, of which at most its amount remains, and a period
-- of days, or one of months whose length plus the number of the current month is less than 2^16 and
-- not a multiple of twelve from 24 to 264.
pub execute-Returns :
    (w : World)
    → ChainReturns w
    → StoreLaws w
    → (env : Env) (info : MessageInfo) (msg : ExecuteMsg) (storage : w.Storage) (cfg : State)
    → w.load storage ≡ ok cfg
    → Every (IsSteady w env.block.time) cfg.hot_wallets
    → msg ≢ ExecuteMsg.execute []
    → msg ≢ ExecuteMsg.sim_execute []
    → Returns (execute w env info msg storage).0
unfolding execute
execute-Returns w chain_returns laws env info (ExecuteMsg.execute msgs) storage cfg loaded all n
      n' =
    execute_execute-Returns w chain_returns laws false env info storage cfg loaded all msgs
      (λ e. n (ap ExecuteMsg.execute e))
execute-Returns w chain_returns laws env info (ExecuteMsg.sim_execute msgs) storage cfg loaded all n
      n' =
    execute_execute-Returns w chain_returns laws true env info storage cfg loaded all msgs
      (λ e. n' (ap ExecuteMsg.sim_execute e))
execute-Returns w chain_returns laws env info (ExecuteMsg.add_hot_wallet wallet) storage cfg loaded
      all n n' =
    add-Returns w chain_returns env info storage cfg loaded wallet
execute-Returns w chain_returns laws env info (ExecuteMsg.rm_hot_wallet doomed) storage cfg loaded
      all n n' =
    rm-Returns w chain_returns env info storage cfg loaded doomed
execute-Returns w chain_returns laws env info (ExecuteMsg.propose_update_admin new_admin) storage
      cfg loaded all n n' =
    propose-Returns w chain_returns env info storage cfg loaded new_admin
execute-Returns w chain_returns laws env info (ExecuteMsg.confirm_update_admin signers) storage cfg
      loaded all n n' =
    confirm-Returns w chain_returns env info storage cfg loaded signers
execute-Returns w chain_returns laws env info ExecuteMsg.cancel_update_admin storage cfg loaded all
      n n' =
    cancel-Returns w chain_returns env info storage cfg loaded
