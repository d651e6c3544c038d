-- ===== src/Contract/Admin.antt =====
-- src/contract.rs: the two steps by which the admin changes.
use juno_alpha_proxy_contrac.Common.{String, Bool, true, false, List, if◌then◌else◌, not}
use juno_alpha_proxy_contrac.Common.Exec.{Exec, lift, fail, pure, ◌>>=◌, ◌>>◌}
use juno_alpha_proxy_contrac.Types.{
  Env, MessageInfo, Response, add_event, State, ContractError, unauthorized,
  caller_is_not_pending_new_admin, from_std,
}
use juno_alpha_proxy_contrac.World.{World}
use juno_alpha_proxy_contrac.State.{is_admin, is_pending}
use juno_alpha_proxy_contrac.Contract.Storage.{load, save, action}
use juno_alpha_proxy_contrac.Contract.Start.{obisign, signers_event}

module _ (w : World) where
  unfoldable pub propose_update_admin :
      Env → MessageInfo → String → Exec w.Storage ContractError Response
  propose_update_admin env info new_admin = do
    cfg ← load w
    if not (is_admin cfg info.sender) then fail unauthorized else do
      pending ← lift (from_std (w.addr_validate new_admin))
      save w (record cfg { pending = pending })
      pure (action "propose_update_admin")

  -- the assignment that `cancel` chooses
  abbrev updated_admin : Bool → State → State
  updated_admin cancel cfg =
      if cancel then record cfg { pending = cfg.admin } else record cfg { admin = cfg.pending }

  unfoldable pub execute_update_admin :
      Env → MessageInfo → Bool → Exec w.Storage ContractError Response
  execute_update_admin env info cancel = do
    cfg ← load w
    if not (is_pending cfg info.sender)
        then fail caller_is_not_pending_new_admin
        else do save w (updated_admin cancel cfg); pure (action "confirm_update_admin")

  unfoldable pub confirm_update_admin :
      Env → MessageInfo → List String → Exec w.Storage ContractError Response
  unfolding execute_update_admin
  confirm_update_admin env info signers = do
    event ← lift (from_std (signers_event w obisign signers))
    res ← execute_update_admin env info false
    pure (add_event event res)

  unfoldable pub cancel_update_admin : Env → MessageInfo → Exec w.Storage ContractError Response
  unfolding execute_update_admin
  cancel_update_admin env info = execute_update_admin env info true
