-- ===== src/Contract/Storage.antt =====
-- `STATE.load(deps.storage)?` and `STATE.save(deps.storage, &cfg)?` as steps of a handler, and the
-- attribute that a handler logs.
use juno_alpha_proxy_contrac.Common.{String}
use juno_alpha_proxy_contrac.Common.Exec.{Exec, reads, writes}
use juno_alpha_proxy_contrac.Types.{
  Response, new_response, add_attribute, State, ContractError, from_std,
}
use juno_alpha_proxy_contrac.World.{World}

module _ (w : World) where
  abbrev pub load : Exec w.Storage ContractError State
  load = reads λ storage. from_std (w.load storage)

  abbrev pub save : State → Exec w.Storage ContractError (Unit {0})
  save cfg = writes λ storage. from_std (w.save cfg storage)

-- `Response::new().add_attribute("action", …)`
abbrev pub action : String → Response
action name = add_attribute "action" name new_response
