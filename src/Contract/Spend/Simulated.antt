-- ===== src/Contract/Spend/Simulated.antt =====
-- `SimExecute` beside `Execute` in src/contract.rs.
use juno_alpha_proxy_contrac.Common.{
  ◌≡◌, refl, false, true, List, [], ◌∷◌, Result, ok, err, panic, first, inl, inr, Bool-cases,
}
use juno_alpha_proxy_contrac.Common.Exec
use juno_alpha_proxy_contrac.Types.{
  new_response, from_std, CosmosMsg, Env, MessageInfo, Response, CorePayload, ContractError,
}
use juno_alpha_proxy_contrac.World.{World}
use juno_alpha_proxy_contrac.Contract.Storage.{load}
use juno_alpha_proxy_contrac.Contract.Spend.Cases.{payload_of, is_immediate}
use juno_alpha_proxy_contrac.Contract.Spend.{
  attach, is_authorized_call, check_and_spend_total_coins, execute_from, execute_execute,
}

abbrev finished : Result ContractError Response → Result ContractError (Unit {0})
finished (ok _) = ok tt
finished (err e) = err e
finished panic = panic

module _ {ℓ} {S : Type ℓ} where
  -- What a transaction comes to but for its response: success, error or panic, and the storage.
  abbrev pub outcome : Result ContractError Response × S → Result ContractError (Unit {0}) × S
  outcome p = (finished p.0, p.1)

module _ {ℓ} {S : Type ℓ} {A : Type 0} where
  outcome-bind :
      (m : Exec.Exec S ContractError A) (f g : A → Exec.Exec S ContractError Response) (s : S)
      → ((a : A) (s' : S) → outcome (f a s') ≡ outcome (g a s'))
      → outcome (Exec.◌>>=◌ m f s) ≡ outcome (Exec.◌>>=◌ m g s)
  outcome-bind m f g s h = by_result (m s)
    where
      by_result :
          (p : Result ContractError A × S)
          → outcome (Exec.continue p.0 f p.1) ≡ outcome (Exec.continue p.0 g p.1)
      by_result (ok a, s') = h a s'
      by_result (err e, s') = refl
      by_result (panic, s') = refl

execute_from-outcome :
    (w : World) (msgs : List CosmosMsg) (payload : CorePayload) (res res' : Response)
    (storage : w.Storage)
    → outcome (execute_from w true msgs payload res storage)
      ≡ outcome (execute_from w false msgs payload res' storage)
unfolding execute_from
execute_from-outcome w [] payload res res' storage = refl
execute_from-outcome w (m ∷ msgs) payload res res' storage =
    let payload' = record payload { this_msg = m } in
    outcome-bind (check_and_spend_total_coins w m payload')
      (λ r. execute_from w true msgs payload' (attach true m r res))
      (λ r. execute_from w false msgs payload' (attach false m r res')) storage
      (λ r s'.
        execute_from-outcome w msgs payload' (attach true m r res) (attach false m r res') s')

-- `SimExecute` succeeds, fails with the same error or panics exactly as `Execute` does on the same
-- messages, and leaves the same storage: it charges the limits and clears the debt as well.
pub execute_execute-simulation_agrees :
    (w : World) (env : Env) (info : MessageInfo) (msgs : List CosmosMsg) (storage : w.Storage)
    → outcome (execute_execute w env info msgs true storage)
      ≡ outcome (execute_execute w env info msgs false storage)
unfolding execute_execute
execute_execute-simulation_agrees w env info msgs storage =
    outcome-bind (load w) _ _ storage (λ cfg s. elim (Bool-cases (is_immediate cfg info)) [
      | inl at_once ↦ rw at_once refl
      | inr slow ↦ rw slow (
          outcome-bind (Exec.lift (first msgs)) _ _ s λ head s1.
            outcome-bind (Exec.lift (from_std (is_authorized_call cfg info head))) _ _ s1 λ call s2.
              elim (Bool-cases call) [
                | inl called ↦ rw called refl
                | inr other ↦
                    rw other (
                      execute_from-outcome w msgs (payload_of env info) new_response new_response
                        s2)
              ])
    ])
