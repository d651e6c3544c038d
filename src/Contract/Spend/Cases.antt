-- ===== src/Contract/Spend/Cases.antt =====
-- The four ways through `execute_execute` of src/contract.rs.
use juno_alpha_proxy_contrac.Common.{
  ◌≡◌, refl, ◌⊎◌, inl, inr, Bool, false, true, ◌&&◌, List, [], ◌∷◌, Result, ok, panic, arith, eqb,
  if◌then◌else◌, Bool-cases,
}
use juno_alpha_proxy_contrac.Types.{
  CosmosMsg, WasmMsg, Env, MessageInfo, Response, new_response, add_message, add_messages, State,
  CorePayload, ContractError,
}
use juno_alpha_proxy_contrac.World.{World}
use juno_alpha_proxy_contrac.State.{is_admin, is_active_hot_wallet}
use juno_alpha_proxy_contrac.Contract.Storage.{action}
use juno_alpha_proxy_contrac.Contract.Spend.{is_authorized_call, execute_from, execute_execute}

-- The admin, while there is no debt.
abbrev pub is_immediate : State → MessageInfo → Bool
is_immediate cfg info = eqb cfg.uusd_fee_debt 0 && is_admin cfg info.sender

abbrev pub immediate_response : List CosmosMsg → Bool → Response
immediate_response msgs simulation =
    let res = action "execute_execute" in if simulation then res else add_messages msgs res

abbrev pub authorized_response : CosmosMsg → Response
authorized_response head = add_message head (action "execute_authorized_contract")

abbrev pub payload_of : Env → MessageInfo → CorePayload
payload_of env info = record {
  info = info;
  this_msg = CosmosMsg.custom;
  current_time = env.block.time;
}

pub is_authorized_call-ok :
    (cfg : State) (info : MessageInfo) (m : CosmosMsg)
    → (is_authorized_call cfg info m ≡ ok true) ⊎ (is_authorized_call cfg info m ≡ ok false)
unfolding is_authorized_call is_active_hot_wallet
is_authorized_call-ok cfg info (CosmosMsg.wasm (WasmMsg.execute addr msg funds)) = ground arith
is_authorized_call-ok cfg info _ = inr refl

module _ (w : World) (env : Env) (info : MessageInfo) (simulation : Bool) (storage : w.Storage)
    (cfg : State) (loaded : w.load storage ≡ ok cfg) where
  -- How a call of `execute_execute` goes on after its tests.
  pub data Way : List CosmosMsg → Result ContractError Response × w.Storage → Type 0 where
    immediate :
        {msgs : List CosmosMsg} {p : Result ContractError Response × w.Storage}
        → is_immediate cfg info ≡ true
        → p ≡ (ok (immediate_response msgs simulation), storage)
        → Way msgs p
    empty :
        {p : Result ContractError Response × w.Storage}
        → is_immediate cfg info ≡ false
        → p ≡ (panic, storage)
        → Way [] p
    authorized :
        {m : CosmosMsg} {rest : List CosmosMsg} {p : Result ContractError Response × w.Storage}
        → is_immediate cfg info ≡ false
        → is_authorized_call cfg info m ≡ ok true
        → p ≡ (ok (authorized_response m), storage)
        → Way (m ∷ rest) p
    checked :
        {m : CosmosMsg} {rest : List CosmosMsg} {p : Result ContractError Response × w.Storage}
        → is_immediate cfg info ≡ false
        → is_authorized_call cfg info m ≡ ok false
        → p ≡ execute_from w simulation (m ∷ rest) (payload_of env info) new_response storage
        → Way (m ∷ rest) p

  Way-after_tests :
      (msgs : List CosmosMsg)
      → is_immediate cfg info ≡ false
      → Way msgs (execute_execute w env info msgs simulation storage)
  unfolding execute_execute
  Way-after_tests [] slow = empty slow (rw (loaded, slow))
  Way-after_tests (m ∷ rest) slow = elim (is_authorized_call-ok cfg info m) [
    | inl yes_call ↦ authorized slow yes_call (rw (loaded, slow, yes_call))
    | inr no_call ↦ checked slow no_call (rw (loaded, slow, no_call))
  ]

  pub execute_execute-Way :
      (msgs : List CosmosMsg) → Way msgs (execute_execute w env info msgs simulation storage)
  unfolding execute_execute
  execute_execute-Way msgs = elim (Bool-cases (is_immediate cfg info)) [
    | inl at_once ↦ immediate at_once (rw (loaded, at_once))
    | inr slow ↦ Way-after_tests msgs slow
  ]
