-- ===== src/Contract/Spend/Total.antt =====
-- `Execute` and `SimExecute` of src/contract.rs end with a response or an error.
use juno_alpha_proxy_contrac.Common.{
  ℕ, String, ◌≡◌, ◌≢◌, refl, sym, ap, subst, inl, inr, Bool, List, [], ◌∷◌, Result, ok, arith,
  Returns, Bool-cases,
}
use juno_alpha_proxy_contrac.Common.Exec
use juno_alpha_proxy_contrac.Types.{
  WasmMsg, Coin, CosmosMsg, Env, MessageInfo, Response, State, CorePayload, PendingSubmsg,
  SubmsgType, ContractError, new_response,
}
use juno_alpha_proxy_contrac.World.{World, StoreLaws, ChainReturns}
use juno_alpha_proxy_contrac.HotWallet.Total.{IsSteady}
use juno_alpha_proxy_contrac.State.Every.{Every, check_and_update_spend_limits-Every}
use juno_alpha_proxy_contrac.State.Total.{update_wallet-IsSteady}
use juno_alpha_proxy_contrac.Submsgs.{
  add_funds, process_execute_type, process_bank_type, process_and_get_msg_type,
}
use juno_alpha_proxy_contrac.Contract.Debt.Repay.{debt_free}
use juno_alpha_proxy_contrac.Contract.Debt.Total.{check_coins-Returns}
use juno_alpha_proxy_contrac.Contract.Spend.Cases.{
  Way, immediate, empty, authorized, checked, execute_execute-Way, payload_of,
}
use juno_alpha_proxy_contrac.Contract.Spend.Preserved.{
  IsSpending, check_and_spend_total_coins-Changed,
}
use juno_alpha_proxy_contrac.Contract.Spend.{
  is_spend, pending_submsg, attach, check_by_type, check_and_spend_total_coins, execute_from,
  execute_execute,
}

module _ (w : World) (chain_returns : ChainReturns w) where
  process_and_get_msg_type-Returns :
      (msg : CosmosMsg) (self : PendingSubmsg)
      → self.msg ≡ msg
      → Returns (process_and_get_msg_type w self).0
  unfolding process_and_get_msg_type process_execute_type process_bank_type
  process_and_get_msg_type-Returns (CosmosMsg.wasm (WasmMsg.execute contract_addr msg funds)) self
        e =
      ground (arith, chain_returns.from_binary msg)
  process_and_get_msg_type-Returns (CosmosMsg.bank m) self e = ground arith
  process_and_get_msg_type-Returns _ self e = ground arith

  module _ (laws : StoreLaws w) (payload : CorePayload) (storage : w.Storage) (cfg : State)
      (loaded : w.load storage ≡ ok cfg)
      (all : Every (IsSteady w payload.current_time) cfg.hot_wallets) where
    check_by_type-Returns :
        (ty : SubmsgType) (funds : List Coin) → Returns (check_by_type w ty funds payload storage).0
    unfolding check_by_type
    check_by_type-Returns SubmsgType.bank_send funds =
        check_coins-Returns w chain_returns payload funds laws storage cfg loaded all
    check_by_type-Returns SubmsgType.bank_burn funds =
        check_coins-Returns w chain_returns payload funds laws storage cfg loaded all
    check_by_type-Returns SubmsgType.unknown funds = tt
    check_by_type-Returns (SubmsgType.execute_wasm ty) funds =
        elim (Bool-cases (is_spend (SubmsgType.execute_wasm ty))) [
          | inl spends ↦
              rw spends
                (check_coins-Returns w chain_returns payload funds laws storage cfg loaded all)
          | inr other ↦ ground arith
        ]

    check_and_spend_total_coins-Returns :
        (msg : CosmosMsg) → Returns (check_and_spend_total_coins w msg payload storage).0
    unfolding check_and_spend_total_coins add_funds
    check_and_spend_total_coins-Returns msg =
        let p = process_and_get_msg_type w (add_funds payload.info.funds (pending_submsg msg)) in
        Exec.Returns-bind (Exec.lift p.0) (λ ty. check_by_type w ty p.1.funds payload) storage
          (process_and_get_msg_type-Returns msg _ refl)
          (λ ty s1 e.
            subst (λ s. Returns (check_by_type w ty p.1.funds payload s).0)
              (ap (λ (q : Result ContractError SubmsgType × w.Storage). q.1) e)
              (check_by_type-Returns ty p.1.funds))

abbrev KeepsSteady : (w : World) → ℕ → State → State → Type 0
KeepsSteady w current_time cfg cfg' =
    Every (IsSteady w current_time) cfg.hot_wallets
    → Every (IsSteady w current_time) cfg'.hot_wallets

KeepsSteady-IsSpending :
    (w : World) (current_time : ℕ) (addr : String)
    → IsSpending w current_time addr (KeepsSteady w current_time)
KeepsSteady-IsSpending w current_time addr = record {
  nothing = λ self all. all;
  repeated = λ self self1 self2 k k1 all. k1 (k all);
  spent = λ storage spend self e all. rw e at (
      check_and_update_spend_limits-Every (IsSteady w current_time) w storage current_time addr
        spend (update_wallet-IsSteady w storage current_time spend) (debt_free self) all);
}

module _ (w : World) (chain_returns : ChainReturns w) (laws : StoreLaws w) (simulation : Bool) where
  execute_from-Returns :
      (msgs : List CosmosMsg) (payload : CorePayload) (res : Response) (storage : w.Storage)
      (cfg : State)
      → w.load storage ≡ ok cfg
      → Every (IsSteady w payload.current_time) cfg.hot_wallets
      → Returns (execute_from w simulation msgs payload res storage).0
  unfolding execute_from
  execute_from-Returns [] payload res storage cfg loaded all = tt
  execute_from-Returns (m ∷ msgs) payload res storage cfg loaded all =
      let payload' : CorePayload = record payload { this_msg = m } in
      Exec.Returns-bind (check_and_spend_total_coins w m payload')
        (λ r. execute_from w simulation msgs payload' (attach simulation m r res)) storage
        (check_and_spend_total_coins-Returns w chain_returns laws payload' storage cfg loaded all m)
        (λ r s1 e.
          let (cfg1, found, kept) =
            check_and_spend_total_coins-Changed w laws (KeepsSteady w payload.current_time) payload'
              (KeepsSteady-IsSpending w payload.current_time payload.info.sender) storage cfg loaded
              m e in
          execute_from-Returns msgs payload' (attach simulation m r res) s1 cfg1 found (kept all))

  module _ (env : Env) (info : MessageInfo) (storage : w.Storage) (cfg : State)
      (loaded : w.load storage ≡ ok cfg)
      (all : Every (IsSteady w env.block.time) cfg.hot_wallets) where
    Way-Returns :
        (msgs : List CosmosMsg) {p : Result ContractError Response × w.Storage}
        → msgs ≢ []
        → Way w env info simulation storage cfg loaded msgs p
        → Returns p.0
    Way-Returns msgs some_msg (immediate at_once q) = ground arith
    Way-Returns msgs some_msg (empty slow q) = absurd (some_msg refl)
    Way-Returns msgs some_msg (authorized slow call q) = ground arith
    Way-Returns msgs some_msg (checked slow call q) =
        subst (λ (p : Result ContractError Response × w.Storage). Returns p.0) (sym q)
          (execute_from-Returns msgs (payload_of env info) new_response storage cfg loaded all)

    pub execute_execute-Returns :
        (msgs : List CosmosMsg)
        → msgs ≢ []
        → Returns (execute_execute w env info msgs simulation storage).0
    execute_execute-Returns msgs some_msg =
        Way-Returns msgs some_msg
          (execute_execute-Way w env info simulation storage cfg loaded msgs)
