-- ===== src/Contract/Run.antt =====
-- Sequences of calls of `execute` in src/contract.rs. A call that fails is not among them: the chain
-- drops what it has written.
use juno_alpha_proxy_contrac.Common.{◌≤◌, String, ◌≡◌, ◌≢◌, refl, sym, ◌∙◌, ap, ◌⊎◌, inl, ok, arith}
use juno_alpha_proxy_contrac.Types.{
  Binary, StdResult, Token1ForToken2PriceResponse, Token2ForToken1PriceResponse, Env, MessageInfo,
  Response, State, ExecuteMsg,
}
use juno_alpha_proxy_contrac.World.{World, StoreLaws}
use juno_alpha_proxy_contrac.State
use juno_alpha_proxy_contrac.State.{maybe_get_hot_wallet}
use juno_alpha_proxy_contrac.State.Spending.{settings}
use juno_alpha_proxy_contrac.Contract.{execute}
use juno_alpha_proxy_contrac.Contract.Changes.{
  Effect, spent, proposed, confirmed, cancelled, wallet_added, wallet_removed,
}
use juno_alpha_proxy_contrac.Contract.Effect.{execute-Effect}
use juno_alpha_proxy_contrac.Contract.Spend.Settings.{SameSettings, SameSettings-trans}

-- A call, with what the exchanges answer while it runs: the state of other contracts changes between
-- the calls, and none of it during one.
pub record Call : Type 0 where
  pub env : Env
  pub info : MessageInfo
  pub msg : ExecuteMsg
  pub token1_for_token2 : String → Binary → StdResult Token1ForToken2PriceResponse
  pub token2_for_token1 : String → Binary → StdResult Token2ForToken1PriceResponse

-- The chain during a call.
abbrev pub during : World → Call → World
during w c = record w {
  query_token1_for_token2 = c.token1_for_token2;
  query_token2_for_token1 = c.token2_for_token1;
}

pub during-StoreLaws : (w : World) (c : Call) → StoreLaws w → StoreLaws (during w c)
during-StoreLaws w c laws = record {
  load-save = laws.load-save;
  load-set_contract_version = laws.load-set_contract_version;
}

-- Calls that succeed one after the other, of each of which something holds. Prices may change from
-- call to call.
pub data Run (w : World) (P : Call → Type 0) : w.Storage → w.Storage → Type 0 where
  no_call : {storage : w.Storage} → Run w P storage storage
  call :
      (c : Call) {res : Response} {storage storage1 storage2 : w.Storage}
      → P c
      → execute (during w c) c.env c.info c.msg storage ≡ (ok res, storage1)
      → Run w P storage1 storage2
      → Run w P storage storage2

-- A call of neither the admin nor the pending admin.
abbrev pub Outsider : State → Call → Type 0
Outsider cfg c = (c.info.sender ≢ cfg.admin) × (c.info.sender ≢ cfg.pending)

abbrev pub Anyone : Call → Type 0
Anyone c = Unit

pub Outsider-same :
    (cfg cfg1 : State) (c : Call) → settings cfg1 ≡ settings cfg → Outsider cfg c → Outsider cfg1 c
Outsider-same cfg cfg1 c same outside = (
  λ q. outside.0 (q ∙ ap (λ (s : State). s.admin) same),
  λ q. outside.1 (q ∙ ap (λ (s : State). s.pending) same),
)

-- What an outsider can do is to spend.
pub Effect-Outsider :
    (w : World) (c : Call) {cfg cfg' : State}
    → Effect w c.info.sender c.msg cfg cfg'
    → Outsider cfg c
    → (settings cfg' ≡ settings cfg)
      × ((cfg'.uusd_fee_debt ≡ cfg.uusd_fee_debt) ⊎ (cfg'.uusd_fee_debt ≡ 0))
      × ((other : String)
          → other ≢ c.info.sender
          → maybe_get_hot_wallet cfg' other ≡ maybe_get_hot_wallet cfg other)
Effect-Outsider w c (spent msgs simulation ask who same debt others) o = (same, debt, others)
Effect-Outsider w c (proposed new_admin pending ask q valid e) o = absurd (o.0 (sym q))
Effect-Outsider w c (confirmed signers ask q e) o = absurd (o.1 (sym q))
Effect-Outsider w c (cancelled ask q e) o = absurd (o.1 (sym q))
Effect-Outsider w c (wallet_added wallet ask q fresh e) o = absurd (o.0 (sym q))
Effect-Outsider w c (wallet_removed doomed ask q found e) o = absurd (o.0 (sym q))

Effect-debt :
    (w : World) (sender : String) {msg : ExecuteMsg} {cfg cfg' : State}
    → Effect w sender msg cfg cfg'
    → cfg'.uusd_fee_debt ≤ cfg.uusd_fee_debt
unfolding State.add_hot_wallet State.rm_hot_wallet
Effect-debt w sender (spent msgs simulation ask who same debt others) = ground arith
Effect-debt w sender (proposed new_admin pending ask q valid e) = rw e (omega arith)
Effect-debt w sender (confirmed signers ask q e) = rw e (omega arith)
Effect-debt w sender (cancelled ask q e) = rw e (omega arith)
Effect-debt w sender (wallet_added wallet ask q fresh e) = rw e (omega arith)
Effect-debt w sender (wallet_removed doomed ask q found e) = rw e (omega arith)

Run-Outsider-SameSettings :
    (w : World)
    → StoreLaws w
    → (start : State) {storage storage' : w.Storage} (cfg : State)
    → Run w (Outsider start) storage storage'
    → settings cfg ≡ settings start
    → w.load storage ≡ ok cfg
    → SameSettings w storage' cfg
Run-Outsider-SameSettings w laws start cfg no_call same loaded = (cfg, loaded, refl, inl refl)
Run-Outsider-SameSettings w laws start cfg (call c {storage} {storage1} outside e rest) same
      loaded =
    let (cfg1, found, effect) =
      execute-Effect (during w c) (during-StoreLaws w c laws) c.env c.info c.msg storage cfg loaded
        e in
    let (same1, debt, _) =
      Effect-Outsider (during w c) c effect (Outsider-same start cfg c same outside) in
    SameSettings-trans w cfg1 cfg same1 debt
      (Run-Outsider-SameSettings w laws start cfg1 rest (same1 ∙ same) found)

-- However many calls of `execute` succeed, by hot wallets or by anyone else, at prices that may
-- change from call to call: while none comes from the admin or the pending admin, no setting of the
-- contract changes, and the debt is what it was or paid in full.
pub Run-SameSettings :
    (w : World)
    → StoreLaws w
    → (cfg : State) {storage storage' : w.Storage} → w.load storage ≡ ok cfg
    → Run w (Outsider cfg) storage storage'
    → SameSettings w storage' cfg
Run-SameSettings w laws cfg loaded run = Run-Outsider-SameSettings w laws cfg cfg run refl loaded

-- However many calls of `execute` succeed, whoever makes them and however prices change from call
-- to call, the debt does not grow.
pub Run-debt :
    (w : World)
    → StoreLaws w
    → (cfg : State) {storage storage' : w.Storage} → w.load storage ≡ ok cfg
    → Run w Anyone storage storage'
    → (cfg' : State) × (w.load storage' ≡ ok cfg') × (cfg'.uusd_fee_debt ≤ cfg.uusd_fee_debt)
Run-debt w laws cfg loaded no_call = (cfg, loaded, omega arith)
Run-debt w laws cfg loaded (call c {storage} {storage1} _ e rest) =
    let (cfg1, found, effect) =
      execute-Effect (during w c) (during-StoreLaws w c laws) c.env c.info c.msg storage cfg loaded
        e in
    let (cfg2, found2, less) = Run-debt w laws cfg1 found rest in
    (cfg2, found2, omega (arith, less, Effect-debt (during w c) c.info.sender effect))
