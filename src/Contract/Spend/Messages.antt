-- ===== src/Contract/Spend/Messages.antt =====
-- What the chain runs after `Execute` and `SimExecute` of src/contract.rs.
use juno_alpha_proxy_contrac.Common.{
  append_assoc, append-nil, ◌⊎◌, ◌≡◌, refl, sym, ◌∙◌, ap, Bool, false, true, Option, List, [], ◌∷◌,
  ◌++◌, ok, arith, ltb, String, subst, Result, inl, inr,
}
use juno_alpha_proxy_contrac.Common.Exec
use juno_alpha_proxy_contrac.Types.{
  new_response, BankMsg, Coin, CosmosMsg, Env, MessageInfo, Response, State, CorePayload,
  SourcedRepayMsg, ContractError,
}
use juno_alpha_proxy_contrac.World.{World, StoreLaws}
use juno_alpha_proxy_contrac.State.Spending.{settings}
use juno_alpha_proxy_contrac.Contract.Spend.Cases.{
  Way, immediate, empty, authorized, checked, execute_execute-Way,
}
use juno_alpha_proxy_contrac.Contract.Spend.Settings.{
  Payment, unpaid, paid, check_and_spend_total_coins-Checked,
}
use juno_alpha_proxy_contrac.Contract.Spend.{
  attach, is_authorized_call, check_and_spend_total_coins, execute_from, execute_execute,
}

-- The messages that go out for those that came in: each of them, in order, and one payment of one
-- coin to the wallet at most, where one is due.
pub data Carried (wallet : String) : Bool → List CosmosMsg → List CosmosMsg → Type 0 where
  done : {due : Bool} → Carried wallet due [] []
  sent :
      {due : Bool} (m : CosmosMsg) {ms out : List CosmosMsg}
      → Carried wallet due ms out
      → Carried wallet due (m ∷ ms) (m ∷ out)
  repaid :
      (coin : Coin) (m : CosmosMsg) {ms out : List CosmosMsg}
      → Carried wallet false ms out
      → Carried wallet true (m ∷ ms) (CosmosMsg.bank (BankMsg.send wallet (coin ∷ [])) ∷ m ∷ out)

Carried-due :
    {wallet : String} (due : Bool) {ms out : List CosmosMsg}
    → Carried wallet false ms out
    → Carried wallet due ms out
Carried-due due done = done
Carried-due due (sent m c) = sent m (Carried-due due c)

Carried-refl : {wallet : String} {due : Bool} (ms : List CosmosMsg) → Carried wallet due ms ms
Carried-refl [] = done
Carried-refl (m ∷ ms) = sent m (Carried-refl ms)

-- What of a debt is due.
abbrev pub due : State → Bool
due cfg = ltb 0 cfg.uusd_fee_debt

Carried-less :
    {wallet : String} (cfg1 cfg : State) {ms out : List CosmosMsg}
    → (cfg1.uusd_fee_debt ≡ cfg.uusd_fee_debt) ⊎ (cfg1.uusd_fee_debt ≡ 0)
    → Carried wallet (due cfg1) ms out
    → Carried wallet (due cfg) ms out
Carried-less {wallet} cfg1 cfg {ms} {out} (inl same) c =
    subst (λ n. Carried wallet (ltb 0 n) ms out) same c
Carried-less {wallet} cfg1 cfg {ms} {out} (inr free) c =
    Carried-due (due cfg) (subst (λ n. Carried wallet (ltb 0 n) ms out) free c)

-- The messages of a response that already has some.
abbrev Extends : State → Response → Response → List CosmosMsg → Type 0
Extends cfg res res' msgs =
    (out : List CosmosMsg) × (res'.messages ≡ res.messages ++ out)
    × Carried cfg.fee_lend_repay_wallet (due cfg) msgs out

attach-Extends :
    (cfg1 cfg : State) (m : CosmosMsg) (res res' : Response) (ms : List CosmosMsg)
    {r : Option SourcedRepayMsg}
    → settings cfg1 ≡ settings cfg
    → Payment cfg cfg1 r
    → Extends cfg1 (attach false m r res) res' ms
    → Extends cfg res res' (m ∷ ms)
attach-Extends cfg1 cfg m res res' ms same (unpaid less nothing) (out, q, c) =
    let wallet = ap (λ (s : State). s.fee_lend_repay_wallet) same in
    (
      m ∷ out,
      rw nothing at q ∙ append_assoc res.messages (m ∷ []) out,
      sent m (Carried-less cfg1 cfg less (rw wallet at c)),
    )
attach-Extends cfg1 cfg m res res' ms same (paid debt free coin msg some_msg to_wallet)
      (out, q, c) =
    let wallet = ap (λ (s : State). s.fee_lend_repay_wallet) same in
    let payment = CosmosMsg.bank (BankMsg.send cfg.fee_lend_repay_wallet (coin ∷ [])) in
    let is_due : due cfg ≡ true = ground arith in
    let is_free : due cfg1 ≡ false = ground arith in
    (
      payment ∷ m ∷ out,
      rw (some_msg, to_wallet) at q
          ∙ append_assoc (res.messages ++ payment ∷ []) (m ∷ []) out
          ∙ append_assoc res.messages (payment ∷ []) (m ∷ out),
      rw is_due (repaid coin m (rw (is_free, wallet) at c)),
    )

module _ (w : World) (laws : StoreLaws w) where
  execute_from-Extends :
      (msgs : List CosmosMsg) (payload : CorePayload) (res : Response) (storage : w.Storage)
      (cfg : State) {res' : Response} {storage' : w.Storage}
      → w.load storage ≡ ok cfg
      → execute_from w false msgs payload res storage ≡ (ok res', storage')
      → Extends cfg res res' msgs
  unfolding execute_from
  execute_from-Extends [] payload res storage cfg {res'} loaded e =
      let same : res ≡ res' = ground arith in ([], rw same (sym (append-nil res'.messages)), done)
  execute_from-Extends (m ∷ msgs) payload res storage cfg {res'} loaded e =
      let payload' = record payload { this_msg = m } in
      let (r, s1, first_check, later) =
        Exec.>>=-eq-ok (check_and_spend_total_coins w m payload')
          (λ r. execute_from w false msgs payload' (attach false m r res)) storage e in
      let (cfg1, found, same, payment) =
        check_and_spend_total_coins-Checked w laws storage cfg loaded m payload' first_check in
      attach-Extends cfg1 cfg m res res' msgs same payment
        (execute_from-Extends msgs payload' (attach false m r res) s1 cfg1 found later)

-- A simulation adds no message.
execute_from-simulation :
    (w : World) (msgs : List CosmosMsg) (payload : CorePayload) (res : Response)
    (storage : w.Storage) {res' : Response} {storage' : w.Storage}
    → execute_from w true msgs payload res storage ≡ (ok res', storage')
    → res'.messages ≡ res.messages
unfolding execute_from
execute_from-simulation w [] payload res storage e = ground arith
execute_from-simulation w (m ∷ msgs) payload res storage e =
    let payload' = record payload { this_msg = m } in
    let (r, s1, first_check, later) =
      Exec.>>=-eq-ok (check_and_spend_total_coins w m payload')
        (λ r. execute_from w true msgs payload' (attach true m r res)) storage e in
    execute_from-simulation w msgs payload' (attach true m r res) s1 later

module _ (cfg : State) (info : MessageInfo) (msgs : List CosmosMsg) (res : Response) where
  -- The first message is a call of an authorized contract, and only it is sent.
  abbrev pub HeadOnly : Type 0
  HeadOnly =
      (m : CosmosMsg) × (rest : List CosmosMsg) × (msgs ≡ m ∷ rest)
      × (is_authorized_call cfg info m ≡ ok true)
      × (res.messages ≡ m ∷ [])

module _ (w : World) (laws : StoreLaws w) (env : Env) (info : MessageInfo) (storage : w.Storage)
    (cfg : State) (loaded : w.load storage ≡ ok cfg) {p : Result ContractError Response × w.Storage}
    {res : Response} {storage' : w.Storage} where
  Way-Carried :
      (msgs : List CosmosMsg)
      → Way w env info false storage cfg loaded msgs p
      → p ≡ (ok res, storage')
      → Carried cfg.fee_lend_repay_wallet (due cfg) msgs res.messages ⊎ HeadOnly cfg info msgs res
  Way-Carried msgs (immediate at_once q) e =
      let sent_all : msgs ≡ res.messages = ground arith in
      inl (rw sent_all (Carried-refl res.messages))
  Way-Carried msgs (empty slow q) e = absurd (ground arith)
  Way-Carried msgs (authorized {m} {rest} slow call q) e = inr (m, rest, refl, call, ground arith)
  Way-Carried msgs (checked {m} {rest} slow call q) e =
      let (out, extended, c) =
        execute_from-Extends w laws msgs _ new_response storage cfg loaded (sym q ∙ e) in
      inl (rw extended c)

  Way-simulation :
      (msgs : List CosmosMsg)
      → Way w env info true storage cfg loaded msgs p
      → p ≡ (ok res, storage')
      → (res.messages ≡ []) ⊎ HeadOnly cfg info msgs res
  Way-simulation msgs (immediate at_once q) e = inl (ground arith)
  Way-simulation msgs (empty slow q) e = absurd (ground arith)
  Way-simulation msgs (authorized {m} {rest} slow call q) e =
      inr (m, rest, refl, call, ground arith)
  Way-simulation msgs (checked {m} {rest} slow call q) e =
      inl (execute_from-simulation w msgs _ new_response storage (sym q ∙ e))

-- After a call of `Execute` that succeeds, the chain runs the caller's messages, each of them in
-- order, and before one of them at most one payment of one coin to the repay wallet, which needs a
-- debt. The exception is a first message that calls an authorized contract: it alone is sent.
pub execute_execute-carries :
    (w : World)
    → StoreLaws w
    → (env : Env) (info : MessageInfo) (msgs : List CosmosMsg) (storage : w.Storage) (cfg : State)
      {res : Response} {storage' : w.Storage}
    → w.load storage ≡ ok cfg
    → execute_execute w env info msgs false storage ≡ (ok res, storage')
    → Carried cfg.fee_lend_repay_wallet (due cfg) msgs res.messages ⊎ HeadOnly cfg info msgs res
execute_execute-carries w laws env info msgs storage cfg loaded e =
    Way-Carried w laws env info storage cfg loaded msgs
      (execute_execute-Way w env info false storage cfg loaded msgs) e

-- After a call of `SimExecute` that succeeds, the chain runs no message, unless the first one calls an
-- authorized contract: that one is sent.
pub execute_execute-simulates :
    (w : World)
    → StoreLaws w
    → (env : Env) (info : MessageInfo) (msgs : List CosmosMsg) (storage : w.Storage) (cfg : State)
      {res : Response} {storage' : w.Storage}
    → w.load storage ≡ ok cfg
    → execute_execute w env info msgs true storage ≡ (ok res, storage')
    → (res.messages ≡ []) ⊎ HeadOnly cfg info msgs res
execute_execute-simulates w laws env info msgs storage cfg loaded e =
    Way-simulation w laws env info storage cfg loaded msgs
      (execute_execute-Way w env info true storage cfg loaded msgs) e
