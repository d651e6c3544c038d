-- ===== src/Contract/Spend/Charges.antt =====
-- What `Execute` and `SimExecute` of src/contract.rs take from the limit of a hot wallet.
use juno_alpha_proxy_contrac.Common.{
  ℕ, ◌+◌, ◌-◌, ◌≤◌, String, ◌≡◌, ◌≢◌, refl, ◌∙◌, ap, subst, inl, inr, Bool, false, Option, List, [],
  ◌∷◌, ◌++◌, ok, arith, Bool-cases, ◌==◌,
}
use juno_alpha_proxy_contrac.Common.Exec
use juno_alpha_proxy_contrac.Common.Outcome.{Result-cases}
use juno_alpha_proxy_contrac.Types.{
  Coin, CosmosMsg, CoinLimit, HotWallet, Response, State, SourcedCoin, CorePayload, SourcedRepayMsg,
  SubmsgType,
}
use juno_alpha_proxy_contrac.World.{World, StoreLaws}
use juno_alpha_proxy_contrac.HotWallet.{should_reset}
use juno_alpha_proxy_contrac.HotWallet.Spending.{Costs, free, with_remaining}
use juno_alpha_proxy_contrac.HotWallet.Costs.{Costs-append, Costs-same}
use juno_alpha_proxy_contrac.State.{is_admin, maybe_get_hot_wallet, check_and_update_spend_limits}
use juno_alpha_proxy_contrac.State.Spending.{settings, settings-check_and_update_spend_limits}
use juno_alpha_proxy_contrac.State.Period.{Drawn, check_and_update_spend_limits-Drawn}
use juno_alpha_proxy_contrac.Submsgs.{add_funds, process_and_get_msg_type}
use juno_alpha_proxy_contrac.Submsgs.Counted.{moved, process_and_get_msg_type-moved}
use juno_alpha_proxy_contrac.Contract.Debt.{repay_from, spent_state, save_spent, check_coins}
use juno_alpha_proxy_contrac.Contract.Debt.Repay.{debt_free, repay_from-ok}
use juno_alpha_proxy_contrac.Contract.Spend.{
  is_spend, pending_submsg, attach, check_by_type, check_and_spend_total_coins, execute_from,
}

-- The coins that the messages move.
abbrev pub moved_all : World → List CosmosMsg → List Coin
moved_all w [] = []
moved_all w (m ∷ msgs) = moved w m ++ moved_all w msgs

-- A wallet at an address that is not the admin's, with a first limit and a period that runs.
pub record IsRunning (w : World) (current_time : ℕ) (addr : String) (cfg : State) (wal : HotWallet)
    (l : CoinLimit) (limits : List CoinLimit) : Type 0 where
  pub not_admin : is_admin cfg addr ≡ false
  pub found : maybe_get_hot_wallet cfg addr ≡ ok wal
  pub has_limit : wal.spend_limits ≡ l ∷ limits
  pub running : should_reset w current_time wal ≡ false

-- The storage holds a state with the same settings from which coins were drawn.
abbrev pub Drew :
    (w : World)
    → w.Storage
    → String
    → List Coin
    → HotWallet
    → CoinLimit
    → List CoinLimit
    → State
    → w.Storage
    → Type 0
Drew w storage addr coins wal l limits cfg storage' =
    (cfg' : State) × (w.load storage' ≡ ok cfg')
    × (settings cfg' ≡ settings cfg)
    × Drawn w storage addr coins wal l limits cfg cfg'

pub save_spent-eq-ok :
    (w : World)
    → StoreLaws w
    → (payload : CorePayload) (spend : List Coin) (p : Option SourcedRepayMsg × State)
      (storage : w.Storage) {r : Option SourcedRepayMsg} {storage' : w.Storage}
    → save_spent w payload spend p storage ≡ (ok r, storage')
    → (cfg' : State) × (spent : SourcedCoin) × (check_and_update_spend_limits w storage
          payload.current_time payload.info.sender spend p.1
        ≡ (ok spent, cfg'))
      × (w.load storage' ≡ ok cfg')
unfolding save_spent spent_state
save_spent-eq-ok w laws payload spend p storage {r} {storage'} e =
    let q =
      check_and_update_spend_limits w storage payload.current_time payload.info.sender spend p.1 in
    elim (Result-cases q.0) [
      | inl (spent, done) ↦
          (q.1, spent, ground arith, ground (arith, laws.load-save q.1 storage {σ' = storage'}))
      | inr failed ↦ absurd (ground arith)
    ]

module _ (w : World) (laws : StoreLaws w) (storage : w.Storage) (cfg : State)
    (loaded : w.load storage ≡ ok cfg) {wal : HotWallet} {l : CoinLimit}
    {limits : List CoinLimit} where
  check_coins-Drew :
      (payload : CorePayload) (spend : List Coin) {r : Option SourcedRepayMsg}
      {storage' : w.Storage}
      → IsRunning w payload.current_time payload.info.sender cfg wal l limits
      → check_coins w payload spend storage ≡ (ok r, storage')
      → Drew w storage payload.info.sender spend wal l limits cfg storage'
  unfolding check_coins maybe_get_hot_wallet is_admin
  check_coins-Drew payload spend h e =
      let (p, s1, first_half, second_half) =
        Exec.>>=-eq-ok (repay_from w cfg spend) (save_spent w payload spend) storage
          (rw loaded at e) in
      let (now_free, stored, _) = repay_from-ok w laws cfg spend storage loaded first_half in
      let (cfg', spent, updated, found) = save_spent-eq-ok w laws payload spend p s1 second_half in
      let updated' = rw now_free at updated in
      let (n, cost, fits, mine, others) =
        check_and_update_spend_limits-Drawn w s1 payload.current_time payload.info.sender spend
          (debt_free cfg) h.not_admin h.found h.has_limit h.running updated' in
      let (same, _) =
        settings-check_and_update_spend_limits w s1 payload.current_time payload.info.sender spend
          (debt_free cfg) in
      (
        cfg',
        found,
        rw updated' at same,
        (
          n,
          Costs-same w storage s1 cfg (debt_free cfg) loaded stored refl cost,
          fits,
          mine,
          others,
        ),
      )

  check_by_type-Drew :
      (ty : SubmsgType) (funds : List Coin) (payload : CorePayload) {r : Option SourcedRepayMsg}
      {storage' : w.Storage}
      → IsRunning w payload.current_time payload.info.sender cfg wal l limits
      → check_by_type w ty funds payload storage ≡ (ok r, storage')
      → (ty ≢ SubmsgType.unknown)
        × Drew w storage payload.info.sender funds wal l limits cfg storage'
  unfolding check_by_type
  check_by_type-Drew SubmsgType.bank_send funds payload h e =
      (λ q. cc, check_coins-Drew payload funds h e)
  check_by_type-Drew SubmsgType.bank_burn funds payload h e =
      (λ q. cc, check_coins-Drew payload funds h e)
  check_by_type-Drew SubmsgType.unknown funds payload h e = cc
  check_by_type-Drew (SubmsgType.execute_wasm ty) funds payload h e =
      elim (Bool-cases (is_spend (SubmsgType.execute_wasm ty))) [
        | inl spends ↦ (λ q. cc, check_coins-Drew payload funds h (rw spends at e))
        | inr other ↦ let refused = h.not_admin in absurd (ground arith)
      ]

  check_and_spend_total_coins-Drew :
      (msg : CosmosMsg) (payload : CorePayload) {r : Option SourcedRepayMsg} {storage' : w.Storage}
      → IsRunning w payload.current_time payload.info.sender cfg wal l limits
      → check_and_spend_total_coins w msg payload storage ≡ (ok r, storage')
      → Drew w storage payload.info.sender (moved w msg) wal l limits cfg storage'
  unfolding check_and_spend_total_coins add_funds
  check_and_spend_total_coins-Drew msg payload {storage'} h e =
      let self = add_funds payload.info.funds (pending_submsg msg) in
      let p = process_and_get_msg_type w self in
      elim (Result-cases p.0) [
        | inl (ty, q) ↦
            let (known, drew) = check_by_type-Drew ty p.1.funds payload h (rw q at e) in
            let counted =
              process_and_get_msg_type-moved w self {ty = ty} {self' = p.1} (ground arith) known in
            subst (λ coins. Drew w storage payload.info.sender coins wal l limits cfg storage')
              counted drew
        | inr failed ↦ absurd (ground arith)
      ]

-- Drawing twice.
Drew-append :
    (w : World) (storage s1 s2 : w.Storage) (addr : String) (xs ys : List Coin) (wal : HotWallet)
    (l : CoinLimit) (limits : List CoinLimit) (cfg cfg1 : State) (k : ℕ)
    → w.load storage ≡ ok cfg
    → w.load s1 ≡ ok cfg1
    → settings cfg1 ≡ settings cfg
    → Costs w storage xs k
    → k ≤ l.limit_remaining
    → ((other : String)
        → other ≢ addr
        → maybe_get_hot_wallet cfg1 other ≡ maybe_get_hot_wallet cfg other)
    → Drew w s1 addr ys
        (with_remaining wal l limits (l.limit_remaining - k))
        (record l { limit_remaining = l.limit_remaining - k })
        limits
        cfg1
        s2
    → Drew w storage addr (xs ++ ys) wal l limits cfg s2
Drew-append w storage s1 s2 addr xs ys wal l limits cfg cfg1 k loaded loaded1 same cost fits others
      (cfg2, found2, same2, (n, cost2, fits2, mine2, others2)) =
    let same_pairs = ap (λ (s : State). s.pair_contracts) same in
    (
      cfg2,
      found2,
      same2 ∙ same,
      (
        k + n,
        Costs-append w storage cost
            (Costs-same w storage s1 cfg cfg1 loaded loaded1 same_pairs cost2),
        omega arith,
        subst (λ r. maybe_get_hot_wallet cfg2 addr ≡ ok (with_remaining wal l limits r))
            (omega arith) mine2,
        λ other ne. others2 other ne ∙ others other ne,
      ),
    )

pub IsRunning-with_remaining :
    (w : World) (current_time : ℕ) (addr : String) (cfg cfg1 : State) (wal : HotWallet)
    (l : CoinLimit) (limits : List CoinLimit) (k : ℕ)
    → IsRunning w current_time addr cfg wal l limits
    → settings cfg1 ≡ settings cfg
    → maybe_get_hot_wallet cfg1 addr ≡ ok (with_remaining wal l limits k)
    → IsRunning w current_time addr cfg1
        (with_remaining wal l limits k)
        (record l { limit_remaining = k })
        limits
unfolding is_admin should_reset
IsRunning-with_remaining w current_time addr cfg cfg1 wal l limits k h same mine = record {
  not_admin = ap (λ (s : State). s.admin == addr) same ∙ h.not_admin;
  found = mine;
  has_limit = refl;
  running = h.running;
}

module _ (w : World) (laws : StoreLaws w) (simulation : Bool) where
  pub execute_from-Drew :
      (msgs : List CosmosMsg) (payload : CorePayload) (res : Response) (storage : w.Storage)
      (cfg : State) (wal : HotWallet) (l : CoinLimit) (limits : List CoinLimit) {res' : Response}
      {storage' : w.Storage}
      → w.load storage ≡ ok cfg
      → IsRunning w payload.current_time payload.info.sender cfg wal l limits
      → execute_from w simulation msgs payload res storage ≡ (ok res', storage')
      → Drew w storage payload.info.sender (moved_all w msgs) wal l limits cfg storage'
  unfolding execute_from
  execute_from-Drew [] payload res storage cfg wal l limits loaded h e =
      let unchanged : wal ≡ with_remaining wal l limits (l.limit_remaining - 0) =
        ground (arith, h.has_limit) in
      (
        cfg,
        ground arith,
        refl,
        (0, free, omega arith, h.found ∙ ap (λ x. ok x) unchanged, λ other ne. refl),
      )
  execute_from-Drew (m ∷ msgs) payload res storage cfg wal l limits {storage'} loaded h e =
      let payload' = record payload { this_msg = m } in
      let (r, s1, first_check, later) =
        Exec.>>=-eq-ok (check_and_spend_total_coins w m payload')
          (λ r. execute_from w simulation msgs payload' (attach simulation m r res)) storage e in
      let (cfg1, found1, same1, (k, cost, fits, mine, others)) =
        check_and_spend_total_coins-Drew w laws storage cfg loaded m payload' h first_check in
      Drew-append w storage s1 storage' payload.info.sender (moved w m) (moved_all w msgs) wal l
        limits cfg cfg1 k loaded found1 same1 cost fits others
        (execute_from-Drew msgs payload' (attach simulation m r res) s1 cfg1
          (with_remaining wal l limits (l.limit_remaining - k))
          (record l { limit_remaining = l.limit_remaining - k }) limits found1
          (IsRunning-with_remaining w payload.current_time payload.info.sender cfg cfg1 wal l limits
            (l.limit_remaining - k) h same1 mine)
          later)
