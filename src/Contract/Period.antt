-- ===== src/Contract/Period.antt =====
-- What a hot wallet can spend through src/contract.rs within one period of its limit, however many
-- calls it makes.
use juno_alpha_proxy_contrac.Common.{
  ℕ, ◌+◌, ◌-◌, ◌≤◌, String, ◌≡◌, ◌≢◌, refl, sym, ◌∙◌, ap, inl, inr, List, ◌∷◌, ok, arith, ◌==◌,
  Bool-cases, eq_iff,
}
use juno_alpha_proxy_contrac.Types.{CoinLimit, HotWallet, Response, State}
use juno_alpha_proxy_contrac.World.{World, StoreLaws}
use juno_alpha_proxy_contrac.HotWallet.{should_reset}
use juno_alpha_proxy_contrac.HotWallet.Spending.{with_remaining}
use juno_alpha_proxy_contrac.State.{maybe_get_hot_wallet}
use juno_alpha_proxy_contrac.State.Spending.{settings}
use juno_alpha_proxy_contrac.Contract.{execute}
use juno_alpha_proxy_contrac.Contract.Effect.{execute-Effect}
use juno_alpha_proxy_contrac.Contract.Outlays.{
  Outlay, by_other, by_authorized, by_coins, none_yet, and_then, Within, Left, WithinLimit,
}
use juno_alpha_proxy_contrac.Contract.Outsiders.{messages_of, not_is_admin, Outsider-execute}
use juno_alpha_proxy_contrac.Contract.Run.{
  during, during-StoreLaws, Call, Run, no_call, call, Outsider-same, Effect-Outsider,
}
use juno_alpha_proxy_contrac.Contract.Spend.Limit.{execute_execute-Drew}

with_remaining-same :
    (wal : HotWallet) (l : CoinLimit) (limits : List CoinLimit)
    → wal.spend_limits ≡ l ∷ limits
    → wal ≡ with_remaining wal l limits (l.limit_remaining - 0)
with_remaining-same wal l limits has_limit =
    let whole : l.limit_remaining ≡ l.limit_remaining - 0 = omega arith in
    λ i. record wal {
      spend_limits = (has_limit ∙ ap (λ n. record l { limit_remaining = n } ∷ limits) whole) i;
    }

module _ (w : World) (laws : StoreLaws w) (addr : String) (wal : HotWallet) (l : CoinLimit)
    (limits : List CoinLimit) (has_limit : wal.spend_limits ≡ l ∷ limits) where
  own-Outlay :
      (c : Call) (cfg : State) {storage storage' : w.Storage} {res : Response}
      → w.load storage ≡ ok cfg
      → maybe_get_hot_wallet cfg addr ≡ ok wal
      → Within w cfg wal c
      → c.info.sender ≡ addr
      → execute (during w c) c.env c.info c.msg storage ≡ (ok res, storage')
      → (n : ℕ) × Outlay w addr storage c n × Left w addr wal l limits cfg n storage'
  own-Outlay c cfg {storage} {storage'} loaded mine (outside, running) me e =
      let (simulation, spends) =
        Outsider-execute (during w c) c.env c.info storage cfg loaded c.msg outside e in
      elim (execute_execute-Drew (during w c) (during-StoreLaws w c laws) c.env c.info
        (messages_of c.msg) simulation storage cfg wal l limits loaded
        (record {
          not_admin = not_is_admin cfg c.info.sender outside.0;
          found = rw me mine;
          has_limit = has_limit;
          running = running;
        })
        spends) [
          | inl (cfg', found, same, (n, cost, fits, mine', _)) ↦
              (n, by_coins me cost, (fits, (cfg', found, same, rw me at mine')))
          | inr (m, rest, shape, free_call, kept) ↦ (
            0,
            by_authorized m rest cfg me loaded shape free_call,
            (
              omega arith,
              (
                cfg,
                rw kept loaded,
                refl,
                mine ∙ ap ok (with_remaining-same wal l limits has_limit),
              ),
            ),
          )
        ]

  -- What one call takes is within what remains.
  call-Outlay :
      (c : Call) (cfg : State) {storage storage' : w.Storage} {res : Response}
      → w.load storage ≡ ok cfg
      → maybe_get_hot_wallet cfg addr ≡ ok wal
      → Within w cfg wal c
      → execute (during w c) c.env c.info c.msg storage ≡ (ok res, storage')
      → (n : ℕ) × Outlay w addr storage c n × Left w addr wal l limits cfg n storage'
  call-Outlay c cfg {storage} loaded mine (outside, running) e =
      elim (Bool-cases (c.info.sender == addr)) [
        | inl me ↦
            own-Outlay c cfg loaded mine (outside, running) ((eq_iff c.info.sender addr).0 me) e
        | inr other ↦
            let (cfg', found, effect) =
              execute-Effect (during w c) (during-StoreLaws w c laws) c.env c.info c.msg storage cfg
                loaded e in
            let (same, debt, others) = Effect-Outsider (during w c) c effect outside in
            let differ : c.info.sender ≢ addr = λ q. ground (arith, eq_iff c.info.sender addr) in
            (
              0,
              by_other differ,
              (
                omega arith,
                (
                  cfg',
                  found,
                  same,
                  others addr (λ q. differ (sym q))
                      ∙ mine
                      ∙ ap ok (with_remaining-same wal l limits has_limit),
                ),
              ),
            )
      ]

module _ (w : World) (laws : StoreLaws w) (addr : String) (start : State) (first : HotWallet) where
  -- One more call before a run, from which its outlay was taken first.
  WithinLimit-call :
      (wal : HotWallet) (l : CoinLimit) (limits : List CoinLimit) (cfg cfg1 : State) (m : ℕ)
      (c : Call) {storage storage1 storage2 : w.Storage} {res : Response}
      (p : Within w start first c)
      (e : execute (during w c) c.env c.info c.msg storage ≡ (ok res, storage1))
      (rest : Run w (Within w start first) storage1 storage2)
      → Outlay w addr storage c m
      → m ≤ l.limit_remaining
      → settings cfg1 ≡ settings cfg
      → WithinLimit w addr
          (with_remaining wal l limits (l.limit_remaining - m))
          (record l { limit_remaining = l.limit_remaining - m })
          limits
          cfg1
          storage1
          storage2
          rest
      → WithinLimit w addr wal l limits cfg storage storage2 (call c p e rest)
  WithinLimit-call wal l limits cfg cfg1 m c p e rest outlay fits same
        (n, outlays, (fits', (cfg2, found, same', mine))) =
      let exact : l.limit_remaining - m - n ≡ l.limit_remaining - (m + n) = omega arith in
      (
        m + n,
        and_then outlay outlays,
        (
          omega arith,
          (cfg2, found, same' ∙ same, mine ∙ ap (λ k. ok (with_remaining wal l limits k)) exact),
        ),
      )

  WithinLimit-Run :
      (wal : HotWallet) (l : CoinLimit) (limits : List CoinLimit) (cfg : State)
      {storage storage' : w.Storage}
      → wal.spend_limits ≡ l ∷ limits
      → wal.current_period_reset ≡ first.current_period_reset
      → settings cfg ≡ settings start
      → w.load storage ≡ ok cfg
      → maybe_get_hot_wallet cfg addr ≡ ok wal
      → (run : Run w (Within w start first) storage storage')
      → WithinLimit w addr wal l limits cfg storage storage' run
  unfolding should_reset
  WithinLimit-Run wal l limits cfg has_limit period same loaded mine no_call = (
    0,
    none_yet,
    (omega arith, (cfg, loaded, refl, mine ∙ ap ok (with_remaining-same wal l limits has_limit))),
  )
  WithinLimit-Run wal l limits cfg has_limit period same loaded mine
        (call c {storage} {storage1} p e rest) =
      let (m, outlay, (fits, (cfg1, found, same1, mine1))) =
        call-Outlay w laws addr wal l limits has_limit c cfg loaded mine
          (Outsider-same start cfg c same p.0, rw period p.1) e in
      WithinLimit-call wal l limits cfg cfg1 m c p e rest outlay fits same1 (
        WithinLimit-Run (with_remaining wal l limits (l.limit_remaining - m))
          (record l { limit_remaining = l.limit_remaining - m }) limits cfg1 refl period
          (same1 ∙ same) found mine1 rest)

-- However many calls of `execute` succeed within the period of a hot wallet, whoever makes them but
-- the admin and the pending admin, the wallet's own calls cost together at most what remained of
-- its limit at the start, and exactly that cost is taken from it. A call costs what the coins of
-- its messages convert to at the prices during it, the value of each coin counted modulo 2^64, or
-- nothing if its first message calls an authorized contract. The prices of the exchanges may change
-- from call to call, not during one.
pub Run-WithinLimit :
    (w : World)
    → StoreLaws w
    → (addr : String) (cfg : State) (wal : HotWallet) (l : CoinLimit) (limits : List CoinLimit)
      {storage storage' : w.Storage}
    → w.load storage ≡ ok cfg
    → maybe_get_hot_wallet cfg addr ≡ ok wal
    → wal.spend_limits ≡ l ∷ limits
    → (run : Run w (Within w cfg wal) storage storage')
    → WithinLimit w addr wal l limits cfg storage storage' run
Run-WithinLimit w laws addr cfg wal l limits loaded mine has_limit run =
    WithinLimit-Run w laws addr cfg wal wal l limits cfg has_limit refl refl loaded mine run
