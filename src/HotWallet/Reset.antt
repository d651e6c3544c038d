-- ===== src/HotWallet/Reset.antt =====
-- The reset of a spending period in src/hot_wallet.rs.
use juno_alpha_proxy_contrac.Common.{
  ℕ, ◌+◌, ◌*◌, ◌%◌, ◌≤◌, ◌<◌, ◌≡◌, refl, false, some, List, ◌∷◌, Result, ok, err, panic, arith, inl,
  inr, ◌⊎◌, ◌/◌, Option-cases, subst,
}
use juno_alpha_proxy_contrac.Types.{
  Timestamp, CoinLimit, HotWallet, PeriodType, months, days, ContractError,
}
use juno_alpha_proxy_contrac.World.{World, ChronoLaws}
use juno_alpha_proxy_contrac.HotWallet.{next_reset, reset_period, should_reset, first_of_month}

module _ (w : World) (current_time : Timestamp) where
  first_of_month-later :
      ChronoLaws w
      → (now : w.NaiveDateTime) (y m : ℕ) {dt : w.NaiveDateTime}
      → (w.year now < y) ⊎ ((y ≡ w.year now) × (w.month now < m))
      → first_of_month w y m ≡ ok (ok dt)
      → w.timestamp now < w.timestamp dt
  first_of_month-later laws now y m later e = elim (Option-cases (w.from_ymd y m 1)) [
    | inl missing ↦ cc (missing)
    | inr (date, found) ↦
        let at_midnight : first_of_month w y m ≡ ok (ok (w.midnight date)) = rw found in
        subst (λ t. w.timestamp now < w.timestamp t) (ground (arith, at_midnight))
          (laws.later_month now y m found later)
  ]

  days-later :
      ChronoLaws w
      → (now : w.NaiveDateTime) (n : ℕ) {dt : w.NaiveDateTime} → 1 ≤ n
      → next_reset w days n now ≡ ok (ok dt)
      → w.timestamp now < w.timestamp dt
  unfolding next_reset
  days-later laws now n positive e = elim (Option-cases (w.checked_add_days now n)) [
    | inl missing ↦ ground arith
    | inr (dt', found) ↦ ground (arith, laws.timestamp-checked_add_days now n found)
  ]

  months-later :
      ChronoLaws w
      → (now : w.NaiveDateTime) (n : ℕ) {dt : w.NaiveDateTime} → 1 ≤ n
      → next_reset w months n now ≡ ok (ok dt)
      → w.timestamp now < w.timestamp dt
  unfolding next_reset
  months-later laws now n {dt} positive e = ground (
    arith,
    first_of_month-later laws now (w.year now) (w.month now + n) {dt = dt},
    first_of_month-later laws now (w.year now + (w.month now + n) / 12) ((w.month now + n) % 12)
        {dt = dt},
  )

  next_reset-later :
      ChronoLaws w
      → (ty : PeriodType) (now : w.NaiveDateTime) (n : ℕ) {dt : w.NaiveDateTime} → 1 ≤ n
      → next_reset w ty n now ≡ ok (ok dt)
      → w.timestamp now < w.timestamp dt
  next_reset-later laws days = days-later laws
  next_reset-later laws months = months-later laws

  -- What a successful reset has computed, by the value of `new_dt`.
  abbrev Computed : HotWallet → HotWallet → w.NaiveDateTime → Type 0
  Computed self self' now =
      (dt : w.NaiveDateTime) × (next_reset w self.period_type self.period_multiple now ≡ ok (ok dt))
      × (self'.current_period_reset ≡ w.timestamp dt)

  Computed-by_value :
      (self : HotWallet) {self' : HotWallet} {now : w.NaiveDateTime}
      (v : Result ContractError (Result ContractError w.NaiveDateTime))
      → w.from_timestamp (w.seconds current_time) ≡ some now
      → next_reset w self.period_type self.period_multiple now ≡ v
      → reset_period w current_time self ≡ (ok tt, self')
      → Computed self self' now
  unfolding reset_period
  Computed-by_value self (ok (ok dt)) started v e = (dt, v, ground arith)
  Computed-by_value self (ok (err x)) started v e = absurd (ground arith)
  Computed-by_value self (ok panic) started v e = absurd (ground arith)
  Computed-by_value self (err x) started v e = absurd (ground arith)
  Computed-by_value self panic started v e = absurd (ground arith)

  reset_period-eq-ok :
      (self : HotWallet) {self' : HotWallet}
      → reset_period w current_time self ≡ (ok tt, self')
      → (now : w.NaiveDateTime) × (w.from_timestamp (w.seconds current_time) ≡ some now)
        × Computed self self' now
  unfolding reset_period
  reset_period-eq-ok self e = elim (Option-cases (w.from_timestamp (w.seconds current_time))) [
    | inl missing ↦ absurd (ground arith)
    | inr (now, started) ↦ (now, started, Computed-by_value self _ started refl e)
  ]

  -- The new end of the period is the date that the period's type and length make of the current time.
  abbrev pub Restored : HotWallet → CoinLimit → List CoinLimit → HotWallet → Type 0
  Restored self l limits self' =
      (now : w.NaiveDateTime) × (dt : w.NaiveDateTime) × (w.from_timestamp (w.seconds current_time)
        ≡ some now)
      × (next_reset w self.period_type self.period_multiple now ≡ ok (ok dt))
      × (self' ≡ record self {
        current_period_reset = w.timestamp dt;
        spend_limits = record l { limit_remaining = l.amount } ∷ limits;
      })

  -- A reset that succeeds restores the first limit to its full amount, and sets the end of the period
  -- to the timestamp of the date that the period's type and length make of the current time; nothing
  -- else of the wallet changes.
  pub reset_period-restores :
      (self : HotWallet) {l : CoinLimit} {limits : List CoinLimit} {self' : HotWallet}
      → self.spend_limits ≡ l ∷ limits
      → reset_period w current_time self ≡ (ok tt, self')
      → Restored self l limits self'
  unfolding reset_period
  reset_period-restores self e h =
      let (now, started, (dt, next, same)) = reset_period-eq-ok self h in
      (now, dt, started, next, ground arith)

  -- Whenever the calendar's laws hold and the period is not empty, a reset that succeeds ends the new
  -- period after the current time, so the wallet is not due for another.
  pub reset_period-later :
      ChronoLaws w
      → (self : HotWallet) {self' : HotWallet} → 1 ≤ self.period_multiple
      → reset_period w current_time self ≡ (ok tt, self')
      → (w.seconds current_time < self'.current_period_reset)
        × (should_reset w current_time self' ≡ false)
  unfolding should_reset
  reset_period-later laws self positive e =
      let (now, started, computed) = reset_period-eq-ok self e in
      let (dt, next, same) = computed in
      ground (
        arith,
        next_reset-later laws self.period_type now self.period_multiple positive next,
        laws.timestamp-from_timestamp (w.seconds current_time) started,
      )

  no_first_of_month : ChronoLaws w → (y m : ℕ) → m ≡ 0 → first_of_month w y m ≡ panic
  no_first_of_month laws y m zero_month = elim (Option-cases (w.from_ymd y m 1)) [
    | inl missing ↦ rw missing
    | inr (date, found) ↦ absurd (omega (arith, laws.from_ymd_month y m 1 found))
  ]

  next_reset-no_month :
      ChronoLaws w
      → (now : w.NaiveDateTime) (n k : ℕ) → w.month now + n ≡ 12 * k
      → 2 ≤ k
      → k ≤ 22
      → next_reset w months n now ≡ panic
  unfolding next_reset
  next_reset-no_month laws now n k total lo hi =
      ground (
        arith,
        no_first_of_month laws (w.year now + (w.month now + n) / 12) ((w.month now + n) % 12),
      )

  -- A monthly period panics when the month's number plus the period is a multiple of twelve from 24
  -- to 264: the new month is then 12 % 12, and there is no month 0.
  pub reset_period-panics :
      ChronoLaws w
      → (self : HotWallet) {now : w.NaiveDateTime} (k : ℕ)
      → w.from_timestamp (w.seconds current_time) ≡ some now
      → self.period_type ≡ months
      → w.month now + self.period_multiple ≡ 12 * k
      → 2 ≤ k
      → k ≤ 22
      → (reset_period w current_time self).0 ≡ panic
  unfolding reset_period
  reset_period-panics laws self {now} k e m total lo hi =
      rw (e, m, next_reset-no_month laws now self.period_multiple k total lo hi)
