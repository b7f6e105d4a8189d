-- ===== src/Market/Release.antt =====
-- The contract of a time lock strategy, contracts/misc/DefaultTimeLockStrategy.sol, which the script
-- deploys with the parameters of market-config/timeLockStrategies.ts. A call that reverts is `none`.
use paraspace_core.Prelude.{
  if◌then◌else◌, ltb, leb, le→leb, lt→ltb, leb→le, ltb→lt, sym, ℕ, ◌+◌, ◌-◌, ◌^◌, ◌≤◌, ◌<◌, Bool,
  true, false, ◌&&◌, Option, none, some, ◌>>=◌, ◌≡◌, ◌∙◌, refl, ap, arith,
}
use paraspace_core.Market.{TimeLockStrategyParams}

-- `totalAmountInCurrentPeriod` and `lastResetTimestamp`.
pub record Period : Type 0 where
  pub total : ℕ
  pub last_reset : ℕ

abbrev when {ℓ} : {A : Type ℓ} → Bool → Option A → Option A
when b next = if b then next else none

when_passes {ℓ} : {A : Type ℓ} {b : Bool} {next : Option A} → b ≡ true → when b next ≡ next
when_passes h = rw h refl

-- The tests before a result, where there is one.
when_opened {ℓ} :
    {A : Type ℓ} (a b c : Bool) (x y : A) (f : A → Option A)
    → when a (when b (when c (some x)) >>= f) ≡ some y
    → (b ≡ true) × (c ≡ true) × (f x ≡ some y)
when_opened true true true x y f h = (refl, refl, h)
when_opened false b c x y f h = cc
when_opened true false c x y f h = cc
when_opened true true false x y f h = cc

when_last {ℓ} : {A : Type ℓ} (b : Bool) (x y : A) → when b (some x) ≡ some y → (b ≡ true) × (x ≡ y)
when_last true x y h = (refl, cc)
when_last false x y h = cc

-- The `require`s of the constructor.
unfoldable pub is_constructed : TimeLockStrategyParams → Bool
is_constructed p =
    ltb p.min_threshold p.mid_threshold
    && ltb p.min_wait_time p.mid_wait_time
    && ltb p.mid_wait_time p.max_wait_time
    && ltb 0 p.pool_period_limit

module _ (p : TimeLockStrategyParams) where
  abbrev pub current : ℕ → Period → Period
  current now s =
      if leb p.period (now - s.last_reset) then record { total = 0; last_reset = now } else s

  abbrev pub extra_delay : ℕ → ℕ
  extra_delay total = if ltb p.pool_period_limit total then p.pool_period_wait_time else 0

  -- `_updatePeriodLimit`: the sum has 128 bits, and time does not run backwards.
  unfoldable pub update_period_limit : ℕ → ℕ → Period → Option (ℕ × Period)
  update_period_limit now amount s = when (leb s.last_reset now) (
      let t = (current now s).total + amount in
      when (ltb t (2 ^ 128))
        (some (extra_delay t, record { total = t; last_reset = (current now s).last_reset })))

  unfoldable pub wait_time : ℕ → ℕ
  wait_time amount =
      if ltb amount p.min_threshold
      then p.min_wait_time
      else if ltb amount p.mid_threshold
      then p.mid_wait_time
      else p.max_wait_time

  -- `calculateTimeLockParams` called by the pool: the release time has 48 bits.
  unfoldable pub calculate_time_lock_params : ℕ → ℕ → Period → Option (ℕ × Period)
  calculate_time_lock_params now amount s = when (ltb amount (2 ^ 128)) (
      update_period_limit now amount s >>= (λ t.
        when (ltb (now + t.0 + wait_time amount) (2 ^ 48))
          (some (now + t.0 + wait_time amount, t.1))))

  wait_time-between :
      (amount : ℕ)
      → is_constructed p ≡ true
      → (p.min_wait_time ≤ wait_time amount) × (wait_time amount ≤ p.max_wait_time)
  unfolding wait_time is_constructed
  wait_time-between amount h = (ground arith, ground arith)

  extra_delay_le : (total : ℕ) → extra_delay total ≤ p.pool_period_wait_time
  extra_delay_le total = ground arith

  wait_time_mono : (a b : ℕ) → is_constructed p ≡ true → a ≤ b → wait_time a ≤ wait_time b
  unfolding wait_time is_constructed
  wait_time_mono a b h le = ground arith

  extra_delay_mono : (a b : ℕ) → a ≤ b → extra_delay a ≤ extra_delay b
  extra_delay_mono a b le = ground arith

  abbrev total_with : ℕ → ℕ → Period → ℕ
  total_with now amount s = (current now s).total + amount

  abbrev pub release : ℕ → ℕ → Period → ℕ
  release now amount s = now + extra_delay (total_with now amount s) + wait_time amount

  release_le :
      (now amount : ℕ) (s : Period)
      → is_constructed p ≡ true
      → release now amount s ≤ now + p.max_wait_time + p.pool_period_wait_time
  release_le now amount s h =
      omega (arith, extra_delay_le (total_with now amount s), (wait_time-between amount h).1)

  calculate-some :
      (now amount : ℕ) (s : Period)
      → s.last_reset ≤ now
      → total_with now amount s < 2 ^ 128
      → release now amount s < 2 ^ 48
      → calculate_time_lock_params now amount s
        ≡ some (
          release now amount s,
          record { total = total_with now amount s; last_reset = (current now s).last_reset },
        )
  unfolding calculate_time_lock_params update_period_limit
  calculate-some now amount s past fits short =
      let a : ltb amount (2 ^ 128) ≡ true = lt→ltb amount (2 ^ 128) (omega arith) in
      let b : leb s.last_reset now ≡ true = le→leb s.last_reset now past in
      let c : ltb (total_with now amount s) (2 ^ 128) ≡ true =
        lt→ltb (total_with now amount s) (2 ^ 128) fits in
      let d : ltb (release now amount s) (2 ^ 48) ≡ true =
        lt→ltb (release now amount s) (2 ^ 48) short in
      when_passes a ∙ ap (λ m. m >>= finish) (when_passes b ∙ when_passes c) ∙ when_passes d
    where
      finish : ℕ × Period → Option (ℕ × Period)
      finish t =
          when (ltb (now + t.0 + wait_time amount) (2 ^ 48))
            (some (now + t.0 + wait_time amount, t.1))

  -- A strategy that was constructed, asked by the pool at a time not before the last reset, with an amount that the
  -- period's total has room for and times that fit in 48 bits, releases between its least and its greatest waiting
  -- time, plus the waiting time of the period, and counts the amount.
  pub calculate-bounded :
      (now amount : ℕ) (s : Period)
      → is_constructed p ≡ true
      → s.last_reset ≤ now
      → (current now s).total + amount < 2 ^ 128
      → now + p.max_wait_time + p.pool_period_wait_time < 2 ^ 48
      → (r : ℕ) × (s' : Period) × (calculate_time_lock_params now amount s ≡ some (r, s'))
        × (now + p.min_wait_time ≤ r)
        × (r ≤ now + p.max_wait_time + p.pool_period_wait_time)
        × (s'.total ≡ (current now s).total + amount)
  calculate-bounded now amount s made past fits short =
      let top = release_le now amount s made in
      (
        release now amount s,
        record { total = total_with now amount s; last_reset = (current now s).last_reset },
        calculate-some now amount s past fits (omega (arith, top)),
        omega (arith, (wait_time-between amount made).0),
        top,
        refl,
      )

  calculate-facts :
      (now amount : ℕ) (s t : Period) (r : ℕ)
      → calculate_time_lock_params now amount s ≡ some (r, t)
      → (s.last_reset ≤ now)
        × (total_with now amount s < 2 ^ 128)
        × (release now amount s < 2 ^ 48)
        × (r ≡ release now amount s)
        × (t.total ≡ total_with now amount s)
  unfolding calculate_time_lock_params update_period_limit
  calculate-facts now amount s t r h =
      let counted : Period = record {
        total = total_with now amount s;
        last_reset = (current now s).last_reset;
      } in
      let (past, fits, last) =
        when_opened (ltb amount (2 ^ 128)) (leb s.last_reset now)
          (ltb (total_with now amount s) (2 ^ 128)) (extra_delay (total_with now amount s), counted)
          (r, t)
          (λ t.
            when (ltb (now + t.0 + wait_time amount) (2 ^ 48))
              (some (now + t.0 + wait_time amount, t.1)))
          h in
      let (short, same) =
        when_last (ltb (release now amount s) (2 ^ 48)) (release now amount s, counted) (r, t)
          last in
      (
        leb→le s.last_reset now past,
        ltb→lt (total_with now amount s) (2 ^ 128) fits,
        ltb→lt (release now amount s) (2 ^ 48) short,
        ap (λ x. x.0) (sym same),
        ap (λ x. x.1.total) (sym same),
      )

  -- Where a constructed strategy takes an amount, it takes every smaller one from the same state at
  -- the same time, releases it sooner by at least the difference of the waiting times of the two amounts,
  -- and counts as much less as it is smaller.
  pub calculate_mono :
      (now a b : ℕ) (s t : Period) (r : ℕ)
      → is_constructed p ≡ true
      → a ≤ b
      → calculate_time_lock_params now b s ≡ some (r, t)
      → (q : ℕ) × (u : Period) × (calculate_time_lock_params now a s ≡ some (q, u))
        × (q + (wait_time b - wait_time a) ≤ r)
        × (u.total + (b - a) ≡ t.total)
  calculate_mono now a b s t r made le taken =
      let (past, fits, short, same, counted) = calculate-facts now b s t r taken in
      let waits = wait_time_mono a b made le in
      let delays = extra_delay_mono (total_with now a s) (total_with now b s) (omega arith) in
      (
        release now a s,
        record { total = total_with now a s; last_reset = (current now s).last_reset },
        calculate-some now a s past (omega arith) (omega arith),
        omega arith,
        omega arith,
      )
