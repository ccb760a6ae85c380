-- ===== src/Scheduler/Cron.antt =====
-- What the loop over the scheduled times of one event collects.
use multi_desk_trading.Common.{
  All, ℕ, zero, suc, ◌+◌, ◌<◌, true, ◌≡◌, refl, inl, inr, List, [], ◌∷◌, ◌++◌, arith, Bool-cases,
  if◌then◌else◌,
}
use multi_desk_trading.Common.Int.{ℤ, ◌-ℤ◌, pos_part, neg_part, ltb_ℤ, leb_ℤ}
use multi_desk_trading.Scheduler.{ScheduledEvent, Croniter, Firing, collect, rounds_to}

-- What the code relies on of croniter: the next scheduled time is later, and it stays the next one
-- until it has come.
pub record CronLaws (next : Croniter) : Type 0 where
  pub later : (ev : ScheduledEvent) (t : ℤ) → ltb_ℤ t (next ev t) ≡ true
  pub same :
      (ev : ScheduledEvent) (t u : ℤ)
      → leb_ℤ t u ≡ true
      → ltb_ℤ u (next ev t) ≡ true
      → next ev u ≡ next ev t

-- The rounds suffice to pass the end: end - now is less than their number.
abbrev pub Suffices : ℕ → ℤ → ℤ → Type 0
Suffices n end now = pos_part end + neg_part now < n + (pos_part now + neg_part end)

pub rounds_to-Suffices : (start end : ℤ) → Suffices (rounds_to start end) end start
unfolding ◌-ℤ◌
rounds_to-Suffices start end = ground arith

module _ (next : Croniter) (C : CronLaws next) (ev : ScheduledEvent) where
  -- The scheduled times after one, up to an end.
  unfoldable pub upcoming : ℕ → ℤ → ℤ → List Firing
  upcoming zero end now = []
  upcoming (suc n) end now =
      let ts = next ev now in
      let rest = upcoming n end ts in
      if ltb_ℤ end ts then [] else record { event = ev; ts = ts } ∷ rest

  pub collect-upcoming :
      (n : ℕ) (start end now : ℤ)
      → leb_ℤ start now ≡ true
      → collect next n ev start end now ≡ upcoming n end now
  unfolding collect upcoming
  collect-upcoming zero start end now h = refl
  collect-upcoming (suc n) start end now h =
      ground (arith, C.later ev now, collect-upcoming n start end (next ev now))

  pub upcoming_enough :
      (n m : ℕ) (end now : ℤ)
      → Suffices n end now
      → Suffices m end now
      → upcoming n end now ≡ upcoming m end now
  unfolding upcoming
  upcoming_enough zero zero end now h k = refl
  upcoming_enough zero (suc m) end now h k = ground (arith, C.later ev now)
  upcoming_enough (suc n) zero end now h k = ground (arith, C.later ev now)
  upcoming_enough (suc n) (suc m) end now h k =
      ground (arith, C.later ev now, upcoming_enough n m end (next ev now))

  -- The times up to an end are those up to a time before it, and those from there on.
  pub upcoming_split :
      (n m k : ℕ) (mid end now : ℤ)
      → Suffices n end now
      → Suffices m mid now
      → Suffices k end mid
      → leb_ℤ now mid ≡ true
      → leb_ℤ mid end ≡ true
      → upcoming n end now ≡ upcoming m mid now ++ upcoming k end mid
  unfolding upcoming
  upcoming_split n zero k mid end now h i j le le' = absurd (ground arith)
  upcoming_split n (suc m) zero mid end now h i j le le' = absurd (ground arith)
  upcoming_split zero (suc m) (suc k) mid end now h i j le le' = absurd (ground arith)
  upcoming_split (suc n) (suc m) (suc k) mid end now h i j le le' =
      elim (Bool-cases (ltb_ℤ mid (next ev now))) [
        | inl after ↦
            ground (
              arith,
              C.same ev now mid,
              after,
              C.later ev now,
              upcoming_enough n k end (next ev now),
            )
        | inr before ↦
            ground (arith, before, C.later ev now, upcoming_split n m (suc k) mid end (next ev now))
      ]

  pub upcoming_by : (n : ℕ) (end now : ℤ) → All (λ x. leb_ℤ x.ts end ≡ true) (upcoming n end now)
  unfolding upcoming
  upcoming_by zero end now = tt
  upcoming_by (suc n) end now = elim (Bool-cases (ltb_ℤ end (next ev now))) [
    | inl after ↦ rw (after, if◌then◌else◌) tt
    | inr before ↦ rw (before, if◌then◌else◌) (ground arith, upcoming_by n end (next ev now))
  ]

  pub upcoming_after :
      (n : ℕ) (start end now : ℤ)
      → leb_ℤ start now ≡ true
      → All (λ x. ltb_ℤ start x.ts ≡ true) (upcoming n end now)
  unfolding upcoming
  upcoming_after zero start end now h = tt
  upcoming_after (suc n) start end now h = elim (Bool-cases (ltb_ℤ end (next ev now))) [
    | inl after ↦ rw (after, if◌then◌else◌) tt
    | inr before ↦
        rw (before, if◌then◌else◌)
          (
            ground (arith, C.later ev now),
            upcoming_after n start end (next ev now) (ground (arith, C.later ev now)),
          )
  ]
