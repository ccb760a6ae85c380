-- ===== src/Roll/Calendar/Count.antt =====
-- `business_days_until` counts the business days that `business_days_before` steps over.
use multi_desk_trading.Common.{
  ℕ, zero, suc, ◌+◌, ◌-◌, ◌≤◌, ◌<◌, ◌≡◌, ◌↔◌, refl, true, ok, arith, >>=-eq-ok, ok-injective, ◌∙◌,
  ap,
}
use native.Mathlib.Decide.{dec_lt}
use multi_desk_trading.Common.Int.{pos, neg, ltb_ℤ}
use multi_desk_trading.Roll.Calendar.{
  ExchangeCalendar, is_business_day, prior_business_day, step_back, count_after,
  business_days_before, business_days_until,
}
use multi_desk_trading.Roll.Calendar.Prior.{IsPrior, NoneBetween}
use multi_desk_trading.Roll.Calendar.Steps.{prior_business_day-eq-ok, step_back-le}

pub count_after_zero : (c : ExchangeCalendar) (start : ℕ) → count_after c start 0 ≡ 0
unfolding count_after
count_after_zero c start = refl

pub count_after-add :
    (c : ExchangeCalendar) (start m n : ℕ)
    → count_after c start (m + n) ≡ count_after c start m + count_after c (start + m) n
unfolding count_after
count_after-add c start m zero = ap (count_after c start) {y = m} (omega arith) ∙ omega arith
count_after-add c start m (suc n) =
    ap (count_after c start) (shift m n)
    ∙ rw (count_after-add c start m n, assoc start m n) (omega arith)
  where
    shift : (a b : ℕ) → a + suc b ≡ suc (a + b)
    shift a b = omega arith

    assoc : (a b d : ℕ) → a + suc (b + d) ≡ a + b + suc d
    assoc a b d = omega arith

pub count_after-none :
    (c : ExchangeCalendar) (start n : ℕ)
    → NoneBetween c (suc start) (suc start + n)
    → count_after c start n ≡ 0
unfolding count_after
count_after-none c start zero h = refl
count_after-none c start (suc n) h =
    rw (h (start + suc n) (omega arith) (omega arith))
      (omega (arith, count_after-none c start n (λ m lo hi. h m lo (omega arith))))

-- From the business day before `day` up to `day`, only `day` itself is counted.
count_after-prior :
    (c : ExchangeCalendar) (p n : ℕ)
    → is_business_day c (p + suc n) ≡ true
    → NoneBetween c (suc p) (p + suc n)
    → count_after c p (suc n) ≡ 1
unfolding count_after
count_after-prior c p n h none_between =
    rw h (omega (arith, count_after-none c p n (λ m lo hi. none_between m lo (omega arith))))

IsPrior-count :
    (c : ExchangeCalendar) (day p : ℕ)
    → is_business_day c day ≡ true
    → IsPrior c day (ok p)
    → count_after c p (day - p) ≡ 1
IsPrior-count c day p h found =
    rw gap (count_after-prior c p (day - p - 1) (rw (← whole) h) (rw (← whole) found.3))
  where
    gap : day - p ≡ suc (day - p - 1)
    gap = omega (arith, found.1)

    whole : day ≡ p + suc (day - p - 1)
    whole = omega (arith, found.1)

pub count_after_trans :
    (c : ExchangeCalendar) (p q day : ℕ)
    → p ≤ q
    → q ≤ day
    → count_after c p (day - p) ≡ count_after c p (q - p) + count_after c q (day - q)
count_after_trans c p q day le le' =
    ap (count_after c p) whole
    ∙ count_after-add c p (q - p) (day - q)
    ∙ ap (λ d. count_after c p (q - p) + count_after c d (day - q)) middle
  where
    whole : day - p ≡ (q - p) + (day - q)
    whole = omega arith

    middle : p + (q - p) ≡ q
    middle = omega arith

pub count_after-step_back :
    (c : ExchangeCalendar) (day n : ℕ) {p : ℕ}
    → is_business_day c day ≡ true
    → step_back c day n ≡ ok p
    → count_after c p (day - p) ≡ n
unfolding step_back
count_after-step_back c day zero {p} h e =
    ap (count_after c p) {y = 0} (omega (arith, ok-injective e)) ∙ count_after_zero c p
count_after-step_back c day (suc n) {p} h e =
    let (q, first, rest) = >>=-eq-ok (prior_business_day c day) (λ d. step_back c d n) e in
    let found = prior_business_day-eq-ok c day first in
    omega (
      arith,
      step_back-le c q n rest,
      count_after_trans c p q day (omega (arith, step_back-le c q n rest)) (omega (arith, found.1)),
      IsPrior-count c day q h found,
      count_after-step_back c q n found.2 rest,
    )

-- Stepping back `n` business days from a business day and counting forwards again gives `n`, and
-- counting from the later day to the earlier gives `-n`.
pub business_days_until-before :
    (c : ExchangeCalendar) (day n : ℕ) {p : ℕ}
    → is_business_day c day ≡ true
    → business_days_before c day (pos n) ≡ ok p
    → (business_days_until c p day ≡ pos n) × (business_days_until c day p ≡ neg (pos n))
unfolding business_days_before business_days_until
business_days_until-before c day n {p} h e =
    ground (arith, step_back-le c day n e, count_after-step_back c day n h e, count_after_zero c p)

count_after-pos_suc :
    (c : ExchangeCalendar) (start n : ℕ)
    → is_business_day c (start + suc n) ≡ true
    → 1 ≤ count_after c start (suc n)
unfolding count_after
count_after-pos_suc c start n h = rw h (omega arith)

-- A span that ends on a business day counts at least that day.
count_after-pos :
    (c : ExchangeCalendar) (start end : ℕ)
    → start < end
    → is_business_day c end ≡ true
    → 1 ≤ count_after c start (end - start)
count_after-pos c start end lt h =
    rw gap (count_after-pos_suc c start (end - start - 1) (rw (← whole) h))
  where
    gap : end - start ≡ suc (end - start - 1)
    gap = omega arith

    whole : end ≡ start + suc (end - start - 1)
    whole = omega arith

-- With `n` business days after `p` up to `last`, the days before `p` are those from which more
-- than `n` business days are left.
pub business_days_until-gt :
    (c : ExchangeCalendar) (p last n as_of : ℕ)
    → p ≤ last
    → is_business_day c p ≡ true
    → count_after c p (last - p) ≡ n
    → (as_of < p) ↔ (ltb_ℤ (pos n) (business_days_until c as_of last) ≡ true)
unfolding business_days_until
business_days_until-gt c p last n as_of le h e = (
  λ early.
      ground (
        arith,
        count_after_trans c as_of p last (omega arith) le,
        count_after-pos c as_of p early h,
      ),
  λ more. elim (dec_lt as_of p) [
    | yes early ↦ early
    | no late ↦ elim (dec_lt last as_of) [
      | yes past ↦ ground arith
      | no held ↦ ground (arith, count_after_trans c p as_of last (omega arith) (omega arith))
    ]
  ],
)
