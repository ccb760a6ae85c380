-- ===== src/Roll/Contract/Expiry.antt =====
-- `cl_last_trade_date` against the exchange's rule.
use multi_desk_trading.Common.{
  ℕ, suc, ◌-◌, ◌≤◌, ◌<◌, ◌≡◌, true, ok, ◌>>=◌, >>=-eq-ok, ok-injective, arith, Bool-cases, inl, inr,
  ap, ◌∙◌, if◌then◌else◌,
}
use multi_desk_trading.Common.Int.{pos}
use multi_desk_trading.Roll.Calendar.{
  ExchangeCalendar, is_business_day, business_days_before, count_after,
}
use multi_desk_trading.Roll.Calendar.Prior.{NoneBetween-suc}
use multi_desk_trading.Roll.Calendar.Steps.{
  prior_business_day-eq-ok, step_back-le, step_back-business,
}
use multi_desk_trading.Roll.Calendar.Count.{
  count_after-none, count_after_zero, count_after_trans, count_after-step_back,
}
use multi_desk_trading.Roll.Dates.{Date, to_ordinal}
use multi_desk_trading.Roll.Contract.{anchor_date, roll_back, cl_last_trade_date}

-- The last business day up to `day`, `day` included.
record IsLastOpen (c : ExchangeCalendar) (day p : ℕ) : Type 0 where
  at_most : p ≤ day
  open_day : is_business_day c p ≡ true
  shut_after : count_after c p (day - p) ≡ 0

roll_back-IsLastOpen :
    (c : ExchangeCalendar) (day : ℕ) {p : ℕ} → roll_back c day ≡ ok p → IsLastOpen c day p
unfolding roll_back
roll_back-IsLastOpen c day {p} e = elim (Bool-cases (is_business_day c day)) [
  | inl open_day ↦
      let same = ok-injective (rw (open_day, if◌then◌else◌) at e) in
      record {
        at_most = omega (arith, same);
        open_day = rw (← same) open_day;
        shut_after = ap (count_after c p) {y = 0} (omega (arith, same)) ∙ count_after_zero c p;
      }
  | inr shut_day ↦
      let found = prior_business_day-eq-ok c day (rw (shut_day, if◌then◌else◌) at e) in
      record {
        at_most = omega (arith, found.1);
        open_day = found.2;
        shut_after = count_after-none c p (day - p) (λ m lo hi.
            NoneBetween-suc c (suc p) day shut_day found.3 m lo (omega (arith, found.1)));
      }
]

-- A last trade date is a business day, and exactly three business days lie after it up to the
-- 25th of the month before the delivery month, that day included.
pub cl_last_trade_date-three :
    (c : ExchangeCalendar) (delivery : Date) {date : Date} {last : ℕ}
    → anchor_date delivery ≡ ok date
    → cl_last_trade_date c delivery ≡ ok last
    → (is_business_day c last ≡ true)
      × (last < to_ordinal date)
      × (count_after c last (to_ordinal date - last) ≡ 3)
unfolding cl_last_trade_date business_days_before
cl_last_trade_date-three c delivery {date} {last} ed e =
    let (anchor, rolled, stepped) =
      >>=-eq-ok (roll_back c (to_ordinal date)) (λ d. business_days_before c d (pos 3))
        (rw (ed, ◌>>=◌) at e) in
    let settled = roll_back-IsLastOpen c (to_ordinal date) rolled in
    let back = step_back-le c anchor 3 stepped in
    (
      step_back-business c anchor 3 stepped settled.open_day,
      omega (arith, settled.at_most),
      omega (
        arith,
        count_after_trans c last anchor (to_ordinal date) (omega arith) settled.at_most,
        count_after-step_back c anchor 3 settled.open_day stepped,
        settled.shut_after,
      ),
    )
