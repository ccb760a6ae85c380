-- ===== src/Roll/Select/Statuses.antt =====
-- The dictionary of statuses holds every contract's own status, where no symbol is listed twice.
use text.Mathlib.TextEquality.{eq_iff}
use multi_desk_trading.Common.{
  ℕ, ◌≡◌, ◌≢◌, String, none, some, List, [], ◌∷◌, ok, ◌>>=◌, >>=-eq-ok, ok-injective, arith, All,
  All-imp, sym, subst, ◌∙◌,
}
use multi_desk_trading.Roll.Calendar.{ExchangeCalendar}
use multi_desk_trading.Roll.Contract.{ClContract, RollPolicy}
use multi_desk_trading.Roll.Status.{RollStatus, roll_status}
use multi_desk_trading.Roll.Select.{statuses_of, find_status}
use multi_desk_trading.Roll.Select.Sorting.{Fresh, IsDistinct}

find_status-cons :
    (symbol : String) (s : RollStatus) (ss : List RollStatus)
    → find_status symbol ss ≡ none
    → s.symbol ≢ symbol
    → find_status symbol (s ∷ ss) ≡ none
unfolding find_status
find_status-cons symbol s ss e ne = ground (arith, eq_iff s.symbol symbol)

find_status-cons_self :
    (symbol : String) (s : RollStatus) (ss : List RollStatus)
    → find_status symbol ss ≡ none
    → s.symbol ≡ symbol
    → find_status symbol (s ∷ ss) ≡ some s
unfolding find_status
find_status-cons_self symbol s ss e same = ground (arith, eq_iff s.symbol symbol)

find_status-cons_old :
    (symbol : String) (s t : RollStatus) (ss : List RollStatus)
    → find_status symbol ss ≡ some t
    → find_status symbol (s ∷ ss) ≡ some t
unfolding find_status
find_status-cons_old symbol s t ss e = ground arith

module _ (as_of : ℕ) (c : ExchangeCalendar) (policy : RollPolicy) where
  -- The dictionary holds the contract's own status under its symbol.
  abbrev pub Owns : List RollStatus → ClContract → Type 0
  Owns statuses x =
      (s : RollStatus) × (find_status x.symbol statuses ≡ some s)
      × (roll_status x as_of c policy ≡ ok s)

  roll_status-symbol :
      (x : ClContract) {s : RollStatus} → roll_status x as_of c policy ≡ ok s → s.symbol ≡ x.symbol
  unfolding roll_status
  roll_status-symbol x e = ground arith

  -- The parts of a successful `statuses_of` on a non-empty list.
  record Listed (x : ClContract) (xs : List ClContract) (statuses : List RollStatus) : Type 0 where
    status : RollStatus
    rest : List RollStatus
    own : roll_status x as_of c policy ≡ ok status
    others : statuses_of xs as_of c policy ≡ ok rest
    whole : status ∷ rest ≡ statuses

  statuses_of-Listed :
      (x : ClContract) (xs : List ClContract) {statuses : List RollStatus}
      → statuses_of (x ∷ xs) as_of c policy ≡ ok statuses
      → Listed x xs statuses
  unfolding statuses_of
  statuses_of-Listed x xs e =
      let (s, own, rest_ok) =
        >>=-eq-ok (roll_status x as_of c policy)
          (λ s. statuses_of xs as_of c policy >>= λ r. ok (s ∷ r)) e in
      let (r, others, final) =
        >>=-eq-ok (statuses_of xs as_of c policy) (λ (r : List RollStatus). ok (s ∷ r)) rest_ok in
      record { status = s; rest = r; own = own; others = others; whole = ok-injective final }

  find_status_absent :
      (symbol : String) (xs : List ClContract) {statuses : List RollStatus}
      → Fresh symbol xs
      → statuses_of xs as_of c policy ≡ ok statuses
      → find_status symbol statuses ≡ none
  unfolding statuses_of find_status
  find_status_absent symbol [] fresh e = rw (← ok-injective e)
  find_status_absent symbol (x ∷ xs) fresh e =
      let l = statuses_of-Listed x xs e in
      rw (← l.whole) (
        find_status-cons symbol l.status l.rest (find_status_absent symbol xs fresh.1 l.others)
          (λ same. fresh.0 (sym (roll_status-symbol x l.own) ∙ same)))

  pub statuses_of-Owns :
      (xs : List ClContract) {statuses : List RollStatus}
      → IsDistinct xs
      → statuses_of xs as_of c policy ≡ ok statuses
      → All (Owns statuses) xs
  unfolding find_status
  statuses_of-Owns [] d e = tt
  statuses_of-Owns (x ∷ xs) {statuses} d e =
      let l = statuses_of-Listed x xs e in
      let missing = find_status_absent x.symbol xs d.0 l.others in
      let here =
        find_status-cons_self x.symbol l.status l.rest missing (roll_status-symbol x l.own) in
      subst (λ ss. All (Owns ss) (x ∷ xs)) l.whole
        (
          (l.status, here, l.own),
          All-imp _ _ (kept l.status l.rest) xs (statuses_of-Owns xs d.1 l.others),
        )
    where
      kept :
          (s : RollStatus) (rest : List RollStatus) (y : ClContract)
          → Owns rest y
          → Owns (s ∷ rest) y
      kept s rest y (t, found, own) = (t, find_status-cons_old y.symbol s t rest found, own)
