-- ===== src/Feeds/Reliability/Retire.antt =====
-- Feeds that are to be retired, and that no feed is at once to be retired and reinstated.
use text.Mathlib.Text.{◌==◌ as str_eq}
use text.Mathlib.TextEquality.{eq_iff}
use multi_desk_trading.Common.{
  ◌≡◌, refl, ap, subst, inl, inr, String, Bool, true, false, ◌&&◌, List, [], ◌∷◌, ok, ◌>>=◌, arith,
  keep, map, Bool-cases,
}
use multi_desk_trading.Common.Int.{ℤ, pos, leb_ℤ}
use multi_desk_trading.Common.Time.{Datetime, is_naive}
use multi_desk_trading.Feeds.Incidents.{FeedIncident, count_window}
use multi_desk_trading.Feeds.Reliability.{
  FeedReliabilityStats, minus_days, last_opened, compute_feed_failure_rate,
  feeds_meeting_retirement_criteria, feeds_eligible_for_reinstatement,
}
use multi_desk_trading.Feeds.Reliability.Rules.{
  has_name, is_quiet, any_open, is_nonempty-any_open, is_quiet-count, count_lem, minus_days-aware,
  feeds_eligible_for_reinstatement-quiet,
}

-- Some incident of the feed is open, and at least the threshold were opened within the window.
abbrev pub is_failing : ℤ → Datetime → Datetime → List FeedIncident → String → Bool
is_failing threshold start now table feed =
    leb_ℤ threshold (pos (count_window feed start now table)) && any_open feed table

module _ (table : List FeedIncident) (lookback_days threshold : ℤ) (now start : Datetime)
    (h : is_naive now ≡ false) (e : minus_days now lookback_days ≡ ok start) where
  stats_of : String → FeedReliabilityStats
  stats_of feed = record {
    feed_name = feed;
    failure_count_window = count_window feed start now table;
    last_failure_ts_utc = last_opened feed start now table;
    currently_open = any_open feed table;
  }

  compute_feed_failure_rate_lem :
      (feed : String) → compute_feed_failure_rate table feed lookback_days now ≡ ok (stats_of feed)
  unfolding compute_feed_failure_rate stats_of
  compute_feed_failure_rate_lem feed = rw (
    h,
    e,
    ◌>>=◌,
    count_lem table start now (minus_days-aware now lookback_days start e) h feed,
    ◌>>=◌,
    is_nonempty-any_open feed table,
  )

  -- The statistics of the feeds that are to be retired, in the order given.
  retire_lem :
      (feeds : List String)
      → feeds_meeting_retirement_criteria table feeds lookback_days threshold now
        ≡ ok (map stats_of (keep (is_failing threshold start now table) feeds))
  unfolding feeds_meeting_retirement_criteria stats_of
  retire_lem [] = refl
  retire_lem (first ∷ feeds) = elim (Bool-cases (is_failing threshold start now table first)) [
    | inl f ↦ rw (compute_feed_failure_rate_lem first, ◌>>=◌, retire_lem feeds, ◌>>=◌, f)
    | inr f ↦ rw (compute_feed_failure_rate_lem first, ◌>>=◌, retire_lem feeds, ◌>>=◌, f)
  ]

  names-map : (feeds : List String) → map (λ stats. stats.feed_name) (map stats_of feeds) ≡ feeds
  unfolding stats_of
  names-map [] = refl
  names-map (first ∷ feeds) = ap (λ rest. first ∷ rest) (names-map feeds)

  -- Where now is aware and the lookback window starts within Python's range of times, the feeds to
  -- retire are returned, in the order given: those of which an incident is open and at least the
  -- threshold were opened from the start of the window to now.
  pub feeds_meeting_retirement_criteria-failing :
      (feeds : List String)
      → (out : List FeedReliabilityStats) × (feeds_meeting_retirement_criteria table feeds
            lookback_days threshold now
          ≡ ok out)
        × (map (λ stats. stats.feed_name) out ≡ keep (is_failing threshold start now table) feeds)
  feeds_meeting_retirement_criteria-failing feeds =
      (_, retire_lem feeds, names-map (keep (is_failing threshold start now table) feeds))

has_name-keep :
    (p : String → Bool) (feed : String) (feeds : List String)
    → has_name feed (keep p feeds) ≡ true
    → p feed ≡ true
has_name-keep p feed [] h = ground arith
has_name-keep p feed (first ∷ feeds) h = elim (Bool-cases (p first)) [
  | inl t ↦ elim (Bool-cases (str_eq first feed)) [
    | inl same ↦ subst (λ name. p name ≡ true) ((eq_iff first feed).0 same) t
    | inr differs ↦ has_name-keep p feed feeds (ground arith)
  ]
  | inr f ↦ has_name-keep p feed feeds (ground arith)
]

quiet_not_open :
    (feed : String) (start now : Datetime) (table : List FeedIncident)
    → is_quiet feed start now table ≡ true
    → any_open feed table ≡ false
quiet_not_open feed start now table h = ground (arith, is_quiet-count feed start now table)

-- Where now is aware and both windows start within Python's range of times, both reviews of a table
-- return, and no feed is both to be retired and eligible for reinstatement, whatever the two windows
-- and the threshold.
pub reviews_disjoint :
    (table : List FeedIncident) (feeds feeds' : List String) (lookback_days threshold : ℤ)
    (recovery_days : ℤ) (now start start' : Datetime)
    → is_naive now ≡ false
    → minus_days now lookback_days ≡ ok start
    → minus_days now recovery_days ≡ ok start'
    → (out : List FeedReliabilityStats) × (names : List String) × (feeds_meeting_retirement_criteria
          table feeds lookback_days threshold now
        ≡ ok out)
      × (feeds_eligible_for_reinstatement table feeds' recovery_days now ≡ ok names)
      × ((feed : String)
          → has_name feed (map (λ stats. stats.feed_name) out) ≡ true
          → has_name feed names ≡ false)
reviews_disjoint table feeds feeds' lookback_days threshold recovery_days now start start' h e e' =
    (
      retired.0,
      _,
      retired.1,
      feeds_eligible_for_reinstatement-quiet table feeds' recovery_days now start' h e',
      λ feed r.
          elim (Bool-cases (has_name feed (keep (λ name. is_quiet name start' now table) feeds'))) [
            | inr n ↦ n
            | inl q ↦ ground (
              arith,
              quiet_not_open feed start' now table
                  (has_name-keep (λ name. is_quiet name start' now table) feed feeds' q),
              has_name-keep (is_failing threshold start now table) feed feeds
                  (subst (λ names. has_name feed names ≡ true) retired.2 r),
            )
          ],
    )
  where
    retired :
        (out : List FeedReliabilityStats) × (feeds_meeting_retirement_criteria table feeds
            lookback_days threshold now
          ≡ ok out)
        × (map (λ stats. stats.feed_name) out ≡ keep (is_failing threshold start now table) feeds)
    retired =
        feeds_meeting_retirement_criteria-failing table lookback_days threshold now start h e feeds
