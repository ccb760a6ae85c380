-- ===== src/Feeds/Detector/Quiet.antt =====
-- A punctual feed never trips the detector.
use multi_desk_trading.Common.{
  String, ◌≡◌, refl, inl, inr, Bool, true, false, List, [], ◌∷◌, ok, arith, All, ◌∙◌, Bool-cases,
}
use multi_desk_trading.Common.Float.{FloatOps, FloatLaws, min_float}
use multi_desk_trading.Common.Time.{Datetime}
use multi_desk_trading.Feeds.Detector.{PageHinkleyState, initial_state, run_observations}
use multi_desk_trading.Feeds.Detector.Trips.{
  IsObservation, drifts, climbs, count_true, run_observations-IsDetection,
}

module _ (F : FloatOps) (L : FloatLaws F) where
  open F use {Float}

  -- The latency is at most the allowed drift.
  abbrev pub IsPunctual : Float → Float × Datetime → Type 0
  IsPunctual delta (latency, now) = F.leb (F.sub latency delta) F.zero ≡ true

  -- What is not above 0.0 is not above a threshold of at least 0.0.
  ltb_above :
      (threshold x : Float)
      → F.leb F.zero threshold ≡ true
      → F.ltb F.zero x ≡ false
      → F.ltb threshold x ≡ false
  ltb_above threshold x nonneg low = elim (Bool-cases (F.ltb threshold x)) [
    | inl above ↦ ground (
      arith,
      L.ltb_lem threshold x,
      L.ltb_lem F.zero x,
      L.leb_trans F.zero threshold x nonneg,
      λ (h : F.leb x F.zero ≡ true). L.leb_trans x F.zero threshold h nonneg,
    )
    | inr below ↦ below
  ]

  min_float-ge :
      (total least : Float)
      → F.leb total least ≡ true
      → F.leb total (min_float F least total) ≡ true
  min_float-ge total least h = elim (Bool-cases (F.ltb total least)) [
    | inl lower ↦ rw lower (L.leb_self total least h)
    | inr same ↦ rw same h
  ]

  quiet-climbs :
      (delta threshold total least : Float) (xs : List (Float × Datetime))
      → F.leb F.zero threshold ≡ true
      → All (IsPunctual delta) xs
      → F.leb total F.zero ≡ true
      → F.leb total least ≡ true
      → climbs F threshold least (drifts F delta total xs) ≡ false
  quiet-climbs delta threshold total least [] nonneg punctual low under = refl
  quiet-climbs delta threshold total least ((latency, now) ∷ xs) nonneg punctual low under =
      let next = F.add total (F.sub latency delta) in
      let lower = L.add_nonpos total (F.sub latency delta) low punctual.0 in
      let kept = min_float-ge next least (L.leb_trans next total least lower under) in
      rw (ltb_above threshold (F.sub next (min_float F least next)) nonneg (L.sub_nonpos _ _ kept))
        (quiet-climbs delta threshold next (min_float F least next) xs nonneg punctual.1
          (L.leb_trans next total F.zero lower low) kept)

  -- From the initial state, observations whose latencies are at most the allowed drift leave the
  -- detector untripped and raise no alarm, for every threshold of at least 0.0.
  run_observations_quiet :
      (feed_name : String) (xs : List (Float × Datetime)) (delta threshold : Float)
      → F.leb F.zero threshold ≡ true
      → All (IsObservation F) xs
      → All (IsPunctual delta) xs
      → (t : PageHinkleyState F) × (alarms : List Bool) × (run_observations F
            (initial_state F feed_name)
            xs
            delta
            threshold
          ≡ ok (t, alarms))
        × (t.tripped ≡ false)
        × (count_true alarms ≡ 0)
  unfolding initial_state
  run_observations_quiet feed_name xs delta threshold nonneg accepted punctual =
      let (t, alarms, ran, d) =
        run_observations-IsDetection F (initial_state F feed_name) xs delta threshold accepted in
      let untripped =
        d.trips
        ∙ quiet-climbs delta threshold F.zero F.zero xs nonneg punctual L.leb_zero_zero
            L.leb_zero_zero in
      (t, alarms, ran, untripped, d.alarmed_once ∙ rw untripped)
