-- ===== src/Synthesiser/Cascade.antt =====
-- What `synthesise_family` returns: the cascade, the excluded desks and the contributions.
use text.Mathlib.Text.{◌==◌ as str_eq}
use multi_desk_trading.Common.{
  String, true, false, not, ◌≡◌, ◌⊎◌, refl, sym, ap, subst, ◌∙◌, inl, inr, Option, List, [], ◌∷◌,
  map, Bool-cases, if◌then◌else◌, ok, Result, raise_if, >>=-eq-ok, >>-eq-ok, ok-injective, keep,
  All,
}
use multi_desk_trading.Common.Float.{FloatOps}
use multi_desk_trading.Contracts.{ForecastV2, eq_floats, fixed_quantile_levels}
use multi_desk_trading.Synthesiser.{
  SynthesisError, family_input_mismatch, is_empty, DeskContribution, FamilyForecast,
  assert_compatible, is_valid_contribution, is_valid_abstention, is_valid_pool,
  make_family_forecast,
}
use multi_desk_trading.Synthesiser.Pooling.{
  posterior_or_normal, check_posterior, raw_weight, is_excluded, contribution_of,
  build_contributions, family_forecast_like, excluded_family, pooled_family, cascade_family,
  pool_family, synthesise_stages, synthesise_family,
}

module _ (F : FloatOps) (sum : List F.Float → F.Float) where
  is_empty-nil : {A : Type 0} (xs : List A) → is_empty xs ≡ true → xs ≡ []
  is_empty-nil [] h = refl
  is_empty-nil (x ∷ xs) h = cc

  is_empty-map : {A B : Type 0} (f : A → B) (xs : List A) → is_empty (map f xs) ≡ is_empty xs
  is_empty-map f [] = refl
  is_empty-map f (x ∷ xs) = refl

  -- The checks of the class hold.
  abbrev pub IsValid : FamilyForecast F → Type 0
  IsValid f =
      ((if f.abstain then is_valid_abstention F f else is_valid_pool F sum f) ≡ true)
      × All (λ c. is_valid_contribution F c ≡ true) f.contributing

  make_family_forecast_same :
      (f g : FamilyForecast F)
      → make_family_forecast F sum f ≡ ok g
      → (f ≡ g) × ((if f.abstain then is_valid_abstention F f else is_valid_pool F sum f) ≡ true)
  unfolding make_family_forecast
  make_family_forecast_same f g h =
      elim (Bool-cases (if f.abstain then is_valid_abstention F f else is_valid_pool F sum f)) [
        | inl valid ↦ elim (Bool-cases (eq_floats F f.quantile_levels (fixed_quantile_levels F))) [
          | inl levels ↦ (ok-injective (rw (valid, levels) at h), valid)
          | inr other ↦ absurd (cc (rw (valid, other) at h))
        ]
        | inr refused ↦ absurd (cc (rw refused at h))
      ]

  build_contributions_each :
      (total : F.Float) (fs : List (ForecastV2 F)) (out : List (DeskContribution F))
      → build_contributions F total fs ≡ ok out
      → (map (λ c. c.desk_id) out ≡ map (λ f. f.desk_id) fs)
        × All (λ c. is_valid_contribution F c ≡ true) out
  unfolding build_contributions
  build_contributions_each total [] out h = rw (sym (ok-injective h)) (refl, tt)
  build_contributions_each total (f ∷ fs) out h =
      elim (Bool-cases (is_valid_contribution F (contribution_of F total f))) [
        | inl valid ↦
            let (rest, e, last) = >>=-eq-ok (build_contributions F total fs) _ (rw valid at h) in
            let (ids, each) = build_contributions_each total fs rest e in
            rw (sym (ok-injective last)) (ap (λ r. f.desk_id ∷ r) ids, (valid, each))
        | inr refused ↦ absurd (cc (rw refused at h))
      ]

  -- The desks that contribute and those excluded, of forecasts none of which abstains.
  abbrev pub IsPool : List (ForecastV2 F) → FamilyForecast F → Type 0
  IsPool fs f =
      (f.excluded_desk_ids ≡ map (λ x. x.desk_id) (keep (is_excluded F) fs))
      × (map (λ c. c.desk_id) f.contributing
          ≡ map (λ x. x.desk_id) (keep (λ x. not (is_excluded F x)) fs))
      × (f.abstain ≡ is_empty f.contributing)

  module _ (pool : List (F.Float × List F.Float) → Result SynthesisError (List F.Float)) where
    pool_family-IsPool :
        (shared f : FamilyForecast F) (fs : List (ForecastV2 F))
        → shared.abstain ≡ true
        → shared.contributing ≡ []
        → pool_family F sum pool shared fs ≡ ok f
        → IsPool fs f
          × IsValid f
          × (f.abstaining_desk_ids ≡ shared.abstaining_desk_ids)
          × (f.contract_hash ≡ shared.contract_hash)
    unfolding pool_family
    pool_family-IsPool shared f fs abstains nobody h =
        elim (Bool-cases (is_empty (keep (λ x. not (is_excluded F x)) fs))) [
          | inl none_left ↦
              let ids = map (λ x. x.desk_id) (keep (is_excluded F) fs) in
              let (same, valid) =
                make_family_forecast_same (excluded_family F shared ids) f (rw none_left at h) in
              let nobody_left = is_empty-nil (keep (λ x. not (is_excluded F x)) fs) none_left in
              rw (sym same) (
                (
                  refl,
                  ap (map (λ c. c.desk_id)) nobody ∙ sym (ap (map (λ x. x.desk_id)) nobody_left),
                  abstains ∙ sym (ap is_empty nobody),
                ),
                (valid, subst (All (λ c. is_valid_contribution F c ≡ true)) (sym nobody) tt),
                refl,
                refl,
              )
          | inr some_left ↦
              let left = keep (λ x. not (is_excluded F x)) fs in
              let total = sum (map (raw_weight F) left) in
              let (qv, pooled, later) = >>=-eq-ok (pool _) _ (rw some_left at h) in
              let (contributions, built, last) =
                >>=-eq-ok (build_contributions F total left) _ later in
              let ids = map (λ x. x.desk_id) (keep (is_excluded F) fs) in
              let (same, valid) =
                make_family_forecast_same (pooled_family F shared qv contributions ids) f last in
              let (desks, each) = build_contributions_each total left contributions built in
              let someone =
                sym some_left
                ∙ sym (is_empty-map (λ x. x.desk_id) left)
                ∙ sym (ap is_empty desks)
                ∙ is_empty-map (λ c. c.desk_id) contributions in
              subst
                (λ g.
                  IsPool fs g
                  × IsValid g
                  × (g.abstaining_desk_ids ≡ shared.abstaining_desk_ids)
                  × (g.contract_hash ≡ shared.contract_hash))
                same ((refl, desks, someone), (valid, each), refl, refl)
        ]

    -- How the family forecast follows from the forecasts: some desk abstains and with it the family,
    -- without contributions or exclusions, or none does and the desks are pooled.
    abbrev pub IsSynthesis : List (ForecastV2 F) → FamilyForecast F → Type 0
    IsSynthesis fs f =
        (f.abstaining_desk_ids ≡ map (λ x. x.desk_id) (keep (λ x. x.abstain) fs))
        × (((is_empty f.abstaining_desk_ids ≡ false)
              × (f.abstain ≡ true)
              × (f.contributing ≡ [])
              × (f.excluded_desk_ids ≡ []))
            ⊎ ((f.abstaining_desk_ids ≡ []) × IsPool fs f))

    synthesise_stages-IsSynthesis :
        (shared f : FamilyForecast F) (fs : List (ForecastV2 F))
        → shared.abstain ≡ true
        → shared.contributing ≡ []
        → shared.excluded_desk_ids ≡ []
        → shared.abstaining_desk_ids ≡ []
        → synthesise_stages F sum pool shared fs ≡ ok f
        → IsSynthesis fs f × IsValid f × (f.contract_hash ≡ shared.contract_hash)
    unfolding synthesise_stages
    synthesise_stages-IsSynthesis shared f fs abstains nobody none_excluded none_abstains h =
        let ids = map (λ x. x.desk_id) (keep (λ x. x.abstain) fs) in
        elim (Bool-cases (is_empty ids)) [
          | inl all_in ↦
              let (pooled, valid, listed, hash) =
                pool_family-IsPool shared f fs abstains nobody (rw all_in at h) in
              let empty = listed ∙ none_abstains in
              ((empty ∙ sym (is_empty-nil ids all_in), inr (empty, pooled)), valid, hash)
          | inr some_out ↦
              let (same, valid) =
                make_family_forecast_same (cascade_family F shared ids) f (rw some_out at h) in
              rw (sym same) (
                (refl, inl (some_out, abstains, nobody, none_excluded)),
                (valid, subst (All (λ c. is_valid_contribution F c ≡ true)) (sym nobody) tt),
                refl,
              )
        ]

    -- Where the call returns a family forecast: the desks that it lists as abstaining are those that
    -- abstain. If there is one, the family abstains, without contributions or exclusions. If there is
    -- none, the excluded desks are those whose weight is at most 0.0, the contributions are of all
    -- others, in their order, and the family abstains exactly if no desk is left. The checks of the
    -- classes hold, the weights in [0, 1] among them, and the contract is the one given.
    pub synthesise_family-IsSynthesis :
        (fs : List (ForecastV2 F)) (regime_posterior : Option (List (String × F.Float)))
        (contract_hash release_calendar_version : String) (f : FamilyForecast F)
        → synthesise_family F sum pool fs regime_posterior contract_hash release_calendar_version
          ≡ ok f
        → IsSynthesis fs f × IsValid f × (f.contract_hash ≡ contract_hash)
    unfolding synthesise_family
    synthesise_family-IsSynthesis [] rp hash version f h = cc
    synthesise_family-IsSynthesis (ref ∷ rest) rp hash version f h =
        let (compatible, h1) = >>-eq-ok (assert_compatible F (ref ∷ rest)) _ h in
        let (same_hash, h2) =
          >>-eq-ok (raise_if (not (str_eq hash ref.contract_hash)) family_input_mismatch) _ h1 in
        let (same_version, h3) =
          >>-eq-ok
            (raise_if (not (str_eq version ref.release_calendar_version)) family_input_mismatch) _
            h2 in
        let (checked, h4) = >>-eq-ok (check_posterior F sum (posterior_or_normal F rp)) _ h3 in
        synthesise_stages-IsSynthesis
          (family_forecast_like F ref (posterior_or_normal F rp) hash version) f (ref ∷ rest) refl
          refl refl refl h4
