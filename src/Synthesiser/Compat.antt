-- ===== src/Synthesiser/Compat.antt =====
-- The forecasts that `assert_compatible` accepts.
use text.Mathlib.TextEquality.{eq_iff}
use multi_desk_trading.Common.{
  ℕ, zero, suc, ==_iff, true, ◌&&◌, ◌≡◌, ◌≢◌, ◌↔◌, refl, sym, ap, ◌∙◌, inl, inr, List, [], ◌∷◌,
  arith, Bool-cases, ok,
}
use mathlib.Core.List.{Memᴰ}
use multi_desk_trading.Common.Int.{ℤ, leb_ℤ, eq_of_parts}
use multi_desk_trading.Common.Float.{FloatOps, FloatLaws}
use multi_desk_trading.Contracts.{
  DecisionUnit, log_return, spread_change, vol_point_change, utility, unit_index, same_unit,
  ForecastV2, eq_floats, fixed_quantile_levels,
}
use multi_desk_trading.Synthesiser.{agrees, all_agree, assert_compatible}

unit_at : ℕ → DecisionUnit
unit_at zero = log_return
unit_at (suc zero) = spread_change
unit_at (suc (suc zero)) = vol_point_change
unit_at (suc (suc (suc n))) = utility

unit_at-unit_index : (u : DecisionUnit) → unit_at (unit_index u) ≡ u
unfolding unit_at
unit_at-unit_index log_return = refl
unit_at-unit_index spread_change = refl
unit_at-unit_index vol_point_change = refl
unit_at-unit_index utility = refl

same_unit_iff : (u v : DecisionUnit) → (same_unit u v ≡ true) ↔ (u ≡ v)
same_unit_iff u v = (
  λ h.
      sym (unit_at-unit_index u)
      ∙ ap unit_at ((==_iff (unit_index u) (unit_index v)).0 h)
      ∙ unit_at-unit_index v,
  λ e. (==_iff (unit_index u) (unit_index v)).1 (ap unit_index e),
)

leb_equal : (a b : ℤ) → a ≡ b → (leb_ℤ a b && leb_ℤ b a) ≡ true
leb_equal a b e = rw e (ground arith)

module _ (F : FloatOps) where
  -- Two forecasts on the same question, under the same contract and calendar.
  pub record SameFamily (f g : ForecastV2 F) : Type 0 where
    pub family_id : f.family_id ≡ g.family_id
    pub target_variable : f.target_variable ≡ g.target_variable
    pub target_horizon : f.target_horizon ≡ g.target_horizon
    pub decision_unit : f.decision_unit ≡ g.decision_unit
    pub decision_ts : f.decision_ts ≡ g.decision_ts
    pub contract_hash : f.contract_hash ≡ g.contract_hash
    pub release_calendar_version : f.release_calendar_version ≡ g.release_calendar_version

  agrees-SameFamily :
      (ref f : ForecastV2 F)
      → agrees F ref f ≡ true
      → SameFamily f ref × (eq_floats F f.quantile_levels ref.quantile_levels ≡ true)
  agrees-SameFamily ref f h = (
    record {
      family_id = (eq_iff f.family_id ref.family_id).0 (ground (arith, h));
      target_variable = (eq_iff f.target_variable ref.target_variable).0 (ground (arith, h));
      target_horizon = (eq_iff f.target_horizon ref.target_horizon).0 (ground (arith, h));
      decision_unit = (same_unit_iff f.decision_unit ref.decision_unit).0 (ground (arith, h));
      decision_ts = eq_of_parts f.decision_ts ref.decision_ts (ground (arith, h));
      contract_hash = (eq_iff f.contract_hash ref.contract_hash).0 (ground (arith, h));
      release_calendar_version =
          (eq_iff f.release_calendar_version ref.release_calendar_version).0 (ground (arith, h));
    },
    ground (arith, h),
  )

  SameFamily-sym : (f g : ForecastV2 F) → SameFamily f g → SameFamily g f
  SameFamily-sym f g s = record {
    family_id = sym s.family_id;
    target_variable = sym s.target_variable;
    target_horizon = sym s.target_horizon;
    decision_unit = sym s.decision_unit;
    decision_ts = sym s.decision_ts;
    contract_hash = sym s.contract_hash;
    release_calendar_version = sym s.release_calendar_version;
  }

  SameFamily-trans : (f g h : ForecastV2 F) → SameFamily f g → SameFamily g h → SameFamily f h
  SameFamily-trans f g h s t = record {
    family_id = s.family_id ∙ t.family_id;
    target_variable = s.target_variable ∙ t.target_variable;
    target_horizon = s.target_horizon ∙ t.target_horizon;
    decision_unit = s.decision_unit ∙ t.decision_unit;
    decision_ts = s.decision_ts ∙ t.decision_ts;
    contract_hash = s.contract_hash ∙ t.contract_hash;
    release_calendar_version = s.release_calendar_version ∙ t.release_calendar_version;
  }

  SameFamily-agrees :
      (ref f : ForecastV2 F)
      → SameFamily f ref
      → eq_floats F f.quantile_levels ref.quantile_levels ≡ true
      → agrees F ref f ≡ true
  SameFamily-agrees ref f s levels = ground (
    arith,
    levels,
    (eq_iff f.family_id ref.family_id).1 s.family_id,
    (eq_iff f.target_variable ref.target_variable).1 s.target_variable,
    (eq_iff f.target_horizon ref.target_horizon).1 s.target_horizon,
    (same_unit_iff f.decision_unit ref.decision_unit).1 s.decision_unit,
    leb_equal f.decision_ts ref.decision_ts s.decision_ts,
    (eq_iff f.contract_hash ref.contract_hash).1 s.contract_hash,
    (eq_iff f.release_calendar_version ref.release_calendar_version).1 s.release_calendar_version,
  )

  module _ (L : FloatLaws F) where
    open L use {leb_trans}

    eq_floats_sym : (a b : List F.Float) → eq_floats F a b ≡ true → eq_floats F b a ≡ true
    eq_floats_sym [] [] h = refl
    eq_floats_sym [] (b ∷ ys) h = cc
    eq_floats_sym (a ∷ xs) [] h = cc
    eq_floats_sym (a ∷ xs) (b ∷ ys) h = ground (arith, eq_floats_sym xs ys)

    eq_floats_trans :
        (a b c : List F.Float)
        → eq_floats F a b ≡ true
        → eq_floats F b c ≡ true
        → eq_floats F a c ≡ true
    eq_floats_trans [] [] c h k = k
    eq_floats_trans [] (b ∷ ys) c h k = cc
    eq_floats_trans (a ∷ xs) [] c h k = cc
    eq_floats_trans (a ∷ xs) (b ∷ ys) [] h k = cc
    eq_floats_trans (a ∷ xs) (b ∷ ys) (c ∷ zs) h k =
        ground (arith, leb_trans a b c, leb_trans c b a, eq_floats_trans xs ys zs)

    -- Whether the forecasts are a family: there is one, all are on the same question, and all are on
    -- the fixed levels.
    abbrev pub IsFamily : List (ForecastV2 F) → Type 0
    IsFamily fs =
        (fs ≢ [])
        × ((f g : ForecastV2 F) → Memᴰ f fs → Memᴰ g fs → SameFamily f g)
        × ((f : ForecastV2 F)
            → Memᴰ f fs
            → eq_floats F f.quantile_levels (fixed_quantile_levels F) ≡ true)

    all_agree-member :
        (ref f : ForecastV2 F) (fs : List (ForecastV2 F))
        → all_agree F ref fs ≡ true
        → Memᴰ f fs
        → agrees F ref f ≡ true
    all_agree-member ref f [] h m = elim m [ ]
    all_agree-member ref f (g ∷ gs) h (Memᴰ.head e) = rw e (ground (arith, h))
    all_agree-member ref f (g ∷ gs) h (Memᴰ.tail m) =
        all_agree-member ref f gs (ground (arith, h)) m

    member-all_agree :
        (ref : ForecastV2 F) (fs : List (ForecastV2 F))
        → ((f : ForecastV2 F) → Memᴰ f fs → agrees F ref f ≡ true)
        → all_agree F ref fs ≡ true
    member-all_agree ref [] h = refl
    member-all_agree ref (f ∷ fs) h =
        ground (arith, h f (Memᴰ.head refl), member-all_agree ref fs (λ g m. h g (Memᴰ.tail m)))

    accepted_parts :
        (ref : ForecastV2 F) (rest : List (ForecastV2 F))
        → assert_compatible F (ref ∷ rest) ≡ ok tt
        → (all_agree F ref rest ≡ true)
          × (eq_floats F ref.quantile_levels (fixed_quantile_levels F) ≡ true)
    unfolding assert_compatible
    accepted_parts ref rest h = elim (Bool-cases (all_agree F ref rest)) [
      | inl agree ↦ elim (Bool-cases (eq_floats F ref.quantile_levels (fixed_quantile_levels F))) [
        | inl levels ↦ (agree, levels)
        | inr other ↦ absurd (cc (rw (agree, other) at h))
      ]
      | inr differ ↦ absurd (cc (rw differ at h))
    ]

    -- Each accepted forecast against the first.
    accepted_member :
        (ref f : ForecastV2 F) (rest : List (ForecastV2 F))
        → assert_compatible F (ref ∷ rest) ≡ ok tt
        → Memᴰ f (ref ∷ rest)
        → SameFamily f ref × (eq_floats F f.quantile_levels (fixed_quantile_levels F) ≡ true)
    accepted_member ref f rest h (Memᴰ.head e) = (
      record {
        family_id = ap (λ x. x.family_id) e;
        target_variable = ap (λ x. x.target_variable) e;
        target_horizon = ap (λ x. x.target_horizon) e;
        decision_unit = ap (λ x. x.decision_unit) e;
        decision_ts = ap (λ x. x.decision_ts) e;
        contract_hash = ap (λ x. x.contract_hash) e;
        release_calendar_version = ap (λ x. x.release_calendar_version) e;
      },
      rw e ((accepted_parts ref rest h).1),
    )
    accepted_member ref f rest h (Memᴰ.tail m) =
        let (agree, levels) = accepted_parts ref rest h in
        let (same, own) = agrees-SameFamily ref f (all_agree-member ref f rest agree m) in
        (
          same,
          eq_floats_trans f.quantile_levels ref.quantile_levels (fixed_quantile_levels F) own
              levels,
        )

    -- The call accepts a list exactly when it is not empty, any two of its forecasts have the same
    -- family, target, horizon, unit, decision time, contract and calendar, and the levels of each
    -- are the fixed ones.
    pub assert_compatible-IsFamily :
        (fs : List (ForecastV2 F)) → (assert_compatible F fs ≡ ok tt) ↔ IsFamily fs
    unfolding assert_compatible
    assert_compatible-IsFamily [] = (λ e. cc, λ family. absurd (family.0 refl))
    assert_compatible-IsFamily (ref ∷ rest) = (
      λ h. (
        (λ e. cc),
        (λ f g m n.
            SameFamily-trans f ref g ((accepted_member ref f rest h m).0)
              (SameFamily-sym g ref ((accepted_member ref g rest h n).0))),
        (λ f m. (accepted_member ref f rest h m).1),
      ),
      λ family.
          let levels = family.2 ref (Memᴰ.head refl) in
          let agree = member-all_agree ref rest (λ f m.
            SameFamily-agrees ref f (family.1 f ref (Memᴰ.tail m) (Memᴰ.head refl)) (
              eq_floats_trans f.quantile_levels (fixed_quantile_levels F) ref.quantile_levels
                (family.2 f (Memᴰ.tail m))
                (eq_floats_sym ref.quantile_levels (fixed_quantile_levels F) levels))) in
          rw (agree, levels),
    )
