-- ===== src/Report/Score/Bounds.antt =====
-- The range of the confidence score, when it is full, and how it falls.
use diffuse.Prelude.{
  ℕ, ◌≤◌, ◌≡◌, ◌↔◌, ◌⊎◌, refl, inl, inr, max, Bool, true, false, not, ◌&&◌, none, some, List, [],
  ◌∷◌, any, is_empty, ◌||◌, arith, Bool-cases, and_left, if◌then◌else◌,
}
use diffuse.Report.{ReviewFinding, Severity, critical, high, medium, low}
use diffuse.Report.Order.{blocked}
use diffuse.Report.Score.{
  severity_risk_floor, risk_floor, RiskScale, is_risk_score, is_zero_risk, risk_band, cap_findings,
  cap_missed, cap_ignored, cap_unreviewed, review_confidence_score,
}

abbrev pub is_critical : Severity → Bool
is_critical critical = true
is_critical _ = false

abbrev pub is_high : Severity → Bool
is_high high = true
is_high _ = false

abbrev pub is_medium : Severity → Bool
is_medium medium = true
is_medium _ = false

floor_of_worst : Bool → Bool → Bool → Bool → ℕ
floor_of_worst some_critical some_high some_medium some_finding =
    if some_critical
    then 9
    else if some_high
    then 7
    else if some_medium
    then 4
    else if some_finding
    then 2
    else 0

worst_first :
    (s : Severity) (c h m f : Bool)
    → max (severity_risk_floor s) (floor_of_worst c h m f)
      ≡ floor_of_worst (is_critical s || c) (is_high s || h) (is_medium s || m) true
unfolding floor_of_worst
worst_first critical c h m f = ground arith
worst_first high c h m f = ground arith
worst_first medium c h m f = ground arith
worst_first low c h m f = ground arith

-- The risk floor is 9 if some finding is critical; otherwise 7 if some finding is high; otherwise 4 if
-- some finding is medium; otherwise 2 if there is a finding at all; and 0 if there is none.
pub risk_floor-worst :
    {C : Type 0} (fs : List (ReviewFinding C))
    → risk_floor fs ≡ (
        if any (λ f. is_critical f.severity) fs
        then 9
        else if any (λ f. is_high f.severity) fs
        then 7
        else if any (λ f. is_medium f.severity) fs
        then 4
        else if not (is_empty fs)
        then 2
        else 0)
unfolding risk_floor floor_of_worst
risk_floor-worst [] = refl
risk_floor-worst (f ∷ fs) =
    rw (risk_floor-worst fs) (worst_first f.severity _ _ _ (not (is_empty fs)))

-- The caps as one function of what the band gives.
unfoldable capped : ℕ → ℕ → ℕ → ℕ → ℕ → ℕ
capped findings files reviewed ignored score =
    cap_unreviewed files reviewed
      (cap_ignored ignored (cap_missed files reviewed ignored (cap_findings findings score)))

capped-full :
    (findings files reviewed ignored score : ℕ)
    → score ≤ 5
    → (capped findings files reviewed ignored score ≡ 5)
      ↔ ((score ≡ 5) × (findings ≤ 2) × (files ≤ reviewed) × (ignored ≡ 0))
unfolding capped cap_findings cap_missed cap_ignored cap_unreviewed
capped-full findings files reviewed ignored score h = ground arith

capped_at_most :
    (findings files reviewed ignored score : ℕ)
    → score ≤ 5
    → capped findings files reviewed ignored score ≤ 5
unfolding capped cap_findings cap_missed cap_ignored cap_unreviewed
capped_at_most findings files reviewed ignored score h = ground arith

full_or_not : {A B D F G E : Type 0} → A ↔ B → E ↔ (A × D × F × G) → E ↔ (B × D × F × G)
full_or_not f g =
    (λ e. (f.0 (g.0 e).0, (g.0 e).1, (g.0 e).2, (g.0 e).3), λ h. g.1 (f.1 h.0, h.1, h.2, h.3))

capped-falls :
    (findings more files reviewed ignored score less : ℕ)
    → findings ≤ more
    → less ≤ score
    → capped more files reviewed ignored less ≤ capped findings files reviewed ignored score
unfolding capped cap_findings cap_missed cap_ignored cap_unreviewed
capped-falls findings more files reviewed ignored score less f s = ground arith

both : (a b : Bool) → a ≡ true → b ≡ true → (a && b) ≡ true
both a b h g = ground arith

granted : (b : Bool) → not b ≡ false → b ≡ true
granted b h = ground arith

subst2_le : {a b c d : ℕ} → a ≡ c → b ≡ d → a ≤ b → c ≤ d
subst2_le e f h = omega arith

abbrev band : Bool → Bool → Bool → Bool → Bool → ℕ
band z a b c t =
    if z then 5 else if a then 4 else if b then 3 else if c then 2 else if not t then 1 else 0

-- The bands fall, where each test of the second risk that holds also holds of the first.
bands :
    (z z' a a' b b' c c' t t' : Bool)
    → (z' ≡ true → z ≡ true)
    → (a' ≡ true → a ≡ true)
    → (b' ≡ true → b ≡ true)
    → (c' ≡ true → c ≡ true)
    → (t ≡ true → t' ≡ true)
    → band z' a' b' c' t' ≤ band z a b c t
bands z z' a a' b b' c c' t t' f g h i j = ground arith

module _ {R : Type 0} ⦃k : RiskScale R⦄ where
  band_at_most : (r : R) → risk_band r ≤ 5
  unfolding risk_band
  band_at_most r = ground arith

  band_full : (r : R) → (risk_band r ≡ 5) ↔ (is_zero_risk r ≡ true)
  unfolding risk_band
  band_full r = ground arith

  -- A score is given exactly for a risk score between 0 and 10. It is at most 5, and 5 exactly if the
  -- risk is 0, there are at most two findings, at least as many files were reviewed as the diff has,
  -- and none is ignored.
  pub review_confidence_score-full :
      (risk : R) (findings files reviewed ignored : ℕ)
      → ((review_confidence_score risk findings files reviewed ignored ≡ none)
          × (is_risk_score risk ≡ false))
        ⊎ ((score : ℕ) × (review_confidence_score risk findings files reviewed ignored ≡ some score)
            × (is_risk_score risk ≡ true)
            × (score ≤ 5)
            × ((score ≡ 5) ↔ (
                (is_zero_risk risk ≡ true) × (findings ≤ 2) × (files ≤ reviewed) × (ignored ≡ 0))))
  unfolding review_confidence_score capped
  review_confidence_score-full risk findings files reviewed ignored =
      elim (Bool-cases (is_risk_score risk)) [
        | inl t ↦ inr (
          capped findings files reviewed ignored (risk_band risk),
          rw t refl,
          t,
          capped_at_most findings files reviewed ignored (risk_band risk) (band_at_most risk),
          full_or_not (band_full risk)
              (capped-full findings files reviewed ignored (risk_band risk) (band_at_most risk)),
        )
        | inr t ↦ inl (rw t refl, t)
      ]

  module _
      (trans : (a b d : R)
        → k.at_most a b ≡ true
        → k.at_most b d ≡ true
        → k.at_most a d ≡ true) where
    band-falls :
        (r more : R)
        → is_risk_score r ≡ true
        → k.at_most r more ≡ true
        → risk_band more ≤ risk_band r
    unfolding risk_band
    band-falls r more s h =
        bands _ _ _ _ _ _ _ _ _ _
          (λ z. both _ _ (trans r more k.zero_risk h (and_left _ _ z)) (and_left _ _ s))
          (trans r more k.two_and_half h) (trans r more k.five h) (trans r more k.seven_and_half h)
          (λ t. trans k.ten r more t h)

    -- More findings or a higher risk never raise the score, if the risks are compared transitively.
    pub review_confidence_score-falls :
        (risk higher : R) (findings more files reviewed ignored before after : ℕ)
        → review_confidence_score risk findings files reviewed ignored ≡ some before
        → review_confidence_score higher more files reviewed ignored ≡ some after
        → k.at_most risk higher ≡ true
        → findings ≤ more
        → after ≤ before
    unfolding review_confidence_score capped
    review_confidence_score-falls risk higher findings more files reviewed ignored before after e f
          h m =
        let (s, b) = blocked (not (is_risk_score risk)) e in
        let (_, a) = blocked (not (is_risk_score higher)) f in
        subst2_le a b (
          capped-falls findings more files reviewed ignored (risk_band risk) (risk_band higher) m
            (band-falls risk higher (granted _ s) h))
