-- ===== src/Report/Score.antt =====
-- The risk floor, the confidence score and the test for a diagram.
pub mod Bounds
use diffuse.Prelude.{
  ℕ, ◌+◌, min, max, Bool, true, false, not, ◌&&◌, ◌||◌, Option, none, some, List, [], ◌∷◌, map,
  length, filter, leb, ltb, ◌==◌, if◌then◌else◌,
}
use diffuse.Diff.{DiffFile, DiffEntry, plus, minus}
use diffuse.Report.{Severity, critical, high, medium, low, ReviewFinding}

-- `SEVERITY_RISK_FLOOR`, whose numbers are whole
abbrev pub severity_risk_floor : Severity → ℕ
severity_risk_floor critical = 9
severity_risk_floor high = 7
severity_risk_floor medium = 4
severity_risk_floor low = 2

-- `risk_floor`
pub risk_floor : {C : Type 0} → List (ReviewFinding C) → ℕ
risk_floor [] = 0
risk_floor (f ∷ fs) = max (severity_risk_floor f.severity) (risk_floor fs)

abbrev pub is_changed : DiffEntry → Bool
is_changed e = e.marker == plus || e.marker == minus

abbrev pub changed_lines : List DiffFile → ℕ
changed_lines [] = 0
changed_lines (f ∷ fs) = length (filter is_changed f.parsed.entries) + changed_lines fs

-- `diagram_would_help`
unfoldable pub diagram_would_help : List DiffFile → Bool
diagram_would_help files =
    leb 40 (changed_lines files) || (leb 2 (length files) && leb 12 (changed_lines files))

-- The floating-point risk scores, as far as they are compared: `<=` and the bounds of the bands.
pub record RiskScale (R : Type 0) : Type 0 where
  pub at_most : R → R → Bool
  pub zero_risk : R
  pub two_and_half : R
  pub five : R
  pub seven_and_half : R
  pub ten : R

module _ {R : Type 0} ⦃k : RiskScale R⦄ where
  abbrev pub is_risk_score : R → Bool
  is_risk_score r = k.at_most k.zero_risk r && k.at_most r k.ten

  abbrev pub is_zero_risk : R → Bool
  is_zero_risk r = k.at_most r k.zero_risk && k.at_most k.zero_risk r

  -- The score that the risk alone gives.
  unfoldable pub risk_band : R → ℕ
  risk_band r =
      if is_zero_risk r
      then 5
      else if k.at_most r k.two_and_half
      then 4
      else if k.at_most r k.five
      then 3
      else if k.at_most r k.seven_and_half
      then 2
      else if not (k.at_most k.ten r)
      then 1
      else 0

-- The caps on it: by the findings, by files that were missed, by files that are ignored.
unfoldable pub cap_findings : ℕ → ℕ → ℕ
cap_findings findings score =
    if leb 10 findings
    then min score 1
    else if leb 6 findings
    then min score 2
    else if leb 3 findings
    then min score 3
    else score

unfoldable pub cap_missed : ℕ → ℕ → ℕ → ℕ → ℕ
cap_missed files reviewed ignored score =
    if not (files == 0) && ltb (reviewed + ignored) files then min score 2 else score

unfoldable pub cap_ignored : ℕ → ℕ → ℕ
cap_ignored ignored score = if not (ignored == 0) then min score 4 else score

unfoldable pub cap_unreviewed : ℕ → ℕ → ℕ → ℕ
cap_unreviewed files reviewed score = if not (files == 0) && reviewed == 0 then 0 else score

-- `review_confidence_score`, for counts that are lengths; `none` where it raises.
unfoldable pub review_confidence_score :
    {R : Type 0} ⦃k : RiskScale R⦄ → R → ℕ → ℕ → ℕ → ℕ → Option ℕ
unfolding risk_band cap_findings cap_missed cap_ignored cap_unreviewed
review_confidence_score risk findings files reviewed ignored =
    if not (is_risk_score risk)
    then none
    else some (
        cap_unreviewed files reviewed (
          cap_ignored ignored
            (cap_missed files reviewed ignored (cap_findings findings (risk_band risk)))))
