-- ===== src/Report/Examples.antt =====
-- A diff of one file with one added line, and candidates about it.
use diffuse.Prelude.{
  ℕ, ◌+◌, ◌≤◌, ◌≡◌, ◌↔◌, ◌⊎◌, refl, true, false, ◌&&◌, none, some, List, [], ◌∷◌, Text, codes, All,
  IsOrdered, length, leb, ltb,
}
use diffuse.Policy.{Confidence, ReviewPolicy}
use diffuse.Policy.Layers.{resolve_path, review_pass_names}
use diffuse.Policy.Query.{allows_path}
use diffuse.Diff.{DiffFile, start, entry, plus, right_side}
use diffuse.Diff.Lookup.{is_commentable}
use diffuse.Report.{
  CandidateFinding, VerificationDecision, ReviewFinding, security, correctness, high, medium, low,
}
use diffuse.Report.Candidates.{ordered_candidates, deduplicate_candidates}
use diffuse.Report.Candidates.Publishable.{
  IsPublishable, NoLess, deduplicate_candidates-IsPublishable,
}
use diffuse.Report.Verified.{verified_findings}
use diffuse.Report.Verified.Limits.{IsVerified, NoLessSevere, verified_findings-IsVerified}
use diffuse.Report.Score.{
  RiskScale, is_risk_score, is_zero_risk, review_confidence_score, risk_floor,
}
use diffuse.Report.Score.Bounds.{
  is_critical, is_high, is_medium, risk_floor-worst, review_confidence_score-full,
  review_confidence_score-falls,
}
use diffuse.Report.Files.{reviewable_diff}
use diffuse.Report.Files.Selection.{reviewable_diff-is_commentable}
use diffuse.Prelude.{leb→le, arith, any, is_empty, not, if◌then◌else◌}

instance hundredths : Confidence ℕ
hundredths = record { lt = ltb; certain = 100; default_preventative = 90 }

-- Risk scores in tenths.
instance tenths : RiskScale ℕ
tenths = record {
  at_most = leb;
  zero_risk = 0;
  two_and_half = 25;
  five = 50;
  seven_and_half = 75;
  ten = 100;
}

abbrev policy : ReviewPolicy ℕ
policy = record {
  paths =
      resolve_path record { layers = []; documents = [] } review_pass_names 75 (codes "a.py") ∷ [];
  learned_rules = [];
  custom_contexts = [];
}

abbrev files : List DiffFile
files =
    record {
      raw_text = [];
      parsed = record start {
        new_path = some (codes "a.py");
        entries = entry plus (codes "x") none (some 3) ∷ [];
        right_lines = 3 ∷ [];
      };
    }
    ∷ []

abbrev found : CandidateFinding ℕ
found = record {
  title = codes "t";
  body = codes "b";
  severity = low;
  category = correctness;
  security_classification = none;
  confidence = 80;
  file_path = codes "a.py";
  line = 3;
  side = right_side;
  evidence = codes "e";
  suggested_fix = none;
}

-- one on an unchanged line, one of the same key as `found`, and one more severe
abbrev candidates : List (CandidateFinding ℕ)
candidates =
    found
    ∷ record found { line = 4 }
    ∷ record found { confidence = 90 }
    ∷ record found { category = security; severity = high }
    ∷ []

deduplicate_candidates-IsPublishable_example :
    (length (deduplicate_candidates (some policy) files candidates) ≤ 80)
    × All
        (IsPublishable (some policy) files)
        (deduplicate_candidates (some policy) files candidates)
    × IsOrdered NoLess (ordered_candidates (some policy) files candidates)
deduplicate_candidates-IsPublishable_example =
    deduplicate_candidates-IsPublishable (some policy) files candidates

two_are_kept : length (deduplicate_candidates (some policy) files candidates) ≡ 2
unfolding deduplicate_candidates allows_path resolve_path is_commentable hundredths
two_are_kept = refl

abbrev as_it_is : Text → Text
as_it_is t = t

abbrev digit : ℕ → Text
digit n = (48 + n) ∷ []

abbrev kept : VerificationDecision ℕ
kept = record {
  keep = true;
  confidence = 85;
  revised_title = none;
  revised_body = some [];
  revised_suggested_fix = none;
  revised_severity = some medium;
}

abbrev decisions : List (ℕ × VerificationDecision ℕ)
decisions = (0, kept) ∷ (2, kept) ∷ []

verified_findings-IsVerified_example :
    (length
        (verified_findings as_it_is as_it_is digit 75 (some policy) decisions (2 ∷ []) candidates)
      ≤ 25)
    × All
        (IsVerified as_it_is as_it_is digit 75 (some policy) decisions (2 ∷ []) candidates)
        (verified_findings as_it_is as_it_is digit 75 (some policy) decisions (2 ∷ []) candidates)
    × IsOrdered NoLessSevere
        (verified_findings as_it_is as_it_is digit 75 (some policy) decisions (2 ∷ []) candidates)
verified_findings-IsVerified_example =
    verified_findings-IsVerified as_it_is as_it_is digit 75 (some policy) decisions (2 ∷ [])
      candidates

one_is_published :
    length (verified_findings as_it_is as_it_is digit 75 none decisions (2 ∷ []) candidates) ≡ 1
unfolding verified_findings hundredths
one_is_published = refl

abbrev published : List (ReviewFinding ℕ)
published = verified_findings as_it_is as_it_is digit 75 none decisions [] candidates

risk_floor-worst_example : risk_floor published ≡ (
    if any (λ f. is_critical f.severity) published
    then 9
    else if any (λ f. is_high f.severity) published
    then 7
    else if any (λ f. is_medium f.severity) published
    then 4
    else if not (is_empty published)
    then 2
    else 0)
risk_floor-worst_example = risk_floor-worst published

review_confidence_score-full_example :
    ((review_confidence_score {R = ℕ} 0 2 4 4 0 ≡ none) × (is_risk_score {R = ℕ} 0 ≡ false))
    ⊎ ((score : ℕ) × (review_confidence_score {R = ℕ} 0 2 4 4 0 ≡ some score)
        × (is_risk_score {R = ℕ} 0 ≡ true)
        × (score ≤ 5)
        × ((score ≡ 5) ↔ ((is_zero_risk {R = ℕ} 0 ≡ true) × (2 ≤ 2) × (4 ≤ 4) × (◌≡◌ {A = ℕ} 0 0))))
review_confidence_score-full_example = review_confidence_score-full {R = ℕ} 0 2 4 4 0

leb_trans : (a b d : ℕ) → leb a b ≡ true → leb b d ≡ true → leb a d ≡ true
leb_trans a b d h g = ground arith

review_confidence_score-falls_example : 1 ≤ 4
unfolding review_confidence_score tenths
review_confidence_score-falls_example =
    review_confidence_score-falls leb_trans 20 40 0 12 4 4 0 4 1 refl refl refl (leb→le 0 12 refl)

reviewable_diff-is_commentable_example :
    (length (reviewable_diff (some policy) files).0 + (reviewable_diff (some policy) files).1
      ≡ length files)
    × (is_commentable (reviewable_diff (some policy) files).0 (codes "a.py") right_side 3
        ≡ (allows_path policy (codes "a.py") && is_commentable files (codes "a.py") right_side 3))
reviewable_diff-is_commentable_example =
    reviewable_diff-is_commentable policy files (codes "a.py") right_side 3
