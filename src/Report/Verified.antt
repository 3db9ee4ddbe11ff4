-- ===== src/Report/Verified.antt =====
-- `verified_findings`: which candidates the decisions of the verifier turn into findings.
pub mod Limits
use diffuse.Prelude.{
  ℕ, zero, suc, ◌+◌, Bool, true, false, not, ◌&&◌, ◌||◌, Option, none, some, List, [], ◌∷◌, Text,
  codes, join, elem, sort_by, is_empty, ◌==◌, if◌then◌else◌,
}
use diffuse.Policy.{Confidence, lesser, ReviewPolicy}
use diffuse.Policy.Query.{allows_severity, threshold_for, preventative_security_threshold_for}
use diffuse.Diff.{Side, left_side, right_side}
use diffuse.Report.{
  Severity, severity_value, is_critical_or_high, category_value, is_preventative,
  classification_value, CandidateFinding, VerificationDecision, ReviewFinding, Rank, rank_precedes,
}
use diffuse.Report.Candidates.{allowed_by}

abbrev pub side_value : Side → Text
side_value left_side = codes "LEFT"
side_value right_side = codes "RIGHT"

-- `revised or original`
abbrev pub text_or : Option Text → Text → Text
text_or none original = original
text_or (some revised) original = if is_empty revised then original else revised

abbrev pub given_or {ℓ} : {A : Type ℓ} → Option A → A → A
given_or none original = original
given_or (some revised) original = revised

-- `decisions.get(candidate_id)`
abbrev pub decision_at : {D : Type 0} → ℕ → List (ℕ × D) → Option D
decision_at index [] = none
decision_at index ((i, d) ∷ ds) =
    let later = decision_at index ds in if i == index then some d else later

-- `digest` is the SHA-256 digest in hexadecimal digits, `show` the decimal text of a number.
module _ (digest casefold : Text → Text) (show : ℕ → Text) where
  -- `fingerprint`
  unfoldable pub fingerprint_of : {C : Type 0} → CandidateFinding C → Text → Text
  fingerprint_of f title = digest (
      join (0 ∷ []) (
        f.file_path
        ∷ side_value f.side
        ∷ show f.line
        ∷ category_value f.category
        ∷ classification_value (codes "none") f.security_classification
        ∷ casefold title
        ∷ []))

  -- `minimum` is the `minimum_review_confidence()` of the environment.
  module _ {C : Type 0} ⦃c : Confidence C⦄ (minimum : C) (policy : Option (ReviewPolicy C)) where
    abbrev pub policy_threshold : ReviewPolicy C → CandidateFinding C → C
    policy_threshold p f =
        if is_preventative f.security_classification
        then preventative_security_threshold_for p f.file_path
        else threshold_for p f.file_path

    abbrev pub threshold : CandidateFinding C → C
    threshold f = elim policy [ none ↦ minimum | some p ↦ policy_threshold p f ]

    abbrev pub final_severity : CandidateFinding C → VerificationDecision C → Severity
    final_severity f d = given_or d.revised_severity f.severity

    abbrev pub final_suggested_fix : CandidateFinding C → VerificationDecision C → Option Text
    final_suggested_fix f d = elim d.revised_suggested_fix [
      | none ↦ f.suggested_fix
      | some revised ↦ some revised
    ]

    -- The severity of a finding is not too high for a preventative one, and high enough.
    abbrev pub has_allowed_severity : CandidateFinding C → Severity → Bool
    has_allowed_severity f severity =
        not (is_preventative f.security_classification && is_critical_or_high severity)
        && allowed_by (λ p. allows_severity p f.file_path (severity_value severity)) policy

    abbrev pub review_finding : CandidateFinding C → VerificationDecision C → ReviewFinding C
    review_finding f d =
        let title = text_or d.revised_title f.title in
        record {
          fingerprint = fingerprint_of f title;
          title = title;
          body = text_or d.revised_body f.body;
          severity = final_severity f d;
          category = f.category;
          security_classification = f.security_classification;
          confidence = lesser f.confidence d.confidence;
          file_path = f.file_path;
          line = f.line;
          side = f.side;
          evidence = f.evidence;
          suggested_fix = final_suggested_fix f d;
        }

    abbrev pub accepts : CandidateFinding C → VerificationDecision C → Bool
    accepts f d =
        d.keep
        && not (c.lt (lesser f.confidence d.confidence) (threshold f))
        && has_allowed_severity f (final_severity f d)

    module _ (decisions : List (ℕ × VerificationDecision C)) (duplicates : List ℕ) where
      -- The loop body: the finding that a candidate becomes.
      unfoldable pub verified_at : ℕ → CandidateFinding C → Option (ReviewFinding C)
      unfolding fingerprint_of
      verified_at index f = elim (decision_at index decisions) [
        | none ↦ none
        | some d ↦
            if not (elem index duplicates) && accepts f d then some (review_finding f d) else none
      ]

      -- The loop, which ends when `room` findings are found.
      pub verify_from : ℕ → ℕ → List (CandidateFinding C) → List (ReviewFinding C)
      unfolding verified_at
      verify_from index room [] = []
      verify_from index zero (f ∷ fs) = []
      verify_from index (suc room) (f ∷ fs) = elim (verified_at index f) [
        | none ↦ verify_from (index + 1) (suc room) fs
        | some r ↦ r ∷ verify_from (index + 1) room fs
      ]

abbrev pub max_published_findings : ℕ
max_published_findings = 25

abbrev pub finding_rank : {C : Type 0} → ReviewFinding C → Rank C
finding_rank r = record {
  rank_severity = r.severity;
  rank_confidence = r.confidence;
  rank_path = r.file_path;
  rank_line = r.line;
}

unfoldable pub verified_findings :
    (digest casefold : Text → Text)
    → (ℕ → Text)
    → {C : Type 0} → ⦃c : Confidence C⦄ → C
    → Option (ReviewPolicy C)
    → List (ℕ × VerificationDecision C)
    → List ℕ
    → List (CandidateFinding C)
    → List (ReviewFinding C)
unfolding verify_from
verified_findings digest casefold show minimum policy decisions duplicates candidates =
    sort_by (λ r s. rank_precedes (finding_rank r) (finding_rank s))
      (verify_from digest casefold show minimum policy decisions duplicates 0 max_published_findings
        candidates)
