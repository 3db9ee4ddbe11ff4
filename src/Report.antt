-- ===== src/Report.antt =====
-- packages/server/src/diffuse/review/report_assembly.py: the rules that every published review keeps.
-- This file holds the models of packages/protocol/src/diffuse_protocol/review.py; the children hold
-- the functions.
pub mod Order
pub mod Candidates
pub mod Verified
pub mod Score
pub mod Files
mod Examples
use diffuse.Prelude.{
  ℕ, Bool, true, false, not, ◌&&◌, ◌||◌, Option, none, some, Text, codes, text_eq, text_ltb, ltb,
  ◌==◌,
}
use diffuse.Policy.{Confidence}
use diffuse.Diff.{Side}

pub data Severity : Type 0 where
  critical high medium low : Severity

-- `SEVERITY_ORDER`
abbrev pub severity_order : Severity → ℕ
severity_order critical = 0
severity_order high = 1
severity_order medium = 2
severity_order low = 3

-- `severity.value`
abbrev pub severity_value : Severity → Text
severity_value critical = codes "critical"
severity_value high = codes "high"
severity_value medium = codes "medium"
severity_value low = codes "low"

abbrev pub is_critical_or_high : Severity → Bool
is_critical_or_high critical = true
is_critical_or_high high = true
is_critical_or_high _ = false

pub data Category : Type 0 where
  correctness security performance reliability testing architecture maintainability api : Category

-- `category.value`
abbrev pub category_value : Category → Text
category_value correctness = codes "correctness"
category_value security = codes "security"
category_value performance = codes "performance"
category_value reliability = codes "reliability"
category_value testing = codes "testing"
category_value architecture = codes "architecture"
category_value maintainability = codes "maintainability"
category_value api = codes "api"

abbrev pub is_security : Category → Bool
is_security security = true
is_security _ = false

pub data SecurityClassification : Type 0 where
  vulnerability preventative : SecurityClassification

abbrev pub is_preventative : Option SecurityClassification → Bool
is_preventative (some preventative) = true
is_preventative _ = false

-- the value of a classification, with a word for none
abbrev pub classification_value : Text → Option SecurityClassification → Text
classification_value absent none = absent
classification_value absent (some vulnerability) = codes "vulnerability"
classification_value absent (some preventative) = codes "preventative"

pub record CandidateFinding (C : Type 0) : Type 0 where
  pub title : Text
  pub body : Text
  pub severity : Severity
  pub category : Category
  pub security_classification : Option SecurityClassification
  pub confidence : C
  pub file_path : Text
  pub line : ℕ
  pub side : Side
  pub evidence : Text
  pub suggested_fix : Option Text

pub record VerificationDecision (C : Type 0) : Type 0 where
  pub keep : Bool
  pub confidence : C
  pub revised_title : Option Text
  pub revised_body : Option Text
  pub revised_suggested_fix : Option Text
  pub revised_severity : Option Severity

pub record ReviewFinding (C : Type 0) : Type 0 where
  pub fingerprint : Text
  pub title : Text
  pub body : Text
  pub severity : Severity
  pub category : Category
  pub security_classification : Option SecurityClassification
  pub confidence : C
  pub file_path : Text
  pub line : ℕ
  pub side : Side
  pub evidence : Text
  pub suggested_fix : Option Text

-- What the order of a report reads of a candidate or a finding.
pub record Rank (C : Type 0) : Type 0 where
  pub rank_severity : Severity
  pub rank_confidence : C
  pub rank_path : Text
  pub rank_line : ℕ

-- The comparison of the tuples `(SEVERITY_ORDER[severity], -confidence, file_path, line)`.
module _ {C : Type 0} ⦃c : Confidence C⦄ where
  abbrev pub path_precedes : Rank C → Rank C → Bool
  path_precedes a b =
      text_ltb a.rank_path b.rank_path
      || (text_eq a.rank_path b.rank_path && ltb a.rank_line b.rank_line)

  abbrev pub confidence_precedes : Rank C → Rank C → Bool
  confidence_precedes a b =
      c.lt b.rank_confidence a.rank_confidence
      || (not (c.lt a.rank_confidence b.rank_confidence) && path_precedes a b)

  abbrev pub rank_precedes : Rank C → Rank C → Bool
  rank_precedes a b =
      ltb (severity_order a.rank_severity) (severity_order b.rank_severity)
      || (severity_order a.rank_severity == severity_order b.rank_severity
          && confidence_precedes a b)
