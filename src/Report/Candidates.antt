-- ===== src/Report/Candidates.antt =====
-- `deduplicate_candidates_with_ids` with what it normalizes.
pub mod Publishable
use diffuse.Prelude.{
  ℕ, ◌+◌, Bool, true, false, not, ◌&&◌, ◌||◌, Option, none, some, List, [], ◌∷◌, map, Text, codes,
  take, text_eq, sort_by, ◌==◌, if◌then◌else◌,
}
use diffuse.Policy.{Confidence, ReviewPolicy}
use diffuse.Policy.Query.{allows_path, allows_preventative_security}
use diffuse.Diff.{DiffFile, Side, left_side, right_side}
use diffuse.Diff.Lookup.{is_commentable}
use diffuse.Report.{
  Severity, is_critical_or_high, Category, category_value, is_security, SecurityClassification,
  vulnerability, preventative, is_preventative, classification_value, CandidateFinding, Rank,
  rank_precedes,
}

abbrev pub same_side : Side → Side → Bool
same_side left_side left_side = true
same_side right_side right_side = true
same_side _ _ = false

-- A candidate and the index of its raw id, `candidate-{index}`.
pub record Selected (C : Type 0) : Type 0 where
  pub raw_index : ℕ
  pub candidate : CandidateFinding C

module _ {C : Type 0} where
  abbrev pub allowed_by : (ReviewPolicy C → Bool) → Option (ReviewPolicy C) → Bool
  allowed_by test none = true
  allowed_by test (some policy) = test policy

  -- A missing classification of a security finding is `VULNERABILITY`.
  abbrev pub classified : CandidateFinding C → CandidateFinding C
  classified f = elim f.security_classification [
    | none ↦ record f { security_classification = some vulnerability }
    | some _ ↦ f
  ]

  abbrev pub may_be_preventative : Option (ReviewPolicy C) → CandidateFinding C → Bool
  may_be_preventative none f = false
  may_be_preventative (some policy) f =
      allows_preventative_security policy f.file_path && not (is_critical_or_high f.severity)

  abbrev pub keep_security :
      Option (ReviewPolicy C) → CandidateFinding C → Option (CandidateFinding C)
  keep_security policy f =
      if is_preventative f.security_classification && not (may_be_preventative policy f)
      then none
      else some f

  abbrev pub keep_other : CandidateFinding C → Option (CandidateFinding C)
  keep_other f = elim f.security_classification [ none ↦ some f | some _ ↦ none ]

  -- `_normalize_security_candidate`
  unfoldable pub normalize_security_candidate :
      Option (ReviewPolicy C) → CandidateFinding C → Option (CandidateFinding C)
  normalize_security_candidate policy f =
      if is_security f.category then keep_security policy (classified f) else keep_other f

  -- The candidate that goes on, if it may be published.
  abbrev pub if_commentable :
      Option (ReviewPolicy C)
      → List DiffFile
      → Option (CandidateFinding C)
      → Option (CandidateFinding C)
  if_commentable policy files none = none
  if_commentable policy files (some f) =
      if allowed_by (λ p. allows_path p f.file_path) policy
        && is_commentable files f.file_path f.side f.line
      then some f
      else none

  abbrev pub publishable :
      Option (ReviewPolicy C) → List DiffFile → CandidateFinding C → Option (CandidateFinding C)
  publishable policy files raw =
      if_commentable policy files (normalize_security_candidate policy raw)

  -- The keys `(file_path, side, line, category, classification)` of the two are the same.
  unfoldable pub same_key : CandidateFinding C → CandidateFinding C → Bool
  same_key f g =
      text_eq f.file_path g.file_path
      && same_side f.side g.side
      && f.line == g.line
      && text_eq (category_value f.category) (category_value g.category)
      && text_eq (classification_value [] f.security_classification)
          (classification_value [] g.security_classification)

  abbrev pub rank_of : Selected C → Rank C
  rank_of s = record {
    rank_severity = s.candidate.severity;
    rank_confidence = s.candidate.confidence;
    rank_path = s.candidate.file_path;
    rank_line = s.candidate.line;
  }

abbrev pub most_candidates : ℕ
most_candidates = 80

module _ {C : Type 0} ⦃c : Confidence C⦄ where
  abbrev pub more_confident : Selected C → Selected C → Selected C
  more_confident new old =
      if c.lt old.candidate.confidence new.candidate.confidence then new else old

  -- `selected`, in the order of its keys.
  pub select : Selected C → List (Selected C) → List (Selected C)
  unfolding same_key
  select new [] = new ∷ []
  select new (s ∷ ss) =
      let rest = select new ss in
      if same_key new.candidate s.candidate then more_confident new s ∷ ss else s ∷ rest

  abbrev pub select_if : ℕ → Option (CandidateFinding C) → List (Selected C) → List (Selected C)
  select_if index none ss = ss
  select_if index (some f) ss = select record { raw_index = index; candidate = f } ss

  pub select_all :
      Option (ReviewPolicy C)
      → List DiffFile
      → ℕ
      → List (CandidateFinding C)
      → List (Selected C)
      → List (Selected C)
  unfolding select normalize_security_candidate
  select_all policy files index [] ss = ss
  select_all policy files index (raw ∷ raws) ss =
      select_all policy files (index + 1) raws (select_if index (publishable policy files raw) ss)

  unfoldable pub ordered_candidates :
      Option (ReviewPolicy C) → List DiffFile → List (CandidateFinding C) → List (Selected C)
  unfolding select_all
  ordered_candidates policy files candidates = take most_candidates (
      sort_by (λ s t. rank_precedes (rank_of s) (rank_of t))
        (select_all policy files 0 candidates []))

  -- `deduplicate_candidates`
  unfoldable pub deduplicate_candidates :
      Option (ReviewPolicy C)
      → List DiffFile
      → List (CandidateFinding C)
      → List (CandidateFinding C)
  unfolding ordered_candidates
  deduplicate_candidates policy files candidates =
      map (λ s. s.candidate) (ordered_candidates policy files candidates)

abbrev pub numbered : {C : Type 0} → ℕ → List (Selected C) → List (ℕ × ℕ)
numbered index [] = []
numbered index (s ∷ ss) = (s.raw_index, index) ∷ numbered (index + 1) ss

-- `deduplicate_candidates_with_ids`
unfoldable pub deduplicate_candidates_with_ids :
    {C : Type 0} ⦃c : Confidence C⦄
    → Option (ReviewPolicy C)
    → List DiffFile
    → List (CandidateFinding C)
    → List (CandidateFinding C) × List (ℕ × ℕ)
unfolding ordered_candidates deduplicate_candidates
deduplicate_candidates_with_ids policy files candidates = (
  deduplicate_candidates policy files candidates,
  numbered 0 (ordered_candidates policy files candidates),
)
