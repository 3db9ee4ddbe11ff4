-- ===== src/Lineage.antt =====
-- packages/server/src/diffuse/review/lineage.py: which findings of a review are those of earlier
-- reviews. The similarity of two findings is a parameter with its scores, which are floating-point
-- numbers there.
pub mod Matching
mod Examples
use diffuse.Prelude.{
  text_ltb, sort_by, ℕ, zero, suc, ◌+◌, Bool, true, false, not, ◌&&◌, ◌||◌, Option, none, some,
  List, [], ◌∷◌, ◌++◌, Text, text_eq, any, get_elem?, ltb, ◌==◌, if◌then◌else◌,
}

-- The parts of a `ReviewFinding` that a similarity reads.
pub record Finding : Type 0 where
  pub file_path : Text
  pub category : Text
  pub security_classification : Option Text
  pub fingerprint : Text
  pub title : Text
  pub body : Text
  pub evidence : Text
  pub line : ℕ

pub data LineageStatus : Type 0 where
  active addressed : LineageStatus

pub record HistoricalFinding : Type 0 where
  pub lineage_id : ℕ
  pub lineage_status : LineageStatus
  pub finding : Finding

pub data TransitionKind : Type 0 where
  new persistent reopened gone : TransitionKind

pub record FindingTransition : Type 0 where
  pub kind : TransitionKind
  pub transition_lineage : Option ℕ
  pub transition_finding : Option Finding

abbrev pub Aliases : Type 0
Aliases = List (Text × Text)

-- `_effective_path`
abbrev pub effective_path : Text → Aliases → Text
effective_path path [] = path
effective_path path ((old, new_path) ∷ rest) =
    let later = effective_path path rest in if text_eq old path then new_path else later

abbrev pub is_normalized : Text → Bool
is_normalized [] = false
is_normalized (c ∷ s) = not (c == b'/')

abbrev pub is_bad_alias : Text × Text → Bool
is_bad_alias (old, new_path) = not (is_normalized old) || not (is_normalized new_path)

pub record Candidate (Score : Type 0) : Type 0 where
  pub score : Score
  pub current_index : ℕ
  pub history_index : ℕ
  pub candidate_lineage : ℕ
  pub candidate_fingerprint : Text

-- The scores: an order, its two bounds, and the similarity under the aliases.
pub record Scoring (Score : Type 0) : Type 0 where
  pub at_least : Score → Score → Bool
  pub lowest : Score
  pub highest : Score
  pub similarity : Aliases → Finding → Finding → Score

module _ {Score : Type 0} (scoring : Scoring Score) where
  -- The sort key is smaller: a higher score, then a smaller lineage, then a smaller fingerprint.
  abbrev pub precedes : Candidate Score → Candidate Score → Bool
  precedes x y =
      if not (scoring.at_least y.score x.score)
      then true
      else if not (scoring.at_least x.score y.score)
      then false
      else ltb x.candidate_lineage y.candidate_lineage
        || (x.candidate_lineage == y.candidate_lineage
            && text_ltb x.candidate_fingerprint y.candidate_fingerprint)

  -- The inner loop over the history, and the outer one.
  pub candidates_of :
      Aliases → Score → ℕ → Finding → ℕ → List HistoricalFinding → List (Candidate Score)
  candidates_of aliases threshold i f h [] = []
  candidates_of aliases threshold i f h (x ∷ xs) =
      let rest = candidates_of aliases threshold i f (h + 1) xs in
      let found = scoring.similarity aliases f x.finding in
      if scoring.at_least found threshold
      then record {
        score = found;
        current_index = i;
        history_index = h;
        candidate_lineage = x.lineage_id;
        candidate_fingerprint = f.fingerprint;
      }
        ∷ rest
      else rest

  pub all_candidates :
      Aliases → Score → ℕ → List Finding → List HistoricalFinding → List (Candidate Score)
  unfolding candidates_of
  all_candidates aliases threshold i [] history = []
  all_candidates aliases threshold i (f ∷ fs) history =
      candidates_of aliases threshold i f 0 history
      ++ all_candidates aliases threshold (i + 1) fs history

-- `current_matches`, whose values are `matched_history`.
abbrev pub Matches : Type 0
Matches = List (ℕ × ℕ)

abbrev pub has_current : ℕ → Matches → Bool
has_current i = any (λ m. m.0 == i)

abbrev pub has_history : ℕ → Matches → Bool
has_history h = any (λ m. m.1 == h)

-- The loop over the sorted candidates.
unfoldable pub match_all : {Score : Type 0} → List (Candidate Score) → Matches → Matches
match_all [] ms = ms
match_all (c ∷ cs) ms =
    let skipped = match_all cs ms in
    let taken = match_all cs ((c.current_index, c.history_index) ∷ ms) in
    if has_current c.current_index ms || has_history c.history_index ms then skipped else taken

abbrev pub match_of : ℕ → Matches → Option ℕ
match_of i [] = none
match_of i (m ∷ ms) = let later = match_of i ms in if m.0 == i then some m.1 else later

abbrev pub continued : LineageStatus → TransitionKind
continued addressed = reopened
continued active = persistent

-- The transition of a current finding.
abbrev pub transition_of : Finding → Option HistoricalFinding → FindingTransition
transition_of f none = record { kind = new; transition_lineage = none; transition_finding = some f }
transition_of f (some h) = record {
  kind = continued h.lineage_status;
  transition_lineage = some h.lineage_id;
  transition_finding = some f;
}

abbrev pub history_at : List HistoricalFinding → Option ℕ → Option HistoricalFinding
history_at history none = none
history_at history (some h) = get_elem? history h

pub current_transitions :
    Matches → List HistoricalFinding → ℕ → List Finding → List FindingTransition
current_transitions ms history i [] = []
current_transitions ms history i (f ∷ fs) =
    transition_of f (history_at history (match_of i ms)) ∷ current_transitions ms history (i + 1) fs

abbrev pub is_active : LineageStatus → Bool
is_active active = true
is_active addressed = false

-- The findings that are addressed.
pub addressed_transitions :
    Matches → Aliases → (Text → Bool) → ℕ → List HistoricalFinding → List FindingTransition
addressed_transitions ms aliases touched h [] = []
addressed_transitions ms aliases touched h (x ∷ xs) =
    let rest = addressed_transitions ms aliases touched (h + 1) xs in
    if not (has_history h ms)
      && is_active x.lineage_status
      && (touched x.finding.file_path || touched (effective_path x.finding.file_path aliases))
    then record { kind = gone; transition_lineage = some x.lineage_id; transition_finding = none }
      ∷ rest
    else rest

-- `classify_finding_lineage`; `none` where it raises.
unfoldable pub classify_finding_lineage :
    {Score : Type 0}
    → Scoring Score
    → List Finding
    → List HistoricalFinding
    → (Text → Bool)
    → Aliases
    → Score
    → Option (List FindingTransition)
unfolding all_candidates match_all current_transitions addressed_transitions
classify_finding_lineage scoring current history touched aliases threshold =
    if not (scoring.at_least threshold scoring.lowest && scoring.at_least scoring.highest threshold)
    then none
    else if any is_bad_alias aliases
    then none
    else let ms =
        match_all
          (sort_by (precedes scoring) (all_candidates scoring aliases threshold 0 current history))
          [] in
      some (
        current_transitions ms history 0 current
        ++ addressed_transitions ms aliases touched 0 history)
