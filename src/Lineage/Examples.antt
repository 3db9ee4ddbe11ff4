-- ===== src/Lineage/Examples.antt =====
-- Two current findings that are both like one earlier finding.
use diffuse.Prelude.{
  ℕ, ◌≡◌, refl, true, none, some, List, [], ◌∷◌, Text, codes, text_eq, All, leb, if◌then◌else◌,
}
use diffuse.Lineage.{
  Finding, HistoricalFinding, active, addressed, new, reopened, gone, Candidate, Scoring, match_all,
  classify_finding_lineage,
}
use diffuse.Lineage.Matching.{IsOneToOne, IsSettled, match_all-IsMaximal}

abbrev found : Text → Text → Finding
found path fingerprint = record {
  file_path = path;
  category = codes "bug";
  security_classification = none;
  fingerprint = fingerprint;
  title = codes "t";
  body = codes "b";
  evidence = codes "e";
  line = 3;
}

-- Scores in thousandths: 1000 for the same fingerprint, 700 in the same file.
abbrev by_path : Scoring ℕ
by_path = record {
  at_least = λ a b. leb b a;
  lowest = 0;
  highest = 1000;
  similarity = λ aliases f g.
      if text_eq f.fingerprint g.fingerprint
      then 1000
      else if text_eq f.file_path g.file_path
      then 700
      else 0;
}

abbrev first : Finding
first = found (codes "m.py") (codes "f1")

abbrev second : Finding
second = found (codes "m.py") (codes "f2")

abbrev history : List HistoricalFinding
history =
    record { lineage_id = 9; lineage_status = addressed; finding = second }
    ∷ record {
      lineage_id = 8;
      lineage_status = active;
      finding = found (codes "n.py") (codes "f3");
    }
    ∷ []

best_score_wins :
    classify_finding_lineage by_path (first ∷ second ∷ []) history (λ p. true) [] 680
    ≡ some (
        record { kind = new; transition_lineage = none; transition_finding = some first }
        ∷ record { kind = reopened; transition_lineage = some 9; transition_finding = some second }
        ∷ record { kind = gone; transition_lineage = some 8; transition_finding = none }
        ∷ [])
unfolding classify_finding_lineage
best_score_wins = refl

abbrev candidate : ℕ → ℕ → Candidate ℕ
candidate i h = record {
  score = 700;
  current_index = i;
  history_index = h;
  candidate_lineage = h;
  candidate_fingerprint = [];
}

abbrev candidates : List (Candidate ℕ)
candidates = candidate 0 0 ∷ candidate 1 0 ∷ candidate 1 1 ∷ []

match_all-IsMaximal_example :
    IsOneToOne (match_all candidates []) × All (IsSettled (match_all candidates [])) candidates
match_all-IsMaximal_example = match_all-IsMaximal candidates
