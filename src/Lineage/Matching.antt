-- ===== src/Lineage/Matching.antt =====
-- The matching of findings is one to one and leaves no candidate that could be added.
use diffuse.Prelude.{
  ℕ, ◌≡◌, refl, inl, inr, true, false, ◌||◌, List, [], ◌∷◌, All, arith, Bool-cases, subst, sym,
}
use diffuse.Lineage.{Candidate, Matches, has_current, has_history, match_all}

-- No current finding and no earlier finding is in two matches.
abbrev pub IsOneToOne : Matches → Type 0
IsOneToOne [] = Unit
IsOneToOne (m ∷ ms) = ((has_current m.0 ms || has_history m.1 ms) ≡ false) × IsOneToOne ms

match_all-keeps :
    {Score : Type 0} (cs : List (Candidate Score)) (ms : Matches) (i h : ℕ)
    → (has_current i ms || has_history h ms) ≡ true
    → (has_current i (match_all cs ms) || has_history h (match_all cs ms)) ≡ true
unfolding match_all
match_all-keeps [] ms i h t = t
match_all-keeps (c ∷ cs) ms i h t =
    elim (Bool-cases (has_current c.current_index ms || has_history c.history_index ms)) [
      | inl s ↦ rw s (match_all-keeps cs ms i h t)
      | inr s ↦
          rw s (match_all-keeps cs ((c.current_index, c.history_index) ∷ ms) i h (ground arith))
    ]

match_all-IsOneToOne :
    {Score : Type 0} (cs : List (Candidate Score)) (ms : Matches)
    → IsOneToOne ms
    → IsOneToOne (match_all cs ms)
unfolding match_all
match_all-IsOneToOne [] ms d = d
match_all-IsOneToOne (c ∷ cs) ms d =
    elim (Bool-cases (has_current c.current_index ms || has_history c.history_index ms)) [
      | inl s ↦ rw s (match_all-IsOneToOne cs ms d)
      | inr s ↦ rw s (match_all-IsOneToOne cs ((c.current_index, c.history_index) ∷ ms) (s, d))
    ]

-- The candidate is matched, or one of its findings is matched otherwise.
abbrev pub IsSettled : {Score : Type 0} → Matches → Candidate Score → Type 0
IsSettled ms c = (has_current c.current_index ms || has_history c.history_index ms) ≡ true

match_all-settles :
    {Score : Type 0} (cs : List (Candidate Score)) (ms : Matches)
    → All (IsSettled (match_all cs ms)) cs
unfolding match_all
match_all-settles [] ms = tt
match_all-settles (c ∷ cs) ms =
    elim (Bool-cases (has_current c.current_index ms || has_history c.history_index ms)) [
      | inl s ↦
          let skipped : match_all (c ∷ cs) ms ≡ match_all cs ms = rw s refl in
          subst (λ r. All (IsSettled r) (c ∷ cs)) (sym skipped)
            (match_all-keeps cs ms _ _ s, match_all-settles cs ms)
      | inr s ↦
          let taken : match_all (c ∷ cs) ms
              ≡ match_all cs ((c.current_index, c.history_index) ∷ ms) =
            rw s refl in
          subst (λ r. All (IsSettled r) (c ∷ cs)) (sym taken)
            (
              match_all-keeps cs ((c.current_index, c.history_index) ∷ ms) c.current_index
                  c.history_index (ground arith),
              match_all-settles cs ((c.current_index, c.history_index) ∷ ms),
            )
    ]

-- Whatever the order of the candidates, the matching uses every current and every earlier finding at
-- most once, and of each candidate that it leaves out one of the two findings is matched.
pub match_all-IsMaximal :
    {Score : Type 0} (cs : List (Candidate Score))
    → IsOneToOne (match_all cs []) × All (IsSettled (match_all cs [])) cs
match_all-IsMaximal cs = (match_all-IsOneToOne cs [] tt, match_all-settles cs [])
