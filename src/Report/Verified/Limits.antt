-- ===== src/Report/Verified/Limits.antt =====
-- What every published finding has passed.
use diffuse.Prelude.{
  ℕ, zero, suc, ◌+◌, ◌≤◌, ◌≡◌, refl, inl, inr, Bool, true, false, not, ◌&&◌, Option, some, List, [],
  ◌∷◌, Text, get_elem?, elem, length, length-sort_by, All, All-sort_by, IsOrdered,
  IsOrdered-sort_by, arith, Option-cases, subst, sym, and_left, and_right,
}
use mathlib.Core.Option.{none-ne-some}
use diffuse.Policy.{Confidence, ReviewPolicy}
use diffuse.Report.{CandidateFinding, VerificationDecision, ReviewFinding, severity_order}
use diffuse.Report.Order.{before_first, before_last, passed}
use diffuse.Report.Verified.{
  decision_at, threshold, accepts, has_allowed_severity, review_finding, verified_at, verify_from,
  verified_findings, max_published_findings,
}

-- Neighbours stand in the order of their severities.
abbrev pub NoLessSevere : {C : Type 0} → ReviewFinding C → ReviewFinding C → Type 0
NoLessSevere r s = severity_order r.severity ≤ severity_order s.severity

shift : (i k : ℕ) → i + suc k ≡ (i + 1) + k
shift i k = omega arith

add_zero : (i : ℕ) → i + 0 ≡ i
add_zero i = omega arith

zero_add : (i : ℕ) → i ≡ 0 + i
zero_add i = omega arith

denied : (b : Bool) → not b ≡ true → b ≡ false
denied b h = ground arith

module _ (digest casefold : Text → Text) (show : ℕ → Text) {C : Type 0} ⦃c : Confidence C⦄
    (minimum : C) (policy : Option (ReviewPolicy C)) (decisions : List (ℕ × VerificationDecision C))
    (duplicates : List ℕ) where
  -- A finding of the report, with the candidate and the decision that it goes back to.
  pub record IsVerified (candidates : List (CandidateFinding C)) (r : ReviewFinding C)
      : Type 0 where
    pub index : ℕ
    pub candidate : CandidateFinding C
    pub decision : VerificationDecision C
    pub is_candidate : get_elem? candidates index ≡ some candidate
    pub is_decided : decision_at index decisions ≡ some decision
    pub is_kept : decision.keep ≡ true
    pub is_single : elem index duplicates ≡ false
    pub is_confident :
        c.lt r.confidence (threshold digest casefold show minimum policy candidate) ≡ false
    pub is_severe :
        has_allowed_severity digest casefold show minimum policy candidate r.severity ≡ true
    pub is_made : r ≡ review_finding digest casefold show minimum policy candidate decision

  verified_at-IsVerified :
      (candidates : List (CandidateFinding C)) (index : ℕ) (f : CandidateFinding C)
      (r : ReviewFinding C)
      → get_elem? candidates index ≡ some f
      → verified_at digest casefold show minimum policy decisions duplicates index f ≡ some r
      → IsVerified candidates r
  unfolding verified_at
  verified_at-IsVerified candidates index f r i e =
      elim (Option-cases (decision_at index decisions)) [
        | inl n ↦ absurd (none-ne-some _ (rw (n, verified_at) at e))
        | inr (d, n) ↦
            let (b, q) =
              passed
                (not (elem index duplicates) && accepts digest casefold show minimum policy f d)
                (rw (n, verified_at) at e) in
            let a = and_right _ _ b in
            subst (IsVerified candidates) q record {
              index = index;
              candidate = f;
              decision = d;
              is_candidate = i;
              is_decided = n;
              is_kept = and_left _ _ (and_left _ _ a);
              is_single = denied _ (and_left _ _ b);
              is_confident = denied _ (and_right d.keep _ (and_left _ _ a));
              is_severe = and_right _ _ a;
              is_made = refl;
            }
      ]

  -- The candidates that are left stand in the whole list from the index on.
  abbrev Continues : List (CandidateFinding C) → ℕ → List (CandidateFinding C) → Type 0
  Continues candidates index fs =
      (k : ℕ) (f : CandidateFinding C)
      → get_elem? fs k ≡ some f
      → get_elem? candidates (index + k) ≡ some f

  Continues-rest :
      (candidates : List (CandidateFinding C)) (index : ℕ) (f : CandidateFinding C)
      (fs : List (CandidateFinding C))
      → Continues candidates index (f ∷ fs)
      → Continues candidates (index + 1) fs
  Continues-rest candidates index f fs h k g e =
      subst (λ n. get_elem? candidates n ≡ some g) (shift index k) (h (suc k) g e)

  verify_from-IsVerified :
      (candidates : List (CandidateFinding C)) (index room : ℕ) (fs : List (CandidateFinding C))
      → Continues candidates index fs
      → All
          (IsVerified candidates)
          (verify_from digest casefold show minimum policy decisions duplicates index room fs)
  unfolding verify_from
  verify_from-IsVerified candidates index room [] h = tt
  verify_from-IsVerified candidates index zero (f ∷ fs) h = tt
  verify_from-IsVerified candidates index (suc room) (f ∷ fs) h =
      let rest = Continues-rest candidates index f fs h in
      elim (Option-cases
        (verified_at digest casefold show minimum policy decisions duplicates index f)) [
          | inl n ↦
              rw (n, verify_from) (verify_from-IsVerified candidates (index + 1) (suc room) fs rest)
          | inr (r, n) ↦
              rw (n, verify_from)
                (
                  verified_at-IsVerified candidates index f r
                      (subst (λ n. get_elem? candidates n ≡ some f) (add_zero index) (h 0 f refl))
                      n,
                  verify_from-IsVerified candidates (index + 1) room fs rest,
                )
        ]

  verify_from-room :
      (index room : ℕ) (fs : List (CandidateFinding C))
      → length (verify_from digest casefold show minimum policy decisions duplicates index room fs)
        ≤ room
  unfolding verify_from
  verify_from-room index room [] = omega arith
  verify_from-room index zero (f ∷ fs) = omega arith
  verify_from-room index (suc room) (f ∷ fs) =
      elim (Option-cases
        (verified_at digest casefold show minimum policy decisions duplicates index f)) [
          | inl n ↦ rw (n, verify_from) (verify_from-room (index + 1) (suc room) fs)
          | inr (r, n) ↦ rw (n, verify_from) (omega (arith, verify_from-room (index + 1) room fs))
        ]

  -- A report has at most 25 findings, the more severe ones first. Each is a candidate that the verifier
  -- decided to keep and that is no duplicate; its confidence is the lower of the two, and not below the
  -- threshold of its path; and its severity, revised or not, is one that the policy reports there, and
  -- below high if it is preventative.
  pub verified_findings-IsVerified :
      (candidates : List (CandidateFinding C))
      → (length
            (verified_findings digest casefold show minimum policy decisions duplicates candidates)
          ≤ 25)
        × All
            (IsVerified candidates)
            (verified_findings digest casefold show minimum policy decisions duplicates candidates)
        × IsOrdered NoLessSevere
            (verified_findings digest casefold show minimum policy decisions duplicates candidates)
  unfolding verified_findings
  verified_findings-IsVerified candidates =
      let found =
        verify_from digest casefold show minimum policy decisions duplicates 0
          max_published_findings candidates in
      (
        subst (λ n. n ≤ 25) (sym (length-sort_by _ found)) (verify_from-room 0 25 candidates),
        All-sort_by (IsVerified candidates) _ found (
            verify_from-IsVerified candidates 0 max_published_findings candidates
              λ k f e. subst (λ n. get_elem? candidates n ≡ some f) (zero_add k) e),
        IsOrdered-sort_by NoLessSevere _ (λ r s p. before_first _ _ _ p)
            (λ r s p. before_last _ _ _ p) found,
      )
