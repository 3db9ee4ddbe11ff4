-- ===== src/Report/Candidates/Publishable.antt =====
-- The candidates that are kept may be published, and stand in the order of the report.
use diffuse.Prelude.{
  ℕ, ◌+◌, ◌≤◌, ◌≡◌, refl, inl, inr, Bool, true, false, not, ◌&&◌, ◌||◌, Option, some, List, [], ◌∷◌,
  map, All, All-take, All-sort_by, All-map, IsOrdered, IsOrdered-sort_by, IsOrdered-take, length,
  length-take, take, sort_by, is_some, arith, Bool-cases, Option-cases, subst, sym, ◌∙◌, and_left,
  and_right, ap, suc,
}
use mathlib.Core.Option.{some-injective, none-ne-some}
use diffuse.Policy.{Confidence, ReviewPolicy}
use diffuse.Policy.Query.{allows_path}
use diffuse.Diff.{DiffFile}
use diffuse.Diff.Lookup.{is_commentable}
use diffuse.Report.{CandidateFinding, is_security, is_preventative, severity_order, rank_precedes}
use diffuse.Report.Order.{blocked, passed, before_first, before_last}
use diffuse.Report.Candidates.{
  Selected, allowed_by, classified, may_be_preventative, keep_security,
  normalize_security_candidate, publishable, same_key, more_confident, select, select_all, rank_of,
  most_candidates, ordered_candidates, deduplicate_candidates,
}

length-map : {A B : Type 0} (f : A → B) (xs : List A) → length (map f xs) ≡ length xs
length-map f [] = refl
length-map f (x ∷ xs) = ap suc (length-map f xs)

length-kept :
    {C : Type 0} (n : ℕ) (ss : List (Selected C)) → length (map (λ s. s.candidate) (take n ss)) ≤ n
length-kept n ss = omega (arith, length-map (λ s. s.candidate) (take n ss), length-take n ss)

permission : (p m : Bool) → (p && not m) ≡ false → (not p || m) ≡ true
permission p m h = ground arith

-- Neighbours stand in the order of their severities.
abbrev pub NoLess : {C : Type 0} → Selected C → Selected C → Type 0
NoLess s t = severity_order s.candidate.severity ≤ severity_order t.candidate.severity

module _ {C : Type 0} (policy : Option (ReviewPolicy C)) (files : List DiffFile) where
  -- What is asked of a candidate in a report.
  pub record IsPublishable (f : CandidateFinding C) : Type 0 where
    pub is_allowed : allowed_by (λ p. allows_path p f.file_path) policy ≡ true
    pub is_on_diff : is_commentable files f.file_path f.side f.line ≡ true
    pub has_classification : is_some f.security_classification ≡ is_security f.category
    pub has_permission :
        (not (is_preventative f.security_classification) || may_be_preventative policy f) ≡ true

  -- The two parts that the normalization is about.
  abbrev IsClassified : CandidateFinding C → Type 0
  IsClassified f =
      (is_some f.security_classification ≡ is_security f.category)
      × ((not (is_preventative f.security_classification) || may_be_preventative policy f) ≡ true)

  keep_security-IsClassified :
      (raw f : CandidateFinding C)
      → is_security raw.category ≡ true
      → is_some raw.security_classification ≡ true
      → keep_security policy raw ≡ some f
      → IsClassified f
  keep_security-IsClassified raw f s h e =
      let (b, q) =
        blocked
          (is_preventative raw.security_classification && not (may_be_preventative policy raw)) e in
      subst IsClassified q (h ∙ sym s, permission _ _ b)

  normalize-IsClassified :
      (raw f : CandidateFinding C)
      → normalize_security_candidate policy raw ≡ some f
      → IsClassified f
  unfolding normalize_security_candidate
  normalize-IsClassified raw f e = elim (Bool-cases (is_security raw.category)) [
    | inl s ↦ elim (Option-cases raw.security_classification) [
      | inl n ↦ keep_security-IsClassified (classified raw) f (rw n s) (rw n refl) (rw s at e)
      | inr (k, n) ↦ keep_security-IsClassified (classified raw) f (rw n s) (rw n refl) (rw s at e)
    ]
    | inr s ↦ elim (Option-cases raw.security_classification) [
      | inl n ↦ subst IsClassified (some-injective _ _ (rw (s, n) at e)) (rw s refl, refl)
      | inr (k, n) ↦ absurd (none-ne-some _ (rw (s, n) at e))
    ]
  ]

  publishable-IsPublishable :
      (raw f : CandidateFinding C) → publishable policy files raw ≡ some f → IsPublishable f
  publishable-IsPublishable raw f e =
      elim (Option-cases (normalize_security_candidate policy raw)) [
        | inl n ↦ absurd (none-ne-some _ (rw n at e))
        | inr (g, n) ↦
            let (b, q) =
              passed
                (allowed_by (λ p. allows_path p g.file_path) policy
                  && is_commentable files g.file_path g.side g.line)
                (rw n at e) in
            let r = normalize-IsClassified raw g n in
            subst IsPublishable q record {
              is_allowed = and_left _ _ b;
              is_on_diff = and_right _ _ b;
              has_classification = r.0;
              has_permission = r.1;
            }
      ]

  module _ ⦃c : Confidence C⦄ where
    abbrev IsFine : Selected C → Type 0
    IsFine s = IsPublishable s.candidate

    more_confident-IsFine :
        (new old : Selected C) → IsFine new → IsFine old → IsFine (more_confident new old)
    more_confident-IsFine new old n o =
        elim (Bool-cases (c.lt old.candidate.confidence new.candidate.confidence)) [
          | inl t ↦ rw t n
          | inr t ↦ rw t o
        ]

    select-IsFine :
        (new : Selected C) (ss : List (Selected C))
        → IsFine new
        → All IsFine ss
        → All IsFine (select new ss)
    unfolding select
    select-IsFine new [] n h = (n, tt)
    select-IsFine new (s ∷ ss) n h = elim (Bool-cases (same_key new.candidate s.candidate)) [
      | inl t ↦ rw t (more_confident-IsFine new s n h.0, h.1)
      | inr t ↦ rw t (h.0, select-IsFine new ss n h.1)
    ]

    select_all-IsFine :
        (index : ℕ) (raws : List (CandidateFinding C)) (ss : List (Selected C))
        → All IsFine ss
        → All IsFine (select_all policy files index raws ss)
    unfolding select_all
    select_all-IsFine index [] ss h = h
    select_all-IsFine index (raw ∷ raws) ss h = elim (Option-cases (publishable policy files raw)) [
      | inl n ↦ rw n (select_all-IsFine (index + 1) raws ss h)
      | inr (f, n) ↦ rw n (
          select_all-IsFine (index + 1) raws _ (
            select-IsFine record { raw_index = index; candidate = f } ss
              (publishable-IsPublishable raw f n) h))
    ]

    -- At most 80 candidates are kept, the more severe ones first; each lies on a path that the policy
    -- allows and on a changed line of the diff, has a classification exactly if it is about security,
    -- and is preventative only where the policy allows that and below high severity.
    pub deduplicate_candidates-IsPublishable :
        (candidates : List (CandidateFinding C))
        → (length (deduplicate_candidates policy files candidates) ≤ 80)
          × All IsPublishable (deduplicate_candidates policy files candidates)
          × IsOrdered NoLess (ordered_candidates policy files candidates)
    unfolding deduplicate_candidates ordered_candidates
    deduplicate_candidates-IsPublishable candidates =
        let selected = select_all policy files 0 candidates [] in
        let sorted = sort_by (λ s t. rank_precedes (rank_of s) (rank_of t)) selected in
        (
          length-kept most_candidates sorted,
          All-map IsPublishable (λ s. s.candidate) (take most_candidates sorted)
              (All-take IsFine most_candidates sorted
                (All-sort_by IsFine _ selected (select_all-IsFine 0 candidates [] tt))),
          IsOrdered-take NoLess most_candidates sorted (
              IsOrdered-sort_by NoLess _ (λ s t p. before_first _ _ _ p)
                (λ s t p. before_last _ _ _ p) selected),
        )
