-- ===== src/Policy/Query.antt =====
-- What the rest of the program asks of a resolved policy: the methods of `ResolvedReviewPolicy`.
use diffuse.Prelude.{
  ℕ, Bool, false, not, ◌&&◌, Option, none, some, List, [], ◌∷◌, ◌++◌, map, min, Text, codes, any,
  all, filter, text_eq, text_elem, text_ltb, unique, sort_by, is_empty, leb, if◌then◌else◌,
}
use diffuse.Policy.{
  Confidence, greater, OutputSection, TriggerPolicy, PathPolicy, ReviewPolicy, default_section,
  default_triggers, critical_and_high, is_reviewable,
}
use diffuse.Policy.Layers.{review_pass_names}

-- `_SEVERITY_ORDER`
abbrev pub severity_rank : Text → Option ℕ
severity_rank s =
    if text_eq s (codes "critical")
    then some 0
    else if text_eq s (codes "high")
    then some 1
    else if text_eq s (codes "medium")
    then some 2
    else if text_eq s (codes "low")
    then some 3
    else none

abbrev pub rank_allows : Option ℕ → Option ℕ → Bool
rank_allows (some a) (some b) = leb a b
rank_allows _ _ = false

abbrev pub first_where {ℓ} : {A : Type ℓ} → (A → Bool) → List A → Option A
first_where test [] = none
first_where test (x ∷ xs) = let later = first_where test xs in if test x then some x else later

-- `sorted({…}, key=str.casefold)`. The texts of a set are listed in the order of their first
-- occurrence; the set of the program differs only among texts that `casefold` makes equal.
abbrev pub folded_precedes : (Text → Text) → Text → Text → Bool
folded_precedes casefold s t = text_ltb (casefold s) (casefold t)

abbrev pub smaller_limit : Option ℕ → Option ℕ → Option ℕ
smaller_limit none b = b
smaller_limit (some a) none = some a
smaller_limit (some a) (some b) = some (min a b)

abbrev pub severity_names : List Text
severity_names = codes "critical" ∷ codes "high" ∷ codes "medium" ∷ codes "low" ∷ []

module _ {C : Type 0} where
  -- `for_path`
  abbrev pub for_path : Text → List (PathPolicy C) → Option (PathPolicy C)
  for_path path = first_where (λ p. text_eq p.file_path path)

  abbrev pub holds : (PathPolicy C → Bool) → Option (PathPolicy C) → Bool
  holds test none = false
  holds test (some p) = test p

  unfoldable pub allows_path : ReviewPolicy C → Text → Bool
  allows_path policy path = holds is_reviewable (for_path path policy.paths)

  -- `severity` and the minimum are among the four, and no lower than it.
  unfoldable pub allows_severity : ReviewPolicy C → Text → Text → Bool
  allows_severity policy path severity =
      holds (λ p. rank_allows (severity_rank severity) (severity_rank p.minimum_severity))
        (for_path path policy.paths)

  abbrev pub is_preventative : PathPolicy C → Bool
  is_preventative p = is_reviewable p && p.preventative_security

  unfoldable pub allows_preventative_security : ReviewPolicy C → Text → Bool
  allows_preventative_security policy path = holds is_preventative (for_path path policy.paths)

  abbrev pub reviewable : ReviewPolicy C → List (PathPolicy C)
  reviewable policy = filter is_reviewable policy.paths

  unfoldable pub reviewable_paths : ReviewPolicy C → List Text
  reviewable_paths policy = map (λ p. p.file_path) (reviewable policy)

  abbrev pub is_selected : List (PathPolicy C) → Text → Bool
  is_selected ps name = any (λ p. text_elem name p.passes) ps

  unfoldable pub passes : ReviewPolicy C → List Text
  passes policy = filter (is_selected (reviewable policy)) review_pass_names

  unfoldable pub summary_only : ReviewPolicy C → Bool
  summary_only policy = any (λ p. p.summary_only) (reviewable policy)

  unfoldable pub update_description : ReviewPolicy C → Bool
  update_description policy = any (λ p. p.update_description) (reviewable policy)

  unfoldable pub summary_comment_enabled : ReviewPolicy C → Bool
  summary_comment_enabled policy = all (λ p. p.summary_comment) (reviewable policy)

  -- `_output_section`, for one of the three sections
  unfoldable pub output_section : (PathPolicy C → OutputSection) → ReviewPolicy C → OutputSection
  output_section section policy =
      let ps = reviewable policy in
      if is_empty ps then default_section else record {
        included = all (λ p. (section p).included) ps;
        collapsible = any (λ p. (section p).collapsible) ps;
        default_open = all (λ p. (section p).default_open) ps;
      }

  unfoldable pub footer_included : ReviewPolicy C → Bool
  footer_included policy = all (λ p. p.footer_included) (reviewable policy)

  -- `diagram_included`, `diagram_collapsible` and `diagram_default_open`
  unfoldable pub diagram_section : ReviewPolicy C → OutputSection
  diagram_section policy =
      let ps = reviewable policy in
      record {
        included = not (is_empty ps) && all (λ p. p.diagram.included) ps;
        collapsible = any (λ p. p.diagram.collapsible) ps;
        default_open = not (is_empty ps) && all (λ p. p.diagram.default_open) ps;
      }

  abbrev pub flat_map : (PathPolicy C → List Text) → List (PathPolicy C) → List Text
  flat_map f [] = []
  flat_map f (p ∷ ps) = f p ++ flat_map f ps

  unfoldable pub context_repositories : ReviewPolicy C → List Text
  context_repositories policy = unique (flat_map (λ p. p.context_repositories) (reviewable policy))

  unfoldable pub exclude_union :
      (Text → Text) → (TriggerPolicy → List Text) → List (PathPolicy C) → List Text
  exclude_union casefold field ps =
      sort_by (folded_precedes casefold) (unique (flat_map (λ p. field p.triggers) ps))

  -- One policy without a filter lets everything in.
  unfoldable pub include_union :
      (Text → Text) → (TriggerPolicy → List Text) → List (PathPolicy C) → List Text
  unfolding exclude_union
  include_union casefold field ps =
      if any (λ p. is_empty (field p.triggers)) ps then [] else exclude_union casefold field ps

  -- `min(limits) if limits else None`
  abbrev pub least_limit : List (PathPolicy C) → Option ℕ
  least_limit [] = none
  least_limit (p ∷ ps) = smaller_limit p.triggers.file_change_limit (least_limit ps)

  -- The blocking severities of the paths that have a status check.
  unfoldable pub blocking_of : List (PathPolicy C) → List Text
  blocking_of ps =
      let checked = filter (λ p. p.triggers.status_check) ps in
      if is_empty checked
      then critical_and_high
      else filter (λ s. any (λ p. text_elem s p.triggers.blocking_severities) checked)
          severity_names

  -- `triggers`
  unfoldable pub triggers_of : (Text → Text) → ReviewPolicy C → TriggerPolicy
  unfolding include_union exclude_union blocking_of
  triggers_of casefold policy =
      let ps = reviewable policy in
      if is_empty ps then default_triggers else record {
        automatic = any (λ p. p.triggers.automatic) ps;
        review_drafts = any (λ p. p.triggers.review_drafts) ps;
        review_updates = any (λ p. p.triggers.review_updates) ps;
        labels = include_union casefold (λ t. t.labels) ps;
        disabled_labels = exclude_union casefold (λ t. t.disabled_labels) ps;
        include_authors = include_union casefold (λ t. t.include_authors) ps;
        exclude_authors = exclude_union casefold (λ t. t.exclude_authors) ps;
        include_branches = include_union casefold (λ t. t.include_branches) ps;
        exclude_branches = exclude_union casefold (λ t. t.exclude_branches) ps;
        include_keywords = include_union casefold (λ t. t.include_keywords) ps;
        exclude_keywords = exclude_union casefold (λ t. t.exclude_keywords) ps;
        file_change_limit = least_limit ps;
        status_check = any (λ p. p.triggers.status_check) ps;
        failure_comment = any (λ p. p.triggers.failure_comment) ps;
        blocking_severities = blocking_of ps;
      }

module _ {C : Type 0} ⦃c : Confidence C⦄ where
  abbrev pub threshold_of : Option (PathPolicy C) → C
  threshold_of none = c.certain
  threshold_of (some p) = p.minimum_confidence

  unfoldable pub threshold_for : ReviewPolicy C → Text → C
  threshold_for policy path = threshold_of (for_path path policy.paths)

  abbrev pub preventative_threshold_of : Option (PathPolicy C) → C
  preventative_threshold_of none = c.certain
  preventative_threshold_of (some p) =
      if not (is_preventative p)
      then c.certain
      else greater p.minimum_confidence p.preventative_security_minimum_confidence

  unfoldable pub preventative_security_threshold_for : ReviewPolicy C → Text → C
  preventative_security_threshold_for policy path =
      preventative_threshold_of (for_path path policy.paths)
