-- ===== src/Policy/Trigger/Gates.antt =====
-- Which pull requests start a review, whatever the order of the reasons against it.
use diffuse.Prelude.{
  ℕ, ◌≡◌, refl, inl, inr, Bool, true, false, not, ◌&&◌, ◌||◌, List, [], ◌∷◌, Text, codes, any, all,
  is_empty, arith, ap, ◌∙◌, sym, All, text_eq, if◌then◌else◌, Bool-cases,
}
use diffuse.Policy.{TriggerPolicy, PathPolicy, ReviewPolicy, default_triggers}
use diffuse.Policy.Trigger.Union.{Excludes, Includes, triggers_of-switches, triggers_of-decides}
use diffuse.Policy.Query.{triggers_of, reviewable}
use diffuse.Policy.Trigger.{
  TriggerContext, Decision, automatic_trigger, automatic_disabled, draft_pull_request,
  updates_disabled, file_change_limit, disabled_label, required_label_missing, excluded_author,
  author_not_included, excluded_branch, branch_not_included, excluded_keyword,
  required_keyword_missing, is_eligible, matches_any, is_over, misses, has_keyword, decide,
  is_manual, evaluate_trigger,
}

-- The first condition that holds gives the decision.
first_reason : List (Bool × Decision) → Decision
first_reason [] = automatic_trigger
first_reason ((b, reason) ∷ rs) = if b then reason else first_reason rs

first_reason-eligible :
    (rs : List (Bool × Decision))
    → All (λ r. is_eligible r.1 ≡ false) rs
    → is_eligible (first_reason rs) ≡ not (any (λ r. r.0) rs)
unfolding first_reason
first_reason-eligible [] h = refl
first_reason-eligible ((true, reason) ∷ rs) h = h.0
first_reason-eligible ((false, reason) ∷ rs) h = first_reason-eligible rs h.1

switched : (a b c : Bool) → b ≡ c → not (a && not b) ≡ (not a || c)
switched true true c e = e
switched true false c e = e
switched false b c e = refl

twice : (b c : Bool) → b ≡ c → not (not b) ≡ c
twice true c e = e
twice false c e = e

unless : (a rest c d : Bool) → not a ≡ c → not rest ≡ d → not (a || rest) ≡ (c && d)
unless true rest c d e f = rw (sym e) refl
unless false rest c d e f = rw (sym e) f

module _ (lower : ℕ → Text) (casefold : Text → Text) where
  -- What speaks against a pull request.
  abbrev pub objections : TriggerPolicy → TriggerContext → List (Bool × Decision)
  objections t x =
      (not t.automatic, automatic_disabled)
      ∷ (x.is_draft && not t.review_drafts, draft_pull_request)
      ∷ (text_eq x.action (codes "synchronize") && not t.review_updates, updates_disabled)
      ∷ (is_over t.file_change_limit x.changed_file_count, file_change_limit)
      ∷ (matches_any lower t.disabled_labels x.labels, disabled_label)
      ∷ (misses (λ ps. matches_any lower ps x.labels) t.labels, required_label_missing)
      ∷ (matches_any lower t.exclude_authors (x.author ∷ []), excluded_author)
      ∷ (misses (λ ps. matches_any lower ps (x.author ∷ [])) t.include_authors, author_not_included)
      ∷ (matches_any lower t.exclude_branches (x.base_branch ∷ []), excluded_branch)
      ∷ (
        misses (λ ps. matches_any lower ps (x.base_branch ∷ [])) t.include_branches,
        branch_not_included,
      )
      ∷ (has_keyword lower casefold x t.exclude_keywords, excluded_keyword)
      ∷ (misses (has_keyword lower casefold x) t.include_keywords, required_keyword_missing)
      ∷ []

  abbrev pub is_admitted : TriggerPolicy → TriggerContext → Bool
  is_admitted t x = not (any (λ r. r.0) (objections t x))

  decide-admitted :
      (t : TriggerPolicy) (x : TriggerContext)
      → is_eligible (decide lower casefold t x) ≡ is_admitted t x
  unfolding decide first_reason
  decide-admitted t x = first_reason-eligible (objections t x) (
    refl,
    (refl, (refl, (refl, (refl, (refl, (refl, (refl, (refl, (refl, (refl, (refl, tt))))))))))),
  )

  admitted_by_default : (x : TriggerContext) → is_admitted default_triggers x ≡ not x.is_draft
  unfolding matches_any
  admitted_by_default x = elim (Bool-cases x.is_draft) [
    | inl d ↦ rw d refl
    | inr d ↦ rw d (by_action (text_eq x.action (codes "synchronize")))
  ]
    where
      by_action : (b : Bool) → not ((b && false) || false) ≡ true
      by_action true = refl
      by_action false = refl

  module _ {C : Type 0} where
    -- Some path has no such filter, or one that lets the pull request through.
    abbrev pub some_lets :
        (TriggerPolicy → List Text) → (List Text → Bool) → List (PathPolicy C) → Bool
    some_lets field matches ps =
        any (λ p. is_empty (field p.triggers) || matches (field p.triggers)) ps

    abbrev pub none_stops :
        (TriggerPolicy → List Text) → (List Text → Bool) → List (PathPolicy C) → Bool
    none_stops field matches ps = all (λ p. not (matches (field p.triggers))) ps

    -- What the paths, each with its own triggers, say of a pull request.
    abbrev pub is_wanted : List (PathPolicy C) → TriggerContext → Bool
    is_wanted ps x =
        let labelled : List Text → Bool = λ ts. matches_any lower ts x.labels in
        let authored : List Text → Bool = λ ts. matches_any lower ts (x.author ∷ []) in
        let based : List Text → Bool = λ ts. matches_any lower ts (x.base_branch ∷ []) in
        let worded : List Text → Bool = has_keyword lower casefold x in
        all (λ b. b)
          (any (λ p. p.triggers.automatic) ps
            ∷ (not x.is_draft || any (λ p. p.triggers.review_drafts) ps)
            ∷ (not (text_eq x.action (codes "synchronize"))
                || any (λ p. p.triggers.review_updates) ps)
            ∷ all (λ p. not (is_over p.triggers.file_change_limit x.changed_file_count)) ps
            ∷ none_stops (λ t. t.disabled_labels) labelled ps
            ∷ some_lets (λ t. t.labels) labelled ps
            ∷ none_stops (λ t. t.exclude_authors) authored ps
            ∷ some_lets (λ t. t.include_authors) authored ps
            ∷ none_stops (λ t. t.exclude_branches) based ps
            ∷ some_lets (λ t. t.include_branches) based ps
            ∷ none_stops (λ t. t.exclude_keywords) worded ps
            ∷ some_lets (λ t. t.include_keywords) worded ps
            ∷ [])

    not-any :
        (q : PathPolicy C → Bool) (ps : List (PathPolicy C))
        → not (any q ps) ≡ all (λ p. not (q p)) ps
    not-any q [] = refl
    not-any q (p ∷ ps) = ground (arith, not-any q ps)

    not-misses :
        (field : TriggerPolicy → List Text) (matches : List Text → Bool) (ps : List (PathPolicy C))
        → not (all (λ p. misses matches (field p.triggers)) ps) ≡ some_lets field matches ps
    not-misses field matches [] = refl
    not-misses field matches (p ∷ ps) = ground (arith, not-misses field matches ps)

    module _ (policy : ReviewPolicy C) where
      stopped :
          (field : TriggerPolicy → List Text) (matches : List Text → Bool)
          → Excludes lower casefold policy field matches
          → not (matches (field (triggers_of casefold policy)))
            ≡ none_stops field matches (reviewable policy)
      stopped field matches e =
          ap not e ∙ not-any (λ p. matches (field p.triggers)) (reviewable policy)

      passed :
          (field : TriggerPolicy → List Text) (matches : List Text → Bool)
          → Includes lower casefold policy field matches
          → not (misses matches (field (triggers_of casefold policy)))
            ≡ some_lets field matches (reviewable policy)
      passed field matches e = ap not e ∙ not-misses field matches (reviewable policy)

      paths_decide :
          (x : TriggerContext)
          → is_empty (reviewable policy) ≡ false
          → is_admitted (triggers_of casefold policy) x ≡ is_wanted (reviewable policy) x
      paths_decide x some_path =
          let (auto, drafts, updates, limits) =
            triggers_of-switches casefold policy x.changed_file_count some_path in
          let decides =
            λ (values : List Text). triggers_of-decides lower casefold policy values x some_path in
          let (no_label, _, _, no_word, label, _, _, word) = decides x.labels in
          let (_, no_author, _, _, _, author, _, _) = decides (x.author ∷ []) in
          let (_, _, no_branch, _, _, _, branch, _) = decides (x.base_branch ∷ []) in
          let labelled : List Text → Bool = λ ts. matches_any lower ts x.labels in
          let authored : List Text → Bool = λ ts. matches_any lower ts (x.author ∷ []) in
          let based : List Text → Bool = λ ts. matches_any lower ts (x.base_branch ∷ []) in
          let worded : List Text → Bool = has_keyword lower casefold x in
          unless _ _ _ _ (twice _ _ auto) (
            unless _ _ _ _ (switched x.is_draft _ _ drafts) (
              unless _ _ _ _ (switched (text_eq x.action (codes "synchronize")) _ _ updates) (
                unless _ _ _ _ (ap not limits ∙ not-any _ (reviewable policy)) (
                  unless _ _ _ _ (stopped (λ t. t.disabled_labels) labelled no_label) (
                    unless _ _ _ _ (passed (λ t. t.labels) labelled label) (
                      unless _ _ _ _ (stopped (λ t. t.exclude_authors) authored no_author) (
                        unless _ _ _ _ (passed (λ t. t.include_authors) authored author) (
                          unless _ _ _ _ (stopped (λ t. t.exclude_branches) based no_branch) (
                            unless _ _ _ _ (passed (λ t. t.include_branches) based branch) (
                              unless _ _ _ _ (stopped (λ t. t.exclude_keywords) worded no_word) (
                                unless _ _ _ _ (passed (λ t. t.include_keywords) worded word)
                                  refl)))))))))))

  -- A review starts on a manual trigger. On an automatic one it starts exactly if the metadata are
  -- complete and: where no path is reviewable, the pull request is no draft; otherwise some reviewable
  -- path is automatic; some reviews drafts, if this is one; some reviews updates, if this is one; no
  -- path's limit of changed files is passed; and for labels, author, base branch and keywords alike, no
  -- path's excluded list matches, and some path's list of required ones is empty or matches.
  pub evaluate_trigger_by_path :
      {C : Type 0} (policy : ReviewPolicy C) (x : TriggerContext)
      → is_eligible (evaluate_trigger lower casefold policy x) ≡ (
          is_manual x.trigger_kind
          || (x.metadata_complete
              && (if is_empty (reviewable policy)
                  then not x.is_draft
                  else is_wanted (reviewable policy) x)))
  unfolding evaluate_trigger triggers_of
  evaluate_trigger_by_path policy x = elim (Bool-cases (is_manual x.trigger_kind)) [
    | inl m ↦ rw m refl
    | inr m ↦ rw m elim (Bool-cases x.metadata_complete) [
      | inl c ↦ rw c (
          decide-admitted (triggers_of casefold policy) x
          ∙ elim (Bool-cases (is_empty (reviewable policy))) [
            | inl e ↦ rw e (admitted_by_default x)
            | inr e ↦ paths_decide policy x e ∙ sym (rw e refl)
          ])
      | inr c ↦ rw c refl
    ]
  ]
