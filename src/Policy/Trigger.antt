-- ===== src/Policy/Trigger.antt =====
-- Whether a pull request starts a review: `evaluate_trigger`.
pub mod Gates
pub mod Union
pub mod Notice
use diffuse.Prelude.{
  ℕ, Bool, true, false, not, ◌&&◌, ◌||◌, Option, none, some, List, [], ◌∷◌, ◌++◌, Text, codes, any,
  text_eq, is_empty, is_infix, ltb, if◌then◌else◌,
}
use diffuse.Glob.{filter_matches}
use diffuse.Policy.{Confidence, TriggerPolicy, PathPolicy, ReviewPolicy}
use diffuse.Policy.Layers.{resolve_review_policy, review_pass_names}
use diffuse.Policy.Patches.{PolicySnapshot}
use diffuse.Policy.Query.{triggers_of}

pub data TriggerKind : Type 0 where
  automatic manual : TriggerKind

abbrev pub is_manual : TriggerKind → Bool
is_manual manual = true
is_manual automatic = false

-- `PullRequestTriggerContext`
pub record TriggerContext : Type 0 where
  pub action : Text
  pub trigger_kind : TriggerKind
  pub metadata_complete : Bool
  pub is_draft : Bool
  pub author : Text
  pub base_branch : Text
  pub labels : List Text
  pub title : Text
  pub description : Text
  pub changed_file_count : ℕ

-- `TriggerDecision.reason_code`, with which `eligible` and the message go.
pub data Decision : Type 0 where
  manual_trigger metadata_unavailable automatic_disabled draft_pull_request : Decision
  updates_disabled file_change_limit disabled_label required_label_missing : Decision
  excluded_author author_not_included excluded_branch branch_not_included : Decision
  excluded_keyword required_keyword_missing automatic_trigger : Decision

-- `TriggerDecision.eligible`
abbrev pub is_eligible : Decision → Bool
is_eligible manual_trigger = true
is_eligible automatic_trigger = true
is_eligible _ = false

-- `_matches_any`
unfoldable pub matches_any : (ℕ → Text) → List Text → List Text → Bool
matches_any lower patterns values =
    any (λ pattern. any (λ value. filter_matches lower pattern value) values) patterns

abbrev pub is_over : Option ℕ → ℕ → Bool
is_over none n = false
is_over (some limit) n = ltb limit n

-- a filter that is there and lets nothing through
abbrev pub misses : (List Text → Bool) → List Text → Bool
misses matches patterns = not (is_empty patterns) && not (matches patterns)

-- `lower` and `casefold` are the methods of `str`, the first on one character.
module _ (lower : ℕ → Text) (casefold : Text → Text) where
  abbrev pub searchable : TriggerContext → Text
  searchable x = casefold (x.title ++ 10 ∷ x.description)

  abbrev pub has_keyword : TriggerContext → List Text → Bool
  has_keyword x keywords = any (λ k. is_infix (casefold k) (searchable x)) keywords

  -- The conditions in their order, for the triggers of the policy.
  unfoldable pub decide : TriggerPolicy → TriggerContext → Decision
  decide t x =
      if not t.automatic
      then automatic_disabled
      else if x.is_draft && not t.review_drafts
      then draft_pull_request
      else if text_eq x.action (codes "synchronize") && not t.review_updates
      then updates_disabled
      else if is_over t.file_change_limit x.changed_file_count
      then file_change_limit
      else if matches_any lower t.disabled_labels x.labels
      then disabled_label
      else if misses (λ ps. matches_any lower ps x.labels) t.labels
      then required_label_missing
      else if matches_any lower t.exclude_authors (x.author ∷ [])
      then excluded_author
      else if misses (λ ps. matches_any lower ps (x.author ∷ [])) t.include_authors
      then author_not_included
      else if matches_any lower t.exclude_branches (x.base_branch ∷ [])
      then excluded_branch
      else if misses (λ ps. matches_any lower ps (x.base_branch ∷ [])) t.include_branches
      then branch_not_included
      else if has_keyword x t.exclude_keywords
      then excluded_keyword
      else if misses (has_keyword x) t.include_keywords
      then required_keyword_missing
      else automatic_trigger

  unfoldable pub evaluate_trigger : {C : Type 0} → ReviewPolicy C → TriggerContext → Decision
  unfolding decide triggers_of
  evaluate_trigger policy x =
      if is_manual x.trigger_kind
      then manual_trigger
      else if not x.metadata_complete
      then metadata_unavailable
      else decide (triggers_of casefold policy) x

-- The synthetic path of `resolve_repository_trigger_policy`.
abbrev pub probe_path : Text
probe_path = codes "__diffuse_failure_notice__"

abbrev pub forced : {C : Type 0} → PathPolicy C → PathPolicy C
forced p = record p { enabled = true; ignored = false }

abbrev pub only_first : {C : Type 0} → ReviewPolicy C → Option (ReviewPolicy C)
only_first policy = elim policy.paths [
  | [] ↦ none
  | p ∷ _ ↦ some (record policy { paths = forced p ∷ [] })
]

-- `resolve_repository_trigger_policy`, with the default confidence of `resolve_review_policy`
unfoldable pub resolve_repository_trigger_policy :
    {C : Type 0} ⦃c : Confidence C⦄ → PolicySnapshot C → C → Option (ReviewPolicy C)
unfolding resolve_review_policy
resolve_repository_trigger_policy policy default_confidence =
    elim (resolve_review_policy policy (probe_path ∷ []) review_pass_names default_confidence
      true) [ none ↦ none | some resolved ↦ only_first resolved ]

-- `repository_failure_comment_enabled`
unfoldable pub repository_failure_comment_enabled :
    {C : Type 0} ⦃c : Confidence C⦄ → (Text → Text) → PolicySnapshot C → C → Option Bool
unfolding resolve_repository_trigger_policy triggers_of
repository_failure_comment_enabled casefold policy default_confidence =
    elim (resolve_repository_trigger_policy policy default_confidence) [
      | none ↦ none
      | some resolved ↦ some (triggers_of casefold resolved).failure_comment
    ]
