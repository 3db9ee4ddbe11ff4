-- ===== src/Policy/Patches.antt =====
-- What one configuration file of a repository says, as `RepositoryConfig` of models.py reads it, and how
-- a patch changes the settings so far.
use diffuse.Prelude.{ℕ, Bool, not, Option, none, some, List, Text}
use diffuse.Policy.{GuidanceDocument, OutputSection, TriggerPolicy}

-- `OutputSectionSettingsPatch`
pub record SectionPatch : Type 0 where
  pub set_included : Option Bool
  pub set_collapsible : Option Bool
  pub set_default_open : Option Bool

-- `ReviewSettingsPatch`
pub record ReviewPatch (C : Type 0) : Type 0 where
  pub set_enabled : Option Bool
  pub set_passes : Option (List Text)
  pub set_minimum_confidence : Option C
  pub set_minimum_severity : Option Text
  pub ignored_paths : List Text
  pub set_summary_only : Option Bool
  pub set_respond_to_comments : Option Bool
  pub set_update_description : Option Bool
  pub set_summary_comment : Option Bool
  pub patch_summary : SectionPatch
  pub patch_issues_table : SectionPatch
  pub patch_confidence_score : SectionPatch
  pub patch_diagram : SectionPatch
  pub hide_footer : Option Bool

-- `TriggerSettingsPatch`
pub record TriggerPatch : Type 0 where
  pub set_automatic : Option Bool
  pub set_review_drafts : Option Bool
  pub set_review_updates : Option Bool
  pub set_labels : Option (List Text)
  pub set_disabled_labels : Option (List Text)
  pub set_include_authors : Option (List Text)
  pub set_exclude_authors : Option (List Text)
  pub set_include_branches : Option (List Text)
  pub set_exclude_branches : Option (List Text)
  pub set_include_keywords : Option (List Text)
  pub set_exclude_keywords : Option (List Text)
  pub set_file_change_limit : Option ℕ
  pub set_status_check : Option Bool
  pub set_failure_comment : Option Bool
  pub set_blocking_severities : Option (List Text)

-- `RepositoryRule`
pub record RepositoryRule : Type 0 where
  pub id : Text
  pub title : Text
  pub guidance : Text
  pub applies_to : List Text
  pub rule_enabled : Bool
  pub severity : Text
  pub category : Text

-- `RuleOverride`
pub record RuleOverride : Type 0 where
  pub override_enabled : Option Bool
  pub override_severity : Option Text
  pub override_category : Option Text

-- `PolicyLayer` with the `RepositoryConfig` in it. `rule_overrides` is a dictionary there, listed in
-- its order.
pub record PolicyLayer (C : Type 0) : Type 0 where
  pub directory_path : Text
  pub source_path : Text
  pub review : ReviewPatch C
  pub trigger_patch : TriggerPatch
  pub context_repos : Option (List Text)
  pub preventative : Option Bool
  pub preventative_minimum_confidence : Option C
  pub layer_rules : List RepositoryRule
  pub rule_overrides : List (Text × RuleOverride)

-- `RepositoryPolicySnapshot`, without the fingerprint
pub record PolicySnapshot (C : Type 0) : Type 0 where
  pub layers : List (PolicyLayer C)
  pub documents : List GuidanceDocument

-- `patch.x if patch.x is not None else x`
abbrev pub patched {ℓ} : {A : Type ℓ} → Option A → A → A
patched none a = a
patched (some b) a = b

abbrev pub patch_section : SectionPatch → OutputSection → OutputSection
patch_section p s = record {
  included = patched p.set_included s.included;
  collapsible = patched p.set_collapsible s.collapsible;
  default_open = patched p.set_default_open s.default_open;
}

abbrev pub keep_limit : Option ℕ → Option ℕ → Option ℕ
keep_limit none limit = limit
keep_limit (some n) limit = some n

abbrev pub patch_triggers : TriggerPatch → TriggerPolicy → TriggerPolicy
patch_triggers p t = record {
  automatic = patched p.set_automatic t.automatic;
  review_drafts = patched p.set_review_drafts t.review_drafts;
  review_updates = patched p.set_review_updates t.review_updates;
  labels = patched p.set_labels t.labels;
  disabled_labels = patched p.set_disabled_labels t.disabled_labels;
  include_authors = patched p.set_include_authors t.include_authors;
  exclude_authors = patched p.set_exclude_authors t.exclude_authors;
  include_branches = patched p.set_include_branches t.include_branches;
  exclude_branches = patched p.set_exclude_branches t.exclude_branches;
  include_keywords = patched p.set_include_keywords t.include_keywords;
  exclude_keywords = patched p.set_exclude_keywords t.exclude_keywords;
  file_change_limit = keep_limit p.set_file_change_limit t.file_change_limit;
  status_check = patched p.set_status_check t.status_check;
  failure_comment = patched p.set_failure_comment t.failure_comment;
  blocking_severities = patched p.set_blocking_severities t.blocking_severities;
}

abbrev pub negated : Option Bool → Option Bool
negated none = none
negated (some b) = some (not b)
