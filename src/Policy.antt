-- ===== src/Policy.antt =====
-- packages/server/src/diffuse/repository/policy: what a repository's committed configuration says of
-- a review. This file holds the records of models.py and resolve.py; the children hold the functions.
pub mod Names
pub mod Patches
pub mod Layers
pub mod Query
pub mod Trigger
pub mod Learned
pub mod Neutral
pub mod Prompt
mod Examples
use diffuse.Prelude.{
  is_empty, ℕ, Bool, true, false, not, ◌&&◌, ◌||◌, Option, none, some, List, [], ◌∷◌, ◌++◌, Text,
  codes, drop, length, any, text_eq, is_some, strip_prefix, ◌+◌, if◌then◌else◌,
}
use diffuse.Glob.{path_matches}

-- What the code does with the floating-point confidences: it compares them and has two constants.
pub record Confidence (C : Type 0) : Type 0 where
  pub lt : C → C → Bool
  pub certain : C
  pub default_preventative : C

-- Python's `min` and `max` of two values keep the first of two that are equal.
module _ {C : Type 0} ⦃c : Confidence C⦄ where
  abbrev pub lesser : C → C → C
  lesser x y = if c.lt y x then y else x

  abbrev pub greater : C → C → C
  greater x y = if c.lt x y then y else x

pub record ResolvedRule : Type 0 where
  pub id : Text
  pub title : Text
  pub guidance : Text
  pub severity : Text
  pub category : Text
  pub source_path : Text

-- without the priority, by which the documents were put in order before they came here
pub record GuidanceDocument : Type 0 where
  pub directory_path : Text
  pub source_path : Text
  pub kind : Text
  pub applies_to : List Text
  pub content : Text
  pub content_hash : Text
  pub description : Option Text

pub record OutputSection : Type 0 where
  pub included : Bool
  pub collapsible : Bool
  pub default_open : Bool

-- `ResolvedTriggerPolicy`
pub record TriggerPolicy : Type 0 where
  pub automatic : Bool
  pub review_drafts : Bool
  pub review_updates : Bool
  pub labels : List Text
  pub disabled_labels : List Text
  pub include_authors : List Text
  pub exclude_authors : List Text
  pub include_branches : List Text
  pub exclude_branches : List Text
  pub include_keywords : List Text
  pub exclude_keywords : List Text
  pub file_change_limit : Option ℕ
  pub status_check : Bool
  pub failure_comment : Bool
  pub blocking_severities : List Text

-- `ResolvedPathPolicy`
pub record PathPolicy (C : Type 0) : Type 0 where
  pub file_path : Text
  pub enabled : Bool
  pub ignored : Bool
  pub passes : List Text
  pub minimum_confidence : C
  pub minimum_severity : Text
  pub summary_only : Bool
  pub respond_to_comments : Bool
  pub update_description : Bool
  pub summary_comment : Bool
  pub summary_section : OutputSection
  pub issues_table_section : OutputSection
  pub confidence_score_section : OutputSection
  pub footer_included : Bool
  pub diagram : OutputSection
  pub context_repositories : List Text
  pub preventative_security : Bool
  pub preventative_security_minimum_confidence : C
  pub triggers : TriggerPolicy
  pub rules : List ResolvedRule
  pub guidance_documents : List GuidanceDocument

-- `ApprovedLearnedRule`
pub record LearnedRule : Type 0 where
  pub rule_id : ℕ
  pub version : ℕ
  pub title : Text
  pub guidance : Text
  pub applies_to : List Text
  pub severity : Text
  pub category : Text

-- `ApprovedCustomContext`, without the metadata, which only the fingerprint reads
pub record CustomContext : Type 0 where
  pub context_id : ℕ
  pub context_type : Text
  pub body : Text
  pub applies_to : List Text

-- `ResolvedReviewPolicy`, without the two fingerprints, which are digests of the rest
pub record ReviewPolicy (C : Type 0) : Type 0 where
  pub paths : List (PathPolicy C)
  pub learned_rules : List LearnedRule
  pub custom_contexts : List CustomContext

abbrev pub default_section : OutputSection
default_section = record { included = true; collapsible = false; default_open = true }

abbrev pub critical_and_high : List Text
critical_and_high = codes "critical" ∷ codes "high" ∷ []

abbrev pub default_triggers : TriggerPolicy
default_triggers = record {
  automatic = true;
  review_drafts = false;
  review_updates = true;
  labels = [];
  disabled_labels = [];
  include_authors = [];
  exclude_authors = [];
  include_branches = [];
  exclude_branches = [];
  include_keywords = [];
  exclude_keywords = [];
  file_change_limit = none;
  status_check = false;
  failure_comment = true;
  blocking_severities = critical_and_high;
}

-- `reviewable`
abbrev pub is_reviewable : {C : Type 0} → PathPolicy C → Bool
is_reviewable p = p.enabled && not p.ignored

-- `_is_descendant`
abbrev pub is_descendant : Text → Text → Bool
is_descendant directory path =
    is_empty directory
    || text_eq path directory
    || is_some (strip_prefix (directory ++ codes "/") path)

-- `_relative_to`
abbrev pub relative_to : Text → Text → Text
relative_to directory path =
    if is_empty directory
    then path
    else if text_eq path directory
    then []
    else drop (length directory + 1) path

-- `_scope_matches`
pub scope_matches : Text → List Text → Text → Bool
scope_matches directory patterns path =
    is_descendant directory path
    && any (λ pattern. path_matches pattern (relative_to directory path)) patterns
