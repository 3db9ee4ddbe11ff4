-- ===== src/Policy/Layers.antt =====
-- The layers of a policy: `resolve_review_policy`.
pub mod Last
pub mod Cascade
pub mod Ignored
use diffuse.Prelude.{
  ℕ, Bool, true, false, not, ◌&&◌, ◌||◌, Option, none, some, List, [], ◌∷◌, ◌++◌, map, Text, codes,
  any, filter, text_eq, text_elem, text_ltb, unique, sort_by, is_empty, length, ◌==◌, if◌then◌else◌,
}
use diffuse.Glob.{path_matches}
use diffuse.Policy.{
  Confidence, ResolvedRule, GuidanceDocument, OutputSection, TriggerPolicy, PathPolicy,
  ReviewPolicy, default_section, default_triggers, is_descendant, relative_to, scope_matches,
}
use diffuse.Policy.Patches.{
  SectionPatch, ReviewPatch, TriggerPatch, RepositoryRule, RuleOverride, PolicyLayer,
  PolicySnapshot, patched, patch_section, keep_limit, patch_triggers, negated,
}
use diffuse.Policy.Names.{validate_repo_path}

-- The entries of the two dictionaries `rule_values` and `rule_enabled` under one key.
pub record RuleEntry : Type 0 where
  pub rule : ResolvedRule
  pub is_on : Bool

abbrev pub has_rule_id : Text → RuleEntry → Bool
has_rule_id id e = text_eq e.rule.id id

-- Assignment under the key `rule.id`.
pub put_rule : RuleEntry → List RuleEntry → List RuleEntry
put_rule e [] = e ∷ []
put_rule e (x ∷ xs) =
    let rest = put_rule e xs in if has_rule_id e.rule.id x then e ∷ xs else x ∷ rest

-- `_resolved_rule`
abbrev pub resolved_rule : RepositoryRule → Text → ResolvedRule
resolved_rule r source = record {
  id = r.id;
  title = r.title;
  guidance = r.guidance;
  severity = r.severity;
  category = r.category;
  source_path = source;
}

pub add_rules : Text → Text → Text → List RepositoryRule → List RuleEntry → List RuleEntry
unfolding put_rule scope_matches
add_rules directory source path [] es = es
add_rules directory source path (r ∷ rs) es =
    let added =
      add_rules directory source path rs
        (put_rule record { rule = resolved_rule r source; is_on = r.rule_enabled } es) in
    let passed = add_rules directory source path rs es in
    if scope_matches directory r.applies_to path then added else passed

-- `override.severity or existing.severity`, where a set severity is not empty
abbrev pub overridden : RuleOverride → RuleEntry → RuleEntry
overridden o e = record {
  rule = record e.rule {
    severity = patched o.override_severity e.rule.severity;
    category = patched o.override_category e.rule.category;
  };
  is_on = patched o.override_enabled e.is_on;
}

pub override_rule : Text → RuleOverride → List RuleEntry → List RuleEntry
override_rule id o [] = []
override_rule id o (e ∷ es) =
    let rest = override_rule id o es in if has_rule_id id e then overridden o e ∷ es else e ∷ rest

pub override_rules : List (Text × RuleOverride) → List RuleEntry → List RuleEntry
unfolding override_rule
override_rules [] es = es
override_rules ((id, o) ∷ os) es = override_rules os (override_rule id o es)

abbrev pub is_ignored_by : List Text → Text → Bool
is_ignored_by patterns relative = any (λ pattern. path_matches pattern relative) patterns

-- The settings of a path that a layer changes, and the rules that are collected on the way.
abbrev pub State : Type 0 → Type 0
State C = PathPolicy C × List RuleEntry

module _ {C : Type 0} where
  -- The loop body, for a layer above the path.
  unfoldable pub apply_layer : Text → PolicyLayer C → State C → State C
  unfolding add_rules override_rules
  apply_layer path l (p, es) = (
    record p {
      enabled = patched l.review.set_enabled p.enabled;
      ignored =
          p.ignored || is_ignored_by l.review.ignored_paths (relative_to l.directory_path path);
      passes = patched l.review.set_passes p.passes;
      minimum_confidence = patched l.review.set_minimum_confidence p.minimum_confidence;
      minimum_severity = patched l.review.set_minimum_severity p.minimum_severity;
      summary_only = patched l.review.set_summary_only p.summary_only;
      respond_to_comments = patched l.review.set_respond_to_comments p.respond_to_comments;
      update_description = patched l.review.set_update_description p.update_description;
      summary_comment = patched l.review.set_summary_comment p.summary_comment;
      summary_section = patch_section l.review.patch_summary p.summary_section;
      issues_table_section = patch_section l.review.patch_issues_table p.issues_table_section;
      confidence_score_section =
          patch_section l.review.patch_confidence_score p.confidence_score_section;
      footer_included = patched (negated l.review.hide_footer) p.footer_included;
      diagram = patch_section l.review.patch_diagram p.diagram;
      context_repositories = patched l.context_repos p.context_repositories;
      preventative_security = patched l.preventative p.preventative_security;
      preventative_security_minimum_confidence =
          patched l.preventative_minimum_confidence p.preventative_security_minimum_confidence;
      triggers = patch_triggers l.trigger_patch p.triggers;
    },
    override_rules l.rule_overrides
        (add_rules l.directory_path l.source_path path l.layer_rules es),
  )

  pub apply_layers : Text → List (PolicyLayer C) → State C → State C
  unfolding apply_layer
  apply_layers path [] st = st
  apply_layers path (l ∷ ls) st =
      let applied = apply_layers path ls (apply_layer path l st) in
      let passed = apply_layers path ls st in
      if is_descendant l.directory_path path then applied else passed

-- The order of the ids of rules.
abbrev pub rule_precedes : RuleEntry → RuleEntry → Bool
rule_precedes a b = text_ltb a.rule.id b.rule.id

module _ {C : Type 0} ⦃c : Confidence C⦄ where
  abbrev pub initial_policy : List Text → C → Text → PathPolicy C
  initial_policy default_passes default_confidence path = record {
    file_path = path;
    enabled = true;
    ignored = false;
    passes = default_passes;
    minimum_confidence = default_confidence;
    minimum_severity = codes "low";
    summary_only = false;
    respond_to_comments = true;
    update_description = false;
    summary_comment = true;
    summary_section = default_section;
    issues_table_section = default_section;
    confidence_score_section = default_section;
    footer_included = true;
    diagram = record { included = true; collapsible = true; default_open = true };
    context_repositories = [];
    preventative_security = false;
    preventative_security_minimum_confidence = c.default_preventative;
    triggers = default_triggers;
    rules = [];
    guidance_documents = [];
  }

  abbrev pub finish_path : List GuidanceDocument → State C → PathPolicy C
  finish_path documents (p, es) = record p {
    rules = map (λ e. e.rule) (filter (λ e. e.is_on) (sort_by rule_precedes es));
    guidance_documents =
        filter (λ d. scope_matches d.directory_path d.applies_to p.file_path) documents;
  }

  unfoldable pub resolve_path : PolicySnapshot C → List Text → C → Text → PathPolicy C
  unfolding apply_layers scope_matches
  resolve_path policy default_passes default_confidence path =
      finish_path policy.documents (
        apply_layers path policy.layers (initial_policy default_passes default_confidence path, []))

-- `validate_repo_path` of every path; `none` where one raises.
pub validate_all : List Text → Option (List Text)
unfolding validate_repo_path
validate_all [] = some []
validate_all (p ∷ ps) = elim (validate_repo_path p) [
  | none ↦ none
  | some v ↦ elim (validate_all ps) [ none ↦ none | some vs ↦ some (v ∷ vs) ]
]

abbrev pub review_pass_names : List Text
review_pass_names =
    codes "correctness" ∷ codes "security" ∷ codes "performance" ∷ codes "tests" ∷ []

abbrev pub are_bad_passes : List Text → Bool
are_bad_passes passes =
    is_empty passes
    || not (length (unique passes) == length passes)
    || any (λ p. not (text_elem p review_pass_names)) passes

-- `resolve_review_policy`; `none` where it raises. `in_range` says that the default confidence is
-- between 0 and 1.
unfoldable pub resolve_review_policy :
    {C : Type 0} ⦃c : Confidence C⦄
    → PolicySnapshot C
    → List Text
    → List Text
    → C
    → Bool
    → Option (ReviewPolicy C)
unfolding resolve_path validate_all
resolve_review_policy policy paths default_passes default_confidence in_range =
    if are_bad_passes default_passes || not in_range then none else elim (validate_all paths) [
      | none ↦ none
      | some vs ↦ some record {
        paths =
            map (resolve_path policy default_passes default_confidence)
              (sort_by text_ltb (unique vs));
        learned_rules = [];
        custom_contexts = [];
      }
    ]
