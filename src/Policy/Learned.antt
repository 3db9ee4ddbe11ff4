-- ===== src/Policy/Learned.antt =====
-- What operators add to a resolved policy: approved rules and contexts.
pub mod Beneath
use diffuse.Prelude.{
  ℕ, ◌+◌, Bool, true, false, not, ◌&&◌, ◌||◌, Option, none, some, List, [], ◌∷◌, ◌++◌, map, Text,
  codes, any, filter, length, elem, sort_by, is_empty, ltb, if◌then◌else◌,
}
use diffuse.Glob.{path_matches}
use diffuse.Policy.{
  ResolvedRule, GuidanceDocument, PathPolicy, LearnedRule, CustomContext, ReviewPolicy,
}

-- `len(ids) != len(set(ids))`
abbrev pub has_repetition : List ℕ → Bool
has_repetition [] = false
has_repetition (i ∷ is) = elem i is || has_repetition is

abbrev pub applies : List Text → Text → Bool
applies patterns path = any (λ pattern. path_matches pattern path) patterns

abbrev pub with_rules : {C : Type 0} → List ResolvedRule → PathPolicy C → PathPolicy C
with_rules rules p = record p { rules = rules ++ p.rules }

abbrev pub with_documents : {C : Type 0} → List GuidanceDocument → PathPolicy C → PathPolicy C
with_documents documents p = record p { guidance_documents = documents ++ p.guidance_documents }

abbrev pub rule_before : LearnedRule → LearnedRule → Bool
rule_before a b = ltb a.rule_id b.rule_id

abbrev pub context_before : CustomContext → CustomContext → Bool
context_before a b = ltb a.context_id b.context_id

-- `show` is the decimal text of a number.
module _ (show : ℕ → Text) where
  abbrev pub learned_rule : LearnedRule → ResolvedRule
  learned_rule r = record {
    id = codes "learned-" ++ show r.rule_id;
    title = r.title;
    guidance = r.guidance;
    severity = r.severity;
    category = r.category;
    source_path =
        codes "diffuse://learned-rules/" ++ show r.rule_id ++ codes "/versions/" ++ show r.version;
  }

  abbrev pub learned_for : List LearnedRule → Text → List ResolvedRule
  learned_for rules path = map learned_rule (filter (λ r. applies r.applies_to path) rules)

  -- `apply_approved_learned_rules`; `none` where it raises.
  unfoldable pub apply_approved_learned_rules :
      {C : Type 0} → ReviewPolicy C → List LearnedRule → Option (ReviewPolicy C)
  apply_approved_learned_rules policy rules =
      if is_empty rules
      then some policy
      else if ltb 100 (length rules)
      then none
      else if has_repetition (map (λ r. r.rule_id) rules)
      then none
      else let ordered = sort_by rule_before rules in
        some record policy {
          paths = map (λ p. with_rules (learned_for ordered p.file_path) p) policy.paths;
          learned_rules = ordered;
        }

  -- `digest` is the SHA-256 digest of a text.
  abbrev pub context_document : (Text → Text) → CustomContext → GuidanceDocument
  context_document digest x = record {
    directory_path = [];
    source_path = codes "diffuse://custom-context/" ++ show x.context_id;
    kind = codes "context";
    applies_to = x.applies_to;
    content = x.body;
    content_hash = digest x.body;
    description = some (codes "Operator-managed " ++ x.context_type);
  }

  abbrev pub contexts_for : (Text → Text) → List CustomContext → Text → List GuidanceDocument
  contexts_for digest contexts path =
      map (context_document digest) (filter (λ x. applies x.applies_to path) contexts)

  -- `apply_approved_custom_contexts`; `none` where it raises.
  unfoldable pub apply_approved_custom_contexts :
      {C : Type 0} → (Text → Text) → ReviewPolicy C → List CustomContext → Option (ReviewPolicy C)
  apply_approved_custom_contexts digest policy contexts =
      if is_empty contexts
      then some policy
      else if ltb 100 (length contexts)
      then none
      else if has_repetition (map (λ x. x.context_id) contexts)
      then none
      else let ordered = sort_by context_before contexts in
        some record policy {
          paths =
              map (λ p. with_documents (contexts_for digest ordered p.file_path) p) policy.paths;
          custom_contexts = ordered;
        }
