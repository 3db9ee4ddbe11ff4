-- ===== src/Policy/Neutral.antt =====
-- packages/protocol/src/diffuse_protocol/prompt.py: structural tags are taken out of untrusted text.
pub mod Clean
use diffuse.Prelude.{
  ℕ, zero, suc, ◌+◌, Bool, true, false, ◌&&◌, ◌||◌, Option, none, some, List, [], ◌∷◌, ◌++◌, Text,
  codes, any, is_some, ◌==◌, if◌then◌else◌,
}

abbrev pub less_than : ℕ
less_than = 60

abbrev pub greater_than : ℕ
greater_than = 62

abbrev pub solidus : ℕ
solidus = 47

-- `PROMPT_STRUCTURAL_TAGS`
abbrev pub prompt_structural_tags : List Text
prompt_structural_tags =
    codes "untrusted_repository_policy"
    ∷ codes "untrusted_pull_request_diff"
    ∷ codes "untrusted_retrieved_repository_context"
    ∷ codes "untrusted_original_diff_hunk"
    ∷ codes "untrusted_prior_thread_conversation"
    ∷ codes "untrusted_human_question"
    ∷ codes "untrusted_repository_sources_json"
    ∷ codes "untrusted_candidates"
    ∷ codes "untrusted_review_feedback_json"
    ∷ codes "diffuse_finding_json"
    ∷ codes "repository_review_policy_json"
    ∷ codes "diffuse_security_policy_json"
    ∷ codes "changed_paths_json"
    ∷ []

-- `NEUTRALIZED_DELIMITER`
abbrev pub neutralized_delimiter : Text
neutralized_delimiter = codes "[diffuse removed a forged prompt delimiter]"

-- `[^>]*>`
abbrev pub closes : Text → Bool
closes [] = false
closes (c ∷ s) = c == greater_than || closes s

-- `/?`
abbrev pub skip_solidus : Text → Text
skip_solidus [] = []
skip_solidus (c ∷ s) = if c == solidus then s else c ∷ s

-- `white` is `\s`, and `folded` the letter that IGNORECASE compares for a character.
module _ (white : ℕ → Bool) (folded : ℕ → ℕ) where
  -- `\s*`
  abbrev pub skip_white : Text → Text
  skip_white [] = []
  skip_white (c ∷ s) = let rest = skip_white s in if white c then rest else c ∷ s

  -- The name of a tag and the rest of the tag.
  abbrev pub is_named : Text → Text → Bool
  is_named [] s = closes s
  is_named (n ∷ name) [] = false
  is_named (n ∷ name) (c ∷ s) = folded c == n && is_named name s

  -- `_STRUCTURAL_TAG_PATTERN` behind its `<`
  unfoldable pub is_structural_tag : Text → Bool
  is_structural_tag s =
      let rest = skip_white (skip_solidus (skip_white s)) in
      any (λ name. is_named name rest) prompt_structural_tags

  -- The substitution: a tag goes up to the next `>`, which `inside` waits for.
  pub substitute : Bool → Text → Text
  unfolding is_structural_tag
  substitute inside [] = []
  substitute true (c ∷ s) =
      let still = substitute true s in
      let after = substitute false s in if c == greater_than then after else still
  substitute false (c ∷ s) =
      let tag = neutralized_delimiter ++ substitute true s in
      let kept = c ∷ substitute false s in
      if c == less_than && is_structural_tag s then tag else kept

  -- `neutralize_prompt_delimiters`
  unfoldable pub neutralize_prompt_delimiters : Text → Text
  unfolding substitute
  neutralize_prompt_delimiters = substitute false
