-- ===== src/Report/Files.antt =====
-- Which files a review may inspect, and what of a policy the report carries.
pub mod Selection
use diffuse.Prelude.{
  ℕ, ◌-◌, Bool, true, false, Option, none, some, List, [], ◌∷◌, Text, filter, length, is_empty,
  if◌then◌else◌,
}
use diffuse.Policy.{ReviewPolicy, OutputSection}
use diffuse.Policy.Query.{
  allows_path, output_section, footer_included, update_description, summary_comment_enabled,
  diagram_section,
}
use diffuse.Diff.{DiffFile, comment_path}

module _ {C : Type 0} where
  abbrev pub allows_file : ReviewPolicy C → Option Text → Bool
  allows_file policy none = false
  allows_file policy (some path) = allows_path policy path

  -- `reviewable_diff`
  unfoldable pub reviewable_diff : Option (ReviewPolicy C) → List DiffFile → List DiffFile × ℕ
  reviewable_diff none files = (files, 0)
  reviewable_diff (some policy) files =
      let selected = filter (λ f. allows_file policy (comment_path f)) files in
      (selected, length files - length selected)

-- The entries of `review_presentation`.
pub record Presentation : Type 0 where
  pub summary_section : OutputSection
  pub issues_table_section : OutputSection
  pub confidence_score_section : OutputSection
  pub has_footer : Bool
  pub updates_description : Bool
  pub has_summary_comment : Bool
  pub fix_with_agent_enabled : Bool
  pub diagram_collapsible : Bool
  pub diagram_default_open : Bool

unfoldable pub review_presentation : {C : Type 0} → Option (ReviewPolicy C) → Option Presentation
review_presentation none = none
review_presentation (some policy) = some record {
  summary_section = output_section (λ p. p.summary_section) policy;
  issues_table_section = output_section (λ p. p.issues_table_section) policy;
  confidence_score_section = output_section (λ p. p.confidence_score_section) policy;
  has_footer = footer_included policy;
  updates_description = update_description policy;
  has_summary_comment = summary_comment_enabled policy;
  fix_with_agent_enabled = false;
  diagram_collapsible = (diagram_section policy).collapsible;
  diagram_default_open = (diagram_section policy).default_open;
}
