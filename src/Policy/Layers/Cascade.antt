-- ===== src/Policy/Layers/Cascade.antt =====
-- What the cascade of layers comes to: for each setting the last layer above the path that sets it.
use diffuse.Prelude.{◌∙◌, Bool, ◌≡◌, refl, true, false, List, [], ◌∷◌, Text, codes}
use diffuse.Policy.{Confidence, PathPolicy, OutputSection, TriggerPolicy}
use diffuse.Policy.Layers.{State, apply_layer, initial_policy, resolve_path}
use diffuse.Policy.Patches.{SectionPatch, PolicyLayer, PolicySnapshot, patched, negated}
use diffuse.Policy.Layers.Last.{last_set, cascade, cascade_limit, keep_limit-none}

module _ {C : Type 0} where
  -- The three settings of a section, each read off the layers on its own, or its default.
  pub record CascadesSection (layers : List (PolicyLayer C)) (path : Text)
      (patch : PolicyLayer C → SectionPatch) (included collapsible default_open : Bool)
      (s : OutputSection) : Type 0 where
    pub has_included :
        s.included ≡ patched (last_set path (λ l. (patch l).set_included) layers) included
    pub has_collapsible :
        s.collapsible ≡ patched (last_set path (λ l. (patch l).set_collapsible) layers) collapsible
    pub has_default_open :
        s.default_open
        ≡ patched (last_set path (λ l. (patch l).set_default_open) layers) default_open

  -- The fifteen settings of the triggers.
  pub record CascadesTriggers (layers : List (PolicyLayer C)) (path : Text) (t : TriggerPolicy)
      : Type 0 where
    pub is_automatic :
        t.automatic ≡ patched (last_set path (λ l. l.trigger_patch.set_automatic) layers) true
    pub reviews_drafts :
        t.review_drafts
        ≡ patched (last_set path (λ l. l.trigger_patch.set_review_drafts) layers) false
    pub reviews_updates :
        t.review_updates
        ≡ patched (last_set path (λ l. l.trigger_patch.set_review_updates) layers) true
    pub has_labels : t.labels ≡ patched (last_set path (λ l. l.trigger_patch.set_labels) layers) []
    pub has_disabled_labels :
        t.disabled_labels
        ≡ patched (last_set path (λ l. l.trigger_patch.set_disabled_labels) layers) []
    pub includes_authors :
        t.include_authors
        ≡ patched (last_set path (λ l. l.trigger_patch.set_include_authors) layers) []
    pub excludes_authors :
        t.exclude_authors
        ≡ patched (last_set path (λ l. l.trigger_patch.set_exclude_authors) layers) []
    pub includes_branches :
        t.include_branches
        ≡ patched (last_set path (λ l. l.trigger_patch.set_include_branches) layers) []
    pub excludes_branches :
        t.exclude_branches
        ≡ patched (last_set path (λ l. l.trigger_patch.set_exclude_branches) layers) []
    pub includes_keywords :
        t.include_keywords
        ≡ patched (last_set path (λ l. l.trigger_patch.set_include_keywords) layers) []
    pub excludes_keywords :
        t.exclude_keywords
        ≡ patched (last_set path (λ l. l.trigger_patch.set_exclude_keywords) layers) []
    pub has_status_check :
        t.status_check
        ≡ patched (last_set path (λ l. l.trigger_patch.set_status_check) layers) false
    pub comments_failure :
        t.failure_comment
        ≡ patched (last_set path (λ l. l.trigger_patch.set_failure_comment) layers) true
    pub blocks :
        t.blocking_severities
        ≡ patched
            (last_set path (λ l. l.trigger_patch.set_blocking_severities) layers)
            (codes "critical" ∷ codes "high" ∷ [])
    pub has_limit :
        t.file_change_limit ≡ last_set path (λ l. l.trigger_patch.set_file_change_limit) layers

module _ {C : Type 0} ⦃c : Confidence C⦄ where
  -- The settings of a resolved path, each read off the layers on its own.
  pub record Cascades (policy : PolicySnapshot C) (passes : List Text) (confidence : C)
      (path : Text) (r : PathPolicy C) : Type 0 where
    pub is_enabled :
        r.enabled ≡ patched (last_set path (λ l. l.review.set_enabled) policy.layers) true
    pub has_passes :
        r.passes ≡ patched (last_set path (λ l. l.review.set_passes) policy.layers) passes
    pub has_confidence :
        r.minimum_confidence
        ≡ patched (last_set path (λ l. l.review.set_minimum_confidence) policy.layers) confidence
    pub has_severity :
        r.minimum_severity
        ≡ patched (last_set path (λ l. l.review.set_minimum_severity) policy.layers) (codes "low")
    pub is_summary_only :
        r.summary_only
        ≡ patched (last_set path (λ l. l.review.set_summary_only) policy.layers) false
    pub responds :
        r.respond_to_comments
        ≡ patched (last_set path (λ l. l.review.set_respond_to_comments) policy.layers) true
    pub updates_description :
        r.update_description
        ≡ patched (last_set path (λ l. l.review.set_update_description) policy.layers) false
    pub comments_summary :
        r.summary_comment
        ≡ patched (last_set path (λ l. l.review.set_summary_comment) policy.layers) true
    pub has_footer :
        r.footer_included
        ≡ patched (last_set path (λ l. negated l.review.hide_footer) policy.layers) true
    pub has_repositories :
        r.context_repositories ≡ patched (last_set path (λ l. l.context_repos) policy.layers) []
    pub is_preventative :
        r.preventative_security ≡ patched (last_set path (λ l. l.preventative) policy.layers) false
    pub has_preventative_confidence :
        r.preventative_security_minimum_confidence
        ≡ patched
            (last_set path (λ l. l.preventative_minimum_confidence) policy.layers)
            c.default_preventative
    pub cascades_summary :
        CascadesSection policy.layers path
          (λ l. l.review.patch_summary)
          true
          false
          true
          r.summary_section
    pub cascades_issues_table :
        CascadesSection policy.layers path
          (λ l. l.review.patch_issues_table)
          true
          false
          true
          r.issues_table_section
    pub cascades_confidence_score :
        CascadesSection policy.layers path
          (λ l. l.review.patch_confidence_score)
          true
          false
          true
          r.confidence_score_section
    pub cascades_diagram :
        CascadesSection policy.layers path (λ l. l.review.patch_diagram) true true true r.diagram
    pub cascades_triggers : CascadesTriggers policy.layers path r.triggers

  -- Every setting of a path that layers patch, those of its sections and of its triggers included, is
  -- the one that the last layer above the path sets under its own name, or the default where no such
  -- layer sets it; layers elsewhere in the tree have no say. Whether the path is ignored, its rules
  -- and its documents are not among these settings.
  pub resolve_path-Cascades :
      (policy : PolicySnapshot C) (passes : List Text) (confidence : C) (path : Text)
      → Cascades policy passes confidence path (resolve_path policy passes confidence path)
  unfolding resolve_path apply_layer
  resolve_path-Cascades policy passes confidence path =
      let st : State C = (initial_policy passes confidence path, []) in
      record {
        is_enabled = cascade path (λ p. p.enabled) _ (λ l s. refl) policy.layers st;
        has_passes = cascade path (λ p. p.passes) _ (λ l s. refl) policy.layers st;
        has_confidence = cascade path (λ p. p.minimum_confidence) _ (λ l s. refl) policy.layers st;
        has_severity = cascade path (λ p. p.minimum_severity) _ (λ l s. refl) policy.layers st;
        is_summary_only = cascade path (λ p. p.summary_only) _ (λ l s. refl) policy.layers st;
        responds = cascade path (λ p. p.respond_to_comments) _ (λ l s. refl) policy.layers st;
        updates_description =
            cascade path (λ p. p.update_description) _ (λ l s. refl) policy.layers st;
        comments_summary = cascade path (λ p. p.summary_comment) _ (λ l s. refl) policy.layers st;
        has_footer = cascade path (λ p. p.footer_included) _ (λ l s. refl) policy.layers st;
        has_repositories =
            cascade path (λ p. p.context_repositories) _ (λ l s. refl) policy.layers st;
        is_preventative =
            cascade path (λ p. p.preventative_security) _ (λ l s. refl) policy.layers st;
        has_preventative_confidence =
            cascade path (λ p. p.preventative_security_minimum_confidence) _ (λ l s. refl)
              policy.layers st;
        cascades_summary = record {
          has_included =
              cascade path (λ p. p.summary_section.included) _ (λ l s. refl) policy.layers st;
          has_collapsible =
              cascade path (λ p. p.summary_section.collapsible) _ (λ l s. refl) policy.layers st;
          has_default_open =
              cascade path (λ p. p.summary_section.default_open) _ (λ l s. refl) policy.layers st;
        };
        cascades_issues_table = record {
          has_included =
              cascade path (λ p. p.issues_table_section.included) _ (λ l s. refl) policy.layers st;
          has_collapsible =
              cascade path (λ p. p.issues_table_section.collapsible) _ (λ l s. refl) policy.layers
                st;
          has_default_open =
              cascade path (λ p. p.issues_table_section.default_open) _ (λ l s. refl) policy.layers
                st;
        };
        cascades_confidence_score = record {
          has_included =
              cascade path (λ p. p.confidence_score_section.included) _ (λ l s. refl) policy.layers
                st;
          has_collapsible =
              cascade path (λ p. p.confidence_score_section.collapsible) _ (λ l s. refl)
                policy.layers st;
          has_default_open =
              cascade path (λ p. p.confidence_score_section.default_open) _ (λ l s. refl)
                policy.layers st;
        };
        cascades_diagram = record {
          has_included = cascade path (λ p. p.diagram.included) _ (λ l s. refl) policy.layers st;
          has_collapsible =
              cascade path (λ p. p.diagram.collapsible) _ (λ l s. refl) policy.layers st;
          has_default_open =
              cascade path (λ p. p.diagram.default_open) _ (λ l s. refl) policy.layers st;
        };
        cascades_triggers = record {
          is_automatic = cascade path (λ p. p.triggers.automatic) _ (λ l s. refl) policy.layers st;
          reviews_drafts =
              cascade path (λ p. p.triggers.review_drafts) _ (λ l s. refl) policy.layers st;
          reviews_updates =
              cascade path (λ p. p.triggers.review_updates) _ (λ l s. refl) policy.layers st;
          has_labels = cascade path (λ p. p.triggers.labels) _ (λ l s. refl) policy.layers st;
          has_disabled_labels =
              cascade path (λ p. p.triggers.disabled_labels) _ (λ l s. refl) policy.layers st;
          includes_authors =
              cascade path (λ p. p.triggers.include_authors) _ (λ l s. refl) policy.layers st;
          excludes_authors =
              cascade path (λ p. p.triggers.exclude_authors) _ (λ l s. refl) policy.layers st;
          includes_branches =
              cascade path (λ p. p.triggers.include_branches) _ (λ l s. refl) policy.layers st;
          excludes_branches =
              cascade path (λ p. p.triggers.exclude_branches) _ (λ l s. refl) policy.layers st;
          includes_keywords =
              cascade path (λ p. p.triggers.include_keywords) _ (λ l s. refl) policy.layers st;
          excludes_keywords =
              cascade path (λ p. p.triggers.exclude_keywords) _ (λ l s. refl) policy.layers st;
          has_status_check =
              cascade path (λ p. p.triggers.status_check) _ (λ l s. refl) policy.layers st;
          comments_failure =
              cascade path (λ p. p.triggers.failure_comment) _ (λ l s. refl) policy.layers st;
          blocks =
              cascade path (λ p. p.triggers.blocking_severities) _ (λ l s. refl) policy.layers st;
          has_limit =
              cascade_limit path (λ p. p.triggers.file_change_limit) _ (λ l s. refl) policy.layers
                st
              ∙ keep_limit-none
                  (last_set path (λ l. l.trigger_patch.set_file_change_limit) policy.layers);
        };
      }
