-- ===== src/Policy/Trigger/Notice.antt =====
-- The setting for failure comments comes from the layers at the root alone.
use diffuse.Prelude.{◌≡◌, refl, Bool, true, false, ◌||◌, some, [], Text}
use diffuse.Policy.{Confidence}
use diffuse.Policy.Layers.{State, apply_layer, initial_policy, resolve_path, review_pass_names}
use diffuse.Policy.Patches.{PolicySnapshot, patched}
use diffuse.Policy.Layers.Last.{last_set, cascade}
use diffuse.Policy.Trigger.{probe_path, repository_failure_comment_enabled}

or_false : (b : Bool) → (b || false) ≡ b
or_false true = refl
or_false false = refl

module _ {C : Type 0} ⦃c : Confidence C⦄ where
  -- Whether failures are commented on is what the last layer above the synthetic path sets, and true
  -- if none does: no ignore pattern and no disabled review has a say, and the answer never fails.
  pub repository_failure_comment_enabled-last_set :
      (casefold : Text → Text) (policy : PolicySnapshot C) (default_confidence : C)
      → repository_failure_comment_enabled casefold policy default_confidence
        ≡ some (
            patched
              (last_set probe_path (λ l. l.trigger_patch.set_failure_comment) policy.layers)
              true)
  unfolding repository_failure_comment_enabled resolve_path apply_layer
  repository_failure_comment_enabled-last_set casefold policy default_confidence =
      let st : State C = (initial_policy review_pass_names default_confidence probe_path, []) in
      let found =
        cascade probe_path (λ p. p.triggers.failure_comment)
          (λ l. l.trigger_patch.set_failure_comment) (λ l s. refl) policy.layers st in
      rw (found, or_false) refl
