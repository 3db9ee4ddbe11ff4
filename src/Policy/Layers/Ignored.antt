-- ===== src/Policy/Layers/Ignored.antt =====
-- Ignoring a path is not undone further down.
use diffuse.Prelude.{
  ◌≡◌, refl, inl, inr, Bool, true, false, not, ◌&&◌, ◌||◌, List, [], ◌∷◌, Text, any, arith,
  Bool-cases,
}
use diffuse.Policy.{Confidence, is_descendant, relative_to, is_reviewable}
use diffuse.Policy.Layers.{
  State, is_ignored_by, apply_layer, apply_layers, initial_policy, resolve_path,
}
use diffuse.Policy.Patches.{PolicyLayer, PolicySnapshot}

-- A layer above the path has an ignore pattern that matches what is left of the path below it.
abbrev pub ignores : {C : Type 0} → Text → PolicyLayer C → Bool
ignores path l =
    is_descendant l.directory_path path
    && is_ignored_by l.review.ignored_paths (relative_to l.directory_path path)

never : (a b : Bool) → (a && (b && not a)) ≡ false
never true true = refl
never true false = refl
never false b = refl

or_assoc : (a b c : Bool) → ((a || b) || c) ≡ (a || (b || c))
or_assoc true b c = refl
or_assoc false b c = refl

apply_layers-ignored :
    {C : Type 0} (path : Text) (ls : List (PolicyLayer C)) (st : State C)
    → (apply_layers path ls st).0.ignored ≡ st.0.ignored || any (ignores path) ls
unfolding apply_layers apply_layer
apply_layers-ignored path [] (p, es) = ground arith
apply_layers-ignored path (l ∷ ls) (p, es) =
    elim (Bool-cases (is_descendant l.directory_path path)) [
      | inl t ↦
          rw (t, apply_layers-ignored path ls (apply_layer path l (p, es)))
            (or_assoc p.ignored
              (is_ignored_by l.review.ignored_paths (relative_to l.directory_path path))
              (any (ignores path) ls))
      | inr t ↦ rw (t, apply_layers-ignored path ls (p, es)) refl
    ]

-- A path is ignored exactly when some layer above it ignores it, by a pattern that is read from that
-- layer's directory: no layer includes again what another ignores, and an ignored path is not
-- reviewed even where a later layer enables it.
pub resolve_path-ignored :
    {C : Type 0} ⦃c : Confidence C⦄ (policy : PolicySnapshot C) (passes : List Text)
    (confidence : C) (path : Text)
    → ((resolve_path policy passes confidence path).ignored ≡ any (ignores path) policy.layers)
      × ((any (ignores path) policy.layers
            && is_reviewable (resolve_path policy passes confidence path))
          ≡ false)
unfolding resolve_path
resolve_path-ignored policy passes confidence path =
    let same =
      apply_layers-ignored path policy.layers (initial_policy passes confidence path, []) in
    (
      same,
      rw same (
          never (any (ignores path) policy.layers)
            (resolve_path policy passes confidence path).enabled),
    )
