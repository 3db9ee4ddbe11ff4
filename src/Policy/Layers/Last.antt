-- ===== src/Policy/Layers/Last.antt =====
-- The last layer above a path that sets a value, and how the loop over the layers comes to it.
use diffuse.Prelude.{
  ℕ, ◌≡◌, refl, inl, inr, Option, none, some, List, [], ◌∷◌, Text, if◌then◌else◌, Bool-cases,
}
use diffuse.Policy.{PathPolicy, is_descendant}
use diffuse.Policy.Layers.{State, apply_layer, apply_layers}
use diffuse.Policy.Patches.{PolicyLayer, patched, keep_limit}

abbrev pub later_or : {A : Type 0} → Option A → Option A → Option A
later_or before none = before
later_or before (some a) = some a

-- The last value that a layer above the path sets.
abbrev pub last_set :
    {C A : Type 0} → Text → (PolicyLayer C → Option A) → List (PolicyLayer C) → Option A
last_set path set [] = none
last_set path set (l ∷ ls) =
    let later = last_set path set ls in
    if is_descendant l.directory_path path then later_or (set l) later else later

patched-later_or :
    {A : Type 0} (a : A) (before later : Option A)
    → patched later (patched before a) ≡ patched (later_or before later) a
patched-later_or a before none = refl
patched-later_or a before (some b) = refl

keep_limit-later_or :
    (limit before later : Option ℕ)
    → keep_limit later (keep_limit before limit) ≡ keep_limit (later_or before later) limit
keep_limit-later_or limit before none = refl
keep_limit-later_or limit before (some n) = refl

module _ {C : Type 0} (path : Text) where
  -- A setting that every layer patches comes out as the last patch.
  pub cascade :
      {A : Type 0} (get : PathPolicy C → A) (set : PolicyLayer C → Option A)
      → ((l : PolicyLayer C) (st : State C)
          → get (apply_layer path l st).0 ≡ patched (set l) (get st.0))
      → (ls : List (PolicyLayer C)) (st : State C)
      → get (apply_layers path ls st).0 ≡ patched (last_set path set ls) (get st.0)
  unfolding apply_layers
  cascade get set step [] st = refl
  cascade get set step (l ∷ ls) st = elim (Bool-cases (is_descendant l.directory_path path)) [
    | inl t ↦
        rw (t, cascade get set step ls (apply_layer path l st), step l st)
          (patched-later_or (get st.0) (set l) (last_set path set ls))
    | inr t ↦ rw t (cascade get set step ls st)
  ]

  -- The limit of changed files, which no layer sets back to none.
  pub cascade_limit :
      (get : PathPolicy C → Option ℕ) (set : PolicyLayer C → Option ℕ)
      → ((l : PolicyLayer C) (st : State C)
          → get (apply_layer path l st).0 ≡ keep_limit (set l) (get st.0))
      → (ls : List (PolicyLayer C)) (st : State C)
      → get (apply_layers path ls st).0 ≡ keep_limit (last_set path set ls) (get st.0)
  unfolding apply_layers
  cascade_limit get set step [] st = refl
  cascade_limit get set step (l ∷ ls) st = elim (Bool-cases (is_descendant l.directory_path path)) [
    | inl t ↦
        rw (t, cascade_limit get set step ls (apply_layer path l st), step l st)
          (keep_limit-later_or (get st.0) (set l) (last_set path set ls))
    | inr t ↦ rw t (cascade_limit get set step ls st)
  ]

pub keep_limit-none : (o : Option ℕ) → keep_limit o none ≡ o
keep_limit-none none = refl
keep_limit-none (some n) = refl
