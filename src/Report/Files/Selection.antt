-- ===== src/Report/Files/Selection.antt =====
-- The selected files are those that the policy allows, and the rest is counted.
use diffuse.Prelude.{
  ℕ, ◌+◌, ◌≤◌, ◌≡◌, refl, inl, inr, Bool, true, false, Option, none, some, List, [], ◌∷◌, Text,
  filter, length, Bool-cases, arith, ap, ◌&&◌, ◌∙◌, false≢true, text_eq_iff, if◌then◌else◌,
}
use diffuse.Policy.{ReviewPolicy}
use diffuse.Policy.Query.{allows_path}
use diffuse.Diff.{DiffFile, Side, comment_path}
use diffuse.Diff.Lookup.{has_path, file_at, contains_in, is_commentable}
use diffuse.Report.Files.{allows_file, reviewable_diff}

length-filter : {A : Type 0} (p : A → Bool) (xs : List A) → length (filter p xs) ≤ length xs
length-filter p [] = omega arith
length-filter p (x ∷ xs) = elim (Bool-cases (p x)) [
  | inl t ↦ rw t (omega (arith, length-filter p xs))
  | inr t ↦ rw t (omega (arith, length-filter p xs))
]

contains_in-if :
    (side : Side) (line : ℕ) (o : Option DiffFile) (b : Bool)
    → contains_in side line (if b then o else none) ≡ (b && contains_in side line o)
contains_in-if side line o true = refl
contains_in-if side line o false = refl

module _ {C : Type 0} where
  has_path-allows_file :
      (policy : ReviewPolicy C) (path : Text) (o : Option Text)
      → has_path path o ≡ true
      → allows_file policy o ≡ allows_path policy path
  has_path-allows_file policy path none h = absurd (false≢true h)
  has_path-allows_file policy path (some p) h = ap (allows_path policy) ((text_eq_iff p path).0 h)

  -- A path is looked up among the selected files as among all where the policy allows it, and in vain
  -- elsewhere.
  file_at-filter :
      (policy : ReviewPolicy C) (path : Text) (files : List DiffFile)
      → file_at path (filter (λ f. allows_file policy (comment_path f)) files)
        ≡ (if allows_path policy path then file_at path files else none)
  file_at-filter policy path [] = ground arith
  file_at-filter policy path (f ∷ fs) = elim (Bool-cases (has_path path (comment_path f))) [
    | inl h ↦ elim (Bool-cases (allows_path policy path)) [
      | inl a ↦ rw (has_path-allows_file policy path (comment_path f) h, a, h) refl
      | inr a ↦
          rw (has_path-allows_file policy path (comment_path f) h, a)
            (file_at-filter policy path fs ∙ rw a refl)
    ]
    | inr h ↦ elim (Bool-cases (allows_file policy (comment_path f))) [
      | inl a ↦ rw (a, h) (file_at-filter policy path fs)
      | inr a ↦ rw (a, h) (file_at-filter policy path fs)
    ]
  ]

  -- Under a policy the selected and the ignored files are together as many as those of the diff, and a
  -- line may carry a comment in the selected files exactly if it may in the diff and the policy allows
  -- its path.
  pub reviewable_diff-is_commentable :
      (policy : ReviewPolicy C) (files : List DiffFile) (path : Text) (side : Side) (line : ℕ)
      → (length (reviewable_diff (some policy) files).0 + (reviewable_diff (some policy) files).1
          ≡ length files)
        × (is_commentable (reviewable_diff (some policy) files).0 path side line
            ≡ (allows_path policy path && is_commentable files path side line))
  unfolding reviewable_diff is_commentable
  reviewable_diff-is_commentable policy files path side line = (
    omega (arith, length-filter (λ f. allows_file policy (comment_path f)) files),
    rw (file_at-filter policy path files)
        (contains_in-if side line (file_at path files) (allows_path policy path)),
  )
