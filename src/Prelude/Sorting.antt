-- ===== src/Prelude/Sorting.antt =====
-- What `sorted`, slices and comprehensions keep of the elements of a list.
use Prim.Native.Nat.{ℕ, zero, suc}
use mathlib.Core.Path.{◌≡◌, refl, ap, ◌∙◌}
use mathlib.Core.Logic.{inl, inr}
use mathlib.Core.Bool.{Bool, true, false}
use mathlib.Core.List.{List, [], ◌∷◌, map}
use diffuse.Prelude.Tests.{Bool-cases}
use diffuse.Prelude.Lists.{All, take, length}
use diffuse.Prelude.Strings.{insert_by, sort_by}

module _ {A : Type 0} (P : A → Type 0) where
  pub All-take : (n : ℕ) (xs : List A) → All P xs → All P (take n xs)
  All-take zero xs h = tt
  All-take (suc n) [] h = tt
  All-take (suc n) (x ∷ xs) h = (h.0, All-take n xs h.1)

  pub All-insert_by :
      (precedes : A → A → Bool) (x : A) (xs : List A)
      → P x
      → All P xs
      → All P (insert_by precedes x xs)
  All-insert_by precedes x [] p h = (p, tt)
  All-insert_by precedes x (y ∷ ys) p h = elim (Bool-cases (precedes y x)) [
    | inl t ↦ rw t (h.0, All-insert_by precedes x ys p h.1)
    | inr t ↦ rw t (p, (h.0, h.1))
  ]

  pub All-sort_by : (precedes : A → A → Bool) (xs : List A) → All P xs → All P (sort_by precedes xs)
  All-sort_by precedes [] h = tt
  All-sort_by precedes (x ∷ xs) h =
      All-insert_by precedes x (sort_by precedes xs) h.0 (All-sort_by precedes xs h.1)

  pub All-map : {B : Type 0} (f : B → A) (xs : List B) → All (λ x. P (f x)) xs → All P (map f xs)
  All-map f [] h = tt
  All-map f (x ∷ xs) h = (h.0, All-map f xs h.1)

module _ {A : Type 0} (R : A → A → Type 0) where
  -- The relation holds between neighbours.
  abbrev pub IsOrdered : List A → Type 0
  IsOrdered [] = Unit
  IsOrdered (x ∷ []) = Unit
  IsOrdered (x ∷ y ∷ ys) = R x y × IsOrdered (y ∷ ys)

  module _ (precedes : A → A → Bool) (yes : (x y : A) → precedes x y ≡ true → R x y)
      (no : (x y : A) → precedes x y ≡ false → R y x) where
    IsOrdered-insert_by : (x : A) (ys : List A) → IsOrdered ys → IsOrdered (insert_by precedes x ys)
    IsOrdered-insert_by x [] h = tt
    IsOrdered-insert_by x (y ∷ []) h = elim (Bool-cases (precedes y x)) [
      | inl t ↦ rw t (yes y x t, tt)
      | inr t ↦ rw t (no y x t, tt)
    ]
    IsOrdered-insert_by x (y ∷ z ∷ zs) h = elim (Bool-cases (precedes y x)) [
      | inl t ↦ elim (Bool-cases (precedes z x)) [
        | inl u ↦ rw (t, u) (h.0, rw u at (IsOrdered-insert_by x (z ∷ zs) h.1))
        | inr u ↦ rw (t, u) (yes y x t, (no z x u, h.1))
      ]
      | inr t ↦ rw t (no y x t, (h.0, h.1))
    ]

    -- Sorting puts neighbours into any relation that the comparison and its failure give.
    pub IsOrdered-sort_by : (xs : List A) → IsOrdered (sort_by precedes xs)
    IsOrdered-sort_by [] = tt
    IsOrdered-sort_by (x ∷ xs) = IsOrdered-insert_by x (sort_by precedes xs) (IsOrdered-sort_by xs)

  pub IsOrdered-take : (n : ℕ) (xs : List A) → IsOrdered xs → IsOrdered (take n xs)
  IsOrdered-take zero xs h = tt
  IsOrdered-take (suc n) [] h = tt
  IsOrdered-take (suc zero) (x ∷ xs) h = tt
  IsOrdered-take (suc (suc n)) (x ∷ []) h = tt
  IsOrdered-take (suc (suc n)) (x ∷ y ∷ ys) h = (h.0, IsOrdered-take (suc n) (y ∷ ys) h.1)

pub length-insert_by :
    {A : Type 0} (precedes : A → A → Bool) (x : A) (xs : List A)
    → length (insert_by precedes x xs) ≡ suc (length xs)
length-insert_by precedes x [] = refl
length-insert_by precedes x (y ∷ ys) = elim (Bool-cases (precedes y x)) [
  | inl t ↦ rw t (ap suc (length-insert_by precedes x ys))
  | inr t ↦ rw t refl
]

pub length-sort_by :
    {A : Type 0} (precedes : A → A → Bool) (xs : List A) → length (sort_by precedes xs) ≡ length xs
length-sort_by precedes [] = refl
length-sort_by precedes (x ∷ xs) =
    length-insert_by precedes x (sort_by precedes xs) ∙ ap suc (length-sort_by precedes xs)
