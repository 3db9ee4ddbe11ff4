-- ===== src/Policy/Names/Secret.antt =====
-- A path that is taken for a secret is taken for one in every directory.
use diffuse.Prelude.{
  ℕ, ◌≡◌, refl, inl, inr, Bool, true, false, ◌||◌, List, [], ◌∷◌, ◌++◌, Text, any, filter, split_on,
  add_to_first, text_elem, is_empty, ◌==◌, arith, Bool-cases,
}
use diffuse.Policy.Names.{
  slash, is_part, parts_of, last_of, all_but_last, sensitive_directories, in_sensitive_directory,
  is_sensitive_repo_path,
}

add_to_first-append :
    (c : ℕ) (xs ys : List Text)
    → is_empty xs ≡ false
    → add_to_first c (xs ++ ys) ≡ add_to_first c xs ++ ys
add_to_first-append c [] ys h = cc
add_to_first-append c (x ∷ xs) ys h = refl

split_on-filled : (c : ℕ) (s : Text) → is_empty (split_on c s) ≡ false
split_on-filled c [] = refl
split_on-filled c (x ∷ s) = elim (Bool-cases (x == c)) [
  | inl t ↦ rw t refl
  | inr t ↦ rw t (filled x (split_on c s))
]
  where
    filled : (x : ℕ) (xs : List Text) → is_empty (add_to_first x xs) ≡ false
    filled x [] = refl
    filled x (y ∷ ys) = refl

-- Splitting at a separator that stands in the middle.
split_on-append : (c : ℕ) (s t : Text) → split_on c (s ++ c ∷ t) ≡ split_on c s ++ split_on c t
split_on-append c [] t = let same : c == c ≡ true = ground arith in rw same refl
split_on-append c (x ∷ s) t = elim (Bool-cases (x == c)) [
  | inl e ↦ rw (e, split_on-append c s t) refl
  | inr e ↦
      rw (e, split_on-append c s t)
        (add_to_first-append x (split_on c s) (split_on c t) (split_on-filled c s))
]

filter-append :
    (p : Text → Bool) (xs ys : List Text) → filter p (xs ++ ys) ≡ filter p xs ++ filter p ys
filter-append p [] ys = refl
filter-append p (x ∷ xs) ys = elim (Bool-cases (p x)) [
  | inl t ↦ rw (t, filter-append p xs ys) refl
  | inr t ↦ rw (t, filter-append p xs ys) refl
]

last_of-append : (xs ys : List Text) → is_empty ys ≡ false → last_of (xs ++ ys) ≡ last_of ys
last_of-append [] ys h = refl
last_of-append (x ∷ []) [] h = cc
last_of-append (x ∷ []) (y ∷ ys) h = refl
last_of-append (x ∷ z ∷ xs) ys h = last_of-append (z ∷ xs) ys h

all_but_last-append :
    (p : Text → Bool) (xs ys : List Text)
    → any p (all_but_last ys) ≡ true
    → any p (all_but_last (xs ++ ys)) ≡ true
all_but_last-append p [] ys h = h
all_but_last-append p (x ∷ []) [] h = cc
all_but_last-append p (x ∷ []) (y ∷ ys) h = ground arith
all_but_last-append p (x ∷ z ∷ xs) ys h = ground (arith, all_but_last-append p (z ∷ xs) ys h)

parts_of-append :
    (directory value : Text)
    → parts_of (directory ++ slash ∷ value) ≡ parts_of directory ++ parts_of value
parts_of-append directory value =
    rw (split_on-append slash directory value)
      (filter-append is_part (split_on slash directory) (split_on slash value))

or_right : (a b : Bool) → b ≡ true → (a || b) ≡ true
or_right true b h = refl
or_right false b h = h

-- Whatever directory a path that is taken for a secret is put into, it is still taken for one, if it
-- names a file at all.
pub is_sensitive_repo_path-deeper :
    (lower : Text → Text) (directory value : Text)
    → is_empty (parts_of value) ≡ false
    → is_sensitive_repo_path lower value ≡ true
    → is_sensitive_repo_path lower (directory ++ slash ∷ value) ≡ true
unfolding is_sensitive_repo_path
is_sensitive_repo_path-deeper lower directory value named h =
    rw (parts_of-append directory value, last_of-append (parts_of directory) (parts_of value) named)
      (elim (Bool-cases (in_sensitive_directory lower (parts_of value))) [
        | inl t ↦
            rw
              (all_but_last-append (λ part. text_elem (lower part) sensitive_directories)
                (parts_of directory) (parts_of value) t)
              refl
        | inr t ↦ or_right _ _ (rw t at h)
      ])
