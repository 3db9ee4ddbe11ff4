-- ===== src/Policy/Names/Safe.antt =====
-- A checked path is safe, and checking it again changes nothing.
use mathlib.Core.Option.{some-injective}
use diffuse.Prelude.{
  ◌≤◌, ◌≡◌, refl, inl, inr, Bool, true, false, ◌&&◌, some, List, [], ◌∷◌, Text, length, any, elem,
  All, is_space, strip, strip_start, strip_end, is_empty, split_on, arith, Bool-cases, ap, subst,
}
use diffuse.Policy.Names.{slash, backslash, is_bad_part, is_bad_path, validate_repo_path}

strip_end-kept : (s : Text) → strip_end (strip_end s) ≡ strip_end s
strip_end-kept [] = refl
strip_end-kept (c ∷ s) = elim (Bool-cases (is_space c && is_empty (strip_end s))) [
  | inl t ↦ rw t refl
  | inr t ↦ rw (t, strip_end-kept s, t) refl
]

abbrev tail_of : Text → Text
tail_of [] = []
tail_of (c ∷ s) = s

-- What is stripped at its end stays so when its start is stripped.
strip_end-strip_start : (s : Text) → strip_end s ≡ s → strip_end (strip_start s) ≡ strip_start s
strip_end-strip_start [] e = refl
strip_end-strip_start (c ∷ s) e = elim (Bool-cases (is_space c)) [
  | inl t ↦ rw t (strip_end-strip_start s (later t))
  | inr t ↦ rw t e
]
  where
    later : is_space c ≡ true → strip_end s ≡ s
    later t = elim (Bool-cases (is_empty (strip_end s))) [
      | inl x ↦ cc (rw (t, x) at e)
      | inr x ↦ ap tail_of (rw (t, x) at e)
    ]

strip_start-kept : (s : Text) → strip_start (strip_start s) ≡ strip_start s
strip_start-kept [] = refl
strip_start-kept (c ∷ s) = elim (Bool-cases (is_space c)) [
  | inl t ↦ rw t (strip_start-kept s)
  | inr t ↦ rw (t, t) refl
]

pub strip-strip : (s : Text) → strip (strip s) ≡ strip s
strip-strip s =
    rw (strip_end-strip_start (strip_end s) (strip_end-kept s)) (strip_start-kept (strip_end s))

any-All-false : (p : Text → Bool) (xs : List Text) → any p xs ≡ false → All (λ x. p x ≡ false) xs
any-All-false p [] h = tt
any-All-false p (x ∷ xs) h = (ground arith, any-All-false p xs (ground arith))

length-filled : (s : Text) → is_empty s ≡ false → 1 ≤ length s
length-filled [] e = cc
length-filled (c ∷ s) e = omega arith

-- A path that passes the check is not empty, has at most 1024 characters and no backslash, none of
-- its parts is empty or moves about in the tree, and the check returns it unchanged.
pub validate_repo_path-safe :
    (value path : Text)
    → validate_repo_path value ≡ some path
    → (1 ≤ length path)
      × (length path ≤ 1024)
      × (elem backslash path ≡ false)
      × All (λ part. is_bad_part part ≡ false) (split_on slash path)
      × (validate_repo_path path ≡ some path)
unfolding validate_repo_path
validate_repo_path-safe value path e = elim (Bool-cases (is_bad_path (strip value))) [
  | inl b ↦ cc (rw b at e)
  | inr b ↦
      let same : strip value ≡ path = some-injective _ _ (rw b at e) in
      let good : is_bad_path path ≡ false = subst (λ p. is_bad_path p ≡ false) same b in
      let kept : strip path ≡ path = subst (λ p. strip p ≡ p) same (strip-strip value) in
      (
        length-filled path (ground arith),
        ground arith,
        ground arith,
        any-All-false is_bad_part (split_on slash path) (ground arith),
        rw (kept, good) refl,
      )
]
