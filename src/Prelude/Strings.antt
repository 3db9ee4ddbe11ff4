-- ===== src/Prelude/Strings.antt =====
-- Python's methods on strings, over texts of code points.
use Prim.Native.Nat.{ℕ}
use mathlib.Core.Bool.{Bool, true, false, ◌&&◌, ◌||◌}
use mathlib.Core.List.{List, [], ◌∷◌, ◌++◌}
use diffuse.Prelude.Tests.{ltb, ◌==◌, if◌then◌else◌}
use diffuse.Prelude.Lists.{Text, is_some, is_space, strip_prefix, text_eq}

abbrev pub is_empty {ℓ} : {A : Type ℓ} → List A → Bool
is_empty [] = true
is_empty (_ ∷ _) = false

-- `s.strip()`, with the white space of ASCII.
abbrev pub strip_start : Text → Text
strip_start [] = []
strip_start (c ∷ s) = let rest = strip_start s in if is_space c then rest else c ∷ s

abbrev pub strip_end : Text → Text
strip_end [] = []
strip_end (c ∷ s) = let rest = strip_end s in if is_space c && is_empty rest then [] else c ∷ rest

abbrev pub strip : Text → Text
strip s = strip_start (strip_end s)

-- `separator.join(texts)`
abbrev pub join : Text → List Text → Text
join separator [] = []
join separator (t ∷ []) = t
join separator (t ∷ u ∷ ts) = t ++ separator ++ join separator (u ∷ ts)

abbrev pub add_to_first : ℕ → List Text → List Text
add_to_first c [] = (c ∷ []) ∷ []
add_to_first c (l ∷ ls) = (c ∷ l) ∷ ls

-- `s.split(…)` at one character
abbrev pub split_on : ℕ → Text → List Text
split_on separator [] = [] ∷ []
split_on separator (c ∷ s) =
    let rest = split_on separator s in if c == separator then [] ∷ rest else add_to_first c rest

abbrev pub starts_with : Text → Text → Bool
starts_with prefix s = is_some (strip_prefix prefix s)

abbrev pub ends_with : Text → Text → Bool
ends_with suffix [] = is_empty suffix
ends_with suffix (c ∷ s) = text_eq suffix (c ∷ s) || ends_with suffix s

-- `needle in s`
abbrev pub is_infix : Text → Text → Bool
is_infix needle [] = is_empty needle
is_infix needle (c ∷ s) = starts_with needle (c ∷ s) || is_infix needle s

-- `s < t`
abbrev pub text_ltb : Text → Text → Bool
text_ltb [] [] = false
text_ltb [] (_ ∷ _) = true
text_ltb (_ ∷ _) [] = false
text_ltb (a ∷ s) (b ∷ t) = ltb a b || (a == b && text_ltb s t)

abbrev pub text_elem : Text → List Text → Bool
text_elem t [] = false
text_elem t (x ∷ xs) = text_eq t x || text_elem t xs

-- The texts of a list once each, in the order of their first occurrence: `dict.fromkeys`.
abbrev pub fresh_texts : List Text → List Text → List Text
fresh_texts seen [] = []
fresh_texts seen (x ∷ xs) =
    let again = fresh_texts seen xs in
    let first = fresh_texts (x ∷ seen) xs in if text_elem x seen then again else x ∷ first

abbrev pub unique : List Text → List Text
unique = fresh_texts []

-- `sorted(…)`, which is stable: `precedes x y` says that the key of `x` is smaller.
abbrev pub insert_by {ℓ} : {A : Type ℓ} → (A → A → Bool) → A → List A → List A
insert_by precedes x [] = x ∷ []
insert_by precedes x (y ∷ ys) =
    let rest = insert_by precedes x ys in if precedes y x then y ∷ rest else x ∷ y ∷ ys

abbrev pub sort_by {ℓ} : {A : Type ℓ} → (A → A → Bool) → List A → List A
sort_by precedes [] = []
sort_by precedes (x ∷ xs) = insert_by precedes x (sort_by precedes xs)
