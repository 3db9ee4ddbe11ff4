-- ===== src/Prelude/Splitting.antt =====
-- A text that is split at a character, and joined again.
use Prim.Native.Nat.{ℕ}
use mathlib.Core.Path.{◌≡◌, refl, sym, ap, ◌∙◌}
use mathlib.Core.Logic.{inl, inr}
use mathlib.Core.Bool.{Bool, true, false, ◌||◌}
use mathlib.Core.List.{List, [], ◌∷◌, ◌++◌}
use native.Mathlib.Omega.{arith}
use diffuse.Prelude.Tests.{◌==◌, ==_iff, Bool-cases}
use diffuse.Prelude.Lists.{Text, elem, text_eq, text_eq_iff}
use diffuse.Prelude.Strings.{is_empty, join, add_to_first, split_on}

-- The parts of a text, joined again.
join-mark :
    (c : ℕ) (ls : List Text) → is_empty ls ≡ false → join (c ∷ []) ([] ∷ ls) ≡ c ∷ join (c ∷ []) ls
join-mark c [] h = cc
join-mark c (l ∷ ls) h = refl

join-add_to_first :
    (c d : ℕ) (ls : List Text) → join (c ∷ []) (add_to_first d ls) ≡ d ∷ join (c ∷ []) ls
join-add_to_first c d [] = refl
join-add_to_first c d (l ∷ []) = refl
join-add_to_first c d (l ∷ m ∷ ls) = refl

split_on-filled : (c : ℕ) (s : Text) → is_empty (split_on c s) ≡ false
split_on-filled c [] = refl
split_on-filled c (d ∷ s) = elim (Bool-cases (d == c)) [
  | inl t ↦ rw t refl
  | inr t ↦ rw t (filled d (split_on c s))
]
  where
    filled : (d : ℕ) (ls : List Text) → is_empty (add_to_first d ls) ≡ false
    filled d [] = refl
    filled d (l ∷ ls) = refl

pub join-split_on : (c : ℕ) (s : Text) → join (c ∷ []) (split_on c s) ≡ s
join-split_on c [] = refl
join-split_on c (d ∷ s) = elim (Bool-cases (d == c)) [
  | inl t ↦ rw t (
      join-mark c (split_on c s) (split_on-filled c s)
      ∙ ap (λ u. c ∷ u) (join-split_on c s)
      ∙ ap (λ e. e ∷ s) (sym ((==_iff d c).0 t)))
  | inr t ↦ rw t (join-add_to_first c d (split_on c s) ∙ ap (λ u. d ∷ u) (join-split_on c s))
]

other : (c d : ℕ) (b : Bool) → (c == d || b) ≡ false → (d == c) ≡ false
other c d b h = ground arith

behind : (c d : ℕ) (b : Bool) → (c == d || b) ≡ false → b ≡ false
behind c d b h = ground arith

pub split_on-whole : (c : ℕ) (s : Text) → elem c s ≡ false → split_on c s ≡ s ∷ []
split_on-whole c [] h = refl
split_on-whole c (d ∷ s) h = rw (other c d _ h, split_on-whole c s (behind c d _ h)) refl

pub split_on-append :
    (c : ℕ) (s t : Text) → elem c s ≡ false → split_on c (s ++ c ∷ t) ≡ s ∷ split_on c t
split_on-append c [] t h = rw ((==_iff c c).1 refl) refl
split_on-append c (d ∷ s) t h = rw (other c d _ h, split_on-append c s t (behind c d _ h)) refl

pub text_eq_refl : (s : Text) → text_eq s s ≡ true
text_eq_refl s = (text_eq_iff s s).1 refl
