-- ===== src/Policy/Neutral/Clean.antt =====
-- What is left of untrusted text has no structural tag.
use diffuse.Prelude.{
  ℕ, ◌≡◌, refl, inl, inr, Bool, true, false, not, ◌&&◌, ◌||◌, List, [], ◌∷◌, ◌++◌, Text, any, all,
  ◌==◌, ==_iff, arith, sym, ◌∙◌, subst, false≢true, Bool-cases, and_left, and_right,
}
use diffuse.Policy.Neutral.{
  less_than, greater_than, solidus, prompt_structural_tags, neutralized_delimiter, closes,
  skip_solidus, skip_white, is_named, is_structural_tag, substitute, neutralize_prompt_delimiters,
}

-- the first character of the replacement
abbrev pub bracket : ℕ
bracket = 91

abbrev without : ℕ → Text → Bool
without c = all (λ n. not (c == n))

or_right : (a b : Bool) → b ≡ true → (a || b) ≡ true
or_right true b h = refl
or_right false b h = h

or_mono : (a b c : Bool) → (b ≡ true → c ≡ true) → (a || b) ≡ true → (a || c) ≡ true
or_mono true b c f h = refl
or_mono false b c f h = f h

and_mono : (a b c : Bool) → (b ≡ true → c ≡ true) → (a && b) ≡ true → (a && c) ≡ true
and_mono true b c f h = f h
and_mono false b c f h = h

or_both :
    (a a' b b' : Bool)
    → (a ≡ true → a' ≡ true)
    → (b ≡ true → b' ≡ true)
    → (a || b) ≡ true
    → (a' || b') ≡ true
or_both true a' b b' f g h = rw (f refl) refl
or_both false a' b b' f g h = or_right a' b' (g h)

still_false : (a b c : Bool) → (b ≡ true → c ≡ true) → (a && c) ≡ false → (a && b) ≡ false
still_false true true c f h = sym (f refl) ∙ h
still_false true false c f h = refl
still_false false b c f h = refl

not_open :
    (c : ℕ) (rest tag : Bool)
    → (not (less_than == c) && rest) ≡ true
    → (c == less_than && tag) ≡ false
not_open c rest tag h = ground arith

clash : (a b c : Bool) → (not a && b) ≡ true → (a && c) ≡ true → ⊥
clash true b c h g = false≢true h
clash false b c h g = false≢true g

module _ (white : ℕ → Bool) (folded : ℕ → ℕ) where
  -- No position of the text starts a structural tag.
  abbrev pub IsClean : Text → Type 0
  IsClean [] = Unit
  IsClean (c ∷ s) = ((c == less_than && is_structural_tag white folded s) ≡ false) × IsClean s

module _ (white : ℕ → Bool) (folded : ℕ → ℕ) (open_white : white less_than ≡ false)
    (bracket_white : white bracket ≡ false) (bracket_folded : folded bracket ≡ bracket) where
  white_open : (c : ℕ) → (c == less_than) ≡ true → white c ≡ false
  white_open c e = subst (λ d. white d ≡ false) (sym ((==_iff c less_than).0 e)) open_white

  not_solidus : (c : ℕ) → (c == less_than) ≡ true → (c == solidus) ≡ false
  not_solidus c e = subst (λ d. (d == solidus) ≡ false) (sym ((==_iff c less_than).0 e)) refl

  closes-substitute :
      (inside : Bool) (s : Text)
      → closes (substitute white folded inside s) ≡ true
      → closes s ≡ true
  unfolding substitute
  closes-substitute true [] h = h
  closes-substitute false [] h = h
  closes-substitute true (c ∷ s) h = elim (Bool-cases (c == greater_than)) [
    | inl t ↦ rw t refl
    | inr t ↦ or_right (c == greater_than) (closes s) (closes-substitute true s (rw t at h))
  ]
  closes-substitute false (c ∷ s) h =
      elim (Bool-cases (c == less_than && is_structural_tag white folded s)) [
        | inl t ↦ or_right (c == greater_than) (closes s) (closes-substitute true s (rw t at h))
        | inr t ↦
            or_mono (c == greater_than) (closes (substitute white folded false s)) (closes s)
              (closes-substitute false s) (rw t at h)
      ]

  -- A name that is read behind a substitution was there before it.
  is_named-substitute :
      (name s : Text)
      → without bracket name ≡ true
      → is_named white folded name (substitute white folded false s) ≡ true
      → is_named white folded name s ≡ true
  unfolding substitute
  is_named-substitute [] s w h = closes-substitute false s h
  is_named-substitute (n ∷ name) [] w h = h
  is_named-substitute (n ∷ name) (c ∷ s) w h =
      elim (Bool-cases (c == less_than && is_structural_tag white folded s)) [
        | inl t ↦
            absurd (clash (bracket == n) (without bracket name) _ w (rw (t, bracket_folded) at h))
        | inr t ↦
            and_mono (folded c == n) (is_named white folded name (substitute white folded false s))
              (is_named white folded name s) (is_named-substitute name s (ground arith)) (rw t at h)
      ]

  skip_white-substitute :
      (s : Text)
      → skip_white white folded (substitute white folded false s)
        ≡ substitute white folded false (skip_white white folded s)
  unfolding substitute
  skip_white-substitute [] = refl
  skip_white-substitute (c ∷ s) =
      elim (Bool-cases (c == less_than && is_structural_tag white folded s)) [
        | inl t ↦ rw (t, bracket_white, white_open c (and_left _ _ t), t) refl
        | inr t ↦ elim (Bool-cases (white c)) [
          | inl w ↦ rw (t, w) (skip_white-substitute s)
          | inr w ↦ rw (t, w, t) refl
        ]
      ]

  skip_solidus-substitute :
      (s : Text)
      → skip_solidus (substitute white folded false s)
        ≡ substitute white folded false (skip_solidus s)
  unfolding substitute
  skip_solidus-substitute [] = refl
  skip_solidus-substitute (c ∷ s) =
      elim (Bool-cases (c == less_than && is_structural_tag white folded s)) [
        | inl t ↦ rw (t, not_solidus c (and_left _ _ t), t) refl
        | inr t ↦ elim (Bool-cases (c == solidus)) [
          | inl w ↦ rw (t, w) refl
          | inr w ↦ rw (t, w, t) refl
        ]
      ]

  any-is_named :
      (names : List Text) (s : Text)
      → all (without bracket) names ≡ true
      → any (λ name. is_named white folded name (substitute white folded false s)) names ≡ true
      → any (λ name. is_named white folded name s) names ≡ true
  any-is_named [] s w h = h
  any-is_named (name ∷ names) s w h =
      or_both (is_named white folded name (substitute white folded false s))
        (is_named white folded name s) _ _ (is_named-substitute name s (and_left _ _ w))
        (any-is_named names s (and_right (without bracket name) _ w)) h

  is_structural_tag-substitute :
      (s : Text)
      → is_structural_tag white folded (substitute white folded false s) ≡ true
      → is_structural_tag white folded s ≡ true
  unfolding is_structural_tag
  is_structural_tag-substitute s h =
      any-is_named prompt_structural_tags
        (skip_white white folded (skip_solidus (skip_white white folded s))) refl
        (rw
          (
            skip_white-substitute s,
            skip_solidus-substitute (skip_white white folded s),
            skip_white-substitute (skip_solidus (skip_white white folded s)),
          )
          at h)

  IsClean-append :
      (p s : Text)
      → without less_than p ≡ true
      → IsClean white folded s
      → IsClean white folded (p ++ s)
  IsClean-append [] s w h = h
  IsClean-append (c ∷ p) s w h =
      (not_open c _ _ w, IsClean-append p s (and_right (not (less_than == c)) _ w) h)

  substitute-IsClean :
      (inside : Bool) (s : Text) → IsClean white folded (substitute white folded inside s)
  unfolding substitute
  substitute-IsClean true [] = tt
  substitute-IsClean false [] = tt
  substitute-IsClean true (c ∷ s) = elim (Bool-cases (c == greater_than)) [
    | inl t ↦ rw t (substitute-IsClean false s)
    | inr t ↦ rw t (substitute-IsClean true s)
  ]
  substitute-IsClean false (c ∷ s) =
      elim (Bool-cases (c == less_than && is_structural_tag white folded s)) [
        | inl t ↦ rw t (
            IsClean-append neutralized_delimiter (substitute white folded true s) refl
              (substitute-IsClean true s))
        | inr t ↦ rw t (
          still_false (c == less_than) _ _ (is_structural_tag-substitute s) t,
          substitute-IsClean false s,
        )
      ]

  -- No structural tag is left in a text that went through `neutralize_prompt_delimiters`, not even one
  -- that the removal of another put together, if neither `<` nor `[` is white space and `[` is its own
  -- letter.
  pub neutralize_prompt_delimiters-IsClean :
      (s : Text) → IsClean white folded (neutralize_prompt_delimiters white folded s)
  unfolding neutralize_prompt_delimiters
  neutralize_prompt_delimiters-IsClean = substitute-IsClean false
