-- ===== src/Glob/Filter.antt =====
-- The parser of filter globs: its fuel is enough, and a pattern without wildcards compares texts.
use diffuse.Prelude.{
  ℕ, zero, suc, ◌+◌, ◌≤◌, ◌≡◌, refl, inl, inr, some, none, Option, List, [], ◌∷◌, Text, length, All,
  All-mono, ◌==◌, arith, Bool-cases, Option-cases,
}
use diffuse.Glob.{
  char, single, anything, segment, Tokens, split_at_brace, add_first, split_commas, valid_choices,
  parse_branches, filter_star, filter_choice, filter_step, parse_filter_loop, append_token,
}

-- What stands before the closing brace and behind it is shorter than the text.
split_at_brace-length :
    (s inner rest : Text)
    → split_at_brace s ≡ some (inner, rest)
    → length inner + length rest + 1 ≡ length s
unfolding split_at_brace
split_at_brace-length [] inner rest h = cc
split_at_brace-length (a ∷ s) inner rest h = elim (Option-cases (split_at_brace s)) [
  | inl e ↦ ground arith
  | inr (p, e) ↦ ground (arith, split_at_brace-length s p.0 p.1)
]

add_first-le :
    (a n : ℕ) (xs : List Text)
    → All (λ c. length c ≤ n) xs
    → All (λ c. length c ≤ suc n) (add_first a xs)
unfolding add_first
add_first-le a n [] h = omega arith
add_first-le a n (x ∷ xs) h =
    (omega arith, All-mono (λ c. length c ≤ n) (λ c. length c ≤ suc n) xs (λ c le. omega arith) h.1)

split_commas-le : (s : Text) → All (λ c. length c ≤ length s) (split_commas s)
unfolding split_commas
split_commas-le [] = omega arith
split_commas-le (a ∷ s) = elim (Bool-cases (a == b',')) [
  | inl e ↦
      rw e (omega arith, All-mono _ _ (split_commas s) (λ c le. omega arith) (split_commas-le s))
  | inr e ↦ rw e (add_first-le a (length s) (split_commas s) (split_commas-le s))
]

-- Two continuations that agree on the texts of at most `n` characters.
abbrev AgreeTo : ℕ → (Tokens → Text → Tokens) → (Tokens → Text → Tokens) → Type 0
AgreeTo n next next' = (ts : Tokens) (u : Text) → length u ≤ n → next ts u ≡ next' ts u

module _ (next next' : Tokens → Text → Tokens) where
  parse_branches-agree :
      (n : ℕ) (cs : List Text)
      → AgreeTo n next next'
      → All (λ c. length c ≤ n) cs
      → parse_branches next cs ≡ parse_branches next' cs
  unfolding parse_branches
  parse_branches-agree n [] same h = refl
  parse_branches-agree n (c ∷ cs) same h = cc (same _ c h.0, parse_branches-agree n cs same h.1)

  filter_star-agree :
      (ts : Tokens) (s : Text)
      → AgreeTo (length s) next next'
      → filter_star next ts s ≡ filter_star next' ts s
  unfolding filter_star
  filter_star-agree ts [] same = same _ [] (omega arith)
  filter_star-agree ts (b ∷ s) same = ground (
    arith,
    same (append_token ts anything) s (omega arith),
    same (append_token ts segment) (b ∷ s) (omega arith),
  )

  filter_choice-agree :
      (ts : Tokens) (s : Text) (found : Option (Text × Text))
      → split_at_brace s ≡ found
      → AgreeTo (length s) next next'
      → filter_choice next ts s found ≡ filter_choice next' ts s found
  unfolding filter_choice
  filter_choice-agree ts s none e same = same _ s (omega arith)
  filter_choice-agree ts s (some (inner, rest)) e same =
      let sum = split_at_brace-length s inner rest e in
      let short =
        All-mono (λ c. length c ≤ length inner) (λ c. length c ≤ length s) (split_commas inner)
          (λ c le. omega arith) (split_commas-le inner) in
      let branches = parse_branches-agree (length s) (split_commas inner) same short in
      elim (Bool-cases (valid_choices (split_commas inner))) [
        | inl v ↦ rw v (rw branches (same _ rest (omega arith)))
        | inr v ↦ rw v (same _ s (omega arith))
      ]

  filter_step-agree :
      (ts : Tokens) (a : ℕ) (s : Text)
      → AgreeTo (length s) next next'
      → filter_step next ts a s ≡ filter_step next' ts a s
  filter_step-agree ts a s same =
      let stars = filter_star-agree ts s same in
      let choices = filter_choice-agree ts s (split_at_brace s) refl same in
      let one = same (append_token ts single) s (omega arith) in
      let plain = same (append_token ts (char a)) s (omega arith) in
      let brace = same (append_token ts (char b'{')) s (omega arith) in
      unfold filter_step in ground arith

-- With at least as much fuel as the text has characters, more fuel changes nothing.
pub parse_filter_loop-fuel :
    (f g : ℕ) (ts : Tokens) (s : Text)
    → length s ≤ f
    → length s ≤ g
    → parse_filter_loop f ts s ≡ parse_filter_loop g ts s
unfolding parse_filter_loop
parse_filter_loop-fuel zero zero ts [] h k = refl
parse_filter_loop-fuel zero (suc g) ts [] h k = refl
parse_filter_loop-fuel (suc f) zero ts [] h k = refl
parse_filter_loop-fuel (suc f) (suc g) ts [] h k = refl
parse_filter_loop-fuel zero g ts (a ∷ s) h k = absurd (omega arith)
parse_filter_loop-fuel (suc f) zero ts (a ∷ s) h k = absurd (omega arith)
parse_filter_loop-fuel (suc f) (suc g) ts (a ∷ s) h k =
    filter_step-agree (parse_filter_loop f) (parse_filter_loop g) ts a s
      λ us u le. parse_filter_loop-fuel f g us u (omega arith) (omega arith)
