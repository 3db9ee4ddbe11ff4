-- ===== src/Glob/Parse.antt =====
-- Folding adjacent wildcards while a pattern is parsed does not change what the pattern matches, and
-- the fuel of the filter parser is enough.
use native.Mathlib.Decide.{dec_lt}
use diffuse.Prelude.{
  ℕ, ◌≡◌, refl, ◌↔◌, inl, inr, true, some, [], ◌∷◌, Text, length, get_elem?-length, ◌==◌, ◌&&◌,
  arith, Bool-cases, Option-cases, sym, ◌∙◌, subst, if◌then◌else◌,
}
use diffuse.Glob.{
  Token, segment, anything, any_dir, Tokens, end, token, slash, star, absorbed, join_token,
  append_token, wild, parse_path_loop, parse_path_glob, with_descendants, path_matches, exact,
}
use diffuse.Glob.Runs.{NoSlash, Reads, Runs}
use diffuse.Glob.Advance.{advance_exact}

-- The tokens of a path glob read off one by one, with no folding.
pub plain_path : Text → Tokens
plain_path [] = end
plain_path (a ∷ []) = token (wild a) end
plain_path (a ∷ b ∷ []) =
    let next = plain_path (b ∷ []) in
    if a == star && b == star then token anything end else token (wild a) next
plain_path (a ∷ b ∷ c ∷ rest) =
    let next = plain_path (b ∷ c ∷ rest) in
    let stars = plain_path (c ∷ rest) in
    let directory = plain_path rest in
    if a == star && b == star
    then (if c == slash then token any_dir directory else token anything stars)
    else token (wild a) next

NoSlash-append : (text : Text) (i k j : ℕ) → NoSlash text i k → NoSlash text k j → NoSlash text i j
NoSlash-append text i k j h h' m a b e = elim (dec_lt m k) [
  | yes p ↦ h m a p e
  | no p ↦ h' m (omega arith) b e
]

module _ (fold : ℕ → Text) (text : Text) where
  -- two things read one after the other
  abbrev Both : (ℕ → ℕ → Type 0) → (ℕ → ℕ → Type 0) → ℕ → ℕ → Type 0
  Both P Q i j = (k : ℕ) × P i k × Q k j

  absorbed_iff :
      (x t y : Token) (i j : ℕ)
      → absorbed x t ≡ some y
      → Reads fold text y i j ↔ Both (Reads fold text x) (Reads fold text t) i j
  unfolding Reads
  absorbed_iff segment segment segment i j h = (
    λ (a, b, free). (i, (omega arith, omega arith, λ k p q. absurd (omega arith)), (a, b, free)),
    λ (k, r, r').
        let (a, b, free) = r in
        let (a', b', free') = r' in (omega arith, b', NoSlash-append text i k j free free'),
  )
  absorbed_iff segment anything anything i j h = (
    λ (a, b). (i, (omega arith, omega arith, λ k p q. absurd (omega arith)), (a, b)),
    λ (k, r, r'). let (a, b, free) = r in let (a', b') = r' in (omega arith, b'),
  )
  absorbed_iff anything anything anything i j h = (
    λ (a, b). (i, (omega arith, omega arith), (a, b)),
    λ (k, r, r'). let (a, b) = r in let (a', b') = r' in (omega arith, b'),
  )
  absorbed_iff anything segment anything i j h = (
    λ (a, b). (j, (a, b), (omega arith, omega arith, λ k p q. absurd (omega arith))),
    λ (k, r, r'). let (a, b) = r in let (a', b', free) = r' in (omega arith, b'),
  )
  absorbed_iff anything any_dir anything i j h = (
    λ (a, b). (j, (a, b), inl refl),
    λ (k, r, r').
        let (a, b) = r in
        elim r' [
          | inl e ↦ (omega arith, omega arith)
          | inr (m, a', at, e) ↦ let lt = get_elem?-length text m at in (omega arith, omega arith)
        ],
  )
  absorbed_iff any_dir anything anything i j h = (
    λ (a, b). (i, inl refl, (a, b)),
    λ (k, r, r').
        let (a, b) = r' in
        elim r [
          | inl e ↦ (omega arith, omega arith)
          | inr (m, a', at, e) ↦ (omega arith, omega arith)
        ],
  )
  absorbed_iff any_dir any_dir any_dir i j h = (
    λ r. (i, inl refl, r),
    λ (k, r, r'). elim r [
      | inl e ↦ subst (λ n. Reads fold text any_dir n j) e r'
      | inr (m, a, at, e) ↦ elim r' [
        | inl e' ↦ inr (m, a, at, e' ∙ e)
        | inr (m', a', at', e') ↦ inr (m', omega arith, at', e')
      ]
    ],
  )
  absorbed_iff x t y i j h = cc

  Both-assoc : (P Q R : ℕ → ℕ → Type 0) (i j : ℕ) → Both P (Both Q R) i j ↔ Both (Both P Q) R i j
  Both-assoc P Q R i j = (
    λ (k, p, q). let (m, q', r) = q in (m, (k, p, q'), r),
    λ (m, q, r). let (k, p, q') = q in (k, p, (m, q', r)),
  )

  one_token_iff : (t : Token) (i j : ℕ) → Runs fold text (token t end) i j ↔ Reads fold text t i j
  unfolding Reads
  one_token_iff t i j = (λ (k, r, e). subst (λ n. Reads fold text t i n) e r, λ r. (j, r, refl))

  join_iff :
      (x t : Token) (i j : ℕ)
      → Runs fold text (join_token x t) i j ↔ Both (Reads fold text x) (Reads fold text t) i j
  unfolding join_token
  join_iff x t i j = elim (Option-cases (absorbed x t)) [
    | inl e ↦
        rw (e, join_token)
          (unfold Reads in
            (
              λ (k, r, rest). (k, r, (one_token_iff t k j).0 rest),
              λ (k, r, r'). (k, r, (one_token_iff t k j).1 r'),
            ))
    | inr (y, e) ↦
        rw (e, join_token)
          (
            λ r. (absorbed_iff x t y i j e).0 ((one_token_iff y i j).0 r),
            λ r. (one_token_iff y i j).1 ((absorbed_iff x t y i j e).1 r),
          )
  ]

  -- Appending a token, folded or not, reads what the tokens read and then what the token reads.
  append_iff :
      (ts : Tokens) (t : Token) (i j : ℕ)
      → Runs fold text (append_token ts t) i j ↔ Both (Runs fold text ts) (Reads fold text t) i j
  unfolding append_token Reads
  append_iff end t i j = (
    λ r. (i, refl, (one_token_iff t i j).0 r),
    λ (k, e, r). (one_token_iff t i j).1 (subst (λ n. Reads fold text t n j) (sym e) r),
  )
  append_iff (token x end) t i j = (
    λ r. let (k, a, b) = (join_iff x t i j).0 r in (k, (one_token_iff x i k).1 a, b),
    λ (k, a, b). (join_iff x t i j).1 (k, (one_token_iff x i k).0 a, b),
  )
  append_iff (token x (token y ts)) t i j = (
    λ (k, a, rest). let (m, b, c) = (append_iff (token y ts) t k j).0 rest in (m, (k, a, b), c),
    λ (m, ab, c). let (k, a, b) = ab in (k, a, (append_iff (token y ts) t k j).1 (m, b, c)),
  )

  -- One more token before the rest of the loop.
  shift :
      (ts : Tokens) (t : Token) (rest : Tokens) (i j : ℕ)
      → Both (Runs fold text (append_token ts t)) (Runs fold text rest) i j
        ↔ Both (Runs fold text ts) (Runs fold text (token t rest)) i j
  unfolding Reads
  shift ts t rest i j = (
    λ (k, a, b). let (m, c, d) = (append_iff ts t i k).0 a in (m, c, (k, d, b)),
    λ (m, c, r). let (k, d, b) = r in (k, (append_iff ts t i k).1 (m, c, d), b),
  )

  loop_step :
      (ts : Tokens) (t : Token) (rest out : Tokens) (i j : ℕ)
      → Runs fold text out i j ↔ Both (Runs fold text (append_token ts t)) (Runs fold text rest) i j
      → Runs fold text out i j ↔ Both (Runs fold text ts) (Runs fold text (token t rest)) i j
  loop_step ts t rest out i j h =
      (λ r. (shift ts t rest i j).0 (h.0 r), λ r. h.1 ((shift ts t rest i j).1 r))

  last_token :
      (ts : Tokens) (t : Token) (i j : ℕ)
      → Runs fold text (append_token ts t) i j
        ↔ Both (Runs fold text ts) (Runs fold text (token t end)) i j
  last_token ts t i j = (
    λ r. let (k, a, b) = (append_iff ts t i j).0 r in (k, a, (one_token_iff t k j).1 b),
    λ (k, a, b). (append_iff ts t i j).1 (k, a, (one_token_iff t k j).0 b),
  )

  parse_path_loop_iff :
      (ts : Tokens) (s : Text) (i j : ℕ)
      → Runs fold text (parse_path_loop ts s) i j
        ↔ Both (Runs fold text ts) (Runs fold text (plain_path s)) i j
  unfolding parse_path_loop plain_path
  parse_path_loop_iff ts [] i j =
      unfold Reads in (λ r. (j, r, refl), λ (k, r, e). subst (λ n. Runs fold text ts i n) e r)
  parse_path_loop_iff ts (a ∷ []) i j = last_token ts (wild a) i j
  parse_path_loop_iff ts (a ∷ b ∷ []) i j = elim (Bool-cases (a == star && b == star)) [
    | inl e ↦ rw e (last_token ts anything i j)
    | inr e ↦ rw e (
        loop_step ts (wild a) (plain_path (b ∷ [])) _ i j
          (parse_path_loop_iff (append_token ts (wild a)) (b ∷ []) i j))
  ]
  parse_path_loop_iff ts (a ∷ b ∷ c ∷ rest) i j = elim (Bool-cases (a == star && b == star)) [
    | inl e ↦ rw e elim (Bool-cases (c == slash)) [
      | inl e' ↦ rw e' (
          loop_step ts any_dir (plain_path rest) _ i j
            (parse_path_loop_iff (append_token ts any_dir) rest i j))
      | inr e' ↦ rw e' (
          loop_step ts anything (plain_path (c ∷ rest)) _ i j
            (parse_path_loop_iff (append_token ts anything) (c ∷ rest) i j))
    ]
    | inr e ↦ rw e (
        loop_step ts (wild a) (plain_path (b ∷ c ∷ rest)) _ i j
          (parse_path_loop_iff (append_token ts (wild a)) (b ∷ c ∷ rest) i j))
  ]

-- A path glob matches exactly the paths that its tokens, read off with no folding, read from end to
-- end.
pub path_matches-exact :
    (pattern path : Text)
    → (path_matches pattern path ≡ true)
      ↔ Runs exact path (plain_path (with_descendants pattern)) 0 (length path)
unfolding path_matches
path_matches-exact pattern path =
    let whole = with_descendants pattern in
    let ts = parse_path_glob whole in
    let (sound, complete) =
      advance_exact exact path ts (0 ∷ []) (length path) (λ i m. ground arith) in
    let (unfolded, folded) = parse_path_loop_iff exact path end whole 0 (length path) in
    unfold parse_path_glob Reads in
    (
      λ h.
          let (i, m, r) = sound h in
          let first : i ≡ 0 = ground arith in
          let (k, e, r') = unfolded (subst (λ n. Runs exact path ts n (length path)) first r) in
          subst (λ n. Runs exact path (plain_path whole) n (length path)) (sym e) r',
      λ r. complete (0, refl, folded (0, refl, r)),
    )
