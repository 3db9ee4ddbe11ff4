-- ===== src/Glob/Advance.antt =====
-- The simulation by offsets reaches exactly the offsets that the meaning of the tokens allows.
use diffuse.Prelude.{
  ℕ, ◌+◌, ◌-◌, ◌≤◌, ◌≡◌, refl, ◌≢◌, ◌↔◌, inl, inr, Bool, true, not, some, List, [], ◌∷◌, Text,
  length, get_elem?, get_elem?-length, ◌==◌, arith, map, filter, subst, Option-cases, sym, ◌∙◌,
  text_eq, text_eq_iff, ap,
}
use diffuse.Glob.{
  Token, char, single, segment, anything, any_dir, choice, Tokens, end, token, Branches, no_branch,
  branch, slash, holds_at, minimum, advance_char, advance_single, advance_within_segment,
  advance_anything, advance_any_dir, advance, advance_token, advance_branches, range,
}
use diffuse.Glob.Runs.{At, Reads, Runs, SomeRuns}
use diffuse.Glob.Sets.{In, In-append, In-range, In-next, minimum-In, minimum-le, segment_loop_iff}

-- `j` is read up to from some offset of the set.
abbrev pub Image : List ℕ → (ℕ → ℕ → Type 0) → ℕ → Type 0
Image xs R j = (i : ℕ) × In i xs × R i j

abbrev pub InText : Text → List ℕ → Type 0
InText text xs = (i : ℕ) → In i xs → i ≤ length text

holds_at_iff :
    (text : Text) (p : ℕ → Bool) (i : ℕ) → (holds_at text p i ≡ true) ↔ At text (λ c. p c ≡ true) i
holds_at_iff text p i = elim (Option-cases (get_elem? text i)) [
  | inl e ↦ (λ h. cc, λ (c, e', h). cc)
  | inr (c, e) ↦ (λ h. (c, e, rw (e, holds_at) at h), λ (c', e', h). ground arith)
]

-- The offsets behind those whose character passes a test.
next_iff :
    (text : Text) (p : ℕ → Bool) (P : ℕ → Type 0)
    → ((c : ℕ) → (p c ≡ true) ↔ P c)
    → (xs : List ℕ) (j : ℕ)
    → In j (map (λ i. i + 1) (filter (holds_at text p) xs))
      ↔ Image xs (λ i k. At text P i × (k ≡ i + 1)) j
next_iff text p P same xs j = (
  λ h.
      let (pos, m, t) = (In-next (holds_at text p) xs j).0 h in
      let (c, e, t') = (holds_at_iff text p (j - 1)).0 t in
      (j - 1, m, ((c, e, (same c).0 t'), omega arith)),
  λ (i, m, found).
      let (at, e) = found in
      let (c, e', t) = at in
      let back : i ≡ j - 1 = omega arith in
      (In-next (holds_at text p) xs j).1
        (omega arith, rw back at m, rw back at ((holds_at_iff text p i).1 (c, e', (same c).1 t))),
)

module _ (fold : ℕ → Text) (text : Text) where
  advance_char_iff :
      (e : ℕ) (xs : List ℕ) (j : ℕ)
      → In j (advance_char fold text e xs) ↔ Image xs (Reads fold text (char e)) j
  unfolding advance_char Reads
  advance_char_iff e xs j =
      next_iff text (λ c. text_eq (fold c) (fold e)) (λ c. fold c ≡ fold e)
        (λ c. text_eq_iff (fold c) (fold e)) xs j

  advance_single_iff :
      (xs : List ℕ) (j : ℕ) → In j (advance_single text xs) ↔ Image xs (Reads fold text single) j
  unfolding advance_single Reads
  advance_single_iff xs j =
      next_iff text (λ c. not (c == slash)) (λ c. c ≢ slash) (λ c. ground arith) xs j

  advance_segment_iff :
      (x : ℕ) (xs : List ℕ) (j : ℕ)
      → InText text (x ∷ xs)
      → In j (advance_within_segment text (x ∷ xs)) ↔ Image (x ∷ xs) (Reads fold text segment) j
  unfolding advance_within_segment Reads
  advance_segment_iff x xs j fits =
      let low = minimum (x ∷ xs) in
      let least = λ (i : ℕ) (m : In i (x ∷ xs)). minimum-le i x xs m in
      let bound = fits low (minimum-In x xs) in
      let (sound, complete) = segment_loop_iff text (x ∷ xs) low (length text + 1 - low) j least in
      (
        λ h. let (lt, r) = sound h in let (i, m, a, b, free) = r in (i, m, (b, omega arith, free)),
        λ (i, m, read).
            let (a, b, free) = read in complete (omega arith, (i, m, least i m, a, free)),
      )

  advance_anything_iff :
      (x : ℕ) (xs : List ℕ) (j : ℕ)
      → InText text (x ∷ xs)
      → In j (advance_anything text (x ∷ xs)) ↔ Image (x ∷ xs) (Reads fold text anything) j
  unfolding advance_anything Reads
  advance_anything_iff x xs j fits =
      let low = minimum (x ∷ xs) in
      let bound = fits low (minimum-In x xs) in
      let (sound, complete) = In-range low (length text + 1 - low) j in
      (
        λ h. let (a, b) = sound h in (low, minimum-In x xs, (a, omega arith)),
        λ (i, m, read).
            let (a, b) = read in complete (omega (arith, minimum-le i x xs m), omega arith),
      )

  advance_any_dir_iff :
      (x : ℕ) (xs : List ℕ) (j : ℕ)
      → InText text (x ∷ xs)
      → In j (advance_any_dir text (x ∷ xs)) ↔ Image (x ∷ xs) (Reads fold text any_dir) j
  unfolding advance_any_dir Reads
  advance_any_dir_iff x xs j fits =
      let low = minimum (x ∷ xs) in
      let steps = range low (length text - low) in
      let (split, join) =
        In-append j (x ∷ xs) (map (λ i. i + 1) (filter (holds_at text (λ c. c == slash)) steps)) in
      let (sound, complete) =
        next_iff text (λ c. c == slash) (λ c. c ≡ slash) (λ c. ground arith) steps j in
      (
        λ h. elim (split h) [
          | inl m ↦ (j, m, inl refl)
          | inr m ↦
              let (k, at_k, found) = sound m in
              let (here, e) = found in
              let (c, e', s) = here in
              let (a, b) = (In-range low (length text - low) k).0 at_k in
              (low, minimum-In x xs, inr (k, a, e' ∙ ap some s, e))
        ],
        λ (i, m, read). elim read [
          | inl e ↦ join (inl (subst (λ k. In k (x ∷ xs)) (sym e) m))
          | inr (k, a, e', e) ↦
              let lt = get_elem?-length text k e' in
              join (
                inr (
                  complete (
                    k,
                    (In-range low (length text - low) k).1
                        (omega (arith, minimum-le i x xs m), omega arith),
                    ((slash, e', refl), e),
                  )))
        ],
      )

  -- What is read stays within the text.
  mutual
    unfolding Reads

    pub Runs-le :
        (ts : Tokens) (i j : ℕ) → i ≤ length text → Runs fold text ts i j → j ≤ length text
    Runs-le end i j h r = omega arith
    Runs-le (token t ts) i j h (k, r, rs) = Runs-le ts k j (Reads-le t i k h r) rs

    pub Reads-le : (t : Token) (i j : ℕ) → i ≤ length text → Reads fold text t i j → j ≤ length text
    Reads-le (char e) i j h ((c, at, _), e') = omega (arith, get_elem?-length text i at)
    Reads-le single i j h ((c, at, _), e') = omega (arith, get_elem?-length text i at)
    Reads-le segment i j h (a, b, _) = b
    Reads-le anything i j h (a, b) = b
    Reads-le any_dir i j h (inl e) = omega arith
    Reads-le any_dir i j h (inr (k, a, at, e)) = omega (arith, get_elem?-length text k at)
    Reads-le (choice bs) i j h r = SomeRuns-le bs i j h r

    pub SomeRuns-le :
        (bs : Branches) (i j : ℕ) → i ≤ length text → SomeRuns fold text bs i j → j ≤ length text
    SomeRuns-le no_branch i j h r = elim r [ ]
    SomeRuns-le (branch b bs) i j h (inl r) = Runs-le b i j h r
    SomeRuns-le (branch b bs) i j h (inr r) = SomeRuns-le bs i j h r

  mutual
    unfolding advance Reads

    advance-Image :
        (ts : Tokens) (xs : List ℕ) (j : ℕ)
        → InText text xs
        → In j (advance fold text ts xs) ↔ Image xs (Runs fold text ts) j
    advance-Image end xs j fits = (λ h. (j, h, refl), λ (i, m, e). subst (λ k. In k xs) e m)
    advance-Image (token t ts) [] j fits = (λ h. cc, λ (i, m, r). cc)
    advance-Image (token t ts) (x ∷ xs) j fits =
        let first = advance_token fold text t (x ∷ xs) in
        let inside : InText text first = λ k m.
          let (i, at_i, r) = (advance_token-Image t x xs k fits).0 m in
          Reads-le t i k (fits i at_i) r in
        let (sound, complete) = advance-Image ts first j inside in
        (
          λ h.
              let (k, at_k, rs) = sound h in
              let (i, at_i, r) = (advance_token-Image t x xs k fits).0 at_k in
              (i, at_i, (k, r, rs)),
          λ (i, at_i, rs).
              let (k, r, rest) = rs in
              complete (k, (advance_token-Image t x xs k fits).1 (i, at_i, r), rest),
        )

    advance_token-Image :
        (t : Token) (x : ℕ) (xs : List ℕ) (j : ℕ)
        → InText text (x ∷ xs)
        → In j (advance_token fold text t (x ∷ xs)) ↔ Image (x ∷ xs) (Reads fold text t) j
    advance_token-Image (char e) x xs j fits = advance_char_iff e (x ∷ xs) j
    advance_token-Image single x xs j fits = advance_single_iff (x ∷ xs) j
    advance_token-Image segment x xs j fits = advance_segment_iff x xs j fits
    advance_token-Image anything x xs j fits = advance_anything_iff x xs j fits
    advance_token-Image any_dir x xs j fits = advance_any_dir_iff x xs j fits
    advance_token-Image (choice bs) x xs j fits = advance_branches-Image bs (x ∷ xs) j fits

    advance_branches-Image :
        (bs : Branches) (xs : List ℕ) (j : ℕ)
        → InText text xs
        → In j (advance_branches fold text bs xs) ↔ Image xs (SomeRuns fold text bs) j
    advance_branches-Image no_branch xs j fits = (λ h. cc, λ (i, m, r). absurd r)
    advance_branches-Image (branch b bs) xs j fits =
        let (split, join) =
          In-append j (advance fold text b xs) (advance_branches fold text bs xs) in
        let (sound, complete) = advance-Image b xs j fits in
        let (sound', complete') = advance_branches-Image bs xs j fits in
        (
          λ h. elim (split h) [
            | inl m ↦ let (i, at_i, r) = sound m in (i, at_i, inl r)
            | inr m ↦ let (i, at_i, r) = sound' m in (i, at_i, inr r)
          ],
          λ (i, at_i, r). elim r [
            | inl r' ↦ join (inl (complete (i, at_i, r')))
            | inr r' ↦ join (inr (complete' (i, at_i, r')))
          ],
        )

-- From a set of offsets into the text, `_advance` reaches exactly the offsets up to which the tokens
-- read the text from one of them, for every way to compare characters.
pub advance_exact :
    (fold : ℕ → Text) (text : Text) (ts : Tokens) (xs : List ℕ) (j : ℕ)
    → ((i : ℕ) → In i xs → i ≤ length text)
    → In j (advance fold text ts xs) ↔ ((i : ℕ) × In i xs × Runs fold text ts i j)
advance_exact fold text ts xs j fits = advance-Image fold text ts xs j fits
