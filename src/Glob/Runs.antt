-- ===== src/Glob/Runs.antt =====
-- What a token means: the offsets between which it reads the text.
use diffuse.Prelude.{ℕ, ◌+◌, ◌≤◌, ◌<◌, ◌≡◌, ◌≢◌, ◌⊎◌, some, Text, length, get_elem?}
use diffuse.Glob.{
  Token, char, single, segment, anything, any_dir, choice, Tokens, end, token, Branches, no_branch,
  branch, slash,
}

-- the character at `i` passes `P`
abbrev pub At : Text → (ℕ → Type 0) → ℕ → Type 0
At text P i = (c : ℕ) × (get_elem? text i ≡ some c) × P c

-- no separator stands from `i` up to `j`
abbrev pub NoSlash : Text → ℕ → ℕ → Type 0
NoSlash text i j = (k : ℕ) → i ≤ k → k < j → get_elem? text k ≢ some slash

module _ (fold : ℕ → Text) (text : Text) where
  unfoldable mutual
    pub Reads : Token → ℕ → ℕ → Type 0
    Reads (char e) i j = At text (λ c. fold c ≡ fold e) i × (j ≡ i + 1)
    Reads single i j = At text (λ c. c ≢ slash) i × (j ≡ i + 1)
    Reads segment i j = (i ≤ j) × (j ≤ length text) × NoSlash text i j
    Reads anything i j = (i ≤ j) × (j ≤ length text)
    Reads any_dir i j =
        (j ≡ i) ⊎ ((k : ℕ) × (i ≤ k) × (get_elem? text k ≡ some slash) × (j ≡ k + 1))
    Reads (choice bs) i j = SomeRuns bs i j

    pub Runs : Tokens → ℕ → ℕ → Type 0
    Runs end i j = i ≡ j
    Runs (token t ts) i j = (k : ℕ) × Reads t i k × Runs ts k j

    pub SomeRuns : Branches → ℕ → ℕ → Type 0
    SomeRuns no_branch i j = ⊥
    SomeRuns (branch b bs) i j = Runs b i j ⊎ SomeRuns bs i j
