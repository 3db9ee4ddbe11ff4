-- ===== src/Policy/Prompt/Framed.antt =====
-- Untrusted text reaches the prompt only inside its delimiters, and within the limit.
use diffuse.Prelude.{ℕ, ◌≤◌, ◌≡◌, ◌⊎◌, Text, []}
use diffuse.Policy.Prompt.{whole_block, cut_block}

-- Nothing, or the body between the delimiters, or the start of the body with the notice of the cut.
abbrev pub IsFramed : Text → Text → Text → Type 0
IsFramed nonce body t =
    (t ≡ [])
    ⊎ (t ≡ whole_block nonce body)
    ⊎ ((budget : ℕ) × (1 ≤ budget) × (t ≡ cut_block nonce budget body))
