-- ===== src/Policy/Prompt/Nonce.antt =====
-- Which nonces a prompt is given.
use diffuse.Prelude.{
  ℕ, ◌+◌, ◌-◌, ◌≤◌, ◌≡◌, ◌↔◌, ◌⊎◌, refl, inl, inr, true, false, [], ◌∷◌, ◌++◌, Text, all, All, take,
  length, ends_with, arith, Bool-cases, leb_iff, and_iff, regroup, length-append, ap, suc,
  and_right, false≢true,
}
use diffuse.Policy.Prompt.{in_range, is_alphanumeric, is_plain_nonce, is_nonce}

-- A digit, a capital or a small letter of ASCII.
abbrev pub IsAlphanumeric : ℕ → Type 0
IsAlphanumeric c = ((48 ≤ c) × (c ≤ 57)) ⊎ ((65 ≤ c) × (c ≤ 90)) ⊎ ((97 ≤ c) × (c ≤ 122))

abbrev pub IsPlainNonce : Text → Type 0
IsPlainNonce s = (8 ≤ length s) × (length s ≤ 64) × All IsAlphanumeric s

-- 8 to 64 letters and digits, and nothing else but possibly one line feed at the end.
abbrev pub IsNonce : Text → Type 0
IsNonce s = IsPlainNonce s ⊎ ((t : Text) × (s ≡ t ++ 10 ∷ []) × IsPlainNonce t)

in_range_iff : (low high c : ℕ) → (in_range low high c ≡ true) ↔ ((low ≤ c) × (c ≤ high))
in_range_iff low high c = and_iff (leb_iff low c) (leb_iff c high)

is_alphanumeric_iff : (c : ℕ) → (is_alphanumeric c ≡ true) ↔ IsAlphanumeric c
is_alphanumeric_iff c = ground arith

all-IsAlphanumeric_iff : (s : Text) → (all is_alphanumeric s ≡ true) ↔ All IsAlphanumeric s
all-IsAlphanumeric_iff [] = (λ h. tt, λ h. refl)
all-IsAlphanumeric_iff (c ∷ s) = and_iff (is_alphanumeric_iff c) (all-IsAlphanumeric_iff s)

is_plain_nonce_iff : (s : Text) → (is_plain_nonce s ≡ true) ↔ IsPlainNonce s
is_plain_nonce_iff s =
    regroup (and_iff (in_range_iff 8 64 (length s)) (all-IsAlphanumeric_iff s))
      (λ ((l, u), a). (l, u, a)) (λ (l, u, a). ((l, u), a))

less_one : (n : ℕ) → suc n - 1 ≡ n
less_one n = omega arith

split_line_feed : (s : Text) → ends_with (10 ∷ []) s ≡ true → s ≡ take (length s - 1) s ++ 10 ∷ []
split_line_feed [] h = absurd (false≢true h)
split_line_feed (c ∷ []) h = ap (λ x. x ∷ []) (ground arith)
split_line_feed (c ∷ d ∷ s) h =
    let e = split_line_feed (d ∷ s) (ground arith) in
    rw (less_one (suc (length s))) (ap (λ x. c ∷ x) (rw (less_one (length s)) at e))

ends_with-snoc : (s : Text) → ends_with (10 ∷ []) (s ++ 10 ∷ []) ≡ true
ends_with-snoc [] = refl
ends_with-snoc (c ∷ s) = ground (arith, ends_with-snoc s)

take-snoc : (s : Text) → take (length s) (s ++ 10 ∷ []) ≡ s
take-snoc [] = refl
take-snoc (c ∷ s) = ap (λ x. c ∷ x) (take-snoc s)

no_line_feed : (s : Text) → all is_alphanumeric s ≡ true → ends_with (10 ∷ []) s ≡ false
no_line_feed [] h = refl
no_line_feed (c ∷ s) h =
    ground (arith, no_line_feed s (and_right (is_alphanumeric c) (all is_alphanumeric s) h))

pub is_nonce_iff : (s : Text) → (is_nonce s ≡ true) ↔ IsNonce s
is_nonce_iff s = (
  λ h. elim (Bool-cases (ends_with (10 ∷ []) s)) [
    | inl e ↦ inr (take (length s - 1) s, split_line_feed s e, (is_plain_nonce_iff _).0 (rw e at h))
    | inr e ↦ inl ((is_plain_nonce_iff s).0 (rw e at h))
  ],
  λ n. elim n [
    | inl p ↦
        let plain = (is_plain_nonce_iff s).1 p in
        rw (no_line_feed s (and_right (in_range 8 64 (length s)) (all is_alphanumeric s) plain))
          plain
    | inr (t, e, p) ↦
        rw (e, ends_with-snoc t, length-append t (10 ∷ []))
          (rw (less t) (rw (take-snoc t) ((is_plain_nonce_iff t).1 p)))
  ],
)
  where
    less : (t : Text) → length t + 1 - 1 ≡ length t
    less t = omega arith
