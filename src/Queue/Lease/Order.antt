-- ===== src/Queue/Lease/Order.antt =====
-- Which job a claim takes.
use mathlib.Core.Option.{some-injective}
use diffuse.Prelude.{
  inl, inr, ◌⊎◌, Any, ℕ, ◌≡◌, refl, Bool, true, false, Option, none, some, List, [], ◌∷◌, All,
  All-mono, filter, arith, Bool-cases, Option-cases, subst, sym, ◌∙◌, false≢true,
}
use diffuse.Queue.{Job}
use diffuse.Queue.Lease.{candidate, claimable, comes_first, first_of_order, order_first}
use diffuse.Queue.Lease.Rows.{candidate-All}
use diffuse.Queue.Lease.Eligible.{CanStart, Precedes, claimable-CanStart, comes_first-Precedes}

comes_first_trans :
    (i j k : Job) → comes_first i j ≡ true → comes_first j k ≡ true → comes_first i k ≡ true
comes_first_trans i j k p q = ground arith

comes_first_total : (i j : Job) → comes_first i j ≡ false → comes_first j i ≡ true
comes_first_total i j p = ground arith

comes_first_refl : (i : Job) → comes_first i i ≡ true
comes_first_refl i = ground arith

order_first-least :
    (k : Job) (rest : Option Job) {j : Job} (js : List Job)
    → order_first k rest ≡ some j
    → ((i : Job) → rest ≡ some i → All (λ l. comes_first i l ≡ true) js)
    → (rest ≡ none → js ≡ [])
    → All (λ l. comes_first j l ≡ true) (k ∷ js)
unfolding order_first
order_first-least k none {j} js e f g =
    let same : k ≡ j = some-injective _ _ e in
    rw (g refl) (subst (λ i. comes_first i k ≡ true) same (comes_first_refl k), tt)
order_first-least k (some i) {j} js e f g = elim (Bool-cases (comes_first k i)) [
  | inl c ↦
      let same : k ≡ j = some-injective _ _ (rw c at e) in
      subst (λ x. All (λ l. comes_first x l ≡ true) (k ∷ js)) same
        (
          comes_first_refl k,
          All-mono (λ l. comes_first i l ≡ true) (λ l. comes_first k l ≡ true) js
              (λ l t. comes_first_trans k i l c t) (f i refl),
        )
  | inr c ↦
      let same : i ≡ j = some-injective _ _ (rw c at e) in
      subst (λ x. All (λ l. comes_first x l ≡ true) (k ∷ js)) same
        (comes_first_total k i c, f i refl)
]

first_of_order-none : (js : List Job) → first_of_order js ≡ none → js ≡ []
unfolding first_of_order order_first
first_of_order-none [] e = refl
first_of_order-none (j ∷ js) e = elim (Option-cases (first_of_order js)) [
  | inl o ↦ cc (rw (o, order_first) at e)
  | inr (k, o) ↦ elim (Bool-cases (comes_first j k)) [ inl c ↦ ground arith | inr c ↦ ground arith ]
]

first_of_order-least :
    (js : List Job) {j : Job} → first_of_order js ≡ some j → All (λ l. comes_first j l ≡ true) js
unfolding first_of_order
first_of_order-least [] e = tt
first_of_order-least (k ∷ js) {j} e =
    order_first-least k (first_of_order js) {j = j} js e (λ i o. first_of_order-least js {j = i} o)
      (first_of_order-none js)

each : (js : List Job) → All (λ k. Any (λ l. l ≡ k) js) js
each [] = tt
each (j ∷ js) = (inl refl, All-mono _ _ js (λ k h. inr h) (each js))

filter-All_of :
    (test : Job → Bool) (P : Job → Type 0) (js : List Job)
    → All P (filter test js)
    → All (λ j. test j ≡ true → P j) js
filter-All_of test P [] h = tt
filter-All_of test P (j ∷ js) h = elim (Bool-cases (test j)) [
  | inl t ↦ let h' = rw t at h in (λ _. h'.0, filter-All_of test P js h'.1)
  | inr t ↦ (λ u. absurd (false≢true (sym t ∙ u)), filter-All_of test P js (rw t at h))
]

-- What the candidate query answers: a job of the table that can start and precedes every job of it
-- that can start; or nothing, and then no job of the table can start.
abbrev pub Answers : ℕ → (ℕ → Bool) → (ℕ → Bool) → List Job → Option Job → Type 0
Answers now enabled locked js none = All (λ k. ¬ CanStart now enabled locked js k) js
Answers now enabled locked js (some j) =
    Any (λ k. k ≡ j) js
    × CanStart now enabled locked js j
    × All (λ k. (¬ CanStart now enabled locked js k) ⊎ Precedes j k) js

module _ (now : ℕ) (enabled locked : ℕ → Bool) (js : List Job) where
  cannot :
      (k : Job) → claimable now enabled locked js k ≡ false → ¬ CanStart now enabled locked js k
  cannot k f c = false≢true (sym f ∙ (claimable-CanStart now enabled locked js k).1 c)

  starts_or_not :
      (j k : Job)
      → (claimable now enabled locked js k ≡ true → comes_first j k ≡ true)
      → (¬ CanStart now enabled locked js k) ⊎ Precedes j k
  starts_or_not j k h = elim (Bool-cases (claimable now enabled locked js k)) [
    | inl t ↦ inr (comes_first-Precedes j k (h t))
    | inr f ↦ inl (cannot k f)
  ]

  candidate-Answers :
      (o : Option Job) → candidate now enabled locked js ≡ o → Answers now enabled locked js o
  unfolding candidate
  candidate-Answers none e =
      All-mono _ _ js (λ k h c. h ((claimable-CanStart now enabled locked js k).1 c))
        (filter-All_of (claimable now enabled locked js) (λ _. ⊥) js
          (rw (first_of_order-none (filter (claimable now enabled locked js) js) e) tt))
  candidate-Answers (some j) e =
      let (here, claims) =
        candidate-All (λ k. Any (λ l. l ≡ k) js) now enabled locked js e (each js) in
      (
        here,
        (claimable-CanStart now enabled locked js j).0 claims,
        All-mono _ _ js (λ k h. starts_or_not j k h)
            (filter-All_of (claimable now enabled locked js) (λ k. comes_first j k ≡ true) js
              (first_of_order-least (filter (claimable now enabled locked js) js) e)),
      )

  -- The candidate query answers with a job of the table that is queued and due, not locked, of an
  -- enabled repository, with no earlier active job and no running job of its scope; every other such
  -- job has a lower priority, or the same and a later due time, or the same of both and no smaller id.
  -- It answers nothing only if the table has no such job.
  pub candidate_comes_first : Answers now enabled locked js (candidate now enabled locked js)
  candidate_comes_first = candidate-Answers (candidate now enabled locked js) refl
