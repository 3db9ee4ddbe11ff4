-- ===== src/Glob/Sets.antt =====
-- Sets of offsets as lists: what is a member of each list that `_advance` builds.
use native.Mathlib.Decide.{dec_le}
use diffuse.Prelude.{
  ℕ, zero, suc, ◌+◌, ◌-◌, ◌≤◌, ◌<◌, ◌≡◌, ◌↔◌, ◌⊎◌, inl, inr, Bool, true, false, ◌||◌, List, [], ◌∷◌,
  ◌++◌, map, filter, elem, ◌==◌, arith, Bool-cases, Text, get_elem?, some, not, ◌&&◌, Option-cases,
  sym, ◌∙◌, false≢true,
}
use diffuse.Glob.{minimum, range, segment_loop, holds_at, slash}
use diffuse.Glob.Runs.{NoSlash}

-- `n` is an offset of the set.
abbrev pub In : ℕ → List ℕ → Type 0
In n xs = elem n xs ≡ true

pub In-append : (n : ℕ) (xs ys : List ℕ) → In n (xs ++ ys) ↔ (In n xs ⊎ In n ys)
In-append n [] ys = ground arith
In-append n (x ∷ xs) ys = ground (arith, In-append n xs ys)

pub In-range : (i n j : ℕ) → In j (range i n) ↔ ((i ≤ j) × (j < i + n))
unfolding range
In-range i zero j = ground arith
In-range i (suc n) j = ground (arith, In-range (i + 1) n j)

-- the offsets one behind those that pass the test
pub In-next :
    (p : ℕ → Bool) (xs : List ℕ) (j : ℕ)
    → In j (map (λ i. i + 1) (filter p xs)) ↔ ((0 < j) × In (j - 1) xs × (p (j - 1) ≡ true))
In-next p [] j = ground arith
In-next p (x ∷ xs) j = ground (arith, In-next p xs j)

pub minimum-In : (x : ℕ) (xs : List ℕ) → In (minimum (x ∷ xs)) (x ∷ xs)
minimum-In x [] = ground arith
minimum-In x (y ∷ ys) = ground (arith, minimum-In y ys)

pub minimum-le : (n x : ℕ) (xs : List ℕ) → In n (x ∷ xs) → minimum (x ∷ xs) ≤ n
minimum-le n x [] h = ground arith
minimum-le n x (y ∷ ys) h = ground (arith, minimum-le n y ys)

-- From an offset of the set up to `j` no separator stands.
abbrev pub Reached : Text → List ℕ → ℕ → ℕ → Type 0
Reached text xs from j = (i : ℕ) × In i xs × (from ≤ i) × (i ≤ j) × NoSlash text i j

-- the test of the loop
abbrev slash_at : Text → ℕ → Bool
slash_at text = holds_at text (λ c. c == slash)

slash_at_iff : (text : Text) (i : ℕ) → (slash_at text i ≡ true) ↔ (get_elem? text i ≡ some slash)
slash_at_iff text i = elim (Option-cases (get_elem? text i)) [
  | inl e ↦ rw e (ground arith)
  | inr (c, e) ↦ rw e (ground arith)
]

NoSlash-extend :
    (text : Text) (i j : ℕ) → slash_at text i ≡ false → NoSlash text (i + 1) j → NoSlash text i j
NoSlash-extend text i j clear h k le lt e = elim (dec_le (i + 1) k) [
  | yes p ↦ h k p lt e
  | no p ↦
      let same : k ≡ i = omega arith in
      false≢true (sym clear ∙ (slash_at_iff text i).1 (rw same at e))
]

-- `inside` says that an offset before `from` reaches it.
abbrev Entered : Text → List ℕ → ℕ → Bool → ℕ → Type 0
Entered text xs from inside j = ((inside ≡ true) × NoSlash text from j) ⊎ Reached text xs from j

-- An offset that enters the next round entered this one or is a member here.
Entered-back :
    (text : Text) (xs : List ℕ) (from : ℕ) (inside : Bool) (j : ℕ)
    → from < j
    → Entered text xs (from + 1) (not (slash_at text from) && (elem from xs || inside)) j
    → Entered text xs from inside j
Entered-back text xs from inside j lt (inl (e, h)) =
    let clear : slash_at text from ≡ false = ground arith in
    let free = NoSlash-extend text from j clear h in
    elim (Bool-cases (elem from xs)) [
      | inl m ↦ inr (from, m, omega arith, omega arith, free)
      | inr m ↦ inl (ground arith, free)
    ]
Entered-back text xs from inside j lt (inr (i, m, le, le', h)) = inr (i, m, omega arith, le', h)

Entered-here :
    (text : Text) (xs : List ℕ) (from : ℕ) (inside : Bool)
    → elem from xs || inside ≡ true
    → Entered text xs from inside from
Entered-here text xs from inside h =
    let free : NoSlash text from from = λ k le lt e. omega arith in
    elim (Bool-cases (elem from xs)) [
      | inl m ↦ inr (from, m, omega arith, omega arith, free)
      | inr m ↦ inl (ground arith, free)
    ]

-- what the next round knows of `inside`
abbrev onward : Text → List ℕ → ℕ → Bool → Bool
onward text xs from inside = not (slash_at text from) && (elem from xs || inside)

segment_loop-suc :
    (text : Text) (xs : List ℕ) (from n : ℕ) (inside : Bool) (j : ℕ)
    → In j (segment_loop text xs from (suc n) inside) ↔ (
        ((j ≡ from) × (elem from xs || inside ≡ true))
        ⊎ In j (segment_loop text xs (from + 1) n (onward text xs from inside)))
unfolding segment_loop
segment_loop-suc text xs from n inside j = ground arith

segment_loop_sound :
    (text : Text) (xs : List ℕ) (from n : ℕ) (inside : Bool) (j : ℕ)
    → In j (segment_loop text xs from n inside)
    → (from ≤ j) × (j < from + n) × Entered text xs from inside j
unfolding segment_loop
segment_loop_sound text xs from zero inside j h = cc
segment_loop_sound text xs from (suc n) inside j h =
    elim ((segment_loop-suc text xs from n inside j).0 h) [
      | inl (e, m) ↦ (omega arith, omega arith, rw e (Entered-here text xs from inside m))
      | inr deeper ↦
          let (le, lt, entered) =
            segment_loop_sound text xs (from + 1) n (onward text xs from inside) j deeper in
          (omega arith, omega arith, Entered-back text xs from inside j (omega arith) entered)
    ]

NoSlash-here : (text : Text) (i j : ℕ) → NoSlash text i j → i < j → slash_at text i ≡ false
NoSlash-here text i j h lt = elim (Bool-cases (slash_at text i)) [
  | inl e ↦ absurd (h i (omega arith) lt ((slash_at_iff text i).0 e))
  | inr e ↦ e
]

-- Of an offset that is entered, the round is the first or the next one is entered.
Entered-next :
    (text : Text) (xs : List ℕ) (from : ℕ) (inside : Bool) (j : ℕ)
    → from ≤ j
    → Entered text xs from inside j
    → ((j ≡ from) × (elem from xs || inside ≡ true))
      ⊎ ((from + 1 ≤ j) × Entered text xs (from + 1) (onward text xs from inside) j)
Entered-next text xs from inside j le (inl (e, free)) = elim (dec_le j from) [
  | yes p ↦ inl (omega arith, ground arith)
  | no p ↦
      let clear = NoSlash-here text from j free (omega arith) in
      inr (omega arith, inl (ground arith, λ k a. free k (omega arith)))
]
Entered-next text xs from inside j le (inr (i, m, a, b, free)) = elim (dec_le i from) [
  | yes p ↦
      let here : elem from xs ≡ true = rw (let e : from ≡ i = omega arith in e) m in
      elim (dec_le j from) [
        | yes q ↦ inl (omega arith, ground arith)
        | no q ↦
            let clear = NoSlash-here text from j (λ k c. free k (omega arith)) (omega arith) in
            inr (omega arith, inl (ground arith, λ k c. free k (omega arith)))
      ]
  | no p ↦ inr (omega arith, inr (i, m, omega arith, b, free))
]

segment_loop_complete :
    (text : Text) (xs : List ℕ) (from n : ℕ) (inside : Bool) (j : ℕ)
    → from ≤ j
    → j < from + n
    → Entered text xs from inside j
    → In j (segment_loop text xs from n inside)
segment_loop_complete text xs from zero inside j le lt h = absurd (omega arith)
segment_loop_complete text xs from (suc n) inside j le lt h =
    (segment_loop-suc text xs from n inside j).1 elim (Entered-next text xs from inside j le h) [
      | inl here ↦ inl here
      | inr (le', deeper) ↦ inr (
          segment_loop_complete text xs (from + 1) n (onward text xs from inside) j le'
            (omega arith) deeper)
    ]

-- The offsets of `segment_loop` from the minimum on are those that a member reaches.
pub segment_loop_iff :
    (text : Text) (xs : List ℕ) (low n j : ℕ)
    → ((i : ℕ) → In i xs → low ≤ i)
    → In j (segment_loop text xs low n false) ↔ ((j < low + n) × Reached text xs low j)
segment_loop_iff text xs low n j least = (
  λ h.
      let (_, lt, entered) = segment_loop_sound text xs low n false j h in
      elim entered [ inl (e, _) ↦ absurd (false≢true e) | inr r ↦ (lt, r) ],
  λ h.
      let (lt, r) = h in
      let (i, m, a, b, free) = r in
      segment_loop_complete text xs low n false j (omega arith) lt (inr (i, m, a, b, free)),
)
