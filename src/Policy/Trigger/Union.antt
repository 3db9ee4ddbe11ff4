-- ===== src/Policy/Trigger/Union.antt =====
-- The filters of several paths, put together, decide as the paths decide.
use diffuse.Prelude.{
  ℕ, ◌≡◌, refl, inl, inr, Bool, true, false, not, ◌&&◌, ◌||◌, List, [], ◌∷◌, ◌++◌, Text, any, all,
  Option, none, some, is_infix, text_eq, text_eq_iff, text_elem, fresh_texts, unique, insert_by,
  sort_by, is_empty, arith, Bool-cases, subst, sym,
}
use diffuse.Glob.{filter_matches}
use diffuse.Policy.{PathPolicy, TriggerPolicy, ReviewPolicy}
use diffuse.Policy.Query.{
  least_limit, smaller_limit, flat_map, folded_precedes, exclude_union, include_union, triggers_of,
  reviewable,
}
use diffuse.Policy.Trigger.{TriggerContext, matches_any, misses, has_keyword, is_over, searchable}

-- Sorting keeps what some element satisfies.
any-insert_by :
    {A : Type 0} (q : A → Bool) (precedes : A → A → Bool) (x : A) (xs : List A)
    → any q (insert_by precedes x xs) ≡ (q x || any q xs)
any-insert_by q precedes x [] = refl
any-insert_by q precedes x (y ∷ ys) = elim (Bool-cases (precedes y x)) [
  | inl t ↦ rw (t, any-insert_by q precedes x ys) (swap (q y) (q x) (any q ys))
  | inr t ↦ rw t refl
]
  where
    swap : (a b c : Bool) → (a || (b || c)) ≡ (b || (a || c))
    swap true true c = refl
    swap true false c = refl
    swap false b c = refl

any-sort_by :
    {A : Type 0} (q : A → Bool) (precedes : A → A → Bool) (xs : List A)
    → any q (sort_by precedes xs) ≡ any q xs
any-sort_by q precedes [] = refl
any-sort_by q precedes (x ∷ xs) =
    rw (any-insert_by q precedes x (sort_by precedes xs), any-sort_by q precedes xs) refl

any-elem :
    (q : Text → Bool) (t : Text) (ts : List Text)
    → text_elem t ts ≡ true
    → q t ≡ true
    → any q ts ≡ true
any-elem q t [] e h = cc
any-elem q t (x ∷ ts) e h = elim (Bool-cases (text_eq t x)) [
  | inl s ↦ ground (arith, subst (λ y. q y ≡ true) ((text_eq_iff t x).0 s) h)
  | inr s ↦ ground (arith, any-elem q t ts (rw s at e) h)
]

-- Leaving out repetitions keeps it too.
any-fresh_texts :
    (q : Text → Bool) (seen ts : List Text)
    → (any q seen || any q (fresh_texts seen ts)) ≡ (any q seen || any q ts)
any-fresh_texts q seen [] = refl
any-fresh_texts q seen (t ∷ ts) = elim (Bool-cases (text_elem t seen)) [
  | inl e ↦ rw (e, any-fresh_texts q seen ts) (known t seen ts (any-elem q t seen e))
  | inr e ↦ rw e (swapped (any q seen) (q t) _ _ (any-fresh_texts q (t ∷ seen) ts))
]
  where
    known :
        (t : Text) (seen ts : List Text)
        → (q t ≡ true → any q seen ≡ true)
        → (any q seen || any q ts) ≡ (any q seen || (q t || any q ts))
    known t seen ts h = elim (Bool-cases (q t)) [ inl y ↦ rw (h y) refl | inr n ↦ rw n refl ]

    swapped :
        (a b c d : Bool) → ((b || a) || c) ≡ ((b || a) || d) → (a || (b || c)) ≡ (a || (b || d))
    swapped true b c d h = refl
    swapped false true c d h = refl
    swapped false false c d h = h

any-unique : (q : Text → Bool) (ts : List Text) → any q (unique ts) ≡ any q ts
any-unique q = any-fresh_texts q []

any-append : (q : Text → Bool) (xs ys : List Text) → any q (xs ++ ys) ≡ (any q xs || any q ys)
any-append q [] ys = refl
any-append q (x ∷ xs) ys = ground (arith, any-append q xs ys)

abbrev missed : (Text → Bool) → List Text → Bool
missed matches = misses (any matches)

filled : (ts : List Text) → not (is_empty ts) ≡ any (λ t. true) ts
filled [] = refl
filled (t ∷ ts) = refl

module _ {C : Type 0} where
  any-flat_map :
      (q : Text → Bool) (f : PathPolicy C → List Text) (ps : List (PathPolicy C))
      → any q (flat_map f ps) ≡ any (λ p. any q (f p)) ps
  any-flat_map q f [] = refl
  any-flat_map q f (p ∷ ps) = rw (any-append q (f p) (flat_map f ps), any-flat_map q f ps) refl

  module _ (casefold : Text → Text) (field : TriggerPolicy → List Text) where
    any-exclude_union :
        (q : Text → Bool) (ps : List (PathPolicy C))
        → any q (exclude_union casefold field ps) ≡ any (λ p. any q (field p.triggers)) ps
    unfolding exclude_union
    any-exclude_union q ps =
        rw
          (
            any-sort_by q (folded_precedes casefold) (unique (flat_map (λ p. field p.triggers) ps)),
            any-unique q (flat_map (λ p. field p.triggers) ps),
          )
          (any-flat_map q (λ p. field p.triggers) ps)

    module _ (matches : Text → Bool) where
      -- One path without a filter lets everything through.
      open_filter :
          (ps : List (PathPolicy C))
          → any (λ p. is_empty (field p.triggers)) ps ≡ true
          → all (λ p. missed matches (field p.triggers)) ps ≡ false
      open_filter [] h = cc
      open_filter (p ∷ ps) h = elim (Bool-cases (is_empty (field p.triggers))) [
        | inl t ↦ rw t refl
        | inr t ↦ and_right _ _ (open_filter ps (rw t at h))
      ]
        where
          and_right : (a b : Bool) → b ≡ false → (a && b) ≡ false
          and_right true b e = e
          and_right false b e = refl

      closed_filters :
          (ps : List (PathPolicy C))
          → any (λ p. is_empty (field p.triggers)) ps ≡ false
          → not (any (λ p. any matches (field p.triggers)) ps)
            ≡ all (λ p. missed matches (field p.triggers)) ps
      closed_filters [] h = refl
      closed_filters (p ∷ ps) h = ground (arith, closed_filters ps (ground arith))

      some_pattern :
          (p : PathPolicy C) (ps : List (PathPolicy C))
          → any (λ p. is_empty (field p.triggers)) (p ∷ ps) ≡ false
          → any (λ q. any (λ t. true) (field q.triggers)) (p ∷ ps) ≡ true
      some_pattern p ps h = rw (sym (filled (field p.triggers))) (ground arith)

      misses-include_union :
          (ps : List (PathPolicy C))
          → is_empty ps ≡ false
          → missed matches (include_union casefold field ps)
            ≡ all (λ p. missed matches (field p.triggers)) ps
      unfolding include_union
      misses-include_union [] n = cc
      misses-include_union (p ∷ ps) n =
          elim (Bool-cases (any (λ p. is_empty (field p.triggers)) (p ∷ ps))) [
            | inl t ↦ rw (t, open_filter (p ∷ ps) t) refl
            | inr t ↦
                rw
                  (
                    t,
                    filled (exclude_union casefold field (p ∷ ps)),
                    any-exclude_union (λ t. true) (p ∷ ps),
                    some_pattern p ps t,
                    any-exclude_union matches (p ∷ ps),
                  )
                  (closed_filters (p ∷ ps) t)
          ]

is_over-smaller_limit :
    (a b : Option ℕ) (n : ℕ) → is_over (smaller_limit a b) n ≡ (is_over a n || is_over b n)
is_over-smaller_limit none b n = refl
is_over-smaller_limit (some a) none n = ground arith
is_over-smaller_limit (some a) (some b) n = ground arith

is_over-least_limit :
    {C : Type 0} (ps : List (PathPolicy C)) (n : ℕ)
    → is_over (least_limit ps) n ≡ any (λ p. is_over p.triggers.file_change_limit n) ps
is_over-least_limit [] n = refl
is_over-least_limit (p ∷ ps) n =
    rw (is_over-smaller_limit p.triggers.file_change_limit (least_limit ps) n)
      (rw (is_over-least_limit ps n) refl)

-- The switches of the reviewable paths, put together, and their limits.
pub triggers_of-switches :
    {C : Type 0} (casefold : Text → Text) (policy : ReviewPolicy C) (n : ℕ)
    → is_empty (reviewable policy) ≡ false
    → ((triggers_of casefold policy).automatic
        ≡ any (λ p. p.triggers.automatic) (reviewable policy))
      × ((triggers_of casefold policy).review_drafts
          ≡ any (λ p. p.triggers.review_drafts) (reviewable policy))
      × ((triggers_of casefold policy).review_updates
          ≡ any (λ p. p.triggers.review_updates) (reviewable policy))
      × (is_over (triggers_of casefold policy).file_change_limit n
          ≡ any (λ p. is_over p.triggers.file_change_limit n) (reviewable policy))
unfolding triggers_of
triggers_of-switches casefold policy n some_path =
    rw some_path (refl, refl, refl, is_over-least_limit (reviewable policy) n)

module _ {C : Type 0} (lower : ℕ → Text) (casefold : Text → Text) (policy : ReviewPolicy C) where
  -- A list excludes the values exactly if that list of one reviewable path does.
  abbrev pub Excludes : (TriggerPolicy → List Text) → (List Text → Bool) → Type 0
  Excludes field matches =
      matches (field (triggers_of casefold policy))
      ≡ any (λ p. matches (field p.triggers)) (reviewable policy)

  -- The values are missing from a list exactly if they are missing from that list of every reviewable
  -- path; an empty list misses nothing.
  abbrev pub Includes : (TriggerPolicy → List Text) → (List Text → Bool) → Type 0
  Includes field matches =
      misses matches (field (triggers_of casefold policy))
      ≡ all (λ p. misses matches (field p.triggers)) (reviewable policy)

  -- Where some path is reviewable, labels, authors, branches and keywords are each excluded exactly if
  -- the triggers of one reviewable path exclude them, and are missing from the included ones exactly if
  -- they are missing from those of every reviewable path: joining, sorting and deduplicating the eight
  -- lists of the paths changes no decision.
  pub triggers_of-decides :
      (values : List Text) (x : TriggerContext)
      → is_empty (reviewable policy) ≡ false
      → Excludes (λ t. t.disabled_labels) (λ ps. matches_any lower ps values)
        × Excludes (λ t. t.exclude_authors) (λ ps. matches_any lower ps values)
        × Excludes (λ t. t.exclude_branches) (λ ps. matches_any lower ps values)
        × Excludes (λ t. t.exclude_keywords) (has_keyword lower casefold x)
        × Includes (λ t. t.labels) (λ ps. matches_any lower ps values)
        × Includes (λ t. t.include_authors) (λ ps. matches_any lower ps values)
        × Includes (λ t. t.include_branches) (λ ps. matches_any lower ps values)
        × Includes (λ t. t.include_keywords) (has_keyword lower casefold x)
  unfolding triggers_of matches_any
  triggers_of-decides values x some_path =
      let matches : Text → Bool =
        λ pattern. any (λ value. filter_matches lower pattern value) values in
      let found : Text → Bool = λ k. is_infix (casefold k) (searchable lower casefold x) in
      let ps = reviewable policy in
      rw some_path (
        any-exclude_union casefold (λ t. t.disabled_labels) matches ps,
        any-exclude_union casefold (λ t. t.exclude_authors) matches ps,
        any-exclude_union casefold (λ t. t.exclude_branches) matches ps,
        any-exclude_union casefold (λ t. t.exclude_keywords) found ps,
        misses-include_union casefold (λ t. t.labels) matches ps some_path,
        misses-include_union casefold (λ t. t.include_authors) matches ps some_path,
        misses-include_union casefold (λ t. t.include_branches) matches ps some_path,
        misses-include_union casefold (λ t. t.include_keywords) found ps some_path,
      )
