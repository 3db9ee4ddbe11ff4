-- ===== src/Diff/Comments.antt =====
-- The lines that may carry a comment are lines of the diff.
use diffuse.Prelude.{
  is_some, ℕ, ◌+◌, ◌≡◌, refl, inl, inr, Bool, true, ◌||◌, Option, none, some, List, [], ◌∷◌, ◌++◌,
  Text, codes, strip_prefix, any, elem, All, All-append, All-mono, ◌==◌, arith, Bool-cases,
  Option-cases, subst,
}
use diffuse.Diff.{
  DiffEntry, FileState, entry, plus, minus, body_line, in_hunk, hunk_starts, parse_line,
  parse_lines, start, parse_file, splitlines, Side, left_side, right_side, contains, is_target,
  target_from, target_index,
}

any-append :
    (p : DiffEntry → Bool) (xs ys : List DiffEntry) → any p (xs ++ ys) ≡ any p xs || any p ys
any-append p [] ys = refl
any-append p (x ∷ xs) ys = ground (arith, any-append p xs ys)

-- Every line of the list is that of an entry on this side.
abbrev Shown : Side → List DiffEntry → List ℕ → Type 0
Shown side es lines = All (λ n. any (is_target side n) es ≡ true) lines

Shown-grow :
    (side : Side) (es more : List DiffEntry) (lines : List ℕ)
    → Shown side es lines
    → Shown side (es ++ more) lines
Shown-grow side es more lines =
    All-mono (λ n. any (is_target side n) es ≡ true)
      (λ n. any (is_target side n) (es ++ more) ≡ true) lines
      λ n t. rw (any-append (is_target side n) es more, t) refl

Shown-add :
    (side : Side) (es : List DiffEntry) (e : DiffEntry) (lines : List ℕ) (n : ℕ)
    → is_target side n e ≡ true
    → Shown side es lines
    → Shown side (es ++ e ∷ []) (lines ++ n ∷ [])
Shown-add side es e lines n t h =
    All-append (λ m. any (is_target side m) (es ++ e ∷ []) ≡ true) lines (n ∷ [])
      (Shown-grow side es (e ∷ []) lines h)
      (ground (arith, any-append (is_target side n) es (e ∷ []), t), tt)

abbrev BothShown : FileState → Type 0
BothShown st = Shown left_side st.entries st.left_lines × Shown right_side st.entries st.right_lines

body_line-Shown :
    (old new marker : ℕ) (text : Text) (st : FileState)
    → BothShown st
    → BothShown (body_line old new marker text st)
unfolding body_line
body_line-Shown old new marker text st h = elim (Bool-cases (marker == plus)) [
  | inl p ↦ rw p (
    Shown-grow left_side st.entries _ st.left_lines h.0,
    Shown-add right_side st.entries (entry marker text none (some new)) st.right_lines new
        (ground arith) h.1,
  )
  | inr p ↦ rw p elim (Bool-cases (marker == minus)) [
    | inl m ↦ rw m (
      Shown-add left_side st.entries (entry marker text (some old) none) st.left_lines old
          (ground arith) h.0,
      Shown-grow right_side st.entries _ st.right_lines h.1,
    )
    | inr m ↦ rw m elim (Bool-cases (marker == b' ')) [
      | inl s ↦ rw s (
        Shown-grow left_side st.entries _ st.left_lines h.0,
        Shown-grow right_side st.entries _ st.right_lines h.1,
      )
      | inr s ↦ rw s h
    ]
  ]
]

in_hunk-Shown :
    (position : Option (ℕ × ℕ)) (line : Text) (st : FileState)
    → BothShown st
    → BothShown (in_hunk position line st)
unfolding in_hunk
in_hunk-Shown none line st h = h
in_hunk-Shown (some (old, new)) [] st h = h
in_hunk-Shown (some (old, new)) (marker ∷ text) st h = body_line-Shown old new marker text st h

parse_line-Shown :
    (shell_words : Text → Option (List Text)) (line : Text) (st : FileState)
    → BothShown st
    → BothShown (parse_line shell_words line st)
unfolding parse_line
parse_line-Shown shell_words line st h = elim (Option-cases (strip_prefix (codes "--- ") line)) [
  | inr (p, o) ↦ rw o h
  | inl o ↦ rw o elim (Option-cases (strip_prefix (codes "+++ ") line)) [
    | inr (p, n) ↦ rw n h
    | inl n ↦ rw n elim (Option-cases (hunk_starts line)) [
      | inr (s, k) ↦ rw k h
      | inl k ↦ rw k (in_hunk-Shown st.position line st h)
    ]
  ]
]

parse_lines-Shown :
    (shell_words : Text → Option (List Text)) (ls : List Text) (st : FileState)
    → BothShown st
    → BothShown (parse_lines shell_words ls st)
unfolding parse_lines
parse_lines-Shown shell_words [] st h = h
parse_lines-Shown shell_words (l ∷ ls) st h =
    parse_lines-Shown shell_words ls _ (parse_line-Shown shell_words l st h)

elem-Shown :
    (side : Side) (es : List DiffEntry) (line : ℕ) (lines : List ℕ)
    → elem line lines ≡ true
    → Shown side es lines
    → any (is_target side line) es ≡ true
elem-Shown side es line [] m h = cc
elem-Shown side es line (n ∷ lines) m h = elim (Bool-cases (line == n)) [
  | inl t ↦ subst (λ k. any (is_target side k) es ≡ true) (ground arith) h.0
  | inr t ↦ elem-Shown side es line lines (rw t at m) h.1
]

target_from-found :
    (side : Side) (line index : ℕ) (es : List DiffEntry)
    → any (is_target side line) es ≡ true
    → is_some (target_from side line index es) ≡ true
unfolding target_from
target_from-found side line index [] h = cc
target_from-found side line index (e ∷ es) h = elim (Bool-cases (is_target side line e)) [
  | inl t ↦ rw t refl
  | inr t ↦ rw t (target_from-found side line (index + 1) es (rw t at h))
]

contains-found :
    (side : Side) (line : ℕ) (st : FileState)
    → BothShown st
    → contains side line st ≡ true
    → is_some (target_index side line st) ≡ true
unfolding target_index
contains-found left_side line st h c =
    target_from-found left_side line 0 st.entries
      (elem-Shown left_side st.entries line st.left_lines c h.0)
contains-found right_side line st h c =
    target_from-found right_side line 0 st.entries
      (elem-Shown right_side st.entries line st.right_lines c h.1)

-- Whatever text is parsed, a line that may carry a comment is the line of an added or deleted entry,
-- so that `snippet` finds the entry to show around it.
pub contains-target_index :
    (shell_words : Text → Option (List Text)) (raw_text : Text) (side : Side) (line : ℕ)
    → contains side line (parse_file shell_words raw_text).parsed ≡ true
    → is_some (target_index side line (parse_file shell_words raw_text).parsed) ≡ true
unfolding parse_file
contains-target_index shell_words raw_text side line =
    contains-found side line (parse_lines shell_words (splitlines raw_text) start)
      (parse_lines-Shown shell_words (splitlines raw_text) start (tt, tt))
