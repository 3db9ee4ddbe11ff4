-- ===== src/Diff/Numbers.antt =====
-- The line numbers that the parser gives to the lines of a hunk.
use diffuse.Prelude.{
  ℕ, zero, suc, ◌+◌, ◌-◌, ◌≤◌, ◌≡◌, refl, Option, none, some, List, [], ◌∷◌, ◌++◌, Text, codes,
  drop, get_elem?, strip_prefix, All, All-append, arith, ap, sym, ◌∙◌,
}
use diffuse.Diff.{DiffEntry, FileState, plus, minus, parse_line, parse_lines}

-- What a diff says: a line that both files have, one that only the old file has, and one that only
-- the new file has.
pub data Edit : Type 0 where
  keep delete add : Text → Edit

-- The lines of the hunk.
abbrev pub render : List Edit → List Text
render [] = []
render (keep t ∷ es) = (b' ' ∷ t) ∷ render es
render (delete t ∷ es) = (minus ∷ t) ∷ render es
render (add t ∷ es) = (plus ∷ t) ∷ render es

abbrev pub old_lines : List Edit → List Text
old_lines [] = []
old_lines (keep t ∷ es) = t ∷ old_lines es
old_lines (delete t ∷ es) = t ∷ old_lines es
old_lines (add t ∷ es) = old_lines es

abbrev pub new_lines : List Edit → List Text
new_lines [] = []
new_lines (keep t ∷ es) = t ∷ new_lines es
new_lines (delete t ∷ es) = new_lines es
new_lines (add t ∷ es) = t ∷ new_lines es

-- A line that does not read as the header of a file once its sign stands before it.
abbrev pub IsPlain : Edit → Type 0
IsPlain (keep t) = Unit
IsPlain (delete t) = strip_prefix (codes "-- ") t ≡ none
IsPlain (add t) = strip_prefix (codes "++ ") t ≡ none

-- The text stands in the file at the line, where the first line has the number `first`.
abbrev pub Located : ℕ → List Text → Option ℕ → Text → Type 0
Located first file none t = Unit
Located first file (some n) t = (first ≤ n) × (get_elem? file (n - first) ≡ some t)

abbrev first_line : List Text → Option Text
first_line [] = none
first_line (x ∷ xs) = some x

abbrev later_lines : List Text → List Text
later_lines [] = []
later_lines (x ∷ xs) = xs

drop-head :
    (k : ℕ) (xs : List Text) {x : Text} {ys : List Text}
    → drop k xs ≡ x ∷ ys
    → (get_elem? xs k ≡ some x) × (drop (suc k) xs ≡ ys)
drop-head zero [] e = cc
drop-head zero (a ∷ xs) e = (ap first_line e, ap later_lines e)
drop-head (suc k) [] e = cc
drop-head (suc k) (a ∷ xs) e = drop-head k xs e

-- The entries as the lines that they were.
abbrev pub shown : List DiffEntry → List Text
shown [] = []
shown (e ∷ es) = (e.marker ∷ e.text) ∷ shown es

shown-snoc :
    (es : List DiffEntry) (e : DiffEntry) (ls : List Text)
    → shown (es ++ e ∷ []) ++ ls ≡ shown es ++ (e.marker ∷ e.text) ∷ ls
shown-snoc [] e ls = refl
shown-snoc (x ∷ es) e ls = ap (λ r. (x.marker ∷ x.text) ∷ r) (shown-snoc es e ls)

append-nil : (ls : List Text) → ls ++ [] ≡ ls
append-nil [] = refl
append-nil (l ∷ ls) = ap (λ r. l ∷ r) (append-nil ls)

move : (first k : ℕ) → first + k + 1 ≡ first + suc k
move first k = omega arith

module _ (shell_words : Text → Option (List Text)) (first_old first_new : ℕ)
    (old new lines : List Text) where
  abbrev IsLocated : DiffEntry → Type 0
  IsLocated e = Located first_old old e.old_line e.text × Located first_new new e.new_line e.text

  -- The counters stand before what is left of the two files.
  record Stands (es : List Edit) (st : FileState) : Type 0 where
    old_at : ℕ
    new_at : ℕ
    position : st.position ≡ some (first_old + old_at, first_new + new_at)
    old_left : drop old_at old ≡ old_lines es
    new_left : drop new_at new ≡ new_lines es
    located : All IsLocated st.entries
    kept : shown st.entries ++ render es ≡ lines

  at_line :
      (first k : ℕ) (file : List Text) (t : Text)
      → get_elem? file k ≡ some t
      → Located first file (some (first + k)) t
  at_line first k file t e =
      let back : first + k - first ≡ k = omega arith in (omega arith, rw (back, e) refl)

  keep-Stands :
      (t : Text) (es : List Edit) (st : FileState)
      → Stands (keep t ∷ es) st
      → Stands es (parse_line shell_words (b' ' ∷ t) st)
  unfolding parse_line
  keep-Stands t es st h =
      let o = drop-head h.old_at old h.old_left in
      let n = drop-head h.new_at new h.new_left in
      rw h.position record {
        old_at = suc h.old_at;
        new_at = suc h.new_at;
        position = rw (move first_old h.old_at, move first_new h.new_at) refl;
        old_left = o.1;
        new_left = n.1;
        located =
            All-append IsLocated st.entries _ h.located
              ((at_line first_old h.old_at old t o.0, at_line first_new h.new_at new t n.0), tt);
        kept = shown-snoc st.entries _ (render es) ∙ h.kept;
      }

  delete-Stands :
      (t : Text) (es : List Edit) (st : FileState)
      → IsPlain (delete t)
      → Stands (delete t ∷ es) st
      → Stands es (parse_line shell_words (minus ∷ t) st)
  unfolding parse_line
  delete-Stands t es st p h =
      let o = drop-head h.old_at old h.old_left in
      rw (p, h.position)
        record {
          old_at = suc h.old_at;
          new_at = h.new_at;
          position = rw (move first_old h.old_at) refl;
          old_left = o.1;
          new_left = h.new_left;
          located =
              All-append IsLocated st.entries _ h.located
                ((at_line first_old h.old_at old t o.0, tt), tt);
          kept = shown-snoc st.entries _ (render es) ∙ h.kept;
        }

  add-Stands :
      (t : Text) (es : List Edit) (st : FileState)
      → IsPlain (add t)
      → Stands (add t ∷ es) st
      → Stands es (parse_line shell_words (plus ∷ t) st)
  unfolding parse_line
  add-Stands t es st p h =
      let n = drop-head h.new_at new h.new_left in
      rw (p, h.position)
        record {
          old_at = h.old_at;
          new_at = suc h.new_at;
          position = rw (move first_new h.new_at) refl;
          old_left = h.old_left;
          new_left = n.1;
          located =
              All-append IsLocated st.entries _ h.located
                ((tt, at_line first_new h.new_at new t n.0), tt);
          kept = shown-snoc st.entries _ (render es) ∙ h.kept;
        }

  hunk-Stands :
      (es : List Edit) (st : FileState)
      → All IsPlain es
      → Stands es st
      → Stands [] (parse_lines shell_words (render es) st)
  unfolding parse_lines
  hunk-Stands [] st p h = h
  hunk-Stands (keep t ∷ es) st p h = hunk-Stands es _ p.1 (keep-Stands t es st h)
  hunk-Stands (delete t ∷ es) st p h = hunk-Stands es _ p.1 (delete-Stands t es st p.0 h)
  hunk-Stands (add t ∷ es) st p h = hunk-Stands es _ p.1 (add-Stands t es st p.0 h)

-- Parsing the lines of a hunk, with counters at its first lines, makes one entry of each line, and
-- numbers the entries as the two files do: an entry's old line is the place of its text in the old
-- file and its new line the place in the new file, provided that no line reads as the header of a
-- file.
pub parse_lines-numbers :
    (shell_words : Text → Option (List Text)) (first_old first_new : ℕ) (es : List Edit)
    (st : FileState)
    → st.position ≡ some (first_old, first_new)
    → st.entries ≡ []
    → All IsPlain es
    → (shown (parse_lines shell_words (render es) st).entries ≡ render es)
      × All
          (λ e.
            Located first_old (old_lines es) e.old_line e.text
            × Located first_new (new_lines es) e.new_line e.text)
          (parse_lines shell_words (render es) st).entries
parse_lines-numbers shell_words first_old first_new es st position fresh plain =
    (sym (append-nil _) ∙ ended.kept, ended.located)
  where
    ended :
        Stands shell_words first_old first_new
          (old_lines es)
          (new_lines es)
          (render es)
          []
          (parse_lines shell_words (render es) st)
    ended =
        hunk-Stands shell_words first_old first_new (old_lines es) (new_lines es) (render es) es st
          plain
          record {
            old_at = 0;
            new_at = 0;
            position =
                let o : first_old + 0 ≡ first_old = omega arith in
                let n : first_new + 0 ≡ first_new = omega arith in rw (o, n) position;
            old_left = refl;
            new_left = refl;
            located = rw fresh tt;
            kept = rw fresh refl;
          }
