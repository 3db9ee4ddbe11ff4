-- ===== src/Diff.antt =====
-- packages/server/src/diffuse/review/diff.py: unified diffs, the lines on which a comment may stand,
-- and the packing of file diffs into chunks of a bounded size.
pub mod Numbers
pub mod Pack
pub mod Comments
pub mod Lookup
mod Examples
use diffuse.Prelude.{
  strip, join, is_some, ℕ, zero, suc, ◌+◌, ◌-◌, ◌*◌, ◌/◌, Bool, true, false, not, ◌&&◌, ◌||◌,
  Option, none, some, List, [], ◌∷◌, ◌++◌, Text, codes, length, take, drop, elem, text_eq,
  strip_prefix, ltb, leb, ◌==◌, if◌then◌else◌,
}

-- `str.splitlines`: the line boundaries of the language, with a carriage return and a line feed
-- together as one. `after_return` says that the character before was a carriage return.
abbrev pub is_boundary : ℕ → Bool
is_boundary c =
    (leb 10 c && leb c 13) || (leb 28 c && leb c 30) || c == 133 || c == 8232 || c == 8233

abbrev pub add_to_line : ℕ → List Text → List Text
add_to_line c [] = (c ∷ []) ∷ []
add_to_line c (l ∷ ls) = (c ∷ l) ∷ ls

pub split_from : Bool → Text → List Text
split_from after_return [] = []
split_from after_return (c ∷ s) =
    let skipped = split_from false s in
    let ended = split_from (c == 13) s in
    if after_return && c == 10
    then skipped
    else if is_boundary c
    then [] ∷ ended
    else add_to_line c skipped

unfoldable pub splitlines : Text → List Text
unfolding split_from
splitlines = split_from false

abbrev pub or_else {ℓ} : {A : Type ℓ} → Option A → Option A → Option A
or_else (some a) b = some a
or_else none b = b

-- `value or None`
non_empty : Text → Option Text
non_empty [] = none
non_empty (c ∷ s) = some (c ∷ s)

-- `a/` or `b/` in front
without_side : Text → Text
without_side s = elim (or_else (strip_prefix (codes "a/") s) (strip_prefix (codes "b/") s)) [
  | none ↦ s
  | some t ↦ t
]

first_word : Option (List Text) → Option Text
first_word (some (w ∷ ws)) = some w
first_word _ = none

abbrev pub is_quoted : Text → Bool
is_quoted (c ∷ s) = c == b'"'
is_quoted [] = false

-- `_path`. `shell_words` is `shlex.split`, `none` where it raises.
unfoldable pub path_of : (Text → Option (List Text)) → Text → Option Text
unfolding non_empty without_side first_word
path_of shell_words value =
    let name = strip value in
    if text_eq name (codes "/dev/null")
    then none
    else elim (if is_quoted name then first_word (shell_words name) else some name) [
      | none ↦ none
      | some v ↦ non_empty (without_side v)
    ]

-- `HUNK_PATTERN.match`, with the digits of ASCII: the two start lines.
abbrev pub is_digit : ℕ → Bool
is_digit c = leb b'0' c && leb c b'9'

digits_from : ℕ → Text → ℕ × Text
digits_from n [] = (n, [])
digits_from n (c ∷ s) =
    let rest = digits_from (n * 10 + (c - b'0')) s in if is_digit c then rest else (n, c ∷ s)

starts_with_digit : Text → Bool
starts_with_digit [] = false
starts_with_digit (c ∷ s) = is_digit c

-- `\d+`
number : Text → Option (ℕ × Text)
unfolding digits_from starts_with_digit
number s = if starts_with_digit s then some (digits_from 0 s) else none

-- `(?:,\d+)?`
skip_count : Text → Text
unfolding number
skip_count s = elim (strip_prefix (codes ",") s) [
  | none ↦ s
  | some t ↦ elim (number t) [ none ↦ s | some (_, u) ↦ u ]
]

new_start_of : ℕ → Option (ℕ × Text) → Option (ℕ × ℕ)
unfolding skip_count
new_start_of old none = none
new_start_of old (some (new, s)) = elim (strip_prefix (codes " @@") (skip_count s)) [
  | none ↦ none
  | some _ ↦ some (old, new)
]

old_start_of : Option (ℕ × Text) → Option (ℕ × ℕ)
unfolding number skip_count new_start_of
old_start_of none = none
old_start_of (some (old, s)) = elim (strip_prefix (codes " +") (skip_count s)) [
  | none ↦ none
  | some t ↦ new_start_of old (number t)
]

unfoldable pub hunk_starts : Text → Option (ℕ × ℕ)
unfolding number old_start_of
hunk_starts line = elim (strip_prefix (codes "@@ -") line) [
  | none ↦ none
  | some s ↦ old_start_of (number s)
]

pub record DiffEntry : Type 0 where
  pub marker : ℕ
  pub text : Text
  pub old_line : Option ℕ
  pub new_line : Option ℕ

-- The local variables of `_parse_file`; a set of lines is the list of what was added.
pub record FileState : Type 0 where
  pub old_path : Option Text
  pub new_path : Option Text
  pub entries : List DiffEntry
  pub left_lines : List ℕ
  pub right_lines : List ℕ
  pub position : Option (ℕ × ℕ)

abbrev pub plus : ℕ
plus = b'+'

abbrev pub minus : ℕ
minus = b'-'

abbrev pub entry : ℕ → Text → Option ℕ → Option ℕ → DiffEntry
entry marker text old_line new_line = record {
  marker = marker;
  text = text;
  old_line = old_line;
  new_line = new_line;
}

-- A line of a hunk at the two counters.
unfoldable pub body_line : ℕ → ℕ → ℕ → Text → FileState → FileState
body_line old new marker text st =
    if marker == plus
    then record st {
      entries = st.entries ++ entry marker text none (some new) ∷ [];
      right_lines = st.right_lines ++ new ∷ [];
      position = some (old, new + 1);
    }
    else if marker == minus
    then record st {
      entries = st.entries ++ entry marker text (some old) none ∷ [];
      left_lines = st.left_lines ++ old ∷ [];
      position = some (old + 1, new);
    }
    else if marker == b' '
    then record st {
      entries = st.entries ++ entry marker text (some old) (some new) ∷ [];
      position = some (old + 1, new + 1);
    }
    else st

unfoldable pub in_hunk : Option (ℕ × ℕ) → Text → FileState → FileState
unfolding body_line
in_hunk none line st = st
in_hunk (some (old, new)) [] st = st
in_hunk (some (old, new)) (marker ∷ text) st = body_line old new marker text st

-- The loop body of `_parse_file`.
unfoldable pub parse_line : (Text → Option (List Text)) → Text → FileState → FileState
unfolding path_of hunk_starts in_hunk
parse_line shell_words line st = elim (strip_prefix (codes "--- ") line) [
  | some p ↦ record st { old_path = path_of shell_words p }
  | none ↦ elim (strip_prefix (codes "+++ ") line) [
    | some p ↦ record st { new_path = path_of shell_words p }
    | none ↦ elim (hunk_starts line) [
      | some starts ↦ record st { position = some starts }
      | none ↦ in_hunk st.position line st
    ]
  ]
]

unfoldable pub parse_lines : (Text → Option (List Text)) → List Text → FileState → FileState
unfolding parse_line
parse_lines shell_words [] st = st
parse_lines shell_words (l ∷ ls) st = parse_lines shell_words ls (parse_line shell_words l st)

abbrev pub start : FileState
start = record {
  old_path = none;
  new_path = none;
  entries = [];
  left_lines = [];
  right_lines = [];
  position = none;
}

pub record DiffFile : Type 0 where
  pub raw_text : Text
  pub parsed : FileState

-- `comment_path`
abbrev pub comment_path : DiffFile → Option Text
comment_path f = or_else f.parsed.new_path f.parsed.old_path

-- `_parse_file`
unfoldable pub parse_file : (Text → Option (List Text)) → Text → DiffFile
unfolding parse_lines splitlines
parse_file shell_words raw_text = record {
  raw_text = raw_text;
  parsed = parse_lines shell_words (splitlines raw_text) start;
}

-- `"\n".join(current)` for a section that was begun
close_section : List Text → List Text
close_section [] = []
close_section (l ∷ ls) = join (10 ∷ []) (l ∷ ls) ∷ []

-- The loop of `parse_unified_diff`: the lines of the section that is open, and the rest.
abbrev pub begins_file : Text → Bool
begins_file line = is_some (strip_prefix (codes "diff --git ") line)

sections_from : List Text → List Text → List Text
unfolding close_section
sections_from current [] = close_section current
sections_from [] (l ∷ ls) =
    let begun = sections_from (l ∷ []) ls in
    let ignored = sections_from [] ls in if begins_file l then begun else ignored
sections_from (c ∷ cs) (l ∷ ls) =
    let begun = sections_from (l ∷ []) ls in
    let grown = sections_from ((c ∷ cs) ++ l ∷ []) ls in
    if begins_file l then close_section (c ∷ cs) ++ begun else grown

files_of : (Text → Option (List Text)) → List Text → List DiffFile
unfolding parse_file
files_of shell_words [] = []
files_of shell_words (s ∷ ss) =
    let rest = files_of shell_words ss in
    let file = parse_file shell_words s in if is_some (comment_path file) then file ∷ rest else rest

-- `parse_unified_diff`
unfoldable pub parse_unified_diff : (Text → Option (List Text)) → Text → List DiffFile
unfolding files_of sections_from splitlines
parse_unified_diff shell_words diff_text =
    files_of shell_words (sections_from [] (splitlines diff_text))

pub data Side : Type 0 where
  left_side right_side : Side

-- `DiffFile.contains`
abbrev pub contains : Side → ℕ → FileState → Bool
contains right_side line f = elem line f.right_lines
contains left_side line f = elem line f.left_lines

abbrev pub line_on : Side → DiffEntry → Option ℕ
line_on right_side e = e.new_line
line_on left_side e = e.old_line

abbrev pub is_line : ℕ → Option ℕ → Bool
is_line line none = false
is_line line (some n) = n == line

-- the test of `snippet` for the entry in its middle
abbrev pub is_target : Side → ℕ → DiffEntry → Bool
is_target side line e = is_line line (line_on side e) && (e.marker == plus || e.marker == minus)

-- `target_index`
unfoldable pub target_from : Side → ℕ → ℕ → List DiffEntry → Option ℕ
target_from side line index [] = none
target_from side line index (e ∷ es) =
    let later = target_from side line (index + 1) es in
    if is_target side line e then some index else later

unfoldable pub target_index : Side → ℕ → FileState → Option ℕ
unfolding target_from
target_index side line f = target_from side line 0 f.entries

-- The entries that `snippet` prints, at most `radius` on either side.
pub snippet_entries : Side → ℕ → ℕ → FileState → List DiffEntry
unfolding target_index
snippet_entries side line radius f = elim (target_index side line f) [
  | none ↦ []
  | some i ↦ take ((i + radius + 1) - (i - radius)) (drop (i - radius) f.entries)
]
