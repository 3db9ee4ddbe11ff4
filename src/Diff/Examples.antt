-- ===== src/Diff/Examples.antt =====
-- A small diff, and the theorems at it.
use diffuse.Prelude.{
  is_some, ◌+◌, ◌≤◌, ◌≡◌, refl, true, Option, none, some, List, [], ◌∷◌, ◌++◌, Text, codes, length,
  All,
}
use diffuse.Diff.{
  FileState, DiffFile, start, parse_lines, parse_file, comment_path, entry, minus, target_index,
  right_side, hunk_starts,
}
use diffuse.Diff.Numbers.{
  Edit, keep, delete, add, render, old_lines, new_lines, Located, shown, parse_lines-numbers,
}
use diffuse.Diff.Comments.{contains-target_index}
use diffuse.Diff.Pack.{fit, pack_diff_files}
use diffuse.Diff.Pack.Bounds.{pack_diff_files-bounds}

abbrev no_words : Text → Option (List Text)
no_words t = none

abbrev new_line : Text
new_line = 10 ∷ []

abbrev small_diff : Text
small_diff =
    codes "diff --git a/m.py b/m.py"
    ++ new_line
    ++ codes "--- a/m.py"
    ++ new_line
    ++ codes "+++ b/m.py"
    ++ new_line
    ++ codes "@@ -4,2 +4,2 @@"
    ++ new_line
    ++ codes " x"
    ++ new_line
    ++ codes "-y"
    ++ new_line
    ++ codes "+z"

header_is_read : hunk_starts (codes "@@ -4,2 +7 @@ def f") ≡ some (4, 7)
unfolding hunk_starts
header_is_read = refl

abbrev file : DiffFile
unfolding parse_file
file = parse_file no_words small_diff

file_is_named : comment_path file ≡ some (codes "m.py")
unfolding parse_file
file_is_named = refl

contains-target_index_example : is_some (target_index right_side 5 file.parsed) ≡ true
unfolding parse_file
contains-target_index_example = contains-target_index no_words small_diff right_side 5 refl

abbrev edits : List Edit
edits = keep (codes "x") ∷ delete (codes "y") ∷ add (codes "z") ∷ []

abbrev at_four : FileState
at_four = record start { position = some (4, 4) }

parse_lines-numbers_example :
    (shown (parse_lines no_words (render edits) at_four).entries ≡ render edits)
    × All
        (λ e.
          Located 4 (old_lines edits) e.old_line e.text
          × Located 4 (new_lines edits) e.new_line e.text)
        (parse_lines no_words (render edits) at_four).entries
parse_lines-numbers_example =
    parse_lines-numbers no_words 4 4 edits at_four refl refl (tt, (refl, (refl, tt)))

abbrev chunks : List Text
chunks = small_diff ∷ []

pack_diff_files-bounds_example : (length chunks ≤ 3) × All (λ c. length c ≤ 80) chunks
unfolding pack_diff_files parse_file
pack_diff_files-bounds_example =
    pack_diff_files-bounds 80 3 (file ∷ []) chunks (codes "m.py" ∷ []) refl refl

-- With one character beside the marker the tail is empty, and the slice `[-0:]` is the whole text.
one_character_beside :
    length (fit 55 (small_diff ++ small_diff)) ≡ 55 + length (small_diff ++ small_diff)
unfolding fit
one_character_beside = refl

-- The first line deletes `-- x`, but it is read as the header of a file: it makes no entry, the old
-- path is lost, and the next deletion gets the number of the first.
deleted_comment : parse_lines no_words (codes "--- x" ∷ codes "-y" ∷ []) at_four ≡ record start {
  old_path = some (codes "x");
  entries = entry minus (codes "y") (some 4) none ∷ [];
  left_lines = 4 ∷ [];
  position = some (5, 4);
}
unfolding parse_lines
deleted_comment = refl
