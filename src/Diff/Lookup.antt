-- ===== src/Diff/Lookup.antt =====
-- The files of a diff by path: `ParsedDiff.file` and `ParsedDiff.is_commentable`.
use diffuse.Prelude.{
  ℕ, Bool, false, Option, none, some, List, [], ◌∷◌, Text, text_eq, if◌then◌else◌,
}
use diffuse.Diff.{DiffFile, comment_path, Side, contains}

abbrev pub has_path : Text → Option Text → Bool
has_path path none = false
has_path path (some p) = text_eq p path

-- `ParsedDiff.file`
abbrev pub file_at : Text → List DiffFile → Option DiffFile
file_at path [] = none
file_at path (f ∷ fs) =
    let later = file_at path fs in if has_path path (comment_path f) then some f else later

abbrev pub contains_in : Side → ℕ → Option DiffFile → Bool
contains_in side line none = false
contains_in side line (some f) = contains side line f.parsed

-- `ParsedDiff.is_commentable`
unfoldable pub is_commentable : List DiffFile → Text → Side → ℕ → Bool
is_commentable files path side line = contains_in side line (file_at path files)
