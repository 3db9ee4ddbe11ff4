-- ===== src/Diff/Pack.antt =====
-- `pack_diff_files`: file diffs joined into chunks within a budget.
pub mod Bounds
use diffuse.Prelude.{
  join, ℕ, ◌+◌, ◌-◌, ◌/◌, Bool, true, false, ◌||◌, ◌&&◌, Option, none, some, List, [], ◌∷◌, ◌++◌,
  Text, codes, length, take, drop, ltb, leb, ◌==◌, if◌then◌else◌,
}
use diffuse.Diff.{DiffFile, comment_path}

-- The marker of a truncation, with its line feeds.
abbrev pub marker : Text
marker = 10 ∷ codes "... file diff truncated by Diffuse review budget ..." ++ 10 ∷ []

-- `section[-tail:]`, which is all of the section for a tail of 0.
abbrev pub last_part : ℕ → Text → Text
last_part tail section = if tail == 0 then section else drop (length section - tail) section

-- A section within the budget.
unfoldable pub fit : ℕ → Text → Text
fit max_chars section =
    if ltb max_chars (length section)
    then (if leb max_chars (length marker)
        then take max_chars section
        else let remaining = max_chars - length marker in
          take ((remaining + 1) / 2) section ++ marker ++ last_part (remaining / 2) section)
    else section

-- The local variables of the loop.
pub record Packing : Type 0 where
  pub chunks : List Text
  pub current : List Text
  pub current_length : ℕ
  pub reviewed_paths : List Text

-- `"\n\n".join(current)`
abbrev pub joined : List Text → Text
joined = join (10 ∷ 10 ∷ [])

abbrev pub gap : List Text → ℕ
gap [] = 0
gap (_ ∷ _) = 2

abbrev pub is_open : List Text → Bool
is_open [] = false
is_open (_ ∷ _) = true

abbrev pub add_path : Option Text → List Text → List Text
add_path none paths = paths
add_path (some p) paths = paths ++ p ∷ []

-- `current.append(section)` and what follows it
unfoldable pub append_section : ℕ → Text → DiffFile → Packing → Packing
append_section added section file p = record p {
  current = p.current ++ section ∷ [];
  current_length = p.current_length + added;
  reviewed_paths = add_path (comment_path file) p.reviewed_paths;
}

unfoldable pub flush : Packing → Packing
flush p = record p { chunks = p.chunks ++ joined p.current ∷ []; current = []; current_length = 0 }

-- One file: what is packed, and whether the loop goes on.
unfoldable pub pack_file : ℕ → ℕ → DiffFile → Packing → Bool × Packing
unfolding fit append_section flush
pack_file max_chars max_chunks file p =
    if leb max_chunks (length p.chunks)
    then (false, p)
    else let section = fit max_chars file.raw_text in
      let added = length section + gap p.current in
      if is_open p.current && ltb max_chars (p.current_length + added)
      then (let flushed = flush p in
          if leb max_chunks (length flushed.chunks)
          then (false, flushed)
          else (true, append_section added section file flushed))
      else (true, append_section added section file p)

-- The loop; `continue_with` is its rest.
continue_with : (Packing → Packing) → Bool × Packing → Packing
continue_with rest (true, p) = rest p
continue_with rest (false, p) = p

pub pack_files : ℕ → ℕ → List DiffFile → Packing → Packing
unfolding pack_file continue_with
pack_files max_chars max_chunks [] p = p
pack_files max_chars max_chunks (f ∷ fs) p =
    continue_with (pack_files max_chars max_chunks fs) (pack_file max_chars max_chunks f p)

-- The last chunk.
unfoldable pub close : ℕ → Packing → Packing
unfolding flush
close max_chunks p = if is_open p.current && ltb (length p.chunks) max_chunks then flush p else p

-- `pack_diff_files`; `none` where it raises.
unfoldable pub pack_diff_files : ℕ → ℕ → List DiffFile → Option (List Text × List Text)
unfolding pack_files close
pack_diff_files max_chars max_chunks files =
    if max_chars == 0 || max_chunks == 0
    then none
    else let p = close max_chunks (
        pack_files max_chars max_chunks files
          record { chunks = []; current = []; current_length = 0; reviewed_paths = [] }) in
      some (p.chunks, p.reviewed_paths)
