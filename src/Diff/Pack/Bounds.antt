-- ===== src/Diff/Pack/Bounds.antt =====
-- The sizes of the chunks.
use mathlib.Core.Option.{some-injective}
use diffuse.Prelude.{
  ℕ, zero, suc, ◌+◌, ◌-◌, ◌/◌, ◌≤◌, ◌<◌, ◌≡◌, inl, inr, Bool, true, false, ◌&&◌, ◌||◌, some, List,
  [], ◌∷◌, ◌++◌, Text, length, take, drop, length-append, length-take, All, All-append, ltb, leb,
  ◌==◌, arith, Bool-cases, subst, ap,
}
use diffuse.Diff.{DiffFile}
use diffuse.Diff.Pack.{
  marker, last_part, fit, Packing, joined, gap, is_open, append_section, flush, pack_file,
  continue_with, pack_files, close, pack_diff_files,
}

length-drop : (n : ℕ) (s : Text) → length (drop n s) ≡ length s - n
length-drop zero s = omega arith
length-drop (suc n) [] = omega arith
length-drop (suc n) (x ∷ s) = omega (arith, length-drop n s)

last_part-length : (tail : ℕ) (s : Text) → tail == 0 ≡ false → length (last_part tail s) ≤ tail
last_part-length tail s h = rw h (omega (arith, length-drop (length s - tail) s))

cut-length :
    (max_chars : ℕ) (s : Text)
    → max_chars == length marker + 1 ≡ false
    → leb max_chars (length marker) ≡ false
    → length (
        take ((max_chars - length marker + 1) / 2) s
        ++ marker
        ++ last_part ((max_chars - length marker) / 2) s)
      ≤ max_chars
cut-length max_chars s odd m =
    let tail = (max_chars - length marker) / 2 in
    let head = (max_chars - length marker + 1) / 2 in
    ground (
      arith,
      length-append (take head s ++ marker) (last_part tail s),
      length-append (take head s) marker,
      length-take head s,
      last_part-length tail s (ground arith),
    )

-- A section fits its budget, unless one character is left beside the marker.
fit-length :
    (max_chars : ℕ) (section : Text)
    → max_chars == length marker + 1 ≡ false
    → length (fit max_chars section) ≤ max_chars
unfolding fit
fit-length max_chars section odd = elim (Bool-cases (ltb max_chars (length section))) [
  | inr s ↦ rw s (ground arith)
  | inl s ↦ rw s elim (Bool-cases (leb max_chars (length marker))) [
    | inl m ↦ rw (m, length-take max_chars section) (omega arith)
    | inr m ↦ rw m (cut-length max_chars section odd m)
  ]
]

length-joined :
    (ts : List Text) (t : Text)
    → length (joined (ts ++ t ∷ [])) ≡ length (joined ts) + gap ts + length t
length-joined [] t = omega arith
length-joined (u ∷ []) t =
    omega (arith, length-append (u ++ 10 ∷ 10 ∷ []) t, length-append u (10 ∷ 10 ∷ []))
length-joined (u ∷ v ∷ ts) t = omega (
  arith,
  length-append (u ++ 10 ∷ 10 ∷ []) (joined (v ∷ (ts ++ t ∷ []))),
  length-append (u ++ 10 ∷ 10 ∷ []) (joined (v ∷ ts)),
  length-append u (10 ∷ 10 ∷ []),
  length-joined (v ∷ ts) t,
)

record Fits (max_chars max_chunks : ℕ) (p : Packing) : Type 0 where
  each : All (λ c. length c ≤ max_chars) p.chunks
  count : length p.chunks ≤ max_chunks
  open_fits : length (joined p.current) ≤ max_chars
  open_counted : length (joined p.current) ≤ p.current_length

flush-Fits :
    (max_chars max_chunks : ℕ) (p : Packing)
    → length p.chunks < max_chunks
    → Fits max_chars max_chunks p
    → Fits max_chars max_chunks (flush p)
unfolding flush
flush-Fits max_chars max_chunks p room h = record {
  each =
      All-append (λ c. length c ≤ max_chars) p.chunks (joined p.current ∷ []) h.each
        (h.open_fits, tt);
  count = omega (arith, length-append p.chunks (joined p.current ∷ []));
  open_fits = omega arith;
  open_counted = omega arith;
}

append-Fits :
    (max_chars max_chunks added : ℕ) (section : Text) (file : DiffFile) (p : Packing)
    → length (joined p.current) + gap p.current + length section ≤ max_chars
    → length section + gap p.current ≤ added
    → Fits max_chars max_chunks p
    → Fits max_chars max_chunks (append_section added section file p)
unfolding append_section
append-Fits max_chars max_chunks added section file p fits counted h = record {
  each = h.each;
  count = h.count;
  open_fits = omega (arith, length-joined p.current section);
  open_counted = omega (arith, length-joined p.current section, h.open_counted);
}

module _ (max_chars max_chunks : ℕ) (odd : max_chars == length marker + 1 ≡ false) where
  pack_file-Fits :
      (file : DiffFile) (p : Packing)
      → Fits max_chars max_chunks p
      → Fits max_chars max_chunks (pack_file max_chars max_chunks file p).1
  unfolding pack_file
  pack_file-Fits file p h = elim (Bool-cases (leb max_chunks (length p.chunks))) [
    | inl full ↦ rw full h
    | inr room ↦
        rw room
          elim (Bool-cases (
            is_open p.current
            && ltb max_chars (p.current_length + (length section + gap p.current)))) [
              | inl over ↦ rw over elim (Bool-cases (leb max_chunks (length (flush p).chunks))) [
                | inl done ↦ rw done (flushed room)
                | inr more ↦ rw more (
                    append-Fits max_chars max_chunks _ section file (flush p)
                      (unfold flush in omega (arith, fitted)) (unfold flush in omega arith)
                      (flushed room))
              ]
              | inr under ↦ rw under (
                  append-Fits max_chars max_chunks _ section file p
                    (fits p.current under h.open_counted) (omega arith) h)
            ]
  ]
    where
      section : Text
      section = fit max_chars file.raw_text

      fitted : length section ≤ max_chars
      fitted = fit-length max_chars file.raw_text odd

      flushed : leb max_chunks (length p.chunks) ≡ false → Fits max_chars max_chunks (flush p)
      flushed room = flush-Fits max_chars max_chunks p (ground arith) h

      fits :
          (ts : List Text)
          → (is_open ts && ltb max_chars (p.current_length + (length section + gap ts))) ≡ false
          → length (joined ts) ≤ p.current_length
          → length (joined ts) + gap ts + length section ≤ max_chars
      fits [] u c = omega (arith, fitted)
      fits (t ∷ ts) u c = ground arith

  pack_files-Fits :
      (files : List DiffFile) (p : Packing)
      → Fits max_chars max_chunks p
      → Fits max_chars max_chunks (pack_files max_chars max_chunks files p)
  unfolding pack_files
  pack_files-Fits [] p h = h
  pack_files-Fits (f ∷ fs) p h =
      next (pack_file max_chars max_chunks f p) (pack_file-Fits f p h) (pack_files-Fits fs)
    where
      next :
          (r : Bool × Packing)
          → Fits max_chars max_chunks r.1
          → ((q : Packing)
              → Fits max_chars max_chunks q
              → Fits max_chars max_chunks (pack_files max_chars max_chunks fs q))
          → Fits max_chars max_chunks (continue_with (pack_files max_chars max_chunks fs) r)
      next (true, q) h rest = rest q h
      next (false, q) h rest = h

  close-Fits :
      (p : Packing) → Fits max_chars max_chunks p → Fits max_chars max_chunks (close max_chunks p)
  unfolding close
  close-Fits p h = elim (Bool-cases (is_open p.current && ltb (length p.chunks) max_chunks)) [
    | inl t ↦ rw t (flush-Fits max_chars max_chunks p (ground arith) h)
    | inr t ↦ rw t h
  ]

-- The chunks of a call that does not raise are at most as many as allowed, and each is at most as
-- long as allowed, unless the limit leaves exactly one character beside the truncation marker.
pub pack_diff_files-bounds :
    (max_chars max_chunks : ℕ) (files : List DiffFile) (chunks reviewed_paths : List Text)
    → max_chars == length marker + 1 ≡ false
    → pack_diff_files max_chars max_chunks files ≡ some (chunks, reviewed_paths)
    → (length chunks ≤ max_chunks) × All (λ c. length c ≤ max_chars) chunks
unfolding pack_diff_files
pack_diff_files-bounds max_chars max_chunks files chunks reviewed_paths odd e =
    elim (Bool-cases (max_chars == 0 || max_chunks == 0)) [
      | inl z ↦ cc (rw z at e)
      | inr z ↦
          let packed = close-Fits max_chars max_chunks odd _ (
            pack_files-Fits max_chars max_chunks odd files _ (record {
              each = tt;
              count = omega arith;
              open_fits = omega arith;
              open_counted = omega arith;
            })) in
          subst (λ cs. (length cs ≤ max_chunks) × All (λ c. length c ≤ max_chars) cs)
            (ap (λ r. r.0) (some-injective _ _ (rw z at e))) (packed.count, packed.each)
    ]
