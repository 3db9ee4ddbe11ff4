-- ===== src/Glob.antt =====
-- packages/server/src/diffuse/repository/policy/resolve.py, lines 41 to 222: the path and filter
-- globs. A pattern is parsed to tokens and simulated as a set of offsets into the text.
pub mod Runs
mod Sets
pub mod Advance
pub mod Parse
pub mod Filter
mod Examples
use diffuse.Prelude.{
  ℕ, zero, suc, ◌+◌, ◌-◌, Bool, true, false, not, ◌&&◌, ◌||◌, Option, none, some, List, [], ◌∷◌,
  ◌++◌, map, Text, length, get_elem?, all, filter, elem, leb, ltb, ◌==◌, if◌then◌else◌, text_eq,
  min,
}

-- `_GlobToken`: the kind with its character or its branches.
mutual
  pub data Token : Type 0 where
    char : ℕ → Token
    single : Token
    segment : Token
    anything : Token
    any_dir : Token
    choice : Branches → Token

  pub data Tokens : Type 0 where
    end : Tokens
    token : Token → Tokens → Tokens

  pub data Branches : Type 0 where
    no_branch : Branches
    branch : Tokens → Branches → Branches

abbrev pub slash : ℕ
slash = b'/'

abbrev pub star : ℕ
star = b'*'

abbrev pub question : ℕ
question = b'?'

-- `_ABSORBED_WILDCARDS.get((last, next))`.
abbrev absorbed : Token → Token → Option Token
absorbed segment segment = some segment
absorbed anything anything = some anything
absorbed anything segment = some anything
absorbed segment anything = some anything
absorbed anything any_dir = some anything
absorbed any_dir anything = some anything
absorbed any_dir any_dir = some any_dir
absorbed _ _ = none

-- `_append_token`: the last token is replaced if it absorbs the new one.
join_token : Token → Token → Tokens
join_token x t = elim (absorbed x t) [ some y ↦ token y end | none ↦ token x (token t end) ]

append_token : Tokens → Token → Tokens
unfolding join_token
append_token end t = token t end
append_token (token x end) t = join_token x t
append_token (token x (token y ts)) t = token x (append_token (token y ts) t)

-- the token of one character that begins no `**`
abbrev wild : ℕ → Token
wild a = if a == star then segment else if a == question then single else char a

-- The loop of `_parse_path_glob`, on the text from `index` on.
parse_path_loop : Tokens → Text → Tokens
unfolding append_token
parse_path_loop tokens [] = tokens
parse_path_loop tokens (a ∷ []) = append_token tokens (wild a)
parse_path_loop tokens (a ∷ b ∷ []) =
    let next = parse_path_loop (append_token tokens (wild a)) (b ∷ []) in
    if a == star && b == star then append_token tokens anything else next
parse_path_loop tokens (a ∷ b ∷ c ∷ rest) =
    let next = parse_path_loop (append_token tokens (wild a)) (b ∷ c ∷ rest) in
    let stars = parse_path_loop (append_token tokens anything) (c ∷ rest) in
    let directory = parse_path_loop (append_token tokens any_dir) rest in
    if a == star && b == star then (if c == slash then directory else stars) else next

unfoldable pub parse_path_glob : Text → Tokens
unfolding parse_path_loop
parse_path_glob pattern = parse_path_loop end pattern

-- `pattern.find("}", index + 1)`: the text before the brace and the text behind it.
split_at_brace : Text → Option (Text × Text)
split_at_brace [] = none
split_at_brace (a ∷ s) =
    let deeper = split_at_brace s in
    if a == b'}'
    then some ([], s)
    else elim deeper [ none ↦ none | some (inner, rest) ↦ some (a ∷ inner, rest) ]

-- `inner.split(",")`
add_first : ℕ → List Text → List Text
add_first a [] = (a ∷ []) ∷ []
add_first a (x ∷ xs) = (a ∷ x) ∷ xs

split_commas : Text → List Text
unfolding add_first
split_commas [] = [] ∷ []
split_commas (a ∷ s) =
    let rest = split_commas s in if a == b',' then [] ∷ rest else add_first a rest

abbrev is_filled : Text → Bool
is_filled [] = false
is_filled (_ ∷ _) = true

-- `1 < len(choices) <= 16 and all(choices)`
valid_choices : List Text → Bool
valid_choices choices = ltb 1 (length choices) && leb (length choices) 16 && all is_filled choices

-- `next` is the loop itself with less fuel: on a choice it starts with no token.
parse_branches : (Tokens → Text → Tokens) → List Text → Branches
parse_branches next [] = no_branch
parse_branches next (c ∷ cs) = branch (next end c) (parse_branches next cs)

filter_star : (Tokens → Text → Tokens) → Tokens → Text → Tokens
filter_star next tokens [] = next (append_token tokens segment) []
filter_star next tokens (b ∷ s) =
    if b == star
    then next (append_token tokens anything) s
    else next (append_token tokens segment) (b ∷ s)

filter_choice : (Tokens → Text → Tokens) → Tokens → Text → Option (Text × Text) → Tokens
unfolding parse_branches valid_choices split_commas
filter_choice next tokens s none = next (append_token tokens (char b'{')) s
filter_choice next tokens s (some (inner, rest)) =
    let choices = split_commas inner in
    if valid_choices choices
    then next (append_token tokens (choice (parse_branches next choices))) rest
    else next (append_token tokens (char b'{')) s

-- One round of the loop of `_parse_filter_glob`, at the character `a` with the text `s` behind it.
filter_step : (Tokens → Text → Tokens) → Tokens → ℕ → Text → Tokens
unfolding filter_star filter_choice split_at_brace append_token
filter_step next tokens a s =
    if a == star
    then filter_star next tokens s
    else if a == question
    then next (append_token tokens single) s
    else if a == b'{'
    then filter_choice next tokens s (split_at_brace s)
    else next (append_token tokens (char a)) s

-- The loop, on fuel: a round reads at least one character, so the length of the text is enough.
pub parse_filter_loop : ℕ → Tokens → Text → Tokens
unfolding filter_step
parse_filter_loop f tokens [] = tokens
parse_filter_loop zero tokens (a ∷ s) = tokens
parse_filter_loop (suc f) tokens (a ∷ s) = filter_step (parse_filter_loop f) tokens a s

unfoldable pub parse_filter_glob : Text → Tokens
unfolding parse_filter_loop
parse_filter_glob pattern = parse_filter_loop (length pattern) end pattern

-- How a character is compared: as it is, or by `str.lower`, which may be several characters. The
-- functions take this in place of `ignore_case`.
abbrev pub exact : ℕ → Text
exact c = c ∷ []

-- A set of offsets is a list of its members: only membership, emptiness and the minimum are read.
abbrev pub minimum : List ℕ → ℕ
minimum [] = 0
minimum (x ∷ []) = x
minimum (x ∷ y ∷ ys) = min x (minimum (y ∷ ys))

-- `range(i, i + n)`
pub range : ℕ → ℕ → List ℕ
range i zero = []
range i (suc n) = i ∷ range (i + 1) n

-- the characters at which `text[index]` is there and passes `test`
abbrev pub holds_at : Text → (ℕ → Bool) → ℕ → Bool
holds_at text test index = elim (get_elem? text index) [ none ↦ false | some c ↦ test c ]

-- The loop of `_advance_within_segment` for the `n` offsets from `index` on.
pub segment_loop : Text → List ℕ → ℕ → ℕ → Bool → List ℕ
segment_loop text reachable index zero inside = []
segment_loop text reachable index (suc n) inside =
    let inside' = elem index reachable || inside in
    let after = not (holds_at text (λ c. c == slash) index) && inside' in
    let rest = segment_loop text reachable (index + 1) n after in
    if inside' then index ∷ rest else rest

advance_within_segment : Text → List ℕ → List ℕ
unfolding segment_loop
advance_within_segment text reachable =
    let low = minimum reachable in segment_loop text reachable low (length text + 1 - low) false

-- The branches of the loop body that make no call of `_advance`.
advance_char : (ℕ → Text) → Text → ℕ → List ℕ → List ℕ
advance_char fold text expected reachable =
    map (λ i. i + 1) (filter (holds_at text (λ c. text_eq (fold c) (fold expected))) reachable)

advance_single : Text → List ℕ → List ℕ
advance_single text reachable =
    map (λ i. i + 1) (filter (holds_at text (λ c. not (c == slash))) reachable)

advance_anything : Text → List ℕ → List ℕ
unfolding range
advance_anything text reachable = let low = minimum reachable in range low (length text + 1 - low)

advance_any_dir : Text → List ℕ → List ℕ
unfolding range
advance_any_dir text reachable =
    let low = minimum reachable in
    reachable
    ++ map (λ i. i + 1) (filter (holds_at text (λ c. c == slash)) (range low (length text - low)))

-- `_advance`: the loop over the tokens, one token, and the union over the branches.
unfoldable mutual
  unfolding advance_within_segment advance_char advance_single advance_anything advance_any_dir

  pub advance : (ℕ → Text) → Text → Tokens → List ℕ → List ℕ
  advance fold text end reachable = reachable
  advance fold text (token t ts) [] = []
  advance fold text (token t ts) (r ∷ rs) =
      advance fold text ts (advance_token fold text t (r ∷ rs))

  pub advance_token : (ℕ → Text) → Text → Token → List ℕ → List ℕ
  advance_token fold text (char c) reachable = advance_char fold text c reachable
  advance_token fold text single reachable = advance_single text reachable
  advance_token fold text segment reachable = advance_within_segment text reachable
  advance_token fold text anything reachable = advance_anything text reachable
  advance_token fold text any_dir reachable = advance_any_dir text reachable
  advance_token fold text (choice bs) reachable = advance_branches fold text bs reachable

  pub advance_branches : (ℕ → Text) → Text → Branches → List ℕ → List ℕ
  advance_branches fold text no_branch reachable = []
  advance_branches fold text (branch b bs) reachable =
      advance fold text b reachable ++ advance_branches fold text bs reachable

abbrev pub ends_with_slash : Text → Bool
ends_with_slash [] = false
ends_with_slash (c ∷ []) = c == slash
ends_with_slash (c ∷ d ∷ s) = ends_with_slash (d ∷ s)

-- `pattern += "**"` for a directory.
abbrev pub with_descendants : Text → Text
with_descendants pattern = if ends_with_slash pattern then pattern ++ star ∷ star ∷ [] else pattern

unfoldable pub path_matches : Text → Text → Bool
unfolding parse_path_glob advance
path_matches pattern path =
    elem (length path) (advance exact path (parse_path_glob (with_descendants pattern)) (0 ∷ []))

unfoldable pub filter_matches : (ℕ → Text) → Text → Text → Bool
unfolding parse_filter_glob advance
filter_matches lower pattern value =
    elem (length value) (advance lower value (parse_filter_glob pattern) (0 ∷ []))
