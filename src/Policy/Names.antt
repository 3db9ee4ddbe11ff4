-- ===== src/Policy/Names.antt =====
-- models.py: the checks on the paths, globs and patterns of a configuration, and which paths are
-- taken for secrets. A check returns `none` where it raises.
pub mod Safe
pub mod Secret
use diffuse.Prelude.{
  ℕ, zero, suc, ◌+◌, Bool, true, false, not, ◌&&◌, ◌||◌, Option, none, some, List, [], ◌∷◌, ◌++◌,
  map, Text, codes, length, filter, any, elem, text_eq, text_elem, strip, split_on, starts_with,
  ends_with, is_empty, drop, ltb, ◌==◌, if◌then◌else◌,
}

abbrev pub slash : ℕ
slash = b'/'

-- `\`
abbrev pub backslash : ℕ
backslash = 92

abbrev pub starts_absolute : Text → Bool
starts_absolute [] = false
starts_absolute (c ∷ s) = c == slash || c == backslash

-- a part that is empty or moves about in the tree
abbrev pub is_bad_part : Text → Bool
is_bad_part part = is_empty part || text_eq part (codes ".") || text_eq part (codes "..")

abbrev pub is_bad_path : Text → Bool
is_bad_path v =
    is_empty v
    || ltb 1024 (length v)
    || starts_absolute v
    || elem backslash v
    || elem 0 v
    || any is_bad_part (split_on slash v)

unfoldable pub validate_repo_path : Text → Option Text
validate_repo_path value = let v = strip value in if is_bad_path v then none else some v

abbrev pub is_bad_glob : Text → Bool
is_bad_glob v =
    is_empty v
    || ltb 512 (length v)
    || starts_absolute v
    || elem backslash v
    || elem 0 v
    || any (λ part. text_eq part (codes "..")) (split_on slash v)

unfoldable pub validate_repo_glob : Text → Option Text
validate_repo_glob value = let v = strip value in if is_bad_glob v then none else some v

abbrev pub count : ℕ → Text → ℕ
count c [] = 0
count c (x ∷ s) = (if x == c then 1 else 0) + count c s

abbrev pub is_bad_filter : Text → Bool
is_bad_filter v =
    is_empty v
    || ltb 256 (length v)
    || any (λ c. ltb c 32) v
    || not (count b'{' v == count b'}' v)
    || ltb 8 (count b'{' v)

unfoldable pub validate_filter_pattern : Text → Option Text
validate_filter_pattern value = let v = strip value in if is_bad_filter v then none else some v

abbrev pub is_bad_keyword : Text → Bool
is_bad_keyword v = is_empty v || ltb 200 (length v) || any (λ c. ltb c 32) v

unfoldable pub validate_keyword : Text → Option Text
validate_keyword value = let v = strip value in if is_bad_keyword v then none else some v

-- `PurePosixPath(value).parts` of a relative path: the parts between slashes, without the empty ones
-- and the dots. An absolute path has `/` in front, which no test below meets.
abbrev pub is_part : Text → Bool
is_part part = not (is_empty part || text_eq part (codes "."))

abbrev pub parts_of : Text → List Text
parts_of value = filter is_part (split_on slash value)

-- `.name`
abbrev pub last_of : List Text → Text
last_of [] = []
last_of (p ∷ []) = p
last_of (p ∷ q ∷ ps) = last_of (q ∷ ps)

-- `.parts[:-1]`
abbrev pub all_but_last : List Text → List Text
all_but_last [] = []
all_but_last (p ∷ []) = []
all_but_last (p ∷ q ∷ ps) = p ∷ all_but_last (q ∷ ps)

abbrev pub sensitive_directories : List Text
sensitive_directories =
    codes ".aws" ∷ codes ".azure" ∷ codes ".gcloud" ∷ codes ".gnupg" ∷ codes ".ssh" ∷ []

abbrev pub env_template_suffixes : List Text
env_template_suffixes =
    codes ".dist" ∷ codes ".example" ∷ codes ".sample" ∷ codes ".template" ∷ codes ".tmpl" ∷ []

abbrev pub sensitive_filenames : List Text
sensitive_filenames =
    codes ".git-credentials"
    ∷ codes ".htpasswd"
    ∷ codes ".netrc"
    ∷ codes ".npmrc"
    ∷ codes ".pgpass"
    ∷ codes ".pypirc"
    ∷ codes "_netrc"
    ∷ codes "credentials"
    ∷ codes "credentials.json"
    ∷ codes "secring.gpg"
    ∷ codes "secrets.json"
    ∷ codes "secrets.yaml"
    ∷ codes "secrets.yml"
    ∷ codes "service-account.json"
    ∷ codes "service_account.json"
    ∷ codes "serviceaccount.json"
    ∷ []

abbrev pub sensitive_filename_prefixes : List Text
sensitive_filename_prefixes =
    codes "id_rsa" ∷ codes "id_dsa" ∷ codes "id_ecdsa" ∷ codes "id_ed25519" ∷ []

abbrev pub private_key_extensions : List Text
private_key_extensions =
    codes ".asc"
    ∷ codes ".der"
    ∷ codes ".gpg"
    ∷ codes ".jks"
    ∷ codes ".kdbx"
    ∷ codes ".key"
    ∷ codes ".keystore"
    ∷ codes ".p12"
    ∷ codes ".p8"
    ∷ codes ".pem"
    ∷ codes ".pfx"
    ∷ codes ".pkcs12"
    ∷ codes ".ppk"
    ∷ []

-- `PurePosixPath(name).suffix`: from the last dot on, unless it is the first or the last character.
-- `found` is what the later characters give.
suffix_from : Text → Text
suffix_from [] = []
suffix_from (c ∷ s) =
    let later = suffix_from s in
    if not (is_empty later) then later else if c == b'.' then c ∷ s else []

suffix_of : Text → Text
unfolding suffix_from
suffix_of [] = []
suffix_of (c ∷ s) = let found = suffix_from s in if text_eq found (codes ".") then [] else found

-- The tests on the lowered name.
unfoldable pub is_sensitive_name : Text → Bool
unfolding suffix_of
is_sensitive_name name =
    if any (λ suffix. ends_with suffix name) env_template_suffixes
    then false
    else text_elem name sensitive_filenames
      || any (λ prefix. starts_with prefix name) sensitive_filename_prefixes
      || text_elem (suffix_of name) private_key_extensions
      || starts_with (codes ".env") name
      || ends_with (codes ".env") name

abbrev pub in_sensitive_directory : (Text → Text) → List Text → Bool
in_sensitive_directory lower parts =
    any (λ part. text_elem (lower part) sensitive_directories) (all_but_last parts)

-- `lower` is `str.lower`.
unfoldable pub is_sensitive_repo_path : (Text → Text) → Text → Bool
unfolding is_sensitive_name
is_sensitive_repo_path lower value =
    in_sensitive_directory lower (parts_of value)
    || is_sensitive_name (lower (last_of (parts_of value)))
