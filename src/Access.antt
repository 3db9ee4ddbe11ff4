-- ===== src/Access.antt =====
-- packages/protocol/src/diffuse_protocol/access.py: the capabilities that open Diffuse's read-only tools
-- to an isolated agent session. This file holds the records and `mint_session_capability`.
pub mod Verify
pub mod Guards
pub mod Sound
pub mod RoundTrip
mod Examples
use diffuse.Prelude.{
  ℕ, ◌+◌, ◌-◌, ◌*◌, ◌/◌, ◌%◌, Bool, true, false, not, ◌&&◌, ◌||◌, Option, none, some, List, [], ◌∷◌,
  ◌++◌, Text, codes, all, any, length, strip, text_elem, text_ltb, sort_by, is_empty, ltb, leb,
  ◌==◌, if◌then◌else◌,
}

-- The values of JSON, as far as the code makes and reads them.
pub record Json (J : Type 0) : Type 0 where
  pub object : List (Text × J) → J
  pub text : Text → J
  pub number : ℕ → J
  pub texts : List Text → J
  pub is_object : J → Bool
  pub field : Text → J → Option J
  pub is_number : ℕ → J → Bool
  pub as_text : J → Option Text
  pub as_integer : J → Option ℕ
  pub as_string : J → Text
  pub as_texts : J → Option (List Text)
  pub as_seconds : J → Option ℕ

-- What the code takes from the standard library. `decode` and `loads` give `none` where they raise.
pub record Library (J : Type 0) : Type 0 where
  pub dumps : J → Text
  pub loads : Text → Option J
  pub base64 : Text → Text
  pub unbase64 : Text → Option Text
  pub hmac : Text → Text → Text
  pub digest : Text → Text
  pub lower : Text → Text

-- `CAPABILITY_OPERATIONS`
abbrev pub capability_operations : List Text
capability_operations =
    codes "search_code"
    ∷ codes "get_diff"
    ∷ codes "get_file"
    ∷ codes "get_symbol"
    ∷ codes "get_pr_metadata"
    ∷ codes "list_prior_findings"
    ∷ codes "get_applicable_policy"
    ∷ []

-- The errors: a `ValueError` for the arguments, the three of capabilities, and what a token outside of
-- ASCII raises, in its body and in its signature.
pub data Error : Type 0 where
  bad_argument malformed expired scope_mismatch unicode_error type_error : Error

pub data Outcome (A : Type 0) : Type 0 where
  ok : A → Outcome A
  fail : Error → Outcome A

pub record SessionScope : Type 0 where
  pub repository_id : ℕ
  pub pull_request_id : ℕ
  pub snapshot_id : ℕ
  pub head_sha : Text
  pub operations : List Text

-- Times are numbers of microseconds.
pub record SessionCapability : Type 0 where
  pub capability_id : Text
  pub runtime : Text
  pub scope : SessionScope
  pub issued_at : ℕ
  pub expires_at : ℕ
  pub token_hash : Option Text

abbrev pub is_hexadecimal : ℕ → Bool
is_hexadecimal c = (leb 48 c && leb c 57) || (leb 97 c && leb c 102)

abbrev pub is_full_sha : Text → Bool
is_full_sha sha = length sha == 40 && all is_hexadecimal sha

abbrev pub second : ℕ
second = 1000000

-- `MAX_CAPABILITY_TTL`
abbrev pub max_capability_ttl : ℕ
max_capability_ttl = 900 * second

abbrev pub agent_runtime_names : List Text
agent_runtime_names = codes "claude" ∷ codes "codex" ∷ []

abbrev pub equals : ℕ
equals = 61

-- `.rstrip("=")`
abbrev pub unpadded : Text → Text
unpadded [] = []
unpadded (c ∷ s) = let rest = unpadded s in if c == equals && is_empty rest then [] else c ∷ rest

-- `"=" * n`
abbrev pub padding : ℕ → Text
padding n =
    if n == 0
    then []
    else if n == 1
    then equals ∷ []
    else if n == 2
    then equals ∷ equals ∷ []
    else equals ∷ equals ∷ equals ∷ []

-- `value + "=" * (-len(value) % 4)`
abbrev pub padded : Text → Text
padded s = s ++ padding ((4 - length s % 4) % 4)

abbrev pub is_valid_scope : SessionScope → Bool
is_valid_scope s =
    not (s.repository_id == 0)
    && not (s.pull_request_id == 0)
    && not (s.snapshot_id == 0)
    && is_full_sha s.head_sha
    && all (λ operation. text_elem operation capability_operations) s.operations
    && not (is_empty s.operations)

abbrev pub token_prefix : Text
token_prefix = codes "diffuse-cap"

module _ {J : Type 0} (lib : Library J) where
  -- `SessionScope.__post_init__`
  abbrev pub normalized : SessionScope → SessionScope
  normalized s = record s { head_sha = lib.lower (strip s.head_sha) }

  unfoldable pub make_scope : SessionScope → Option SessionScope
  make_scope s = if is_valid_scope (normalized s) then some (normalized s) else none

  -- `parse_agent_runtime_name`
  unfoldable pub parse_agent_runtime_name : Text → Option Text
  parse_agent_runtime_name value =
      let name = lib.lower (strip value) in
      if text_elem name agent_runtime_names then some name else none

  -- `_b64url_encode` and `_b64url_decode`
  abbrev pub encode : Text → Text
  encode raw = unpadded (lib.base64 raw)

  abbrev pub decode : Text → Option Text
  decode value = lib.unbase64 (padded value)

  abbrev pub signed : Text → Text → Text
  signed key body = token_prefix ++ b'.' ∷ (body ++ b'.' ∷ encode (lib.hmac key body))

  abbrev pub token_of : Text → J → Text
  token_of key payload = signed key (encode (lib.dumps payload))

abbrev pub payload_of : {J : Type 0} → Json J → Text → Text → SessionScope → ℕ → ℕ → J
payload_of json token_id runtime scope issued_at expires_at = json.object (
    (codes "v", json.number 1)
    ∷ (codes "jti", json.text token_id)
    ∷ (codes "runtime", json.text runtime)
    ∷ (codes "repository_id", json.number scope.repository_id)
    ∷ (codes "pull_request_id", json.number scope.pull_request_id)
    ∷ (codes "snapshot_id", json.number scope.snapshot_id)
    ∷ (codes "head_sha", json.text scope.head_sha)
    ∷ (codes "operations", json.texts (sort_by text_ltb scope.operations))
    ∷ (codes "iat", json.number (issued_at / second))
    ∷ (codes "exp", json.number (expires_at / second))
    ∷ [])

module _ {J : Type 0} (json : Json J) (lib : Library J) where
  -- `mint_session_capability` at the time `now`, with the token and its capability.
  unfoldable pub mint_session_capability :
      Text → Text → SessionScope → ℕ → ℕ → Text → Outcome (Text × SessionCapability)
  unfolding parse_agent_runtime_name
  mint_session_capability key runtime scope ttl now token_id =
      if is_empty key || ttl == 0 || ltb max_capability_ttl ttl
      then fail bad_argument
      else elim (parse_agent_runtime_name lib runtime) [
        | none ↦ fail bad_argument
        | some selected ↦
            let token =
              token_of lib key (payload_of json token_id selected scope now (now + ttl)) in
            ok (
              token,
              record {
                capability_id = token_id;
                runtime = selected;
                scope = scope;
                issued_at = now;
                expires_at = now + ttl;
                token_hash = some (lib.digest token);
              },
            )
      ]
