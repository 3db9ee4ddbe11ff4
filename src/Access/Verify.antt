-- ===== src/Access/Verify.antt =====
-- `verify_session_capability`: what a presented token authorizes.
use diffuse.Prelude.{
  ℕ, ◌*◌, Bool, true, false, not, ◌&&◌, Option, none, some, List, [], ◌∷◌, Text, codes, all,
  split_on, strip, text_eq, text_elem, is_empty, ltb, leb, ◌==◌, if◌then◌else◌,
}
use diffuse.Access.{
  Json, Library, bad_argument, malformed, expired, scope_mismatch, unicode_error, type_error,
  Outcome, ok, fail, SessionScope, SessionCapability, capability_operations, agent_runtime_names,
  second, make_scope, parse_agent_runtime_name, encode, decode, token_prefix,
}

-- The keyword arguments `require_*`.
pub record Requirement : Type 0 where
  pub require_operation : Option Text
  pub require_repository_id : Option ℕ
  pub require_pull_request_id : Option ℕ
  pub require_snapshot_id : Option ℕ
  pub require_head_sha : Option Text
  pub require_runtime : Option Text

abbrev pub is_ascii : Text → Bool
is_ascii s = all (λ c. ltb c 128) s

-- A requirement that is not made is met.
abbrev pub meets {ℓ} : {A : Type ℓ} → (A → Bool) → Option A → Bool
meets test none = true
meets test (some a) = test a

unfoldable pub and_then : {A B : Type 0} → Option A → (A → Option B) → Option B
and_then none f = none
and_then (some a) f = f a

unfoldable pub ensure : {A : Type 0} → Bool → Option A → Option A
ensure b o = if b then o else none

module _ {J : Type 0} (json : Json J) (lib : Library J) where
  abbrev pub payload_from : Option J → Outcome J
  payload_from none = fail malformed
  payload_from (some payload) = if json.is_object payload then ok payload else fail malformed

  -- `hmac.new(…)` encodes the body in ASCII, and `compare_digest` refuses texts that are not.
  abbrev pub read_signed : Text → Text → Text → Outcome J
  read_signed key body signature =
      if not (is_ascii body)
      then fail unicode_error
      else if not (is_ascii signature)
      then fail type_error
      else if not (text_eq signature (encode lib (lib.hmac key body)))
      then fail malformed
      else payload_from (and_then (decode lib body) lib.loads)

  abbrev pub read_parts : Text → List Text → Outcome J
  read_parts key (prefix ∷ body ∷ signature ∷ []) =
      if text_eq prefix token_prefix then read_signed key body signature else fail malformed
  read_parts key _ = fail malformed

  -- `_parse_payload`
  unfoldable pub parse_payload : Text → Text → Outcome J
  parse_payload key token = read_parts key (split_on b'.' token)

  abbrev pub integer_at : Text → J → Option ℕ
  integer_at key payload = and_then (json.field key payload) json.as_integer

  -- The version, the id and the runtime of a payload are those of a capability.
  abbrev pub is_version : Option J → Bool
  is_version none = false
  is_version (some v) = json.is_number 1 v

  abbrev pub has_version : J → Bool
  has_version payload = is_version (json.field (codes "v") payload)

  abbrev pub text_at : (Text → Bool) → Text → J → Option Text
  text_at test key payload =
      and_then (json.field key payload) λ v. and_then (json.as_text v) λ t. ensure (test t) (some t)

  abbrev pub scope_at : J → Option SessionScope
  scope_at payload = and_then (integer_at (codes "repository_id") payload) λ repository_id.
      and_then (integer_at (codes "pull_request_id") payload) λ pull_request_id.
        and_then (integer_at (codes "snapshot_id") payload) λ snapshot_id.
          and_then (json.field (codes "head_sha") payload) λ head_sha.
            and_then (json.field (codes "operations") payload) λ listed.
              and_then (json.as_texts listed) λ operations. make_scope lib record {
                repository_id = repository_id;
                pull_request_id = pull_request_id;
                snapshot_id = snapshot_id;
                head_sha = json.as_string head_sha;
                operations = operations;
              }

  abbrev pub moment_at : Text → J → Option ℕ
  moment_at key payload =
      and_then (json.field key payload) λ v. and_then (json.as_seconds v) λ n. some (n * second)

  -- The capability that a payload describes; `none` where the code raises `CapabilityMalformed`.
  unfoldable pub capability_of : Text → J → Option SessionCapability
  unfolding make_scope
  capability_of token payload = ensure (has_version payload) (
      and_then (text_at (λ t. not (is_empty t)) (codes "jti") payload) λ token_id.
        and_then (text_at (λ t. text_elem t agent_runtime_names) (codes "runtime") payload)
          λ runtime. and_then (moment_at (codes "iat") payload) λ issued_at.
            and_then (moment_at (codes "exp") payload) λ expires_at.
              and_then (scope_at payload) λ scope. some record {
                capability_id = token_id;
                runtime = runtime;
                scope = scope;
                issued_at = issued_at;
                expires_at = expires_at;
                token_hash = some (lib.digest token);
              })

  -- `SessionCapability.allows`, for an operation that is one of Diffuse's
  abbrev pub allows : SessionCapability → Text → Bool
  allows cap operation =
      text_elem operation capability_operations && text_elem operation cap.scope.operations

  abbrev pub meets_scope : Requirement → SessionCapability → Bool
  meets_scope r cap =
      meets (λ id. cap.scope.repository_id == id) r.require_repository_id
      && meets (λ id. cap.scope.pull_request_id == id) r.require_pull_request_id
      && meets (λ id. cap.scope.snapshot_id == id) r.require_snapshot_id
      && meets (λ sha. text_eq cap.scope.head_sha (lib.lower (strip sha))) r.require_head_sha
      && meets (allows cap) r.require_operation

  abbrev pub if_runtime : Text → Option Text → Outcome SessionCapability → Outcome SessionCapability
  if_runtime runtime none then_ok = fail bad_argument
  if_runtime runtime (some name) then_ok =
      if text_eq runtime name then then_ok else fail scope_mismatch

  abbrev pub for_scope : Requirement → SessionCapability → Outcome SessionCapability
  for_scope r cap = if meets_scope r cap then ok cap else fail scope_mismatch

  -- The runtime is the first requirement, and one that is no runtime raises a `ValueError`.
  abbrev pub for_runtime : Option Text → Requirement → SessionCapability → Outcome SessionCapability
  for_runtime none r cap = for_scope r cap
  for_runtime (some required) r cap =
      if_runtime cap.runtime (parse_agent_runtime_name lib required) (for_scope r cap)

  abbrev pub check_capability :
      ℕ → Requirement → Option SessionCapability → Outcome SessionCapability
  check_capability moment r none = fail malformed
  check_capability moment r (some cap) =
      if leb cap.expires_at moment then fail expired else for_runtime r.require_runtime r cap

  abbrev pub check_payload : Text → ℕ → Requirement → Outcome J → Outcome SessionCapability
  check_payload token moment r (fail e) = fail e
  check_payload token moment r (ok payload) =
      check_capability moment r (capability_of token payload)

  unfoldable pub verify_session_capability :
      Text → Text → ℕ → Requirement → Outcome SessionCapability
  unfolding parse_payload capability_of parse_agent_runtime_name
  verify_session_capability key token moment r =
      if is_empty key
      then fail bad_argument
      else check_payload token moment r (parse_payload key token)
