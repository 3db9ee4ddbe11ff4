-- ===== src/Access/Examples.antt =====
-- A capability that is minted and read back, with a library that knows one payload.
use diffuse.Prelude.{
  ℕ, ◌+◌, ◌*◌, ◌≡◌, refl, Bool, true, false, Option, none, some, List, [], ◌∷◌, ◌++◌, Text, codes,
  text_eq, ltb→lt, ◌==◌, ==_iff, if◌then◌else◌,
}
use diffuse.Access.{
  Json, Library, fail, type_error, SessionScope, SessionCapability, second, payload_of, token_of,
  parse_agent_runtime_name, mint_session_capability,
}
use diffuse.Access.Verify.{Requirement, for_runtime, parse_payload, verify_session_capability}
use diffuse.Access.Sound.{IsAuthorized, verify_session_capability-IsAuthorized}
use diffuse.Access.RoundTrip.{lookup, IsJson, IsFaithful, as_read, mint_session_capability-verified}

mutual
  data Value : Type 0 where
    fields : Fields → Value
    a_text : Text → Value
    a_number : ℕ → Value
    some_texts : List Text → Value

  data Fields : Type 0 where
    no_field : Fields
    with_field : Text → Value → Fields → Fields

abbrev fields_of : List (Text × Value) → Fields
fields_of [] = no_field
fields_of ((k, v) ∷ kvs) = with_field k v (fields_of kvs)

abbrev find_field : Text → Fields → Option Value
find_field key no_field = none
find_field key (with_field k v fs) =
    let later = find_field key fs in if text_eq k key then some v else later

abbrev field_in : Text → Value → Option Value
field_in key (fields fs) = find_field key fs
field_in key _ = none

abbrev is_fields : Value → Bool
is_fields (fields fs) = true
is_fields _ = false

abbrev number_in : Value → Option ℕ
number_in (a_number n) = some n
number_in _ = none

abbrev text_in : Value → Option Text
text_in (a_text t) = some t
text_in _ = none

abbrev string_in : Value → Text
string_in (a_text t) = t
string_in _ = []

abbrev texts_in : Value → Option (List Text)
texts_in (some_texts ts) = some ts
texts_in _ = none

abbrev is_this_number : ℕ → Value → Bool
is_this_number n (a_number m) = n == m
is_this_number n _ = false

abbrev values : Json Value
values = record {
  object = λ kvs. fields (fields_of kvs);
  text = a_text;
  number = a_number;
  texts = some_texts;
  is_object = is_fields;
  field = field_in;
  is_number = is_this_number;
  as_text = text_in;
  as_integer = number_in;
  as_string = string_in;
  as_texts = texts_in;
  as_seconds = number_in;
}

find_field-fields_of :
    (key : Text) (kvs : List (Text × Value)) → find_field key (fields_of kvs) ≡ lookup key kvs
find_field-fields_of key [] = refl
find_field-fields_of key ((k, v) ∷ kvs) = rw (find_field-fields_of key kvs) refl

values-IsJson : IsJson values
values-IsJson = record {
  object_of = λ kvs. refl;
  field_of = λ key kvs. find_field-fields_of key kvs;
  number_of = λ n. (==_iff n n).1 refl;
  text_of = λ t. refl;
  integer_of = λ n. refl;
  string_of = λ t. refl;
  texts_of = λ ts. refl;
  seconds_of = λ n. refl;
}

abbrev scope : SessionScope
scope = record {
  repository_id = 3;
  pull_request_id = 4;
  snapshot_id = 5;
  head_sha = codes "0123456789abcdef0123456789abcdef01234567";
  operations = codes "search_code" ∷ codes "get_diff" ∷ [];
}

abbrev now : ℕ
now = 1500000

abbrev ttl : ℕ
ttl = 60 * second

abbrev payload : Value
payload = payload_of values (codes "id") (codes "claude") scope now (now + ttl)

abbrev library : Library Value
library = record {
  dumps = λ _. codes "x";
  loads = λ _. some payload;
  base64 = λ _. codes "eA==";
  unbase64 = λ _. some (codes "x");
  hmac = λ key body. body;
  digest = λ t. t;
  lower = λ t. t;
}

abbrev key : Text
key = codes "k"

abbrev token : Text
token = token_of library key payload

abbrev capability : SessionCapability
capability = record {
  capability_id = codes "id";
  runtime = codes "claude";
  scope = scope;
  issued_at = now;
  expires_at = now + ttl;
  token_hash = some token;
}

abbrev requirement : Requirement
requirement = record {
  require_operation = some (codes "get_diff");
  require_repository_id = some 3;
  require_pull_request_id = none;
  require_snapshot_id = none;
  require_head_sha = none;
  require_runtime = none;
}

payload-IsFaithful : IsFaithful library key payload
payload-IsFaithful = record {
  decoded = refl;
  loaded = refl;
  ascii_body = refl;
  whole_body = refl;
  ascii_signature = refl;
  whole_signature = refl;
}

mint_session_capability-verified_example :
    verify_session_capability values library key token now requirement
    ≡ for_runtime values library none requirement (as_read values library capability)
unfolding mint_session_capability parse_agent_runtime_name
mint_session_capability-verified_example =
    mint_session_capability-verified values library values-IsJson key (codes "id") now requirement
      (codes "claude") token scope ttl now capability refl refl refl refl payload-IsFaithful
      (ltb→lt now 61000000 refl)

verify_session_capability-IsAuthorized_example :
    IsAuthorized values library key token now requirement (as_read values library capability)
verify_session_capability-IsAuthorized_example =
    verify_session_capability-IsAuthorized values library key token now requirement
      (as_read values library capability) mint_session_capability-verified_example

-- A signature outside of ASCII raises a `TypeError`, which is no `CapabilityError`.
signature_outside_ascii :
    verify_session_capability values library key
      (codes "diffuse-cap.eA." ++ 233 ∷ [])
      now
      requirement
    ≡ fail type_error
unfolding verify_session_capability parse_payload
signature_outside_ascii = refl
