-- ===== src/Access/RoundTrip.antt =====
-- A token that was minted is read back.
use diffuse.Prelude.{
  split_on-whole, split_on-append, text_eq_refl, ℕ, ◌+◌, ◌*◌, ◌/◌, ◌<◌, ◌≡◌, refl, inl, inr, Bool,
  true, false, not, ◌&&◌, ◌||◌, Option, none, some, List, [], ◌∷◌, ◌++◌, Text, codes, all, elem,
  split_on, text_eq, text_elem, text_ltb, insert_by, sort_by, strip, is_empty, leb, ltb, ◌==◌,
  if◌then◌else◌, arith, subst, ap, ◌∙◌, Bool-cases, Option-cases,
}
use mathlib.Core.Option.{some-injective, none-ne-some}
use diffuse.Access.{
  Json, Library, bad_argument, ok, SessionScope, SessionCapability, is_valid_scope,
  capability_operations, make_scope, parse_agent_runtime_name, encode, decode, token_prefix,
  token_of, payload_of, agent_runtime_names, second, max_capability_ttl, mint_session_capability,
}
use diffuse.Access.Guards.{unchecked, failure, ok-injective}
use diffuse.Access.Verify.{
  Requirement, is_ascii, and_then, ensure, read_parts, parse_payload, scope_at, integer_at, text_at,
  moment_at, has_version, capability_of, for_runtime, verify_session_capability,
}

abbrev pub lookup : {J : Type 0} → Text → List (Text × J) → Option J
lookup key [] = none
lookup key ((k, v) ∷ kvs) = let later = lookup key kvs in if text_eq k key then some v else later

-- How the values of JSON are read that were made.
pub record IsJson {J : Type 0} (json : Json J) : Type 0 where
  pub object_of : (kvs : List (Text × J)) → json.is_object (json.object kvs) ≡ true
  pub field_of :
      (key : Text) (kvs : List (Text × J)) → json.field key (json.object kvs) ≡ lookup key kvs
  pub number_of : (n : ℕ) → json.is_number n (json.number n) ≡ true
  pub text_of : (t : Text) → json.as_text (json.text t) ≡ some t
  pub integer_of : (n : ℕ) → json.as_integer (json.number n) ≡ some n
  pub string_of : (t : Text) → json.as_string (json.text t) ≡ t
  pub texts_of : (ts : List Text) → json.as_texts (json.texts ts) ≡ some ts
  pub seconds_of : (n : ℕ) → json.as_seconds (json.number n) ≡ some n

-- The library gives this payload back, and its base64 has the letters of base64.
pub record IsFaithful {J : Type 0} (lib : Library J) (key : Text) (payload : J) : Type 0 where
  pub decoded : decode lib (encode lib (lib.dumps payload)) ≡ some (lib.dumps payload)
  pub loaded : lib.loads (lib.dumps payload) ≡ some payload
  pub ascii_body : is_ascii (encode lib (lib.dumps payload)) ≡ true
  pub whole_body : elem b'.' (encode lib (lib.dumps payload)) ≡ false
  pub ascii_signature : is_ascii (encode lib (lib.hmac key (encode lib (lib.dumps payload)))) ≡ true
  pub whole_signature :
      elem b'.' (encode lib (lib.hmac key (encode lib (lib.dumps payload)))) ≡ false

all-insert_by :
    (test : Text → Bool) (x : Text) (ys : List Text)
    → all test (insert_by text_ltb x ys) ≡ (test x && all test ys)
all-insert_by test x [] = refl
all-insert_by test x (y ∷ ys) = elim (Bool-cases (text_ltb y x)) [
  | inl t ↦ rw (t, all-insert_by test x ys) (swap_and (test y) (test x) (all test ys))
  | inr t ↦ rw t refl
]
  where
    swap_and : (a b c : Bool) → (a && (b && c)) ≡ (b && (a && c))
    swap_and a b c = ground arith

all-sort_by : (test : Text → Bool) (xs : List Text) → all test (sort_by text_ltb xs) ≡ all test xs
all-sort_by test [] = refl
all-sort_by test (x ∷ xs) =
    all-insert_by test x (sort_by text_ltb xs) ∙ ap (λ b. test x && b) (all-sort_by test xs)

is_empty-sort_by : (xs : List Text) → is_empty (sort_by text_ltb xs) ≡ is_empty xs
is_empty-sort_by [] = refl
is_empty-sort_by (x ∷ xs) = filled (sort_by text_ltb xs)
  where
    filled : (ys : List Text) → is_empty (insert_by text_ltb x ys) ≡ false
    filled [] = refl
    filled (y ∷ ys) = elim (Bool-cases (text_ltb y x)) [ inl t ↦ rw t refl | inr t ↦ rw t refl ]

abbrev pub sorted_scope : SessionScope → SessionScope
sorted_scope s = record s { operations = sort_by text_ltb s.operations }

is_valid_scope-sorted : (s : SessionScope) → is_valid_scope (sorted_scope s) ≡ is_valid_scope s
is_valid_scope-sorted s =
    rw
      (
        all-sort_by (λ operation. text_elem operation capability_operations) s.operations,
        is_empty-sort_by s.operations,
      )
      refl

and_then-found :
    {A B : Type 0} {o : Option A} (f : A → Option B) {a : A} {r : Option B}
    → o ≡ some a
    → f a ≡ r
    → and_then o f ≡ r
unfolding and_then
and_then-found f e h = rw e h

ensure-true : {A : Type 0} {b : Bool} {o : Option A} → b ≡ true → ensure b o ≡ o
unfolding ensure
ensure-true e = rw e refl

module _ {J : Type 0} (json : Json J) (lib : Library J) (laws : IsJson json) where
  has_version-payload :
      (kvs : List (Text × J))
      → lookup (codes "v") kvs ≡ some (json.number 1)
      → has_version json lib (json.object kvs) ≡ true
  has_version-payload kvs found = rw (laws.field_of (codes "v") kvs, found) (laws.number_of 1)

  text_at-payload :
      (test : Text → Bool) (key t : Text) (kvs : List (Text × J))
      → lookup key kvs ≡ some (json.text t)
      → test t ≡ true
      → text_at json lib test key (json.object kvs) ≡ some t
  unfolding and_then ensure
  text_at-payload test key t kvs found h = rw (laws.field_of key kvs, found, laws.text_of t, h) refl

  integer_at-payload :
      (key : Text) (n : ℕ) (kvs : List (Text × J))
      → lookup key kvs ≡ some (json.number n)
      → integer_at json lib key (json.object kvs) ≡ some n
  unfolding and_then
  integer_at-payload key n kvs found = rw (laws.field_of key kvs, found) (laws.integer_of n)

  moment_at-payload :
      (key : Text) (n : ℕ) (kvs : List (Text × J))
      → lookup key kvs ≡ some (json.number n)
      → moment_at json lib key (json.object kvs) ≡ some (n * second)
  unfolding and_then
  moment_at-payload key n kvs found = rw (laws.field_of key kvs, found, laws.seconds_of n) refl

  module _ (token_id runtime : Text) (scope : SessionScope) (issued_at expires_at : ℕ)
      (made : make_scope lib (sorted_scope scope) ≡ some (sorted_scope scope)) where
    abbrev payload : J
    payload = payload_of json token_id runtime scope issued_at expires_at

    scope_at-payload : scope_at json lib payload ≡ some (sorted_scope scope)
    scope_at-payload =
        and_then-found _ (integer_at-payload (codes "repository_id") scope.repository_id _ refl) (
          and_then-found _
            (integer_at-payload (codes "pull_request_id") scope.pull_request_id _ refl)
            (and_then-found _ (integer_at-payload (codes "snapshot_id") scope.snapshot_id _ refl) (
              and_then-found _ (laws.field_of (codes "head_sha") _) (
                and_then-found _ (laws.field_of (codes "operations") _) (
                  and_then-found _ (laws.texts_of (sort_by text_ltb scope.operations))
                    (rw (laws.string_of scope.head_sha) made))))))

    -- The capability of a minted payload, with the times in whole seconds.
    abbrev read_back : Text → SessionCapability
    read_back token = record {
      capability_id = token_id;
      runtime = runtime;
      scope = sorted_scope scope;
      issued_at = issued_at / second * second;
      expires_at = expires_at / second * second;
      token_hash = some (lib.digest token);
    }

    capability_of-payload :
        (token : Text)
        → not (is_empty token_id) ≡ true
        → text_elem runtime agent_runtime_names ≡ true
        → capability_of json lib token payload ≡ some (read_back token)
    unfolding capability_of
    capability_of-payload token named known =
        ensure-true (has_version-payload _ refl)
        ∙ and_then-found _
            (text_at-payload (λ t. not (is_empty t)) (codes "jti") token_id _ refl named)
            (and_then-found _
              (text_at-payload (λ t. text_elem t agent_runtime_names) (codes "runtime") runtime _
                refl known)
              (and_then-found _ (moment_at-payload (codes "iat") (issued_at / second) _ refl) (
                and_then-found _ (moment_at-payload (codes "exp") (expires_at / second) _ refl)
                  (and_then-found _ scope_at-payload refl))))

first_false : (a b c : Bool) → (a || b || c) ≡ false → a ≡ false
first_false a b c h = ground arith

granted : {b : Bool} → b ≡ false → not b ≡ true
granted e = rw e refl

in_time : (a b : ℕ) → a < b → leb b a ≡ false
in_time a b h = ground arith

module _ {J : Type 0} (json : Json J) (lib : Library J) where
  split-signed :
      (key : Text) (payload : J)
      → IsFaithful lib key payload
      → split_on b'.' (token_of lib key payload)
        ≡ token_prefix
          ∷ encode lib (lib.dumps payload)
          ∷ encode lib (lib.hmac key (encode lib (lib.dumps payload)))
          ∷ []
  split-signed key payload faithful =
      let body = encode lib (lib.dumps payload) in
      let signature = encode lib (lib.hmac key body) in
      split_on-append b'.' token_prefix (body ++ b'.' ∷ signature) refl
      ∙ ap (λ parts. token_prefix ∷ parts)
          (split_on-append b'.' body signature faithful.whole_body
            ∙ ap (λ parts. body ∷ parts) (split_on-whole b'.' signature faithful.whole_signature))

  parse_payload-token_of :
      (key : Text) (payload : J)
      → IsFaithful lib key payload
      → json.is_object payload ≡ true
      → parse_payload json lib key (token_of lib key payload) ≡ ok payload
  unfolding parse_payload and_then
  parse_payload-token_of key payload faithful is_object =
      ap (read_parts json lib key) (split-signed key payload faithful)
      ∙ rw
          (
            faithful.ascii_body,
            faithful.ascii_signature,
            text_eq_refl (encode lib (lib.hmac key (encode lib (lib.dumps payload)))),
            faithful.decoded,
            faithful.loaded,
            is_object,
          )
          refl

  parse_agent_runtime_name-known :
      (value name : Text)
      → parse_agent_runtime_name lib value ≡ some name
      → text_elem name agent_runtime_names ≡ true
  unfolding parse_agent_runtime_name
  parse_agent_runtime_name-known value name h =
      elim (Bool-cases (text_elem (lib.lower (strip value)) agent_runtime_names)) [
        | inl t ↦
            subst (λ n. text_elem n agent_runtime_names ≡ true) (some-injective _ _ (rw t at h)) t
        | inr t ↦ absurd (none-ne-some _ (rw t at h))
      ]

  -- A scope as its constructor leaves it is left so when its operations are sorted.
  make_scope-sorted :
      (scope : SessionScope)
      → is_valid_scope scope ≡ true
      → lib.lower (strip scope.head_sha) ≡ scope.head_sha
      → make_scope lib (sorted_scope scope) ≡ some (sorted_scope scope)
  unfolding make_scope
  make_scope-sorted scope valid kept = rw (kept, is_valid_scope-sorted scope, valid) refl

  -- The capability as a verifier sees it: operations in order, times in whole seconds.
  abbrev pub as_read : SessionCapability → SessionCapability
  as_read cap = record cap {
    scope = sorted_scope cap.scope;
    issued_at = cap.issued_at / second * second;
    expires_at = cap.expires_at / second * second;
  }

  module _ (laws : IsJson json) (key token_id : Text) (moment : ℕ) (r : Requirement) where
    -- What is to be shown of a token and its capability.
    abbrev IsReadBack : SessionScope → ℕ → ℕ → Text × SessionCapability → Type 0
    IsReadBack scope ttl now (token, cap) =
        IsFaithful lib key (payload_of json token_id cap.runtime scope now (now + ttl))
        → moment < (now + ttl) / second * second
        → verify_session_capability json lib key token moment r
          ≡ for_runtime json lib r.require_runtime r (as_read cap)

    -- A token that `mint_session_capability` made is verified by the same key, until the whole second
    -- of its expiry: what it gives is decided by the requirements on the capability that was minted,
    -- with its operations in order and its times in whole seconds. The scope is as its constructor
    -- leaves it, the id is not empty, and the library gives back what it wrote.
    pub mint_session_capability-verified :
        (runtime token : Text) (scope : SessionScope) (ttl now : ℕ) (cap : SessionCapability)
        → is_valid_scope scope ≡ true
        → lib.lower (strip scope.head_sha) ≡ scope.head_sha
        → is_empty token_id ≡ false
        → mint_session_capability json lib key runtime scope ttl now token_id ≡ ok (token, cap)
        → IsFaithful lib key (payload_of json token_id cap.runtime scope now (now + ttl))
        → moment < (now + ttl) / second * second
        → verify_session_capability json lib key token moment r
          ≡ for_runtime json lib r.require_runtime r (as_read cap)
    unfolding mint_session_capability verify_session_capability
    mint_session_capability-verified runtime token scope ttl now cap valid kept named minted =
        let (fine, g) =
          unchecked (is_empty key || ttl == 0 || ltb max_capability_ttl ttl) bad_argument _ _
            minted in
        elim (Option-cases (parse_agent_runtime_name lib runtime)) [
          | inl n ↦ absurd (failure bad_argument (token, cap) (rw n at g))
          | inr (selected, n) ↦
              subst (IsReadBack scope ttl now) (ok-injective _ (token, cap) (rw n at g))
                λ faithful current.
                  let payload = payload_of json token_id selected scope now (now + ttl) in
                  rw
                    (
                      first_false (is_empty key) (ttl == 0) (ltb max_capability_ttl ttl) fine,
                      parse_payload-token_of key payload faithful (laws.object_of _),
                      capability_of-payload json lib laws token_id selected scope now (now + ttl)
                          (make_scope-sorted scope valid kept) (token_of lib key payload)
                          (granted named) (parse_agent_runtime_name-known runtime selected n),
                      in_time moment ((now + ttl) / second * second) current,
                    )
                    refl
        ]
