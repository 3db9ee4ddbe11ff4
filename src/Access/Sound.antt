-- ===== src/Access/Sound.antt =====
-- What a token has that is accepted.
use diffuse.Prelude.{
  join-split_on, ℕ, ◌<◌, ◌≡◌, refl, inl, inr, Bool, true, false, not, Option, none, some, List, [],
  ◌∷◌, ◌++◌, Text, split_on, join, text_eq, text_eq_iff, is_empty, leb, arith, subst, sym, ap, ◌∙◌,
  Bool-cases, Option-cases,
}
use mathlib.Core.Option.{some-injective, none-ne-some}
use diffuse.Access.{
  Json, Library, malformed, expired, unicode_error, type_error, bad_argument, scope_mismatch,
  Outcome, ok, fail, SessionScope, SessionCapability, is_valid_scope, normalized, make_scope,
  parse_agent_runtime_name, encode, token_prefix, signed,
}
use diffuse.Access.Guards.{
  and_then-some, ensure-some, later, failure, ok-injective, unchecked, checked,
}
use diffuse.Access.Verify.{
  Requirement, is_ascii, meets, read_parts, parse_payload, scope_at, capability_of, meets_scope,
  if_runtime, for_scope, for_runtime, check_capability, check_payload, verify_session_capability,
}

unrefused : (b : Bool) → not b ≡ false → b ≡ true
unrefused b h = ground arith

mark-append : (s : Text) (c : ℕ) (t : Text) → (s ++ c ∷ []) ++ t ≡ s ++ c ∷ t
mark-append [] c t = refl
mark-append (d ∷ s) c t = ap (λ u. d ∷ u) (mark-append s c t)

module _ {J : Type 0} (json : Json J) (lib : Library J) where
  signed_of :
      (key : Text) (parts : List Text) (payload : J)
      → read_parts json lib key parts ≡ ok payload
      → (body : Text) × (join (b'.' ∷ []) parts ≡ signed lib key body)
  signed_of key (prefix ∷ body ∷ signature ∷ []) payload h =
      let (p, g) = checked (text_eq prefix token_prefix) malformed _ payload h in
      let (_, g) = unchecked (not (is_ascii body)) unicode_error _ payload g in
      let (_, g) = unchecked (not (is_ascii signature)) type_error _ payload g in
      let (s, _) =
        unchecked (not (text_eq signature (encode lib (lib.hmac key body)))) malformed _ payload
          g in
      (
        body,
        mark-append prefix b'.' (body ++ b'.' ∷ [] ++ signature)
            ∙ ap (λ x. prefix ++ b'.' ∷ x) (mark-append body b'.' signature)
            ∙ ap (λ x. x ++ b'.' ∷ (body ++ b'.' ∷ signature))
                ((text_eq_iff prefix token_prefix).0 p)
            ∙ ap (λ x. token_prefix ++ b'.' ∷ (body ++ b'.' ∷ x))
                ((text_eq_iff signature (encode lib (lib.hmac key body))).0 (unrefused _ s)),
      )
  signed_of key _ payload h = absurd (failure _ _ h)

  make_scope-valid :
      (s scope : SessionScope) → make_scope lib s ≡ some scope → is_valid_scope scope ≡ true
  unfolding make_scope
  make_scope-valid s scope h = elim (Bool-cases (is_valid_scope (normalized lib s))) [
    | inl t ↦ subst (λ x. is_valid_scope x ≡ true) (some-injective _ _ (rw t at h)) t
    | inr t ↦ absurd (none-ne-some _ (rw t at h))
  ]

  scope_at-valid :
      (payload : J) (scope : SessionScope)
      → scope_at json lib payload ≡ some scope
      → is_valid_scope scope ≡ true
  scope_at-valid payload scope h =
      let (_, _, h) = and_then-some _ _ _ h in
      let (_, _, h) = and_then-some _ _ _ h in
      let (_, _, h) = and_then-some _ _ _ h in
      let (_, _, h) = and_then-some _ _ _ h in
      let (_, _, h) = and_then-some _ _ _ h in
      let (_, _, h) = and_then-some _ _ _ h in make_scope-valid _ scope h

  capability_of-valid :
      (token : Text) (payload : J) (cap : SessionCapability)
      → capability_of json lib token payload ≡ some cap
      → is_valid_scope cap.scope ≡ true
  unfolding capability_of
  capability_of-valid token payload cap h =
      let (_, h) = ensure-some _ _ _ h in
      let (_, _, h) = and_then-some _ _ _ h in
      let (_, _, h) = and_then-some _ _ _ h in
      let (_, _, h) = and_then-some _ _ _ h in
      let (_, _, h) = and_then-some _ _ _ h in
      let (scope, e, h) = and_then-some _ _ _ h in
      subst (λ c. is_valid_scope c.scope ≡ true) (some-injective _ _ h)
        (scope_at-valid payload scope e)

  -- The name of a runtime, once it is parsed, is this one.
  abbrev pub is_runtime : Text → Text → Bool
  is_runtime runtime required = given_name (parse_agent_runtime_name lib required)
    where
      given_name : Option Text → Bool
      given_name none = false
      given_name (some name) = text_eq runtime name

  -- What is behind a capability that a token gives.
  pub record IsAuthorized (key token : Text) (moment : ℕ) (r : Requirement)
      (cap : SessionCapability) : Type 0 where
    pub has_key : is_empty key ≡ false
    pub body : Text
    pub is_signed : token ≡ signed lib key body
    pub is_current : moment < cap.expires_at
    pub has_runtime : meets (is_runtime cap.runtime) r.require_runtime ≡ true
    pub has_scope : meets_scope json lib r cap ≡ true
    pub is_valid : is_valid_scope cap.scope ≡ true

  for_scope-meets :
      (r : Requirement) (found cap : SessionCapability)
      → for_scope json lib r found ≡ ok cap
      → (meets_scope json lib r cap ≡ true) × (found ≡ cap)
  for_scope-meets r found cap h =
      let (m, g) = checked (meets_scope json lib r found) scope_mismatch (ok found) cap h in
      let e = ok-injective found cap g in (subst (λ x. meets_scope json lib r x ≡ true) e m, e)

  if_runtime-is_runtime :
      (runtime required : Text) (o : Outcome SessionCapability) (cap : SessionCapability)
      → if_runtime json lib runtime (parse_agent_runtime_name lib required) o ≡ ok cap
      → (is_runtime runtime required ≡ true) × (o ≡ ok cap)
  if_runtime-is_runtime runtime required o cap h =
      elim (Option-cases (parse_agent_runtime_name lib required)) [
        | inl n ↦ absurd (failure bad_argument cap (rw n at h))
        | inr (name, n) ↦
            let (t, g) = checked (text_eq runtime name) scope_mismatch o cap (rw n at h) in
            (rw n t, g)
      ]

  for_runtime-meets :
      (required : Option Text) (r : Requirement) (found cap : SessionCapability)
      → for_runtime json lib required r found ≡ ok cap
      → (meets (is_runtime cap.runtime) required ≡ true)
        × (meets_scope json lib r cap ≡ true)
        × (found ≡ cap)
  for_runtime-meets none r found cap h = let (m, e) = for_scope-meets r found cap h in (refl, m, e)
  for_runtime-meets (some required) r found cap h =
      let (t, g) =
        if_runtime-is_runtime found.runtime required (for_scope json lib r found) cap h in
      let (m, e) = for_scope-meets r found cap g in
      (subst (λ x. is_runtime x.runtime required ≡ true) e t, m, e)

  accepted :
      (key token : Text) (moment : ℕ) (r : Requirement) (cap : SessionCapability)
      → is_empty key ≡ false
      → (payload : J) → parse_payload json lib key token ≡ ok payload
      → (o : Option SessionCapability) → capability_of json lib token payload ≡ o
      → check_capability json lib moment r o ≡ ok cap
      → IsAuthorized key token moment r cap
  unfolding parse_payload
  accepted key token moment r cap has_key payload p none d h = absurd (failure malformed cap h)
  accepted key token moment r cap has_key payload p (some found) d h =
      let (late, g) = unchecked (leb found.expires_at moment) expired _ cap h in
      let (runtime, scope, e) = for_runtime-meets r.require_runtime r found cap g in
      let (body, j) = signed_of key (split_on b'.' token) payload p in
      record {
        has_key = has_key;
        body = body;
        is_signed = sym (join-split_on b'.' token) ∙ j;
        is_current = subst (λ x. moment < x.expires_at) e (later _ _ late);
        has_runtime = runtime;
        has_scope = scope;
        is_valid =
            subst (λ x. is_valid_scope x.scope ≡ true) e
              (capability_of-valid token payload found d);
      }

  authorized :
      (key token : Text) (moment : ℕ) (r : Requirement) (cap : SessionCapability)
      → is_empty key ≡ false
      → (o : Outcome J) → parse_payload json lib key token ≡ o
      → check_payload json lib token moment r o ≡ ok cap
      → IsAuthorized key token moment r cap
  authorized key token moment r cap has_key (fail e) p h = absurd (failure e cap h)
  authorized key token moment r cap has_key (ok payload) p h =
      accepted key token moment r cap has_key payload p _ refl h

  -- A capability that verification gives comes from a token with a valid signature under the key over
  -- its body; it has not expired; it is for the runtime and meets every requirement that was made;
  -- and its scope is valid: positive ids, a full commit hash, and at least one operation, all of them
  -- read-only tools.
  pub verify_session_capability-IsAuthorized :
      (key token : Text) (moment : ℕ) (r : Requirement) (cap : SessionCapability)
      → verify_session_capability json lib key token moment r ≡ ok cap
      → IsAuthorized key token moment r cap
  unfolding verify_session_capability
  verify_session_capability-IsAuthorized key token moment r cap h =
      let (has_key, g) = unchecked (is_empty key) bad_argument _ cap h in
      authorized key token moment r cap has_key _ refl g
