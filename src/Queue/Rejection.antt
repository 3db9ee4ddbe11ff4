-- ===== src/Queue/Rejection.antt =====
-- workflow.py, lines 205 to 259: webhooks of repositories that are not onboarded are counted.
use diffuse.Prelude.{
  ℕ, ◌+◌, ◌≡◌, refl, inl, inr, Bool, true, false, not, ◌&&◌, Option, none, some, List, [], ◌∷◌,
  ◌++◌, Text, codes, text_eq, text_eq_iff, any, length, leb, if◌then◌else◌, arith, Bool-cases, sym,
  ◌∙◌, false≢true, ◌⊎◌,
}
use diffuse.Queue.{update_where, find_where}
use diffuse.Queue.Deliveries.{DeliveryKey, same_key}
use diffuse.Queue.Enqueue.Redelivery.{same_key_refl}

-- A row of scm_webhook_rejections.
pub record Rejection : Type 0 where
  pub key : DeliveryKey
  pub event_name : Text
  pub repo_full_name : Text
  pub reason : Text
  pub attempts : ℕ
  pub first_seen_at : ℕ
  pub last_seen_at : ℕ

abbrev pub is_rejection : DeliveryKey → Rejection → Bool
is_rejection key r = same_key r.key key

abbrev seen_again : ℕ → Text → Rejection → Rejection
seen_again now reason r = record r {
  attempts = r.attempts + 1;
  last_seen_at = now;
  reason = reason;
}

-- `1 <= len(text) <= limit`
abbrev has_length : ℕ → Text → Bool
has_length limit text = leb 1 (length text) && leb (length text) limit

-- the checks in front of the statement
abbrev is_acceptable : DeliveryKey → Text → Text → Text → Bool
is_acceptable key event_name repo_full_name reason =
    text_eq key.provider (codes "github")
    && text_eq reason (codes "repository_not_onboarded")
    && has_length 255 key.delivery_id
    && has_length 100 event_name
    && has_length 255 repo_full_name

-- `record_webhook_rejection`; `none` where it raises.
unfoldable pub record_webhook_rejection :
    ℕ → DeliveryKey → Text → Text → Text → List Rejection → Option (List Rejection)
record_webhook_rejection now key event_name repo_full_name reason rows =
    if not (is_acceptable key event_name repo_full_name reason)
    then none
    else if any (is_rejection key) rows
    then some (update_where (is_rejection key) (seen_again now reason) rows)
    else some (
        rows
        ++ record {
          key = key;
          event_name = event_name;
          repo_full_name = repo_full_name;
          reason = reason;
          attempts = 1;
          first_seen_at = now;
          last_seen_at = now;
        }
          ∷ [])

-- How often a delivery was rejected.
abbrev pub attempts_of : DeliveryKey → List Rejection → ℕ
attempts_of key rows = elim (find_where (is_rejection key) rows) [ none ↦ 0 | some r ↦ r.attempts ]

-- Rows of one key, looked for under another.
same_key_swap :
    (k key other : DeliveryKey)
    → same_key other key ≡ false
    → same_key k other ≡ true
    → same_key k key ≡ false
same_key_swap k key other ne t =
    let p : k.provider ≡ other.provider = (text_eq_iff _ _).0 (ground arith) in
    let b : k.scm_base_url ≡ other.scm_base_url = (text_eq_iff _ _).0 (ground arith) in
    let d : k.delivery_id ≡ other.delivery_id = (text_eq_iff _ _).0 (ground arith) in
    rw (p, b, d) ne

same_key_sym : (key other : DeliveryKey) → same_key other key ≡ false → same_key key other ≡ false
same_key_sym key other ne = elim (Bool-cases (same_key key other)) [
  | inl t ↦ absurd (false≢true (sym (same_key_swap key key other ne t) ∙ same_key_refl key))
  | inr t ↦ t
]

attempts_again :
    (now : ℕ) (key : DeliveryKey) (reason : Text) (rows : List Rejection)
    → any (is_rejection key) rows ≡ true
    → attempts_of key (update_where (is_rejection key) (seen_again now reason) rows)
      ≡ attempts_of key rows + 1
attempts_again now key reason [] h = cc
attempts_again now key reason (r ∷ rows) h = elim (Bool-cases (is_rejection key r)) [
  | inl t ↦ rw (t, attempts_of, t) refl
  | inr t ↦ rw (t, attempts_of, t) (attempts_again now key reason rows (rw t at h))
]

attempts_kept :
    (now : ℕ) (key other : DeliveryKey) (reason : Text) (rows : List Rejection)
    → same_key other key ≡ false
    → attempts_of other (update_where (is_rejection key) (seen_again now reason) rows)
      ≡ attempts_of other rows
attempts_kept now key other reason [] ne = refl
attempts_kept now key other reason (r ∷ rows) ne = elim (Bool-cases (is_rejection other r)) [
  | inl t ↦ rw (same_key_swap r.key key other ne t, attempts_of, t) refl
  | inr t ↦ elim (Bool-cases (is_rejection key r)) [
    | inl u ↦ rw (u, attempts_of, t) (attempts_kept now key other reason rows ne)
    | inr u ↦ rw (u, attempts_of, t) (attempts_kept now key other reason rows ne)
  ]
]

attempts_append :
    (key : DeliveryKey) (rows : List Rejection) (r : Rejection)
    → attempts_of key (rows ++ r ∷ []) ≡ (
        if any (is_rejection key) rows
        then attempts_of key rows
        else if is_rejection key r
        then r.attempts
        else 0)
attempts_append key [] r = elim (Bool-cases (is_rejection key r)) [
  | inl t ↦ rw (attempts_of, t) refl
  | inr t ↦ rw (attempts_of, t) refl
]
attempts_append key (x ∷ rows) r = elim (Bool-cases (is_rejection key x)) [
  | inl t ↦ rw (attempts_of, t) refl
  | inr t ↦ rw (attempts_of, t) (attempts_append key rows r)
]

attempts_none :
    (key : DeliveryKey) (rows : List Rejection)
    → any (is_rejection key) rows ≡ false
    → attempts_of key rows ≡ 0
attempts_none key [] h = refl
attempts_none key (r ∷ rows) h = elim (Bool-cases (is_rejection key r)) [
  | inl t ↦ cc (rw t at h)
  | inr t ↦ rw (attempts_of, t) (attempts_none key rows (rw t at h))
]

-- What a recorded rejection leaves: one attempt more for its delivery, and as many as before for
-- every other delivery.
abbrev pub Counts : DeliveryKey → DeliveryKey → List Rejection → Option (List Rejection) → Type 0
Counts key other rows none = Unit
Counts key other rows (some rows') =
    (attempts_of key rows' ≡ attempts_of key rows + 1)
    × (attempts_of other rows' ≡ attempts_of other rows)

-- A rejection that is recorded adds one attempt to its delivery and none to another delivery,
-- whether or not the delivery was rejected before.
pub record_webhook_rejection-Counts :
    (now : ℕ) (key other : DeliveryKey) (event_name repo_full_name reason : Text)
    (rows : List Rejection)
    → same_key other key ≡ false
    → Counts key other rows (record_webhook_rejection now key event_name repo_full_name reason rows)
unfolding record_webhook_rejection
record_webhook_rejection-Counts now key other event_name repo_full_name reason rows ne =
    elim (Bool-cases (is_acceptable key event_name repo_full_name reason)) [
      | inr a ↦ rw a tt
      | inl a ↦ rw a elim (Bool-cases (any (is_rejection key) rows)) [
        | inl t ↦
            rw t (attempts_again now key reason rows t, attempts_kept now key other reason rows ne)
        | inr t ↦ rw t (
          rw (attempts_append key rows row, t, same_key_refl key, attempts_none key rows t) refl,
          others (Bool-cases (any (is_rejection other) rows)),
        )
      ]
    ]
  where
    row : Rejection
    row = record {
      key = key;
      event_name = event_name;
      repo_full_name = repo_full_name;
      reason = reason;
      attempts = 1;
      first_seen_at = now;
      last_seen_at = now;
    }

    others :
        ((any (is_rejection other) rows ≡ true) ⊎ (any (is_rejection other) rows ≡ false))
        → attempts_of other (rows ++ row ∷ []) ≡ attempts_of other rows
    others (inl t) = rw (attempts_append other rows row, t) refl
    others (inr t) =
        rw
          (attempts_append other rows row, t, same_key_sym key other ne, attempts_none other rows t)
          refl
