-- ===== src/Queue/Lease/Holder.antt =====
-- What the tests of the lease and of the claim say of a row.
use mathlib.Core.Option.{some-injective, none-ne-some}
use diffuse.Prelude.{
  ℕ, ◌≡◌, ◌<◌, ◌↔◌, ◌⊎◌, inl, inr, refl, ap, Option, none, some, Text, text_eq_iff, ==_iff, true,
  and_iff, regroup, ltb_iff, false≢true,
}
use diffuse.Queue.{
  Job, Status, queued, running, succeeded, failed, dead, cancelled, superseded, is_queued,
  is_running, is_active, after,
}
use diffuse.Queue.Lease.{holds_lease, is_leased_by}

pub is_running_iff : (s : Status) → (is_running s ≡ true) ↔ (s ≡ running)
is_running_iff queued = (λ h. absurd (false≢true h), λ e. ap is_running e)
is_running_iff running = (λ h. refl, λ e. refl)
is_running_iff succeeded = (λ h. absurd (false≢true h), λ e. ap is_running e)
is_running_iff failed = (λ h. absurd (false≢true h), λ e. ap is_running e)
is_running_iff dead = (λ h. absurd (false≢true h), λ e. ap is_running e)
is_running_iff cancelled = (λ h. absurd (false≢true h), λ e. ap is_running e)
is_running_iff superseded = (λ h. absurd (false≢true h), λ e. ap is_running e)

pub is_queued_iff : (s : Status) → (is_queued s ≡ true) ↔ (s ≡ queued)
is_queued_iff queued = (λ h. refl, λ e. refl)
is_queued_iff running = (λ h. absurd (false≢true h), λ e. ap is_queued e)
is_queued_iff succeeded = (λ h. absurd (false≢true h), λ e. ap is_queued e)
is_queued_iff failed = (λ h. absurd (false≢true h), λ e. ap is_queued e)
is_queued_iff dead = (λ h. absurd (false≢true h), λ e. ap is_queued e)
is_queued_iff cancelled = (λ h. absurd (false≢true h), λ e. ap is_queued e)
is_queued_iff superseded = (λ h. absurd (false≢true h), λ e. ap is_queued e)

pub is_active_iff : (s : Status) → (is_active s ≡ true) ↔ ((s ≡ queued) ⊎ (s ≡ running))
is_active_iff queued = (λ h. inl refl, λ e. refl)
is_active_iff running = (λ h. inr refl, λ e. refl)
is_active_iff succeeded =
    (λ h. absurd (false≢true h), λ e. elim e [ inl x ↦ ap is_active x | inr x ↦ ap is_active x ])
is_active_iff failed =
    (λ h. absurd (false≢true h), λ e. elim e [ inl x ↦ ap is_active x | inr x ↦ ap is_active x ])
is_active_iff dead =
    (λ h. absurd (false≢true h), λ e. elim e [ inl x ↦ ap is_active x | inr x ↦ ap is_active x ])
is_active_iff cancelled =
    (λ h. absurd (false≢true h), λ e. elim e [ inl x ↦ ap is_active x | inr x ↦ ap is_active x ])
is_active_iff superseded =
    (λ h. absurd (false≢true h), λ e. elim e [ inl x ↦ ap is_active x | inr x ↦ ap is_active x ])

is_leased_by_iff :
    (worker_id : Text) (o : Option Text) → (is_leased_by worker_id o ≡ true) ↔ (o ≡ some worker_id)
is_leased_by_iff worker_id none = (λ h. absurd (false≢true h), λ e. absurd (none-ne-some _ e))
is_leased_by_iff worker_id (some w) = (
  λ h. ap some ((text_eq_iff w worker_id).0 h),
  λ e. (text_eq_iff w worker_id).1 (some-injective _ _ e),
)

after_iff : (now : ℕ) (o : Option ℕ) → (after o now ≡ true) ↔ ((t : ℕ) × (o ≡ some t) × (now < t))
after_iff now none = (λ h. absurd (false≢true h), λ (t, e, l). absurd (none-ne-some _ e))
after_iff now (some u) = (
  λ h. (u, refl, (ltb_iff now u).0 h),
  λ (t, e, l). let same : u ≡ t = some-injective _ _ e in (ltb_iff now u).1 (rw same l),
)

-- The row of this id runs, is leased by this worker, and its lease ends later than now.
abbrev pub HasLease : ℕ → ℕ → Text → Job → Type 0
HasLease now job_id worker_id j =
    (j.id ≡ job_id)
    × (j.status ≡ running)
    × (j.leased_by ≡ some worker_id)
    × ((t : ℕ) × (j.lease_expires_at ≡ some t) × (now < t))

pub holds_lease_iff :
    (now job_id : ℕ) (worker_id : Text) (j : Job)
    → (holds_lease now job_id worker_id j ≡ true) ↔ HasLease now job_id worker_id j
holds_lease_iff now job_id worker_id j =
    regroup
      (and_iff
        (and_iff (and_iff (==_iff j.id job_id) (is_running_iff j.status))
          (is_leased_by_iff worker_id j.leased_by))
        (after_iff now j.lease_expires_at))
      (λ (((i, r), w), t). (i, r, w, t)) (λ (i, r, w, t). (((i, r), w), t))
