-- ===== src/Queue/Lease/Ownership.antt =====
-- Only the holder of a live lease can renew it or end the job.
use diffuse.Prelude.{
  ℕ, ◌+◌, ◌*◌, ◌≡◌, refl, Bool, true, false, ◌||◌, none, some, List, [], ◌∷◌, Text, All, Any, any,
  any-false, any_iff, ap, ◌==◌, ◌⊎◌, inl, inr, Bool-cases, false≢true, sym, ◌∙◌,
}
use diffuse.Queue.Lease.Holder.{HasLease, holds_lease_iff}
use diffuse.Queue.{Job, Status, second, update_where, find_where}
use diffuse.Queue.Lease.{
  Tables, returned, holds_lease, heartbeat_workflow_job, complete_workflow_job,
  supersede_workflow_job, fail_workflow_job, is_error_code, fail_found, next_status,
}

find_where-none :
    (test : Job → Bool) (js : List Job) → All (λ j. test j ≡ false) js → find_where test js ≡ none
find_where-none test [] h = refl
find_where-none test (j ∷ js) h = rw h.0 (find_where-none test js h.1)

update_where-none :
    (test : Job → Bool) (change : Job → Job) (js : List Job)
    → All (λ j. test j ≡ false) js
    → update_where test change js ≡ js
update_where-none test change [] h = refl
update_where-none test change (j ∷ js) h =
    rw h.0 (ap (λ r. j ∷ r) (update_where-none test change js h.1))

pub any-find_where :
    (test : Job → Bool) (js : List Job)
    → any test js ≡ true
    → ((j : Job) × (find_where test js ≡ some j))
any-find_where test [] h = absurd (false≢true h)
any-find_where test (j ∷ js) h = elim (Bool-cases (test j)) [
  | inl t ↦ (j, rw t refl)
  | inr t ↦ let (k, e) = any-find_where test js (rw t at h) in (k, rw t e)
]

module _ (now job_id : ℕ) (worker_id : Text) (db : Tables) where
  -- Some row of the table has the worker's lease.
  abbrev pub IsHeld : Type 0
  IsHeld = Any (HasLease now job_id worker_id) db.jobs

  lease_cases :
      (((j : Job) × (find_where (holds_lease now job_id worker_id) db.jobs ≡ some j)) × IsHeld)
      ⊎ (All (λ j. holds_lease now job_id worker_id j ≡ false) db.jobs × (¬ IsHeld))
  lease_cases =
      let held =
        any_iff (holds_lease now job_id worker_id) _ db.jobs
          (λ j. holds_lease_iff now job_id worker_id j) in
      elim (Bool-cases (any (holds_lease now job_id worker_id) db.jobs)) [
        | inl t ↦ inl (any-find_where (holds_lease now job_id worker_id) db.jobs t, held.0 t)
        | inr t ↦ inr (
          any-false (holds_lease now job_id worker_id) db.jobs t,
          λ h. false≢true (sym t ∙ held.1 h),
        )
      ]

  -- Completing, superseding, failing and renewing report success exactly if the table has a row of
  -- this id that runs, is leased by this worker and whose lease ends later than now. Without such a row
  -- they leave both tables as they are. The arguments that are checked first are valid: the error
  -- code, the delays and the length of the lease.
  pub lease_decides :
      (error_code : Text) (retryable : Bool) (base_delay max_delay lease_seconds : ℕ)
      → is_error_code error_code ≡ true
      → base_delay == 0 || max_delay == 0 ≡ false
      → lease_seconds == 0 ≡ false
      → (IsHeld
          × ((complete_workflow_job now job_id worker_id db).1 ≡ true)
          × ((supersede_workflow_job now job_id worker_id db).1 ≡ true)
          × ((t : Tables) × (s : Status) × (fail_workflow_job now job_id worker_id error_code
                  retryable base_delay max_delay db
                ≡ returned (t, some s)))
          × ((t : Tables) × (heartbeat_workflow_job now job_id worker_id lease_seconds db
                ≡ returned (t, true))))
        ⊎ ((¬ IsHeld)
            × (complete_workflow_job now job_id worker_id db ≡ (db, false))
            × (supersede_workflow_job now job_id worker_id db ≡ (db, false))
            × (fail_workflow_job now job_id worker_id error_code retryable base_delay max_delay db
                ≡ returned (db, none))
            × (heartbeat_workflow_job now job_id worker_id lease_seconds db ≡ returned (db, false)))
  unfolding complete_workflow_job supersede_workflow_job fail_workflow_job heartbeat_workflow_job
  lease_decides error_code retryable base_delay max_delay lease_seconds code delays lease =
      elim lease_cases [
        | inl ((j, f), held) ↦ inl (
          held,
          rw f refl,
          rw f refl,
          (
            (fail_found now job_id error_code retryable base_delay max_delay db (some j)).0,
            next_status retryable j,
            rw code (rw delays (rw f refl)),
          ),
          (
            record db {
              jobs =
                  update_where (holds_lease now job_id worker_id)
                    (λ k. record k { lease_expires_at = some (now + lease_seconds * second) })
                    db.jobs;
            },
            rw lease (rw f refl),
          ),
        )
        | inr (h, free) ↦
            let f = find_where-none (holds_lease now job_id worker_id) db.jobs h in
            inr (
              free,
              rw f,
              rw f,
              rw code (rw delays (rw f)),
              rw lease
                  (rw f (rw (update_where-none (holds_lease now job_id worker_id) _ db.jobs h))),
            )
      ]
