-- ===== src/Queue/Current/Ends.antt =====
-- When the work on a job is wanted, and that it no longer is once the job ended.
use diffuse.Prelude.{
  ℕ, ◌≡◌, ◌⊎◌, refl, inl, inr, sym, ◌∙◌, Bool, true, false, ◌&&◌, some, List, [], ◌∷◌, Text, any,
  Any, All, arith, Bool-cases, false≢true,
}
use diffuse.Queue.{Job, Status, succeeded, superseded, update_where, find_where}
use diffuse.Queue.Lease.{
  Tables, holds_lease, end_job, complete_workflow_job, supersede_workflow_job,
  workflow_job_is_latest,
}
use diffuse.Queue.Lease.Ownership.{any-find_where}
use diffuse.Queue.Deliveries.{PullRequest}
use diffuse.Queue.Current.{IsWanted, workflow_job_is_current, workflow_job_is_current_iff}

any-implies :
    (p q : Job → Bool) (js : List Job)
    → ((j : Job) → p j ≡ true → q j ≡ true)
    → any p js ≡ true
    → any q js ≡ true
any-implies p q [] f h = h
any-implies p q (j ∷ js) f h = elim (Bool-cases (p j)) [
  | inl t ↦ rw (f j t) refl
  | inr t ↦ ground (arith, any-implies p q js f (rw t at h))
]

any-none :
    (p q : Job → Bool) (js : List Job)
    → ((j : Job) → p j ≡ true → q j ≡ true)
    → All (λ j. q j ≡ false) js
    → any p js ≡ false
any-none p q [] f h = refl
any-none p q (j ∷ js) f h = elim (Bool-cases (p j)) [
  | inl t ↦ absurd (false≢true (sym h.0 ∙ f j t))
  | inr t ↦ rw t (any-none p q js f h.1)
]

module _ (now : ℕ) (enabled : ℕ → Bool) (job_id : ℕ) (worker_id : Text) (db : Tables)
    (pulls : List PullRequest) where
  -- No row that was ended has the lease.
  ended-holds_lease :
      (ending : Status) (js : List Job)
      → All
          (λ j. holds_lease now job_id worker_id j ≡ false)
          (update_where (holds_lease now job_id worker_id) (end_job now ending) js)
  ended-holds_lease ending [] = tt
  ended-holds_lease ending (j ∷ js) = elim (Bool-cases (holds_lease now job_id worker_id j)) [
    | inl t ↦ rw t (never _, ended-holds_lease ending js)
    | inr t ↦ rw t (t, ended-holds_lease ending js)
  ]
    where
      never : (b : Bool) → (b && false) ≡ false
      never true = refl
      never false = refl

  current_without_lease :
      (jobs : List Job)
      → All (λ j. holds_lease now job_id worker_id j ≡ false) jobs
      → workflow_job_is_current now enabled job_id worker_id jobs pulls ≡ false
  unfolding workflow_job_is_current
  current_without_lease jobs h =
      any-none _ (holds_lease now job_id worker_id) jobs (λ j t. ground arith) h

  current_is_held :
      workflow_job_is_current now enabled job_id worker_id db.jobs pulls ≡ true
      → (j : Job) × (find_where (holds_lease now job_id worker_id) db.jobs ≡ some j)
  unfolding workflow_job_is_current
  current_is_held h =
      any-find_where (holds_lease now job_id worker_id) db.jobs
        (any-implies _ (holds_lease now job_id worker_id) db.jobs (λ j t. ground arith) h)

  current_is_latest :
      workflow_job_is_current now enabled job_id worker_id db.jobs pulls ≡ true
      → workflow_job_is_latest now enabled job_id worker_id db.jobs ≡ true
  unfolding workflow_job_is_current workflow_job_is_latest
  current_is_latest h = any-implies _ _ db.jobs (λ j t. ground arith) h

  -- The work on a job is wanted exactly if some row of the table has this id, runs, is leased by this
  -- worker until after now, has an enabled repository, a pull request that is stored as open with the
  -- base and the head that this same row is for, and no later job of its scope is queued or runs. Then
  -- it is also the latest of its scope, the worker can complete or supersede it, and after either its
  -- work is no longer wanted.
  pub workflow_job_is_current_decides :
      ((workflow_job_is_current now enabled job_id worker_id db.jobs pulls ≡ true)
        × Any (IsWanted now enabled job_id worker_id db.jobs pulls) db.jobs
        × (workflow_job_is_latest now enabled job_id worker_id db.jobs ≡ true)
        × ((complete_workflow_job now job_id worker_id db).1 ≡ true)
        × ((supersede_workflow_job now job_id worker_id db).1 ≡ true)
        × (workflow_job_is_current now enabled job_id worker_id
              (complete_workflow_job now job_id worker_id db).0.jobs
              pulls
            ≡ false)
        × (workflow_job_is_current now enabled job_id worker_id
              (supersede_workflow_job now job_id worker_id db).0.jobs
              pulls
            ≡ false))
      ⊎ ((workflow_job_is_current now enabled job_id worker_id db.jobs pulls ≡ false)
          × (¬ Any (IsWanted now enabled job_id worker_id db.jobs pulls) db.jobs))
  unfolding complete_workflow_job supersede_workflow_job
  workflow_job_is_current_decides =
      let wanted = workflow_job_is_current_iff now enabled job_id worker_id db.jobs pulls in
      elim (Bool-cases (workflow_job_is_current now enabled job_id worker_id db.jobs pulls)) [
        | inl t ↦
            let (j, f) = current_is_held t in
            inl (
              t,
              wanted.0 t,
              current_is_latest t,
              rw f refl,
              rw f refl,
              rw f (current_without_lease _ (ended-holds_lease succeeded db.jobs)),
              rw f (current_without_lease _ (ended-holds_lease superseded db.jobs)),
            )
        | inr t ↦ inr (t, λ h. false≢true (sym t ∙ wanted.1 h))
      ]
