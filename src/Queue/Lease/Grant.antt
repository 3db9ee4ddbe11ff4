-- ===== src/Queue/Lease/Grant.antt =====
-- What a claim grants: until the lease runs out its worker can renew it and end the job, and no
-- other worker can.
use diffuse.Prelude.{
  is_some, ℕ, ◌+◌, ◌*◌, ◌<◌, ◌≡◌, refl, inl, inr, Bool, true, false, ◌||◌, Option, none, some, List,
  [], ◌∷◌, Text, text_eq, text_eq_iff, any, All, All-mono, ◌==◌, arith, Bool-cases, Option-cases,
  subst,
}
use diffuse.Queue.{Job, second, update_where, find_where}
use diffuse.Queue.Lease.{
  Tables, Outcome, returned, refused, is_blank, has_id, holds_lease, start_attempt, candidate,
  take_job, sweep, claim_workflow_job, complete_workflow_job, supersede_workflow_job, finish_job,
}
use diffuse.Queue.Lease.Rows.{candidate-All}

any-here : (js : List Job) → All (λ k. any (has_id k.id) js ≡ true) js
any-here [] = tt
any-here (j ∷ js) = (
  ground arith,
  All-mono (λ k. any (has_id k.id) js ≡ true) (λ k. any (has_id k.id) (j ∷ js) ≡ true) js
      (λ k t. ground arith) (any-here js),
)

module _ (now later lease_seconds : ℕ) (worker_id : Text) where
  abbrev started : Job → Job
  started = start_attempt now worker_id lease_seconds

  -- The row that was started is held by the worker.
  holds-started :
      (job_id : ℕ) (js : List Job)
      → later < now + lease_seconds * second
      → any (has_id job_id) js ≡ true
      → is_some (
          find_where (holds_lease later job_id worker_id) (update_where (has_id job_id) started js))
        ≡ true
  holds-started job_id [] lt h = cc
  holds-started job_id (j ∷ js) lt h = elim (Bool-cases (j.id == job_id)) [
    | inl t ↦ rw (t, t, (text_eq_iff worker_id worker_id).1 refl) (ground arith)
    | inr t ↦ rw (t, t) (holds-started job_id js lt (rw t at h))
  ]

  -- No other worker holds it.
  others-started :
      (job_id : ℕ) (other : Text) (js : List Job)
      → text_eq worker_id other ≡ false
      → All
          (λ k. holds_lease later job_id other k ≡ false)
          (update_where (has_id job_id) started js)
  others-started job_id other [] ne = tt
  others-started job_id other (j ∷ js) ne = elim (Bool-cases (j.id == job_id)) [
    | inl t ↦ rw t (ground arith, others-started job_id other js ne)
    | inr t ↦ rw t (rw t refl, others-started job_id other js ne)
  ]

finish_job-true :
    (now job_id : ℕ) (worker_id : Text) (db : Tables)
    → is_some (find_where (holds_lease now job_id worker_id) db.jobs) ≡ true
    → ((complete_workflow_job now job_id worker_id db).1 ≡ true)
      × ((supersede_workflow_job now job_id worker_id db).1 ≡ true)
unfolding complete_workflow_job supersede_workflow_job finish_job
finish_job-true now job_id worker_id db h =
    elim (Option-cases (find_where (holds_lease now job_id worker_id) db.jobs)) [
      | inl o ↦ cc (rw o at h)
      | inr (j, o) ↦ rw o (refl, refl)
    ]

-- What the tables grant to the worker that holds the job.
abbrev pub Granted : ℕ → ℕ → Text → Text → Tables → Type 0
Granted later job_id worker_id other t =
    ((complete_workflow_job later job_id worker_id t).1 ≡ true)
    × ((supersede_workflow_job later job_id worker_id t).1 ≡ true)
    × All (λ k. holds_lease later job_id other k ≡ false) t.jobs

abbrev GrantedTo : ℕ → Text → Text → Tables × Option Job → Type 0
GrantedTo later worker_id other (t, none) = Unit
GrantedTo later worker_id other (t, some j) = Granted later j.id worker_id other t

abbrev IfReturned : {A : Type 0} → (A → Type 0) → Outcome A → Type 0
IfReturned P (returned a) = P a
IfReturned P (refused _) = Unit

take_job-grants :
    (now later lease_seconds : ℕ) (worker_id other : Text) (enabled locked : ℕ → Bool) (db : Tables)
    (o : Option Job)
    → candidate now enabled locked db.jobs ≡ o
    → later < now + lease_seconds * second
    → text_eq worker_id other ≡ false
    → GrantedTo later worker_id other (take_job now worker_id lease_seconds db o)
unfolding take_job
take_job-grants now later lease_seconds worker_id other enabled locked db none e lt ne = tt
take_job-grants now later lease_seconds worker_id other enabled locked db (some j) e lt ne =
    let ended =
      finish_job-true later j.id worker_id (take_job now worker_id lease_seconds db (some j)).0 (
        holds-started now later lease_seconds worker_id j.id db.jobs lt
          (candidate-All (λ k. any (has_id k.id) db.jobs ≡ true) now enabled locked db.jobs {j = j}
            e (any-here db.jobs)).0) in
    (ended.0, ended.1, others-started now later lease_seconds worker_id j.id other db.jobs ne)

claim-grants :
    (now later : ℕ) (enabled locked : ℕ → Bool) (worker_id other : Text)
    (lease_seconds base_delay max_delay : ℕ) (db : Tables)
    → later < now + lease_seconds * second
    → text_eq worker_id other ≡ false
    → IfReturned
        (GrantedTo later worker_id other)
        (claim_workflow_job now enabled locked worker_id lease_seconds base_delay max_delay db)
unfolding claim_workflow_job
claim-grants now later enabled locked worker_id other lease_seconds base_delay max_delay db lt ne =
    elim (Bool-cases (is_blank worker_id)) [
      | inl e ↦ rw e tt
      | inr e ↦ rw e elim (Bool-cases (lease_seconds == 0)) [
        | inl l ↦ rw l tt
        | inr l ↦ rw l elim (Bool-cases (base_delay == 0 || max_delay == 0)) [
          | inl d ↦ rw d tt
          | inr d ↦ rw d (
              take_job-grants now later lease_seconds worker_id other enabled locked
                (sweep now base_delay max_delay db) _ refl lt ne)
        ]
      ]
    ]

-- When a claim returned a job, then until its lease runs out the worker can complete or supersede the
-- job and every other worker holds no lease on it.
pub claim_grants_lease :
    (now later : ℕ) (enabled locked : ℕ → Bool) (worker_id other : Text)
    (lease_seconds base_delay max_delay : ℕ) (db t : Tables) (j : Job)
    → claim_workflow_job now enabled locked worker_id lease_seconds base_delay max_delay db
      ≡ returned (t, some j)
    → later < now + lease_seconds * second
    → text_eq worker_id other ≡ false
    → Granted later j.id worker_id other t
claim_grants_lease now later enabled locked worker_id other lease_seconds base_delay max_delay db t
      j e lt ne =
    subst (IfReturned (GrantedTo later worker_id other)) e (
      claim-grants now later enabled locked worker_id other lease_seconds base_delay max_delay db lt
        ne)
