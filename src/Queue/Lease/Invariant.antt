-- ===== src/Queue/Lease/Invariant.antt =====
-- Every transaction on the leases keeps the invariant of the table.
use diffuse.Prelude.{
  ℕ, ◌+◌, ◌*◌, ◌<◌, ◌≡◌, refl, inl, inr, Bool, true, false, ◌&&◌, ◌||◌, Option, none, some, List,
  [], ◌∷◌, Text, text_eq_iff, any, any-false, All, All-mono, All-zip, All-of, ◌==◌, arith,
  Bool-cases, Option-cases, ap,
}
use diffuse.Queue.{
  Job, Status, succeeded, superseded, is_queued, is_running, is_active, update_where, find_where,
  second,
}
use diffuse.Queue.Lease.{
  Tables, Outcome, returned, refused, expire_job, expire_jobs, sweep, candidate, start_attempt,
  has_id, take_job, claim_workflow_job, holds_lease, heartbeat_workflow_job, end_job,
  complete_workflow_job, supersede_workflow_job, fail_job, fail_workflow_job, same_scope, is_blank,
  is_error_code,
}
use diffuse.Queue.Lease.Rows.{
  IsConsistent, Increasing, Exclusive, clash, IsSound, IsSoundAt, IsSound-map, map_jobs,
  where_changed, update_where-map, unique_rows, candidate-All, Increasing-map, ahead-map,
  update-IsSound, find_where-All,
}

expire_jobs-map :
    (now base_delay max_delay : ℕ) (js : List Job)
    → expire_jobs now base_delay max_delay js ≡ map_jobs (expire_job now base_delay max_delay) js
unfolding expire_jobs
expire_jobs-map now base_delay max_delay [] = refl
expire_jobs-map now base_delay max_delay (j ∷ js) = rw (expire_jobs-map now base_delay max_delay js)

expire_job-IsSoundAt :
    (now base_delay max_delay : ℕ) (j : Job) → IsSoundAt (expire_job now base_delay max_delay) j
unfolding expire_job
expire_job-IsSoundAt now base_delay max_delay j = record {
  settles = ground arith;
  stays = λ h. ground arith;
}

pub expire_jobs-IsSound :
    {n : ℕ} (now base_delay max_delay : ℕ) (js : List Job)
    → IsSound n js
    → IsSound n (expire_jobs now base_delay max_delay js)
expire_jobs-IsSound now base_delay max_delay js h = rw expire_jobs-map (
    IsSound-map (expire_job now base_delay max_delay) js
      (λ k. ground (arith, expire_job-IsSoundAt now base_delay max_delay k))
      (All-of (IsSoundAt (expire_job now base_delay max_delay)) js
        (expire_job-IsSoundAt now base_delay max_delay))
      h)

-- The rows of a table in which `j` may start.
abbrev Admits : Job → Job → Type 0
Admits j k = (k.id ≡ j.id → k ≡ j) × (same_scope k j && is_running k.status ≡ false)

module _ (now : ℕ) (worker_id : Text) (lease_seconds : ℕ) (j : Job) where
  abbrev started : Job → Job
  started = where_changed (has_id j.id) (start_attempt now worker_id lease_seconds)

  started-clash :
      (i k : Job)
      → i.id < k.id
      → Admits j i
      → Admits j k
      → clash i k ≡ false
      → clash (started i) (started k) ≡ false
  started-clash i k lt ai ak h =
      let si : i.id ≡ j.id → i.scope_key ≡ j.scope_key =
        λ e. ap (λ (x : Job). x.scope_key) (ai.0 e) in
      let sk : k.id ≡ j.id → k.scope_key ≡ j.scope_key =
        λ e. ap (λ (x : Job). x.scope_key) (ak.0 e) in
      let fi = ai.1 in
      let fk = ak.1 in
      elim (Bool-cases (k.id == j.id)) [
        | inl ek ↦ rw ek (
            ground
              (arith, text_eq_iff i.scope_key k.scope_key, text_eq_iff i.scope_key j.scope_key))
        | inr ek ↦ rw ek (
            ground
              (arith, text_eq_iff i.scope_key k.scope_key, text_eq_iff k.scope_key j.scope_key))
      ]

  started-clashes :
      (i : Job) (js : List Job)
      → All (λ k. i.id < k.id) js
      → Admits j i
      → All (Admits j) js
      → All (λ k. clash i k ≡ false) js
      → All (λ k. clash (started i) k ≡ false) (map_jobs started js)
  started-clashes i [] lt ai ak h = tt
  started-clashes i (k ∷ js) lt ai ak h =
      (started-clash i k lt.0 ai ak.0 h.0, started-clashes i js lt.1 ai ak.1 h.1)

  started-Exclusive :
      (js : List Job)
      → Increasing js
      → All (Admits j) js
      → Exclusive js
      → Exclusive (map_jobs started js)
  started-Exclusive [] lt a h = tt
  started-Exclusive (i ∷ js) lt a h =
      (started-clashes i js lt.0 a.0 a.1 h.0, started-Exclusive js lt.1 a.1 h.1)

  started-row :
      (k : Job) → is_queued j.status ≡ true → Admits j k → IsConsistent k → IsConsistent (started k)
  started-row k q a h =
      let same : k.id ≡ j.id → k.status ≡ j.status = λ e. ap (λ (x : Job). x.status) (a.0 e) in
      elim (Bool-cases (k.id == j.id)) [
        | inl e ↦
            let waiting : is_queued k.status ≡ true = ground (arith, same) in
            let room = h.room_to_retry waiting in
            rw e (record {
              leased_iff_running = refl;
              expiry_iff_running = refl;
              completed_iff_over = ground arith;
              attempts_capped = omega arith;
              room_to_retry = λ c. cc;
            })
        | inr e ↦ rw e h
      ]

  started-IsConsistent :
      (js : List Job)
      → is_queued j.status ≡ true
      → All (Admits j) js
      → All IsConsistent js
      → All IsConsistent (map_jobs started js)
  started-IsConsistent [] q a h = tt
  started-IsConsistent (k ∷ js) q a h = (started-row k q a.0 h.0, started-IsConsistent js q a.1 h.1)

admitted :
    (js : List Job) (j : Job)
    → All (λ i. i.id ≡ j.id → i ≡ j) js
    → any (λ r. same_scope r j && is_running r.status) js ≡ false
    → All (Admits j) js
admitted js j u free =
    All-zip (λ k. k.id ≡ j.id → k ≡ j) (λ k. same_scope k j && is_running k.status ≡ false) js u
      (any-false (λ r. same_scope r j && is_running r.status) js free)

-- Starting a claimable row keeps the invariant.
start-IsSound :
    {n : ℕ} (now : ℕ) (enabled locked : ℕ → Bool) (worker_id : Text) (lease_seconds : ℕ)
    (js : List Job) (j : Job)
    → candidate now enabled locked js ≡ some j
    → IsSound n js
    → IsSound n (update_where (has_id j.id) (start_attempt now worker_id lease_seconds) js)
start-IsSound {n} now enabled locked worker_id lease_seconds js j e h =
    let (u, c) =
      candidate-All (λ k. All (λ i. i.id ≡ k.id → i ≡ k) js) now enabled locked js e
        (unique_rows js h.increasing) in
    let free : any (λ r. same_scope r j && is_running r.status) js ≡ false = ground arith in
    let waiting : is_queued j.status ≡ true = ground arith in
    let open_to = admitted js j u free in
    rw update_where-map (record {
      ahead = ahead-map n (started now worker_id lease_seconds j) js (λ k. ground arith) h.ahead;
      consistent =
          started-IsConsistent now worker_id lease_seconds j js waiting open_to h.consistent;
      increasing =
          Increasing-map (started now worker_id lease_seconds j) js (λ k. ground arith)
            h.increasing;
      exclusive =
          started-Exclusive now worker_id lease_seconds j js h.increasing open_to h.exclusive;
    })

take_job-IsSound :
    {n : ℕ} (now : ℕ) (enabled locked : ℕ → Bool) (worker_id : Text) (lease_seconds : ℕ)
    (db : Tables) (o : Option Job)
    → candidate now enabled locked db.jobs ≡ o
    → IsSound n db.jobs
    → IsSound n (take_job now worker_id lease_seconds db o).0.jobs
unfolding take_job
take_job-IsSound now enabled locked worker_id lease_seconds db none e h = h
take_job-IsSound now enabled locked worker_id lease_seconds db (some j) e h =
    start-IsSound now enabled locked worker_id lease_seconds db.jobs j e h

-- The table that an operation leaves, which is the old one if it is refused.
abbrev pub jobs_after {ℓ} : {A : Type ℓ} → Tables → Outcome (Tables × A) → List Job
jobs_after db (returned (t, _)) = t.jobs
jobs_after db (refused _) = db.jobs

pub claim-IsSound :
    {n : ℕ} (now : ℕ) (enabled locked : ℕ → Bool) (worker_id : Text)
    (lease_seconds base_delay max_delay : ℕ) (db : Tables)
    → IsSound n db.jobs
    → IsSound n (
        jobs_after db
          (claim_workflow_job now enabled locked worker_id lease_seconds base_delay max_delay db))
unfolding claim_workflow_job
claim-IsSound now enabled locked worker_id lease_seconds base_delay max_delay db h =
    elim (Bool-cases (is_blank worker_id)) [
      | inl e ↦ rw e h
      | inr e ↦ rw e elim (Bool-cases (lease_seconds == 0)) [
        | inl l ↦ rw l h
        | inr l ↦ rw l elim (Bool-cases (base_delay == 0 || max_delay == 0)) [
          | inl d ↦ rw d h
          | inr d ↦ rw d (
              take_job-IsSound now enabled locked worker_id lease_seconds
                (sweep now base_delay max_delay db) _ refl
                (unfold sweep in expire_jobs-IsSound now base_delay max_delay db.jobs h))
        ]
      ]
    ]

pub heartbeat-IsSound :
    {n : ℕ} (now job_id : ℕ) (worker_id : Text) (lease_seconds : ℕ) (db : Tables)
    → IsSound n db.jobs
    → IsSound n (jobs_after db (heartbeat_workflow_job now job_id worker_id lease_seconds db))
unfolding heartbeat_workflow_job
heartbeat-IsSound now job_id worker_id lease_seconds db h = elim (Bool-cases (lease_seconds == 0)) [
  | inl e ↦ rw e h
  | inr e ↦ rw e (
      update-IsSound (holds_lease now job_id worker_id)
        (λ j. record j { lease_expires_at = some (now + lease_seconds * second) }) db.jobs
        (λ k. refl)
        (All-of _ db.jobs (λ k t. record {
          settles = record { same_id = refl; keeps_scope = refl; starts_none = λ r. r };
          stays = λ c. ground arith;
        }))
        h)
]

-- Ending a job in a status that is over.
finish-IsSound :
    {n : ℕ} (now job_id : ℕ) (worker_id : Text) (ending : Status) (js : List Job)
    → is_active ending ≡ false
    → IsSound n js
    → IsSound n (update_where (holds_lease now job_id worker_id) (end_job now ending) js)
finish-IsSound now job_id worker_id ending js over h =
    update-IsSound (holds_lease now job_id worker_id) (end_job now ending) js (λ k. refl)
      (All-of _ js (λ k t. record {
        settles = record { same_id = refl; keeps_scope = refl; starts_none = ground arith };
        stays = λ c. ground arith;
      }))
      h

pub complete-IsSound :
    {n : ℕ} (now job_id : ℕ) (worker_id : Text) (db : Tables)
    → IsSound n db.jobs
    → IsSound n (complete_workflow_job now job_id worker_id db).0.jobs
unfolding complete_workflow_job
complete-IsSound now job_id worker_id db h =
    elim (Option-cases (find_where (holds_lease now job_id worker_id) db.jobs)) [
      | inl e ↦ rw e h
      | inr (j, e) ↦ rw e (finish-IsSound now job_id worker_id succeeded db.jobs refl h)
    ]

pub supersede-IsSound :
    {n : ℕ} (now job_id : ℕ) (worker_id : Text) (db : Tables)
    → IsSound n db.jobs
    → IsSound n (supersede_workflow_job now job_id worker_id db).0.jobs
unfolding supersede_workflow_job
supersede-IsSound now job_id worker_id db h =
    elim (Option-cases (find_where (holds_lease now job_id worker_id) db.jobs)) [
      | inl e ↦ rw e h
      | inr (j, e) ↦ rw e (finish-IsSound now job_id worker_id superseded db.jobs refl h)
    ]

-- The row that failed, seen by the update: it is the only one with its id, and it runs.
fail_job-IsSoundAt :
    (now job_id : ℕ) (worker_id error_code : Text) (retryable : Bool) (base_delay max_delay : ℕ)
    (j k : Job)
    → holds_lease now job_id worker_id j ≡ true
    → (k.id ≡ j.id → k ≡ j)
    → has_id job_id k ≡ true
    → IsSoundAt (fail_job now error_code retryable base_delay max_delay j) k
unfolding fail_job
fail_job-IsSoundAt now job_id worker_id error_code retryable base_delay max_delay j k t u i =
    let same : k ≡ j = u (ground arith) in
    let runs : is_running k.status ≡ true = rw same (ground arith) in
    let room : k.max_attempts ≡ j.max_attempts = ap (λ (x : Job). x.max_attempts) same in
    let count : k.attempt_count ≡ j.attempt_count = ap (λ (x : Job). x.attempt_count) same in
    record {
      settles = record { same_id = refl; keeps_scope = refl; starts_none = λ s. runs };
      stays = λ c. ground arith;
    }

pub fail-IsSound :
    {n : ℕ} (now job_id : ℕ) (worker_id error_code : Text) (retryable : Bool)
    (base_delay max_delay : ℕ) (db : Tables)
    → IsSound n db.jobs
    → IsSound n (
        jobs_after db
          (fail_workflow_job now job_id worker_id error_code retryable base_delay max_delay db))
unfolding fail_workflow_job
fail-IsSound now job_id worker_id error_code retryable base_delay max_delay db h =
    elim (Bool-cases (is_error_code error_code)) [
      | inr e ↦ rw e h
      | inl e ↦ rw e elim (Bool-cases (base_delay == 0 || max_delay == 0)) [
        | inl d ↦ rw d h
        | inr d ↦ rw d elim (Option-cases (find_where (holds_lease now job_id worker_id) db.jobs)) [
          | inl o ↦ rw o h
          | inr (j, o) ↦ rw o (
              let (u, t) =
                find_where-All (λ k. All (λ i. i.id ≡ k.id → i ≡ k) db.jobs)
                  (holds_lease now job_id worker_id) db.jobs o (unique_rows db.jobs h.increasing) in
              update-IsSound (has_id job_id)
                (fail_job now error_code retryable base_delay max_delay j) db.jobs
                (λ k. unfold fail_job in refl)
                (All-mono (λ k. k.id ≡ j.id → k ≡ j) _ db.jobs
                  (λ k u'.
                    fail_job-IsSoundAt now job_id worker_id error_code retryable base_delay
                      max_delay j k t u')
                  u)
                h)
        ]
      ]
    ]
