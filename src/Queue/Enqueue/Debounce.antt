-- ===== src/Queue/Enqueue/Debounce.antt =====
-- The one queued job that scheduling leaves in its scope, and when it becomes available.
use diffuse.Prelude.{
  ℕ, ◌+◌, ◌*◌, ◌≤◌, ◌≡◌, refl, inl, inr, Bool, true, false, ◌&&◌, Option, none, some, List, [], ◌∷◌,
  ◌++◌, Text, text_eq, text_eq_iff, filter, min, All, ◌==◌, arith, Bool-cases, ◌⊎◌,
}
use diffuse.Queue.{Job, review_pull_request, second, superseded, update_where}
use diffuse.Queue.Deliveries.{Db, PullRequestEvent, assign_delivery}
use diffuse.Queue.Enqueue.{
  in_scope, set_over, deadlines, earliest, least_with, due_at, new_job, schedule_review, insert_job,
}

and_false : (a : Bool) → (a && false) ≡ false
and_false true = refl
and_false false = refl

filter-superseded :
    (now : ℕ) (scope : Text) (js js' : List Job)
    → filter (in_scope scope) (update_where (in_scope scope) (set_over now superseded) js ++ js')
      ≡ filter (in_scope scope) js'
filter-superseded now scope [] js' = refl
filter-superseded now scope (j ∷ js) js' = elim (Bool-cases (in_scope scope j)) [
  | inl t ↦ rw (t, and_false (text_eq j.scope_key scope)) (filter-superseded now scope js js')
  | inr t ↦ rw (t, t) (filter-superseded now scope js js')
]

abbrev AtMost : ℕ → Option ℕ → Type 0
AtMost n none = Unit
AtMost n (some u) = n ≤ u

-- The earliest is at most each of the list.
earliest-AtMost : (n : ℕ) (ts : List ℕ) → AtMost n (earliest ts) → All (λ t. n ≤ t) ts
earliest-AtMost n [] h = tt
earliest-AtMost n (t ∷ ts) h = go (earliest ts) h (earliest-AtMost n ts)
  where
    go :
        (o : Option ℕ)
        → AtMost n (elim o [ none ↦ some t | some u ↦ some (min t u) ])
        → (AtMost n o → All (λ t. n ≤ t) ts)
        → (n ≤ t) × All (λ t. n ≤ t) ts
    go none h rest = (h, rest tt)
    go (some u) h rest = (omega arith, rest (omega arith))

-- Without a deadline, or with one, the least is at most both.
least_with-bounds : (t : ℕ) (o : Option ℕ) → (least_with t o ≤ t) × AtMost (least_with t o) o
least_with-bounds t none = (omega arith, tt)
least_with-bounds t (some u) = (omega arith, omega arith)

due_at-bounds :
    (now debounce : ℕ) (pending : List ℕ)
    → (due_at now debounce pending ≤ now + debounce * second)
      × (((debounce ≡ 0) × (due_at now debounce pending ≡ now))
          ⊎ All (λ t. due_at now debounce pending ≤ t) pending)
unfolding due_at
due_at-bounds now debounce pending = elim (Bool-cases (debounce == 0)) [
  | inl z ↦ rw z (omega arith, inl (ground arith, ground arith))
  | inr z ↦ rw z (bounds.0, inr (earliest-AtMost _ pending bounds.1))
]
  where
    bounds :
        (least_with (now + debounce * second) (earliest pending) ≤ now + debounce * second)
        × AtMost (least_with (now + debounce * second) (earliest pending)) (earliest pending)
    bounds = least_with-bounds (now + debounce * second) (earliest pending)

-- After a job is scheduled its scope has exactly one queued job, the new one, for the head commit
-- of the event. It is available after the debounce time at the latest, and never later than a job
-- of the scope that it superseded, unless there is no debounce, when it is available at once.
pub schedule_review-leaves_one :
    (now debounce repository_id pull_id delivery_id : ℕ) (e : PullRequestEvent) (jobs : List Job)
    (db : Db)
    → (j : Job) × (filter
          (in_scope e.scope_key)
          (schedule_review now debounce repository_id pull_id delivery_id e jobs db).0.tables.jobs
        ≡ j ∷ [])
      × ((schedule_review now debounce repository_id pull_id delivery_id e jobs db).1.job_id
          ≡ some j.id)
      × (j.revision ≡ e.head_sha)
      × (j.available_at ≤ now + debounce * second)
      × (((debounce ≡ 0) × (j.available_at ≡ now))
          ⊎ All (λ t. j.available_at ≤ t) (deadlines e.scope_key jobs))
unfolding schedule_review insert_job assign_delivery
schedule_review-leaves_one now debounce repository_id pull_id delivery_id e jobs db =
    (job, alone, refl, refl, bounds.0, bounds.1)
  where
    bounds :
        (due_at now debounce (deadlines e.scope_key jobs) ≤ now + debounce * second)
        × (((debounce ≡ 0) × (due_at now debounce (deadlines e.scope_key jobs) ≡ now))
            ⊎ All
                (λ t. due_at now debounce (deadlines e.scope_key jobs) ≤ t)
                (deadlines e.scope_key jobs))
    bounds = due_at-bounds now debounce (deadlines e.scope_key jobs)

    job : Job
    job =
        new_job db.next_job_id review_pull_request repository_id (some pull_id) e.idempotency_key
          e.scope_key e.base_sha e.head_sha e.payload
          (due_at now debounce (deadlines e.scope_key jobs))

    alone :
        filter
          (in_scope e.scope_key)
          (update_where (in_scope e.scope_key) (set_over now superseded) jobs ++ job ∷ [])
        ≡ job ∷ []
    alone =
        rw
          (
            filter-superseded now e.scope_key jobs (job ∷ []),
            (text_eq_iff e.scope_key e.scope_key).1 refl,
          )
          refl
