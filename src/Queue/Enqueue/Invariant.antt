-- ===== src/Queue/Enqueue/Invariant.antt =====
-- Enqueueing keeps the invariant of the table of jobs.
use diffuse.Prelude.{
  ℕ, ◌+◌, ◌<◌, ◌≡◌, refl, inl, inr, false, not, ◌&&◌, Option, none, some, List, [], ◌∷◌, ◌++◌, Text,
  text_eq, any, All, All-of, All-append, All-mono, ltb, ◌==◌, arith, Bool-cases,
}
use diffuse.Queue.{
  Job, Status, review_pull_request, cancelled, superseded, is_active, is_running, update_where,
  find_where, is_terminal_failure,
}
use diffuse.Queue.Lease.Rows.{IsConsistent, Increasing, Exclusive, clash, IsSound, update-IsSound}
use diffuse.Queue.Deliveries.{
  Db, Delivery, PullRequest, PullRequestEvent, PullState, open_pull, closed_pull, merged_pull,
  Repository, EnqueueResult, Result, ok, err, ◌>>=◌, assign_delivery, is_sha256,
}
use diffuse.Queue.Pulls.{record_lifecycle, refresh_pull, insert_pull, fill_created}
use diffuse.Queue.Enqueue.{
  retire_terminal_job, retire, retired_key, in_scope, set_over, deadlines, due_at, new_job,
  schedule_review, debounce_for, holds_key, enqueue_revision, cancel_queued, after_upsert,
  admit_pull, admit_review, enqueue_review_event, is_automatic, is_delivery, admit_delivery,
  place_job,
}

-- The table is sound, its sequence included.
abbrev pub IsReady : Db → Type 0
IsReady db = IsSound db.next_job_id db.tables.jobs

Increasing-append :
    (js : List Job) (j : Job)
    → Increasing js
    → All (λ k. k.id < j.id) js
    → Increasing (js ++ j ∷ [])
Increasing-append [] j h a = (tt, tt)
Increasing-append (k ∷ js) j h a =
    (All-append (λ i. k.id < i.id) js (j ∷ []) h.0 (a.0, tt), Increasing-append js j h.1 a.1)

Exclusive-append :
    (js : List Job) (j : Job)
    → is_running j.status ≡ false
    → Exclusive js
    → Exclusive (js ++ j ∷ [])
Exclusive-append [] j idle h = (tt, tt)
Exclusive-append (k ∷ js) j idle h = (
  All-append (λ i. clash k i ≡ false) js (j ∷ []) h.0 (ground arith, tt),
  Exclusive-append js j idle h.1,
)

-- The next row of the sequence, consistent and not running, behind the others.
pub insert-IsSound :
    (js : List Job) (j : Job)
    → IsConsistent j
    → is_running j.status ≡ false
    → IsSound j.id js
    → IsSound (j.id + 1) (js ++ j ∷ [])
insert-IsSound js j c idle h = record {
  ahead =
      All-append (λ k. k.id < j.id + 1) js (j ∷ [])
        (All-mono (λ k. k.id < j.id) (λ k. k.id < j.id + 1) js (λ k lt. omega arith) h.ahead)
        (omega arith, tt);
  consistent = All-append IsConsistent js (j ∷ []) h.consistent (c, tt);
  increasing = Increasing-append js j h.increasing h.ahead;
  exclusive = Exclusive-append js j idle h.exclusive;
}

-- Queued jobs of the scope that are ended.
over-IsSound :
    {n : ℕ} (now : ℕ) (ending : Status) (scope : Text) (js : List Job)
    → is_active ending ≡ false
    → IsSound n js
    → IsSound n (update_where (in_scope scope) (set_over now ending) js)
over-IsSound now ending scope js over h =
    update-IsSound (in_scope scope) (set_over now ending) js (λ k. refl)
      (All-of _ js (λ k t. record {
        settles = record { same_id = refl; keeps_scope = refl; starts_none = ground arith };
        stays = λ c. ground arith;
      }))
      h

retire-IsSound :
    {n : ℕ} (show : ℕ → Text) (job_id : ℕ) (js : List Job)
    → IsSound n js
    → IsSound n (retire show job_id js)
retire-IsSound show job_id js h =
    update-IsSound (λ j. j.id == job_id) (λ j. record j { idempotency_key = retired_key show j }) js
      (λ k. refl)
      (All-of _ js (λ k t. record {
        settles = record { same_id = refl; keeps_scope = refl; starts_none = λ r. r };
        stays = λ c. ground arith;
      }))
      h

-- `P` of what is returned, if no error is.
abbrev pub Ensures : {A : Type 0} → (A → Type 0) → Result A → Type 0
Ensures P (ok a) = P a
Ensures P (err _) = Unit

pub Ensures-bind :
    {A B : Type 0} (P : A → Type 0) (Q : B → Type 0) (r : Result A) (f : A → Result B)
    → Ensures P r
    → ((a : A) → P a → Ensures Q (f a))
    → Ensures Q (r >>= f)
Ensures-bind P Q (ok a) f h k = k a h
Ensures-bind P Q (err _) f h k = tt

pub Ensures-any : {A : Type 0} (r : Result A) → Ensures (λ _. Unit {0}) r
Ensures-any (ok a) = tt
Ensures-any (err _) = tt

-- What an operation leaves is ready, if it leaves a database.
abbrev pub LeavesReady : Result (Db × EnqueueResult) → Type 0
LeavesReady = Ensures (λ (db, _). IsReady db)

schedule-IsReady :
    (now debounce repository_id pull_id delivery_id : ℕ) (e : PullRequestEvent) (jobs : List Job)
    (db : Db)
    → IsSound db.next_job_id jobs
    → IsReady (schedule_review now debounce repository_id pull_id delivery_id e jobs db).0
unfolding schedule_review
schedule-IsReady now debounce repository_id pull_id delivery_id e jobs db s =
    insert-IsSound (update_where (in_scope e.scope_key) (set_over now superseded) jobs)
      (new_job db.next_job_id review_pull_request repository_id (some pull_id) e.idempotency_key
        e.scope_key e.base_sha e.head_sha e.payload
        (due_at now debounce (deadlines e.scope_key jobs)))
      (record {
        leased_iff_running = refl;
        expiry_iff_running = refl;
        completed_iff_over = refl;
        attempts_capped = omega arith;
        room_to_retry = λ q. omega arith;
      })
      refl (over-IsSound now superseded e.scope_key jobs refl s)

-- The table after the retirement.
abbrev RetiresBelow : ℕ → Result (List Job × Option Job) → Type 0
RetiresBelow n = Ensures (λ (jobs, _). IsSound n jobs)

pub retire-below :
    (show : ℕ → Text) (n : ℕ) (jobs : List Job) (o : Option Job)
    → IsSound n jobs
    → RetiresBelow n (retire_terminal_job show jobs o)
unfolding retire_terminal_job
retire-below show n jobs none b = b
retire-below show n jobs (some j) b = elim (Bool-cases (is_terminal_failure j.status)) [
  | inl e ↦
      rw e elim (Bool-cases (any (λ k. text_eq k.idempotency_key (retired_key show j)) jobs)) [
        | inl t ↦ rw t tt
        | inr t ↦ rw t (retire-IsSound show j.id jobs b)
      ]
  | inr e ↦ rw e b
]

place_job-IsReady :
    (now : ℕ) (configured : Option ℕ) (repository_id pull_id delivery_id : ℕ) (e : PullRequestEvent)
    (db : Db) (jobs : List Job) (o : Option Job)
    → IsReady db
    → IsSound db.next_job_id jobs
    → LeavesReady (place_job now configured repository_id pull_id delivery_id e db jobs o)
unfolding place_job
place_job-IsReady now configured repository_id pull_id delivery_id e db jobs (some j) h b =
    unfold assign_delivery in h
place_job-IsReady now configured repository_id pull_id delivery_id e db jobs none h b =
    Ensures-bind (λ _. Unit {0}) (λ (d, _). IsReady d) (debounce_for configured e.action) _
      (Ensures-any (debounce_for configured e.action))
      λ debounce _. schedule-IsReady now debounce repository_id pull_id delivery_id e jobs db b

enqueue_revision-IsReady :
    (now : ℕ) (show : ℕ → Text) (configured : Option ℕ) (repository_id pull_id delivery_id : ℕ)
    (e : PullRequestEvent) (db : Db)
    → IsReady db
    → LeavesReady (enqueue_revision now show configured repository_id pull_id delivery_id e db)
unfolding enqueue_revision
enqueue_revision-IsReady now show configured repository_id pull_id delivery_id e db h =
    Ensures-bind (λ (jobs, _). IsSound db.next_job_id jobs) (λ (d, _). IsReady d)
      (retire_terminal_job show db.tables.jobs
        (find_where (holds_key e.idempotency_key) db.tables.jobs))
      _ (retire-below show db.next_job_id db.tables.jobs _ h)
      λ (jobs, o) b.
        place_job-IsReady now configured repository_id pull_id delivery_id e db jobs o h b

after_upsert-IsReady :
    (now : ℕ) (show : ℕ → Text) (configured : Option ℕ) (repository_id pull_id delivery_id : ℕ)
    (e : PullRequestEvent) (db : Db)
    → IsReady db
    → LeavesReady (after_upsert now show configured repository_id pull_id delivery_id e db)
unfolding after_upsert
after_upsert-IsReady now show configured repository_id pull_id delivery_id e db h = by_state e.state
  where
    recorded : IsReady (record_lifecycle pull_id delivery_id e db)
    recorded = h

    cancels : IsReady (cancel_queued now e (record_lifecycle pull_id delivery_id e db)).0
    cancels = over-IsSound now cancelled e.scope_key db.tables.jobs refl h

    by_state :
        (s : PullState)
        → LeavesReady (elim s [
          | open_pull ↦
              enqueue_revision now show configured repository_id pull_id delivery_id e
                (record_lifecycle pull_id delivery_id e db)
          | _ ↦ ok (cancel_queued now e (record_lifecycle pull_id delivery_id e db))
        ])
    by_state open_pull =
        enqueue_revision-IsReady now show configured repository_id pull_id delivery_id e _ recorded
    by_state closed_pull = cancels
    by_state merged_pull = cancels

admit_pull-IsReady :
    (now : ℕ) (show : ℕ → Text) (configured : Option ℕ) (repository_id delivery_id : ℕ)
    (e : PullRequestEvent) (db : Db) (o : Option PullRequest)
    → IsReady db
    → LeavesReady (admit_pull now show configured repository_id delivery_id e db o)
unfolding admit_pull
admit_pull-IsReady now show configured repository_id delivery_id e db none h =
    after_upsert-IsReady now show configured repository_id db.next_pull_id delivery_id e
      (insert_pull repository_id e db) h
admit_pull-IsReady now show configured repository_id delivery_id e db (some p) h =
    elim (Bool-cases (ltb e.updated_at p.latest_event_at)) [
      | inl s ↦ rw s (filled e.source_created_at)
      | inr s ↦
          rw s
            elim (Bool-cases
              (e.updated_at == p.latest_event_at && not (text_eq e.head_sha p.head_sha))) [
                | inl c ↦ rw c tt
                | inr c ↦ rw c (
                    after_upsert-IsReady now show configured repository_id p.id delivery_id e
                      (refresh_pull e p.id db) h)
              ]
    ]
  where
    filled : (t : Option ℕ) → IsReady (fill_created t p.id (record_lifecycle p.id delivery_id e db))
    filled none = h
    filled (some t) = h

admit_delivery-IsReady :
    (now : ℕ) (show : ℕ → Text) (configured : Option ℕ) (repository : Repository)
    (e : PullRequestEvent) (payload_sha256 : Text) (db : Db) (o : Option Delivery)
    → IsReady db
    → LeavesReady (admit_delivery now show configured repository e payload_sha256 db o)
unfolding admit_delivery
admit_delivery-IsReady now show configured repository e payload_sha256 db (some d) h =
    elim (Bool-cases (text_eq d.payload_sha256 payload_sha256)) [ inl t ↦ rw t h | inr t ↦ rw t tt ]
admit_delivery-IsReady now show configured repository e payload_sha256 db none h =
    elim (Bool-cases (is_automatic e.trigger_kind && not repository.auto_review)) [
      | inl t ↦ rw t h
      | inr t ↦
          rw t (admit_pull-IsReady now show configured repository.id db.next_delivery_id e _ _ h)
    ]

-- Whatever the event and the outcome, an enqueue leaves the table of jobs sound and the sequence of
-- ids ahead of it, if both were so before.
pub enqueue_review_event-IsReady :
    (now : ℕ) (show : ℕ → Text) (configured : Option ℕ) (resolved : Option Repository)
    (e : PullRequestEvent) (payload_sha256 : Text) (db : Db)
    → IsReady db
    → LeavesReady (enqueue_review_event now show configured resolved e payload_sha256 db)
unfolding enqueue_review_event
enqueue_review_event-IsReady now show configured none e payload_sha256 db h =
    elim (Bool-cases (is_sha256 payload_sha256)) [ inl t ↦ rw t tt | inr t ↦ rw t tt ]
enqueue_review_event-IsReady now show configured (some repository) e payload_sha256 db h =
    elim (Bool-cases (is_sha256 payload_sha256)) [
      | inr t ↦ rw t tt
      | inl t ↦ rw t elim (Bool-cases repository.enabled) [
        | inr d ↦ rw d tt
        | inl d ↦ rw d (
            unfold admit_review in
            admit_delivery-IsReady now show configured repository e payload_sha256 db
              (find_where (is_delivery e.key) db.deliveries) h)
      ]
    ]
