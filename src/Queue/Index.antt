-- ===== src/Queue/Index.antt =====
-- workflow.py, lines 984 to 1171: a push to the default branch is recorded and its commit is enqueued
-- for indexing once, on the database of the review webhooks.
pub mod Invariant
use diffuse.Prelude.{
  ℕ, ◌+◌, Bool, true, false, not, ◌&&◌, Option, none, some, List, [], ◌∷◌, ◌++◌, Text, text_eq, ltb,
  ◌==◌, if◌then◌else◌,
}
use diffuse.Queue.{Job, index_repository, superseded, update_where, find_where}
use diffuse.Queue.Deliveries.{
  Db, Delivery, DeliveryKey, push, RepositoryRef, Repository, EnqueueResult, enqueued,
  stale_delivery, Result, ok, err, ◌>>=◌, payload_digest_invalid, repository_not_onboarded,
  event_order_conflict, is_sha256, redelivered, record_delivery, assign_delivery,
}
use diffuse.Queue.Enqueue.{
  retire_terminal_job, in_scope, set_over, new_job, with_jobs, insert_job, duplicate, holds_key,
  is_delivery,
}

-- `PushEvent` of scm.py, its texts validated there. The keys are properties of the event there, and
-- any functions of it here.
pub record PushEvent : Type 0 where
  pub key : DeliveryKey
  pub ref_name : Text
  pub after_sha : Text
  pub pushed_at : ℕ
  pub scope_key : Text
  pub idempotency_key : Text
  pub payload : Text

abbrev pub is_ref : ℕ → Text → RepositoryRef → Bool
is_ref repository_id name r = r.repository_id == repository_id && text_eq r.ref_name name

unfoldable pub move_ref : PushEvent → ℕ → Db → Db
move_ref e ref_id db = record db {
  refs =
      update_where (λ r. r.id == ref_id)
        (λ r. record r { commit_sha = e.after_sha; latest_event_at = e.pushed_at }) db.refs;
}

unfoldable pub insert_ref : ℕ → PushEvent → Db → Db
insert_ref repository_id e db = record db {
  refs =
      db.refs
      ++ record {
        id = db.next_ref_id;
        repository_id = repository_id;
        ref_name = e.ref_name;
        commit_sha = e.after_sha;
        latest_event_at = e.pushed_at;
      }
        ∷ [];
  next_ref_id = db.next_ref_id + 1;
}

-- `scope_key = … AND status = 'queued' AND revision <> …`
abbrev pub is_outdated : PushEvent → Job → Bool
is_outdated e j = in_scope e.scope_key j && not (text_eq j.revision e.after_sha)

-- From the supersede to the end: a job that is available at once.
unfoldable pub schedule_index : ℕ → ℕ → ℕ → PushEvent → List Job → Db → Db × EnqueueResult
unfolding insert_job assign_delivery
schedule_index now repository_id delivery_id e jobs db =
    let cleared = update_where (is_outdated e) (set_over now superseded) jobs in
    let job =
      new_job db.next_job_id index_repository repository_id none e.idempotency_key e.scope_key
        e.after_sha e.after_sha e.payload now in
    (
      assign_delivery db.next_job_id delivery_id (insert_job job (with_jobs cleared db)),
      record { job_id = some db.next_job_id; state = enqueued },
    )

-- The job that still holds the key is reported; without one a job is scheduled.
pub place_index : ℕ → ℕ → ℕ → PushEvent → Db → List Job → Option Job → Db × EnqueueResult
unfolding schedule_index duplicate
place_index now repository_id delivery_id e db jobs (some j) = duplicate j delivery_id db
place_index now repository_id delivery_id e db jobs none =
    schedule_index now repository_id delivery_id e jobs db

-- The commit of the push, once the ref is up to date.
unfoldable pub enqueue_commit :
    ℕ → (ℕ → Text) → ℕ → ℕ → PushEvent → Db → Result (Db × EnqueueResult)
unfolding retire_terminal_job place_index
enqueue_commit now show repository_id delivery_id e db =
    retire_terminal_job show db.tables.jobs
      (find_where (holds_key e.idempotency_key) db.tables.jobs)
    >>= λ (jobs, existing). ok (place_index now repository_id delivery_id e db jobs existing)

-- The push against the stored ref.
unfoldable pub admit_ref :
    ℕ → (ℕ → Text) → ℕ → ℕ → PushEvent → Db → Option RepositoryRef → Result (Db × EnqueueResult)
unfolding enqueue_commit move_ref insert_ref
admit_ref now show repository_id delivery_id e db none =
    enqueue_commit now show repository_id delivery_id e (insert_ref repository_id e db)
admit_ref now show repository_id delivery_id e db (some r) =
    if ltb e.pushed_at r.latest_event_at
    then ok (db, record { job_id = none; state = stale_delivery })
    else if e.pushed_at == r.latest_event_at && not (text_eq e.after_sha r.commit_sha)
    then err event_order_conflict
    else enqueue_commit now show repository_id delivery_id e (move_ref e r.id db)

unfoldable pub admit_push :
    ℕ
    → (ℕ → Text)
    → Repository
    → PushEvent
    → Text
    → Db
    → Option Delivery
    → Result (Db × EnqueueResult)
unfolding redelivered record_delivery admit_ref
admit_push now show repository e payload_sha256 db (some d) = redelivered db payload_sha256 d
admit_push now show repository e payload_sha256 db none =
    admit_ref now show repository.id db.next_delivery_id e
      (record_delivery db e.key push payload_sha256)
      (find_where (is_ref repository.id e.ref_name) db.refs)

-- `resolved` is what `resolve_github_repository` returned.
unfoldable pub enqueue_repository_index_event :
    ℕ → (ℕ → Text) → Option Repository → PushEvent → Text → Db → Result (Db × EnqueueResult)
unfolding admit_push
enqueue_repository_index_event now show resolved e payload_sha256 db =
    if not (is_sha256 payload_sha256) then err payload_digest_invalid else elim resolved [
      | none ↦ err repository_not_onboarded
      | some repository ↦
          if repository.enabled && repository.has_clone_url
          then admit_push now show repository e payload_sha256 db
              (find_where (is_delivery e.key) db.deliveries)
          else err repository_not_onboarded
    ]
