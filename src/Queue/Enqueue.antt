-- ===== src/Queue/Enqueue.antt =====
-- `enqueue_review_event` of review/workflow.py: at most one job is queued for a revision. An error
-- stands for the exception, on which the caller's transaction is rolled back, so it carries no database.
pub mod Invariant
pub mod Redelivery
pub mod Debounce
pub mod Clock
use diffuse.Prelude.{
  ℕ, zero, suc, ◌+◌, ◌*◌, Bool, true, false, not, ◌&&◌, ◌||◌, Option, none, some, List, [], ◌∷◌,
  ◌++◌, Text, codes, text_eq, length, any, all, filter, map, min, ltb, leb, ◌==◌, if◌then◌else◌,
}
use diffuse.Queue.{
  Job, JobType, review_pull_request, index_repository, Status, queued, cancelled, superseded,
  second, is_queued, is_terminal_failure, update_where, find_where,
}
use diffuse.Queue.Lease.{Tables}
use diffuse.Queue.Deliveries.{
  DeliveryKey, EventName, Delivery, PullState, TriggerKind, Details, PullRequest, LifecycleEvent,
  PullRequestEvent, RepositoryRef, Repository, Db, EnqueueState, EnqueueResult, EnqueueError,
  Result, ◌>>=◌, is_sha256, same_key, joined_status, redelivered, record_delivery, assign_delivery,
  coalesce, or_else, pull_request, push, open_pull, closed_pull, merged_pull, automatic, manual,
  enqueued, auto_review_disabled, stale_delivery, duplicate_delivery, pull_request_over,
  duplicate_revision, payload_digest_invalid, repository_not_onboarded, delivery_conflict,
  event_order_conflict, debounce_invalid, unique_violation, ok, err,
}
use diffuse.Queue.Pulls.{
  is_opening, when, is_merged, is_closed, lifecycle_at, record_lifecycle, is_pull, refreshed,
  refresh_pull, insert_pull, fill_created,
}

-- `idempotency_key || '#retired-' || id`; `show` is PostgreSQL's text of a number.
abbrev pub retired_key : (ℕ → Text) → Job → Text
retired_key show j = j.idempotency_key ++ codes "#retired-" ++ show j.id

abbrev pub retire : (ℕ → Text) → ℕ → List Job → List Job
retire show job_id jobs =
    update_where (λ j. j.id == job_id) (λ j. record j { idempotency_key = retired_key show j }) jobs

-- `_retire_terminal_job`: the table, and the job that still holds the key. The update fails on the
-- unique constraint if another row has the retired key.
unfoldable pub retire_terminal_job :
    (ℕ → Text) → List Job → Option Job → Result (List Job × Option Job)
retire_terminal_job show jobs none = ok (jobs, none)
retire_terminal_job show jobs (some j) =
    if is_terminal_failure j.status
    then (if any (λ k. text_eq k.idempotency_key (retired_key show j)) jobs
        then err unique_violation
        else ok (retire show j.id jobs, none))
    else ok (jobs, some j)

abbrev pub in_scope : Text → Job → Bool
in_scope scope j = text_eq j.scope_key scope && is_queued j.status

abbrev pub set_over : ℕ → Status → Job → Job
set_over now ending j = record j { status = ending; completed_at = some now }

-- `RETURNING available_at`
abbrev pub deadlines : Text → List Job → List ℕ
deadlines scope jobs = map (λ j. j.available_at) (filter (in_scope scope) jobs)

abbrev pub earliest : List ℕ → Option ℕ
earliest [] = none
earliest (t ∷ ts) = elim (earliest ts) [ none ↦ some t | some u ↦ some (min t u) ]

abbrev pub least_with : ℕ → Option ℕ → ℕ
least_with t none = t
least_with t (some u) = min t u

-- `REVIEW_UPDATE_DEBOUNCE_SECONDS` is read for an update only; `none` is a value that raises.
abbrev pub update_action : Text
update_action = codes "synchronize"

abbrev pub debounce_for : Option ℕ → Text → Result ℕ
debounce_for configured action =
    if text_eq action update_action
    then elim configured [ none ↦ err debounce_invalid | some n ↦ ok n ]
    else ok 0

-- `available_at` of the new job: an update waits, but not beyond a deadline that it supersedes.
unfoldable pub due_at : ℕ → ℕ → List ℕ → ℕ
due_at now debounce pending =
    least_with (now + debounce * second) (if debounce == 0 then none else earliest pending)

abbrev pub new_job : ℕ → JobType → ℕ → Option ℕ → Text → Text → Text → Text → Text → ℕ → Job
new_job id job_type repository_id pull_id key scope base revision payload available_at = record {
  id = id;
  repository_id = repository_id;
  pull_request_id = pull_id;
  job_type = job_type;
  idempotency_key = key;
  scope_key = scope;
  base_revision = base;
  revision = revision;
  status = queued;
  payload = payload;
  priority_below = 0;
  attempt_count = 0;
  max_attempts = 5;
  available_at = available_at;
  leased_by = none;
  lease_expires_at = none;
  last_error_code = none;
  completed_at = none;
}

abbrev pub with_jobs : List Job → Db → Db
with_jobs jobs db = record db { tables = record db.tables { jobs = jobs } }

-- `INSERT INTO workflow_jobs … RETURNING id`
unfoldable pub insert_job : Job → Db → Db
insert_job j db = record db {
  tables = record db.tables { jobs = db.tables.jobs ++ j ∷ [] };
  next_job_id = db.next_job_id + 1;
}

-- The end of both functions: a job that still holds the key is reported.
unfoldable pub duplicate : Job → ℕ → Db → Db × EnqueueResult
duplicate j delivery_id db = (
  assign_delivery j.id delivery_id db,
  record { job_id = some j.id; state = duplicate_revision j.status },
)

-- From the supersede to the end of `enqueue_review_event`, with the terminal job retired.
unfoldable pub schedule_review :
    ℕ → ℕ → ℕ → ℕ → ℕ → PullRequestEvent → List Job → Db → Db × EnqueueResult
unfolding due_at insert_job assign_delivery
schedule_review now debounce repository_id pull_id delivery_id e jobs db =
    let cleared = update_where (in_scope e.scope_key) (set_over now superseded) jobs in
    let job =
      new_job db.next_job_id review_pull_request repository_id (some pull_id) e.idempotency_key
        e.scope_key e.base_sha e.head_sha e.payload
        (due_at now debounce (deadlines e.scope_key jobs)) in
    (
      assign_delivery db.next_job_id delivery_id (insert_job job (with_jobs cleared db)),
      record { job_id = some db.next_job_id; state = enqueued },
    )

abbrev pub holds_key : Text → Job → Bool
holds_key key j = text_eq j.idempotency_key key

-- The job that still holds the key is reported; without one a job is scheduled.
pub place_job :
    ℕ
    → Option ℕ
    → ℕ
    → ℕ
    → ℕ
    → PullRequestEvent
    → Db
    → List Job
    → Option Job
    → Result (Db × EnqueueResult)
unfolding schedule_review duplicate
place_job now configured repository_id pull_id delivery_id e db jobs (some j) =
    ok (duplicate j delivery_id db)
place_job now configured repository_id pull_id delivery_id e db jobs none =
    debounce_for configured e.action >>= λ debounce.
    ok (schedule_review now debounce repository_id pull_id delivery_id e jobs db)

-- An open pull request: one job for the revision.
unfoldable pub enqueue_revision :
    ℕ → (ℕ → Text) → Option ℕ → ℕ → ℕ → ℕ → PullRequestEvent → Db → Result (Db × EnqueueResult)
unfolding retire_terminal_job place_job
enqueue_revision now show configured repository_id pull_id delivery_id e db =
    retire_terminal_job show db.tables.jobs
      (find_where (holds_key e.idempotency_key) db.tables.jobs)
    >>= λ (jobs, existing).
        place_job now configured repository_id pull_id delivery_id e db jobs existing

-- A pull request that is over: its queued jobs are cancelled.
unfoldable pub cancel_queued : ℕ → PullRequestEvent → Db → Db × EnqueueResult
cancel_queued now e db = (
  with_jobs (update_where (in_scope e.scope_key) (set_over now cancelled) db.tables.jobs) db,
  record { job_id = none; state = pull_request_over e.state },
)

-- The lifecycle record, then the branch on `event.state`.
unfoldable pub after_upsert :
    ℕ → (ℕ → Text) → Option ℕ → ℕ → ℕ → ℕ → PullRequestEvent → Db → Result (Db × EnqueueResult)
unfolding record_lifecycle enqueue_revision cancel_queued
after_upsert now show configured repository_id pull_id delivery_id e db =
    let db' = record_lifecycle pull_id delivery_id e db in
    elim e.state [
      | open_pull ↦ enqueue_revision now show configured repository_id pull_id delivery_id e db'
      | _ ↦ ok (cancel_queued now e db')
    ]

-- The event against the stored pull request.
unfoldable pub admit_pull :
    ℕ
    → (ℕ → Text)
    → Option ℕ
    → ℕ
    → ℕ
    → PullRequestEvent
    → Db
    → Option PullRequest
    → Result (Db × EnqueueResult)
unfolding after_upsert refresh_pull insert_pull fill_created
admit_pull now show configured repository_id delivery_id e db none =
    after_upsert now show configured repository_id db.next_pull_id delivery_id e
      (insert_pull repository_id e db)
admit_pull now show configured repository_id delivery_id e db (some p) =
    if ltb e.updated_at p.latest_event_at
    then ok (
      fill_created e.source_created_at p.id (record_lifecycle p.id delivery_id e db),
      record { job_id = none; state = stale_delivery },
    )
    else if e.updated_at == p.latest_event_at && not (text_eq e.head_sha p.head_sha)
    then err event_order_conflict
    else after_upsert now show configured repository_id p.id delivery_id e (refresh_pull e p.id db)

abbrev pub is_automatic : TriggerKind → Bool
is_automatic automatic = true
is_automatic manual = false

-- A delivery that was not seen before.
unfoldable pub admit_new :
    ℕ
    → (ℕ → Text)
    → Option ℕ
    → Repository
    → PullRequestEvent
    → Text
    → Db
    → Result (Db × EnqueueResult)
unfolding record_delivery admit_pull
admit_new now show configured repository e payload_sha256 db =
    let db' = record_delivery db e.key pull_request payload_sha256 in
    if is_automatic e.trigger_kind && not repository.auto_review
    then ok (db', record { job_id = none; state = auto_review_disabled })
    else admit_pull now show configured repository.id db.next_delivery_id e db'
        (find_where (is_pull repository.id e.number) db'.pulls)

unfoldable pub admit_delivery :
    ℕ
    → (ℕ → Text)
    → Option ℕ
    → Repository
    → PullRequestEvent
    → Text
    → Db
    → Option Delivery
    → Result (Db × EnqueueResult)
unfolding redelivered admit_new
admit_delivery now show configured repository e payload_sha256 db (some d) =
    redelivered db payload_sha256 d
admit_delivery now show configured repository e payload_sha256 db none =
    admit_new now show configured repository e payload_sha256 db

abbrev pub is_delivery : DeliveryKey → Delivery → Bool
is_delivery key d = same_key d.key key

-- The transaction once the repository is known to be enabled.
unfoldable pub admit_review :
    ℕ
    → (ℕ → Text)
    → Option ℕ
    → Repository
    → PullRequestEvent
    → Text
    → Db
    → Result (Db × EnqueueResult)
unfolding admit_delivery
admit_review now show configured repository e payload_sha256 db =
    admit_delivery now show configured repository e payload_sha256 db
      (find_where (is_delivery e.key) db.deliveries)

-- `resolved` is what `resolve_github_repository` returned.
unfoldable pub enqueue_review_event :
    ℕ
    → (ℕ → Text)
    → Option ℕ
    → Option Repository
    → PullRequestEvent
    → Text
    → Db
    → Result (Db × EnqueueResult)
unfolding admit_review
enqueue_review_event now show configured resolved e payload_sha256 db =
    if not (is_sha256 payload_sha256) then err payload_digest_invalid else elim resolved [
      | none ↦ err repository_not_onboarded
      | some repository ↦
          if repository.enabled
          then admit_review now show configured repository e payload_sha256 db
          else err repository_not_onboarded
    ]
