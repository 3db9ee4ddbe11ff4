-- ===== src/Queue/Examples.antt =====
-- A repository, two events of one pull request and two workers, and the theorems at them.
use diffuse.Prelude.{
  ℕ, ◌+◌, ◌*◌, ◌≤◌, ◌≡◌, refl, ◌⊎◌, Any, Bool, true, false, Option, none, some, List, [], ◌∷◌, Text,
  codes, text_eq, filter, All, if◌then◌else◌, arith,
}
use diffuse.Queue.{Job, Status, review_pull_request, running, second, update_where}
use diffuse.Queue.Lease.{
  Tables, Outcome, returned, candidate, claim_workflow_job, complete_workflow_job,
  supersede_workflow_job, heartbeat_workflow_job, fail_workflow_job, retry_delay, sweep_delay,
  workflow_queue_depth,
}
use diffuse.Queue.Lease.Ownership.{IsHeld, lease_decides}
use diffuse.Queue.Lease.Order.{Answers, candidate_comes_first}
use diffuse.Queue.Lease.Backoff.{delays_back_off}
use diffuse.Queue.Deliveries.{
  Db, PullRequestEvent, open_pull, automatic, Repository, EnqueueResult, enqueued,
  duplicate_delivery, delivery_conflict, joined_status, Result, ok, err,
}
use diffuse.Queue.Enqueue.{in_scope, deadlines, schedule_review, enqueue_review_event}
use diffuse.Queue.Enqueue.Invariant.{Ensures, IsReady, LeavesReady, enqueue_review_event-IsReady}
use diffuse.Queue.Enqueue.Redelivery.{enqueue_review_event-twice}
use diffuse.Queue.Enqueue.Debounce.{schedule_review-leaves_one}
use diffuse.Queue.Enqueue.Clock.{Follows, stored, enqueue_review_event-Follows}
use diffuse.Queue.Lease.Grant.{Granted, claim_grants_lease}
use diffuse.Queue.Index.{PushEvent, enqueue_repository_index_event}
use diffuse.Queue.Index.Invariant.{enqueue_repository_index_event-IsReady}
use diffuse.Queue.Lease.{workflow_job_is_latest}
use diffuse.Queue.Current.{IsWanted, workflow_job_is_current}
use diffuse.Queue.Current.Ends.{workflow_job_is_current_decides}
use diffuse.Queue.Rejection.{
  Rejection, Counts, record_webhook_rejection, record_webhook_rejection-Counts,
}
use diffuse.Queue.Reach.{Reach, here, next, enqueue, claim, empty, with_tables, Reach-IsReady}

abbrev digest : Text
digest = codes "00112233445566778899aabbccddeeff00112233445566778899aabbccddeeff"

abbrev other_digest : Text
other_digest = codes "ff112233445566778899aabbccddeeff00112233445566778899aabbccddeeff"

abbrev repository : Repository
repository = record { id = 1; enabled = true; auto_review = true; has_clone_url = true }

abbrev event : Text → Text → Text → ℕ → PullRequestEvent
event delivery_id action head_sha updated_at = record {
  key = record {
    provider = codes "github";
    scm_base_url = codes "https://github.com";
    delivery_id = delivery_id;
  };
  number = 7;
  action = action;
  head_sha = head_sha;
  base_sha = codes "b0";
  updated_at = updated_at;
  details = record {
    web_url = [];
    author = codes "ann";
    base_branch = codes "main";
    head_branch = codes "fix";
    is_draft = false;
    labels = [];
    title = codes "Fix";
    description = [];
    changed_file_count = 1;
    additions = 2;
    deletions = 1;
  };
  trigger_kind = automatic;
  state = open_pull;
  source_created_at = some 1;
  source_closed_at = none;
  source_merged_at = none;
  scope_key = codes "github:1:7";
  idempotency_key = head_sha;
  payload = [];
}

abbrev opened : PullRequestEvent
opened = event (codes "d1") (codes "opened") (codes "h1") 10

abbrev pushed : PullRequestEvent
pushed = event (codes "d2") (codes "synchronize") (codes "h2") 20

abbrev no_text : ℕ → Text
no_text n = []

abbrev all_rows : ℕ → Bool
all_rows n = true

abbrev no_row : ℕ → Bool
no_row n = false

abbrev handle : ℕ → PullRequestEvent → Db → Result (Db × EnqueueResult)
unfolding enqueue_review_event
handle now e db = enqueue_review_event now no_text (some 30) (some repository) e digest db

abbrev database_of : Result (Db × EnqueueResult) → Db
database_of (ok (db, _)) = db
database_of (err _) = empty

abbrev answer_of : Result (Db × EnqueueResult) → Option EnqueueResult
answer_of (ok (_, r)) = some r
answer_of (err _) = none

abbrev tables_of : Db → Outcome (Tables × Option Job) → Tables
tables_of db (returned (t, _)) = t
tables_of db _ = db.tables

abbrev worker : Text
worker = codes "w1"

-- One event is handled.
abbrev after_opened : Db
after_opened = database_of (handle 100 opened empty)

-- A second event of the pull request supersedes the queued job.
abbrev after_pushed : Db
after_pushed = database_of (handle 200 pushed after_opened)

opened_is_enqueued :
    answer_of (handle 100 opened empty) ≡ some record { job_id = some 1; state = enqueued }
unfolding enqueue_review_event
opened_is_enqueued = refl

depth_after_both : workflow_queue_depth 200 after_pushed.tables.jobs ≡ record {
  queued_count = 1;
  running_count = 0;
  dead_count = 0;
  failed_count = 0;
  retrying_count = 0;
}
unfolding workflow_queue_depth enqueue_review_event
depth_after_both = refl

enqueue_review_event-IsReady_example :
    LeavesReady (enqueue_review_event 100 no_text (some 30) (some repository) opened digest empty)
enqueue_review_event-IsReady_example =
    enqueue_review_event-IsReady 100 no_text (some 30) (some repository) opened digest empty
      record { ahead = tt; consistent = tt; increasing = tt; exclusive = tt }

abbrev claim_at : ℕ → Db → Outcome (Tables × Option Job)
claim_at now db = claim_workflow_job now all_rows no_row worker 60 5 100 db.tables

abbrev after_claim : Db
after_claim = with_tables after_pushed (tables_of after_pushed (claim_at 40000000 after_pushed))

abbrev job_of : Outcome (Tables × Option Job) → Option Job
job_of (returned (_, o)) = o
job_of _ = none

opened_then_pushed : Reach empty after_pushed
unfolding enqueue_review_event
opened_then_pushed =
    next
      (next here (
        enqueue 100 no_text (some 30) (some repository) opened digest
          {r = record { job_id = some 1; state = enqueued }} refl))
      (enqueue 200 no_text (some 30) (some repository) pushed digest
        {r = record { job_id = some 2; state = enqueued }} refl)

opened_then_claimed : Reach empty after_claim
unfolding enqueue_review_event claim_workflow_job
opened_then_claimed = next opened_then_pushed (
    claim 40000000 all_rows no_row worker 60 5 100 {t = after_claim.tables}
      {o = job_of (claim_at 40000000 after_pushed)} refl)

Reach-IsReady_example : IsReady after_claim
Reach-IsReady_example = Reach-IsReady opened_then_claimed

-- The worker `w2` holds no lease.
lease_decides_example :
    (IsHeld 41000000 2 worker after_claim.tables
      × ((complete_workflow_job 41000000 2 worker after_claim.tables).1 ≡ true)
      × ((supersede_workflow_job 41000000 2 worker after_claim.tables).1 ≡ true)
      × ((t : Tables) × (s : Status) × (fail_workflow_job 41000000 2 worker
              (codes "timeout")
              true
              5
              100
              after_claim.tables
            ≡ returned (t, some s)))
      × ((t : Tables) × (heartbeat_workflow_job 41000000 2 worker 60 after_claim.tables
            ≡ returned (t, true))))
    ⊎ ((¬ IsHeld 41000000 2 worker after_claim.tables)
        × (complete_workflow_job 41000000 2 worker after_claim.tables ≡ (after_claim.tables, false))
        × (supersede_workflow_job 41000000 2 worker after_claim.tables
            ≡ (after_claim.tables, false))
        × (fail_workflow_job 41000000 2 worker (codes "timeout") true 5 100 after_claim.tables
            ≡ returned (after_claim.tables, none))
        × (heartbeat_workflow_job 41000000 2 worker 60 after_claim.tables
            ≡ returned (after_claim.tables, false)))
lease_decides_example =
    lease_decides 41000000 2 worker after_claim.tables (codes "timeout") true 5 100 60 refl refl
      refl

candidate_comes_first_example :
    Answers 40000000 all_rows no_row after_pushed.tables.jobs
      (candidate 40000000 all_rows no_row after_pushed.tables.jobs)
candidate_comes_first_example =
    candidate_comes_first 40000000 all_rows no_row after_pushed.tables.jobs

delays_back_off_example :
    (retry_delay 5 100 3 ≤ 100)
    × (retry_delay 5 100 3 ≤ retry_delay 5 100 4)
    × (sweep_delay 5 100 1 ≡ 0)
    × (sweep_delay 5 100 5 ≡ retry_delay 5 100 4)
delays_back_off_example = delays_back_off 5 100 3

enqueue_review_event-twice_example :
    enqueue_review_event 900 no_text none (some repository) opened other_digest after_opened ≡ (
      if text_eq digest other_digest
      then ok (
        after_opened,
        record {
          job_id = some 1;
          state = duplicate_delivery (joined_status after_opened.tables.jobs (some 1));
        },
      )
      else err delivery_conflict)
unfolding enqueue_review_event
enqueue_review_event-twice_example =
    enqueue_review_event-twice 100 900 no_text no_text (some 30) none repository repository opened
      opened digest other_digest empty after_opened record { job_id = some 1; state = enqueued }
      refl refl refl refl

schedule_review-leaves_one_example :
    (j : Job) × (filter
        (in_scope pushed.scope_key)
        (schedule_review 200 30 1 1 2 pushed after_opened.tables.jobs after_opened).0.tables.jobs
      ≡ j ∷ [])
    × ((schedule_review 200 30 1 1 2 pushed after_opened.tables.jobs after_opened).1.job_id
        ≡ some j.id)
    × (j.revision ≡ pushed.head_sha)
    × (j.available_at ≤ 200 + 30 * second)
    × (((◌≡◌ {A = ℕ} 30 0) × (j.available_at ≡ 200))
        ⊎ All (λ t. j.available_at ≤ t) (deadlines pushed.scope_key after_opened.tables.jobs))
schedule_review-leaves_one_example =
    schedule_review-leaves_one 200 30 1 1 2 pushed after_opened.tables.jobs after_opened

-- An event that was sent before the second one and comes after it.
abbrev late : PullRequestEvent
late = event (codes "d3") (codes "synchronize") (codes "h0") 15

enqueue_review_event-Follows_example :
    Ensures
      (λ (d, _). Follows (stored 1 7 after_pushed) (stored 1 7 d))
      (enqueue_review_event 300 no_text (some 30) (some repository) late digest after_pushed)
enqueue_review_event-Follows_example =
    enqueue_review_event-Follows 300 no_text (some 30) repository late digest after_pushed

abbrev claimed_job : Job
claimed_job = record {
  id = 2;
  repository_id = 1;
  pull_request_id = some 1;
  job_type = review_pull_request;
  idempotency_key = codes "h2";
  scope_key = codes "github:1:7";
  base_revision = codes "b0";
  revision = codes "h2";
  status = running;
  payload = [];
  priority_below = 0;
  attempt_count = 1;
  max_attempts = 5;
  available_at = 100;
  leased_by = some worker;
  lease_expires_at = some 100000000;
  last_error_code = none;
  completed_at = none;
}

claim_grants_lease_example : Granted 90000000 2 worker (codes "w2") after_claim.tables
unfolding enqueue_review_event claim_workflow_job
claim_grants_lease_example =
    claim_grants_lease 40000000 90000000 all_rows no_row worker (codes "w2") 60 5 100
      after_pushed.tables after_claim.tables claimed_job refl (omega arith) refl

abbrev push_event : PushEvent
push_event = record {
  key = record {
    provider = codes "github";
    scm_base_url = codes "https://github.com";
    delivery_id = codes "d9";
  };
  ref_name = codes "refs/heads/main";
  after_sha = codes "c1";
  pushed_at = 5;
  scope_key = codes "index:main";
  idempotency_key = codes "index:main:c1";
  payload = [];
}

push_is_enqueued :
    answer_of
      (enqueue_repository_index_event 300 no_text (some repository) push_event digest after_pushed)
    ≡ some record { job_id = some 3; state = enqueued }
unfolding enqueue_review_event enqueue_repository_index_event
push_is_enqueued = refl

enqueue_repository_index_event-IsReady_example :
    LeavesReady
      (enqueue_repository_index_event 300 no_text (some repository) push_event digest empty)
enqueue_repository_index_event-IsReady_example =
    enqueue_repository_index_event-IsReady 300 no_text (some repository) push_event digest empty
      record { ahead = tt; consistent = tt; increasing = tt; exclusive = tt }

workflow_job_is_current_decides_example :
    ((workflow_job_is_current 41000000 all_rows 2 worker after_claim.tables.jobs after_pushed.pulls
        ≡ true)
      × Any
          (IsWanted 41000000 all_rows 2 worker after_claim.tables.jobs after_pushed.pulls)
          after_claim.tables.jobs
      × (workflow_job_is_latest 41000000 all_rows 2 worker after_claim.tables.jobs ≡ true)
      × ((complete_workflow_job 41000000 2 worker after_claim.tables).1 ≡ true)
      × ((supersede_workflow_job 41000000 2 worker after_claim.tables).1 ≡ true)
      × (workflow_job_is_current 41000000 all_rows 2 worker
            (complete_workflow_job 41000000 2 worker after_claim.tables).0.jobs
            after_pushed.pulls
          ≡ false)
      × (workflow_job_is_current 41000000 all_rows 2 worker
            (supersede_workflow_job 41000000 2 worker after_claim.tables).0.jobs
            after_pushed.pulls
          ≡ false))
    ⊎ ((workflow_job_is_current 41000000 all_rows 2 worker after_claim.tables.jobs
            after_pushed.pulls
          ≡ false)
        × (¬ Any
            (IsWanted 41000000 all_rows 2 worker after_claim.tables.jobs after_pushed.pulls)
            after_claim.tables.jobs))
workflow_job_is_current_decides_example =
    workflow_job_is_current_decides 41000000 all_rows 2 worker after_claim.tables after_pushed.pulls

abbrev rejected : List Rejection
rejected =
    record {
      key = opened.key;
      event_name = codes "pull_request";
      repo_full_name = codes "ann/tool";
      reason = codes "repository_not_onboarded";
      attempts = 2;
      first_seen_at = 3;
      last_seen_at = 4;
    }
    ∷ []

record_webhook_rejection-Counts_example : Counts opened.key pushed.key rejected (
    record_webhook_rejection 5 opened.key
      (codes "pull_request")
      (codes "ann/tool")
      (codes "repository_not_onboarded")
      rejected)
record_webhook_rejection-Counts_example =
    record_webhook_rejection-Counts 5 opened.key pushed.key (codes "pull_request")
      (codes "ann/tool") (codes "repository_not_onboarded") rejected refl

one_more_attempt :
    record_webhook_rejection 5 opened.key
      (codes "pull_request")
      (codes "ann/tool")
      (codes "repository_not_onboarded")
      rejected
    ≡ some (update_where (λ r. true) (λ r. record r { attempts = 3; last_seen_at = 5 }) rejected)
unfolding record_webhook_rejection
one_more_attempt = refl
