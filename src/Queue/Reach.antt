-- ===== src/Queue/Reach.antt =====
-- The queue as a transition system: workers and webhooks, one transaction at a time, in any order, at
-- any time and with any rows locked by others.
use diffuse.Prelude.{ℕ, ◌≡◌, Bool, Option, List, [], Text, subst}
use diffuse.Queue.{Job, Status}
use diffuse.Queue.Lease.{
  Tables, returned, claim_workflow_job, heartbeat_workflow_job, complete_workflow_job,
  supersede_workflow_job, fail_workflow_job,
}
use diffuse.Queue.Lease.Rows.{IsSound}
use diffuse.Queue.Lease.Invariant.{
  jobs_after, claim-IsSound, heartbeat-IsSound, complete-IsSound, supersede-IsSound, fail-IsSound,
}
use diffuse.Queue.Deliveries.{Db, Repository, PullRequestEvent, EnqueueResult, ok}
use diffuse.Queue.Enqueue.{enqueue_review_event}
use diffuse.Queue.Index.{PushEvent, enqueue_repository_index_event}
use diffuse.Queue.Index.Invariant.{enqueue_repository_index_event-IsReady}
use diffuse.Queue.Conversation.{
  ConversationEvent, Thread, Message, ConversationDb, enqueue_review_conversation_event,
}
use diffuse.Queue.Conversation.Invariant.{
  LeavesQueueReady, enqueue_review_conversation_event-IsReady,
}
use diffuse.Queue.Enqueue.Invariant.{IsReady, LeavesReady, enqueue_review_event-IsReady}

abbrev pub with_tables : Db → Tables → Db
with_tables db t = record db { tables = t }

-- A committed transaction.
pub data Step (db : Db) : Db → Type 0 where
  enqueue :
      (now : ℕ) (show : ℕ → Text) (configured : Option ℕ) (resolved : Option Repository)
      (e : PullRequestEvent) (payload_sha256 : Text) {next : Db} {r : EnqueueResult}
      → enqueue_review_event now show configured resolved e payload_sha256 db ≡ ok (next, r)
      → Step db next
  enqueue_index :
      (now : ℕ) (show : ℕ → Text) (resolved : Option Repository) (e : PushEvent)
      (payload_sha256 : Text) {next : Db} {r : EnqueueResult}
      → enqueue_repository_index_event now show resolved e payload_sha256 db ≡ ok (next, r)
      → Step db next
  ask :
      (now : ℕ) (show : ℕ → Text) (resolved : Option Repository) (e : ConversationEvent)
      (payload_sha256 : Text) (threads : List Thread) (messages : List Message)
      {after : ConversationDb} {r : EnqueueResult}
      → enqueue_review_conversation_event now show resolved e payload_sha256
          record { queue = db; threads = threads; messages = messages }
        ≡ ok (after, r)
      → Step db after.queue
  claim :
      (now : ℕ) (enabled locked : ℕ → Bool) (worker_id : Text)
      (lease_seconds base_delay max_delay : ℕ) {t : Tables} {o : Option Job}
      → claim_workflow_job now enabled locked worker_id lease_seconds base_delay max_delay db.tables
        ≡ returned (t, o)
      → Step db (with_tables db t)
  heartbeat :
      (now job_id : ℕ) (worker_id : Text) (lease_seconds : ℕ) {t : Tables} {b : Bool}
      → heartbeat_workflow_job now job_id worker_id lease_seconds db.tables ≡ returned (t, b)
      → Step db (with_tables db t)
  complete :
      (now job_id : ℕ) (worker_id : Text)
      → Step db (with_tables db (complete_workflow_job now job_id worker_id db.tables).0)
  supersede :
      (now job_id : ℕ) (worker_id : Text)
      → Step db (with_tables db (supersede_workflow_job now job_id worker_id db.tables).0)
  fail :
      (now job_id : ℕ) (worker_id error_code : Text) (retryable : Bool) (base_delay max_delay : ℕ)
      {t : Tables} {o : Option Status}
      → fail_workflow_job now job_id worker_id error_code retryable base_delay max_delay db.tables
        ≡ returned (t, o)
      → Step db (with_tables db t)

pub data Reach (db : Db) : Db → Type 0 where
  here : Reach db db
  next : {d e : Db} → Reach db d → Step d e → Reach db e

abbrev pub empty : Db
empty = record {
  tables = record { jobs = []; attempts = [] };
  next_job_id = 1;
  deliveries = [];
  next_delivery_id = 1;
  pulls = [];
  next_pull_id = 1;
  lifecycle = [];
  refs = [];
  next_ref_id = 1;
}

empty-IsReady : IsReady empty
empty-IsReady = record { ahead = tt; consistent = tt; increasing = tt; exclusive = tt }

Step-IsReady : {d e : Db} → Step d e → IsReady d → IsReady e
Step-IsReady {d} (enqueue now show configured resolved e payload_sha256 eq) h =
    subst LeavesReady eq
      (enqueue_review_event-IsReady now show configured resolved e payload_sha256 d h)
Step-IsReady {d} (enqueue_index now show resolved e payload_sha256 eq) h =
    subst LeavesReady eq
      (enqueue_repository_index_event-IsReady now show resolved e payload_sha256 d h)
Step-IsReady {d} (ask now show resolved e payload_sha256 threads messages eq) h =
    subst LeavesQueueReady eq (
      enqueue_review_conversation_event-IsReady now show resolved e payload_sha256
        record { queue = d; threads = threads; messages = messages } h)
Step-IsReady {d} (claim now enabled locked worker_id lease_seconds base_delay max_delay eq) h =
    subst (λ r. IsSound d.next_job_id (jobs_after d.tables r)) eq
      (claim-IsSound now enabled locked worker_id lease_seconds base_delay max_delay d.tables h)
Step-IsReady {d} (heartbeat now job_id worker_id lease_seconds eq) h =
    subst (λ r. IsSound d.next_job_id (jobs_after d.tables r)) eq
      (heartbeat-IsSound now job_id worker_id lease_seconds d.tables h)
Step-IsReady {d} (complete now job_id worker_id) h =
    complete-IsSound now job_id worker_id d.tables h
Step-IsReady {d} (supersede now job_id worker_id) h =
    supersede-IsSound now job_id worker_id d.tables h
Step-IsReady {d} (fail now job_id worker_id error_code retryable base_delay max_delay eq) h =
    subst (λ r. IsSound d.next_job_id (jobs_after d.tables r)) eq
      (fail-IsSound now job_id worker_id error_code retryable base_delay max_delay d.tables h)

-- In every database that is reached from an empty one by enqueues of reviews, indexes and
-- questions, claims, heartbeats, completions, supersessions and failures, in any order: ids grow
-- along the table and stay below the sequence; a job has a lease exactly while it runs and an end
-- exactly once it is over; its attempts do not pass their maximum, and a queued job has one left;
-- and no two running jobs share a scope.
pub Reach-IsReady : {db : Db} → Reach empty db → IsReady db
Reach-IsReady here = empty-IsReady
Reach-IsReady (next r s) = Step-IsReady s (Reach-IsReady r)
