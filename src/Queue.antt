-- ===== src/Queue.antt =====
-- packages/server/src/diffuse/review/workflow.py: the PostgreSQL workflow queue. The tables that it
-- reads and writes (packages/server/migrations/schema.sql) are lists of records, a statement is a
-- function on them, and a transaction is a function on the database.
pub mod Lease
pub mod Deliveries
pub mod Pulls
pub mod Enqueue
pub mod Index
pub mod Reach
pub mod Current
pub mod Rejection
pub mod Conversation
mod Examples
use diffuse.Prelude.{
  ℕ, zero, suc, ◌+◌, ◌*◌, Bool, true, false, ◌&&◌, ◌||◌, Option, none, some, List, [], ◌∷◌, Text,
  ltb, leb, ◌==◌, if◌then◌else◌,
}

pub data Status : Type 0 where
  queued running succeeded failed dead cancelled superseded : Status

pub data AttemptStatus : Type 0 where
  attempt_running attempt_succeeded attempt_failed lease_expired : AttemptStatus

pub data JobType : Type 0 where
  review_pull_request answer_review_comment sync_review_feedback index_repository : JobType

-- `interval '1 second'`: a time is a number of microseconds.
abbrev pub second : ℕ
second = 1000000

-- A row of workflow_jobs. `priority` is at most 0 in the program, and is kept as its distance below
-- 0. `updated_at` and `created_at`, which nothing reads, are left out.
pub record Job : Type 0 where
  pub id : ℕ
  pub repository_id : ℕ
  pub pull_request_id : Option ℕ
  pub job_type : JobType
  pub idempotency_key : Text
  pub scope_key : Text
  pub base_revision : Text
  pub revision : Text
  pub status : Status
  pub payload : Text
  pub priority_below : ℕ
  pub attempt_count : ℕ
  pub max_attempts : ℕ
  pub available_at : ℕ
  pub leased_by : Option Text
  pub lease_expires_at : Option ℕ
  pub last_error_code : Option Text
  pub completed_at : Option ℕ

-- A row of workflow_attempts.
pub record Attempt : Type 0 where
  pub workflow_job_id : ℕ
  pub attempt_number : ℕ
  pub worker_id : Text
  pub attempt_status : AttemptStatus
  pub error_code : Option Text
  pub finished_at : Option ℕ

abbrev pub is_queued : Status → Bool
is_queued queued = true
is_queued _ = false

abbrev pub is_running : Status → Bool
is_running running = true
is_running _ = false

-- `status IN ('queued', 'running')`
abbrev pub is_active : Status → Bool
is_active queued = true
is_active running = true
is_active _ = false

-- `TERMINAL_JOB_STATUSES`
abbrev pub is_terminal_failure : Status → Bool
is_terminal_failure dead = true
is_terminal_failure failed = true
is_terminal_failure _ = false

abbrev pub is_attempt_running : AttemptStatus → Bool
is_attempt_running attempt_running = true
is_attempt_running _ = false

-- `UPDATE … WHERE test`
abbrev pub update_where {ℓ} : {A : Type ℓ} → (A → Bool) → (A → A) → List A → List A
update_where test change [] = []
update_where test change (x ∷ xs) = (if test x then change x else x) ∷ update_where test change xs

-- The first row that passes the test.
abbrev pub find_where {ℓ} : {A : Type ℓ} → (A → Bool) → List A → Option A
find_where test [] = none
find_where test (x ∷ xs) = let later = find_where test xs in if test x then some x else later

-- `time < now()` and `time > now()`, which NULL does not satisfy
abbrev pub before : Option ℕ → ℕ → Bool
before none now = false
before (some t) now = ltb t now

abbrev pub after : Option ℕ → ℕ → Bool
after none now = false
after (some t) now = ltb now t
