-- ===== src/Queue/Lease.antt =====
-- workflow.py, lines 1174 to 1668: claiming a job under a lease, keeping the lease, and ending the
-- job by completion, supersession or failure.
pub mod Rows
pub mod Holder
pub mod Eligible
pub mod Invariant
pub mod Ownership
pub mod Order
pub mod Backoff
pub mod Grant
use diffuse.Prelude.{
  is_space, is_some, ℕ, zero, suc, ◌+◌, ◌-◌, ◌*◌, ◌^◌, Bool, true, false, not, ◌&&◌, ◌||◌, Option,
  none, some, List, [], ◌∷◌, ◌++◌, Text, codes, length, text_eq, any, all, filter, min, max, ltb,
  leb, ◌==◌, if◌then◌else◌,
}
use diffuse.Queue.{
  Job, Attempt, Status, queued, running, succeeded, failed, dead, superseded, attempt_running,
  attempt_succeeded, attempt_failed, lease_expired, second, is_queued, is_running, is_active,
  is_attempt_running, update_where, find_where, before, after,
}

-- What a claim reads and writes.
pub record Tables : Type 0 where
  pub jobs : List Job
  pub attempts : List Attempt

-- The code `lease_expired` as a text.
abbrev pub lease_expired_code : Text
lease_expired_code = codes "lease_expired"

-- the test of both updates of the sweep
abbrev pub has_expired : ℕ → Job → Bool
has_expired now j = is_running j.status && before j.lease_expires_at now

-- The first statement of `claim_workflow_job`: the running attempt of a job whose lease ran out.
expire_attempt : ℕ → List Job → Attempt → Attempt
expire_attempt now jobs a =
    if is_attempt_running a.attempt_status
      && any
          (λ j.
            a.workflow_job_id == j.id && a.attempt_number == j.attempt_count && has_expired now j)
          jobs
    then record a {
      attempt_status = lease_expired;
      error_code = some lease_expired_code;
      finished_at = some now;
    }
    else a

-- `LEAST(max, base * power(2, attempt_count - 2))` from the second attempt on, else 0
unfoldable pub sweep_delay : ℕ → ℕ → ℕ → ℕ
sweep_delay base_delay max_delay attempt_count =
    if ltb 1 attempt_count then min max_delay (base_delay * 2 ^ (attempt_count - 2)) else 0

-- The second statement: the job itself goes back to the queue, or dies.
unfoldable pub expire_job : ℕ → ℕ → ℕ → Job → Job
unfolding sweep_delay
expire_job now base_delay max_delay j =
    if has_expired now j
    then record j {
      status = if leb j.max_attempts j.attempt_count then dead else queued;
      available_at = now + sweep_delay base_delay max_delay j.attempt_count * second;
      leased_by = none;
      lease_expires_at = none;
      last_error_code = some lease_expired_code;
      completed_at = if leb j.max_attempts j.attempt_count then some now else none;
    }
    else j

expire_attempts : ℕ → List Job → List Attempt → List Attempt
unfolding expire_attempt
expire_attempts now jobs [] = []
expire_attempts now jobs (a ∷ rest) = expire_attempt now jobs a ∷ expire_attempts now jobs rest

pub expire_jobs : ℕ → ℕ → ℕ → List Job → List Job
unfolding expire_job
expire_jobs now base_delay max_delay [] = []
expire_jobs now base_delay max_delay (j ∷ js) =
    expire_job now base_delay max_delay j ∷ expire_jobs now base_delay max_delay js

unfoldable pub sweep : ℕ → ℕ → ℕ → Tables → Tables
unfolding expire_attempts expire_jobs
sweep now base_delay max_delay db = record {
  jobs = expire_jobs now base_delay max_delay db.jobs;
  attempts = expire_attempts now db.jobs db.attempts;
}

abbrev pub same_scope : Job → Job → Bool
same_scope j k = text_eq j.scope_key k.scope_key

-- The `WHERE` clause of the candidate: due, its repository enabled, no earlier active job and no
-- running job of its scope. `locked` are the rows that `SKIP LOCKED` passes over.
abbrev pub claimable : ℕ → (ℕ → Bool) → (ℕ → Bool) → List Job → Job → Bool
claimable now enabled locked jobs j =
    is_queued j.status
    && enabled j.repository_id
    && leb j.available_at now
    && not (any (λ e. same_scope e j && ltb e.id j.id && is_active e.status) jobs)
    && not (any (λ r. same_scope r j && is_running r.status) jobs)
    && not (locked j.id)

-- `ORDER BY priority DESC, available_at, id`
abbrev pub comes_first : Job → Job → Bool
comes_first j k =
    if j.priority_below == k.priority_below
    then (if j.available_at == k.available_at
        then leb j.id k.id
        else ltb j.available_at k.available_at)
    else ltb j.priority_below k.priority_below

-- `LIMIT 1` after the order
order_first : Job → Option Job → Option Job
order_first j none = some j
order_first j (some k) = if comes_first j k then some j else some k

first_of_order : List Job → Option Job
unfolding order_first
first_of_order [] = none
first_of_order (j ∷ js) = order_first j (first_of_order js)

unfoldable pub candidate : ℕ → (ℕ → Bool) → (ℕ → Bool) → List Job → Option Job
unfolding first_of_order
candidate now enabled locked jobs = first_of_order (filter (claimable now enabled locked jobs) jobs)

abbrev pub start_attempt : ℕ → Text → ℕ → Job → Job
start_attempt now worker_id lease_seconds j = record j {
  status = running;
  attempt_count = j.attempt_count + 1;
  leased_by = some worker_id;
  lease_expires_at = some (now + lease_seconds * second);
  last_error_code = none;
}

abbrev pub has_id : ℕ → Job → Bool
has_id i j = j.id == i

-- The statements after the candidate is found; the job returned is the updated row.
pub take_job : ℕ → Text → ℕ → Tables → Option Job → Tables × Option Job
take_job now worker_id lease_seconds db none = (db, none)
take_job now worker_id lease_seconds db (some j) = (
  record {
    jobs = update_where (has_id j.id) (start_attempt now worker_id lease_seconds) db.jobs;
    attempts =
        db.attempts
        ++ record {
          workflow_job_id = j.id;
          attempt_number = j.attempt_count + 1;
          worker_id = worker_id;
          attempt_status = attempt_running;
          error_code = none;
          finished_at = none;
        }
          ∷ [];
  },
  some (start_attempt now worker_id lease_seconds j),
)

pub data ClaimError : Type 0 where
  worker_id_required lease_not_positive delay_not_positive error_code_invalid : ClaimError

pub data Outcome {ℓ} (A : Type ℓ) : Type ℓ where
  returned : A → Outcome A
  refused : ClaimError → Outcome A

-- `worker_id.strip()` is not empty. White space is what `str.strip` takes off, in ASCII.
abbrev pub is_blank : Text → Bool
is_blank = all is_space

unfoldable pub claim_workflow_job :
    ℕ → (ℕ → Bool) → (ℕ → Bool) → Text → ℕ → ℕ → ℕ → Tables → Outcome (Tables × Option Job)
unfolding candidate take_job sweep
claim_workflow_job now enabled locked worker_id lease_seconds base_delay max_delay db =
    if is_blank worker_id
    then refused worker_id_required
    else if lease_seconds == 0
    then refused lease_not_positive
    else if base_delay == 0 || max_delay == 0
    then refused delay_not_positive
    else let swept = sweep now base_delay max_delay db in
      returned
        (take_job now worker_id lease_seconds swept (candidate now enabled locked swept.jobs))

-- `id = … AND status = 'running' AND leased_by = … AND lease_expires_at > now()`
abbrev pub is_leased_by : Text → Option Text → Bool
is_leased_by worker_id none = false
is_leased_by worker_id (some w) = text_eq w worker_id

abbrev pub holds_lease : ℕ → ℕ → Text → Job → Bool
holds_lease now job_id worker_id j =
    j.id == job_id
    && is_running j.status
    && is_leased_by worker_id j.leased_by
    && after j.lease_expires_at now

unfoldable pub heartbeat_workflow_job : ℕ → ℕ → Text → ℕ → Tables → Outcome (Tables × Bool)
heartbeat_workflow_job now job_id worker_id lease_seconds db =
    if lease_seconds == 0
    then refused lease_not_positive
    else returned (
      record db {
        jobs =
            update_where (holds_lease now job_id worker_id)
              (λ j. record j { lease_expires_at = some (now + lease_seconds * second) }) db.jobs;
      },
      is_some (find_where (holds_lease now job_id worker_id) db.jobs),
    )

-- the running attempt of the job with this number
abbrev pub is_current_attempt : ℕ → ℕ → Attempt → Bool
is_current_attempt job_id number a =
    a.workflow_job_id == job_id && a.attempt_number == number && is_attempt_running a.attempt_status

-- The two updates that end a job, once the row that holds the lease is found.
abbrev pub end_job : ℕ → Status → Job → Job
end_job now ending j = record j {
  status = ending;
  leased_by = none;
  lease_expires_at = none;
  completed_at = some now;
}

-- `complete_workflow_job` and `supersede_workflow_job` differ in what they write.
pub finish_job : ℕ → ℕ → Text → Status → (Attempt → Attempt) → Tables → Option Job → Tables × Bool
finish_job now job_id worker_id ending close db none = (db, false)
finish_job now job_id worker_id ending close db (some j) = (
  record {
    jobs = update_where (holds_lease now job_id worker_id) (end_job now ending) db.jobs;
    attempts = update_where (is_current_attempt job_id j.attempt_count) close db.attempts;
  },
  true,
)

unfoldable pub complete_workflow_job : ℕ → ℕ → Text → Tables → Tables × Bool
unfolding finish_job
complete_workflow_job now job_id worker_id db =
    finish_job now job_id worker_id succeeded
      (λ a. record a { attempt_status = attempt_succeeded; finished_at = some now }) db
      (find_where (holds_lease now job_id worker_id) db.jobs)

-- The code `superseded` as a text.
abbrev pub superseded_code : Text
superseded_code = codes "superseded"

unfoldable pub supersede_workflow_job : ℕ → ℕ → Text → Tables → Tables × Bool
unfolding finish_job
supersede_workflow_job now job_id worker_id db =
    finish_job now job_id worker_id superseded
      (λ a. record a {
        attempt_status = attempt_failed;
        error_code = some superseded_code;
        finished_at = some now;
      })
      db (find_where (holds_lease now job_id worker_id) db.jobs)

-- `min(max_delay_seconds, base_delay_seconds * 2 ** max(0, attempt_count - 1))`
unfoldable pub retry_delay : ℕ → ℕ → ℕ → ℕ
retry_delay base_delay max_delay attempt_count =
    min max_delay (base_delay * 2 ^ (attempt_count - 1))

-- What `fail_workflow_job` makes of the row that it locked.
abbrev pub should_retry : Bool → Job → Bool
should_retry retryable j = retryable && ltb j.attempt_count j.max_attempts

abbrev pub next_status : Bool → Job → Status
next_status retryable j =
    if should_retry retryable j then queued else if retryable then dead else failed

-- `j` is the row that was locked, `k` the row that the update changes.
unfoldable pub fail_job : ℕ → Text → Bool → ℕ → ℕ → Job → Job → Job
unfolding retry_delay
fail_job now error_code retryable base_delay max_delay j k = record k {
  status = next_status retryable j;
  available_at =
      if should_retry retryable j
      then now + retry_delay base_delay max_delay j.attempt_count * second
      else k.available_at;
  leased_by = none;
  lease_expires_at = none;
  last_error_code = some error_code;
  completed_at = if should_retry retryable j then none else some now;
}

pub fail_found : ℕ → ℕ → Text → Bool → ℕ → ℕ → Tables → Option Job → Tables × Option Status
unfolding fail_job
fail_found now job_id error_code retryable base_delay max_delay db none = (db, none)
fail_found now job_id error_code retryable base_delay max_delay db (some j) = (
  record {
    jobs =
        update_where (has_id job_id) (fail_job now error_code retryable base_delay max_delay j)
          db.jobs;
    attempts =
        update_where (is_current_attempt job_id j.attempt_count)
          (λ a. record a {
            attempt_status = attempt_failed;
            error_code = some error_code;
            finished_at = some now;
          })
          db.attempts;
  },
  some (next_status retryable j),
)

-- `ERROR_CODE_PATTERN.fullmatch`
abbrev pub is_code_char : ℕ → Bool
is_code_char c = (leb b'a' c && leb c b'z') || (leb b'0' c && leb c b'9') || c == b'_'

abbrev pub is_error_code : Text → Bool
is_error_code t = leb 1 (length t) && leb (length t) 64 && all is_code_char t

unfoldable pub fail_workflow_job :
    ℕ → ℕ → Text → Text → Bool → ℕ → ℕ → Tables → Outcome (Tables × Option Status)
unfolding fail_found
fail_workflow_job now job_id worker_id error_code retryable base_delay max_delay db =
    if not (is_error_code error_code)
    then refused error_code_invalid
    else if base_delay == 0 || max_delay == 0
    then refused delay_not_positive
    else returned (
        fail_found now job_id error_code retryable base_delay max_delay db
          (find_where (holds_lease now job_id worker_id) db.jobs))

-- `workflow_job_is_latest`: the lease is held, the repository enabled, and no newer job is active.
unfoldable pub workflow_job_is_latest : ℕ → (ℕ → Bool) → ℕ → Text → List Job → Bool
workflow_job_is_latest now enabled job_id worker_id jobs =
    any
      (λ j.
        holds_lease now job_id worker_id j
        && enabled j.repository_id
        && not (any (λ n. same_scope n j && ltb j.id n.id && is_active n.status) jobs))
      jobs

-- `workflow_queue_depth`
pub record QueueDepth : Type 0 where
  pub queued_count : ℕ
  pub running_count : ℕ
  pub dead_count : ℕ
  pub failed_count : ℕ
  pub retrying_count : ℕ

abbrev pub count_where {ℓ} : {A : Type ℓ} → (A → Bool) → List A → ℕ
count_where test [] = 0
count_where test (x ∷ xs) = (if test x then 1 else 0) + count_where test xs

abbrev pub is_dead : Status → Bool
is_dead dead = true
is_dead _ = false

abbrev pub is_failed : Status → Bool
is_failed failed = true
is_failed _ = false

unfoldable pub workflow_queue_depth : ℕ → List Job → QueueDepth
workflow_queue_depth now jobs = record {
  queued_count = count_where (λ j. is_queued j.status) jobs;
  running_count = count_where (λ j. is_running j.status) jobs;
  dead_count = count_where (λ j. is_dead j.status) jobs;
  failed_count = count_where (λ j. is_failed j.status) jobs;
  retrying_count =
      count_where (λ j. is_queued j.status && ltb 0 j.attempt_count && ltb now j.available_at) jobs;
}
