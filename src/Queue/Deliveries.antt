-- ===== src/Queue/Deliveries.antt =====
-- The rows that a webhook writes, and the deliveries of review/workflow.py: a delivery is recorded, or
-- it is one that was recorded before.
use diffuse.Prelude.{
  ℕ, ◌+◌, Bool, ◌&&◌, ◌||◌, Option, none, some, List, [], ◌∷◌, ◌++◌, Text, text_eq, length, all,
  leb, ◌==◌, if◌then◌else◌,
}
use diffuse.Queue.{Job, Status, update_where, find_where}
use diffuse.Queue.Lease.{Tables}

-- What identifies a delivery: `UNIQUE (scm_provider, scm_base_url, delivery_id)`.
pub record DeliveryKey : Type 0 where
  pub provider : Text
  pub scm_base_url : Text
  pub delivery_id : Text

pub data EventName : Type 0 where
  pull_request push review_comment : EventName

-- A row of scm_webhook_deliveries.
pub record Delivery : Type 0 where
  pub id : ℕ
  pub key : DeliveryKey
  pub event_name : EventName
  pub payload_sha256 : Text
  pub workflow_job_id : Option ℕ

pub data PullState : Type 0 where
  open_pull closed_pull merged_pull : PullState

pub data TriggerKind : Type 0 where
  automatic manual : TriggerKind

-- The columns of pull_requests that are only copied from the event.
pub record Details : Type 0 where
  pub web_url : Text
  pub author : Text
  pub base_branch : Text
  pub head_branch : Text
  pub is_draft : Bool
  pub labels : List Text
  pub title : Text
  pub description : Text
  pub changed_file_count : ℕ
  pub additions : ℕ
  pub deletions : ℕ

-- A row of pull_requests.
pub record PullRequest : Type 0 where
  pub id : ℕ
  pub repository_id : ℕ
  pub number : ℕ
  pub base_sha : Text
  pub head_sha : Text
  pub details : Details
  pub state : PullState
  pub source_created_at : Option ℕ
  pub source_closed_at : Option ℕ
  pub source_merged_at : Option ℕ
  pub latest_event_at : ℕ

-- A row of pull_request_lifecycle_events.
pub record LifecycleEvent : Type 0 where
  pub pull_request_id : ℕ
  pub scm_webhook_delivery_id : ℕ
  pub action : Text
  pub state : PullState
  pub source_event_at : ℕ
  pub source_created_at : Option ℕ
  pub source_closed_at : Option ℕ
  pub source_merged_at : Option ℕ

-- `PullRequestEvent` of scm.py, its texts validated there. A timestamp that is the empty text there
-- is `none`. The keys are properties of the event there, and any functions of it here.
pub record PullRequestEvent : Type 0 where
  pub key : DeliveryKey
  pub number : ℕ
  pub action : Text
  pub head_sha : Text
  pub base_sha : Text
  pub updated_at : ℕ
  pub details : Details
  pub trigger_kind : TriggerKind
  pub state : PullState
  pub source_created_at : Option ℕ
  pub source_closed_at : Option ℕ
  pub source_merged_at : Option ℕ
  pub scope_key : Text
  pub idempotency_key : Text
  pub payload : Text

-- A row of repository_refs.
pub record RepositoryRef : Type 0 where
  pub id : ℕ
  pub repository_id : ℕ
  pub ref_name : Text
  pub commit_sha : Text
  pub latest_event_at : ℕ

-- What `resolve_github_repository` returns of a repository.
pub record Repository : Type 0 where
  pub id : ℕ
  pub enabled : Bool
  pub auto_review : Bool
  pub has_clone_url : Bool

pub record Db : Type 0 where
  pub tables : Tables
  pub next_job_id : ℕ
  pub deliveries : List Delivery
  pub next_delivery_id : ℕ
  pub pulls : List PullRequest
  pub next_pull_id : ℕ
  pub lifecycle : List LifecycleEvent
  pub refs : List RepositoryRef
  pub next_ref_id : ℕ

-- `EnqueueResult.state`.
pub data EnqueueState : Type 0 where
  enqueued auto_review_disabled stale_delivery : EnqueueState
  duplicate_delivery : Option Status → EnqueueState
  pull_request_over : PullState → EnqueueState
  duplicate_revision : Status → EnqueueState
  not_diffuse_thread : EnqueueState
  duplicate_comment : Status → EnqueueState

pub record EnqueueResult : Type 0 where
  pub job_id : Option ℕ
  pub state : EnqueueState

pub data EnqueueError : Type 0 where
  payload_digest_invalid repository_not_onboarded delivery_conflict event_order_conflict :
      EnqueueError
  debounce_invalid unique_violation : EnqueueError

pub data Result {ℓ} (A : Type ℓ) : Type ℓ where
  ok : A → Result A
  err : EnqueueError → Result A

infixl 5 ◌>>=◌
abbrev pub ◌>>=◌ {ℓ κ} : {A : Type ℓ} {B : Type κ} → Result A → (A → Result B) → Result B
ok a >>= f = f a
err e >>= f = err e

-- `re.fullmatch(r"[0-9a-f]{64}", …)`
abbrev pub is_sha256 : Text → Bool
is_sha256 t =
    length t == 64 && all (λ c. (leb b'0' c && leb c b'9') || (leb b'a' c && leb c b'f')) t

abbrev pub same_key : DeliveryKey → DeliveryKey → Bool
same_key a b =
    text_eq a.provider b.provider
    && text_eq a.scm_base_url b.scm_base_url
    && text_eq a.delivery_id b.delivery_id

-- `LEFT JOIN workflow_jobs AS job ON job.id = delivery.workflow_job_id`
abbrev pub joined_status : List Job → Option ℕ → Option Status
joined_status jobs none = none
joined_status jobs (some i) = elim (find_where (λ j. j.id == i) jobs) [
  | none ↦ none
  | some j ↦ some j.status
]

-- A delivery that is recorded already changes nothing.
unfoldable pub redelivered : Db → Text → Delivery → Result (Db × EnqueueResult)
redelivered db payload_sha256 d =
    if text_eq d.payload_sha256 payload_sha256
    then ok (
      db,
      record {
        job_id = d.workflow_job_id;
        state = duplicate_delivery (joined_status db.tables.jobs d.workflow_job_id);
      },
    )
    else err delivery_conflict

unfoldable pub record_delivery : Db → DeliveryKey → EventName → Text → Db
record_delivery db key name payload_sha256 = record db {
  deliveries =
      db.deliveries
      ++ record {
        id = db.next_delivery_id;
        key = key;
        event_name = name;
        payload_sha256 = payload_sha256;
        workflow_job_id = none;
      }
        ∷ [];
  next_delivery_id = db.next_delivery_id + 1;
}

-- `UPDATE scm_webhook_deliveries SET workflow_job_id = … WHERE id = …`
unfoldable pub assign_delivery : ℕ → ℕ → Db → Db
assign_delivery job_id delivery_id db = record db {
  deliveries =
      update_where (λ d. d.id == delivery_id) (λ d. record d { workflow_job_id = some job_id })
        db.deliveries;
}

abbrev pub coalesce {ℓ} : {A : Type ℓ} → Option A → Option A → Option A
coalesce (some a) b = some a
coalesce none b = b

abbrev pub or_else {ℓ} : {A : Type ℓ} → Option A → A → A
or_else (some a) b = a
or_else none b = b
