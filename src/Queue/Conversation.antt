-- ===== src/Queue/Conversation.antt =====
-- `enqueue_review_conversation_event` of review/workflow.py: a question in a thread that Diffuse opened is
-- queued once, on the database of the review webhooks.
pub mod Invariant
pub mod Once
pub mod History
pub mod First
pub mod Again
mod Examples
use diffuse.Prelude.{
  ℕ, ◌+◌, ◌≡◌, refl, inl, inr, Bool, true, false, not, ◌&&◌, ◌||◌, Option, none, some, List, [],
  ◌∷◌, ◌++◌, Text, text_eq, any, ◌==◌, if◌then◌else◌,
}
use diffuse.Queue.{Job, answer_review_comment, is_terminal_failure, find_where}
use diffuse.Queue.Deliveries.{
  Db, Delivery, DeliveryKey, review_comment, Repository, EnqueueResult, enqueued,
  not_diffuse_thread, duplicate_comment, Result, ok, err, ◌>>=◌, payload_digest_invalid,
  repository_not_onboarded, unique_violation, is_sha256, redelivered, record_delivery,
  assign_delivery,
}
use diffuse.Queue.Enqueue.{
  retire_terminal_job, new_job, with_jobs, insert_job, holds_key, is_delivery,
}

-- The columns of review_conversation_messages that are only copied from the event.
pub record Question : Type 0 where
  pub author : Text
  pub author_association : Text
  pub question : Text
  pub line : ℕ
  pub side : Text
  pub diff_hunk : Text
  pub comment_commit_sha : Text
  pub created_at : Text

-- `ReviewConversationEvent` of scm.py, its texts validated there. The keys are properties of the event
-- there, and any functions of it here.
pub record ConversationEvent : Type 0 where
  pub key : DeliveryKey
  pub number : ℕ
  pub external_comment_id : Text
  pub root_comment_id : Text
  pub head_sha : Text
  pub base_sha : Text
  pub file_path : Text
  pub asked : Question
  pub scope_key : Text
  pub idempotency_key : Text
  pub payload : Text

-- A row of the join of pull_requests, finding_lineages, finding_threads and the latest applied finding,
-- tables that this operation only reads.
pub record Thread : Type 0 where
  pub pull_request_id : ℕ
  pub thread_id : ℕ
  pub repository_id : ℕ
  pub number : ℕ
  pub provider : Text
  pub root_comment_id : Text
  pub file_path : Text

-- A row of review_conversation_messages.
pub record Message : Type 0 where
  pub workflow_job_id : ℕ
  pub pull_request_id : ℕ
  pub finding_thread_id : ℕ
  pub external_comment_id : Text
  pub root_comment_id : Text
  pub file_path : Text
  pub base_sha : Text
  pub head_sha : Text
  pub asked : Question

pub record ConversationDb : Type 0 where
  pub queue : Db
  pub threads : List Thread
  pub messages : List Message

abbrev pub is_thread : ConversationEvent → ℕ → Thread → Bool
is_thread e repository_id t =
    text_eq t.provider e.key.provider
    && text_eq t.root_comment_id e.root_comment_id
    && t.repository_id == repository_id
    && t.number == e.number

abbrev pub is_message : ℕ → Text → Message → Bool
is_message pull_id comment m = m.pull_request_id == pull_id && text_eq m.external_comment_id comment

-- The unique constraints of the table.
abbrev pub clashes : Message → Message → Bool
clashes new m =
    m.workflow_job_id == new.workflow_job_id
    || is_message new.pull_request_id new.external_comment_id m

-- `INSERT INTO review_conversation_messages`
unfoldable pub insert_message : Message → List Message → Result (List Message)
insert_message new messages =
    if any (clashes new) messages then err unique_violation else ok (messages ++ new ∷ [])

abbrev pub message_of : ℕ → Thread → ConversationEvent → Message
message_of job_id t e = record {
  workflow_job_id = job_id;
  pull_request_id = t.pull_request_id;
  finding_thread_id = t.thread_id;
  external_comment_id = e.external_comment_id;
  root_comment_id = e.root_comment_id;
  file_path = e.file_path;
  base_sha = e.base_sha;
  head_sha = e.head_sha;
  asked = e.asked;
}

-- The question becomes a job with its message.
unfoldable pub schedule_question :
    ℕ
    → ℕ
    → ℕ
    → ConversationEvent
    → Thread
    → List Job
    → ConversationDb
    → Result (ConversationDb × EnqueueResult)
unfolding insert_message insert_job assign_delivery
schedule_question now repository_id delivery_id e t jobs c =
    let job_id = c.queue.next_job_id in
    let job =
      new_job job_id answer_review_comment repository_id (some t.pull_request_id) e.idempotency_key
        e.scope_key e.base_sha e.head_sha e.payload now in
    insert_message (message_of job_id t e) c.messages >>= λ messages. ok (
      record c {
        queue = assign_delivery job_id delivery_id (insert_job job (with_jobs jobs c.queue));
        messages = messages;
      },
      record { job_id = some job_id; state = enqueued },
    )

-- The job that still holds the key is reported; without one the question is scheduled.
abbrev pub place_question :
    ℕ
    → ℕ
    → ℕ
    → ConversationEvent
    → Thread
    → ConversationDb
    → List Job × Option Job
    → Result (ConversationDb × EnqueueResult)
place_question now repository_id delivery_id e t c (jobs, some j) = ok (
  record c { queue = assign_delivery j.id delivery_id c.queue },
  record { job_id = some j.id; state = duplicate_comment j.status },
)
place_question now repository_id delivery_id e t c (jobs, none) =
    schedule_question now repository_id delivery_id e t jobs c

-- A question in a thread that is found, whose finding is still in the file.
unfoldable pub enqueue_question :
    ℕ
    → (ℕ → Text)
    → ℕ
    → ℕ
    → ConversationEvent
    → Thread
    → ConversationDb
    → Result (ConversationDb × EnqueueResult)
unfolding retire_terminal_job schedule_question
enqueue_question now show repository_id delivery_id e t c =
    retire_terminal_job show c.queue.tables.jobs
      (find_where (holds_key e.idempotency_key) c.queue.tables.jobs)
    >>= place_question now repository_id delivery_id e t c

abbrev pub ignored_thread : ConversationDb → Result (ConversationDb × EnqueueResult)
ignored_thread c = ok (c, record { job_id = none; state = not_diffuse_thread })

abbrev pub if_thread :
    ℕ
    → (ℕ → Text)
    → ℕ
    → ℕ
    → ConversationEvent
    → Option Thread
    → ConversationDb
    → Result (ConversationDb × EnqueueResult)
if_thread now show repository_id delivery_id e none c = ignored_thread c
if_thread now show repository_id delivery_id e (some t) c =
    if text_eq t.file_path e.file_path
    then enqueue_question now show repository_id delivery_id e t c
    else ignored_thread c

abbrev pub in_conversation :
    ConversationDb → Result (Db × EnqueueResult) → Result (ConversationDb × EnqueueResult)
in_conversation c (err x) = err x
in_conversation c (ok (db, r)) = ok (record c { queue = db }, r)

abbrev pub admit_question :
    ℕ
    → (ℕ → Text)
    → ℕ
    → ConversationEvent
    → Text
    → ConversationDb
    → Option Delivery
    → Result (ConversationDb × EnqueueResult)
admit_question now show repository_id e payload_sha256 c (some d) =
    in_conversation c (redelivered c.queue payload_sha256 d)
admit_question now show repository_id e payload_sha256 c none =
    if_thread now show repository_id c.queue.next_delivery_id e
      (find_where (is_thread e repository_id) c.threads)
      record c { queue = record_delivery c.queue e.key review_comment payload_sha256 }

abbrev pub if_enabled :
    Option Repository
    → (ℕ → Result (ConversationDb × EnqueueResult))
    → Result (ConversationDb × EnqueueResult)
if_enabled none continue = err repository_not_onboarded
if_enabled (some repository) continue =
    if repository.enabled then continue repository.id else err repository_not_onboarded

-- `resolved` is what `resolve_github_repository` returned.
unfoldable pub enqueue_review_conversation_event :
    ℕ
    → (ℕ → Text)
    → Option Repository
    → ConversationEvent
    → Text
    → ConversationDb
    → Result (ConversationDb × EnqueueResult)
unfolding enqueue_question
enqueue_review_conversation_event now show resolved e payload_sha256 c =
    if not (is_sha256 payload_sha256)
    then err payload_digest_invalid
    else if_enabled resolved λ repository_id.
      admit_question now show repository_id e payload_sha256 c
        (find_where (is_delivery e.key) c.queue.deliveries)
