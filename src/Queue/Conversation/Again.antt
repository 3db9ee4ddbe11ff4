-- ===== src/Queue/Conversation/Again.antt =====
-- Every later event of a comment that was queued.
use diffuse.Prelude.{
  ℕ, ◌≡◌, ◌⊎◌, refl, inl, inr, sym, ap, ◌∙◌, subst, true, false, Option, none, some, List, Text,
  any, text_eq, ◌==◌, Bool-cases, false≢true,
}
use diffuse.Queue.{Job, is_terminal_failure, find_where}
use diffuse.Queue.Deliveries.{
  Delivery, Repository, EnqueueResult, enqueued, duplicate_comment, Result, ok, err,
  unique_violation, redelivered, is_sha256, ◌>>=◌, record_delivery, assign_delivery, review_comment,
}
use diffuse.Queue.Enqueue.{retire_terminal_job, retired_key, holds_key, is_delivery}
use diffuse.Queue.Conversation.{
  ConversationEvent, Thread, ConversationDb, is_thread, is_message, insert_message,
  schedule_question, place_question, enqueue_question, if_thread, admit_question,
  enqueue_review_conversation_event,
}
use diffuse.Queue.Conversation.History.{
  is_enqueued, ConversationReach, IsAsked, any-either, reach-IsAsked,
}
use diffuse.Queue.Conversation.First.{Marks, event-Marks}

-- Nothing is queued: the transaction is rolled back, or leaves the jobs and the messages as they are
-- and does not report a queued question.
abbrev pub QueuesNothing : ConversationDb → Result (ConversationDb × EnqueueResult) → Type 0
QueuesNothing c (err x) = Unit
QueuesNothing c (ok (after, r)) =
    (after.queue.tables ≡ c.queue.tables)
    × (after.messages ≡ c.messages)
    × (is_enqueued r.state ≡ false)

-- How a question is answered whose comment has a message: by the job that holds its key, unless that
-- failed for good; and with the violation of a unique constraint if there is no such job.
abbrev pub Answer :
    ConversationDb → ℕ → Result (ConversationDb × EnqueueResult) → Option Job → Type 0
Answer c delivery_id result none = result ≡ err unique_violation
Answer c delivery_id result (some j) =
    ((is_terminal_failure j.status ≡ true) × (result ≡ err unique_violation))
    ⊎ ((is_terminal_failure j.status ≡ false)
        × (result
            ≡ ok (
              record c { queue = assign_delivery j.id delivery_id c.queue },
              record { job_id = some j.id; state = duplicate_comment j.status },
            )))

module _ (now : ℕ) (show : ℕ → Text) (e : ConversationEvent) (t : Thread) where
  module _ (repository_id delivery_id : ℕ) (c : ConversationDb)
      (asked : IsAsked t.pull_request_id e.external_comment_id c) where
    schedule_question-refused :
        (jobs : List Job)
        → schedule_question now repository_id delivery_id e t jobs c ≡ err unique_violation
    unfolding schedule_question insert_message
    schedule_question-refused jobs =
        rw
          (any-either (λ m. m.workflow_job_id == c.queue.next_job_id)
            (is_message t.pull_request_id e.external_comment_id) c.messages asked)
          refl

    retire-Answer :
        (o : Option Job)
        → Answer c delivery_id
            (retire_terminal_job show c.queue.tables.jobs o
              >>= place_question now repository_id delivery_id e t c)
            o
    unfolding retire_terminal_job
    retire-Answer none = schedule_question-refused c.queue.tables.jobs
    retire-Answer (some j) = elim (Bool-cases (is_terminal_failure j.status)) [
      | inr live ↦ inr (live, rw live refl)
      | inl over ↦
          elim (Bool-cases
            (any (λ k. text_eq k.idempotency_key (retired_key show j)) c.queue.tables.jobs)) [
              | inl taken ↦ inl (over, rw (over, taken) refl)
              | inr free ↦ inl (over, rw (over, free) (schedule_question-refused _))
            ]
    ]

    enqueue_question-Answer :
        Answer c delivery_id
          (enqueue_question now show repository_id delivery_id e t c)
          (find_where (holds_key e.idempotency_key) c.queue.tables.jobs)
    unfolding enqueue_question
    enqueue_question-Answer = retire-Answer _

  Answer-QueuesNothing :
      (c : ConversationDb) (delivery_id : ℕ) (result : Result (ConversationDb × EnqueueResult))
      (o : Option Job)
      → Answer c delivery_id result o
      → QueuesNothing c result
  unfolding assign_delivery
  Answer-QueuesNothing c delivery_id result none h = rw h tt
  Answer-QueuesNothing c delivery_id result (some j) (inl (_, h)) = rw h tt
  Answer-QueuesNothing c delivery_id result (some j) (inr (_, h)) = rw h (refl, refl, refl)

  if_thread-QueuesNothing :
      (repository_id delivery_id : ℕ) (c : ConversationDb)
      → IsAsked t.pull_request_id e.external_comment_id c
      → QueuesNothing c (if_thread now show repository_id delivery_id e (some t) c)
  if_thread-QueuesNothing repository_id delivery_id c asked =
      elim (Bool-cases (text_eq t.file_path e.file_path)) [
        | inl same ↦ rw same (
            Answer-QueuesNothing c delivery_id _ _
              (enqueue_question-Answer repository_id delivery_id c asked))
        | inr same ↦ rw same (refl, refl, refl)
      ]

  -- The record of the delivery is no job and no message.
  after_delivery :
      (payload_sha256 : Text) (c : ConversationDb)
      (result : Result (ConversationDb × EnqueueResult))
      → QueuesNothing
          record c { queue = record_delivery c.queue e.key review_comment payload_sha256 }
          result
      → QueuesNothing c result
  unfolding record_delivery
  after_delivery payload_sha256 c (err x) h = tt
  after_delivery payload_sha256 c (ok (after, r)) h = h

  admit_question-QueuesNothing :
      (repository_id : ℕ) (payload_sha256 : Text) (c : ConversationDb) (o : Option Delivery)
      → find_where (is_thread e repository_id) c.threads ≡ some t
      → IsAsked t.pull_request_id e.external_comment_id c
      → QueuesNothing c (admit_question now show repository_id e payload_sha256 c o)
  unfolding redelivered
  admit_question-QueuesNothing repository_id payload_sha256 c (some d) h asked =
      elim (Bool-cases (text_eq d.payload_sha256 payload_sha256)) [
        | inl same ↦ rw same (refl, refl, refl)
        | inr same ↦ rw same tt
      ]
  admit_question-QueuesNothing repository_id payload_sha256 c none h asked = rw h (
      after_delivery payload_sha256 c _ (
        if_thread-QueuesNothing repository_id c.queue.next_delivery_id
          record c { queue = record_delivery c.queue e.key review_comment payload_sha256 } asked))

  event-QueuesNothing :
      (repository : Repository) (payload_sha256 : Text) (c : ConversationDb)
      → find_where (is_thread e repository.id) c.threads ≡ some t
      → IsAsked t.pull_request_id e.external_comment_id c
      → QueuesNothing c
          (enqueue_review_conversation_event now show (some repository) e payload_sha256 c)
  unfolding enqueue_review_conversation_event
  event-QueuesNothing repository payload_sha256 c h asked =
      elim (Bool-cases (is_sha256 payload_sha256)) [
        | inl s ↦ rw s elim (Bool-cases repository.enabled) [
          | inl on ↦ rw on (
              admit_question-QueuesNothing repository.id payload_sha256 c
                (find_where (is_delivery e.key) c.queue.deliveries) h asked)
          | inr on ↦ rw on tt
        ]
        | inr s ↦ rw s tt
      ]

enqueued-IsAsked :
    (pull_id : ℕ) (comment : Text) (c : ConversationDb) (r : EnqueueResult)
    → r.state ≡ enqueued
    → Marks pull_id comment (ok (c, r))
    → IsAsked pull_id comment c
enqueued-IsAsked pull_id comment c r h (inl n) = absurd (false≢true (sym n ∙ ap is_enqueued h))
enqueued-IsAsked pull_id comment c r h (inr asked) = asked

-- Once an event of a comment was committed and reported its question as queued, then after any later
-- transactions, any event of the same comment in a thread of the same pull request queues nothing: it
-- is rolled back, or leaves jobs and messages as they are and reports no queued question. The step that
-- handles the question in its thread answers with the job that still holds its key; if there is none,
-- or it failed for good, that step is refused by the unique constraint on the messages.
pub question_queued_once :
    (now : ℕ) (show : ℕ → Text) (repository : Repository) (e : ConversationEvent)
    (payload_sha256 : Text) (t : Thread) (c : ConversationDb) {after : ConversationDb}
    {r : EnqueueResult} (later : ConversationDb) (later_now : ℕ) (later_repository : Repository)
    (again : ConversationEvent) (again_sha256 : Text) (delivery_id : ℕ) (u : Thread)
    → find_where (is_thread e repository.id) c.threads ≡ some t
    → enqueue_review_conversation_event now show (some repository) e payload_sha256 c
      ≡ ok (after, r)
    → r.state ≡ enqueued
    → ConversationReach after later
    → again.external_comment_id ≡ e.external_comment_id
    → u.pull_request_id ≡ t.pull_request_id
    → find_where (is_thread again later_repository.id) later.threads ≡ some u
    → QueuesNothing later (
        enqueue_review_conversation_event later_now show
          (some later_repository)
          again
          again_sha256
          later)
      × Answer later delivery_id
          (enqueue_question later_now show later_repository.id delivery_id again u later)
          (find_where (holds_key again.idempotency_key) later.queue.tables.jobs)
question_queued_once now show repository e payload_sha256 t c {after} {r} later later_now
      later_repository again again_sha256 delivery_id u found committed queued_once reached
      same_comment same_pull thread =
    let marked : IsAsked t.pull_request_id e.external_comment_id after =
      enqueued-IsAsked _ _ after r queued_once (
        subst (Marks t.pull_request_id e.external_comment_id) committed
          (event-Marks now show e t repository payload_sha256 c found)) in
    let kept = reach-IsAsked t.pull_request_id e.external_comment_id reached marked in
    let asked : IsAsked u.pull_request_id again.external_comment_id later =
      rw (same_pull, same_comment) kept in
    (
      event-QueuesNothing later_now show again u later_repository again_sha256 later thread asked,
      enqueue_question-Answer later_now show again u later_repository.id delivery_id later asked,
    )
