-- ===== src/Queue/Conversation/Invariant.antt =====
-- A question keeps the invariant of the table of jobs.
use diffuse.Prelude.{
  ℕ, refl, inl, inr, Option, none, some, List, Text, text_eq, arith, Bool-cases, any,
}
use diffuse.Queue.{Job, answer_review_comment, find_where}
use diffuse.Queue.Lease.Rows.{IsSound}
use diffuse.Queue.Deliveries.{
  Delivery, review_comment, Repository, EnqueueResult, Result, ok, err, ◌>>=◌, redelivered,
  record_delivery, assign_delivery, is_sha256,
}
use diffuse.Queue.Enqueue.{retire_terminal_job, new_job, holds_key, is_delivery}
use diffuse.Queue.Enqueue.Invariant.{Ensures, IsReady, insert-IsSound, retire-below}
use diffuse.Queue.Conversation.{
  ConversationEvent, Thread, ConversationDb, is_thread, clashes, message_of, insert_message,
  schedule_question, place_question, enqueue_question, if_thread, admit_question,
  enqueue_review_conversation_event,
}

abbrev pub LeavesQueueReady : Result (ConversationDb × EnqueueResult) → Type 0
LeavesQueueReady = Ensures (λ (c, _). IsReady c.queue)

schedule_question-IsReady :
    (now repository_id delivery_id : ℕ) (e : ConversationEvent) (t : Thread) (jobs : List Job)
    (c : ConversationDb)
    → IsSound c.queue.next_job_id jobs
    → LeavesQueueReady (schedule_question now repository_id delivery_id e t jobs c)
unfolding schedule_question insert_message
schedule_question-IsReady now repository_id delivery_id e t jobs c s =
    elim (Bool-cases (any (clashes (message_of c.queue.next_job_id t e)) c.messages)) [
      | inl u ↦ rw u tt
      | inr u ↦ rw u (
          insert-IsSound jobs
            (new_job c.queue.next_job_id answer_review_comment repository_id
              (some t.pull_request_id) e.idempotency_key e.scope_key e.base_sha e.head_sha e.payload
              now)
            (record {
              leased_iff_running = refl;
              expiry_iff_running = refl;
              completed_iff_over = refl;
              attempts_capped = omega arith;
              room_to_retry = λ q. omega arith;
            })
            refl s)
    ]

enqueue_question-IsReady :
    (now : ℕ) (show : ℕ → Text) (repository_id delivery_id : ℕ) (e : ConversationEvent) (t : Thread)
    (c : ConversationDb)
    → IsReady c.queue
    → LeavesQueueReady (enqueue_question now show repository_id delivery_id e t c)
unfolding enqueue_question
enqueue_question-IsReady now show repository_id delivery_id e t c h =
    placed
      (retire_terminal_job show c.queue.tables.jobs
        (find_where (holds_key e.idempotency_key) c.queue.tables.jobs))
      (retire-below show c.queue.next_job_id c.queue.tables.jobs _ h)
  where
    placed :
        (r : Result (List Job × Option Job))
        → Ensures (λ (jobs, _). IsSound c.queue.next_job_id jobs) r
        → LeavesQueueReady (r >>= place_question now repository_id delivery_id e t c)
    placed (err x) s = tt
    placed (ok (jobs, some j)) s = unfold assign_delivery in h
    placed (ok (jobs, none)) s =
        schedule_question-IsReady now repository_id delivery_id e t jobs c s

if_thread-IsReady :
    (now : ℕ) (show : ℕ → Text) (repository_id delivery_id : ℕ) (e : ConversationEvent)
    (o : Option Thread) (c : ConversationDb)
    → IsReady c.queue
    → LeavesQueueReady (if_thread now show repository_id delivery_id e o c)
if_thread-IsReady now show repository_id delivery_id e none c h = h
if_thread-IsReady now show repository_id delivery_id e (some t) c h =
    elim (Bool-cases (text_eq t.file_path e.file_path)) [
      | inl same ↦ rw same (enqueue_question-IsReady now show repository_id delivery_id e t c h)
      | inr same ↦ rw same h
    ]

admit_question-IsReady :
    (now : ℕ) (show : ℕ → Text) (repository_id : ℕ) (e : ConversationEvent) (payload_sha256 : Text)
    (c : ConversationDb) (o : Option Delivery)
    → IsReady c.queue
    → LeavesQueueReady (admit_question now show repository_id e payload_sha256 c o)
unfolding redelivered
admit_question-IsReady now show repository_id e payload_sha256 c (some d) h =
    elim (Bool-cases (text_eq d.payload_sha256 payload_sha256)) [ inl t ↦ rw t h | inr t ↦ rw t tt ]
admit_question-IsReady now show repository_id e payload_sha256 c none h =
    if_thread-IsReady now show repository_id c.queue.next_delivery_id e
      (find_where (is_thread e repository_id) c.threads)
      record c { queue = record_delivery c.queue e.key review_comment payload_sha256 }
      (unfold record_delivery in h)

-- Whatever the question and the outcome, it leaves the table of jobs sound and the sequence of ids
-- ahead of it, if both were so before.
pub enqueue_review_conversation_event-IsReady :
    (now : ℕ) (show : ℕ → Text) (resolved : Option Repository) (e : ConversationEvent)
    (payload_sha256 : Text) (c : ConversationDb)
    → IsReady c.queue
    → LeavesQueueReady (enqueue_review_conversation_event now show resolved e payload_sha256 c)
unfolding enqueue_review_conversation_event
enqueue_review_conversation_event-IsReady now show none e payload_sha256 c h =
    elim (Bool-cases (is_sha256 payload_sha256)) [ inl t ↦ rw t tt | inr t ↦ rw t tt ]
enqueue_review_conversation_event-IsReady now show (some repository) e payload_sha256 c h =
    elim (Bool-cases (is_sha256 payload_sha256)) [
      | inr t ↦ rw t tt
      | inl t ↦ rw t elim (Bool-cases repository.enabled) [
        | inr d ↦ rw d tt
        | inl d ↦ rw d (
            admit_question-IsReady now show repository.id e payload_sha256 c
              (find_where (is_delivery e.key) c.queue.deliveries) h)
      ]
    ]
