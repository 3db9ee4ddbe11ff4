-- ===== src/Queue/Conversation/First.antt =====
-- An event that queues a question leaves a message of its comment.
use diffuse.Prelude.{
  ℕ, ◌≡◌, ◌⊎◌, refl, inl, inr, true, false, Option, none, some, List, Text, any, text_eq,
  text_eq_refl, ==_iff, Bool-cases,
}
use diffuse.Queue.{Job, find_where}
use diffuse.Queue.Deliveries.{
  Delivery, Repository, EnqueueResult, Result, ok, err, redelivered, is_sha256, ◌>>=◌,
}
use diffuse.Queue.Enqueue.{is_delivery}
use diffuse.Queue.Conversation.{
  ConversationEvent, Thread, ConversationDb, is_thread, is_message, clashes, insert_message,
  message_of, schedule_question, place_question, enqueue_question, if_thread, admit_question,
  enqueue_review_conversation_event,
}
use diffuse.Queue.Conversation.History.{is_enqueued, IsAsked, any-append_last}

-- An event that reports a queued question leaves a message of its comment behind.
abbrev pub Marks : ℕ → Text → Result (ConversationDb × EnqueueResult) → Type 0
Marks pull_id comment (err x) = Unit
Marks pull_id comment (ok (after, r)) =
    (is_enqueued r.state ≡ false) ⊎ IsAsked pull_id comment after

module _ (now : ℕ) (show : ℕ → Text) (e : ConversationEvent) (t : Thread) where
  abbrev MarksIt : Result (ConversationDb × EnqueueResult) → Type 0
  MarksIt = Marks t.pull_request_id e.external_comment_id

  message_of-is_message :
      (job_id : ℕ)
      → is_message t.pull_request_id e.external_comment_id (message_of job_id t e) ≡ true
  message_of-is_message job_id =
      rw ((==_iff t.pull_request_id t.pull_request_id).1 refl) (text_eq_refl e.external_comment_id)

  schedule_question-Marks :
      (repository_id delivery_id : ℕ) (jobs : List Job) (c : ConversationDb)
      → MarksIt (schedule_question now repository_id delivery_id e t jobs c)
  unfolding schedule_question insert_message
  schedule_question-Marks repository_id delivery_id jobs c =
      elim (Bool-cases (any (clashes (message_of c.queue.next_job_id t e)) c.messages)) [
        | inl u ↦ rw u tt
        | inr u ↦ rw u (
            inr (
              any-append_last (is_message t.pull_request_id e.external_comment_id) c.messages
                (message_of c.queue.next_job_id t e) (message_of-is_message c.queue.next_job_id)))
      ]

  place_question-Marks :
      (repository_id delivery_id : ℕ) (c : ConversationDb) (r : Result (List Job × Option Job))
      → MarksIt (r >>= place_question now repository_id delivery_id e t c)
  place_question-Marks repository_id delivery_id c (err x) = tt
  place_question-Marks repository_id delivery_id c (ok (jobs, some j)) = inl refl
  place_question-Marks repository_id delivery_id c (ok (jobs, none)) =
      schedule_question-Marks repository_id delivery_id jobs c

  if_thread-Marks :
      (repository_id delivery_id : ℕ) (c : ConversationDb)
      → MarksIt (if_thread now show repository_id delivery_id e (some t) c)
  unfolding enqueue_question
  if_thread-Marks repository_id delivery_id c =
      elim (Bool-cases (text_eq t.file_path e.file_path)) [
        | inl same ↦ rw same (place_question-Marks repository_id delivery_id c _)
        | inr same ↦ rw same (inl refl)
      ]

  admit_question-Marks :
      (repository_id : ℕ) (payload_sha256 : Text) (c : ConversationDb) (o : Option Delivery)
      → find_where (is_thread e repository_id) c.threads ≡ some t
      → MarksIt (admit_question now show repository_id e payload_sha256 c o)
  unfolding redelivered
  admit_question-Marks repository_id payload_sha256 c (some d) h =
      elim (Bool-cases (text_eq d.payload_sha256 payload_sha256)) [
        | inl same ↦ rw same (inl refl)
        | inr same ↦ rw same tt
      ]
  admit_question-Marks repository_id payload_sha256 c none h =
      rw h (if_thread-Marks repository_id c.queue.next_delivery_id _)

  pub event-Marks :
      (repository : Repository) (payload_sha256 : Text) (c : ConversationDb)
      → find_where (is_thread e repository.id) c.threads ≡ some t
      → MarksIt (enqueue_review_conversation_event now show (some repository) e payload_sha256 c)
  unfolding enqueue_review_conversation_event
  event-Marks repository payload_sha256 c h = elim (Bool-cases (is_sha256 payload_sha256)) [
    | inl s ↦ rw s elim (Bool-cases repository.enabled) [
      | inl on ↦ rw on (
          admit_question-Marks repository.id payload_sha256 c
            (find_where (is_delivery e.key) c.queue.deliveries) h)
      | inr on ↦ rw on tt
    ]
    | inr s ↦ rw s tt
  ]
