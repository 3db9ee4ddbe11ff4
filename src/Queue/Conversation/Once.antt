-- ===== src/Queue/Conversation/Once.antt =====
-- A comment is asked once: by at most one message.
use diffuse.Prelude.{
  ℕ, ◌≡◌, ◌⊎◌, refl, inl, inr, Bool, false, ◌||◌, Option, none, some, List, [], ◌∷◌, ◌++◌, Text,
  any, text_eq, ◌==◌, arith, Bool-cases,
}
use diffuse.Queue.{Job, find_where}
use diffuse.Queue.Deliveries.{
  Db, Delivery, Repository, EnqueueResult, Result, ok, err, redelivered, is_sha256, ◌>>=◌,
  record_delivery, review_comment,
}
use diffuse.Queue.Enqueue.{retire_terminal_job, holds_key, is_delivery}
use diffuse.Queue.Conversation.{
  ConversationEvent, Thread, Message, ConversationDb, is_thread, is_message, clashes,
  insert_message, message_of, schedule_question, place_question, enqueue_question, if_thread,
  in_conversation, admit_question, if_enabled, enqueue_review_conversation_event,
}

-- The messages are those before, or one more that is the first of its comment in its pull request.
abbrev pub AsksOnce : ConversationDb → Result (ConversationDb × EnqueueResult) → Type 0
AsksOnce c (err x) = Unit
AsksOnce c (ok (after, r)) =
    (after.messages ≡ c.messages)
    ⊎ ((m : Message) × (after.messages ≡ c.messages ++ m ∷ [])
        × (r.job_id ≡ some m.workflow_job_id)
        × (any (is_message m.pull_request_id m.external_comment_id) c.messages ≡ false))

neither_right :
    (p q : Message → Bool) (ms : List Message) → any (λ m. p m || q m) ms ≡ false → any q ms ≡ false
neither_right p q [] h = h
neither_right p q (m ∷ ms) h = ground (arith, neither_right p q ms)

schedule_question-AsksOnce :
    (now repository_id delivery_id : ℕ) (e : ConversationEvent) (t : Thread) (jobs : List Job)
    (c : ConversationDb)
    → AsksOnce c (schedule_question now repository_id delivery_id e t jobs c)
unfolding schedule_question insert_message
schedule_question-AsksOnce now repository_id delivery_id e t jobs c =
    let m = message_of c.queue.next_job_id t e in
    elim (Bool-cases (any (clashes m) c.messages)) [
      | inl u ↦ rw u tt
      | inr u ↦ rw u (
          inr (
            m,
            refl,
            refl,
            neither_right (λ x. x.workflow_job_id == c.queue.next_job_id)
                (is_message t.pull_request_id e.external_comment_id) c.messages u,
          ))
    ]

enqueue_question-AsksOnce :
    (now : ℕ) (show : ℕ → Text) (repository_id delivery_id : ℕ) (e : ConversationEvent) (t : Thread)
    (c : ConversationDb)
    → AsksOnce c (enqueue_question now show repository_id delivery_id e t c)
unfolding enqueue_question
enqueue_question-AsksOnce now show repository_id delivery_id e t c = placed (
    retire_terminal_job show c.queue.tables.jobs
      (find_where (holds_key e.idempotency_key) c.queue.tables.jobs))
  where
    placed :
        (r : Result (List Job × Option Job))
        → AsksOnce c (r >>= place_question now repository_id delivery_id e t c)
    placed (err x) = tt
    placed (ok (jobs, some j)) = inl refl
    placed (ok (jobs, none)) = schedule_question-AsksOnce now repository_id delivery_id e t jobs c

if_thread-AsksOnce :
    (now : ℕ) (show : ℕ → Text) (repository_id delivery_id : ℕ) (e : ConversationEvent)
    (o : Option Thread) (c : ConversationDb)
    → AsksOnce c (if_thread now show repository_id delivery_id e o c)
if_thread-AsksOnce now show repository_id delivery_id e none c = inl refl
if_thread-AsksOnce now show repository_id delivery_id e (some t) c =
    elim (Bool-cases (text_eq t.file_path e.file_path)) [
      | inl same ↦ rw same (enqueue_question-AsksOnce now show repository_id delivery_id e t c)
      | inr same ↦ rw same (inl refl)
    ]

in_conversation-AsksOnce :
    (c : ConversationDb) (r : Result (Db × EnqueueResult)) → AsksOnce c (in_conversation c r)
in_conversation-AsksOnce c (err x) = tt
in_conversation-AsksOnce c (ok (db, r)) = inl refl

admit_question-AsksOnce :
    (now : ℕ) (show : ℕ → Text) (repository_id : ℕ) (e : ConversationEvent) (payload_sha256 : Text)
    (c : ConversationDb) (o : Option Delivery)
    → AsksOnce c (admit_question now show repository_id e payload_sha256 c o)
admit_question-AsksOnce now show repository_id e payload_sha256 c (some d) =
    in_conversation-AsksOnce c (redelivered c.queue payload_sha256 d)
admit_question-AsksOnce now show repository_id e payload_sha256 c none =
    if_thread-AsksOnce now show repository_id c.queue.next_delivery_id e
      (find_where (is_thread e repository_id) c.threads)
      record c { queue = record_delivery c.queue e.key review_comment payload_sha256 }

if_enabled-AsksOnce :
    (c : ConversationDb) (resolved : Option Repository)
    (continue : ℕ → Result (ConversationDb × EnqueueResult))
    → ((id : ℕ) → AsksOnce c (continue id))
    → AsksOnce c (if_enabled resolved continue)
if_enabled-AsksOnce c none continue h = tt
if_enabled-AsksOnce c (some repository) continue h = elim (Bool-cases repository.enabled) [
  | inl on ↦ rw on (h repository.id)
  | inr on ↦ rw on tt
]

-- A question event leaves the messages as they are, or adds one for the job that it reports; no earlier
-- message of that pull request has the same comment.
pub enqueue_review_conversation_event-AsksOnce :
    (now : ℕ) (show : ℕ → Text) (resolved : Option Repository) (e : ConversationEvent)
    (payload_sha256 : Text) (c : ConversationDb)
    → AsksOnce c (enqueue_review_conversation_event now show resolved e payload_sha256 c)
unfolding enqueue_review_conversation_event
enqueue_review_conversation_event-AsksOnce now show resolved e payload_sha256 c =
    elim (Bool-cases (is_sha256 payload_sha256)) [
      | inl s ↦ rw s (
          if_enabled-AsksOnce c resolved _ λ id.
            admit_question-AsksOnce now show id e payload_sha256 c
              (find_where (is_delivery e.key) c.queue.deliveries))
      | inr s ↦ rw s tt
    ]
