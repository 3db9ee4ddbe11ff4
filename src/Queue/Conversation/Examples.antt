-- ===== src/Queue/Conversation/Examples.antt =====
-- A question whose first job failed for good.
use diffuse.Queue.Conversation.History.{here, next, elsewhere}
use diffuse.Queue.Conversation.Again.{QueuesNothing, Answer, question_queued_once}
use diffuse.Prelude.{ℕ, refl, true, none, some, [], ◌∷◌, Text, codes}
use diffuse.Queue.{find_where, Job, dead, answer_review_comment}
use diffuse.Queue.Deliveries.{
  Repository, EnqueueResult, not_diffuse_thread, Result, ok, err, record_delivery,
}
use diffuse.Queue.Enqueue.{new_job, insert_job, holds_key}
use diffuse.Queue.Reach.{empty}
use diffuse.Queue.Conversation.{
  ConversationEvent, Thread, ConversationDb, message_of, enqueue_question,
  enqueue_review_conversation_event,
}
use diffuse.Queue.Conversation.Once.{AsksOnce, enqueue_review_conversation_event-AsksOnce}

abbrev digest : Text
digest = codes "00112233445566778899aabbccddeeff00112233445566778899aabbccddeeff"

abbrev repository : Repository
repository = record { id = 1; enabled = true; auto_review = true; has_clone_url = true }

abbrev event : ConversationEvent
event = record {
  key = record {
    provider = codes "github";
    scm_base_url = codes "https://github.com";
    delivery_id = codes "d3";
  };
  number = 7;
  external_comment_id = codes "55";
  root_comment_id = codes "50";
  head_sha = codes "h1";
  base_sha = codes "b0";
  file_path = codes "a.py";
  asked = record {
    author = codes "ann";
    author_association = codes "OWNER";
    question = codes "why?";
    line = 3;
    side = codes "RIGHT";
    diff_hunk = [];
    comment_commit_sha = codes "h1";
    created_at = codes "t";
  };
  scope_key = codes "thread:50";
  idempotency_key = codes "thread:50:comment:55";
  payload = [];
}

abbrev thread : Thread
thread = record {
  pull_request_id = 2;
  thread_id = 9;
  repository_id = 1;
  number = 7;
  provider = codes "github";
  root_comment_id = codes "50";
  file_path = codes "a.py";
}

abbrev failed_job : Job
failed_job =
    record (new_job 1 answer_review_comment 1 (some 2) event.idempotency_key event.scope_key
      (codes "b0") (codes "h1") [] 10) { status = dead }

abbrev asked_before : ConversationDb
unfolding insert_job
asked_before = record {
  queue = insert_job failed_job empty;
  threads = thread ∷ [];
  messages = message_of 1 thread event ∷ [];
}

abbrev number_text : ℕ → Text
number_text n = n ∷ []

abbrev unasked : ConversationDb
unasked = record { queue = empty; threads = thread ∷ []; messages = [] }

abbrev database_of : Result (ConversationDb × EnqueueResult) → ConversationDb
database_of (err x) = unasked
database_of (ok (c, r)) = c

abbrev result_of : Result (ConversationDb × EnqueueResult) → EnqueueResult
result_of (err x) = record { job_id = none; state = not_diffuse_thread }
result_of (ok (c, r)) = r

abbrev first_event : Result (ConversationDb × EnqueueResult)
unfolding enqueue_review_conversation_event
first_event =
    enqueue_review_conversation_event 10 number_text (some repository) event digest unasked

-- The same comment, delivered once more.
abbrev edited : ConversationEvent
edited = record event {
  key = record {
    provider = codes "github";
    scm_base_url = codes "https://github.com";
    delivery_id = codes "d4";
  };
}

-- The job of the question died in the meantime.
abbrev job_died : ConversationDb
unfolding insert_job enqueue_review_conversation_event
job_died = record {
  queue = insert_job failed_job empty;
  threads = thread ∷ [];
  messages = (database_of first_event).messages;
}

question_queued_once_example :
    QueuesNothing job_died
      (enqueue_review_conversation_event 30 number_text (some repository) edited digest job_died)
    × Answer job_died 4
        (enqueue_question 30 number_text 1 4 edited thread job_died)
        (find_where (holds_key edited.idempotency_key) job_died.queue.tables.jobs)
unfolding enqueue_review_conversation_event record_delivery
question_queued_once_example =
    question_queued_once 10 number_text repository event digest thread unasked
      {after = database_of first_event} {r = result_of first_event} job_died 30 repository edited
      digest 4 thread refl refl refl
      (next here (elsewhere (insert_job failed_job empty) (thread ∷ []))) refl refl refl

enqueue_review_conversation_event-AsksOnce_example :
    AsksOnce asked_before
      (enqueue_review_conversation_event 20 number_text (some repository) event digest asked_before)
enqueue_review_conversation_event-AsksOnce_example =
    enqueue_review_conversation_event-AsksOnce 20 number_text (some repository) event digest
      asked_before
