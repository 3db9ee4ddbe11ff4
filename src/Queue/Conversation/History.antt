-- ===== src/Queue/Conversation/History.antt =====
-- A question that was queued is not queued again, whatever happens to the queue in between.
use diffuse.Prelude.{
  ℕ, ◌≡◌, refl, inl, inr, subst, Bool, true, false, ◌||◌, Option, List, [], ◌∷◌, ◌++◌, Text, any,
  arith, false≢true,
}
use diffuse.Queue.Deliveries.{
  Db, Repository, EnqueueResult, EnqueueState, enqueued, Result, ok, err,
}
use diffuse.Queue.Conversation.Once.{AsksOnce, enqueue_review_conversation_event-AsksOnce}
use diffuse.Queue.Conversation.{
  ConversationEvent, Thread, Message, ConversationDb, is_message, enqueue_review_conversation_event,
}

abbrev pub is_enqueued : EnqueueState → Bool
is_enqueued enqueued = true
is_enqueued _ = false

-- Between two questions other transactions change the queue and the threads in any way, and question
-- events are committed. No transaction of the program deletes a message.
pub data ConversationStep (c : ConversationDb) : ConversationDb → Type 0 where
  elsewhere :
      (queue : Db) (threads : List Thread)
      → ConversationStep c record { queue = queue; threads = threads; messages = c.messages }
  asked :
      (now : ℕ) (show : ℕ → Text) (resolved : Option Repository) (e : ConversationEvent)
      (payload_sha256 : Text) {after : ConversationDb} {r : EnqueueResult}
      → enqueue_review_conversation_event now show resolved e payload_sha256 c ≡ ok (after, r)
      → ConversationStep c after

pub data ConversationReach (c : ConversationDb) : ConversationDb → Type 0 where
  here : ConversationReach c c
  next :
      {d e : ConversationDb} → ConversationReach c d → ConversationStep d e → ConversationReach c e

-- The comment has a message in the pull request.
abbrev pub IsAsked : ℕ → Text → ConversationDb → Type 0
IsAsked pull_id comment c = any (is_message pull_id comment) c.messages ≡ true

any-append_left :
    (q : Message → Bool) (ms ns : List Message) → any q ms ≡ true → any q (ms ++ ns) ≡ true
any-append_left q [] ns h = absurd (false≢true h)
any-append_left q (m ∷ ms) ns h = ground (arith, any-append_left q ms ns)

pub any-append_last :
    (q : Message → Bool) (ms : List Message) (m : Message)
    → q m ≡ true
    → any q (ms ++ m ∷ []) ≡ true
any-append_last q [] m h = rw h refl
any-append_last q (x ∷ ms) m h = ground (arith, any-append_last q ms m h)

pub any-either :
    (p q : Message → Bool) (ms : List Message) → any q ms ≡ true → any (λ m. p m || q m) ms ≡ true
any-either p q [] h = h
any-either p q (m ∷ ms) h = ground (arith, any-either p q ms)

module _ (pull_id : ℕ) (comment : Text) where
  abbrev StaysAsked : Result (ConversationDb × EnqueueResult) → Type 0
  StaysAsked (err x) = Unit
  StaysAsked (ok (after, r)) = IsAsked pull_id comment after

  AsksOnce-StaysAsked :
      (c : ConversationDb) (result : Result (ConversationDb × EnqueueResult))
      → IsAsked pull_id comment c
      → AsksOnce c result
      → StaysAsked result
  AsksOnce-StaysAsked c (err x) h once = tt
  AsksOnce-StaysAsked c (ok (after, r)) h (inl e) = rw e h
  AsksOnce-StaysAsked c (ok (after, r)) h (inr (m, e, _, _)) =
      rw e (any-append_left (is_message pull_id comment) c.messages (m ∷ []) h)

  step-IsAsked :
      {c d : ConversationDb}
      → ConversationStep c d
      → IsAsked pull_id comment c
      → IsAsked pull_id comment d
  step-IsAsked (elsewhere queue threads) h = h
  step-IsAsked {c} (asked now show resolved e payload_sha256 eq) h = subst StaysAsked eq (
      AsksOnce-StaysAsked c _ h
        (enqueue_review_conversation_event-AsksOnce now show resolved e payload_sha256 c))

  pub reach-IsAsked :
      {c d : ConversationDb}
      → ConversationReach c d
      → IsAsked pull_id comment c
      → IsAsked pull_id comment d
  reach-IsAsked here h = h
  reach-IsAsked (next r s) h = step-IsAsked s (reach-IsAsked r h)
