-- ===== src/Queue/Enqueue/Clock.antt =====
-- The stored pull request follows the clock of its events: none takes it back.
use mathlib.Core.Option.{some-injective}
use diffuse.Prelude.{
  ℕ, ◌<◌, ◌≡◌, refl, inl, inr, ◌⊎◌, Bool, true, false, not, ◌&&◌, Option, none, some, List, [], ◌∷◌,
  Text, text_eq, text_eq_iff, ltb, ◌==◌, if◌then◌else◌, arith, Bool-cases, subst, sym,
}
use diffuse.Queue.{Job, update_where, find_where}
use diffuse.Queue.Deliveries.{
  Db, Delivery, PullRequest, PullRequestEvent, PullState, open_pull, closed_pull, merged_pull,
  Repository, EnqueueResult, Result, ok, err, record_delivery, assign_delivery, coalesce, is_sha256,
  pull_request,
}
use diffuse.Queue.Pulls.{
  record_lifecycle, refreshed, refresh_pull, insert_pull, fill_created, is_pull,
}
use diffuse.Queue.Enqueue.{
  insert_job, retire_terminal_job, debounce_for, holds_key, place_job, enqueue_revision,
  cancel_queued, after_upsert, admit_pull, admit_delivery, admit_review, enqueue_review_event,
  is_automatic, is_delivery,
}
use diffuse.Queue.Enqueue.Invariant.{Ensures, Ensures-bind, Ensures-any}

-- An update that the test does not see changes the first row at most by what it writes.
find_where-update :
    (test written : PullRequest → Bool) (change : PullRequest → PullRequest)
    → ((p : PullRequest) → test (change p) ≡ test p)
    → (ps : List PullRequest) {p : PullRequest} → find_where test ps ≡ some p
    → find_where test (update_where written change ps) ≡ some (if written p then change p else p)
find_where-update test written change same [] e = cc
find_where-update test written change same (q ∷ ps) {p} e = elim (Bool-cases (test q)) [
  | inl t ↦
      let here : q ≡ p = some-injective _ _ (rw t at e) in
      subst
        (λ x.
          find_where test (update_where written change (q ∷ ps))
          ≡ some (if written x then change x else x))
        here
        (elim (Bool-cases (written q)) [ inl w ↦ rw (w, same q, t) refl | inr w ↦ rw (w, t) refl ])
  | inr t ↦
      let later = find_where-update test written change same ps {p = p} (rw t at e) in
      elim (Bool-cases (written q)) [ inl w ↦ rw (w, same q, t) later | inr w ↦ rw (w, t) later ]
]

-- The second row is the first at the same time with the same head commit, or is later.
abbrev pub Follows : Option PullRequest → Option PullRequest → Type 0
Follows none o = Unit
Follows (some p) none = ⊥
Follows (some p) (some q) =
    ((q.latest_event_at ≡ p.latest_event_at) × (q.head_sha ≡ p.head_sha))
    ⊎ (p.latest_event_at < q.latest_event_at)

abbrev pub stored : ℕ → ℕ → Db → Option PullRequest
stored repository_id number db = find_where (is_pull repository_id number) db.pulls

abbrev LeavesPulls : Db → Result (Db × EnqueueResult) → Type 0
LeavesPulls db = Ensures (λ (d, _). d.pulls ≡ db.pulls)

place_job-pulls :
    (now : ℕ) (configured : Option ℕ) (repository_id pull_id delivery_id : ℕ) (e : PullRequestEvent)
    (db : Db) (jobs : List Job) (o : Option Job)
    → LeavesPulls db (place_job now configured repository_id pull_id delivery_id e db jobs o)
unfolding place_job assign_delivery insert_job
place_job-pulls now configured repository_id pull_id delivery_id e db jobs (some j) = refl
place_job-pulls now configured repository_id pull_id delivery_id e db jobs none =
    Ensures-bind (λ _. Unit {0}) (λ (d, _). d.pulls ≡ db.pulls) (debounce_for configured e.action) _
      (Ensures-any (debounce_for configured e.action)) λ debounce _. refl

after_upsert-pulls :
    (now : ℕ) (show : ℕ → Text) (configured : Option ℕ) (repository_id pull_id delivery_id : ℕ)
    (e : PullRequestEvent) (db : Db)
    → LeavesPulls db (after_upsert now show configured repository_id pull_id delivery_id e db)
unfolding after_upsert enqueue_revision record_lifecycle
after_upsert-pulls now show configured repository_id pull_id delivery_id e db = by_state e.state
  where
    by_state :
        (s : PullState)
        → LeavesPulls db (elim s [
          | open_pull ↦
              enqueue_revision now show configured repository_id pull_id delivery_id e
                (record_lifecycle pull_id delivery_id e db)
          | _ ↦ ok (cancel_queued now e (record_lifecycle pull_id delivery_id e db))
        ])
    by_state open_pull =
        Ensures-bind (λ _. Unit {0}) (λ (d, _). d.pulls ≡ db.pulls)
          (retire_terminal_job show db.tables.jobs
            (find_where (holds_key e.idempotency_key) db.tables.jobs))
          _ (Ensures-any _)
          λ (jobs, o) _.
            place_job-pulls now configured repository_id pull_id delivery_id e
              (record_lifecycle pull_id delivery_id e db) jobs o
    by_state closed_pull = refl
    by_state merged_pull = refl

-- What an operation leaves follows the row of the pull request that was there.
abbrev LeavesFollowing : ℕ → ℕ → Option PullRequest → Result (Db × EnqueueResult) → Type 0
LeavesFollowing repository_id number o =
    Ensures (λ (d, _). Follows o (stored repository_id number d))

Follows-refl : (o : Option PullRequest) → Follows o o
Follows-refl none = tt
Follows-refl (some p) = inl (refl, refl)

-- The same rows of pull requests lead to the same conclusion.
from_pulls :
    (repository_id number : ℕ) (o : Option PullRequest) (db : Db) (r : Result (Db × EnqueueResult))
    → LeavesPulls db r
    → Follows o (stored repository_id number db)
    → LeavesFollowing repository_id number o r
from_pulls repository_id number o db (ok (d, a)) same f =
    subst (λ ps. Follows o (find_where (is_pull repository_id number) ps)) (sym same) f
from_pulls repository_id number o db (err _) same f = tt

newer :
    (e : PullRequestEvent) (p : PullRequest)
    → ltb e.updated_at p.latest_event_at ≡ false
    → (e.updated_at == p.latest_event_at && not (text_eq e.head_sha p.head_sha)) ≡ false
    → ((e.updated_at ≡ p.latest_event_at) × (e.head_sha ≡ p.head_sha))
      ⊎ (p.latest_event_at < e.updated_at)
newer e p s c = elim (Bool-cases (e.updated_at == p.latest_event_at)) [
  | inl t ↦ inl (ground arith, (text_eq_iff e.head_sha p.head_sha).0 (ground arith))
  | inr t ↦ inr (ground arith)
]

admit_pull-Follows :
    (now : ℕ) (show : ℕ → Text) (configured : Option ℕ) (repository_id delivery_id : ℕ)
    (e : PullRequestEvent) (db : Db) (o : Option PullRequest)
    → stored repository_id e.number db ≡ o
    → LeavesFollowing repository_id e.number o
        (admit_pull now show configured repository_id delivery_id e db o)
unfolding admit_pull refresh_pull
admit_pull-Follows now show configured repository_id delivery_id e db none f =
    from_pulls repository_id e.number none (insert_pull repository_id e db) _
      (after_upsert-pulls now show configured repository_id db.next_pull_id delivery_id e
        (insert_pull repository_id e db))
      tt
admit_pull-Follows now show configured repository_id delivery_id e db (some p) f =
    elim (Bool-cases (ltb e.updated_at p.latest_event_at)) [
      | inl s ↦ rw s (filled e.source_created_at)
      | inr s ↦
          rw s
            elim (Bool-cases
              (e.updated_at == p.latest_event_at && not (text_eq e.head_sha p.head_sha))) [
                | inl c ↦ rw c tt
                | inr c ↦ rw c (
                    from_pulls repository_id e.number (some p) (refresh_pull e p.id db) _
                      (after_upsert-pulls now show configured repository_id p.id delivery_id e
                        (refresh_pull e p.id db))
                      (followed s c))
              ]
    ]
  where
    same_id : p.id == p.id ≡ true
    same_id = ground arith

    filled :
        (t : Option ℕ)
        → Follows (some p) (
            stored repository_id e.number
              (fill_created t p.id (record_lifecycle p.id delivery_id e db)))
    filled none = rw f (inl (refl, refl))
    filled (some t) =
        rw
          (
            find_where-update (is_pull repository_id e.number) (λ q. q.id == p.id)
                (λ q. record q { source_created_at = coalesce q.source_created_at (some t) })
                (λ q. refl) db.pulls f,
            same_id,
          )
          (inl (refl, refl))

    followed :
        ltb e.updated_at p.latest_event_at ≡ false
        → (e.updated_at == p.latest_event_at && not (text_eq e.head_sha p.head_sha)) ≡ false
        → Follows (some p) (stored repository_id e.number (refresh_pull e p.id db))
    followed s c =
        rw
          (
            find_where-update (is_pull repository_id e.number) (λ q. q.id == p.id) (refreshed e)
                (λ q. refl) db.pulls f,
            same_id,
          )
          (newer e p s c)

admit_delivery-Follows :
    (now : ℕ) (show : ℕ → Text) (configured : Option ℕ) (repository : Repository)
    (e : PullRequestEvent) (payload_sha256 : Text) (db : Db) (o : Option Delivery)
    → LeavesFollowing repository.id e.number
        (stored repository.id e.number db)
        (admit_delivery now show configured repository e payload_sha256 db o)
unfolding admit_delivery
admit_delivery-Follows now show configured repository e payload_sha256 db (some d) =
    elim (Bool-cases (text_eq d.payload_sha256 payload_sha256)) [
      | inl t ↦ rw t (Follows-refl (stored repository.id e.number db))
      | inr t ↦ rw t tt
    ]
admit_delivery-Follows now show configured repository e payload_sha256 db none =
    elim (Bool-cases (is_automatic e.trigger_kind && not repository.auto_review)) [
      | inl t ↦ rw t (Follows-refl (stored repository.id e.number db))
      | inr t ↦ rw t (
          admit_pull-Follows now show configured repository.id db.next_delivery_id e
            (record_delivery db e.key pull_request payload_sha256) _ refl)
    ]

-- Whatever order events arrive in, handling one leaves the pull request that it is about at the time
-- and head commit that were stored, or at a later time: an older event never replaces a newer head
-- commit, and the head commit of an instant never changes.
pub enqueue_review_event-Follows :
    (now : ℕ) (show : ℕ → Text) (configured : Option ℕ) (repository : Repository)
    (e : PullRequestEvent) (payload_sha256 : Text) (db : Db)
    → Ensures
        (λ (d, _). Follows (stored repository.id e.number db) (stored repository.id e.number d))
        (enqueue_review_event now show configured (some repository) e payload_sha256 db)
unfolding enqueue_review_event
enqueue_review_event-Follows now show configured repository e payload_sha256 db =
    elim (Bool-cases (is_sha256 payload_sha256)) [
      | inr t ↦ rw t tt
      | inl t ↦ rw t elim (Bool-cases repository.enabled) [
        | inr d ↦ rw d tt
        | inl d ↦ rw d (
            unfold admit_review in
            admit_delivery-Follows now show configured repository e payload_sha256 db
              (find_where (is_delivery e.key) db.deliveries))
      ]
    ]
