-- ===== src/Queue/Enqueue/Redelivery.antt =====
-- A delivery that comes again changes nothing and is answered with the job of the first time.
use diffuse.Prelude.{
  ℕ, ◌≡◌, refl, inl, inr, true, false, not, ◌&&◌, Option, none, some, List, [], ◌∷◌, ◌++◌, Text,
  text_eq, text_eq_iff, ltb, ◌==◌, if◌then◌else◌, arith, Bool-cases, subst, sym, ap,
}
use diffuse.Queue.{Job, update_where, find_where}
use diffuse.Queue.Deliveries.{
  Db, Delivery, DeliveryKey, PullRequest, PullRequestEvent, PullState, open_pull, closed_pull,
  merged_pull, Repository, EnqueueResult, duplicate_delivery, delivery_conflict, joined_status,
  Result, ok, err, redelivered, record_delivery, assign_delivery, same_key, is_sha256, pull_request,
}
use diffuse.Queue.Pulls.{record_lifecycle, refresh_pull, insert_pull, fill_created}
use diffuse.Queue.Enqueue.{
  retire_terminal_job, insert_job, debounce_for, holds_key, place_job, enqueue_revision,
  cancel_queued, after_upsert, admit_pull, admit_delivery, admit_review, enqueue_review_event,
  is_automatic, is_delivery,
}
use diffuse.Queue.Enqueue.Invariant.{Ensures, Ensures-bind, Ensures-any}

pub same_key_refl : (k : DeliveryKey) → same_key k k ≡ true
same_key_refl k = ground (
  arith,
  text_eq_iff k.provider k.provider,
  text_eq_iff k.scm_base_url k.scm_base_url,
  text_eq_iff k.delivery_id k.delivery_id,
)

find_where-append :
    (key : DeliveryKey) (ds : List Delivery) (d : Delivery)
    → find_where (is_delivery key) ds ≡ none
    → is_delivery key d ≡ true
    → find_where (is_delivery key) (ds ++ d ∷ []) ≡ some d
find_where-append key [] d e t = rw t
find_where-append key (x ∷ ds) d e t = elim (Bool-cases (is_delivery key x)) [
  | inl m ↦ cc (rw m at e)
  | inr m ↦ rw m (find_where-append key ds d (rw m at e) t)
]

module _ (key : DeliveryKey) (payload_sha256 : Text) where
  -- The row of the delivery, with the job that it names.
  abbrev Recorded : Option ℕ → List Delivery → Type 0
  Recorded job ds =
      (d : Delivery) × (find_where (is_delivery key) ds ≡ some d)
      × (text_eq d.payload_sha256 payload_sha256 ≡ true)
      × (d.workflow_job_id ≡ job)

  -- The row of a delivery that was recorded in this transaction.
  abbrev Pending : ℕ → List Delivery → Type 0
  Pending delivery_id ds =
      (d : Delivery) × (find_where (is_delivery key) ds ≡ some d)
      × (text_eq d.payload_sha256 payload_sha256 ≡ true)
      × (d.workflow_job_id ≡ none)
      × (d.id ≡ delivery_id)

  abbrev assigned : ℕ → Delivery → Delivery
  assigned job_id d = record d { workflow_job_id = some job_id }

  other : {A : Type 0} (a b c : ℕ) → a == b ≡ false → a ≡ c → c ≡ b → A
  other a b c ne e f = absurd (ground arith)

  abbrev id_of : Option Delivery → ℕ
  id_of none = 0
  id_of (some d) = d.id

  abbrev assigned_row : ℕ → Option Delivery → Option Delivery
  assigned_row job_id none = none
  assigned_row job_id (some d) = some (assigned job_id d)

  find_where-assigned :
      (job_id delivery_id : ℕ) (ds : List Delivery) {d : Delivery}
      → find_where (is_delivery key) ds ≡ some d
      → d.id ≡ delivery_id
      → find_where (is_delivery key) (update_where (λ x. x.id == delivery_id) (assigned job_id) ds)
        ≡ some (assigned job_id d)
  find_where-assigned job_id delivery_id [] e same = cc
  find_where-assigned job_id delivery_id (x ∷ ds) {d} e same =
      elim (Bool-cases (is_delivery key x)) [
        | inl m ↦ elim (Bool-cases (x.id == delivery_id)) [
          | inl i ↦ rw (i, m) (ap (assigned_row job_id) (rw m at e))
          | inr i ↦ rw (i, m) (other x.id delivery_id d.id i (ap id_of (rw m at e)) same)
        ]
        | inr m ↦ elim (Bool-cases (x.id == delivery_id)) [
          | inl i ↦ rw (i, m) (find_where-assigned job_id delivery_id ds (rw m at e) same)
          | inr i ↦ rw (i, m) (find_where-assigned job_id delivery_id ds (rw m at e) same)
        ]
      ]

  assign-Recorded :
      (job_id delivery_id : ℕ) (ds : List Delivery)
      → Pending delivery_id ds
      → Recorded (some job_id) (update_where (λ x. x.id == delivery_id) (assigned job_id) ds)
  assign-Recorded job_id delivery_id ds (d, f, t, _, same) =
      (assigned job_id d, find_where-assigned job_id delivery_id ds f same, t, refl)

  abbrev LeavesRecorded : Result (Db × EnqueueResult) → Type 0
  LeavesRecorded = Ensures (λ (db, r). Recorded r.job_id db.deliveries)

  place_job-Recorded :
      (now : ℕ) (configured : Option ℕ) (repository_id pull_id delivery_id : ℕ)
      (e : PullRequestEvent) (db : Db) (jobs : List Job) (o : Option Job)
      → Pending delivery_id db.deliveries
      → LeavesRecorded (place_job now configured repository_id pull_id delivery_id e db jobs o)
  unfolding place_job assign_delivery insert_job
  place_job-Recorded now configured repository_id pull_id delivery_id e db jobs (some j) p =
      assign-Recorded j.id delivery_id db.deliveries p
  place_job-Recorded now configured repository_id pull_id delivery_id e db jobs none p =
      Ensures-bind (λ _. Unit {0}) (λ (d, r). Recorded r.job_id d.deliveries)
        (debounce_for configured e.action) _ (Ensures-any (debounce_for configured e.action))
        λ debounce _. assign-Recorded db.next_job_id delivery_id db.deliveries p

  enqueue_revision-Recorded :
      (now : ℕ) (show : ℕ → Text) (configured : Option ℕ) (repository_id pull_id delivery_id : ℕ)
      (e : PullRequestEvent) (db : Db)
      → Pending delivery_id db.deliveries
      → LeavesRecorded (enqueue_revision now show configured repository_id pull_id delivery_id e db)
  unfolding enqueue_revision
  enqueue_revision-Recorded now show configured repository_id pull_id delivery_id e db p =
      Ensures-bind (λ _. Unit {0}) (λ (d, r). Recorded r.job_id d.deliveries)
        (retire_terminal_job show db.tables.jobs
          (find_where (holds_key e.idempotency_key) db.tables.jobs))
        _ (Ensures-any _)
        λ (jobs, o) _.
          place_job-Recorded now configured repository_id pull_id delivery_id e db jobs o p

  kept : (delivery_id : ℕ) (ds : List Delivery) → Pending delivery_id ds → Recorded none ds
  kept delivery_id ds (d, f, t, n, _) = (d, f, t, n)

  after_upsert-Recorded :
      (now : ℕ) (show : ℕ → Text) (configured : Option ℕ) (repository_id pull_id delivery_id : ℕ)
      (e : PullRequestEvent) (db : Db)
      → Pending delivery_id db.deliveries
      → LeavesRecorded (after_upsert now show configured repository_id pull_id delivery_id e db)
  unfolding after_upsert
  after_upsert-Recorded now show configured repository_id pull_id delivery_id e db p =
      by_state e.state
    where
      db' : Db
      db' = record_lifecycle pull_id delivery_id e db

      by_state :
          (s : PullState)
          → LeavesRecorded (elim s [
            | open_pull ↦
                enqueue_revision now show configured repository_id pull_id delivery_id e
                  (record_lifecycle pull_id delivery_id e db)
            | _ ↦ ok (cancel_queued now e (record_lifecycle pull_id delivery_id e db))
          ])
      by_state open_pull =
          enqueue_revision-Recorded now show configured repository_id pull_id delivery_id e _ p
      by_state closed_pull = kept delivery_id db.deliveries p
      by_state merged_pull = kept delivery_id db.deliveries p

  admit_pull-Recorded :
      (now : ℕ) (show : ℕ → Text) (configured : Option ℕ) (repository_id delivery_id : ℕ)
      (e : PullRequestEvent) (db : Db) (o : Option PullRequest)
      → Pending delivery_id db.deliveries
      → LeavesRecorded (admit_pull now show configured repository_id delivery_id e db o)
  unfolding admit_pull
  admit_pull-Recorded now show configured repository_id delivery_id e db none p =
      after_upsert-Recorded now show configured repository_id db.next_pull_id delivery_id e
        (insert_pull repository_id e db) p
  admit_pull-Recorded now show configured repository_id delivery_id e db (some q) p =
      elim (Bool-cases (ltb e.updated_at q.latest_event_at)) [
        | inl s ↦ rw s (filled e.source_created_at)
        | inr s ↦
            rw s
              elim (Bool-cases
                (e.updated_at == q.latest_event_at && not (text_eq e.head_sha q.head_sha))) [
                  | inl c ↦ rw c tt
                  | inr c ↦ rw c (
                      after_upsert-Recorded now show configured repository_id q.id delivery_id e
                        (refresh_pull e q.id db) p)
                ]
      ]
    where
      filled :
          (t : Option ℕ)
          → Recorded none (fill_created t q.id (record_lifecycle q.id delivery_id e db)).deliveries
      filled none = kept delivery_id db.deliveries p
      filled (some t) = kept delivery_id db.deliveries p

  admit_delivery-Recorded :
      (now : ℕ) (show : ℕ → Text) (configured : Option ℕ) (repository : Repository)
      (e : PullRequestEvent) (db : Db) (o : Option Delivery)
      → e.key ≡ key
      → find_where (is_delivery key) db.deliveries ≡ o
      → LeavesRecorded (admit_delivery now show configured repository e payload_sha256 db o)
  unfolding admit_delivery
  admit_delivery-Recorded now show configured repository e db (some d) k f =
      elim (Bool-cases (text_eq d.payload_sha256 payload_sha256)) [
        | inl t ↦ rw t (d, f, t, refl)
        | inr t ↦ rw t tt
      ]
  admit_delivery-Recorded now show configured repository e db none k f =
      elim (Bool-cases (is_automatic e.trigger_kind && not repository.auto_review)) [
        | inl t ↦ rw t (
            kept db.next_delivery_id
              (record_delivery db e.key pull_request payload_sha256).deliveries pending)
        | inr t ↦ rw t (
            admit_pull-Recorded now show configured repository.id db.next_delivery_id e
              (record_delivery db e.key pull_request payload_sha256) _ pending)
      ]
    where
      row : Delivery
      row = record {
        id = db.next_delivery_id;
        key = e.key;
        event_name = pull_request;
        payload_sha256 = payload_sha256;
        workflow_job_id = none;
      }

      pending : Pending db.next_delivery_id (db.deliveries ++ row ∷ [])
      pending = (
        row,
        find_where-append key db.deliveries row f (rw k (same_key_refl key)),
        ground (arith, text_eq_iff payload_sha256 payload_sha256),
        refl,
        refl,
      )

enqueue_review_event-Recorded :
    (now : ℕ) (show : ℕ → Text) (configured : Option ℕ) (resolved : Option Repository)
    (e : PullRequestEvent) (payload_sha256 : Text) (db : Db)
    → LeavesRecorded e.key payload_sha256
        (enqueue_review_event now show configured resolved e payload_sha256 db)
unfolding enqueue_review_event
enqueue_review_event-Recorded now show configured none e payload_sha256 db =
    elim (Bool-cases (is_sha256 payload_sha256)) [ inl t ↦ rw t tt | inr t ↦ rw t tt ]
enqueue_review_event-Recorded now show configured (some repository) e payload_sha256 db =
    elim (Bool-cases (is_sha256 payload_sha256)) [
      | inr t ↦ rw t tt
      | inl t ↦ rw t elim (Bool-cases repository.enabled) [
        | inr d ↦ rw d tt
        | inl d ↦ rw d (
            unfold admit_review in
            admit_delivery-Recorded e.key payload_sha256 now show configured repository e db
              (find_where (is_delivery e.key) db.deliveries) refl refl)
      ]
    ]

-- A recorded delivery that comes again.
again :
    (now : ℕ) (show : ℕ → Text) (configured : Option ℕ) (repository : Repository)
    (e : PullRequestEvent) (key : DeliveryKey) (sha sha' : Text) (job : Option ℕ) (db : Db)
    → e.key ≡ key
    → repository.enabled ≡ true
    → is_sha256 sha' ≡ true
    → Recorded key sha job db.deliveries
    → enqueue_review_event now show configured (some repository) e sha' db ≡ (
        if text_eq sha sha'
        then ok (
          db,
          record { job_id = job; state = duplicate_delivery (joined_status db.tables.jobs job) },
        )
        else err delivery_conflict)
unfolding enqueue_review_event admit_review admit_delivery redelivered
again now show configured repository e key sha sha' job db k on digest (d, f, t, j) =
    rw (digest, on, k, f, sym j, (text_eq_iff d.payload_sha256 sha).0 t) refl

-- After a webhook delivery was handled, a delivery with the same key is answered from its row, for
-- any event and any time: with the same payload the database stays as it is, and the answer is
-- `duplicate_delivery` with the job that the first answer named and the status that job has now;
-- with another payload it is refused.
pub enqueue_review_event-twice :
    (now now' : ℕ) (show show' : ℕ → Text) (configured configured' : Option ℕ)
    (repository repository' : Repository) (e e' : PullRequestEvent) (sha sha' : Text) (db db' : Db)
    (r : EnqueueResult)
    → enqueue_review_event now show configured (some repository) e sha db ≡ ok (db', r)
    → e'.key ≡ e.key
    → repository'.enabled ≡ true
    → is_sha256 sha' ≡ true
    → enqueue_review_event now' show' configured' (some repository') e' sha' db' ≡ (
        if text_eq sha sha'
        then ok (
          db',
          record {
            job_id = r.job_id;
            state = duplicate_delivery (joined_status db'.tables.jobs r.job_id);
          },
        )
        else err delivery_conflict)
enqueue_review_event-twice now now' show show' configured configured' repository repository' e e'
      sha sha' db db' r first same on digest =
    again now' show' configured' repository' e' e.key sha sha' r.job_id db' same on digest (
      subst (LeavesRecorded e.key sha) first
        (enqueue_review_event-Recorded now show configured (some repository) e sha db))
