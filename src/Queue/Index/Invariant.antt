-- ===== src/Queue/Index/Invariant.antt =====
-- Enqueueing an index keeps the invariant of the table of jobs, and the refs only move forward.
use diffuse.Prelude.{
  ℕ, refl, inl, inr, not, ◌&&◌, Option, none, some, List, Text, text_eq, All-of, ltb, ◌==◌, arith,
  Bool-cases,
}
use diffuse.Queue.{Job, index_repository, superseded, update_where, find_where}
use diffuse.Queue.Lease.Rows.{IsSound, update-IsSound}
use diffuse.Queue.Deliveries.{
  Db, Delivery, push, RepositoryRef, Repository, record_delivery, assign_delivery, is_sha256,
}
use diffuse.Queue.Enqueue.{retire_terminal_job, set_over, new_job, holds_key, is_delivery}
use diffuse.Queue.Enqueue.Invariant.{
  IsReady, LeavesReady, Ensures-bind, insert-IsSound, retire-below,
}
use diffuse.Queue.Index.{
  PushEvent, move_ref, insert_ref, is_outdated, schedule_index, place_index, enqueue_commit,
  admit_ref, admit_push, enqueue_repository_index_event,
}

outdated-IsSound :
    {n : ℕ} (now : ℕ) (e : PushEvent) (js : List Job)
    → IsSound n js
    → IsSound n (update_where (is_outdated e) (set_over now superseded) js)
outdated-IsSound now e js h =
    update-IsSound (is_outdated e) (set_over now superseded) js (λ k. refl)
      (All-of _ js (λ k t. record {
        settles = record { same_id = refl; keeps_scope = refl; starts_none = ground arith };
        stays = λ c. ground arith;
      }))
      h

schedule_index-IsReady :
    (now repository_id delivery_id : ℕ) (e : PushEvent) (jobs : List Job) (db : Db)
    → IsSound db.next_job_id jobs
    → IsReady (schedule_index now repository_id delivery_id e jobs db).0
unfolding schedule_index
schedule_index-IsReady now repository_id delivery_id e jobs db s =
    insert-IsSound (update_where (is_outdated e) (set_over now superseded) jobs)
      (new_job db.next_job_id index_repository repository_id none e.idempotency_key e.scope_key
        e.after_sha e.after_sha e.payload now)
      (record {
        leased_iff_running = refl;
        expiry_iff_running = refl;
        completed_iff_over = refl;
        attempts_capped = omega arith;
        room_to_retry = λ q. omega arith;
      })
      refl (outdated-IsSound now e jobs s)

place_index-IsReady :
    (now repository_id delivery_id : ℕ) (e : PushEvent) (db : Db) (jobs : List Job) (o : Option Job)
    → IsReady db
    → IsSound db.next_job_id jobs
    → IsReady (place_index now repository_id delivery_id e db jobs o).0
unfolding place_index
place_index-IsReady now repository_id delivery_id e db jobs (some j) h b =
    unfold assign_delivery in h
place_index-IsReady now repository_id delivery_id e db jobs none h b =
    schedule_index-IsReady now repository_id delivery_id e jobs db b

enqueue_commit-IsReady :
    (now : ℕ) (show : ℕ → Text) (repository_id delivery_id : ℕ) (e : PushEvent) (db : Db)
    → IsReady db
    → LeavesReady (enqueue_commit now show repository_id delivery_id e db)
unfolding enqueue_commit
enqueue_commit-IsReady now show repository_id delivery_id e db h =
    Ensures-bind (λ (jobs, _). IsSound db.next_job_id jobs) (λ (d, _). IsReady d)
      (retire_terminal_job show db.tables.jobs
        (find_where (holds_key e.idempotency_key) db.tables.jobs))
      _ (retire-below show db.next_job_id db.tables.jobs _ h)
      λ (jobs, o) b. place_index-IsReady now repository_id delivery_id e db jobs o h b

admit_ref-IsReady :
    (now : ℕ) (show : ℕ → Text) (repository_id delivery_id : ℕ) (e : PushEvent) (db : Db)
    (o : Option RepositoryRef)
    → IsReady db
    → LeavesReady (admit_ref now show repository_id delivery_id e db o)
unfolding admit_ref
admit_ref-IsReady now show repository_id delivery_id e db none h =
    enqueue_commit-IsReady now show repository_id delivery_id e (insert_ref repository_id e db) h
admit_ref-IsReady now show repository_id delivery_id e db (some r) h =
    elim (Bool-cases (ltb e.pushed_at r.latest_event_at)) [
      | inl s ↦ rw s h
      | inr s ↦
          rw s
            elim (Bool-cases
              (e.pushed_at == r.latest_event_at && not (text_eq e.after_sha r.commit_sha))) [
                | inl c ↦ rw c tt
                | inr c ↦ rw c (
                    enqueue_commit-IsReady now show repository_id delivery_id e (move_ref e r.id db)
                      h)
              ]
    ]

admit_push-IsReady :
    (now : ℕ) (show : ℕ → Text) (repository : Repository) (e : PushEvent) (payload_sha256 : Text)
    (db : Db) (o : Option Delivery)
    → IsReady db
    → LeavesReady (admit_push now show repository e payload_sha256 db o)
unfolding admit_push
admit_push-IsReady now show repository e payload_sha256 db (some d) h =
    elim (Bool-cases (text_eq d.payload_sha256 payload_sha256)) [ inl t ↦ rw t h | inr t ↦ rw t tt ]
admit_push-IsReady now show repository e payload_sha256 db none h =
    admit_ref-IsReady now show repository.id db.next_delivery_id e
      (record_delivery db e.key push payload_sha256) _ h

-- Whatever the push and the outcome, it leaves the table of jobs sound and the sequence of ids ahead
-- of it, if both were so before.
pub enqueue_repository_index_event-IsReady :
    (now : ℕ) (show : ℕ → Text) (resolved : Option Repository) (e : PushEvent)
    (payload_sha256 : Text) (db : Db)
    → IsReady db
    → LeavesReady (enqueue_repository_index_event now show resolved e payload_sha256 db)
unfolding enqueue_repository_index_event
enqueue_repository_index_event-IsReady now show none e payload_sha256 db h =
    elim (Bool-cases (is_sha256 payload_sha256)) [ inl t ↦ rw t tt | inr t ↦ rw t tt ]
enqueue_repository_index_event-IsReady now show (some repository) e payload_sha256 db h =
    elim (Bool-cases (is_sha256 payload_sha256)) [
      | inr t ↦ rw t tt
      | inl t ↦ rw t elim (Bool-cases (repository.enabled && repository.has_clone_url)) [
        | inr d ↦ rw d tt
        | inl d ↦ rw d (
            admit_push-IsReady now show repository e payload_sha256 db
              (find_where (is_delivery e.key) db.deliveries) h)
      ]
    ]
