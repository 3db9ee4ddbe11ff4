-- ===== src/Queue/Current.antt =====
-- workflow.py, lines 1470 to 1496: whether the work on a job is still wanted.
pub mod Ends
use mathlib.Core.Option.{some-injective, none-ne-some}
use diffuse.Prelude.{
  Any, any_iff, not_iff, and_iff, regroup, text_eq_iff, ltb_iff, ==_iff, ◌↔◌, ◌⊎◌, ◌<◌, sym, ap,
  false≢true, ℕ, ◌≡◌, refl, Bool, true, false, not, ◌&&◌, Option, none, some, List, Text, text_eq,
  any, ltb, ◌==◌,
}
use diffuse.Queue.{Job, is_active, queued, running}
use diffuse.Queue.Lease.{holds_lease, same_scope}
use diffuse.Queue.Lease.Holder.{HasLease, holds_lease_iff, is_active_iff}
use diffuse.Queue.Deliveries.{PullRequest, PullState, open_pull, closed_pull, merged_pull}

abbrev is_open : PullState → Bool
is_open open_pull = true
is_open closed_pull = false
is_open merged_pull = false

-- `pull_request.id = job.pull_request_id`
abbrev is_pull_of : Option ℕ → PullRequest → Bool
is_pull_of none p = false
is_pull_of (some i) p = p.id == i

-- the part of the query on the pull request
abbrev pub has_revision : Job → PullRequest → Bool
has_revision j p =
    is_pull_of j.pull_request_id p
    && is_open p.state
    && text_eq p.base_sha j.base_revision
    && text_eq p.head_sha j.revision

abbrev is_superseded_by : Job → Job → Bool
is_superseded_by j n = same_scope n j && ltb j.id n.id && is_active n.status

-- `workflow_job_is_current`
unfoldable pub workflow_job_is_current :
    ℕ → (ℕ → Bool) → ℕ → Text → List Job → List PullRequest → Bool
workflow_job_is_current now enabled job_id worker_id jobs pulls =
    any
      (λ j.
        holds_lease now job_id worker_id j
        && enabled j.repository_id
        && any (has_revision j) pulls
        && not (any (is_superseded_by j) jobs))
      jobs

-- The pull request of the job, open, and stored with the commits that the job is for.
abbrev pub IsOpenAt : Job → PullRequest → Type 0
IsOpenAt j p =
    (j.pull_request_id ≡ some p.id)
    × (p.state ≡ open_pull)
    × (p.base_sha ≡ j.base_revision)
    × (p.head_sha ≡ j.revision)

-- `n` is a later job of the scope of `j` that is queued or runs.
abbrev pub Supersedes : Job → Job → Type 0
Supersedes j n =
    (n.scope_key ≡ j.scope_key) × (j.id < n.id) × ((n.status ≡ queued) ⊎ (n.status ≡ running))

is_pull_of_iff : (o : Option ℕ) (p : PullRequest) → (is_pull_of o p ≡ true) ↔ (o ≡ some p.id)
is_pull_of_iff none p = (λ h. absurd (false≢true h), λ e. absurd (none-ne-some _ e))
is_pull_of_iff (some i) p =
    (λ h. ap some (sym ((==_iff p.id i).0 h)), λ e. (==_iff p.id i).1 (sym (some-injective _ _ e)))

is_open_iff : (s : PullState) → (is_open s ≡ true) ↔ (s ≡ open_pull)
is_open_iff open_pull = (λ h. refl, λ e. refl)
is_open_iff closed_pull = (λ h. absurd (false≢true h), λ e. ap is_open e)
is_open_iff merged_pull = (λ h. absurd (false≢true h), λ e. ap is_open e)

has_revision-IsOpenAt : (j : Job) (p : PullRequest) → (has_revision j p ≡ true) ↔ IsOpenAt j p
has_revision-IsOpenAt j p =
    regroup
      (and_iff
        (and_iff (and_iff (is_pull_of_iff j.pull_request_id p) (is_open_iff p.state))
          (text_eq_iff p.base_sha j.base_revision))
        (text_eq_iff p.head_sha j.revision))
      (λ (((i, o), b), r). (i, o, b, r)) (λ (i, o, b, r). (((i, o), b), r))

is_superseded_by-Supersedes : (j n : Job) → (is_superseded_by j n ≡ true) ↔ Supersedes j n
is_superseded_by-Supersedes j n =
    regroup
      (and_iff (and_iff (text_eq_iff n.scope_key j.scope_key) (ltb_iff j.id n.id))
        (is_active_iff n.status))
      (λ ((s, i), a). (s, i, a)) (λ (s, i, a). ((s, i), a))

itself : (b : Bool) → (b ≡ true) ↔ (b ≡ true)
itself b = (λ h. h, λ h. h)

-- Why the work on this row is wanted: it has the worker's lease, an enabled repository and a pull
-- request that is stored as open at the commits of this same row, and nothing supersedes it.
abbrev pub IsWanted : ℕ → (ℕ → Bool) → ℕ → Text → List Job → List PullRequest → Job → Type 0
IsWanted now enabled job_id worker_id jobs pulls j =
    HasLease now job_id worker_id j
    × (enabled j.repository_id ≡ true)
    × Any (IsOpenAt j) pulls
    × (¬ Any (Supersedes j) jobs)

pub workflow_job_is_current_iff :
    (now : ℕ) (enabled : ℕ → Bool) (job_id : ℕ) (worker_id : Text) (jobs : List Job)
    (pulls : List PullRequest)
    → (workflow_job_is_current now enabled job_id worker_id jobs pulls ≡ true)
      ↔ Any (IsWanted now enabled job_id worker_id jobs pulls) jobs
unfolding workflow_job_is_current
workflow_job_is_current_iff now enabled job_id worker_id jobs pulls = any_iff _ _ jobs (λ j.
    regroup
      (and_iff
        (and_iff
          (and_iff (holds_lease_iff now job_id worker_id j) (itself (enabled j.repository_id)))
          (any_iff (has_revision j) (IsOpenAt j) pulls (has_revision-IsOpenAt j)))
        (not_iff
          (any_iff (is_superseded_by j) (Supersedes j) jobs (is_superseded_by-Supersedes j))))
      (λ (((l, e), p), s). (l, e, p, s)) (λ (l, e, p, s). (((l, e), p), s)))
