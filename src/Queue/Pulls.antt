-- ===== src/Queue/Pulls.antt =====
-- The pull requests of review/workflow.py: their lifecycle, and their update by an event.
use diffuse.Prelude.{
  ℕ, ◌+◌, Bool, true, false, ◌&&◌, ◌||◌, Option, none, some, [], ◌∷◌, ◌++◌, Text, codes, text_eq,
  ◌==◌, if◌then◌else◌,
}
use diffuse.Queue.{update_where}
use diffuse.Queue.Deliveries.{
  PullState, PullRequest, PullRequestEvent, Db, coalesce, or_else, closed_pull, merged_pull,
}

-- `PullRequestEvent.lifecycle_at`
abbrev pub is_opening : Text → Bool
is_opening action = text_eq action (codes "open") || text_eq action (codes "opened")

abbrev pub when {ℓ} : {A : Type ℓ} → Bool → Option A → Option A
when b o = if b then o else none

abbrev pub is_merged : PullState → Bool
is_merged merged_pull = true
is_merged _ = false

abbrev pub is_closed : PullState → Bool
is_closed closed_pull = true
is_closed _ = false

unfoldable pub lifecycle_at : PullRequestEvent → ℕ
lifecycle_at e = or_else (when (is_merged e.state) e.source_merged_at) (
    or_else (when (is_closed e.state) e.source_closed_at)
      (or_else (when (is_opening e.action) e.source_created_at) e.updated_at))

-- `_record_pull_request_lifecycle`
unfoldable pub record_lifecycle : ℕ → ℕ → PullRequestEvent → Db → Db
record_lifecycle pull_request_id delivery_id e db = record db {
  lifecycle =
      db.lifecycle
      ++ record {
        pull_request_id = pull_request_id;
        scm_webhook_delivery_id = delivery_id;
        action = e.action;
        state = e.state;
        source_event_at = lifecycle_at e;
        source_created_at = e.source_created_at;
        source_closed_at = e.source_closed_at;
        source_merged_at = e.source_merged_at;
      }
        ∷ [];
}

abbrev pub is_pull : ℕ → ℕ → PullRequest → Bool
is_pull repository_id number p = p.repository_id == repository_id && p.number == number

-- The update of a known pull request by an event that is not stale.
abbrev pub refreshed : PullRequestEvent → PullRequest → PullRequest
refreshed e p = record p {
  base_sha = e.base_sha;
  head_sha = e.head_sha;
  details = e.details;
  state = e.state;
  source_created_at = coalesce e.source_created_at p.source_created_at;
  source_closed_at = e.source_closed_at;
  source_merged_at = e.source_merged_at;
  latest_event_at = e.updated_at;
}

unfoldable pub refresh_pull : PullRequestEvent → ℕ → Db → Db
refresh_pull e pull_id db = record db {
  pulls = update_where (λ p. p.id == pull_id) (refreshed e) db.pulls;
}

unfoldable pub insert_pull : ℕ → PullRequestEvent → Db → Db
insert_pull repository_id e db = record db {
  pulls =
      db.pulls
      ++ record {
        id = db.next_pull_id;
        repository_id = repository_id;
        number = e.number;
        base_sha = e.base_sha;
        head_sha = e.head_sha;
        details = e.details;
        state = e.state;
        source_created_at = e.source_created_at;
        source_closed_at = e.source_closed_at;
        source_merged_at = e.source_merged_at;
        latest_event_at = e.updated_at;
      }
        ∷ [];
  next_pull_id = db.next_pull_id + 1;
}

-- A stale event is recorded, and may only fill in when the pull request was created.
unfoldable pub fill_created : Option ℕ → ℕ → Db → Db
fill_created none pull_id db = db
fill_created (some t) pull_id db = record db {
  pulls =
      update_where (λ p. p.id == pull_id)
        (λ p. record p { source_created_at = coalesce p.source_created_at (some t) }) db.pulls;
}
