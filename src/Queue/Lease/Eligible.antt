-- ===== src/Queue/Lease/Eligible.antt =====
-- Which jobs a claim may take, read off the rows.
use diffuse.Prelude.{
  ℕ, ◌≡◌, ◌<◌, ◌≤◌, ◌↔◌, ◌⊎◌, ◌&&◌, ltb, Bool, true, false, not, List, any_iff, not_iff, and_iff,
  regroup, leb_iff, ltb_iff, text_eq_iff, Any, arith,
}
use diffuse.Queue.{Job, queued, running, is_active, is_running}
use diffuse.Queue.Lease.{claimable, comes_first, same_scope}
use diffuse.Queue.Lease.Holder.{is_running_iff, is_queued_iff, is_active_iff}

-- `e` is an earlier job of the scope of `j` that is queued or runs.
abbrev pub BlocksOrder : Job → Job → Type 0
BlocksOrder j e =
    (e.scope_key ≡ j.scope_key) × (e.id < j.id) × ((e.status ≡ queued) ⊎ (e.status ≡ running))

-- The job is queued, due and not locked, its repository is enabled, no earlier job of its scope is
-- queued or runs, and no job of its scope runs.
abbrev pub CanStart : ℕ → (ℕ → Bool) → (ℕ → Bool) → List Job → Job → Type 0
CanStart now enabled locked js j =
    (j.status ≡ queued)
    × (enabled j.repository_id ≡ true)
    × (j.available_at ≤ now)
    × (¬ Any (BlocksOrder j) js)
    × (¬ Any (λ r. (r.scope_key ≡ j.scope_key) × (r.status ≡ running)) js)
    × (locked j.id ≡ false)

-- A higher priority, or as high and due earlier, or also due then and with an id that is not larger.
-- `priority_below` is how far a priority is below 0.
abbrev pub Precedes : Job → Job → Type 0
Precedes j k =
    (j.priority_below < k.priority_below)
    ⊎ ((j.priority_below ≡ k.priority_below) × (j.available_at < k.available_at))
    ⊎ ((j.priority_below ≡ k.priority_below) × (j.available_at ≡ k.available_at) × (j.id ≤ k.id))

pub comes_first-Precedes : (j k : Job) → comes_first j k ≡ true → Precedes j k
comes_first-Precedes j k h = ground arith

is_not : (b : Bool) → (not b ≡ true) ↔ (b ≡ false)
is_not b = ground arith

itself : (b : Bool) → (b ≡ true) ↔ (b ≡ true)
itself b = (λ h. h, λ h. h)

pub claimable-CanStart :
    (now : ℕ) (enabled locked : ℕ → Bool) (js : List Job) (j : Job)
    → (claimable now enabled locked js j ≡ true) ↔ CanStart now enabled locked js j
claimable-CanStart now enabled locked js j =
    let earlier =
      any_iff (λ e. same_scope e j && ltb e.id j.id && is_active e.status) (BlocksOrder j) js
        (λ e.
          regroup
            (and_iff (and_iff (text_eq_iff e.scope_key j.scope_key) (ltb_iff e.id j.id))
              (is_active_iff e.status))
            (λ ((s, i), a). (s, i, a)) (λ (s, i, a). ((s, i), a))) in
    let running_one =
      any_iff (λ r. same_scope r j && is_running r.status)
        (λ r. (r.scope_key ≡ j.scope_key) × (r.status ≡ running)) js
        (λ r. and_iff (text_eq_iff r.scope_key j.scope_key) (is_running_iff r.status)) in
    regroup
      (and_iff
        (and_iff
          (and_iff
            (and_iff (and_iff (is_queued_iff j.status) (itself (enabled j.repository_id)))
              (leb_iff j.available_at now))
            (not_iff earlier))
          (not_iff running_one))
        (is_not (locked j.id)))
      (λ (((((q, e), d), b), r), l). (q, e, d, b, r, l))
      (λ (q, e, d, b, r, l). (((((q, e), d), b), r), l))
