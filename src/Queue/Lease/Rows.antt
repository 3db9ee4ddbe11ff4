-- ===== src/Queue/Lease/Rows.antt =====
-- What holds of the rows of workflow_jobs between two transactions, and how the shape of an update
-- keeps it.
use mathlib.Core.Option.{some-injective}
use diffuse.Prelude.{
  is_some, ℕ, ◌≤◌, ◌<◌, ◌≡◌, refl, inl, inr, Bool, true, false, not, ◌&&◌, Option, none, some, List,
  [], ◌∷◌, filter, All, All-mono, if◌then◌else◌, arith, Bool-cases, subst,
}
use diffuse.Queue.{Job, is_queued, is_running, is_active, update_where, find_where}
use diffuse.Queue.Lease.{same_scope, claimable, comes_first, order_first, first_of_order, candidate}

-- A lease exists exactly while the job runs, an end exactly once it is over, and a queued job has an
-- attempt left.
pub record IsConsistent (j : Job) : Type 0 where
  pub leased_iff_running : is_some j.leased_by ≡ is_running j.status
  pub expiry_iff_running : is_some j.lease_expires_at ≡ is_running j.status
  pub completed_iff_over : is_some j.completed_at ≡ not (is_active j.status)
  pub attempts_capped : j.attempt_count ≤ j.max_attempts
  pub room_to_retry : is_queued j.status ≡ true → j.attempt_count < j.max_attempts

-- Ids grow along the table.
abbrev pub Increasing : List Job → Type 0
Increasing [] = Unit
Increasing (j ∷ js) = All (λ k. j.id < k.id) js × Increasing js

-- Two jobs of one scope that both run.
abbrev pub clash : Job → Job → Bool
clash j k = is_running j.status && is_running k.status && same_scope j k

-- No two rows of the table clash.
abbrev pub Exclusive : List Job → Type 0
Exclusive [] = Unit
Exclusive (j ∷ js) = All (λ k. clash j k ≡ false) js × Exclusive js

-- A change of one row that moves it to no other scope and starts nothing.
pub record Settles (change : Job → Job) (j : Job) : Type 0 where
  pub same_id : (change j).id ≡ j.id
  pub keeps_scope : (change j).scope_key ≡ j.scope_key
  pub starts_none : is_running (change j).status ≡ true → is_running j.status ≡ true

-- An update of the rows that pass a test, as a change of every row.
abbrev pub where_changed : (Job → Bool) → (Job → Job) → Job → Job
where_changed test change j = if test j then change j else j

abbrev pub map_jobs : (Job → Job) → List Job → List Job
map_jobs change [] = []
map_jobs change (j ∷ js) = change j ∷ map_jobs change js

pub update_where-map :
    (test : Job → Bool) (change : Job → Job) (js : List Job)
    → update_where test change js ≡ map_jobs (where_changed test change) js
update_where-map test change [] = refl
update_where-map test change (j ∷ js) = rw (update_where-map test change js)

pub All-map_jobs :
    (P : Job → Type 0) (change : Job → Job) (js : List Job)
    → ((j : Job) → P j → P (change j))
    → All P js
    → All P (map_jobs change js)
All-map_jobs P change [] f h = tt
All-map_jobs P change (j ∷ js) f h = (f j h.0, All-map_jobs P change js f h.1)

module _ (change : Job → Job) where
  later-map :
      (j : Job) (js : List Job)
      → ((k : Job) → (change k).id ≡ k.id)
      → All (λ k. j.id < k.id) js
      → All (λ k. (change j).id < k.id) (map_jobs change js)
  later-map j [] same h = tt
  later-map j (k ∷ js) same h = (omega (arith, same j, same k), later-map j js same h.1)

  pub Increasing-map :
      (js : List Job)
      → ((k : Job) → (change k).id ≡ k.id)
      → Increasing js
      → Increasing (map_jobs change js)
  Increasing-map [] same h = tt
  Increasing-map (j ∷ js) same h = (later-map j js same h.0, Increasing-map js same h.1)

  clash-map :
      (j k : Job)
      → Settles change j
      → Settles change k
      → clash j k ≡ false
      → clash (change j) (change k) ≡ false
  clash-map j k sj sk h = ground (arith, sj.keeps_scope, sk.keeps_scope)

  clashes-map :
      (j : Job) (js : List Job)
      → Settles change j
      → All (Settles change) js
      → All (λ k. clash j k ≡ false) js
      → All (λ k. clash (change j) k ≡ false) (map_jobs change js)
  clashes-map j [] s t h = tt
  clashes-map j (k ∷ js) s t h = (clash-map j k s t.0 h.0, clashes-map j js s t.1 h.1)

  pub Exclusive-map :
      (js : List Job) → All (Settles change) js → Exclusive js → Exclusive (map_jobs change js)
  Exclusive-map [] s h = tt
  Exclusive-map (j ∷ js) s h = (clashes-map j js s.0 s.1 h.0, Exclusive-map js s.1 h.1)

-- The invariant of the table, `n` the next value of its sequence of ids.
pub record IsSound (n : ℕ) (js : List Job) : Type 0 where
  pub ahead : All (λ j. j.id < n) js
  pub consistent : All IsConsistent js
  pub increasing : Increasing js
  pub exclusive : Exclusive js

-- A change that is sound at each row of the table.
pub record IsSoundAt (change : Job → Job) (j : Job) : Type 0 where
  pub settles : Settles change j
  pub stays : IsConsistent j → IsConsistent (change j)

IsConsistent-map :
    (change : Job → Job) (js : List Job)
    → All (IsSoundAt change) js
    → All IsConsistent js
    → All IsConsistent (map_jobs change js)
IsConsistent-map change [] f h = tt
IsConsistent-map change (j ∷ js) f h = (f.0.stays h.0, IsConsistent-map change js f.1 h.1)

pub ahead-map :
    (n : ℕ) (change : Job → Job) (js : List Job)
    → ((k : Job) → (change k).id ≡ k.id)
    → All (λ j. j.id < n) js
    → All (λ j. j.id < n) (map_jobs change js)
ahead-map n change [] same h = tt
ahead-map n change (j ∷ js) same h = (omega (arith, same j, h.0), ahead-map n change js same h.1)

pub IsSound-map :
    {n : ℕ} (change : Job → Job) (js : List Job)
    → ((k : Job) → (change k).id ≡ k.id)
    → All (IsSoundAt change) js
    → IsSound n js
    → IsSound n (map_jobs change js)
IsSound-map {n = m} change js same f h = record {
  ahead = ahead-map m change js same h.ahead;
  consistent = IsConsistent-map change js f h.consistent;
  increasing = Increasing-map change js same h.increasing;
  exclusive =
      Exclusive-map change js (All-mono (IsSoundAt change) (Settles change) js (λ k s. s.settles) f)
        h.exclusive;
}

-- Rows with one id are one row.
unique_later :
    (j : Job) (js : List Job) → All (λ k. j.id < k.id) js → All (λ k. k.id ≡ j.id → k ≡ j) js
unique_later j [] h = tt
unique_later j (k ∷ js) h = (λ e. absurd (omega (arith, h.0)), unique_later j js h.1)

unique_first :
    (j : Job) (js : List Job) → All (λ k. j.id < k.id) js → All (λ k. j.id ≡ k.id → j ≡ k) js
unique_first j [] h = tt
unique_first j (k ∷ js) h = (λ e. absurd (omega (arith, h.0)), unique_first j js h.1)

extend_unique :
    (j : Job) (js ks : List Job)
    → All (λ k. j.id ≡ k.id → j ≡ k) ks
    → All (λ k. All (λ i. i.id ≡ k.id → i ≡ k) js) ks
    → All (λ k. All (λ i. i.id ≡ k.id → i ≡ k) (j ∷ js)) ks
extend_unique j js [] h u = tt
extend_unique j js (k ∷ ks) h u = ((h.0, u.0), extend_unique j js ks h.1 u.1)

pub unique_rows : (js : List Job) → Increasing js → All (λ k. All (λ i. i.id ≡ k.id → i ≡ k) js) js
unique_rows [] h = tt
unique_rows (j ∷ js) h = (
  (λ e. refl, unique_later j js h.0),
  extend_unique j js js (unique_first j js h.0) (unique_rows js h.1),
)

-- What holds of every row holds of the one that the order puts first.
chosen-All :
    (P : Job → Type 0) (k : Job) (rest : Option Job) {j : Job}
    → order_first k rest ≡ some j
    → P k
    → ((i : Job) → rest ≡ some i → P i)
    → P j
unfolding order_first
chosen-All P k none e h f = subst P (some-injective _ _ e) h
chosen-All P k (some i) e h f = elim (Bool-cases (comes_first k i)) [
  | inl c ↦ subst P (some-injective _ _ (rw c at e)) h
  | inr c ↦ subst P (some-injective _ _ (rw c at e)) (f i refl)
]

first_of_order-All :
    (P : Job → Type 0) (js : List Job) {j : Job} → first_of_order js ≡ some j → All P js → P j
unfolding first_of_order
first_of_order-All P [] e h = cc
first_of_order-All P (k ∷ js) e h =
    chosen-All P k (first_of_order js) e h.0 (λ i e'. first_of_order-All P js {j = i} e' h.1)

filter-All :
    (test : Job → Bool) (P : Job → Type 0) (js : List Job)
    → All P js
    → All (λ j. P j × (test j ≡ true)) (filter test js)
filter-All test P [] h = tt
filter-All test P (j ∷ js) h = elim (Bool-cases (test j)) [
  | inl e ↦ rw e ((h.0, e), filter-All test P js h.1)
  | inr e ↦ rw e (filter-All test P js h.1)
]

-- The candidate is a claimable row of the table.
pub candidate-All :
    (P : Job → Type 0) (now : ℕ) (enabled locked : ℕ → Bool) (js : List Job) {j : Job}
    → candidate now enabled locked js ≡ some j
    → All P js
    → P j × (claimable now enabled locked js j ≡ true)
unfolding candidate
candidate-All P now enabled locked js e h =
    first_of_order-All (λ j. P j × (claimable now enabled locked js j ≡ true)) _ e
      (filter-All (claimable now enabled locked js) P js h)

-- What holds of every row holds of the one that a query finds, and so does the query's test.
pub find_where-All :
    (P : Job → Type 0) (test : Job → Bool) (js : List Job) {j : Job}
    → find_where test js ≡ some j
    → All P js
    → P j × (test j ≡ true)
find_where-All P test [] e h = cc
find_where-All P test (k ∷ js) e h = elim (Bool-cases (test k)) [
  | inl t ↦ subst (λ i. P i × (test i ≡ true)) (some-injective _ _ (rw t at e)) (h.0, t)
  | inr t ↦ find_where-All P test js (rw t at e) h.1
]

where_changed-IsSoundAt :
    (test : Job → Bool) (change : Job → Job) (k : Job)
    → (test k ≡ true → IsSoundAt change k)
    → IsSoundAt (where_changed test change) k
where_changed-IsSoundAt test change k f = elim (Bool-cases (test k)) [
  | inl t ↦
      let at = f t in
      record {
        settles = record {
          same_id = rw t at.settles.same_id;
          keeps_scope = rw t at.settles.keeps_scope;
          starts_none = rw t at.settles.starts_none;
        };
        stays = rw t at.stays;
      }
  | inr t ↦ record {
    settles = record { same_id = rw t; keeps_scope = rw t; starts_none = rw t (λ h. h) };
    stays = rw t (λ h. h);
  }
]

-- An update that is sound at the rows that pass its test.
pub update-IsSound :
    {n : ℕ} (test : Job → Bool) (change : Job → Job) (js : List Job)
    → ((k : Job) → (change k).id ≡ k.id)
    → All (λ k. test k ≡ true → IsSoundAt change k) js
    → IsSound n js
    → IsSound n (update_where test change js)
update-IsSound test change js same f h = rw update_where-map (
    IsSound-map (where_changed test change) js (λ k. same_where k)
      (All-mono (λ k. test k ≡ true → IsSoundAt change k) (IsSoundAt (where_changed test change)) js
        (where_changed-IsSoundAt test change) f)
      h)
  where
    same_where : (k : Job) → (where_changed test change k).id ≡ k.id
    same_where k = elim (Bool-cases (test k)) [ inl t ↦ rw t (same k) | inr t ↦ rw t ]
