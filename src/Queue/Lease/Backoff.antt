-- ===== src/Queue/Lease/Backoff.antt =====
-- The delays before a job is tried again.
use diffuse.Prelude.{true, ℕ, zero, suc, ◌+◌, ◌*◌, ◌-◌, ◌^◌, ◌≤◌, ◌≡◌, refl, arith, ltb}
use native.Mathlib.Nat.{pow-suc}
use native.Mathlib.Numerals.{add-one}
use diffuse.Queue.Lease.{retry_delay, sweep_delay}

double : (base n : ℕ) → base * 2 ^ n ≤ base * 2 ^ (n + 1)
double base n = rw (add-one, pow-suc) (omega arith)

-- The delay after a failure grows with the attempts and never passes the maximum. After an expired
-- lease it is 0 for the first attempt and from then on the delay that a failure has one attempt
-- earlier.
pub delays_back_off :
    (base_delay max_delay n : ℕ)
    → (retry_delay base_delay max_delay n ≤ max_delay)
      × (retry_delay base_delay max_delay n ≤ retry_delay base_delay max_delay (n + 1))
      × (sweep_delay base_delay max_delay 1 ≡ 0)
      × (sweep_delay base_delay max_delay (n + 2) ≡ retry_delay base_delay max_delay (n + 1))
unfolding retry_delay sweep_delay
delays_back_off base_delay max_delay n = (omega arith, grows n, refl, same)
  where
    grows : (m : ℕ) → retry_delay base_delay max_delay m ≤ retry_delay base_delay max_delay (m + 1)
    grows zero = omega arith
    grows (suc m) =
        let here : suc m - 1 ≡ m = omega arith in
        let above : suc m + 1 - 1 ≡ m + 1 = omega arith in
        rw (here, above) (omega (arith, double base_delay m))

    same : sweep_delay base_delay max_delay (n + 2) ≡ retry_delay base_delay max_delay (n + 1)
    same =
        let later : ltb 1 (n + 2) ≡ true = ground arith in
        let swept : n + 2 - 2 ≡ n = omega arith in
        let failed : n + 1 - 1 ≡ n = omega arith in rw (later, swept, failed)
