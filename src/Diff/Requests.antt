-- ===== src/Diff/Requests.antt =====
-- How many requests a plan takes.
use qlabs_catalog_sync.Prelude.{ℕ, ◌+◌, ◌-◌, ◌*◌, ◌/◌, ◌≤◌, ◌<◌, ◌≡◌, ◌↔◌, true, some, arith}
use qlabs_catalog_sync.Diff.{DiffPlan, operation_count, request_count, exceeds_operation_cap}

ceil_enough : (n cap : ℕ) → 0 < cap → n ≤ (n + cap - 1) / cap * cap
ceil_enough n cap pos = grind (arith)

ceil_least : (n cap k : ℕ) → 0 < cap → 0 < n → n ≤ k * cap → (n + cap - 1) / cap ≤ k
ceil_least n cap k pos some_ h = grind (arith)

ceil_above : (n cap : ℕ) → 0 < cap → 0 < n → (1 < (n + cap - 1) / cap) ↔ (cap < n)
ceil_above n cap pos some_ = (λ h. grind arith, λ h. grind arith)

-- A plan with a positive cap fits into its number of requests, which is at most any number of
-- requests that it fits into, and takes more than one request exactly when it exceeds the cap.
pub request_count_minimal :
    (p : DiffPlan) (cap n : ℕ)
    → 0 < cap
    → p.max_update_operations ≡ some cap
    → operation_count p ≤ n * cap
    → (operation_count p ≤ request_count p * cap)
      × (request_count p ≤ n)
      × ((1 < request_count p) ↔ (exceeds_operation_cap p ≡ true))
unfolding request_count exceeds_operation_cap
request_count_minimal p cap n pos capped fits = (
  ground (arith, ceil_enough (operation_count p) cap),
  ground (arith, ceil_least (operation_count p) cap n),
  (
    λ h. ground (arith, ceil_above (operation_count p) cap),
    λ h. ground (arith, ceil_above (operation_count p) cap),
  ),
)
