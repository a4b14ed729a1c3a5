-- ===== src/Limiter/Speed.antt =====
-- limiter/dynamic.go: determineSpeedLimit. A limit of 0 means that there is none.
use v2b_z.Prelude.{ℕ, ◌≡◌, ◌≢◌, ◌⊎◌, ◌||◌, arith, ◌==◌, if◌then◌else◌}
use v2b_z.Prelude.Int.{ℤ, pos, ltb_ℤ, int_eq, ◌≤ℤ◌}

unfoldable pub determine_speed_limit : ℤ → ℤ → ℤ
determine_speed_limit limit1 limit2 =
    if limit1 == pos 0 || limit2 == pos 0
    then (if ltb_ℤ limit2 limit1 then limit1 else if ltb_ℤ limit1 limit2 then limit2 else pos 0)
    else (if ltb_ℤ limit2 limit1 then limit2 else if ltb_ℤ limit1 limit2 then limit1 else limit1)

-- For limits that are not negative the result is one of the two, is at most each that is not 0, and
-- is 0 only if both are.
pub determine_speed_limit_min :
    (m n : ℕ)
    → (m ≢ 0 → determine_speed_limit (pos m) (pos n) ≤ℤ pos m)
      × (n ≢ 0 → determine_speed_limit (pos m) (pos n) ≤ℤ pos n)
      × ((determine_speed_limit (pos m) (pos n) ≡ pos m)
          ⊎ (determine_speed_limit (pos m) (pos n) ≡ pos n))
      × (determine_speed_limit (pos m) (pos n) ≡ pos 0 → (m ≡ 0) × (n ≡ 0))
unfolding determine_speed_limit
determine_speed_limit_min m n =
    (λ h. ground arith, λ h. ground arith, ground arith, λ h. ground arith)

pub determine_speed_limit_comm : (a b : ℤ) → determine_speed_limit a b ≡ determine_speed_limit b a
unfolding determine_speed_limit
determine_speed_limit_comm a b = ground arith
