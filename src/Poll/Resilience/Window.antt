-- ===== src/Poll/Resilience/Window.antt =====
-- How long an opened circuit pauses the polls: `_circuit_open_seconds` of
-- app/services/poll_resilience.py.
use native.Mathlib.Nat.{one-le-pow, pow-le-pow_right, mul-le-mul_left}
use infra_scope.Common.{ℕ, ◌+◌, ◌-◌, ◌*◌, ◌^◌, ◌≤◌, min, max, ◌≡◌, arith}
use infra_scope.Poll.Resilience.{circuit_open_seconds}

module _ (c c' threshold base limit : ℕ) where
  -- A longer run of failures never shortens the pause; the pause is at least the base and at most
  -- the limit (or the base, where the limit is set below it); and it is the whole limit from
  -- twenty failures past the threshold on, if twenty doublings of the base reach it.
  pub circuit_open_seconds_bounds :
      c ≤ c'
      → (circuit_open_seconds c threshold base limit ≤ circuit_open_seconds c' threshold base limit)
        × (base ≤ circuit_open_seconds c threshold base limit)
        × (circuit_open_seconds c threshold base limit ≤ max limit base)
        × (max threshold 1 + 20 ≤ c
            → max limit base ≤ base * 2 ^ 20
            → circuit_open_seconds c threshold base limit ≡ max limit base)
  unfolding circuit_open_seconds
  circuit_open_seconds_bounds h =
      let up : 2 ^ min (c - max threshold 1) 20 ≤ 2 ^ min (c' - max threshold 1) 20 =
        pow-le-pow_right (omega arith) (omega arith) in
      let one : 1 ≤ 2 ^ min (c - max threshold 1) 20 = one-le-pow _ 2 (omega arith) in
      let grown : base * 2 ^ min (c - max threshold 1) 20
          ≤ base * 2 ^ min (c' - max threshold 1) 20 =
        mul-le-mul_left base up in
      let least : base * 1 ≤ base * 2 ^ min (c - max threshold 1) 20 = mul-le-mul_left base one in
      (
        omega arith,
        omega arith,
        omega arith,
        λ far reached.
            let full : min (c - max threshold 1) 20 ≡ 20 = omega arith in rw full (omega arith),
      )
