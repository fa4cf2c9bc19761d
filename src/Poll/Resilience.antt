-- ===== src/Poll/Resilience.antt =====
-- app/services/poll_resilience.py: confirmation of offline probes and the circuit breaker.
-- Counters, settings and times are natural numbers of failures and of whole seconds.
pub mod Window
pub mod Confirm
pub mod Store
pub mod Breaker
pub mod Outage
use infra_scope.Common.{
  ℕ, ◌+◌, ◌-◌, ◌*◌, ◌^◌, min, max, Bool, true, false, ◌&&◌, ◌||◌, not, ltb, leb, if◌then◌else◌,
}

-- The strings of `PollDecision.event`.
pub data PollEvent : Type 0 where
  recovered online offline_pending_confirmation offline_confirmed circuit_opened : PollEvent

pub record PollDecision : Type 0 where
  pub effective_online : Bool
  pub event : PollEvent
  pub failures : ℕ
  pub circuit_failures : ℕ

-- The two settings that `decide_poll_state` is given.
pub record Thresholds : Type 0 where
  pub offline_confirmations : ℕ
  pub circuit_failure_threshold : ℕ

-- `circuit_failures + (1 if probed_error else 0)`, then one less if it was no error.
unfoldable pub next_circuit : Bool → ℕ → ℕ
next_circuit probed_error circuit_failures =
    let next = circuit_failures + (if probed_error then 1 else 0) in
    if not probed_error && ltb 0 next then next - 1 else next

unfoldable pub decide_poll_state : Thresholds → Bool → Bool → Bool → ℕ → ℕ → PollDecision
unfolding next_circuit
decide_poll_state t previous_effective_online probed_online probed_error failures circuit_failures =
    let next_failures = failures + 1 in
    let next_circuit_failures = next_circuit probed_error circuit_failures in
    if probed_online
    then record {
      effective_online = true;
      event = if ltb 0 failures || ltb 0 circuit_failures then recovered else online;
      failures = 0;
      circuit_failures = 0;
    }
    else if previous_effective_online && ltb next_failures (max t.offline_confirmations 1)
    then record {
      effective_online = true;
      event = offline_pending_confirmation;
      failures = next_failures;
      circuit_failures = next_circuit_failures;
    }
    else record {
      effective_online = false;
      event =
          if leb (max t.circuit_failure_threshold 1) next_circuit_failures
          then circuit_opened
          else offline_confirmed;
      failures = next_failures;
      circuit_failures = next_circuit_failures;
    }

-- The subtraction on ℕ stops at 0, as `max(..., 0)` does.
unfoldable pub circuit_open_seconds : ℕ → ℕ → ℕ → ℕ → ℕ
circuit_open_seconds circuit_failures threshold base_seconds max_seconds =
    let overshoot = circuit_failures - max threshold 1 in
    let seconds = base_seconds * 2 ^ min overshoot 20 in min seconds (max max_seconds base_seconds)
