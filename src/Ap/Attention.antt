-- ===== src/Ap/Attention.antt =====
-- The wait for an access point to come back, and when a human is told of a switch:
-- app/domains/inventory/ap_auto_reboot.py.
use infra_scope.Common.{
  ℕ, zero, suc, ◌+◌, ◌-◌, ◌*◌, ◌≤◌, ◌<◌, ◌≡◌, refl, ap, ◌∙◌, Bool, false, ◌||◌, Option, none, some,
  List, ◌∷◌, String, leb, max, if◌then◌else◌, nat_eq, string_eq, arith,
}
use infra_scope.Ap.Registry.{ApInfo}
use infra_scope.Ap.Reboot.{
  Settings, reappears, verify_from, verify_ap_back_online, switch_outcome, State, EventType,
  Severity, register_switch_outcome_and_maybe_escalate,
}

-- Whether one of `n` rounds from `round` on shows the access point.
unfoldable pub shown_within : (ℕ → Option (List ApInfo)) → String → ℕ → ℕ → Bool
shown_within rescan mac zero round = false
shown_within rescan mac (suc n) round =
    reappears mac (rescan round) || shown_within rescan mac n (round + 1)

module _ (interval max_wait : ℕ) (rescan : ℕ → Option (List ApInfo)) (mac : String)
    (ticks : 1 ≤ interval) where
  verify_from-late :
      (fuel round elapsed : ℕ)
      → max_wait ≤ elapsed
      → verify_from fuel interval max_wait rescan mac round elapsed ≡ false
  unfolding verify_from
  verify_from-late zero round elapsed h = refl
  verify_from-late (suc fuel) round elapsed h = ground (arith)

  verify_from-early :
      (fuel round elapsed : ℕ)
      → elapsed < max_wait
      → verify_from (suc fuel) interval max_wait rescan mac round elapsed ≡ (
          reappears mac (rescan round)
          || verify_from fuel interval max_wait rescan mac (round + 1) (elapsed + interval))
  unfolding verify_from
  verify_from-early fuel round elapsed h = ground (arith)

  verify_from-shown_within :
      (fuel n round elapsed : ℕ)
      → elapsed ≡ round * interval
      → max_wait ≤ elapsed + fuel
      → max_wait ≤ (round + n) * interval
      → ((k : ℕ) → k < round + n → k * interval < max_wait)
      → verify_from fuel interval max_wait rescan mac round elapsed
        ≡ shown_within rescan mac n round
  unfolding shown_within
  verify_from-shown_within fuel zero round elapsed e enough last all =
      verify_from-late fuel round elapsed (omega (arith, e, last))
  verify_from-shown_within zero (suc n) round elapsed e enough last all =
      absurd (omega (arith, all round (omega arith)))
  verify_from-shown_within (suc fuel) (suc n) round elapsed e enough last all =
      verify_from-early fuel round elapsed (omega (arith, e, all round (omega arith)))
      ∙ ap (λ b. reappears mac (rescan round) || b)
          (verify_from-shown_within fuel n (round + 1) (elapsed + interval) (omega (arith, e))
            (omega (arith, ticks, enough)) (omega (arith, last)) (λ k h. all k (omega arith)))

-- When `n` is the number of rounds that fit into the longest wait, a round counted for every
-- interval of at least a second, the check says that the access point is back exactly if one of
-- the `n` scans shows it.
pub verify_ap_back_online_lem :
    (settings : Settings) (rescan : ℕ → Option (List ApInfo)) (mac : String) (n : ℕ)
    → settings.verify_max_wait_seconds ≤ n * max settings.verify_poll_interval_seconds 1
    → ((k : ℕ)
        → k < n
        → k * max settings.verify_poll_interval_seconds 1 < settings.verify_max_wait_seconds)
    → verify_ap_back_online settings rescan mac ≡ shown_within rescan mac n 0
unfolding verify_ap_back_online
verify_ap_back_online_lem settings rescan mac n last all =
    verify_from-shown_within (max settings.verify_poll_interval_seconds 1)
      settings.verify_max_wait_seconds rescan mac (omega arith) settings.verify_max_wait_seconds n 0
      0 (omega arith) (omega arith) (omega (arith, last)) (λ k h. all k (omega arith))

-- `n` cycles in a row that do not reach the switch, cycle `k`, counted from 0, at `clock k`.
unfoldable pub unreachable_cycles : Settings → (ℕ → ℕ) → ℕ → State → State
unreachable_cycles settings clock zero s = s
unreachable_cycles settings clock (suc n) s =
    register_switch_outcome_and_maybe_escalate settings (clock n) false false
      (unreachable_cycles settings clock n s)

abbrev pub switch_alert : EventType × Severity
switch_alert = (EventType.switch_needs_attention, Severity.critical)

-- `n` unreachable cycles at arbitrary times, from a switch with no failed cycle behind it and no
-- alert, leave the count `n` and, from the threshold (at least 1) on, exactly one alert in the
-- event log and, on the switch, the time of the cycle that reached the threshold.
pub unreachable_cycles_lem :
    (settings : Settings) (clock : ℕ → ℕ) (n : ℕ) (s : State)
    → 1 ≤ settings.escalate_after_cycles
    → s.switch.consecutive_unreachable_cycles ≡ 0
    → s.switch.switch_needs_attention_since ≡ none
    → let s' = unreachable_cycles settings clock n s in
      (s'.switch.consecutive_unreachable_cycles ≡ n)
      × (s'.switch.switch_needs_attention_since ≡ (
          if leb settings.escalate_after_cycles n
          then some (clock (settings.escalate_after_cycles - 1))
          else none))
      × (s'.events
          ≡ (if leb settings.escalate_after_cycles n then switch_alert ∷ s.events else s.events))
unfolding unreachable_cycles register_switch_outcome_and_maybe_escalate switch_outcome
unreachable_cycles_lem settings clock zero s t z c = ground arith
unreachable_cycles_lem settings clock (suc n) s t z c =
    let (p, q, r) = unreachable_cycles_lem settings clock n s t z c in ground (arith, p, q, r)
