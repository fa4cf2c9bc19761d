-- ===== src/Poll/Fleet.antt =====
-- The polls of app/domains/inventory/computer_polling.py and
-- app/domains/operations/cash_register_polling.py. The probe of a host, the lock's answer and the
-- text of an id are arguments; the circuits are read at one time and the outcomes stored at another.
-- The release of the lock and the cache of the responses are left out.
pub mod Outcomes
use infra_scope.Common.{
  ℕ, Bool, true, false, not, Option, none, some, List, [], ◌∷◌, ◌++◌, String, if◌then◌else◌,
  same_answer,
}
use infra_scope.Net.Reachability.{ReachabilityResult, Reason, probe_error, is_path_failure}
use infra_scope.Poll.Resilience.Store.{Redis, Settings, is_circuit_open, apply_poll_outcome}
use infra_scope.Remote.Inventory.{Computer, CashRegister}

-- `bool(row.is_online)`
abbrev pub was_online : Option Bool → Bool
was_online none = false
was_online (some online) = online

abbrev pub or_probe_error : Option Reason → Reason
or_probe_error none = probe_error
or_probe_error (some reason) = reason

-- `None if row.is_online else (probe.reason or REASON_PROBE_ERROR)`
abbrev pub shown_reason : Bool → Option Reason → Option Reason
shown_reason true reason = none
shown_reason false reason = some (or_probe_error reason)

-- What SET with NX answers, none for one of REDIS_ERRORS: the poll then runs without the lock.
abbrev pub may_run : Option Bool → Bool
may_run none = true
may_run (some acquired) = acquired

-- The event of a register, with the texts of its message's parts.
pub data RegisterEvent : Type 0 where
  cash_register_online : String → String → RegisterEvent
  cash_register_offline : String → String → Option Reason → RegisterEvent

abbrev pub event_of : CashRegister → RegisterEvent
event_of cash =
    if was_online cash.is_online
    then cash_register_online cash.kkm_number cash.hostname
    else cash_register_offline cash.kkm_number cash.hostname cash.reachability_reason

unfoldable pub record_cash_register_status_change : CashRegister → Option Bool → List RegisterEvent
record_cash_register_status_change cash previous_online =
    if same_answer previous_online cash.is_online then [] else event_of cash ∷ []

unfoldable pub apply_cash_register_poll_result :
    ℕ → CashRegister → Bool → Option Reason → CashRegister
apply_cash_register_poll_result now cash is_online reason = record cash {
  is_online = some is_online;
  reachability_reason = reason;
  last_polled_at = some now;
}

-- A poll by hand, of a register that was found: the breaker is not asked.
unfoldable pub poll_single_cash_register_local :
    (String → ReachabilityResult) → ℕ → CashRegister → CashRegister × List RegisterEvent
unfolding apply_cash_register_poll_result record_cash_register_status_change
poll_single_cash_register_local probe now cash =
    let r = probe cash.hostname in
    let polled = apply_cash_register_poll_result now cash r.is_online r.reason in
    (polled, record_cash_register_status_change polled cash.is_online)

-- The change of a row that was probed, for what the breaker's state says of it.
abbrev pub answered_computer : ℕ → ReachabilityResult → Bool → Computer → Computer
answered_computer now r shown row = record row {
  is_online = some shown;
  reachability_reason = shown_reason shown r.reason;
  last_polled_at = some now;
}

abbrev pub answered_register : ℕ → ReachabilityResult → Bool → CashRegister → CashRegister
answered_register now r shown row = record row {
  is_online = some shown;
  reachability_reason = shown_reason shown r.reason;
  last_polled_at = some now;
}

module _ (R : Redis) (settings : Settings) (id_text : ℕ → String)
    (probe : String → ReachabilityResult) where
  open R use {State}

  abbrev pub outcome : State → ℕ → String → ℕ → Option Bool → ReachabilityResult → State × Bool
  outcome s now kind id previous r =
      let o =
        apply_poll_outcome R settings s now kind (id_text id) (was_online previous) r.is_online
          (is_path_failure r) in
      (o.0, o.2)

  -- `checked` is the state of Redis when the circuits are read, `s` the one that the row meets.
  unfoldable pub poll_computer : State → ℕ → ℕ → State → Computer → State × Computer
  unfolding is_circuit_open apply_poll_outcome
  poll_computer checked checked_at now s row =
      if is_circuit_open R checked checked_at "computer" (id_text row.id)
      then (s, row)
      else let o = outcome s now "computer" row.id row.is_online (probe row.hostname) in
        (o.0, answered_computer now (probe row.hostname) o.1 row)

  unfoldable pub poll_computers : State → ℕ → ℕ → State → List Computer → State × List Computer
  unfolding poll_computer
  poll_computers checked checked_at now s [] = (s, [])
  poll_computers checked checked_at now s (row ∷ rows) =
      let (s', polled) = poll_computer checked checked_at now s row in
      let (s'', rest) = poll_computers checked checked_at now s' rows in (s'', polled ∷ rest)

  unfoldable pub poll_all_computers_local :
      Option Bool → ℕ → ℕ → State → List Computer → State × List Computer
  unfolding poll_computers
  poll_all_computers_local lock checked_at now s rows =
      if may_run lock then poll_computers s checked_at now s rows else (s, rows)

  unfoldable pub poll_register :
      State → ℕ → ℕ → State → CashRegister → State × CashRegister × List RegisterEvent
  unfolding is_circuit_open apply_poll_outcome record_cash_register_status_change
  poll_register checked checked_at now s row =
      if is_circuit_open R checked checked_at "cash_register" (id_text row.id)
      then (s, row, [])
      else let o = outcome s now "cash_register" row.id row.is_online (probe row.hostname) in
        let polled = answered_register now (probe row.hostname) o.1 row in
        (o.0, polled, record_cash_register_status_change polled row.is_online)

  unfoldable pub poll_registers :
      State → ℕ → ℕ → State → List CashRegister → State × List CashRegister × List RegisterEvent
  unfolding poll_register
  poll_registers checked checked_at now s [] = (s, [], [])
  poll_registers checked checked_at now s (row ∷ rows) =
      let (s', polled, events) = poll_register checked checked_at now s row in
      let (s'', rest, more) = poll_registers checked checked_at now s' rows in
      (s'', polled ∷ rest, events ++ more)

  unfoldable pub poll_all_cash_registers_local :
      Option Bool
      → ℕ
      → ℕ
      → State
      → List CashRegister
      → State × List CashRegister × List RegisterEvent
  unfolding poll_registers
  poll_all_cash_registers_local lock checked_at now s rows =
      if may_run lock then poll_registers s checked_at now s rows else (s, rows, [])
