-- ===== src/Poll/Fleet/Outcomes.antt =====
-- What a poll of all registers leaves of the rows of app/domains/operations/cash_register_polling.py,
-- and which events it writes.
use infra_scope.Common.{
  ℕ, ◌≡◌, refl, sym, ap, ◌∙◌, Bool, true, false, Option, none, some, List, [], ◌∷◌, ◌++◌, String,
  if◌then◌else◌, arith, same_answer, Both, inl, inr, ◌⊎◌,
}
use mathlib.Core.Bool.{true≢false}
use infra_scope.Net.Reachability.{ReachabilityResult, is_path_failure}
use infra_scope.Poll.Resilience.{Thresholds, decide_poll_state}
use infra_scope.Poll.Resilience.Store.{
  Redis, Settings, is_circuit_open, apply_poll_outcome, decision_of, to_int, resilience_key,
  failures, circuit_failures,
}
use infra_scope.Remote.Inventory.{CashRegister}
use infra_scope.Poll.Fleet.{
  was_online, or_probe_error, may_run, RegisterEvent, event_of, record_cash_register_status_change,
  answered_register, outcome, poll_register, poll_registers, poll_all_cash_registers_local,
}

-- One event for each row whose shown state is another one afterwards, in the order of the rows.
abbrev pub changes : List CashRegister → List CashRegister → List RegisterEvent
changes [] rows' = []
changes (row ∷ rows) [] = []
changes (row ∷ rows) (row' ∷ rows') =
    (if same_answer row.is_online row'.is_online then [] else event_of row' ∷ [])
    ++ changes rows rows'

shown-decide :
    (t : Thresholds) (previous probed error : Bool) (n m : ℕ)
    → (probed ≡ true → (decide_poll_state t previous probed error n m).effective_online ≡ true)
      × ((decide_poll_state t previous probed error n m).effective_online ≡ true
          → (probed ≡ true) ⊎ (previous ≡ true))
unfolding decide_poll_state
shown-decide t previous true error n m = (λ e. refl, λ e. inl refl)
shown-decide t true false error n m = (λ e. ground arith, λ e. inr refl)
shown-decide t false false error n m = (λ e. ground arith, λ e. ground arith)

not_up : (b : Bool) → (b ≡ true → false ≡ true) → b ≡ false
not_up true h = absurd (true≢false (sym (h refl)))
not_up false h = refl

same_answer_refl : (a : Option Bool) → same_answer a a ≡ true
same_answer_refl none = refl
same_answer_refl (some true) = refl
same_answer_refl (some false) = refl

module _ (R : Redis) (settings : Settings) (id_text : ℕ → String)
    (probe : String → ReachabilityResult) where
  open R use {State}

  -- A row whose circuit is open is as it was. Another has the time of the poll; it is shown online
  -- with no reason or offline with one; a host that answers is shown online, and one that is shown
  -- online answers or was online.
  abbrev pub IsPolled : State → ℕ → ℕ → CashRegister → CashRegister → Type 0
  IsPolled checked checked_at now row row' =
      (is_circuit_open R checked checked_at "cash_register" (id_text row.id) ≡ true → row' ≡ row)
      × (is_circuit_open R checked checked_at "cash_register" (id_text row.id) ≡ false
          → (row'.last_polled_at ≡ some now)
            × ((row'.is_online ≡ some true)
                  × (row'.reachability_reason ≡ none)
                  × ((probe row.hostname).is_online ≡ true ⊎ was_online row.is_online ≡ true)
                ⊎ (row'.is_online ≡ some false)
                  × (row'.reachability_reason ≡ some (or_probe_error (probe row.hostname).reason))
                  × ((probe row.hostname).is_online ≡ false)))

  shown-outcome :
      (s : State) (now : ℕ) (kind : String) (id : ℕ) (previous : Option Bool)
      (r : ReachabilityResult)
      → (r.is_online ≡ true → (outcome R settings id_text probe s now kind id previous r).1 ≡ true)
        × ((outcome R settings id_text probe s now kind id previous r).1 ≡ true
            → (r.is_online ≡ true) ⊎ (was_online previous ≡ true))
  unfolding apply_poll_outcome decision_of
  shown-outcome s now kind id previous r =
      shown-decide settings.thresholds (was_online previous) r.is_online (is_path_failure r)
        (if R.answers s
          then to_int (R.hget s now (resilience_key kind (id_text id)) failures) 0
          else 0)
        (if R.answers s
          then to_int (R.hget s now (resilience_key kind (id_text id)) circuit_failures) 0
          else 0)

  -- `shown` is what the breaker returns.
  answered-IsPolled :
      (now : ℕ) (row : CashRegister) (r : ReachabilityResult) (shown : Bool)
      → (r.is_online ≡ true → shown ≡ true)
        × (shown ≡ true → (r.is_online ≡ true) ⊎ (was_online row.is_online ≡ true))
      → let row' = answered_register now r shown row in
        (row'.is_online ≡ some true)
          × (row'.reachability_reason ≡ none)
          × (r.is_online ≡ true ⊎ was_online row.is_online ≡ true)
        ⊎ (row'.is_online ≡ some false)
          × (row'.reachability_reason ≡ some (or_probe_error r.reason))
          × (r.is_online ≡ false)
  answered-IsPolled now row r true (up, down) = inl (refl, refl, down refl)
  answered-IsPolled now row r false (up, down) = inr (refl, refl, not_up r.is_online up)

  -- The row and the events of a step, by what the circuit says.
  abbrev step : ℕ → State → CashRegister → Bool → State × CashRegister × List RegisterEvent
  step now s row opened =
      let o =
        outcome R settings id_text probe s now "cash_register" row.id row.is_online
          (probe row.hostname) in
      let polled = answered_register now (probe row.hostname) o.1 row in
      if opened
      then (s, row, [])
      else (o.0, polled, record_cash_register_status_change polled row.is_online)

  step-IsPolled :
      (checked : State) (checked_at now : ℕ) (s : State) (row : CashRegister) (opened : Bool)
      → is_circuit_open R checked checked_at "cash_register" (id_text row.id) ≡ opened
      → IsPolled checked checked_at now row (step now s row opened).1
  step-IsPolled checked checked_at now s row true e =
      (λ o. refl, λ no. absurd (true≢false (sym e ∙ no)))
  step-IsPolled checked checked_at now s row false e =
      let o =
        outcome R settings id_text probe s now "cash_register" row.id row.is_online
          (probe row.hostname) in
      (
        λ yes. absurd (true≢false (sym yes ∙ e)),
        λ no. (
          refl,
          answered-IsPolled now row (probe row.hostname) o.1
              (shown-outcome s now "cash_register" row.id row.is_online (probe row.hostname)),
        ),
      )

  step-changes :
      (now : ℕ) (s : State) (row : CashRegister) (opened : Bool)
      → (step now s row opened).2 ≡ (
          if same_answer row.is_online (step now s row opened).1.is_online
          then []
          else event_of (step now s row opened).1 ∷ [])
  unfolding record_cash_register_status_change
  step-changes now s row true =
      ap (λ b. if b then [] else event_of row ∷ []) (sym (same_answer_refl row.is_online))
  step-changes now s row false = refl

  poll_registers_lem :
      (checked : State) (checked_at now : ℕ) (s : State) (rows : List CashRegister)
      → let result = poll_registers R settings id_text probe checked checked_at now s rows in
        Both (IsPolled checked checked_at now) rows result.1 × (result.2 ≡ changes rows result.1)
  unfolding poll_registers poll_register
  poll_registers_lem checked checked_at now s [] = (tt, refl)
  poll_registers_lem checked checked_at now s (row ∷ rows) =
      let opened = is_circuit_open R checked checked_at "cash_register" (id_text row.id) in
      let (both, same) = poll_registers_lem checked checked_at now (step now s row opened).0 rows in
      (
        (step-IsPolled checked checked_at now s row opened refl, both),
        ap
              (λ l.
                l
                ++ (poll_registers R settings id_text probe checked checked_at now
                    (step now s row opened).0 rows).2)
              (step-changes now s row opened)
            ∙ ap
                (λ l.
                  (if same_answer row.is_online (step now s row opened).1.is_online
                    then []
                    else event_of (step now s row opened).1 ∷ [])
                  ++ l)
                same,
      )

  -- While another poll has the lock, a poll of all registers changes nothing and writes no event.
  -- With the lock, or without Redis: a row whose circuit was open is as it was, the others have the
  -- time of the poll and are shown online with no reason, if the host answered or was online before,
  -- or offline with a reason, if it did not answer; and there is one event for each row whose shown
  -- state changed, in the order of the rows, and no other.
  pub poll_all_cash_registers_local_lem :
      (lock : Option Bool) (checked_at now : ℕ) (s : State) (rows : List CashRegister)
      → let result =
          poll_all_cash_registers_local R settings id_text probe lock checked_at now s rows in
        (may_run lock ≡ false → result ≡ (s, rows, []))
        × (may_run lock ≡ true
            → Both (IsPolled s checked_at now) rows result.1 × (result.2 ≡ changes rows result.1))
  unfolding poll_all_cash_registers_local
  poll_all_cash_registers_local_lem lock checked_at now s rows = by_lock (may_run lock)
    where
      by_lock :
          (run : Bool)
          → let result =
              if◌then◌else◌ {A = State × List CashRegister × List RegisterEvent} run
                (poll_registers R settings id_text probe s checked_at now s rows)
                (s, rows, []) in
            (run ≡ false → result ≡ (s, rows, []))
            × (run ≡ true
                → Both (IsPolled s checked_at now) rows result.1
                  × (result.2 ≡ changes rows result.1))
      by_lock true = (λ e. absurd (true≢false e), λ e. poll_registers_lem s checked_at now s rows)
      by_lock false = (λ e. refl, λ e. absurd (true≢false (sym e)))
