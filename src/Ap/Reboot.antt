-- ===== src/Ap/Reboot.antt =====
-- app/domains/inventory/ap_auto_reboot.py: one switch's scheduled reboot cycle. What the hardware
-- answers is an argument (`Env`), what is done to it a trace of the ports that are power-cycled.
-- Event rows keep their type and severity; their texts and the pauses are left out, and the
-- readings of the clock within one cycle are one value.
use infra_scope.Common.{
  ℕ, zero, suc, ◌+◌, Bool, true, false, not, ◌&&◌, ◌||◌, Option, none, some, List, [], ◌∷◌, String,
  ltb, leb, max, if◌then◌else◌, ◌==◌, nat_eq, string_eq,
}
use infra_scope.Ap.Registry.{ApInfo, MergedAccessPoint, Registry, is_none}
use infra_scope.Ap.Outcomes.{Outcome, recovered, no_power, register_reboot_outcome}

pub record NetworkSwitch : Type 0 where
  pub name : String
  pub vendor : String
  pub ap_vlan : ℕ
  pub auto_reboot_aps_enabled : Bool
  pub auto_reboot_mode : String
  pub consecutive_unreachable_cycles : ℕ
  pub consecutive_no_aps_found_cycles : ℕ
  pub switch_needs_attention_since : Option ℕ

pub data Severity : Type 0 where
  info warning error critical : Severity

pub data EventType : Type 0 where
  skipped cancelled dry_run rebooted recovering_hung reboot_failed needs_attention : EventType
  switch_needs_attention : EventType

-- The `result` labels of the counter `ap_auto_reboot_total`.
pub data Metric : Type 0 where
  dry_run skipped_no_power command_failed hung_recovered ok failed needs_attention : Metric
  switch_needs_attention : Metric

pub record Settings : Type 0 where
  pub verify_max_wait_seconds : ℕ
  pub verify_poll_interval_seconds : ℕ
  pub max_per_switch : ℕ
  pub escalate_after_cycles : ℕ

-- The answers of the switch and of other processes during one cycle; the first number is the
-- position of the access point among the targets, the second the round of the check.
pub record Env : Type 0 where
  pub scan : Option (List ApInfo)
  -- `get_port_poe_power` gives a reading other than 0
  pub has_power : ℕ → Bool
  pub poe_cycle : ℕ → Bool
  pub rescan : ℕ → ℕ → Option (List ApInfo)
  -- the toggle as it is refreshed before each target
  pub enabled : ℕ → Bool
  pub new_id : ℕ → ℕ
  pub now : ℕ

pub record State : Type 0 where
  pub registry : Registry
  pub switch : NetworkSwitch
  -- the latest first
  pub events : List (EventType × Severity)
  pub metrics : List Metric
  pub power_cycled : List String

-- `ok` and `back_online` of a reboot.
pub data Action : Type 0 where
  dry_run skipped_no_power : Action
  rebooted : Bool → Bool → Action

pub record ApResult : Type 0 where
  pub port : String
  pub mac_address : String
  pub hung : Bool
  pub action : Action

pub data Ending : Type 0 where
  switch_unreachable nothing_to_do disabled_during_cycle finished : Ending

pub record Report : Type 0 where
  pub aps_found : ℕ
  pub results : List ApResult
  pub ending : Ending

abbrev pub required_ap_vlan : ℕ
required_ap_vlan = 20

-- `allowed` is the membership of the normalised name in the allowlist. The `bool` of the pair.
unfoldable pub switch_eligible_for_auto_reboot : NetworkSwitch → (String → Bool) → Bool
switch_eligible_for_auto_reboot switch allowed =
    if not (switch.vendor == "cisco")
    then false
    else if not (switch.ap_vlan == required_ap_vlan)
    then false
    else if not (allowed switch.name)
    then false
    else true

abbrev pub log : EventType → Severity → State → State
log e severity s = record s { events = (e, severity) ∷ s.events }

abbrev pub count : Metric → State → State
count m s = record s { metrics = m ∷ s.metrics }

-- `any(candidate.mac_address == mac_address for candidate in aps)`, false without a scan.
unfoldable pub reappears : String → Option (List ApInfo) → Bool
reappears mac none = false
reappears mac (some []) = false
reappears mac (some (ap ∷ aps)) = ap.mac_address == mac || reappears mac (some aps)

-- The loop of `_verify_ap_back_online`; each round waits at least a second, so the longest wait is
-- fuel enough.
unfoldable pub verify_from : ℕ → ℕ → ℕ → (ℕ → Option (List ApInfo)) → String → ℕ → ℕ → Bool
unfolding reappears
verify_from zero interval max_wait rescan mac round elapsed = false
verify_from (suc fuel) interval max_wait rescan mac round elapsed = elim (ltb elapsed max_wait) [
  | false ↦ false
  | true ↦ elim (reappears mac (rescan round)) [
    | true ↦ true
    | false ↦ verify_from fuel interval max_wait rescan mac (round + 1) (elapsed + interval)
  ]
]

unfoldable pub verify_ap_back_online : Settings → (ℕ → Option (List ApInfo)) → String → Bool
unfolding verify_from
verify_ap_back_online settings rescan mac =
    verify_from settings.verify_max_wait_seconds (max settings.verify_poll_interval_seconds 1)
      settings.verify_max_wait_seconds rescan mac 0 0

unfoldable pub register_outcome_and_maybe_escalate : Settings → ℕ → String → Outcome → State → State
register_outcome_and_maybe_escalate settings now mac outcome s =
    let (registry, row, escalated) =
      register_reboot_outcome mac outcome settings.escalate_after_cycles now s.registry in
    let s₁ = record s { registry = registry } in
    if escalated
    then count Metric.needs_attention (log EventType.needs_attention critical s₁)
    else s₁

-- The counters of the switch, and whether a human is to be told.
unfoldable pub switch_outcome : NetworkSwitch → Bool → Bool → ℕ → NetworkSwitch × Bool
switch_outcome switch reachable has_known_aps threshold =
    let calm = is_none switch.switch_needs_attention_since in
    if not reachable
    then (let n = switch.consecutive_unreachable_cycles + 1 in
        (record switch { consecutive_unreachable_cycles = n }, leb threshold n && calm))
    else if has_known_aps
    then (
      record switch {
        consecutive_unreachable_cycles = 0;
        consecutive_no_aps_found_cycles = 0;
        switch_needs_attention_since = none;
      },
      false,
    )
    else let n = switch.consecutive_no_aps_found_cycles + 1 in
      (
        record switch { consecutive_unreachable_cycles = 0; consecutive_no_aps_found_cycles = n },
        leb threshold n && calm,
      )

unfoldable pub register_switch_outcome_and_maybe_escalate :
    Settings → ℕ → Bool → Bool → State → State
unfolding switch_outcome
register_switch_outcome_and_maybe_escalate settings now reachable has_known_aps s =
    let (switch, told) =
      switch_outcome s.switch reachable has_known_aps settings.escalate_after_cycles in
    if told
    then count Metric.switch_needs_attention (
        log EventType.switch_needs_attention critical
          (record s { switch = record switch { switch_needs_attention_since = some now } }))
    else record s { switch = switch }

-- `_handle_one_ap` for the i-th target.
unfoldable pub handle_one_ap :
    Settings → Env → Bool → ℕ → MergedAccessPoint → State → State × ApResult
handle_one_ap settings env is_dry_run i ap s =
    let result : Action → ApResult = λ action. record {
      port = ap.port;
      mac_address = ap.mac_address;
      hung = not ap.is_responding;
      action = action;
    } in
    if is_dry_run
    then (count Metric.dry_run (log EventType.dry_run info s), result Action.dry_run)
    else if not ap.is_responding && not (env.has_power i)
    then (
      register_outcome_and_maybe_escalate settings env.now ap.mac_address no_power
          (count Metric.skipped_no_power (log EventType.skipped info s)),
      result Action.skipped_no_power,
    )
    else let ok = env.poe_cycle i in
      let came_back = ok && verify_ap_back_online settings (env.rescan i) ap.mac_address in
      let s₁ =
        log (if ap.is_responding then EventType.rebooted else EventType.recovering_hung)
          (if ok then info else error) (record s { power_cycled = ap.port ∷ s.power_cycled }) in
      let s₂ = if ok && not came_back then log EventType.reboot_failed error s₁ else s₁ in
      let s₃ =
        count
          (if not ok
            then Metric.command_failed
            else if came_back
            then (if ap.is_responding then Metric.ok else Metric.hung_recovered)
            else Metric.failed)
          s₂ in
      (
        register_outcome_and_maybe_escalate settings env.now ap.mac_address
            (if came_back then recovered else Outcome.failed) s₃,
        result (Action.rebooted ok came_back),
      )
