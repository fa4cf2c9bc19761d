-- ===== src/Ap/Cycle.antt =====
-- `_run_ap_reboot_cycle` of app/domains/inventory/ap_auto_reboot.py.
use infra_scope.Common.{
  ℕ, ◌+◌, Bool, true, false, not, ◌&&◌, Option, none, some, List, [], ◌∷◌, ◌++◌, ltb, if◌then◌else◌,
  ◌==◌, nat_eq, string_eq, map, length, take,
}
use infra_scope.Ap.Registry.{ApInfo, MergedAccessPoint, Registry, truthy, restrict, record_seen_aps}
use infra_scope.Ap.View.{get_known_aps, recover_missing_macs_from_registry, merge_live_and_known}
use infra_scope.Ap.Reboot.{
  EventType, Severity, Settings, Env, State, ApResult, Ending, Report, log,
  register_switch_outcome_and_maybe_escalate, handle_one_ap,
}

-- `[ap for ap in live_aps if ap.port and ap.mac_address]`
unfoldable pub usable : List ApInfo → List ApInfo
usable [] = []
usable (ap ∷ aps) = if truthy ap.port && truthy ap.mac_address then ap ∷ usable aps else usable aps

-- The targets of one kind: not excluded, responding or not.
unfoldable pub targets_of : Bool → List MergedAccessPoint → List MergedAccessPoint
targets_of responding [] = []
targets_of responding (ap ∷ aps) =
    if not ap.exclude_from_auto_reboot
      && (if responding then ap.is_responding else not ap.is_responding)
    then ap ∷ targets_of responding aps
    else targets_of responding aps

-- The stable sort by `is_responding` puts the silent ones first; the rest is cut off.
unfoldable pub choose_targets : ℕ → List MergedAccessPoint → List MergedAccessPoint
unfolding targets_of
choose_targets max_per_switch merged =
    take max_per_switch (targets_of false merged ++ targets_of true merged)

-- The loop over the targets: the state, the results, and whether the toggle stopped it.
unfoldable pub handle_targets :
    Settings → Env → Bool → Bool → ℕ → List MergedAccessPoint → State → State × List ApResult × Bool
handle_targets settings env is_dry_run stop_when_disabled i [] s = (s, [], false)
handle_targets settings env is_dry_run stop_when_disabled i (ap ∷ aps) s =
    let (s₁, result) = handle_one_ap settings env is_dry_run i ap s in
    let (s₂, results, cancelled) =
      handle_targets settings env is_dry_run stop_when_disabled (i + 1) aps s₁ in
    if stop_when_disabled && not (env.enabled i)
    then (
      log EventType.cancelled Severity.info
          (record s { switch = record s.switch { auto_reboot_aps_enabled = false } }),
      [],
      true,
    )
    else (s₂, result ∷ results, cancelled)

-- The access points of the registry as the cycle reads them before the scan is recorded.
abbrev pub known_ids : Registry → List ℕ
known_ids registry = map (λ row. row.id) (get_known_aps registry)

-- What a successful scan leads to: the registry with the scan recorded, and the merged view. The
-- known rows are the stored ones, so the view reads them as the scan has left them.
unfoldable pub scanned : Env → ℕ → List ApInfo → Registry → Registry × List MergedAccessPoint
unfolding usable
scanned env vlan aps registry =
    let live = usable (recover_missing_macs_from_registry aps (get_known_aps registry)) in
    let registry' = record_seen_aps env.new_id env.now live registry in
    (registry', merge_live_and_known vlan env.now live (restrict (known_ids registry) registry'))

-- The part of a cycle that follows a successful scan.
unfoldable pub after_scan : Settings → Env → List ApInfo → State → State × Report
unfolding scanned choose_targets handle_targets
after_scan settings env aps s =
    let is_dry_run = not (s.switch.auto_reboot_mode == "live") in
    let (registry, merged) = scanned env s.switch.ap_vlan aps s.registry in
    let has_any = ltb 0 (length merged) in
    let s₁ =
      register_switch_outcome_and_maybe_escalate settings env.now true has_any
        (record s { registry = registry }) in
    let targets = choose_targets settings.max_per_switch merged in
    let (s₂, results, cancelled) =
      handle_targets settings env is_dry_run s.switch.auto_reboot_aps_enabled 0 targets s₁ in
    if length targets == 0
    then (
      log EventType.skipped Severity.info s₁,
      record { aps_found = 0; results = []; ending = Ending.nothing_to_do },
    )
    else (
      s₂,
      record {
        aps_found = length targets;
        results = results;
        ending = if cancelled then Ending.disabled_during_cycle else Ending.finished;
      },
    )

-- The cycle, given what `get_access_points` returned.
unfoldable pub cycle_from : Settings → Env → State → Option (List ApInfo) → State × Report
unfolding after_scan
cycle_from settings env s none = (
  register_switch_outcome_and_maybe_escalate settings env.now false false
      (log EventType.skipped Severity.warning s),
  record { aps_found = 0; results = []; ending = Ending.switch_unreachable },
)
cycle_from settings env s (some aps) = after_scan settings env aps s

unfoldable pub run_ap_reboot_cycle : Settings → Env → State → State × Report
unfolding cycle_from
run_ap_reboot_cycle settings env s = cycle_from settings env s env.scan
