-- ===== src/Ap/Hardware.antt =====
-- What a reboot cycle does to the hardware: app/domains/inventory/ap_auto_reboot.py.
use infra_scope.Common.{
  ◌≤◌, ◌≡◌, refl, sym, subst, ap as cong, ◌∙◌, true, false, not, Option, none, some, List, [], ltb,
  ◌==◌, nat_eq, string_eq, length, arith, Bool-cases, ◌⊎◌, inl, inr, Bool, All, IsIn, keep,
}
use infra_scope.Ap.Registry.{ApInfo, MergedAccessPoint}
use infra_scope.Ap.Reboot.{
  EventType, Severity, Settings, Env, State, Report, log,
  register_switch_outcome_and_maybe_escalate,
}
use infra_scope.Ap.Cycle.{
  choose_targets, handle_targets, after_scan, cycle_from, run_ap_reboot_cycle, scanned,
}
use infra_scope.Ap.Choice.{choose_targets-IsIn, keep-choose_targets, choose_targets_complete}
use infra_scope.Ap.Targets.{
  cycled_ports, switch-power_cycled, handle_targets-power_cycled, Follows, handle_targets-Follows,
  AreChosen, choose_targets-AreChosen, length-choose_targets,
}

-- The merged view of what a scan returned, empty where the switch did not answer.
abbrev pub view_of : Env → State → Option (List ApInfo) → List MergedAccessPoint
view_of env s none = []
view_of env s (some aps) = (scanned env s.switch.ap_vlan aps s.registry).1

-- What a report claims, against the targets of the cycle and its merged view.
pub record IsSafe (settings : Settings) (env : Env) (merged : List MergedAccessPoint) (s s' : State)
    (report : Report) : Type 0 where
  -- the ports that were power-cycled are those of the results
  pub traced : s'.power_cycled ≡ cycled_ports report.results s.power_cycled
  pub targets : List MergedAccessPoint
  -- the targets are access points of the view, none more often than it stands there, and all that
  -- are not excluded if there are fewer than the limit
  pub listed : All (IsIn merged) targets
  pub counted :
      (test : MergedAccessPoint → Bool) → length (keep test targets) ≤ length (keep test merged)
  pub complete :
      All (λ ap. ap.exclude_from_auto_reboot ≡ false → IsIn targets ap) merged
      ⊎ (length targets ≡ settings.max_per_switch)
  -- none of them excluded, the silent ones first
  pub chosen : AreChosen true targets
  pub few : length targets ≤ settings.max_per_switch
  pub followed :
      Follows settings env
        (not (s.switch.auto_reboot_mode == "live"))
        s.switch.auto_reboot_aps_enabled
        0
        targets
        report.results

after_scan-IsSafe :
    (settings : Settings) (env : Env) (aps : List ApInfo) (s : State)
    → let r = after_scan settings env aps s in
      IsSafe settings env (view_of env s (some aps)) s r.0 r.1
unfolding after_scan
after_scan-IsSafe settings env aps s =
    let is_dry_run = not (s.switch.auto_reboot_mode == "live") in
    let stop = s.switch.auto_reboot_aps_enabled in
    let merged = (scanned env s.switch.ap_vlan aps s.registry).1 in
    let targets = choose_targets settings.max_per_switch merged in
    let s₁ =
      register_switch_outcome_and_maybe_escalate settings env.now true (ltb 0 (length merged))
        (record s { registry = (scanned env s.switch.ap_vlan aps s.registry).0 }) in
    let same : s₁.power_cycled ≡ s.power_cycled =
      (switch-power_cycled settings env.now true (ltb 0 (length merged))
        (record s { registry = (scanned env s.switch.ap_vlan aps s.registry).0 })).0 in
    elim (Bool-cases (length targets == 0)) [
      | inl empty ↦ rw empty (record {
        traced = same ∙ unfold cycled_ports in refl;
        targets = targets;
        listed = choose_targets-IsIn settings.max_per_switch merged;
        counted = λ test. keep-choose_targets test settings.max_per_switch merged;
        complete = choose_targets_complete settings.max_per_switch merged;
        chosen = choose_targets-AreChosen settings.max_per_switch merged;
        few = length-choose_targets settings.max_per_switch merged;
        followed = tt;
      })
      | inr some_targets ↦ rw some_targets (record {
        traced =
            handle_targets-power_cycled settings env is_dry_run stop 0 targets s₁
            ∙ cong (cycled_ports (handle_targets settings env is_dry_run stop 0 targets s₁).1) same;
        targets = targets;
        listed = choose_targets-IsIn settings.max_per_switch merged;
        counted = λ test. keep-choose_targets test settings.max_per_switch merged;
        complete = choose_targets_complete settings.max_per_switch merged;
        chosen = choose_targets-AreChosen settings.max_per_switch merged;
        few = length-choose_targets settings.max_per_switch merged;
        followed = handle_targets-Follows settings env is_dry_run stop 0 targets s₁;
      })
    ]

cycle_from-IsSafe :
    (settings : Settings) (env : Env) (s : State) (scan : Option (List ApInfo))
    → let r = cycle_from settings env s scan in IsSafe settings env (view_of env s scan) s r.0 r.1
unfolding cycle_from
cycle_from-IsSafe settings env s none = record {
  traced =
      (switch-power_cycled settings env.now false false
        (log EventType.skipped Severity.warning s)).0
      ∙ unfold cycled_ports in refl;
  targets = [];
  listed = tt;
  counted = λ test. omega arith;
  complete = inl tt;
  chosen = tt;
  few = omega arith;
  followed = tt;
}
cycle_from-IsSafe settings env s (some aps) = after_scan-IsSafe settings env aps s

-- A reboot cycle, whatever the hardware answers, power-cycles exactly the ports that its results
-- report as rebooted. These belong to a beginning of a list of targets: access points of the merged
-- view of this cycle's scan (none where the switch did not answer), none more often than it stands
-- there and none of them excluded, the silent ones first, no more than `max_per_switch`, and all
-- that are not excluded unless that number is reached; none in a dry run, no silent one without
-- power, and none from the moment on that the toggle is found off.
pub run_ap_reboot_cycle-IsSafe :
    (settings : Settings) (env : Env) (s : State)
    → let r = run_ap_reboot_cycle settings env s in
      IsSafe settings env (view_of env s env.scan) s r.0 r.1
unfolding run_ap_reboot_cycle
run_ap_reboot_cycle-IsSafe settings env s = cycle_from-IsSafe settings env s env.scan

-- A switch that cannot be scanned keeps its registry and has nothing power-cycled, with no
-- results.
pub run-unreachable :
    (settings : Settings) (env : Env) (s : State)
    → env.scan ≡ none
    → let r = run_ap_reboot_cycle settings env s in
      (r.0.registry ≡ s.registry) × (r.0.power_cycled ≡ s.power_cycled) × (r.1.results ≡ [])
unfolding run_ap_reboot_cycle
run-unreachable settings env s h =
    let same =
      switch-power_cycled settings env.now false false (log EventType.skipped Severity.warning s) in
    subst
      (λ scan.
        let r = cycle_from settings env s scan in
        (r.0.registry ≡ s.registry) × (r.0.power_cycled ≡ s.power_cycled) × (r.1.results ≡ []))
      (sym h) (same.1, same.0, refl)
