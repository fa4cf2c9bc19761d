-- ===== src/Tests/ApTests.antt =====
-- Runs of app/domains/inventory/ap_registry.py and app/domains/inventory/ap_auto_reboot.py.
use infra_scope.Common.{
  ℕ, ◌+◌, ◌-◌, true, false, not, ◌&&◌, ◌||◌, none, some, List, [], ◌∷◌, map, leb, ltb, length,
  if◌then◌else◌, nat_eq, string_eq, String, arith, ◌≡◌, refl,
}
use infra_scope.Ap.Registry.{SwitchAccessPoint, ApInfo, MergedAccessPoint, record_seen_aps}
use infra_scope.Ap.View.{is_live, merge_live_and_known}
use infra_scope.Ap.Outcomes.{failed, set_ap_excluded, register_reboot_outcome}
use infra_scope.Ap.Escalation.{cycles, failures_at, AreGuarded, cycles_lem, operations-AreGuarded}
use infra_scope.Ap.Merging.{responding_macs, shows_silent, seen_lately, merge_lem}
use infra_scope.Ap.Reboot.{
  NetworkSwitch, Settings, Env, State, verify_ap_back_online, handle_one_ap,
}
use infra_scope.Ap.Cycle.{run_ap_reboot_cycle}
use infra_scope.Ap.Targets.{is_reboot, handle_one_ap_lem}
use infra_scope.Ap.Hardware.{IsSafe, view_of, run_ap_reboot_cycle-IsSafe}
use infra_scope.Ap.Attention.{
  shown_within, unreachable_cycles, switch_alert, verify_ap_back_online_lem, unreachable_cycles_lem,
}

abbrev row_a : SwitchAccessPoint
row_a = record {
  id = 0;
  mac_address = "aa";
  port = "Gi0/1";
  cdp_name = none;
  last_seen_at = 100;
  is_active = true;
  exclude_from_auto_reboot = false;
  consecutive_reboot_failures = 0;
  consecutive_no_power_skips = 0;
  needs_attention_since = none;
  updated_at = none;
}

abbrev seen_b : ApInfo
seen_b = record {
  mac_address = "bb";
  port = "Gi0/2";
  cdp_name = none;
  ip_address = none;
  cdp_platform = none;
  poe_power = some "6.3";
  poe_status = some "on";
}

abbrev four_times : List ℕ
four_times = 1 ∷ 2 ∷ 3 ∷ 4 ∷ []

cycles_lem_example :
    let r = cycles 3 (failures_at four_times) row_a in
    let reached = leb 3 (length four_times) && ltb 0 (length four_times) in
    (r.1 ≡ (if reached then 1 else 0))
    × (r.0.exclude_from_auto_reboot ≡ (reached || row_a.exclude_from_auto_reboot))
cycles_lem_example = cycles_lem 3 four_times row_a refl refl

operations-AreGuarded_example :
    AreGuarded (record_seen_aps (λ n. n + 1) 200 (seen_b ∷ []) (row_a ∷ []))
    × AreGuarded (set_ap_excluded "aa" false 200 (row_a ∷ [])).0
    × AreGuarded (register_reboot_outcome "aa" failed 1 200 (row_a ∷ [])).0
operations-AreGuarded_example =
    operations-AreGuarded (row_a ∷ []) (λ n. n + 1) 200 1 (seen_b ∷ []) "aa" false failed (refl, tt)

merge_lem_example :
    (responding_macs (merge_live_and_known 20 200 (seen_b ∷ []) (row_a ∷ []))
      ≡ map (λ a. a.mac_address) (seen_b ∷ []))
    × ((mac : String)
        → shows_silent mac (merge_live_and_known 20 200 (seen_b ∷ []) (row_a ∷ []))
          ≡ (not (is_live mac (seen_b ∷ [])) && seen_lately mac 200 (row_a ∷ [])))
merge_lem_example = merge_lem 20 200 (seen_b ∷ []) (row_a ∷ [])

abbrev settings : Settings
settings = record {
  verify_max_wait_seconds = 100;
  verify_poll_interval_seconds = 30;
  max_per_switch = 4;
  escalate_after_cycles = 3;
}

abbrev switch : NetworkSwitch
switch = record {
  name = "SW-01";
  vendor = "cisco";
  ap_vlan = 20;
  auto_reboot_aps_enabled = true;
  auto_reboot_mode = "live";
  consecutive_unreachable_cycles = 0;
  consecutive_no_aps_found_cycles = 0;
  switch_needs_attention_since = none;
}

abbrev state : State
state = record {
  registry = row_a ∷ [];
  switch = switch;
  events = [];
  metrics = [];
  power_cycled = [];
}

-- The scan shows one access point; the other one is silent but draws power.
abbrev env : Env
env = record {
  scan = some (seen_b ∷ []);
  has_power = λ i. true;
  poe_cycle = λ i. true;
  rescan = λ i round. some (seen_b ∷ []);
  enabled = λ i. true;
  new_id = λ n. n + 1;
  now = 200;
}

abbrev merged_a : MergedAccessPoint
merged_a = record {
  mac_address = "aa";
  port = "Gi0/1";
  vlan = 20;
  cdp_name = none;
  ip_address = none;
  cdp_platform = none;
  poe_power = none;
  poe_status = none;
  is_responding = false;
  last_seen_at = 100;
  exclude_from_auto_reboot = false;
  consecutive_reboot_failures = 0;
  consecutive_no_power_skips = 0;
  needs_attention_since = none;
}

handle_one_ap_lem_example :
    let r = handle_one_ap settings env false 0 merged_a state in
    (r.0.power_cycled
      ≡ (if is_reboot r.1.action then merged_a.port ∷ state.power_cycled else state.power_cycled))
    × (is_reboot r.1.action ≡ (not false && (merged_a.is_responding || env.has_power 0)))
    × (r.1.port ≡ merged_a.port)
    × (r.1.hung ≡ not merged_a.is_responding)
handle_one_ap_lem_example = handle_one_ap_lem settings env false 0 merged_a state

run_ap_reboot_cycle-IsSafe_example :
    let r = run_ap_reboot_cycle settings env state in
    IsSafe settings env (view_of env state env.scan) state r.0 r.1
run_ap_reboot_cycle-IsSafe_example = run_ap_reboot_cycle-IsSafe settings env state

verify_ap_back_online_lem_example :
    verify_ap_back_online settings (λ round. some (seen_b ∷ [])) "bb"
    ≡ shown_within (λ round. some (seen_b ∷ [])) "bb" 4 0
verify_ap_back_online_lem_example =
    verify_ap_back_online_lem settings (λ round. some (seen_b ∷ [])) "bb" 4 (omega arith)
      (λ k h. omega arith)

unreachable_cycles_lem_example :
    let s' = unreachable_cycles settings (λ k. 200 + k) 5 state in
    (s'.switch.consecutive_unreachable_cycles ≡ 5)
    × (s'.switch.switch_needs_attention_since ≡ (
        if leb settings.escalate_after_cycles 5
        then some (200 + (settings.escalate_after_cycles - 1))
        else none))
    × (s'.events ≡ (
        if leb settings.escalate_after_cycles 5 then switch_alert ∷ state.events else state.events))
unreachable_cycles_lem_example =
    unreachable_cycles_lem settings (λ k. 200 + k) 5 state (omega arith) refl refl
