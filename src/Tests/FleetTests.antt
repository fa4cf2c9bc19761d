-- ===== src/Tests/FleetTests.antt =====
-- A run of app/domains/operations/cash_register_polling.py.
use infra_scope.Common.{
  ℕ, Bool, true, false, none, some, List, [], ◌∷◌, String, if◌then◌else◌, ◌==◌, nat_eq, string_eq,
  ◌≡◌, Both,
}
use infra_scope.Net.Reachability.{ReachabilityResult, no_route}
use infra_scope.Remote.Inventory.{CashRegister}
use infra_scope.Poll.Fleet.{may_run, poll_all_cash_registers_local}
use infra_scope.Poll.Fleet.Outcomes.{changes, IsPolled, poll_all_cash_registers_local_lem}
use infra_scope.Tests.PollTests.{memory, nothing, settings_once}

abbrev register : ℕ → String → Bool → CashRegister
register id hostname was = record {
  id = id;
  hostname = hostname;
  store_number = none;
  store_code = none;
  kkm_number = "1506";
  is_online = some was;
  reachability_reason = none;
  last_polled_at = none;
}

abbrev registers : List CashRegister
registers = register 1 "VNA-KKM-1506" true ∷ register 2 "VNA-KKM-1507" true ∷ []

-- The first host cannot be reached.
abbrev probe : String → ReachabilityResult
probe hostname =
    if hostname == "VNA-KKM-1506"
    then record { is_online = false; reason = some no_route; resolved_address = none }
    else record { is_online = true; reason = none; resolved_address = some "10.0.0.7" }

abbrev id_text : ℕ → String
id_text id = if id == 1 then "1" else "2"

poll_all_cash_registers_local_lem_example :
    let result =
      poll_all_cash_registers_local
        (memory true)
        settings_once
        id_text
        probe
        (some true)
        1000
        1010
        nothing
        registers in
    (may_run (some true) ≡ false → result ≡ (nothing, registers, []))
    × (may_run (some true) ≡ true
        → Both
            (IsPolled (memory true) settings_once id_text probe nothing 1000 1010)
            registers
            result.1
          × (result.2 ≡ changes registers result.1))
poll_all_cash_registers_local_lem_example =
    poll_all_cash_registers_local_lem (memory true) settings_once id_text probe (some true) 1000
      1010 nothing registers
