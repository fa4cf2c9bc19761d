-- ===== src/Ap/Outcomes.antt =====
-- app/domains/inventory/ap_registry.py: what an operator and a reboot cycle make of a row.
use infra_scope.Common.{
  ℕ, ◌+◌, Bool, true, false, ◌&&◌, Option, none, some, String, leb, if◌then◌else◌, nat_eq,
  string_eq,
}
use infra_scope.Ap.Registry.{SwitchAccessPoint, Registry, is_none, first_by_mac, store}

unfoldable pub excluded_row : SwitchAccessPoint → Bool → ℕ → SwitchAccessPoint
excluded_row row true now = record row { exclude_from_auto_reboot = true; updated_at = some now }
excluded_row row false now = record row {
  exclude_from_auto_reboot = false;
  consecutive_reboot_failures = 0;
  consecutive_no_power_skips = 0;
  needs_attention_since = none;
  updated_at = some now;
}

-- The registry, and whether the access point was in it.
unfoldable pub set_ap_excluded : String → Bool → ℕ → Registry → Registry × Bool
unfolding excluded_row
set_ap_excluded mac excluded now rows = elim (first_by_mac mac rows) [
  | none ↦ (rows, false)
  | some row ↦ (store (excluded_row row excluded now) rows, true)
]

-- `recovered`: True, False, None.
pub data Outcome : Type 0 where
  recovered failed no_power : Outcome

unfoldable pub escalate : SwitchAccessPoint → ℕ → ℕ → ℕ → SwitchAccessPoint × Bool
escalate row streak threshold now =
    if leb threshold streak && is_none row.needs_attention_since
    then (record row { needs_attention_since = some now; exclude_from_auto_reboot = true }, true)
    else (row, false)

-- The row after a cycle, and whether this call escalated it.
unfoldable pub outcome_row : SwitchAccessPoint → Outcome → ℕ → ℕ → SwitchAccessPoint × Bool
unfolding escalate
outcome_row row recovered threshold now = (
  record row {
    consecutive_reboot_failures = 0;
    consecutive_no_power_skips = 0;
    needs_attention_since = none;
    updated_at = some now;
  },
  false,
)
outcome_row row failed threshold now =
    let streak = row.consecutive_reboot_failures + 1 in
    escalate (record row { consecutive_reboot_failures = streak; updated_at = some now }) streak
      threshold now
outcome_row row no_power threshold now =
    let streak = row.consecutive_no_power_skips + 1 in
    escalate (record row { consecutive_no_power_skips = streak; updated_at = some now }) streak
      threshold now

unfoldable pub register_reboot_outcome :
    String → Outcome → ℕ → ℕ → Registry → Registry × Option SwitchAccessPoint × Bool
unfolding outcome_row
register_reboot_outcome mac outcome threshold now rows = elim (first_by_mac mac rows) [
  | none ↦ (rows, none, false)
  | some row ↦
      let (row', escalated) = outcome_row row outcome threshold now in
      (store row' rows, some row', escalated)
]
