-- ===== src/Ap/View.antt =====
-- app/domains/inventory/ap_registry.py: a scan and the registry put together.
use infra_scope.Common.{
  ℕ, ◌+◌, ◌*◌, Bool, true, false, not, ◌&&◌, ◌||◌, Option, none, some, List, [], ◌∷◌, ◌++◌, String,
  ltb, if◌then◌else◌, ◌==◌, nat_eq, string_eq, map,
}
use infra_scope.Ap.Registry.{
  SwitchAccessPoint, ApInfo, MergedAccessPoint, Registry, truthy, or_else, first_by_mac,
}

-- `{(row.port, row.cdp_name): row.mac_address ... if row.cdp_name}.get((port, name))`
unfoldable pub mac_by_port_name : String → String → Registry → Option String
mac_by_port_name port name [] = none
mac_by_port_name port name (row ∷ rows) =
    or_else (mac_by_port_name port name rows) (elim row.cdp_name [
      | none ↦ none
      | some n ↦ if truthy n && row.port == port && n == name then some row.mac_address else none
    ])

-- One access point of `recover_missing_macs_from_registry`.
unfoldable pub recover_mac : Registry → ApInfo → ApInfo
unfolding mac_by_port_name
recover_mac rows ap = elim ap.cdp_name [
  | none ↦ ap
  | some name ↦
      if truthy ap.mac_address || not (truthy ap.port) || not (truthy name)
      then ap
      else elim (mac_by_port_name ap.port name rows) [
        | none ↦ ap
        | some mac ↦ if truthy mac then record ap { mac_address = mac } else ap
      ]
]

unfoldable pub recover_missing_macs_from_registry : List ApInfo → Registry → List ApInfo
recover_missing_macs_from_registry aps rows = map (recover_mac rows) aps

unfoldable pub get_known_aps : Registry → Registry
get_known_aps [] = []
get_known_aps (row ∷ rows) = if row.is_active then row ∷ get_known_aps rows else get_known_aps rows

-- `mac in live_by_mac`
unfoldable pub is_live : String → List ApInfo → Bool
is_live mac [] = false
is_live mac (ap ∷ aps) = (truthy ap.mac_address && ap.mac_address == mac) || is_live mac aps

abbrev pub stale_after_seconds : ℕ
stale_after_seconds = 7 * 86400

unfoldable pub live_entry : ℕ → ℕ → ApInfo → Option SwitchAccessPoint → MergedAccessPoint
live_entry vlan now ap known = record {
  mac_address = ap.mac_address;
  port = ap.port;
  vlan = vlan;
  cdp_name = ap.cdp_name;
  ip_address = ap.ip_address;
  cdp_platform = ap.cdp_platform;
  poe_power = ap.poe_power;
  poe_status = ap.poe_status;
  is_responding = true;
  last_seen_at = elim known [ none ↦ now | some row ↦ row.last_seen_at ];
  exclude_from_auto_reboot = elim known [ none ↦ false | some row ↦ row.exclude_from_auto_reboot ];
  consecutive_reboot_failures = elim known [
    | none ↦ 0
    | some row ↦ row.consecutive_reboot_failures
  ];
  consecutive_no_power_skips = elim known [ none ↦ 0 | some row ↦ row.consecutive_no_power_skips ];
  needs_attention_since = elim known [ none ↦ none | some row ↦ row.needs_attention_since ];
}

unfoldable pub known_entry : ℕ → Bool → SwitchAccessPoint → MergedAccessPoint
known_entry vlan responding row = record {
  mac_address = row.mac_address;
  port = row.port;
  vlan = vlan;
  cdp_name = row.cdp_name;
  ip_address = none;
  cdp_platform = none;
  poe_power = none;
  poe_status = none;
  is_responding = responding;
  last_seen_at = row.last_seen_at;
  exclude_from_auto_reboot = row.exclude_from_auto_reboot;
  consecutive_reboot_failures = row.consecutive_reboot_failures;
  consecutive_no_power_skips = row.consecutive_no_power_skips;
  needs_attention_since = row.needs_attention_since;
}

-- The known rows that did not show up and are not stale. (`last_seen < now - 7 days` is stale.)
unfoldable pub silent_entries : ℕ → ℕ → List ApInfo → Registry → List MergedAccessPoint
unfolding known_entry is_live
silent_entries vlan now live_aps [] = []
silent_entries vlan now live_aps (row ∷ rows) =
    if is_live row.mac_address live_aps || ltb (row.last_seen_at + stale_after_seconds) now
    then silent_entries vlan now live_aps rows
    else known_entry vlan false row ∷ silent_entries vlan now live_aps rows

unfoldable pub merge_live_and_known : ℕ → ℕ → List ApInfo → Registry → List MergedAccessPoint
unfolding live_entry silent_entries
merge_live_and_known vlan now live_aps known_rows =
    map (λ ap. live_entry vlan now ap (first_by_mac ap.mac_address known_rows)) live_aps
    ++ silent_entries vlan now live_aps known_rows

unfoldable pub known_aps_as_still_responding : ℕ → Registry → List MergedAccessPoint
unfolding known_entry
known_aps_as_still_responding vlan known_rows = map (known_entry vlan true) known_rows
