-- ===== src/Ap/Registry.antt =====
-- app/domains/inventory/ap_registry.py. Every function there reads the rows of one switch, so a
-- registry is the list of those rows. A text that is missing and an empty one are both untrue.
use infra_scope.Common.{
  ℕ, ◌+◌, Bool, true, false, not, ◌&&◌, ◌||◌, Option, none, some, List, [], ◌∷◌, String,
  if◌then◌else◌, ◌==◌, nat_eq, string_eq, map,
}

-- `SwitchAccessPoint` of app/domains/inventory/models.py.
pub record SwitchAccessPoint : Type 0 where
  pub id : ℕ
  pub mac_address : String
  pub port : String
  pub cdp_name : Option String
  pub last_seen_at : ℕ
  pub is_active : Bool
  pub exclude_from_auto_reboot : Bool
  pub consecutive_reboot_failures : ℕ
  pub consecutive_no_power_skips : ℕ
  pub needs_attention_since : Option ℕ
  pub updated_at : Option ℕ

-- `APInfo` of app/services/cisco_ssh/models.py.
pub record ApInfo : Type 0 where
  pub mac_address : String
  pub port : String
  pub cdp_name : Option String
  pub ip_address : Option String
  pub cdp_platform : Option String
  pub poe_power : Option String
  pub poe_status : Option String

pub record MergedAccessPoint : Type 0 where
  pub mac_address : String
  pub port : String
  pub vlan : ℕ
  pub cdp_name : Option String
  pub ip_address : Option String
  pub cdp_platform : Option String
  pub poe_power : Option String
  pub poe_status : Option String
  pub is_responding : Bool
  pub last_seen_at : ℕ
  pub exclude_from_auto_reboot : Bool
  pub consecutive_reboot_failures : ℕ
  pub consecutive_no_power_skips : ℕ
  pub needs_attention_since : Option ℕ

abbrev pub Registry : Type 0
Registry = List SwitchAccessPoint

abbrev pub truthy : String → Bool
truthy s = not (s == "")

abbrev pub truthy? : Option String → Bool
truthy? none = false
truthy? (some s) = truthy s

abbrev pub or_else {ℓ} : {A : Type ℓ} → Option A → Option A → Option A
or_else none b = b
or_else (some a) b = some a

abbrev pub is_none {ℓ} : {A : Type ℓ} → Option A → Bool
is_none none = true
is_none (some a) = false

-- `.first()` of the query by MAC.
unfoldable pub first_by_mac : String → Registry → Option SwitchAccessPoint
first_by_mac mac [] = none
first_by_mac mac (row ∷ rows) = if row.mac_address == mac then some row else first_by_mac mac rows

-- `{row.mac_address: row for row in rows}.get(mac)`: a later row covers an earlier one.
unfoldable pub last_by_mac : String → Registry → Option SwitchAccessPoint
last_by_mac mac [] = none
last_by_mac mac (row ∷ rows) =
    or_else (last_by_mac mac rows) (if row.mac_address == mac then some row else none)

-- `session.add(row)`
unfoldable pub store : SwitchAccessPoint → Registry → Registry
store row [] = row ∷ []
store row (old ∷ rows) = if old.id == row.id then row ∷ rows else old ∷ store row rows

unfoldable pub has_id : ℕ → List ℕ → Bool
has_id r [] = false
has_id r (q ∷ ids) = q == r || has_id r ids

unfoldable pub restrict : List ℕ → Registry → Registry
unfolding has_id
restrict ids [] = []
restrict ids (row ∷ rows) = if has_id row.id ids then row ∷ restrict ids rows else restrict ids rows

-- What a live sighting makes of a row.
unfoldable pub seen_row : SwitchAccessPoint → ApInfo → ℕ → SwitchAccessPoint
seen_row row ap now = record row {
  port = ap.port;
  cdp_name = if truthy? ap.cdp_name then ap.cdp_name else row.cdp_name;
  last_seen_at = now;
  is_active = true;
  consecutive_reboot_failures = 0;
  consecutive_no_power_skips = 0;
  needs_attention_since = none;
  updated_at = some now;
}

unfoldable pub new_ap_row : ℕ → ApInfo → ℕ → SwitchAccessPoint
new_ap_row new_id ap now = record {
  id = new_id;
  mac_address = ap.mac_address;
  port = ap.port;
  cdp_name = none;
  last_seen_at = now;
  is_active = true;
  exclude_from_auto_reboot = false;
  consecutive_reboot_failures = 0;
  consecutive_no_power_skips = 0;
  needs_attention_since = none;
  updated_at = none;
}

-- The identifiers that the database hands out are `new_id` of the position in the scan. A row is
-- looked up in what was stored when the call began, but for the changes made to those rows since.
unfoldable pub record_seen_from : (ℕ → ℕ) → ℕ → ℕ → List ℕ → List ApInfo → Registry → Registry
unfolding seen_row new_ap_row restrict
record_seen_from new_id now i known [] rows = rows
record_seen_from new_id now i known (ap ∷ aps) rows =
    record_seen_from new_id now (i + 1) known aps (
      if truthy ap.mac_address && truthy ap.port
      then elim (last_by_mac ap.mac_address (restrict known rows)) [
        | none ↦ store (seen_row (new_ap_row (new_id i) ap now) ap now) rows
        | some row ↦ store (seen_row row ap now) rows
      ]
      else rows)

unfoldable pub record_seen_aps : (ℕ → ℕ) → ℕ → List ApInfo → Registry → Registry
record_seen_aps new_id now live_aps rows =
    record_seen_from new_id now 0 (map (λ row. row.id) rows) live_aps rows
