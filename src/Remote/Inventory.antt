-- ===== src/Remote/Inventory.antt =====
-- app/domains/remote_access/service/inventory.py: the devices as a mirror of the inventory tables.
use infra_scope.Common.{
  ℕ, suc, ◌+◌, Bool, false, ◌&&◌, Option, none, some, List, [], ◌∷◌, ◌++◌, String, ltb,
  if◌then◌else◌, ◌==◌, nat_eq, string_eq, first, last,
}
use infra_scope.Net.Reachability.{Reason}
use infra_scope.Remote.Device.{
  Str, RemoteAccessDevice, SourceKind, cash_register, computer, media_player, new_device,
  hostname_to_rid, is_text, ◌or◌, text_or,
}
use infra_scope.Remote.Rows.{Table, update, has_name}

pub record Computer : Type 0 where
  pub id : ℕ
  pub hostname : String
  pub location : Option String
  pub is_online : Option Bool
  pub reachability_reason : Option Reason
  pub last_polled_at : Option ℕ

pub record CashRegister : Type 0 where
  pub id : ℕ
  pub hostname : String
  pub store_number : Option String
  pub store_code : Option String
  pub kkm_number : String
  pub is_online : Option Bool
  pub reachability_reason : Option Reason
  pub last_polled_at : Option ℕ

-- `is_nettop` is `device_type == _NETTOP`.
pub record MediaPlayer : Type 0 where
  pub id : ℕ
  pub hostname : Option String
  pub is_nettop : Bool
  pub is_online : Option Bool
  pub last_polled_at : Option ℕ

pub record Inventory : Type 0 where
  pub computers : List Computer
  pub registers : List CashRegister
  pub players : List MediaPlayer

abbrev pub cr_location : CashRegister → Option String
cr_location cr = cr.store_number or cr.store_code or none

abbrev pub name_of : MediaPlayer → String
name_of player = text_or player.hostname ""

-- The rows of the three tables that have the name: what `_link_inventory` looks up.
pub record Links : Type 0 where
  pub comp : Option Computer
  pub cr : Option CashRegister
  pub mp : Option MediaPlayer

abbrev pub is_key : Str → String → String → Bool
is_key py host hostname = is_text hostname && (py.lower hostname == host)

abbrev pub is_name : Str → String → Option String → Bool
is_name py host none = false
is_name py host (some hostname) = py.lower hostname == host

-- With the maps of `_inventory_maps`: of two rows with one name the later is in the map.
unfoldable pub mapped_links : Str → Inventory → String → Links
mapped_links py inventory host = record {
  comp = last (λ c. is_key py host c.hostname) inventory.computers;
  cr = last (λ r. is_key py host r.hostname) inventory.registers;
  mp = last (λ m. m.is_nettop && is_key py host (name_of m)) inventory.players;
}

-- With one query for each table.
unfoldable pub queried_links : Str → Inventory → String → Links
queried_links py inventory host = record {
  comp = first (λ c. py.lower c.hostname == host) inventory.computers;
  cr = first (λ r. py.lower r.hostname == host) inventory.registers;
  mp = first (λ m. is_name py host m.hostname && m.is_nettop) inventory.players;
}

-- An id that is already there stays, and its row is not looked up.
abbrev pub link_computer : Option ℕ → Option Computer → RemoteAccessDevice → RemoteAccessDevice
link_computer none (some comp) dev = record dev {
  computer_id = some comp.id;
  location = dev.location or comp.location;
}
link_computer id comp dev = dev

abbrev pub link_register : Option ℕ → Option CashRegister → RemoteAccessDevice → RemoteAccessDevice
link_register none (some cr) dev = record dev {
  cash_register_id = some cr.id;
  location = dev.location or cr_location cr;
}
link_register id cr dev = dev

abbrev pub link_player : Option ℕ → Option MediaPlayer → RemoteAccessDevice → RemoteAccessDevice
link_player none (some mp) dev = record dev { media_player_id = some mp.id }
link_player id mp dev = dev

-- An id is a UUID, which is true.
abbrev pub strongest : Option ℕ → Option ℕ → Option ℕ → SourceKind → SourceKind
strongest (some cr) comp mp kind = cash_register
strongest none (some comp) mp kind = computer
strongest none none (some mp) kind = media_player
strongest none none none kind = kind

abbrev pub label : RemoteAccessDevice → RemoteAccessDevice
label dev = record dev {
  source_kind = strongest dev.cash_register_id dev.computer_id dev.media_player_id dev.source_kind;
}

unfoldable pub link_inventory : Links → RemoteAccessDevice → RemoteAccessDevice
link_inventory links dev =
    let with_computer = link_computer dev.computer_id links.comp dev in
    let with_register = link_register with_computer.cash_register_id links.cr with_computer in
    label (link_player with_register.media_player_id links.mp with_register)

-- One endpoint of the inventory: its stripped name, the kind and the location.
abbrev pub Endpoint : Type 0
Endpoint = String × SourceKind × Option String

abbrev pub endpoint : Str → String → SourceKind → Option String → List Endpoint
endpoint py hostname kind location =
    if is_text hostname && is_text (py.strip hostname)
    then (py.strip hostname, kind, location) ∷ []
    else []

abbrev pub each {ℓ} : {A : Type ℓ} → (A → List Endpoint) → List A → List Endpoint
each f [] = []
each f (x ∷ xs) = f x ++ each f xs

unfoldable pub inventory_rows : Str → Inventory → List Endpoint
inventory_rows py inventory =
    each (λ r. endpoint py r.hostname cash_register (cr_location r)) inventory.registers
    ++ each (λ c. endpoint py c.hostname computer c.location) inventory.computers
    ++ each (λ m. if m.is_nettop then endpoint py (name_of m) media_player none else [])
        inventory.players

-- `_SOURCE_RANK`
abbrev pub rank : SourceKind → ℕ
rank cash_register = 3
rank computer = 2
rank media_player = 1

abbrev pub refreshed : SourceKind → Option String → String → RemoteAccessDevice → RemoteAccessDevice
refreshed kind location password dev = record dev {
  source_kind = if ltb (rank dev.source_kind) (rank kind) then kind else dev.source_kind;
  location = dev.location or location or dev.location;
  permanent_password = if is_text dev.permanent_password then dev.permanent_password else password;
}

-- `found` is the existing row. `n` counts the endpoints, for the new ids and passwords.
unfoldable pub seed_found :
    Str
    → Inventory
    → (ℕ → ℕ)
    → (ℕ → String)
    → ℕ
    → Endpoint
    → Table
    → Option RemoteAccessDevice
    → Table × ℕ
unfolding mapped_links link_inventory
seed_found py inventory new_id password n (hostname, kind, location) rows none = (
  rows
      ++ (link_inventory (mapped_links py inventory (py.lower hostname)) (
            new_device (new_id n) hostname (hostname_to_rid py hostname) kind location (password n))
          ∷ []),
  1,
)
seed_found py inventory new_id password n (hostname, kind, location) rows (some dev) = (
  update dev.id
      (λ d.
        link_inventory (mapped_links py inventory (py.lower d.hostname))
          (refreshed kind location (password n) d))
      rows,
  0,
)

-- The dict of the existing rows by lowered name has one entry for each row, since no two rows have
-- one lowered name.
unfoldable pub seed_row :
    Str → Inventory → (ℕ → ℕ) → (ℕ → String) → ℕ → Endpoint → Table → Table × ℕ
unfolding seed_found
seed_row py inventory new_id password n e rows =
    seed_found py inventory new_id password n e rows (first (has_name py (py.lower e.0)) rows)

unfoldable pub seed_rows :
    Str → Inventory → (ℕ → ℕ) → (ℕ → String) → ℕ → List Endpoint → Table → Table × ℕ
unfolding seed_row
seed_rows py inventory new_id password n [] rows = (rows, 0)
seed_rows py inventory new_id password n (e ∷ es) rows =
    let (seeded, created) = seed_row py inventory new_id password n e rows in
    let (result, more) = seed_rows py inventory new_id password (suc n) es seeded in
    (result, created + more)

unfoldable pub seed_from_inventory : Str → Inventory → (ℕ → ℕ) → (ℕ → String) → Table → Table × ℕ
unfolding seed_rows inventory_rows
seed_from_inventory py inventory new_id password rows =
    seed_rows py inventory new_id password 0 (inventory_rows py inventory) rows
