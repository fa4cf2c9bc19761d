-- ===== src/Tests/RemoteTests.antt =====
-- Runs of app/domains/remote_access/service/, with plain texts for the `str` methods.
use Prim.Native.Char.{code}
use infra_scope.Common.{
  List, ℕ, ◌+◌, length, true, false, Option, none, some, [], ◌∷◌, String, ltb, ◌≡◌, refl, ◌↔◌, All,
  Both, map,
}
use infra_scope.Net.Reachability.{no_response}
use infra_scope.Common.Int.{pos}
use infra_scope.Remote.Device.{
  Str, RemoteAccessDevice, new_device, computer, cash_register, DeployState,
}
use infra_scope.Remote.Labels.{readiness, ready, deploying, is_stalled, is_false}
use infra_scope.Remote.Rows.{Table, delete_device}
use infra_scope.Remote.Inventory.{Inventory, seed_from_inventory, inventory_rows}
use infra_scope.Remote.Mirror.{Released, is_hit, release_inventory_row}
use infra_scope.Remote.Sync.{Scan, sync_from_console}
use infra_scope.Remote.AddressBook.{Book, rechecked, sync_stale_address_book}
use infra_scope.Remote.Accounts.{ConsoleUser, Accounts, new_account, sync_accounts}
use infra_scope.Remote.Logins.{IsTold, is_listed, account_of, sync_accounts_lem}
use infra_scope.Remote.Changes.{Reach, Ticks}
use infra_scope.Remote.Changes
use infra_scope.Remote.Names.{Distinct, names}
use infra_scope.Remote.Unique.{unique_hostnames}
use infra_scope.Remote.Background.{IsGrown, removal_sticks}
use infra_scope.Remote.Healing.{IsSettled, sync_from_console-IsSettled}
use infra_scope.Remote.Readiness.{is_open, readiness-ready_deploying}
use infra_scope.Remote.Seeding.{IsMirrored, seed_from_inventory_idem}
use infra_scope.Remote.Releasing.{release_inventory_row-links}
use infra_scope.Remote.Deleting.{IsForgotten, IsOther, delete_device-book}
use infra_scope.Remote.Sharing.{
  IsShared, IsSent, IsMarked, IsDelivered, sync_stale_address_book-IsShared,
}

-- No text has space around it or changes with its case; letters and digits are those from "0" on.
abbrev plain : Str
plain = record { lower = λ t. t; upper = λ t. t; strip = λ t. t; isalnum = λ c. ltb 47 (code c) }

abbrev stock : Inventory
stock = record {
  computers =
      record {
        id = 5;
        hostname = "VNK-MGR-D01";
        location = some "office";
        is_online = some true;
        reachability_reason = none;
        last_polled_at = some 50;
      }
      ∷ [];
  registers =
      record {
        id = 8;
        hostname = "VNA-KKM-1506";
        store_number = some "1506";
        store_code = none;
        kkm_number = "1506";
        is_online = some false;
        reachability_reason = some no_response;
        last_polled_at = some 60;
      }
      ∷ [];
  players = [];
}

abbrev manager : RemoteAccessDevice
manager = record (new_device 1 "VNK-MGR-D01" "VNK_MGR_D01" computer (some "office") "secret") {
  computer_id = some 5;
  deploy_state = DeployState.pending;
  ab_row_id = some 77;
  in_address_book = true;
}

abbrev removed : RemoteAccessDevice
removed = record (new_device 2 "VNA-KKM-1506" "VNA_KKM_1506" cash_register none "other") {
  managed = false;
}

abbrev fleet : Table
fleet = manager ∷ removed ∷ []

abbrev scan : Scan
scan = record {
  now = 1000;
  window = 120;
  inventory = stock;
  peers =
      record {
        id = "VNK_MGR_D01";
        hostname = some "VNK-MGR-D01";
        last_online_time = some (pos 990);
        version = some "1.3";
        username = none;
        last_online_ip = none;
      }
      ∷ [];
}

abbrev message : Option String → Option String → String
message rid old = "healed"

abbrev book : Book
book = record { existing = []; fresh = ("VNK_MGR_D01", some 78) ∷ []; accepts = λ id. true }

unique_hostnames_example : Distinct (
    names plain
      (sync_from_console plain message scan
        (seed_from_inventory plain stock (λ n. n) (λ n. "pw") []).0).0)
unique_hostnames_example =
    unique_hostnames plain (λ t. refl)
      (Reach.next
        (Reach.next Reach.empty (
          Changes.by_itself (seed_from_inventory plain stock (λ n. n) (λ n. "pw") []).0
            (Changes.seeded stock (λ n. n) (λ n. "pw"))))
        (Changes.by_itself
          (sync_from_console plain message scan
            (seed_from_inventory plain stock (λ n. n) (λ n. "pw") []).0).0
          (Changes.synced message scan)))

removal_sticks_example :
    IsGrown fleet (seed_from_inventory plain stock (λ n. n) (λ n. "pw") fleet).0
removal_sticks_example =
    removal_sticks plain fleet (Ticks.more Ticks.done (Changes.seeded stock (λ n. n) (λ n. "pw")))

sync_from_console-IsSettled_example :
    Both (IsSettled plain scan fleet) fleet (sync_from_console plain message scan fleet).0
sync_from_console-IsSettled_example = sync_from_console-IsSettled plain message scan fleet

readiness-ready_deploying_example :
    ((readiness 1000 manager ≡ ready)
      ↔ ((manager.online ≡ some true) × (is_open manager.deploy_state ≡ true)))
    × ((readiness 1000 manager ≡ deploying) ↔ (
        (manager.deploy_state ≡ DeployState.pending)
        × (is_false manager.host_online ≡ false)
        × (is_stalled 1000 manager.deploy_requested_at ≡ false)))
readiness-ready_deploying_example = readiness-ready_deploying 1000 manager

seed_from_inventory_idem_example :
    let (seeded, created) = seed_from_inventory plain stock (λ n. n) (λ n. "pw") fleet in
    let (again, more) = seed_from_inventory plain stock (λ n. n) (λ n. "again") seeded in
    (length seeded ≡ length fleet + created)
    × All (IsMirrored plain seeded) (inventory_rows plain stock)
    × (more ≡ 0)
    × (names plain again ≡ names plain seeded)
    × (length again ≡ length seeded)
seed_from_inventory_idem_example =
    seed_from_inventory_idem plain stock (λ n. n) (λ n. n) (λ n. "pw") (λ n. "again") fleet

abbrev gone : Released
gone = record { computer_id = some 5; cash_register_id = none; media_player_id = none }

release_inventory_row-links_example :
    All (λ dev. is_hit gone dev ≡ false) (release_inventory_row 1000 gone fleet).0
release_inventory_row-links_example = release_inventory_row-links 1000 gone fleet

delete_device-book_example :
    All (IsForgotten manager) (delete_device 1000 manager fleet).0
    × ((n : ℕ) (peer : String)
        → (delete_device 1000 manager fleet).1 ≡ some (n, peer)
        → (manager.ab_row_id ≡ some n)
          × (manager.rustdesk_id ≡ some peer)
          × All (IsOther manager peer) fleet)
delete_device-book_example = delete_device-book 1000 manager fleet

sync_stale_address_book-IsShared_example :
    let checked = map (rechecked []) fleet in
    let (result, calls, count) = sync_stale_address_book plain 1000 "pw" [] book fleet in
    All (IsShared book) result
    × Both (IsMarked book) checked result
    × All (IsDelivered plain "pw" book calls) checked
    × All (IsSent plain "pw" checked) calls
    × (count.created + count.updated + count.failed ≡ length calls)
sync_stale_address_book-IsShared_example =
    sync_stale_address_book-IsShared plain 1000 "pw" [] book fleet

-- The console lists one login of the two that are known, disabled.
abbrev logins : List ConsoleUser
logins =
    record {
      id = 3;
      username = "ivanov";
      is_admin = true;
      email = none;
      nickname = some "Ivanov";
      status = some 2;
    }
    ∷ []

abbrev accounts : Accounts
accounts = new_account "ivanov" ∷ new_account "petrov" ∷ []

sync_accounts_lem_example :
    All (IsTold plain (sync_accounts plain 1000 logins accounts).0) logins
    × ((name : String)
        → is_listed plain name logins ≡ false
        → account_of name (sync_accounts plain 1000 logins accounts).0 ≡ account_of name accounts)
sync_accounts_lem_example = sync_accounts_lem plain 1000 logins accounts (refl, tt)
