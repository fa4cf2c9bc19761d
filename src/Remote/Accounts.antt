-- ===== src/Remote/Accounts.antt =====
-- app/domains/remote_access/service/accounts.py: the console's logins as rows. What the console
-- lists is an argument; the groups, the shared book and the passwords are its own.
use infra_scope.Common.{
  ℕ, Bool, true, false, Option, none, some, List, [], ◌∷◌, String, if◌then◌else◌, ◌==◌, nat_eq,
  string_eq, last, keep, length,
}
use infra_scope.Remote.Device.{Str, is_text, is_number, ◌or◌}

-- `created_at` is left out.
pub record RemoteAccessConsoleAccount : Type 0 where
  pub username : String
  pub console_user_id : Option ℕ
  pub display_name : Option String
  pub email : Option String
  pub is_admin : Bool
  pub infrascope_user_id : Option ℕ
  pub active : Bool
  pub book_shared : Bool
  pub last_synced_at : Option ℕ
  pub updated_at : Option ℕ

-- One user that the console lists: `username` is the text of `user.get("username") or ""`, `id` what
-- `int` makes of `user.get("id") or 0`, and `status` of `user.get("status")`, none if it is missing.
pub record ConsoleUser : Type 0 where
  pub id : ℕ
  pub username : String
  pub is_admin : Bool
  pub email : Option String
  pub nickname : Option String
  pub status : Option ℕ

abbrev pub Accounts : Type 0
Accounts = List RemoteAccessConsoleAccount

abbrev pub is_called : String → RemoteAccessConsoleAccount → Bool
is_called username row = row.username == username

abbrev pub new_account : String → RemoteAccessConsoleAccount
new_account username = record {
  username = username;
  console_user_id = none;
  display_name = none;
  email = none;
  is_admin = false;
  infrascope_user_id = none;
  active = true;
  book_shared = false;
  last_synced_at = none;
  updated_at = none;
}

-- The row of the name is changed, or a new one is put behind the others.
unfoldable pub upsert :
    String → (RemoteAccessConsoleAccount → RemoteAccessConsoleAccount) → Accounts → Accounts
upsert username change [] = change (new_account username) ∷ []
upsert username change (row ∷ rows) =
    if is_called username row then change row ∷ rows else row ∷ upsert username change rows

abbrev pub number_or_none : ℕ → Option ℕ
number_or_none n = if n == 0 then none else some n

-- STATUS_ENABLED is 1.
abbrev pub is_enabled : Option ℕ → Bool
is_enabled none = true
is_enabled (some status) = if status == 0 then true else status == 1

unfoldable pub synced_account :
    ℕ → ConsoleUser → RemoteAccessConsoleAccount → RemoteAccessConsoleAccount
synced_account now user row = record row {
  console_user_id = number_or_none user.id;
  is_admin = user.is_admin;
  email = user.email or row.email;
  display_name = user.nickname or row.display_name;
  active = is_enabled user.status;
  last_synced_at = some now;
  updated_at = some now;
}

unfoldable pub sync_account : Str → ℕ → ConsoleUser → Accounts → Accounts
unfolding upsert synced_account
sync_account py now user rows =
    if is_text (py.strip user.username)
    then upsert (py.strip user.username) (synced_account now user) rows
    else rows

-- The rows after all users in turn.
unfoldable pub sync_users : Str → ℕ → List ConsoleUser → Accounts → Accounts
unfolding sync_account
sync_users py now [] rows = rows
sync_users py now (user ∷ users) rows = sync_users py now users (sync_account py now user rows)

-- The count is that of the users with a name.
unfoldable pub sync_accounts : Str → ℕ → List ConsoleUser → Accounts → Accounts × ℕ
unfolding sync_users
sync_accounts py now users rows =
    (sync_users py now users rows, length (keep (λ user. is_text (py.strip user.username)) users))

-- The fields of a request for a login; a blank text is none.
pub record AccountRequest : Type 0 where
  pub username : String
  pub display_name : Option String
  pub email : Option String
  pub is_admin : Bool
  pub infrascope_user_id : Option ℕ

abbrev pub stripped : Str → Option String → Option String
stripped py none = none
stripped py (some text) = if is_text (py.strip text) then some (py.strip text) else none

unfoldable pub provisioned :
    Str → ℕ → AccountRequest → ConsoleUser → RemoteAccessConsoleAccount → RemoteAccessConsoleAccount
provisioned py now request user row = record row {
  console_user_id = some user.id;
  display_name = stripped py request.display_name;
  email = stripped py request.email;
  is_admin = request.is_admin;
  infrascope_user_id = request.infrascope_user_id;
  active = true;
  book_shared = true;
  last_synced_at = some now;
  updated_at = some now;
}

-- `existing_console.get(username.casefold())`
unfoldable pub by_login : Str → (String → String) → List ConsoleUser → String → Option ConsoleUser
by_login py casefold users username =
    last (λ user. casefold (py.strip user.username) == casefold username) users

-- The user that the console has, or lists after it was asked to make one, and whether it was asked.
unfoldable pub console_user :
    Str
    → (String → String)
    → List ConsoleUser
    → List ConsoleUser
    → String
    → Option ConsoleUser × Bool
unfolding by_login
console_user py casefold listed relisted username = elim (by_login py casefold listed username) [
  | some user ↦ (some user, false)
  | none ↦ (by_login py casefold relisted username, true)
]

-- The name in the rows is the console's spelling.
abbrev pub login_of : Str → ConsoleUser → String → String
login_of py user username = py.strip (if is_text user.username then user.username else username)

abbrev pub provision_with :
    Str → ℕ → AccountRequest → Option ConsoleUser → Accounts → Option Accounts
provision_with py now request none rows = none
provision_with py now request (some user) rows =
    some
      (upsert (login_of py user (py.strip request.username)) (provisioned py now request user) rows)

-- `none` is the RuntimeError of a user that was made but is not listed.
unfoldable pub provision_account :
    Str
    → (String → String)
    → ℕ
    → List ConsoleUser
    → List ConsoleUser
    → AccountRequest
    → Accounts
    → Option Accounts
unfolding console_user upsert provisioned
provision_account py casefold now listed relisted request rows =
    provision_with py now request
      (console_user py casefold listed relisted (py.strip request.username)).0 rows

-- `none` is the RuntimeError of a row without a number at the console.
unfoldable pub set_account_active :
    ℕ → Bool → RemoteAccessConsoleAccount → Option RemoteAccessConsoleAccount
set_account_active now active account =
    if is_number account.console_user_id
    then some (record account { active = active; updated_at = some now })
    else none
