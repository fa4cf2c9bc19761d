-- ===== src/Remote/Logins.antt =====
-- What a sync of the accounts of app/domains/remote_access/service/accounts.py does to the rows.
use infra_scope.Common.{
  ℕ, ◌≡◌, refl, ap, ◌∙◌, Bool, true, false, ◌||◌, Option, none, some, List, [], ◌∷◌, String,
  if◌then◌else◌, ◌==◌, string_eq, arith, first, All, Bool-cases, inl, inr,
}
use infra_scope.Remote.Device.{Str, is_text}
use infra_scope.Remote.Accounts.{
  RemoteAccessConsoleAccount, ConsoleUser, Accounts, is_called, new_account, upsert, is_enabled,
  synced_account, sync_account, sync_users, sync_accounts, number_or_none,
}

abbrev pub account_of : String → Accounts → Option RemoteAccessConsoleAccount
account_of username rows = first (is_called username) rows

-- The name is that of a user in the list.
abbrev pub is_listed : Str → String → List ConsoleUser → Bool
is_listed py username [] = false
is_listed py username (user ∷ users) =
    (py.strip user.username == username) || is_listed py username users

-- No user of the list has the name again.
abbrev pub AreOnce : Str → List ConsoleUser → Type 0
AreOnce py [] = Unit
AreOnce py (user ∷ users) = (is_listed py (py.strip user.username) users ≡ false) × AreOnce py users

account_of-upsert_ne :
    (username other : String) (f : RemoteAccessConsoleAccount → RemoteAccessConsoleAccount)
    (rows : Accounts)
    → ((row : RemoteAccessConsoleAccount) → (f row).username ≡ row.username)
    → (username == other) ≡ false
    → account_of other (upsert username f rows) ≡ account_of other rows
unfolding upsert
account_of-upsert_ne username other f [] same ne = ground (arith, same (new_account username))
account_of-upsert_ne username other f (row ∷ rows) same ne = ground (
  arith,
  same row,
  account_of-upsert_ne username other f rows same ne,
  string_eq.beq_iff row.username username,
  string_eq.beq_iff row.username other,
  string_eq.beq_iff username other,
)

-- The row that a change of the name meets.
abbrev pub row_or_new : String → Option RemoteAccessConsoleAccount → RemoteAccessConsoleAccount
row_or_new username none = new_account username
row_or_new username (some row) = row

account_of-upsert_self :
    (username : String) (f : RemoteAccessConsoleAccount → RemoteAccessConsoleAccount)
    (rows : Accounts)
    → ((row : RemoteAccessConsoleAccount) → (f row).username ≡ row.username)
    → account_of username (upsert username f rows)
      ≡ some (f (row_or_new username (account_of username rows)))
unfolding upsert
account_of-upsert_self username f [] same = ground (
  arith,
  same (new_account username),
  string_eq.beq_iff (f (new_account username)).username username,
)
account_of-upsert_self username f (row ∷ rows) same = elim (Bool-cases (row.username == username)) [
  | inl here ↦ ground (
    arith,
    same row,
    string_eq.beq_iff row.username username,
    string_eq.beq_iff (f row).username username,
  )
  | inr other ↦ ground (arith, account_of-upsert_self username f rows same)
]

username-synced_account :
    (now : ℕ) (user : ConsoleUser) (row : RemoteAccessConsoleAccount)
    → (synced_account now user row).username ≡ row.username
unfolding synced_account
username-synced_account now user row = refl

-- The row says of the user what the console says.
abbrev pub IsTold : Str → Accounts → ConsoleUser → Type 0
IsTold py rows user =
    is_text (py.strip user.username) ≡ true
    → (row : RemoteAccessConsoleAccount) × (account_of (py.strip user.username) rows ≡ some row)
      × (row.active ≡ is_enabled user.status)
      × (row.is_admin ≡ user.is_admin)
      × (row.console_user_id ≡ number_or_none user.id)

sync_account_ne :
    (py : Str) (now : ℕ) (user : ConsoleUser) (rows : Accounts) (name : String)
    → (py.strip user.username == name) ≡ false
    → account_of name (sync_account py now user rows) ≡ account_of name rows
unfolding sync_account
sync_account_ne py now user rows name ne = elim (Bool-cases (is_text (py.strip user.username))) [
  | inl named ↦
      ap
        (λ b.
          account_of name
            (if b then upsert (py.strip user.username) (synced_account now user) rows else rows))
        named
      ∙ account_of-upsert_ne (py.strip user.username) name (synced_account now user) rows
          (username-synced_account now user) ne
  | inr blank ↦
      ap
        (λ b.
          account_of name
            (if b then upsert (py.strip user.username) (synced_account now user) rows else rows))
        blank
]

-- An account that the console does not list is as it was.
unlisted_lem :
    (py : Str) (now : ℕ) (users : List ConsoleUser) (rows : Accounts) (name : String)
    → is_listed py name users ≡ false
    → account_of name (sync_users py now users rows) ≡ account_of name rows
unfolding sync_users
unlisted_lem py now [] rows name h = refl
unlisted_lem py now (user ∷ users) rows name h =
    unlisted_lem py now users (sync_account py now user rows) name (ground arith)
    ∙ sync_account_ne py now user rows name (ground arith)

sync_account_self :
    (py : Str) (now : ℕ) (user : ConsoleUser) (rows : Accounts)
    → is_text (py.strip user.username) ≡ true
    → account_of (py.strip user.username) (sync_account py now user rows)
      ≡ some (
          synced_account now user
            (row_or_new (py.strip user.username) (account_of (py.strip user.username) rows)))
unfolding sync_account
sync_account_self py now user rows named =
    ap
      (λ b.
        account_of (py.strip user.username)
          (if b then upsert (py.strip user.username) (synced_account now user) rows else rows))
      named
    ∙ account_of-upsert_self (py.strip user.username) (synced_account now user) rows
        (username-synced_account now user)

sync_users-IsTold :
    (py : Str) (now : ℕ) (users : List ConsoleUser) (rows : Accounts)
    → AreOnce py users
    → All (IsTold py (sync_users py now users rows)) users
unfolding sync_users synced_account
sync_users-IsTold py now [] rows once = tt
sync_users-IsTold py now (user ∷ users) rows (once, others) = (
  λ named. (
    synced_account now user
        (row_or_new (py.strip user.username) (account_of (py.strip user.username) rows)),
    unlisted_lem py now users (sync_account py now user rows) (py.strip user.username) once
        ∙ sync_account_self py now user rows named,
    refl,
    refl,
    refl,
  ),
  sync_users-IsTold py now users (sync_account py now user rows) others,
)

-- After a sync with a console that lists no login twice, every login with a name has a row with the
-- console's number and flags, active exactly if the console has it enabled; and a row whose name the
-- console does not list is as it was, active if it was active.
pub sync_accounts_lem :
    (py : Str) (now : ℕ) (users : List ConsoleUser) (rows : Accounts)
    → AreOnce py users
    → All (IsTold py (sync_accounts py now users rows).0) users
      × ((name : String)
          → is_listed py name users ≡ false
          → account_of name (sync_accounts py now users rows).0 ≡ account_of name rows)
unfolding sync_accounts
sync_accounts_lem py now users rows once =
    (sync_users-IsTold py now users rows once, unlisted_lem py now users rows)
