-- ===== src/Remote/AddressBook.antt =====
-- app/domains/remote_access/service/address_book.py: the shared address book of the console. Its
-- lists and what it accepts are arguments; the calls that are made of it are a result.
use infra_scope.Common.{
  ℕ, Bool, true, false, not, ◌&&◌, ◌||◌, Option, none, some, List, [], ◌∷◌, ◌++◌, map, String,
  if◌then◌else◌, ◌==◌, nat_eq, string_eq, keep, any, last, length,
}
use infra_scope.Remote.Device.{
  Str, RemoteAccessDevice, SourceKind, cash_register, computer, media_player, hostname_to_rid,
  is_set, is_text, is_number, text_or,
}
use infra_scope.Remote.Labels.{hostname_type_tag}
use infra_scope.Remote.Rows.{Table}

-- `alias`, `platform` and the two numbers of the book, which are one for all rows, are left out.
pub record Payload : Type 0 where
  pub id : String
  pub hostname : String
  pub tags : List String
  pub password : String

abbrev pub kind_text : SourceKind → String
kind_text cash_register = "cash_register"
kind_text computer = "computer"
kind_text media_player = "media_player"

abbrev pub with_location : Option String → List String
with_location none = []
with_location (some location) = if is_text location then location ∷ [] else []

abbrev pub with_role : Option String → List String → List String
with_role none tags = tags
with_role (some tag) tags = if any (λ t. t == tag) tags then tags else tags ++ (tag ∷ [])

unfoldable pub ab_payload : Str → String → RemoteAccessDevice → Payload
unfolding hostname_type_tag
ab_payload py default_password dev = record {
  id = text_or dev.rustdesk_id (hostname_to_rid py dev.hostname);
  hostname = dev.hostname;
  tags =
      with_role (hostname_type_tag py dev.hostname)
        (kind_text dev.source_kind ∷ with_location dev.location);
  password = text_or (some dev.permanent_password) default_password;
}

-- One row that the console lists: the text of its `id`, and its `row_id`.
abbrev pub Listed : Type 0
Listed = List (String × Option ℕ)

abbrev pub row_of : Listed → String → Option (String × Option ℕ)
row_of listed id = last (λ row. row.0 == id) listed

abbrev pub row_id_or : Option (String × Option ℕ) → Option ℕ → Option ℕ
row_id_or none cached = cached
row_id_or (some (id, row_id)) cached = if is_number row_id then row_id else cached

abbrev pub number_or : Option ℕ → Option ℕ → Option ℕ
number_or a b = if is_number a then a else b

-- The console as one push meets it: the list before, the list after the calls, and whether a call
-- for the device with this id goes through.
pub record Book : Type 0 where
  pub existing : Listed
  pub fresh : Listed
  pub accepts : ℕ → Bool

-- What the console is sent: an update of a row that it has, or a new row.
pub data Call : Type 0 where
  update_row : ℕ → Payload → Call
  create_row : Payload → Call

abbrev pub call_of : Option ℕ → Payload → Call
call_of none payload = create_row payload
call_of (some row_id) payload =
    if row_id == 0 then create_row payload else update_row row_id payload

unfoldable pub book_row_id : Str → Book → RemoteAccessDevice → Option ℕ
book_row_id py book dev =
    row_id_or (row_of book.existing (text_or dev.rustdesk_id (hostname_to_rid py dev.hostname)))
      dev.ab_row_id

abbrev pub is_target : RemoteAccessDevice → Bool
is_target dev = dev.managed && is_set dev.rustdesk_id

-- The first loop over the targets.
unfoldable pub pushed : Str → ℕ → Book → RemoteAccessDevice → RemoteAccessDevice
unfolding book_row_id
pushed py now book dev =
    if book.accepts dev.id
    then record dev {
      ab_row_id = number_or (book_row_id py book dev) dev.ab_row_id;
      in_address_book = true;
      ab_password_pushed = true;
      updated_at = some now;
    }
    else dev

-- The second loop, which runs when a row was created.
unfoldable pub numbered : Book → RemoteAccessDevice → RemoteAccessDevice
numbered book dev = record dev {
  ab_row_id =
      if is_number dev.ab_row_id
      then dev.ab_row_id
      else row_id_or (row_of book.fresh (text_or dev.rustdesk_id "")) dev.ab_row_id;
}

-- `created`, `updated` and `failed`.
pub record Counts : Type 0 where
  pub created : ℕ
  pub updated : ℕ
  pub failed : ℕ

unfoldable pub counts : Str → Book → List RemoteAccessDevice → Counts
unfolding book_row_id
counts py book targets = record {
  created =
      length (keep (λ d. book.accepts d.id && not (is_number (book_row_id py book d))) targets);
  updated = length (keep (λ d. book.accepts d.id && is_number (book_row_id py book d)) targets);
  failed = length (keep (λ d. not (book.accepts d.id)) targets);
}

abbrev pub pushed_row : Str → ℕ → Book → Bool → RemoteAccessDevice → RemoteAccessDevice
pushed_row py now book created dev =
    if created then numbered book (pushed py now book dev) else pushed py now book dev

-- `chosen` are the devices that the caller gives.
unfoldable pub push_shared_address_book :
    Str → ℕ → String → Book → (RemoteAccessDevice → Bool) → Table → Table × List Call × Counts
unfolding counts pushed numbered ab_payload
push_shared_address_book py now default_password book chosen rows =
    let targets = keep (λ dev. chosen dev && is_target dev) rows in
    let count = counts py book targets in
    (
      map
          (λ dev.
            if chosen dev && is_target dev
            then pushed_row py now book (not (count.created == 0)) dev
            else dev)
          rows,
      map (λ dev. call_of (book_row_id py book dev) (ab_payload py default_password dev)) targets,
      count,
    )

abbrev pub is_missing : Listed → RemoteAccessDevice → Bool
is_missing listed dev =
    is_set dev.rustdesk_id && not (any (λ row. row.0 == text_or dev.rustdesk_id "") listed)

-- The loop over the managed devices.
unfoldable pub rechecked : Listed → RemoteAccessDevice → RemoteAccessDevice
rechecked live dev =
    if dev.managed && is_missing live dev
    then record dev { ab_row_id = none; in_address_book = false; ab_password_pushed = false }
    else dev

abbrev pub is_stale_row : RemoteAccessDevice → Bool
is_stale_row dev = dev.managed && (not dev.in_address_book || not dev.ab_password_pushed)

unfoldable pub sync_stale_address_book :
    Str → ℕ → String → Listed → Book → Table → Table × List Call × Counts
unfolding push_shared_address_book rechecked
sync_stale_address_book py now default_password live book rows =
    push_shared_address_book py now default_password book is_stale_row (map (rechecked live) rows)

unfoldable pub sync_address_book : Str → ℕ → String → Book → Table → Table × List Call × Counts
unfolding push_shared_address_book
sync_address_book py now default_password book rows =
    push_shared_address_book py now default_password book (λ dev. dev.managed) rows

-- `missing` of `address_book_status`.
unfoldable pub missing : Listed → Table → ℕ
missing listed rows =
    length (keep (λ dev. dev.managed && dev.in_address_book && is_missing listed dev) rows)
