-- ===== src/Remote/Device.antt =====
-- The row of app/domains/remote_access/models.py and what
-- app/domains/remote_access/service/devices.py makes of one row. The `str` methods that follow the
-- Unicode tables are arguments, and so are the clock and the random passwords; a time is a number
-- of seconds.
use Prim.Native.Char.{Char}
use infra_scope.Common.{
  ℕ, zero, suc, Bool, true, false, not, Option, none, some, String, if◌then◌else◌, ◌==◌, nat_eq,
  string_eq,
}

pub record Str : Type 0 where
  pub lower : String → String
  pub upper : String → String
  pub strip : String → String
  pub isalnum : Char → Bool

pub data SourceKind : Type 0 where
  cash_register computer media_player : SourceKind

-- DEPLOY_STATES
pub data DeployState : Type 0 where
  unknown pending installed configured failed stale : DeployState

-- `created_at` is left out.
pub record RemoteAccessDevice : Type 0 where
  pub id : ℕ
  pub hostname : String
  pub computer_id : Option ℕ
  pub media_player_id : Option ℕ
  pub cash_register_id : Option ℕ
  pub source_kind : SourceKind
  pub location : Option String
  pub rustdesk_id : Option String
  pub permanent_password : String
  pub password_rotated_at : Option ℕ
  pub deploy_profile : String
  pub desired_hidden : Bool
  pub desired_block_outgoing : Bool
  pub desired_unattended : Bool
  pub managed : Bool
  pub in_address_book : Bool
  pub ab_row_id : Option ℕ
  pub ab_password_pushed : Bool
  pub deploy_state : DeployState
  pub deploy_detail : Option String
  pub deploy_requested_at : Option ℕ
  pub deploy_reported_at : Option ℕ
  pub installed_version : Option String
  pub os_edition : Option String
  pub os_caption : Option String
  pub applocker_supported : Option Bool
  pub online : Option Bool
  pub logged_in_user : Option String
  pub last_ip : Option String
  pub last_seen_at : Option ℕ
  pub host_online : Option Bool
  pub host_last_seen_at : Option ℕ
  pub updated_at : Option ℕ

-- A row with the columns that its creator gives, and the defaults.
abbrev pub new_device :
    ℕ → String → String → SourceKind → Option String → String → RemoteAccessDevice
new_device id hostname rustdesk_id kind location password = record {
  id = id;
  hostname = hostname;
  computer_id = none;
  media_player_id = none;
  cash_register_id = none;
  source_kind = kind;
  location = location;
  rustdesk_id = some rustdesk_id;
  permanent_password = password;
  password_rotated_at = none;
  deploy_profile = "client";
  desired_hidden = true;
  desired_block_outgoing = true;
  desired_unattended = true;
  managed = true;
  in_address_book = false;
  ab_row_id = none;
  ab_password_pushed = false;
  deploy_state = unknown;
  deploy_detail = none;
  deploy_requested_at = none;
  deploy_reported_at = none;
  installed_version = none;
  os_edition = none;
  os_caption = none;
  applocker_supported = none;
  online = none;
  logged_in_user = none;
  last_ip = none;
  last_seen_at = none;
  host_online = none;
  host_last_seen_at = none;
  updated_at = none;
}

-- `bool` of a text, of one that may be missing, and of such a number.
abbrev pub is_text : String → Bool
is_text text = not (text == "")

abbrev pub is_set : Option String → Bool
is_set none = false
is_set (some text) = is_text text

abbrev pub is_number : Option ℕ → Bool
is_number none = false
is_number (some n) = not (n == 0)

-- `x or y`
infixr 20 ◌or◌
abbrev pub ◌or◌ : Option String → Option String → Option String
x or y = if is_set x then x else y

-- `(x or None)`
abbrev pub text_or : Option String → String → String
text_or none default = default
text_or (some text) default = if is_text text then text else default

abbrev pub is_equal : Option String → String → Bool
is_equal none text = false
is_equal (some t) text = t == text

-- The first `limit` characters, with an underscore for each that is no letter and no digit.
unfoldable pub rid_text : (Char → Bool) → ℕ → String → String
rid_text isalnum zero hostname = ""
rid_text isalnum (suc limit) String.[] = ""
rid_text isalnum (suc limit) (String.◌∷◌ c hostname) =
    String.◌∷◌ (if isalnum c then c else "_") (rid_text isalnum limit hostname)

abbrev pub hostname_to_rid : Str → String → String
hostname_to_rid py hostname = rid_text py.isalnum 32 hostname

abbrev pub staled : DeployState → RemoteAccessDevice → RemoteAccessDevice
staled configured dev = record dev { deploy_state = stale; deploy_detail = none }
staled _ dev = dev

unfoldable pub mark_config_stale : RemoteAccessDevice → RemoteAccessDevice
mark_config_stale dev = staled dev.deploy_state dev

-- The three flags of DEPLOY_PROFILES; `none` is a name that is no key of it.
abbrev pub preset : String → Option Bool
preset profile =
    if profile == "client" then some true else if profile == "admin" then some false else none
