-- ===== src/Remote/Labels.antt =====
-- What app/domains/remote_access/service/devices.py reads off a row or a hostname: the chip of the
-- list, the role, the deploy profile, the support for AppLocker.
use Prim.Native.Char.{Char, code}
use text.Mathlib.Text.{starts_with}
use infra_scope.Common.{
  ℕ, ◌-◌, Bool, true, false, not, Option, none, some, List, [], ◌∷◌, String, ltb, if◌then◌else◌,
  ◌==◌, nat_eq, string_eq,
}
use infra_scope.Remote.Device.{
  Str, RemoteAccessDevice, DeployState, unknown, pending, installed, configured, failed, stale,
  is_text,
}

-- The first character goes in front of the first part.
abbrev pub put : Char → List String → List String
put c [] = []
put c (part ∷ parts) = if code c == 45 then "" ∷ part ∷ parts else String.◌∷◌ c part ∷ parts

-- `hostname.split("-")`
unfoldable pub split : String → List String
split String.[] = "" ∷ []
split (String.◌∷◌ c text) = put c (split text)

-- `token or None`
abbrev pub text_or_none : String → Option String
text_or_none token = if is_text token then some token else none

-- Three parts or more are wanted.
abbrev pub role : Str → List String → Option String
role py (site ∷ token ∷ number ∷ rest) = text_or_none (py.upper (py.strip token))
role py parts = none

unfoldable pub hostname_type_tag : Str → String → Option String
unfolding split
hostname_type_tag py hostname = role py (split hostname)

unfoldable pub suggested_profile : Str → String → String
unfolding hostname_type_tag
suggested_profile py hostname = elim (hostname_type_tag py hostname) [
  | none ↦ "client"
  | some tag ↦ if tag == "ITD" then "admin" else "client"
]

-- The one prefix of `_APPLOCKER_UNSUPPORTED_EDITION_PREFIXES` is "Core".
unfoldable pub classify_applocker_support : Str → Option String → Option Bool
classify_applocker_support py none = none
classify_applocker_support py (some edition_id) =
    if edition_id == ""
    then none
    else if py.strip edition_id == ""
    then none
    else some (not (starts_with (py.strip edition_id) "Core"))

-- READINESS
pub data Chip : Type 0 where
  ready installed_offline deploying waiting_host stalled stale_config failed_deploy unreachable
        not_deployed :
      Chip

-- What the console says of the client; no word of it is `Chip` of the caller.
abbrev pub seen_or : Chip → Option Bool → Chip
seen_or chip none = chip
seen_or chip (some true) = ready
seen_or chip (some false) = installed_offline

-- DEPLOY_STALLED_AFTER is 24 hours.
abbrev pub is_stalled : ℕ → Option ℕ → Bool
is_stalled now none = false
is_stalled now (some requested) = ltb 86400 (now - requested)

abbrev pub is_false : Option Bool → Bool
is_false none = false
is_false (some value) = not value

abbrev pub chip_of : ℕ → DeployState → Option Bool → Option Bool → Option ℕ → Chip
chip_of now failed online host_online requested = failed_deploy
chip_of now stale online host_online requested = stale_config
chip_of now configured online host_online requested = seen_or installed_offline online
chip_of now pending online host_online requested =
    if is_false host_online
    then waiting_host
    else if is_stalled now requested
    then stalled
    else deploying
chip_of now unknown online host_online requested =
    seen_or (if is_false host_online then unreachable else not_deployed) online
chip_of now installed online host_online requested =
    seen_or (if is_false host_online then unreachable else not_deployed) online

unfoldable pub readiness : ℕ → RemoteAccessDevice → Chip
readiness now dev = chip_of now dev.deploy_state dev.online dev.host_online dev.deploy_requested_at
