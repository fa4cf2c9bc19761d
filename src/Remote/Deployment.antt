-- ===== src/Remote/Deployment.antt =====
-- app/domains/remote_access/service/deployment.py: whether a request is the machine's own, and the
-- report of its script. The name server is an argument, and the texts that are only handed on are
-- left out.
use infra_scope.Common.{
  ℕ, Bool, true, false, Option, none, some, String, if◌then◌else◌, ◌==◌, nat_eq, string_eq,
}
use infra_scope.Remote.Device.{
  Str, RemoteAccessDevice, DeployState, unknown, pending, installed, configured, failed, stale,
  is_set, is_text, is_equal, ◌or◌, hostname_to_rid, text_or,
}
use infra_scope.Remote.Labels.{classify_applocker_support}
use infra_scope.Remote.Rows.{Table, update, find_device}

-- The keys of `package_config` that are read off the row.
pub record Package : Type 0 where
  pub hostname : String
  pub rustdesk_id : String
  pub permanent_password : String
  pub hidden : Bool
  pub block_outgoing : Bool
  pub unattended : Bool

unfoldable pub package_config : Str → String → RemoteAccessDevice → Package
package_config py default_password dev = record {
  hostname = dev.hostname;
  rustdesk_id = text_or dev.rustdesk_id (hostname_to_rid py dev.hostname);
  permanent_password = text_or (some dev.permanent_password) default_password;
  hidden = dev.desired_hidden;
  block_outgoing = dev.desired_block_outgoing;
  unattended = dev.desired_unattended;
}

-- `resolve` is `_resolve_hostname_ip`.
unfoldable pub verify_deploy_source :
    (String → Option String) → RemoteAccessDevice → Option String → Bool
verify_deploy_source resolve dev none = false
verify_deploy_source resolve dev (some client_ip) =
    if client_ip == ""
    then false
    else if is_equal dev.last_ip client_ip
    then true
    else is_equal (resolve dev.hostname) client_ip

unfoldable pub requested : ℕ → RemoteAccessDevice → RemoteAccessDevice
requested now dev = record dev {
  deploy_state = pending;
  deploy_detail = none;
  deploy_requested_at = some now;
  updated_at = some now;
}

unfoldable pub mark_deploy_requested : ℕ → ℕ → Table → Table
unfolding requested
mark_deploy_requested now id rows = update id (requested now) rows

-- A word that is not in DEPLOY_STATES is a failure.
unfoldable pub state_of : String → DeployState
state_of state =
    if state == "unknown"
    then unknown
    else if state == "pending"
    then pending
    else if state == "installed"
    then installed
    else if state == "configured"
    then configured
    else if state == "stale"
    then stale
    else failed

-- The arguments of `apply_deploy_report` besides the name; `detail` is cut at 512 characters.
pub record Report : Type 0 where
  pub state : String
  pub rustdesk_id : Option String
  pub version : Option String
  pub detail : Option String
  pub os_edition : Option String
  pub os_caption : Option String

-- `(detail or None) and detail[:512]`
abbrev pub cut_detail : (String → String) → Option String → Option String
cut_detail cut none = none
cut_detail cut (some detail) = if is_text detail then some (cut detail) else none

abbrev pub supported : Str → Option String → Option Bool → Option Bool
supported py os_edition old =
    if is_set os_edition then classify_applocker_support py os_edition else old

unfoldable pub reported :
    Str → (String → String) → ℕ → Report → RemoteAccessDevice → RemoteAccessDevice
unfolding state_of classify_applocker_support
reported py cut now report dev = record dev {
  deploy_state = state_of report.state;
  deploy_detail = cut_detail cut report.detail;
  deploy_reported_at = some now;
  rustdesk_id = report.rustdesk_id or dev.rustdesk_id;
  installed_version = report.version or dev.installed_version;
  os_edition = report.os_edition or dev.os_edition;
  applocker_supported = supported py report.os_edition dev.applocker_supported;
  os_caption = report.os_caption or dev.os_caption;
  updated_at = some now;
}

abbrev pub report_to :
    Str → (String → String) → ℕ → Report → Table → Option RemoteAccessDevice → Option Table
report_to py cut now report rows none = none
report_to py cut now report rows (some dev) = some (update dev.id (reported py cut now report) rows)

-- `none` is the unknown host.
unfoldable pub apply_deploy_report :
    Str → (String → String) → ℕ → String → Report → Table → Option Table
unfolding find_device reported
apply_deploy_report py cut now hostname report rows =
    report_to py cut now report rows (find_device py rows hostname)
