-- ===== src/Net/Reachability.antt =====
-- app/domains/inventory/reachability.py: the two TCP probes. What a connection attempt answers is
-- an argument; its timeout, the pauses between attempts and the metrics are left out.
use infra_scope.Common.{
  ℕ, zero, suc, ◌+◌, Bool, true, false, ◌||◌, Option, none, some, List, [], ◌∷◌, max, if◌then◌else◌,
  ◌==◌, nat_eq, String,
}

-- The texts of the REASON_ constants.
pub data Reason : Type 0 where
  dns_unresolved port_closed no_route no_response probe_error : Reason

pub record ReachabilityResult : Type 0 where
  pub is_online : Bool
  pub reason : Option Reason
  pub resolved_address : Option String

abbrev path_failure_reason : Option Reason → Bool
path_failure_reason none = false
path_failure_reason (some dns_unresolved) = true
path_failure_reason (some port_closed) = false
path_failure_reason (some no_route) = true
path_failure_reason (some no_response) = false
path_failure_reason (some probe_error) = false

abbrev pub is_path_failure : ReachabilityResult → Bool
is_path_failure r = path_failure_reason r.reason

-- What an `OSError` of a connection attempt is.
pub data OsError : Type 0 where
  timeout_error connection_refused : OsError
  -- the host or the network is unreachable or down
  no_route_errno other_errno : OsError

abbrev pub classify_os_error : OsError → Reason
classify_os_error timeout_error = no_response
classify_os_error connection_refused = port_closed
classify_os_error no_route_errno = no_route
classify_os_error other_errno = no_response

-- How one attempt on one port ends.
pub data Attempt : Type 0 where
  connected : Attempt
  os_error : OsError → Attempt
  other_exception : Attempt

-- `none` for a port that accepts, else why it did not. The caller of `_socket_port_probe` and
-- `_async_port_probe` itself make the same of an exception that is no `OSError`.
abbrev pub port_probe : Attempt → Option Reason
port_probe connected = none
port_probe (os_error e) = some (classify_os_error e)
port_probe other_exception = some probe_error

abbrev online : String → ReachabilityResult
online address = record { is_online = true; reason = none; resolved_address = some address }

abbrev offline : Reason → Option String → ReachabilityResult
offline reason address = record {
  is_online = false;
  reason = some reason;
  resolved_address = address;
}

-- A loop that has returned, or that goes on with its `last_reason`.
pub data Progress : Type 0 where
  accepted unroutable : Progress
  going : Reason → Progress

-- One attempt: what the loop does with the answer.
abbrev pub tried : Option Reason → Progress
tried none = accepted
tried (some no_route) = unroutable
tried (some dns_unresolved) = going dns_unresolved
tried (some port_closed) = going port_closed
tried (some no_response) = going no_response
tried (some probe_error) = going probe_error

abbrev pub and_then : Progress → (Reason → Progress) → Progress
and_then accepted next = accepted
and_then unroutable next = unroutable
and_then (going reason) next = next reason

-- The result, given the address: `none` is the "dns_unresolved" of a name without one.
abbrev pub result_of : String → Progress → ReachabilityResult
result_of address accepted = online address
result_of address unroutable = offline no_route (some address)
result_of address (going reason) = offline reason (some address)

abbrev attempts_of : ℕ → ℕ
attempts_of max_attempts = max 1 max_attempts

-- The attempts on one port, numbered from `k` on.
unfoldable pub probe_port : (ℕ → ℕ → Attempt) → ℕ → ℕ → ℕ → Reason → Progress
probe_port connect port k zero last_reason = going last_reason
probe_port connect port k (suc n) last_reason =
    and_then (tried (port_probe (connect port k))) (probe_port connect port (k + 1) n)

unfoldable pub probe_ports : (ℕ → ℕ → Attempt) → ℕ → List ℕ → Reason → Progress
unfolding probe_port
probe_ports connect attempts [] last_reason = going last_reason
probe_ports connect attempts (port ∷ ports) last_reason =
    and_then (probe_port connect port 0 attempts last_reason) (probe_ports connect attempts ports)

-- `connect port k` is the k-th attempt on a port, `resolved` what `resolve_hostname` returns.
unfoldable pub probe_host_ports :
    (ℕ → ℕ → Attempt) → Option String → List ℕ → ℕ → ReachabilityResult
unfolding probe_ports
probe_host_ports connect none ports max_attempts = offline dns_unresolved none
probe_host_ports connect (some address) ports max_attempts =
    result_of address (probe_ports connect (attempts_of max_attempts) ports no_response)

-- The dict of reasons, the latest first; `none` is the `None` of a port that accepts.
unfoldable pub collect : List (ℕ × Attempt) → List (ℕ × Reason) → Option (List (ℕ × Reason))
collect [] reasons = some reasons
collect ((port, attempt) ∷ done) reasons = elim (tried (port_probe attempt)) [
  | accepted ↦ none
  | unroutable ↦ some ((port, no_route) ∷ reasons)
  | going reason ↦ collect done ((port, reason) ∷ reasons)
]

-- The tasks of one attempt in the order in which they end.
abbrev pub probe_ports_concurrently : List (ℕ × Attempt) → Option (List (ℕ × Reason))
probe_ports_concurrently done = collect done []

abbrev is_no_route : Reason → Bool
is_no_route dns_unresolved = false
is_no_route port_closed = false
is_no_route no_route = true
is_no_route no_response = false
is_no_route probe_error = false

-- `REASON_NO_ROUTE in reasons.values()`
unfoldable pub has_no_route : List (ℕ × Reason) → Bool
has_no_route [] = false
has_no_route ((port, reason) ∷ reasons) = is_no_route reason || has_no_route reasons

-- `reasons[port]`, `none` for a `KeyError`.
unfoldable pub reason_at : ℕ → List (ℕ × Reason) → Option Reason
reason_at port [] = none
reason_at port ((p, reason) ∷ reasons) = if p == port then some reason else reason_at port reasons

-- `ports[-1]`, `none` for an `IndexError`.
unfoldable pub last_port : List ℕ → Option ℕ
last_port [] = none
last_port (port ∷ []) = some port
last_port (port ∷ p ∷ ports) = last_port (p ∷ ports)

abbrev reason_of : Option ℕ → List (ℕ × Reason) → Option Reason
reason_of none reasons = none
reason_of (some port) reasons = reason_at port reasons

-- What the caller makes of the outcome of a round; `none` is an exception.
abbrev pub judge : Option ℕ → Option (List (ℕ × Reason)) → Option Progress
judge port none = some accepted
judge port (some reasons) =
    if has_no_route reasons
    then some unroutable
    else elim (reason_of port reasons) [ none ↦ none | some reason ↦ some (going reason) ]

unfoldable pub attempt_all : List ℕ → List (ℕ × Attempt) → Option Progress
attempt_all ports done = judge (last_port ports) (probe_ports_concurrently done)

abbrev pub go_on : Option Progress → (Reason → Option Progress) → Option Progress
go_on none next = none
go_on (some accepted) next = some accepted
go_on (some unroutable) next = some unroutable
go_on (some (going reason)) next = next reason

-- The rounds from the k-th on.
unfoldable pub attempt_rounds : (ℕ → List (ℕ × Attempt)) → List ℕ → ℕ → ℕ → Reason → Option Progress
unfolding attempt_all
attempt_rounds ended ports k zero last_reason = some (going last_reason)
attempt_rounds ended ports k (suc n) last_reason =
    let next = attempt_rounds ended ports (k + 1) n in go_on (attempt_all ports (ended k)) next

abbrev pub result_or_raise : String → Option Progress → Option ReachabilityResult
result_or_raise address none = none
result_or_raise address (some p) = some (result_of address p)

-- `ended k` are the tasks of the k-th attempt as they end; `none` is an exception.
unfoldable pub probe_host_ports_async :
    (ℕ → List (ℕ × Attempt)) → Option String → List ℕ → ℕ → Option ReachabilityResult
unfolding attempt_rounds
probe_host_ports_async ended none ports max_attempts = some (offline dns_unresolved none)
probe_host_ports_async ended (some address) ports max_attempts =
    result_or_raise address (attempt_rounds ended ports 0 (attempts_of max_attempts) no_response)
