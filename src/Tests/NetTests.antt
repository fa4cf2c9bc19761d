-- ===== src/Tests/NetTests.antt =====
-- Runs of the probes of app/domains/inventory/reachability.py.
use infra_scope.Common.{ℕ, some, [], ◌∷◌, map, if◌then◌else◌, ◌==◌, nat_eq, ◌≡◌}
use infra_scope.Net.Reachability.{
  Attempt, connected, os_error, connection_refused, timeout_error, probe_host_ports,
  probe_host_ports_async,
}
use infra_scope.Net.Agreement.{probe_host_ports-agree}

-- Only port 445 accepts.
abbrev port_answer : ℕ → Attempt
port_answer port =
    if port == 445
    then connected
    else if port == 3389
    then os_error connection_refused
    else os_error timeout_error

probe_host_ports-agree_example :
    probe_host_ports_async
      (λ k. map (λ p. (p, port_answer p)) (135 ∷ 3389 ∷ 445 ∷ []))
      (some "10.0.0.7")
      (135 ∷ 3389 ∷ 445 ∷ [])
      2
    ≡ some (probe_host_ports (λ p k. port_answer p) (some "10.0.0.7") (135 ∷ 3389 ∷ 445 ∷ []) 3)
probe_host_ports-agree_example =
    probe_host_ports-agree port_answer (some "10.0.0.7") 135 (3389 ∷ 445 ∷ []) 3 2
