-- ===== src/Net/Agreement.antt =====
-- The two probes of app/domains/inventory/reachability.py side by side.
use infra_scope.Common.{
  ℕ, zero, suc, ◌+◌, false, Option, none, some, List, [], ◌∷◌, max, map, ==_refl, nat_eq, String,
  ◌-◌, ◌≡◌, refl, sym, ◌∙◌, ap, arith,
}
use infra_scope.Net.Reachability.{
  result_of, result_or_raise, Reason, Attempt, Progress, accepted, unroutable, going, port_probe,
  tried, and_then, probe_port, probe_ports, probe_host_ports, collect, has_no_route, reason_at,
  last_port, judge, attempt_all, go_on, attempt_rounds, probe_host_ports_async, port_closed,
  no_response, probe_error, connected, os_error, other_exception, timeout_error, connection_refused,
  no_route_errno, other_errno,
}

and_then_ext :
    {f g : Reason → Progress} (t : Progress)
    → ((r : Reason) → f r ≡ g r)
    → and_then t f ≡ and_then t g
and_then_ext accepted h = refl
and_then_ext unroutable h = refl
and_then_ext (going r) h = h r

module _ (answer : ℕ → Attempt) where
  -- The first port, in their order, that accepts or has no route decides; else the last one does.
  unfoldable first_decision : List ℕ → Reason → Progress
  first_decision [] last_reason = going last_reason
  first_decision (port ∷ ports) last_reason =
      and_then (tried (port_probe (answer port))) (first_decision ports)

  probe_port-steady :
      (port k n : ℕ) (r : Reason)
      → tried (port_probe (answer port)) ≡ going r
      → probe_port (λ p i. answer p) port k n r ≡ going r
  unfolding probe_port
  probe_port-steady port k zero r e = refl
  probe_port-steady port k (suc n) r e = rw e (probe_port-steady port (k + 1) n r e)

  probe_port-cases :
      (port n : ℕ) (t : Progress)
      → tried (port_probe (answer port)) ≡ t
      → and_then t (probe_port (λ p i. answer p) port (0 + 1) n) ≡ t
  probe_port-cases port n accepted e = refl
  probe_port-cases port n unroutable e = refl
  probe_port-cases port n (going r) e = probe_port-steady port (0 + 1) n r e

  probe_port-tried :
      (port n : ℕ) (r : Reason)
      → probe_port (λ p i. answer p) port 0 (suc n) r ≡ tried (port_probe (answer port))
  unfolding probe_port
  probe_port-tried port n r = probe_port-cases port n (tried (port_probe (answer port))) refl

  probe_ports-first_decision :
      (ports : List ℕ) (n : ℕ) (r : Reason)
      → probe_ports (λ p i. answer p) (suc n) ports r ≡ first_decision ports r
  unfolding probe_ports first_decision
  probe_ports-first_decision [] n r = refl
  probe_ports-first_decision (port ∷ ports) n r =
      ap (λ t. and_then t (probe_ports (λ p i. answer p) (suc n) ports)) (probe_port-tried port n r)
      ∙ and_then_ext (tried (port_probe (answer port))) (probe_ports-first_decision ports n)

  -- The tasks end in the order of the ports.
  abbrev in_order : List ℕ → List (ℕ × Attempt)
  in_order ports = map (λ port. (port, answer port)) ports

  -- The rounds after the first attempt `a` on `port`.
  collect-last :
      (port : ℕ) (a : Attempt) (reasons : List (ℕ × Reason))
      → has_no_route reasons ≡ false
      → judge (some port) (collect ((port, a) ∷ []) reasons)
        ≡ some (and_then (tried (port_probe a)) (λ r. going r))
  unfolding collect has_no_route reason_at
  collect-last port connected reasons f = refl
  collect-last port other_exception reasons f = rw (f, ==_refl port) refl
  collect-last port (os_error timeout_error) reasons f = rw (f, ==_refl port) refl
  collect-last port (os_error connection_refused) reasons f = rw (f, ==_refl port) refl
  collect-last port (os_error no_route_errno) reasons f = refl
  collect-last port (os_error other_errno) reasons f = rw (f, ==_refl port) refl

  collect-more :
      (port : ℕ) (a : Attempt) (done : List (ℕ × Attempt)) (reasons : List (ℕ × Reason))
      (last : Option ℕ) (p : Reason → Progress)
      → has_no_route reasons ≡ false
      → ((rs : List (ℕ × Reason)) (r : Reason)
          → has_no_route rs ≡ false
          → judge last (collect done rs) ≡ some (p r))
      → judge last (collect ((port, a) ∷ done) reasons) ≡ some (and_then (tried (port_probe a)) p)
  unfolding collect has_no_route
  collect-more port connected done reasons last p f h = refl
  collect-more port other_exception done reasons last p f h =
      h ((port, probe_error) ∷ reasons) probe_error f
  collect-more port (os_error timeout_error) done reasons last p f h =
      h ((port, no_response) ∷ reasons) no_response f
  collect-more port (os_error connection_refused) done reasons last p f h =
      h ((port, port_closed) ∷ reasons) port_closed f
  collect-more port (os_error no_route_errno) done reasons last p f h = refl
  collect-more port (os_error other_errno) done reasons last p f h =
      h ((port, no_response) ∷ reasons) no_response f

  collect-first_decision :
      (port : ℕ) (ports : List ℕ) (reasons : List (ℕ × Reason)) (r : Reason)
      → has_no_route reasons ≡ false
      → judge (last_port (port ∷ ports)) (collect (in_order (port ∷ ports)) reasons)
        ≡ some (first_decision (port ∷ ports) r)
  unfolding last_port first_decision
  collect-first_decision port [] reasons r f = collect-last port (answer port) reasons f
  collect-first_decision port (p ∷ ports) reasons r f =
      collect-more port (answer port) (in_order (p ∷ ports)) reasons (last_port (p ∷ ports))
        (first_decision (p ∷ ports)) f (collect-first_decision p ports)

  rounds-going :
      (port : ℕ) (ports : List ℕ) (k n : ℕ) (r r' : Reason)
      → first_decision (port ∷ ports) r' ≡ going r
      → attempt_rounds (λ i. in_order (port ∷ ports)) (port ∷ ports) k n r ≡ some (going r)
  unfolding attempt_rounds attempt_all first_decision has_no_route
  rounds-going port ports k zero r r' e = refl
  rounds-going port ports k (suc n) r r' e =
      ap (λ o. go_on o (attempt_rounds (λ i. in_order (port ∷ ports)) (port ∷ ports) (k + 1) n))
        (collect-first_decision port ports [] r' refl ∙ ap some e)
      ∙ rounds-going port ports (k + 1) n r r' e

  rounds-cases :
      (port : ℕ) (ports : List ℕ) (n : ℕ) (r : Reason) (t : Progress)
      → first_decision (port ∷ ports) r ≡ t
      → go_on (some t) (attempt_rounds (λ i. in_order (port ∷ ports)) (port ∷ ports) (0 + 1) n)
        ≡ some t
  rounds-cases port ports n r accepted e = refl
  rounds-cases port ports n r unroutable e = refl
  rounds-cases port ports n r (going r') e = rounds-going port ports (0 + 1) n r' r e

  rounds-first_decision :
      (port : ℕ) (ports : List ℕ) (n : ℕ) (r : Reason)
      → attempt_rounds (λ i. in_order (port ∷ ports)) (port ∷ ports) 0 (suc n) r
        ≡ some (first_decision (port ∷ ports) r)
  unfolding attempt_rounds attempt_all has_no_route
  rounds-first_decision port ports n r =
      ap (λ o. go_on o (attempt_rounds (λ i. in_order (port ∷ ports)) (port ∷ ports) (0 + 1) n))
        (collect-first_decision port ports [] r refl)
      ∙ rounds-cases port ports n r (first_decision (port ∷ ports) r) refl

  -- For a host whose ports answer every attempt alike, the concurrent probe whose connections end
  -- in the order of the ports gives the verdict, the reason and the address of the probe that
  -- walks the ports one by one, whatever the two numbers of attempts are, as long as there is a
  -- port.
  pub probe_host_ports-agree :
      (resolved : Option String) (port : ℕ) (ports : List ℕ) (max_attempts max_attempts_async : ℕ)
      → probe_host_ports_async
          (λ k. map (λ p. (p, answer p)) (port ∷ ports))
          resolved
          (port ∷ ports)
          max_attempts_async
        ≡ some (probe_host_ports (λ p k. answer p) resolved (port ∷ ports) max_attempts)
  unfolding probe_host_ports probe_host_ports_async
  probe_host_ports-agree none port ports m m' = refl
  probe_host_ports-agree (some address) port ports m m' =
      let n = max 1 m - 1 in
      let n' = max 1 m' - 1 in
      let e : max 1 m ≡ suc n = omega arith in
      let e' : max 1 m' ≡ suc n' = omega arith in
      ap (result_or_raise address) (
        ap (λ i. attempt_rounds (λ k. in_order (port ∷ ports)) (port ∷ ports) 0 i no_response) e'
        ∙ rounds-first_decision port ports n' no_response)
      ∙ ap (λ t. some (result_of address t))
          (sym (
            ap (λ i. probe_ports (λ p k. answer p) i (port ∷ ports) no_response) e
            ∙ probe_ports-first_decision (port ∷ ports) n no_response))
