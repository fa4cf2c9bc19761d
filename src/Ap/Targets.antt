-- ===== src/Ap/Targets.antt =====
-- What the handling of chosen targets does to the hardware: app/domains/inventory/ap_auto_reboot.py.
use infra_scope.Common.{
  ℕ, zero, suc, ◌+◌, ◌≤◌, ◌≡◌, refl, ap as cong, ◌∙◌, Bool, true, false, not, ◌&&◌, ◌||◌, List, [],
  ◌∷◌, ◌++◌, String, if◌then◌else◌, nat_eq, string_eq, length, take, length-take, arith, Bool-cases,
  inl, inr,
}
use infra_scope.Ap.Registry.{MergedAccessPoint}
use infra_scope.Ap.Outcomes.{Outcome}
use infra_scope.Ap.Reboot.{
  Settings, Env, State, Action, ApResult, register_outcome_and_maybe_escalate,
  register_switch_outcome_and_maybe_escalate, handle_one_ap,
}
use infra_scope.Ap.Cycle.{targets_of, choose_targets, handle_targets}

abbrev pub is_reboot : Action → Bool
is_reboot (Action.rebooted ok back) = true
is_reboot _ = false

-- The ports that the results say were power-cycled, the latest first, before those in `done`.
unfoldable pub cycled_ports : List ApResult → List String → List String
cycled_ports [] done = done
cycled_ports (r ∷ rs) done = cycled_ports rs (if is_reboot r.action then r.port ∷ done else done)

outcome-power_cycled :
    (settings : Settings) (now : ℕ) (mac : String) (o : Outcome) (s : State)
    → (register_outcome_and_maybe_escalate settings now mac o s).power_cycled ≡ s.power_cycled
unfolding register_outcome_and_maybe_escalate
outcome-power_cycled settings now mac o s = ground arith

pub switch-power_cycled :
    (settings : Settings) (now : ℕ) (reachable known : Bool) (s : State)
    → ((register_switch_outcome_and_maybe_escalate settings now reachable known s).power_cycled
        ≡ s.power_cycled)
      × ((register_switch_outcome_and_maybe_escalate settings now reachable known s).registry
          ≡ s.registry)
unfolding register_switch_outcome_and_maybe_escalate
switch-power_cycled settings now reachable known s = ground arith

-- The port of an access point is power-cycled exactly if the result says so, never in a dry run,
-- and never while it is silent and draws no power.
pub handle_one_ap_lem :
    (settings : Settings) (env : Env) (is_dry_run : Bool) (i : ℕ) (ap : MergedAccessPoint)
    (s : State)
    → let r = handle_one_ap settings env is_dry_run i ap s in
      (r.0.power_cycled
        ≡ (if is_reboot r.1.action then ap.port ∷ s.power_cycled else s.power_cycled))
      × (is_reboot r.1.action ≡ (not is_dry_run && (ap.is_responding || env.has_power i)))
      × (r.1.port ≡ ap.port)
      × (r.1.hung ≡ not ap.is_responding)
unfolding handle_one_ap register_outcome_and_maybe_escalate
handle_one_ap_lem settings env is_dry_run i ap s =
    (ground arith, ground arith, ground arith, ground arith)

-- The results of a run over the targets.
module _ (settings : Settings) (env : Env) (is_dry_run stop : Bool) where
  abbrev pub run : ℕ → List MergedAccessPoint → State → State × List ApResult × Bool
  run = handle_targets settings env is_dry_run stop

  pub handle_targets-power_cycled :
      (i : ℕ) (aps : List MergedAccessPoint) (s : State)
      → (run i aps s).0.power_cycled ≡ cycled_ports (run i aps s).1 s.power_cycled
  unfolding handle_targets cycled_ports
  handle_targets-power_cycled i [] s = refl
  handle_targets-power_cycled i (ap ∷ aps) s =
      let one = handle_one_ap_lem settings env is_dry_run i ap s in
      let rest =
        handle_targets-power_cycled (i + 1) aps (handle_one_ap settings env is_dry_run i ap s).0 in
      elim (Bool-cases (stop && not (env.enabled i))) [
        | inl stopped ↦ rw stopped refl
        | inr going ↦
            let r = handle_one_ap settings env is_dry_run i ap s in
            let here : r.0.power_cycled
                ≡ (if is_reboot r.1.action then r.1.port ∷ s.power_cycled else s.power_cycled) =
              ground (arith, one) in
            rw going (rest ∙ cong (cycled_ports (run (i + 1) aps r.0).1) here)
      ]

  -- The results are those of a beginning of the targets, in order: each one's port and state, a
  -- power cycle exactly outside a dry run and where the target responds or draws power, and the
  -- toggle still on where the cycle minds it.
  abbrev pub Follows : ℕ → List MergedAccessPoint → List ApResult → Type 0
  Follows i aps [] = Unit
  Follows i [] (r ∷ rs) = ⊥
  Follows i (ap ∷ aps) (r ∷ rs) =
      (r.port ≡ ap.port)
      × (r.hung ≡ not ap.is_responding)
      × (is_reboot r.action ≡ (not is_dry_run && (ap.is_responding || env.has_power i)))
      × ((stop && not (env.enabled i)) ≡ false)
      × Follows (i + 1) aps rs

  pub handle_targets-Follows :
      (i : ℕ) (aps : List MergedAccessPoint) (s : State) → Follows i aps (run i aps s).1
  unfolding handle_targets
  handle_targets-Follows i [] s = tt
  handle_targets-Follows i (ap ∷ aps) s =
      let one = handle_one_ap_lem settings env is_dry_run i ap s in
      elim (Bool-cases (stop && not (env.enabled i))) [
        | inl stopped ↦ rw stopped tt
        | inr going ↦ rw going (
          one.2,
          one.3,
          one.1,
          going,
          handle_targets-Follows (i + 1) aps (handle_one_ap settings env is_dry_run i ap s).0,
        )
      ]

-- The targets: none is excluded, and no silent one stands behind one that responds.
abbrev pub AreChosen : Bool → List MergedAccessPoint → Type 0
AreChosen silent [] = Unit
AreChosen silent (ap ∷ aps) =
    (ap.exclude_from_auto_reboot ≡ false)
    × ((silent || ap.is_responding) ≡ true)
    × AreChosen (silent && not ap.is_responding) aps

targets_of-responding :
    (silent : Bool) (aps : List MergedAccessPoint) → AreChosen silent (targets_of true aps)
unfolding targets_of
targets_of-responding silent [] = tt
targets_of-responding silent (ap ∷ aps) =
    elim (Bool-cases (not ap.exclude_from_auto_reboot && ap.is_responding)) [
      | inl chosen ↦
          rw chosen
            (ground arith, ground arith, targets_of-responding (silent && not ap.is_responding) aps)
      | inr other ↦ rw other (targets_of-responding silent aps)
    ]

targets_of-silent :
    (aps rest : List MergedAccessPoint)
    → AreChosen true rest
    → AreChosen true (targets_of false aps ++ rest)
unfolding targets_of
targets_of-silent [] rest h = h
targets_of-silent (ap ∷ aps) rest h =
    elim (Bool-cases (not ap.exclude_from_auto_reboot && not ap.is_responding)) [
      | inl chosen ↦
          let silent : ap.is_responding ≡ false = ground arith in
          rw chosen (ground arith, refl, rw silent (targets_of-silent aps rest h))
      | inr other ↦ rw other (targets_of-silent aps rest h)
    ]

take-AreChosen :
    (n : ℕ) (silent : Bool) (aps : List MergedAccessPoint)
    → AreChosen silent aps
    → AreChosen silent (take n aps)
take-AreChosen zero silent aps h = tt
take-AreChosen (suc n) silent [] h = tt
take-AreChosen (suc n) silent (ap ∷ aps) (kept, order, rest) =
    (kept, order, take-AreChosen n (silent && not ap.is_responding) aps rest)

pub choose_targets-AreChosen :
    (n : ℕ) (merged : List MergedAccessPoint) → AreChosen true (choose_targets n merged)
unfolding choose_targets
choose_targets-AreChosen n merged =
    take-AreChosen n true (targets_of false merged ++ targets_of true merged)
      (targets_of-silent merged (targets_of true merged) (targets_of-responding true merged))

pub length-choose_targets :
    (n : ℕ) (merged : List MergedAccessPoint) → length (choose_targets n merged) ≤ n
unfolding choose_targets
length-choose_targets n merged =
    omega (arith, length-take {0} n (targets_of false merged ++ targets_of true merged))
