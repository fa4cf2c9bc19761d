-- ===== src/Ap/Escalation.antt =====
-- When an access point is escalated and excluded: app/domains/inventory/ap_registry.py.
use infra_scope.Common.{
  ℕ, ◌+◌, ◌<◌, ◌≡◌, refl, Bool, true, false, not, ◌&&◌, ◌||◌, none, some, List, [], ◌∷◌, String,
  ltb, leb, max, if◌then◌else◌, ◌==◌, nat_eq, string_eq, arith, Option-cases, Bool-cases, inl, inr,
  map, length,
}
use infra_scope.Ap.Registry.{
  SwitchAccessPoint, ApInfo, Registry, is_none, first_by_mac, last_by_mac, store, seen_row,
  new_ap_row, restrict, record_seen_from, record_seen_aps, truthy,
}
use infra_scope.Ap.Outcomes.{
  excluded_row, set_ap_excluded, Outcome, recovered, failed, no_power, outcome_row,
  register_reboot_outcome,
}

-- Consecutive cycles of one access point, the first one first, at the given times: its row, and
-- how often it was escalated.
unfoldable pub cycles : ℕ → List (Outcome × ℕ) → SwitchAccessPoint → SwitchAccessPoint × ℕ
cycles threshold [] row = (row, 0)
cycles threshold ((o, now) ∷ os) row =
    let (row₁, escalated) = outcome_row row o threshold now in
    let (row₂, n) = cycles threshold os row₁ in (row₂, (if escalated then 1 else 0) + n)

-- Failed reboots at the given times.
abbrev pub failures_at : List ℕ → List (Outcome × ℕ)
failures_at [] = []
failures_at (now ∷ times) = (failed, now) ∷ failures_at times

-- One failed reboot of a row that is already flagged, and of one that is not.
flagged_step :
    (row : SwitchAccessPoint) (threshold now : ℕ)
    → is_none row.needs_attention_since ≡ false
    → row.exclude_from_auto_reboot ≡ true
    → let r = outcome_row row failed threshold now in
      (r.1 ≡ false)
      × (is_none r.0.needs_attention_since ≡ false)
      × (r.0.exclude_from_auto_reboot ≡ true)
unfolding outcome_row
flagged_step row threshold now h x = ground arith

free_step :
    (row : SwitchAccessPoint) (threshold now : ℕ)
    → is_none row.needs_attention_since ≡ true
    → let r = outcome_row row failed threshold now in
      let reached = leb threshold (row.consecutive_reboot_failures + 1) in
      (r.1 ≡ reached)
      × (is_none r.0.needs_attention_since ≡ not reached)
      × (r.0.exclude_from_auto_reboot ≡ (reached || row.exclude_from_auto_reboot))
      × (r.0.consecutive_reboot_failures ≡ row.consecutive_reboot_failures + 1)
unfolding outcome_row
free_step row threshold now h = ground arith

cycles_flagged :
    (threshold : ℕ) (times : List ℕ) (row : SwitchAccessPoint)
    → is_none row.needs_attention_since ≡ false
    → row.exclude_from_auto_reboot ≡ true
    → ((cycles threshold (failures_at times) row).1 ≡ 0)
      × ((cycles threshold (failures_at times) row).0.exclude_from_auto_reboot ≡ true)
unfolding cycles
cycles_flagged threshold [] row h x = (refl, x)
cycles_flagged threshold (now ∷ times) row h x =
    let step = flagged_step row threshold now h x in
    let rest =
      cycles_flagged threshold times (outcome_row row failed threshold now).0 step.1 step.2 in
    (ground (arith, step, rest), rest.1)

cycles_free :
    (threshold : ℕ) (times : List ℕ) (row : SwitchAccessPoint)
    → is_none row.needs_attention_since ≡ true
    → row.consecutive_reboot_failures < max threshold 1
    → let r = cycles threshold (failures_at times) row in
      let reached =
        leb threshold (row.consecutive_reboot_failures + length times) && ltb 0 (length times) in
      (r.1 ≡ (if reached then 1 else 0))
      × (r.0.exclude_from_auto_reboot ≡ (reached || row.exclude_from_auto_reboot))
unfolding cycles
cycles_free threshold [] row h below = (ground arith, ground arith)
cycles_free threshold (now ∷ times) row h below =
    let step = free_step row threshold now h in
    let row₁ = (outcome_row row failed threshold now).0 in
    elim (Bool-cases (leb threshold (row.consecutive_reboot_failures + 1))) [
      | inl reached ↦
          let rest =
            cycles_flagged threshold times row₁ (ground (arith, step)) (ground (arith, step)) in
          (ground (arith, step, rest), ground (arith, step, rest))
      | inr short ↦
          let rest =
            cycles_free threshold times row₁ (ground (arith, step)) (ground (arith, step)) in
          (ground (arith, step, rest), ground (arith, step, rest))
    ]

-- A run of failed reboots of an access point with no streak and no flag escalates it exactly once
-- if the run has a failure and is at least as long as the threshold, and never if it is shorter;
-- in the first case the access point ends up excluded from the reboots, in the second its
-- exclusion is as it was.
pub cycles_lem :
    (threshold : ℕ) (times : List ℕ) (row : SwitchAccessPoint)
    → row.needs_attention_since ≡ none
    → row.consecutive_reboot_failures ≡ 0
    → let r = cycles threshold (failures_at times) row in
      let reached = leb threshold (length times) && ltb 0 (length times) in
      (r.1 ≡ (if reached then 1 else 0))
      × (r.0.exclude_from_auto_reboot ≡ (reached || row.exclude_from_auto_reboot))
cycles_lem threshold times row h z = ground (arith, cycles_free threshold times row)

-- A flagged row is excluded.
abbrev pub IsGuarded : SwitchAccessPoint → Type 0
IsGuarded row = (is_none row.needs_attention_since || row.exclude_from_auto_reboot) ≡ true

abbrev pub AreGuarded : Registry → Type 0
AreGuarded [] = Unit
AreGuarded (row ∷ rows) = IsGuarded row × AreGuarded rows

store-AreGuarded :
    (row : SwitchAccessPoint) (rows : Registry)
    → IsGuarded row
    → AreGuarded rows
    → AreGuarded (store row rows)
unfolding store
store-AreGuarded row [] g a = (g, tt)
store-AreGuarded row (old ∷ rows) g a = elim (Bool-cases (old.id == row.id)) [
  | inl here ↦ rw here (g, a.1)
  | inr other ↦ rw other (a.0, store-AreGuarded row rows g a.1)
]

first_by_mac-IsGuarded :
    (mac : String) (rows : Registry) (row : SwitchAccessPoint)
    → AreGuarded rows
    → first_by_mac mac rows ≡ some row
    → IsGuarded row
unfolding first_by_mac
first_by_mac-IsGuarded mac [] row a h = ground arith
first_by_mac-IsGuarded mac (r ∷ rows) row a h =
    ground (arith, first_by_mac-IsGuarded mac rows row a.1)

record_seen_from-AreGuarded :
    (new_id : ℕ → ℕ) (now i : ℕ) (known : List ℕ) (aps : List ApInfo) (rows : Registry)
    → AreGuarded rows
    → AreGuarded (record_seen_from new_id now i known aps rows)
unfolding record_seen_from
record_seen_from-AreGuarded new_id now i known [] rows a = a
record_seen_from-AreGuarded new_id now i known (ap ∷ aps) rows a =
    record_seen_from-AreGuarded new_id now (i + 1) known aps _
      (elim (Bool-cases (truthy ap.mac_address && truthy ap.port)) [
        | inl usable ↦ elim (Option-cases (last_by_mac ap.mac_address (restrict known rows))) [
          | inl absent ↦ rw usable (
              rw absent
                (store-AreGuarded (seen_row (new_ap_row (new_id i) ap now) ap now) rows refl a))
          | inr (row, found) ↦
              rw usable (rw found (store-AreGuarded (seen_row row ap now) rows refl a))
        ]
        | inr skip ↦ rw skip a
      ])

outcome-IsGuarded :
    (row : SwitchAccessPoint) (o : Outcome) (threshold now : ℕ)
    → IsGuarded row
    → IsGuarded (outcome_row row o threshold now).0
unfolding outcome_row
outcome-IsGuarded row recovered threshold now g = refl
outcome-IsGuarded row failed threshold now g = ground arith
outcome-IsGuarded row no_power threshold now g = ground arith

excluded-IsGuarded :
    (row : SwitchAccessPoint) (excluded : Bool) (now : ℕ)
    → IsGuarded (excluded_row row excluded now)
unfolding excluded_row
excluded-IsGuarded row true now = ground arith
excluded-IsGuarded row false now = refl

-- A live scan, an operator's choice and the outcome of a cycle each keep the rule that a registry
-- row flagged for attention is excluded from the reboots.
pub operations-AreGuarded :
    (rows : Registry) (new_id : ℕ → ℕ) (now threshold : ℕ) (aps : List ApInfo) (mac : String)
    (excluded : Bool) (o : Outcome)
    → AreGuarded rows
    → AreGuarded (record_seen_aps new_id now aps rows)
      × AreGuarded (set_ap_excluded mac excluded now rows).0
      × AreGuarded (register_reboot_outcome mac o threshold now rows).0
unfolding record_seen_aps set_ap_excluded register_reboot_outcome
operations-AreGuarded rows new_id now threshold aps mac excluded o a = (
  record_seen_from-AreGuarded new_id now 0 (map (λ row. row.id) rows) aps rows a,
  elim (Option-cases (first_by_mac mac rows)) [
    | inl absent ↦ rw (absent, set_ap_excluded) a
    | inr (row, found) ↦
        rw (found, set_ap_excluded)
          (store-AreGuarded (excluded_row row excluded now) rows
            (excluded-IsGuarded row excluded now) a)
  ],
  elim (Option-cases (first_by_mac mac rows)) [
    | inl absent ↦ rw (absent, register_reboot_outcome) a
    | inr (row, found) ↦
        rw (found, register_reboot_outcome)
          (store-AreGuarded (outcome_row row o threshold now).0 rows
            (outcome-IsGuarded row o threshold now (first_by_mac-IsGuarded mac rows row a found)) a)
  ],
)
