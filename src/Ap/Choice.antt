-- ===== src/Ap/Choice.antt =====
-- Which access points of a merged view a reboot cycle of app/domains/inventory/ap_auto_reboot.py
-- chooses.
use infra_scope.Common.{
  ℕ, zero, suc, ◌+◌, ◌≤◌, ◌≡◌, refl, sym, subst, Bool, true, false, not, ◌&&◌, List, [], ◌∷◌, ◌++◌,
  if◌then◌else◌, length, take, take_all, All, All-mono, All-append, All-take, IsIn, IsIn-cons,
  IsIn-append_left, IsIn-append_right, IsIn-if_cons, keep, arith, Bool-cases, ◌⊎◌, inl, inr, leb,
  leb→le, length-take,
}
use infra_scope.Ap.Registry.{MergedAccessPoint}
use infra_scope.Ap.Cycle.{targets_of, choose_targets}

targets_of-IsIn :
    (responding : Bool) (aps : List MergedAccessPoint) → All (IsIn aps) (targets_of responding aps)
unfolding targets_of
targets_of-IsIn responding [] = tt
targets_of-IsIn responding (ap ∷ aps) =
    let rest =
      All-mono (IsIn aps) (IsIn (ap ∷ aps)) (IsIn-cons ap aps) (targets_of responding aps)
        (targets_of-IsIn responding aps) in
    elim (Bool-cases (
      not ap.exclude_from_auto_reboot
      && (if responding then ap.is_responding else not ap.is_responding))) [
        | inl chosen ↦ rw chosen ((0, refl), rest)
        | inr other ↦ rw other rest
      ]

-- Every target is an access point of the view.
pub choose_targets-IsIn :
    (n : ℕ) (merged : List MergedAccessPoint) → All (IsIn merged) (choose_targets n merged)
unfolding choose_targets
choose_targets-IsIn n merged =
    All-take (IsIn merged) n (targets_of false merged ++ targets_of true merged) (
      All-append (IsIn merged) (targets_of false merged) (targets_of true merged)
        (targets_of-IsIn false merged) (targets_of-IsIn true merged))

-- The number of targets that pass a test.
module _ (test : MergedAccessPoint → Bool) where
  keep-targets_of :
      (aps : List MergedAccessPoint)
      → length (keep test (targets_of false aps)) + length (keep test (targets_of true aps))
        ≤ length (keep test aps)
  unfolding targets_of
  keep-targets_of [] = omega arith
  keep-targets_of (ap ∷ aps) = ground (arith, keep-targets_of aps)

  keep-append :
      (xs ys : List MergedAccessPoint)
      → length (keep test (xs ++ ys)) ≡ length (keep test xs) + length (keep test ys)
  keep-append [] ys = omega arith
  keep-append (x ∷ xs) ys = ground (arith, keep-append xs ys)

  keep-take :
      (n : ℕ) (xs : List MergedAccessPoint) → length (keep test (take n xs)) ≤ length (keep test xs)
  keep-take zero xs = omega arith
  keep-take (suc n) [] = omega arith
  keep-take (suc n) (x ∷ xs) = ground (arith, keep-take n xs)

  -- No access point is chosen more often than it stands in the view.
  pub keep-choose_targets :
      (n : ℕ) (merged : List MergedAccessPoint)
      → length (keep test (choose_targets n merged)) ≤ length (keep test merged)
  unfolding choose_targets
  keep-choose_targets n merged =
      let silent = targets_of false merged in
      let responding = targets_of true merged in
      omega (
        arith,
        keep-take n (silent ++ responding),
        keep-append silent responding,
        keep-targets_of merged,
      )

is_own_target :
    (ap : MergedAccessPoint)
    → ap.exclude_from_auto_reboot ≡ false
    → (not ap.exclude_from_auto_reboot
        && (if ap.is_responding then ap.is_responding else not ap.is_responding))
      ≡ true
is_own_target ap free = ground arith

-- An access point that is not excluded is a target of its kind.
targets_of_complete :
    (aps : List MergedAccessPoint)
    → All
        (λ ap. ap.exclude_from_auto_reboot ≡ false → IsIn (targets_of ap.is_responding aps) ap)
        aps
unfolding targets_of
targets_of_complete [] = tt
targets_of_complete (ap ∷ aps) = (
  λ free.
      subst
        (λ b.
          IsIn (if b then ap ∷ targets_of ap.is_responding aps else targets_of ap.is_responding aps)
            ap)
        (sym (is_own_target ap free)) (0, refl),
  All-mono (λ x. x.exclude_from_auto_reboot ≡ false → IsIn (targets_of x.is_responding aps) x)
      (λ x. x.exclude_from_auto_reboot ≡ false → IsIn (targets_of x.is_responding (ap ∷ aps)) x)
      (λ x h free.
        IsIn-if_cons
          (not ap.exclude_from_auto_reboot
            && (if x.is_responding then ap.is_responding else not ap.is_responding))
          ap (targets_of x.is_responding aps) x (h free))
      aps (targets_of_complete aps),
)

IsIn-both_kinds :
    (responding : Bool) (merged : List MergedAccessPoint) (ap : MergedAccessPoint)
    → IsIn (targets_of responding merged) ap
    → IsIn (targets_of false merged ++ targets_of true merged) ap
IsIn-both_kinds true merged ap h =
    IsIn-append_right (targets_of false merged) (targets_of true merged) ap h
IsIn-both_kinds false merged ap h =
    IsIn-append_left (targets_of false merged) (targets_of true merged) ap h

-- None that is not excluded is left out, unless the limit is reached.
pub choose_targets_complete :
    (n : ℕ) (merged : List MergedAccessPoint)
    → All (λ ap. ap.exclude_from_auto_reboot ≡ false → IsIn (choose_targets n merged) ap) merged
      ⊎ (length (choose_targets n merged) ≡ n)
unfolding choose_targets
choose_targets_complete n merged =
    let both = targets_of false merged ++ targets_of true merged in
    elim (Bool-cases (leb (length both) n)) [
      | inl fits ↦ inl (
          subst (λ chosen. All (λ ap. ap.exclude_from_auto_reboot ≡ false → IsIn chosen ap) merged)
            (sym (take_all n both (leb→le (length both) n fits)))
            (All-mono
              (λ ap.
                ap.exclude_from_auto_reboot ≡ false → IsIn (targets_of ap.is_responding merged) ap)
              (λ ap. ap.exclude_from_auto_reboot ≡ false → IsIn both ap)
              (λ ap h free. IsIn-both_kinds ap.is_responding merged ap (h free)) merged
              (targets_of_complete merged)))
      | inr more ↦ inr (ground (arith, length-take {0} n both))
    ]
