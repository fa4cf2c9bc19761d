-- ===== src/Remote/Releasing.antt =====
-- What is left of the links to a row of the inventory, and of the shared book, when
-- app/domains/remote_access/service/ lets a device go.
use infra_scope.Common.{
  ℕ, ◌≡◌, refl, sym, ap, ◌∙◌, subst, Bool, true, false, ◌||◌, Option, none, some, List, [], ◌∷◌,
  map, if◌then◌else◌, ◌==◌, nat_eq, string_eq, arith, All, All-mono, All-map, any, keep, Bool-cases,
  inl, inr, ==_refl,
}
use mathlib.Core.Bool.{true≢false}
use infra_scope.Remote.Device.{RemoteAccessDevice}
use infra_scope.Remote.Rows.{Table, update, delete_device, forgotten}
use infra_scope.Remote.Mirror.{
  Released, points, unless_gone, is_hit, unlinked, release_each, release_inventory_row,
}

or_right : (a b : Bool) → a ≡ false → (a || b) ≡ true → b ≡ true
or_right a b e h = ground arith

or_true : (a b : Bool) → b ≡ true → (a || b) ≡ true
or_true a b h = ground arith

not_true : (b : Bool) → ¬ (b ≡ true) → b ≡ false
not_true b h = ground arith

-- A row that points at the inventory is one of the devices that are still to do.
abbrev pub IsPlanned : Released → List RemoteAccessDevice → RemoteAccessDevice → Type 0
IsPlanned gone devices dev = is_hit gone dev ≡ true → any (λ d. d.id == dev.id) devices ≡ true

points-unless_gone : (gone link : Option ℕ) → points gone (unless_gone gone link) ≡ false
points-unless_gone none link = refl
points-unless_gone (some id) none = refl
points-unless_gone (some id) (some link) = ground arith

is_hit-unlinked :
    (gone : Released) (dev : RemoteAccessDevice) → is_hit gone (unlinked gone dev) ≡ false
unfolding unlinked
is_hit-unlinked gone dev = ground (
  arith,
  points-unless_gone gone.computer_id dev.computer_id,
  points-unless_gone gone.cash_register_id dev.cash_register_id,
  points-unless_gone gone.media_player_id dev.media_player_id,
)

-- `here` is the test for the id of the device that is let go.
let_go-IsPlanned :
    (now : ℕ) (gone : Released) (dev : RemoteAccessDevice) (devices : List RemoteAccessDevice)
    (row : RemoteAccessDevice) (here : Bool)
    → (row.id == dev.id) ≡ here
    → IsPlanned gone (dev ∷ devices) row
    → IsPlanned gone devices (
        if (if here then forgotten now row else row).id == dev.id
        then unlinked gone (if here then forgotten now row else row)
        else (if here then forgotten now row else row))
unfolding forgotten
let_go-IsPlanned now gone dev devices row true e p =
    subst
      (λ b.
        IsPlanned gone devices (if b then unlinked gone (forgotten now row) else forgotten now row))
      (sym e) (λ h. absurd (true≢false (sym h ∙ is_hit-unlinked gone (forgotten now row))))
let_go-IsPlanned now gone dev devices row false e p =
    subst (λ b. IsPlanned gone devices (if b then unlinked gone row else row)) (sym e)
      (λ h. or_right (dev.id == row.id) (any (λ d. d.id == row.id) devices) (ground arith) (p h))

release_each-IsPlanned :
    (now : ℕ) (gone : Released) (devices : List RemoteAccessDevice) (rows : Table)
    → All (IsPlanned gone devices) rows
    → All (IsPlanned gone []) (release_each now gone devices rows).0
unfolding release_each delete_device
release_each-IsPlanned now gone [] rows a = a
release_each-IsPlanned now gone (dev ∷ devices) rows a =
    let unlink : RemoteAccessDevice → RemoteAccessDevice =
      λ row. if row.id == dev.id then unlinked gone row else row in
    let forget : RemoteAccessDevice → RemoteAccessDevice =
      λ row. if row.id == dev.id then forgotten now row else row in
    release_each-IsPlanned now gone devices
      (update dev.id (unlinked gone) (update dev.id (forgotten now) rows))
      (All-map (λ row. IsPlanned gone devices (unlink row)) (IsPlanned gone devices) unlink
        (λ row p. p) (map forget rows)
        (All-map (IsPlanned gone (dev ∷ devices)) (λ row. IsPlanned gone devices (unlink row))
          forget (λ row p. let_go-IsPlanned now gone dev devices row (row.id == dev.id) refl p) rows
          a))

-- The query finds every row that points.
kept-any :
    (gone : Released) (id : ℕ) (dev : RemoteAccessDevice) (rows : Table)
    → any (λ d. d.id == id) (keep (is_hit gone) rows) ≡ true
    → any (λ d. d.id == id) (keep (is_hit gone) (dev ∷ rows)) ≡ true
kept-any gone id dev rows h = elim (Bool-cases (is_hit gone dev)) [
  | inl hit ↦
      ap
        (λ b.
          any (λ d. d.id == id)
            (if b then dev ∷ keep (is_hit gone) rows else keep (is_hit gone) rows))
        hit
      ∙ or_true (dev.id == id) (any (λ d. d.id == id) (keep (is_hit gone) rows)) h
  | inr miss ↦
      ap
        (λ b.
          any (λ d. d.id == id)
            (if b then dev ∷ keep (is_hit gone) rows else keep (is_hit gone) rows))
        miss
      ∙ h
]

kept_self :
    (gone : Released) (dev : RemoteAccessDevice) (rows : Table)
    → IsPlanned gone (keep (is_hit gone) (dev ∷ rows)) dev
kept_self gone dev rows hit =
    ap
      (λ b.
        any (λ d. d.id == dev.id)
          (if b then dev ∷ keep (is_hit gone) rows else keep (is_hit gone) rows))
      hit
    ∙ ap (λ b. b || any (λ d. d.id == dev.id) (keep (is_hit gone) rows)) (==_refl dev.id)

kept-IsPlanned :
    (gone : Released) (rows : Table) → All (IsPlanned gone (keep (is_hit gone) rows)) rows
kept-IsPlanned gone [] = tt
kept-IsPlanned gone (dev ∷ rows) = (
  kept_self gone dev rows,
  All-mono (IsPlanned gone (keep (is_hit gone) rows))
      (IsPlanned gone (keep (is_hit gone) (dev ∷ rows)))
      (λ d p h. kept-any gone d.id dev rows (p h)) rows (kept-IsPlanned gone rows),
)

-- Before a row of the inventory is deleted its devices are let go: then no device has a link to the
-- computer, the register or the player that is named, so the delete breaks no foreign key.
pub release_inventory_row-links :
    (now : ℕ) (gone : Released) (rows : Table)
    → All (λ dev. is_hit gone dev ≡ false) (release_inventory_row now gone rows).0
unfolding release_inventory_row
release_inventory_row-links now gone rows =
    All-mono (IsPlanned gone []) (λ dev. is_hit gone dev ≡ false)
      (λ dev p. not_true (is_hit gone dev) (λ h. true≢false (sym (p h))))
      (release_each now gone (keep (is_hit gone) rows) rows).0
      (release_each-IsPlanned now gone (keep (is_hit gone) rows) rows (kept-IsPlanned gone rows))
