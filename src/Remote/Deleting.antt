-- ===== src/Remote/Deleting.antt =====
-- What `delete_device` of app/domains/remote_access/service/devices.py takes out of the shared book.
use mathlib.Core.Option.{none-ne-some, some-injective}
use mathlib.Core.Bool.{true≢false}
use infra_scope.Common.{
  ℕ, ◌≡◌, ◌≢◌, refl, sym, ap, ◌∙◌, Bool, true, false, not, ◌&&◌, ◌||◌, Option, none, some, [], ◌∷◌,
  String, if◌then◌else◌, ◌==◌, nat_eq, string_eq, arith, All, any, ==_refl, ==_sound,
}
use infra_scope.Remote.Device.{RemoteAccessDevice, is_number, is_set}
use infra_scope.Remote.Rows.{
  Table, update, delete_device, forgotten, book_row, shares, both, equal_texts,
}

both_true : (a b : Bool) → a ≡ false → b ≡ true → (not a && b) ≡ true
both_true a b h k = ground arith

not_true : (b : Bool) → ¬ (b ≡ true) → b ≡ false
not_true b h = ground arith

or_false_left : (a b : Bool) → (a || b) ≡ false → a ≡ false
or_false_left a b h = ground arith

or_false_right : (a b : Bool) → (a || b) ≡ false → b ≡ false
or_false_right a b h = ground arith

-- Another row, not the device's own, that has this id at the console.
abbrev pub IsOther : RemoteAccessDevice → String → RemoteAccessDevice → Type 0
IsOther dev peer other = (other.id ≢ dev.id) → other.rustdesk_id ≢ some peer

equal_texts-some :
    (x y : Option String) (peer : String) → x ≡ some peer → y ≡ some peer → equal_texts x y ≡ true
equal_texts-some none y peer e e' = absurd (none-ne-some peer e)
equal_texts-some (some a) none peer e e' = absurd (none-ne-some peer e')
equal_texts-some (some a) (some b) peer e e' =
    ap (λ c. c == a) (some-injective b peer e' ∙ sym (some-injective a peer e)) ∙ ==_refl a

any-IsOther :
    (dev : RemoteAccessDevice) (peer : String) (rows : Table)
    → dev.rustdesk_id ≡ some peer
    → any (shares dev) rows ≡ false
    → All (IsOther dev peer) rows
any-IsOther dev peer [] e h = tt
any-IsOther dev peer (other ∷ rows) e h = (
  λ ne e'. true≢false (
      sym (
        both_true (other.id == dev.id) (equal_texts dev.rustdesk_id other.rustdesk_id)
          (not_true (other.id == dev.id) (λ same. ne (==_sound other.id dev.id same)))
          (equal_texts-some dev.rustdesk_id other.rustdesk_id peer e e'))
      ∙ or_false_left (shares dev other) (any (shares dev) rows) h),
  any-IsOther dev peer rows e (or_false_right (shares dev other) (any (shares dev) rows) h),
)

-- `free` is the test that `book_row` makes.
book_row-parts :
    (dev : RemoteAccessDevice) (rows : Table) (free : Bool) (row_id : Option ℕ)
    (rid : Option String) (n : ℕ) (peer : String)
    → (is_number dev.ab_row_id && is_set dev.rustdesk_id && not (any (shares dev) rows)) ≡ free
    → (if free then both row_id rid else none) ≡ some (n, peer)
    → (row_id ≡ some n) × (rid ≡ some peer) × (any (shares dev) rows ≡ false)
book_row-parts dev rows false row_id rid n peer f e = absurd (none-ne-some (n, peer) e)
book_row-parts dev rows true none rid n peer f e = absurd (none-ne-some (n, peer) e)
book_row-parts dev rows true (some m) none n peer f e = absurd (none-ne-some (n, peer) e)
book_row-parts dev rows true (some m) (some p) n peer f e =
    let same = some-injective (m, p) (n, peer) e in
    (ap (λ c. some c.0) same, ap (λ c. some c.1) same, ground arith)

-- What `delete_device` leaves of a row.
abbrev pub IsForgotten : RemoteAccessDevice → RemoteAccessDevice → Type 0
IsForgotten dev row =
    row.id ≡ dev.id → (row.managed ≡ false) × (row.in_address_book ≡ false) × (row.ab_row_id ≡ none)

forgotten-IsForgotten :
    (now : ℕ) (dev row : RemoteAccessDevice) (here : Bool)
    → (row.id == dev.id) ≡ here
    → IsForgotten dev (if here then forgotten now row else row)
unfolding forgotten
forgotten-IsForgotten now dev row true e same = (refl, refl, refl)
forgotten-IsForgotten now dev row false e same =
    absurd (true≢false (sym (ap (λ i. i == dev.id) same ∙ ==_refl dev.id) ∙ e))

All-forgotten :
    (now : ℕ) (dev : RemoteAccessDevice) (rows : Table)
    → All (IsForgotten dev) (update dev.id (forgotten now) rows)
All-forgotten now dev [] = tt
All-forgotten now dev (row ∷ rows) =
    (forgotten-IsForgotten now dev row (row.id == dev.id) refl, All-forgotten now dev rows)

-- A deleted device is unmanaged, out of the book and without a number there. When the console is
-- asked to drop a row of the book, it is the device's own number and peer, and no other row of the
-- table has that peer.
pub delete_device-book :
    (now : ℕ) (dev : RemoteAccessDevice) (rows : Table)
    → All (IsForgotten dev) (delete_device now dev rows).0
      × ((n : ℕ) (peer : String)
          → (delete_device now dev rows).1 ≡ some (n, peer)
          → (dev.ab_row_id ≡ some n) × (dev.rustdesk_id ≡ some peer) × All (IsOther dev peer) rows)
unfolding delete_device book_row
delete_device-book now dev rows = (
  All-forgotten now dev rows,
  λ n peer e.
      let (number, rid, free) =
        book_row-parts dev rows
          (is_number dev.ab_row_id && is_set dev.rustdesk_id && not (any (shares dev) rows))
          dev.ab_row_id dev.rustdesk_id n peer refl e in
      (number, rid, any-IsOther dev peer rows rid free),
)
