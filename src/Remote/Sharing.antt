-- ===== src/Remote/Sharing.antt =====
-- What app/domains/remote_access/service/address_book.py brings into the shared book.
use infra_scope.Common.{
  ℕ, ◌+◌, length, length-map, ◌≡◌, refl, sym, ap, ◌∙◌, subst, Bool, true, false, not, ◌&&◌, Option,
  none, some, List, [], ◌∷◌, map, String, if◌then◌else◌, ◌==◌, nat_eq, string_eq, arith, All,
  All-mono, keep, get_elem?, Both, Both-map, IsIn, IsIn-if_cons, IsIn-map, suc, Bool-cases, inl,
  inr,
}
use infra_scope.Remote.Device.{Str, RemoteAccessDevice, is_set}
use infra_scope.Remote.Rows.{Table}
use infra_scope.Remote.Requests.{core-pushed_row}
use infra_scope.Remote.AddressBook.{
  Book, Listed, Payload, Call, update_row, create_row, call_of, book_row_id, ab_payload, is_target,
  pushed, numbered, pushed_row, counts, rechecked, is_stale_row, push_shared_address_book,
  sync_stale_address_book,
}

-- In the book, with the password pushed, where the console takes what it is sent.
abbrev pub IsShared : Book → RemoteAccessDevice → Type 0
IsShared book dev =
    is_target dev ≡ true
    → book.accepts dev.id ≡ true
    → (dev.in_address_book ≡ true) × (dev.ab_password_pushed ≡ true)

abbrev pub payload_of : Call → Payload
payload_of (update_row row_id payload) = payload
payload_of (create_row payload) = payload

-- The call carries the payload of a managed row of the table that has an id at the console.
abbrev pub IsSent : Str → String → Table → Call → Type 0
IsSent py default_password rows call =
    (dev : RemoteAccessDevice) × (i : ℕ) × (get_elem? rows i ≡ some dev)
    × (dev.managed ≡ true)
    × (is_set dev.rustdesk_id ≡ true)
    × (payload_of call ≡ ab_payload py default_password dev)

if_payload :
    (b : Bool) (n : ℕ) (payload : Payload)
    → payload_of (if b then create_row payload else update_row n payload) ≡ payload
if_payload true n payload = refl
if_payload false n payload = refl

payload_of-call_of :
    (row_id : Option ℕ) (payload : Payload) → payload_of (call_of row_id payload) ≡ payload
payload_of-call_of none payload = refl
payload_of-call_of (some n) payload = if_payload (n == 0) n payload

flags_pushed :
    (py : Str) (now : ℕ) (book : Book) (dev : RemoteAccessDevice)
    → book.accepts dev.id ≡ true
    → ((pushed py now book dev).in_address_book ≡ true)
      × ((pushed py now book dev).ab_password_pushed ≡ true)
unfolding pushed
flags_pushed py now book dev acc = ground arith

flags_pushed_row :
    (py : Str) (now : ℕ) (book : Book) (created : Bool) (dev : RemoteAccessDevice)
    → book.accepts dev.id ≡ true
    → ((pushed_row py now book created dev).in_address_book ≡ true)
      × ((pushed_row py now book created dev).ab_password_pushed ≡ true)
unfolding numbered
flags_pushed_row py now book true dev acc = flags_pushed py now book dev acc
flags_pushed_row py now book false dev acc = flags_pushed py now book dev acc

-- `due` is the test by which the sync chooses the rows that it sends.
pushed_if-IsShared :
    (py : Str) (now : ℕ) (book : Book) (created due : Bool) (dev : RemoteAccessDevice)
    → (is_stale_row dev && is_target dev) ≡ due
    → IsShared book (if due then pushed_row py now book created dev else dev)
pushed_if-IsShared py now book created true dev e target acc =
    flags_pushed_row py now book created dev
      (sym (ap (λ c. book.accepts c.0) (core-pushed_row py now book created dev)) ∙ acc)
pushed_if-IsShared py now book created false dev e target acc = (ground arith, ground arith)

-- A row that the sync has to send: it is managed with an id, and not in the book or its password
-- not pushed. The console is sent its payload, to its row in the book or for a new one.
abbrev pub IsDelivered : Str → String → Book → List Call → RemoteAccessDevice → Type 0
IsDelivered py default_password book calls dev =
    is_target dev ≡ true
    → (dev.in_address_book && dev.ab_password_pushed) ≡ false
    → IsIn calls (call_of (book_row_id py book dev) (ab_payload py default_password dev))

-- The flags of a row that the console refuses are not set.
abbrev pub IsMarked : Book → RemoteAccessDevice → RemoteAccessDevice → Type 0
IsMarked book dev dev' =
    book.accepts dev.id ≡ false
    → (dev'.in_address_book ≡ dev.in_address_book)
      × (dev'.ab_password_pushed ≡ dev.ab_password_pushed)

flags_refused :
    (py : Str) (now : ℕ) (book : Book) (created due : Bool) (dev : RemoteAccessDevice)
    → IsMarked book dev (if due then pushed_row py now book created dev else dev)
unfolding pushed numbered
flags_refused py now book created false dev refuses = (refl, refl)
flags_refused py now book true true dev refuses = (ground arith, ground arith)
flags_refused py now book false true dev refuses = (ground arith, ground arith)

-- What passes the test is kept.
keep_complete :
    (test : RemoteAccessDevice → Bool) (rows : Table)
    → All (λ dev. test dev ≡ true → IsIn (keep test rows) dev) rows
keep_complete test [] = tt
keep_complete test (dev ∷ rows) = (
  λ h. subst (λ b. IsIn (if b then dev ∷ keep test rows else keep test rows) dev) (sym h) (0, refl),
  All-mono (λ x. test x ≡ true → IsIn (keep test rows) x)
      (λ x. test x ≡ true → IsIn (keep test (dev ∷ rows)) x)
      (λ x f h. IsIn-if_cons (test dev) dev (keep test rows) x (f h)) rows
      (keep_complete test rows),
)

is_due :
    (dev : RemoteAccessDevice)
    → is_target dev ≡ true
    → (dev.in_address_book && dev.ab_password_pushed) ≡ false
    → (is_stale_row dev && is_target dev) ≡ true
is_due dev target unsent = ground arith

-- Every call is counted once.
counts-total :
    (py : Str) (book : Book) (targets : Table)
    → let count = counts py book targets in
      count.created + count.updated + count.failed ≡ length targets
unfolding counts
counts-total py book [] = omega arith
counts-total py book (dev ∷ targets) = ground (arith, counts-total py book targets)

keep-get_elem? :
    (test : RemoteAccessDevice → Bool) (rows : Table)
    → All (λ dev. (i : ℕ) × (get_elem? rows i ≡ some dev) × (test dev ≡ true)) (keep test rows)
keep-get_elem? test [] = tt
keep-get_elem? test (dev ∷ rows) =
    let rest =
      All-mono (λ d. (i : ℕ) × (get_elem? rows i ≡ some d) × (test d ≡ true))
        (λ d. (i : ℕ) × (get_elem? (dev ∷ rows) i ≡ some d) × (test d ≡ true))
        (λ d (i, e, h). (suc i, e, h)) (keep test rows) (keep-get_elem? test rows) in
    elim (Bool-cases (test dev)) [
      | inl here ↦
          subst
            (λ b.
              All (λ d. (i : ℕ) × (get_elem? (dev ∷ rows) i ≡ some d) × (test d ≡ true))
                (if b then dev ∷ keep test rows else keep test rows))
            (sym here) ((0, refl, here), rest)
      | inr other ↦
          subst
            (λ b.
              All (λ d. (i : ℕ) × (get_elem? (dev ∷ rows) i ≡ some d) × (test d ≡ true))
                (if b then dev ∷ keep test rows else keep test rows))
            (sym other) rest
    ]

All-of_map :
    {A B : Type 0} (P : B → Type 0) (Q : A → Type 0) (f : A → B)
    → ((x : A) → Q x → P (f x))
    → (xs : List A) → All Q xs
    → All P (map f xs)
All-of_map P Q f h [] a = tt
All-of_map P Q f h (x ∷ xs) (q, a) = (h x q, All-of_map P Q f h xs a)

All-pushed :
    (py : Str) (now : ℕ) (book : Book) (created : Bool) (rows : Table)
    → All (IsShared book) (
        map
          (λ dev.
            if is_stale_row dev && is_target dev then pushed_row py now book created dev else dev)
          rows)
All-pushed py now book created [] = tt
All-pushed py now book created (dev ∷ rows) = (
  pushed_if-IsShared py now book created (is_stale_row dev && is_target dev) dev refl,
  All-pushed py now book created rows,
)

-- After a sync of the address book every managed device with an id is in the book with its password
-- pushed, unless the console refuses the call for it, and a refused call sets neither flag. Of the
-- rows as the listing of the book has left them, the payload of each managed device with an id that
-- is not in the book with its password pushed is sent to its row there, or for a new one; what is
-- sent are payloads of managed devices with an id, never one of a device that was taken off; and
-- the three counts returned add up to the number of calls.
pub sync_stale_address_book-IsShared :
    (py : Str) (now : ℕ) (default_password : String) (live : Listed) (book : Book) (rows : Table)
    → let checked = map (rechecked live) rows in
      let (result, calls, count) = sync_stale_address_book py now default_password live book rows in
      All (IsShared book) result
      × Both (IsMarked book) checked result
      × All (IsDelivered py default_password book calls) checked
      × All (IsSent py default_password checked) calls
      × (count.created + count.updated + count.failed ≡ length calls)
unfolding sync_stale_address_book push_shared_address_book
sync_stale_address_book-IsShared py now default_password live book rows =
    let checked = map (rechecked live) rows in
    let chosen : RemoteAccessDevice → Bool = λ dev. is_stale_row dev && is_target dev in
    let count = counts py book (keep chosen checked) in
    (
      All-pushed py now book (not (count.created == 0)) checked,
      Both-map (IsMarked book)
          (λ dev. if chosen dev then pushed_row py now book (not (count.created == 0)) dev else dev)
          (λ dev. flags_refused py now book (not (count.created == 0)) (chosen dev) dev) checked,
      All-mono (λ dev. chosen dev ≡ true → IsIn (keep chosen checked) dev)
          (IsDelivered py default_password book (
            map (λ dev. call_of (book_row_id py book dev) (ab_payload py default_password dev))
              (keep chosen checked)))
          (λ dev f target unsent.
            IsIn-map (λ dev. call_of (book_row_id py book dev) (ab_payload py default_password dev))
              (keep chosen checked) dev (f (is_due dev target unsent)))
          checked (keep_complete chosen checked),
      All-of_map (IsSent py default_password checked)
          (λ dev. (i : ℕ) × (get_elem? checked i ≡ some dev) × (chosen dev ≡ true))
          (λ dev. call_of (book_row_id py book dev) (ab_payload py default_password dev))
          (λ dev (i, e, h). (
            dev,
            i,
            e,
            ground arith,
            ground arith,
            payload_of-call_of (book_row_id py book dev) (ab_payload py default_password dev),
          ))
          (keep chosen checked) (keep-get_elem? chosen checked),
      counts-total py book (keep chosen checked)
          ∙ sym (
              length-map (keep chosen checked)
                (λ dev. call_of (book_row_id py book dev) (ab_payload py default_password dev))),
    )
