-- ===== src/Common/Lists.antt =====
-- Lists measured and indexed by native numbers, under the library's names.
use Prim.Native.Nat.{ℕ, zero, suc, ◌+◌, ◌-◌, ◌<◌, ◌≤◌, min}
use mathlib.Core.Path.{◌≡◌, refl, ap}
use mathlib.Core.Logic.{◌≢◌, Lift}
use mathlib.Core.List.{List, [], ◌∷◌, ◌++◌, map}
use mathlib.Core.Option.{Option, none, some, none-ne-some}
use mathlib.Core.Option
use mathlib.Core.Bool.{Bool, true, false, ◌||◌}
use infra_scope.Common.Tests.{if◌then◌else◌}
use native.Mathlib.Omega.{arith}

module _ {ℓ} {A : Type ℓ} where
  abbrev pub length : List A → ℕ
  length [] = 0
  length (x ∷ xs) = suc (length xs)

  abbrev pub get_elem? : List A → ℕ → Option A
  get_elem? [] i = none
  get_elem? (x ∷ xs) zero = some x
  get_elem? (x ∷ xs) (suc i) = get_elem? xs i

  -- A write out of bounds changes nothing.
  abbrev pub set : List A → ℕ → A → List A
  set [] i v = []
  set (x ∷ xs) zero v = v ∷ xs
  set (x ∷ xs) (suc i) v = x ∷ set xs i v

  pub length-append : (xs ys : List A) → length (xs ++ ys) ≡ length xs + length ys
  length-append [] ys = omega arith
  length-append (x ∷ xs) ys = omega (arith, length-append xs ys)

module _ {ℓ} {A : Type ℓ} where
  pub length-set : (xs : List A) (i : ℕ) (v : A) → length (set xs i v) ≡ length xs
  length-set [] i v = refl
  length-set (x ∷ xs) zero v = refl
  length-set (x ∷ xs) (suc i) v = ap suc (length-set xs i v)

  pub get_elem?-set_self :
      (xs : List A) (i : ℕ) (v : A) → i < length xs → get_elem? (set xs i v) i ≡ some v
  get_elem?-set_self [] i v h = elim h [ ]
  get_elem?-set_self (x ∷ xs) zero v h = refl
  get_elem?-set_self (x ∷ xs) (suc i) v h = get_elem?-set_self xs i v (omega arith)

  pub get_elem?-set_ne :
      (xs : List A) {i j : ℕ} (v : A) → i ≢ j → get_elem? (set xs i v) j ≡ get_elem? xs j
  get_elem?-set_ne [] v h = refl
  get_elem?-set_ne (x ∷ xs) {i = zero} {j = zero} v h = absurd (h refl)
  get_elem?-set_ne (x ∷ xs) {i = zero} {j = suc j} v h = refl
  get_elem?-set_ne (x ∷ xs) {i = suc i} {j = zero} v h = refl
  get_elem?-set_ne (x ∷ xs) {i = suc i} {j = suc j} v h = get_elem?-set_ne xs v (λ e. h (ap suc e))

module _ {ℓ} {A : Type ℓ} where
  abbrev pub get_or : List A → ℕ → A → A
  get_or [] i d = d
  get_or (x ∷ xs) zero d = x
  get_or (x ∷ xs) (suc i) d = get_or xs i d

  abbrev pub take : ℕ → List A → List A
  take zero xs = []
  take (suc n) [] = []
  take (suc n) (x ∷ xs) = x ∷ take n xs

  abbrev pub drop : ℕ → List A → List A
  drop zero xs = xs
  drop (suc n) [] = []
  drop (suc n) (x ∷ xs) = drop n xs

  abbrev pub replicate : ℕ → A → List A
  replicate zero a = []
  replicate (suc n) a = a ∷ replicate n a

  pub take-append-drop : (n : ℕ) (xs : List A) → take n xs ++ drop n xs ≡ xs
  take-append-drop zero xs = refl
  take-append-drop (suc n) [] = refl
  take-append-drop (suc n) (x ∷ xs) = rw (take-append-drop n xs)

  pub length-take : (n : ℕ) (xs : List A) → length (take n xs) ≡ min n (length xs)
  length-take zero xs = omega arith
  length-take (suc n) [] = omega arith
  length-take (suc n) (x ∷ xs) = omega (arith, length-take n xs)

  pub length-drop : (n : ℕ) (xs : List A) → length (drop n xs) ≡ length xs - n
  length-drop zero xs = omega arith
  length-drop (suc n) [] = omega arith
  length-drop (suc n) (x ∷ xs) = omega (arith, length-drop n xs)

  pub length-replicate : (n : ℕ) (a : A) → length (replicate n a) ≡ n
  length-replicate zero a = refl
  length-replicate (suc n) a = ap suc (length-replicate n a)

  pub length-map {κ} : {B : Type κ} (xs : List A) (f : A → B) → length (map f xs) ≡ length xs
  length-map [] f = refl
  length-map (x ∷ xs) f = ap suc (length-map xs f)

-- A predicate of every element.
abbrev pub All {ℓ κ} : {A : Type ℓ} → (A → Type κ) → List A → Type κ
All P [] = Unit
All P (x ∷ xs) = P x × All P xs

pub All-mono {ℓ κ} :
    {A : Type ℓ} (P Q : A → Type κ) → ((x : A) → P x → Q x) → (xs : List A) → All P xs → All Q xs
All-mono P Q h [] a = tt
All-mono P Q h (x ∷ xs) (p, a) = (h x p, All-mono P Q h xs a)

pub All-map {ℓ κ} :
    {A : Type ℓ} (P Q : A → Type κ) (f : A → A)
    → ((x : A) → P x → Q (f x))
    → (xs : List A) → All P xs
    → All Q (map f xs)
All-map P Q f h [] a = tt
All-map P Q f h (x ∷ xs) (p, a) = (h x p, All-map P Q f h xs a)

pub All-append {ℓ κ} :
    {A : Type ℓ} (P : A → Type κ) (xs ys : List A) → All P xs → All P ys → All P (xs ++ ys)
All-append P [] ys a b = b
All-append P (x ∷ xs) ys (p, a) b = (p, All-append P xs ys a b)

-- An element stands somewhere in a list.
abbrev pub IsIn {ℓ} : {A : Type ℓ} → List A → A → Type ℓ
IsIn xs x = (i : ℕ) × (get_elem? xs i ≡ some x)

pub IsIn-cons {ℓ} : {A : Type ℓ} (y : A) (xs : List A) (x : A) → IsIn xs x → IsIn (y ∷ xs) x
IsIn-cons y xs x (i, e) = (suc i, e)

pub IsIn-if_cons {ℓ} :
    {A : Type ℓ} (b : Bool) (y : A) (xs : List A) (x : A)
    → IsIn xs x
    → IsIn (if b then y ∷ xs else xs) x
IsIn-if_cons true y xs x h = IsIn-cons y xs x h
IsIn-if_cons false y xs x h = h

pub IsIn-append_left {ℓ} : {A : Type ℓ} (xs ys : List A) (x : A) → IsIn xs x → IsIn (xs ++ ys) x
IsIn-append_left [] ys x (i, e) = absurd (none-ne-some x e)
IsIn-append_left (z ∷ xs) ys x (zero, e) = (zero, e)
IsIn-append_left (z ∷ xs) ys x (suc i, e) =
    IsIn-cons z (xs ++ ys) x (IsIn-append_left xs ys x (i, e))

pub IsIn-append_right {ℓ} : {A : Type ℓ} (xs ys : List A) (x : A) → IsIn ys x → IsIn (xs ++ ys) x
IsIn-append_right [] ys x h = h
IsIn-append_right (z ∷ xs) ys x h = IsIn-cons z (xs ++ ys) x (IsIn-append_right xs ys x h)

pub IsIn-map {ℓ κ} :
    {A : Type ℓ} {B : Type κ} (f : A → B) (xs : List A) (x : A) → IsIn xs x → IsIn (map f xs) (f x)
IsIn-map f [] x (i, e) = absurd (none-ne-some x e)
IsIn-map f (z ∷ xs) x (zero, e) = (zero, ap (Option.map f) e)
IsIn-map f (z ∷ xs) x (suc i, e) = IsIn-cons (f z) (map f xs) (f x) (IsIn-map f xs x (i, e))

pub All-take {ℓ κ} :
    {A : Type ℓ} (P : A → Type κ) (n : ℕ) (xs : List A) → All P xs → All P (take n xs)
All-take P zero xs a = tt
All-take P (suc n) [] a = tt
All-take P (suc n) (x ∷ xs) (p, a) = (p, All-take P n xs a)

pub take_all {ℓ} : {A : Type ℓ} (n : ℕ) (xs : List A) → length xs ≤ n → take n xs ≡ xs
take_all zero [] h = refl
take_all zero (x ∷ xs) h = absurd (omega (arith, h))
take_all (suc n) [] h = refl
take_all (suc n) (x ∷ xs) h = ap (λ l. x ∷ l) (take_all n xs (omega (arith, h)))

-- `[x for x in xs if test(x)]`
abbrev pub keep {ℓ} : {A : Type ℓ} → (A → Bool) → List A → List A
keep test [] = []
keep test (x ∷ xs) = if test x then x ∷ keep test xs else keep test xs

abbrev pub any {ℓ} : {A : Type ℓ} → (A → Bool) → List A → Bool
any test [] = false
any test (x ∷ xs) = test x || any test xs

-- The first and the last element that passes a test.
abbrev pub first {ℓ} : {A : Type ℓ} → (A → Bool) → List A → Option A
first test [] = none
first test (x ∷ xs) = if test x then some x else first test xs

abbrev pub last {ℓ} : {A : Type ℓ} → (A → Bool) → List A → Option A
last test [] = none
last test (x ∷ xs) = elim (last test xs) [
  | some y ↦ some y
  | none ↦ if test x then some x else none
]

-- A relation of the elements of two lists of one length, in order.
abbrev pub Both {ℓ κ} : {A : Type ℓ} → (A → A → Type κ) → List A → List A → Type κ
Both R [] [] = Unit
Both R [] (y ∷ ys) = Lift ⊥
Both R (x ∷ xs) [] = Lift ⊥
Both R (x ∷ xs) (y ∷ ys) = R x y × Both R xs ys

pub Both-map {ℓ κ} :
    {A : Type ℓ} (R : A → A → Type κ) (f : A → A)
    → ((x : A) → R x (f x))
    → (xs : List A) → Both R xs (map f xs)
Both-map R f h [] = tt
Both-map R f h (x ∷ xs) = (h x, Both-map R f h xs)
