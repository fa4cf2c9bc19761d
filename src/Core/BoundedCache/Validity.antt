-- ===== src/Core/BoundedCache/Validity.antt =====
-- The invariant of `BoundedTTLCache` (app/core/bounded_cache.py): no key twice, never more than
-- `maxsize` entries.
use infra_scope.Common.{
  ℕ, zero, suc, ◌+◌, ◌-◌, ◌≤◌, ◌≡◌, refl, false, none, some, List, [], ◌∷◌, ◌++◌, leb, length,
  length-append, length-drop, drop, Eq, ◌==◌, arith, Bool-cases, inl, inr, Option-cases,
}
use infra_scope.Core.BoundedCache.Entries.{
  Entry, find, remove, move_to_end, live, evict-drop, move_to_end-assign,
}
use infra_scope.Core.BoundedCache.{Cache, lookup, set, clear, size}

module _ {ℓ} {K V : Type ℓ} ⦃e : Eq K⦄ where
  abbrev pub Distinct : List (Entry K V) → Type ℓ
  Distinct [] = Unit
  Distinct ((k, x) ∷ xs) = (find k xs ≡ none) × Distinct xs

  pub find-remove_self :
      (key : K) (xs : List (Entry K V)) → Distinct xs → find key (remove key xs) ≡ none
  unfolding find remove
  find-remove_self key [] d = refl
  find-remove_self key ((k, x) ∷ xs) d =
      ground (arith, e.beq_iff k key, find-remove_self key xs d.1)

  pub find-remove_ne :
      (key q : K) (xs : List (Entry K V)) → (key == q) ≡ false → find q (remove key xs) ≡ find q xs
  unfolding find remove
  find-remove_ne key q [] h = refl
  find-remove_ne key q ((k, x) ∷ xs) h = ground (arith, e.beq_iff k key, find-remove_ne key q xs h)

  find-remove-none :
      (key q : K) (xs : List (Entry K V)) → find q xs ≡ none → find q (remove key xs) ≡ none
  unfolding find remove
  find-remove-none key q [] h = refl
  find-remove-none key q ((k, x) ∷ xs) h = ground (arith, find-remove-none key q xs)

  pub remove-Distinct : (key : K) (xs : List (Entry K V)) → Distinct xs → Distinct (remove key xs)
  unfolding remove
  remove-Distinct key [] d = d
  remove-Distinct key ((k, x) ∷ xs) d = elim (Bool-cases (k == key)) [
    | inl here ↦ rw here d.1
    | inr there ↦ rw there (find-remove-none key k xs d.0, remove-Distinct key xs d.1)
  ]

  pub find-append :
      (q : K) (xs ys : List (Entry K V))
      → find q (xs ++ ys) ≡ elim (find q xs) [ none ↦ find q ys | some x ↦ some x ]
  unfolding find
  find-append q [] ys = refl
  find-append q ((k, x) ∷ xs) ys = ground (arith, find-append q xs ys)

  last-Distinct :
      (key : K) (x : ℕ × V) (xs : List (Entry K V))
      → Distinct xs
      → find key xs ≡ none
      → Distinct (xs ++ ((key, x) ∷ []))
  unfolding find
  last-Distinct key x [] d h = (refl, tt)
  last-Distinct key x ((k, y) ∷ xs) d h = (
    ground (arith, find-append k xs ((key, x) ∷ []), e.beq_iff k key, e.beq_iff key k),
    last-Distinct key x xs d.1 (ground arith),
  )

  find-live-none :
      (q : K) (now : ℕ) (xs : List (Entry K V)) → find q xs ≡ none → find q (live now xs) ≡ none
  unfolding find live
  find-live-none q now [] h = refl
  find-live-none q now ((k, (t, v)) ∷ xs) h = ground (arith, find-live-none q now xs)

  pub live-Distinct : (now : ℕ) (xs : List (Entry K V)) → Distinct xs → Distinct (live now xs)
  unfolding live
  live-Distinct now [] d = d
  live-Distinct now ((k, (t, v)) ∷ xs) d = elim (Bool-cases (leb t now)) [
    | inl old ↦ rw old (live-Distinct now xs d.1)
    | inr fresh ↦ rw fresh (find-live-none k now xs d.0, live-Distinct now xs d.1)
  ]

  drop-Distinct : (n : ℕ) (xs : List (Entry K V)) → Distinct xs → Distinct (drop n xs)
  drop-Distinct zero xs d = d
  drop-Distinct (suc n) [] d = d
  drop-Distinct (suc n) (x ∷ xs) d = drop-Distinct n xs d.1

  length-remove-le : (key : K) (xs : List (Entry K V)) → length (remove key xs) ≤ length xs
  unfolding remove
  length-remove-le key [] = omega arith
  length-remove-le key ((k, x) ∷ xs) = ground (arith, length-remove-le key xs)

  length-remove :
      (key : K) (x : ℕ × V) (xs : List (Entry K V))
      → find key xs ≡ some x
      → length (remove key xs) + 1 ≡ length xs
  unfolding remove find
  length-remove key x [] h = ground arith
  length-remove key x ((k, y) ∷ xs) h = ground (arith, length-remove key x xs)

length-live {ℓ} :
    {K V : Type ℓ} (now : ℕ) (xs : List (Entry K V)) → length (live now xs) ≤ length xs
unfolding live
length-live now [] = omega arith
length-live now ((k, (t, v)) ∷ xs) = ground (arith, length-live now xs)

pub record IsValid {ℓ} {K V : Type ℓ} ⦃e : Eq K⦄ (c : Cache K V) : Type ℓ where
  pub positive : 1 ≤ c.maxsize
  pub bounded : length c.values ≤ c.maxsize
  pub distinct : Distinct c.values

module _ {ℓ} {K V : Type ℓ} ⦃e : Eq K⦄ (c : Cache K V) (v : IsValid c) where
  lookup-IsValid : (now : ℕ) (key : K) → IsValid (lookup c now key).0
  unfolding lookup move_to_end
  lookup-IsValid now key = elim (Option-cases (find key c.values)) [
    | inl missed ↦ rw (missed, lookup) v
    | inr ((t, x), found) ↦ elim (Bool-cases (leb t now)) [
      | inl old ↦
          rw (found, lookup)
            (rw old (record {
              positive = v.positive;
              bounded = omega (arith, length-remove-le key c.values);
              distinct = remove-Distinct key c.values v.distinct;
            }))
      | inr fresh ↦
          rw (found, lookup)
            (rw fresh (
              rw (found, move_to_end)
                (record {
                  positive = v.positive;
                  bounded = omega (
                    arith,
                    v.bounded,
                    length-append {ℓ} (remove key c.values) ((key, (t, x)) ∷ []),
                    length-remove key (t, x) c.values found,
                  );
                  distinct =
                      last-Distinct key (t, x) (remove key c.values)
                        (remove-Distinct key c.values v.distinct)
                        (find-remove_self key c.values v.distinct);
                })))
    ]
  ]

  set-IsValid : (now : ℕ) (key : K) (value : V) → IsValid (set c now key value)
  unfolding set
  set-IsValid now key value =
      let kept = live now c.values in
      let d : Distinct (remove key kept ++ ((key, (now + c.ttl, value)) ∷ [])) =
        last-Distinct key (now + c.ttl, value) (remove key kept)
          (remove-Distinct key kept (live-Distinct now c.values v.distinct))
          (find-remove_self key kept (live-Distinct now c.values v.distinct)) in
      rw (move_to_end-assign key (now + c.ttl, value) kept) (
        rw (evict-drop c.maxsize (remove key kept ++ ((key, (now + c.ttl, value)) ∷ []))) (record {
          positive = v.positive;
          bounded = omega (
            arith,
            length-drop {ℓ}
                (length (remove key kept ++ ((key, (now + c.ttl, value)) ∷ [])) - c.maxsize)
                (remove key kept ++ ((key, (now + c.ttl, value)) ∷ [])),
          );
          distinct = drop-Distinct _ _ d;
        }))

  -- Every operation of a valid cache leaves it valid: no key stands twice and no more than
  -- `maxsize` entries are kept.
  pub operations-IsValid :
      (now : ℕ) (key : K) (value : V)
      → IsValid (lookup c now key).0
        × IsValid (set c now key value)
        × IsValid (clear c)
        × IsValid (size c now).0
        × ((size c now).1 ≤ c.maxsize)
  unfolding clear size
  operations-IsValid now key value = (
    lookup-IsValid now key,
    set-IsValid now key value,
    record { positive = v.positive; bounded = omega arith; distinct = tt },
    record {
      positive = v.positive;
      bounded = omega (arith, v.bounded, length-live {ℓ} now c.values);
      distinct = live-Distinct now c.values v.distinct;
    },
    omega (arith, v.bounded, length-live {ℓ} now c.values),
  )
