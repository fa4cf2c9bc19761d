-- ===== src/Core/BoundedCache/Entries.antt =====
-- The operations of OrderedDict that app/core/bounded_cache.py uses, on a list of entries from the
-- oldest use to the latest, and the two loops of the file over them.
use infra_scope.Common.{
  ℕ, suc, ◌-◌, ◌≡◌, refl, Option, none, some, List, [], ◌∷◌, ◌++◌, ltb, leb, length, drop,
  if◌then◌else◌, Eq, ◌==◌, arith, Bool-cases, inl, inr,
}

-- A key, its expiry and its value.
abbrev pub Entry {ℓ} : Type ℓ → Type ℓ → Type ℓ
Entry K V = K × (ℕ × V)

module _ {ℓ} {K V : Type ℓ} where
  -- `_remove_expired`: what is left.
  unfoldable pub live : ℕ → List (Entry K V) → List (Entry K V)
  live now [] = []
  live now ((k, (expires_at, v)) ∷ xs) =
      if leb expires_at now then live now xs else (k, (expires_at, v)) ∷ live now xs

  -- The `while` loop of `set`: `popitem(last=False)` until the rest fits.
  unfoldable pub evict : ℕ → List (Entry K V) → List (Entry K V)
  evict maxsize [] = []
  evict maxsize (x ∷ xs) = if ltb maxsize (suc (length xs)) then evict maxsize xs else x ∷ xs

module _ {ℓ} {K V : Type ℓ} ⦃e : Eq K⦄ where
  unfoldable pub find : K → List (Entry K V) → Option (ℕ × V)
  find key [] = none
  find key ((k, x) ∷ xs) = if k == key then some x else find key xs

  unfoldable pub remove : K → List (Entry K V) → List (Entry K V)
  remove key [] = []
  remove key ((k, x) ∷ xs) = if k == key then xs else (k, x) ∷ remove key xs

  -- `d[key] = x`: in place, or at the end.
  unfoldable pub assign : K → ℕ × V → List (Entry K V) → List (Entry K V)
  assign key x [] = (key, x) ∷ []
  assign key x ((k, y) ∷ xs) = if k == key then (k, x) ∷ xs else (k, y) ∷ assign key x xs

  unfoldable pub move_to_end : K → List (Entry K V) → List (Entry K V)
  move_to_end key xs = elim (find key xs) [ none ↦ xs | some x ↦ remove key xs ++ ((key, x) ∷ []) ]

  pub find-assign :
      (key : K) (x : ℕ × V) (xs : List (Entry K V)) → find key (assign key x xs) ≡ some x
  unfolding find assign
  find-assign key x [] = ground (arith, e.beq_iff key key)
  find-assign key x ((k, y) ∷ xs) = ground (arith, find-assign key x xs)

  pub remove-assign :
      (key : K) (x : ℕ × V) (xs : List (Entry K V)) → remove key (assign key x xs) ≡ remove key xs
  unfolding remove assign
  remove-assign key x [] = ground (arith, e.beq_iff key key)
  remove-assign key x ((k, y) ∷ xs) = ground (arith, remove-assign key x xs)

  -- An assignment followed by the move: the entry stands last, and the others keep their order.
  pub move_to_end-assign :
      (key : K) (x : ℕ × V) (xs : List (Entry K V))
      → move_to_end key (assign key x xs) ≡ remove key xs ++ ((key, x) ∷ [])
  unfolding move_to_end
  move_to_end-assign key x xs =
      rw (find-assign key x xs, move_to_end) (rw (remove-assign key x xs) refl)

module _ {ℓ} {K V : Type ℓ} where
  -- The eviction keeps the last `maxsize` entries.
  pub evict-drop :
      (maxsize : ℕ) (xs : List (Entry K V)) → evict maxsize xs ≡ drop (length xs - maxsize) xs
  unfolding evict
  evict-drop maxsize [] = ground arith
  evict-drop maxsize (x ∷ xs) = elim (Bool-cases (ltb maxsize (suc (length xs)))) [
    | inl over ↦
        let e : suc (length xs) - maxsize ≡ suc (length xs - maxsize) = ground arith in
        rw (over, e) (evict-drop maxsize xs)
    | inr fits ↦ let e : suc (length xs) - maxsize ≡ 0 = ground arith in rw fits (rw e refl)
  ]
