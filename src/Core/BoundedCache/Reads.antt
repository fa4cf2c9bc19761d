-- ===== src/Core/BoundedCache/Reads.antt =====
-- What can be read from a `BoundedTTLCache` after each call (app/core/bounded_cache.py).
use infra_scope.Common.{
  ℕ, zero, suc, ◌+◌, ◌-◌, ◌≤◌, ◌≡◌, refl, ◌∙◌, sym, false, Option, none, some, List, [], ◌∷◌, ◌++◌,
  leb, length, length-append, drop, if◌then◌else◌, Eq, ◌==◌, arith, Bool-cases, inl, inr,
  Option-cases,
}
use infra_scope.Core.BoundedCache.Entries.{
  Entry, find, remove, move_to_end, live, evict-drop, move_to_end-assign,
}
use infra_scope.Core.BoundedCache.{Cache, lookup, set}
use infra_scope.Core.BoundedCache.Validity.{
  IsValid, Distinct, find-remove_self, find-remove_ne, find-append, live-Distinct,
}

-- The value under a key that has not expired.
abbrev pub unexpired {ℓ} : {V : Type ℓ} → ℕ → Option (ℕ × V) → Option V
unexpired now none = none
unexpired now (some (expires_at, value)) = if leb expires_at now then none else some value

module _ {ℓ} {K V : Type ℓ} ⦃e : Eq K⦄ where
  pub lookup-unexpired :
      (c : Cache K V) (now : ℕ) (q : K) → (lookup c now q).1 ≡ unexpired now (find q c.values)
  unfolding lookup
  lookup-unexpired c now q = ground arith

  find-move_to_end :
      (key q : K) (xs : List (Entry K V)) → Distinct xs → find q (move_to_end key xs) ≡ find q xs
  unfolding move_to_end find
  find-move_to_end key q xs d = elim (Option-cases (find key xs)) [
    | inl missed ↦ rw (missed, move_to_end) refl
    | inr (x, found) ↦ elim (Bool-cases (key == q)) [
      | inl same ↦
          rw (found, move_to_end)
            (find-append q (remove key xs) ((key, x) ∷ [])
              ∙ ground (arith, e.beq_iff key q, find-remove_self key xs d))
      | inr other ↦
          rw (found, move_to_end)
            (find-append q (remove key xs) ((key, x) ∷ [])
              ∙ ground (arith, find-remove_ne key q xs other))
    ]
  ]

  -- Purging what has expired by now is not seen by a later read.
  unexpired-live :
      (now later : ℕ) (q : K) (xs : List (Entry K V))
      → Distinct xs
      → now ≤ later
      → unexpired later (find q (live now xs)) ≡ unexpired later (find q xs)
  unfolding find live
  unexpired-live now later q [] d h = refl
  unexpired-live now later q ((k, (t, v)) ∷ xs) d h =
      ground (arith, unexpired-live now later q xs d.1 h, e.beq_iff k q)

  unexpired-remove :
      (now later : ℕ) (key q : K) (t : ℕ) (x : V) (xs : List (Entry K V))
      → Distinct xs
      → find key xs ≡ some (t, x)
      → t ≤ now
      → now ≤ later
      → unexpired later (find q (remove key xs)) ≡ unexpired later (find q xs)
  unexpired-remove now later key q t x xs d found old h = elim (Bool-cases (key == q)) [
    | inl same ↦ ground (arith, e.beq_iff key q, find-remove_self key xs d)
    | inr other ↦ rw (find-remove_ne key q xs other) refl
  ]

  unexpired-lookup :
      (c : Cache K V) (now later : ℕ) (key q : K)
      → IsValid c
      → now ≤ later
      → unexpired later (find q (lookup c now key).0.values) ≡ unexpired later (find q c.values)
  unfolding lookup
  unexpired-lookup c now later key q v h = elim (Option-cases (find key c.values)) [
    | inl missed ↦ rw (missed, lookup) refl
    | inr ((t, x), found) ↦ elim (Bool-cases (leb t now)) [
      | inl old ↦
          rw (found, lookup)
            (rw old
              (unexpired-remove now later key q t x c.values v.distinct found (ground arith) h))
      | inr fresh ↦
          rw (found, lookup) (rw fresh (rw (find-move_to_end key q c.values v.distinct) refl))
    ]
  ]

  -- Reading one key of a valid cache, at any time, changes nothing that any later read returns,
  -- its own key included.
  pub lookup-lookup :
      (c : Cache K V) (now later : ℕ) (key q : K)
      → IsValid c
      → now ≤ later
      → (lookup (lookup c now key).0 later q).1 ≡ (lookup c later q).1
  lookup-lookup c now later key q v h =
      lookup-unexpired (lookup c now key).0 later q
      ∙ unexpired-lookup c now later key q v h
      ∙ sym (lookup-unexpired c later q)

  -- `set` keeps the entries that have not expired, in their order and without an older one of the
  -- key, puts the new one last, and drops the least recently used ones that do not fit.
  pub set_values :
      (c : Cache K V) (now : ℕ) (key : K) (value : V)
      → let all = remove key (live now c.values) ++ ((key, (now + c.ttl, value)) ∷ []) in
        (set c now key value).values ≡ drop (length all - c.maxsize) all
  unfolding set
  set_values c now key value =
      rw (move_to_end-assign key (now + c.ttl, value) (live now c.values)) (evict-drop c.maxsize _)

  find-drop_last :
      (n : ℕ) (key : K) (x : ℕ × V) (xs : List (Entry K V))
      → n ≤ length xs
      → find key xs ≡ none
      → find key (drop n (xs ++ ((key, x) ∷ []))) ≡ some x
  unfolding find
  find-drop_last zero key x [] h m = ground (arith, e.beq_iff key key)
  find-drop_last zero key x ((k, y) ∷ xs) h m = ground (arith, find-drop_last zero key x xs)
  find-drop_last (suc n) key x [] h m = absurd (omega arith)
  find-drop_last (suc n) key x ((k, y) ∷ xs) h m =
      find-drop_last n key x xs (omega arith) (ground arith)

  -- On a valid cache a stored value is read back until its time to live is over, and not after.
  pub lookup-set_self :
      (c : Cache K V) (now later : ℕ) (key : K) (value : V)
      → IsValid c
      → (lookup (set c now key value) later key).1
        ≡ (if leb (now + c.ttl) later then none else some value)
  lookup-set_self c now later key value v =
      lookup-unexpired (set c now key value) later key
      ∙ rw (set_values c now key value) (
          rw
            (find-drop_last
              (length (remove key (live now c.values) ++ ((key, (now + c.ttl, value)) ∷ []))
                - c.maxsize)
              key (now + c.ttl, value) (remove key (live now c.values))
              (omega (
                arith,
                v.positive,
                length-append {ℓ} (remove key (live now c.values))
                    ((key, (now + c.ttl, value)) ∷ []),
              ))
              (find-remove_self key _ (live-Distinct now c.values v.distinct)))
            refl)

  -- As long as the live entries and the new one fit in a valid cache, storing a key changes
  -- nothing that is read under another key, then or later.
  pub lookup-set_ne :
      (c : Cache K V) (now later : ℕ) (key q : K) (value : V)
      → IsValid c
      → (key == q) ≡ false
      → now ≤ later
      → length (remove key (live now c.values)) + 1 ≤ c.maxsize
      → (lookup (set c now key value) later q).1 ≡ (lookup c later q).1
  unfolding find
  lookup-set_ne c now later key q value v other h room =
      let kept = live now c.values in
      let whole : length (remove key kept ++ ((key, (now + c.ttl, value)) ∷ [])) - c.maxsize ≡ 0 =
        omega (arith, length-append {ℓ} (remove key kept) ((key, (now + c.ttl, value)) ∷ [])) in
      lookup-unexpired (set c now key value) later q
      ∙ rw (set_values c now key value) (
          rw whole (
            rw (find-append q (remove key kept) ((key, (now + c.ttl, value)) ∷ [])) (
              rw (find-remove_ne key q kept other, lookup-unexpired c later q)
                (ground (arith, find-append q (remove key kept) [], e.beq_iff key q)
                  ∙ unexpired-live now later q c.values v.distinct h))))
