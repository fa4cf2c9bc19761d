-- ===== src/Core/BoundedCache.antt =====
-- app/core/bounded_cache.py: `BoundedTTLCache`, an OrderedDict from the least to the most recently
-- used key, each entry with the time at which it expires. The clock is an argument, in ticks.
pub mod Entries
pub mod Validity
pub mod Reads
use infra_scope.Common.{
  ℕ, ◌+◌, Bool, true, false, Option, none, some, List, [], ◌∷◌, ltb, leb, length, if◌then◌else◌, Eq,
}
use Entries.{Entry, find, remove, assign, move_to_end, evict, live}

pub record Cache {ℓ} (K V : Type ℓ) : Type ℓ where
  pub maxsize : ℕ
  pub ttl : ℕ
  pub values : List (Entry K V)

-- `none` is the `ValueError` of the constructor.
unfoldable pub init {ℓ} : {K V : Type ℓ} → ℕ → ℕ → Option (Cache K V)
init maxsize ttl =
    if ltb maxsize 1
    then none
    else if leb ttl 0
    then none
    else some (record { maxsize = maxsize; ttl = ttl; values = [] })

module _ {ℓ} {K V : Type ℓ} ⦃e : Eq K⦄ where
  -- `(False, None)` is `none`, `(True, value)` is `some value`.
  unfoldable pub lookup : Cache K V → ℕ → K → Cache K V × Option V
  lookup c now key = elim (find key c.values) [
    | none ↦ (c, none)
    | some (expires_at, value) ↦
        if leb expires_at now
        then (record c { values = remove key c.values }, none)
        else (record c { values = move_to_end key c.values }, some value)
  ]

  unfoldable pub set : Cache K V → ℕ → K → V → Cache K V
  set c now key value = record c {
    values =
        evict c.maxsize (move_to_end key (assign key (now + c.ttl, value) (live now c.values)));
  }

  unfoldable pub clear : Cache K V → Cache K V
  clear c = record c { values = [] }

  -- `__len__`
  unfoldable pub size : Cache K V → ℕ → Cache K V × ℕ
  size c now = let kept = live now c.values in (record c { values = kept }, length kept)
