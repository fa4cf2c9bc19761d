-- ===== src/Tests/CacheTests.antt =====
-- Runs of the cache of app/core/bounded_cache.py.
use infra_scope.Common.{
  ℕ, ◌+◌, ◌-◌, ◌≤◌, none, some, [], ◌∷◌, ◌++◌, leb, length, drop, if◌then◌else◌, nat_eq, arith, ◌≡◌,
  refl,
}
use infra_scope.Core.BoundedCache.{Cache, lookup, set, clear, size}
use infra_scope.Core.BoundedCache.Entries.{remove, live, find}
use infra_scope.Core.BoundedCache.Validity.{IsValid, operations-IsValid}
use infra_scope.Core.BoundedCache.Reads.{lookup-lookup, set_values, lookup-set_self, lookup-set_ne}

-- Two entries, the first of which expires at 5.
abbrev two_entries : Cache ℕ ℕ
two_entries = record { maxsize = 2; ttl = 10; values = (1, (5, 100)) ∷ (2, (12, 200)) ∷ [] }

two_entries-IsValid : IsValid two_entries
unfolding find
two_entries-IsValid = record {
  positive = omega arith;
  bounded = omega arith;
  distinct = (refl, (refl, tt));
}

operations-IsValid_example :
    IsValid (lookup two_entries 6 3).0
    × IsValid (set two_entries 6 3 300)
    × IsValid (clear two_entries)
    × IsValid (size two_entries 6).0
    × ((size two_entries 6).1 ≤ two_entries.maxsize)
operations-IsValid_example = operations-IsValid two_entries two_entries-IsValid 6 3 300

lookup-lookup_example : (lookup (lookup two_entries 6 1).0 7 2).1 ≡ (lookup two_entries 7 2).1
lookup-lookup_example = lookup-lookup two_entries 6 7 1 2 two_entries-IsValid (omega arith)

set_values_example :
    let all = remove 3 (live 4 two_entries.values) ++ ((3, (4 + two_entries.ttl, 300)) ∷ []) in
    (set two_entries 4 3 300).values ≡ drop (length all - two_entries.maxsize) all
set_values_example = set_values two_entries 4 3 300

lookup-set_self_example :
    (lookup (set two_entries 4 3 300) 9 3).1
    ≡ (if leb (4 + two_entries.ttl) 9 then none else some 300)
lookup-set_self_example = lookup-set_self two_entries 4 9 3 300 two_entries-IsValid

lookup-set_ne_example : (lookup (set two_entries 6 3 300) 7 2).1 ≡ (lookup two_entries 7 2).1
unfolding remove live
lookup-set_ne_example =
    lookup-set_ne two_entries 6 7 3 2 300 two_entries-IsValid refl (omega arith) (omega arith)
