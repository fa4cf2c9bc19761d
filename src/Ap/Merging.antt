-- ===== src/Ap/Merging.antt =====
-- What the merged view of a scan shows: app/domains/inventory/ap_registry.py.
use infra_scope.Common.{
  ℕ, ◌+◌, ◌≡◌, refl, ap, Bool, false, not, ◌&&◌, ◌||◌, List, [], ◌∷◌, ◌++◌, String, leb,
  if◌then◌else◌, ◌==◌, nat_eq, string_eq, arith, Bool-cases, inl, inr, map,
}
use infra_scope.Ap.Registry.{ApInfo, MergedAccessPoint, Registry, first_by_mac}
use infra_scope.Ap.View.{
  is_live, live_entry, silent_entries, merge_live_and_known, stale_after_seconds,
}

-- The macs of the entries that respond, in order.
unfoldable pub responding_macs : List MergedAccessPoint → List String
responding_macs [] = []
responding_macs (e ∷ es) =
    if e.is_responding then e.mac_address ∷ responding_macs es else responding_macs es

-- Whether an entry of that mac does not respond.
unfoldable pub shows_silent : String → List MergedAccessPoint → Bool
shows_silent mac [] = false
shows_silent mac (e ∷ es) = (not e.is_responding && e.mac_address == mac) || shows_silent mac es

-- Whether a registry row of that mac was seen within the last seven days.
unfoldable pub seen_lately : String → ℕ → Registry → Bool
seen_lately mac now [] = false
seen_lately mac now (row ∷ rows) =
    (row.mac_address == mac && leb now (row.last_seen_at + stale_after_seconds))
    || seen_lately mac now rows

module _ (vlan now : ℕ) where
  responding-silent :
      (aps : List ApInfo) (rows : Registry)
      → responding_macs (silent_entries vlan now aps rows) ≡ []
  unfolding responding_macs silent_entries
  responding-silent aps [] = refl
  responding-silent aps (row ∷ rows) = ground (arith, responding-silent aps rows)

  responding-merge :
      (live aps : List ApInfo) (rows : Registry)
      → responding_macs (
          map (λ a. live_entry vlan now a (first_by_mac a.mac_address rows)) live
          ++ silent_entries vlan now aps rows)
        ≡ map (λ a. a.mac_address) live
  unfolding responding_macs live_entry
  responding-merge [] aps rows = responding-silent aps rows
  responding-merge (a ∷ live) aps rows = rw (responding-merge live aps rows) refl

  shows-silent :
      (mac : String) (aps : List ApInfo) (rows : Registry)
      → shows_silent mac (silent_entries vlan now aps rows)
        ≡ (not (is_live mac aps) && seen_lately mac now rows)
  unfolding shows_silent silent_entries seen_lately
  shows-silent mac aps [] = ground arith
  shows-silent mac aps (row ∷ rows) = elim (Bool-cases (row.mac_address == mac)) [
    | inl same ↦
        let e : row.mac_address ≡ mac = (string_eq.beq_iff row.mac_address mac).0 same in
        ground (arith, shows-silent mac aps rows, ap (λ m. is_live m aps) e)
    | inr other ↦ ground (arith, shows-silent mac aps rows)
  ]

  shows-merge :
      (mac : String) (live aps : List ApInfo) (rows : Registry)
      → shows_silent mac (
          map (λ a. live_entry vlan now a (first_by_mac a.mac_address rows)) live
          ++ silent_entries vlan now aps rows)
        ≡ (not (is_live mac aps) && seen_lately mac now rows)
  unfolding shows_silent live_entry
  shows-merge mac [] aps rows = shows-silent mac aps rows
  shows-merge mac (a ∷ live) aps rows = shows-merge mac live aps rows

  -- The merged view shows the scanned access points as responding, all of them and in the order of
  -- the scan, and nothing else; and it shows an access point as silent exactly if the scan lacks
  -- it and the registry saw it within the last seven days.
  pub merge_lem :
      (aps : List ApInfo) (rows : Registry)
      → (responding_macs (merge_live_and_known vlan now aps rows) ≡ map (λ a. a.mac_address) aps)
        × ((mac : String)
            → shows_silent mac (merge_live_and_known vlan now aps rows)
              ≡ (not (is_live mac aps) && seen_lately mac now rows))
  unfolding merge_live_and_known
  merge_lem aps rows = (responding-merge aps aps rows, λ mac. shows-merge mac aps aps rows)
