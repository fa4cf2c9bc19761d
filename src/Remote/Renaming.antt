-- ===== src/Remote/Renaming.antt =====
-- The runs of app/domains/remote_access/service/ that leave all names as they are.
use mathlib.Core.Option.{none-ne-some, some-injective}
use infra_scope.Common.{
  ℕ, ◌≡◌, refl, sym, ap, ◌∙◌, subst, Bool, not, ◌&&◌, Option, none, some, List, [], ◌∷◌, map,
  String, if◌then◌else◌, ◌==◌, nat_eq, keep,
}
use infra_scope.Remote.Device.{Str, RemoteAccessDevice, preset}
use infra_scope.Remote.Rows.{
  Table, update, apply_deploy_profile, with_preset, with_profile, delete_device, forgotten,
}
use infra_scope.Remote.Mirror.{Released, release_each, unlinked}
use infra_scope.Remote.Deployment.{Report, report_to, reported}
use infra_scope.Remote.Sync.{applied_or}
use infra_scope.Remote.AddressBook.{
  Book, Listed, counts, pushed_row, is_target, rechecked, is_stale_row, push_shared_address_book,
  sync_stale_address_book,
}
use infra_scope.Remote.Kept.{core→name}
use infra_scope.Remote.Requests.{
  core-pushed_if, core-rechecked, core-reported, core-with_profile, core-unlinked, name-forgotten,
}
use infra_scope.Remote.Names.{names, Distinct, names-map, names-update}

module _ (py : Str) where
  -- A table with the names that it had.
  pub same_names :
      (rows rows' : Table)
      → names py rows' ≡ names py rows
      → Distinct (names py rows)
      → Distinct (names py rows')
  same_names rows rows' e d = subst Distinct (sym e) d

  pub names-push :
      (now : ℕ) (default : String) (book : Book) (chosen : RemoteAccessDevice → Bool) (rows : Table)
      → names py (push_shared_address_book py now default book chosen rows).0 ≡ names py rows
  unfolding push_shared_address_book
  names-push now default book chosen rows =
      let count = counts py book (keep (λ dev. chosen dev && is_target dev) rows) in
      names-map py
        (λ dev.
          if chosen dev && is_target dev
          then pushed_row py now book (not (count.created == 0)) dev
          else dev)
        rows
        (λ dev.
          core→name
            (if chosen dev && is_target dev
              then pushed_row py now book (not (count.created == 0)) dev
              else dev)
            dev
            (core-pushed_if py now book (chosen dev && is_target dev) (not (count.created == 0))
              dev))

  pub names-rebooked :
      (now : ℕ) (default : String) (live : Listed) (book : Book) (rows : Table)
      → names py (sync_stale_address_book py now default live book rows).0 ≡ names py rows
  unfolding sync_stale_address_book
  names-rebooked now default live book rows =
      names-push now default book is_stale_row (map (rechecked live) rows)
      ∙ names-map py (rechecked live) rows
          (λ dev. core→name (rechecked live dev) dev (core-rechecked live dev))

  pub names-report_to :
      (cut : String → String) (now : ℕ) (report : Report) (rows rows' : Table)
      (found : Option RemoteAccessDevice)
      → report_to py cut now report rows found ≡ some rows'
      → names py rows' ≡ names py rows
  names-report_to cut now report rows rows' none e = absurd (none-ne-some rows' e)
  names-report_to cut now report rows rows' (some dev) e =
      ap (names py) (sym (some-injective (update dev.id (reported py cut now report) rows) rows' e))
      ∙ names-update py dev.id (reported py cut now report) rows
          (λ d. core→name (reported py cut now report d) d (core-reported py cut now report d))

  pub names-with_preset :
      (now id : ℕ) (profile : String) (rows rows' : Table) (flag : Option Bool)
      → with_preset now id profile rows flag ≡ some rows'
      → names py rows' ≡ names py rows
  names-with_preset now id profile rows rows' none e = absurd (none-ne-some rows' e)
  names-with_preset now id profile rows rows' (some flag) e =
      ap (names py) (sym (some-injective (update id (with_profile now profile flag) rows) rows' e))
      ∙ names-update py id (with_profile now profile flag) rows (λ d.
        core→name (with_profile now profile flag d) d (core-with_profile now profile flag d))

  pub names-applied :
      (now id : ℕ) (profile : String) (rows : Table) (applied : Option Table)
      → apply_deploy_profile now id profile rows ≡ applied
      → names py (applied_or rows applied).0 ≡ names py rows
  unfolding apply_deploy_profile
  names-applied now id profile rows none e = refl
  names-applied now id profile rows (some applied) e =
      names-with_preset now id profile rows applied (preset profile) e

  pub names-deleted :
      (now : ℕ) (dev : RemoteAccessDevice) (rows : Table)
      → names py (delete_device now dev rows).0 ≡ names py rows
  unfolding delete_device
  names-deleted now dev rows = names-update py dev.id (forgotten now) rows (name-forgotten now)

  pub names-released :
      (now : ℕ) (gone : Released) (devices : List RemoteAccessDevice) (rows : Table)
      → names py (release_each now gone devices rows).0 ≡ names py rows
  unfolding release_each
  names-released now gone [] rows = refl
  names-released now gone (dev ∷ devices) rows =
      names-released now gone devices (update dev.id (unlinked gone) (delete_device now dev rows).0)
      ∙ names-update py dev.id (unlinked gone) (delete_device now dev rows).0
          (λ d. core→name (unlinked gone d) d (core-unlinked gone d))
      ∙ names-deleted now dev rows
