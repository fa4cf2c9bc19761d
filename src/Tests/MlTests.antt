-- ===== src/Tests/MlTests.antt =====
-- Runs of app/ml/retention.py.
use infra_scope.Common.{
  ℕ, ◌-◌, ◌*◌, some, List, [], ◌∷◌, length, if◌then◌else◌, ◌==◌, nat_eq, arith, ◌≡◌, refl,
}
use infra_scope.Ml.Retention.{MlFeatureSnapshot, prune_feature_snapshots, old_ids, day}
use infra_scope.Ml.Pruning.{AreKeyed, recent, prune_feature_snapshots_lem, has_row}

abbrev snapshots : List MlFeatureSnapshot
snapshots =
    record { id = 1; captured_at = 10 }
    ∷ record { id = 2; captured_at = 900000 }
    ∷ record { id = 3; captured_at = 20 }
    ∷ record { id = 4; captured_at = 30 }
    ∷ []

snapshots-AreKeyed : AreKeyed snapshots
unfolding has_row
snapshots-AreKeyed = (refl, (refl, (refl, (refl, tt))))

prune_feature_snapshots_lem_example :
    let cutoff = 950000 - 5 * day in
    prune_feature_snapshots 950000 5 2 snapshots ≡ (
      if ◌==◌ {Key = ℕ} 5 0
      then some (snapshots, 0)
      else some (recent cutoff snapshots, length (old_ids cutoff snapshots)))
prune_feature_snapshots_lem_example =
    prune_feature_snapshots_lem 950000 5 2 snapshots (omega arith) snapshots-AreKeyed
