-- ===== src/Ml/Retention.antt =====
-- app/ml/retention.py: old snapshots are deleted in batches, superseded models by family. The
-- queries read the tables in order; the models of a family are given as its query returns them,
-- the latest trained first.
use infra_scope.Common.{
  ℕ, zero, suc, ◌+◌, ◌-◌, ◌*◌, Bool, false, ◌||◌, Option, none, some, List, [], ◌∷◌, ◌++◌, String,
  ltb, leb, if◌then◌else◌, ◌==◌, nat_eq, string_eq, length, take, map,
}

pub record MlFeatureSnapshot : Type 0 where
  pub id : ℕ
  pub captured_at : ℕ

-- The ids of the rows before the cutoff, as many as the limit allows.
unfoldable pub old_ids : ℕ → List MlFeatureSnapshot → List ℕ
old_ids cutoff [] = []
old_ids cutoff (row ∷ rows) =
    if ltb row.captured_at cutoff then row.id ∷ old_ids cutoff rows else old_ids cutoff rows

unfoldable pub has_id : ℕ → List ℕ → Bool
has_id i [] = false
has_id i (j ∷ ids) = j == i || has_id i ids

-- DELETE ... WHERE id IN ids
unfoldable pub delete_ids : List ℕ → List MlFeatureSnapshot → List MlFeatureSnapshot
unfolding has_id
delete_ids ids [] = []
delete_ids ids (row ∷ rows) =
    if has_id row.id ids then delete_ids ids rows else row ∷ delete_ids ids rows

-- The `while True` loop, from a total; the rows and the total where it breaks, none where it has
-- not done so in the given number of rounds.
unfoldable pub prune_batches :
    ℕ → ℕ → ℕ → List MlFeatureSnapshot → ℕ → Option (List MlFeatureSnapshot × ℕ)
unfolding old_ids delete_ids
prune_batches zero cutoff batch_size rows total = none
prune_batches (suc fuel) cutoff batch_size rows total =
    let batch_ids = take batch_size (old_ids cutoff rows) in
    let rows' = delete_ids batch_ids rows in
    let total' = total + length batch_ids in
    let rest = prune_batches fuel cutoff batch_size rows' total' in
    if length batch_ids == 0
    then some (rows, total)
    else if ltb (length batch_ids) batch_size
    then some (rows', total')
    else rest

abbrev pub day : ℕ
day = 86400

-- Every round but the last deletes a row, so there are enough rounds.
unfoldable pub prune_feature_snapshots :
    ℕ → ℕ → ℕ → List MlFeatureSnapshot → Option (List MlFeatureSnapshot × ℕ)
unfolding prune_batches
prune_feature_snapshots now retention_days batch_size rows =
    if leb retention_days 0
    then some (rows, 0)
    else prune_batches (length rows + 1) (now - retention_days * day) batch_size rows 0

pub record MlModel : Type 0 where
  pub id : ℕ
  pub model_family : String
  pub is_active : Bool

abbrev pub model_id : MlModel → ℕ
model_id row = row.id

-- The ids of the active rows.
unfoldable pub active_ids : List MlModel → List ℕ
active_ids [] = []
active_ids (row ∷ rows) = if row.is_active then row.id ∷ active_ids rows else active_ids rows

-- The rows of a family that stay, and the number of the others.
unfoldable pub keep_rows : List ℕ → List MlModel → List MlModel × ℕ
unfolding has_id
keep_rows keep_ids [] = ([], 0)
keep_rows keep_ids (row ∷ rows) =
    let (kept, deleted) = keep_rows keep_ids rows in
    if has_id row.id keep_ids then (row ∷ kept, deleted) else (kept, deleted + 1)

-- One family's round of `prune_model_registry`.
unfoldable pub prune_family : ℕ → List MlModel → List MlModel × ℕ
unfolding active_ids keep_rows
prune_family keep_per_family rows =
    keep_rows (map model_id (take keep_per_family rows) ++ active_ids rows) rows

-- The families in turn.
unfoldable pub prune_families : ℕ → List (List MlModel) → List (List MlModel) × ℕ
unfolding prune_family
prune_families keep_per_family [] = ([], 0)
prune_families keep_per_family (rows ∷ families) =
    let (kept, deleted) = prune_family keep_per_family rows in
    let (rest, n) = prune_families keep_per_family families in (kept ∷ rest, deleted + n)

unfoldable pub prune_model_registry : ℕ → List (List MlModel) → List (List MlModel) × ℕ
unfolding prune_families
prune_model_registry keep_per_family families =
    if leb keep_per_family 0 then (families, 0) else prune_families keep_per_family families
