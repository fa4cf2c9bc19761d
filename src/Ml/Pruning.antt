-- ===== src/Ml/Pruning.antt =====
-- What app/ml/retention.py leaves in the tables.
use infra_scope.Common.{
  ℕ, zero, suc, ◌+◌, ◌-◌, ◌*◌, ◌≤◌, ◌<◌, ◌≡◌, refl, ap, Bool, false, ◌||◌, some, List, [], ◌∷◌, ltb,
  if◌then◌else◌, ◌==◌, nat_eq, string_eq, length, length-take, take, arith, Bool-cases, inl, inr,
}
use infra_scope.Ml.Retention.{
  MlFeatureSnapshot, old_ids, has_id, delete_ids, prune_batches, prune_feature_snapshots, day,
}

-- The rows that are not before the cutoff.
unfoldable pub recent : ℕ → List MlFeatureSnapshot → List MlFeatureSnapshot
recent cutoff [] = []
recent cutoff (row ∷ rows) =
    if ltb row.captured_at cutoff then recent cutoff rows else row ∷ recent cutoff rows

-- No id twice.
unfoldable pub has_row : ℕ → List MlFeatureSnapshot → Bool
has_row i [] = false
has_row i (row ∷ rows) = row.id == i || has_row i rows

abbrev pub AreKeyed : List MlFeatureSnapshot → Type 0
AreKeyed [] = Unit
AreKeyed (row ∷ rows) = (has_row row.id rows ≡ false) × AreKeyed rows

-- The rows without the first `n` old ones.
drop_old : ℕ → ℕ → List MlFeatureSnapshot → List MlFeatureSnapshot
drop_old n cutoff [] = []
drop_old zero cutoff (row ∷ rows) = row ∷ rows
drop_old (suc n) cutoff (row ∷ rows) =
    if ltb row.captured_at cutoff
    then drop_old n cutoff rows
    else row ∷ drop_old (suc n) cutoff rows

-- Only ids of stored rows are listed.
has_id-take_old :
    (i n cutoff : ℕ) (rows : List MlFeatureSnapshot)
    → has_row i rows ≡ false
    → has_id i (take n (old_ids cutoff rows)) ≡ false
unfolding has_id old_ids has_row
has_id-take_old i zero cutoff rows f = refl
has_id-take_old i (suc n) cutoff [] f = refl
has_id-take_old i (suc n) cutoff (row ∷ rows) f =
    ground (arith, has_id-take_old i n cutoff rows, has_id-take_old i (suc n) cutoff rows)

delete_ids-other :
    (i : ℕ) (ids : List ℕ) (rows : List MlFeatureSnapshot)
    → has_row i rows ≡ false
    → delete_ids (i ∷ ids) rows ≡ delete_ids ids rows
unfolding delete_ids has_id has_row
delete_ids-other i ids [] f = refl
delete_ids-other i ids (row ∷ rows) f =
    ground (arith, delete_ids-other i ids rows, nat_eq.beq_iff i row.id, nat_eq.beq_iff row.id i)

delete_ids-nil : (rows : List MlFeatureSnapshot) → delete_ids [] rows ≡ rows
unfolding delete_ids has_id
delete_ids-nil [] = refl
delete_ids-nil (row ∷ rows) = ap (λ rs. row ∷ rs) (delete_ids-nil rows)

delete_ids-take_old :
    (n cutoff : ℕ) (rows : List MlFeatureSnapshot)
    → AreKeyed rows
    → delete_ids (take n (old_ids cutoff rows)) rows ≡ drop_old n cutoff rows
unfolding old_ids drop_old delete_ids has_id
delete_ids-take_old zero cutoff [] k = refl
delete_ids-take_old zero cutoff (row ∷ rows) k = delete_ids-nil (row ∷ rows)
delete_ids-take_old (suc n) cutoff [] k = refl
delete_ids-take_old (suc n) cutoff (row ∷ rows) k = ground (
  arith,
  delete_ids-take_old n cutoff rows k.1,
  delete_ids-take_old (suc n) cutoff rows k.1,
  delete_ids-other row.id (take n (old_ids cutoff rows)) rows k.0,
  has_id-take_old row.id (suc n) cutoff rows k.0,
  nat_eq.beq_iff row.id row.id,
)

drop_old-zero : (cutoff : ℕ) (rows : List MlFeatureSnapshot) → drop_old zero cutoff rows ≡ rows
unfolding drop_old
drop_old-zero cutoff [] = refl
drop_old-zero cutoff (row ∷ rows) = refl

recent_all :
    (cutoff : ℕ) (rows : List MlFeatureSnapshot)
    → length (old_ids cutoff rows) ≡ 0
    → recent cutoff rows ≡ rows
unfolding recent old_ids
recent_all cutoff [] e = refl
recent_all cutoff (row ∷ rows) e = ground (arith, recent_all cutoff rows)

drop_old-recent :
    (n cutoff : ℕ) (rows : List MlFeatureSnapshot)
    → length (old_ids cutoff rows) ≤ n
    → drop_old n cutoff rows ≡ recent cutoff rows
unfolding drop_old old_ids recent
drop_old-recent n cutoff [] h = refl
drop_old-recent zero cutoff (row ∷ rows) h =
    ground (arith, drop_old-recent zero cutoff rows, drop_old-zero cutoff rows)
drop_old-recent (suc n) cutoff (row ∷ rows) h =
    ground (arith, drop_old-recent n cutoff rows, drop_old-recent (suc n) cutoff rows)

recent-drop_old :
    (n cutoff : ℕ) (rows : List MlFeatureSnapshot)
    → recent cutoff (drop_old n cutoff rows) ≡ recent cutoff rows
unfolding drop_old recent
recent-drop_old n cutoff [] = refl
recent-drop_old zero cutoff (row ∷ rows) = refl
recent-drop_old (suc n) cutoff (row ∷ rows) =
    ground (arith, recent-drop_old n cutoff rows, recent-drop_old (suc n) cutoff rows)

length-drop_old :
    (n cutoff : ℕ) (rows : List MlFeatureSnapshot)
    → length (old_ids cutoff (drop_old n cutoff rows)) ≡ length (old_ids cutoff rows) - n
unfolding drop_old old_ids
length-drop_old n cutoff [] = omega arith
length-drop_old zero cutoff (row ∷ rows) = omega arith
length-drop_old (suc n) cutoff (row ∷ rows) =
    ground (arith, length-drop_old n cutoff rows, length-drop_old (suc n) cutoff rows)

has_row-drop_old :
    (i n cutoff : ℕ) (rows : List MlFeatureSnapshot)
    → has_row i rows ≡ false
    → has_row i (drop_old n cutoff rows) ≡ false
unfolding drop_old has_row
has_row-drop_old i n cutoff [] f = refl
has_row-drop_old i zero cutoff (row ∷ rows) f = f
has_row-drop_old i (suc n) cutoff (row ∷ rows) f =
    ground (arith, has_row-drop_old i n cutoff rows, has_row-drop_old i (suc n) cutoff rows)

drop_old-AreKeyed :
    (n cutoff : ℕ) (rows : List MlFeatureSnapshot)
    → AreKeyed rows
    → AreKeyed (drop_old n cutoff rows)
unfolding drop_old
drop_old-AreKeyed n cutoff [] k = tt
drop_old-AreKeyed zero cutoff (row ∷ rows) k = k
drop_old-AreKeyed (suc n) cutoff (row ∷ rows) k = elim (Bool-cases (ltb row.captured_at cutoff)) [
  | inl old ↦ rw old (drop_old-AreKeyed n cutoff rows k.1)
  | inr new ↦
      rw new
        (has_row-drop_old row.id (suc n) cutoff rows k.0, drop_old-AreKeyed (suc n) cutoff rows k.1)
]

length-old_ids :
    (cutoff : ℕ) (rows : List MlFeatureSnapshot) → length (old_ids cutoff rows) ≤ length rows
unfolding old_ids
length-old_ids cutoff [] = omega arith
length-old_ids cutoff (row ∷ rows) = ground (arith, length-old_ids cutoff rows)

prune_batches_lem :
    (fuel cutoff batch_size : ℕ) (rows : List MlFeatureSnapshot) (total : ℕ)
    → 1 ≤ batch_size
    → AreKeyed rows
    → length (old_ids cutoff rows) < fuel
    → prune_batches fuel cutoff batch_size rows total
      ≡ some (recent cutoff rows, total + length (old_ids cutoff rows))
unfolding prune_batches
prune_batches_lem zero cutoff batch_size rows total one k enough = absurd (omega arith)
prune_batches_lem (suc fuel) cutoff batch_size rows total one k enough =
    let old = old_ids cutoff rows in
    let rest = drop_old batch_size cutoff rows in
    let left = length-drop_old batch_size cutoff rows in
    rw (delete_ids-take_old batch_size cutoff rows k) (
      ground (
        arith,
        length-take batch_size old,
        drop_old-recent batch_size cutoff rows,
        recent_all cutoff rows,
        recent-drop_old batch_size cutoff rows,
        left,
        prune_batches_lem fuel cutoff batch_size rest (total + length (take batch_size old)) one
            (drop_old-AreKeyed batch_size cutoff rows k),
      ))

-- With batches of at least one row and no id twice, the loop ends by its own test within one
-- round more than there are rows, and what is left are exactly the rows that are not older than the retention, in their order; the number
-- returned is that of the others. A retention of 0 days deletes nothing.
pub prune_feature_snapshots_lem :
    (now retention_days batch_size : ℕ) (rows : List MlFeatureSnapshot)
    → 1 ≤ batch_size
    → AreKeyed rows
    → let cutoff = now - retention_days * day in
      prune_feature_snapshots now retention_days batch_size rows ≡ (
        if retention_days == 0
        then some (rows, 0)
        else some (recent cutoff rows, length (old_ids cutoff rows)))
unfolding prune_feature_snapshots
prune_feature_snapshots_lem now retention_days batch_size rows one k =
    let cutoff = now - retention_days * day in
    let small : length (old_ids cutoff rows) < length rows + 1 =
      omega (arith, length-old_ids cutoff rows) in
    ground (arith, prune_batches_lem (length rows + 1) cutoff batch_size rows 0 one k small)
