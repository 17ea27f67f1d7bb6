-- ===== src/Batches.antt =====
-- batched_delete.py: a list of ids cut into bounded batches, deleted one batch after another.
-- `max_items` is a Python `int`; a negative one is refused like 0, so it is a natural number here.
pub mod Laws
mod Examples
use cat_graphrag.Prelude.{
  ℕ, suc, List, if◌then◌else◌, ltb, length, Outcome, ok, raised, Exec, pure, lift, ◌>>=◌, ◌>>◌,
  for_each,
}
use cat_graphrag.Prelude.Slices.{slices}

-- DELETE_BATCH_MAX_ITEMS
abbrev pub delete_batch_max_items : ℕ
delete_batch_max_items = 100

-- What is raised: one of the two `ValueError`s of `chunk_ids`, or an error of the callback.
pub data Failure (E : Type 0) : Type 0 where
  too_small : Failure E
  over_guard : ℕ → Failure E
  callback : E → Failure E

-- The errors `E` of a callback, with the two `ValueError`s of `chunk_ids`.
module _ {E A : Type 0} where
  unfoldable pub chunk_ids : List A → ℕ → Outcome (Failure E) (List (List A))
  chunk_ids ids max_items =
      if ltb max_items 1
      then raised too_small
      else if ltb delete_batch_max_items max_items
      then raised (over_guard max_items)
      else ok (slices max_items ids)

module _ {S E A : Type 0} where
  -- The number of transactions that were executed.
  unfoldable pub delete_in_batches :
      List A → (List A → Exec S (Failure E) (Unit {0})) → ℕ → Exec S (Failure E) ℕ
  unfolding chunk_ids
  delete_in_batches ids delete_batch max_items = do
    batches ← lift (chunk_ids ids max_items)
    for_each delete_batch batches
    pure (length batches)
