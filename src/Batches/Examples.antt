-- ===== src/Batches/Examples.antt =====
-- Tests and instances for batched_delete.py.
use cat_graphrag.Prelude.{
  ℕ, ◌+◌, ◌≤◌, ◌<◌, ◌≡◌, refl, List, [], ◌∷◌, arith, length, All, ok, raised, Exec, logged,
  for_each, if◌then◌else◌, ◌==◌,
}
use cat_graphrag.Prelude.Slices.{slices}
use cat_graphrag.Batches.{Failure, callback, chunk_ids, delete_in_batches}
use cat_graphrag.Batches.Laws.{Covers, delete_in_batches-Covers}

abbrev ids : List ℕ
ids = 10 ∷ 11 ∷ 12 ∷ 13 ∷ 14 ∷ []

three_batches : chunk_ids {E = ℕ} ids 2 ≡ ok ((10 ∷ 11 ∷ []) ∷ (12 ∷ 13 ∷ []) ∷ (14 ∷ []) ∷ [])
unfolding chunk_ids slices
three_batches = refl

-- A store that refuses to delete the batch that begins with 12.
abbrev refuse_12 : List ℕ → Exec ℕ (Failure ℕ) (Unit {0})
refuse_12 [] n = (ok tt, n)
refuse_12 (x ∷ xs) n = if x == 12 then (raised (callback 7), n) else (ok tt, n + 1)

stops_at_second : delete_in_batches ids refuse_12 2 0 ≡ (raised (callback 7), 1)
unfolding delete_in_batches slices for_each
stops_at_second = refl

delete_in_batches-Covers_example :
    (calls : List (List ℕ)) × ((delete_in_batches ids (logged refuse_12) 2 (0, [])).1.1 ≡ calls)
    × Covers ids calls (delete_in_batches ids (logged refuse_12) 2 (0, [])).0
    × All (λ batch. (0 < length batch) × (length batch ≤ 2)) calls
delete_in_batches-Covers_example =
    delete_in_batches-Covers refuse_12 ids 2 0 (omega arith) (omega arith)
