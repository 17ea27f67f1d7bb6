-- ===== src/Batches/Laws.antt =====
-- What `chunk_ids` and `delete_in_batches` of batched_delete.py guarantee.
use cat_graphrag.Prelude.{
  ℕ, ◌+◌, ◌*◌, ◌≤◌, ◌<◌, ◌≡◌, refl, sym, ap, ◌∙◌, ◌⊎◌, inl, inr, List, [], ◌∷◌, ◌++◌, arith, length,
  concat, concat-append, All, All-append, Outcome, ok, raised, Exec, continue, pure, ◌>>◌, for_each,
  logged, Called, all, stopped, for_each-Called, append_assoc, append-nil,
}
use cat_graphrag.Prelude.Slices.{slices, concat-slices, All-Fits-slices, length-slices}
use cat_graphrag.Batches.{Failure, too_small, over_guard, chunk_ids, delete_in_batches}

module _ {E A : Type 0} where
  -- For `max_items` from 1 to 100, `chunk_ids` returns batches that put together are the ids in
  -- their order, none of them empty and none longer than `max_items`, and as few as that allows.
  pub chunk_ids_partition :
      (ids : List A) (max_items : ℕ)
      → 0 < max_items
      → max_items ≤ 100
      → (batches : List (List A)) × (chunk_ids {E = E} ids max_items ≡ ok batches)
        × (concat batches ≡ ids)
        × All (λ batch. (0 < length batch) × (length batch ≤ max_items)) batches
        × (length ids ≤ length batches * max_items)
        × (length batches * max_items < length ids + max_items)
  unfolding chunk_ids
  chunk_ids_partition ids max_items pos small =
      let (enough, few) = length-slices max_items ids pos in
      (
        slices max_items ids,
        ground arith,
        concat-slices max_items ids pos,
        All-Fits-slices max_items ids pos,
        enough,
        few,
      )

-- What the calls of `delete_batch` have covered when the loop ends: all the ids in order, one call
-- for each transaction counted, or else the ids up to the end of the batch that raised.
pub data Covers {E A : Type 0} (ids : List A) (calls : List (List A))
    : Outcome (Failure E) ℕ → Type 0 where
  every : concat calls ≡ ids → Covers ids calls (ok (length calls))
  part : {e : Failure E} (rest : List A) → concat calls ++ rest ≡ ids → Covers ids calls (raised e)

module _ {S E A : Type 0} (delete_batch : List A → Exec S (Failure E) (Unit {0})) where
  -- With `max_items` outside 1..100 `delete_in_batches` raises, and nothing is deleted: the state is
  -- as it was and no batch was passed to the callback.
  pub delete_in_batches_refuses :
      (ids : List A) (max_items : ℕ) (s : S)
      → (max_items ≡ 0) ⊎ (100 < max_items)
      → (e : Failure E) × (delete_in_batches ids (logged delete_batch) max_items (s, [])
          ≡ (raised e, (s, [])))
  unfolding delete_in_batches
  delete_in_batches_refuses ids max_items s (inl zero_items) = (too_small, ground arith)
  delete_in_batches_refuses ids max_items s (inr many) = (over_guard max_items, ground arith)

  abbrev Bounded : ℕ → List (List A) → Type 0
  Bounded max_items = All (λ batch. (0 < length batch) × (length batch ≤ max_items))

  All-split : (P : List A → Type 0) (xs ys : List (List A)) → All P (xs ++ ys) → All P xs × All P ys
  All-split P [] ys h = (tt, h)
  All-split P (x ∷ xs) ys h = let (a, b) = All-split P xs ys h.1 in ((h.0, a), b)

  covered :
      (max_items : ℕ) (ids : List A) (batches calls : List (List A)) (s' : S × List (List A))
      → concat batches ≡ ids
      → Bounded max_items batches
      → (r : Outcome (Failure E) (Unit {0})) → Called batches calls r
      → Covers ids calls (continue r (λ _ s''. (ok (length batches), s'')) s').0
        × Bounded max_items calls
  covered m ids batches calls s' e b r (all q) = rw q (every e, b)
  covered m ids batches calls s' e b r (stopped before x after p q) =
      let whole : concat (before ++ x ∷ []) ++ concat after ≡ ids =
        simp (concat-append, append_assoc, append-nil)
          (sym (concat-append before (x ∷ after)) ∙ ap concat (sym p) ∙ e) in
      let fit : Bounded m (before ++ x ∷ after) = rw (← p) b in
      let fits = All-split _ before (x ∷ after) fit in
      rw q (part (concat after) whole, All-append _ before (x ∷ []) fits.0 (fits.1.0, tt))

  counted :
      (n : ℕ) (m : Outcome (Failure E) (Unit {0}) × (S × List (List A)))
      → (continue m.0 (λ _ s''. (ok n, s'')) m.1).1 ≡ m.1
  counted n (ok _, s') = refl
  counted n (raised e, s') = refl

  run :
      (ids : List A) (max_items : ℕ) (s : S × List (List A))
      → 0 < max_items
      → max_items ≤ 100
      → delete_in_batches ids (logged delete_batch) max_items s
        ≡ (for_each (logged delete_batch) (slices max_items ids)
              >> pure (length (slices max_items ids)))
            s
  unfolding delete_in_batches
  run ids max_items s pos small = ground arith

  -- With `max_items` from 1 to 100, whatever the callback does: if `delete_in_batches` returns, the
  -- callback was called once for each transaction that is counted, and the batches are the ids in
  -- order; if it raises, they are the ids up to the end of the batch that failed, and no later batch
  -- was tried. No batch is empty or longer than `max_items`.
  pub delete_in_batches-Covers :
      (ids : List A) (max_items : ℕ) (s : S)
      → 0 < max_items
      → max_items ≤ 100
      → (calls : List (List A)) × ((delete_in_batches ids
            (logged delete_batch)
            max_items
            (s, [])).1.1
          ≡ calls)
        × Covers ids calls (delete_in_batches ids (logged delete_batch) max_items (s, [])).0
        × All (λ batch. (0 < length batch) × (length batch ≤ max_items)) calls
  delete_in_batches-Covers ids max_items s pos small =
      let batches = slices max_items ids in
      let m = for_each (logged delete_batch) batches (s, []) in
      let (calls, kept, called) = for_each-Called delete_batch batches s [] in
      let (covers, bounded) =
        covered max_items ids batches calls m.1 (concat-slices max_items ids pos)
          (All-Fits-slices max_items ids pos) m.0 called in
      rw (run ids max_items (s, []) pos small) (
        calls,
        ap (λ (t : S × List (List A)). t.1) (counted (length batches) m) ∙ kept,
        covers,
        bounded,
      )
