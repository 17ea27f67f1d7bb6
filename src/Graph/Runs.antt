-- ===== src/Graph/Runs.antt =====
-- What a run of statements keeps, whichever of them fail, and what it does where none fails.
use cat_graphrag.Prelude.{
  List, [], ◌∷◌, ◌++◌, ◌≡◌, sym, ap, ◌∙◌, Option, none, some, Outcome, ok, raised, Exec, continue,
  pure, ◌>>=◌, for_each, arith, length, concat,
}
use cat_graphrag.Prelude.Slices.{slices, concat-slices}
use cat_graphrag.Batches.{Failure, chunk_ids, delete_in_batches, delete_batch_max_items}
use cat_graphrag.Graph.{Store, after_fault, query, statement}
use cat_graphrag.Deletion.{delete_each}

-- A run takes each graph to one that stands in `R` to it, also where it raises.
abbrev pub Within :
    {T G E A : Type 0} → (G → G → Type 0) → Exec (Store T G E) (Failure E) A → Type 0
Within {T = T} {G = G} {E = E} R m = (s : Store T G E) → R s.graph (m s).1.graph

module _ {T G E : Type 0} (R : G → G → Type 0) (same : (g : G) → R g g)
    (chain : (g h k : G) → R g h → R h k → R g k) where
  pub query-Within : {A : Type 0} (f : G → A) → Within {T = T} {E = E} R (query f)
  query-Within f s = at s.faults s
    where
      at :
          (faults : List (Option E)) (s : Store T G E)
          → R s.graph (after_fault faults (f s.graph) s.graph s).1.graph
      at [] s = same s.graph
      at (none ∷ _) s = same s.graph
      at (some _ ∷ _) s = same s.graph

  pub statement-Within :
      (f : G → G) → ((g : G) → R g (f g)) → Within {T = T} {E = E} R (statement f)
  statement-Within f step s = at s.faults s
    where
      at :
          (faults : List (Option E)) (s : Store T G E)
          → R s.graph (after_fault faults tt (f s.graph) s).1.graph
      at [] s = step s.graph
      at (none ∷ _) s = step s.graph
      at (some _ ∷ _) s = same s.graph

  continue-Within :
      {A B : Type 0} (g : G) (f : A → Exec (Store T G E) (Failure E) B)
      → ((a : A) → Within R (f a))
      → (r : Outcome (Failure E) A × Store T G E) → R g r.1.graph
      → R g (continue r.0 f r.1).1.graph
  continue-Within g f k (ok a, s') e = chain g s'.graph (f a s').1.graph e (k a s')
  continue-Within g f k (raised x, s') e = e

  pub bind-Within :
      {A B : Type 0} (m : Exec (Store T G E) (Failure E) A)
      (f : A → Exec (Store T G E) (Failure E) B)
      → Within R m
      → ((a : A) → Within R (f a))
      → Within R (m >>= f)
  bind-Within m f h k s = continue-Within s.graph f k (m s) (h s)

  pub for_each-Within :
      {A : Type 0} (body : A → Exec (Store T G E) (Failure E) (Unit {0})) (xs : List A)
      → ((a : A) → Within R (body a))
      → Within R (for_each body xs)
  unfolding for_each
  for_each-Within body [] h = λ s. same s.graph
  for_each-Within body (x ∷ xs) h =
      bind-Within (body x) (λ _. for_each body xs) (h x) (λ _. for_each-Within body xs h)

  pub delete_each-Within :
      {A : Type 0} (ids : List A) (f : List A → G → G)
      → ((batch : List A) (g : G) → R g (f batch g))
      → Within {T = T} {E = E} R (delete_each ids f)
  unfolding delete_each delete_in_batches
  delete_each-Within ids f step =
      bind-Within (for_each (λ batch. statement (f batch)) (slices delete_batch_max_items ids))
        (λ _. pure (length (slices delete_batch_max_items ids)))
        (for_each-Within (λ batch. statement (f batch)) (slices delete_batch_max_items ids)
          (λ batch. statement-Within (f batch) (step batch)))
        (λ _ s. same s.graph)

-- Nothing is deleted for no ids, and one batch after another deletes what all together do.
pub record Splits {A G : Type 0} (f : List A → G → G) : Type 0 where
  pub at_nil : (g : G) → f [] g ≡ g
  pub at_append : (xs ys : List A) (g : G) → f (xs ++ ys) g ≡ f ys (f xs g)

-- A store whose statements to come all succeed.
abbrev pub calm : {T G E : Type 0} → T → G → Store T G E
calm t g = record { tasks = t; graph = g; faults = [] }

module _ {T G E A : Type 0} (f : List A → G → G) (splits : Splits f) where
  for_each-Splits :
      (batches : List (List A)) (t : T) (g : G)
      → for_each (λ batch. statement (f batch)) batches (calm {E = E} t g)
        ≡ (ok tt, calm t (f (concat batches) g))
  unfolding for_each
  for_each-Splits [] t g = ap (λ h. (ok tt, calm t h)) (sym (splits.at_nil g))
  for_each-Splits (b ∷ bs) t g =
      for_each-Splits bs t (f b g)
      ∙ ap (λ h. (ok tt, calm t h)) (sym (splits.at_append b (concat bs) g))

  -- Where no statement fails, a batched deletion is the deletion of all at once.
  pub delete_each-Splits :
      (ids : List A) (t : T) (g : G)
      → delete_each ids f (calm {E = E} t g)
        ≡ (ok (length (slices delete_batch_max_items ids)), calm t (f ids g))
  unfolding delete_each delete_in_batches chunk_ids
  delete_each-Splits ids t g =
      let batches = slices delete_batch_max_items ids in
      ap
        (λ (r : Outcome (Failure E) (Unit {0}) × Store T G E).
          continue r.0 (λ _. pure (length batches)) r.1)
        (for_each-Splits batches t g)
      ∙ ap (λ l. (ok (length batches), calm t (f l g)))
          (concat-slices delete_batch_max_items ids (omega arith))
