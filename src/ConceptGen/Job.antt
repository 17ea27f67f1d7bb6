-- ===== src/ConceptGen/Job.antt =====
-- The job that recomputes the concepts of a tenant and flips its generation.
use cat_graphrag.Prelude.{◌≡◌, Exec, ◌⊎◌}
use cat_graphrag.Prelude.Keys.{Str, str_key}
use cat_graphrag.Prelude.Dict.{Dict, lookup, remove}
use cat_graphrag.Batches.{Failure}
use cat_graphrag.Graph.{Graph, Store}
use cat_graphrag.ConceptGen.{marker_of}

module _ {V W E : Type 0} (tenant : Str)
    (recompute : Str → Exec (Store (Dict Str Str) (Graph V W) E) (Failure E) (Unit {0})) where
  -- The pending generations of the second store are those of the first one, or what recomputing, any
  -- number of times, has made of them.
  pub data Reached (s : Store (Dict Str Str) (Graph V W) E)
      : Store (Dict Str Str) (Graph V W) E → Type 0 where
    here : Reached s s
    kept :
        {t u : Store (Dict Str Str) (Graph V W) E} → Reached s t → u.tasks ≡ t.tasks → Reached s u
    recomputed :
        {t : Store (Dict Str Str) (Graph V W) E} (pending : Str)
        → Reached s t
        → Reached s (recompute pending t).1

  -- What a job that found `s` itself does to the pending generations, beside recomputing: nothing; or
  -- the tenant's is dropped, and it is the generation that the tenant's marker then has.
  abbrev pub Settled :
      Store (Dict Str Str) (Graph V W) E → Store (Dict Str Str) (Graph V W) E → Type 0
  Settled s s' =
      (t : Store (Dict Str Str) (Graph V W) E) × Reached s t
      × ((s'.tasks ≡ t.tasks)
          ⊎ ((s'.tasks ≡ remove tenant t.tasks)
              × (marker_of tenant s'.graph.collections ≡ lookup tenant t.tasks)))
