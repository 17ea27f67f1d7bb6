-- ===== src/Bodies/Examples.antt =====
-- A spaCy phase without background tasks that extracts two chunks and writes them.
use cat_graphrag.Prelude.{ℕ, List, [], ◌∷◌, ◌≡◌, refl, true, Option, some, Outcome, ok, Exec}
use cat_graphrag.Prelude.Keys.{Str}
use cat_graphrag.Prelude.Texts.{codes}
use cat_graphrag.Drain.{Pending, Batch}
use cat_graphrag.Bodies.{Stored, finished, run_spacy_extraction_phase}
use cat_graphrag.Bodies.Laws.{
  Written, quiet_points, quiet_similar, run_spacy_extraction_phase-Written,
}
use cat_graphrag.Prelude.{logged}

abbrev chunk : Str → Stored ℕ ℕ
chunk text = record { id = text; vector = some 1; page_content = text; metadata = 0 }

abbrev points : Str → Exec ℕ ℕ (List (Str × List (Stored ℕ ℕ)))
points source w = (ok ((codes "c", chunk (codes "a") ∷ chunk (codes "b") ∷ []) ∷ []), w)

abbrev similar : Str → ℕ → Str → Exec ℕ ℕ (Unit {0})
similar id vector collection w = (ok tt, w)

abbrev extract_graph : Stored ℕ ℕ → Outcome ℕ (Option (Batch ℕ ℕ ℕ))
extract_graph p = ok (some (record { entities = 1 ∷ 2 ∷ []; mentions = []; relations = 3 ∷ [] }))

abbrev first : ℕ → List ℕ → ℕ
first e es = e

abbrev write : Batch ℕ ℕ ℕ → Exec ℕ ℕ (Unit {0})
write b w = (ok tt, w)

abbrev no_tasks : Pending ℕ ℕ ℕ
no_tasks = record { by_source = []; flat = [] }

six_items :
    (run_spacy_extraction_phase points
      (λ _. true)
      similar
      extract_graph
      first
      write
      true
      (codes "s")
      (no_tasks, 0)).0
    ≡ ok (finished (some 6))
unfolding run_spacy_extraction_phase
six_items = refl

run_spacy_extraction_phase_example :
    let m =
      run_spacy_extraction_phase
        (quiet_points points)
        (λ _. true)
        (quiet_similar similar)
        extract_graph
        first
        (logged write)
        true
        (codes "s")
        (no_tasks, (0, [])) in
    Written m.1.1.1 m.0
run_spacy_extraction_phase_example =
    run_spacy_extraction_phase-Written points (λ _. true) similar extract_graph first write true
      (codes "s") no_tasks 0
