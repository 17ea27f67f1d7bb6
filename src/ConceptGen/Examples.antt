-- ===== src/ConceptGen/Examples.antt =====
-- Tests and instances for the concept generations of graphrag_handler.py and the job of main.py.
use cat_graphrag.Prelude.{ℕ, [], ◌∷◌, ◌≡◌, refl, true, false, Option, none, some, ok, Exec, map}
use cat_graphrag.Prelude.Keys.{Str, str_key}
use cat_graphrag.Prelude.Texts.{codes}
use cat_graphrag.Prelude.Dict.{Dict, put}
use cat_graphrag.Batches.{Failure}
use cat_graphrag.Graph.{CollectionNode, EntityNode, Graph, Store}
use cat_graphrag.Graph.Cypher.{detach_entities}
use cat_graphrag.Graph.Runs.{calm}
use cat_graphrag.ConceptGen.{
  passes_gate, marker_of, flip, flip_concept_gen, without_stale, concept_recompute_job,
}
use cat_graphrag.ConceptGen.Flip.{Flipped, flip_concept_gen-Flipped, flip-once}

abbrev tenant : Str
tenant = codes "t"

abbrev collection : Str → Option Str → CollectionNode
collection name gen = record { name = some name; tenant_id = tenant; concept_gen_active = gen }

abbrev concept : Str → Option Str → EntityNode ℕ
concept id gen = record {
  id = id;
  tenant_id = tenant;
  name = some id;
  types = [];
  metadata = none;
  embedding = none;
  tracked_by_provenance = true;
  concept_gen = gen;
  concept_gen_active = none;
}

abbrev graph : Graph ℕ ℕ
graph = record {
  documents = [];
  collections = collection (codes "c") none ∷ [];
  entities = concept (codes "x") (some (codes "A")) ∷ concept (codes "y") none ∷ [];
  source_files = [];
  belongs_to = [];
  evidence = [];
  part_of = [];
  related_to = [];
  similar_to = [];
}

-- To generation A, to B, and back to A: x, which the gate shows again, is still flagged, and the
-- deferred deletion removes it.
abbrev back_at_a : Graph ℕ ℕ
back_at_a =
    (flip tenant (some (codes "B")) (codes "A")
      (flip tenant (some (codes "A")) (codes "B") (flip tenant none (codes "A") graph).1).1).1

shown_again :
    map (λ e. passes_gate (marker_of tenant back_at_a.collections) e.concept_gen) back_at_a.entities
    ≡ true ∷ true ∷ []
unfolding flip passes_gate marker_of
shown_again = refl

deleted_though_shown : (without_stale tenant back_at_a).entities ≡ concept (codes "y") none ∷ []
unfolding without_stale flip detach_entities
deleted_though_shown = refl

abbrev store : Store (Dict Str Str) (Graph ℕ ℕ) ℕ
store = calm ((tenant, codes "A") ∷ []) graph

abbrev recompute : Str → Exec (Store (Dict Str Str) (Graph ℕ ℕ) ℕ) (Failure ℕ) (Unit {0})
recompute gen s = (ok tt, s)

job_done : (concept_recompute_job tenant recompute store).1.tasks ≡ []
unfolding concept_recompute_job
job_done = refl

-- A collection without a marker that is listed before one with the marker: the marker is read as
-- missing, the guard of the flip refuses, and all four passes of the job end like this.
abbrev two_collections : Store (Dict Str Str) (Graph ℕ ℕ) ℕ
two_collections = calm ((tenant, codes "B") ∷ []) (record graph {
  collections = collection (codes "new") none ∷ collection (codes "c") (some (codes "A")) ∷ [];
})

job_stuck : concept_recompute_job tenant recompute two_collections ≡ (ok tt, two_collections)
unfolding concept_recompute_job
job_stuck = refl

flip_concept_gen-Flipped_example :
    Flipped tenant none
      (codes "A")
      store.graph
      (flip_concept_gen tenant none (codes "A") store).1.graph
      (flip_concept_gen tenant none (codes "A") store).0
flip_concept_gen-Flipped_example = flip_concept_gen-Flipped tenant none (codes "A") store

won : (flip tenant none (codes "A") graph).0 ≡ true
unfolding flip
won = refl

flip-once_example :
    flip tenant none (codes "B") (flip tenant none (codes "A") graph).1
    ≡ (false, (flip tenant none (codes "A") graph).1)
flip-once_example = flip-once tenant none (codes "A") (codes "B") graph refl refl won

-- A newer generation is saved while the concepts are recomputed.
abbrev saves_newer : Str → Exec (Store (Dict Str Str) (Graph ℕ ℕ) ℕ) (Failure ℕ) (Unit {0})
saves_newer gen s = (ok tt, record s { tasks = put tenant (codes "Z") s.tasks })

newer_kept : (concept_recompute_job tenant saves_newer store).1.tasks ≡ (tenant, codes "Z") ∷ []
unfolding concept_recompute_job put
newer_kept = refl
