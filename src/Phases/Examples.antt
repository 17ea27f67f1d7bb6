-- ===== src/Phases/Examples.antt =====
-- Tests and instances for phases.py.
use cat_graphrag.Prelude.{ℕ, ◌+◌, [], ◌≡◌, refl, true, none, some, ok}
use cat_graphrag.Prelude.Texts.{codes}
use cat_graphrag.Phases.{
  graph_spacy, graph_concept, mapping, phase_for, done, integer, boolean, Raw, status_dict,
  to_result, Backend, delete, delete_phase, process,
}
use cat_graphrag.Phases.Laws.{observed, Deleted, SaysDone, delete-Deleted, process-done}

-- A backend whose world counts what is called, and whose bodies are done.
abbrev body : Raw ℕ ℕ
body = status_dict (codes "done") none (integer 3) (boolean true) []

abbrev backend : Backend ℕ ℕ ℕ ℕ
backend = record {
  is_active = true;
  is_installed = true;
  published_scope = none;
  caller_id = some (codes "chat");
  execute = λ phase source n. (ok body, n);
  purge = λ source n. (ok tt, n + 1);
  reset = λ scope source id n. (ok tt, n + 10);
}

known : phase_for (mapping (some (codes "graph_llm_extraction"))) ≡ some graph_concept
unfolding phase_for
known = refl

unknown : phase_for (mapping none) ≡ none
unfolding phase_for
unknown = refl

deleted :
    delete_phase backend (mapping (some (codes "graph_llm_extraction"))) (codes "doc") 0
    ≡ (ok tt, 11)
unfolding delete_phase
deleted = refl

processed : process backend graph_spacy (codes "doc") 0 ≡ (ok (to_result body), 0)
unfolding process
processed = refl

is_done : (to_result body).status ≡ done
unfolding to_result
is_done = refl

delete-Deleted_example :
    let m = delete (observed backend) graph_spacy (codes "doc") (0, []) in
    Deleted backend graph_spacy (codes "doc") 0 m.1.1 (m.0, m.1.0)
delete-Deleted_example = delete-Deleted backend graph_spacy (codes "doc") 0 refl refl

process-done_example :
    (true ≡ true)
    × (raw : Raw ℕ ℕ) × (backend.execute graph_spacy (codes "doc") 0 ≡ (ok raw, 0))
    × SaysDone raw
process-done_example =
    process-done backend graph_spacy (codes "doc") 0 0 (to_result body) processed is_done
