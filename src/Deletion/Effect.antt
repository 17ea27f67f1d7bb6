-- ===== src/Deletion/Effect.antt =====
-- What purging a source does to the graph where no statement fails.
use cat_graphrag.Prelude.{ℕ, List, length, ◌≡◌, refl, ap, ◌∙◌, some, Outcome, ok, Exec, continue}
use cat_graphrag.Prelude.Keys.{Str, str_key, nat_key}
use cat_graphrag.Batches.{Failure}
use cat_graphrag.Drain.{Pending, drop_source_tasks}
use cat_graphrag.Graph.{Graph, Store}
use cat_graphrag.Graph.Runs.{calm, delete_each-Splits}
use cat_graphrag.Deletion.{
  delete_each, documents_with, pointed_at, delete_source_edges, is_unreferenced, prune_entities,
  similar_ids, delete_similar, related_ids, strip_related,
}
use cat_graphrag.Deletion.Purge.{
  source_fragment, purge_evidence, purge_similar, strip_source, purge_source_graph_artifacts,
}
use cat_graphrag.Deletion.Batching.{
  delete_source_edges-Splits, delete_similar-Splits, strip_related-Splits,
}
use cat_graphrag.Deletion.Pruning.{prune_entities-Splits, is_unreferenced-Stable}

module _ {V W : Type 0} (tenant : Str) where
  -- The three steps without batches.
  unfoldable pub without_evidence : List Str → Graph V W → Graph V W
  unfolding pointed_at delete_source_edges is_unreferenced
  without_evidence ids g =
      prune_entities tenant is_unreferenced (pointed_at tenant ids g)
        (delete_source_edges tenant ids g)

  unfoldable pub without_similar : List Str → Graph V W → Graph V W
  unfolding similar_ids delete_similar
  without_similar ids g = delete_similar tenant (similar_ids tenant ids g) g

  unfoldable pub without_relations : Str → Graph V W → Graph V W
  unfolding related_ids strip_related
  without_relations source g = strip_related tenant source (related_ids tenant source g) g

  unfoldable pub purged : (Str → Str) → Str → Graph V W → Graph V W
  unfolding documents_with without_evidence without_similar without_relations
  purged dumps source g =
      let ids = documents_with tenant (source_fragment dumps source) g in
      without_relations source (without_similar ids (without_evidence ids g))

module _ {T V W E : Type 0} (tenant : Str) (t : T) (g : Graph V W) where
  -- A step that returned a count and left the graph `h`.
  abbrev Did : Exec (Store T (Graph V W) E) (Failure E) ℕ → Graph V W → Type 0
  Did m h = (n : ℕ) × (m (calm t g) ≡ (ok n, calm t h))

  purge_evidence-calm :
      (ids : List Str) → Did (purge_evidence tenant ids) (without_evidence tenant ids g)
  unfolding purge_evidence without_evidence
  purge_evidence-calm ids =
      let edges =
        delete_each-Splits {E = E} (delete_source_edges tenant) (delete_source_edges-Splits tenant)
          ids t g in
      let prune =
        delete_each-Splits {E = E} (prune_entities tenant is_unreferenced)
          (prune_entities-Splits tenant is_unreferenced is_unreferenced-Stable)
          (pointed_at tenant ids g) t (delete_source_edges tenant ids g) in
      let rest =
        delete_each {T = T} {E = E} (pointed_at tenant ids g)
          (prune_entities tenant is_unreferenced) in
      (
        _,
        ap (λ (r : Outcome (Failure E) ℕ × Store T (Graph V W) E). continue r.0 (λ _. rest) r.1)
              edges
            ∙ prune,
      )

  purge_similar-calm :
      (ids : List Str) → Did (purge_similar tenant ids) (without_similar tenant ids g)
  unfolding purge_similar without_similar
  purge_similar-calm ids = (
    _,
    delete_each-Splits (delete_similar tenant) (delete_similar-Splits tenant)
        (similar_ids tenant ids g) t g,
  )

  strip_source-calm :
      (source : Str) → Did (strip_source tenant source) (without_relations tenant source g)
  unfolding strip_source without_relations
  strip_source-calm source = (
    _,
    delete_each-Splits (strip_related tenant source) (strip_related-Splits tenant source)
        (related_ids tenant source g) t g,
  )

module _ {A M R V W E : Type 0} (dumps : Str → Str) (tenant : Str) where
  -- Where no statement fails, the purge returns the number of documents of the source, the pending
  -- tasks of the source are dropped, and the graph is as if each step had been one statement, not one
  -- for each batch of at most 100.
  pub purge_source_graph_artifacts_lem :
      (source : Str) (tasks : Pending A M R) (g : Graph V W)
      → purge_source_graph_artifacts {E = E} dumps tenant source (calm tasks g) ≡ (
        ok (length (documents_with tenant (source_fragment dumps source) g)),
        calm (drop_source_tasks (some source) tasks) (purged tenant dumps source g),
      )
  unfolding purge_source_graph_artifacts purged
  purge_source_graph_artifacts_lem source tasks g =
      let t = drop_source_tasks (some source) tasks in
      let ids = documents_with tenant (source_fragment dumps source) g in
      let g1 = without_evidence tenant ids g in
      let g2 = without_similar tenant ids g1 in
      let (n, a) = purge_evidence-calm {E = E} tenant t g ids in
      let (m, b) = purge_similar-calm {E = E} tenant t g1 ids in
      let (k, c) = strip_source-calm {E = E} tenant t g2 source in rw (a, b, c) refl
