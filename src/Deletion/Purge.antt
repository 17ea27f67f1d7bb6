-- ===== src/Deletion/Purge.antt =====
-- purge_source_graph_artifacts of graphrag_handler.py. `dumps` is `json.dumps` on a text.
use cat_graphrag.Prelude.{ℕ, List, ◌++◌, length, Exec, ok, pure, ◌>>=◌, ◌>>◌, Option, some}
use cat_graphrag.Prelude.Keys.{Str}
use cat_graphrag.Prelude.Texts.{codes}
use cat_graphrag.Batches.{Failure}
use cat_graphrag.Drain.{Pending, drop_source_tasks}
use cat_graphrag.Graph.{Graph, Store, query}
use cat_graphrag.Deletion.{
  delete_each, documents_with, pointed_at, delete_source_edges, is_unreferenced, prune_entities,
  similar_ids, delete_similar, related_ids, strip_related,
}

-- f'"source": {json.dumps(source)}'
abbrev pub source_fragment : (Str → Str) → Str → Str
source_fragment dumps source = codes "\"source\": " ++ dumps source

module _ {A M R G E : Type 0} where
  abbrev pub drop_tasks : Option Str → Exec (Store (Pending A M R) G E) (Failure E) (Unit {0})
  drop_tasks source s = (ok tt, record s { tasks = drop_source_tasks source s.tasks })

module _ {T V W E : Type 0} (tenant : Str) where
  -- Step 1: the evidence of the source, and the entities that lose the last of theirs.
  unfoldable pub purge_evidence : List Str → Exec (Store T (Graph V W) E) (Failure E) ℕ
  unfolding delete_each pointed_at delete_source_edges is_unreferenced
  purge_evidence document_ids = query (pointed_at tenant document_ids) >>= (λ candidate_entity_ids.
      delete_each document_ids (delete_source_edges tenant)
      >> delete_each candidate_entity_ids (prune_entities tenant is_unreferenced))

  -- Step 2: the SIMILAR_TO relationships.
  unfoldable pub purge_similar : List Str → Exec (Store T (Graph V W) E) (Failure E) ℕ
  unfolding delete_each similar_ids delete_similar
  purge_similar document_ids =
      query (similar_ids tenant document_ids)
      >>= (λ similar. delete_each similar (delete_similar tenant))

  -- Step 3: the source leaves the RELATED_TO relationships.
  unfoldable pub strip_source : Str → Exec (Store T (Graph V W) E) (Failure E) ℕ
  unfolding related_ids strip_related delete_each
  strip_source source =
      query (related_ids tenant source)
      >>= (λ related. delete_each related (strip_related tenant source))

module _ {A M R V W E : Type 0} (dumps : Str → Str) (tenant : Str) where
  -- The number of documents of the source.
  unfoldable pub purge_source_graph_artifacts :
      Str → Exec (Store (Pending A M R) (Graph V W) E) (Failure E) ℕ
  unfolding drop_source_tasks documents_with purge_evidence purge_similar strip_source
  purge_source_graph_artifacts source =
      drop_tasks (some source)
      >> query (documents_with tenant (source_fragment dumps source))
      >>= (λ document_ids.
          purge_evidence tenant document_ids
          >> purge_similar tenant document_ids
          >> strip_source tenant source
          >> pure (length document_ids))
