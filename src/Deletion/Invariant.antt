-- ===== src/Deletion/Invariant.antt =====
-- Whichever of their statements fail, the deletions leave no relationship dangling.
use cat_graphrag.Prelude.{ℕ, List}
use cat_graphrag.Prelude.Keys.{Str}
use cat_graphrag.Prelude.Dict.{Dict}
use cat_graphrag.Drain.{Pending}
use cat_graphrag.Graph.{Graph, Store}
use cat_graphrag.Graph.Invariant.{
  WellFormed, detach_documents-WellFormed, detach_entities-WellFormed,
  detach_collections-WellFormed, detach_source_files-WellFormed, keep_evidence-WellFormed,
  keep_similar-WellFormed, strip_where-WellFormed,
}
use cat_graphrag.Deletion.Purge.{purge_source_graph_artifacts}
use cat_graphrag.Deletion.Points.{delete_tenant_points, delete_tenant_points_by_ids}
use cat_graphrag.Deletion.Steps.{Steps}
use cat_graphrag.Deletion.Whole.{deletions-Within}
use cat_graphrag.Deletion.Wipe.{drop_tenant_data_in_session}

-- The invariant holds after where it held before.
abbrev Kept : {V W : Type 0} → Graph V W → Graph V W → Type 0
Kept g h = WellFormed g → WellFormed h

Kept-Steps : {V W : Type 0} (tenant : Str) → Steps {V = V} {W = W} tenant Kept
Kept-Steps tenant = record {
  same = λ g w. w;
  chain = λ g h k a b w. b (a w);
  documents_go = λ p g own. detach_documents-WellFormed p g;
  entities_go = λ p g own. detach_entities-WellFormed p g;
  collections_go = λ g. detach_collections-WellFormed tenant g;
  source_files_go = λ p g. detach_source_files-WellFormed tenant p g;
  evidence_goes = λ q g. keep_evidence-WellFormed q g;
  similar_go = λ q g. keep_similar-WellFormed q g;
  related_go = λ q source g. strip_where-WellFormed q source g;
}

module _ {A M R V W E : Type 0} (tenant : Str) where
  -- No relationship dangles after any of the four deletions (of the artefacts of a source, of points,
  -- of points by their ids, and of all data of a tenant) where none did before, whichever of their
  -- statements fail and where they raise.
  deletions-WellFormed :
      (dumps : Str → Str) (source collection_name : Str) (metadata : Dict Str Str)
      (points_ids : List Str) (operation_id : ℕ) (s : Store (Pending A M R) (Graph V W) E)
      → WellFormed s.graph
      → WellFormed (purge_source_graph_artifacts dumps tenant source s).1.graph
        × WellFormed
            (delete_tenant_points tenant dumps collection_name metadata operation_id s).1.graph
        × WellFormed
            (delete_tenant_points_by_ids tenant collection_name points_ids operation_id s).1.graph
        × WellFormed (drop_tenant_data_in_session tenant s).1.graph
  deletions-WellFormed dumps source collection_name metadata points_ids operation_id s w =
      let (a, b, c, d) =
        deletions-Within tenant Kept (Kept-Steps tenant) dumps source collection_name metadata
          points_ids operation_id s in
      (a w, b w, c w, d w)
