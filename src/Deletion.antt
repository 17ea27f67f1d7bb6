-- ===== src/Deletion.antt =====
-- The deletions of graphrag_handler.py: the points of a source or of a collection, points by their
-- ids, the artefacts of one source, and all data of a tenant. Here are the Cypher statements that
-- they run. The handler is connected, and `tenant` is its `agent_id`.
pub mod Purge
pub mod Points
pub mod Wipe
pub mod Steps
pub mod Whole
pub mod Invariant
pub mod Tenancy
pub mod Batching
pub mod Pruning
pub mod Effect
pub mod Traces
pub mod Laws
mod Examples
use cat_graphrag.Prelude.{
  ℕ, List, [], map, Bool, true, ◌&&◌, ◌||◌, not, Exec, filter_by, is_in, any,
}
use cat_graphrag.Prelude.Keys.{Str, str_eq, str_key, nat_key}
use cat_graphrag.Batches.{Failure, delete_in_batches, delete_batch_max_items}
use cat_graphrag.Graph.{
  DocumentNode, EntityNode, SourceFileNode, Evidence, RelatedTo, SimilarTo, Graph, Store, statement,
}
use cat_graphrag.Graph.Cypher.{
  text_contains, detach_documents, detach_entities, detach_source_files, is_document_of,
  is_entity_of, is_mentioned, has_provenance, has_part, joins_entities_of, is_from, strip_where,
  joins_documents_of,
}

-- await delete_in_batches(ids, …) with one statement for each batch
unfoldable pub delete_each :
    {T G E A : Type 0} → List A → (List A → G → G) → Exec (Store T G E) (Failure E) ℕ
unfolding delete_in_batches
delete_each ids f = delete_in_batches ids (λ batch. statement (f batch)) delete_batch_max_items

module _ {V W : Type 0} where
  -- NOT (e)<-[:MENTIONS]-() AND NOT (e)<-[:PROVENANCE]-()
  unfoldable pub is_unreferenced : Graph V W → EntityNode V → Bool
  unfolding is_mentioned has_provenance
  is_unreferenced g e = not (is_mentioned g e.id) && not (has_provenance g e.id)

  -- e.tracked_by_provenance = true AND NOT (e)<-[:PROVENANCE]-()
  unfoldable pub lost_provenance : Graph V W → EntityNode V → Bool
  unfolding has_provenance
  lost_provenance g e = e.tracked_by_provenance && not (has_provenance g e.id)

module _ {V W : Type 0} (tenant : Str) where
  -- Documents of the tenant whose metadata contain a text.
  unfoldable pub documents_with : Str → Graph V W → List Str
  documents_with meta g =
      map (λ d. d.id)
        (filter_by
          (λ (d : DocumentNode). str_eq d.tenant_id tenant && text_contains meta d.metadata)
          g.documents)

  -- (d)-[r]->(e) of type PROVENANCE or MENTIONS, between the tenant's nodes, with d.id IN $doc_ids
  unfoldable pub is_evidence_of : Graph V W → List Str → Evidence → Bool
  unfolding is_document_of is_entity_of
  is_evidence_of g doc_ids r =
      is_in r.document doc_ids
      && is_document_of g tenant r.document
      && is_entity_of g tenant r.entity

  unfoldable pub pointed_at : List Str → Graph V W → List Str
  unfolding is_evidence_of
  pointed_at doc_ids g =
      map (λ e. e.id)
        (filter_by
          (λ (e : EntityNode V).
            str_eq e.tenant_id tenant
            && any (λ (r : Evidence). str_eq r.entity e.id && is_evidence_of g doc_ids r)
                g.evidence)
          g.entities)

  unfoldable pub delete_source_edges : List Str → Graph V W → Graph V W
  unfolding is_evidence_of
  delete_source_edges doc_ids g = record g {
    evidence = filter_by (λ r. not (is_evidence_of g doc_ids r)) g.evidence;
  }

  -- The ids of the tenant's entities for which the test holds.
  abbrev pub entities_where : (Graph V W → EntityNode V → Bool) → Graph V W → List Str
  entities_where p g =
      map (λ e. e.id) (filter_by (λ e. str_eq e.tenant_id tenant && p g e) g.entities)

  -- The same test again while those with one of the ids are deleted.
  abbrev pub prune_entities : (Graph V W → EntityNode V → Bool) → List Str → Graph V W → Graph V W
  prune_entities p ids g =
      detach_entities (λ e. str_eq e.tenant_id tenant && is_in e.id ids && p g e) g

  unfoldable pub similar_ids : List Str → Graph V W → List ℕ
  unfolding joins_documents_of
  similar_ids doc_ids g =
      map (λ r. r.rid)
        (filter_by
          (λ (r : SimilarTo).
            joins_documents_of g tenant r && (is_in r.from doc_ids || is_in r.to doc_ids))
          g.similar_to)

  unfoldable pub delete_similar : List ℕ → Graph V W → Graph V W
  unfolding joins_documents_of
  delete_similar rids g = record g {
    similar_to =
        filter_by (λ r. not (is_in r.rid rids && joins_documents_of g tenant r)) g.similar_to;
  }

  unfoldable pub related_ids : Str → Graph V W → List ℕ
  unfolding joins_entities_of
  related_ids source g =
      map (λ r. r.rid)
        (filter_by (λ (r : RelatedTo W). joins_entities_of g tenant r && is_from source r)
          g.related_to)

  unfoldable pub strip_related : Str → List ℕ → Graph V W → Graph V W
  unfolding joins_entities_of strip_where
  strip_related source rids g = record g {
    related_to =
        strip_where (λ r. is_in r.rid rids && joins_entities_of g tenant r) source g.related_to;
  }

  unfoldable pub orphan_source_files : Graph V W → List Str
  unfolding has_part
  orphan_source_files g =
      map (λ sf. sf.name)
        (filter_by (λ (sf : SourceFileNode). str_eq sf.tenant_id tenant && not (has_part g sf))
          g.source_files)

  abbrev pub delete_source_files : List Str → Graph V W → Graph V W
  delete_source_files names = detach_source_files tenant (λ name. is_in name names)
