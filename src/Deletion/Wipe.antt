-- ===== src/Deletion/Wipe.antt =====
-- _drop_tenant_data_in_session of graphrag_handler.py.
use cat_graphrag.Prelude.{◌&&◌, not, Exec, ◌>>◌}
use cat_graphrag.Prelude.Keys.{Str, str_eq}
use cat_graphrag.Batches.{Failure}
use cat_graphrag.Graph.{Graph, Store, statement}
use cat_graphrag.Graph.Cypher.{
  detach_documents, detach_entities, detach_collections, detach_source_files, belongs_to_tenant,
  is_mentioned, has_part,
}

module _ {V W : Type 0} (tenant : Str) where
  abbrev pub drop_documents : Graph V W → Graph V W
  drop_documents g = detach_documents (belongs_to_tenant g tenant) g

  -- Entities with no mention left.
  abbrev pub drop_unmentioned : Graph V W → Graph V W
  drop_unmentioned g =
      detach_entities (λ e. str_eq e.tenant_id tenant && not (is_mentioned g e.id)) g

  -- Source files with no part left.
  abbrev pub drop_empty_files : Graph V W → Graph V W
  drop_empty_files g =
      detach_source_files tenant
        (λ name. not (has_part g (record { name = name; tenant_id = tenant }))) g

module _ {T V W E : Type 0} (tenant : Str) where
  unfoldable pub drop_tenant_data_in_session : Exec (Store T (Graph V W) E) (Failure E) (Unit {0})
  unfolding detach_documents detach_entities detach_collections detach_source_files
      belongs_to_tenant is_mentioned has_part
  drop_tenant_data_in_session =
      statement (drop_documents tenant)
      >> statement (detach_collections tenant)
      >> statement (drop_unmentioned tenant)
      >> statement (drop_empty_files tenant)
