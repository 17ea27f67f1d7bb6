-- ===== src/Graph/Cypher.antt =====
-- The patterns and the clauses of the Cypher statements of graphrag_handler.py.
use cat_graphrag.Prelude.{
  List, [], ◌∷◌, Bool, true, false, ◌&&◌, ◌||◌, not, Option, none, some, if◌then◌else◌, any,
  filter_by, is_in, is_empty,
}
use cat_graphrag.Prelude.Keys.{Str, str_eq, str_key, nat_key}
use cat_graphrag.Graph.{
  DocumentNode, EntityNode, SourceFileNode, BelongsTo, EvidenceType, mentions, provenance, Evidence,
  PartOf, RelatedTo, SimilarTo, Graph,
}

-- text STARTS WITH part
abbrev pub starts_with : Str → Str → Bool
starts_with [] s = true
starts_with (_ ∷ _) [] = false
starts_with (c ∷ part) (d ∷ s) = str_eq (c ∷ []) (d ∷ []) && starts_with part s

-- text CONTAINS part
abbrev pub text_contains : Str → Str → Bool
text_contains part [] = is_empty part
text_contains part (c ∷ s) = starts_with part (c ∷ s) || text_contains part s

abbrev pub is_mention : EvidenceType → Bool
is_mention mentions = true
is_mention provenance = false

abbrev pub is_provenance : EvidenceType → Bool
is_provenance kind = not (is_mention kind)

-- [x IN r.source_files WHERE x <> $source]
abbrev pub without_source : Str → List Str → List Str
without_source source = filter_by (λ x. not (str_eq x source))

abbrev pub files_without : Str → Option (List Str) → Option (List Str)
files_without source none = none
files_without source (some files) = some (without_source source files)

module _ {W : Type 0} where
  -- r.source_files IS NOT NULL AND $source IN r.source_files
  abbrev pub is_from : Str → RelatedTo W → Bool
  is_from source r = elim r.source_files [ none ↦ false | some files ↦ is_in source files ]

  -- SET r.source_files = … WITH r WHERE size(r.source_files) = 0 DELETE r. The size of null is null,
  -- which is no 0.
  abbrev pub keep_stripped :
      RelatedTo W → Option (List Str) → List (RelatedTo W) → List (RelatedTo W)
  keep_stripped r none rest = record r { source_files = none } ∷ rest
  keep_stripped r (some []) rest = rest
  keep_stripped r (some (f ∷ fs)) rest = record r { source_files = some (f ∷ fs) } ∷ rest

  unfoldable pub strip_where : (RelatedTo W → Bool) → Str → List (RelatedTo W) → List (RelatedTo W)
  strip_where p source [] = []
  strip_where p source (r ∷ rs) =
      let rest = strip_where p source rs in
      if p r then keep_stripped r (files_without source r.source_files) rest else r ∷ rest

module _ {V W : Type 0} where
  -- DETACH DELETE of the documents that pass the test.
  unfoldable pub detach_documents : (DocumentNode → Bool) → Graph V W → Graph V W
  detach_documents p g =
      let gone = λ (id : Str). any (λ (d : DocumentNode). p d && str_eq d.id id) g.documents in
      record g {
        documents = filter_by (λ d. not (p d)) g.documents;
        belongs_to = filter_by (λ r. not (gone r.document)) g.belongs_to;
        evidence = filter_by (λ r. not (gone r.document)) g.evidence;
        part_of = filter_by (λ r. not (gone r.document)) g.part_of;
        similar_to = filter_by (λ r. not (gone r.from || gone r.to)) g.similar_to;
      }

  -- DETACH DELETE of the entities that pass the test.
  unfoldable pub detach_entities : (EntityNode V → Bool) → Graph V W → Graph V W
  detach_entities p g =
      let gone = λ (id : Str). any (λ (e : EntityNode V). p e && str_eq e.id id) g.entities in
      record g {
        entities = filter_by (λ e. not (p e)) g.entities;
        evidence = filter_by (λ r. not (gone r.entity)) g.evidence;
        related_to = filter_by (λ r. not (gone r.source || gone r.target)) g.related_to;
      }

  -- DETACH DELETE of the collections of a tenant.
  unfoldable pub detach_collections : Str → Graph V W → Graph V W
  detach_collections tenant g = record g {
    collections = filter_by (λ c. not (str_eq c.tenant_id tenant)) g.collections;
    belongs_to = filter_by (λ r. not (str_eq r.tenant_id tenant)) g.belongs_to;
  }

  -- DETACH DELETE of the source files of a tenant whose name passes the test.
  unfoldable pub detach_source_files : Str → (Str → Bool) → Graph V W → Graph V W
  detach_source_files tenant p g = record g {
    source_files = filter_by (λ sf. not (str_eq sf.tenant_id tenant && p sf.name)) g.source_files;
    part_of = filter_by (λ r. not (str_eq r.tenant_id tenant && p r.name)) g.part_of;
  }

  -- MATCH (d:Document {id: …, tenant_id: …}), as a condition
  unfoldable pub is_document_of : Graph V W → Str → Str → Bool
  is_document_of g tenant id =
      any (λ (d : DocumentNode). str_eq d.tenant_id tenant && str_eq d.id id) g.documents

  -- MATCH (e:Entity {id: …, tenant_id: …}), as a condition
  unfoldable pub is_entity_of : Graph V W → Str → Str → Bool
  is_entity_of g tenant id =
      any (λ (e : EntityNode V). str_eq e.tenant_id tenant && str_eq e.id id) g.entities

  -- (c:Collection {name: …, tenant_id: …})<-[:BELONGS_TO]-(d:Document)
  unfoldable pub belongs_to_collection : Graph V W → Str → Str → DocumentNode → Bool
  belongs_to_collection g collection tenant d =
      any
        (λ (r : BelongsTo).
          str_eq r.document d.id && str_eq r.name collection && str_eq r.tenant_id tenant)
        g.belongs_to

  -- (c:Collection {name: …})<-[:BELONGS_TO]-(d:Document)
  unfoldable pub belongs_to_named : Graph V W → Str → DocumentNode → Bool
  belongs_to_named g collection d =
      any (λ (r : BelongsTo). str_eq r.document d.id && str_eq r.name collection) g.belongs_to

  -- (c:Collection {tenant_id: …})<-[:BELONGS_TO]-(d:Document)
  unfoldable pub belongs_to_tenant : Graph V W → Str → DocumentNode → Bool
  belongs_to_tenant g tenant d =
      any (λ (r : BelongsTo). str_eq r.document d.id && str_eq r.tenant_id tenant) g.belongs_to

  -- (e)<-[:MENTIONS]-()
  unfoldable pub is_mentioned : Graph V W → Str → Bool
  is_mentioned g id = any (λ (r : Evidence). is_mention r.kind && str_eq r.entity id) g.evidence

  -- (e)<-[:PROVENANCE]-()
  unfoldable pub has_provenance : Graph V W → Str → Bool
  has_provenance g id =
      any (λ (r : Evidence). is_provenance r.kind && str_eq r.entity id) g.evidence

  -- (sf)<-[:PART_OF]-()
  unfoldable pub has_part : Graph V W → SourceFileNode → Bool
  has_part g sf =
      any (λ (r : PartOf). str_eq r.name sf.name && str_eq r.tenant_id sf.tenant_id) g.part_of

  -- (:Entity {tenant_id: …})-[r:RELATED_TO]->(:Entity {tenant_id: …})
  unfoldable pub joins_entities_of : Graph V W → Str → RelatedTo W → Bool
  unfolding is_entity_of
  joins_entities_of g tenant r = is_entity_of g tenant r.source && is_entity_of g tenant r.target

  -- (:Document {tenant_id: …})-[r]-(:Document {tenant_id: …}), for a SIMILAR_TO relationship
  unfoldable pub joins_documents_of : Graph V W → Str → SimilarTo → Bool
  unfolding is_document_of
  joins_documents_of g tenant r = is_document_of g tenant r.from && is_document_of g tenant r.to
