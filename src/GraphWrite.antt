-- ===== src/GraphWrite.antt =====
-- _write_graph_plan_in_tx and _merge_entity_metadata of graphrag_handler.py: one planned transaction
-- of a source's graph. Parameters are the parsed metadata, floats, and the element id that the database
-- gives to a new relationship. A timestamp is left out, and a missing type adds no type.
pub mod Ends
pub mod Merges
pub mod Laws
pub mod Effect
pub mod Scope
pub mod Stays
pub mod Plans
mod Examples
use cat_graphrag.Prelude.{
  ℕ, List, [], ◌∷◌, ◌++◌, map, Bool, true, false, ◌&&◌, ◌||◌, not, Option, none, some, is_empty,
  any, filter_by, is_in, if◌then◌else◌,
}
use cat_graphrag.Prelude.Keys.{Str, str_eq, str_key}
use cat_graphrag.SourceGraph.Types.{Floats, Entity, Mention, Relation, WritePlan}
use cat_graphrag.Graph.{EntityNode, EvidenceType, mentions, provenance, Evidence, RelatedTo, Graph}
use cat_graphrag.Graph.Cypher.{is_mention, is_document_of, is_entity_of}

-- What is read of a metadata text: `source_documents`, the older `source_document`, and `confidence`
-- where `float` takes it.
pub record Known (F : Type 0) : Type 0 where
  pub source_documents : List Str
  pub source_document : Option Str
  pub confidence : Option F

pub record Merged (F : Type 0) : Type 0 where
  pub source_documents : List Str
  pub confidence : F

-- for doc_id in …: if doc_id not in docs: docs.append(doc_id)
unfoldable pub union : List Str → List Str → List Str
union docs [] = docs
union docs (d ∷ ds) = if is_in d docs then union docs ds else union (docs ++ d ∷ []) ds

abbrev pub one_document : Option Str → List Str
one_document none = []
one_document (some []) = []
one_document (some (c ∷ s)) = (c ∷ s) ∷ []

module _ (floats : Floats) where
  abbrev pub confidence_of : Option floats.F → floats.F
  confidence_of none = floats.zero
  confidence_of (some c) = c

  abbrev pub larger : floats.F → floats.F → floats.F
  larger a b = if floats.lt a b then b else a

  abbrev pub documents_of : Known floats.F → List Str
  documents_of k =
      if is_empty k.source_documents then one_document k.source_document else k.source_documents

  -- _merge_entity_metadata; `none` stands for existing metadata that is missing or cannot be read
  unfoldable pub merge_known : Option (Known floats.F) → Known floats.F → Merged floats.F
  unfolding union
  merge_known none incoming = record {
    source_documents = union [] incoming.source_documents;
    confidence = larger floats.zero (confidence_of incoming.confidence);
  }
  merge_known (some prev) incoming = record {
    source_documents = union (documents_of prev) incoming.source_documents;
    confidence = larger (confidence_of prev.confidence) (confidence_of incoming.confidence);
  }

-- json.loads of a metadata text, and json.dumps of what was merged.
pub record MetadataTexts (F T : Type 0) : Type 0 where
  pub loads : Str → Option (Known F)
  pub incoming : T → Known F
  pub dumps : Merged F → Str

abbrev pub add_type : Option Str → List Str → List Str
add_type none types = types
add_type (some t) types = if is_in t types then types else types ++ t ∷ []

abbrev pub or_else : {A : Type 0} → Option A → Option A → Option A
or_else none b = b
or_else (some a) b = some a

module _ (floats : Floats) where
  -- (r.weight + rel.weight) / 2; with a null the sum is null
  abbrev pub mean_weight : Option floats.F → Option floats.F → Option floats.F
  mean_weight none b = none
  mean_weight (some a) none = none
  mean_weight (some a) (some b) = some (floats.mean a b)

-- The source_files of a relation that is matched.
abbrev pub merge_files : Option (List Str) → Option (List Str) → Option (List Str)
merge_files old none = old
merge_files none (some new) = some new
merge_files (some old) (some new) = some (filter_by (λ x. not (is_in x new)) old ++ new)

module _ {V : Type 0} where
  abbrev pub is_at : Str → Str → EntityNode V → Bool
  is_at tenant id e = str_eq e.tenant_id tenant && str_eq e.id id

module _ (floats : Floats) {T V : Type 0} (texts : MetadataTexts floats.F T) (tenant : Str) where
  -- The metadata of the first node that the id matches.
  unfoldable pub existing_metadata : Str → List (EntityNode V) → Option (Known floats.F)
  existing_metadata id [] = none
  existing_metadata id (e ∷ es) =
      let rest = existing_metadata id es in
      if is_at tenant id e
      then (elim e.metadata [ none ↦ none | some text ↦ texts.loads text ])
      else rest

  -- The accumulated metadata of an incoming entity.
  unfoldable pub merged_metadata : T → Str → List (EntityNode V) → Str
  unfolding existing_metadata merge_known
  merged_metadata raw id es =
      texts.dumps (merge_known floats (existing_metadata id es) (texts.incoming raw))

module _ {F T V : Type 0} (tenant : Str) where
  abbrev pub created : Entity F T V → Str → EntityNode V
  created ent metadata = record {
    id = ent.id;
    tenant_id = tenant;
    name = ent.name;
    types = add_type ent.type [];
    metadata = some metadata;
    embedding = ent.embedding;
    tracked_by_provenance = false;
    concept_gen = none;
    concept_gen_active = none;
  }

  abbrev pub matched : Entity F T V → Str → EntityNode V → EntityNode V
  matched ent metadata e = record e {
    name = ent.name;
    types = add_type ent.type e.types;
    metadata = some metadata;
    embedding = or_else ent.embedding e.embedding;
    concept_gen = none;
    concept_gen_active = none;
  }

  -- MERGE (e:Entity {id: …, tenant_id: …}) with both SETs and the REMOVE
  unfoldable pub merge_entity : Entity F T V → Str → List (EntityNode V) → List (EntityNode V)
  merge_entity ent metadata es =
      if any (is_at tenant ent.id) es
      then map (λ e. if is_at tenant ent.id e then matched ent metadata e else e) es
      else es ++ created ent metadata ∷ []

module _ (floats : Floats) {T V : Type 0} (texts : MetadataTexts floats.F T) (tenant : Str)
    (raw_of : Entity floats.F T V → T) where
  -- The metadata was read before the first entity is written.
  unfoldable pub merge_entities :
      List (EntityNode V) → List (Entity floats.F T V) → List (EntityNode V) → List (EntityNode V)
  unfolding merge_entity merged_metadata
  merge_entities before [] es = es
  merge_entities before (ent ∷ ents) es =
      merge_entities before ents (
        merge_entity tenant ent (merged_metadata floats texts tenant (raw_of ent) ent.id before) es)

abbrev pub same_kind : EvidenceType → EvidenceType → Bool
same_kind mentions k = is_mention k
same_kind provenance k = not (is_mention k)

-- MERGE (d)-[:…]->(e)
unfoldable pub merge_evidence : EvidenceType → Str → Str → List Evidence → List Evidence
merge_evidence kind doc entity rs =
    if any
      (λ (r : Evidence). same_kind kind r.kind && str_eq r.document doc && str_eq r.entity entity)
      rs
    then rs
    else rs ++ record { kind = kind; document = doc; entity = entity } ∷ []

module _ {F V W : Type 0} (tenant : Str) where
  -- Both patterns of a mention match.
  unfoldable pub has_ends : Graph V W → Mention F → Bool
  unfolding is_document_of is_entity_of
  has_ends g m = is_document_of g tenant m.doc_id && is_entity_of g tenant m.entity_id

  unfoldable pub add_mention : Mention F → Graph V W → Graph V W
  unfolding has_ends merge_evidence
  add_mention m g =
      if has_ends g m
      then record g { evidence = merge_evidence mentions m.doc_id m.entity_id g.evidence }
      else g

  unfoldable pub add_provenance : Mention F → Graph V W → Graph V W
  unfolding has_ends merge_evidence
  add_provenance m g =
      if has_ends g m
      then record g {
        evidence = merge_evidence provenance m.doc_id m.entity_id g.evidence;
        entities =
            map
              (λ (e : EntityNode V).
                if is_at tenant m.entity_id e then record e { tracked_by_provenance = true } else e)
              g.entities;
      }
      else g

-- UNWIND … AS x
unfoldable pub unwind : {A G : Type 0} → (A → G → G) → List A → G → G
unwind f [] g = g
unwind f (x ∷ xs) g = unwind f xs (f x g)

module _ (floats : Floats) where
  abbrev pub is_relation : Relation floats.F → RelatedTo (Option floats.F) → Bool
  is_relation rel r =
      str_eq r.source rel.source_id
      && str_eq r.target rel.target_id
      && str_eq r.rel_type rel.rel_type

  -- MERGE (s)-[r:RELATED_TO {type: …}]->(t)
  unfoldable pub merge_relation :
      (List (RelatedTo (Option floats.F)) → ℕ)
      → Relation floats.F
      → List (RelatedTo (Option floats.F))
      → List (RelatedTo (Option floats.F))
  merge_relation fresh rel rs =
      if any (is_relation rel) rs
      then map
          (λ r.
            if is_relation rel r
            then record r {
              weight = mean_weight floats r.weight rel.weight;
              source_files = merge_files r.source_files rel.source_files;
            }
            else r)
          rs
      else rs
        ++ record {
          rid = fresh rs;
          source = rel.source_id;
          target = rel.target_id;
          rel_type = rel.rel_type;
          weight = rel.weight;
          source_files = rel.source_files;
          concept_gen = none;
          concept_gen_active = none;
        }
          ∷ []

module _ (floats : Floats) {V : Type 0} (fresh : List (RelatedTo (Option floats.F)) → ℕ)
    (tenant : Str) where
  unfoldable pub add_relation :
      Relation floats.F → Graph V (Option floats.F) → Graph V (Option floats.F)
  unfolding is_entity_of merge_relation
  add_relation rel g =
      if is_entity_of g tenant rel.source_id && is_entity_of g tenant rel.target_id
      then record g { related_to = merge_relation floats fresh rel g.related_to }
      else g

module _ (floats : Floats) {T V : Type 0} (texts : MetadataTexts floats.F T)
    (raw_of : Entity floats.F T V → T) (fresh : List (RelatedTo (Option floats.F)) → ℕ)
    (tenant : Str) where
  -- Entities, then mentions and provenance, then relations: one transaction.
  unfoldable pub write_graph_plan_in_tx :
      WritePlan floats.F T V → Graph V (Option floats.F) → Graph V (Option floats.F)
  unfolding merge_entities unwind add_mention add_provenance add_relation
  write_graph_plan_in_tx plan g = unwind (add_relation floats fresh tenant) plan.relations (
      unwind (add_provenance tenant) plan.mentions (
        unwind (add_mention tenant) plan.mentions (record g {
          entities = merge_entities floats texts tenant raw_of g.entities plan.entities g.entities;
        })))
