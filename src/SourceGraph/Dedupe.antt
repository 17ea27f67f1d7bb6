-- ===== src/SourceGraph/Dedupe.antt =====
-- _dedupe_entities, _dedupe_mentions, _dedupe_relations and prepare_source_graph.
pub mod Laws
use cat_graphrag.Prelude.{
  is_some, List, [], ◌∷◌, ◌++◌, Option, none, some, Bool, true, false, ◌&&◌, not, if◌then◌else◌,
  map,
}
use cat_graphrag.Prelude.Keys.{Str, str_key, pair_key}
use cat_graphrag.Prelude.Dict.{Dict, values, lookup, put}
use cat_graphrag.Prelude.Sort.{sort_by}
use cat_graphrag.Prelude.Gather.{absorb, gather}
use cat_graphrag.SourceGraph.Types.{Floats, Codec, Raw, text, Entity, Mention, Relation}
use cat_graphrag.SourceGraph.Metadata.{max_of, merge_source_files, merge_entity_metadata}

-- Python's truth value of a text or `None`.
abbrev pub truthy : Option Str → Bool
truthy none = false
truthy (some []) = false
truthy (some (_ ∷ _)) = true

abbrev pub or_empty {ℓ} : {A : Type ℓ} → Option (List A) → List A
or_empty none = []
or_empty (some xs) = xs

module _ {F T V : Type 0} where
  -- What a later entity with the same id fills in.
  unfoldable pub fill : Entity F T V → Entity F T V → Entity F T V
  fill current entity = record current {
    embedding =
        if not (is_some current.embedding) && is_some entity.embedding
        then entity.embedding
        else current.embedding;
    name = if not (truthy current.name) && truthy entity.name then entity.name else current.name;
    type = if not (truthy current.type) && truthy entity.type then entity.type else current.type;
  }

  -- The first loop of _dedupe_entities, over `grouped` and `metadata`.
  unfoldable pub group_entities :
      Dict Str (Entity F T V) × Dict Str (List (Raw F T))
      → List (Entity F T V)
      → Dict Str (Entity F T V) × Dict Str (List (Raw F T))
  group_entities (grouped, metadata) [] = (grouped, metadata)
  group_entities (grouped, metadata) (entity ∷ entities) =
      let metadata' =
        put entity.id (or_empty (lookup entity.id metadata) ++ entity.metadata ∷ []) metadata in
      let grouped' = put entity.id (absorb fill (lookup entity.id grouped) entity) grouped in
      group_entities (grouped', metadata') entities

module _ (floats : Floats) (codec : Codec (floats.F)) {V : Type 0} where
  open floats use {F}
  open codec use {Text}

  -- The second loop: every payload's metadata is the union of what its id had.
  unfoldable pub with_metadata :
      Dict Str (List (Raw F Text)) → Dict Str (Entity F Text V) → Dict Str (Entity F Text V)
  with_metadata metadata [] = []
  with_metadata metadata ((entity_id, payload) ∷ grouped) =
      (
        entity_id,
        record payload {
          metadata =
              text (merge_entity_metadata floats codec (or_empty (lookup entity_id metadata)));
        },
      )
      ∷ with_metadata metadata grouped

  -- _dedupe_entities
  unfoldable pub dedupe_entities : List (Entity F Text V) → List (Entity F Text V)
  unfolding group_entities with_metadata
  dedupe_entities entities =
      let (grouped, metadata) = group_entities ([], []) entities in
      sort_by (λ item. item.id) (values (with_metadata metadata grouped))

module _ (floats : Floats) where
  open floats use {F, mean}

  abbrev pub or_zero : Option F → F
  or_zero none = floats.zero
  or_zero (some x) = x

  abbrev pub mention_key : Mention F → Str × Str
  mention_key m = (m.doc_id, m.entity_id)

  unfoldable pub merge_mention : Mention F → Mention F → Mention F
  merge_mention current mention = record current {
    confidence = some (max_of floats (or_zero current.confidence) (or_zero mention.confidence));
  }

  -- _dedupe_mentions
  unfoldable pub dedupe_mentions : List (Mention F) → List (Mention F)
  dedupe_mentions = gather mention_key merge_mention

  abbrev pub relation_key : Relation F → Str × (Str × Str)
  relation_key r = (r.source_id, (r.target_id, r.rel_type))

  unfoldable pub merge_relation : Relation F → Relation F → Relation F
  merge_relation current relation = record current {
    weight = some (mean (or_zero current.weight) (or_zero relation.weight));
    source_files = merge_source_files current.source_files relation.source_files;
  }

  -- _dedupe_relations
  unfoldable pub dedupe_relations : List (Relation F) → List (Relation F)
  dedupe_relations = gather relation_key merge_relation
