-- ===== src/SourceGraph/Dedupe/Laws.antt =====
-- What the deduplication of source_graph_writer.py keeps.
use cat_graphrag.Prelude.{
  List, [], ◌∷◌, ◌++◌, none, ◌≡◌, refl, sym, ◌∙◌, map, Bool-cases, inl, inr, append_assoc,
  append-nil,
}
use mathlib.Core.Option
use cat_graphrag.Prelude.Keys.{Str, str_key, pair_key, str_eq, str_eq_iff}
use cat_graphrag.Prelude.Dict.{Dict, values, lookup, put, lookup-put, Distinct}
use cat_graphrag.Prelude.Sort.{find, occurrences, Ascending, find-sort_by, sort_by-Ascending}
use cat_graphrag.Prelude.Gather.{
  absorb, absorb_all, collect, find-gather, gather-Ascending, gather_self, lookup-collect,
  collect-Distinct, collect-Keyed, Keyed, find-values, Unique-values,
}
use cat_graphrag.SourceGraph.Types.{Floats, Codec, Raw, text, Entity, Mention, Relation}
use cat_graphrag.SourceGraph.Metadata.{merge_entity_metadata}
use cat_graphrag.SourceGraph.Dedupe.{
  or_empty, fill, group_entities, with_metadata, dedupe_entities, mention_key, merge_mention,
  dedupe_mentions, relation_key, merge_relation, dedupe_relations,
}

module _ (floats : Floats) where
  open floats use {F}

  -- There is one mention for each pair of document and entity, in ascending order of the pairs, and
  -- what stands for a pair is what its mentions fold to: the first one, with the highest confidence.
  pub dedupe_mentions_lem :
      (mentions : List (Mention F))
      → Ascending (mention_key floats) (dedupe_mentions floats mentions)
        × ((k : Str × Str)
            → find (mention_key floats) k (dedupe_mentions floats mentions)
              ≡ absorb_all
                  (merge_mention floats)
                  none
                  (occurrences (mention_key floats) k mentions))
  unfolding dedupe_mentions merge_mention
  dedupe_mentions_lem mentions = (
    gather-Ascending (mention_key floats) (merge_mention floats) (λ c x. refl) mentions,
    λ k. find-gather (mention_key floats) (merge_mention floats) (λ c x. refl) k mentions,
  )

  -- There is one relation for each source, target and type, in ascending order of them, and what stands
  -- for them is what their relations fold to: weights averaged one after another, files united.
  pub dedupe_relations_lem :
      (relations : List (Relation F))
      → Ascending (relation_key floats) (dedupe_relations floats relations)
        × ((k : Str × (Str × Str))
            → find (relation_key floats) k (dedupe_relations floats relations)
              ≡ absorb_all
                  (merge_relation floats)
                  none
                  (occurrences (relation_key floats) k relations))
  unfolding dedupe_relations merge_relation
  dedupe_relations_lem relations = (
    gather-Ascending (relation_key floats) (merge_relation floats) (λ c x. refl) relations,
    λ k. find-gather (relation_key floats) (merge_relation floats) (λ c x. refl) k relations,
  )

  -- Deduplicating mentions or relations again changes nothing.
  pub dedupe_again :
      (mentions : List (Mention F)) (relations : List (Relation F))
      → (dedupe_mentions floats (dedupe_mentions floats mentions) ≡ dedupe_mentions floats mentions)
        × (dedupe_relations floats (dedupe_relations floats relations)
            ≡ dedupe_relations floats relations)
  unfolding dedupe_mentions dedupe_relations
  dedupe_again mentions relations = (
    gather_self (mention_key floats) (merge_mention floats) _ (dedupe_mentions_lem mentions).0,
    gather_self (relation_key floats) (merge_relation floats) _ (dedupe_relations_lem relations).0,
  )

module _ {F T V : Type 0} where
  abbrev pub id_of : Entity F T V → Str
  id_of e = e.id

  abbrev pub raws : List (Entity F T V) → List (Raw F T)
  raws = map (λ e. e.metadata)

  grouped_eq :
      (g : Dict Str (Entity F T V)) (m : Dict Str (List (Raw F T))) (es : List (Entity F T V))
      → (group_entities (g, m) es).0 ≡ collect id_of fill g es
  unfolding group_entities collect
  grouped_eq g m [] = refl
  grouped_eq g m (e ∷ es) =
      grouped_eq (put e.id (absorb fill (lookup e.id g) e) g)
        (put e.id (or_empty (lookup e.id m) ++ e.metadata ∷ []) m) es

  metadata_eq :
      (g : Dict Str (Entity F T V)) (m : Dict Str (List (Raw F T))) (es : List (Entity F T V))
      (k : Str)
      → or_empty (lookup k (group_entities (g, m) es).1)
        ≡ or_empty (lookup k m) ++ raws (occurrences id_of k es)
  unfolding group_entities occurrences
  metadata_eq g m [] k = sym (append-nil (or_empty (lookup k m)))
  metadata_eq g m (e ∷ es) k =
      let new = or_empty (lookup e.id m) ++ e.metadata ∷ [] in
      metadata_eq (put e.id (absorb fill (lookup e.id g) e) g) (put e.id new m) es k
      ∙ rw (lookup-put e.id k new m) (elim (Bool-cases (str_eq e.id k)) [
        | inl same ↦
            rw (same, (str_eq_iff e.id k).0 same)
              (append_assoc (or_empty (lookup k m)) (e.metadata ∷ [])
                (raws (occurrences id_of k es)))
        | inr differ ↦ rw differ refl
      ])

module _ (floats : Floats) (codec : Codec (floats.F)) {V : Type 0} where
  open floats use {F}
  open codec use {Text}

  -- `entity` with the merged metadata.
  abbrev pub finish : List (Raw F Text) → Entity F Text V → Entity F Text V
  finish raws e = record e { metadata = text (merge_entity_metadata floats codec raws) }

  lookup-with_metadata :
      (m : Dict Str (List (Raw F Text))) (g : Dict Str (Entity F Text V)) (k : Str)
      → lookup k (with_metadata floats codec m g)
        ≡ Option.map (finish (or_empty (lookup k m))) (lookup k g)
  unfolding lookup with_metadata
  lookup-with_metadata m [] k = refl
  lookup-with_metadata m ((j, e) ∷ g) k = elim (Bool-cases (str_eq j k)) [
    | inl same ↦ rw (same, (str_eq_iff j k).0 same) refl
    | inr differ ↦ rw (differ, lookup-with_metadata m g k) refl
  ]

  with_metadata-Keyed :
      (m : Dict Str (List (Raw F Text))) (g : Dict Str (Entity F Text V))
      → Keyed id_of g
      → Keyed id_of (with_metadata floats codec m g)
  unfolding with_metadata
  with_metadata-Keyed m [] h = tt
  with_metadata-Keyed m ((j, e) ∷ g) h = (h.0, with_metadata-Keyed m g h.1)

  with_metadata-Distinct :
      (m : Dict Str (List (Raw F Text))) (g : Dict Str (Entity F Text V))
      → Distinct g
      → Distinct (with_metadata floats codec m g)
  unfolding with_metadata
  with_metadata-Distinct m [] h = tt
  with_metadata-Distinct m ((j, e) ∷ g) h =
      (rw (lookup-with_metadata m g j, h.0) refl, with_metadata-Distinct m g h.1)

  module _ (es : List (Entity F Text V)) where
    abbrev grouped : Dict Str (Entity F Text V)
    grouped = (group_entities ([], []) es).0

    abbrev metadata : Dict Str (List (Raw F Text))
    metadata = (group_entities ([], []) es).1

    grouped-Keyed : Keyed id_of (with_metadata floats codec metadata grouped)
    unfolding fill
    grouped-Keyed =
        with_metadata-Keyed metadata grouped
          (rw (grouped_eq [] [] es) (collect-Keyed id_of fill (λ c x. refl) [] es tt))

    grouped-Distinct : Distinct (with_metadata floats codec metadata grouped)
    grouped-Distinct =
        with_metadata-Distinct metadata grouped
          (rw (grouped_eq [] [] es) (collect-Distinct id_of fill [] es tt))

    find-grouped :
        (k : Str)
        → lookup k (with_metadata floats codec metadata grouped)
          ≡ Option.map
              (finish (raws (occurrences id_of k es)))
              (absorb_all fill none (occurrences id_of k es))
    unfolding lookup
    find-grouped k =
        lookup-with_metadata metadata grouped k
        ∙ rw (grouped_eq [] [] es, metadata_eq [] [] es k, lookup-collect id_of fill k [] es) refl

  -- There is one entity for each id, in ascending order of the ids. What stands for an id is what
  -- its entities fold to by `fill`, and its metadata is that of all of them merged.
  pub dedupe_entities_lem :
      (es : List (Entity F Text V))
      → Ascending id_of (dedupe_entities floats codec es)
        × ((k : Str)
            → find id_of k (dedupe_entities floats codec es)
              ≡ Option.map
                  (finish (raws (occurrences id_of k es)))
                  (absorb_all fill none (occurrences id_of k es)))
  unfolding dedupe_entities
  dedupe_entities_lem es =
      let final = with_metadata floats codec (metadata es) (grouped es) in
      (
        sort_by-Ascending id_of (values final)
            (Unique-values id_of final (grouped-Keyed es) (grouped-Distinct es)),
        λ k.
            find-sort_by id_of k (values final)
            ∙ find-values id_of k final (grouped-Keyed es)
            ∙ find-grouped es k,
      )
