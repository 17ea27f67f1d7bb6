-- ===== src/Entities/Laws.antt =====
-- What `extract` of entity_extractor.py guarantees of its relations.
use cat_graphrag.Prelude.{
  ℕ, ◌+◌, List, [], ◌∷◌, ◌++◌, map, refl, leb, ltb, All, All-append, Has, is_in, Bool-cases, inl,
  inr, length,
}
use cat_graphrag.Prelude.Texts.{codes}
use cat_graphrag.Prelude.Keys.{Str, str_key, nat_key, pair_key}
use cat_graphrag.Prelude.Sort.{sort_by, Has-sort_by}
use cat_graphrag.Segments.{segment_text}
use cat_graphrag.Entities.{Python, Confidences, ExtractedEntity, max_co_occurrence_entities}
use cat_graphrag.Entities.Relations.{Parser, Doc, add_segments, ends_of}
use cat_graphrag.Entities.Nearness.{
  near_one, near_all, near_relation, extract_relations, co_occurrences,
}
use cat_graphrag.Entities.Pairs.{Joins, add_segments-Joins}
use cat_graphrag.Entities.Names.{
  Named, Apart, sort_by-Named, Joins-mono, deduplicate_entities-Named,
}
use cat_graphrag.Entities.Extract.{Match, all_entities, entities_of, extract, run_segment_pipe}

module _ (python : Python) (confidences : Confidences) (full_text : Str) where
  near_one-Joins :
      (found : List (Str × Str)) (e1 : ExtractedEntity confidences.F)
      (es all : List (ExtractedEntity confidences.F))
      → Has e1 all
      → ((e : ExtractedEntity confidences.F) → Has e es → Has e all)
      → All (Apart e1) es
      → All (Joins all) (near_one python confidences full_text found e1 es)
  unfolding near_one near_relation
  near_one-Joins found e1 [] all h sub a = tt
  near_one-Joins found e1 (e2 ∷ es) all h sub (apart, a) =
      elim (Bool-cases (leb (e1.end_char + 100) e2.start_char)) [
        | inl far ↦ rw far tt
        | inr near ↦
            let rest = near_one-Joins found e1 es all h (λ e k. sub e (inr k)) a in
            elim (Bool-cases (is_in (e1.name, e2.name) found)) [
              | inl known ↦ rw (near, known) rest
              | inr new ↦
                  rw (near, new)
                    (
                      record {
                        source = e1;
                        target = e2;
                        has_source = h;
                        has_target = sub e2 (inl refl);
                        source_named = refl;
                        target_named = refl;
                        differ = apart;
                      },
                      rest,
                    )
            ]
      ]

  near_all-Joins :
      (found : List (Str × Str)) (es all : List (ExtractedEntity confidences.F))
      → ((e : ExtractedEntity confidences.F) → Has e es → Has e all)
      → Named es
      → All (Joins all) (near_all python confidences full_text found es)
  unfolding near_all
  near_all-Joins found [] all sub n = tt
  near_all-Joins found (e ∷ es) all sub (a, n) =
      All-append (Joins all) (near_one python confidences full_text found e es) _
        (near_one-Joins found e es all (sub e (inl refl)) (λ x k. sub x (inr k)) a)
        (near_all-Joins found es all (λ x k. sub x (inr k)) n)

  extract_relations-Joins :
      (parser : Parser) (segments : List (Doc parser.Token × ℕ))
      (entities : List (ExtractedEntity confidences.F))
      → Named entities
      → All
          (Joins entities)
          (extract_relations python confidences full_text parser segments entities)
  unfolding extract_relations
  extract_relations-Joins parser segments entities n =
      let sorted = sort_by (λ (e : ExtractedEntity confidences.F). e.start_char) entities in
      let (joins, _) = add_segments-Joins parser confidences sorted segments in
      let relations = (add_segments parser confidences sorted segments ([], [])).1 in
      elim (Bool-cases (ltb (length entities) 2)) [
        | inl few ↦ rw few tt
        | inr enough ↦ rw enough (
            Joins-mono sorted entities
              (λ e.
                (Has-sort_by (λ (e : ExtractedEntity confidences.F). e.start_char) e entities).0)
              (relations ++ near_all python confidences full_text (map ends_of relations) sorted)
              (All-append (Joins sorted) relations _ joins (
                near_all-Joins (map ends_of relations) sorted sorted (λ e h. h)
                  (sort_by-Named entities n))))
      ]

module _ (confidences : Confidences) where
  paired :
      (e : ExtractedEntity confidences.F) (es all : List (ExtractedEntity confidences.F))
      → Has e all
      → ((x : ExtractedEntity confidences.F) → Has x es → Has x all)
      → All (Apart e) es
      → All (Joins all) (
          map
            (λ e'. record {
              source_entity = e.name;
              target_entity = e'.name;
              relation_type = codes "CO_OCCURS_WITH";
              weight = confidences.quarter e.confidence e'.confidence;
            })
            es)
  paired e [] all h sub a = tt
  paired e (x ∷ xs) all h sub (apart, a) = (
    record {
      source = e;
      target = x;
      has_source = h;
      has_target = sub x (inl refl);
      source_named = refl;
      target_named = refl;
      differ = apart;
    },
    paired e xs all h (λ y k. sub y (inr k)) a,
  )

  co_occurrences-Joins :
      (es all : List (ExtractedEntity confidences.F))
      → ((x : ExtractedEntity confidences.F) → Has x es → Has x all)
      → Named es
      → All (Joins all) (co_occurrences confidences es)
  unfolding co_occurrences
  co_occurrences-Joins [] all sub n = tt
  co_occurrences-Joins (e ∷ es) all sub (a, n) =
      All-append (Joins all) (map _ es) _
        (paired e es all (sub e (inl refl)) (λ x k. sub x (inr k)) a)
        (co_occurrences-Joins es all (λ x k. sub x (inr k)) n)

module _ (python : Python) (confidences : Confidences) (parser : Parser) where
  -- Every relation that `extract` finds in a text, by the dependency tree, by nearness or by
  -- co-occurrence, joins two of the entities that it returns, and they have different names.
  pub extract-Joins :
      (parse : Str → Doc parser.Token) (finditer : Str → Str → List Match) (patterns : List Str)
      (text : Str)
      → All
          (Joins (extract python confidences parser parse finditer patterns text).0)
          (extract python confidences parser parse finditer patterns text).1
  unfolding extract entities_of
  extract-Joins parse finditer patterns text =
      let entities = entities_of python confidences parser parse finditer patterns text in
      let named : Named entities =
        deduplicate_entities-Named python confidences
          (all_entities python confidences parser parse finditer patterns text) in
      let pairs = run_segment_pipe parser parse (segment_text text) in
      let joins = extract_relations-Joins python confidences text parser pairs entities named in
      elim (Bool-cases (leb (length entities) max_co_occurrence_entities)) [
        | inl small ↦ rw small (
            All-append (Joins entities) _ _ joins
              (co_occurrences-Joins confidences entities entities (λ x h. h) named))
        | inr large ↦ rw large joins
      ]
