-- ===== src/Entities/Nearness.antt =====
-- Phase 2 of _extract_relations of entity_extractor.py, the pairs that stand near one another; both
-- phases together; and the co-occurrences of `extract`.
use cat_graphrag.Prelude.{
  ℕ, ◌+◌, ◌-◌, List, [], ◌∷◌, ◌++◌, map, Bool, true, false, ◌&&◌, ◌||◌, if◌then◌else◌, leb, ltb,
  length, is_in, take, drop,
}
use cat_graphrag.Prelude.Keys.{Str, str_eq, str_key, pair_key, nat_key}
use cat_graphrag.Prelude.Texts.{codes}
use cat_graphrag.Prelude.Sort.{sort_by}
use cat_graphrag.Entities.{Confidences, Python, ExtractedEntity, ExtractedRelation, strip_text}
use cat_graphrag.Entities.Relations.{Parser, Doc, ends_of, add_segments}

-- part in text
abbrev pub starts : Str → Str → Bool
starts [] s = true
starts (_ ∷ _) [] = false
starts (c ∷ part) (d ∷ s) = str_eq (c ∷ []) (d ∷ []) && starts part s

unfoldable pub is_part : Str → Str → Bool
is_part part [] = starts part []
is_part part (c ∷ s) = starts part (c ∷ s) || is_part part s

-- The relation type of the text between two entities.
unfoldable pub type_between : Str → Str
unfolding is_part
type_between between =
    if is_part (codes "is a") between || is_part (codes "are a") between
    then codes "IS_A"
    else if is_part (codes "based on") between
    then codes "BASED_ON"
    else codes "RELATED_TO"

module _ (python : Python) (confidences : Confidences) (full_text : Str) where
  -- full_text[e1.end_char:e2.start_char].strip().lower()
  abbrev pub text_between : ExtractedEntity confidences.F → ExtractedEntity confidences.F → Str
  text_between e1 e2 =
      python.lower
        (strip_text python (take (e2.start_char - e1.end_char) (drop e1.end_char full_text)))

  unfoldable pub near_relation :
      ExtractedEntity confidences.F
      → ExtractedEntity confidences.F
      → ExtractedRelation confidences.F
  unfolding strip_text type_between
  near_relation e1 e2 = record {
    source_entity = e1.name;
    target_entity = e2.name;
    relation_type = type_between (text_between e1 e2);
    weight = confidences.c60;
  }

  -- The inner loop of phase 2; e2.start_char - e1.end_char >= 100 ends it.
  unfoldable pub near_one :
      List (Str × Str)
      → ExtractedEntity confidences.F
      → List (ExtractedEntity confidences.F)
      → List (ExtractedRelation confidences.F)
  unfolding near_relation
  near_one found e1 [] = []
  near_one found e1 (e2 ∷ es) =
      let rest = near_one found e1 es in
      if leb (e1.end_char + 100) e2.start_char
      then []
      else if is_in (e1.name, e2.name) found
      then rest
      else near_relation e1 e2 ∷ rest

  unfoldable pub near_all :
      List (Str × Str)
      → List (ExtractedEntity confidences.F)
      → List (ExtractedRelation confidences.F)
  unfolding near_one
  near_all found [] = []
  near_all found (e ∷ es) = near_one found e es ++ near_all found es

  module _ (parser : Parser) where
    unfoldable pub extract_relations :
        List (Doc parser.Token × ℕ)
        → List (ExtractedEntity confidences.F)
        → List (ExtractedRelation confidences.F)
    unfolding sort_by add_segments near_all
    extract_relations segments entities =
        if ltb (length entities) 2
        then []
        else (let sorted_entities = sort_by (λ e. e.start_char) entities in
            let relations = (add_segments parser confidences sorted_entities segments ([], [])).1 in
            relations ++ near_all (map ends_of relations) sorted_entities)

module _ (confidences : Confidences) where
  -- The pairs of the co-occurrences.
  unfoldable pub co_occurrences :
      List (ExtractedEntity confidences.F) → List (ExtractedRelation confidences.F)
  co_occurrences [] = []
  co_occurrences (e ∷ es) =
      map
        (λ e'. record {
          source_entity = e.name;
          target_entity = e'.name;
          relation_type = codes "CO_OCCURS_WITH";
          weight = confidences.quarter e.confidence e'.confidence;
        })
        es
      ++ co_occurrences es
