-- ===== src/Entities/Extract.antt =====
-- `extract`, `_run_segment_pipe` and `extract_technologies_regex` of entity_extractor.py. `parse` is
-- the spaCy pipeline on one text, and `finditer` is `re.finditer` with IGNORECASE on a pattern and a
-- text: the texts that match, with their starts and ends.
use cat_graphrag.Prelude.{ℕ, List, [], ◌∷◌, ◌++◌, map, concat, if◌then◌else◌, leb, length}
use cat_graphrag.Prelude.Keys.{Str}
use cat_graphrag.Segments.{segment_text}
use cat_graphrag.Entities.{
  Confidences, Python, technology, ExtractedEntity, ExtractedRelation, extract_entities,
  deduplicate_entities, max_co_occurrence_entities,
}
use cat_graphrag.Entities.Relations.{Parser, Doc}
use cat_graphrag.Entities.Nearness.{extract_relations, co_occurrences}

-- match.group(0), match.start() and match.end()
pub record Match : Type 0 where
  pub group : Str
  pub start : ℕ
  pub end : ℕ

module _ (parser : Parser) where
  -- Each segment parsed, with its offset.
  unfoldable pub run_segment_pipe :
      (Str → Doc parser.Token) → List (ℕ × Str) → List (Doc parser.Token × ℕ)
  run_segment_pipe parse [] = []
  run_segment_pipe parse ((offset, text) ∷ segments) =
      (parse text, offset) ∷ run_segment_pipe parse segments

module _ (confidences : Confidences) where
  abbrev pub technology_of : Match → ExtractedEntity confidences.F
  technology_of m = record {
    name = m.group;
    type = technology;
    start_char = m.start;
    end_char = m.end;
    confidence = confidences.c85;
  }

  unfoldable pub extract_technologies_regex :
      (Str → Str → List Match) → List Str → Str → List (ExtractedEntity confidences.F)
  extract_technologies_regex finditer patterns text =
      concat (map (λ pattern. map technology_of (finditer pattern text)) patterns)

module _ (python : Python) (confidences : Confidences) (parser : Parser) where
  -- The entities of spaCy, segment by segment, and those of the patterns.
  unfoldable pub all_entities :
      (Str → Doc parser.Token)
      → (Str → Str → List Match)
      → List Str
      → Str
      → List (ExtractedEntity confidences.F)
  unfolding run_segment_pipe extract_technologies_regex extract_entities segment_text
  all_entities parse finditer patterns text =
      concat (
        map (λ (p : Doc parser.Token × ℕ). extract_entities python confidences p.1 p.0.ents)
          (run_segment_pipe parser parse (segment_text text)))
      ++ extract_technologies_regex confidences finditer patterns text

  unfoldable pub entities_of :
      (Str → Doc parser.Token)
      → (Str → Str → List Match)
      → List Str
      → Str
      → List (ExtractedEntity confidences.F)
  unfolding all_entities deduplicate_entities
  entities_of parse finditer patterns text =
      deduplicate_entities python confidences (all_entities parse finditer patterns text)

  -- The entities and the relations of a text.
  unfoldable pub extract :
      (Str → Doc parser.Token)
      → (Str → Str → List Match)
      → List Str
      → Str
      → List (ExtractedEntity confidences.F) × List (ExtractedRelation confidences.F)
  unfolding run_segment_pipe entities_of extract_relations co_occurrences segment_text
  extract parse finditer patterns text =
      let entities = entities_of parse finditer patterns text in
      let pairs = run_segment_pipe parser parse (segment_text text) in
      let relations = extract_relations python confidences text parser pairs entities in
      (
        entities,
        if leb (length entities) max_co_occurrence_entities
            then relations ++ co_occurrences confidences entities
            else relations,
      )
