-- ===== src/Extraction/Examples.antt =====
-- Tests and instances for the concept extraction of graphrag_handler.py.
use cat_graphrag.Prelude.{
  ℕ, ◌+◌, ◌≤◌, List, [], ◌∷◌, ◌≡◌, ◌⊎◌, ◌↔◌, refl, Bool, true, false, ◌||◌, Option, none, some,
  if◌then◌else◌, ◌==◌, map, length, Has, ok, Exec, logged,
}
use cat_graphrag.Prelude.Keys.{Str, str_key, str_eq, nat_key, pair_key}
use cat_graphrag.Prelude.Texts.{codes}
use cat_graphrag.Prelude.Sort.{Ascending}
use cat_graphrag.Extraction.Json.{
  Json, null, string, array, object, Items, nil, cons, Fields, end, field, Runtime,
}
use cat_graphrag.Extraction.Payload.{parsed_payload}
use cat_graphrag.Extraction.Parse.{Definitions, parse_concept, parse_concept_relations}
use cat_graphrag.Extraction.Parse.Sound.{IsProduct, parse_concept_relations-IsProduct}
use cat_graphrag.Extraction.Gate.{count_dropped_items}
use cat_graphrag.Extraction.Gate.Laws.{lost, count_dropped_items_lem}
use cat_graphrag.Extraction.Outcome.{
  Reply, validated, invalid, timed_out, Extracted, native, lenient, deadline, partial, done,
  not_ready, error, llm_extract_relations,
}
use cat_graphrag.Extraction.Outcome.Laws.{Accepted, done-Accepted, HasNoText, not_ready_lem}
use cat_graphrag.Extraction.Selection.{Point, usable_point, select_extraction_text_points}
use cat_graphrag.Extraction.Selection.Laws.{
  Keyed, key_of, Arrived, select_extraction_text_points_lem,
}
use cat_graphrag.Extraction.Phase.{completed, combined_text, truncated, extract_concept_relations}
use cat_graphrag.Extraction.Phase.Laws.{
  Stores, AcceptedFor, ask_beside, extract_concept_relations-Stores,
}
use cat_graphrag.Extraction.Phase.Budget.{
  Counted, ask_logged, store_beside, extract_concept_relations-Counted,
}

abbrev entry : Str → Str → Fields → Fields
entry key value fs = field key (string value) fs

-- A legacy item, a concept and a relation.
abbrev legacy_item : Json
legacy_item = object (
    entry (codes "subject") (codes "a")
      (entry (codes "relation_type") (codes "USES") (entry (codes "object") (codes "b") end)))

abbrev concept_item : Json
concept_item = object (entry (codes "type") (codes "TOOL") (entry (codes "text") (codes "saw") end))

abbrev relation_item : Str → Json
relation_item destination = object (
    entry (codes "type") (codes "USES") (
      entry (codes "origin") (codes "saw")
        (entry (codes "destination") destination (entry (codes "text") (codes "cuts") end))))

abbrev items_of : Json → Json → Items
items_of x y = cons x (cons y nil)

-- An answer of the new shape with two relations, of which the second has no destination.
abbrev half_lost : Json
half_lost = object (
    field (codes "concepts") (array (cons concept_item nil)) (
      field (codes "relations") (array (items_of (relation_item (codes "wood")) (relation_item [])))
        end))

abbrev all_kept : Json
all_kept = object (
    field (codes "concepts") (array (cons concept_item nil))
      (field (codes "relations") (array (cons (relation_item (codes "wood")) nil)) end))

-- A reader of four texts.
abbrev read_text : Str → Option Json
read_text s =
    if str_eq s (codes "legacy")
    then some (array (items_of legacy_item null))
    else if str_eq s (codes "half")
    then some half_lost
    else if str_eq s (codes "[x]")
    then some (array nil)
    else if str_eq s (codes "kept")
    then some all_kept
    else none

abbrev pub python : Runtime
python = record {
  loads = read_text;
  literal = λ _. codes "None";
  nonzero = λ _. true;
  is_space = λ c. c == 32 || c == 10;
  upper = λ s. s;
  casefold = λ s. s;
}

abbrev pub definitions : Definitions
definitions = record { concept_types = codes "TOOL" ∷ []; relation_types = codes "USES" ∷ [] }

fenced : parsed_payload python (codes " ```json kept\n``` ") ≡ some all_kept
unfolding parsed_payload
fenced = refl

in_prose : parsed_payload python (codes "so: [x] it is") ≡ some (array nil)
unfolding parsed_payload
in_prose = refl

one_lost :
    llm_extract_relations python definitions true (invalid (codes "half")) 1 ≡ error (partial 1)
unfolding llm_extract_relations
one_lost = refl

nothing_lost :
    llm_extract_relations python definitions true (invalid (codes "kept")) 1
    ≡ done (lenient (parse_concept_relations python definitions (codes "kept")))
unfolding llm_extract_relations
nothing_lost = refl

late : llm_extract_relations python definitions true timed_out 1 ≡ not_ready (deadline 1)
unfolding llm_extract_relations
late = refl

too_late : llm_extract_relations python definitions true timed_out 2 ≡ error (deadline 2)
unfolding llm_extract_relations
too_late = refl

-- A validated answer without items is done, with no item.
empty_done :
    llm_extract_relations python definitions true (validated [] [] (codes "kept")) 1
    ≡ done (native [] [])
unfolding llm_extract_relations
empty_done = refl

-- A `null` text is read as the text of None, and kept.
null_text :
    parse_concept python definitions (object (field (codes "text") null end))
    ≡ some (record { type = codes "CONCEPT"; text = codes "None"; norm = codes "None" })
unfolding parse_concept
null_text = refl

parse_concept_relations-IsProduct_example :
    IsProduct python definitions (parse_concept_relations python definitions (codes "half"))
parse_concept_relations-IsProduct_example =
    parse_concept_relations-IsProduct python definitions (codes "half")

legacy_read : parsed_payload python (codes "legacy") ≡ some (array (items_of legacy_item null))
unfolding parsed_payload
legacy_read = refl

count_dropped_items_example :
    let p = parse_concept_relations python definitions (codes "half") in
    count_dropped_items python (codes "half") (length p.concepts) (length p.relations)
    ≡ lost python definitions (parsed_payload python (codes "half"))
count_dropped_items_example = count_dropped_items_lem python definitions (codes "half")

-- A validated relation without a text is dropped; a text that does not read as JSON does not tell of it.
dropped_unseen :
    llm_extract_relations python definitions true
      (validated (concept_item ∷ []) (relation_item [] ∷ []) (codes "prose"))
      1
    ≡ done (native (concept_item ∷ []) [])
unfolding llm_extract_relations
dropped_unseen = refl

done-Accepted_example :
    (true ≡ true)
    × Accepted python definitions
        (invalid (codes "kept"))
        (lenient (parse_concept_relations python definitions (codes "kept")))
done-Accepted_example =
    done-Accepted python definitions true (invalid (codes "kept")) 1
      (lenient (parse_concept_relations python definitions (codes "kept"))) nothing_lost

not_ready_example : (true ≡ true) × ((1 ≤ 1) ⊎ HasNoText python definitions timed_out)
not_ready_example = not_ready_lem python definitions true timed_out 1 (deadline 1) late

abbrev is_letter : ℕ → Bool
is_letter c = if c == 35 then false else true

abbrev points : List Point
points =
    record { content = codes "late"; image = false; start_index = none; chunk_index = none }
    ∷ record { content = codes "a saw"; image = false; start_index = some 7; chunk_index = some 0 }
    ∷ record { content = codes "[Image]"; image = true; start_index = some 1; chunk_index = none }
    ∷ []

chosen : combined_text python is_letter points ≡ codes "a saw\n\nlate"
unfolding combined_text select_extraction_text_points
chosen = refl

select_extraction_text_points_example :
    (sorted : List Keyed) × (select_extraction_text_points python is_letter points
      ≡ map (λ e. e.1) sorted)
    × Ascending key_of sorted
    × ((e : Keyed)
        → Has e sorted ↔ (Arrived 0 points e × (usable_point python is_letter e.1 ≡ true)))
select_extraction_text_points_example = select_extraction_text_points_lem python is_letter points

abbrev answer : Str → ℕ → Reply × ℕ
answer text n = (invalid (codes "kept"), n + 1)

abbrev keep : Extracted → Exec ℕ ℕ (Unit {0})
keep product n = (ok tt, n + 10)

stored :
    extract_concept_relations python definitions is_letter answer keep true
      (codes "s")
      points
      ([], 0)
    ≡ (ok (completed none 1), ([], 11))
unfolding extract_concept_relations
stored = refl

extract_concept_relations-Stores_example :
    let m =
      extract_concept_relations python definitions is_letter
        (ask_beside python definitions is_letter answer keep)
        (logged keep)
        true
        (codes "s")
        points
        ([], (0, [])) in
    Stores
      (AcceptedFor python definitions is_letter answer keep
        (truncated (combined_text python is_letter points))
        0)
      m.1.1.1
      m.0
extract_concept_relations-Stores_example =
    extract_concept_relations-Stores python definitions is_letter answer keep true (codes "s")
      points [] 0

extract_concept_relations-Counted_example :
    let m =
      extract_concept_relations python definitions is_letter
        (ask_logged answer)
        (store_beside keep)
        true
        (codes "s")
        points
        ((codes "s", 1) ∷ [], (0, [])) in
    let text = truncated (combined_text python is_letter points) in
    Counted
      (HasNoText python definitions (answer text 0).0)
      text
      (codes "s")
      ((codes "s", 1) ∷ [])
      m.1.0
      m.1.1.1
      m.0
extract_concept_relations-Counted_example =
    extract_concept_relations-Counted python definitions is_letter answer keep true (codes "s")
      points ((codes "s", 1) ∷ []) 0
