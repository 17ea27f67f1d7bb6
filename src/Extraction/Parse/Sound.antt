-- ===== src/Extraction/Parse/Sound.antt =====
-- The lenient parser as a whole.
use cat_graphrag.Prelude.{◌≡◌, sym, ap, Option, none, some, All}
use mathlib.Core.Path.{subst}
use cat_graphrag.Prelude.Keys.{Str}
use cat_graphrag.Extraction.Json.{
  Json, null, boolean, number, string, array, object, Runtime, Items, elements,
}
use cat_graphrag.Extraction.Payload.{parsed_payload}
use cat_graphrag.Extraction.Parse.{Product, Definitions, parse_data, parse_concept_relations}
use cat_graphrag.Extraction.Parse.Laws.{IsConcept, IsRelation, kept_data-Sound}
use cat_graphrag.Extraction.Parse.Legacy.{HasNorm, legacy_product-Sound}

module _ (python : Runtime) (definitions : Definitions) where
  abbrev pub IsProduct : Product → Type 0
  IsProduct p =
      All (IsConcept python definitions) p.concepts
      × All (IsRelation python definitions) p.relations

  -- Both ends of every relation are among the concepts.
  abbrev pub CoversEnds : Product → Type 0
  CoversEnds p =
      All
        (λ r.
          HasNorm (python.casefold r.origin) p.concepts
          × HasNorm (python.casefold r.destination) p.concepts)
        p.relations

  parse_data-IsProduct : (o : Option Json) → IsProduct (parse_data python definitions o)
  unfolding parse_data
  parse_data-IsProduct none = (tt, tt)
  parse_data-IsProduct (some (array items)) =
      let p = legacy_product-Sound python definitions (elements items) in (p.0, p.1)
  parse_data-IsProduct (some (object fs)) = kept_data-Sound python definitions fs
  parse_data-IsProduct (some null) = (tt, tt)
  parse_data-IsProduct (some (boolean _)) = (tt, tt)
  parse_data-IsProduct (some (number _)) = (tt, tt)
  parse_data-IsProduct (some (string _)) = (tt, tt)

  -- Whatever the answer was, each concept that is read has a text, a defined type or CONCEPT, and the
  -- norm of its text; each relation has two ends and a defined type.
  pub parse_concept_relations-IsProduct :
      (raw : Str) → IsProduct (parse_concept_relations python definitions raw)
  unfolding parse_concept_relations
  parse_concept_relations-IsProduct raw = parse_data-IsProduct (parsed_payload python raw)

  -- Where the payload is a bare list, both ends of every relation are among the concepts.
  pub legacy_ends :
      (raw : Str) (items : Items)
      → parsed_payload python raw ≡ some (array items)
      → CoversEnds (parse_concept_relations python definitions raw)
  unfolding parse_concept_relations parse_data
  legacy_ends raw items e =
      subst CoversEnds (sym (ap (parse_data python definitions) e))
        (legacy_product-Sound python definitions (elements items)).2
