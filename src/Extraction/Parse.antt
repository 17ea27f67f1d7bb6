-- ===== src/Extraction/Parse.antt =====
-- _parse_concept_relations of graphrag_handler.py.
pub mod Laws
pub mod Legacy
pub mod Sound
use cat_graphrag.Prelude.{
  is_empty, ℕ, List, [], ◌∷◌, ◌++◌, Bool, true, false, ◌&&◌, ◌||◌, not, Option, none, some,
  if◌then◌else◌,
}
use cat_graphrag.Prelude.Keys.{Str, str_key, contains}
use cat_graphrag.Prelude.Texts.{codes}
use cat_graphrag.Prelude.Dict.{Dict, values, lookup, put}
use cat_graphrag.Extraction.Json.{
  Json, null, boolean, number, string, array, object, Items, Fields, Runtime, elements, get,
  text_at, text_or_empty,
}
use cat_graphrag.Extraction.Payload.{strip, parsed_payload}

pub record Concept : Type 0 where
  pub type : Str
  pub text : Str
  pub norm : Str

-- `norms` are `_norm_origin` and `_norm_destination`, which a legacy relation has not.
pub record ConceptRelation : Type 0 where
  pub type : Str
  pub origin : Str
  pub destination : Str
  pub text : Str
  pub norms : Option (Str × Str)

-- {"concepts": [...], "relations": [...]}
pub record Product : Type 0 where
  pub concepts : List Concept
  pub relations : List ConceptRelation

abbrev pub no_product : Product
no_product = record { concepts = []; relations = [] }

-- The keys of the handler's definitions.
pub record Definitions : Type 0 where
  pub concept_types : List Str
  pub relation_types : List Str

abbrev pub concept_type : Str
concept_type = codes "CONCEPT"

-- d.setdefault(key, value)
unfoldable pub setdefault : Str → Concept → Dict Str Concept → Dict Str Concept
setdefault key c d = elim (lookup key d) [ none ↦ put key c d | some _ ↦ d ]

-- The records of a list that are kept, in their order.
unfoldable pub kept : {A : Type 0} → (Json → Option A) → List Json → List A
kept f [] = []
kept f (x ∷ xs) = let rest = kept f xs in elim (f x) [ none ↦ rest | some a ↦ a ∷ rest ]

-- The records of a container that may be missing; what is no list counts as an empty one.
abbrev pub list_of : Option Json → List Json
list_of none = []
list_of (some (array xs)) = elements xs
list_of (some null) = []
list_of (some (boolean _)) = []
list_of (some (number _)) = []
list_of (some (string _)) = []
list_of (some (object _)) = []

-- data.get(key, []), where it is a list
unfoldable pub list_at : Str → Fields → List Json
unfolding get
list_at key fs = list_of (get key fs)

module _ (python : Runtime) (definitions : Definitions) where
  -- str(item.get(key, "")).strip()
  abbrev pub stripped : Str → Fields → Str
  stripped key item = strip python (text_at python key item)

  -- The type that is kept of a concept: the given one, or CONCEPT where it is not defined.
  unfoldable pub known_type : Str → Str
  known_type t = if contains t definitions.concept_types then t else concept_type

  abbrev pub concept_of : Str → Str → Concept
  concept_of t s = record { type = t; text = s; norm = python.casefold s }

  -- A legacy item that is kept, as its relation and the types of its two ends.
  unfoldable pub legacy_relation : Json → Option (ConceptRelation × (Str × Str))
  legacy_relation null = none
  legacy_relation (boolean _) = none
  legacy_relation (number _) = none
  legacy_relation (string _) = none
  legacy_relation (array _) = none
  legacy_relation (object item) =
      let s = stripped (codes "subject") item in
      let o = stripped (codes "object") item in
      let r = python.upper (stripped (codes "relation_type") item) in
      let st =
        known_type
          (python.upper (strip python (text_or_empty python (codes "subject_type") item))) in
      let ot =
        known_type
          (python.upper (strip python (text_or_empty python (codes "object_type") item))) in
      if is_empty s || is_empty o || not (contains r definitions.relation_types)
      then none
      else some
          (record { type = r; origin = s; destination = o; text = []; norms = none }, (st, ot))

  abbrev pub add_ends : ConceptRelation × (Str × Str) → Dict Str Concept → Dict Str Concept
  add_ends (r, (st, ot)) concepts =
      setdefault (python.casefold r.destination) (concept_of ot r.destination)
        (setdefault (python.casefold r.origin) (concept_of st r.origin) concepts)

  abbrev pub add_legacy :
      Option (ConceptRelation × (Str × Str))
      → List ConceptRelation × Dict Str Concept
      → List ConceptRelation × Dict Str Concept
  add_legacy none acc = acc
  add_legacy (some kept) (relations, concepts) = (relations ++ kept.0 ∷ [], add_ends kept concepts)

  -- The loop over a legacy list, over `relations` and `concepts`.
  unfoldable pub legacy_loop :
      List ConceptRelation × Dict Str Concept → List Json → List ConceptRelation × Dict Str Concept
  unfolding legacy_relation setdefault lookup put
  legacy_loop acc [] = acc
  legacy_loop acc (item ∷ items) = legacy_loop (add_legacy (legacy_relation item) acc) items

  -- A concept record that is kept.
  unfoldable pub parse_concept : Json → Option Concept
  unfolding known_type strip text_at
  parse_concept null = none
  parse_concept (boolean _) = none
  parse_concept (number _) = none
  parse_concept (string _) = none
  parse_concept (array _) = none
  parse_concept (object item) =
      let ctext = stripped (codes "text") item in
      if is_empty ctext
      then none
      else some (concept_of (known_type (python.upper (stripped (codes "type") item))) ctext)

  -- A relation record that is kept.
  unfoldable pub parse_relation : Json → Option ConceptRelation
  parse_relation null = none
  parse_relation (boolean _) = none
  parse_relation (number _) = none
  parse_relation (string _) = none
  parse_relation (array _) = none
  parse_relation (object item) =
      let rtype = python.upper (stripped (codes "type") item) in
      let origin = stripped (codes "origin") item in
      let destination = stripped (codes "destination") item in
      if not (contains rtype definitions.relation_types) || is_empty origin || is_empty destination
      then none
      else some (record {
        type = rtype;
        origin = origin;
        destination = destination;
        text = stripped (codes "text") item;
        norms = some (python.casefold origin, python.casefold destination);
      })

  abbrev pub legacy_product : List Json → Product
  legacy_product items =
      let (relations, concepts) = legacy_loop ([], []) items in
      record { concepts = values concepts; relations = relations }

  unfoldable pub parse_data : Option Json → Product
  unfolding legacy_loop parse_concept parse_relation kept list_at elements
  parse_data none = no_product
  parse_data (some (array items)) = legacy_product (elements items)
  parse_data (some (object fs)) = record {
    concepts = kept parse_concept (list_at (codes "concepts") fs);
    relations = kept parse_relation (list_at (codes "relations") fs);
  }
  parse_data (some null) = no_product
  parse_data (some (boolean _)) = no_product
  parse_data (some (number _)) = no_product
  parse_data (some (string _)) = no_product

  -- _parse_concept_relations
  unfoldable pub parse_concept_relations : Str → Product
  unfolding parse_data parsed_payload
  parse_concept_relations raw = parse_data (parsed_payload python raw)
