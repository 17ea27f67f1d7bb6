-- ===== src/Extraction/Parse/Laws.antt =====
-- What the lenient parser returns is well formed, whatever the answer was.
use cat_graphrag.Prelude.{
  is_empty, List, [], ◌∷◌, ◌≡◌, ◌⊎◌, true, false, Option, some, All, Option-cases, inl, inr, arith,
}
use cat_graphrag.Prelude.Keys.{Str, str_key, contains}
use cat_graphrag.Prelude.Texts.{codes}
use cat_graphrag.Extraction.Json.{
  Json, null, boolean, number, string, array, object, Fields, Runtime,
}
use cat_graphrag.Extraction.Parse.{
  Concept, ConceptRelation, Definitions, concept_type, stripped, known_type, parse_concept,
  parse_relation, kept, list_at,
}

module _ (python : Runtime) (definitions : Definitions) where
  -- A concept that the store takes: a text, a defined type or CONCEPT, and the norm of its text.
  abbrev pub IsConcept : Concept → Type 0
  IsConcept c =
      (is_empty c.text ≡ false)
      × ((contains c.type definitions.concept_types ≡ true) ⊎ (c.type ≡ concept_type))
      × (c.norm ≡ python.casefold c.text)

  -- A relation that the store takes: two ends, and a defined type.
  abbrev pub IsRelation : ConceptRelation → Type 0
  IsRelation r =
      (is_empty r.origin ≡ false)
      × (is_empty r.destination ≡ false)
      × (contains r.type definitions.relation_types ≡ true)

  pub known :
      (t : Str)
      → (contains (known_type python definitions t) definitions.concept_types ≡ true)
        ⊎ (known_type python definitions t ≡ concept_type)
  unfolding known_type
  known t = ground arith

  parse_concept-IsConcept :
      (j : Json) (c : Concept) → parse_concept python definitions j ≡ some c → IsConcept c
  unfolding parse_concept
  parse_concept-IsConcept (object item) c h =
      ground (arith, known (python.upper (stripped python definitions (codes "type") item)))
  parse_concept-IsConcept null c h = absurd (ground arith)
  parse_concept-IsConcept (boolean _) c h = absurd (ground arith)
  parse_concept-IsConcept (number _) c h = absurd (ground arith)
  parse_concept-IsConcept (string _) c h = absurd (ground arith)
  parse_concept-IsConcept (array _) c h = absurd (ground arith)

  parse_relation-IsRelation :
      (j : Json) (r : ConceptRelation) → parse_relation python definitions j ≡ some r → IsRelation r
  unfolding parse_relation
  parse_relation-IsRelation (object item) r h = ground arith
  parse_relation-IsRelation null c h = absurd (ground arith)
  parse_relation-IsRelation (boolean _) c h = absurd (ground arith)
  parse_relation-IsRelation (number _) c h = absurd (ground arith)
  parse_relation-IsRelation (string _) c h = absurd (ground arith)
  parse_relation-IsRelation (array _) c h = absurd (ground arith)

module _ {A : Type 0} (f : Json → Option A) (P : A → Type 0)
    (holds : (j : Json) (a : A) → f j ≡ some a → P a) where
  All-kept : (xs : List Json) → All P (kept f xs)
  unfolding kept
  All-kept [] = tt
  All-kept (x ∷ xs) = elim (Option-cases (f x)) [
    | inl e ↦ rw (e, All) (All-kept xs)
    | inr (a, e) ↦ rw (e, All) (holds x a e, All-kept xs)
  ]

module _ (python : Runtime) (definitions : Definitions) where
  pub kept_data-Sound :
      (fs : Fields)
      → All
          (IsConcept python definitions)
          (kept (parse_concept python definitions) (list_at (codes "concepts") fs))
        × All
            (IsRelation python definitions)
            (kept (parse_relation python definitions) (list_at (codes "relations") fs))
  kept_data-Sound fs = (
    All-kept (parse_concept python definitions) (IsConcept python definitions)
        (parse_concept-IsConcept python definitions) (list_at (codes "concepts") fs),
    All-kept (parse_relation python definitions) (IsRelation python definitions)
        (parse_relation-IsRelation python definitions) (list_at (codes "relations") fs),
  )
