-- ===== src/Extraction/Gate/Laws.antt =====
-- The count of dropped items is the number of records that the lenient parser rejected.
use cat_graphrag.Prelude.{
  ℕ, suc, ◌+◌, ◌-◌, List, [], ◌∷◌, ◌≡◌, refl, Option, none, some, if◌then◌else◌, ltb, length,
  length-append, Option-cases, inl, inr, arith,
}
use cat_graphrag.Prelude.Keys.{Str}
use cat_graphrag.Prelude.Texts.{codes}
use cat_graphrag.Prelude.Dict.{Dict}
use cat_graphrag.Extraction.Json.{
  Json, null, boolean, number, string, array, object, Runtime, elements, get, size,
}
use cat_graphrag.Extraction.Payload.{parsed_payload}
use cat_graphrag.Extraction.Payload.Laws.{same_payload}
use cat_graphrag.Extraction.Parse.{
  Concept, ConceptRelation, Definitions, kept, list_of, list_at, add_legacy, legacy_relation,
  legacy_loop, parse_concept, parse_relation, parse_data, parse_concept_relations,
}
use cat_graphrag.Extraction.Gate.{
  raw_container_count, count_of_present, count_at, counts_of, raw_item_counts, count_dropped_items,
}

-- The records that `f` does not keep.
abbrev pub rejected : {A : Type 0} → (Json → Option A) → List Json → ℕ
rejected f [] = 0
rejected f (x ∷ xs) = elim (f x) [ none ↦ suc (rejected f xs) | some _ ↦ rejected f xs ]

-- The records that are lost of one container: a list loses what is rejected, a missing one nothing,
-- and what is no list counts by itself.
abbrev pub lost_of : {A : Type 0} → (Json → Option A) → Option Json → ℕ
lost_of f none = 0
lost_of f (some (array xs)) = rejected f (elements xs)
lost_of f (some null) = 1
lost_of f (some (boolean _)) = 1
lost_of f (some (number _)) = 1
lost_of f (some (string _)) = 1
lost_of f (some (object fs)) = if ltb 1 (size fs) then size fs else 1

kept-rejected :
    {A : Type 0} (f : Json → Option A) (xs : List Json)
    → length (kept f xs) + rejected f xs ≡ length xs
unfolding kept
kept-rejected f [] = omega arith
kept-rejected f (x ∷ xs) = elim (Option-cases (f x)) [
  | inl e ↦ rw (e, rejected, kept) (omega (arith, kept-rejected f xs))
  | inr (a, e) ↦ rw (e, rejected, kept) (omega (arith, kept-rejected f xs))
]

lost_of_lem :
    {A : Type 0} (f : Json → Option A) (o : Option Json)
    → count_of_present o - length (kept f (list_of o)) ≡ lost_of f o
unfolding raw_container_count kept
lost_of_lem f none = refl
lost_of_lem f (some (array xs)) = omega (arith, kept-rejected f (elements xs))
lost_of_lem f (some null) = refl
lost_of_lem f (some (boolean _)) = refl
lost_of_lem f (some (number _)) = refl
lost_of_lem f (some (string _)) = refl
lost_of_lem f (some (object fs)) = omega arith

module _ (python : Runtime) (definitions : Definitions) where
  -- The records of a payload that are lost.
  abbrev pub lost : Option Json → ℕ
  lost none = 0
  lost (some (array items)) = rejected (legacy_relation python definitions) (elements items)
  lost (some (object fs)) =
      lost_of (parse_concept python definitions) (get (codes "concepts") fs)
      + lost_of (parse_relation python definitions) (get (codes "relations") fs)
  lost (some null) = 0
  lost (some (boolean _)) = 0
  lost (some (number _)) = 0
  lost (some (string _)) = 0

  length-legacy_loop :
      (acc : List ConceptRelation × Dict Str Concept) (items : List Json)
      → length (legacy_loop python definitions acc items).0
          + rejected (legacy_relation python definitions) items
        ≡ length acc.0 + length items
  unfolding legacy_loop
  length-legacy_loop acc [] = omega arith
  length-legacy_loop (rs, d) (item ∷ items) =
      elim (Option-cases (legacy_relation python definitions item)) [
        | inl e ↦ rw (e, legacy_loop, rejected) (omega (arith, length-legacy_loop (rs, d) items))
        | inr (k, e) ↦
            let rest = length-legacy_loop (add_legacy python definitions (some k) (rs, d)) items in
            rw (e, legacy_loop, rejected) (omega (arith, length-append rs (k.0 ∷ []), rest))
      ]

  counts_lem :
      (o : Option Json)
      → let p = parse_data python definitions o in
        ((counts_of o).0 - length p.concepts) + ((counts_of o).1 - length p.relations) ≡ lost o
  unfolding counts_of parse_data count_at list_at
  counts_lem none = refl
  counts_lem (some (array items)) = omega (arith, length-legacy_loop ([], []) (elements items))
  counts_lem (some (object fs)) =
      rw
        (
          lost_of_lem (parse_concept python definitions) (get (codes "concepts") fs),
          lost_of_lem (parse_relation python definitions) (get (codes "relations") fs),
        )
        refl
  counts_lem (some null) = refl
  counts_lem (some (boolean _)) = refl
  counts_lem (some (number _)) = refl
  counts_lem (some (string _)) = refl

  -- For what the lenient parser reads of an answer, the count of dropped items is the number of
  -- records of the answer that the parser rejected, and 1 or the size for a container that is no list.
  pub count_dropped_items_lem :
      (raw : Str)
      → let p = parse_concept_relations python definitions raw in
        count_dropped_items python raw (length p.concepts) (length p.relations)
        ≡ lost (parsed_payload python raw)
  unfolding count_dropped_items raw_item_counts parse_concept_relations
  count_dropped_items_lem raw =
      rw (same_payload python raw) (counts_lem (parsed_payload python raw))
