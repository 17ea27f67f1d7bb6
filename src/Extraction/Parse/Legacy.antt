-- ===== src/Extraction/Parse/Legacy.antt =====
-- The legacy list of an answer: its concepts are the ends of its relations.
use cat_graphrag.Prelude.{
  is_some, List, [], ◌∷◌, ◌++◌, ◌≡◌, ◌⊎◌, refl, ◌∙◌, Bool, true, some, All, All-append, Has,
  Bool-cases, Option-cases, inl, inr, arith,
}
use cat_graphrag.Prelude.Keys.{Str, str_key, str_eq, str_eq_iff, contains}
use cat_graphrag.Prelude.Texts.{codes}
use cat_graphrag.Prelude.Dict.{Dict, values, lookup, put, lookup-put}
use cat_graphrag.Extraction.Json.{
  Json, null, boolean, number, string, array, object, Runtime, text_or_empty,
}
use cat_graphrag.Extraction.Payload.{strip}
use cat_graphrag.Extraction.Parse.{
  Concept, ConceptRelation, Definitions, concept_type, setdefault, concept_of, legacy_relation,
  add_ends, legacy_loop, legacy_product,
}
use cat_graphrag.Extraction.Parse.Laws.{IsConcept, IsRelation, known}

-- Some concept of the list has this norm.
abbrev pub HasNorm : Str → List Concept → Type 0
HasNorm k cs = (c : Concept) × Has c cs × (c.norm ≡ k)

module _ (P : Str × Concept → Type 0) (k : Str) (c : Concept) (new : P (k, c)) where
  All-put : (d : Dict Str Concept) → All P d → All P (put k c d)
  unfolding put
  All-put [] h = (new, tt)
  All-put ((j, v) ∷ d) h = elim (Bool-cases (str_eq j k)) [
    | inl same ↦ rw (same, All) (rw ((str_eq_iff j k).0 same) new, h.1)
    | inr differ ↦ rw (differ, All) (h.0, All-put d h.1)
  ]

  All-setdefault : (d : Dict Str Concept) → All P d → All P (setdefault k c d)
  unfolding setdefault
  All-setdefault d h = elim (Option-cases (lookup k d)) [
    | inl e ↦ rw (e, All) (All-put d h)
    | inr (v, e) ↦ rw (e, All) h
  ]

abbrev present : Str → Dict Str Concept → Bool
present k d = is_some (lookup k d)

present-setdefault :
    (j k : Str) (c : Concept) (d : Dict Str Concept)
    → (present k (setdefault k c d) ≡ true)
      × (present j d ≡ true → present j (setdefault k c d) ≡ true)
unfolding setdefault
present-setdefault j k c d = elim (Option-cases (lookup k d)) [
  | inl e ↦
      rw (e, setdefault)
        (
          ground (arith, lookup-put k k c d, str_eq_iff k k),
          λ h. ground (arith, lookup-put k j c d),
        )
  | inr (v, e) ↦ rw (e, setdefault) (ground arith, λ h. h)
]

module _ (python : Runtime) (definitions : Definitions) where
  abbrev IsEntry : Str × Concept → Type 0
  IsEntry (k, c) = IsConcept python definitions c × (c.norm ≡ k)

  abbrev HasEnds : Dict Str Concept → ConceptRelation → Type 0
  HasEnds d r =
      (present (python.casefold r.origin) d ≡ true)
      × (present (python.casefold r.destination) d ≡ true)

  -- What holds of the two variables in each round.
  abbrev IsSound : List ConceptRelation × Dict Str Concept → Type 0
  IsSound (relations, concepts) =
      All (IsRelation python definitions) relations
      × All IsEntry concepts
      × All (HasEnds concepts) relations

  abbrev IsKnown : Str → Type 0
  IsKnown t = (contains t definitions.concept_types ≡ true) ⊎ (t ≡ concept_type)

  legacy_relation-Sound :
      (j : Json) (r : ConceptRelation) (st ot : Str)
      → legacy_relation python definitions j ≡ some (r, (st, ot))
      → IsRelation python definitions r × IsKnown st × IsKnown ot
  unfolding legacy_relation
  legacy_relation-Sound (object item) r st ot h = ground (
    arith,
    known python definitions
        (python.upper (strip python (text_or_empty python (codes "subject_type") item))),
    known python definitions
        (python.upper (strip python (text_or_empty python (codes "object_type") item))),
  )
  legacy_relation-Sound null r st ot h = absurd (ground arith)
  legacy_relation-Sound (boolean _) r st ot h = absurd (ground arith)
  legacy_relation-Sound (number _) r st ot h = absurd (ground arith)
  legacy_relation-Sound (string _) r st ot h = absurd (ground arith)
  legacy_relation-Sound (array _) r st ot h = absurd (ground arith)

  add_ends-HasEnds :
      (kept r : ConceptRelation) (st ot : Str) (d : Dict Str Concept)
      → HasEnds d r
      → HasEnds (add_ends python definitions (kept, (st, ot)) d) r
  add_ends-HasEnds kept r st ot d h =
      let cf = python.casefold in
      let first = setdefault (cf kept.origin) (concept_of python definitions st kept.origin) d in
      let second = λ (j : Str).
        present-setdefault j (cf kept.destination)
          (concept_of python definitions ot kept.destination) first in
      (
        (second (cf r.origin)).1 (
            (present-setdefault (cf r.origin) (cf kept.origin)
                (concept_of python definitions st kept.origin) d).1
              h.0),
        (second (cf r.destination)).1 (
            (present-setdefault (cf r.destination) (cf kept.origin)
                (concept_of python definitions st kept.origin) d).1
              h.1),
      )

  add_ends-present :
      (r : ConceptRelation) (st ot : Str) (d : Dict Str Concept)
      → HasEnds (add_ends python definitions (r, (st, ot)) d) r
  add_ends-present r st ot d =
      let cf = python.casefold in
      let o = concept_of python definitions st r.origin in
      let first = setdefault (cf r.origin) o d in
      let second =
        present-setdefault (cf r.origin) (cf r.destination)
          (concept_of python definitions ot r.destination) first in
      (second.1 (present-setdefault (cf r.origin) (cf r.origin) o d).0, second.0)

  All-HasEnds :
      (d d' : Dict Str Concept)
      → ((r : ConceptRelation) → HasEnds d r → HasEnds d' r)
      → (rs : List ConceptRelation) → All (HasEnds d) rs
      → All (HasEnds d') rs
  All-HasEnds d d' f [] h = tt
  All-HasEnds d d' f (r ∷ rs) h = (f r h.0, All-HasEnds d d' f rs h.1)

  legacy_loop-Sound :
      (acc : List ConceptRelation × Dict Str Concept) (items : List Json)
      → IsSound acc
      → IsSound (legacy_loop python definitions acc items)
  unfolding legacy_loop
  legacy_loop-Sound acc [] h = h
  legacy_loop-Sound (rs, d) (item ∷ items) h =
      elim (Option-cases (legacy_relation python definitions item)) [
        | inl e ↦ rw (e, legacy_loop) (legacy_loop-Sound (rs, d) items h)
        | inr ((r, (st, ot)), e) ↦
            let (is_relation, st_known, ot_known) = legacy_relation-Sound item r st ot e in
            let d' = add_ends python definitions (r, (st, ot)) d in
            let entries : All IsEntry d' =
              All-setdefault IsEntry (python.casefold r.destination)
                (concept_of python definitions ot r.destination)
                ((is_relation.1, ot_known, refl), refl)
                (setdefault (python.casefold r.origin) (concept_of python definitions st r.origin)
                  d)
                (All-setdefault IsEntry (python.casefold r.origin)
                  (concept_of python definitions st r.origin)
                  ((is_relation.0, st_known, refl), refl) d h.1) in
            let next : IsSound (rs ++ r ∷ [], d') = (
              All-append (IsRelation python definitions) rs (r ∷ []) h.0 (is_relation, tt),
              entries,
              All-append (HasEnds d') rs (r ∷ [])
                  (All-HasEnds d d' (λ q. add_ends-HasEnds r q st ot d) rs h.2)
                  (add_ends-present r st ot d, tt),
            ) in
            rw (e, legacy_loop) (legacy_loop-Sound (rs ++ r ∷ [], d') items next)
      ]

  HasNorm-lookup :
      (k : Str) (d : Dict Str Concept) → All IsEntry d → present k d ≡ true → HasNorm k (values d)
  unfolding lookup
  HasNorm-lookup k [] h p = absurd (ground arith)
  HasNorm-lookup k ((j, c) ∷ d) h p = elim (Bool-cases (str_eq j k)) [
    | inl same ↦ (c, inl refl, h.0.1 ∙ (str_eq_iff j k).0 same)
    | inr differ ↦ let (x, has, norm) = HasNorm-lookup k d h.1 (ground arith) in (x, inr has, norm)
  ]

  All-HasNorm :
      (d : Dict Str Concept) (rs : List ConceptRelation)
      → All IsEntry d
      → All (HasEnds d) rs
      → All
          (λ r.
            HasNorm (python.casefold r.origin) (values d)
            × HasNorm (python.casefold r.destination) (values d))
          rs
  All-HasNorm d [] h ends = tt
  All-HasNorm d (r ∷ rs) h ends = (
    (
      HasNorm-lookup (python.casefold r.origin) d h ends.0.0,
      HasNorm-lookup (python.casefold r.destination) d h ends.0.1,
    ),
    All-HasNorm d rs h ends.1,
  )

  All-values :
      (d : Dict Str Concept) → All IsEntry d → All (IsConcept python definitions) (values d)
  All-values [] h = tt
  All-values ((k, c) ∷ d) h = (h.0.0, All-values d h.1)

  -- The product of a legacy list: concepts and relations that the store takes, and a concept for
  -- both ends of every relation.
  pub legacy_product-Sound :
      (items : List Json)
      → let p = legacy_product python definitions items in
        All (IsConcept python definitions) p.concepts
        × All (IsRelation python definitions) p.relations
        × All
            (λ r.
              HasNorm (python.casefold r.origin) p.concepts
              × HasNorm (python.casefold r.destination) p.concepts)
            p.relations
  legacy_product-Sound items =
      let (relations, concepts) = legacy_loop python definitions ([], []) items in
      let sound = legacy_loop-Sound ([], []) items (tt, tt, tt) in
      (All-values concepts sound.1, sound.0, All-HasNorm concepts relations sound.1 sound.2)
