-- ===== src/Entities/Names.antt =====
-- Names of the entities: after `deduplicate_entities` of entity_extractor.py no two are the same.
use cat_graphrag.Prelude.{
  List, [], ◌∷◌, ◌≡◌, refl, sym, ap, ◌∙◌, false, Option, none, some, leb, arith, All, Has,
  Bool-cases, inl, inr,
}
use cat_graphrag.Prelude.Keys.{Str, str_eq, str_eq_iff, str_key, nat_key, pair_key}
use cat_graphrag.Prelude.Dict.{Dict, lookup, put, values, Distinct, put-Distinct}
use cat_graphrag.Prelude.Sort.{sort_by, insert}
use cat_graphrag.Entities.{
  Python, Confidences, ExtractedEntity, ExtractedRelation, normalized, keep_entity, deduplicated,
  deduplicate_entities,
}
use cat_graphrag.Entities.Pairs.{Joins}

module _ {F : Type 0} where
  abbrev pub Apart : ExtractedEntity F → ExtractedEntity F → Type 0
  Apart x y = str_eq x.name y.name ≡ false

  -- No two entities have the same name.
  abbrev pub Named : List (ExtractedEntity F) → Type 0
  Named [] = Unit
  Named (x ∷ xs) = All (Apart x) xs × Named xs

  All-insert :
      (P : ExtractedEntity F → Type 0) (x : ExtractedEntity F) (xs : List (ExtractedEntity F))
      → P x
      → All P xs
      → All P (insert (λ e. e.start_char) x xs)
  unfolding insert
  All-insert P x [] p a = (p, tt)
  All-insert P x (y ∷ ys) p a = elim (Bool-cases (leb x.start_char y.start_char)) [
    | inl before ↦ rw before (p, a)
    | inr after ↦ rw after (a.0, All-insert P x ys p a.1)
  ]

  Apart-sym : (x y : ExtractedEntity F) → Apart x y → Apart y x
  Apart-sym x y a = ground (arith, str_eq_iff x.name y.name, str_eq_iff y.name x.name)

  insert-Named :
      (x : ExtractedEntity F) (xs : List (ExtractedEntity F))
      → All (Apart x) xs
      → Named xs
      → Named (insert (λ e. e.start_char) x xs)
  unfolding insert
  insert-Named x [] a n = (tt, tt)
  insert-Named x (y ∷ ys) a n = elim (Bool-cases (leb x.start_char y.start_char)) [
    | inl before ↦ rw before (a, n)
    | inr after ↦
        rw after (All-insert (Apart y) x ys (Apart-sym x y a.0) n.0, insert-Named x ys a.1 n.1)
  ]

  All-sort_by :
      (P : ExtractedEntity F → Type 0) (xs : List (ExtractedEntity F))
      → All P xs
      → All P (sort_by (λ e. e.start_char) xs)
  unfolding sort_by
  All-sort_by P [] a = tt
  All-sort_by P (x ∷ xs) a =
      All-insert P x (sort_by (λ e. e.start_char) xs) a.0 (All-sort_by P xs a.1)

  pub sort_by-Named :
      (xs : List (ExtractedEntity F)) → Named xs → Named (sort_by (λ e. e.start_char) xs)
  unfolding sort_by
  sort_by-Named [] n = tt
  sort_by-Named (x ∷ xs) n =
      insert-Named x (sort_by (λ e. e.start_char) xs) (All-sort_by (Apart x) xs n.0)
        (sort_by-Named xs n.1)

  -- Relations of some of the entities are relations of all.
  pub Joins-mono :
      (es fs : List (ExtractedEntity F))
      → ((e : ExtractedEntity F) → Has e es → Has e fs)
      → (rs : List (ExtractedRelation F)) → All (Joins es) rs
      → All (Joins fs) rs
  Joins-mono es fs sub [] a = tt
  Joins-mono es fs sub (r ∷ rs) (j, a) = (
    record {
      source = j.source;
      target = j.target;
      has_source = sub j.source j.has_source;
      has_target = sub j.target j.has_target;
      source_named = j.source_named;
      target_named = j.target_named;
      differ = j.differ;
    },
    Joins-mono es fs sub rs a,
  )

module _ (python : Python) (confidences : Confidences) where
  -- Each entity stands under its normalized name.
  abbrev Keyed : Dict Str (ExtractedEntity confidences.F) → Type 0
  Keyed = All (λ (p : Str × ExtractedEntity confidences.F). normalized python p.1.name ≡ p.0)

  put-Keyed :
      (e : ExtractedEntity confidences.F) (k : Str) (d : Dict Str (ExtractedEntity confidences.F))
      → normalized python e.name ≡ k
      → Keyed d
      → Keyed (put k e d)
  unfolding put
  put-Keyed e k [] h a = (h, tt)
  put-Keyed e k ((j, x) ∷ d) h (b, a) = elim (Bool-cases (str_eq j k)) [
    | inl same ↦ rw same (h ∙ sym ((str_eq_iff j k).0 same), a)
    | inr other ↦ rw other (b, put-Keyed e k d h a)
  ]

  lookup-Keyed :
      (k : Str) (d : Dict Str (ExtractedEntity confidences.F)) (e : ExtractedEntity confidences.F)
      → Keyed d
      → lookup k d ≡ some e
      → normalized python e.name ≡ k
  unfolding lookup
  lookup-Keyed k [] e a h = absurd (ground arith)
  lookup-Keyed k ((j, x) ∷ d) e (b, a) h = elim (Bool-cases (str_eq j k)) [
    | inl same ↦
        let q : some x ≡ some e = rw same at h in
        ap (λ o. elim o [ none ↦ normalized python x.name | some y ↦ normalized python y.name ])
          (sym q)
        ∙ b
        ∙ (str_eq_iff j k).0 same
    | inr other ↦ let q : lookup k d ≡ some e = rw other at h in lookup-Keyed k d e a q
  ]

  kept_name :
      (k : Str) (o : Option (ExtractedEntity confidences.F)) (e : ExtractedEntity confidences.F)
      → ((x : ExtractedEntity confidences.F) → o ≡ some x → normalized python x.name ≡ k)
      → normalized python e.name ≡ k
      → normalized python (keep_entity python confidences o e).name ≡ k
  unfolding keep_entity
  kept_name k none e h q = q
  kept_name k (some x) e h q = elim (Bool-cases (confidences.gt e.confidence x.confidence)) [
    | inl better ↦ rw better q
    | inr not_better ↦ rw not_better (h x refl)
  ]

  deduplicated-Keyed :
      (es : List (ExtractedEntity confidences.F)) (d : Dict Str (ExtractedEntity confidences.F))
      → Keyed d
      → Distinct d
      → Keyed (deduplicated python confidences d es)
        × Distinct (deduplicated python confidences d es)
  unfolding deduplicated
  deduplicated-Keyed [] d a u = (a, u)
  deduplicated-Keyed (e ∷ es) d a u =
      let k = normalized python e.name in
      let kept = keep_entity python confidences (lookup k d) e in
      deduplicated-Keyed es (put k kept d)
        (put-Keyed kept k d (kept_name k (lookup k d) e (λ x h. lookup-Keyed k d x a h) refl) a)
        (put-Distinct k kept d u)

  values-Apart :
      (k : Str) (x : ExtractedEntity confidences.F) (d : Dict Str (ExtractedEntity confidences.F))
      → normalized python x.name ≡ k
      → lookup k d ≡ none
      → Keyed d
      → All (Apart x) (values d)
  unfolding lookup
  values-Apart k x [] h m a = tt
  values-Apart k x ((j, y) ∷ d) h m (b, a) = elim (Bool-cases (str_eq j k)) [
    | inl same ↦ let q : some y ≡ none = rw same at m in absurd (ground arith)
    | inr other ↦
        let q : lookup k d ≡ none = rw other at m in
        (
          elim (Bool-cases (str_eq x.name y.name)) [
            | inl alike ↦
                let one : j ≡ k =
                  sym b ∙ ap (normalized python) (sym ((str_eq_iff x.name y.name).0 alike)) ∙ h in
                absurd (ground (arith, str_eq_iff j k))
            | inr unlike ↦ unlike
          ],
          values-Apart k x d h q a,
        )
  ]

  values-Named :
      (d : Dict Str (ExtractedEntity confidences.F)) → Keyed d → Distinct d → Named (values d)
  unfolding lookup
  values-Named [] a u = tt
  values-Named ((k, x) ∷ d) (b, a) (m, u) = (values-Apart k x d b m a, values-Named d a u)

  -- After deduplication no two entities have the same name.
  pub deduplicate_entities-Named :
      (es : List (ExtractedEntity confidences.F))
      → Named (deduplicate_entities python confidences es)
  unfolding deduplicate_entities
  deduplicate_entities-Named es =
      let (keyed, distinct) = deduplicated-Keyed es [] tt tt in values-Named _ keyed distinct
