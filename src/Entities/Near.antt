-- ===== src/Entities/Near.antt =====
-- Phase 2 of _extract_relations: the loop that ends at the first entity beyond the window finds all
-- pairs within the window.
use cat_graphrag.Prelude.{
  ◌+◌, List, [], ◌∷◌, ◌++◌, map, ◌≡◌, refl, Bool, true, false, ◌&&◌, not, leb, ltb, arith, All,
  filter_by, is_in, Bool-cases, inl, inr,
}
use cat_graphrag.Prelude.Keys.{Str, str_key, pair_key, nat_key}
use cat_graphrag.Prelude.Sort.{Sorted, sort_by, sort_by-Sorted}
use cat_graphrag.Entities.{Python, Confidences, ExtractedEntity, ExtractedRelation}
use cat_graphrag.Entities.Nearness.{near_relation, near_one, near_all}

module _ (python : Python) (confidences : Confidences) (full_text : Str) where
  -- Less than 100 characters after the end of `e1`, and not related by the dependency tree.
  abbrev pub is_near :
      List (Str × Str) → ExtractedEntity confidences.F → ExtractedEntity confidences.F → Bool
  is_near found e1 e2 =
      ltb e2.start_char (e1.end_char + 100) && not (is_in (e1.name, e2.name) found)

  -- All pairs of an entity and a later one that are near.
  unfoldable pub near_pairs :
      List (Str × Str)
      → List (ExtractedEntity confidences.F)
      → List (ExtractedRelation confidences.F)
  near_pairs found [] = []
  near_pairs found (e ∷ es) =
      map (near_relation python confidences full_text e) (filter_by (is_near found e) es)
      ++ near_pairs found es

  none_near :
      (found : List (Str × Str)) (e1 e2 : ExtractedEntity confidences.F)
      (es : List (ExtractedEntity confidences.F))
      → leb (e1.end_char + 100) e2.start_char ≡ true
      → All (λ e. leb e2.start_char e.start_char ≡ true) es
      → filter_by (is_near found e1) es ≡ []
  none_near found e1 e2 [] h a = refl
  none_near found e1 e2 (e ∷ es) h (b, a) =
      let far : ltb e.start_char (e1.end_char + 100) ≡ false = ground arith in
      rw far (none_near found e1 e2 es h a)

  near_one_lem :
      (found : List (Str × Str)) (e1 : ExtractedEntity confidences.F)
      (es : List (ExtractedEntity confidences.F))
      → Sorted (λ e. e.start_char) es
      → near_one python confidences full_text found e1 es
        ≡ map (near_relation python confidences full_text e1) (filter_by (is_near found e1) es)
  unfolding near_one
  near_one_lem found e1 [] s = refl
  near_one_lem found e1 (e2 ∷ es) (a, s) =
      elim (Bool-cases (leb (e1.end_char + 100) e2.start_char)) [
        | inl far ↦
            let out : ltb e2.start_char (e1.end_char + 100) ≡ false = ground arith in
            rw (far, out, none_near found e1 e2 es far a) refl
        | inr near ↦
            let within : ltb e2.start_char (e1.end_char + 100) ≡ true = ground arith in
            elim (Bool-cases (is_in (e1.name, e2.name) found)) [
              | inl known ↦ rw (near, within, known) (near_one_lem found e1 es s)
              | inr new ↦ rw (near, within, new, near_one_lem found e1 es s) refl
            ]
      ]

  near_all-Sorted :
      (found : List (Str × Str)) (es : List (ExtractedEntity confidences.F))
      → Sorted (λ e. e.start_char) es
      → near_all python confidences full_text found es ≡ near_pairs found es
  unfolding near_all near_pairs
  near_all-Sorted found [] s = refl
  near_all-Sorted found (e ∷ es) (a, s) =
      rw (near_one_lem found e es s, near_all-Sorted found es s) refl

  -- For entities in the order of their starts, phase 2 of `_extract_relations` makes a relation for
  -- every pair of an entity and a later one that starts less than 100 characters after its end and
  -- that phase 1 has not related: the loop that stops at the first entity beyond misses none.
  pub near_all_lem :
      (found : List (Str × Str)) (entities : List (ExtractedEntity confidences.F))
      → near_all python confidences full_text found (sort_by (λ e. e.start_char) entities)
        ≡ near_pairs found (sort_by (λ e. e.start_char) entities)
  near_all_lem found entities =
      near_all-Sorted found (sort_by (λ e. e.start_char) entities)
        (sort_by-Sorted (λ e. e.start_char) entities)
