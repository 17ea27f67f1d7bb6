-- ===== src/GraphWrite/Stays.antt =====
-- The entities and relations that the steps of the graph transaction keep, and the relations that come.
use mathlib.Core.Path.{subst}
use cat_graphrag.Prelude.{
  ℕ, List, [], ◌∷◌, ◌++◌, map, ◌≡◌, refl, sym, ◌∙◌, Bool, true, ◌&&◌, Option, any, any-append,
  arith, Has, Bool-cases, inl, inr, if◌then◌else◌,
}
use cat_graphrag.Prelude.Keys.{Str, str_eq_iff}
use cat_graphrag.SourceGraph.Types.{Floats, Mention, Relation}
use cat_graphrag.Graph.{RelatedTo, Graph}
use cat_graphrag.Graph.Cypher.{is_entity_of}
use cat_graphrag.GraphWrite.{
  is_at, has_ends, add_mention, add_provenance, unwind, is_relation, mean_weight, merge_files,
  merge_relation, add_relation,
}
use cat_graphrag.GraphWrite.Merges.{any-is_at-map, is_at-if}

-- What each step of a loop keeps is kept by the loop.
pub unwind-keeps :
    {A G : Type 0} (P : G → Type 0) (f : A → G → G)
    → ((x : A) (g : G) → P g → P (f x g))
    → (xs : List A) (g : G) → P g
    → P (unwind f xs g)
unfolding unwind
unwind-keeps P f step [] g h = h
unwind-keeps P f step (x ∷ xs) g h = unwind-keeps P f step xs (f x g) (step x g h)

pub unwind-append :
    {A G : Type 0} (f : A → G → G) (xs ys : List A) (g : G)
    → unwind f (xs ++ ys) g ≡ unwind f ys (unwind f xs g)
unfolding unwind
unwind-append f [] ys g = refl
unwind-append f (x ∷ xs) ys g = unwind-append f xs ys (f x g)

module _ {V W : Type 0} (tenant : Str) where
  abbrev pub Known : Str → Graph V W → Type 0
  Known id g = is_entity_of g tenant id ≡ true

  pub add_mention-Known :
      {F : Type 0} (id : Str) (m : Mention F) (g : Graph V W)
      → Known id g
      → Known id (add_mention tenant m g)
  unfolding add_mention is_entity_of
  add_mention-Known id m g h = elim (Bool-cases (has_ends tenant g m)) [
    | inl y ↦ rw y h
    | inr n ↦ rw n h
  ]

  pub add_provenance-Known :
      {F : Type 0} (id : Str) (m : Mention F) (g : Graph V W)
      → Known id g
      → Known id (add_provenance tenant m g)
  unfolding add_provenance is_entity_of
  add_provenance-Known id m g h = elim (Bool-cases (has_ends tenant g m)) [
    | inl y ↦ rw y (
        any-is_at-map tenant id _ g.entities (λ e.
          is_at-if tenant id (is_at tenant m.entity_id e) e
            (record e { tracked_by_provenance = true }) refl refl)
        ∙ h)
    | inr n ↦ rw n h
  ]

  -- Mentions and provenance leave the relations alone.
  pub add_mention-quiet :
      {F : Type 0} (q : RelatedTo W → Bool) (m : Mention F) (g : Graph V W)
      → any q g.related_to ≡ true
      → any q (add_mention tenant m g).related_to ≡ true
  unfolding add_mention
  add_mention-quiet q m g h = elim (Bool-cases (has_ends tenant g m)) [
    | inl y ↦ rw y h
    | inr n ↦ rw n h
  ]

  pub add_provenance-quiet :
      {F : Type 0} (q : RelatedTo W → Bool) (m : Mention F) (g : Graph V W)
      → any q g.related_to ≡ true
      → any q (add_provenance tenant m g).related_to ≡ true
  unfolding add_provenance
  add_provenance-quiet q m g h = elim (Bool-cases (has_ends tenant g m)) [
    | inl y ↦ rw y h
    | inr n ↦ rw n h
  ]

module _ (floats : Floats) (fresh : List (RelatedTo (Option floats.F)) → ℕ) where
  -- A matched relation keeps its ends and its type.
  is_relation-map :
      (x rel : Relation floats.F) (rs : List (RelatedTo (Option floats.F)))
      → any (is_relation floats x) (
          map
            (λ r.
              if is_relation floats rel r
              then record r {
                weight = mean_weight floats r.weight rel.weight;
                source_files = merge_files r.source_files rel.source_files;
              }
              else r)
            rs)
        ≡ any (is_relation floats x) rs
  is_relation-map x rel [] = refl
  is_relation-map x rel (r ∷ rs) = elim (Bool-cases (is_relation floats rel r)) [
    | inl y ↦ rw (y, is_relation-map x rel rs) refl
    | inr n ↦ rw (n, is_relation-map x rel rs) refl
  ]

  merge_relation-stays :
      (x rel : Relation floats.F) (rs : List (RelatedTo (Option floats.F)))
      → any (is_relation floats x) rs ≡ true
      → any (is_relation floats x) (merge_relation floats fresh rel rs) ≡ true
  unfolding merge_relation
  merge_relation-stays x rel rs h = elim (Bool-cases (any (is_relation floats rel) rs)) [
    | inl y ↦ rw y (is_relation-map x rel rs ∙ h)
    | inr n ↦ rw n (any-append (is_relation floats x) rs _ ∙ ground arith)
  ]

  merge_relation-comes :
      (rel : Relation floats.F) (rs : List (RelatedTo (Option floats.F)))
      → any (is_relation floats rel) (merge_relation floats fresh rel rs) ≡ true
  unfolding merge_relation
  merge_relation-comes rel rs = elim (Bool-cases (any (is_relation floats rel) rs)) [
    | inl y ↦ rw y (is_relation-map rel rel rs ∙ y)
    | inr n ↦ rw n (
        any-append (is_relation floats rel) rs _
        ∙ ground (
          arith,
          str_eq_iff rel.source_id rel.source_id,
          str_eq_iff rel.target_id rel.target_id,
          str_eq_iff rel.rel_type rel.rel_type,
        ))
  ]

module _ (floats : Floats) {V : Type 0} (fresh : List (RelatedTo (Option floats.F)) → ℕ)
    (tenant : Str) where
  pub add_relation-Known :
      (id : Str) (rel : Relation floats.F) (g : Graph V (Option floats.F))
      → Known tenant id g
      → Known tenant id (add_relation floats fresh tenant rel g)
  unfolding add_relation is_entity_of
  add_relation-Known id rel g h =
      elim (Bool-cases
        (is_entity_of g tenant rel.source_id && is_entity_of g tenant rel.target_id)) [
          | inl y ↦ rw y h
          | inr n ↦ rw n h
        ]

  abbrev pub IsRelated : Relation floats.F → Graph V (Option floats.F) → Type 0
  IsRelated rel g = any (is_relation floats rel) g.related_to ≡ true

  pub add_relation-stays :
      (x rel : Relation floats.F) (g : Graph V (Option floats.F))
      → IsRelated x g
      → IsRelated x (add_relation floats fresh tenant rel g)
  unfolding add_relation
  add_relation-stays x rel g h =
      elim (Bool-cases
        (is_entity_of g tenant rel.source_id && is_entity_of g tenant rel.target_id)) [
          | inl y ↦ rw y (merge_relation-stays floats fresh x rel g.related_to h)
          | inr n ↦ rw n h
        ]

  add_relation-comes :
      (rel : Relation floats.F) (g : Graph V (Option floats.F))
      → Known tenant rel.source_id g
      → Known tenant rel.target_id g
      → IsRelated rel (add_relation floats fresh tenant rel g)
  unfolding add_relation
  add_relation-comes rel g s t = rw (s, t) (merge_relation-comes floats fresh rel g.related_to)

  pub unwind-comes :
      (rel : Relation floats.F) (rels : List (Relation floats.F)) (g : Graph V (Option floats.F))
      → Has rel rels
      → Known tenant rel.source_id g
      → Known tenant rel.target_id g
      → IsRelated rel (unwind (add_relation floats fresh tenant) rels g)
  unfolding unwind
  unwind-comes rel [] g has s t = absurd has
  unwind-comes rel (x ∷ rels) g (inl same) s t =
      unwind-keeps (IsRelated rel) (add_relation floats fresh tenant) (add_relation-stays rel) rels
        (add_relation floats fresh tenant x g)
        (subst (λ y. IsRelated rel (add_relation floats fresh tenant y g)) (sym same)
          (add_relation-comes rel g s t))
  unwind-comes rel (x ∷ rels) g (inr has) s t =
      unwind-comes rel rels (add_relation floats fresh tenant x g) has
        (add_relation-Known rel.source_id x g s) (add_relation-Known rel.target_id x g t)
