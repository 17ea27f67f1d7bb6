-- ===== src/GraphWrite/Effect.antt =====
-- The transaction of a source's graph writes both kinds of evidence of every mention that has ends.
use mathlib.Core.Path.{subst}
use cat_graphrag.Prelude.{
  ℕ, List, [], ◌∷◌, ◌≡◌, refl, sym, ap, ◌∙◌, Bool, true, ◌&&◌, Option, any, arith, Has, Bool-cases,
  inl, inr,
}
use cat_graphrag.Prelude.Keys.{Str}
use cat_graphrag.SourceGraph.Types.{Floats, Entity, Mention, Relation, WritePlan}
use cat_graphrag.Graph.{EntityNode, EvidenceType, mentions, provenance, Evidence, RelatedTo, Graph}
use cat_graphrag.Graph.Cypher.{is_document_of, is_entity_of}
use cat_graphrag.GraphWrite.{
  MetadataTexts, is_at, merge_entities, has_ends, add_mention, add_provenance, unwind, add_relation,
  write_graph_plan_in_tx,
}
use cat_graphrag.GraphWrite.Merges.{
  told, any-is_at-map, is_at-if, any-merge_evidence, told-merge_evidence, stays-merge_entity,
  comes-merge_entity,
}

module _ {F V W : Type 0} (tenant : Str) where
  has_ends-add_mention :
      (x m : Mention F) (g : Graph V W)
      → has_ends tenant (add_mention tenant x g) m ≡ has_ends tenant g m
  unfolding add_mention has_ends is_document_of is_entity_of
  has_ends-add_mention x m g = elim (Bool-cases (has_ends tenant g x)) [
    | inl both ↦ rw (both, has_ends) refl
    | inr missing ↦ rw (missing, has_ends) refl
  ]

  has_ends-add_provenance :
      (x m : Mention F) (g : Graph V W)
      → has_ends tenant (add_provenance tenant x g) m ≡ has_ends tenant g m
  unfolding add_provenance has_ends is_document_of is_entity_of
  has_ends-add_provenance x m g = elim (Bool-cases (has_ends tenant g x)) [
    | inl both ↦
        rw (both, has_ends)
          (ap (λ b. is_document_of g tenant m.doc_id && b)
            (any-is_at-map tenant m.entity_id _ g.entities (λ e.
              is_at-if tenant m.entity_id (is_at tenant x.entity_id e) e
                (record e { tracked_by_provenance = true }) refl refl)))
    | inr missing ↦ rw (missing, has_ends) refl
  ]

  -- What a loop over mentions needs to write the evidence of one of them.
  module _ (kind : EvidenceType) (m : Mention F) (f : Mention F → Graph V W → Graph V W)
      (ends : (x : Mention F) (g : Graph V W) → has_ends tenant (f x g) m ≡ has_ends tenant g m)
      (comes : (g : Graph V W)
        → has_ends tenant g m ≡ true
        → any (told kind m) (f m g).evidence ≡ true)
      (stays : (x : Mention F) (g : Graph V W) (q : Evidence → Bool)
        → any q g.evidence ≡ true
        → any q (f x g).evidence ≡ true) where
    unwind-stays :
        (xs : List (Mention F)) (g : Graph V W) (q : Evidence → Bool)
        → any q g.evidence ≡ true
        → any q (unwind f xs g).evidence ≡ true
    unfolding unwind
    unwind-stays [] g q h = h
    unwind-stays (x ∷ xs) g q h = unwind-stays xs (f x g) q (stays x g q h)

    unwind-ends :
        (xs : List (Mention F)) (g : Graph V W)
        → has_ends tenant (unwind f xs g) m ≡ has_ends tenant g m
    unfolding unwind
    unwind-ends [] g = refl
    unwind-ends (x ∷ xs) g = unwind-ends xs (f x g) ∙ ends x g

    unwind-told :
        (xs : List (Mention F)) (g : Graph V W)
        → Has m xs
        → has_ends tenant g m ≡ true
        → any (told kind m) (unwind f xs g).evidence ≡ true
    unfolding unwind
    unwind-told [] g has e = absurd has
    unwind-told (x ∷ xs) g (inl same) e =
        unwind-stays xs (f x g) (told kind m)
          (subst (λ y. any (told kind m) (f y g).evidence ≡ true) (sym same) (comes g e))
    unwind-told (x ∷ xs) g (inr has) e = unwind-told xs (f x g) has (ends x g ∙ e)

  stays-add_mention :
      (x : Mention F) (g : Graph V W) (q : Evidence → Bool)
      → any q g.evidence ≡ true
      → any q (add_mention tenant x g).evidence ≡ true
  unfolding add_mention
  stays-add_mention x g q h = elim (Bool-cases (has_ends tenant g x)) [
    | inl both ↦ rw both (any-merge_evidence q mentions x.doc_id x.entity_id g.evidence h)
    | inr missing ↦ rw missing h
  ]

  stays-add_provenance :
      (x : Mention F) (g : Graph V W) (q : Evidence → Bool)
      → any q g.evidence ≡ true
      → any q (add_provenance tenant x g).evidence ≡ true
  unfolding add_provenance
  stays-add_provenance x g q h = elim (Bool-cases (has_ends tenant g x)) [
    | inl both ↦ rw both (any-merge_evidence q provenance x.doc_id x.entity_id g.evidence h)
    | inr missing ↦ rw missing h
  ]

  comes-add_mention :
      (m : Mention F) (g : Graph V W)
      → has_ends tenant g m ≡ true
      → any (told mentions m) (add_mention tenant m g).evidence ≡ true
  unfolding add_mention
  comes-add_mention m g e = rw e (told-merge_evidence mentions m g.evidence)

  comes-add_provenance :
      (m : Mention F) (g : Graph V W)
      → has_ends tenant g m ≡ true
      → any (told provenance m) (add_provenance tenant m g).evidence ≡ true
  unfolding add_provenance
  comes-add_provenance m g e = rw e (told-merge_evidence provenance m g.evidence)

module _ (floats : Floats) {T V : Type 0} (texts : MetadataTexts floats.F T)
    (raw_of : Entity floats.F T V → T) (fresh : List (RelatedTo (Option floats.F)) → ℕ)
    (tenant : Str) where
  relations_quiet :
      (rels : List (Relation floats.F)) (g : Graph V (Option floats.F))
      → (unwind (add_relation floats fresh tenant) rels g).evidence ≡ g.evidence
  unfolding unwind add_relation
  relations_quiet [] g = refl
  relations_quiet (rel ∷ rels) g =
      relations_quiet rels (add_relation floats fresh tenant rel g)
      ∙ elim (Bool-cases
          (is_entity_of g tenant rel.source_id && is_entity_of g tenant rel.target_id)) [
            | inl both ↦ rw both refl
            | inr missing ↦ rw missing refl
          ]

  pub stays-merge_entities :
      (before : List (EntityNode V)) (ents : List (Entity floats.F T V)) (id : Str)
      (es : List (EntityNode V))
      → any (is_at tenant id) es ≡ true
      → any (is_at tenant id) (merge_entities floats texts tenant raw_of before ents es) ≡ true
  unfolding merge_entities
  stays-merge_entities before [] id es h = h
  stays-merge_entities before (ent ∷ ents) id es h =
      stays-merge_entities before ents id _ (stays-merge_entity tenant ent _ id es h)

  pub comes-merge_entities :
      (before : List (EntityNode V)) (ents : List (Entity floats.F T V)) (ent : Entity floats.F T V)
      (es : List (EntityNode V))
      → Has ent ents
      → any (is_at tenant ent.id) (merge_entities floats texts tenant raw_of before ents es) ≡ true
  unfolding merge_entities
  comes-merge_entities before [] ent es h = absurd h
  comes-merge_entities before (x ∷ xs) ent es (inl same) =
      subst
        (λ y.
          any (is_at tenant y.id) (merge_entities floats texts tenant raw_of before (x ∷ xs) es)
          ≡ true)
        same (stays-merge_entities before xs x.id _ (comes-merge_entity tenant x _ es))
  comes-merge_entities before (x ∷ xs) ent es (inr h) = comes-merge_entities before xs ent _ h

  -- After the transaction, every mention of the plan whose document is one of the tenant's and whose
  -- entity is in the plan has a MENTIONS and a PROVENANCE relationship.
  pub write_graph_plan_in_tx-told :
      (plan : WritePlan floats.F T V) (g : Graph V (Option floats.F)) (m : Mention floats.F)
      (ent : Entity floats.F T V)
      → Has m plan.mentions
      → Has ent plan.entities
      → ent.id ≡ m.entity_id
      → is_document_of g tenant m.doc_id ≡ true
      → let after = (write_graph_plan_in_tx floats texts raw_of fresh tenant plan g).evidence in
        (any (told mentions m) after ≡ true) × (any (told provenance m) after ≡ true)
  unfolding write_graph_plan_in_tx has_ends is_document_of is_entity_of
  write_graph_plan_in_tx-told plan g m ent has_m has_ent same doc =
      let g1 : Graph V (Option floats.F) = record g {
        entities = merge_entities floats texts tenant raw_of g.entities plan.entities g.entities;
      } in
      let g2 = unwind (add_mention tenant) plan.mentions g1 in
      let g3 = unwind (add_provenance tenant) plan.mentions g2 in
      let there =
        subst (λ i. any (is_at tenant i) g1.entities ≡ true) same
          (comes-merge_entities g.entities plan.entities ent g.entities has_ent) in
      let ends : has_ends tenant g1 m ≡ true = ground (arith, there, doc) in
      let told2 =
        unwind-told tenant mentions m (add_mention tenant)
          (λ x g. has_ends-add_mention tenant x m g) (comes-add_mention tenant m)
          (stays-add_mention tenant) plan.mentions g1 has_m ends in
      let ends2 =
        unwind-ends tenant mentions m (add_mention tenant)
          (λ x g. has_ends-add_mention tenant x m g) (comes-add_mention tenant m)
          (stays-add_mention tenant) plan.mentions g1
        ∙ ends in
      let told3 =
        unwind-stays tenant provenance m (add_provenance tenant)
          (λ x g. has_ends-add_provenance tenant x m g) (comes-add_provenance tenant m)
          (stays-add_provenance tenant) plan.mentions g2 (told mentions m) told2 in
      let prov3 =
        unwind-told tenant provenance m (add_provenance tenant)
          (λ x g. has_ends-add_provenance tenant x m g) (comes-add_provenance tenant m)
          (stays-add_provenance tenant) plan.mentions g2 has_m ends2 in
      let quiet = relations_quiet plan.relations g3 in
      (ap (any (told mentions m)) quiet ∙ told3, ap (any (told provenance m)) quiet ∙ prov3)
