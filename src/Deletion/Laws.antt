-- ===== src/Deletion/Laws.antt =====
-- The purge of a source as a whole: what it deletes, what it keeps, and purging again.
use cat_graphrag.Prelude.{
  List, [], map, ◌≡◌, ◌↔◌, refl, ap, ◌∙◌, true, false, ◌&&◌, not, arith, any, any_iff,
  filter_by-all, filter_by-none, Has, Bool-cases, not_true, inl, inr,
}
use cat_graphrag.Prelude.Keys.{Str, str_eq}
use cat_graphrag.Graph.{EntityNode, Evidence, RelatedTo, SimilarTo, Graph}
use cat_graphrag.Graph.Cypher.{
  detach_entities, is_entity_of, joins_entities_of, joins_documents_of, is_from,
}
use cat_graphrag.Deletion.{
  documents_with, is_evidence_of, pointed_at, delete_source_edges, similar_ids, related_ids,
  delete_similar, strip_related, is_unreferenced, prune_entities,
}
use cat_graphrag.Graph.Runs.{Splits}
use cat_graphrag.Deletion.Purge.{source_fragment}
use cat_graphrag.Deletion.Batching.{delete_similar-Splits, strip_related-Splits}
use cat_graphrag.Deletion.Pruning.{prune_entities-Splits, is_unreferenced-Stable}
use cat_graphrag.Deletion.Effect.{without_evidence, without_similar, without_relations, purged}
use cat_graphrag.Deletion.Traces.{
  only_from, touches, Numbered, Has-without_evidence, Has-evidence_kept, Has-without_similar,
  is_from-without_relations,
}

module _ {V W : Type 0} (dumps : Str → Str) (tenant source : Str) (g : Graph V W) where
  abbrev pub of_source : List Str
  of_source = documents_with tenant (source_fragment dumps source) g

  -- Where element ids tell SIMILAR_TO relationships apart, purging a source keeps all documents. It
  -- deletes exactly those entities of the tenant that have evidence from the source and none from
  -- elsewhere, exactly the evidence between the source's documents and the tenant's entities, and
  -- exactly the SIMILAR_TO relationships of the source's documents with others of the tenant. No
  -- relation between the tenant's entities has the source among its files any longer.
  pub purged_lem :
      Numbered tenant of_source g
      → ((purged tenant dumps source g).documents ≡ g.documents)
        × ((e : EntityNode V)
            → Has e (purged tenant dumps source g).entities
              ↔ (Has e g.entities × (only_from tenant of_source g e ≡ false)))
        × ((r : Evidence)
            → Has r (purged tenant dumps source g).evidence
              ↔ (Has r g.evidence × (is_evidence_of tenant g of_source r ≡ false)))
        × ((r : SimilarTo)
            → Has r (purged tenant dumps source g).similar_to
              ↔ (Has r g.similar_to × (touches tenant of_source g r ≡ false)))
        × ((r : RelatedTo W)
            → Has r (purged tenant dumps source g).related_to
            → joins_entities_of (purged tenant dumps source g) tenant r ≡ true
            → is_from source r ≡ false)
  unfolding purged without_evidence without_similar without_relations detach_entities
      delete_source_edges delete_similar strip_related joins_entities_of joins_documents_of
  purged_lem numbered =
      let g1 = without_evidence tenant of_source g in
      let g2 = without_similar tenant of_source g1 in
      (
        refl,
        Has-without_evidence tenant of_source g,
        Has-evidence_kept tenant of_source g,
        Has-without_similar tenant of_source g1 numbered,
        is_from-without_relations tenant source g2,
      )

module _ {V W : Type 0} (tenant : Str) (g : Graph V W) where
  without_evidence-nothing :
      (ids : List Str)
      → ((r : Evidence) → Has r g.evidence → is_evidence_of tenant g ids r ≡ false)
      → without_evidence tenant ids g ≡ g
  unfolding without_evidence delete_source_edges pointed_at
  without_evidence-nothing ids h =
      let same : delete_source_edges tenant ids g ≡ g =
        ap (λ e. record g { evidence = e })
          (filter_by-all (λ r. not (is_evidence_of tenant g ids r)) g.evidence
            (λ r has. ap not (h r has))) in
      let nobody : pointed_at tenant ids g ≡ [] = ap (map (λ e. e.id)) (
        filter_by-none
          (λ (e : EntityNode V).
            str_eq e.tenant_id tenant
            && any (λ (r : Evidence). str_eq r.entity e.id && is_evidence_of tenant g ids r)
                g.evidence)
          g.entities
          (λ e _. not_true _ (λ hit.
            let (r, has, both) =
              (any_iff (λ (r : Evidence). str_eq r.entity e.id && is_evidence_of tenant g ids r)
                  g.evidence).0
                (ground arith) in
            let never = h r has in ground arith))) in
      ap (λ c. prune_entities tenant is_unreferenced c (delete_source_edges tenant ids g)) nobody
      ∙ ap (prune_entities tenant is_unreferenced []) same
      ∙ Splits.at_nil (prune_entities-Splits tenant is_unreferenced is_unreferenced-Stable) g

  without_similar-nothing :
      (ids : List Str)
      → ((r : SimilarTo) → Has r g.similar_to → touches tenant ids g r ≡ false)
      → without_similar tenant ids g ≡ g
  unfolding without_similar similar_ids
  without_similar-nothing ids h =
      ap (λ c. delete_similar tenant c g)
        (ap (map (λ r. r.rid)) (filter_by-none (touches tenant ids g) g.similar_to h))
      ∙ Splits.at_nil (delete_similar-Splits tenant) g

  without_relations-nothing :
      (source : Str)
      → ((r : RelatedTo W)
          → Has r g.related_to
          → joins_entities_of g tenant r ≡ true
          → is_from source r ≡ false)
      → without_relations tenant source g ≡ g
  unfolding without_relations related_ids
  without_relations-nothing source h =
      ap (λ c. strip_related tenant source c g)
        (ap (map (λ r. r.rid)) (
          filter_by-none (λ r. joins_entities_of g tenant r && is_from source r) g.related_to
            (λ r has. elim (Bool-cases (joins_entities_of g tenant r)) [
              | inl joins ↦ let foreign = h r has joins in ground arith
              | inr apart ↦ rw apart refl
            ])))
      ∙ Splits.at_nil (strip_related-Splits tenant source) g

module _ {V W : Type 0} (dumps : Str → Str) (tenant source : Str) (g : Graph V W) where
  entity_was :
      (g g' : Graph V W) (id : Str)
      → ((e : EntityNode V) → Has e g'.entities → Has e g.entities)
      → is_entity_of g' tenant id ≡ true
      → is_entity_of g tenant id ≡ true
  unfolding is_entity_of
  entity_was g g' id sub h =
      let is = λ (e : EntityNode V). str_eq e.tenant_id tenant && str_eq e.id id in
      let (e, has, q) = (any_iff is g'.entities).0 h in (any_iff is g.entities).1 (e, sub e has, q)

  -- Where element ids tell SIMILAR_TO relationships apart, purging a source again changes nothing.
  pub purged-purged :
      Numbered tenant (of_source dumps tenant source g) g
      → purged tenant dumps source (purged tenant dumps source g) ≡ purged tenant dumps source g
  unfolding purged without_evidence without_similar without_relations detach_entities
      delete_source_edges delete_similar strip_related joins_entities_of joins_documents_of
      documents_with is_evidence_of
  purged-purged numbered =
      let g' = purged tenant dumps source g in
      let ids = of_source dumps tenant source g in
      let (docs, entities, evidence, similar, related) =
        purged_lem dumps tenant source g numbered in
      let known : (id : Str) → is_entity_of g' tenant id ≡ true → is_entity_of g tenant id ≡ true =
        λ id h. entity_was g g' id (λ e has. ((entities e).0 has).0) h in
      let told : (r : Evidence) → Has r g'.evidence → is_evidence_of tenant g' ids r ≡ false =
        λ r has. not_true _ (λ hit.
          let never = ((evidence r).0 has).1 in
          let was = known r.entity (ground arith) in ground arith) in
      ap (λ h. without_relations tenant source (without_similar tenant ids h))
        (without_evidence-nothing tenant g' ids told)
      ∙ ap (without_relations tenant source)
          (without_similar-nothing tenant g' ids (λ r has. ((similar r).0 has).1))
      ∙ without_relations-nothing tenant g' source related
