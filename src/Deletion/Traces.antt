-- ===== src/Deletion/Traces.antt =====
-- What remains of a source, and of everything else, after its artefacts are purged.
use mathlib.Core.Path.{subst}
use cat_graphrag.Prelude.{
  List, ◌≡◌, ◌↔◌, refl, sym, ap, ◌∙◌, Bool, true, false, ◌&&◌, ◌||◌, not, Option, none, some, arith,
  any, any_iff, any-filter_by, any-or, any-cong, filter_by, Has, Has-filter_by, is_in, is_in_iff,
  is_in-map, Bool-cases, not_true, inl, inr,
}
use cat_graphrag.Prelude.Keys.{Str, str_eq, str_eq_iff, str_key, nat_key}
use cat_graphrag.Graph.{EntityNode, Evidence, RelatedTo, SimilarTo, Graph}
use cat_graphrag.Graph.Cypher.{
  detach_entities, is_entity_of, is_mentioned, has_provenance, is_mention, joins_entities_of,
  joins_documents_of, is_from, files_without,
}
use cat_graphrag.Graph.Strip.{Has-strip_where}
use cat_graphrag.Deletion.{
  is_evidence_of, pointed_at, delete_source_edges, is_unreferenced, similar_ids, delete_similar,
  related_ids, strip_related,
}
use cat_graphrag.Deletion.Effect.{without_evidence, without_similar, without_relations}

module _ {V W : Type 0} (tenant : Str) (ids : List Str) (g : Graph V W) where
  -- Evidence of the entity `id` that is from one of the documents, and that is not.
  abbrev pub told_by_source : Str → Bool
  told_by_source id =
      any (λ (r : Evidence). str_eq r.entity id && is_evidence_of tenant g ids r) g.evidence

  abbrev pub told_elsewhere : Str → Bool
  told_elsewhere id =
      any (λ (r : Evidence). str_eq r.entity id && not (is_evidence_of tenant g ids r)) g.evidence

  -- The tenant's entities that have evidence from the documents and none from elsewhere.
  abbrev pub only_from : EntityNode V → Bool
  only_from e = str_eq e.tenant_id tenant && told_by_source e.id && not (told_elsewhere e.id)

  is_unreferenced-after :
      (e : EntityNode V)
      → is_unreferenced (delete_source_edges tenant ids g) e ≡ not (told_elsewhere e.id)
  unfolding is_unreferenced is_mentioned has_provenance delete_source_edges
  is_unreferenced-after e =
      let ev = λ (r : Evidence). not (is_evidence_of tenant g ids r) in
      let m = any-filter_by ev (λ r. is_mention r.kind && str_eq r.entity e.id) g.evidence in
      let p = any-filter_by ev (λ r. not (is_mention r.kind) && str_eq r.entity e.id) g.evidence in
      let both =
        any-or (λ r. ev r && (is_mention r.kind && str_eq r.entity e.id))
          (λ r. ev r && (not (is_mention r.kind) && str_eq r.entity e.id)) g.evidence in
      let one =
        any-cong
          (λ r.
            ev r && (is_mention r.kind && str_eq r.entity e.id)
            || ev r && (not (is_mention r.kind) && str_eq r.entity e.id))
          (λ r. str_eq r.entity e.id && ev r) (λ r. ground arith) g.evidence in
      rw (m, p) (ground (arith, both, one))

  is_in-pointed_at :
      (e : EntityNode V)
      → Has e g.entities
      → str_eq e.tenant_id tenant ≡ true
      → is_in e.id (pointed_at tenant ids g) ≡ told_by_source e.id
  unfolding pointed_at
  is_in-pointed_at e has mine =
      let passes = λ (e' : EntityNode V). str_eq e'.tenant_id tenant && told_by_source e'.id in
      is_in-map passes (λ e'. e'.id) e.id g.entities ∙ elim (Bool-cases (told_by_source e.id)) [
        | inl told ↦
            (any_iff (λ e'. passes e' && str_eq e'.id e.id) g.entities).1
              (e, has, ground (arith, str_eq_iff e.id e.id))
            ∙ sym told
        | inr untold ↦
            not_true _ (λ found.
              let (e', _, both) =
                (any_iff (λ e'. passes e' && str_eq e'.id e.id) g.entities).0 found in
              let same : e'.id ≡ e.id = (str_eq_iff e'.id e.id).0 (ground arith) in
              let told : told_by_source e'.id ≡ true = ground arith in
              let also = sym (ap told_by_source same) ∙ told in ground arith)
            ∙ sym untold
      ]

  -- The purge deletes exactly the tenant's entities whose evidence is all from the source.
  pub Has-without_evidence :
      (e : EntityNode V)
      → Has e (without_evidence tenant ids g).entities ↔ (Has e g.entities × (only_from e ≡ false))
  unfolding without_evidence detach_entities delete_source_edges
  Has-without_evidence e =
      let chosen = λ (e : EntityNode V).
        str_eq e.tenant_id tenant
        && is_in e.id (pointed_at tenant ids g)
        && is_unreferenced (delete_source_edges tenant ids g) e in
      let agree : Has e g.entities → chosen e ≡ only_from e = λ has.
        let unref = is_unreferenced-after e in
        elim (Bool-cases (str_eq e.tenant_id tenant)) [
          | inl mine ↦ let pointed = is_in-pointed_at e has mine in ground arith
          | inr other ↦ rw other refl
        ] in
      let kept = Has-filter_by (λ e. not (chosen e)) e g.entities in
      (
        λ h. let (has, passes) = kept.0 h in let a = agree has in (has, ground arith),
        λ (has, not_only). let a = agree has in kept.1 (has, ground arith),
      )

  pub Has-evidence_kept :
      (r : Evidence)
      → Has r (without_evidence tenant ids g).evidence
        ↔ (Has r g.evidence × (is_evidence_of tenant g ids r ≡ false))
  unfolding without_evidence detach_entities delete_source_edges
  Has-evidence_kept r =
      let g1 = delete_source_edges tenant ids g in
      let chosen = λ (e : EntityNode V).
        str_eq e.tenant_id tenant && is_in e.id (pointed_at tenant ids g) && is_unreferenced g1 e in
      let gone = λ (id : Str). any (λ (e : EntityNode V). chosen e && str_eq e.id id) g.entities in
      let first = Has-filter_by (λ r. not (is_evidence_of tenant g ids r)) r g.evidence in
      let second = Has-filter_by (λ r. not (gone r.entity)) r g1.evidence in
      (
        λ h. let (has, passes) = first.0 (second.0 h).0 in (has, ground arith),
        λ (has, foreign).
            let stays : gone r.entity ≡ false = not_true _ (λ lost.
              let (e, _, both) =
                (any_iff (λ e. chosen e && str_eq e.id r.entity) g.entities).0 lost in
              let same : r.entity ≡ e.id = sym ((str_eq_iff e.id r.entity).0 (ground arith)) in
              let told =
                (any_iff (λ r. str_eq r.entity e.id && not (is_evidence_of tenant g ids r))
                    g.evidence).1
                  (r, has, ground (arith, (str_eq_iff r.entity e.id).1 same)) in
              let unref = is_unreferenced-after e in ground arith) in
            second.1 (first.1 (has, ground arith), ap not stays),
      )

  -- A SIMILAR_TO relationship between documents of the tenant, one of them of the source.
  abbrev pub touches : SimilarTo → Bool
  touches r = joins_documents_of g tenant r && (is_in r.from ids || is_in r.to ids)

  -- The element ids tell relationships apart.
  abbrev pub Numbered : Type 0
  Numbered = (r r' : SimilarTo) → Has r g.similar_to → Has r' g.similar_to → r'.rid ≡ r.rid → r' ≡ r

  pub Has-without_similar :
      Numbered
      → (r : SimilarTo)
      → Has r (without_similar tenant ids g).similar_to ↔ (Has r g.similar_to × (touches r ≡ false))
  unfolding without_similar similar_ids delete_similar
  Has-without_similar numbered r =
      let rids = similar_ids tenant ids g in
      let found = λ (r' : SimilarTo). touches r' && nat_key.beq r'.rid r.rid in
      let agree : Has r g.similar_to
          → is_in r.rid rids && joins_documents_of g tenant r ≡ touches r =
        λ has.
          let listed = is_in-map touches (λ r'. r'.rid) r.rid g.similar_to in
          elim (Bool-cases (touches r)) [
            | inl hit ↦
                let seen =
                  (any_iff found g.similar_to).1
                    (r, has, ground (arith, nat_key.beq_iff r.rid r.rid)) in
                ground arith
            | inr missed ↦
                not_true _ (λ both.
                  let (r', has', hit) = (any_iff found g.similar_to).0 (ground arith) in
                  let same =
                    numbered r r' has has' ((nat_key.beq_iff r'.rid r.rid).0 (ground arith)) in
                  let hit_r : touches r ≡ true = sym (ap touches same) ∙ ground arith in
                  ground arith)
                ∙ sym missed
          ] in
      let kept =
        Has-filter_by (λ r. not (is_in r.rid rids && joins_documents_of g tenant r)) r
          g.similar_to in
      (
        λ h. let (has, passes) = kept.0 h in let a = agree has in (has, ground arith),
        λ (has, apart). let a = agree has in kept.1 (has, ground arith),
      )

not_from :
    (source : Str) (files : List Str)
    → is_in source (filter_by (λ x. not (str_eq x source)) files) ≡ false
not_from source files = not_true _ (λ h.
    let (has, passes) =
      (Has-filter_by (λ x. not (str_eq x source)) source files).0
        ((is_in_iff source (filter_by (λ x. not (str_eq x source)) files)).0 h) in
    ground (arith, str_eq_iff source source))

module _ {V W : Type 0} (tenant source : Str) (g : Graph V W) where
  is_from-without :
      (r' : RelatedTo W) (o : Option (List Str))
      → r'.source_files ≡ files_without source o
      → is_from source r' ≡ false
  is_from-without r' none e = rw e refl
  is_from-without r' (some files) e = rw e (not_from source files)

  is_from_same :
      (r r' : RelatedTo W)
      → r'.source_files ≡ r.source_files
      → is_from source r' ≡ true
      → is_from source r ≡ true
  is_from_same r r' e h = subst (λ o. is_from source (record r { source_files = o }) ≡ true) e h

  -- No relation between the tenant's entities has the source any longer.
  pub is_from-without_relations :
      (r' : RelatedTo W)
      → Has r' (without_relations tenant source g).related_to
      → joins_entities_of g tenant r' ≡ true
      → is_from source r' ≡ false
  unfolding without_relations strip_related related_ids joins_entities_of
  is_from-without_relations r' h joins =
      let rids = related_ids tenant source g in
      let p = λ (r : RelatedTo W). is_in r.rid rids && joins_entities_of g tenant r in
      let (r, has, left) = Has-strip_where p source r' g.related_to h in
      elim (Bool-cases (p r)) [
        | inl yes_p ↦ is_from-without r' r.source_files (left.files ∙ rw yes_p refl)
        | inr no_p ↦ not_true _ (λ from.
            let files : r'.source_files ≡ r.source_files = left.files ∙ rw no_p refl in
            let from_r : is_from source r ≡ true = is_from_same r r' files from in
            let joins_r : joins_entities_of g tenant r ≡ true =
              ap (λ s. is_entity_of g tenant s && is_entity_of g tenant r.target) left.source_same
              ∙ ap (λ t. is_entity_of g tenant r'.source && is_entity_of g tenant t)
                  left.target_same
              ∙ joins in
            let seen =
              (any_iff
                  (λ x.
                    (joins_entities_of g tenant x && is_from source x) && nat_key.beq x.rid r.rid)
                  g.related_to).1
                (r, has, ground (arith, nat_key.beq_iff r.rid r.rid)) in
            let listed =
              is_in-map (λ x. joins_entities_of g tenant x && is_from source x) (λ x. x.rid) r.rid
                g.related_to in
            ground arith)
      ]
