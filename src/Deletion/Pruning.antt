-- ===== src/Deletion/Pruning.antt =====
-- Pruning entities batch after batch does what pruning all at once would do.
use cat_graphrag.Prelude.{
  ◌≡◌, sym, ap, ◌∙◌, Bool, true, false, ◌&&◌, ◌||◌, not, arith, any, any_iff, any-filter_by, any-or,
  any-cong, any-none, filter_by-all, is_in, is_in-append, Bool-cases, not_true, inl, inr,
}
use cat_graphrag.Prelude.Keys.{Str, str_eq, str_eq_iff, str_key, nat_key}
use cat_graphrag.Graph.{EntityNode, EvidenceType, Evidence, Graph}
use cat_graphrag.Graph.Cypher.{
  detach_entities, is_mentioned, has_provenance, is_mention, is_provenance,
}
use cat_graphrag.Graph.Runs.{Splits}
use cat_graphrag.Deletion.{is_unreferenced, lost_provenance, prune_entities}
use cat_graphrag.Deletion.Batching.{filter_split}

module _ {V W : Type 0} where
  -- The entities that `detach_entities` removes, by their ids.
  abbrev pub gone : (EntityNode V → Bool) → Graph V W → Str → Bool
  gone p g id = any (λ e. p e && str_eq e.id id) g.entities

  -- A rule that does not change for any entity while others are pruned by it.
  abbrev pub Stable : (Graph V W → EntityNode V → Bool) → Type 0
  Stable p =
      (q : EntityNode V → Bool) (g : Graph V W)
      → ((e : EntityNode V) → q e ≡ true → p g e ≡ true)
      → (e : EntityNode V) → p (detach_entities q g) e ≡ p g e

  -- DETACH DELETE of some entities and then of others.
  pub detach_entities-detach_entities :
      (p q r : EntityNode V → Bool) (g : Graph V W)
      → ((e : EntityNode V) → (p e || q e) ≡ r e)
      → detach_entities r g ≡ detach_entities q (detach_entities p g)
  unfolding detach_entities
  detach_entities-detach_entities p q r g h =
      let h' = detach_entities p g in
      let ids : (id : Str) → gone r g id ≡ (gone p g id || gone q h' id) = λ id.
        let is = λ (e : EntityNode V). str_eq e.id id in
        sym (
          ap (λ b. gone p g id || b) (any-filter_by (λ e. not (p e)) (λ e. q e && is e) g.entities)
          ∙ any-or (λ e. p e && is e) (λ e. not (p e) && (q e && is e)) g.entities
          ∙ any-cong (λ e. p e && is e || not (p e) && (q e && is e)) (λ e. r e && is e)
              (λ e. ground (arith, h e)) g.entities) in
      λ i. record g {
        entities =
            filter_split (λ e. not (p e)) (λ e. not (q e)) (λ e. not (r e)) g.entities
              (λ e. ground (arith, h e)) i;
        evidence =
            filter_split (λ x. not (gone p g x.entity)) (λ x. not (gone q h' x.entity))
              (λ x. not (gone r g x.entity)) g.evidence (λ x. ground (arith, ids x.entity)) i;
        related_to =
            filter_split (λ x. not (gone p g x.source || gone p g x.target))
              (λ x. not (gone q h' x.source || gone q h' x.target))
              (λ x. not (gone r g x.source || gone r g x.target)) g.related_to
              (λ x. ground (arith, ids x.source, ids x.target)) i;
      }

  -- Where entities that the evidence `kind` does not reach are deleted, it reaches the same entities.
  reached_same :
      (kind : EvidenceType → Bool) (p : EntityNode V → Bool) (g : Graph V W) (id : Str)
      → ((e : EntityNode V)
          → p e ≡ true
          → any (λ r. kind r.kind && str_eq r.entity e.id) g.evidence ≡ false)
      → any (λ (r : Evidence). kind r.kind && str_eq r.entity id) (detach_entities p g).evidence
        ≡ any (λ (r : Evidence). kind r.kind && str_eq r.entity id) g.evidence
  unfolding detach_entities
  reached_same kind p g id none_reached =
      let at = λ (r : Evidence). kind r.kind && str_eq r.entity id in
      any-filter_by (λ r. not (gone p g r.entity)) at g.evidence
      ∙ elim (Bool-cases (any at g.evidence)) [
        | inl seen ↦
            let (r, has, at_r) = (any_iff at g.evidence).0 seen in
            let stays : gone p g r.entity ≡ false = not_true _ (λ lost.
              let (e, _, both) = (any_iff _ g.entities).0 lost in
              let same : e.id ≡ r.entity = (str_eq_iff e.id r.entity).0 (ground arith) in
              let back : str_eq r.entity e.id ≡ true = (str_eq_iff r.entity e.id).1 (sym same) in
              let reached =
                (any_iff (λ r. kind r.kind && str_eq r.entity e.id) g.evidence).1
                  (r, has, ground arith) in
              let missed = none_reached e (ground arith) in ground arith) in
            (any_iff (λ r. not (gone p g r.entity) && at r) g.evidence).1 (r, has, ground arith)
            ∙ sym seen
        | inr unseen ↦
            not_true _ (λ found.
              let (r, has, both) =
                (any_iff (λ r. not (gone p g r.entity) && at r) g.evidence).0 found in
              let hit = (any_iff at g.evidence).1 (r, has, ground arith) in ground arith)
            ∙ sym unseen
      ]

  detach_entities-nobody :
      (p : EntityNode V → Bool) (g : Graph V W)
      → ((e : EntityNode V) → p e ≡ false)
      → detach_entities p g ≡ g
  unfolding detach_entities
  detach_entities-nobody p g h =
      let none_gone : (id : Str) → gone p g id ≡ false = λ id.
        any-cong (λ e. p e && str_eq e.id id) (λ _. false) (λ e. ground (arith, h e)) g.entities
        ∙ any-none g.entities in
      λ i. record g {
        entities = filter_by-all (λ e. not (p e)) g.entities (λ e _. ground (arith, h e)) i;
        evidence =
            filter_by-all (λ r. not (gone p g r.entity)) g.evidence
              (λ r _. ground (arith, none_gone r.entity)) i;
        related_to =
            filter_by-all (λ r. not (gone p g r.source || gone p g r.target)) g.related_to
              (λ r _. ground (arith, none_gone r.source, none_gone r.target)) i;
      }

  pub is_unreferenced-Stable : Stable is_unreferenced
  unfolding is_unreferenced is_mentioned has_provenance
  is_unreferenced-Stable q g h e =
      let m = reached_same is_mention q g e.id (λ f k. let u = h f k in ground arith) in
      let r = reached_same is_provenance q g e.id (λ f k. let u = h f k in ground arith) in
      ground arith

  pub lost_provenance-Stable : Stable lost_provenance
  unfolding lost_provenance has_provenance
  lost_provenance-Stable q g h e =
      let r = reached_same is_provenance q g e.id (λ f k. let u = h f k in ground arith) in
      ground arith

module _ {V W : Type 0} (tenant : Str) (p : Graph V W → EntityNode V → Bool)
    (stable : Stable p) where
  pub prune_entities-Splits : Splits (prune_entities tenant p)
  prune_entities-Splits = record {
    at_nil = λ g. detach_entities-nobody _ g (λ e. ground arith);
    at_append = λ xs ys g.
        let chosen = λ (e : EntityNode V). str_eq e.tenant_id tenant && is_in e.id xs && p g e in
        detach_entities-detach_entities chosen _ _ g
          (λ e. ground (arith, is_in-append e.id xs ys, stable chosen g (λ f k. ground arith) e));
  }
