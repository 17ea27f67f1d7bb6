-- ===== src/SourceGraph/Plan/Order.antt =====
-- How the plans of source_graph_writer.py cover the source, and in which order.
use cat_graphrag.Prelude.{
  ℕ, ◌+◌, ◌≤◌, ◌<◌, List, [], ◌∷◌, ◌++◌, ◌≡◌, ◌≢◌, refl, ap, ◌∙◌, inl, inr, arith, leb, length,
  concat-append, All, All-append, ok, append-nil, append_assoc, Bool-cases,
}
use mathlib.Core.List.{map-append}
use cat_graphrag.Prelude.Slices.{slices, concat-slices, All-Fits-slices}
use cat_graphrag.SourceGraph.Types.{Entity, Mention, Relation, WritePlan}
use cat_graphrag.SourceGraph.Plan.{SetOrder, plan_write_transactions}
use cat_graphrag.SourceGraph.Plan.Parts.{
  no_relations, bare_relations, entities_of, relations_of, items, Rides, entity_plans,
  relation_plans, entities_of-entity_plans, entities_of-relation_plans, relations_of-entity_plans,
  relations_of-relation_plans, items-entity_plans, items-relation_plans, entity_plans-Rides,
  relation_plans-Rides,
}

module _ {F T V : Type 0} where
  pub entities_of-append :
      (ps qs : List (WritePlan F T V)) → entities_of (ps ++ qs) ≡ entities_of ps ++ entities_of qs
  entities_of-append ps qs = simp (map-append, concat-append)

  relations_of-append :
      (ps qs : List (WritePlan F T V))
      → relations_of (ps ++ qs) ≡ relations_of ps ++ relations_of qs
  relations_of-append ps qs = simp (map-append, concat-append)

  no_entities :
      (ps qs : List (WritePlan F T V)) → All (λ q. q.entities ≡ []) (ps ++ qs) → entities_of ps ≡ []
  no_entities [] qs h = refl
  no_entities (x ∷ ps) qs h = rw (h.0, no_entities ps qs h.1) refl

  -- In entity plans followed by relation plans, one that has relations comes after all entities.
  relations_last :
      (eps rps before after : List (WritePlan F T V)) (p : WritePlan F T V)
      → All (λ q. q.relations ≡ []) eps
      → All (λ q. q.entities ≡ []) rps
      → eps ++ rps ≡ before ++ p ∷ after
      → p.relations ≢ []
      → entities_of (before ++ p ∷ []) ≡ entities_of eps
  relations_last [] rps before after p he hr e has =
      no_entities (before ++ p ∷ []) after (rw append_assoc (rw (← e) hr))
  relations_last (x ∷ eps) rps [] after p he hr e has = absurd (has (ground (arith, he.0)))
  relations_last (x ∷ eps) rps (b ∷ before) after p he hr e has =
      let same : x ≡ b = cc in
      let rest : eps ++ rps ≡ before ++ p ∷ after = cc in
      rw (same, relations_last eps rps before after p he.1 hr rest has) refl

  only_plan :
      (q p : WritePlan F T V) (before after : List (WritePlan F T V))
      → q ∷ [] ≡ before ++ p ∷ after
      → entities_of (before ++ p ∷ []) ≡ q.entities
  only_plan q p [] after e =
      let same : p ≡ q = cc in append-nil p.entities ∙ ap (λ (r : WritePlan F T V). r.entities) same
  only_plan q p (b ∷ []) after e = cc
  only_plan q p (b ∷ c ∷ before) after e = cc

module _ (order : SetOrder) {F T V : Type 0} (entities : List (Entity F T V))
    (mentions : List (Mention F)) (relations : List (Relation F)) where
  abbrev split_plans : ℕ → List (WritePlan F T V)
  split_plans n =
      entity_plans order T V mentions (slices n entities)
      ++ relation_plans order T V mentions (slices n relations)

  entities_of-split_plans : (n : ℕ) → 0 < n → entities_of (split_plans n) ≡ entities
  entities_of-split_plans n pos =
      entities_of-append (entity_plans order T V mentions (slices n entities))
        (relation_plans order T V mentions (slices n relations))
      ∙ rw
          (
            entities_of-entity_plans order T V mentions (slices n entities),
            entities_of-relation_plans order T V mentions (slices n relations),
            concat-slices n entities pos,
          )
          (append-nil entities)

  relations_of-split_plans : (n : ℕ) → 0 < n → relations_of (split_plans n) ≡ relations
  relations_of-split_plans n pos =
      relations_of-append (entity_plans order T V mentions (slices n entities))
        (relation_plans order T V mentions (slices n relations))
      ∙ rw
          (
            relations_of-entity_plans order T V mentions (slices n entities),
            relations_of-relation_plans order T V mentions (slices n relations),
            concat-slices n relations pos,
          )
          refl

  items-split_plans : (n : ℕ) → 0 < n → All (λ p. items p ≤ n) (split_plans n)
  items-split_plans n pos =
      All-append _ (entity_plans order T V mentions (slices n entities))
        (relation_plans order T V mentions (slices n relations))
        (items-entity_plans order T V mentions n (slices n entities)
          (All-Fits-slices n entities pos))
        (items-relation_plans order T V mentions n (slices n relations)
          (All-Fits-slices n relations pos))

  split_plans-Rides : (n : ℕ) → All (Rides mentions) (split_plans n)
  split_plans-Rides n =
      All-append _ (entity_plans order T V mentions (slices n entities))
        (relation_plans order T V mentions (slices n relations))
        (entity_plans-Rides order T V mentions (slices n entities))
        (relation_plans-Rides order T V mentions (slices n relations))

  split_plans-last :
      (n : ℕ)
      → 0 < n
      → (before after : List (WritePlan F T V)) (p : WritePlan F T V)
      → split_plans n ≡ before ++ p ∷ after
      → p.relations ≢ []
      → entities_of (before ++ p ∷ []) ≡ entities
  split_plans-last n pos before after p e has =
      relations_last (entity_plans order T V mentions (slices n entities))
        (relation_plans order T V mentions (slices n relations)) before after p
        (no_relations order T V mentions (slices n entities))
        (bare_relations order T V mentions (slices n relations)) e has
      ∙ rw (entities_of-entity_plans order T V mentions (slices n entities))
          (concat-slices n entities pos)

module _ (order : SetOrder) {E F T V : Type 0} (entities : List (Entity F T V))
    (mentions : List (Mention F)) (relations : List (Relation F)) where
  -- For a bound of at least 1 the plans exist; they write all entities and all relations, each
  -- once and in order, and none of them has more entities and relations than the bound.
  pub plan_covers :
      (max_items : ℕ)
      → 0 < max_items
      → (plans : List (WritePlan F T V)) × (plan_write_transactions order {E = E} entities mentions
            relations max_items
          ≡ ok plans)
        × (entities_of plans ≡ entities)
        × (relations_of plans ≡ relations)
        × All (λ p. items p ≤ max_items) plans
  unfolding plan_write_transactions
  plan_covers n pos = elim (Bool-cases (leb (length entities + length relations) n)) [
    | inl fits ↦ (
      record { entities = entities; mentions = mentions; relations = relations } ∷ [],
      ground arith,
      append-nil entities,
      append-nil relations,
      (ground arith, tt),
    )
    | inr over ↦ (
      split_plans order entities mentions relations n,
      ground arith,
      entities_of-split_plans order entities mentions relations n pos,
      relations_of-split_plans order entities mentions relations n pos,
      items-split_plans order entities mentions relations n pos,
    )
  ]

  -- Where the source is over the bound, every mention is written in the transaction of its entity:
  -- a plan has exactly the mentions whose entity it has.
  pub mentions_ride :
      (max_items : ℕ)
      → 0 < max_items
      → max_items < length entities + length relations
      → (plans : List (WritePlan F T V)) × (plan_write_transactions order {E = E} entities mentions
            relations max_items
          ≡ ok plans)
        × All (Rides mentions) plans
  unfolding plan_write_transactions
  mentions_ride n pos over = (
    split_plans order entities mentions relations n,
    ground arith,
    split_plans-Rides order entities mentions relations n,
  )

  -- For a bound of at least 1: the entities of a plan that has relations and of the plans before it,
  -- put together, are all the entities, in their order.
  pub relations_follow :
      (max_items : ℕ)
      → 0 < max_items
      → (plans before after : List (WritePlan F T V)) (p : WritePlan F T V)
      → plan_write_transactions order {E = E} entities mentions relations max_items ≡ ok plans
      → plans ≡ before ++ p ∷ after
      → p.relations ≢ []
      → entities_of (before ++ p ∷ []) ≡ entities
  unfolding plan_write_transactions
  relations_follow n pos plans before after p made e has =
      elim (Bool-cases (leb (length entities + length relations) n)) [
        | inl fits ↦
            only_plan (record { entities = entities; mentions = mentions; relations = relations }) p
              before after (ground arith)
        | inr over ↦
            split_plans-last order entities mentions relations n pos before after p (ground arith)
              has
      ]
