-- ===== src/SourceGraph/Plan/Parts.antt =====
-- The two kinds of plan of source_graph_writer.py: what each sequence of them writes.
use cat_graphrag.Prelude.{
  ℕ, ◌+◌, ◌≤◌, List, [], ◌∷◌, ◌++◌, ◌≡◌, refl, ap, ◌↔◌, inl, inr, map, arith, length, concat, All,
  Has,
}
use cat_graphrag.Prelude.Keys.{Str, str_key}
use cat_graphrag.Prelude.Dict.{Dict, lookup}
use cat_graphrag.Prelude.Slices.{Fits}
use cat_graphrag.SourceGraph.Types.{Entity, Mention, Relation, WritePlan}
use cat_graphrag.SourceGraph.Plan.{SetOrder, ids_of, by_entity, entity_plan, relation_plan}
use cat_graphrag.SourceGraph.Plan.Laws.{mentions_of_lem, by_entity_lem}

module _ {F T V : Type 0} where
  -- What a sequence of plans writes.
  abbrev pub entities_of : List (WritePlan F T V) → List (Entity F T V)
  entities_of plans = concat (map (λ p. p.entities) plans)

  abbrev pub relations_of : List (WritePlan F T V) → List (Relation F)
  relations_of plans = concat (map (λ p. p.relations) plans)

  -- The items that the memory guard counts.
  abbrev pub items : WritePlan F T V → ℕ
  items p = length p.entities + length p.relations

  abbrev pub Rides : List (Mention F) → WritePlan F T V → Type 0
  Rides mentions p =
      (m : Mention F) → Has m p.mentions ↔ (Has m mentions × Has m.entity_id (ids_of p.entities))

module _ (order : SetOrder) {F : Type 0} (T V : Type 0) (mentions : List (Mention F)) where
  abbrev pub groups : Dict Str (List (Mention F))
  groups = by_entity [] mentions

  abbrev pub entity_plans : List (List (Entity F T V)) → List (WritePlan F T V)
  entity_plans = map (entity_plan order groups)

  abbrev pub relation_plans : List (List (Relation F)) → List (WritePlan F T V)
  relation_plans = map relation_plan

  pub entities_of-entity_plans :
      (chunks : List (List (Entity F T V))) → entities_of (entity_plans chunks) ≡ concat chunks
  unfolding entity_plan
  entities_of-entity_plans [] = refl
  entities_of-entity_plans (c ∷ cs) = ap (λ l. c ++ l) (entities_of-entity_plans cs)

  pub entities_of-relation_plans :
      (chunks : List (List (Relation F))) → entities_of (relation_plans chunks) ≡ []
  entities_of-relation_plans [] = refl
  entities_of-relation_plans (c ∷ cs) = entities_of-relation_plans cs

  pub relations_of-entity_plans :
      (chunks : List (List (Entity F T V))) → relations_of (entity_plans chunks) ≡ []
  unfolding entity_plan
  relations_of-entity_plans [] = refl
  relations_of-entity_plans (c ∷ cs) = relations_of-entity_plans cs

  pub relations_of-relation_plans :
      (chunks : List (List (Relation F))) → relations_of (relation_plans chunks) ≡ concat chunks
  relations_of-relation_plans [] = refl
  relations_of-relation_plans (c ∷ cs) = ap (λ l. c ++ l) (relations_of-relation_plans cs)

  pub items-entity_plans :
      (n : ℕ) (chunks : List (List (Entity F T V)))
      → All (Fits n) chunks
      → All (λ p. items p ≤ n) (entity_plans chunks)
  unfolding entity_plan
  items-entity_plans n [] h = tt
  items-entity_plans n (c ∷ cs) h = (omega arith, items-entity_plans n cs h.1)

  pub items-relation_plans :
      (n : ℕ) (chunks : List (List (Relation F)))
      → All (Fits n) chunks
      → All (λ p. items p ≤ n) (relation_plans chunks)
  items-relation_plans n [] h = tt
  items-relation_plans n (c ∷ cs) h = (omega arith, items-relation_plans n cs h.1)

  pub entity_plan-Rides :
      (chunk : List (Entity F T V)) → Rides mentions (entity_plan order groups chunk)
  unfolding entity_plan lookup
  entity_plan-Rides chunk m = (
    λ h.
        let (k, at, has) = (mentions_of_lem groups (order.walk (ids_of chunk)) m).0 h in
        elim ((by_entity_lem [] mentions k m).0 has) [
          | inl none_left ↦ absurd none_left
          | inr found ↦ (found.0, rw found.1 ((order.has-walk k (ids_of chunk)).0 at))
        ],
    λ h. (mentions_of_lem groups (order.walk (ids_of chunk)) m).1 (
      m.entity_id,
      (order.has-walk m.entity_id (ids_of chunk)).1 h.1,
      (by_entity_lem [] mentions m.entity_id m).1 (inr (h.0, refl)),
    ),
  )

  pub entity_plans-Rides :
      (chunks : List (List (Entity F T V))) → All (Rides mentions) (entity_plans chunks)
  entity_plans-Rides [] = tt
  entity_plans-Rides (c ∷ cs) = (entity_plan-Rides c, entity_plans-Rides cs)

  pub relation_plans-Rides :
      (chunks : List (List (Relation F))) → All (Rides mentions) (relation_plans chunks)
  relation_plans-Rides [] = tt
  relation_plans-Rides (c ∷ cs) = (λ m. (λ h. absurd h, λ h. absurd h.1), relation_plans-Rides cs)

  pub no_relations :
      (chunks : List (List (Entity F T V))) → All (λ p. p.relations ≡ []) (entity_plans chunks)
  unfolding entity_plan
  no_relations [] = tt
  no_relations (c ∷ cs) = (refl, no_relations cs)

  pub bare_relations :
      (chunks : List (List (Relation F))) → All (λ p. p.entities ≡ []) (relation_plans chunks)
  bare_relations [] = tt
  bare_relations (c ∷ cs) = (refl, bare_relations cs)
