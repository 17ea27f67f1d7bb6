-- ===== src/GraphWrite/Plans.antt =====
-- The planned transactions of a source, one after another, write all its relations.
use mathlib.Core.Path.{subst}
use cat_graphrag.Prelude.{
  ℕ, ◌<◌, List, [], ◌∷◌, ◌++◌, ◌≡◌, ◌≢◌, refl, sym, ap, true, Option, any, Has, Has-append, inl,
  inr, ok,
}
use cat_graphrag.Prelude.Keys.{Str}
use cat_graphrag.SourceGraph.Types.{Floats, Entity, Mention, Relation, WritePlan}
use cat_graphrag.SourceGraph.Plan.{SetOrder, plan_write_transactions}
use cat_graphrag.SourceGraph.Plan.Order.{entities_of-append, plan_covers, relations_follow}
use cat_graphrag.SourceGraph.Plan.Parts.{entities_of, relations_of}
use cat_graphrag.Graph.{RelatedTo, Graph}
use cat_graphrag.Graph.Cypher.{is_entity_of}
use cat_graphrag.GraphWrite.{
  MetadataTexts, is_at, merge_entities, add_mention, add_provenance, unwind, is_relation,
  add_relation, write_graph_plan_in_tx,
}
use cat_graphrag.GraphWrite.Effect.{stays-merge_entities, comes-merge_entities}
use cat_graphrag.GraphWrite.Stays.{
  unwind-keeps, unwind-append, Known, add_mention-Known, add_provenance-Known, add_mention-quiet,
  add_provenance-quiet, add_relation-Known, add_relation-stays, unwind-comes,
}

-- The part that has an item.
part_of :
    {F T V : Type 0} (rel : Relation F) (plans : List (WritePlan F T V))
    → Has rel (relations_of plans)
    → (before : List (WritePlan F T V)) × (p : WritePlan F T V) × (after : List (WritePlan F T V))
      × (plans ≡ before ++ p ∷ after)
      × Has rel p.relations
part_of rel [] h = absurd h
part_of rel (p ∷ plans) h = elim ((Has-append rel p.relations (relations_of plans)).0 h) [
  | inl here ↦ ([], p, plans, refl, here)
  | inr later ↦
      let (before, q, after, e, has) = part_of rel plans later in
      (p ∷ before, q, after, ap (λ l. p ∷ l) e, has)
]

not_empty : {A : Type 0} (x : A) (xs : List A) → Has x xs → xs ≢ []
not_empty x xs h e = subst (λ l. Has x l) e h

module _ (floats : Floats) {T V : Type 0} (texts : MetadataTexts floats.F T)
    (raw_of : Entity floats.F T V → T) (fresh : List (RelatedTo (Option floats.F)) → ℕ)
    (tenant : Str) where
  -- The transactions of the plans, one after another.
  abbrev pub written :
      List (WritePlan floats.F T V) → Graph V (Option floats.F) → Graph V (Option floats.F)
  written = unwind (write_graph_plan_in_tx floats texts raw_of fresh tenant)

  -- The graph of a transaction before it writes the relations.
  abbrev with_mentions :
      WritePlan floats.F T V → Graph V (Option floats.F) → Graph V (Option floats.F)
  with_mentions p g = unwind (add_provenance tenant) p.mentions (
      unwind (add_mention tenant) p.mentions (record g {
        entities = merge_entities floats texts tenant raw_of g.entities p.entities g.entities;
      }))

  with_mentions-Known :
      (id : Str) (p : WritePlan floats.F T V) (g : Graph V (Option floats.F))
      → any
          (is_at tenant id)
          (merge_entities floats texts tenant raw_of g.entities p.entities g.entities)
        ≡ true
      → Known tenant id (with_mentions p g)
  unfolding is_entity_of
  with_mentions-Known id p g h =
      unwind-keeps (Known tenant id) (add_provenance tenant) (add_provenance-Known tenant id)
        p.mentions _
        (unwind-keeps (Known tenant id) (add_mention tenant) (add_mention-Known tenant id)
          p.mentions
          (record g {
            entities = merge_entities floats texts tenant raw_of g.entities p.entities g.entities;
          })
          h)

  stays_known :
      (id : Str) (p : WritePlan floats.F T V) (g : Graph V (Option floats.F))
      → Known tenant id g
      → Known tenant id (with_mentions p g)
  unfolding is_entity_of
  stays_known id p g h =
      with_mentions-Known id p g (
        stays-merge_entities floats texts raw_of fresh tenant g.entities p.entities id g.entities h)

  comes_known :
      (e : Entity floats.F T V) (p : WritePlan floats.F T V) (g : Graph V (Option floats.F))
      → Has e p.entities
      → Known tenant e.id (with_mentions p g)
  comes_known e p g h =
      with_mentions-Known e.id p g
        (comes-merge_entities floats texts raw_of fresh tenant g.entities p.entities e g.entities h)

  tx-Known :
      (id : Str) (p : WritePlan floats.F T V) (g : Graph V (Option floats.F))
      → Known tenant id (with_mentions p g)
      → Known tenant id (write_graph_plan_in_tx floats texts raw_of fresh tenant p g)
  unfolding write_graph_plan_in_tx
  tx-Known id p g h =
      unwind-keeps (Known tenant id) (add_relation floats fresh tenant)
        (add_relation-Known floats fresh tenant id) p.relations (with_mentions p g) h

  tx-stays :
      (rel : Relation floats.F) (p : WritePlan floats.F T V) (g : Graph V (Option floats.F))
      → any (is_relation floats rel) g.related_to ≡ true
      → any
          (is_relation floats rel)
          (write_graph_plan_in_tx floats texts raw_of fresh tenant p g).related_to
        ≡ true
  unfolding write_graph_plan_in_tx
  tx-stays rel p g h =
      let P = λ (g : Graph V (Option floats.F)). any (is_relation floats rel) g.related_to ≡ true in
      unwind-keeps P (add_relation floats fresh tenant) (add_relation-stays floats fresh tenant rel)
        p.relations (with_mentions p g)
        (unwind-keeps P (add_provenance tenant)
          (add_provenance-quiet tenant (is_relation floats rel)) p.mentions _
          (unwind-keeps P (add_mention tenant) (add_mention-quiet tenant (is_relation floats rel))
            p.mentions
            (record g {
              entities = merge_entities floats texts tenant raw_of g.entities p.entities g.entities;
            })
            h))

  -- An entity of the plans is there after them.
  written-Known :
      (e : Entity floats.F T V) (plans : List (WritePlan floats.F T V))
      (g : Graph V (Option floats.F))
      → Has e (entities_of plans)
      → Known tenant e.id (written plans g)
  unfolding unwind
  written-Known e [] g h = absurd h
  written-Known e (p ∷ plans) g h =
      let tx = write_graph_plan_in_tx floats texts raw_of fresh tenant in
      elim ((Has-append e p.entities (entities_of plans)).0 h) [
        | inr later ↦ written-Known e plans (tx p g) later
        | inl now ↦
            unwind-keeps (Known tenant e.id) tx
              (λ q k known. tx-Known e.id q k (stays_known e.id q k known)) plans (tx p g)
              (tx-Known e.id p g (comes_known e p g now))
      ]

  -- An entity of the plans up to `p` is there when `p` writes its relations.
  ready :
      (e : Entity floats.F T V) (before : List (WritePlan floats.F T V))
      (p : WritePlan floats.F T V) (g : Graph V (Option floats.F))
      → Has e (entities_of (before ++ p ∷ []))
      → Known tenant e.id (with_mentions p (written before g))
  ready e before p g h =
      let split = subst (λ l. Has e l) (entities_of-append before (p ∷ [])) h in
      elim ((Has-append e (entities_of before) (entities_of (p ∷ []))).0 split) [
        | inl earlier ↦ stays_known e.id p (written before g) (written-Known e before g earlier)
        | inr now ↦ elim ((Has-append e p.entities []).0 now) [
          | inl own ↦ comes_known e p (written before g) own
          | inr never ↦ absurd never
        ]
      ]

  -- Where a plan stands among the plans, its relations whose ends are ready are written.
  related :
      (rel : Relation floats.F) (before after : List (WritePlan floats.F T V))
      (p : WritePlan floats.F T V) (g : Graph V (Option floats.F))
      → Has rel p.relations
      → Known tenant rel.source_id (with_mentions p (written before g))
      → Known tenant rel.target_id (with_mentions p (written before g))
      → any (is_relation floats rel) (written (before ++ p ∷ after) g).related_to ≡ true
  unfolding write_graph_plan_in_tx unwind
  related rel before after p g has s t =
      let tx = write_graph_plan_in_tx floats texts raw_of fresh tenant in
      let P = λ (g : Graph V (Option floats.F)). any (is_relation floats rel) g.related_to ≡ true in
      subst P (sym (unwind-append tx before (p ∷ after) g)) (
        unwind-keeps P tx (tx-stays rel) after (tx p (written before g)) (
          unwind-comes floats fresh tenant rel p.relations (with_mentions p (written before g)) has
            s t))

  -- For a bound of at least 1 there are plans for a source; and after their transactions, one after
  -- another on any graph, the graph has each relation of the source whose two ends are ids of entities
  -- of the source.
  pub planned-related :
      (order : SetOrder) {E : Type 0} (entities : List (Entity floats.F T V))
      (mentions : List (Mention floats.F)) (relations : List (Relation floats.F)) (max_items : ℕ)
      (g : Graph V (Option floats.F)) (rel : Relation floats.F) (s t : Entity floats.F T V)
      → 0 < max_items
      → Has rel relations
      → Has s entities
      → Has t entities
      → s.id ≡ rel.source_id
      → t.id ≡ rel.target_id
      → (plans : List (WritePlan floats.F T V)) × (plan_write_transactions order {E = E} entities
            mentions relations max_items
          ≡ ok plans)
        × (any (is_relation floats rel) (written plans g).related_to ≡ true)
  planned-related order entities mentions relations n g rel s t pos has has_s has_t es et =
      let (plans, made, _, covered, _) = plan_covers order entities mentions relations n pos in
      let (before, p, after, e, own) =
        part_of rel plans (subst (λ l. Has rel l) (sym covered) has) in
      let all =
        relations_follow order entities mentions relations n pos plans before after p made e
          (not_empty rel p.relations own) in
      let h = written before g in
      let is_ready : (x : Entity floats.F T V)
          → Has x entities
          → Known tenant x.id (with_mentions p h) =
        λ x there. ready x before p g (subst (λ l. Has x l) (sym all) there) in
      (
        plans,
        made,
        subst (λ l. any (is_relation floats rel) (written l g).related_to ≡ true) (sym e)
            (related rel before after p g own
              (subst (λ i. Known tenant i (with_mentions p h)) es (is_ready s has_s))
              (subst (λ i. Known tenant i (with_mentions p h)) et (is_ready t has_t))),
      )
