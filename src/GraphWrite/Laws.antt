-- ===== src/GraphWrite/Laws.antt =====
-- The transaction of a source's graph leaves no relationship dangling.
use cat_graphrag.Prelude.{
  ℕ, List, [], ◌∷◌, map, ◌≡◌, refl, ap, ◌∙◌, Bool, true, ◌&&◌, Option, none, any, arith, Bool-cases,
  inl, inr, if◌then◌else◌,
}
use cat_graphrag.Prelude.Keys.{Str, str_eq}
use cat_graphrag.SourceGraph.Types.{Floats, Entity, Mention, Relation, WritePlan}
use cat_graphrag.Graph.{
  DocumentNode, EntityNode, EvidenceType, mentions, provenance, RelatedTo, Graph,
}
use cat_graphrag.Graph.Cypher.{is_entity_of}
use cat_graphrag.Graph.Invariant.{Ends, WellFormed}
use cat_graphrag.GraphWrite.{
  MetadataTexts, is_at, merge_entities, merge_evidence, has_ends, add_mention, add_provenance,
  unwind, is_relation, merge_relation, add_relation, mean_weight, merge_files,
  write_graph_plan_in_tx,
}
use cat_graphrag.GraphWrite.Ends.{
  known, known-map, known-merge_entity, known_of, document_of, Ends-snoc, Ends-merge_evidence,
  Ends-map,
}

module _ {V W : Type 0} where
  entities-WellFormed :
      (es : List (EntityNode V)) (g : Graph V W)
      → ((id : Str) → known id g.entities ≡ true → known id es ≡ true)
      → WellFormed g
      → WellFormed (record g { entities = es })
  entities-WellFormed es g sub w = record {
    belonging = w.belonging;
    collected = w.collected;
    telling = w.telling;
    told = λ r h. sub r.entity (w.told r h);
    parts = w.parts;
    whole = w.whole;
    sources = λ r h. sub r.source (w.sources r h);
    targets = λ r h. sub r.target (w.targets r h);
    froms = w.froms;
    tos = w.tos;
  }

  evidence-WellFormed :
      (kind : EvidenceType) (doc entity : Str) (g : Graph V W)
      → any (λ (d : DocumentNode). str_eq d.id doc) g.documents ≡ true
      → known entity g.entities ≡ true
      → WellFormed g
      → WellFormed (record g { evidence = merge_evidence kind doc entity g.evidence })
  evidence-WellFormed kind doc entity g d e w = record {
    belonging = w.belonging;
    collected = w.collected;
    telling = Ends-merge_evidence _ g.documents kind doc entity g.evidence d w.telling;
    told = Ends-merge_evidence _ g.entities kind doc entity g.evidence e w.told;
    parts = w.parts;
    whole = w.whole;
    sources = w.sources;
    targets = w.targets;
    froms = w.froms;
    tos = w.tos;
  }

  unwind-WellFormed :
      {A : Type 0} (f : A → Graph V W → Graph V W) (xs : List A) (g : Graph V W)
      → ((x : A) (g : Graph V W) → WellFormed g → WellFormed (f x g))
      → WellFormed g
      → WellFormed (unwind f xs g)
  unfolding unwind
  unwind-WellFormed f [] g h w = w
  unwind-WellFormed f (x ∷ xs) g h w = unwind-WellFormed f xs (f x g) h (h x g w)

module _ {F V W : Type 0} (tenant : Str) where
  add_mention-WellFormed :
      (m : Mention F) (g : Graph V W) → WellFormed g → WellFormed (add_mention tenant m g)
  unfolding add_mention has_ends
  add_mention-WellFormed m g w = elim (Bool-cases (has_ends tenant g m)) [
    | inl both ↦ rw both (
        evidence-WellFormed mentions m.doc_id m.entity_id g
          (document_of tenant m.doc_id g (ground arith))
          (known_of tenant m.entity_id g (ground arith)) w)
    | inr missing ↦ rw missing w
  ]

  add_provenance-WellFormed :
      (m : Mention F) (g : Graph V W) → WellFormed g → WellFormed (add_provenance tenant m g)
  unfolding add_provenance has_ends
  add_provenance-WellFormed m g w = elim (Bool-cases (has_ends tenant g m)) [
    | inl both ↦
        let g1 : Graph V W = record g {
          evidence = merge_evidence provenance m.doc_id m.entity_id g.evidence;
        } in
        let mark = λ (e : EntityNode V).
          if is_at tenant m.entity_id e then record e { tracked_by_provenance = true } else e in
        rw both (
          entities-WellFormed (map mark g.entities) g1
            (λ id k. known-map id mark g.entities keeps ∙ k)
            (evidence-WellFormed provenance m.doc_id m.entity_id g
              (document_of tenant m.doc_id g (ground arith))
              (known_of tenant m.entity_id g (ground arith)) w))
    | inr missing ↦ rw missing w
  ]
    where
      keeps :
          (e : EntityNode V)
          → (if is_at tenant m.entity_id e then record e { tracked_by_provenance = true } else e).id
            ≡ e.id
      keeps e = elim (Bool-cases (is_at tenant m.entity_id e)) [
        | inl y ↦ rw y refl
        | inr n ↦ rw n refl
      ]

module _ (floats : Floats) {V : Type 0} (fresh : List (RelatedTo (Option floats.F)) → ℕ)
    (tenant : Str) where
  Ends-merge_relation :
      (at : EntityNode V → Str → Bool) (end : RelatedTo (Option floats.F) → Str)
      (keeps : (r : RelatedTo (Option floats.F)) (w : Option floats.F) (s : Option (List Str))
        → end (record r { weight = w; source_files = s }) ≡ end r)
      (rel : Relation floats.F) (nodes : List (EntityNode V))
      (rs : List (RelatedTo (Option floats.F)))
      → any
          (λ n. at n (
            end (record {
              rid = fresh rs;
              source = rel.source_id;
              target = rel.target_id;
              rel_type = rel.rel_type;
              weight = rel.weight;
              source_files = rel.source_files;
              concept_gen = none;
              concept_gen_active = none;
            })))
          nodes
        ≡ true
      → Ends (λ n r. at n (end r)) nodes rs
      → Ends (λ n r. at n (end r)) nodes (merge_relation floats fresh rel rs)
  unfolding merge_relation
  Ends-merge_relation at end keeps rel nodes rs new ends =
      elim (Bool-cases (any (is_relation floats rel) rs)) [
        | inl there ↦ rw there (Ends-map (λ n r. at n (end r)) nodes _ rs (λ r n. same r n) ends)
        | inr absent ↦ rw absent (Ends-snoc (λ n r. at n (end r)) nodes rs _ new ends)
      ]
    where
      same :
          (r : RelatedTo (Option floats.F)) (n : EntityNode V)
          → at n (
              end (
                if is_relation floats rel r
                then record r {
                  weight = mean_weight floats r.weight rel.weight;
                  source_files = merge_files r.source_files rel.source_files;
                }
                else r))
            ≡ at n (end r)
      same r n = elim (Bool-cases (is_relation floats rel r)) [
        | inl y ↦ rw y (ap (at n) (keeps r _ _))
        | inr x ↦ rw x refl
      ]

  add_relation-WellFormed :
      (rel : Relation floats.F) (g : Graph V (Option floats.F))
      → WellFormed g
      → WellFormed (add_relation floats fresh tenant rel g)
  unfolding add_relation
  add_relation-WellFormed rel g w =
      elim (Bool-cases
        (is_entity_of g tenant rel.source_id && is_entity_of g tenant rel.target_id)) [
          | inl both ↦ rw both (record {
            belonging = w.belonging;
            collected = w.collected;
            telling = w.telling;
            told = w.told;
            parts = w.parts;
            whole = w.whole;
            sources =
                Ends-merge_relation (λ e s. str_eq e.id s) (λ r. r.source) (λ r a b. refl) rel
                  g.entities g.related_to (known_of tenant rel.source_id g (ground arith))
                  w.sources;
            targets =
                Ends-merge_relation (λ e s. str_eq e.id s) (λ r. r.target) (λ r a b. refl) rel
                  g.entities g.related_to (known_of tenant rel.target_id g (ground arith))
                  w.targets;
            froms = w.froms;
            tos = w.tos;
          })
          | inr missing ↦ rw missing w
        ]

module _ (floats : Floats) {T V : Type 0} (texts : MetadataTexts floats.F T)
    (raw_of : Entity floats.F T V → T) (fresh : List (RelatedTo (Option floats.F)) → ℕ)
    (tenant : Str) where
  known-merge_entities :
      (id : Str) (before : List (EntityNode V)) (ents : List (Entity floats.F T V))
      (es : List (EntityNode V))
      → known id es ≡ true
      → known id (merge_entities floats texts tenant raw_of before ents es) ≡ true
  unfolding merge_entities
  known-merge_entities id before [] es h = h
  known-merge_entities id before (ent ∷ ents) es h =
      known-merge_entities id before ents _ (known-merge_entity tenant ent _ id es h)

  -- The transaction that writes a plan leaves no relationship dangling where none did before: a
  -- mention or a relation whose ends are not both among the tenant's nodes is not written.
  pub write_graph_plan_in_tx-WellFormed :
      (plan : WritePlan floats.F T V) (g : Graph V (Option floats.F))
      → WellFormed g
      → WellFormed (write_graph_plan_in_tx floats texts raw_of fresh tenant plan g)
  unfolding write_graph_plan_in_tx
  write_graph_plan_in_tx-WellFormed plan g w =
      unwind-WellFormed (add_relation floats fresh tenant) plan.relations _
        (add_relation-WellFormed floats fresh tenant)
        (unwind-WellFormed (add_provenance tenant) plan.mentions _
          (add_provenance-WellFormed tenant)
          (unwind-WellFormed (add_mention tenant) plan.mentions _ (add_mention-WellFormed tenant) (
            entities-WellFormed _ g
              (λ id. known-merge_entities id g.entities plan.entities g.entities) w)))
