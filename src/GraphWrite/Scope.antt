-- ===== src/GraphWrite/Scope.antt =====
-- The relationships that the transaction of a source's graph adds join nodes of the tenant.
use mathlib.Core.Path.{subst}
use cat_graphrag.Prelude.{
  ℕ, List, [], ◌∷◌, ◌++◌, map, ◌≡◌, ◌⊎◌, refl, ◌∙◌, true, ◌&&◌, Option, any, arith, Has, Has-append,
  Bool-cases, inl, inr, if◌then◌else◌,
}
use cat_graphrag.Prelude.Keys.{Str, str_eq}
use cat_graphrag.SourceGraph.Types.{Floats, Entity, Mention, Relation, WritePlan}
use cat_graphrag.Graph.{EntityNode, EvidenceType, mentions, provenance, Evidence, RelatedTo, Graph}
use cat_graphrag.Graph.Cypher.{is_document_of, is_entity_of}
use cat_graphrag.GraphWrite.{
  MetadataTexts, is_at, merge_entities, same_kind, merge_evidence, has_ends, add_mention,
  add_provenance, unwind, is_relation, merge_relation, mean_weight, merge_files, add_relation,
  write_graph_plan_in_tx,
}
use cat_graphrag.GraphWrite.Merges.{any-is_at-map, is_at-if}

-- What is in a list with a new last element.
Has-snoc :
    {A : Type 0} (P : A → Type 0) (xs : List A) (y : A)
    → ((x : A) → Has x xs → P x)
    → P y
    → (x : A) → Has x (xs ++ y ∷ [])
    → P x
Has-snoc P xs y old new x h = elim ((Has-append x xs (y ∷ [])).0 h) [
  | inl before ↦ old x before
  | inr last ↦ elim last [ inl same ↦ subst P same new | inr never ↦ absurd never ]
]

Has-map :
    {A : Type 0} (P : A → Type 0) (f : A → A) (xs : List A)
    → ((x : A) → P x → P (f x))
    → ((x : A) → Has x xs → P x)
    → (x : A) → Has x (map f xs)
    → P x
Has-map P f [] keeps old x h = absurd h
Has-map P f (y ∷ ys) keeps old x (inl e) = subst P e (keeps y (old y (inl refl)))
Has-map P f (y ∷ ys) keeps old x (inr h) = Has-map P f ys keeps (λ z k. old z (inr k)) x h

module _ {V W : Type 0} (tenant : Str) (g : Graph V W) where
  -- A relationship between two documents or entities that was there, or that joins two nodes of the
  -- tenant.
  abbrev Tells : Graph V W → Evidence → Type 0
  Tells h r =
      Has r g.evidence
      ⊎ ((is_document_of h tenant r.document ≡ true) × (is_entity_of h tenant r.entity ≡ true))

  -- A relation whose ends a relation had before, or whose ends are two entities of the tenant.
  abbrev Relates : Graph V W → RelatedTo W → Type 0
  Relates h r =
      ((r' : RelatedTo W) × Has r' g.related_to × (r'.source ≡ r.source) × (r'.target ≡ r.target))
      ⊎ ((is_entity_of h tenant r.source ≡ true) × (is_entity_of h tenant r.target ≡ true))

  -- All evidence and all relations of `h` were in `g`, or join nodes of the tenant.
  pub record Scoped (h : Graph V W) : Type 0 where
    pub tells : (r : Evidence) → Has r h.evidence → Tells h r
    pub relates : (r : RelatedTo W) → Has r h.related_to → Relates h r

  -- The same for a graph with the same nodes of the tenant.
  Tells-cong :
      (h k : Graph V W)
      → ((id : Str) → is_document_of h tenant id ≡ true → is_document_of k tenant id ≡ true)
      → ((id : Str) → is_entity_of h tenant id ≡ true → is_entity_of k tenant id ≡ true)
      → (r : Evidence) → Tells h r
      → Tells k r
  Tells-cong h k docs ents r (inl old) = inl old
  Tells-cong h k docs ents r (inr (d, e)) = inr (docs r.document d, ents r.entity e)

  Relates-cong :
      (h k : Graph V W)
      → ((id : Str) → is_entity_of h tenant id ≡ true → is_entity_of k tenant id ≡ true)
      → (r : RelatedTo W) → Relates h r
      → Relates k r
  Relates-cong h k ents r (inl old) = inl old
  Relates-cong h k ents r (inr (s, t)) = inr (ents r.source s, ents r.target t)

  unwind-Scoped :
      {A : Type 0} (f : A → Graph V W → Graph V W) (xs : List A) (h : Graph V W)
      → ((x : A) (h : Graph V W) → Scoped h → Scoped (f x h))
      → Scoped h
      → Scoped (unwind f xs h)
  unfolding unwind
  unwind-Scoped f [] h step w = w
  unwind-Scoped f (x ∷ xs) h step w = unwind-Scoped f xs (f x h) step (step x h w)

  -- One piece of evidence between nodes of the tenant.
  evidence-Scoped :
      (kind : EvidenceType) (doc entity : Str) (h : Graph V W)
      → is_document_of h tenant doc ≡ true
      → is_entity_of h tenant entity ≡ true
      → Scoped h
      → Scoped (record h { evidence = merge_evidence kind doc entity h.evidence })
  unfolding merge_evidence is_document_of is_entity_of
  evidence-Scoped kind doc entity h d e w =
      elim (Bool-cases (
        any
          (λ (r : Evidence).
            same_kind kind r.kind && str_eq r.document doc && str_eq r.entity entity)
          h.evidence)) [
            | inl there ↦ rw there w
            | inr absent ↦ rw absent (record {
              tells = Has-snoc (Tells h) h.evidence _ w.tells (inr (d, e));
              relates = w.relates;
            })
          ]

  add_mention-Scoped :
      {F : Type 0} (m : Mention F) (h : Graph V W) → Scoped h → Scoped (add_mention tenant m h)
  unfolding add_mention has_ends
  add_mention-Scoped m h w = elim (Bool-cases (has_ends tenant h m)) [
    | inl both ↦
        rw both (evidence-Scoped mentions m.doc_id m.entity_id h (ground arith) (ground arith) w)
    | inr missing ↦ rw missing w
  ]

  -- Entities whose ids and tenants stay.
  entities-Scoped :
      (f : EntityNode V → EntityNode V) (h : Graph V W)
      → ((id : Str) (e : EntityNode V) → is_at tenant id (f e) ≡ is_at tenant id e)
      → Scoped h
      → Scoped (record h { entities = map f h.entities })
  unfolding is_document_of is_entity_of
  entities-Scoped f h same w =
      let k : Graph V W = record h { entities = map f h.entities } in
      let ents : (id : Str) → is_entity_of h tenant id ≡ true → is_entity_of k tenant id ≡ true =
        λ id e. any-is_at-map tenant id f h.entities (same id) ∙ e in
      record {
        tells = λ r has. Tells-cong h k (λ id d. d) ents r (w.tells r has);
        relates = λ r has. Relates-cong h k ents r (w.relates r has);
      }

  add_provenance-Scoped :
      {F : Type 0} (m : Mention F) (h : Graph V W) → Scoped h → Scoped (add_provenance tenant m h)
  unfolding add_provenance has_ends
  add_provenance-Scoped m h w = elim (Bool-cases (has_ends tenant h m)) [
    | inl both ↦ rw both (
        entities-Scoped
          (λ (e : EntityNode V).
            if is_at tenant m.entity_id e then record e { tracked_by_provenance = true } else e)
          (record h { evidence = merge_evidence provenance m.doc_id m.entity_id h.evidence })
          (λ id e.
            is_at-if tenant id (is_at tenant m.entity_id e) e
              (record e { tracked_by_provenance = true }) refl refl)
          (evidence-Scoped provenance m.doc_id m.entity_id h (ground arith) (ground arith) w))
    | inr missing ↦ rw missing w
  ]

module _ (floats : Floats) {V : Type 0} (fresh : List (RelatedTo (Option floats.F)) → ℕ)
    (tenant : Str) (g : Graph V (Option floats.F)) where
  -- A relation of the plan that is matched keeps its ends.
  merged-Relates :
      (h : Graph V (Option floats.F)) (rel : Relation floats.F) (r : RelatedTo (Option floats.F))
      → Relates tenant g h r
      → Relates tenant g h (
          if is_relation floats rel r
          then record r {
            weight = mean_weight floats r.weight rel.weight;
            source_files = merge_files r.source_files rel.source_files;
          }
          else r)
  merged-Relates h rel r w = elim (Bool-cases (is_relation floats rel r)) [
    | inl y ↦ rw y w
    | inr n ↦ rw n w
  ]

  add_relation-Scoped :
      (rel : Relation floats.F) (h : Graph V (Option floats.F))
      → Scoped tenant g h
      → Scoped tenant g (add_relation floats fresh tenant rel h)
  unfolding add_relation merge_relation is_document_of is_entity_of
  add_relation-Scoped rel h w =
      elim (Bool-cases
        (is_entity_of h tenant rel.source_id && is_entity_of h tenant rel.target_id)) [
          | inl both ↦ rw both (elim (Bool-cases (any (is_relation floats rel) h.related_to)) [
            | inl there ↦ rw there (record {
              tells = w.tells;
              relates =
                  Has-map (Relates tenant g h) _ h.related_to (merged-Relates h rel) w.relates;
            })
            | inr absent ↦ rw absent (record {
              tells = w.tells;
              relates =
                  Has-snoc (Relates tenant g h) h.related_to _ w.relates
                    (inr (ground arith, ground arith));
            })
          ])
          | inr missing ↦ rw missing w
        ]

module _ (floats : Floats) {T V : Type 0} (texts : MetadataTexts floats.F T)
    (raw_of : Entity floats.F T V → T) (fresh : List (RelatedTo (Option floats.F)) → ℕ)
    (tenant : Str) where
  -- After the transaction that writes a plan, each MENTIONS and PROVENANCE relationship was there
  -- before or joins a document and an entity of the tenant, and each RELATED_TO relationship has the
  -- ends of one that was there before or joins two entities of the tenant.
  pub write_graph_plan_in_tx-Scoped :
      (plan : WritePlan floats.F T V) (g : Graph V (Option floats.F))
      → Scoped tenant g (write_graph_plan_in_tx floats texts raw_of fresh tenant plan g)
  unfolding write_graph_plan_in_tx
  write_graph_plan_in_tx-Scoped plan g =
      let g1 : Graph V (Option floats.F) = record g {
        entities = merge_entities floats texts tenant raw_of g.entities plan.entities g.entities;
      } in
      let start : Scoped tenant g g1 = record {
        tells = λ r h. inl h;
        relates = λ r h. inl (r, h, refl, refl);
      } in
      unwind-Scoped tenant g (add_relation floats fresh tenant) plan.relations _
        (add_relation-Scoped floats fresh tenant g)
        (unwind-Scoped tenant g (add_provenance tenant) plan.mentions _
          (add_provenance-Scoped tenant g)
          (unwind-Scoped tenant g (add_mention tenant) plan.mentions g1
            (add_mention-Scoped tenant g) start))
