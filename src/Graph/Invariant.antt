-- ===== src/Graph/Invariant.antt =====
-- No relationship dangles: both of its ends are nodes of the graph. DETACH DELETE keeps this.
use mathlib.Core.Path.{subst}
use cat_graphrag.Prelude.{
  List, [], ◌∷◌, ◌≡◌, refl, sym, ap, ◌∙◌, Bool, true, false, ◌&&◌, not, Option, none, some, arith,
  any, any_iff, filter_by, Has, Has-filter_by, Bool-cases, not_true, inl, inr,
}
use cat_graphrag.Prelude.Keys.{Str, str_eq, str_eq_iff, str_key}
use cat_graphrag.Graph.{
  DocumentNode, CollectionNode, EntityNode, SourceFileNode, BelongsTo, Evidence, PartOf, RelatedTo,
  SimilarTo, Graph,
}
use cat_graphrag.Graph.Strip.{Has-strip_where}
use cat_graphrag.Graph.Cypher.{
  detach_documents, detach_entities, detach_collections, detach_source_files, strip_where,
}

-- Each relationship has a node at the end that `at` reads.
abbrev pub Ends : {N R : Type 0} → (N → R → Bool) → List N → List R → Type 0
Ends {R = R} at nodes rels = (r : R) → Has r rels → any (λ n. at n r) nodes ≡ true

module _ {N R : Type 0} (at : N → R → Bool) (nodes : List N) where
  pub Ends-filter_by :
      (q : R → Bool) (rels : List R) → Ends at nodes rels → Ends at nodes (filter_by q rels)
  Ends-filter_by q rels ends r h = ends r ((Has-filter_by q r rels).0 h).0

  any-rest :
      (p q : N → Bool) (ns : List N)
      → any q ns ≡ true
      → any (λ n. p n && q n) ns ≡ false
      → any q (filter_by (λ n. not (p n)) ns) ≡ true
  any-rest p q [] h k = h
  any-rest p q (n ∷ ns) h k = elim (Bool-cases (p n)) [
    | inl e ↦ rw e (any-rest p q ns (ground arith) (ground arith))
    | inr e ↦ rw e (elim (Bool-cases (q n)) [
      | inl f ↦ rw f refl
      | inr f ↦ rw f (any-rest p q ns (ground arith) (ground arith))
    ])
  ]

  -- Deleting nodes keeps the ends of the relationships that touch none of them.
  pub Ends-detach :
      (p : N → Bool) (q : R → Bool) (rels : List R)
      → ((r : R) → q r ≡ true → any (λ n. p n && at n r) nodes ≡ false)
      → Ends at nodes rels
      → Ends at (filter_by (λ n. not (p n)) nodes) (filter_by q rels)
  Ends-detach p q rels apart ends r h =
      let (kept, passes) = (Has-filter_by q r rels).0 h in
      any-rest p (λ n. at n r) nodes (ends r kept) (apart r passes)

abbrev pub is_named : Str → Option Str → Bool
is_named name none = false
is_named name (some n) = str_eq n name

-- The ends of the relationships.
pub record WellFormed {V W : Type 0} (g : Graph V W) : Type 0 where
  pub belonging :
      Ends (λ (d : DocumentNode) (r : BelongsTo). str_eq d.id r.document) g.documents g.belongs_to
  pub collected :
      Ends
        (λ (c : CollectionNode) (r : BelongsTo).
          is_named r.name c.name && str_eq c.tenant_id r.tenant_id)
        g.collections
        g.belongs_to
  pub telling :
      Ends (λ (d : DocumentNode) (r : Evidence). str_eq d.id r.document) g.documents g.evidence
  pub told : Ends (λ (e : EntityNode V) (r : Evidence). str_eq e.id r.entity) g.entities g.evidence
  pub parts : Ends (λ (d : DocumentNode) (r : PartOf). str_eq d.id r.document) g.documents g.part_of
  pub whole :
      Ends
        (λ (f : SourceFileNode) (r : PartOf).
          str_eq f.name r.name && str_eq f.tenant_id r.tenant_id)
        g.source_files
        g.part_of
  pub sources :
      Ends (λ (e : EntityNode V) (r : RelatedTo W). str_eq e.id r.source) g.entities g.related_to
  pub targets :
      Ends (λ (e : EntityNode V) (r : RelatedTo W). str_eq e.id r.target) g.entities g.related_to
  pub froms :
      Ends (λ (d : DocumentNode) (r : SimilarTo). str_eq d.id r.from) g.documents g.similar_to
  pub tos : Ends (λ (d : DocumentNode) (r : SimilarTo). str_eq d.id r.to) g.documents g.similar_to

any-same :
    {V : Type 0} {i j : Str}
    → i ≡ j
    → (es : List (EntityNode V)) → any (λ e. str_eq e.id i) es ≡ true
    → any (λ e. str_eq e.id j) es ≡ true
any-same e es = subst (λ i. any (λ e. str_eq e.id i) es ≡ true) e

module _ {V W : Type 0} where
  pub detach_documents-WellFormed :
      (p : DocumentNode → Bool) (g : Graph V W) → WellFormed g → WellFormed (detach_documents p g)
  unfolding detach_documents
  detach_documents-WellFormed p g w = record {
    belonging = Ends-detach _ g.documents p _ g.belongs_to (λ r h. ground arith) w.belonging;
    collected = Ends-filter_by _ g.collections _ g.belongs_to w.collected;
    telling = Ends-detach _ g.documents p _ g.evidence (λ r h. ground arith) w.telling;
    told = Ends-filter_by _ g.entities _ g.evidence w.told;
    parts = Ends-detach _ g.documents p _ g.part_of (λ r h. ground arith) w.parts;
    whole = Ends-filter_by _ g.source_files _ g.part_of w.whole;
    sources = w.sources;
    targets = w.targets;
    froms = Ends-detach _ g.documents p _ g.similar_to (λ r h. ground arith) w.froms;
    tos = Ends-detach _ g.documents p _ g.similar_to (λ r h. ground arith) w.tos;
  }

  pub detach_entities-WellFormed :
      (p : EntityNode V → Bool) (g : Graph V W) → WellFormed g → WellFormed (detach_entities p g)
  unfolding detach_entities
  detach_entities-WellFormed p g w = record {
    belonging = w.belonging;
    collected = w.collected;
    telling = Ends-filter_by _ g.documents _ g.evidence w.telling;
    told = Ends-detach _ g.entities p _ g.evidence (λ r h. ground arith) w.told;
    parts = w.parts;
    whole = w.whole;
    sources = Ends-detach _ g.entities p _ g.related_to (λ r h. ground arith) w.sources;
    targets = Ends-detach _ g.entities p _ g.related_to (λ r h. ground arith) w.targets;
    froms = w.froms;
    tos = w.tos;
  }

  pub detach_collections-WellFormed :
      (tenant : Str) (g : Graph V W) → WellFormed g → WellFormed (detach_collections tenant g)
  unfolding detach_collections
  detach_collections-WellFormed tenant g w = record {
    telling = w.telling;
    told = w.told;
    parts = w.parts;
    whole = w.whole;
    sources = w.sources;
    targets = w.targets;
    froms = w.froms;
    tos = w.tos;
    belonging = Ends-filter_by _ g.documents _ g.belongs_to w.belonging;
    collected =
        Ends-detach _ g.collections (λ c. str_eq c.tenant_id tenant) _ g.belongs_to
          (λ r h. not_true _ (λ e.
            let (c, _, q) = (any_iff _ g.collections).0 e in
            ground (
              arith,
              str_eq_iff c.tenant_id tenant,
              str_eq_iff c.tenant_id r.tenant_id,
              str_eq_iff r.tenant_id tenant,
            )))
          w.collected;
  }

  pub detach_source_files-WellFormed :
      (tenant : Str) (p : Str → Bool) (g : Graph V W)
      → WellFormed g
      → WellFormed (detach_source_files tenant p g)
  unfolding detach_source_files
  detach_source_files-WellFormed tenant p g w = record {
    belonging = w.belonging;
    collected = w.collected;
    telling = w.telling;
    told = w.told;
    sources = w.sources;
    targets = w.targets;
    froms = w.froms;
    tos = w.tos;
    parts = Ends-filter_by _ g.documents _ g.part_of w.parts;
    whole =
        Ends-detach _ g.source_files (λ f. str_eq f.tenant_id tenant && p f.name) _ g.part_of
          (λ r h. not_true _ (λ e.
            let (f, _, q) = (any_iff _ g.source_files).0 e in
            let passed : p f.name ≡ true = ground arith in
            let same : f.name ≡ r.name = (str_eq_iff f.name r.name).0 (ground arith) in
            let passes : p r.name ≡ true = sym (ap p same) ∙ passed in
            ground (
              arith,
              str_eq_iff f.tenant_id tenant,
              str_eq_iff f.tenant_id r.tenant_id,
              str_eq_iff r.tenant_id tenant,
            )))
          w.whole;
  }

  -- Deleting some of the relationships between entities and documents keeps the ends of the others.
  pub keep_evidence-WellFormed :
      (q : Evidence → Bool) (g : Graph V W)
      → WellFormed g
      → WellFormed (record g { evidence = filter_by q g.evidence })
  keep_evidence-WellFormed q g w = record {
    belonging = w.belonging;
    collected = w.collected;
    parts = w.parts;
    whole = w.whole;
    sources = w.sources;
    targets = w.targets;
    froms = w.froms;
    tos = w.tos;
    telling = Ends-filter_by _ g.documents q g.evidence w.telling;
    told = Ends-filter_by _ g.entities q g.evidence w.told;
  }

  pub keep_similar-WellFormed :
      (q : SimilarTo → Bool) (g : Graph V W)
      → WellFormed g
      → WellFormed (record g { similar_to = filter_by q g.similar_to })
  keep_similar-WellFormed q g w = record {
    belonging = w.belonging;
    collected = w.collected;
    telling = w.telling;
    told = w.told;
    parts = w.parts;
    whole = w.whole;
    sources = w.sources;
    targets = w.targets;
    froms = Ends-filter_by _ g.documents q g.similar_to w.froms;
    tos = Ends-filter_by _ g.documents q g.similar_to w.tos;
  }

  pub strip_where-WellFormed :
      (p : RelatedTo W → Bool) (source : Str) (g : Graph V W)
      → WellFormed g
      → WellFormed (record g { related_to = strip_where p source g.related_to })
  strip_where-WellFormed p source g w = record {
    belonging = w.belonging;
    collected = w.collected;
    telling = w.telling;
    told = w.told;
    parts = w.parts;
    whole = w.whole;
    froms = w.froms;
    tos = w.tos;
    sources = λ r' h.
        let (r, has, from) = Has-strip_where p source r' g.related_to h in
        any-same from.source_same g.entities (w.sources r has);
    targets = λ r' h.
        let (r, has, from) = Has-strip_where p source r' g.related_to h in
        any-same from.target_same g.entities (w.targets r has);
  }
