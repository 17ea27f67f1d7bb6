-- ===== src/Deletion/Steps.antt =====
-- What holds of each statement of the deletions, and is passed on, holds of their parts, whichever of
-- their statements fail.
use cat_graphrag.Prelude.{
  ◌≡◌, ◌||◌, arith, any_iff, filter_by, List, Bool, true, false, Exec, ◌>>=◌, ◌>>◌, ◌&&◌,
}
use cat_graphrag.Prelude.Keys.{Str, str_eq, str_key}
use cat_graphrag.Batches.{Failure}
use cat_graphrag.Graph.{
  BelongsTo, Evidence, SimilarTo, RelatedTo, DocumentNode, EntityNode, Graph, Store, query,
  statement,
}
use cat_graphrag.Graph.Cypher.{
  detach_documents, detach_entities, detach_source_files, strip_where, belongs_to_tenant,
  detach_collections, belongs_to_collection,
}
use cat_graphrag.Graph.Runs.{
  Within, query-Within, statement-Within, bind-Within, delete_each-Within,
}
use cat_graphrag.Deletion.{
  delete_each, pointed_at, delete_source_edges, is_unreferenced, prune_entities, delete_similar,
  strip_related, delete_source_files,
}
use cat_graphrag.Deletion.Purge.{purge_evidence, purge_similar, strip_source}
use cat_graphrag.Deletion.Points.{
  delete_where, strip_if, prune_where, sweep_source_files, delete_documents,
}
use cat_graphrag.Deletion.Wipe.{
  drop_documents, drop_unmentioned, drop_empty_files, drop_tenant_data_in_session,
}

-- A relation between graphs that the statements of the deletions of a tenant keep to. Each of them
-- deletes documents of the tenant or of its collections, entities, source files and collections of
-- the tenant, or relationships.
pub record Steps {V W : Type 0} (tenant : Str) (R : Graph V W → Graph V W → Type 0) : Type 0 where
  pub same : (g : Graph V W) → R g g
  pub chain : (g h k : Graph V W) → R g h → R h k → R g k
  pub documents_go :
      (p : DocumentNode → Bool) (g : Graph V W)
      → ((d : DocumentNode)
          → p d ≡ true
          → (belongs_to_tenant g tenant d || str_eq d.tenant_id tenant) ≡ true)
      → R g (detach_documents p g)
  pub entities_go :
      (p : EntityNode V → Bool) (g : Graph V W)
      → ((e : EntityNode V) → p e ≡ true → str_eq e.tenant_id tenant ≡ true)
      → R g (detach_entities p g)
  pub collections_go : (g : Graph V W) → R g (detach_collections tenant g)
  pub source_files_go : (p : Str → Bool) (g : Graph V W) → R g (detach_source_files tenant p g)
  pub evidence_goes :
      (q : Evidence → Bool) (g : Graph V W) → R g (record g { evidence = filter_by q g.evidence })
  pub similar_go :
      (q : SimilarTo → Bool) (g : Graph V W)
      → R g (record g { similar_to = filter_by q g.similar_to })
  pub related_go :
      (q : RelatedTo W → Bool) (source : Str) (g : Graph V W)
      → R g (record g { related_to = strip_where q source g.related_to })

-- A document in a collection of the tenant is one that belongs to the tenant.
pub in_collection :
    {V W : Type 0} (g : Graph V W) (name tenant : Str) (d : DocumentNode)
    → belongs_to_collection g name tenant d ≡ true
    → belongs_to_tenant g tenant d ≡ true
unfolding belongs_to_collection belongs_to_tenant
in_collection g name tenant d h =
    let (r, has, q) = (any_iff _ g.belongs_to).0 h in
    (any_iff (λ (r : BelongsTo). str_eq r.document d.id && str_eq r.tenant_id tenant)
        g.belongs_to).1
      (r, has, ground arith)

module _ {T V W E : Type 0} (tenant : Str) (R : Graph V W → Graph V W → Type 0)
    (steps : Steps tenant R) where
  open steps use {
    same, chain, documents_go, entities_go, collections_go, source_files_go, evidence_goes,
    similar_go, related_go,
  }

  abbrev Keeps : {A : Type 0} → Exec (Store T (Graph V W) E) (Failure E) A → Type 0
  Keeps m = Within R m

  abbrev pub then :
      {A B : Type 0} (m : Exec (Store T (Graph V W) E) (Failure E) A)
      (f : A → Exec (Store T (Graph V W) E) (Failure E) B)
      → Keeps m
      → ((a : A) → Keeps (f a))
      → Keeps (m >>= f)
  then = bind-Within R same chain

  pub reads : {A : Type 0} (f : Graph V W → A) → Keeps (query f)
  reads = query-Within R same chain

  writes : (f : Graph V W → Graph V W) → ((g : Graph V W) → R g (f g)) → Keeps (statement f)
  writes = statement-Within R same chain

  each :
      {A : Type 0} (ids : List A) (f : List A → Graph V W → Graph V W)
      → ((batch : List A) (g : Graph V W) → R g (f batch g))
      → Keeps (delete_each ids f)
  each = delete_each-Within R same chain

  pub deleting :
      (p : Graph V W → DocumentNode → Bool)
      → ((g : Graph V W) (d : DocumentNode)
          → p g d ≡ true
          → (belongs_to_tenant g tenant d || str_eq d.tenant_id tenant) ≡ true)
      → Keeps (delete_where p)
  unfolding delete_where
  deleting p own = then _ _ (reads _) (λ ids.
      each ids (delete_documents p) (λ batch g. documents_go _ g (λ d h. own g d (ground arith))))

  pub stripping : (source : Str) → Keeps (strip_source tenant source)
  unfolding strip_source strip_related
  stripping source =
      then _ _ (reads _)
        (λ related. each related (strip_related tenant source) (λ batch g. related_go _ source g))

  pub stripping_if : (b : Bool) (source : Str) → Keeps (strip_if tenant b source)
  unfolding strip_if
  stripping_if true source = stripping source
  stripping_if false source = λ s. same s.graph

  pub purging_evidence : (ids : List Str) → Keeps (purge_evidence tenant ids)
  unfolding purge_evidence delete_source_edges
  purging_evidence ids =
      then (query (pointed_at tenant ids))
        (λ candidates.
          delete_each ids (delete_source_edges tenant)
          >> delete_each candidates (prune_entities tenant is_unreferenced))
        (reads (pointed_at tenant ids))
        (λ candidates.
          then (delete_each ids (delete_source_edges tenant))
            (λ _. delete_each candidates (prune_entities tenant is_unreferenced))
            (each ids (delete_source_edges tenant) (λ batch g. evidence_goes _ g))
            (λ _.
              each candidates (prune_entities tenant is_unreferenced)
                (λ batch g. entities_go _ g (λ e h. ground arith))))

  pub purging_similar : (ids : List Str) → Keeps (purge_similar tenant ids)
  unfolding purge_similar delete_similar
  purging_similar ids =
      then _ _ (reads _)
        (λ similar. each similar (delete_similar tenant) (λ batch g. similar_go _ g))

  pub pruning : (p : Graph V W → EntityNode V → Bool) → Keeps (prune_where tenant p)
  unfolding prune_where
  pruning p =
      then _ _ (reads _) (λ ids.
        each ids (prune_entities tenant p) (λ batch g. entities_go _ g (λ e h. ground arith)))

  pub sweeping : Keeps (sweep_source_files tenant)
  unfolding sweep_source_files
  sweeping =
      then _ _ (reads _)
        (λ names. each names (delete_source_files tenant) (λ batch g. source_files_go _ g))

  pub dropping_all : Keeps (drop_tenant_data_in_session tenant)
  unfolding drop_tenant_data_in_session
  dropping_all =
      let a : Exec (Store T (Graph V W) E) (Failure E) (Unit {0}) =
        statement (drop_documents tenant) in
      let b : Exec (Store T (Graph V W) E) (Failure E) (Unit {0}) =
        statement (detach_collections tenant) in
      let c : Exec (Store T (Graph V W) E) (Failure E) (Unit {0}) =
        statement (drop_unmentioned tenant) in
      let d : Exec (Store T (Graph V W) E) (Failure E) (Unit {0}) =
        statement (drop_empty_files tenant) in
      then (a >> b >> c) (λ _. d)
        (then (a >> b) (λ _. c)
          (then a (λ _. b)
            (writes (drop_documents tenant) (λ g. documents_go _ g (λ d h. ground arith)))
            (λ _. writes (detach_collections tenant) (λ g. collections_go g)))
          (λ _. writes (drop_unmentioned tenant) (λ g. entities_go _ g (λ e h. ground arith))))
        (λ _. writes (drop_empty_files tenant) (λ g. source_files_go _ g))
