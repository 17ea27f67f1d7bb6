-- ===== src/Deletion/Tenancy.antt =====
-- Whichever of their statements fail, the deletions for a tenant keep the nodes of the other tenants.
use cat_graphrag.Prelude.{
  ℕ, List, ◌≡◌, refl, Bool, true, false, ◌&&◌, ◌||◌, not, arith, any_iff, filter_by, Has,
  Has-filter_by, Bool-cases, inl, inr,
}
use cat_graphrag.Prelude.Keys.{Str, str_eq}
use cat_graphrag.Prelude.Dict.{Dict}
use cat_graphrag.Drain.{Pending}
use cat_graphrag.Graph.{
  DocumentNode, CollectionNode, EntityNode, SourceFileNode, BelongsTo, Graph, Store,
}
use cat_graphrag.Graph.Cypher.{
  belongs_to_tenant, detach_documents, detach_entities, detach_collections, detach_source_files,
}
use cat_graphrag.Deletion.Purge.{purge_source_graph_artifacts}
use cat_graphrag.Deletion.Points.{delete_tenant_points, delete_tenant_points_by_ids}
use cat_graphrag.Deletion.Steps.{Steps}
use cat_graphrag.Deletion.Whole.{deletions-Within}
use cat_graphrag.Deletion.Wipe.{drop_tenant_data_in_session}

-- Nodes that pass a test stay where those that fail it go.
stays :
    {N : Type 0} (p : N → Bool) (n : N) (ns : List N)
    → Has n ns
    → p n ≡ false
    → Has n (filter_by (λ n. not (p n)) ns)
stays p n ns has off = (Has-filter_by (λ n. not (p n)) n ns).1 (has, ground arith)

module _ {V W : Type 0} (tenant : Str) where
  -- The documents in collections of the tenant are the tenant's.
  abbrev pub OwnDocuments : Graph V W → Type 0
  OwnDocuments g =
      (d : DocumentNode)
      → Has d g.documents
      → belongs_to_tenant g tenant d ≡ true
      → str_eq d.tenant_id tenant ≡ true

  -- The second graph has the documents, entities, source files and collections that the first one has
  -- for other tenants.
  pub record OthersKept (g h : Graph V W) : Type 0 where
    pub documents :
        (d : DocumentNode)
        → Has d g.documents
        → str_eq d.tenant_id tenant ≡ false
        → Has d h.documents
    pub entities :
        (e : EntityNode V) → Has e g.entities → str_eq e.tenant_id tenant ≡ false → Has e h.entities
    pub source_files :
        (f : SourceFileNode)
        → Has f g.source_files
        → str_eq f.tenant_id tenant ≡ false
        → Has f h.source_files
    pub collections :
        (c : CollectionNode)
        → Has c g.collections
        → str_eq c.tenant_id tenant ≡ false
        → Has c h.collections

  abbrev Spared : Graph V W → Graph V W → Type 0
  Spared g h = OwnDocuments g → OwnDocuments h × OthersKept g h

  -- Fewer BELONGS_TO relationships.
  fewer_belong :
      (g h : Graph V W) (q : BelongsTo → Bool) (d : DocumentNode)
      → h.belongs_to ≡ filter_by q g.belongs_to
      → belongs_to_tenant h tenant d ≡ true
      → belongs_to_tenant g tenant d ≡ true
  unfolding belongs_to_tenant
  fewer_belong g h q d e b =
      let (r, has, t) = (any_iff _ h.belongs_to).0 b in
      let old = (Has-filter_by q r g.belongs_to).0 (rw⁻¹ e has) in
      (any_iff (λ (r : BelongsTo). str_eq r.document d.id && str_eq r.tenant_id tenant)
          g.belongs_to).1
        (r, old.0, t)

  kept_all : (g : Graph V W) → OthersKept g g
  kept_all g = record {
    documents = λ d h _. h;
    entities = λ e h _. h;
    source_files = λ f h _. h;
    collections = λ c h _. h;
  }

  kept_twice : (g h k : Graph V W) → OthersKept g h → OthersKept h k → OthersKept g k
  kept_twice g h k a b = record {
    documents = λ d has other. b.documents d (a.documents d has other) other;
    entities = λ e has other. b.entities e (a.entities e has other) other;
    source_files = λ f has other. b.source_files f (a.source_files f has other) other;
    collections = λ c has other. b.collections c (a.collections c has other) other;
  }

  documents_Spared :
      (p : DocumentNode → Bool) (g : Graph V W)
      → ((d : DocumentNode)
          → p d ≡ true
          → (belongs_to_tenant g tenant d || str_eq d.tenant_id tenant) ≡ true)
      → Spared g (detach_documents p g)
  unfolding detach_documents
  documents_Spared p g mine own = (
    λ d has b.
        own d ((Has-filter_by (λ d. not (p d)) d g.documents).0 has).0
          (fewer_belong g (detach_documents p g) _ d refl b),
    record {
      documents = λ d has other. stays p d g.documents has (spared d has other);
      entities = λ e h _. h;
      source_files = λ f h _. h;
      collections = λ c h _. h;
    },
  )
    where
      spared :
          (d : DocumentNode) → Has d g.documents → str_eq d.tenant_id tenant ≡ false → p d ≡ false
      spared d has other = elim (Bool-cases (p d)) [
        | inr off ↦ off
        | inl on ↦
            let m = mine d on in
            elim (Bool-cases (belongs_to_tenant g tenant d)) [
              | inl b ↦ let t = own d has b in absurd (ground arith)
              | inr b ↦ absurd (ground arith)
            ]
      ]

  entities_Spared :
      (p : EntityNode V → Bool) (g : Graph V W)
      → ((e : EntityNode V) → p e ≡ true → str_eq e.tenant_id tenant ≡ true)
      → Spared g (detach_entities p g)
  unfolding detach_entities belongs_to_tenant
  entities_Spared p g mine own = (
    own,
    record {
      documents = λ d h _. h;
      entities = λ e has other. stays p e g.entities has (elim (Bool-cases (p e)) [
        | inr off ↦ off
        | inl on ↦ let m = mine e on in absurd (ground arith)
      ]);
      source_files = λ f h _. h;
      collections = λ c h _. h;
    },
  )

  collections_Spared : (g : Graph V W) → Spared g (detach_collections tenant g)
  unfolding detach_collections
  collections_Spared g own = (
    λ d has b. own d has (fewer_belong g (detach_collections tenant g) _ d refl b),
    record {
      documents = λ d h _. h;
      entities = λ e h _. h;
      source_files = λ f h _. h;
      collections = λ c has other.
          stays (λ (c : CollectionNode). str_eq c.tenant_id tenant) c g.collections has other;
    },
  )

  source_files_Spared : (p : Str → Bool) (g : Graph V W) → Spared g (detach_source_files tenant p g)
  unfolding detach_source_files belongs_to_tenant
  source_files_Spared p g own = (
    own,
    record {
      documents = λ d h _. h;
      entities = λ e h _. h;
      source_files = λ f has other.
          stays (λ (f : SourceFileNode). str_eq f.tenant_id tenant && p f.name) f g.source_files has
            (ground arith);
      collections = λ c h _. h;
    },
  )

  Spared-Steps : Steps {V = V} {W = W} tenant Spared
  unfolding belongs_to_tenant
  Spared-Steps = record {
    same = λ g own. (own, kept_all g);
    chain = λ g h k a b own.
        let (own', ab) = a own in let (own'', bc) = b own' in (own'', kept_twice g h k ab bc);
    documents_go = documents_Spared;
    entities_go = entities_Spared;
    collections_go = collections_Spared;
    source_files_go = source_files_Spared;
    evidence_goes = λ q g own. (
      own,
      record {
        documents = λ d h _. h;
        entities = λ e h _. h;
        source_files = λ f h _. h;
        collections = λ c h _. h;
      },
    );
    similar_go = λ q g own. (
      own,
      record {
        documents = λ d h _. h;
        entities = λ e h _. h;
        source_files = λ f h _. h;
        collections = λ c h _. h;
      },
    );
    related_go = λ q source g own. (
      own,
      record {
        documents = λ d h _. h;
        entities = λ e h _. h;
        source_files = λ f h _. h;
        collections = λ c h _. h;
      },
    );
  }

module _ {A M R V W E : Type 0} (tenant : Str) where
  -- Where the documents in the tenant's collections are the tenant's own: each of the four deletions
  -- for the tenant (of the artefacts of a source, of points, of points by their ids, and of all its
  -- data) keeps all documents, entities, source files and collections of the other tenants, whichever
  -- of its statements fail and where it raises.
  pub deletions-OthersKept :
      (dumps : Str → Str) (source collection_name : Str) (metadata : Dict Str Str)
      (points_ids : List Str) (operation_id : ℕ) (s : Store (Pending A M R) (Graph V W) E)
      → OwnDocuments tenant s.graph
      → OthersKept tenant s.graph (purge_source_graph_artifacts dumps tenant source s).1.graph
        × OthersKept tenant s.graph
            (delete_tenant_points tenant dumps collection_name metadata operation_id s).1.graph
        × OthersKept tenant s.graph
            (delete_tenant_points_by_ids tenant collection_name points_ids operation_id s).1.graph
        × OthersKept tenant s.graph (drop_tenant_data_in_session tenant s).1.graph
  deletions-OthersKept dumps source collection_name metadata points_ids operation_id s own =
      let (a, b, c, d) =
        deletions-Within tenant (Spared tenant) (Spared-Steps tenant) dumps source collection_name
          metadata points_ids operation_id s in
      ((a own).1, (b own).1, (c own).1, (d own).1)
