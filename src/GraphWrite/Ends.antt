-- ===== src/GraphWrite/Ends.antt =====
-- The nodes and the ends of relationships that the steps of the graph transaction keep.
use mathlib.Core.Path.{subst}
use cat_graphrag.Prelude.{
  List, [], ◌∷◌, ◌++◌, map, ◌≡◌, refl, ◌∙◌, Bool, true, ◌&&◌, any, any_iff, any-append, any-cong,
  arith, Has-append, Bool-cases, inl, inr, if◌then◌else◌,
}
use cat_graphrag.Prelude.Keys.{Str, str_eq}
use cat_graphrag.SourceGraph.Types.{Entity}
use cat_graphrag.Graph.{DocumentNode, EntityNode, EvidenceType, Evidence, Graph}
use cat_graphrag.Graph.Cypher.{is_document_of, is_entity_of}
use cat_graphrag.Graph.Invariant.{Ends}
use cat_graphrag.GraphWrite.{is_at, matched, created, merge_entity, same_kind, merge_evidence}

-- Some entity has the id.
abbrev pub known : {V : Type 0} → Str → List (EntityNode V) → Bool
known id es = any (λ e. str_eq e.id id) es

module _ {V : Type 0} where
  pub known-map :
      (id : Str) (f : EntityNode V → EntityNode V) (es : List (EntityNode V))
      → ((e : EntityNode V) → (f e).id ≡ e.id)
      → known id (map f es) ≡ known id es
  known-map id f [] h = refl
  known-map id f (e ∷ es) h = rw (h e, known-map id f es h) refl

  pub known-merge_entity :
      {F T : Type 0} (tenant : Str) (ent : Entity F T V) (metadata : Str) (id : Str)
      (es : List (EntityNode V))
      → known id es ≡ true
      → known id (merge_entity tenant ent metadata es) ≡ true
  unfolding merge_entity
  known-merge_entity tenant ent metadata id es h =
      elim (Bool-cases (any (is_at tenant ent.id) es)) [
        | inl there ↦ rw there (
            known-map id (λ e. if is_at tenant ent.id e then matched tenant ent metadata e else e)
              es keeps_id
            ∙ h)
        | inr new ↦ rw new (
            any-append (λ (e : EntityNode V). str_eq e.id id) es (created tenant ent metadata ∷ [])
            ∙ ground arith)
      ]
    where
      keeps_id :
          (e : EntityNode V)
          → (if is_at tenant ent.id e then matched tenant ent metadata e else e).id ≡ e.id
      keeps_id e = elim (Bool-cases (is_at tenant ent.id e)) [
        | inl y ↦ rw y refl
        | inr n ↦ rw n refl
      ]

  pub known_of :
      {W : Type 0} (tenant id : Str) (g : Graph V W)
      → is_entity_of g tenant id ≡ true
      → known id g.entities ≡ true
  unfolding is_entity_of
  known_of tenant id g h =
      let (e, has, q) =
        (any_iff (λ (e : EntityNode V). str_eq e.tenant_id tenant && str_eq e.id id) g.entities).0
          h in
      (any_iff (λ e. str_eq e.id id) g.entities).1 (e, has, ground arith)

  pub document_of :
      {W : Type 0} (tenant id : Str) (g : Graph V W)
      → is_document_of g tenant id ≡ true
      → any (λ (d : DocumentNode). str_eq d.id id) g.documents ≡ true
  unfolding is_document_of
  document_of tenant id g h =
      let (d, has, q) =
        (any_iff (λ (d : DocumentNode). str_eq d.tenant_id tenant && str_eq d.id id) g.documents).0
          h in
      (any_iff (λ d. str_eq d.id id) g.documents).1 (d, has, ground arith)

-- A new relationship with its end among the nodes.
pub Ends-snoc :
    {N R : Type 0} (at : N → R → Bool) (nodes : List N) (rs : List R) (r : R)
    → any (λ n. at n r) nodes ≡ true
    → Ends at nodes rs
    → Ends at nodes (rs ++ r ∷ [])
Ends-snoc at nodes rs r new ends x h = elim ((Has-append x rs (r ∷ [])).0 h) [
  | inl old ↦ ends x old
  | inr last ↦ elim last [
    | inl same ↦ subst (λ y. any (λ n. at n y) nodes ≡ true) same new
    | inr never ↦ absurd never
  ]
]

pub Ends-merge_evidence :
    {N : Type 0} (at : N → Evidence → Bool) (nodes : List N) (kind : EvidenceType)
    (doc entity : Str) (rs : List Evidence)
    → any (λ n. at n (record { kind = kind; document = doc; entity = entity })) nodes ≡ true
    → Ends at nodes rs
    → Ends at nodes (merge_evidence kind doc entity rs)
unfolding merge_evidence
Ends-merge_evidence at nodes kind doc entity rs new ends =
    elim (Bool-cases (
      any
        (λ (r : Evidence). same_kind kind r.kind && str_eq r.document doc && str_eq r.entity entity)
        rs)) [
          | inl there ↦ rw there ends
          | inr absent ↦ rw absent (Ends-snoc at nodes rs _ new ends)
        ]

pub Ends-map :
    {N R : Type 0} (at : N → R → Bool) (nodes : List N) (f : R → R) (rs : List R)
    → ((r : R) (n : N) → at n (f r) ≡ at n r)
    → Ends at nodes rs
    → Ends at nodes (map f rs)
Ends-map at nodes f [] same ends x h = absurd h
Ends-map at nodes f (r ∷ rs) same ends x (inl e) =
    subst (λ y. any (λ n. at n y) nodes ≡ true) e
      (any-cong (λ n. at n (f r)) (λ n. at n r) (same r) nodes ∙ ends r (inl refl))
Ends-map at nodes f (r ∷ rs) same ends x (inr h) =
    Ends-map at nodes f rs same (λ y k. ends y (inr k)) x h
