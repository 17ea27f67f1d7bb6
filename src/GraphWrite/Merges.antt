-- ===== src/GraphWrite/Merges.antt =====
-- What merging an entity or a piece of evidence into the graph adds and keeps.
use cat_graphrag.Prelude.{
  List, [], ◌∷◌, map, ◌≡◌, refl, ◌∙◌, Bool, true, false, ◌&&◌, any, any-append, arith, Bool-cases,
  inl, inr, if◌then◌else◌,
}
use cat_graphrag.Prelude.Keys.{Str, str_eq, str_eq_iff}
use cat_graphrag.SourceGraph.Types.{Entity, Mention}
use cat_graphrag.Graph.{EntityNode, EvidenceType, mentions, provenance, Evidence}
use cat_graphrag.GraphWrite.{is_at, matched, created, merge_entity, same_kind, merge_evidence}

-- The evidence of a kind that a mention asks for.
abbrev pub told : {F : Type 0} → EvidenceType → Mention F → Evidence → Bool
told kind m r = same_kind kind r.kind && str_eq r.document m.doc_id && str_eq r.entity m.entity_id

pub any-merge_evidence :
    (q : Evidence → Bool) (kind : EvidenceType) (doc entity : Str) (rs : List Evidence)
    → any q rs ≡ true
    → any q (merge_evidence kind doc entity rs) ≡ true
unfolding merge_evidence
any-merge_evidence q kind doc entity rs h =
    elim (Bool-cases (
      any
        (λ (r : Evidence). same_kind kind r.kind && str_eq r.document doc && str_eq r.entity entity)
        rs)) [
          | inl there ↦ rw there h
          | inr absent ↦ rw absent (
              any-append q rs (record { kind = kind; document = doc; entity = entity } ∷ [])
              ∙ ground arith)
        ]

same_kind_refl : (kind : EvidenceType) → same_kind kind kind ≡ true
same_kind_refl mentions = refl
same_kind_refl provenance = refl

pub told-merge_evidence :
    {F : Type 0} (kind : EvidenceType) (m : Mention F) (rs : List Evidence)
    → any (told kind m) (merge_evidence kind m.doc_id m.entity_id rs) ≡ true
unfolding merge_evidence
told-merge_evidence kind m rs = elim (Bool-cases (any (told kind m) rs)) [
  | inl there ↦ rw there there
  | inr absent ↦ rw absent (
      any-append (told kind m) rs
        (record { kind = kind; document = m.doc_id; entity = m.entity_id } ∷ [])
      ∙ ground (
        arith,
        same_kind_refl kind,
        str_eq_iff m.doc_id m.doc_id,
        str_eq_iff m.entity_id m.entity_id,
      ))
]

module _ {V : Type 0} where
  pub any-is_at-map :
      (tenant id : Str) (f : EntityNode V → EntityNode V) (es : List (EntityNode V))
      → ((e : EntityNode V) → is_at tenant id (f e) ≡ is_at tenant id e)
      → any (is_at tenant id) (map f es) ≡ any (is_at tenant id) es
  any-is_at-map tenant id f [] h = refl
  any-is_at-map tenant id f (e ∷ es) h = rw (h e, any-is_at-map tenant id f es h) refl

  pub is_at-if :
      (tenant id : Str) (b : Bool) (e e' : EntityNode V)
      → e'.tenant_id ≡ e.tenant_id
      → e'.id ≡ e.id
      → is_at tenant id (if b then e' else e) ≡ is_at tenant id e
  is_at-if tenant id true e e' t i = rw (t, i) refl
  is_at-if tenant id false e e' t i = refl

module _ {F T V : Type 0} (tenant : Str) where
  pub stays-merge_entity :
      (ent : Entity F T V) (metadata id : Str) (es : List (EntityNode V))
      → any (is_at tenant id) es ≡ true
      → any (is_at tenant id) (merge_entity tenant ent metadata es) ≡ true
  unfolding merge_entity
  stays-merge_entity ent metadata id es h = elim (Bool-cases (any (is_at tenant ent.id) es)) [
    | inl there ↦ rw there (
        any-is_at-map tenant id _ es (λ e.
          is_at-if tenant id (is_at tenant ent.id e) e (matched tenant ent metadata e) refl refl)
        ∙ h)
    | inr new ↦
        rw new (any-append (is_at tenant id) es (created tenant ent metadata ∷ []) ∙ ground arith)
  ]

  pub comes-merge_entity :
      (ent : Entity F T V) (metadata : Str) (es : List (EntityNode V))
      → any (is_at tenant ent.id) (merge_entity tenant ent metadata es) ≡ true
  unfolding merge_entity
  comes-merge_entity ent metadata es = elim (Bool-cases (any (is_at tenant ent.id) es)) [
    | inl there ↦ rw there (
        any-is_at-map tenant ent.id _ es (λ e.
          is_at-if tenant ent.id (is_at tenant ent.id e) e (matched tenant ent metadata e) refl
            refl)
        ∙ there)
    | inr new ↦ rw new (
        any-append (is_at tenant ent.id) es (created tenant ent metadata ∷ [])
        ∙ ground (arith, str_eq_iff tenant tenant, str_eq_iff ent.id ent.id))
  ]
