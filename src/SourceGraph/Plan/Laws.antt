-- ===== src/SourceGraph/Plan/Laws.antt =====
-- What the transaction plans of source_graph_writer.py guarantee.
use cat_graphrag.Prelude.{
  Has-append, List, [], ◌∷◌, ◌++◌, ◌≡◌, refl, ◌↔◌, ◌⊎◌, inl, inr, arith, Has, Bool-cases,
}
use cat_graphrag.Prelude.Keys.{Str, str_key, str_eq, str_eq_iff}
use cat_graphrag.Prelude.Dict.{Dict, lookup, put, lookup-put}
use cat_graphrag.SourceGraph.Types.{Mention}
use cat_graphrag.SourceGraph.Dedupe.{or_empty}
use cat_graphrag.SourceGraph.Plan.{by_entity, mentions_of}

module _ {F : Type 0} where
  put_lem :
      (groups : Dict Str (List (Mention F))) (x : Mention F) (k : Str) (m : Mention F)
      → Has m (
          or_empty
            (lookup k (put x.entity_id (or_empty (lookup x.entity_id groups) ++ x ∷ []) groups)))
        ↔ (Has m (or_empty (lookup k groups)) ⊎ ((x ≡ m) × (m.entity_id ≡ k)))
  put_lem groups x k m =
      let new = or_empty (lookup x.entity_id groups) ++ x ∷ [] in
      rw (lookup-put x.entity_id k new groups) (elim (Bool-cases (str_eq x.entity_id k)) [
        | inl same ↦
            let e = (str_eq_iff x.entity_id k).0 same in
            rw (same, e) (ground (arith, Has-append m (or_empty (lookup k groups)) (x ∷ [])))
        | inr differ ↦ rw differ (ground (arith, str_eq_iff x.entity_id k))
      ])

  pub by_entity_lem :
      (groups : Dict Str (List (Mention F))) (ms : List (Mention F)) (k : Str) (m : Mention F)
      → Has m (or_empty (lookup k (by_entity groups ms)))
        ↔ (Has m (or_empty (lookup k groups)) ⊎ (Has m ms × (m.entity_id ≡ k)))
  unfolding by_entity
  by_entity_lem groups [] k m = (λ h. inl h, λ h. elim h [ inl a ↦ a | inr b ↦ absurd b.0 ])
  by_entity_lem groups (x ∷ ms) k m = ground (
    arith,
    by_entity_lem (put x.entity_id (or_empty (lookup x.entity_id groups) ++ x ∷ []) groups) ms k m,
    put_lem groups x k m,
  )

  pub mentions_of_lem :
      (groups : Dict Str (List (Mention F))) (ids : List Str) (m : Mention F)
      → Has m (mentions_of groups ids)
        ↔ ((k : Str) × Has k ids × Has m (or_empty (lookup k groups)))
  unfolding mentions_of
  mentions_of_lem groups [] m = (λ h. absurd h, λ h. absurd h.1)
  mentions_of_lem groups (i ∷ ids) m = (
    λ h. elim ((Has-append m (or_empty (lookup i groups)) (mentions_of groups ids)).0 h) [
      | inl here ↦ (i, inl refl, here)
      | inr later ↦
          let (k, there, has) = (mentions_of_lem groups ids m).0 later in (k, inr there, has)
    ],
    λ (k, at, has).
        (Has-append m (or_empty (lookup i groups)) (mentions_of groups ids)).1 (elim at [
          | inl e ↦ inl (rw e has)
          | inr there ↦ inr ((mentions_of_lem groups ids m).1 (k, there, has))
        ]),
  )
