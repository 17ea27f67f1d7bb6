-- ===== src/Deletion/Whole.antt =====
-- What holds of each statement of the deletions, and is passed on, holds of the deletions.
use cat_graphrag.Prelude.{arith, ℕ, List, Option, some, Exec, ◌>>◌, pure, length, ◌&&◌, is_in}
use cat_graphrag.Prelude.Keys.{Str, str_eq, str_key}
use cat_graphrag.Prelude.Texts.{codes}
use cat_graphrag.Prelude.Dict.{Dict, lookup}
use cat_graphrag.Batches.{Failure}
use cat_graphrag.Drain.{Pending}
use cat_graphrag.Graph.{DocumentNode, Graph, Store, query}
use cat_graphrag.Graph.Cypher.{belongs_to_collection, belongs_to_named}
use cat_graphrag.Graph.Runs.{Within}
use cat_graphrag.Deletion.{documents_with, is_unreferenced}
use cat_graphrag.Deletion.Purge.{
  source_fragment, drop_tasks, purge_evidence, purge_similar, strip_source,
  purge_source_graph_artifacts,
}
use cat_graphrag.Deletion.Points.{
  matches, truthy, or_no_text, prune_rule, delete_where, strip_if, prune_where, sweep_source_files,
  delete_tenant_points, delete_tenant_points_by_ids,
}
use cat_graphrag.Deletion.Wipe.{drop_tenant_data_in_session}
use cat_graphrag.Deletion.Steps.{
  Steps, in_collection, then, reads, deleting, stripping, stripping_if, purging_evidence,
  purging_similar, pruning, sweeping, dropping_all,
}

module _ {A M L V W E : Type 0} (tenant : Str) (R : Graph V W → Graph V W → Type 0)
    (steps : Steps tenant R) where
  dropping :
      (source : Option Str)
      → Within {T = Pending A M L} {G = Graph V W} {E = E} R (drop_tasks source)
  dropping source s = steps.same s.graph

  purging :
      (dumps : Str → Str) (source : Str)
      → Within {T = Pending A M L} {E = E} R (purge_source_graph_artifacts dumps tenant source)
  unfolding purge_source_graph_artifacts
  purging dumps source =
      let a : Exec (Store (Pending A M L) (Graph V W) E) (Failure E) (Unit {0}) =
        drop_tasks (some source) in
      let b : Exec (Store (Pending A M L) (Graph V W) E) (Failure E) (List Str) =
        query (documents_with tenant (source_fragment dumps source)) in
      let c =
        λ (ids : List Str). purge_evidence {T = Pending A M L} {V = V} {W = W} {E = E} tenant ids in
      let d =
        λ (ids : List Str). purge_similar {T = Pending A M L} {V = V} {W = W} {E = E} tenant ids in
      let e : Exec (Store (Pending A M L) (Graph V W) E) (Failure E) ℕ =
        strip_source tenant source in
      then tenant R steps (a >> b) (λ ids. c ids >> d ids >> e >> pure (length ids))
        (then tenant R steps a (λ _. b) (dropping (some source)) (λ _. reads tenant R steps _))
        (λ ids.
          then tenant R steps (c ids >> d ids >> e) (λ _. pure (length ids))
            (then tenant R steps (c ids >> d ids) (λ _. e)
              (then tenant R steps (c ids) (λ _. d ids) (purging_evidence tenant R steps ids)
                (λ _. purging_similar tenant R steps ids))
              (λ _. stripping tenant R steps source))
            (λ _ s. steps.same s.graph))

  deleting_points :
      (dumps : Str → Str) (collection_name : Str) (metadata : Dict Str Str) (operation_id : ℕ)
      → Within {T = Pending A M L} {E = E} R
          (delete_tenant_points tenant dumps collection_name metadata operation_id)
  unfolding delete_tenant_points
  deleting_points dumps collection_name metadata operation_id =
      let source = lookup (codes "source") metadata in
      let p = λ (g : Graph V W) (d : DocumentNode).
        belongs_to_collection g collection_name tenant d && matches dumps metadata d in
      let a : Exec (Store (Pending A M L) (Graph V W) E) (Failure E) (Unit {0}) =
        drop_tasks source in
      let b : Exec (Store (Pending A M L) (Graph V W) E) (Failure E) ℕ = delete_where p in
      let c : Exec (Store (Pending A M L) (Graph V W) E) (Failure E) ℕ =
        strip_if tenant (truthy source) (or_no_text source) in
      let d : Exec (Store (Pending A M L) (Graph V W) E) (Failure E) ℕ =
        prune_where tenant (prune_rule (truthy source)) in
      let e : Exec (Store (Pending A M L) (Graph V W) E) (Failure E) ℕ =
        sweep_source_files tenant in
      then tenant R steps (a >> b >> c >> d >> e) (λ _. pure (codes "completed", operation_id))
        (then tenant R steps (a >> b >> c >> d) (λ _. e)
          (then tenant R steps (a >> b >> c) (λ _. d)
            (then tenant R steps (a >> b) (λ _. c)
              (then tenant R steps a (λ _. b) (dropping source)
                (λ _. deleting tenant R steps p (λ g d h.
                  let mine = in_collection g collection_name tenant d (ground arith) in
                  ground arith)))
              (λ _. stripping_if tenant R steps (truthy source) (or_no_text source)))
            (λ _. pruning tenant R steps (prune_rule (truthy source))))
          (λ _. sweeping tenant R steps))
        (λ _ s. steps.same s.graph)

  deleting_by_ids :
      (collection_name : Str) (points_ids : List Str) (operation_id : ℕ)
      → Within {T = Pending A M L} {E = E} R
          (delete_tenant_points_by_ids tenant collection_name points_ids operation_id)
  unfolding delete_tenant_points_by_ids
  deleting_by_ids collection_name points_ids operation_id =
      let p = λ (g : Graph V W) (d : DocumentNode).
        belongs_to_named g collection_name d
        && is_in d.id points_ids
        && str_eq d.tenant_id tenant in
      let a : Exec (Store (Pending A M L) (Graph V W) E) (Failure E) ℕ = delete_where p in
      let b : Exec (Store (Pending A M L) (Graph V W) E) (Failure E) ℕ =
        prune_where tenant is_unreferenced in
      let c : Exec (Store (Pending A M L) (Graph V W) E) (Failure E) ℕ =
        sweep_source_files tenant in
      then tenant R steps (a >> b >> c) (λ _. pure (codes "completed", operation_id))
        (then tenant R steps (a >> b) (λ _. c)
          (then tenant R steps a (λ _. b) (deleting tenant R steps p (λ g d h. ground arith))
            (λ _. pruning tenant R steps is_unreferenced))
          (λ _. sweeping tenant R steps))
        (λ _ s. steps.same s.graph)

  -- The four deletions keep to the relation.
  pub deletions-Within :
      (dumps : Str → Str) (source collection_name : Str) (metadata : Dict Str Str)
      (points_ids : List Str) (operation_id : ℕ) (s : Store (Pending A M L) (Graph V W) E)
      → R s.graph (purge_source_graph_artifacts dumps tenant source s).1.graph
        × R s.graph
            (delete_tenant_points tenant dumps collection_name metadata operation_id s).1.graph
        × R s.graph
            (delete_tenant_points_by_ids tenant collection_name points_ids operation_id s).1.graph
        × R s.graph (drop_tenant_data_in_session tenant s).1.graph
  deletions-Within dumps source collection_name metadata points_ids operation_id s = (
    purging dumps source s,
    deleting_points dumps collection_name metadata operation_id s,
    deleting_by_ids collection_name points_ids operation_id s,
    dropping_all tenant R steps s,
  )
