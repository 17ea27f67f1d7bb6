-- ===== src/Deletion/Points.antt =====
-- delete_tenant_points and delete_tenant_points_by_ids of graphrag_handler.py. `dumps` is
-- `json.dumps` on a text, and the values of the metadata are texts. The operation id is drawn at
-- random, so it is an argument.
use cat_graphrag.Prelude.{
  ℕ, List, [], ◌∷◌, ◌++◌, map, Bool, true, false, ◌&&◌, ◌||◌, not, Option, none, some, is_empty,
  if◌then◌else◌, ◌==◌, Exec, pure, ◌>>=◌, ◌>>◌, filter_by, is_in,
}
use cat_graphrag.Prelude.Keys.{Str, str_eq, str_key}
use cat_graphrag.Prelude.Texts.{codes}
use cat_graphrag.Prelude.Dict.{Dict, lookup, put}
use cat_graphrag.Batches.{Failure}
use cat_graphrag.Drain.{Pending, drop_source_tasks}
use cat_graphrag.Graph.{DocumentNode, EntityNode, Graph, Store, query}
use cat_graphrag.Graph.Cypher.{
  text_contains, detach_documents, belongs_to_collection, belongs_to_named,
}
use cat_graphrag.Deletion.{
  delete_each, is_unreferenced, lost_provenance, entities_where, prune_entities,
  orphan_source_files, delete_source_files,
}
use cat_graphrag.Deletion.Purge.{drop_tasks, strip_source}

-- k.replace('-', '_').replace('.', '_'), where '-' is 45, '.' is 46 and '_' is 95
abbrev pub safe_code : ℕ → ℕ
safe_code c = if c == 45 || c == 46 then 95 else c

abbrev pub safe_param : Str → Str
safe_param k = codes "meta_" ++ map safe_code k

-- f'"{k}": {json.dumps(v)}'
abbrev pub fragment : (Str → Str) → Str → Str → Str
fragment dumps k v = codes "\"" ++ k ++ codes "\": " ++ dumps v

-- The parameters of the conditions; keys that have the same safe name share one.
unfoldable pub metadata_params : (Str → Str) → Dict Str Str → Dict Str Str → Dict Str Str
unfolding put
metadata_params dumps params [] = params
metadata_params dumps params ((k, v) ∷ metadata) =
    metadata_params dumps (put (safe_param k) (fragment dumps k v) params) metadata

-- d.metadata CONTAINS $param
abbrev pub has_param : Dict Str Str → DocumentNode → Str → Bool
has_param params d name = elim (lookup name params) [
  | none ↦ false
  | some part ↦ text_contains part d.metadata
]

-- The conditions of the WHERE clause, joined by AND.
unfoldable pub meets : Dict Str Str → Dict Str Str → DocumentNode → Bool
unfolding lookup
meets params [] d = true
meets params ((k, v) ∷ metadata) d = has_param params d (safe_param k) && meets params metadata d

unfoldable pub matches : (Str → Str) → Dict Str Str → DocumentNode → Bool
unfolding meets metadata_params
matches dumps metadata = meets (metadata_params dumps [] metadata) metadata

-- `if source:`
abbrev pub truthy : Option Str → Bool
truthy none = false
truthy (some s) = not (is_empty s)

abbrev pub or_no_text : Option Str → Str
or_no_text none = []
or_no_text (some s) = s

module _ {V W : Type 0} where
  -- The ids of the documents that pass a test.
  abbrev pub documents_where : (Graph V W → DocumentNode → Bool) → Graph V W → List Str
  documents_where p g = map (λ d. d.id) (filter_by (p g) g.documents)

  -- The same test again while those with one of the ids are deleted.
  abbrev pub delete_documents : (Graph V W → DocumentNode → Bool) → List Str → Graph V W → Graph V W
  delete_documents p ids g = detach_documents (λ d. is_in d.id ids && p g d) g

  -- Per-file deletion keeps the provenance-tracked filter, and deletion of all points does not.
  unfoldable pub prune_rule : Bool → Graph V W → EntityNode V → Bool
  unfolding lost_provenance is_unreferenced
  prune_rule true = lost_provenance
  prune_rule false = is_unreferenced

module _ {T V W E : Type 0} where
  unfoldable pub delete_where :
      (Graph V W → DocumentNode → Bool) → Exec (Store T (Graph V W) E) (Failure E) ℕ
  unfolding delete_each
  delete_where p =
      query (documents_where p) >>= (λ document_ids. delete_each document_ids (delete_documents p))

module _ {T V W E : Type 0} (tenant : Str) where
  -- The strip of the relations of the source, under `if source:`.
  unfoldable pub strip_if : Bool → Str → Exec (Store T (Graph V W) E) (Failure E) ℕ
  unfolding strip_source
  strip_if false source = pure 0
  strip_if true source = strip_source tenant source

  unfoldable pub prune_where :
      (Graph V W → EntityNode V → Bool) → Exec (Store T (Graph V W) E) (Failure E) ℕ
  unfolding delete_each
  prune_where p =
      query (entities_where tenant p)
      >>= (λ entity_ids. delete_each entity_ids (prune_entities tenant p))

  unfoldable pub sweep_source_files : Exec (Store T (Graph V W) E) (Failure E) ℕ
  unfolding delete_each orphan_source_files
  sweep_source_files =
      query (orphan_source_files tenant)
      >>= (λ names. delete_each names (delete_source_files tenant))

module _ {A M R V W E : Type 0} (tenant : Str) where
  -- The status and the operation id of the result.
  unfoldable pub delete_tenant_points :
      (Str → Str)
      → Str
      → Dict Str Str
      → ℕ
      → Exec (Store (Pending A M R) (Graph V W) E) (Failure E) (Str × ℕ)
  unfolding drop_source_tasks lookup delete_where strip_if prune_where sweep_source_files
      belongs_to_collection matches prune_rule
  delete_tenant_points dumps collection_name metadata operation_id =
      let source = lookup (codes "source") metadata in
      drop_tasks source
      >> delete_where
          (λ g d. belongs_to_collection g collection_name tenant d && matches dumps metadata d)
      >> strip_if tenant (truthy source) (or_no_text source)
      >> prune_where tenant (prune_rule (truthy source))
      >> sweep_source_files tenant
      >> pure (codes "completed", operation_id)

  unfoldable pub delete_tenant_points_by_ids :
      Str → List Str → ℕ → Exec (Store (Pending A M R) (Graph V W) E) (Failure E) (Str × ℕ)
  unfolding delete_where prune_where sweep_source_files belongs_to_named is_unreferenced
  delete_tenant_points_by_ids collection_name points_ids operation_id =
      delete_where (λ g d.
        belongs_to_named g collection_name d && is_in d.id points_ids && str_eq d.tenant_id tenant)
      >> prune_where tenant is_unreferenced
      >> sweep_source_files tenant
      >> pure (codes "completed", operation_id)
