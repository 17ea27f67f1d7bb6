-- ===== src/SourceGraph/Plan.antt =====
-- plan_write_transactions and write_source_graph of source_graph_writer.py. The order in which
-- Python walks a set is a parameter, `SetOrder`.
pub mod Laws
pub mod Parts
pub mod Order
pub mod Write
use cat_graphrag.Prelude.{
  ℕ, ◌+◌, List, [], ◌∷◌, ◌++◌, ◌≡◌, ◌↔◌, map, leb, ltb, if◌then◌else◌, length, concat, Has, Outcome,
  ok, raised, Exec, pure, lift, ◌>>=◌, ◌>>◌, for_each,
}
use cat_graphrag.Prelude.Keys.{Str, str_key}
use cat_graphrag.Prelude.Dict.{Dict, lookup, put}
use cat_graphrag.Prelude.Slices.{slices}
use cat_graphrag.SourceGraph.Types.{Floats, Codec, Entity, Mention, Relation, WritePlan}
use cat_graphrag.SourceGraph.Dedupe.{or_empty, dedupe_entities, dedupe_mentions, dedupe_relations}

-- Iterating over `{x for x in xs}`: every member once, in an order that is not known.
pub record SetOrder : Type 0 where
  pub walk : List Str → List Str
  pub has-walk : (x : Str) (xs : List Str) → Has x (walk xs) ↔ Has x xs

-- The errors of a callback, with the `ValueError` of plan_write_transactions.
pub data Failure (E : Type 0) : Type 0 where
  too_small : Failure E
  callback : E → Failure E

module _ {F : Type 0} where
  -- mentions_by_entity.setdefault(mention["entity_id"], []).append(mention)
  unfoldable pub by_entity :
      Dict Str (List (Mention F)) → List (Mention F) → Dict Str (List (Mention F))
  by_entity groups [] = groups
  by_entity groups (m ∷ ms) =
      by_entity (put m.entity_id (or_empty (lookup m.entity_id groups) ++ m ∷ []) groups) ms

  -- [mention for entity_id in entity_ids for mention in groups.get(entity_id, [])]
  unfoldable pub mentions_of : Dict Str (List (Mention F)) → List Str → List (Mention F)
  mentions_of groups entity_ids = concat (map (λ i. or_empty (lookup i groups)) entity_ids)

module _ {F T V : Type 0} where
  abbrev pub ids_of : List (Entity F T V) → List Str
  ids_of = map (λ e. e.id)

  -- The plan of one batch of entities.
  unfoldable pub entity_plan :
      SetOrder → Dict Str (List (Mention F)) → List (Entity F T V) → WritePlan F T V
  unfolding mentions_of
  entity_plan order groups chunk = record {
    entities = chunk;
    mentions = mentions_of groups (order.walk (ids_of chunk));
    relations = [];
  }

  abbrev pub relation_plan : List (Relation F) → WritePlan F T V
  relation_plan chunk = record { entities = []; mentions = []; relations = chunk }

module _ (order : SetOrder) {E F T V : Type 0} where
  unfoldable pub plan_write_transactions :
      List (Entity F T V)
      → List (Mention F)
      → List (Relation F)
      → ℕ
      → Outcome (Failure E) (List (WritePlan F T V))
  unfolding entity_plan by_entity
  plan_write_transactions entities mentions relations max_items =
      if ltb max_items 1
      then raised too_small
      else if leb (length entities + length relations) max_items
      then ok (record { entities = entities; mentions = mentions; relations = relations } ∷ [])
      else ok (
          map (entity_plan order (by_entity [] mentions)) (slices max_items entities)
          ++ map relation_plan (slices max_items relations))

module _ (order : SetOrder) (floats : Floats) (codec : Codec (floats.F)) {S E V : Type 0} where
  open floats use {F}
  open codec use {Text}

  -- prepare_source_graph, plan_write_transactions, and one transaction after another.
  unfoldable pub write_source_graph :
      List (Entity F Text V)
      → List (Mention F)
      → List (Relation F)
      → (WritePlan F Text V → Exec S (Failure E) (Unit {0}))
      → ℕ
      → Exec S (Failure E) ℕ
  unfolding plan_write_transactions
  write_source_graph entities mentions relations execute_transaction max_items = do
    plans ← lift (
        plan_write_transactions order (dedupe_entities floats codec entities)
          (dedupe_mentions floats mentions) (dedupe_relations floats relations) max_items)
    for_each execute_transaction plans
    pure (length plans)
