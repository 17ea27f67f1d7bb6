-- ===== src/SourceGraph/Plan/Write.antt =====
-- `write_source_graph` of source_graph_writer.py, from extraction output to executed transactions.
use cat_graphrag.Prelude.{ℕ, ◌≤◌, ◌<◌, List, [], ◌≡◌, All, Exec, logged, Ran, for_each-Ran}
use cat_graphrag.SourceGraph.Types.{Floats, Codec, Entity, Mention, Relation, WritePlan}
use cat_graphrag.SourceGraph.Dedupe.{dedupe_entities, dedupe_mentions, dedupe_relations}
use cat_graphrag.SourceGraph.Plan.{SetOrder, Failure, write_source_graph}
use cat_graphrag.SourceGraph.Plan.Parts.{entities_of, relations_of, items}
use cat_graphrag.SourceGraph.Plan.Order.{plan_covers}

module _ (order : SetOrder) (floats : Floats) (codec : Codec (floats.F)) {S E V : Type 0} where
  open floats use {F}
  open codec use {Text}

  -- For a bound of at least 1 there are plans for the deduplicated source, which write every
  -- entity and relation once, within the bound. They are executed one after another: all of them,
  -- and their number is returned, or those up to the one that raises, and the error is returned.
  pub write_source_graph_lem :
      (es : List (Entity F Text V)) (ms : List (Mention F)) (rs : List (Relation F))
      (execute_transaction : WritePlan F Text V → Exec S (Failure E) (Unit {0})) (max_items : ℕ)
      (s : S)
      → 0 < max_items
      → (plans : List (WritePlan F Text V)) × (entities_of plans ≡ dedupe_entities floats codec es)
        × (relations_of plans ≡ dedupe_relations floats rs)
        × All (λ p. items p ≤ max_items) plans
        × (let m =
              write_source_graph order floats codec es ms rs
                (logged execute_transaction)
                max_items
                (s, []) in
            Ran plans m.1.1 m.0)
  unfolding write_source_graph
  write_source_graph_lem es ms rs execute_transaction n s pos =
      let (plans, made, all_entities, all_relations, bounded) =
        plan_covers order {E = E} (dedupe_entities floats codec es) (dedupe_mentions floats ms)
          (dedupe_relations floats rs) n pos in
      (
        plans,
        all_entities,
        all_relations,
        bounded,
        rw made (for_each-Ran execute_transaction plans s),
      )
