-- ===== src/SourceGraph/Examples.antt =====
-- Tests and instances for source_graph_writer.py: floats are natural numbers, a JSON text is the
-- value that it stands for, and a set is walked in the order of its list.
use cat_graphrag.Prelude.{
  ℕ, ◌+◌, ◌/◌, ◌≤◌, List, [], ◌∷◌, ◌≡◌, refl, ◌↔◌, some, none, map, arith, ltb, All, Has, ok, Exec,
  logged, Ran,
}
use mathlib.Core.Option
use cat_graphrag.Prelude.Keys.{Str, str_key, pair_key}
use cat_graphrag.Prelude.Dict.{lookup, put}
use cat_graphrag.Prelude.Sort.{find, occurrences, Ascending, sort_by}
use cat_graphrag.Prelude.Gather.{absorb_all, gather, collect}
use cat_graphrag.SourceGraph.Types.{
  Floats, StrictOrder, Codec, number, Meta, object, dict, Entity, Mention, Relation, WritePlan,
}
use cat_graphrag.SourceGraph.Metadata.{metadata_dict, merge_source_files, merge_entity_metadata}
use cat_graphrag.SourceGraph.Metadata.Laws.{AtMost, NoRepeat, documents, merge_entity_metadata_lem}
use cat_graphrag.SourceGraph.Dedupe.{
  fill, dedupe_entities, merge_mention, dedupe_mentions, merge_relation, dedupe_relations,
}
use cat_graphrag.SourceGraph.Dedupe.Laws.{id_of, raws, finish, dedupe_entities_lem}
use cat_graphrag.SourceGraph.Plan.{SetOrder, Failure, plan_write_transactions, write_source_graph}
use cat_graphrag.SourceGraph.Plan.Parts.{entities_of, relations_of, items, Rides}
use cat_graphrag.SourceGraph.Plan.Order.{plan_covers, mentions_ride}
use cat_graphrag.SourceGraph.Plan.Write.{write_source_graph_lem}

abbrev nats : Floats
nats = record { F = ℕ; zero = 0; lt = ltb; mean = λ a b. (a + b) / 2 }

nats_order : StrictOrder nats
nats_order = record { lt_irrefl = λ a. ground arith; lt_trans = λ a b c h k. ground arith }

abbrev plain : Codec ℕ
plain = record {
  Text = Meta ℕ;
  loads = λ m. some (object m);
  dumps = λ m. m;
  loads-dumps = λ m. refl;
}

abbrev as_listed : SetOrder
as_listed = record { walk = λ xs. xs; has-walk = λ x xs. (λ h. h, λ h. h) }

abbrev meta : Str → ℕ → Meta ℕ
meta doc c = record { source_documents = doc ∷ []; confidence = number c }

abbrev entity : ℕ → ℕ → Entity ℕ (Meta ℕ) ℕ
entity i doc = record {
  id = i ∷ [];
  name = some (i ∷ i ∷ []);
  type = none;
  embedding = none;
  metadata = dict (meta (doc ∷ []) doc);
}

abbrev entities : List (Entity ℕ (Meta ℕ) ℕ)
entities = entity 2 7 ∷ entity 1 8 ∷ entity 2 9 ∷ []

abbrev mention : ℕ → ℕ → ℕ → Mention ℕ
mention d e c = record { doc_id = d ∷ []; entity_id = e ∷ []; confidence = some c }

abbrev mentions : List (Mention ℕ)
mentions = mention 9 2 5 ∷ mention 7 2 4 ∷ mention 9 2 6 ∷ mention 8 1 3 ∷ []

abbrev relation : ℕ → ℕ → ℕ → Relation ℕ
relation s t w = record {
  source_id = s ∷ [];
  target_id = t ∷ [];
  rel_type = [];
  weight = some w;
  source_files = none;
}

abbrev relations : List (Relation ℕ)
relations = relation 2 1 4 ∷ relation 1 2 5 ∷ relation 2 1 8 ∷ []

mentions_deduped :
    dedupe_mentions nats mentions ≡ mention 7 2 4 ∷ mention 8 1 3 ∷ mention 9 2 6 ∷ []
unfolding dedupe_mentions gather collect lookup put sort_by merge_mention
mentions_deduped = refl

relations_deduped : dedupe_relations nats relations ≡ relation 1 2 5 ∷ relation 2 1 6 ∷ []
unfolding dedupe_relations gather collect lookup put sort_by merge_relation merge_source_files
relations_deduped = refl

entities_deduped :
    map (λ e. metadata_dict nats plain e.metadata) (dedupe_entities nats plain entities)
    ≡ meta (8 ∷ []) 8
      ∷ record { source_documents = (7 ∷ []) ∷ (9 ∷ []) ∷ []; confidence = number 9 }
      ∷ []
unfolding dedupe_entities collect lookup put sort_by fill merge_entity_metadata
entities_deduped = refl

abbrev keep : WritePlan ℕ (Meta ℕ) ℕ → Exec ℕ (Failure ℕ) (Unit {0})
keep p n = (ok tt, n + 1)

merge_entity_metadata_example :
    (m : Meta ℕ) × (some (object (merge_entity_metadata nats plain (raws entities)))
      ≡ some (object m))
    × ((x : Str)
        → Has x m.source_documents ↔ Has x (documents nats nats_order plain (raws entities)))
    × NoRepeat m.source_documents
    × All
        (λ raw. AtMost nats nats_order plain m.confidence (metadata_dict nats plain raw).confidence)
        (raws entities)
merge_entity_metadata_example = merge_entity_metadata_lem nats nats_order plain (raws entities)

dedupe_entities_example :
    Ascending id_of (dedupe_entities nats plain entities)
    × ((k : Str)
        → find id_of k (dedupe_entities nats plain entities)
          ≡ Option.map
              (finish nats plain (raws (occurrences id_of k entities)))
              (absorb_all fill none (occurrences id_of k entities)))
dedupe_entities_example = dedupe_entities_lem nats plain entities

plan_covers_example :
    (plans : List (WritePlan ℕ (Meta ℕ) ℕ)) × (plan_write_transactions as_listed {E = ℕ} entities
        mentions relations 2
      ≡ ok plans)
    × (entities_of plans ≡ entities)
    × (relations_of plans ≡ relations)
    × All (λ p. items p ≤ 2) plans
plan_covers_example = plan_covers as_listed entities mentions relations 2 (omega arith)

mentions_ride_example :
    (plans : List (WritePlan ℕ (Meta ℕ) ℕ)) × (plan_write_transactions as_listed {E = ℕ} entities
        mentions relations 2
      ≡ ok plans)
    × All (Rides mentions) plans
mentions_ride_example =
    mentions_ride as_listed entities mentions relations 2 (omega arith) (omega arith)

write_source_graph_example :
    (plans : List (WritePlan ℕ (Meta ℕ) ℕ)) × (entities_of plans
      ≡ dedupe_entities nats plain entities)
    × (relations_of plans ≡ dedupe_relations nats relations)
    × All (λ p. items p ≤ 2) plans
    × (let m =
          write_source_graph as_listed nats plain entities mentions relations
            (logged keep)
            2
            (0, []) in
        Ran plans m.1.1 m.0)
write_source_graph_example =
    write_source_graph_lem as_listed nats plain entities mentions relations keep 2 0 (omega arith)
