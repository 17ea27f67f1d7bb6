-- ===== src/GraphWrite/Examples.antt =====
-- A plan with one entity, a mention of it and a relation to it, written into a graph with a document.
use cat_graphrag.Prelude.{
  any, inl, inr, ok, arith, List, ℕ, [], ◌∷◌, ◌≡◌, refl, true, Option, none, some, ◌+◌, ltb, length,
  map,
}
use cat_graphrag.Prelude.Texts.{codes}
use cat_graphrag.SourceGraph.Types.{Relation, Mention, Floats, Entity, other, WritePlan}
use cat_graphrag.Graph.{mentions, provenance, Graph}
use cat_graphrag.Graph.Cypher.{is_document_of}
use cat_graphrag.GraphWrite.{is_relation, MetadataTexts, write_graph_plan_in_tx}
use cat_graphrag.GraphWrite.Effect.{write_graph_plan_in_tx-told}
use cat_graphrag.GraphWrite.Merges.{told}
use cat_graphrag.GraphWrite.Plans.{written, planned-related}
use cat_graphrag.SourceGraph.Plan.{SetOrder, plan_write_transactions}
use cat_graphrag.GraphWrite.Scope.{Scoped, write_graph_plan_in_tx-Scoped}

abbrev floats : Floats
floats = record { F = ℕ; zero = 0; lt = ltb; mean = λ a b. a + b }

abbrev texts : MetadataTexts ℕ ℕ
texts = record {
  loads = λ s. none;
  incoming = λ n. record {
    source_documents = codes "d" ∷ [];
    source_document = none;
    confidence = some n;
  };
  dumps = λ m. codes "m";
}

abbrev graph : Graph ℕ (Option ℕ)
graph = record {
  documents = record { id = codes "d"; tenant_id = codes "t"; metadata = [] } ∷ [];
  collections = [];
  entities = [];
  source_files = [];
  belongs_to = [];
  evidence = [];
  part_of = [];
  related_to = [];
  similar_to = [];
}

abbrev entity : Entity ℕ ℕ ℕ
entity = record {
  id = codes "x";
  name = some (codes "x");
  type = some (codes "PERSON");
  embedding = some 1;
  metadata = other;
}

abbrev mention : Mention ℕ
mention = record { doc_id = codes "d"; entity_id = codes "x"; confidence = none }

stored : is_document_of graph (codes "t") (codes "d") ≡ true
unfolding is_document_of
stored = refl

abbrev plan : WritePlan ℕ ℕ ℕ
plan = record {
  entities = entity ∷ [];
  mentions =
      mention ∷ record { doc_id = codes "gone"; entity_id = codes "x"; confidence = none } ∷ [];
  relations =
      record {
        source_id = codes "x";
        target_id = codes "x";
        rel_type = codes "IS_A";
        weight = some 1;
        source_files = none;
      }
      ∷ [];
}

abbrev after : Graph ℕ (Option ℕ)
after = write_graph_plan_in_tx floats texts (λ e. 5) (λ rs. length rs) (codes "t") plan graph

evidence_after :
    after.evidence
    ≡ record { kind = mentions; document = codes "d"; entity = codes "x" }
      ∷ record { kind = provenance; document = codes "d"; entity = codes "x" }
      ∷ []
unfolding write_graph_plan_in_tx
evidence_after = refl

tracked_after : map (λ e. e.tracked_by_provenance) after.entities ≡ true ∷ []
unfolding write_graph_plan_in_tx
tracked_after = refl

write_graph_plan_in_tx-Scoped_example : Scoped (codes "t") graph after
write_graph_plan_in_tx-Scoped_example =
    write_graph_plan_in_tx-Scoped floats texts (λ e. 5) (λ rs. length rs) (codes "t") plan graph

write_graph_plan_in_tx-told_example :
    (any (told mentions mention) after.evidence ≡ true)
    × (any (told provenance mention) after.evidence ≡ true)
write_graph_plan_in_tx-told_example =
    write_graph_plan_in_tx-told floats texts (λ e. 5) (λ rs. length rs) (codes "t") plan graph
      mention entity (inl refl) (inl refl) refl stored

-- Two entities in two transactions, and a relation between them in a third one.
abbrev other_entity : Entity ℕ ℕ ℕ
other_entity = record entity { id = codes "y" }

abbrev relation : Relation ℕ
relation = record {
  source_id = codes "x";
  target_id = codes "y";
  rel_type = codes "IS_A";
  weight = some 1;
  source_files = none;
}

abbrev as_listed : SetOrder
as_listed = record { walk = λ xs. xs; has-walk = λ x xs. (λ h. h, λ h. h) }

planned-related_example :
    (plans : List (WritePlan ℕ ℕ ℕ)) × (plan_write_transactions as_listed {E = ℕ}
        (entity ∷ other_entity ∷ [])
        (mention ∷ [])
        (relation ∷ [])
        1
      ≡ ok plans)
    × (any
          (is_relation floats relation)
          (written floats texts (λ e. 5) (λ rs. length rs) (codes "t") plans graph).related_to
        ≡ true)
planned-related_example =
    planned-related floats texts (λ e. 5) (λ rs. length rs) (codes "t") as_listed
      (entity ∷ other_entity ∷ []) (mention ∷ []) (relation ∷ []) 1 graph relation entity
      other_entity (omega arith) (inl refl) (inl refl) (inr (inl refl)) refl refl
