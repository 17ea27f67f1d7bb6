-- ===== src/Deletion/Examples.antt =====
-- Tests and instances for the deletions of graphrag_handler.py.
use mathlib.Core.Path.{subst}
use cat_graphrag.Prelude.{
  ℕ, List, [], ◌∷◌, ◌++◌, ◌≡◌, ◌↔◌, refl, Bool, true, false, none, some, ok, Has, any, ◌&&◌, sym,
  ◌∙◌, arith, length, not, ◌||◌, inl, inr, for_each, map,
}
use cat_graphrag.Prelude.Keys.{Str, str_eq}
use cat_graphrag.Prelude.Texts.{codes}
use cat_graphrag.Prelude.Slices.{slices}
use cat_graphrag.Drain.{Pending, drop_source_tasks}
use cat_graphrag.Graph.{
  DocumentNode, EntityNode, EvidenceType, mentions, provenance, Evidence, RelatedTo, SimilarTo,
  Graph, Store, BelongsTo,
}
use cat_graphrag.Graph.Cypher.{belongs_to_tenant, detach_entities, joins_entities_of, is_from}
use cat_graphrag.Graph.Runs.{calm}
use cat_graphrag.Graph.Invariant.{WellFormed, Ends, is_named}
use cat_graphrag.Deletion.{documents_with, is_evidence_of}
use cat_graphrag.Deletion.Purge.{source_fragment, purge_source_graph_artifacts}
use cat_graphrag.Deletion.Points.{delete_tenant_points, delete_tenant_points_by_ids}
use cat_graphrag.Deletion.Wipe.{drop_tenant_data_in_session}
use cat_graphrag.Deletion.Effect.{purged, purge_source_graph_artifacts_lem}
use cat_graphrag.Deletion.Traces.{only_from, touches, Numbered}
use cat_graphrag.Deletion.Laws.{of_source, purged_lem, purged-purged}
use cat_graphrag.Deletion.Tenancy.{OwnDocuments, OthersKept, deletions-OthersKept}

abbrev dumps : Str → Str
dumps s = codes "\"" ++ s ++ codes "\""

abbrev tenant : Str
tenant = codes "t"

abbrev source : Str
source = codes "a"

abbrev document : Str → Str → DocumentNode
document id file = record {
  id = id;
  tenant_id = tenant;
  metadata = codes "{\"source\": " ++ dumps file ++ codes "}";
}

abbrev entity : Str → EntityNode ℕ
entity id = record {
  id = id;
  tenant_id = tenant;
  name = some id;
  types = [];
  metadata = none;
  embedding = none;
  tracked_by_provenance = true;
  concept_gen = none;
  concept_gen_active = none;
}

abbrev tells : EvidenceType → Str → Str → Evidence
tells kind d e = record { kind = kind; document = d; entity = e }

-- Two files; the first alone tells of x, and both tell of y.
abbrev graph : Graph ℕ ℕ
graph = record {
  documents = document (codes "d1") source ∷ document (codes "d2") (codes "b") ∷ [];
  collections = [];
  entities = entity (codes "x") ∷ entity (codes "y") ∷ [];
  source_files = [];
  belongs_to = [];
  evidence =
      tells mentions (codes "d1") (codes "x")
      ∷ tells provenance (codes "d1") (codes "y")
      ∷ tells mentions (codes "d2") (codes "y")
      ∷ [];
  part_of = [];
  related_to =
      record {
        rid = 1;
        source = codes "x";
        target = codes "y";
        rel_type = [];
        weight = 1;
        source_files = some (source ∷ []);
        concept_gen = none;
        concept_gen_active = none;
      }
      ∷ record {
        rid = 2;
        source = codes "y";
        target = codes "y";
        rel_type = [];
        weight = 1;
        source_files = some (source ∷ codes "b" ∷ []);
        concept_gen = none;
        concept_gen_active = none;
      }
      ∷ [];
  similar_to = record { rid = 3; generation = []; from = codes "d1"; to = codes "d2" } ∷ [];
}

abbrev no_tasks : Pending ℕ ℕ ℕ
no_tasks = record { by_source = []; flat = [] }

abbrev after : Graph ℕ ℕ
after = (purge_source_graph_artifacts {E = ℕ} dumps tenant source (calm no_tasks graph)).1.graph

entities_after : after.entities ≡ entity (codes "y") ∷ []
unfolding purge_source_graph_artifacts for_each slices detach_entities
entities_after = refl

files_after : map (λ r. r.source_files) after.related_to ≡ some (codes "b" ∷ []) ∷ []
unfolding purge_source_graph_artifacts for_each slices detach_entities
files_after = refl

-- A purge that fails while it prunes, and a second one that does not: x stays without evidence.
abbrev interrupted : Store (Pending ℕ ℕ ℕ) (Graph ℕ ℕ) ℕ
interrupted =
    (purge_source_graph_artifacts dumps tenant source
      (record { tasks = no_tasks; graph = graph; faults = none ∷ none ∷ none ∷ some 7 ∷ [] })).1

abbrev retried : Store (Pending ℕ ℕ ℕ) (Graph ℕ ℕ) ℕ
retried = (purge_source_graph_artifacts dumps tenant source interrupted).1

left_behind :
    (retried.graph.entities ≡ entity (codes "x") ∷ entity (codes "y") ∷ [])
    × (retried.graph.evidence ≡ tells mentions (codes "d2") (codes "y") ∷ [])
unfolding purge_source_graph_artifacts for_each slices detach_entities
left_behind = (refl, refl)

abbrev every : {A : Type 0} → (A → Bool) → List A → Bool
every p [] = true
every p (x ∷ xs) = p x && every p xs

-- Ends that are checked one by one.
checked :
    {N R : Type 0} (at : N → R → Bool) (nodes : List N) (rels : List R)
    → every (λ r. any (λ n. at n r) nodes) rels ≡ true
    → Ends at nodes rels
checked at nodes [] h r has = absurd has
checked at nodes (x ∷ xs) h r (inl e) = subst (λ r. any (λ n. at n r) nodes ≡ true) e (ground arith)
checked at nodes (x ∷ xs) h r (inr has) = checked at nodes xs (ground arith) r has

graph-WellFormed : WellFormed graph
graph-WellFormed = record {
  belonging = checked (λ n r. str_eq n.id r.document) graph.documents graph.belongs_to refl;
  collected =
      checked (λ n r. is_named r.name n.name && str_eq n.tenant_id r.tenant_id) graph.collections
        graph.belongs_to refl;
  telling = checked (λ n r. str_eq n.id r.document) graph.documents graph.evidence refl;
  told = checked (λ n r. str_eq n.id r.entity) graph.entities graph.evidence refl;
  parts = checked (λ n r. str_eq n.id r.document) graph.documents graph.part_of refl;
  whole =
      checked (λ n r. str_eq n.name r.name && str_eq n.tenant_id r.tenant_id) graph.source_files
        graph.part_of refl;
  sources = checked (λ n r. str_eq n.id r.source) graph.entities graph.related_to refl;
  targets = checked (λ n r. str_eq n.id r.target) graph.entities graph.related_to refl;
  froms = checked (λ n r. str_eq n.id r.from) graph.documents graph.similar_to refl;
  tos = checked (λ n r. str_eq n.id r.to) graph.documents graph.similar_to refl;
}

abbrev store : Store (Pending ℕ ℕ ℕ) (Graph ℕ ℕ) ℕ
store = record { tasks = no_tasks; graph = graph; faults = none ∷ none ∷ none ∷ some 7 ∷ [] }

-- A second tenant with a document, an entity and a source file of its own, beside a collection of the
-- first one.
abbrev in_collection : Str → Str → Str → BelongsTo
in_collection d name t = record { document = d; name = name; tenant_id = t }

abbrev two_tenants : Graph ℕ ℕ
two_tenants = record graph {
  documents = record (document (codes "d3") source) { tenant_id = codes "u" } ∷ graph.documents;
  entities = record (entity (codes "z")) { tenant_id = codes "u" } ∷ graph.entities;
  source_files =
      record { name = source; tenant_id = codes "u" }
      ∷ record { name = source; tenant_id = tenant }
      ∷ [];
  belongs_to =
      in_collection (codes "d3") (codes "c") (codes "u")
      ∷ in_collection (codes "d1") (codes "c") tenant
      ∷ [];
}

abbrev both : Store (Pending ℕ ℕ ℕ) (Graph ℕ ℕ) ℕ
both = record { tasks = no_tasks; graph = two_tenants; faults = none ∷ none ∷ none ∷ some 7 ∷ [] }

-- Documents that are checked one by one.
own_of :
    (test : DocumentNode → Bool) (ds : List DocumentNode)
    → every (λ d. not (test d) || str_eq d.tenant_id tenant) ds ≡ true
    → (d : DocumentNode) → Has d ds
    → test d ≡ true
    → str_eq d.tenant_id tenant ≡ true
own_of test [] h d has t = absurd has
own_of test (x ∷ xs) h d (inr has) t = own_of test xs (ground arith) d has t
own_of test (x ∷ xs) h d (inl e) t =
    let q : (not (test d) || str_eq d.tenant_id tenant) ≡ true =
      subst (λ d. (not (test d) || str_eq d.tenant_id tenant) ≡ true) e (ground arith) in
    ground arith

own_documents : OwnDocuments tenant two_tenants
unfolding belongs_to_tenant
own_documents = own_of (belongs_to_tenant two_tenants tenant) two_tenants.documents refl

wiped :
    let g = (drop_tenant_data_in_session tenant (record both { faults = [] })).1.graph in
    (map (λ (d : DocumentNode). d.id) g.documents ≡ codes "d3" ∷ codes "d2" ∷ [])
    × (map (λ (e : EntityNode ℕ). e.id) g.entities ≡ codes "z" ∷ codes "y" ∷ [])
unfolding drop_tenant_data_in_session
wiped = (refl, refl)

deletions-OthersKept_example :
    OthersKept tenant two_tenants (purge_source_graph_artifacts dumps tenant source both).1.graph
    × OthersKept tenant two_tenants
        (delete_tenant_points tenant dumps (codes "c") [] 5 both).1.graph
    × OthersKept tenant two_tenants
        (delete_tenant_points_by_ids tenant (codes "c") (codes "d1" ∷ []) 5 both).1.graph
    × OthersKept tenant two_tenants (drop_tenant_data_in_session tenant both).1.graph
deletions-OthersKept_example =
    deletions-OthersKept tenant dumps source (codes "c") [] (codes "d1" ∷ []) 5 both own_documents

purge_source_graph_artifacts_example :
    purge_source_graph_artifacts {E = ℕ} dumps tenant source (calm no_tasks graph) ≡ (
      ok (length (documents_with tenant (source_fragment dumps source) graph)),
      calm (drop_source_tasks (some source) no_tasks) (purged tenant dumps source graph),
    )
purge_source_graph_artifacts_example =
    purge_source_graph_artifacts_lem dumps tenant source no_tasks graph

one_similar : Numbered tenant (of_source dumps tenant source graph) graph
one_similar r r' (inl a) (inl b) e = sym b ∙ a
one_similar r r' (inl a) (inr b) e = absurd b
one_similar r r' (inr a) h e = absurd a

purged_example :
    ((purged tenant dumps source graph).documents ≡ graph.documents)
    × ((e : EntityNode ℕ)
        → Has e (purged tenant dumps source graph).entities ↔ (
            Has e graph.entities
            × (only_from tenant (of_source dumps tenant source graph) graph e ≡ false)))
    × ((r : Evidence)
        → Has r (purged tenant dumps source graph).evidence ↔ (
            Has r graph.evidence
            × (is_evidence_of tenant graph (of_source dumps tenant source graph) r ≡ false)))
    × ((r : SimilarTo)
        → Has r (purged tenant dumps source graph).similar_to ↔ (
            Has r graph.similar_to
            × (touches tenant (of_source dumps tenant source graph) graph r ≡ false)))
    × ((r : RelatedTo ℕ)
        → Has r (purged tenant dumps source graph).related_to
        → joins_entities_of (purged tenant dumps source graph) tenant r ≡ true
        → is_from source r ≡ false)
purged_example = purged_lem dumps tenant source graph one_similar

purged-purged_example :
    purged tenant dumps source (purged tenant dumps source graph) ≡ purged tenant dumps source graph
purged-purged_example = purged-purged dumps tenant source graph one_similar
