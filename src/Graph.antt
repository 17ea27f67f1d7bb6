-- ===== src/Graph.antt =====
-- The graph that the Cypher statements of graphrag_handler.py read and write: the nodes and the
-- relationships of the labels and types that its deletions, its writer and its concept generations
-- name. The ids of documents and of entities are unique in the database, and (name, tenant) is for
-- collections and source files, so they stand for the nodes themselves in the relationships. Vectors
-- `V` and weights `W` are never looked into here.
pub mod Cypher
pub mod Runs
pub mod Strip
pub mod Invariant
use cat_graphrag.Prelude.{
  ℕ, List, [], ◌∷◌, Bool, ◌&&◌, Option, none, some, Outcome, ok, raised, Exec, any,
}
use cat_graphrag.Prelude.Keys.{Str, str_eq}
use cat_graphrag.Batches.{Failure, callback}

pub record DocumentNode : Type 0 where
  pub id : Str
  pub tenant_id : Str
  pub metadata : Str

-- concept_gen_active of a collection is the marker of the tenant's active generation. A collection that
-- only holds the marker has no name.
pub record CollectionNode : Type 0 where
  pub name : Option Str
  pub tenant_id : Str
  pub concept_gen_active : Option Str

-- A property that a node does not have is `none`, or `false` where only `true` is asked for.
pub record EntityNode (V : Type 0) : Type 0 where
  pub id : Str
  pub tenant_id : Str
  pub name : Option Str
  pub types : List Str
  pub metadata : Option Str
  pub embedding : Option V
  pub tracked_by_provenance : Bool
  pub concept_gen : Option Str
  pub concept_gen_active : Option Bool

pub record SourceFileNode : Type 0 where
  pub name : Str
  pub tenant_id : Str

-- (:Document)-[:BELONGS_TO]->(:Collection)
pub record BelongsTo : Type 0 where
  pub document : Str
  pub name : Str
  pub tenant_id : Str

pub data EvidenceType : Type 0 where
  mentions : EvidenceType
  provenance : EvidenceType

-- (:Document)-[:MENTIONS]->(:Entity) and (:Document)-[:PROVENANCE]->(:Entity)
pub record Evidence : Type 0 where
  pub kind : EvidenceType
  pub document : Str
  pub entity : Str

-- (:Document)-[:PART_OF]->(:SourceFile)
pub record PartOf : Type 0 where
  pub document : Str
  pub name : Str
  pub tenant_id : Str

-- (:Entity)-[:RELATED_TO]->(:Entity), with its element id
pub record RelatedTo (W : Type 0) : Type 0 where
  pub rid : ℕ
  pub source : Str
  pub target : Str
  pub rel_type : Str
  pub weight : W
  pub source_files : Option (List Str)
  pub concept_gen : Option Str
  pub concept_gen_active : Option Bool

-- (:Document)-[:SIMILAR_TO_…]-(:Document), with its element id
pub record SimilarTo : Type 0 where
  pub rid : ℕ
  pub generation : Str
  pub from : Str
  pub to : Str

pub record Graph (V W : Type 0) : Type 0 where
  pub documents : List DocumentNode
  pub collections : List CollectionNode
  pub entities : List (EntityNode V)
  pub source_files : List SourceFileNode
  pub belongs_to : List BelongsTo
  pub evidence : List Evidence
  pub part_of : List PartOf
  pub related_to : List (RelatedTo W)
  pub similar_to : List SimilarTo

-- The pending tasks of the handler, the database, and what happens to the statements to come: one
-- that meets an error raises it and has no effect, since `session.run` is a transaction of its own.
-- Statements beyond the list succeed.
pub record Store (T G E : Type 0) : Type 0 where
  pub tasks : T
  pub graph : G
  pub faults : List (Option E)

module _ {T G E : Type 0} where
  -- await session.run(…) for a read
  abbrev pub after_fault : {A : Type 0} → List (Option E) → A → G → Exec (Store T G E) (Failure E) A
  after_fault [] a g s = (ok a, record s { graph = g })
  after_fault (none ∷ faults) a g s = (ok a, record s { graph = g; faults = faults })
  after_fault (some e ∷ faults) a g s = (raised (callback e), record s { faults = faults })

  abbrev pub query : {A : Type 0} → (G → A) → Exec (Store T G E) (Failure E) A
  query f s = after_fault s.faults (f s.graph) s.graph s

  -- await session.run(…) for a write
  abbrev pub statement : (G → G) → Exec (Store T G E) (Failure E) (Unit {0})
  statement f s = after_fault s.faults tt (f s.graph) s
