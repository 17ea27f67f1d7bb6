-- ===== src/Lib.antt =====
-- cat-graphrag: a plugin that keeps documents, and a knowledge graph of what they mention, in Neo4j.
--
-- A handler (graphrag_handler.py) stores documents. spaCy reads long texts in segments
-- (entity_extractor.py), the entities, mentions and relations of one source are deduplicated and
-- written in bounded transactions (source_graph_writer.py), old points are deleted in batches
-- (batched_delete.py). The names of the schema carry a generation token that each tenant has in the
-- store (epoch.py); decorators keep a method under one generation and retry transient errors
-- (versioning.py), and a lock lets one task write for a tenant at a time (tenant_write_lock.py).
-- An ingestion runs the graph phases of phases.py: the background tasks of a source are drained into
-- one write, and a language model extracts concepts and relations. Recall merges the documents that
-- four searches find.
--
-- Prelude: tests on numbers, lists, slices, keys and their order, dictionaries in insertion order,
--   sorting by a key, folding by a key, and coroutines (`Exec S E A`: a state passed on, and a value or
--   an error).
-- Batches: batched_delete.py. `chunk_ids`, `delete_in_batches`.
-- SourceGraph: source_graph_writer.py. Metadata has `_metadata_dict`, `_merge_entity_metadata` and
--   `_merge_source_files`; Dedupe has `_dedupe_entities`, `_dedupe_mentions` and `_dedupe_relations`;
--   Plan has `plan_write_transactions` and `write_source_graph`. A dict is a list of pairs with the
--   first key first, as Python keeps it. Floats, JSON texts and the order of a set are parameters
--   (`Floats`, `Codec`, `SetOrder`) with their documented behaviour.
-- Segments: entity_extractor.py. `_hard_split`, `_segment_text`. The regular expression of the
--   separator is a function by clauses. `hard_parts` has the chunk's length as fuel, which is enough
--   since each round takes off at least one character.
-- Epoch: epoch.py. `_read_generation`, `_set_generation`, `_versioned_names`,
--   `_rebuild_for_generation`, over a dictionary for the Epoch nodes.
-- Versioning: versioning.py. `ensure_version`, `retry_on_generation_change`, `with_transient_retry`,
--   over any probe, any method and any world that they change.
-- Extraction: the concept extraction of graphrag_handler.py. Selection has
--   `_select_extraction_text_points`, Payload and Parse `_parse_concept_relations`, Gate
--   `_drop_unstorable_items` and `_count_dropped_items`, Outcome `_llm_extract_relations`, Phase
--   `_extract_concept_relations`. `json.loads`, `str` of what is no text, the classes of characters
--   and the foldings of case are the parameter `Runtime` (texts on which `json.loads` raises an error
--   other than JSONDecodeError are left out); the call of the model and the store are
--   parameters too. A JSON value is a data type of its own.
-- WriteLock: tenant_write_lock.py. `enter` and `leave` are the two halves of
--   `acquire_tenant_write_lock`, `spawn_detached` is `detached_write_task`; a step relation says what a
--   system of tasks may do. The lock releases itself after a time limit, which is taken to be longer
--   than any body: a body that outlasts it is not modelled. Without the distributed lock the locks are
--   those of one handler, and so are the tasks.
-- Recall: graphrag_handler.py, `_merge_and_rerank` and the pool of indirect evidence before it, over
--   scores that are a parameter (`Scores`; no score is a NaN).
-- Drain: graphrag_handler.py, `_track_source_task`, `_drop_source_tasks`, `has_pending_source_tasks` and
--   `_drain_source_tasks_counted`. A task stands with the result that it ends with; `asyncio.gather`
--   waits for all of them.
-- Phases: phases.py. `_phase_id`, `phase_for`, `_to_result`, the `process` and `delete` of the phases and
--   `_requeue_sibling_phase`, over a `Backend` for the handler's work and the ingestion plugin's diary.
-- Graph: the property graph that the Cypher statements of graphrag_handler.py read and write, with the
--   patterns that they use. A store is a graph with the pending tasks and with the errors that the
--   next statements meet; `session.run` is a transaction of its own, so a statement that fails does
--   nothing. Unique ids stand for the nodes.
-- Deletion: graphrag_handler.py, `purge_source_graph_artifacts`, `delete_tenant_points`,
--   `delete_tenant_points_by_ids` and `_drop_tenant_data_in_session`, in the batches of Batches. Steps
--   and Whole carry what holds of each statement to the deletions, for Invariant and Tenancy.
-- ConceptGen: graphrag_handler.py, `_read_concept_gen`, `_write_concept_gen`, `_flip_concept_gen` and
--   `_gc_stale_concept_nodes`, the gate of epoch.py, and `_concept_recompute_job` of main.py, whose
--   four passes are the fuel of its loop. `recompute_concept_relations` is a parameter of the job.
-- Entities: entity_extractor.py after the segmentation, with the tables of constants.py. The tokens of
--   spaCy are a `Parser`; positions are counted in the whole text.
-- Bodies: graphrag_handler.py, `run_spacy_extraction_phase` and `run_llm_extraction_phase`, which put
--   Drain and Extraction.Phase together with the handler's other calls as parameters.
-- GraphWrite: graphrag_handler.py, `_write_graph_plan_in_tx` and `_merge_entity_metadata`: the transaction
--   of one plan of SourceGraph, on Graph. Ends, Merges and Stays are steps of its
--   theorems; Plans runs all the transactions that SourceGraph plans.
-- StructuredLlm: structured_llm.py, and how `_llm_extract_relations` reads what it ends with. The model
--   and the libraries are parameters.
--
-- Not modelled: Cypher texts, the driver, spaCy and the clients of the language models, logging, the
-- length of sleeps, and the glue to the Cat's hooks.
pub mod Prelude
pub mod Batches
pub mod SourceGraph
pub mod Segments
pub mod Epoch
pub mod StructuredLlm
pub mod Versioning
pub mod Extraction
pub mod WriteLock
pub mod Recall
pub mod Drain
pub mod Phases
pub mod Graph
pub mod Deletion
pub mod ConceptGen
pub mod Entities
pub mod Bodies
pub mod GraphWrite
