-- ===== src/Bodies.antt =====
-- The bodies of the two ingestion phases in graphrag_handler.py: run_spacy_extraction_phase and
-- run_llm_extraction_phase. `points` is get_source_points_by_collection, `similar` is
-- _create_similarity_relationships, `extract_graph` is _extract_document_graph, `write` is
-- _write_source_graph, and `V` is what they change. The extractions of the chunks are awaited
-- together by asyncio.gather, which raises the error that comes first in time: `first_raised` is
-- which one of the errors, listed in the order of the chunks, that is.
pub mod Laws
mod Examples
use cat_graphrag.Prelude.{
  ℕ, ◌+◌, List, [], ◌∷◌, ◌++◌, map, Bool, true, false, ◌&&◌, not, Option, none, some, is_empty,
  filter_by, if◌then◌else◌, length, concat, Outcome, ok, raised, Exec, continue, pure, lift, ◌>>=◌,
  ◌>>◌, for_each,
}
use cat_graphrag.Prelude.Keys.{Str}
use cat_graphrag.Drain.{Pending, Batch, no_batch, drain_source_tasks_counted}
use cat_graphrag.Extraction.Json.{Runtime}
use cat_graphrag.Extraction.Parse.{Definitions}
use cat_graphrag.Extraction.Outcome.{Reply, Extracted, Attempts}
use cat_graphrag.Extraction.Selection.{Point}
use cat_graphrag.Extraction.Phase.{PhaseStatus, extract_concept_relations}

-- A stored point, with its vector where it has one that is not empty.
pub record Stored (Vector Meta : Type 0) : Type 0 where
  pub id : Str
  pub vector : Option Vector
  pub page_content : Str
  pub metadata : Meta

-- What the spaCy phase returns: points that are not there yet, to be retried after 5 seconds; done,
-- with `processed` where it is known; or done with the empty-extraction warning, which names the
-- characters and the chunks that were read, behind its `processed`.
pub data SpacyStatus : Type 0 where
  no_points : SpacyStatus
  finished : Option ℕ → SpacyStatus
  nothing_found : ℕ → ℕ → ℕ → SpacyStatus

pub data LlmStatus : Type 0 where
  no_points : LlmStatus
  skipped : LlmStatus
  body : PhaseStatus → LlmStatus

-- A coroutine on the second part of a state.
abbrev pub on_second : {P V E A : Type 0} → Exec V E A → Exec (P × V) E A
on_second m (p, v) = let (r, v') = m v in (r, (p, v'))

module _ {Vector Meta : Type 0} where
  -- The points with the collections that they are in.
  unfoldable pub all_points :
      List (Str × List (Stored Vector Meta)) → List (Str × Stored Vector Meta)
  all_points [] = []
  all_points ((collection, points) ∷ rest) =
      map {B = Str × Stored Vector Meta} (λ p. (collection, p)) points ++ all_points rest

  abbrev pub has_content : Stored Vector Meta → Bool
  has_content p = not (is_empty p.page_content)

  unfoldable pub total_chars : List (Stored Vector Meta) → ℕ
  total_chars [] = 0
  total_chars (p ∷ ps) = length p.page_content + total_chars ps

module _ {A M R : Type 0} where
  abbrev pub extend : Batch A M R → Batch A M R → Batch A M R
  extend b c = record {
    entities = b.entities ++ c.entities;
    mentions = b.mentions ++ c.mentions;
    relations = b.relations ++ c.relations;
  }

  abbrev pub add_extracted : Batch A M R → Option (Batch A M R) → Batch A M R
  add_extracted b none = b
  add_extracted b (some c) = extend b c

  abbrev pub items : Batch A M R → ℕ
  items b = length b.entities + length b.relations

module _ {A M R Vector Meta V E : Type 0}
    (extract_graph : Stored Vector Meta → Outcome E (Option (Batch A M R)))
    (first_raised : E → List E → E) (write : Batch A M R → Exec V E (Unit {0})) where
  -- The extractions of the chunks, put together in their order.
  unfoldable pub put_together : Batch A M R → List (Stored Vector Meta) → Batch A M R
  put_together b [] = b
  put_together b (p ∷ ps) = elim (extract_graph p) [
    | ok extracted ↦ put_together (add_extracted b extracted) ps
    | raised e ↦ put_together b ps
  ]

  -- The errors of the chunks, in their order.
  unfoldable pub errors_of : List (Stored Vector Meta) → List E
  errors_of [] = []
  errors_of (p ∷ ps) =
      let rest = errors_of ps in elim (extract_graph p) [ ok _ ↦ rest | raised e ↦ e ∷ rest ]

  unfoldable pub gather_extractions : List (Stored Vector Meta) → Outcome E (Batch A M R)
  unfolding put_together errors_of
  gather_extractions ps = elim (errors_of ps) [
    | [] ↦ ok (put_together no_batch ps)
    | e ∷ es ↦ raised (first_raised e es)
  ]

  unfoldable pub write_gathered : ℕ → ℕ → Batch A M R → Exec V E SpacyStatus
  write_gathered chars chunks b =
      if is_empty b.entities && is_empty b.relations
      then pure (nothing_found 0 chars chunks)
      else write b >> pure (finished (some (items b)))

  -- NER and links, where the drain has not counted a write.
  unfoldable pub after_points :
      Bool → Option (ℕ × ℕ) → List (Stored Vector Meta) → Exec V E SpacyStatus
  unfolding gather_extractions write_gathered total_chars
  after_points enabled (some (entities, relations)) points =
      pure (finished (some (entities + relations)))
  after_points false none points = pure (finished none)
  after_points true none points =
      let content_points = filter_by has_content points in
      lift (gather_extractions content_points)
      >>= write_gathered (total_chars content_points) (length content_points)

module _ {A M R Vector Meta V E : Type 0}
    (points : Str → Exec V E (List (Str × List (Stored Vector Meta))))
    (is_valid_vector : Vector → Bool) (similar : Str → Vector → Str → Exec V E (Unit {0}))
    (extract_graph : Stored Vector Meta → Outcome E (Option (Batch A M R)))
    (first_raised : E → List E → E) (write : Batch A M R → Exec V E (Unit {0})) where
  abbrev pub similar_if : Str × Stored Vector Meta → Exec V E (Unit {0})
  similar_if (collection, p) = elim p.vector [
    | none ↦ pure tt
    | some vector ↦ if is_valid_vector vector then similar p.id vector collection else pure tt
  ]

  unfoldable pub with_points :
      Bool → Option (ℕ × ℕ) → List (Str × List (Stored Vector Meta)) → Exec V E SpacyStatus
  unfolding all_points after_points for_each
  with_points enabled drained [] = pure SpacyStatus.no_points
  with_points enabled drained (c ∷ by_collection) =
      let found = all_points (c ∷ by_collection) in
      for_each similar_if found
      >> after_points extract_graph first_raised write enabled drained (map (λ cp. cp.1) found)

  unfoldable pub run_spacy_extraction_phase : Bool → Str → Exec (Pending A M R × V) E SpacyStatus
  unfolding drain_source_tasks_counted with_points
  run_spacy_extraction_phase enabled source =
      drain_source_tasks_counted write source
      >>= (λ drained. on_second (points source >>= with_points enabled drained))

module _ (python : Runtime) (definitions : Definitions) (is_alnum : ℕ → Bool) {V E : Type 0}
    (points : Str → Exec V E (List (Str × List Point))) (ask : Str → V → Reply × V)
    (store : Extracted → Exec V E (Unit {0})) where
  unfoldable pub llm_with_points :
      Bool → Bool → Str → List (Str × List Point) → Exec (Attempts × V) E LlmStatus
  unfolding extract_concept_relations
  llm_with_points enabled usable source [] = pure LlmStatus.no_points
  llm_with_points false usable source (c ∷ by_collection) = pure skipped
  llm_with_points true usable source (c ∷ by_collection) =
      extract_concept_relations python definitions is_alnum ask store usable source
        (concat (map (λ cp. cp.1) (c ∷ by_collection)))
      >>= (λ status. pure (body status))

  unfoldable pub run_llm_extraction_phase : Bool → Bool → Str → Exec (Attempts × V) E LlmStatus
  unfolding llm_with_points
  run_llm_extraction_phase enabled usable source =
      on_second (points source) >>= llm_with_points enabled usable source
