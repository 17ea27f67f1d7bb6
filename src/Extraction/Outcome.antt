-- ===== src/Extraction/Outcome.antt =====
-- _llm_extract_relations of graphrag_handler.py, and the counters of attempts. What the structured call
-- ends with is a parameter; the prompt is not modelled.
pub mod Laws
use cat_graphrag.Prelude.{
  is_empty, is_some, ℕ, zero, suc, ◌+◌, List, [], ◌∷◌, ◌++◌, Bool, true, false, ◌&&◌, not, Option,
  none, some, if◌then◌else◌, ltb, leb, length, take, Outcome, ok, raised, Exec, pure, raise, ◌>>=◌,
  ◌>>◌,
}
use cat_graphrag.Prelude.Keys.{Str, str_key}
use cat_graphrag.Prelude.Texts.{codes}
use cat_graphrag.Prelude.Dict.{Dict, lookup, put, remove}
use cat_graphrag.Extraction.Json.{Json, Runtime}
use cat_graphrag.Extraction.Payload.{strip}
use cat_graphrag.Extraction.Parse.{Product, Definitions, parse_concept_relations}
use cat_graphrag.Extraction.Gate.{drop_unstorable_items, count_dropped_items}

-- How the bounded structured call ends: with the two lists of the output model (absent ones are
-- empty) and its text, with a StructuredLLMError and its raw text, at the deadline, or in any other error.
pub data Reply : Type 0 where
  validated : List Json → List Json → Str → Reply
  invalid : Str → Reply
  timed_out : Reply
  failed : Reply

-- The product of a clean extraction: the validated items, or what the lenient parser read.
pub data Extracted : Type 0 where
  native : List Json → List Json → Extracted
  lenient : Product → Extracted

-- The reason of a state, with the number of dropped items or of attempts that it names.
pub data Reason : Type 0 where
  no_llm : Reason
  transient : Reason
  unparsable : ℕ → Reason
  deadline : ℕ → Reason
  partial : ℕ → Reason

pub data Status : Type 0 where
  done : Extracted → Status
  not_ready : Reason → Status
  error : Reason → Status

-- Transient on the first attempt, terminal on a later one.
abbrev pub once : ℕ → Reason → Status
once attempt reason = if leb attempt 1 then not_ready reason else error reason

-- The gate for dropped items.
abbrev pub unless_dropped : ℕ → Extracted → Status
unless_dropped dropped product = if ltb 0 dropped then error (partial dropped) else done product

module _ (python : Runtime) (definitions : Definitions) where
  -- The branch of a validated result.
  unfoldable pub validated_status : List Json → List Json → Str → Status
  unfolding drop_unstorable_items count_dropped_items
  validated_status concepts relations raw =
      let (kept_concepts, kept_relations) = drop_unstorable_items python concepts relations in
      if is_empty kept_concepts && is_empty kept_relations
      then done (native [] [])
      else unless_dropped
          (count_dropped_items python raw (length kept_concepts) (length kept_relations))
          (native kept_concepts kept_relations)

  -- The branch of a StructuredLLMError.
  unfoldable pub invalid_status : Str → ℕ → Status
  unfolding parse_concept_relations count_dropped_items
  invalid_status raw attempt =
      let product = parse_concept_relations python definitions raw in
      if is_empty (strip python raw)
      then not_ready transient
      else if is_empty product.concepts && is_empty product.relations
      then once attempt (unparsable attempt)
      else unless_dropped
          (count_dropped_items python raw (length product.concepts) (length product.relations))
          (lenient product)

  -- _llm_extract_relations, with whether the model is usable
  unfoldable pub llm_extract_relations : Bool → Reply → ℕ → Status
  unfolding validated_status invalid_status
  llm_extract_relations false reply attempt = error no_llm
  llm_extract_relations true (validated concepts relations raw) attempt =
      validated_status concepts relations raw
  llm_extract_relations true (invalid raw) attempt = invalid_status raw attempt
  llm_extract_relations true timed_out attempt = once attempt (deadline attempt)
  llm_extract_relations true failed attempt = not_ready transient

-- Attempts = self._concept_attempts
abbrev pub Attempts : Type 0
Attempts = Dict Str ℕ

abbrev pub count_of : Option ℕ → ℕ
count_of none = 0
count_of (some n) = n

-- _next_concept_attempt
unfoldable pub next_concept_attempt : Str → Attempts → ℕ × Attempts
unfolding lookup put
next_concept_attempt source attempts =
    let attempt = count_of (lookup source attempts) + 1 in (attempt, put source attempt attempts)

-- _clear_concept_attempt
unfoldable pub clear_concept_attempt : Str → Attempts → Attempts
unfolding remove
clear_concept_attempt source attempts = remove source attempts
