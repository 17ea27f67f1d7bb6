-- ===== src/StructuredLlm.antt =====
-- structured_llm.py, and how `_llm_extract_relations` of graphrag_handler.py reads what it ends with. The
-- model, json, jsonschema, pydantic and `parse_json` of the Cat are parameters, and the message of an
-- error is its cause with the exception.
pub mod Laws
mod Examples
use cat_graphrag.Prelude.{
  List, [], ◌∷◌, ◌++◌, Bool, true, false, ◌&&◌, Option, none, some, if◌then◌else◌, is_some, Outcome,
  ok, raised,
}
use cat_graphrag.Prelude.Keys.{Str}
use cat_graphrag.Prelude.Texts.{codes}
use cat_graphrag.Extraction.Json.{Json}
use cat_graphrag.Extraction.Outcome.{Reply, validated, invalid, timed_out, failed}

-- output_model: a pydantic class, or a schema.
pub data OutputModel (C J : Type 0) : Type 0 where
  class_of : C → OutputModel C J
  schema : J → OutputModel C J

-- StructuredLLMResult.model: an instance of a class, or a dict.
pub data Model (J V : Type 0) : Type 0 where
  built : V → Model J V
  plain : J → Model J V

pub record StructuredLlmResult (J V : Type 0) : Type 0 where
  pub text : Str
  pub model : Option (Model J V)

-- What a native call gives: what has `model_dump_json`, a dict, or anything else, with its `str`.
pub data Native (J V : Type 0) : Type 0 where
  dumped : V → Native J V
  mapping : J → Native J V
  other : Str → Native J V

-- Where a StructuredLLMError comes from.
pub data Cause : Type 0 where
  native_failed : Cause
  not_validated : Cause
  not_parsed : Cause

-- StructuredLLMError, with the exception in its message and its raw text, or any other exception.
pub data Raised (E : Type 0) : Type 0 where
  structured_llm_error : Cause → E → Str → Raised E
  uncaught : E → Raised E

-- The model. `with_structured_output` is none where it has no such attribute; `ainvoke` gives the
-- content of the answer, or its `str`.
pub record Llm (C J V E : Type 0) : Type 0 where
  pub with_structured_output : Option (OutputModel C J → Str → Outcome E (Native J V))
  pub ainvoke : Str → Outcome E Str

-- json, pydantic, jsonschema and the Cat. `parse_json` and `validate` are none where they cannot be
-- imported, `raw_text` is none for an exception that has no such attribute, and `warning` is the import
-- and the call of the log.
pub record Libraries (C J V E : Type 0) : Type 0 where
  pub dumps : J → Outcome E Str
  pub loads : Str → Outcome E J
  pub model_dump_json : V → Outcome E Str
  pub model_json_schema : C → Outcome E J
  pub construct : C → J → Outcome E V
  pub parse_json : Option (Str → C → Outcome E V)
  pub validate : Option (J → J → Outcome E (Unit {0}))
  pub is_validation_error : E → Bool
  pub raw_text : E → Option Str
  pub warning : Outcome E (Unit {0})

-- The statement after one that may raise.
abbrev pub and_then : {E A B : Type 0} → Outcome E A → (A → Outcome E B) → Outcome E B
and_then (ok a) f = f a
and_then (raised e) f = raised e

-- try: … except Exception as e: raise handler(e)
abbrev pub except_as : {E F A : Type 0} → (E → F) → Outcome E A → Outcome F A
except_as handler (ok a) = ok a
except_as handler (raised e) = raised (handler e)

-- The prompt without a system prompt, from the text of the schema.
abbrev json_prompt : Str → Str → Str
json_prompt schema_json prompt =
    codes "Return ONLY a single valid JSON object conforming to this JSON schema:\n```json\n"
    ++ schema_json
    ++ codes "\n```\n\nInput:\n"
    ++ prompt

-- _build_json_prompt. An empty system prompt counts as none.
abbrev pub build_json_prompt : Str → Str → Option Str → Str
build_json_prompt schema_json prompt none = json_prompt schema_json prompt
build_json_prompt schema_json prompt (some []) = json_prompt schema_json prompt
build_json_prompt schema_json prompt (some (c ∷ system)) =
    (c ∷ system) ++ codes "\n\n" ++ json_prompt schema_json prompt

module _ {C J V E : Type 0} (libraries : Libraries C J V E) where
  open libraries use {
    dumps, loads, model_dump_json, model_json_schema, construct, parse_json, validate,
    is_validation_error, raw_text, warning,
  }

  -- The result of a native call that returns.
  abbrev pub native_result : OutputModel C J → Native J V → Outcome E (StructuredLlmResult J V)
  native_result output_model (dumped v) =
      and_then (model_dump_json v) λ text. ok (record { text = text; model = some (built v) })
  native_result (class_of c) (mapping j) =
      and_then (dumps j)
        λ text. and_then (construct c j) λ v. ok (record { text = text; model = some (built v) })
  native_result (schema s) (mapping j) =
      and_then (dumps j) λ text. ok (record { text = text; model = some (plain j) })
  native_result output_model (other text) =
      and_then warning λ _. ok (record { text = text; model = none })

  -- getattr(e, "raw_text", "")
  abbrev pub raw_text_of : E → Str
  raw_text_of e = elim (raw_text e) [ none ↦ [] | some raw ↦ raw ]

  -- _run_native
  unfoldable pub run_native :
      (OutputModel C J → Str → Outcome E (Native J V))
      → Str
      → OutputModel C J
      → Outcome (Raised E) (StructuredLlmResult J V)
  run_native call prompt output_model =
      except_as (λ e. structured_llm_error native_failed e (raw_text_of e))
        (and_then (call output_model prompt) (native_result output_model))

  -- The schema in the prompt.
  abbrev pub schema_of : OutputModel C J → Outcome E J
  schema_of (class_of c) = model_json_schema c
  schema_of (schema s) = ok s

  -- jsonschema.validate(model, output_model), where jsonschema is there
  abbrev pub conforms : J → J → Outcome E (Unit {0})
  conforms model s = elim validate [ none ↦ ok tt | some check ↦ check model s ]

  -- The model that the text of an answer is parsed to.
  unfoldable pub parsed : OutputModel C J → Str → Outcome E (Model J V)
  parsed (class_of c) text = elim parse_json [
    | none ↦ and_then (loads text) λ j. and_then (construct c j) λ v. ok (built v)
    | some parse ↦ and_then (parse text c) λ v. ok (built v)
  ]
  parsed (schema s) text = and_then (loads text) λ j. and_then (conforms j s) λ _. ok (plain j)

  -- The error for an answer that is not parsed.
  abbrev pub fallback_error : Str → E → Raised E
  fallback_error text e =
      if is_some validate && is_validation_error e
      then structured_llm_error not_validated e text
      else structured_llm_error not_parsed e text

  -- From the answer on.
  unfoldable pub answered :
      OutputModel C J → Outcome E Str → Outcome (Raised E) (StructuredLlmResult J V)
  unfolding parsed
  answered output_model (raised e) = raised (uncaught e)
  answered output_model (ok text) =
      except_as (fallback_error text) (
        and_then (parsed output_model text)
          λ model. ok (record { text = text; model = some model }))

  -- What the model answers to the prompt with the schema.
  unfoldable pub asked : Llm C J V E → Str → OutputModel C J → Option Str → Outcome E Str
  asked llm prompt output_model system_prompt = and_then (schema_of output_model) λ s.
      and_then (dumps s)
        λ schema_json. llm.ainvoke (build_json_prompt schema_json prompt system_prompt)

  -- _run_fallback
  unfoldable pub run_fallback :
      Llm C J V E
      → Str
      → OutputModel C J
      → Option Str
      → Outcome (Raised E) (StructuredLlmResult J V)
  unfolding answered asked
  run_fallback llm prompt output_model system_prompt =
      answered output_model (asked llm prompt output_model system_prompt)

  -- StructuredLLM.run
  unfoldable pub run :
      Llm C J V E
      → Str
      → OutputModel C J
      → Option Str
      → Outcome (Raised E) (StructuredLlmResult J V)
  unfolding run_native run_fallback
  run llm prompt output_model system_prompt = elim llm.with_structured_output [
    | none ↦ run_fallback llm prompt output_model system_prompt
    | some call ↦ run_native call prompt output_model
  ]

-- How `_llm_extract_relations` reads the end of the structured call, where its own deadline does not end
-- it. `lists` are the concepts and the relations of the model's data, absent ones empty.
abbrev pub reply_of :
    {J V E : Type 0}
    → (Model J V → List Json × List Json)
    → (E → Bool)
    → Outcome (Raised E) (StructuredLlmResult J V)
    → Reply
reply_of lists is_timeout_error (raised (structured_llm_error _ _ raw)) = invalid raw
reply_of lists is_timeout_error (raised (uncaught e)) =
    if is_timeout_error e then timed_out else failed
reply_of lists is_timeout_error (ok result) = elim result.model [
  | none ↦ validated [] [] result.text
  | some model ↦ validated (lists model).0 (lists model).1 result.text
]
