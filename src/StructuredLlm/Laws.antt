-- ===== src/StructuredLlm/Laws.antt =====
-- What the structured call ends with, and what the extraction makes of it.
use cat_graphrag.Prelude.{
  ℕ, List, [], ◌≡◌, refl, ap, Bool, true, ◌&&◌, Option, none, some, is_some, Outcome, ok, raised,
  inl, inr, Bool-cases,
}
use cat_graphrag.Prelude.Keys.{Str}
use cat_graphrag.Extraction.Json.{Json, Runtime}
use cat_graphrag.Extraction.Parse.{Definitions}
use cat_graphrag.Extraction.Outcome.{
  Status, not_ready, transient, invalid_status, llm_extract_relations,
}
use cat_graphrag.Extraction.Payload.{strip, strip_end, drop_while}
use cat_graphrag.StructuredLlm.{
  OutputModel, class_of, schema, Model, built, plain, StructuredLlmResult, Native, Cause, Raised,
  structured_llm_error, uncaught, Llm, Libraries, and_then, except_as, conforms, fallback_error,
  raw_text_of, parsed, answered, asked, run_fallback, run_native, run, reply_of,
}

-- A model of the one kind or the other.
abbrev Built : {J V : Type 0} → (V → Type 0) → Model J V → Type 0
Built P (built v) = P v
Built P (plain j) = ⊥

abbrev Plain : {J V : Type 0} → (J → Type 0) → Model J V → Type 0
Plain P (built v) = ⊥
Plain P (plain j) = P j

-- What satisfies `P`, or a refusal where nothing does.
abbrev Reads : {E A : Type 0} → (A → Type 0) → Outcome E A → Type 0
Reads P (ok a) = P a
Reads P (raised e) = (a : _) → ¬ P a

module _ {C J V E : Type 0} (libraries : Libraries C J V E) where
  open libraries use {loads, construct, parse_json, validate}

  -- The instance is what the text is read as, by the Cat where it has a parser.
  abbrev Builds : Option (Str → C → Outcome E V) → C → Str → V → Type 0
  Builds none c text v = (j : J) × (loads text ≡ ok j) × (construct c j ≡ ok v)
  Builds (some parse) c text v = parse text c ≡ ok v

  -- A text reads as a model of the kind that was asked for: a value that the schema accepts, or an
  -- instance of the class.
  abbrev pub Conforms : OutputModel C J → Str → Model J V → Type 0
  Conforms (schema s) text = Plain (λ j. (loads text ≡ ok j) × (conforms libraries j s ≡ ok tt))
  Conforms (class_of c) text = Built (Builds parse_json c text)

  -- How the fallback ends, from what the model answers: with a model that the answer reads as; with a
  -- StructuredLLMError that carries the answer, which reads as none; or with the exception of the model.
  pub data Ended (m : OutputModel C J) (answer : Outcome E Str)
      : Outcome (Raised E) (StructuredLlmResult J V) → Type 0 where
    checked :
        {text : Str} {model : Model J V}
        → answer ≡ ok text
        → Conforms m text model
        → Ended m answer (ok (record { text = text; model = some model }))
    rejected :
        {text : Str} {cause : Cause} {e : E}
        → answer ≡ ok text
        → ((model : Model J V) → ¬ Conforms m text model)
        → Ended m answer (raised (structured_llm_error cause e text))
    unanswered : {e : E} → answer ≡ raised e → Ended m answer (raised (uncaught e))

  module _ (s : J) (text : Str) where
    refused :
        (j : J) (e : E)
        → loads text ≡ ok j
        → conforms libraries j s ≡ raised e
        → (model : Model J V) → ¬ Conforms (schema s) text model
    refused j e l c (built v) h = h
    refused j e l c (plain k) (l', c') = absurd cc

    after_loads :
        (j : J) (r : Outcome E (Unit {0}))
        → loads text ≡ ok j
        → conforms libraries j s ≡ r
        → Reads (Conforms (schema s) text) (and_then r λ _. ok (plain j))
    after_loads j (ok _) l c = (l, c)
    after_loads j (raised e) l c = refused j e l c

    unread :
        (e : E) → loads text ≡ raised e → (model : Model J V) → ¬ Conforms (schema s) text model
    unread e l (built v) h = h
    unread e l (plain k) (l', c') = absurd cc

    by_schema :
        (r : Outcome E J)
        → loads text ≡ r
        → Reads
            (Conforms (schema s) text)
            (and_then r λ j. and_then (conforms libraries j s) λ _. ok (plain j))
    by_schema (ok j) l = after_loads j (conforms libraries j s) l refl
    by_schema (raised e) l = unread e l

  module _ (c : C) (text : Str) where
    unbuilt : (P : V → Type 0) → ((v : V) → ¬ P v) → (model : Model J V) → ¬ Built P model
    unbuilt P never (built v) h = never v h
    unbuilt P never (plain j) h = h

    constructed :
        (j : J) (r : Outcome E V)
        → loads text ≡ ok j
        → construct c j ≡ r
        → Reads (Built {J = J} (Builds none c text)) (and_then r λ v. ok (built v))
    constructed j (ok v) l d = (j, l, d)
    constructed j (raised e) l d = unbuilt (Builds none c text) λ v (k, l', d'). absurd cc

    loaded :
        (r : Outcome E J)
        → loads text ≡ r
        → Reads
            (Built {J = J} (Builds none c text))
            (and_then r λ j. and_then (construct c j) λ v. ok (built v))
    loaded (ok j) l = constructed j (construct c j) l refl
    loaded (raised e) l = unbuilt (Builds none c text) λ v (k, l', d'). absurd cc

    by_parser :
        (parse : Str → C → Outcome E V) (r : Outcome E V)
        → parse text c ≡ r
        → Reads (Built {J = J} (Builds (some parse) c text)) (and_then r λ v. ok (built v))
    by_parser parse (ok v) p = p
    by_parser parse (raised e) p = unbuilt (Builds (some parse) c text) λ v p'. absurd cc

    by_class :
        (o : Option (Str → C → Outcome E V))
        → Reads (Built {J = J} (Builds o c text)) (elim o [
          | none ↦ and_then (loads text) λ j. and_then (construct c j) λ v. ok (built v)
          | some parse ↦ and_then (parse text c) λ v. ok (built v)
        ])
    by_class none = loaded (loads text) refl
    by_class (some parse) = by_parser parse (parse text c) refl

  parsed-Reads :
      (m : OutputModel C J) (text : Str) → Reads (Conforms m text) (parsed libraries m text)
  unfolding parsed
  parsed-Reads (schema s) text = by_schema s text (loads text) refl
  parsed-Reads (class_of c) text = by_class c text parse_json

  ended :
      (m : OutputModel C J) (text : Str) (r : Outcome E (Model J V))
      → Reads (Conforms m text) r
      → Ended m (ok text) (
          except_as
            (fallback_error libraries text)
            (and_then r λ model. ok (record { text = text; model = some model })))
  ended m text (ok model) reads = checked refl reads
  ended m text (raised e) reads =
      elim (Bool-cases (is_some validate && libraries.is_validation_error e)) [
        | inl y ↦ rw y (rejected refl reads)
        | inr n ↦ rw n (rejected refl reads)
      ]

  -- Without a native call, the structured call returns a model only if the answer reads as one, with the
  -- answer as its text; it raises a StructuredLLMError only if the answer reads as none, and the error
  -- carries the answer; and it raises another exception only where there is no answer.
  pub run-Ended :
      (llm : Llm C J V E) (prompt : Str) (m : OutputModel C J) (system_prompt : Option Str)
      → llm.with_structured_output ≡ none
      → Ended m
          (asked libraries llm prompt m system_prompt)
          (run libraries llm prompt m system_prompt)
  unfolding run run_fallback answered
  run-Ended llm prompt m system_prompt h = rw h (at (asked libraries llm prompt m system_prompt))
    where
      at : (answer : Outcome E Str) → Ended m answer (answered libraries m answer)
      at (ok text) = ended m text (parsed libraries m text) (parsed-Reads m text)
      at (raised e) = unanswered refl

  module _ (python : Runtime) (definitions : Definitions)
      (lists : Model J V → List Json × List Json) (is_timeout_error : E → Bool) where
    -- The status of an extraction, from the structured call.
    abbrev pub extracted : Llm C J V E → Str → OutputModel C J → ℕ → Status
    extracted llm prompt m attempt =
        llm_extract_relations python definitions true
          (reply_of lists is_timeout_error (run libraries llm prompt m none)) attempt

    -- A native call that raises an exception without a raw text is tried again, on every attempt.
    native_failure-retried :
        (llm : Llm C J V E) (call : OutputModel C J → Str → Outcome E (Native J V)) (prompt : Str)
        (m : OutputModel C J) (e : E) (attempt : ℕ)
        → llm.with_structured_output ≡ some call
        → call m prompt ≡ raised e
        → libraries.raw_text e ≡ none
        → extracted llm prompt m attempt ≡ not_ready transient
    unfolding run run_native llm_extract_relations invalid_status strip strip_end drop_while
    native_failure-retried llm call prompt m e attempt h k r =
        let blank : raw_text_of libraries e ≡ [] =
          ap (λ (o : Option Str). elim o [ none ↦ [] | some raw ↦ raw ]) r in
        rw (h, k, blank) refl
