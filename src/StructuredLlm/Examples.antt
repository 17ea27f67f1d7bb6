-- ===== src/StructuredLlm/Examples.antt =====
-- Tests and instances for structured_llm.py.
use cat_graphrag.Prelude.{
  [], ◌++◌, ◌≡◌, refl, false, none, some, Outcome, ok, raised, if◌then◌else◌,
}
use cat_graphrag.Prelude.Keys.{Str, str_eq}
use cat_graphrag.Prelude.Texts.{codes}
use cat_graphrag.Extraction.Gate.{drop_unstorable_items}
use cat_graphrag.Extraction.Outcome.{native, done, llm_extract_relations, validated_status}
use cat_graphrag.Extraction.Examples.{python, definitions}
use cat_graphrag.StructuredLlm.{
  OutputModel, class_of, schema, plain, Native, mapping, other, not_validated, structured_llm_error,
  uncaught, Llm, Libraries, asked, run,
}
use cat_graphrag.StructuredLlm.Laws.{Ended, run-Ended, extracted}

-- A JSON value is its text, "bad" is none, and "odd" is one that no schema accepts.
abbrev loads : Str → Outcome Str Str
loads text = if str_eq text (codes "bad") then raised (codes "JSONDecodeError") else ok text

abbrev validate : Str → Str → Outcome Str (Unit {0})
validate j s = if str_eq j (codes "odd") then raised (codes "ValidationError") else ok tt

abbrev libraries : Libraries Str Str Str Str
libraries = record {
  dumps = λ j. ok j;
  loads = loads;
  model_dump_json = λ v. ok v;
  model_json_schema = λ c. ok c;
  construct = λ c j. ok (c ++ j);
  parse_json = none;
  validate = some validate;
  is_validation_error = λ e. str_eq e (codes "ValidationError");
  raw_text = λ e. none;
  warning = ok tt;
}

-- A model without structured output that always gives one answer.
abbrev answering : Outcome Str Str → Llm Str Str Str Str
answering answer = record { with_structured_output = none; ainvoke = λ prompt. answer }

-- A model whose native call gives back a text.
abbrev unstructured : OutputModel Str Str → Str → Outcome Str (Native Str Str)
unstructured m prompt = ok (other (codes "None"))

abbrev native_llm : Llm Str Str Str Str
native_llm = record {
  with_structured_output = some unstructured;
  ainvoke = λ prompt. raised (codes "unused");
}

abbrev as_dict : OutputModel Str Str
as_dict = schema (codes "{}")

accepted :
    run libraries (answering (ok (codes "1"))) (codes "p") as_dict none
    ≡ ok (record { text = codes "1"; model = some (plain (codes "1")) })
unfolding run
accepted = refl

refused_by_schema :
    run libraries (answering (ok (codes "odd"))) (codes "p") as_dict none
    ≡ raised (structured_llm_error not_validated (codes "ValidationError") (codes "odd"))
unfolding run
refused_by_schema = refl

no_answer :
    run libraries (answering (raised (codes "Timeout"))) (codes "p") as_dict none
    ≡ raised (uncaught (codes "Timeout"))
unfolding run
no_answer = refl

-- The native call is not checked against a schema.
abbrev odd_dict : Llm Str Str Str Str
odd_dict = record {
  with_structured_output = some λ m prompt. ok (mapping (codes "odd"));
  ainvoke = λ prompt. raised (codes "unused");
}

native_unchecked :
    run libraries odd_dict (codes "p") as_dict none
    ≡ ok (record { text = codes "odd"; model = some (plain (codes "odd")) })
unfolding run
native_unchecked = refl

run-Ended_example :
    Ended libraries as_dict
      (asked libraries (answering (ok (codes "odd"))) (codes "p") as_dict none)
      (run libraries (answering (ok (codes "odd"))) (codes "p") as_dict none)
run-Ended_example = run-Ended libraries (answering (ok (codes "odd"))) (codes "p") as_dict none refl

-- What the text of a native answer that is neither a model nor a dict has is lost, on every attempt.
unstructured_lost :
    extracted libraries python definitions
      (λ m. ([], []))
      (λ e. false)
      native_llm
      (codes "p")
      (class_of (codes "C"))
      3
    ≡ done (native [] [])
unfolding run llm_extract_relations validated_status drop_unstorable_items
unstructured_lost = refl
