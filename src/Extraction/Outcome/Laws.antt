-- ===== src/Extraction/Outcome/Laws.antt =====
-- When the extraction is done, and when it is to be tried again.
use cat_graphrag.Prelude.{
  filter_by, is_empty, ℕ, ◌≤◌, List, [], ◌≡◌, ◌⊎◌, refl, sym, ◌∙◌, Bool, true, false, ◌&&◌, length,
  Bool-cases, inl, inr, arith,
}
use mathlib.Core.Path.{subst}
use cat_graphrag.Prelude.Keys.{Str}
use cat_graphrag.Extraction.Json.{Json, Runtime}
use cat_graphrag.Extraction.Payload.{strip, parsed_payload}
use cat_graphrag.Extraction.Parse.{Definitions, parse_concept_relations}
use cat_graphrag.Extraction.Gate.{
  storable_concept, storable_relation, drop_unstorable_items, raw_item_counts, count_dropped_items,
}
use cat_graphrag.Extraction.Gate.Laws.{lost, count_dropped_items_lem}
use cat_graphrag.Extraction.Outcome.{
  Reply, validated, invalid, timed_out, failed, Extracted, native, lenient, Reason, done, not_ready,
  unless_dropped, validated_status, invalid_status, llm_extract_relations,
}

module _ (python : Runtime) (definitions : Definitions) where
  -- What a product has to do with the reply. For a validated reply it is the storable items of the two
  -- lists, in their order; and unless there are none, they are at least as many, of each kind, as the
  -- records that the text of the reply has as JSON. A text that does not read as JSON has none. For the
  -- raw text of an error it is what the parser reads, which is not empty, and no record was rejected.
  abbrev pub Accepted : Reply → Extracted → Type 0
  Accepted (validated concepts relations raw) (native cs rs) =
      (cs ≡ filter_by (storable_concept python) concepts)
      × (rs ≡ filter_by (storable_relation python) relations)
      × (((cs ≡ []) × (rs ≡ []))
          ⊎ (((raw_item_counts python raw).0 ≤ length cs)
              × ((raw_item_counts python raw).1 ≤ length rs)))
  Accepted (validated concepts relations raw) (lenient p) = ⊥
  Accepted (invalid raw) (lenient p) =
      (p ≡ parse_concept_relations python definitions raw)
      × ((is_empty p.concepts && is_empty p.relations) ≡ false)
      × (lost python definitions (parsed_payload python raw) ≡ 0)
  Accepted (invalid raw) (native cs rs) = ⊥
  Accepted timed_out product = ⊥
  Accepted failed product = ⊥

  unless_dropped-done : (n : ℕ) (a b : Extracted) → unless_dropped n a ≡ done b → (n ≡ 0) × (a ≡ b)
  unless_dropped-done n a b h = ground arith

  none_dropped :
      (raw : Str) (cs rs : List Json)
      → count_dropped_items python raw (length cs) (length rs) ≡ 0
      → ((raw_item_counts python raw).0 ≤ length cs) × ((raw_item_counts python raw).1 ≤ length rs)
  unfolding count_dropped_items
  none_dropped raw cs rs z = (omega arith, omega arith)

  validated-Accepted :
      (concepts relations : List Json) (raw : Str) (product : Extracted)
      → validated_status python definitions concepts relations raw ≡ done product
      → Accepted (validated concepts relations raw) product
  unfolding validated_status drop_unstorable_items
  validated-Accepted concepts relations raw product h =
      let cs = filter_by (storable_concept python) concepts in
      let rs = filter_by (storable_relation python) relations in
      let n = count_dropped_items python raw (length cs) (length rs) in
      elim (Bool-cases (is_empty cs && is_empty rs)) [
        | inl e ↦
            let no_cs : [] ≡ cs = ground arith in
            let no_rs : [] ≡ rs = ground arith in
            let q : native [] [] ≡ product = ground arith in
            subst (Accepted (validated concepts relations raw)) q (no_cs, no_rs, inl (refl, refl))
        | inr e ↦
            let g : unless_dropped n (native cs rs) ≡ done product = ground arith in
            let (z, q) = unless_dropped-done n (native cs rs) product g in
            subst (Accepted (validated concepts relations raw)) q
              (refl, refl, inr (none_dropped raw cs rs z))
      ]

  invalid-Accepted :
      (raw : Str) (attempt : ℕ) (product : Extracted)
      → invalid_status python definitions raw attempt ≡ done product
      → Accepted (invalid raw) product
  unfolding invalid_status
  invalid-Accepted raw attempt product h =
      let p = parse_concept_relations python definitions raw in
      let n = count_dropped_items python raw (length p.concepts) (length p.relations) in
      let g : unless_dropped n (lenient p) ≡ done product = ground arith in
      let full : (is_empty p.concepts && is_empty p.relations) ≡ false = ground arith in
      let (z, q) = unless_dropped-done n (lenient p) product g in
      subst (Accepted (invalid raw)) q
        (refl, full, sym (count_dropped_items_lem python definitions raw) ∙ z)

  -- The extraction is done only with a usable model and a product that the gate accepts. After a
  -- validated reply this is all the storable items of its two lists, in their order; unless there are
  -- none, they are as many of each kind, or more, as the records that the text of the reply has as JSON,
  -- where a text that is not read as JSON has none. After a StructuredLLMError it is what the lenient
  -- parser reads of the raw text, which is not empty, and the parser rejected no record.
  pub done-Accepted :
      (usable : Bool) (reply : Reply) (attempt : ℕ) (product : Extracted)
      → llm_extract_relations python definitions usable reply attempt ≡ done product
      → (usable ≡ true) × Accepted reply product
  unfolding llm_extract_relations
  done-Accepted false reply attempt product h = absurd (ground arith)
  done-Accepted true (validated cs rs raw) attempt product h =
      (refl, validated-Accepted cs rs raw product h)
  done-Accepted true (invalid raw) attempt product h =
      (refl, invalid-Accepted raw attempt product h)
  done-Accepted true timed_out attempt product h = absurd (ground arith)
  done-Accepted true failed attempt product h = absurd (ground arith)

  -- A reply without a text: the client failed, or the raw text of the StructuredLLMError is blank.
  abbrev pub HasNoText : Reply → Type 0
  HasNoText (validated concepts relations raw) = ⊥
  HasNoText (invalid raw) = is_empty (strip python raw) ≡ true
  HasNoText timed_out = ⊥
  HasNoText failed = Unit

  -- With a usable model, the extraction is to be tried again only on the first attempt, or where the
  -- reply has no text: the client failed with an error that is no timeout, or the raw text of the
  -- StructuredLLMError is blank. Without a usable model it is not tried again.
  pub not_ready_lem :
      (usable : Bool) (reply : Reply) (attempt : ℕ) (reason : Reason)
      → llm_extract_relations python definitions usable reply attempt ≡ not_ready reason
      → (usable ≡ true) × ((attempt ≤ 1) ⊎ HasNoText reply)
  unfolding llm_extract_relations validated_status invalid_status
  not_ready_lem false reply attempt reason h = absurd (ground arith)
  not_ready_lem true (validated cs rs raw) attempt reason h = absurd (ground arith)
  not_ready_lem true (invalid raw) attempt reason h = (refl, ground arith)
  not_ready_lem true timed_out attempt reason h = (refl, ground arith)
  not_ready_lem true failed attempt reason h = (refl, inr tt)
