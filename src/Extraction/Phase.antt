-- ===== src/Extraction/Phase.antt =====
-- _extract_concept_relations of graphrag_handler.py: one extraction phase of a source. `ask` is the
-- structured call and `store` is _store_concept_relations; `W` is what they change.
pub mod Laws
pub mod Budget
use cat_graphrag.Prelude.{
  is_empty, ℕ, zero, suc, ◌+◌, List, [], ◌∷◌, ◌++◌, Bool, true, false, ◌&&◌, not, Option, none,
  some, map, if◌then◌else◌, ltb, length, take, Outcome, ok, raised, Exec, pure, raise, ◌>>=◌, ◌>>◌,
}
use cat_graphrag.Prelude.Keys.{Str}
use cat_graphrag.Prelude.Texts.{codes}
use cat_graphrag.Extraction.Json.{Json, Runtime}
use cat_graphrag.Extraction.Payload.{strip}
use cat_graphrag.Extraction.Parse.{Product, Definitions}
use cat_graphrag.Extraction.Outcome.{
  Reply, Extracted, native, lenient, Reason, no_llm, Status, done, not_ready, error,
  llm_extract_relations, Attempts, next_concept_attempt, clear_concept_attempt,
}
use cat_graphrag.Extraction.Selection.{Point, select_extraction_text_points}

-- The `empty-extraction` warning: nothing readable in the points, or nothing found in the text.
pub data Warning : Type 0 where
  no_usable_text : ℕ → Warning
  nothing_found : ℕ → Warning

-- The state of a phase: done with its warning and `processed`, to be retried, or failed.
pub data PhaseStatus : Type 0 where
  completed : Option Warning → ℕ → PhaseStatus
  retry : Reason → PhaseStatus
  failure : Reason → PhaseStatus

abbrev pub max_chars : ℕ
max_chars = 12000

-- The loop that collects texts until they are longer than the limit.
unfoldable pub collect_texts : ℕ → List Str → List Str
collect_texts total [] = []
collect_texts total (content ∷ contents) =
    let rest = collect_texts (total + length content) contents in
    if ltb max_chars (total + length content) then content ∷ [] else content ∷ rest

-- separator.join(texts)
unfoldable pub join : Str → List Str → Str
join separator [] = []
join separator (t ∷ []) = t
join separator (t ∷ u ∷ texts) = t ++ separator ++ join separator (u ∷ texts)

-- if len(combined) > max_chars: combined[:max_chars] + " [truncated]"
unfoldable pub truncated : Str → Str
truncated combined =
    if ltb max_chars (length combined)
    then take max_chars combined ++ codes " [truncated]"
    else combined

-- Whether a product has no item, and how many relations.
unfoldable pub has_no_item : Extracted → Bool
has_no_item (native concepts relations) = is_empty concepts && is_empty relations
has_no_item (lenient product) = is_empty product.concepts && is_empty product.relations

unfoldable pub relation_count : Extracted → ℕ
relation_count (native concepts relations) = length relations
relation_count (lenient product) = length product.relations

module _ (python : Runtime) where
  unfoldable pub keep_readable : List Str → List Str
  keep_readable [] = []
  keep_readable (c ∷ cs) =
      let rest = keep_readable cs in if is_empty (strip python c) then rest else c ∷ rest

  unfoldable pub combined_text : (ℕ → Bool) → List Point → Str
  unfolding keep_readable collect_texts join select_extraction_text_points strip
  combined_text is_alnum points = join (codes "\n\n") (
      collect_texts 0 (
        keep_readable
          (map (λ p. p.content) (select_extraction_text_points python is_alnum points))))

module _ {W E : Type 0} (store : Extracted → Exec W E (Unit {0})) (source : Str) where
  -- How the store ended: an error passes on, and else the source's attempts are forgotten.
  unfoldable pub after_store :
      ℕ → Attempts → Outcome E (Unit {0}) → Outcome E PhaseStatus × Attempts
  unfolding clear_concept_attempt
  after_store processed attempts (raised e) = (raised e, attempts)
  after_store processed attempts (ok _) =
      (ok (completed none processed), clear_concept_attempt source attempts)

  -- The handler's attempts beside what the store changes.
  unfoldable pub stored_then_cleared : Extracted → Exec (Attempts × W) E PhaseStatus
  unfolding after_store relation_count
  stored_then_cleared product (attempts, w) =
      let (r, w') = store product w in
      let (status, attempts') = after_store (relation_count product) attempts r in
      (status, (attempts', w'))

  -- What follows the model's answer.
  unfoldable pub settle_status : ℕ → Status → Exec (Attempts × W) E PhaseStatus
  unfolding stored_then_cleared has_no_item
  settle_status chars (not_ready reason) (attempts, w) = (ok (retry reason), (attempts, w))
  settle_status chars (error reason) (attempts, w) =
      (ok (failure reason), (clear_concept_attempt source attempts, w))
  settle_status chars (done product) (attempts, w) =
      if has_no_item product
      then (
        ok (completed (some (nothing_found chars)) 0),
        (clear_concept_attempt source attempts, w),
      )
      else stored_then_cleared product (attempts, w)

module _ (python : Runtime) (definitions : Definitions) (is_alnum : ℕ → Bool) {W E : Type 0}
    (ask : Str → W → Reply × W) (store : Extracted → Exec W E (Unit {0})) where
  -- The branch with a text: one attempt is counted, and the model is asked.
  unfoldable pub ask_and_settle : Str → Str → Exec (Attempts × W) E PhaseStatus
  unfolding settle_status next_concept_attempt llm_extract_relations truncated
  ask_and_settle source combined (attempts, w) =
      let text = truncated combined in
      let (attempt, attempts') = next_concept_attempt source attempts in
      let (reply, w') = ask text w in
      settle_status store source (length text)
        (llm_extract_relations python definitions true reply attempt) (attempts', w')

  -- _extract_concept_relations, with whether a usable model was resolved
  unfoldable pub extract_concept_relations :
      Bool → Str → List Point → Exec (Attempts × W) E PhaseStatus
  unfolding ask_and_settle combined_text strip
  extract_concept_relations false source points s = (ok (failure no_llm), s)
  extract_concept_relations true source points s =
      let combined = combined_text python is_alnum points in
      if is_empty (strip python combined)
      then (
        ok (
            if is_empty points
            then completed none 0
            else completed (some (no_usable_text (length points))) 0),
        s,
      )
      else ask_and_settle source combined s
