-- ===== src/Extraction/Phase/Budget.antt =====
-- How a phase of one source leaves the counters of attempts.
use cat_graphrag.Prelude.{
  is_empty, ℕ, ◌+◌, List, [], ◌∷◌, ◌++◌, ◌≡◌, ◌⊎◌, refl, Bool, true, false, none, some, length,
  Outcome, ok, raised, Exec, Bool-cases, inl, inr, arith,
}
use cat_graphrag.Prelude.Keys.{Str, str_key, str_eq_iff}
use cat_graphrag.Prelude.Dict.{lookup, put, lookup-put, lookup-remove}
use cat_graphrag.Extraction.Json.{Runtime}
use cat_graphrag.Extraction.Payload.{strip}
use cat_graphrag.Extraction.Parse.{Definitions}
use cat_graphrag.Extraction.Outcome.{
  Reply, Extracted, Reason, Status, done, not_ready, error, llm_extract_relations, Attempts,
  count_of, next_concept_attempt, clear_concept_attempt,
}
use cat_graphrag.Extraction.Outcome.Laws.{HasNoText, not_ready_lem}
use cat_graphrag.Extraction.Selection.{Point}
use cat_graphrag.Extraction.Phase.{
  PhaseStatus, completed, retry, failure, truncated, has_no_item, combined_text, after_store,
  stored_then_cleared, settle_status, ask_and_settle, extract_concept_relations,
}

abbrev pub IsFinal : PhaseStatus → Type 0
IsFinal (completed warning processed) = Unit
IsFinal (failure reason) = Unit
IsFinal (retry reason) = ⊥

-- The counters and the calls of the model behind a phase. A final state leaves the counters as they
-- were, where the model was not asked; or forgets the source, where it was asked once. A phase that is
-- to be tried again is counted and has asked once; it is the first one, or the reply satisfies
-- `has_no_text`. A phase whose store raised is counted too.
pub data Counted {E : Type 0} (has_no_text : Type 0) (text source : Str) (before after : Attempts)
    (asks : List Str) : Outcome E PhaseStatus → Type 0 where
  not_asked :
      {status : PhaseStatus}
      → IsFinal status
      → after ≡ before
      → asks ≡ []
      → Counted has_no_text text source before after asks (ok status)
  ended :
      {status : PhaseStatus}
      → IsFinal status
      → lookup source after ≡ none
      → asks ≡ text ∷ []
      → Counted has_no_text text source before after asks (ok status)
  again :
      {reason : Reason}
      → (count_of (lookup source before) ≡ 0) ⊎ has_no_text
      → lookup source after ≡ some (count_of (lookup source before) + 1)
      → asks ≡ text ∷ []
      → Counted has_no_text text source before after asks (ok (retry reason))
  broken :
      {e : E}
      → lookup source after ≡ some (count_of (lookup source before) + 1)
      → asks ≡ text ∷ []
      → Counted has_no_text text source before after asks (raised e)

lookup-clear :
    (source : Str) (attempts : Attempts)
    → lookup source (clear_concept_attempt source attempts) ≡ none
unfolding clear_concept_attempt
lookup-clear source attempts =
    ground (arith, lookup-remove source source attempts, str_eq_iff source source)

lookup-next :
    (source : Str) (attempts : Attempts)
    → lookup source (next_concept_attempt source attempts).1
      ≡ some (count_of (lookup source attempts) + 1)
unfolding next_concept_attempt
lookup-next source attempts = ground (
  arith,
  lookup-put source source (count_of (lookup source attempts) + 1) attempts,
  str_eq_iff source source,
)

-- The store, beside the calls of the model.
abbrev pub store_beside :
    {W E : Type 0}
    → (Extracted → Exec W E (Unit {0}))
    → Extracted
    → Exec (W × List Str) E (Unit {0})
store_beside store product (w, asks) = let (r, w') = store product w in (r, (w', asks))

-- The model, with its calls kept.
abbrev pub ask_logged :
    {W : Type 0} → (Str → W → Reply × W) → Str → W × List Str → Reply × (W × List Str)
ask_logged ask text (w, asks) = let (reply, w') = ask text w in (reply, (w', asks ++ text ∷ []))

module _ {W E : Type 0} (store : Extracted → Exec W E (Unit {0})) (has_no_text : Type 0)
    (text source : Str) (before attempts : Attempts)
    (counted : lookup source attempts ≡ some (count_of (lookup source before) + 1)) where
  settle_status-Counted :
      (chars : ℕ) (status : Status) (w : W)
      → ((reason : Reason)
          → status ≡ not_ready reason
          → (count_of (lookup source before) ≡ 0) ⊎ has_no_text)
      → let m = settle_status (store_beside store) source chars status (attempts, (w, text ∷ [])) in
        Counted has_no_text text source before m.1.0 m.1.1.1 m.0
  unfolding settle_status stored_then_cleared after_store
  settle_status-Counted chars (not_ready reason) w h = again (h reason refl) counted refl
  settle_status-Counted chars (error reason) w h = ended tt (lookup-clear source attempts) refl
  settle_status-Counted chars (done product) w h = elim (Bool-cases (has_no_item product)) [
    | inl e ↦ rw (e, settle_status) (ended tt (lookup-clear source attempts) refl)
    | inr e ↦ rw (e, settle_status) (after (store product w) refl)
  ]
    where
      after :
          (m : Outcome E (Unit {0}) × W)
          → store product w ≡ m
          → let n =
              stored_then_cleared (store_beside store) source product (attempts, (w, text ∷ [])) in
            Counted has_no_text text source before n.1.0 n.1.1.1 n.0
      after (ok _, w') q = rw q (ended tt (lookup-clear source attempts) refl)
      after (raised x, w') q = rw q (broken counted refl)

module _ (python : Runtime) (definitions : Definitions) (is_alnum : ℕ → Bool) {W E : Type 0}
    (ask : Str → W → Reply × W) (store : Extracted → Exec W E (Unit {0})) where
  -- A phase of a source asks the model at most once, with the truncated text of the points. It ends
  -- without having asked and leaves the counters alone; or it ends and forgets the source's attempts;
  -- or it is to be tried again, or its store raised, and is counted. From the second attempt on it is
  -- tried again only where the reply has no text: the client failed with an error that is no timeout,
  -- or the raw text of the StructuredLLMError is blank.
  pub extract_concept_relations-Counted :
      (usable : Bool) (source : Str) (points : List Point) (attempts : Attempts) (w : W)
      → let m =
          extract_concept_relations python definitions is_alnum
            (ask_logged ask)
            (store_beside store)
            usable
            source
            points
            (attempts, (w, [])) in
        let text = truncated (combined_text python is_alnum points) in
        Counted (HasNoText python definitions (ask text w).0) text source attempts m.1.0 m.1.1.1 m.0
  unfolding extract_concept_relations ask_and_settle next_concept_attempt
  extract_concept_relations-Counted false source points attempts w = not_asked tt refl refl
  extract_concept_relations-Counted true source points attempts w =
      let combined = combined_text python is_alnum points in
      elim (Bool-cases (is_empty (strip python combined))) [
        | inl e ↦ rw e (elim (Bool-cases (is_empty points)) [
          | inl q ↦ rw q (not_asked tt refl refl)
          | inr q ↦ rw q (not_asked tt refl refl)
        ])
        | inr e ↦
            let text = truncated combined in
            let attempt = count_of (lookup source attempts) + 1 in
            let (reply, w') = ask text w in
            rw e (
              settle_status-Counted store (HasNoText python definitions reply) text source attempts
                (put source attempt attempts) (lookup-next source attempts) (length text)
                (llm_extract_relations python definitions true reply attempt) w'
                (λ reason q. elim (not_ready_lem python definitions true reply attempt reason q).1 [
                  | inl first ↦ inl (omega arith)
                  | inr blank ↦ inr blank
                ]))
      ]
