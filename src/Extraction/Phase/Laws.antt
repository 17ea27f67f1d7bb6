-- ===== src/Extraction/Phase/Laws.antt =====
-- What a phase of one source stores, and how it counts its attempts. The calls of the store are kept
-- beside the state.
use cat_graphrag.Prelude.{
  is_empty, ℕ, List, [], ◌∷◌, ◌≡◌, refl, Bool, true, false, none, length, Outcome, ok, raised, Exec,
  logged, Bool-cases, inl, inr,
}
use cat_graphrag.Prelude.Keys.{Str, str_key}
use cat_graphrag.Extraction.Json.{Runtime}
use cat_graphrag.Extraction.Payload.{strip}
use cat_graphrag.Extraction.Parse.{Definitions}
use cat_graphrag.Extraction.Outcome.{
  Reply, Extracted, Status, done, not_ready, error, llm_extract_relations, Attempts,
  next_concept_attempt,
}
use cat_graphrag.Extraction.Outcome.Laws.{Accepted, done-Accepted}
use cat_graphrag.Extraction.Selection.{Point}
use cat_graphrag.Extraction.Phase.{
  PhaseStatus, completed, truncated, has_no_item, relation_count, combined_text, after_store,
  stored_then_cleared, settle_status, ask_and_settle, extract_concept_relations,
}

module _ {E : Type 0} where
  -- The calls of the store, with how the phase ended: no call, or one with a product that is not
  -- empty and that the gate accepts. Only such a call can raise, and after it the phase is done
  -- without a warning.
  pub data Stores (is_accepted : Extracted → Type 0) (calls : List Extracted)
      : Outcome E PhaseStatus → Type 0 where
    no_call : {status : PhaseStatus} → calls ≡ [] → Stores is_accepted calls (ok status)
    one_call :
        (product : Extracted)
        → is_accepted product
        → has_no_item product ≡ false
        → calls ≡ product ∷ []
        → Stores is_accepted calls (ok (completed none (relation_count product)))
    store_raised :
        {e : E} (product : Extracted)
        → is_accepted product
        → has_no_item product ≡ false
        → calls ≡ product ∷ []
        → Stores is_accepted calls (raised e)

module _ {W E : Type 0} (store : Extracted → Exec W E (Unit {0})) (source : Str)
    (P : Extracted → Type 0) where
  settle_status-Stores :
      (chars : ℕ) (status : Status) (attempts : Attempts) (w : W)
      → ((product : Extracted) → status ≡ done product → P product)
      → let m = settle_status (logged store) source chars status (attempts, (w, [])) in
        Stores P m.1.1.1 m.0
  unfolding settle_status stored_then_cleared after_store
  settle_status-Stores chars (not_ready reason) attempts w h = no_call refl
  settle_status-Stores chars (error reason) attempts w h = no_call refl
  settle_status-Stores chars (done product) attempts w h = elim (Bool-cases (has_no_item product)) [
    | inl e ↦ rw (e, settle_status) (no_call refl)
    | inr e ↦ rw (e, settle_status) (after (store product w) refl e)
  ]
    where
      after :
          (m : Outcome E (Unit {0}) × W)
          → store product w ≡ m
          → has_no_item product ≡ false
          → let n = stored_then_cleared (logged store) source product (attempts, (w, [])) in
            Stores P n.1.1.1 n.0
      after (ok _, w') q e = rw q (one_call product (h product refl) e refl)
      after (raised x, w') q e = rw q (store_raised product (h product refl) e refl)

module _ (python : Runtime) (definitions : Definitions) (is_alnum : ℕ → Bool) {W E : Type 0}
    (ask : Str → W → Reply × W) (store : Extracted → Exec W E (Unit {0})) where
  -- The gate accepts the product for the answer to the given text.
  abbrev pub AcceptedFor : Str → W → Extracted → Type 0
  AcceptedFor text w = Accepted python definitions (ask text w).0

  -- The call of the model, beside the calls of the store.
  abbrev pub ask_beside : Str → W × List Extracted → Reply × (W × List Extracted)
  ask_beside text (w, calls) = let (reply, w') = ask text w in (reply, (w', calls))

  -- A phase stores at most one product. It has an item, and the gate accepts it for what the model
  -- answers to the truncated text of the points: it is all the storable items of a validated reply,
  -- no fewer of each kind than the records of the reply's text, where that reads as JSON; or all that
  -- the lenient parser reads of a raw text of which it rejects no record. Only the call of the store
  -- raises, and a phase that has stored is done without a warning.
  pub extract_concept_relations-Stores :
      (usable : Bool) (source : Str) (points : List Point) (attempts : Attempts) (w : W)
      → let m =
          extract_concept_relations python definitions is_alnum ask_beside
            (logged store)
            usable
            source
            points
            (attempts, (w, [])) in
        Stores (AcceptedFor (truncated (combined_text python is_alnum points)) w) m.1.1.1 m.0
  unfolding extract_concept_relations ask_and_settle
  extract_concept_relations-Stores false source points attempts w = no_call refl
  extract_concept_relations-Stores true source points attempts w =
      let combined = combined_text python is_alnum points in
      elim (Bool-cases (is_empty (strip python combined))) [
        | inl e ↦ rw e (no_call refl)
        | inr e ↦
            let (attempt, attempts') = next_concept_attempt source attempts in
            rw e (
              settle_status-Stores store source (AcceptedFor (truncated combined) w)
                (length (truncated combined))
                (llm_extract_relations python definitions true (ask (truncated combined) w).0
                  attempt)
                attempts' (ask (truncated combined) w).1
                (λ product q.
                  (done-Accepted python definitions true (ask (truncated combined) w).0 attempt
                    product q).1))
      ]
