-- ===== src/Phases.antt =====
-- phases.py: the two graph phases of an ingestion, their results, and the deletion of their artefacts.
-- The handler's work, and the diary of the ingestion plugin, are parameters.
pub mod Laws
mod Examples
use cat_graphrag.Prelude.{
  ℕ, List, [], ◌∷◌, ◌≡◌, Bool, true, false, Option, none, some, if◌then◌else◌, is_empty, Outcome,
  ok, raised, Exec, pure, ◌>>=◌, ◌>>◌,
}
use cat_graphrag.Prelude.Keys.{Str, str_eq}
use cat_graphrag.Prelude.Texts.{codes}

-- _PHASE_CLASSES
pub data Phase : Type 0 where
  graph_spacy : Phase
  graph_concept : Phase

abbrev pub id_of : Phase → Str
id_of graph_spacy = codes "graph_spacy_extraction"
id_of graph_concept = codes "graph_llm_extraction"

-- What is given for a phase: a text, a mapping with the text at its "id", if any, or an object with
-- the text at its attribute `id`, if any.
pub data Given : Type 0 where
  text : Str → Given
  mapping : Option Str → Given
  attribute : Option Str → Given

-- _phase_id
unfoldable pub phase_id : Given → Option Str
phase_id (text s) = some s
phase_id (mapping candidate) = candidate
phase_id (attribute candidate) = candidate

abbrev pub class_of : Option Str → Option Phase
class_of none = none
class_of (some s) =
    if str_eq s (id_of graph_spacy)
    then some graph_spacy
    else if str_eq s (id_of graph_concept)
    then some graph_concept
    else none

-- phase_for
unfoldable pub phase_for : Given → Option Phase
unfolding phase_id
phase_for given = class_of (phase_id given)

-- _STATUSES
pub data Status : Type 0 where
  done : Status
  not_ready : Status
  error : Status
  skipped : Status

unfoldable pub status_of : Str → Option Status
status_of s =
    if str_eq s (codes "done")
    then some done
    else if str_eq s (codes "not_ready")
    then some not_ready
    else if str_eq s (codes "error")
    then some error
    else if str_eq s (codes "skipped")
    then some skipped
    else none

-- A value where a count may stand; `Z` is the type of integers.
pub data CountValue (Z : Type 0) : Type 0 where
  integer : Z → CountValue Z
  boolean : Bool → CountValue Z
  no_integer : CountValue Z

-- _as_count
unfoldable pub as_count : {Z : Type 0} → CountValue Z → Option Z
as_count (integer n) = some n
as_count (boolean b) = none
as_count no_integer = none

-- The reason of a result: the body's own, or one that is made here.
pub data Reason : Type 0 where
  given_reason : Option Str → Reason
  invalid_status : Reason
  no_status_dict : Reason
  backend_inactive : Reason

-- `V` is the type of warnings.
pub record PhaseResult (Z V : Type 0) : Type 0 where
  pub status : Status
  pub reason : Reason
  pub processed : Option Z
  pub expected : Option Z
  pub warnings : Option (List V)

-- What the body of a phase returns, which is never None; a `status` that is no text is a text that is no status.
pub data Raw (Z V : Type 0) : Type 0 where
  result : PhaseResult Z V → Raw Z V
  status_dict : Str → Option Str → CountValue Z → CountValue Z → List V → Raw Z V
  other : Raw Z V

-- raw.get("warnings") or None
abbrev pub or_none : {V : Type 0} → List V → Option (List V)
or_none [] = none
or_none (w ∷ ws) = some (w ∷ ws)

module _ {Z V : Type 0} where
  abbrev pub made : Status → Reason → PhaseResult Z V
  made s r = record { status = s; reason = r; processed = none; expected = none; warnings = none }

  -- _to_result
  unfoldable pub to_result : Raw Z V → PhaseResult Z V
  unfolding status_of as_count
  to_result (result r) = r
  to_result other = made error no_status_dict
  to_result (status_dict status reason processed expected warnings) = elim (status_of status) [
    | none ↦ made error invalid_status
    | some s ↦ record {
      status = s;
      reason = given_reason reason;
      processed = as_count processed;
      expected = as_count expected;
      warnings = or_none warnings;
    }
  ]

-- next(pid for pid in _PHASE_CLASSES if pid != phase_id)
abbrev pub sibling : Phase → Phase
sibling graph_spacy = graph_concept
sibling graph_concept = graph_spacy

-- The scope that the diary's deletion publishes, else the caller's id, else "agent".
unfoldable pub delete_scope : Option Str → Option Str → Str
delete_scope (some scope) caller = scope
delete_scope none (some (c ∷ s)) = c ∷ s
delete_scope none (some []) = codes "agent"
delete_scope none none = codes "agent"

-- The handler of the agent, where the graph backend is its vector memory, and the ingestion plugin,
-- where it is installed; `reset` drops the entries of one phase.
pub record Backend (W E Z V : Type 0) : Type 0 where
  pub is_active : Bool
  pub is_installed : Bool
  pub published_scope : Option Str
  pub caller_id : Option Str
  pub execute : Phase → Str → Exec W E (Raw Z V)
  pub purge : Str → Exec W E (Unit {0})
  pub reset : Str → Str → Str → Exec W E (Unit {0})

module _ {W E Z V : Type 0} (backend : Backend W E Z V) where
  -- _requeue_sibling_phase
  unfoldable pub requeue_sibling_phase : Phase → Str → Exec W E (Unit {0})
  unfolding delete_scope
  requeue_sibling_phase phase source =
      if backend.is_installed
      then backend.reset (delete_scope backend.published_scope backend.caller_id) source
          (id_of (sibling phase))
      else pure tt

  -- _GraphPhase.delete
  unfoldable pub delete : Phase → Str → Exec W E (Unit {0})
  unfolding requeue_sibling_phase
  delete phase source =
      if backend.is_active
      then backend.purge source >> requeue_sibling_phase phase source
      else pure tt

  -- delete_phase
  unfoldable pub delete_phase : Given → Str → Exec W E (Unit {0})
  unfolding phase_for delete
  delete_phase given source = elim (phase_for given) [
    | none ↦ pure tt
    | some phase ↦ delete phase source
  ]

  -- GraphSpacyPhase.process and GraphConceptPhase.process
  unfoldable pub process : Phase → Str → Exec W E (PhaseResult Z V)
  unfolding to_result
  process phase source =
      if backend.is_active
      then (backend.execute phase source >>= (λ raw. pure (to_result raw)))
      else pure (made skipped backend_inactive)
