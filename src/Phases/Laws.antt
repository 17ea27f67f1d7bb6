-- ===== src/Phases/Laws.antt =====
-- What the deletion of a phase's artefacts does, and when a phase is done.
use mathlib.Core.Path.{subst}
use cat_graphrag.Prelude.{
  List, [], ◌∷◌, ◌++◌, ◌≡◌, refl, sym, ap, ◌∙◌, Bool, true, some, if◌then◌else◌, Outcome, ok,
  raised, continue, pure, ◌>>◌, Bool-cases, Option-cases, inl, inr, arith,
}
use cat_graphrag.Prelude.Keys.{Str}
use cat_graphrag.Phases.{
  Phase, id_of, sibling, done, Raw, result, status_dict, other, status_of, PhaseResult, to_result,
  delete_scope, Backend, requeue_sibling_phase, delete, process,
}

-- The body's own word that it is done.
abbrev pub SaysDone : {Z V : Type 0} → Raw Z V → Type 0
SaysDone (result r) = r.status ≡ done
SaysDone (status_dict s _ _ _ _) = status_of s ≡ some done
SaysDone other = ⊥

says_done : {Z V : Type 0} (raw : Raw Z V) → (to_result raw).status ≡ done → SaysDone raw
unfolding to_result
says_done (result r) h = h
says_done (status_dict s reason processed expected warnings) h = elim (Option-cases (status_of s)) [
  | inl e ↦ absurd (ground arith)
  | inr (x, e) ↦ ground arith
]
says_done other h = absurd (ground arith)

-- What a deletion does: the graph of a source is purged, or the entry of a phase is dropped from the
-- diary, in a scope.
pub data Event : Type 0 where
  purged : Str → Event
  dropped : Str → Str → Str → Event

module _ {W E Z V : Type 0} (backend : Backend W E Z V) where
  -- The same backend, with its events kept beside the state.
  abbrev pub observed : Backend (W × List Event) E Z V
  observed = record {
    is_active = backend.is_active;
    is_installed = backend.is_installed;
    published_scope = backend.published_scope;
    caller_id = backend.caller_id;
    execute = λ phase source (w, events).
        let (r, w') = backend.execute phase source w in (r, (w', events));
    purge = λ source (w, events).
        let (r, w') = backend.purge source w in (r, (w', events ++ purged source ∷ []));
    reset = λ scope source id (w, events).
        let (r, w') = backend.reset scope source id w in
        (r, (w', events ++ dropped scope source id ∷ []));
  }

  -- How a deletion that starts at `w` ends, where the backend is active and the plugin is installed.
  -- The purge raises `e`: then the deletion raises it, and the diary is not touched. Or the purge
  -- returns: then the entry of the sibling is dropped in the world that the purge has left, and the
  -- deletion ends as that ends.
  pub data Deleted (phase : Phase) (source : Str) (w : W)
      : List Event → Outcome E (Unit {0}) × W → Type 0 where
    purge_raised :
        {e : E} {w' : W}
        → backend.purge source w ≡ (raised e, w')
        → Deleted phase source w (purged source ∷ []) (raised e, w')
    requeued :
        {w' : W}
        → backend.purge source w ≡ (ok tt, w')
        → Deleted phase source w
            (purged source
              ∷ dropped
                  (delete_scope backend.published_scope backend.caller_id)
                  source
                  (id_of (sibling phase))
              ∷ [])
            (backend.reset
              (delete_scope backend.published_scope backend.caller_id)
              source
              (id_of (sibling phase))
              w')

module _ {W E Z V : Type 0} (backend : Backend W E Z V) where
  -- With an active backend and the ingestion plugin: deleting a phase's artefacts purges the source's
  -- graph first. Where the purge raises, so does the deletion, and no entry of the diary is dropped;
  -- where it returns, the entry of the other phase is dropped, and the deletion ends as that ends.
  pub delete-Deleted :
      (phase : Phase) (source : Str) (w : W)
      → backend.is_active ≡ true
      → backend.is_installed ≡ true
      → let m = delete (observed backend) phase source (w, []) in
        Deleted backend phase source w m.1.1 (m.0, m.1.0)
  unfolding delete requeue_sibling_phase
  delete-Deleted phase source w active installed =
      let both =
        (observed backend).purge source >> requeue_sibling_phase (observed backend) phase source in
      let run = ap (λ (b : Bool). (if b then both else pure tt) (w, [])) active in
      subst (λ m. Deleted backend phase source w m.1.1 (m.0, m.1.0)) (sym run)
        (after (backend.purge source w) refl)
    where
      after :
          (m : Outcome E (Unit {0}) × W)
          → backend.purge source w ≡ m
          → let n =
              continue m.0
                (λ _. requeue_sibling_phase (observed backend) phase source)
                (m.1, purged source ∷ []) in
            Deleted backend phase source w n.1.1 (n.0, n.1.0)
      after (ok _, w') q =
          let drop_it =
            (observed backend).reset (delete_scope backend.published_scope backend.caller_id) source
              (id_of (sibling phase)) in
          let run =
            ap (λ (b : Bool). (if b then drop_it else pure tt) (w', purged source ∷ []))
              installed in
          subst (λ m. Deleted backend phase source w m.1.1 (m.0, m.1.0)) (sym run) (requeued q)
      after (raised x, w') q = purge_raised q

  -- A phase is done only where the backend is active and the body of the phase says so itself.
  pub process-done :
      (phase : Phase) (source : Str) (w w' : W) (r : PhaseResult Z V)
      → process backend phase source w ≡ (ok r, w')
      → r.status ≡ done
      → (backend.is_active ≡ true)
        × (raw : Raw Z V) × (backend.execute phase source w ≡ (ok raw, w'))
        × SaysDone raw
  unfolding process
  process-done phase source w w' r e d = elim (Bool-cases backend.is_active) [
    | inl active ↦
        let ran : continue (backend.execute phase source w).0 (λ raw. pure (to_result raw))
              (backend.execute phase source w).1
            ≡ (ok r, w') =
          ground arith in
        let (raw, q, says) = after (backend.execute phase source w) ran in (active, raw, q, says)
    | inr idle ↦ absurd (ground arith)
  ]
    where
      after :
          (m : Outcome E (Raw Z V) × W)
          → continue m.0 (λ raw. pure (to_result raw)) m.1 ≡ (ok r, w')
          → (raw : Raw Z V) × (m ≡ (ok raw, w')) × SaysDone raw
      after (ok raw, v) q =
          let same : to_result raw ≡ r = ground arith in
          let state : v ≡ w' = ground arith in
          (
            raw,
            ap (λ x. (ok raw, x)) state,
            says_done raw (ap (λ (x : PhaseResult Z V). x.status) same ∙ d),
          )
      after (raised x, v) q = absurd (ground arith)
