-- ===== src/Bodies/Laws.antt =====
-- What a spaCy phase that reports a number of items has written.
use mathlib.Core.Path.{subst}
use cat_graphrag.Prelude.{
  ℕ, ◌+◌, List, [], ◌∷◌, ◌++◌, map, ◌≡◌, refl, sym, ap, ◌∙◌, Bool, true, false, ◌&&◌, Option, none,
  some, is_empty, filter_by, if◌then◌else◌, length, Outcome, ok, raised, Exec, continue, pure,
  ◌>>=◌, for_each, logged, Bool-cases, inl, inr,
}
use cat_graphrag.Prelude.Keys.{Str, str_key}
use cat_graphrag.Prelude.Dict.{lookup}
use cat_graphrag.Drain.{Pending, Batch, Job, jobs_of, drain_source_tasks_counted}
use cat_graphrag.Drain.Laws.{Drained, complete, whole_batch, drain_source_tasks_counted-Drained}
use cat_graphrag.Bodies.{
  Stored, SpacyStatus, finished, nothing_found, on_second, all_points, has_content, total_chars,
  items, gather_extractions, write_gathered, after_points, similar_if, with_points,
  run_spacy_extraction_phase,
}

-- A coroutine that leaves the log of the writes alone.
abbrev pub unlogged : {W L E A : Type 0} → Exec W E A → Exec (W × L) E A
unlogged m (w, log) = let (r, w') = m w in (r, (w', log))

-- What the reported number of processed items has to do with the writes: it is the number of items of
-- the last write; or it is 0, with the warning that nothing was found; or there is none.
pub data Written {A M R E : Type 0} (log : List (Batch A M R))
    : Outcome E SpacyStatus → Type 0 where
  counted :
      (before : List (Batch A M R)) (b : Batch A M R)
      → log ≡ before ++ b ∷ []
      → Written log (ok (finished (some (items b))))
  uncounted : Written log (ok (finished none))
  empty : (chars chunks : ℕ) → Written log (ok (nothing_found 0 chars chunks))
  missing : Written log (ok SpacyStatus.no_points)
  failed : {e : E} → Written log (raised e)

module _ {A M R : Type 0} where
  -- The counts of a drain are those of the last write.
  abbrev Counts : List (Batch A M R) → Option (ℕ × ℕ) → Type 0
  Counts log none = Unit
  Counts log (some (n, m)) =
      (before : List (Batch A M R)) × (b : Batch A M R) × (log ≡ before ++ b ∷ [])
      × (n ≡ length b.entities)
      × (m ≡ length b.relations)

module _ {L W E : Type 0} where
  abbrev Quiet : {A : Type 0} → Exec (W × L) E A → Type 0
  Quiet m = (s : W × L) → (m s).1.1 ≡ s.1

  continue-Quiet :
      {A B : Type 0} (f : A → Exec (W × L) E B)
      → ((a : A) → Quiet (f a))
      → (r : Outcome E A × (W × L)) (l : L) → r.1.1 ≡ l
      → (continue r.0 f r.1).1.1 ≡ l
  continue-Quiet f k (ok a, s) l e = k a s ∙ e
  continue-Quiet f k (raised x, s) l e = e

  for_each-Quiet :
      {A : Type 0} (body : A → Exec (W × L) E (Unit {0})) (xs : List A)
      → ((a : A) → Quiet (body a))
      → Quiet (for_each body xs)
  unfolding for_each
  for_each-Quiet body [] k = λ s. refl
  for_each-Quiet body (x ∷ xs) k = λ s.
      continue-Quiet (λ _. for_each body xs) (λ _. for_each-Quiet body xs k) (body x s) s.1 (k x s)

module _ {A M R W E Vector Meta : Type 0}
    (extract_graph : Stored Vector Meta → Outcome E (Option (Batch A M R)))
    (first_raised : E → List E → E) (write : Batch A M R → Exec W E (Unit {0})) where
  write_gathered-Written :
      (chars chunks : ℕ) (b : Batch A M R) (s : W × List (Batch A M R))
      → let m = write_gathered extract_graph first_raised (logged write) chars chunks b s in
        Written m.1.1 m.0
  unfolding write_gathered
  write_gathered-Written chars chunks b (w, log) =
      elim (Bool-cases (is_empty b.entities && is_empty b.relations)) [
        | inl e ↦ rw e (empty chars chunks)
        | inr e ↦ rw e (after (write b w))
      ]
    where
      after :
          (r : Outcome E (Unit {0}) × W)
          → let m =
              continue {S = W × List (Batch A M R)} r.0
                (λ _. pure (finished (some (items b))))
                (r.1, log ++ b ∷ []) in
            Written {E = E} m.1.1 m.0
      after (ok _, w') = counted log b refl
      after (raised x, w') = failed

  after_points-Written :
      (enabled : Bool) (drained : Option (ℕ × ℕ)) (points : List (Stored Vector Meta))
      (s : W × List (Batch A M R))
      → Counts s.1 drained
      → let m = after_points extract_graph first_raised (logged write) enabled drained points s in
        Written m.1.1 m.0
  unfolding after_points
  after_points-Written enabled (some (n, m)) points (w, log) (before, b, e, en, em) =
      subst (λ k. Written {E = E} log (ok (finished (some k))))
        (ap (λ x. x + length b.relations) (sym en) ∙ ap (λ x. n + x) (sym em)) (counted before b e)
  after_points-Written false none points s c = uncounted
  after_points-Written true none points s c =
      gathered (
        gather_extractions extract_graph first_raised (logged write) (filter_by has_content points))
    where
      gathered :
          (r : Outcome E (Batch A M R))
          → let m =
              continue r
                (write_gathered extract_graph first_raised
                  (logged write)
                  (total_chars (filter_by has_content points))
                  (length (filter_by has_content points)))
                s in
            Written {E = E} m.1.1 m.0
      gathered (ok b) = write_gathered-Written _ _ b s
      gathered (raised x) = failed

abbrev pub quiet_points : {W L E A : Type 0} → (Str → Exec W E A) → Str → Exec (W × L) E A
quiet_points points source = unlogged (points source)

abbrev pub quiet_similar :
    {V W L E : Type 0}
    → (Str → V → Str → Exec W E (Unit {0}))
    → Str
    → V
    → Str
    → Exec (W × L) E (Unit {0})
quiet_similar similar id vector collection = unlogged (similar id vector collection)

module _ {A M R W E Vector Meta : Type 0}
    (points : Str → Exec W E (List (Str × List (Stored Vector Meta))))
    (is_valid_vector : Vector → Bool) (similar : Str → Vector → Str → Exec W E (Unit {0}))
    (extract_graph : Stored Vector Meta → Outcome E (Option (Batch A M R)))
    (first_raised : E → List E → E) (write : Batch A M R → Exec W E (Unit {0})) where
  similar_if-Quiet :
      (p : Str × Stored Vector Meta)
      → Quiet (
          similar_if
            (quiet_points points)
            is_valid_vector
            (quiet_similar similar)
            extract_graph
            first_raised
            (logged write)
            p)
  similar_if-Quiet (collection, p) = at p.vector
    where
      at :
          (v : Option Vector)
          → Quiet {L = List (Batch A M R)} {W = W} {E = E} (elim v [
            | none ↦ pure tt
            | some vector ↦
                if is_valid_vector vector
                then quiet_similar similar p.id vector collection
                else pure tt
          ])
      at none = λ s. refl
      at (some vector) = elim (Bool-cases (is_valid_vector vector)) [
        | inl valid ↦ rw valid (λ s. refl)
        | inr invalid ↦ rw invalid (λ s. refl)
      ]

  with_points-Written :
      (enabled : Bool) (drained : Option (ℕ × ℕ))
      (by_collection : List (Str × List (Stored Vector Meta))) (s : W × List (Batch A M R))
      → Counts s.1 drained
      → let m =
          with_points
            (quiet_points points)
            is_valid_vector
            (quiet_similar similar)
            extract_graph
            first_raised
            (logged write)
            enabled
            drained
            by_collection
            s in
        Written m.1.1 m.0
  unfolding with_points
  with_points-Written enabled drained [] s c = missing
  with_points-Written enabled drained (x ∷ xs) s c =
      let found = all_points (x ∷ xs) in
      let body =
        similar_if (quiet_points points) is_valid_vector (quiet_similar similar) extract_graph
          first_raised (logged write) in
      after (for_each body found s) (for_each-Quiet body found similar_if-Quiet s)
    where
      after :
          (r : Outcome E (Unit {0}) × (W × List (Batch A M R)))
          → r.1.1 ≡ s.1
          → let m =
              continue r.0
                (λ _.
                  after_points extract_graph first_raised
                    (logged write)
                    enabled
                    drained
                    (map (λ cp. cp.1) (all_points (x ∷ xs))))
                r.1 in
            Written {E = E} m.1.1 m.0
      after (ok _, s') e =
          after_points-Written extract_graph first_raised write enabled drained
            (map (λ cp. cp.1) (all_points (x ∷ xs))) s' (subst (λ l. Counts l drained) (sym e) c)
      after (raised y, s') e = failed

  Counts-Drained :
      (jobs : List (Job A M R)) (log : List (Batch A M R)) (drained : Option (ℕ × ℕ))
      → Drained {E = E} jobs log (ok drained)
      → Counts log drained
  Counts-Drained jobs log none d = tt
  Counts-Drained jobs log (some (n, m)) (complete e lost) = ([], whole_batch jobs, e, refl, refl)

  -- A spaCy phase that starts with no write and reports a number of processed items, of its own or of
  -- the tasks that it drained, has just written a batch with that many entities and relations, or
  -- reports 0 items with the warning that nothing was found, whatever the store, the vectors and the
  -- other calls do.
  pub run_spacy_extraction_phase-Written :
      (enabled : Bool) (source : Str) (p : Pending A M R) (w : W)
      → let m =
          run_spacy_extraction_phase
            (quiet_points points)
            is_valid_vector
            (quiet_similar similar)
            extract_graph
            first_raised
            (logged write)
            enabled
            source
            (p, (w, [])) in
        Written m.1.1.1 m.0
  unfolding run_spacy_extraction_phase
  run_spacy_extraction_phase-Written enabled source p w =
      drained_then (drain_source_tasks_counted (logged write) source (p, (w, [])))
        (drain_source_tasks_counted-Drained write source p w)
    where
      points_then :
          (drained : Option (ℕ × ℕ)) (p : Pending A M R) (log : List (Batch A M R))
          (r : Outcome E (List (Str × List (Stored Vector Meta))) × W)
          → Counts log drained
          → let m =
              continue {S = W × List (Batch A M R)} r.0
                (with_points
                  (quiet_points points)
                  is_valid_vector
                  (quiet_similar similar)
                  extract_graph
                  first_raised
                  (logged write)
                  enabled
                  drained)
                (r.1, log) in
            Written m.1.1 m.0
      points_then drained p log (ok by_collection, w') c =
          with_points-Written enabled drained by_collection (w', log) c
      points_then drained p log (raised x, w') c = failed

      drained_then :
          (r : Outcome E (Option (ℕ × ℕ)) × (Pending A M R × (W × List (Batch A M R))))
          → Drained (jobs_of (lookup source p.by_source)) r.1.1.1 r.0
          → let m =
              continue r.0
                (λ drained. on_second (
                  (quiet_points points source)
                  >>= with_points
                      (quiet_points points)
                      is_valid_vector
                      (quiet_similar similar)
                      extract_graph
                      first_raised
                      (logged write)
                      enabled
                      drained))
                r.1 in
            Written m.1.1.1 m.0
      drained_then (ok drained, (p', (w', log))) d =
          points_then drained p' log (points source w')
            (Counts-Drained (jobs_of (lookup source p.by_source)) log drained d)
      drained_then (raised x, s) d = failed
