-- ===== src/Drain/Laws.antt =====
-- What draining a source writes and returns. The writes are kept beside the state.
use mathlib.Core.Path.{subst}
use cat_graphrag.Prelude.{
  ℕ, suc, ◌+◌, ◌<◌, List, [], ◌∷◌, ◌++◌, append_assoc, append-nil, ◌≡◌, refl, sym, ap, ◌∙◌, Bool,
  true, false, ◌&&◌, is_empty, Option, none, some, map, concat, if◌then◌else◌, ◌==◌, length,
  Outcome, ok, raised, Exec, logged, Bool-cases, inl, inr, arith,
}
use cat_graphrag.Prelude.Keys.{Str, str_key, str_eq}
use cat_graphrag.Prelude.Dict.{lookup, lookup-remove}
use cat_graphrag.Drain.{
  Result, extracted, other_value, failed, Job, Pending, Batch, jobs_of, no_batch, add_result,
  gather_results, counts_unless, written, flush, popped, drain_jobs, drain_source_tasks_counted,
}

module _ {A M R : Type 0} where
  abbrev pub entities_in : Result A M R → List A
  entities_in (extracted es ms rs) = es
  entities_in other_value = []
  entities_in failed = []

  abbrev pub relations_in : Result A M R → List R
  relations_in (extracted es ms rs) = rs
  relations_in other_value = []
  relations_in failed = []

  abbrev pub mentions_in : Result A M R → List M
  mentions_in (extracted es ms rs) = ms
  mentions_in other_value = []
  mentions_in failed = []

  abbrev pub lost_one : Bool → Result A M R → ℕ
  lost_one is_similarity failed = if is_similarity then 0 else 1
  lost_one is_similarity other_value = 0
  lost_one is_similarity (extracted es ms rs) = 0

  -- The jobs, other than similarity, that ended in an exception.
  abbrev pub lost_jobs : List (Job A M R) → ℕ
  lost_jobs [] = 0
  lost_jobs (job ∷ jobs) = lost_one job.is_similarity job.result + lost_jobs jobs

  -- All that the jobs extracted, in their order.
  abbrev pub whole_batch : List (Job A M R) → Batch A M R
  whole_batch jobs = record {
    entities = concat (map (λ job. entities_in job.result) jobs);
    mentions = concat (map (λ job. mentions_in job.result) jobs);
    relations = concat (map (λ job. relations_in job.result) jobs);
  }

  abbrev joined : Batch A M R → Batch A M R → Batch A M R
  joined a b = record {
    entities = a.entities ++ b.entities;
    mentions = a.mentions ++ b.mentions;
    relations = a.relations ++ b.relations;
  }

  abbrev Gathers : Batch A M R × ℕ → List (Job A M R) → Batch A M R → ℕ → Type 0
  Gathers acc jobs b n = ((gather_results acc jobs).0 ≡ b) × ((gather_results acc jobs).1 ≡ n)

  gather_step :
      (b : Batch A M R) (n : ℕ) (jobs : List (Job A M R)) (r : Result A M R) (s : Bool)
      → ((b : Batch A M R) (n : ℕ)
          → Gathers (b, n) jobs (joined b (whole_batch jobs)) (n + lost_jobs jobs))
      → let rest = whole_batch jobs in
        Gathers
          (add_result s r (b, n))
          jobs
          (joined b (record {
            entities = entities_in r ++ rest.entities;
            mentions = mentions_in r ++ rest.mentions;
            relations = relations_in r ++ rest.relations;
          }))
          (n + (lost_one s r + lost_jobs jobs))
  gather_step b n jobs other_value s h = let ih = h b n in (ih.0, omega (arith, ih.1))
  gather_step b n jobs failed true h = let ih = h b n in (ih.0, omega (arith, ih.1))
  gather_step b n jobs failed false h = let ih = h b (suc n) in (ih.0, omega (arith, ih.1))
  gather_step b n jobs (extracted es ms rs) s h =
      let rest = whole_batch jobs in
      let ih =
        h
          (record {
            entities = b.entities ++ es;
            mentions = b.mentions ++ ms;
            relations = b.relations ++ rs;
          })
          n in
      (
        ih.0
            ∙ rw
                (
                  append_assoc b.entities es rest.entities,
                  append_assoc b.mentions ms rest.mentions,
                  append_assoc b.relations rs rest.relations,
                )
                refl,
        omega (arith, ih.1),
      )

  gather_results_lem :
      (jobs : List (Job A M R)) (b : Batch A M R) (n : ℕ)
      → Gathers (b, n) jobs (joined b (whole_batch jobs)) (n + lost_jobs jobs)
  unfolding gather_results
  gather_results_lem [] b n =
      (rw (append-nil b.entities, append-nil b.mentions, append-nil b.relations) refl, omega arith)
  gather_results_lem (job ∷ jobs) b n =
      gather_step b n jobs job.result job.is_similarity (gather_results_lem jobs)

  -- How draining ended: nothing to write, so no write; or one write of the batch, and its counts are
  -- returned only where no extraction was lost; or the error of that write.
  pub data Drained {E : Type 0} (jobs : List (Job A M R)) (writes : List (Batch A M R))
      : Outcome E (Option (ℕ × ℕ)) → Type 0 where
    nothing :
        writes ≡ []
        → (is_empty (whole_batch jobs).entities && is_empty (whole_batch jobs).relations) ≡ true
        → Drained jobs writes (ok none)
    complete :
        writes ≡ whole_batch jobs ∷ []
        → lost_jobs jobs ≡ 0
        → Drained jobs writes
            (ok (some (length (whole_batch jobs).entities, length (whole_batch jobs).relations)))
    incomplete : writes ≡ whole_batch jobs ∷ [] → 0 < lost_jobs jobs → Drained jobs writes (ok none)
    broken : {e : E} → writes ≡ whole_batch jobs ∷ [] → Drained jobs writes (raised e)

counted :
    {A M R W E : Type 0} (write : Batch A M R → Exec W E (Unit {0})) (jobs : List (Job A M R))
    (n : ℕ)
    → n ≡ lost_jobs jobs
    → Drained {E = E} jobs (whole_batch jobs ∷ []) (ok (counts_unless write n (whole_batch jobs)))
counted write jobs n en = elim (Bool-cases (n == 0)) [
  | inl e ↦ rw e (complete refl (ground arith))
  | inr e ↦ rw e (incomplete refl (ground arith))
]

module _ {A M R W E : Type 0} (write : Batch A M R → Exec W E (Unit {0})) where
  flush-Drained :
      (jobs : List (Job A M R)) (acc : Batch A M R × ℕ) (p : Pending A M R) (w : W)
      → acc.0 ≡ whole_batch jobs
      → acc.1 ≡ lost_jobs jobs
      → let m = flush (logged write) acc (p, (w, [])) in Drained jobs m.1.1.1 m.0
  unfolding flush
  flush-Drained jobs (b, n) p w eb en =
      elim (Bool-cases (is_empty b.entities && is_empty b.relations)) [
        | inl e ↦ rw e (
            nothing refl
              (sym (ap (λ (x : Batch A M R). is_empty x.entities && is_empty x.relations) eb) ∙ e))
        | inr e ↦ rw e (after (write b w) refl)
      ]
    where
      after :
          (m : Outcome E (Unit {0}) × W)
          → write b w ≡ m
          → let r = logged write b (w, []) in Drained jobs r.1.1 (written (logged write) n b r.0)
      after (ok _, w') q = rw q (
          subst (λ x. Drained {E = E} jobs (x ∷ []) (ok (counts_unless (logged write) n x)))
            (sym eb) (counted (logged write) jobs n en))
      after (raised x, w') q = rw q (broken (ap (λ c. c ∷ []) eb))

  drain_jobs-Drained :
      (source : Str) (jobs : List (Job A M R)) (p : Pending A M R) (w : W)
      → let m = drain_jobs (logged write) source jobs (p, (w, [])) in Drained jobs m.1.1.1 m.0
  drain_jobs-Drained source [] p w = nothing refl refl
  drain_jobs-Drained source (job ∷ jobs) p w =
      let all_of_it = gather_results_lem (job ∷ jobs) no_batch 0 in
      flush-Drained (job ∷ jobs) (gather_results (no_batch, 0) (job ∷ jobs))
        (popped (logged write) source (job ∷ jobs) p) w all_of_it.0 (omega (arith, all_of_it.1))

  -- Draining a source writes at most once, all that its tasks extracted in their order, and returns
  -- the counts only where no extraction failed.
  pub drain_source_tasks_counted-Drained :
      (source : Str) (p : Pending A M R) (w : W)
      → let m = drain_source_tasks_counted (logged write) source (p, (w, [])) in
        Drained (jobs_of (lookup source p.by_source)) m.1.1.1 m.0
  unfolding drain_source_tasks_counted
  drain_source_tasks_counted-Drained source p w =
      drain_jobs-Drained source (jobs_of (lookup source p.by_source)) p w

  flush-state :
      (acc : Batch A M R × ℕ) (p : Pending A M R) (w : W) → (flush write acc (p, w)).1.0 ≡ p
  unfolding flush
  flush-state (b, n) p w = elim (Bool-cases (is_empty b.entities && is_empty b.relations)) [
    | inl e ↦ rw e refl
    | inr e ↦ rw e refl
  ]

  drain_jobs-state :
      (source other : Str) (jobs : List (Job A M R)) (p : Pending A M R) (w : W)
      → lookup other (drain_jobs write source jobs (p, w)).1.0.by_source
        ≡ (if str_eq source other then none else lookup other p.by_source)
  unfolding popped
  drain_jobs-state source other [] p w = lookup-remove source other p.by_source
  drain_jobs-state source other (job ∷ jobs) p w =
      ap (λ (q : Pending A M R). lookup other q.by_source)
        (flush-state (gather_results (no_batch, 0) (job ∷ jobs))
          (popped write source (job ∷ jobs) p) w)
      ∙ lookup-remove source other p.by_source

  -- After a drain the source has no task, whatever the write does, and the other sources have theirs.
  pub lookup-drain_source_tasks_counted :
      (source other : Str) (p : Pending A M R) (w : W)
      → lookup other (drain_source_tasks_counted write source (p, w)).1.0.by_source
        ≡ (if str_eq source other then none else lookup other p.by_source)
  unfolding drain_source_tasks_counted
  lookup-drain_source_tasks_counted source other p w =
      drain_jobs-state source other (jobs_of (lookup source p.by_source)) p w
