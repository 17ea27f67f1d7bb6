-- ===== src/Drain/Examples.antt =====
-- Tests and instances for the background tasks of a source.
use cat_graphrag.Prelude.{
  ℕ, ◌+◌, [], ◌∷◌, ◌≡◌, refl, Bool, true, false, none, some, if◌then◌else◌, length, ok, Exec,
  logged,
}
use cat_graphrag.Prelude.Keys.{Str, str_key, str_eq}
use cat_graphrag.Prelude.Texts.{codes}
use cat_graphrag.Prelude.Dict.{lookup}
use cat_graphrag.Drain.{
  Result, extracted, other_value, failed, Job, Pending, Batch, jobs_of, track_source_task,
  drop_source_tasks, has_pending_source_tasks, drain_source_tasks_counted,
}
use cat_graphrag.Drain.Laws.{
  Drained, drain_source_tasks_counted-Drained, lookup-drain_source_tasks_counted,
}

abbrev job : ℕ → Bool → Result ℕ ℕ ℕ → Job ℕ ℕ ℕ
job n similarity r = record { number = n; is_similarity = similarity; is_done = true; result = r }

abbrev doc : Str
doc = codes "doc"

-- Two extractions and a similarity task that failed.
abbrev pending : Pending ℕ ℕ ℕ
pending = record {
  by_source =
      (
        doc,
        job 1 false (extracted (7 ∷ []) [] (8 ∷ []))
            ∷ job 2 true failed
            ∷ job 3 false (extracted (9 ∷ []) [] [])
            ∷ [],
      )
      ∷ [];
  flat = job 1 false other_value ∷ job 5 false other_value ∷ [];
}

abbrev write : Batch ℕ ℕ ℕ → Exec ℕ ℕ (Unit {0})
write b n = (ok tt, n + length b.entities)

counts : (drain_source_tasks_counted write doc (pending, 0)).0 ≡ ok (some (2, 1))
unfolding drain_source_tasks_counted
counts = refl

finished : has_pending_source_tasks doc pending ≡ false
unfolding has_pending_source_tasks
finished = refl

tracked :
    jobs_of (
      lookup doc
        (track_source_task
          (some doc)
          (job 1 false failed)
          (drop_source_tasks (some doc) pending)).by_source)
    ≡ job 1 false failed ∷ []
unfolding track_source_task drop_source_tasks
tracked = refl

drain_source_tasks_counted-Drained_example :
    let m = drain_source_tasks_counted (logged write) doc (pending, (0, [])) in
    Drained (jobs_of (lookup doc pending.by_source)) m.1.1.1 m.0
drain_source_tasks_counted-Drained_example = drain_source_tasks_counted-Drained write doc pending 0

lookup-drain_source_tasks_counted_example :
    lookup doc (drain_source_tasks_counted write doc (pending, 0)).1.0.by_source
    ≡ (if str_eq doc doc then none else lookup doc pending.by_source)
lookup-drain_source_tasks_counted_example =
    lookup-drain_source_tasks_counted write doc doc pending 0
