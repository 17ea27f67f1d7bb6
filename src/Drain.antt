-- ===== src/Drain.antt =====
-- The background tasks of a source in graphrag_handler.py: tracked, dropped, and drained into one
-- write of the source's graph. A finished task keeps its result until it is drained.
pub mod Laws
mod Examples
use cat_graphrag.Prelude.{
  ℕ, suc, List, [], ◌∷◌, ◌++◌, ◌≡◌, Bool, true, false, ◌&&◌, ◌||◌, not, is_empty, Option, none,
  some, if◌then◌else◌, ◌==◌, length, Outcome, ok, raised, Exec,
}
use cat_graphrag.Prelude.Keys.{Str, str_key}
use cat_graphrag.Prelude.Dict.{Dict, lookup, put, remove}

-- What a task ends with: the lists of an extraction, any other value, or an exception (a cancelled
-- task among them). `A`, `M` and `R` are entities, mentions and relations.
pub data Result (A M R : Type 0) : Type 0 where
  extracted : List A → List M → List R → Result A M R
  other_value : Result A M R
  failed : Result A M R

pub record Job (A M R : Type 0) : Type 0 where
  pub number : ℕ
  pub is_similarity : Bool
  pub is_done : Bool
  pub result : Result A M R

-- _pending_source_tasks and _pending_entity_tasks
pub record Pending (A M R : Type 0) : Type 0 where
  pub by_source : Dict Str (List (Job A M R))
  pub flat : List (Job A M R)

-- What is gathered of the results.
pub record Batch (A M R : Type 0) : Type 0 where
  pub entities : List A
  pub mentions : List M
  pub relations : List R

module _ {A M R : Type 0} where
  abbrev pub jobs_of : Option (List (Job A M R)) → List (Job A M R)
  jobs_of none = []
  jobs_of (some jobs) = jobs

  -- _track_source_task; an absent or empty source is not tracked
  unfoldable pub track_source_task : Option Str → Job A M R → Pending A M R → Pending A M R
  unfolding lookup put
  track_source_task none job p = p
  track_source_task (some []) job p = p
  track_source_task (some (c ∷ s)) job p = record p {
    by_source = put (c ∷ s) (jobs_of (lookup (c ∷ s) p.by_source) ++ job ∷ []) p.by_source;
  }

  -- _drop_source_tasks
  unfoldable pub drop_source_tasks : Option Str → Pending A M R → Pending A M R
  unfolding remove
  drop_source_tasks none p = p
  drop_source_tasks (some []) p = p
  drop_source_tasks (some (c ∷ s)) p = record p { by_source = remove (c ∷ s) p.by_source }

  abbrev pub any_live : List (Job A M R) → Bool
  any_live [] = false
  any_live (job ∷ jobs) = not job.is_done || any_live jobs

  -- has_pending_source_tasks
  unfoldable pub has_pending_source_tasks : Str → Pending A M R → Bool
  unfolding lookup
  has_pending_source_tasks source p = any_live (jobs_of (lookup source p.by_source))

  abbrev pub is_among : ℕ → List (Job A M R) → Bool
  is_among n [] = false
  is_among n (job ∷ jobs) = job.number == n || is_among n jobs

  -- [t for t in flat if t not in tasks]
  unfoldable pub without : List (Job A M R) → List (Job A M R) → List (Job A M R)
  without jobs [] = []
  without jobs (t ∷ ts) =
      let rest = without jobs ts in if is_among t.number jobs then rest else t ∷ rest

  abbrev pub no_batch : Batch A M R
  no_batch = record { entities = []; mentions = []; relations = [] }

  abbrev pub add_result : Bool → Result A M R → Batch A M R × ℕ → Batch A M R × ℕ
  add_result is_similarity failed (b, n) = if is_similarity then (b, n) else (b, suc n)
  add_result is_similarity other_value (b, n) = (b, n)
  add_result is_similarity (extracted es ms rs) (b, n) = (
    record {
      entities = b.entities ++ es;
      mentions = b.mentions ++ ms;
      relations = b.relations ++ rs;
    },
    n,
  )

  -- The loop over the gathered results, with the number of extractions that failed.
  unfoldable pub gather_results : Batch A M R × ℕ → List (Job A M R) → Batch A M R × ℕ
  gather_results acc [] = acc
  gather_results acc (job ∷ jobs) =
      gather_results (add_result job.is_similarity job.result acc) jobs

module _ {A M R W E : Type 0} (write : Batch A M R → Exec W E (Unit {0})) where
  abbrev pub counts_unless : ℕ → Batch A M R → Option (ℕ × ℕ)
  counts_unless n b = if n == 0 then some (length b.entities, length b.relations) else none

  abbrev pub written : ℕ → Batch A M R → Outcome E (Unit {0}) → Outcome E (Option (ℕ × ℕ))
  written n b (ok _) = ok (counts_unless n b)
  written n b (raised e) = raised e

  unfoldable pub flush : Batch A M R × ℕ → Exec (Pending A M R × W) E (Option (ℕ × ℕ))
  flush (b, n) (p, w) =
      if is_empty b.entities && is_empty b.relations
      then (ok none, (p, w))
      else let (r, w') = write b w in (written n b r, (p, w'))

  -- The tasks popped off both lists.
  unfoldable pub popped : Str → List (Job A M R) → Pending A M R → Pending A M R
  unfolding remove without
  popped source jobs p = record {
    by_source = remove source p.by_source;
    flat = without jobs p.flat;
  }

  abbrev pub drain_jobs : Str → List (Job A M R) → Exec (Pending A M R × W) E (Option (ℕ × ℕ))
  drain_jobs source [] (p, w) = (ok none, (record p { by_source = remove source p.by_source }, w))
  drain_jobs source (job ∷ jobs) (p, w) =
      flush (gather_results (no_batch, 0) (job ∷ jobs)) (popped source (job ∷ jobs) p, w)

  -- _drain_source_tasks_counted, and drain_source_tasks, which tells whether there are counts
  unfoldable pub drain_source_tasks_counted : Str → Exec (Pending A M R × W) E (Option (ℕ × ℕ))
  unfolding flush popped gather_results lookup remove
  drain_source_tasks_counted source (p, w) =
      drain_jobs source (jobs_of (lookup source p.by_source)) (p, w)
