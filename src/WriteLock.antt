-- ===== src/WriteLock.antt =====
-- tenant_write_lock.py: one writer per tenant, with re-entry in the task that holds the lock. The
-- ContextVar of a task is its `held`, and its `frames` are the bodies of `acquire_tenant_write_lock`
-- that it is in. There is one lock per tenant, as with the distributed lock; its time limit, which is the
-- timeout of the wait, is taken to be longer than any body. The fallback without a distributed lock keeps
-- its locks per handler: with it the model is that of the tasks of one handler.
pub mod Laws
pub mod Exclusion
pub mod Calls
mod Examples
use cat_graphrag.Prelude.{
  ℕ, zero, suc, List, [], ◌∷◌, ◌++◌, ◌≡◌, Bool, true, false, Option, none, some, if◌then◌else◌,
  ◌==◌, Outcome, ok, raised, Exec,
}
use cat_graphrag.Prelude.Keys.{Str, str_key, contains}
use cat_graphrag.Prelude.Texts.{codes}
use cat_graphrag.Prelude.Dict.{Dict, lookup, put, remove}

-- A body that was re-entered, or one that took the lock, with the token that resets the ContextVar.
pub data Frame : Type 0 where
  reentrant : Str → Frame
  owner : Str → List Str → Frame

pub record Task : Type 0 where
  pub held : List Str
  pub frames : List Frame

-- The tasks, and for each lock that is taken the task that took it.
pub record System : Type 0 where
  pub tasks : ℕ → Task
  pub locks : Dict Str ℕ

abbrev pub idle : Task
idle = record { held = []; frames = [] }

abbrev pub set_task : ℕ → Task → (ℕ → Task) → ℕ → Task
set_task i t tasks j = if i == j then t else tasks j

-- _tenant_id_of: the argument, or the handler's agent, or "unknown"
unfoldable pub tenant_id_of : Option Str → Option Str → Str
tenant_id_of (some (c ∷ s)) agent_id = c ∷ s
tenant_id_of (some []) (some (c ∷ s)) = c ∷ s
tenant_id_of (some []) (some []) = codes "unknown"
tenant_id_of (some []) none = codes "unknown"
tenant_id_of none (some (c ∷ s)) = c ∷ s
tenant_id_of none (some []) = codes "unknown"
tenant_id_of none none = codes "unknown"

-- How acquire_tenant_write_lock begins: in the body, or waiting for the lock until the timeout.
pub data Entry : Type 0 where
  inside : System → Entry
  blocked : Entry

-- The system with the lock taken: GRAPH_WRITE_LOCK_HELD.set(held | {tenant_id})
unfoldable pub take_lock : ℕ → Str → System → System
unfolding put
take_lock i x s = record {
  tasks =
      set_task i
        (record {
          held = x ∷ (s.tasks i).held;
          frames = owner x (s.tasks i).held ∷ (s.tasks i).frames;
        })
        s.tasks;
  locks = put x i s.locks;
}

abbrev pub entry_of : ℕ → Str → System → Option ℕ → Entry
entry_of i x s none = inside (take_lock i x s)
entry_of i x s (some j) = blocked

-- The body entered again, without the lock.
unfoldable pub reenter : ℕ → Str → System → System
reenter i x s = record s {
  tasks =
      set_task i (record { held = (s.tasks i).held; frames = reentrant x ∷ (s.tasks i).frames })
        s.tasks;
}

-- acquire_tenant_write_lock, up to its `yield`
unfoldable pub enter : ℕ → Str → System → Entry
unfolding reenter take_lock lookup
enter i x s =
    if contains x (s.tasks i).held
    then inside (reenter i x s)
    else entry_of i x s (lookup x s.locks)

-- acquire_tenant_write_lock, behind its `yield`: GRAPH_WRITE_LOCK_HELD.reset(token); lock.release()
unfoldable pub leave_frames : ℕ → List Frame → System → System
unfolding remove
leave_frames i [] s = s
leave_frames i (reentrant x ∷ frames) s = record s {
  tasks = set_task i (record { held = (s.tasks i).held; frames = frames }) s.tasks;
}
leave_frames i (owner x token ∷ frames) s = record {
  tasks = set_task i (record { held = token; frames = frames }) s.tasks;
  locks = remove x s.locks;
}

unfoldable pub leave : ℕ → System → System
unfolding leave_frames
leave i s = leave_frames i (s.tasks i).frames s

-- asyncio.create_task(coro): the child has a copy of the ContextVar.
unfoldable pub spawn : ℕ → ℕ → System → System
spawn i j s = record s {
  tasks = set_task j (record { held = (s.tasks i).held; frames = [] }) s.tasks;
}

-- asyncio.create_task(detached_write_task(coro)): the child's ContextVar is cleared.
unfoldable pub spawn_detached : ℕ → System → System
spawn_detached j s = record s { tasks = set_task j idle s.tasks }

-- The errors of a locked call.
pub data Failure (E : Type 0) : Type 0 where
  lock_timeout : Str → Failure E
  body : E → Failure E

module _ {E A : Type 0} (i : ℕ) (x : Str) where
  abbrev pub run_inside :
      Exec System (Failure E) A → Entry → System → Outcome (Failure E) A × System
  run_inside fn blocked s = (raised (lock_timeout x), s)
  run_inside fn (inside s') s = let (r, s'') = fn s' in (r, leave i s'')

  -- async with acquire_tenant_write_lock(...): return await fn(...)
  unfoldable pub locked_call : Exec System (Failure E) A → Exec System (Failure E) A
  unfolding enter leave
  locked_call fn s = run_inside fn (enter i x s) s

-- The tenant argument that the wrapper of tenant_write_locked finds.
unfoldable pub positional : ℕ → List (Option Str) → Option Str
positional n [] = none
positional zero (a ∷ args) = a
positional (suc n) (a ∷ args) = positional n args

unfoldable pub wrapper_tenant : Option Str → Option ℕ → List (Option Str) → Option Str
unfolding positional
wrapper_tenant (some t) index args = some t
wrapper_tenant none none args = none
wrapper_tenant none (some n) args = positional n args

-- What a running system does. A task that is started while another one holds a lock is detached.
pub data Step : System → System → Type 0 where
  enters : (i : ℕ) (x : Str) (s s' : System) → enter i x s ≡ inside s' → Step s s'
  leaves : (i : ℕ) (s : System) → Step s (leave i s)
  starts : (j : ℕ) (s : System) → (s.tasks j).frames ≡ [] → Step s (spawn_detached j s)

abbrev pub initial : System
initial = record { tasks = λ _. idle; locks = [] }

pub data Reachable : System → Type 0 where
  start : Reachable initial
  after : (s s' : System) → Reachable s → Step s s' → Reachable s'
