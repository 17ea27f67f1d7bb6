-- ===== src/WriteLock/Examples.antt =====
-- Tests and instances for tenant_write_lock.py.
use cat_graphrag.Prelude.{ℕ, [], ◌∷◌, ◌≡◌, ◌≢◌, ◌⊎◌, refl, inl, inr, none, some, raised, Exec}
use cat_graphrag.Prelude.Keys.{Str, str_key}
use cat_graphrag.Prelude.Texts.{codes}
use cat_graphrag.WriteLock.{
  System, inside, blocked, take_lock, reenter, enter, spawn, spawn_detached, Failure, lock_timeout,
  locked_call, tenant_id_of, wrapper_tenant, enters, initial, Reachable, start, after,
}
use cat_graphrag.WriteLock.Exclusion.{IsIn, mutual_exclusion, blocked_by_other}
use cat_graphrag.WriteLock.Calls.{IsSame, locked_call_lem}

abbrev acme : Str
acme = codes "acme"

-- Task 1 takes the lock, and enters again.
abbrev taken : System
taken = take_lock 1 acme initial

abbrev twice : System
twice = reenter 1 acme taken

takes : enter 1 acme initial ≡ inside taken
unfolding enter
takes = refl

enters_again : enter 1 acme taken ≡ inside twice
unfolding enter
enters_again = refl

waits : enter 2 acme twice ≡ blocked
unfolding enter
waits = refl

twice-Reachable : Reachable twice
twice-Reachable =
    after taken twice (after initial taken start (enters 1 acme initial taken takes))
      (enters 1 acme taken twice enters_again)

-- A task that is started as a plain copy skips the lock, and is inside with the owner.
copy_skips : enter 2 acme (spawn 1 2 taken) ≡ inside (reenter 2 acme (spawn 1 2 taken))
unfolding enter spawn
copy_skips = refl

detached_waits : enter 2 acme (spawn_detached 2 taken) ≡ blocked
unfolding enter spawn_detached
detached_waits = refl

from_agent : tenant_id_of (some []) (some acme) ≡ acme
unfolding tenant_id_of
from_agent = refl

from_argument : wrapper_tenant none (some 1) (none ∷ some acme ∷ []) ≡ some acme
unfolding wrapper_tenant
from_argument = refl

mutual_exclusion_example : ◌≡◌ {A = ℕ} 1 1
unfolding reenter take_lock
mutual_exclusion_example =
    mutual_exclusion twice acme 1 1 twice-Reachable (inl refl) (inr (inl refl))

blocked_by_other_example : (j : ℕ) × (j ≢ 2) × IsIn acme (twice.tasks j).frames
blocked_by_other_example = blocked_by_other twice acme 2 twice-Reachable waits

abbrev fails : Exec System (Failure ℕ) ℕ
fails s = (raised (Failure.body 5), s)

locked_call_example :
    IsSame (locked_call 1 acme fails initial).1 initial
    × (((enter 1 acme initial ≡ blocked)
          × ((locked_call 1 acme fails initial).0 ≡ raised (lock_timeout acme)))
        ⊎ ((s' : System) × (enter 1 acme initial ≡ inside s')
            × ((locked_call 1 acme fails initial).0 ≡ (fails s').0)))
locked_call_example = locked_call_lem 1 acme fails (λ s. refl) initial
