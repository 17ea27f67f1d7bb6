-- ===== src/Versioning.antt =====
-- versioning.py: decorated methods of a handler that run under one generation of the schema, and the
-- retry of transient errors. `W` is all that lies outside the handler, the database and the other
-- workers on it among it: between two probes it may change in any way.
pub mod Retry
pub mod Snapshot
pub mod Attempts
mod Examples
use cat_graphrag.Prelude.{
  ℕ, zero, suc, ◌+◌, Bool, true, false, Option, none, some, if◌then◌else◌, leb, ltb, Outcome, ok,
  raised, Exec, pure, raise, ◌>>=◌, ◌>>◌,
}
use cat_graphrag.Prelude.Keys.{Str, str_eq}
use cat_graphrag.Epoch.{Handler, rebuild_for_generation}

-- The errors of a method, and the `RuntimeError` for a generation that changed twice.
pub data Failure (E : Type 0) : Type 0 where
  changed_again : Str → Str → Failure E
  other : E → Failure E

-- gen != self._generation, where the handler may have none
abbrev pub is_generation : Option Str → Str → Bool
is_generation none gen = false
is_generation (some g) gen = str_eq g gen

unfoldable pub aligned : Handler → Str → Handler
aligned h gen = if is_generation h.generation gen then h else rebuild_for_generation h gen

module _ {W E : Type 0} (probe : Exec W (Failure E) Str) where
  -- await self._read_generation()
  abbrev pub probed : Exec (Handler × W) (Failure E) Str
  probed (h, w) = let (r, w') = probe w in (r, (h, w'))

  -- self._rebuild_for_generation(gen)
  abbrev pub rebuild : Str → Exec (Handler × W) (Failure E) (Unit {0})
  rebuild gen (h, w) = (ok tt, (rebuild_for_generation h gen, w))

  -- if gen != self._generation: self._rebuild_for_generation(gen)
  abbrev pub align : Str → Exec (Handler × W) (Failure E) (Unit {0})
  align gen (h, w) = (ok tt, (aligned h gen, w))

  unfoldable pub ensure_version :
      {A : Type 0} → Exec (Handler × W) (Failure E) A → Exec (Handler × W) (Failure E) A
  ensure_version fn = do gen ← probed; align gen; fn

  unfoldable pub retry_on_generation_change :
      {A : Type 0} → Exec (Handler × W) (Failure E) A → Exec (Handler × W) (Failure E) A
  retry_on_generation_change fn = do
    before ← probed
    align before
    result ← fn
    after ← probed
    if str_eq after before then pure result else do
      rebuild after
      result' ← fn
      final ← probed
      if str_eq final after then pure result' else raise (changed_again after final)

module _ {S E A : Type 0} (is_transient : E → Bool) (pause : ℕ → S → S) (factory : Exec S E A) where
  -- The end of an attempt: return, raise, or go on with the `rest` of the loop.
  abbrev pub settle : Bool → Exec S E (Option A) → Outcome E A × S → Outcome E (Option A) × S
  settle is_last rest (ok a, s) = (ok (some a), s)
  settle is_last rest (raised e, s) =
      if is_transient e then (if is_last then (raised e, s) else rest s) else (raised e, s)

  -- for attempt in range(attempt, attempts + 1), with the rounds that are left; a loop that ended
  -- by itself would return `None`.
  unfoldable pub retry_loop : ℕ → ℕ → ℕ → Exec S E (Option A)
  retry_loop zero attempt attempts s = (ok none, s)
  retry_loop (suc rounds) attempt attempts s =
      settle (leb attempts attempt)
        (λ s'. retry_loop rounds (attempt + 1) attempts (pause attempt s')) (factory s)

  -- with_transient_retry; `pause` is the warning and the sleep between two attempts.
  unfoldable pub with_transient_retry : ℕ → Exec S E (Option A)
  unfolding retry_loop
  with_transient_retry attempts =
      let tries = if ltb attempts 1 then 1 else attempts in retry_loop tries 1 tries
