-- ===== src/Versioning/Attempts.antt =====
-- How often the decorated methods of versioning.py run.
use cat_graphrag.Prelude.{ℕ, ◌+◌, ◌≤◌, arith, Exec}
use cat_graphrag.Prelude.Keys.{Str}
use cat_graphrag.Epoch.{Handler}
use cat_graphrag.Versioning.{Failure, ensure_version, retry_on_generation_change}

module _ {W E A : Type 0} (probe : Exec W (Failure E) Str)
    (fn : Exec (Handler × W) (Failure E) A) where
  -- The probes, and the method with its runs counted.
  abbrev pub probe_beside : Exec (W × ℕ) (Failure E) Str
  probe_beside (w, n) = let (r, w') = probe w in (r, (w', n))

  abbrev pub counted : Exec (Handler × (W × ℕ)) (Failure E) A
  counted (h, (w, n)) = let (r, (h', w')) = fn (h, w) in (r, (h', (w', n + 1)))

  -- `ensure_version` runs the method at most once, and `retry_on_generation_change` at most twice.
  pub runs_bounded :
      (h : Handler) (w : W) (n : ℕ)
      → ((ensure_version probe_beside counted (h, (w, n))).1.1.1 ≤ n + 1)
        × ((retry_on_generation_change probe_beside counted (h, (w, n))).1.1.1 ≤ n + 2)
  unfolding ensure_version retry_on_generation_change
  runs_bounded h w n = (ground arith, ground arith)
