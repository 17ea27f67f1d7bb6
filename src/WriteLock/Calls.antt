-- ===== src/WriteLock/Calls.antt =====
-- A locked call as a whole: what it leaves behind, and that it can be nested.
use mathlib.Core.Path.{subst}
use cat_graphrag.Prelude.{
  ℕ, [], ◌∷◌, ◌≡◌, ◌⊎◌, refl, sym, ap, ◌∙◌, true, ◌==◌, none, ==_iff, Bool-cases, Option-cases, inl,
  inr, arith, raised, Exec,
}
use cat_graphrag.Prelude.Keys.{Str, str_key, str_eq, str_eq_iff, contains}
use cat_graphrag.Prelude.Dict.{Dict, lookup, put, remove}
use cat_graphrag.WriteLock.{
  Task, System, Entry, inside, blocked, take_lock, reenter, enter, leave_frames, leave, Failure,
  lock_timeout, run_inside, locked_call,
}

remove-put :
    (x : Str) (i : ℕ) (locks : Dict Str ℕ)
    → lookup x locks ≡ none
    → remove x (put x i locks) ≡ locks
unfolding lookup put remove
remove-put x i [] h = ground (arith, str_eq_iff x x)
remove-put x i ((y, j) ∷ locks) h = elim (Bool-cases (str_eq y x)) [
  | inl e ↦ absurd (ground arith)
  | inr e ↦ rw e (rw e (ap (λ d. (y, j) ∷ d) (remove-put x i locks (ground arith))))
]

-- Two systems in which every task and all locks are the same.
abbrev pub IsSame : System → System → Type 0
IsSame s t = ((j : ℕ) → s.tasks j ≡ t.tasks j) × (s.locks ≡ t.locks)

self : (i : ℕ) → (i == i) ≡ true
self i = ground arith

same_task : (i j : ℕ) (tasks : ℕ → Task) → (i == j) ≡ true → tasks i ≡ tasks j
same_task i j tasks e = ap tasks ((==_iff i j).0 e)

leave-reenter : (i : ℕ) (x : Str) (s : System) → IsSame (leave i (reenter i x s)) s
unfolding leave leave_frames reenter
leave-reenter i x s = rw (self i) (
  λ j. elim (Bool-cases (i == j)) [
    | inl e ↦ rw e (rw (self i) (same_task i j s.tasks e))
    | inr e ↦ rw e refl
  ],
  refl,
)

leave-take_lock :
    (i : ℕ) (x : Str) (s : System) → lookup x s.locks ≡ none → IsSame (leave i (take_lock i x s)) s
unfolding leave leave_frames take_lock
leave-take_lock i x s free = rw (self i) (
  λ j. elim (Bool-cases (i == j)) [ inl e ↦ rw e (same_task i j s.tasks e) | inr e ↦ rw e refl ],
  remove-put x i s.locks free,
)

leave-enter : (i : ℕ) (x : Str) (s s' : System) → enter i x s ≡ inside s' → IsSame (leave i s') s
unfolding enter
leave-enter i x s s' e = elim (Bool-cases (contains x (s.tasks i).held)) [
  | inl has ↦
      let q : reenter i x s ≡ s' = ground arith in
      subst (λ t. IsSame (leave i t) s) q (leave-reenter i x s)
  | inr fresh ↦ elim (Option-cases (lookup x s.locks)) [
    | inl free ↦
        let q : take_lock i x s ≡ s' = ground arith in
        subst (λ t. IsSame (leave i t) s) q (leave-take_lock i x s free)
    | inr (j, busy) ↦ absurd (ground arith)
  ]
]

module _ {E A : Type 0} (i : ℕ) (x : Str) (fn : Exec System (Failure E) A)
    (undone : (s : System) → (fn s).1 ≡ s) where
  -- For a method that gives back the locks that it takes itself: a locked call waits in vain, and
  -- raises the timeout with nothing changed, or runs the method inside and has its outcome, an error
  -- included. Either way every task and every lock is as before.
  pub locked_call_lem :
      (s : System)
      → IsSame (locked_call i x fn s).1 s
        × (((enter i x s ≡ blocked) × ((locked_call i x fn s).0 ≡ raised (lock_timeout x)))
            ⊎ ((s' : System) × (enter i x s ≡ inside s') × ((locked_call i x fn s).0 ≡ (fn s').0)))
  unfolding locked_call
  locked_call_lem s = found (enter i x s) refl
    where
      found :
          (e : Entry)
          → enter i x s ≡ e
          → IsSame (run_inside i x fn e s).1 s
            × (((e ≡ blocked) × ((run_inside i x fn e s).0 ≡ raised (lock_timeout x)))
                ⊎ ((s' : System) × (e ≡ inside s') × ((run_inside i x fn e s).0 ≡ (fn s').0)))
      found blocked q = ((λ j. refl, refl), inl (refl, refl))
      found (inside s') q = (
        subst (λ t. IsSame (leave i t) s) (sym (undone s')) (leave-enter i x s s' q),
        inr (s', refl, refl),
      )

enter_held :
    (i : ℕ) (x : Str) (t : System)
    → contains x (t.tasks i).held ≡ true
    → (s'' : System) × (enter i x t ≡ inside s'') × (s''.locks ≡ t.locks)
unfolding enter reenter
enter_held i x t h = (reenter i x t, rw h refl, refl)

reenter-held : (i : ℕ) (x : Str) (s : System) → ((reenter i x s).tasks i).held ≡ (s.tasks i).held
unfolding reenter
reenter-held i x s = rw (self i) refl

take_lock-held : (i : ℕ) (x : Str) (s : System) → contains x ((take_lock i x s).tasks i).held ≡ true
unfolding take_lock
take_lock-held i x s = rw (self i) (ground (arith, str_eq_iff x x))

-- A task that is inside enters again without waiting, and takes no lock.
pub enter-again :
    (i : ℕ) (x : Str) (s s' : System)
    → enter i x s ≡ inside s'
    → (s'' : System) × (enter i x s' ≡ inside s'') × (s''.locks ≡ s'.locks)
unfolding enter reenter take_lock
enter-again i x s s' e = elim (Bool-cases (contains x (s.tasks i).held)) [
  | inl has ↦
      let q : reenter i x s ≡ s' = ground arith in
      subst (λ t. (s'' : System) × (enter i x t ≡ inside s'') × (s''.locks ≡ t.locks)) q
        (enter_held i x (reenter i x s) (ap (contains x) (reenter-held i x s) ∙ has))
  | inr fresh ↦ elim (Option-cases (lookup x s.locks)) [
    | inl free ↦
        let q : take_lock i x s ≡ s' = ground arith in
        subst (λ t. (s'' : System) × (enter i x t ≡ inside s'') × (s''.locks ≡ t.locks)) q
          (enter_held i x (take_lock i x s) (take_lock-held i x s))
    | inr (j, busy) ↦ absurd (ground arith)
  ]
]
