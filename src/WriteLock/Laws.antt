-- ===== src/WriteLock/Laws.antt =====
-- What holds of every system that runs: a task's ContextVar names the locks that it has taken.
use mathlib.Core.Path.{subst}
use cat_graphrag.Prelude.{
  ℕ, List, [], ◌∷◌, ◌≡◌, refl, ap, true, false, none, some, ◌==◌, ==_iff, Bool-cases, Option-cases,
  inl, inr, arith,
}
use cat_graphrag.Prelude.Keys.{Str, str_key, str_eq_iff, contains}
use cat_graphrag.Prelude.Dict.{lookup, lookup-put, lookup-remove}
use cat_graphrag.WriteLock.{
  Frame, reentrant, owner, System, inside, take_lock, reenter, enter, leave_frames, leave,
  spawn_detached, Step, enters, leaves, starts, initial, Reachable, start, after,
}

-- The ContextVar that a stack of bodies leaves: each body that took the lock added its tenant to what
-- the token keeps, and each re-entered body found its tenant there.
abbrev pub Stacked : List Str → List Frame → Type 0
Stacked held [] = held ≡ []
Stacked held (reentrant x ∷ frames) = (contains x held ≡ true) × Stacked held frames
Stacked held (owner x token ∷ frames) =
    (held ≡ x ∷ token) × (contains x token ≡ false) × Stacked token frames

pub record IsSound (s : System) : Type 0 where
  pub stacked : (i : ℕ) → Stacked (s.tasks i).held (s.tasks i).frames
  pub holds : (i : ℕ) (x : Str) → contains x (s.tasks i).held ≡ true → lookup x s.locks ≡ some i
  pub taken : (i : ℕ) (x : Str) → lookup x s.locks ≡ some i → contains x (s.tasks i).held ≡ true

initial-IsSound : IsSound initial
unfolding lookup
initial-IsSound = record {
  stacked = λ i. refl;
  holds = λ i x h. absurd (ground arith);
  taken = λ i x h. absurd (ground arith);
}

take_lock-IsSound :
    (i : ℕ) (x : Str) (s : System)
    → contains x (s.tasks i).held ≡ false
    → lookup x s.locks ≡ none
    → IsSound s
    → IsSound (take_lock i x s)
unfolding take_lock
take_lock-IsSound i x s fresh free sound = record {
  stacked = λ j. elim (Bool-cases (i == j)) [
    | inl e ↦ rw (e, Stacked) (refl, fresh, sound.stacked i)
    | inr e ↦ rw e (sound.stacked j)
  ];
  holds = λ j y h. elim (Bool-cases (i == j)) [
    | inl e ↦ ground (arith, ==_iff i j, sound.holds i y, lookup-put x y i s.locks, str_eq_iff x y)
    | inr e ↦ ground (arith, sound.holds j y, lookup-put x y i s.locks, str_eq_iff x y)
  ];
  taken = λ j y h. elim (Bool-cases (i == j)) [
    | inl e ↦
        rw e (ground (arith, ==_iff i j, sound.taken i y, lookup-put x y i s.locks, str_eq_iff x y))
    | inr e ↦
        rw e (ground (arith, ==_iff i j, sound.taken j y, lookup-put x y i s.locks, str_eq_iff x y))
  ];
}

reenter-IsSound :
    (i : ℕ) (x : Str) (s : System)
    → contains x (s.tasks i).held ≡ true
    → IsSound s
    → IsSound (reenter i x s)
unfolding reenter
reenter-IsSound i x s has sound = record {
  stacked = λ j. elim (Bool-cases (i == j)) [
    | inl e ↦ rw (e, Stacked) (has, sound.stacked i)
    | inr e ↦ rw e (sound.stacked j)
  ];
  holds = λ j y h. elim (Bool-cases (i == j)) [
    | inl e ↦ ground (arith, ==_iff i j, sound.holds i y)
    | inr e ↦ ground (arith, sound.holds j y)
  ];
  taken = λ j y h. elim (Bool-cases (i == j)) [
    | inl e ↦ rw e (ground (arith, ==_iff i j, sound.taken i y))
    | inr e ↦ rw e (sound.taken j y h)
  ];
}

leave_frames-IsSound :
    (i : ℕ) (frames : List Frame) (s : System)
    → (s.tasks i).frames ≡ frames
    → Stacked (s.tasks i).held frames
    → IsSound s
    → IsSound (leave_frames i frames s)
unfolding leave_frames
leave_frames-IsSound i [] s e stack sound = sound
leave_frames-IsSound i (reentrant x ∷ frames) s e stack sound = record {
  stacked =
      λ j. elim (Bool-cases (i == j)) [ inl q ↦ rw q stack.1 | inr q ↦ rw q (sound.stacked j) ];
  holds = λ j y h. elim (Bool-cases (i == j)) [
    | inl q ↦ ground (arith, ==_iff i j, sound.holds i y)
    | inr q ↦ ground (arith, sound.holds j y)
  ];
  taken = λ j y h. elim (Bool-cases (i == j)) [
    | inl q ↦ rw q (ground (arith, ==_iff i j, sound.taken i y))
    | inr q ↦ rw q (sound.taken j y h)
  ];
}
leave_frames-IsSound i (owner x token ∷ frames) s e stack sound =
    let has = λ (y : Str). ap (contains y) stack.0 in
    record {
      stacked =
          λ j. elim (Bool-cases (i == j)) [ inl q ↦ rw q stack.2 | inr q ↦ rw q (sound.stacked j) ];
      holds = λ j y h. elim (Bool-cases (i == j)) [
        | inl q ↦ ground (
          arith,
          ==_iff i j,
          sound.holds i y,
          has y,
          stack.1,
          lookup-remove x y s.locks,
          str_eq_iff x y,
        )
        | inr q ↦ ground (
          arith,
          ==_iff i j,
          sound.holds j y,
          sound.holds i x,
          has x,
          lookup-remove x y s.locks,
          str_eq_iff x y,
          str_eq_iff x x,
        )
      ];
      taken = λ j y h. elim (Bool-cases (i == j)) [
        | inl q ↦
            rw q (ground (arith, ==_iff i j, sound.taken i y, has y, lookup-remove x y s.locks))
        | inr q ↦ rw q (ground (arith, sound.taken j y, lookup-remove x y s.locks))
      ];
    }

leave-IsSound : (i : ℕ) (s : System) → IsSound s → IsSound (leave i s)
unfolding leave
leave-IsSound i s sound = leave_frames-IsSound i (s.tasks i).frames s refl (sound.stacked i) sound

enter-IsSound : (i : ℕ) (x : Str) (s s' : System) → enter i x s ≡ inside s' → IsSound s → IsSound s'
unfolding enter
enter-IsSound i x s s' e sound = elim (Bool-cases (contains x (s.tasks i).held)) [
  | inl has ↦
      let q : reenter i x s ≡ s' = ground arith in subst IsSound q (reenter-IsSound i x s has sound)
  | inr fresh ↦ elim (Option-cases (lookup x s.locks)) [
    | inl free ↦
        let q : take_lock i x s ≡ s' = ground arith in
        subst IsSound q (take_lock-IsSound i x s fresh free sound)
    | inr (j, busy) ↦ absurd (ground arith)
  ]
]

spawn_detached-IsSound :
    (j : ℕ) (s : System) → (s.tasks j).frames ≡ [] → IsSound s → IsSound (spawn_detached j s)
unfolding spawn_detached
spawn_detached-IsSound j s e sound =
    let empty : (s.tasks j).held ≡ [] = subst (Stacked (s.tasks j).held) e (sound.stacked j) in
    let none_held = λ (y : Str). ap (contains y) empty in
    record {
      stacked =
          λ k. elim (Bool-cases (j == k)) [ inl q ↦ rw q refl | inr q ↦ rw q (sound.stacked k) ];
      holds = λ k y h. elim (Bool-cases (j == k)) [
        | inl q ↦ absurd (ground arith)
        | inr q ↦ ground (arith, sound.holds k y)
      ];
      taken = λ k y h. elim (Bool-cases (j == k)) [
        | inl q ↦ absurd (ground (arith, ==_iff j k, sound.taken j y, none_held y))
        | inr q ↦ rw q (sound.taken k y h)
      ];
    }

Step-IsSound : (s s' : System) → Step s s' → IsSound s → IsSound s'
Step-IsSound _ _ (enters i x s s' e) sound = enter-IsSound i x s s' e sound
Step-IsSound _ _ (leaves i s) sound = leave-IsSound i s sound
Step-IsSound _ _ (starts j s e) sound = spawn_detached-IsSound j s e sound

-- The invariant holds of every system that is reached.
pub Reachable-IsSound : (s : System) → Reachable s → IsSound s
Reachable-IsSound _ start = initial-IsSound
Reachable-IsSound _ (after s s' r step) = Step-IsSound s s' step (Reachable-IsSound s r)
