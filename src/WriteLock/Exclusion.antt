-- ===== src/WriteLock/Exclusion.antt =====
-- Mutual exclusion of the writers of a tenant, and what a writer waits for.
use mathlib.Core.Path.{subst}
use cat_graphrag.Prelude.{
  ℕ, List, [], ◌∷◌, ◌≡◌, ◌≢◌, ◌⊎◌, ap, true, false, ◌||◌, Bool-cases, Option-cases, inl, inr, arith,
}
use cat_graphrag.Prelude.Keys.{Str, str_key, str_eq, str_eq_iff, contains}
use cat_graphrag.Prelude.Dict.{lookup}
use cat_graphrag.WriteLock.{Frame, reentrant, owner, System, blocked, enter, Reachable}
use cat_graphrag.WriteLock.Laws.{Stacked, Reachable-IsSound}

-- A task is in a body for the tenant.
abbrev pub IsIn : Str → List Frame → Type 0
IsIn x [] = ⊥
IsIn x (reentrant y ∷ frames) = (y ≡ x) ⊎ IsIn x frames
IsIn x (owner y token ∷ frames) = (y ≡ x) ⊎ IsIn x frames

held_in :
    (x : Str) (held : List Str) (frames : List Frame)
    → Stacked held frames
    → IsIn x frames
    → contains x held ≡ true
held_in x held [] h k = absurd k
held_in x held (reentrant y ∷ frames) h k = elim k [
  | inl e ↦ subst (λ z. contains z held ≡ true) e h.0
  | inr r ↦ held_in x held frames h.1 r
]
held_in x held (owner y token ∷ frames) h k =
    let has : contains x held ≡ (str_eq y x || contains x token) = ap (contains x) h.0 in
    elim k [
      | inl e ↦ ground (arith, str_eq_iff y x)
      | inr r ↦ ground (arith, held_in x token frames h.2 r)
    ]

IsIn-held :
    (x : Str) (held : List Str) (frames : List Frame)
    → Stacked held frames
    → contains x held ≡ true
    → IsIn x frames
IsIn-held x held [] h k =
    let has : contains x held ≡ false = ap (contains x) h in absurd (ground arith)
IsIn-held x held (reentrant y ∷ frames) h k = inr (IsIn-held x held frames h.1 k)
IsIn-held x held (owner y token ∷ frames) h k =
    let has : contains x held ≡ (str_eq y x || contains x token) = ap (contains x) h.0 in
    elim (Bool-cases (str_eq y x)) [
      | inl e ↦ inl ((str_eq_iff y x).0 e)
      | inr e ↦ inr (IsIn-held x token frames h.2 (ground arith))
    ]

not_held :
    (x : Str) (s : System) (i j : ℕ)
    → contains x (s.tasks i).held ≡ false
    → contains x (s.tasks j).held ≡ true
    → j ≢ i
not_held x s i j fresh has same =
    let q : contains x (s.tasks j).held ≡ contains x (s.tasks i).held =
      ap (λ k. contains x (s.tasks k).held) same in
    ground arith

-- In a system where tasks that are started under a lock are detached, no two tasks are in bodies for
-- the same tenant, also where a body was entered again.
pub mutual_exclusion :
    (s : System) (x : Str) (i j : ℕ)
    → Reachable s
    → IsIn x (s.tasks i).frames
    → IsIn x (s.tasks j).frames
    → i ≡ j
mutual_exclusion s x i j r hi hj =
    let sound = Reachable-IsSound s r in
    let pi_ =
      sound.holds i x (held_in x (s.tasks i).held (s.tasks i).frames (sound.stacked i) hi) in
    let pj = sound.holds j x (held_in x (s.tasks j).held (s.tasks j).frames (sound.stacked j) hj) in
    ground arith

-- In a system where tasks that are started under a lock are detached, a task waits for a lock only
-- while another task is in a body for the tenant: a task never waits for itself, and no lock is left
-- behind.
pub blocked_by_other :
    (s : System) (x : Str) (i : ℕ)
    → Reachable s
    → enter i x s ≡ blocked
    → (j : ℕ) × (j ≢ i) × IsIn x (s.tasks j).frames
unfolding enter
blocked_by_other s x i r e =
    let sound = Reachable-IsSound s r in
    elim (Bool-cases (contains x (s.tasks i).held)) [
      | inl has ↦ absurd (ground arith)
      | inr fresh ↦ elim (Option-cases (lookup x s.locks)) [
        | inl free ↦ absurd (ground arith)
        | inr (j, busy) ↦
            let has = sound.taken j x busy in
            (
              j,
              λ same. not_held x s i j fresh has same,
              IsIn-held x (s.tasks j).held (s.tasks j).frames (sound.stacked j) has,
            )
      ]
    ]
