-- ===== src/Versioning/Retry.antt =====
-- `with_transient_retry` of versioning.py: how often it calls, and what it hands back.
use cat_graphrag.Prelude.{
  ℕ, zero, suc, ◌+◌, ◌≤◌, ◌<◌, ◌≡◌, refl, List, [], ◌∷◌, ◌++◌, Bool, true, false, Option, some,
  arith, ltb, leb, length, length-append, All, All-append, Outcome, ok, raised, Exec, Bool-cases,
  inl, inr, leb→le, if◌then◌else◌,
}
use cat_graphrag.Versioning.{settle, retry_loop, with_transient_retry}

module _ {S E A : Type 0} (is_transient : E → Bool) (pause : ℕ → S → S) (factory : Exec S E A) where
  -- The outcomes of the calls, kept in order beside the state.
  abbrev pub recorded : Exec (S × List (Outcome E A)) E A
  recorded (s, log) = let (r, s') = factory s in (r, (s', log ++ r ∷ []))

  abbrev pub pause_beside : ℕ → S × List (Outcome E A) → S × List (Outcome E A)
  pause_beside attempt (s, log) = (pause attempt s, log)

  -- A call that is tried again.
  abbrev pub Transient : Outcome E A → Type 0
  Transient (ok a) = ⊥
  Transient (raised e) = is_transient e ≡ true

  -- Every call but the last raised a transient error, and the last one decides.
  pub data Tried (limit : ℕ) (log : List (Outcome E A)) : Outcome E (Option A) → Type 0 where
    returned :
        {a : A} (before : List (Outcome E A))
        → All Transient before
        → log ≡ before ++ ok a ∷ []
        → length log ≤ limit
        → Tried limit log (ok (some a))
    permanent :
        {e : E} (before : List (Outcome E A))
        → All Transient before
        → log ≡ before ++ raised e ∷ []
        → length log ≤ limit
        → is_transient e ≡ false
        → Tried limit log (raised e)
    exhausted :
        {e : E} (before : List (Outcome E A))
        → All Transient before
        → log ≡ before ++ raised e ∷ []
        → length log ≡ limit
        → is_transient e ≡ true
        → Tried limit log (raised e)

  abbrev loop : ℕ → ℕ → ℕ → Exec (S × List (Outcome E A)) E (Option A)
  loop = retry_loop is_transient pause_beside recorded

  settle-Tried :
      (attempt limit : ℕ) (log : List (Outcome E A))
      (rest : Exec (S × List (Outcome E A)) E (Option A))
      → length log + 1 ≡ attempt
      → attempt ≤ limit
      → All Transient log
      → ((s : S) (log' : List (Outcome E A))
          → attempt < limit
          → length log' ≡ attempt
          → All Transient log'
          → Tried limit (rest (s, log')).1.1 (rest (s, log')).0)
      → (m : Outcome E A × S)
      → let t =
          settle is_transient pause_beside recorded
            (leb limit attempt)
            rest
            (m.0, (m.1, log ++ m.0 ∷ [])) in
        Tried limit t.1.1 t.0
  settle-Tried attempt limit log rest l le h next (ok a, s) =
      returned log h refl (omega (arith, length-append log (ok a ∷ [])))
  settle-Tried attempt limit log rest l le h next (raised e, s) =
      elim (Bool-cases (is_transient e)) [
        | inr final ↦
            rw final (permanent log h refl (omega (arith, length-append log (raised e ∷ []))) final)
        | inl again ↦ rw again (elim (Bool-cases (leb limit attempt)) [
          | inl over ↦
              let end : limit ≤ attempt = leb→le limit attempt over in
              rw over
                (exhausted log h refl (omega (arith, length-append log (raised e ∷ []))) again)
          | inr more ↦ rw more (
              next s (log ++ raised e ∷ []) (ground arith)
                (omega (arith, length-append log (raised e ∷ [])))
                (All-append Transient log (raised e ∷ []) h (again, tt)))
        ])
      ]

  loop-Tried :
      (rounds attempt limit : ℕ) (s : S) (log : List (Outcome E A))
      → 0 < rounds
      → attempt + rounds ≡ limit + 1
      → length log + 1 ≡ attempt
      → All Transient log
      → Tried limit (loop rounds attempt limit (s, log)).1.1 (loop rounds attempt limit (s, log)).0
  unfolding retry_loop
  loop-Tried zero attempt limit s log pos e l h = absurd (omega arith)
  loop-Tried (suc rounds) attempt limit s log pos e l h =
      settle-Tried attempt limit log (λ t. loop rounds (attempt + 1) limit (pause_beside attempt t))
        l (omega arith) h
        (λ s' log' lt l' h'.
          loop-Tried rounds (attempt + 1) limit (pause attempt s') log' (omega arith) (omega arith)
            (omega arith) h')
        (factory s)

  -- The factory is called at least once and at most `attempts` times (once, if `attempts` is 0).
  -- Every call but the last raised a transient error. The last one returned, and its value is
  -- returned; or raised an error that is not transient, and that one is raised; or was the last one
  -- allowed, and its transient error is raised. `None` is never returned.
  pub with_transient_retry-Tried :
      (attempts : ℕ) (s : S)
      → let m = with_transient_retry is_transient pause_beside recorded attempts (s, []) in
        Tried (if ltb attempts 1 then 1 else attempts) m.1.1 m.0
  unfolding with_transient_retry
  with_transient_retry-Tried attempts s =
      let tries = if ltb attempts 1 then 1 else attempts in
      loop-Tried tries 1 tries s [] (ground arith) (omega arith) (omega arith) tt
