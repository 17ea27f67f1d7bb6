-- ===== src/Prelude/Coroutines.antt =====
-- Coroutines that mutate a state and may raise. What was done before a raise stays done, so the
-- state comes back beside the error too.
use Prim.Native.Nat.{ℕ}
use cat_graphrag.Prelude.Lists.{length}
use mathlib.Core.Path.{◌≡◌, refl, sym, ap, ◌∙◌}
use mathlib.Core.List.{List, [], ◌∷◌, ◌++◌}
use mathlib.Core.List.{append_assoc, append-nil}

pub data Outcome {ℓ} (E A : Type ℓ) : Type ℓ where
  ok : A → Outcome E A
  raised : E → Outcome E A

abbrev pub Exec {ℓ} : Type ℓ → Type ℓ → Type ℓ → Type ℓ
Exec S E A = S → Outcome E A × S

module _ {ℓ} {S E A : Type ℓ} where
  abbrev pub pure : A → Exec S E A
  pure a s = (ok a, s)

  abbrev pub raise : E → Exec S E A
  raise e s = (raised e, s)

  -- A function that may raise, called from a coroutine.
  abbrev pub lift : Outcome E A → Exec S E A
  lift r s = (r, s)

module _ {ℓ} {S E A B : Type ℓ} where
  abbrev pub continue : Outcome E A → (A → Exec S E B) → Exec S E B
  continue (ok a) f s = f a s
  continue (raised e) f s = (raised e, s)

  infixl 10 ◌>>=◌ ◌>>◌
  abbrev pub ◌>>=◌ : Exec S E A → (A → Exec S E B) → Exec S E B
  ◌>>=◌ m f s = let (r, s') = m s in continue r f s'

  abbrev pub ◌>>◌ : Exec S E A → Exec S E B → Exec S E B
  m >> n = m >>= λ _. n

-- for x in xs: await body(x)
unfoldable pub for_each {ℓ} :
    {S E A : Type ℓ} → (A → Exec S E (Unit {ℓ})) → List A → Exec S E (Unit {ℓ})
for_each body [] = pure tt
for_each body (x ∷ xs) = body x >> for_each body xs

-- The calls of `body`, kept beside the state in the order in which they are made.
abbrev pub logged {ℓ} :
    {S E A : Type ℓ} → (A → Exec S E (Unit {ℓ})) → A → Exec (S × List A) E (Unit {ℓ})
logged body x (s, calls) = let (r, s') = body x s in (r, (s', calls ++ x ∷ []))

-- What a loop has called: all of `xs` if it returns, and else those up to the one that raised.
pub data Called {ℓ} {E A : Type ℓ} (xs calls : List A) : Outcome E (Unit {ℓ}) → Type ℓ where
  all : calls ≡ xs → Called xs calls (ok tt)
  stopped :
      {e : E} (before : List A) (x : A) (after : List A)
      → xs ≡ before ++ x ∷ after
      → calls ≡ before ++ x ∷ []
      → Called xs calls (raised e)

Called-cons {ℓ} :
    {E A : Type ℓ} (x : A) {xs calls : List A} {r : Outcome E (Unit {ℓ})}
    → Called xs calls r
    → Called (x ∷ xs) (x ∷ calls) r
Called-cons x (all e) = all (ap (λ l. x ∷ l) e)
Called-cons x (stopped before y after e f) =
    stopped (x ∷ before) y after (ap (λ l. x ∷ l) e) (ap (λ l. x ∷ l) f)

module _ {ℓ} {S E A : Type ℓ} (body : A → Exec S E (Unit {ℓ})) where
  -- Keeping the calls changes neither the outcome nor the state.
  pub for_each-logged :
      (xs : List A) (s : S) (c : List A)
      → ((for_each (logged body) xs (s, c)).0 ≡ (for_each body xs s).0)
        × ((for_each (logged body) xs (s, c)).1.0 ≡ (for_each body xs s).1)
  unfolding for_each
  for_each-logged [] s c = (refl, refl)
  for_each-logged (x ∷ xs) s c = after (body x s) (λ s'. for_each-logged xs s' (c ++ x ∷ []))
    where
      after :
          (m : Outcome E (Unit {ℓ}) × S)
          → ((s' : S)
              → ((for_each (logged body) xs (s', c ++ x ∷ [])).0 ≡ (for_each body xs s').0)
                × ((for_each (logged body) xs (s', c ++ x ∷ [])).1.0 ≡ (for_each body xs s').1))
          → ((continue m.0 (λ _. for_each (logged body) xs) (m.1, c ++ x ∷ [])).0
              ≡ (continue m.0 (λ _. for_each body xs) m.1).0)
            × ((continue m.0 (λ _. for_each (logged body) xs) (m.1, c ++ x ∷ [])).1.0
                ≡ (continue m.0 (λ _. for_each body xs) m.1).1)
      after (ok _, s') ih = ih s'
      after (raised e, s') ih = (refl, refl)

  pub for_each-Called :
      (xs : List A) (s : S) (c : List A)
      → (calls : List A) × ((for_each (logged body) xs (s, c)).1.1 ≡ c ++ calls)
        × Called xs calls (for_each (logged body) xs (s, c)).0
  unfolding for_each
  for_each-Called [] s c = ([], sym (append-nil c), all refl)
  for_each-Called (x ∷ xs) s c = after (body x s) (λ s'. for_each-Called xs s' (c ++ x ∷ []))
    where
      after :
          (m : Outcome E (Unit {ℓ}) × S)
          → ((s' : S)
              → (calls : List A) × ((for_each (logged body) xs (s', c ++ x ∷ [])).1.1
                  ≡ (c ++ x ∷ []) ++ calls)
                × Called xs calls (for_each (logged body) xs (s', c ++ x ∷ [])).0)
          → (calls : List A) × ((continue m.0
                (λ _. for_each (logged body) xs)
                (m.1, c ++ x ∷ [])).1.1
              ≡ c ++ calls)
            × Called
                (x ∷ xs)
                calls
                (continue m.0 (λ _. for_each (logged body) xs) (m.1, c ++ x ∷ [])).0
      after (ok _, s') ih =
          let (calls, e, w) = ih s' in
          (x ∷ calls, e ∙ append_assoc c (x ∷ []) calls, Called-cons x w)
      after (raised e, s') ih = (x ∷ [], refl, stopped [] x xs refl refl)

-- The same for a loop that returns how many calls it has made.
pub data Ran {E A : Type 0} (xs calls : List A) : Outcome E ℕ → Type 0 where
  all : calls ≡ xs → Ran xs calls (ok (length xs))
  stopped :
      {e : E} (before : List A) (x : A) (after : List A)
      → xs ≡ before ++ x ∷ after
      → calls ≡ before ++ x ∷ []
      → Ran xs calls (raised e)

module _ {S E A : Type 0} (body : A → Exec S E (Unit {0})) where
  ran :
      {T : Type 0} (xs calls : List A) (t : T) {r : Outcome E (Unit {0})}
      → Called xs calls r
      → Ran xs calls (continue r (λ _. pure (length xs)) t).0
        × ((continue r (λ _. pure {E = E} (length xs)) t).1 ≡ t)
  ran xs calls t (Called.all e) = (Ran.all e, refl)
  ran xs calls t (Called.stopped before x after e f) = (Ran.stopped before x after e f, refl)

  pub for_each-Ran :
      (xs : List A) (s : S)
      → let m = (for_each (logged body) xs >> pure (length xs)) (s, []) in Ran xs m.1.1 m.0
  for_each-Ran xs s =
      let m = for_each (logged body) xs (s, []) in
      let (calls, kept, called) = for_each-Called body xs s [] in
      let (done, same) = ran xs calls m.1 called in rw (same, kept) done
