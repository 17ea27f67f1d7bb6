-- ===== src/Epoch/Laws.antt =====
-- Reading and setting generation tokens, in epoch.py.
use cat_graphrag.Prelude.{
  ◌≡◌, ◌≢◌, refl, [], ◌∷◌, Option, none, some, arith, true, inl, inr, Bool-cases, if◌then◌else◌,
}
use cat_graphrag.Prelude.Keys.{Str, str_key, str_eq, str_eq_iff}
use cat_graphrag.Prelude.Dict.{lookup, put, lookup-put}
use cat_graphrag.Epoch.{Epochs, first_generation, read_record, read_generation, set_generation}

str_refl : (s : Str) → str_eq s s ≡ true
str_refl s = (str_eq_iff s s).1 refl

-- Reading returns a token that is not empty, and reading again returns the same one. It leaves
-- every other tenant alone, and of its own tenant it changes only what was missing.
pub read_generation_lem :
    (t : Str) (epochs : Epochs)
    → ((read_generation t epochs).0 ≢ [])
      × ((read_generation t (read_generation t epochs).1).0 ≡ (read_generation t epochs).0)
      × ((u : Str)
          → lookup u (read_generation t epochs).1 ≡ (
              if str_eq t u
              then (elim (lookup t epochs) [ none ↦ some first_generation | some gen ↦ some gen ])
              else lookup u epochs))
unfolding read_generation read_record
read_generation_lem t epochs = found (lookup t epochs) refl
  where
    found :
        (o : Option Str)
        → lookup t epochs ≡ o
        → ((read_record t epochs o).0 ≢ [])
          × ((read_generation t (read_record t epochs o).1).0 ≡ (read_record t epochs o).0)
          × ((u : Str)
              → lookup u (read_record t epochs o).1 ≡ (
                  if str_eq t u
                  then (elim o [ none ↦ some first_generation | some gen ↦ some gen ])
                  else lookup u epochs))
    found none e = (
      λ absurdity. cc,
      rw (lookup-put t t first_generation epochs, str_refl t) refl,
      λ u. lookup-put t u first_generation epochs,
    )
    found (some []) e = (λ absurdity. cc, rw e refl, λ u. ground (arith, str_eq_iff t u))
    found (some (c ∷ gen)) e = (λ absurdity. cc, rw e refl, λ u. ground (arith, str_eq_iff t u))

-- After a token has been set, its tenant reads it, and the others read what they read before.
pub read_generation-set_generation :
    (t u gen : Str) (epochs : Epochs)
    → gen ≢ []
    → (read_generation u (set_generation t gen epochs)).0
      ≡ (if str_eq t u then gen else (read_generation u epochs).0)
unfolding read_generation set_generation read_record
read_generation-set_generation t u [] epochs h = absurd (h refl)
read_generation-set_generation t u (c ∷ gen) epochs h =
    rw (lookup-put t u (c ∷ gen) epochs) (elim (Bool-cases (str_eq t u)) [
      | inl same ↦ rw same refl
      | inr differ ↦ rw differ (found (lookup u epochs))
    ])
  where
    found :
        (o : Option Str) → (read_record u (put t (c ∷ gen) epochs) o).0 ≡ (read_record u epochs o).0
    found none = refl
    found (some []) = refl
    found (some (d ∷ rest)) = refl
