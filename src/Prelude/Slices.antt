-- ===== src/Prelude/Slices.antt =====
-- Python's `range` with a step and list slices, and a list cut into slices of at most `step`
-- elements: `[xs[start : start + step] for start in range(0, len(xs), step)]`.
use Prim.Native.Nat.{ℕ, zero, suc, ◌+◌, ◌-◌, ◌*◌, ◌≤◌, ◌<◌}
use mathlib.Core.Path.{◌≡◌, sym}
use mathlib.Core.Logic.{inl, inr}
use mathlib.Core.List.{List, [], ◌∷◌, ◌++◌, map}
use native.Mathlib.Omega.{arith}
use cat_graphrag.Prelude.Tests.{ltb, if◌then◌else◌, Bool-cases}
use cat_graphrag.Prelude.Lists.{
  length, take, drop, concat, All, length-take, length-drop, take-append-drop, drop-drop,
  drop-length,
}

-- range(i, stop, step), on fuel: each round raises `i` by `step`.
unfoldable pub range_from : ℕ → ℕ → ℕ → ℕ → List ℕ
range_from zero i stop step = []
range_from (suc fuel) i stop step =
    let rest = range_from fuel (i + step) stop step in if ltb i stop then i ∷ rest else []

-- range(0, stop, step): a step of at least 1 takes `stop` rounds at most.
unfoldable pub range : ℕ → ℕ → List ℕ
unfolding range_from
range stop step = range_from stop 0 stop step

module _ {ℓ} {A : Type ℓ} where
  -- xs[start:stop]
  abbrev pub slice : List A → ℕ → ℕ → List A
  slice xs start stop = take (stop - start) (drop start xs)

  unfoldable pub slices : ℕ → List A → List (List A)
  unfolding range
  slices step xs = map (λ start. slice xs start (start + step)) (range (length xs) step)

  abbrev cuts : ℕ → ℕ → ℕ → List A → List (List A)
  cuts step fuel i xs =
      map (λ start. slice xs start (start + step)) (range_from fuel i (length xs) step)

  cut_off : (i step : ℕ) (xs : List A) → slice xs i (i + step) ++ drop (i + step) xs ≡ drop i xs
  cut_off i step xs =
      let e : i + step - i ≡ step = omega arith in
      rw e (rw (← drop-drop step i xs) (take-append-drop step (drop i xs)))

  concat-cuts :
      (step fuel i : ℕ) (xs : List A)
      → 0 < step
      → length xs ≤ i + fuel
      → concat (cuts step fuel i xs) ≡ drop i xs
  unfolding range_from
  concat-cuts step zero i xs pos h = sym (drop-length i xs (omega arith))
  concat-cuts step (suc fuel) i xs pos h = elim (Bool-cases (ltb i (length xs))) [
    | inl more ↦
        rw more (rw (concat-cuts step fuel (i + step) xs pos (omega arith)) (cut_off i step xs))
    | inr done ↦ rw done (sym (drop-length i xs (ground arith)))
  ]

  -- Each slice is non-empty and holds at most `step` elements.
  abbrev pub Fits : ℕ → List A → Type 0
  Fits step ys = (0 < length ys) × (length ys ≤ step)

  All-Fits-cuts : (step fuel i : ℕ) (xs : List A) → 0 < step → All (Fits step) (cuts step fuel i xs)
  unfolding range_from
  All-Fits-cuts step zero i xs pos = tt
  All-Fits-cuts step (suc fuel) i xs pos = elim (Bool-cases (ltb i (length xs))) [
    | inl more ↦ rw more (
      ground (arith, length-take (i + step - i) (drop i xs), length-drop i xs),
      All-Fits-cuts step fuel (i + step) xs pos,
    )
    | inr done ↦ rw done tt
  ]

  -- The slices put together again are the list.
  pub concat-slices : (step : ℕ) (xs : List A) → 0 < step → concat (slices step xs) ≡ xs
  unfolding slices
  concat-slices step xs pos = concat-cuts step (length xs) 0 xs pos (omega arith)

  pub All-Fits-slices : (step : ℕ) (xs : List A) → 0 < step → All (Fits step) (slices step xs)
  unfolding slices
  All-Fits-slices step xs pos = All-Fits-cuts step (length xs) 0 xs pos

  cuts_count :
      (step fuel i : ℕ) (xs : List A)
      → 0 < step
      → length xs ≤ i + fuel
      → (length xs - i ≤ length (cuts step fuel i xs) * step)
        × (length (cuts step fuel i xs) * step < length xs - i + step)
  unfolding range_from
  cuts_count step zero i xs pos h = omega arith
  cuts_count step (suc fuel) i xs pos h = elim (Bool-cases (ltb i (length xs))) [
    | inl more ↦ rw more (grind (arith, cuts_count step fuel (i + step) xs pos (omega arith)))
    | inr done ↦ rw done (ground arith)
  ]

  -- There are no more slices than are needed: ⌈length / step⌉.
  pub length-slices :
      (step : ℕ) (xs : List A)
      → 0 < step
      → (length xs ≤ length (slices step xs) * step)
        × (length (slices step xs) * step < length xs + step)
  unfolding slices
  length-slices step xs pos = omega (arith, cuts_count step (length xs) 0 xs pos (omega arith))
