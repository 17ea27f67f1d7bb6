-- ===== src/Prelude/Sort.antt =====
-- Python's `sorted(xs, key=key)`: stable, by a total order of keys.
use mathlib.Core.Path.{◌≡◌, refl, ◌∙◌}
use mathlib.Core.Logic.{◌⊎◌, ◌↔◌, inl, inr}
use mathlib.Core.Bool.{true, false}
use mathlib.Core.Option.{Option, none, some}
use mathlib.Core.List.{List, [], ◌∷◌}
use native.Mathlib.Omega.{arith}
use cat_graphrag.Prelude.Tests.{if◌then◌else◌, Bool-cases}
use cat_graphrag.Prelude.Lists.{All, Has}
use cat_graphrag.Prelude.Keys.{Key}

module _ {ℓ} {K A : Type ℓ} ⦃order : Key K⦄ (key : A → K) where
  -- The first element with key `k`.
  unfoldable pub find : K → List A → Option A
  find k [] = none
  find k (x ∷ xs) = if order.beq (key x) k then some x else find k xs

  -- The elements with key `k`, in order.
  unfoldable pub occurrences : K → List A → List A
  occurrences k [] = []
  occurrences k (x ∷ xs) =
      let rest = occurrences k xs in if order.beq (key x) k then x ∷ rest else rest

  unfoldable pub insert : A → List A → List A
  insert x [] = x ∷ []
  insert x (y ∷ ys) = if order.ble (key x) (key y) then x ∷ y ∷ ys else y ∷ insert x ys

  -- sorted(xs, key=key), a stable sort
  unfoldable pub sort_by : List A → List A
  unfolding insert
  sort_by [] = []
  sort_by (x ∷ xs) = insert x (sort_by xs)

  -- Strictly ascending keys.
  abbrev pub Ascending : List A → Type 0
  Ascending [] = Unit
  Ascending (x ∷ xs) = All (λ y. order.ble (key y) (key x) ≡ false) xs × Ascending xs

  find-insert :
      (k : K) (x : A) (xs : List A)
      → find k (insert x xs) ≡ (if order.beq (key x) k then some x else find k xs)
  unfolding find insert
  find-insert k x [] = refl
  find-insert k x (y ∷ ys) = ground (
    arith,
    order.beq_iff (key x) k,
    order.beq_iff (key y) k,
    order.ble_total k k,
    find-insert k x ys,
  )

  pub find-sort_by : (k : K) (xs : List A) → find k (sort_by xs) ≡ find k xs
  unfolding find sort_by
  find-sort_by k [] = refl
  find-sort_by k (x ∷ xs) = ground (arith, find-insert k x (sort_by xs), find-sort_by k xs)

  abbrev Above : A → List A → Type 0
  Above x = All (λ y. order.ble (key y) (key x) ≡ false)

  Above-le : (x z : A) (ys : List A) → order.ble (key x) (key z) ≡ true → Above z ys → Above x ys
  Above-le x z [] h a = tt
  Above-le x z (y ∷ ys) h a =
      (ground (arith, a.0, order.ble_trans (key y) (key x) (key z)), Above-le x z ys h a.1)

  Above-insert :
      (z x : A) (ys : List A)
      → order.ble (key x) (key z) ≡ false
      → Above z ys
      → Above z (insert x ys)
  unfolding insert
  Above-insert z x [] h a = (h, tt)
  Above-insert z x (y ∷ ys) h a = elim (Bool-cases (order.ble (key x) (key y))) [
    | inl before ↦ rw before (h, a)
    | inr after ↦ rw after (a.0, Above-insert z x ys h a.1)
  ]

  insert-Ascending :
      (x : A) (ys : List A) → find (key x) ys ≡ none → Ascending ys → Ascending (insert x ys)
  unfolding insert find
  insert-Ascending x [] h a = (tt, tt)
  insert-Ascending x (y ∷ ys) h a = elim (Bool-cases (order.ble (key x) (key y))) [
    | inl before ↦
        let strict : order.ble (key y) (key x) ≡ false =
          ground
            (arith, before, order.beq_iff (key y) (key x), order.ble_antisym (key y) (key x)) in
        rw before ((strict, Above-le x y ys before a.0), a)
    | inr after ↦
        let rest : find (key x) ys ≡ none = ground arith in
        rw after (Above-insert y x ys after a.0, insert-Ascending x ys rest a.1)
  ]

  -- No two elements have the same key.
  abbrev pub Unique : List A → Type ℓ
  Unique [] = Unit
  Unique (x ∷ xs) = (find (key x) xs ≡ none) × Unique xs

  pub sort_by-Ascending : (xs : List A) → Unique xs → Ascending (sort_by xs)
  unfolding sort_by
  sort_by-Ascending [] u = tt
  sort_by-Ascending (x ∷ xs) u =
      insert-Ascending x (sort_by xs) (find-sort_by (key x) xs ∙ u.0) (sort_by-Ascending xs u.1)

  pub sort_by_self : (xs : List A) → Ascending xs → sort_by xs ≡ xs
  unfolding sort_by insert
  sort_by_self [] a = refl
  sort_by_self (x ∷ []) a = refl
  sort_by_self (x ∷ y ∷ ys) a =
      rw (sort_by_self (y ∷ ys) a.1) (ground (arith, a.0.0, order.ble_total (key x) (key y)))

  find-Above :
      (x z : A) (ys : List A)
      → Above z ys
      → order.ble (key x) (key z) ≡ true
      → find (key x) ys ≡ none
  unfolding find
  find-Above x z [] a h = refl
  find-Above x z (y ∷ ys) a h =
      ground (arith, a.0, order.beq_iff (key y) (key x), find-Above x z ys a.1 h)

  pub Ascending-Unique : (xs : List A) → Ascending xs → Unique xs
  Ascending-Unique [] a = tt
  Ascending-Unique (x ∷ xs) a = (
    find-Above x x xs a.0 (ground (arith, order.ble_total (key x) (key x))),
    Ascending-Unique xs a.1,
  )

module _ {K A : Type 0} ⦃order : Key K⦄ (key : A → K) (z : A) where
  Has-insert : (x : A) (xs : List A) → Has z (insert key x xs) ↔ ((x ≡ z) ⊎ Has z xs)
  unfolding insert
  Has-insert x [] = ground arith
  Has-insert x (y ∷ ys) = elim (Bool-cases (order.ble (key x) (key y))) [
    | inl before ↦ rw (before, Has) (λ h. h, λ h. h)
    | inr after ↦ rw (after, Has) (ground (arith, Has-insert x ys))
  ]

  pub Has-sort_by : (xs : List A) → Has z (sort_by key xs) ↔ Has z xs
  unfolding sort_by
  Has-sort_by [] = (λ h. h, λ h. h)
  Has-sort_by (x ∷ xs) = ground (arith, Has-insert x (sort_by key xs), Has-sort_by xs)

module _ {ℓ} {K A : Type ℓ} ⦃order : Key K⦄ (key : A → K) where
  -- Ascending keys, with repetitions.
  abbrev pub Sorted : List A → Type 0
  Sorted [] = Unit
  Sorted (x ∷ xs) = All (λ y. order.ble (key x) (key y) ≡ true) xs × Sorted xs

  NotBelow-insert :
      (z x : A) (ys : List A)
      → order.ble (key z) (key x) ≡ true
      → All (λ y. order.ble (key z) (key y) ≡ true) ys
      → All (λ y. order.ble (key z) (key y) ≡ true) (insert key x ys)
  unfolding insert
  NotBelow-insert z x [] h a = (h, tt)
  NotBelow-insert z x (y ∷ ys) h a = elim (Bool-cases (order.ble (key x) (key y))) [
    | inl before ↦ rw before (h, a)
    | inr after ↦ rw after (a.0, NotBelow-insert z x ys h a.1)
  ]

  NotBelow-trans :
      (x z : A) (ys : List A)
      → order.ble (key x) (key z) ≡ true
      → All (λ y. order.ble (key z) (key y) ≡ true) ys
      → All (λ y. order.ble (key x) (key y) ≡ true) ys
  NotBelow-trans x z [] h a = tt
  NotBelow-trans x z (y ∷ ys) h a =
      (order.ble_trans (key x) (key z) (key y) h a.0, NotBelow-trans x z ys h a.1)

  insert-Sorted : (x : A) (ys : List A) → Sorted ys → Sorted (insert key x ys)
  unfolding insert
  insert-Sorted x [] a = (tt, tt)
  insert-Sorted x (y ∷ ys) a = elim (Bool-cases (order.ble (key x) (key y))) [
    | inl before ↦ rw before ((before, NotBelow-trans x y ys before a.0), a)
    | inr after ↦
        let above : order.ble (key y) (key x) ≡ true =
          ground (arith, order.ble_total (key x) (key y)) in
        rw after (NotBelow-insert y x ys above a.0, insert-Sorted x ys a.1)
  ]

  pub sort_by-Sorted : (xs : List A) → Sorted (sort_by key xs)
  unfolding sort_by
  sort_by-Sorted [] = tt
  sort_by-Sorted (x ∷ xs) = insert-Sorted x (sort_by key xs) (sort_by-Sorted xs)
