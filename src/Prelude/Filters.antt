-- ===== src/Prelude/Filters.antt =====
-- Python's list comprehensions with a condition, `any`, and membership of numbers.
use mathlib.Core.Path.{◌≡◌, refl, sym, ap, ◌∙◌}
use mathlib.Core.Logic.{◌↔◌, inl, inr}
use mathlib.Core.Bool.{Bool, true, false, ◌&&◌, ◌||◌}
use mathlib.Core.List.{List, [], ◌∷◌, ◌++◌, map}
use native.Mathlib.Omega.{arith}
use cat_graphrag.Prelude.Tests.{if◌then◌else◌, Bool-cases}
use cat_graphrag.Prelude.Keys.{Key}
use cat_graphrag.Prelude.Lists.{Has}

-- [x for x in xs if p(x)]
abbrev pub filter_by : {A : Type 0} → (A → Bool) → List A → List A
filter_by p [] = []
filter_by p (x ∷ xs) = let rest = filter_by p xs in if p x then x ∷ rest else rest

-- any(p(x) for x in xs)
abbrev pub any : {A : Type 0} → (A → Bool) → List A → Bool
any p [] = false
any p (x ∷ xs) = p x || any p xs

-- k in ks
abbrev pub is_in {ℓ} : {K : Type ℓ} → ⦃key : Key K⦄ → K → List K → Bool
is_in k [] = false
is_in ⦃key = key⦄ k (j ∷ ks) = key.beq j k || is_in k ks

module _ {A : Type 0} where
  pub Has-filter_by :
      (p : A → Bool) (x : A) (xs : List A) → Has x (filter_by p xs) ↔ (Has x xs × (p x ≡ true))
  Has-filter_by p x [] = ground arith
  Has-filter_by p x (y ∷ ys) = elim (Bool-cases (p y)) [
    | inl e ↦ rw e (
      λ h. elim h [
        | inl q ↦ (inl q, ap p (sym q) ∙ e)
        | inr r ↦ let (a, b) = (Has-filter_by p x ys).0 r in (inr a, b)
      ],
      λ (h, q). elim h [ inl r ↦ inl r | inr r ↦ inr ((Has-filter_by p x ys).1 (r, q)) ],
    )
    | inr e ↦ rw e (
      λ h. let (a, b) = (Has-filter_by p x ys).0 h in (inr a, b),
      λ (h, q). elim h [
        | inl r ↦ absurd (differ (sym e ∙ ap p r ∙ q))
        | inr r ↦ (Has-filter_by p x ys).1 (r, q)
      ],
    )
  ]
    where
      differ : false ≡ true → ⊥
      differ h = ground arith

  pub any_iff :
      (p : A → Bool) (xs : List A) → (any p xs ≡ true) ↔ ((x : A) × Has x xs × (p x ≡ true))
  any_iff p [] = (λ h. absurd (ground arith), λ (x, h, e). absurd h)
  any_iff p (y ∷ ys) = (
    λ h. elim (Bool-cases (p y)) [
      | inl e ↦ (y, inl refl, e)
      | inr e ↦
          let (x, a, b) = (any_iff p ys).0 (sym (ap (λ b. b || any p ys) e) ∙ h) in (x, inr a, b)
    ],
    λ (x, h, e). elim h [
      | inl q ↦ ap (λ b. b || any p ys) (ap p q ∙ e)
      | inr r ↦ let found = (any_iff p ys).1 (x, r, e) in ground arith
    ],
  )

  pub filter_by-filter_by :
      (p q : A → Bool) (xs : List A) → filter_by q (filter_by p xs) ≡ filter_by (λ x. p x && q x) xs
  filter_by-filter_by p q [] = refl
  filter_by-filter_by p q (x ∷ xs) = elim (Bool-cases (p x)) [
    | inl e ↦ rw (e, filter_by-filter_by p q xs) refl
    | inr e ↦ rw (e, filter_by-filter_by p q xs) refl
  ]

  pub filter_by-cong :
      (p q : A → Bool) → ((x : A) → p x ≡ q x) → (xs : List A) → filter_by p xs ≡ filter_by q xs
  filter_by-cong p q h [] = refl
  filter_by-cong p q h (x ∷ xs) = rw (h x, filter_by-cong p q h xs) refl

  pub filter_by-all :
      (p : A → Bool) (xs : List A) → ((x : A) → Has x xs → p x ≡ true) → filter_by p xs ≡ xs
  filter_by-all p [] h = refl
  filter_by-all p (x ∷ xs) h = rw (h x (inl refl), filter_by-all p xs (λ y g. h y (inr g))) refl

  pub any-filter_by :
      (p q : A → Bool) (xs : List A) → any q (filter_by p xs) ≡ any (λ x. p x && q x) xs
  any-filter_by p q [] = refl
  any-filter_by p q (x ∷ xs) = elim (Bool-cases (p x)) [
    | inl e ↦ rw (e, any-filter_by p q xs) refl
    | inr e ↦ rw (e, any-filter_by p q xs) refl
  ]

  pub any-or : (p q : A → Bool) (xs : List A) → (any p xs || any q xs) ≡ any (λ x. p x || q x) xs
  any-or p q [] = refl
  any-or p q (x ∷ xs) = ground (arith, any-or p q xs)

  pub any-cong : (p q : A → Bool) → ((x : A) → p x ≡ q x) → (xs : List A) → any p xs ≡ any q xs
  any-cong p q h [] = refl
  any-cong p q h (x ∷ xs) = rw (h x, any-cong p q h xs) refl

  pub any-append : (p : A → Bool) (xs ys : List A) → any p (xs ++ ys) ≡ (any p xs || any p ys)
  any-append p [] ys = refl
  any-append p (x ∷ xs) ys = ground (arith, any-append p xs ys)

  pub any-none : (xs : List A) → any (λ _. false) xs ≡ false
  any-none [] = refl
  any-none (x ∷ xs) = any-none xs

module _ {K : Type 0} ⦃key : Key K⦄ where
  pub is_in_iff : (k : K) (ks : List K) → (is_in k ks ≡ true) ↔ Has k ks
  is_in_iff k [] = ground arith
  is_in_iff k (j ∷ ks) = ground (arith, key.beq_iff j k, is_in_iff k ks)

  pub is_in-append : (k : K) (xs ys : List K) → is_in k (xs ++ ys) ≡ (is_in k xs || is_in k ys)
  is_in-append k [] ys = refl
  is_in-append k (x ∷ xs) ys = ground (arith, is_in-append k xs ys)

  -- Whether a key is among the keys of the elements that pass a test.
  pub is_in-map :
      {A : Type 0} (p : A → Bool) (key_of : A → K) (k : K) (xs : List A)
      → is_in k (map key_of (filter_by p xs)) ≡ any (λ x. p x && key.beq (key_of x) k) xs
  is_in-map p key_of k [] = refl
  is_in-map p key_of k (x ∷ xs) = elim (Bool-cases (p x)) [
    | inl e ↦ rw (e, is_in-map p key_of k xs) refl
    | inr e ↦ rw (e, is_in-map p key_of k xs) refl
  ]

pub filter_by-none :
    {A : Type 0} (p : A → Bool) (xs : List A)
    → ((x : A) → Has x xs → p x ≡ false)
    → filter_by p xs ≡ []
filter_by-none p [] h = refl
filter_by-none p (x ∷ xs) h = rw (h x (inl refl), filter_by-none p xs (λ y g. h y (inr g))) refl
