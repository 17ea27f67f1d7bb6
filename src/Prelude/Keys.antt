-- ===== src/Prelude/Keys.antt =====
-- Keys of dictionaries and of `sorted`: an equality and a total order. Texts are lists of code
-- points, ordered as Python orders `str`; pairs are ordered by their first parts first.
use Prim.Native.Nat.{ℕ}
use mathlib.Core.Path.{◌≡◌, refl}
use mathlib.Core.Logic.{◌↔◌, ◌⊎◌, inl, inr}
use mathlib.Core.Bool.{Bool, true, false, ◌&&◌, ◌||◌, not}
use mathlib.Core.List.{List, [], ◌∷◌}
use native.Mathlib.Omega.{arith}
use cat_graphrag.Prelude.Tests.{ltb, leb, ◌==◌, ==_iff}

pub record Key {ℓ} (K : Type ℓ) : Type ℓ where
  pub beq : K → K → Bool
  pub beq_iff : (a b : K) → (beq a b ≡ true) ↔ (a ≡ b)
  pub ble : K → K → Bool
  pub ble_total : (a b : K) → (ble a b ≡ true) ⊎ (ble b a ≡ true)
  pub ble_trans : (a b c : K) → ble a b ≡ true → ble b c ≡ true → ble a c ≡ true
  pub ble_antisym : (a b : K) → ble a b ≡ true → ble b a ≡ true → a ≡ b

abbrev pub Str : Type 0
Str = List ℕ

abbrev pub str_eq : Str → Str → Bool
str_eq [] [] = true
str_eq [] (_ ∷ _) = false
str_eq (_ ∷ _) [] = false
str_eq (a ∷ s) (b ∷ t) = a == b && str_eq s t

-- x in xs
abbrev pub contains : Str → List Str → Bool
contains x [] = false
contains x (y ∷ ys) = str_eq y x || contains x ys

pub str_eq_iff : (s t : Str) → (str_eq s t ≡ true) ↔ (s ≡ t)
str_eq_iff [] [] = ground arith
str_eq_iff [] (_ ∷ _) = ground arith
str_eq_iff (_ ∷ _) [] = ground arith
str_eq_iff (a ∷ s) (b ∷ t) = ground (arith, str_eq_iff s t)

abbrev pub str_le : Str → Str → Bool
str_le [] _ = true
str_le (_ ∷ _) [] = false
str_le (a ∷ s) (b ∷ t) = ltb a b || (a == b && str_le s t)

pub str_le_total : (s t : Str) → (str_le s t ≡ true) ⊎ (str_le t s ≡ true)
str_le_total [] t = inl refl
str_le_total (a ∷ s) [] = inr refl
str_le_total (a ∷ s) (b ∷ t) = ground (arith, str_le_total s t)

pub str_le_trans : (s t u : Str) → str_le s t ≡ true → str_le t u ≡ true → str_le s u ≡ true
str_le_trans [] t u p q = refl
str_le_trans (a ∷ s) [] u p q = ground arith
str_le_trans (a ∷ s) (b ∷ t) [] p q = ground arith
str_le_trans (a ∷ s) (b ∷ t) (c ∷ u) p q = ground (arith, str_le_trans s t u)

pub str_le_antisym : (s t : Str) → str_le s t ≡ true → str_le t s ≡ true → s ≡ t
str_le_antisym [] [] p q = refl
str_le_antisym [] (b ∷ t) p q = ground arith
str_le_antisym (a ∷ s) [] p q = ground arith
str_le_antisym (a ∷ s) (b ∷ t) p q = ground (arith, str_le_antisym s t)

instance abbrev pub str_key : Key Str
str_key = record {
  beq = str_eq;
  beq_iff = str_eq_iff;
  ble = str_le;
  ble_total = str_le_total;
  ble_trans = str_le_trans;
  ble_antisym = str_le_antisym;
}

pub leb_total : (a b : ℕ) → (leb a b ≡ true) ⊎ (leb b a ≡ true)
leb_total a b = ground arith

pub leb_trans : (a b c : ℕ) → leb a b ≡ true → leb b c ≡ true → leb a c ≡ true
leb_trans a b c h k = ground arith

pub leb_antisym : (a b : ℕ) → leb a b ≡ true → leb b a ≡ true → a ≡ b
leb_antisym a b h k = ground arith

instance abbrev pub nat_key : Key ℕ
nat_key = record {
  beq = λ a b. a == b;
  beq_iff = ==_iff;
  ble = leb;
  ble_total = leb_total;
  ble_trans = leb_trans;
  ble_antisym = leb_antisym;
}

module _ {ℓ} {A B : Type ℓ} ⦃ka : Key A⦄ ⦃kb : Key B⦄ where
  abbrev pair_eq : A × B → A × B → Bool
  pair_eq (a, b) (c, d) = ka.beq a c && kb.beq b d

  pub pair_eq_iff : (p q : A × B) → (pair_eq p q ≡ true) ↔ (p ≡ q)
  pair_eq_iff (a, b) (c, d) = ground (arith, ka.beq_iff a c, kb.beq_iff b d)

  abbrev pair_le : A × B → A × B → Bool
  pair_le (a, b) (c, d) = not (ka.ble c a) || (ka.beq a c && kb.ble b d)

  pub pair_le_total : (p q : A × B) → (pair_le p q ≡ true) ⊎ (pair_le q p ≡ true)
  pair_le_total (a, b) (c, d) = ground (
    arith,
    ka.beq_iff a c,
    ka.beq_iff c a,
    ka.ble_antisym a c,
    ka.ble_total a c,
    kb.ble_total b d,
  )

  pub pair_le_trans : (p q r : A × B) → pair_le p q ≡ true → pair_le q r ≡ true → pair_le p r ≡ true
  pair_le_trans (a, b) (c, d) (e, f) h k = ground (
    arith,
    ka.beq_iff a c,
    ka.beq_iff c e,
    ka.beq_iff a e,
    ka.ble_trans e a c,
    ka.ble_trans c e a,
    ka.ble_total a c,
    ka.ble_total c e,
    kb.ble_trans b d f,
  )

  pub pair_le_antisym : (p q : A × B) → pair_le p q ≡ true → pair_le q p ≡ true → p ≡ q
  pair_le_antisym (a, b) (c, d) h k =
      ground (arith, ka.beq_iff a c, ka.beq_iff c a, ka.ble_total a c, kb.ble_antisym b d)

  instance abbrev pub pair_key : Key (A × B)
  pair_key = record {
    beq = pair_eq;
    beq_iff = pair_eq_iff;
    ble = pair_le;
    ble_total = pair_le_total;
    ble_trans = pair_le_trans;
    ble_antisym = pair_le_antisym;
  }
