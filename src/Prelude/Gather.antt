-- ===== src/Prelude/Gather.antt =====
-- Duplicates folded by key and the result sorted by it:
--   for x in xs: current = grouped.get(key(x)); grouped[key(x)] = x, or x merged into current
--   sorted(grouped.values(), key=key)
use mathlib.Core.Path.{◌≡◌, refl, sym, ap, ◌∙◌}
use mathlib.Core.Logic.{inl, inr}
use mathlib.Core.Option.{Option, none, some}
use mathlib.Core.List.{List, [], ◌∷◌, ◌++◌, map, append_assoc, append-nil}
use native.Mathlib.Omega.{arith}
use cat_graphrag.Prelude.Tests.{Bool-cases}
use cat_graphrag.Prelude.Lists.{All}
use cat_graphrag.Prelude.Keys.{Key}
use cat_graphrag.Prelude.Dict.{Dict, values, lookup, put, lookup-put, Distinct, put-Distinct}
use cat_graphrag.Prelude.Sort.{
  find, occurrences, sort_by, Ascending, Unique, find-sort_by, sort_by-Ascending, sort_by_self,
  Ascending-Unique,
}

module _ {ℓ} {A : Type ℓ} (merge : A → A → A) where
  abbrev pub absorb : Option A → A → A
  absorb none x = x
  absorb (some c) x = merge c x

  -- What a key holds after the elements `xs` that have it, in order.
  unfoldable pub absorb_all : Option A → List A → Option A
  absorb_all cur [] = cur
  absorb_all cur (x ∷ xs) = absorb_all (some (absorb cur x)) xs

module _ {ℓ} {K A : Type ℓ} ⦃order : Key K⦄ (key : A → K) where
  -- Each value stands under its own key.
  abbrev pub Keyed : Dict K A → Type ℓ
  Keyed = All (λ e. key e.1 ≡ e.0)

  pub find-values : (k : K) (d : Dict K A) → Keyed d → find key k (values d) ≡ lookup k d
  unfolding find lookup
  find-values k [] h = refl
  find-values k ((j, v) ∷ d) h = rw (h.0, find-values k d h.1) refl

  pub Unique-values : (d : Dict K A) → Keyed d → Distinct d → Unique key (values d)
  Unique-values [] h u = tt
  Unique-values ((j, v) ∷ d) h u = (rw h.0 (find-values j d h.1 ∙ u.0), Unique-values d h.1 u.1)

  put-Keyed : (k : K) (v : A) (d : Dict K A) → key v ≡ k → Keyed d → Keyed (put k v d)
  unfolding put
  put-Keyed k v [] e h = (e, tt)
  put-Keyed k v ((j, w) ∷ d) e h = elim (Bool-cases (order.beq j k)) [
    | inl same ↦ rw same (e ∙ sym ((order.beq_iff j k).0 same), h.1)
    | inr other ↦ rw other (h.0, put-Keyed k v d e h.1)
  ]

  lookup-key : (k : K) (d : Dict K A) (c : A) → Keyed d → lookup k d ≡ some c → key c ≡ k
  unfolding lookup
  lookup-key k [] c h e = cc
  lookup-key k ((j, v) ∷ d) c h e = ground (arith, h.0, order.beq_iff j k, lookup-key k d c h.1)

  lookup-append : (k : K) (d e : Dict K A) → lookup k d ≡ none → lookup k (d ++ e) ≡ lookup k e
  unfolding lookup
  lookup-append k [] e h = refl
  lookup-append k ((j, v) ∷ d) e h = ground (arith, lookup-append k d e)

  put-append : (k : K) (v : A) (d : Dict K A) → lookup k d ≡ none → put k v d ≡ d ++ (k, v) ∷ []
  unfolding lookup put
  put-append k v [] h = refl
  put-append k v ((j, w) ∷ d) h = ground (arith, put-append k v d)

  -- The dictionary in which each element stands under its key.
  paired : List A → Dict K A
  paired = map (λ x. (key x, x))

  values-paired : (xs : List A) → values (paired xs) ≡ xs
  unfolding paired
  values-paired [] = refl
  values-paired (x ∷ xs) = ap (λ l. x ∷ l) (values-paired xs)

module _ {ℓ} {K A : Type ℓ} ⦃order : Key K⦄ (key : A → K) (merge : A → A → A) where
  unfoldable pub collect : Dict K A → List A → Dict K A
  collect grouped [] = grouped
  collect grouped (x ∷ xs) =
      collect (put (key x) (absorb merge (lookup (key x) grouped) x) grouped) xs

  unfoldable pub gather : List A → List A
  gather xs = sort_by key (values (collect [] xs))

  pub lookup-collect :
      (k : K) (d : Dict K A) (xs : List A)
      → lookup k (collect d xs) ≡ absorb_all merge (lookup k d) (occurrences key k xs)
  unfolding collect occurrences absorb_all
  lookup-collect k d [] = refl
  lookup-collect k d (x ∷ xs) =
      let cur = absorb merge (lookup (key x) d) x in
      lookup-collect k (put (key x) cur d) xs
      ∙ rw (lookup-put (key x) k cur d) (elim (Bool-cases (order.beq (key x) k)) [
        | inl same ↦ rw (same, (order.beq_iff (key x) k).0 same) refl
        | inr other ↦ rw other refl
      ])

  pub collect-Distinct : (d : Dict K A) (xs : List A) → Distinct d → Distinct (collect d xs)
  unfolding collect
  collect-Distinct d [] h = h
  collect-Distinct d (x ∷ xs) h =
      let cur = absorb merge (lookup (key x) d) x in
      collect-Distinct (put (key x) cur d) xs (put-Distinct (key x) cur d h)

  -- No element of `xs` has a key of `d`.
  abbrev Fresh : Dict K A → List A → Type ℓ
  Fresh d = All (λ x. lookup (key x) d ≡ none)

  Fresh-put :
      (x : A) (d : Dict K A) (xs : List A)
      → find key (key x) xs ≡ none
      → Fresh d xs
      → Fresh (put (key x) x d) xs
  unfolding find
  Fresh-put x d [] u h = tt
  Fresh-put x d (y ∷ ys) u h = (
    ground (
      arith,
      h.0,
      lookup-put (key x) (key y) x d,
      order.beq_iff (key x) (key y),
      order.beq_iff (key y) (key x),
    ),
    Fresh-put x d ys (ground arith) h.1,
  )

  -- Elements with different keys are collected as they are.
  collect-Unique :
      (d : Dict K A) (xs : List A) → Unique key xs → Fresh d xs → collect d xs ≡ d ++ paired key xs
  unfolding collect paired
  collect-Unique d [] u h = sym (append-nil d)
  collect-Unique d (x ∷ xs) u h = rw h.0 (
      collect-Unique (put (key x) x d) xs u.1 (Fresh-put x d xs u.0 h.1)
      ∙ rw (put-append key (key x) x d h.0) (append_assoc d ((key x, x) ∷ []) (paired key xs)))

  Fresh-nil : (xs : List A) → Fresh [] xs
  unfolding lookup
  Fresh-nil [] = tt
  Fresh-nil (x ∷ xs) = (refl, Fresh-nil xs)

  -- Gathering what is already gathered changes nothing.
  pub gather_self : (xs : List A) → Ascending key xs → gather xs ≡ xs
  unfolding gather
  gather_self xs a =
      rw (collect-Unique [] xs (Ascending-Unique key xs a) (Fresh-nil xs))
        (rw values-paired (sort_by_self key xs a))

module _ {ℓ} {K A : Type ℓ} ⦃order : Key K⦄ (key : A → K) (merge : A → A → A)
    (merge_key : (c x : A) → key (merge c x) ≡ key c) where
  pub collect-Keyed :
      (d : Dict K A) (xs : List A) → Keyed key d → Keyed key (collect key merge d xs)
  unfolding collect
  collect-Keyed d [] h = h
  collect-Keyed d (x ∷ xs) h =
      collect-Keyed (put (key x) (absorb merge (lookup (key x) d) x) d) xs (
        put-Keyed key (key x) (absorb merge (lookup (key x) d) x) d
          (absorbed (lookup (key x) d) refl) h)
    where
      absorbed : (o : Option A) → lookup (key x) d ≡ o → key (absorb merge o x) ≡ key x
      absorbed none e = refl
      absorbed (some c) e = merge_key c x ∙ lookup-key key (key x) d c h e

  -- Under each key stands what the elements with that key fold to.
  pub find-gather :
      (k : K) (xs : List A)
      → find key k (gather key merge xs) ≡ absorb_all merge none (occurrences key k xs)
  unfolding gather lookup
  find-gather k xs =
      find-sort_by key k (values (collect key merge [] xs))
      ∙ find-values key k (collect key merge [] xs) (collect-Keyed [] xs tt)
      ∙ lookup-collect key merge k [] xs

  -- The keys come in strictly ascending order: none stands twice.
  pub gather-Ascending : (xs : List A) → Ascending key (gather key merge xs)
  unfolding gather
  gather-Ascending xs = sort_by-Ascending key (values (collect key merge [] xs)) (
      Unique-values key (collect key merge [] xs) (collect-Keyed [] xs tt)
        (collect-Distinct key merge [] xs tt))
