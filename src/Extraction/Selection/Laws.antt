-- ===== src/Extraction/Selection/Laws.antt =====
-- Which points feed the extraction, and in which order.
use cat_graphrag.Prelude.{
  ℕ, suc, ◌+◌, ◌≤◌, List, [], ◌∷◌, ◌≡◌, ◌⊎◌, ◌↔◌, refl, sym, ap, ◌∙◌, Bool, true, false, Option,
  none, some, map, All, Has, Bool-cases, inl, inr, arith,
}
use cat_graphrag.Prelude.Keys.{nat_key, pair_key}
use cat_graphrag.Prelude.Sort.{find, sort_by, Ascending, Unique, sort_by-Ascending, Has-sort_by}
use cat_graphrag.Extraction.Json.{Runtime}
use cat_graphrag.Extraction.Selection.{
  Point, usable_point, position, sort_key, selected, select_extraction_text_points,
}

abbrev pub Keyed : Type 0
Keyed = (ℕ × (ℕ × ℕ)) × Point

abbrev pub key_of : Keyed → ℕ × (ℕ × ℕ)
key_of e = e.0

weaken : (n : ℕ) (es : List Keyed) → All (λ e. n + 1 ≤ e.0.1.1) es → All (λ e. n ≤ e.0.1.1) es
weaken n [] h = tt
weaken n (e ∷ es) h = (omega (arith, h.0), weaken n es h.1)

arrival_eq : (o : Option ℕ) (n : ℕ) → n ≤ (sort_key o n).1.1
arrival_eq none n = omega arith
arrival_eq (some m) n = omega arith

late_eq : (o : Option ℕ) (n : ℕ) → (sort_key o n).1.1 ≤ n
late_eq none n = omega arith
late_eq (some m) n = omega arith

-- The pair of a point with its key comes from the points, which arrive from `n` on.
abbrev pub Arrived : ℕ → List Point → Keyed → Type 0
Arrived n [] e = ⊥
Arrived n (p ∷ ps) e = ((sort_key (position p) n, p) ≡ e) ⊎ Arrived (n + 1) ps e

module _ (python : Runtime) (is_alnum : ℕ → Bool) where
  arrivals : (n : ℕ) (ps : List Point) → All (λ e. n ≤ e.0.1.1) (selected python is_alnum n ps)
  unfolding selected
  arrivals n [] = tt
  arrivals n (p ∷ ps) =
      let rest = weaken n (selected python is_alnum (n + 1) ps) (arrivals (n + 1) ps) in
      elim (Bool-cases (usable_point python is_alnum p)) [
        | inl e ↦ rw (e, All) (arrival_eq (position p) n, rest)
        | inr e ↦ rw (e, All) rest
      ]

  find-late :
      (k : ℕ × (ℕ × ℕ)) (n : ℕ) (es : List Keyed)
      → suc k.1.1 ≤ n
      → All (λ e. n ≤ e.0.1.1) es
      → find key_of k es ≡ none
  unfolding find
  find-late k n [] h a = refl
  find-late k n (e ∷ es) h a =
      ground (arith, nat_key.beq_iff e.0.1.1 k.1.1, a.0, find-late k n es h a.1)

  selected-Unique : (n : ℕ) (ps : List Point) → Unique key_of (selected python is_alnum n ps)
  unfolding selected
  selected-Unique n [] = tt
  selected-Unique n (p ∷ ps) =
      let rest = selected-Unique (n + 1) ps in
      elim (Bool-cases (usable_point python is_alnum p)) [
        | inl e ↦
            rw (e, Unique)
              (
                find-late (sort_key (position p) n) (n + 1) (selected python is_alnum (n + 1) ps)
                    (omega (arith, late_eq (position p) n)) (arrivals (n + 1) ps),
                rest,
              )
        | inr e ↦ rw (e, Unique) rest
      ]

  Has-selected :
      (e : Keyed) (n : ℕ) (ps : List Point)
      → Has e (selected python is_alnum n ps)
        ↔ (Arrived n ps e × (usable_point python is_alnum e.1 ≡ true))
  unfolding selected
  Has-selected e n [] = (λ h. absurd h, λ h. absurd h.0)
  Has-selected e n (p ∷ ps) = elim (Bool-cases (usable_point python is_alnum p)) [
    | inl u ↦
        let usable_of : (sort_key (position p) n, p) ≡ e → usable_point python is_alnum e.1 ≡ true =
          λ q. ap (λ (x : Keyed). usable_point python is_alnum x.1) (sym q) ∙ u in
        rw (u, Has) (ground (arith, usable_of, Has-selected e (n + 1) ps))
    | inr u ↦
        let not_it : (sort_key (position p) n, p) ≡ e → usable_point python is_alnum e.1 ≡ false =
          λ q. ap (λ (x : Keyed). usable_point python is_alnum x.1) (sym q) ∙ u in
        rw (u, Has) (ground (arith, not_it, Has-selected e (n + 1) ps))
  ]

  -- The points that are used are the usable ones, in strictly ascending order of position (with those
  -- that have none at the end) and then of arrival.
  pub select_extraction_text_points_lem :
      (points : List Point)
      → (sorted : List Keyed) × (select_extraction_text_points python is_alnum points
          ≡ map (λ e. e.1) sorted)
        × Ascending key_of sorted
        × ((e : Keyed)
            → Has e sorted ↔ (Arrived 0 points e × (usable_point python is_alnum e.1 ≡ true)))
  unfolding select_extraction_text_points
  select_extraction_text_points_lem points =
      let es = selected python is_alnum 0 points in
      (
        sort_by key_of es,
        refl,
        sort_by-Ascending key_of es (selected-Unique 0 points),
        λ e. (
          λ h. (Has-selected e 0 points).0 ((Has-sort_by key_of e es).0 h),
          λ h. (Has-sort_by key_of e es).1 ((Has-selected e 0 points).1 h),
        ),
      )
