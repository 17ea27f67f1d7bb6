-- ===== src/Extraction/Payload/Laws.antt =====
-- The parser and the count of raw items read the same payload of an answer: stripping a text that is
-- stripped changes nothing.
use cat_graphrag.Prelude.{
  ℕ, ◌≤◌, [], ◌∷◌, ◌++◌, ◌≡◌, refl, sym, ap, ◌∙◌, Bool, length, Bool-cases, inl, inr, arith,
}
use mathlib.Core.List.{reverse, reverse-append, reverse-reverse}
use cat_graphrag.Prelude.Keys.{Str}
use cat_graphrag.Extraction.Json.{Runtime}
use cat_graphrag.Extraction.Payload.{
  drop_while, strip_end, strip, is_fenced, parsed_payload, counted_payload,
}

module _ (p : ℕ → Bool) where
  drop_while_self : (s : Str) → drop_while p (drop_while p s) ≡ drop_while p s
  unfolding drop_while
  drop_while_self [] = refl
  drop_while_self (c ∷ s) = ground (arith, drop_while_self s)

  length-drop_while : (s : Str) → length (drop_while p s) ≤ length s
  unfolding drop_while
  length-drop_while [] = omega arith
  length-drop_while (c ∷ s) = ground (arith, length-drop_while s)

  -- What is dropped is a prefix.
  dropped_prefix : (s : Str) → (t : Str) × (s ≡ t ++ drop_while p s)
  unfolding drop_while
  dropped_prefix [] = ([], refl)
  dropped_prefix (c ∷ s) =
      let (t, e) = dropped_prefix s in
      elim (Bool-cases (p c)) [
        | inl yes_ ↦ (c ∷ t, rw yes_ (ap (λ l. c ∷ l) e))
        | inr no_ ↦ ([], rw no_ refl)
      ]

  -- A prefix of a text that starts with no such character does neither.
  drop_while-prefix : (s t : Str) → drop_while p (s ++ t) ≡ s ++ t → drop_while p s ≡ s
  unfolding drop_while
  drop_while-prefix [] t h = refl
  drop_while-prefix (c ∷ s) t h = elim (Bool-cases (p c)) [
    | inl yes_ ↦
        let shorter : length (drop_while p (s ++ t)) ≤ length (s ++ t) =
          length-drop_while (s ++ t) in
        let all_of_it : drop_while p (s ++ t) ≡ c ∷ (s ++ t) = ground arith in
        let same : length (drop_while p (s ++ t)) ≡ length (c ∷ (s ++ t)) = ap length all_of_it in
        absurd (omega arith)
    | inr no_ ↦ rw no_ refl
  ]

module _ (python : Runtime) where
  open python use {is_space}

  strip_end_self : (s : Str) → strip_end python (strip_end python s) ≡ strip_end python s
  unfolding strip_end
  strip_end_self s =
      rw (reverse-reverse (drop_while is_space (reverse s)), drop_while_self is_space (reverse s))
        refl

  drop_while-strip_end :
      (s : Str)
      → drop_while is_space s ≡ s
      → drop_while is_space (strip_end python s) ≡ strip_end python s
  unfolding strip_end
  drop_while-strip_end s h =
      let (t, e) = dropped_prefix is_space (reverse s) in
      let whole : s ≡ strip_end python s ++ reverse t =
        sym (reverse-reverse s)
        ∙ ap reverse e
        ∙ reverse-append t (drop_while is_space (reverse s)) in
      drop_while-prefix is_space (strip_end python s) (reverse t)
        (sym (ap (drop_while is_space) whole) ∙ h ∙ whole)

  pub strip-strip : (s : Str) → strip python (strip python s) ≡ strip python s
  unfolding strip
  strip-strip s =
      ap (strip_end python)
        (drop_while-strip_end (drop_while is_space s) (drop_while_self is_space s))
      ∙ strip_end_self (drop_while is_space s)

  pub same_payload : (raw : Str) → counted_payload python raw ≡ parsed_payload python raw
  unfolding counted_payload parsed_payload
  same_payload raw = elim (Bool-cases (is_fenced python (strip python raw))) [
    | inl fenced ↦ rw fenced refl
    | inr plain ↦ rw (plain, strip-strip raw) refl
  ]
