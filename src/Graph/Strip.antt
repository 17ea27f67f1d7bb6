-- ===== src/Graph/Strip.antt =====
-- What the strip of a source leaves of the RELATED_TO relationships.
use mathlib.Core.Path.{subst}
use cat_graphrag.Prelude.{
  List, [], ◌∷◌, ◌≡◌, refl, sym, true, false, Option, none, some, Has, Bool, Bool-cases, inl, inr,
  ◌⊎◌, if◌then◌else◌,
}
use cat_graphrag.Prelude.Keys.{Str}
use cat_graphrag.Graph.{RelatedTo}
use cat_graphrag.Graph.Cypher.{strip_where, keep_stripped, files_without}

-- What is left of a relation after the strip of a source.
pub record Left {W : Type 0} (p : RelatedTo W → Bool) (source : Str) (r r' : RelatedTo W)
    : Type 0 where
  pub source_same : r.source ≡ r'.source
  pub target_same : r.target ≡ r'.target
  pub files :
      r'.source_files ≡ (if p r then files_without source r.source_files else r.source_files)

module _ {W : Type 0} (p : RelatedTo W → Bool) (source : Str) where
  untouched : (r : RelatedTo W) → p r ≡ false → Left p source r r
  untouched r e = record { source_same = refl; target_same = refl; files = rw e refl }

  stripped :
      (r : RelatedTo W) (o : Option (List Str))
      → p r ≡ true
      → files_without source r.source_files ≡ o
      → Left p source r (record r { source_files = o })
  stripped r o e f = record { source_same = refl; target_same = refl; files = rw e (sym f) }

  kept_left :
      (r r' : RelatedTo W) (o : Option (List Str)) (rest : List (RelatedTo W))
      → p r ≡ true
      → files_without source r.source_files ≡ o
      → Has r' (keep_stripped r o rest)
      → Has r' rest ⊎ Left p source r r'
  kept_left r r' none rest e f (inl h) = inr (subst (Left p source r) h (stripped r none e f))
  kept_left r r' none rest e f (inr h) = inl h
  kept_left r r' (some []) rest e f h = inl h
  kept_left r r' (some (x ∷ xs)) rest e f (inl h) =
      inr (subst (Left p source r) h (stripped r (some (x ∷ xs)) e f))
  kept_left r r' (some (x ∷ xs)) rest e f (inr h) = inl h

  pub Has-strip_where :
      (r' : RelatedTo W) (rs : List (RelatedTo W))
      → Has r' (strip_where p source rs)
      → (r : RelatedTo W) × Has r rs × Left p source r r'
  unfolding strip_where
  Has-strip_where r' [] h = absurd h
  Has-strip_where r' (r ∷ rs) h = elim (Bool-cases (p r)) [
    | inl e ↦
        let stays =
          subst
            (λ b. Has r' (
              if b
              then keep_stripped r (files_without source r.source_files) (strip_where p source rs)
              else r ∷ strip_where p source rs))
            e h in
        elim (kept_left r r' (files_without source r.source_files) _ e refl stays) [
          | inl k ↦ let (a, has, l) = Has-strip_where r' rs k in (a, inr has, l)
          | inr l ↦ (r, inl refl, l)
        ]
    | inr e ↦
        let stays =
          subst
            (λ b. Has r' (
              if b
              then keep_stripped r (files_without source r.source_files) (strip_where p source rs)
              else r ∷ strip_where p source rs))
            e h in
        elim stays [
          | inl k ↦ (r, inl refl, subst (Left p source r) k (untouched r e))
          | inr k ↦ let (a, has, l) = Has-strip_where r' rs k in (a, inr has, l)
        ]
  ]
