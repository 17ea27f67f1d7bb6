-- ===== src/Deletion/Batching.antt =====
-- The statements of the deletions, batch after batch, do what one statement for all would do.
use cat_graphrag.Prelude.{
  ℕ, List, [], ◌∷◌, ◌++◌, ◌≡◌, refl, sym, ap, ◌∙◌, Bool, false, ◌&&◌, ◌||◌, Option, none, some,
  arith, filter_by, filter_by-filter_by, filter_by-cong, filter_by-all, is_in, is_in-append,
  Bool-cases, inl, inr, if◌then◌else◌,
}
use cat_graphrag.Prelude.Keys.{Str, str_key, nat_key}
use cat_graphrag.Graph.{RelatedTo, Graph}
use cat_graphrag.Graph.Cypher.{strip_where, joins_entities_of, keep_stripped, files_without}
use cat_graphrag.Graph.Runs.{Splits}
use cat_graphrag.Deletion.{delete_source_edges, delete_similar, strip_related, is_evidence_of}

-- Filtering by two batches one after the other.
module _ {A : Type 0} where
  pub filter_split :
      (p q r : A → Bool) (xs : List A)
      → ((x : A) → (p x && q x) ≡ r x)
      → filter_by r xs ≡ filter_by q (filter_by p xs)
  filter_split p q r xs h =
      sym (filter_by-filter_by p q xs ∙ filter_by-cong (λ x. p x && q x) r h xs)

module _ {V W : Type 0} (tenant : Str) where
  pub delete_source_edges-Splits : Splits {G = Graph V W} (delete_source_edges tenant)
  unfolding delete_source_edges is_evidence_of
  delete_source_edges-Splits = record {
    at_nil = λ g. ap (λ e. record g { evidence = e }) (filter_by-all _ g.evidence (λ r h. refl));
    at_append = λ xs ys g.
        ap (λ e. record g { evidence = e })
          (filter_split _ _ _ g.evidence (λ r. ground (arith, is_in-append r.document xs ys)));
  }

  pub delete_similar-Splits : Splits {G = Graph V W} (delete_similar tenant)
  unfolding delete_similar
  delete_similar-Splits = record {
    at_nil =
        λ g. ap (λ e. record g { similar_to = e }) (filter_by-all _ g.similar_to (λ r h. refl));
    at_append = λ xs ys g.
        ap (λ e. record g { similar_to = e })
          (filter_split _ _ _ g.similar_to (λ r. ground (arith, is_in-append r.rid xs ys)));
  }

without_twice :
    (source : Str) (o : Option (List Str))
    → files_without source (files_without source o) ≡ files_without source o
without_twice source none = refl
without_twice source (some files) = ap some (sym (filter_split _ _ _ files (λ x. ground arith)))

module _ {W : Type 0} (source : Str) where
  strip_kept :
      (q : RelatedTo W → Bool) (r : RelatedTo W) (rest : List (RelatedTo W)) (o : Option (List Str))
      → files_without source o ≡ o
      → strip_where q source (keep_stripped r o rest)
        ≡ keep_stripped r o (strip_where q source rest)
  unfolding strip_where
  strip_kept q r rest none e = elim (Bool-cases (q (record r { source_files = none }))) [
    | inl y ↦ rw y refl
    | inr n ↦ rw n refl
  ]
  strip_kept q r rest (some []) e = refl
  strip_kept q r rest (some (x ∷ xs)) e =
      let r' = record r { source_files = some (x ∷ xs) } in
      elim (Bool-cases (q r')) [
        | inl y ↦
            ap
              (λ b.
                if b
                then keep_stripped r' (files_without source (some (x ∷ xs)))
                    (strip_where q source rest)
                else r' ∷ strip_where q source rest)
              y
            ∙ ap (λ o. keep_stripped r' o (strip_where q source rest)) e
        | inr n ↦
            ap
              (λ b.
                if b
                then keep_stripped r' (files_without source (some (x ∷ xs)))
                    (strip_where q source rest)
                else r' ∷ strip_where q source rest)
              n
      ]

  pub strip_where-strip_where :
      (p q : RelatedTo W → Bool) (rs : List (RelatedTo W))
      → strip_where q source (strip_where p source rs) ≡ strip_where (λ r. p r || q r) source rs
  unfolding strip_where
  strip_where-strip_where p q [] = refl
  strip_where-strip_where p q (r ∷ rs) = elim (Bool-cases (p r)) [
    | inl y ↦ rw y (
        strip_kept q r (strip_where p source rs) (files_without source r.source_files)
          (without_twice source r.source_files)
        ∙ ap (keep_stripped r (files_without source r.source_files))
            (strip_where-strip_where p q rs))
    | inr n ↦ rw (n, strip_where-strip_where p q rs) refl
  ]

  pub strip_where-cong :
      (p q : RelatedTo W → Bool)
      → ((r : RelatedTo W) → p r ≡ q r)
      → (rs : List (RelatedTo W)) → strip_where p source rs ≡ strip_where q source rs
  unfolding strip_where
  strip_where-cong p q h [] = refl
  strip_where-cong p q h (r ∷ rs) = rw (h r, strip_where-cong p q h rs) refl

  pub strip_where-none : (rs : List (RelatedTo W)) → strip_where (λ _. false) source rs ≡ rs
  unfolding strip_where
  strip_where-none [] = refl
  strip_where-none (r ∷ rs) = ap (λ l. r ∷ l) (strip_where-none rs)

module _ {V W : Type 0} (tenant : Str) where
  pub strip_related-Splits : (source : Str) → Splits {G = Graph V W} (strip_related tenant source)
  unfolding strip_related joins_entities_of
  strip_related-Splits source = record {
    at_nil = λ g. ap (λ r. record g { related_to = r }) (strip_where-none source g.related_to);
    at_append = λ xs ys g.
        let among =
          λ (ids : List ℕ) (r : RelatedTo W). is_in r.rid ids && joins_entities_of g tenant r in
        ap (λ r. record g { related_to = r })
          (strip_where-cong source (among (xs ++ ys)) (λ r. among xs r || among ys r)
              (λ r. ground (arith, is_in-append r.rid xs ys)) g.related_to
            ∙ sym (strip_where-strip_where source (among xs) (among ys) g.related_to));
  }
