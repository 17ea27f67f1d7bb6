-- ===== src/Recall/Laws.antt =====
-- What the registry has of a document, and which documents are returned.
use cat_graphrag.Prelude.{
  ℕ, List, [], ◌∷◌, ◌≡◌, ◌⊎◌, ◌↔◌, refl, ap, ◌∙◌, Bool, true, false, Option, none, some, map,
  if◌then◌else◌, take, suc, length, is_some, All, Has, Bool-cases, inl, inr, arith,
}
use cat_graphrag.Prelude.Keys.{Str, str_key, str_eq, str_eq_iff}
use cat_graphrag.Prelude.Dict.{Dict, lookup, put, lookup-put}
use cat_graphrag.Recall.{
  Scores, IsOrder, Hit, Info, Recalled, entity_info, put_hits, missing, with_vector, put_vectors,
  registry_of, insert_score, sort_scores, scored, merge_and_rerank,
}

module _ (scores : Scores) {D : Type 0} where
  open scores use {F, lt}

  -- What the rows of a search by entity make of an entry: the last one with the id stands.
  abbrev pub after_hits : Str → Bool → Option (Info F D) → List (Hit F D) → Option (Info F D)
  after_hits k direct o [] = o
  after_hits k direct o (r ∷ rs) =
      after_hits k direct (if str_eq r.id k then some (entity_info scores direct r) else o) rs

  -- What the rows of the vector search make of it: each one with the id sets the vector's score.
  abbrev pub after_vectors : Str → Option (Info F D) → List (Hit F D) → Option (Info F D)
  after_vectors k o [] = o
  after_vectors k o (r ∷ rs) =
      after_vectors k (if str_eq r.id k then some (with_vector scores r o) else o) rs

  lookup-put_vectors :
      (k : Str) (d : Dict Str (Info F D)) (rs : List (Hit F D))
      → lookup k (put_vectors scores d rs) ≡ after_vectors k (lookup k d) rs
  unfolding put_vectors
  lookup-put_vectors k d [] = refl
  lookup-put_vectors k d (r ∷ rs) =
      let info = with_vector scores r (lookup r.id d) in
      elim (Bool-cases (str_eq r.id k)) [
        | inl e ↦
            let same : lookup r.id d ≡ lookup k d =
              ap (λ j. lookup j d) ((str_eq_iff r.id k).0 e) in
            rw (lookup-put_vectors k (put r.id info d) rs, lookup-put r.id k info d, e, same) refl
        | inr e ↦ rw (lookup-put_vectors k (put r.id info d) rs, lookup-put r.id k info d, e) refl
      ]

  lookup-put_hits :
      (k : Str) (direct : Bool) (d : Dict Str (Info F D)) (rs : List (Hit F D))
      → lookup k (put_hits scores direct d rs) ≡ after_hits k direct (lookup k d) rs
  unfolding put_hits
  lookup-put_hits k direct d [] = refl
  lookup-put_hits k direct d (r ∷ rs) =
      let info = entity_info scores direct r in
      rw (lookup-put_hits k direct (put r.id info d) rs, lookup-put r.id k info d) refl

  after_hits-missing :
      (k : Str) (o : Option (Info F D)) (d : Dict Str (Info F D)) (rs : List (Hit F D))
      → after_hits k false o (missing scores d rs)
        ≡ (if is_some (lookup k d) then o else after_hits k false o rs)
  unfolding missing
  after_hits-missing k o d [] = ground arith
  after_hits-missing k o d (r ∷ rs) =
      let info = entity_info scores false r in
      elim (Bool-cases (str_eq r.id k)) [
        | inl e ↦
            let same : lookup r.id d ≡ lookup k d =
              ap (λ j. lookup j d) ((str_eq_iff r.id k).0 e) in
            elim (Bool-cases (is_some (lookup k d))) [
              | inl p ↦ rw (e, same, p) (after_hits-missing k o d rs ∙ rw p refl)
              | inr p ↦
                  rw (e, same, p)
                    (rw (e, after_hits) (after_hits-missing k (some info) d rs ∙ rw p refl))
            ]
        | inr e ↦ elim (Bool-cases (is_some (lookup r.id d))) [
          | inl p ↦ rw (e, p) (after_hits-missing k o d rs)
          | inr p ↦ rw (e, p) (rw (e, after_hits) (after_hits-missing k o d rs))
        ]
      ]

  -- What the searches by entity know of a document: direct evidence, or else indirect evidence.
  abbrev pub by_entity : Str → List (Hit F D) → List (Hit F D) → Option (Info F D)
  by_entity k direct indirect = elim (after_hits k true none direct) [
    | some info ↦ some info
    | none ↦ after_hits k false none indirect
  ]

  chosen :
      (k : Str) (indirect : List (Hit F D)) (o : Option (Info F D))
      → (if is_some o then o else after_hits k false o indirect)
        ≡ (elim o [ some info ↦ some info | none ↦ after_hits k false none indirect ])
  chosen k indirect none = refl
  chosen k indirect (some info) = refl

  -- The registry has, for each id, what the searches by entity know of it, with direct evidence before
  -- indirect evidence, and the score of the vector search.
  pub registry_of_lem :
      (k : Str) (direct indirect vectors : List (Hit F D))
      → lookup k (registry_of scores direct indirect vectors)
        ≡ after_vectors k (by_entity k direct indirect) vectors
  unfolding registry_of
  registry_of_lem k direct indirect vectors =
      let registry = put_hits scores true [] direct in
      let first = lookup-put_hits k true [] direct in
      let second = lookup-put_hits k false registry (missing scores registry indirect) in
      let o = after_hits k true none direct in
      let found : lookup k (put_hits scores false registry (missing scores registry indirect))
          ≡ by_entity k direct indirect =
        second
        ∙ after_hits-missing k (lookup k registry) registry indirect
        ∙ rw first (chosen k indirect o) in
      lookup-put_vectors k (put_hits scores false registry (missing scores registry indirect))
        vectors
      ∙ ap (λ x. after_vectors k x vectors) found

  -- In descending order of scores: no score is below a later one.
  abbrev pub Descending : List (Recalled F D) → Type 0
  Descending [] = Unit
  Descending (x ∷ xs) = All (λ y. lt x.score y.score ≡ false) xs × Descending xs

module _ (scores : Scores) (order : IsOrder scores) {D : Type 0} where
  open scores use {F, lt}

  abbrev Below : F → List (Recalled F D) → Type 0
  Below a = All (λ y. lt a y.score ≡ false)

  Below-trans : (a b : F) (ys : List (Recalled F D)) → lt a b ≡ false → Below b ys → Below a ys
  Below-trans a b [] h below = tt
  Below-trans a b (y ∷ ys) h below =
      (order.ge_trans a b y.score h below.0, Below-trans a b ys h below.1)

  Below-insert_score :
      (a : F) (x : Recalled F D) (ys : List (Recalled F D))
      → lt a x.score ≡ false
      → Below a ys
      → Below a (insert_score scores x ys)
  unfolding insert_score
  Below-insert_score a x [] h below = (h, tt)
  Below-insert_score a x (y ∷ ys) h below = elim (Bool-cases (lt x.score y.score)) [
    | inl e ↦ rw (e, All) (below.0, Below-insert_score a x ys h below.1)
    | inr e ↦ rw (e, All) (h, below)
  ]

  insert_score-Descending :
      (x : Recalled F D) (ys : List (Recalled F D))
      → Descending scores ys
      → Descending scores (insert_score scores x ys)
  unfolding insert_score
  insert_score-Descending x [] d = (tt, tt)
  insert_score-Descending x (y ∷ ys) d = elim (Bool-cases (lt x.score y.score)) [
    | inl e ↦
        rw (e, Descending)
          (
            Below-insert_score y.score x ys (order.lt_asym x.score y.score e) d.0,
            insert_score-Descending x ys d.1,
          )
    | inr e ↦ rw (e, Descending) ((e, Below-trans x.score y.score ys e d.0), d)
  ]

  sort_scores-Descending : (xs : List (Recalled F D)) → Descending scores (sort_scores scores xs)
  unfolding sort_scores
  sort_scores-Descending [] = tt
  sort_scores-Descending (x ∷ xs) =
      insert_score-Descending x (sort_scores scores xs) (sort_scores-Descending xs)

  Has-insert_score :
      (z x : Recalled F D) (ys : List (Recalled F D))
      → Has z (insert_score scores x ys) ↔ ((x ≡ z) ⊎ Has z ys)
  unfolding insert_score
  Has-insert_score z x [] = ground arith
  Has-insert_score z x (y ∷ ys) = elim (Bool-cases (lt x.score y.score)) [
    | inl e ↦ rw (e, Has) (ground (arith, Has-insert_score z x ys))
    | inr e ↦ rw (e, Has) (λ h. h, λ h. h)
  ]

  Has-sort_scores :
      (z : Recalled F D) (xs : List (Recalled F D)) → Has z (sort_scores scores xs) ↔ Has z xs
  unfolding sort_scores
  Has-sort_scores z [] = (λ h. h, λ h. h)
  Has-sort_scores z (x ∷ xs) =
      ground (arith, Has-insert_score z x (sort_scores scores xs), Has-sort_scores z xs)

  length-map : {B : Type 0} (f : B → Recalled F D) (xs : List B) → length (map f xs) ≡ length xs
  length-map f [] = refl
  length-map f (x ∷ xs) = ap suc (length-map f xs)

  length-insert_score :
      (x : Recalled F D) (ys : List (Recalled F D))
      → length (insert_score scores x ys) ≡ suc (length ys)
  unfolding insert_score
  length-insert_score x [] = refl
  length-insert_score x (y ∷ ys) = elim (Bool-cases (lt x.score y.score)) [
    | inl e ↦ rw e (ap suc (length-insert_score x ys))
    | inr e ↦ rw e refl
  ]

  length-sort_scores : (xs : List (Recalled F D)) → length (sort_scores scores xs) ≡ length xs
  unfolding sort_scores
  length-sort_scores [] = refl
  length-sort_scores (x ∷ xs) =
      length-insert_score x (sort_scores scores xs) ∙ ap suc (length-sort_scores xs)

  -- Where scores are ordered: the documents of the registry with their final scores, put in descending
  -- order, are as many as in the registry, and what is returned is the first `k` of them, or all where
  -- there are fewer.
  pub merge_and_rerank_lem :
      (direct indirect vectors : List (Hit F D)) (k : ℕ) (decay boost : F)
      → (sorted : List (Recalled F D)) × Descending scores sorted
        × ((z : Recalled F D)
            → Has z sorted
              ↔ Has z
                  (map (scored scores boost decay) (registry_of scores direct indirect vectors)))
        × (length sorted ≡ length (registry_of scores direct indirect vectors))
        × (merge_and_rerank scores direct indirect vectors k decay boost ≡ take k sorted)
  unfolding merge_and_rerank
  merge_and_rerank_lem direct indirect vectors k decay boost =
      let registry = registry_of scores direct indirect vectors in
      let xs = map (scored scores boost decay) registry in
      (
        sort_scores scores xs,
        sort_scores-Descending xs,
        λ z. Has-sort_scores z xs,
        length-sort_scores xs ∙ length-map (scored scores boost decay) registry,
        refl,
      )
