-- ===== src/Recall/Examples.antt =====
-- Tests and instances for the merge of recall.
use cat_graphrag.Prelude.{
  take, ℕ, ◌*◌, ◌/◌, List, [], ◌∷◌, ◌≡◌, ◌↔◌, refl, true, false, map, length, Has, ltb, arith,
}
use cat_graphrag.Prelude.Keys.{Str, str_key}
use cat_graphrag.Prelude.Texts.{codes}
use cat_graphrag.Prelude.Dict.{lookup}
use cat_graphrag.Recall.{
  Scores, IsOrder, Hit, Recalled, indirect_pool, registry_of, scored, merge_and_rerank,
}
use cat_graphrag.Recall.Laws.{
  by_entity, after_vectors, Descending, registry_of_lem, merge_and_rerank_lem,
}

-- Scores in tenths.
abbrev tenths : Scores
tenths = record { F = ℕ; zero = 0; one = 10; lt = ltb; mul = λ a b. a * b / 10 }

ltb_asym : (a b : ℕ) → ltb a b ≡ true → ltb b a ≡ false
ltb_asym a b h = ground arith

geb_trans : (a b c : ℕ) → ltb a b ≡ false → ltb b c ≡ false → ltb a c ≡ false
geb_trans a b c h k = ground arith

tenths-IsOrder : IsOrder tenths
tenths-IsOrder = record { lt_asym = ltb_asym; ge_trans = geb_trans }

abbrev hit : Str → ℕ → Hit ℕ ℕ
hit id score = record { id = id; score = score; payload = 0 }

abbrev direct : List (Hit ℕ ℕ)
direct = hit (codes "a") 5 ∷ []

abbrev indirect : List (Hit ℕ ℕ)
indirect = hit (codes "a") 9 ∷ hit (codes "b") 4 ∷ []

abbrev vectors : List (Hit ℕ ℕ)
vectors = hit (codes "c") 8 ∷ hit (codes "a") 7 ∷ []

-- "a" is boosted to 7 * 1.3, rounded down to tenths, and comes before "c" and "b".
ranked :
    map {B = Str × ℕ}
      (λ x. (x.id, x.score))
      (merge_and_rerank tenths direct indirect vectors 2 7 13)
    ≡ (codes "a", 9) ∷ (codes "c", 8) ∷ []
unfolding merge_and_rerank
ranked = refl

pooled :
    map (λ x. x.score) (indirect_pool tenths indirect (hit (codes "b") 6 ∷ hit (codes "a") 2 ∷ []))
    ≡ 9 ∷ 6 ∷ []
unfolding indirect_pool
pooled = refl

registry_of_example :
    lookup (codes "a") (registry_of tenths direct indirect vectors)
    ≡ after_vectors tenths (codes "a") (by_entity tenths (codes "a") direct indirect) vectors
registry_of_example = registry_of_lem tenths (codes "a") direct indirect vectors

merge_and_rerank_example :
    (sorted : List (Recalled ℕ ℕ)) × Descending tenths sorted
    × ((z : Recalled ℕ ℕ)
        → Has z sorted
          ↔ Has z (map (scored tenths 13 7) (registry_of tenths direct indirect vectors)))
    × (length sorted ≡ length (registry_of tenths direct indirect vectors))
    × (merge_and_rerank tenths direct indirect vectors 2 7 13 ≡ take 2 sorted)
merge_and_rerank_example = merge_and_rerank_lem tenths tenths-IsOrder direct indirect vectors 2 7 13
