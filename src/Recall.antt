-- ===== src/Recall.antt =====
-- The merge of hybrid recall in graphrag_handler.py: the pool of indirect evidence of
-- recall_tenant_memory_from_embedding, and _merge_and_rerank. No score is a NaN.
pub mod Laws
mod Examples
use cat_graphrag.Prelude.{
  ℕ, List, [], ◌∷◌, ◌≡◌, Bool, true, false, ◌&&◌, ◌||◌, not, Option, none, some, map, if◌then◌else◌,
  take, is_some,
}
use cat_graphrag.Prelude.Keys.{Str, str_key}
use cat_graphrag.Prelude.Dict.{Dict, values, lookup, put}

-- Python floats, as the scores use them.
pub record Scores : Type 1 where
  pub F : Type 0
  pub zero : F
  pub one : F
  pub lt : F → F → Bool
  pub mul : F → F → F

-- What Python guarantees of `<`, where no number is a NaN.
pub record IsOrder (scores : Scores) : Type 0 where
  pub lt_asym : (a b : scores.F) → scores.lt a b ≡ true → scores.lt b a ≡ false
  pub ge_trans :
      (a b c : scores.F) → scores.lt a b ≡ false → scores.lt b c ≡ false → scores.lt a c ≡ false

-- A row of a query, with `D` for its content, metadata and embedding.
pub record Hit (F D : Type 0) : Type 0 where
  pub id : Str
  pub score : F
  pub payload : D

-- An entry of the registry.
pub record Info (F D : Type 0) : Type 0 where
  pub row : Hit F D
  pub entity_score : F
  pub vector_score : F
  pub is_direct : Bool

-- What is returned for one document.
pub record Recalled (F D : Type 0) : Type 0 where
  pub id : Str
  pub score : F
  pub payload : D

module _ (scores : Scores) where
  open scores use {F, lt}

  abbrev pub max_score : F → F → F
  max_score a b = if lt a b then b else a

  -- min(1.0, s)
  abbrev pub capped : F → F
  capped s = if lt s scores.one then s else scores.one

  -- es or vs
  abbrev pub or_else : F → F → F
  or_else es vs = if lt scores.zero es || lt es scores.zero then es else vs

module _ (scores : Scores) {D : Type 0} where
  open scores use {F, lt, mul}

  -- get_final_score
  unfoldable pub get_final_score : F → F → Info F D → F
  get_final_score boost decay info =
      if lt scores.zero info.entity_score && lt scores.zero info.vector_score
      then capped scores (
          mul (max_score scores info.entity_score info.vector_score)
            (if info.is_direct then boost else mul boost decay))
      else or_else scores info.entity_score info.vector_score

  -- The pool of indirect evidence, over `indirect_map`.
  unfoldable pub add_related : Dict Str (Hit F D) → List (Hit F D) → Dict Str (Hit F D)
  add_related d [] = d
  add_related d (r ∷ rs) = add_related (put r.id r d) rs

  abbrev pub better : Hit F D → Option (Hit F D) → Hit F D
  better r none = r
  better r (some old) = if lt old.score r.score then r else old

  unfoldable pub add_better : Dict Str (Hit F D) → List (Hit F D) → Dict Str (Hit F D)
  unfolding lookup put
  add_better d [] = d
  add_better d (r ∷ rs) = add_better (put r.id (better r (lookup r.id d)) d) rs

  unfoldable pub indirect_pool : List (Hit F D) → List (Hit F D) → List (Hit F D)
  unfolding add_related add_better put
  indirect_pool related by_vector = values (add_better (add_related [] related) by_vector)

  abbrev pub entity_info : Bool → Hit F D → Info F D
  entity_info direct r = record {
    row = r;
    entity_score = r.score;
    vector_score = scores.zero;
    is_direct = direct;
  }

  -- {r["id"]: {...} for r in hits}, or registry.update of it
  unfoldable pub put_hits : Bool → Dict Str (Info F D) → List (Hit F D) → Dict Str (Info F D)
  unfolding put
  put_hits direct d [] = d
  put_hits direct d (r ∷ rs) = put_hits direct (put r.id (entity_info direct r) d) rs

  -- ... for r in entity_indirect if r["id"] not in registry
  unfoldable pub missing : Dict Str (Info F D) → List (Hit F D) → List (Hit F D)
  unfolding lookup
  missing registry [] = []
  missing registry (r ∷ rs) =
      let rest = missing registry rs in if is_some (lookup r.id registry) then rest else r ∷ rest

  abbrev pub with_vector : Hit F D → Option (Info F D) → Info F D
  with_vector r none = record {
    row = r;
    entity_score = scores.zero;
    vector_score = r.score;
    is_direct = false;
  }
  with_vector r (some info) = record info { vector_score = r.score }

  -- The loop over the vector results.
  unfoldable pub put_vectors : Dict Str (Info F D) → List (Hit F D) → Dict Str (Info F D)
  unfolding lookup put
  put_vectors d [] = d
  put_vectors d (r ∷ rs) = put_vectors (put r.id (with_vector r (lookup r.id d)) d) rs

  unfoldable pub registry_of :
      List (Hit F D) → List (Hit F D) → List (Hit F D) → Dict Str (Info F D)
  unfolding put_hits missing put_vectors
  registry_of direct indirect vectors =
      let registry = put_hits true [] direct in
      put_vectors (put_hits false registry (missing registry indirect)) vectors

  -- final.sort(key=score, reverse=True), which keeps the order of equal scores
  unfoldable pub insert_score : Recalled F D → List (Recalled F D) → List (Recalled F D)
  insert_score x [] = x ∷ []
  insert_score x (y ∷ ys) =
      let rest = insert_score x ys in if lt x.score y.score then y ∷ rest else x ∷ y ∷ ys

  unfoldable pub sort_scores : List (Recalled F D) → List (Recalled F D)
  unfolding insert_score
  sort_scores [] = []
  sort_scores (x ∷ xs) = insert_score x (sort_scores xs)

  abbrev pub scored : F → F → Str × Info F D → Recalled F D
  scored boost decay (doc_id, info) = record {
    id = doc_id;
    score = get_final_score boost decay info;
    payload = info.row.payload;
  }

  -- _merge_and_rerank
  unfoldable pub merge_and_rerank :
      List (Hit F D) → List (Hit F D) → List (Hit F D) → ℕ → F → F → List (Recalled F D)
  unfolding registry_of sort_scores get_final_score
  merge_and_rerank direct indirect vectors k decay boost =
      take k (sort_scores (map (scored boost decay) (registry_of direct indirect vectors)))
