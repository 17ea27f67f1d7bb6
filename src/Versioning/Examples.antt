-- ===== src/Versioning/Examples.antt =====
-- Tests and instances for versioning.py and the tokens of epoch.py. The generations that the probes
-- will read are a list.
use cat_graphrag.Prelude.{
  ℕ, ◌+◌, ◌≡◌, refl, List, [], ◌∷◌, Bool, Option, none, some, ok, raised, Exec, ltb, if◌then◌else◌,
  ◌==◌,
}
use cat_graphrag.Prelude.Keys.{Str, str_key}
use cat_graphrag.Prelude.Texts.{codes}
use cat_graphrag.Epoch.{Handler, Epochs, versioned_names, first_generation, rebuild_for_generation}
use cat_graphrag.Versioning.{
  Failure, changed_again, aligned, ensure_version, retry_on_generation_change, with_transient_retry,
}
use cat_graphrag.Versioning.Retry.{recorded, pause_beside, Tried, with_transient_retry-Tried}
use cat_graphrag.Versioning.Snapshot.{Stable, retry_on_generation_change-Stable}

abbrev read : Exec (List Str) (Failure ℕ) Str
read gens = elim gens [ [] ↦ (ok first_generation, []) | g ∷ gs ↦ (ok g, gs) ]

-- A method that returns the generation it ran under.
abbrev method : Exec (Handler × List Str) (Failure ℕ) (Option Str)
method (h, w) = (ok h.generation, (h, w))

abbrev fresh : Handler
fresh = record {
  document_vector_index = codes "document_embeddings";
  entity_vector_index = codes "entity_embeddings";
  generation = none;
  names = none;
}

abbrev v1 : Str
v1 = codes "v1"

abbrev v2 : Str
v2 = codes "v2"

abbrev v3 : Str
v3 = codes "v3"

abbrev at_v2 : Handler
at_v2 = rebuild_for_generation fresh v2

-- The generation changes while the method runs: it runs again.
runs_again :
    retry_on_generation_change read method (fresh, v1 ∷ v2 ∷ v2 ∷ []) ≡ (ok (some v2), (at_v2, []))
unfolding retry_on_generation_change aligned rebuild_for_generation versioned_names
runs_again = refl

gives_up :
    (retry_on_generation_change read method (fresh, v1 ∷ v2 ∷ v3 ∷ [])).0
    ≡ raised (changed_again v2 v3)
unfolding retry_on_generation_change aligned rebuild_for_generation versioned_names
gives_up = refl

aligned_first : ensure_version read method (fresh, v2 ∷ []) ≡ (ok (some v2), (at_v2, []))
unfolding ensure_version aligned rebuild_for_generation
aligned_first = refl

retry_on_generation_change_example : Stable read method (some v2) (at_v2, [])
retry_on_generation_change_example =
    retry_on_generation_change-Stable read method fresh (v1 ∷ v2 ∷ v2 ∷ []) (some v2) (at_v2, [])
      (λ g e. cc) runs_again

-- A write that fails with the transient error 1 until the state is 3, and then with error 9.
abbrev write : Exec ℕ ℕ ℕ
write n = if ltb n 3 then (raised 1, n + 1) else (raised 9, n)

abbrev is_one : ℕ → Bool
is_one e = e == 1

abbrev wait : ℕ → ℕ → ℕ
wait attempt n = n

gives_up_after_two :
    with_transient_retry is_one
      (pause_beside is_one wait write)
      (recorded is_one wait write)
      2
      (0, [])
    ≡ (raised 1, (2, raised 1 ∷ raised 1 ∷ []))
unfolding with_transient_retry
gives_up_after_two = refl

with_transient_retry_example :
    let m =
      with_transient_retry is_one
        (pause_beside is_one wait write)
        (recorded is_one wait write)
        4
        (0, []) in
    Tried is_one wait write 4 m.1.1 m.0
with_transient_retry_example = with_transient_retry-Tried is_one wait write 4 0

abbrev epochs : Epochs
epochs = (v1, v3) ∷ []
