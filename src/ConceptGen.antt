-- ===== src/ConceptGen.antt =====
-- The generations of concept nodes in graphrag_handler.py: the marker of the tenant's active
-- generation, its flip, the deletion of stale nodes, the write of one concept, the gate of epoch.py,
-- and the job of main.py that recomputes and flips. The handler is connected. The pending generations
-- of main.py stand where the tasks of the store do.
pub mod Flip
pub mod Job
mod Examples
use cat_graphrag.Prelude.{
  ℕ, zero, suc, List, [], ◌∷◌, ◌++◌, map, Bool, true, false, ◌&&◌, ◌||◌, not, Option, none, some,
  is_empty, if◌then◌else◌, Outcome, ok, raised, Exec, pure, raise, ◌>>=◌, ◌>>◌, any, filter_by,
  is_in,
}
use cat_graphrag.Prelude.Keys.{Str, str_eq, str_key}
use cat_graphrag.Prelude.Dict.{Dict, lookup, remove}
use cat_graphrag.Batches.{Failure}
use cat_graphrag.Graph.{
  CollectionNode, EntityNode, Evidence, RelatedTo, Graph, Store, after_fault, query, statement,
}
use cat_graphrag.Graph.Cypher.{is_mentioned, joins_entities_of, detach_entities}

-- Equality of a property, which may be missing, with a value.
abbrev pub is_gen : Option Str → Str → Bool
is_gen none gen = false
is_gen (some g) gen = str_eq g gen

-- n.concept_gen IS NULL OR n.concept_gen = $active_concept_gen: with no active generation the
-- comparison is null, which does not pass.
unfoldable pub passes_gate : Option Str → Option Str → Bool
passes_gate active none = true
passes_gate none (some gen) = false
passes_gate (some active) (some gen) = str_eq gen active

-- The first row of the marker query, as text.
unfoldable pub marker_of : Str → List CollectionNode → Option Str
marker_of tenant [] = none
marker_of tenant (c ∷ cs) =
    let rest = marker_of tenant cs in
    if str_eq c.tenant_id tenant then c.concept_gen_active else rest

abbrev pub mark : Str → Str → List CollectionNode → List CollectionNode
mark tenant gen =
    map (λ c. if str_eq c.tenant_id tenant then record c { concept_gen_active = some gen } else c)

abbrev pub is_of_tenant : Str → CollectionNode → Bool
is_of_tenant tenant c = str_eq c.tenant_id tenant

abbrev pub marker_node : Str → Str → CollectionNode
marker_node tenant gen = record { name = none; tenant_id = tenant; concept_gen_active = some gen }

abbrev pub is_other : Str → Option Str → Bool
is_other new_gen none = false
is_other new_gen (some gen) = not (str_eq gen new_gen)

abbrev pub is_flagged : Option Bool → Bool
is_flagged none = false
is_flagged (some b) = not b

abbrev pub hide : {V : Type 0} → Str → Str → EntityNode V → EntityNode V
hide tenant new_gen e =
    if str_eq e.tenant_id tenant && is_other new_gen e.concept_gen
    then record e { concept_gen_active = some false }
    else e

module _ {V W : Type 0} where
  -- MERGE (c:Collection {tenant_id: …}) SET c.concept_gen_active = …
  unfoldable pub set_marker : Str → Str → Graph V W → Graph V W
  set_marker tenant gen g = record g {
    collections =
        if any (is_of_tenant tenant) g.collections
        then mark tenant gen g.collections
        else g.collections ++ marker_node tenant gen ∷ [];
  }

  -- Whether a collection of the tenant has a marker that is neither missing nor empty.
  unfoldable pub is_occupied : Str → Graph V W → Bool
  is_occupied tenant g =
      any
        (λ (c : CollectionNode).
          str_eq c.tenant_id tenant
          && (elim c.concept_gen_active [ none ↦ false | some m ↦ not (is_empty m) ]))
        g.collections

  unfoldable pub has_marker : Str → Str → Graph V W → Bool
  has_marker tenant gen g =
      any (λ (c : CollectionNode). str_eq c.tenant_id tenant && is_gen c.concept_gen_active gen)
        g.collections

  -- The guard of the flip.
  unfoldable pub guard_ok : Str → Option Str → Graph V W → Bool
  unfolding is_occupied has_marker
  guard_ok tenant none g = not (is_occupied tenant g)
  guard_ok tenant (some prev) g = has_marker tenant prev g

  -- SET e.concept_gen_active = false on the nodes and the relations of other generations.
  unfoldable pub deactivate : Str → Str → Graph V W → Graph V W
  unfolding joins_entities_of
  deactivate tenant new_gen g = record g {
    entities = map (hide tenant new_gen) g.entities;
    related_to =
        map
          (λ (r : RelatedTo W).
            if joins_entities_of g tenant r && is_other new_gen r.concept_gen
            then record r { concept_gen_active = some false }
            else r)
          g.related_to;
  }

  -- The transaction of the flip: all of it, or none of it.
  unfoldable pub flip : Str → Option Str → Str → Graph V W → Bool × Graph V W
  unfolding guard_ok deactivate set_marker
  flip tenant expected_prev_gen new_gen g =
      if guard_ok tenant expected_prev_gen g
      then (true, set_marker tenant new_gen (deactivate tenant new_gen g))
      else (false, g)

  abbrev pub is_stale : Str → Graph V W → EntityNode V → Bool
  is_stale tenant g e =
      str_eq e.tenant_id tenant && is_flagged e.concept_gen_active && not (is_mentioned g e.id)

  unfoldable pub without_stale : Str → Graph V W → Graph V W
  unfolding is_mentioned detach_entities
  without_stale tenant g = detach_entities (is_stale tenant g) g

module _ {T V W E : Type 0} where
  unfoldable pub read_concept_gen : Str → Exec (Store T (Graph V W) E) (Failure E) (Option Str)
  unfolding marker_of
  read_concept_gen tenant = query (λ g. marker_of tenant g.collections)

  unfoldable pub write_concept_gen : Str → Str → Exec (Store T (Graph V W) E) (Failure E) (Unit {0})
  unfolding set_marker
  write_concept_gen tenant gen = statement (set_marker tenant gen)

  unfoldable pub flip_concept_gen :
      Str → Option Str → Str → Exec (Store T (Graph V W) E) (Failure E) Bool
  unfolding flip
  flip_concept_gen tenant expected_prev_gen new_gen s =
      let (flipped, g) = flip tenant expected_prev_gen new_gen s.graph in
      after_fault s.faults flipped g s

  unfoldable pub gc_stale_concept_nodes : Str → Exec (Store T (Graph V W) E) (Failure E) (Unit {0})
  unfolding without_stale
  gc_stale_concept_nodes tenant = statement (without_stale tenant)

module _ {V W E : Type 0} (tenant : Str) where
  -- _concept_recompute_pending.pop(tenant), if it is still `pending`
  unfoldable pub settle : Str → Exec (Store (Dict Str Str) (Graph V W) E) (Failure E) (Unit {0})
  unfolding lookup remove
  settle pending s = (
    ok tt,
    if is_gen (lookup tenant s.tasks) pending
        then record s { tasks = remove tenant s.tasks }
        else s,
  )

  -- After the flip: the deferred deletion, another pass, or an error that is logged.
  unfoldable pub after_flip :
      Exec (Store (Dict Str Str) (Graph V W) E) (Failure E) (Unit {0})
      → Str
      → Outcome (Failure E) Bool
      → Exec (Store (Dict Str Str) (Graph V W) E) (Failure E) (Unit {0})
  unfolding settle gc_stale_concept_nodes
  after_flip again pending (ok true) = gc_stale_concept_nodes tenant >> settle pending
  after_flip again pending (ok false) = again
  after_flip again pending (raised e) = pure tt

-- _concept_recompute_job with the passes that are left, 4 at first. `recompute` is
-- recompute_concept_relations.
module _ {V W E : Type 0} (tenant : Str)
    (recompute : Str → Exec (Store (Dict Str Str) (Graph V W) E) (Failure E) (Unit {0})) where
  -- A pass for the generation `pending`, where `active` was read.
  unfoldable pub pass_with :
      Exec (Store (Dict Str Str) (Graph V W) E) (Failure E) (Unit {0})
      → Str
      → Option Str
      → Exec (Store (Dict Str Str) (Graph V W) E) (Failure E) (Unit {0})
  unfolding settle flip_concept_gen after_flip
  pass_with again pending active = if is_gen active pending then settle tenant pending else λ s.
      let (r, s') = (recompute pending >> flip_concept_gen tenant active pending) s in
      after_flip tenant again pending r s'

  unfoldable pub one_pass :
      Exec (Store (Dict Str Str) (Graph V W) E) (Failure E) (Unit {0})
      → Option Str
      → Exec (Store (Dict Str Str) (Graph V W) E) (Failure E) (Unit {0})
  unfolding read_concept_gen pass_with
  one_pass again none = pure tt
  one_pass again (some pending) = read_concept_gen tenant >>= pass_with again pending

  unfoldable pub recompute_passes :
      ℕ → Exec (Store (Dict Str Str) (Graph V W) E) (Failure E) (Unit {0})
  unfolding one_pass lookup
  recompute_passes zero = pure tt
  recompute_passes (suc attempts) =
      λ s. one_pass (recompute_passes attempts) (lookup tenant s.tasks) s

  unfoldable pub concept_recompute_job :
      Exec (Store (Dict Str Str) (Graph V W) E) (Failure E) (Unit {0})
  unfolding recompute_passes
  concept_recompute_job = recompute_passes 4
