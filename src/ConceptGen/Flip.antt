-- ===== src/ConceptGen/Flip.antt =====
-- The flip of the active generation: all of it or nothing, and one winner.
use mathlib.Core.Path.{subst}
use cat_graphrag.Prelude.{
  List, [], ◌∷◌, ◌++◌, map, ◌≡◌, refl, Bool, true, false, ◌&&◌, not, Option, none, some, is_empty,
  Outcome, ok, raised, arith, any, Has, Bool-cases, inl, inr,
}
use cat_graphrag.Prelude.Keys.{Str, str_eq, str_eq_iff}
use cat_graphrag.Batches.{Failure}
use cat_graphrag.Graph.{CollectionNode, EntityNode, Graph, Store, after_fault}
use cat_graphrag.ConceptGen.{
  is_gen, is_other, passes_gate, hide, marker_of, mark, is_of_tenant, marker_node, set_marker,
  is_occupied, has_marker, guard_ok, deactivate, flip, flip_concept_gen,
}

module _ (tenant gen : Str) where
  marker_of-mark :
      (cs : List CollectionNode)
      → any (is_of_tenant tenant) cs ≡ true
      → marker_of tenant (mark tenant gen cs) ≡ some gen
  unfolding marker_of
  marker_of-mark [] h = absurd (ground arith)
  marker_of-mark (c ∷ cs) h = elim (Bool-cases (str_eq c.tenant_id tenant)) [
    | inl mine ↦ rw (mine, mine) refl
    | inr other ↦ rw (other, other) (marker_of-mark cs (ground arith))
  ]

  marker_of-new :
      (cs : List CollectionNode)
      → any (is_of_tenant tenant) cs ≡ false
      → marker_of tenant (cs ++ marker_node tenant gen ∷ []) ≡ some gen
  unfolding marker_of
  marker_of-new [] h = ground (arith, str_eq_iff tenant tenant)
  marker_of-new (c ∷ cs) h = elim (Bool-cases (str_eq c.tenant_id tenant)) [
    | inl mine ↦ absurd (ground arith)
    | inr other ↦ rw other (marker_of-new cs (ground arith))
  ]

  any-mark :
      (p : Option Str → Bool) (cs : List CollectionNode)
      → any (λ c. str_eq c.tenant_id tenant && p c.concept_gen_active) (mark tenant gen cs)
        ≡ (any (is_of_tenant tenant) cs && p (some gen))
  any-mark p [] = refl
  any-mark p (c ∷ cs) = elim (Bool-cases (str_eq c.tenant_id tenant)) [
    | inl mine ↦ rw (mine, mine, any-mark p cs) (ground arith)
    | inr other ↦ rw (other, other, any-mark p cs) refl
  ]

  any-new :
      (p : Option Str → Bool) (cs : List CollectionNode)
      → any (is_of_tenant tenant) cs ≡ false
      → any
          (λ c. str_eq c.tenant_id tenant && p c.concept_gen_active)
          (cs ++ marker_node tenant gen ∷ [])
        ≡ p (some gen)
  any-new p [] h = ground (arith, str_eq_iff tenant tenant)
  any-new p (c ∷ cs) h = elim (Bool-cases (str_eq c.tenant_id tenant)) [
    | inl mine ↦ absurd (ground arith)
    | inr other ↦ rw other (any-new p cs (ground arith))
  ]

module _ {V W : Type 0} (tenant gen : Str) where
  pub marker_of-set_marker :
      (g : Graph V W) → marker_of tenant (set_marker tenant gen g).collections ≡ some gen
  unfolding set_marker
  marker_of-set_marker g = elim (Bool-cases (any (is_of_tenant tenant) g.collections)) [
    | inl some_of ↦ rw some_of (marker_of-mark tenant gen g.collections some_of)
    | inr none_of ↦ rw none_of (marker_of-new tenant gen g.collections none_of)
  ]

  -- A test of the tenant's markers, once the marker is set.
  any-set_marker :
      (p : Option Str → Bool) (g : Graph V W)
      → any
          (λ c. str_eq c.tenant_id tenant && p c.concept_gen_active)
          (set_marker tenant gen g).collections
        ≡ p (some gen)
  unfolding set_marker
  any-set_marker p g = elim (Bool-cases (any (is_of_tenant tenant) g.collections)) [
    | inl some_of ↦ rw some_of (rw (any-mark tenant gen p g.collections, some_of) refl)
    | inr none_of ↦ rw none_of (any-new tenant gen p g.collections none_of)
  ]

-- How a flip ends: the tenant's marker is the new generation, and all entities that the gate then
-- hides are flagged for deletion; or the guard has refused it, or it has failed, and nothing changed.
pub data Flipped {V W E : Type 0} (tenant : Str) (expected : Option Str) (new_gen : Str)
    (g g' : Graph V W) : Outcome (Failure E) Bool → Type 0 where
  switched :
      guard_ok tenant expected g ≡ true
      → marker_of tenant g'.collections ≡ some new_gen
      → ((e : EntityNode V)
          → Has e g'.entities
          → str_eq e.tenant_id tenant ≡ true
          → passes_gate (marker_of tenant g'.collections) e.concept_gen ≡ false
          → e.concept_gen_active ≡ some false)
      → Flipped tenant expected new_gen g g' (ok true)
  lost :
      guard_ok tenant expected g ≡ false → g' ≡ g → Flipped tenant expected new_gen g g' (ok false)
  failed : {e : Failure E} → g' ≡ g → Flipped tenant expected new_gen g g' (raised e)

passes_gate_iff :
    (new_gen : Str) (o : Option Str) → passes_gate (some new_gen) o ≡ not (is_other new_gen o)
unfolding passes_gate
passes_gate_iff new_gen none = refl
passes_gate_iff new_gen (some gen) = ground arith

module _ {V : Type 0} (tenant new_gen : Str) where
  -- An entity that the gate hides is flagged.
  abbrev Flagged : EntityNode V → Type 0
  Flagged e =
      str_eq e.tenant_id tenant ≡ true
      → passes_gate (some new_gen) e.concept_gen ≡ false
      → e.concept_gen_active ≡ some false

  hide-Flagged : (e : EntityNode V) → Flagged (hide tenant new_gen e)
  hide-Flagged e = elim (Bool-cases (str_eq e.tenant_id tenant && is_other new_gen e.concept_gen)) [
    | inl other ↦ rw other (λ _ _. refl)
    | inr same ↦
        rw same
          (λ mine hidden. let gate = passes_gate_iff new_gen e.concept_gen in absurd (ground arith))
  ]

  map-Flagged :
      (e : EntityNode V) (es : List (EntityNode V))
      → Has e (map (hide tenant new_gen) es)
      → Flagged e
  map-Flagged e [] h = absurd h
  map-Flagged e (x ∷ xs) (inr h) = map-Flagged e xs h
  map-Flagged e (x ∷ xs) (inl h) = subst Flagged h (hide-Flagged x)

module _ {V W E : Type 0} (tenant : Str) (expected : Option Str) (new_gen : Str)
    (g : Graph V W) where
  done :
      Flipped {E = E} tenant expected new_gen g
        (flip tenant expected new_gen g).1
        (ok (flip tenant expected new_gen g).0)
  unfolding flip deactivate set_marker
  done = elim (Bool-cases (guard_ok tenant expected g)) [
    | inl holds ↦
        let marker = marker_of-set_marker tenant new_gen (deactivate tenant new_gen g) in
        rw holds
          (switched holds marker (λ e has. rw marker (map-Flagged tenant new_gen e g.entities has)))
    | inr fails ↦ rw fails (lost fails refl)
  ]

module _ {T V W E : Type 0} (tenant : Str) (expected : Option Str) (new_gen : Str) where
  -- The flip switches the tenant's marker to the new generation and flags all entities that the gate
  -- hides from then on, where the guard holds; where it does not, or the transaction fails, the graph
  -- is as it was.
  pub flip_concept_gen-Flipped :
      (s : Store T (Graph V W) E)
      → Flipped tenant expected new_gen s.graph
          (flip_concept_gen tenant expected new_gen s).1.graph
          (flip_concept_gen tenant expected new_gen s).0
  unfolding flip_concept_gen
  flip_concept_gen-Flipped s = at s.faults s
    where
      at :
          (faults : List (Option E)) (s : Store T (Graph V W) E)
          → let (flipped, g) = flip tenant expected new_gen s.graph in
            Flipped tenant expected new_gen s.graph
              (after_fault faults flipped g s).1.graph
              (after_fault faults flipped g s).0
      at [] s = done tenant expected new_gen s.graph
      at (none ∷ _) s = done tenant expected new_gen s.graph
      at (some _ ∷ _) s = failed refl

module _ {V W : Type 0} (tenant won : Str) where
  guard_after :
      (expected : Option Str) (g : Graph V W)
      → is_empty won ≡ false
      → is_gen expected won ≡ false
      → guard_ok tenant expected (set_marker tenant won g) ≡ false
  unfolding guard_ok is_occupied has_marker
  guard_after none g named other =
      let occupied =
        any-set_marker tenant won (λ o. elim o [ none ↦ false | some m ↦ not (is_empty m) ]) g in
      ground arith
  guard_after (some prev) g named other =
      let marked = any-set_marker tenant won (λ o. is_gen o prev) g in
      ground (arith, str_eq_iff won prev, str_eq_iff prev won)

module _ {V W : Type 0} (tenant : Str) (expected : Option Str) (won : Str) where
  -- Of two flips from one marker to generations other than it, only the first wins: the guard of the
  -- second refuses it.
  pub flip-once :
      (late : Str) (g : Graph V W)
      → is_empty won ≡ false
      → is_gen expected won ≡ false
      → (flip tenant expected won g).0 ≡ true
      → flip tenant expected late (flip tenant expected won g).1
        ≡ (false, (flip tenant expected won g).1)
  unfolding flip
  flip-once late g named other h = elim (Bool-cases (guard_ok tenant expected g)) [
    | inl holds ↦
        let refused = guard_after tenant won expected (deactivate tenant won g) named other in
        rw holds (rw refused refl)
    | inr fails ↦ let k : false ≡ true = rw fails at h in absurd (ground arith)
  ]
