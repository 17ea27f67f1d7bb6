-- ===== src/SourceGraph/Metadata/Laws.antt =====
-- The merged metadata of source_graph_writer.py: a union of documents without repetition.
use cat_graphrag.Prelude.{
  List, [], ◌∷◌, ◌++◌, ◌≡◌, refl, ◌↔◌, ◌⊎◌, inl, inr, true, false, arith, Has, Has-append, All,
  Bool-cases, concat, map, some,
}
use cat_graphrag.Prelude.Keys.{Str, str_eq, str_eq_iff}
use cat_graphrag.SourceGraph.Types.{
  StrictOrder, Confidence, number, not_number, Floats, Meta, Codec, Raw, object,
}
use cat_graphrag.SourceGraph.Metadata.{
  raise_to, contains, add_missing, add_all, metadata_dict, merge_loop, merge_entity_metadata,
}

pub contains_iff : (x : Str) (xs : List Str) → (contains x xs ≡ true) ↔ Has x xs
contains_iff x [] = (λ h. cc, λ h. absurd h)
contains_iff x (y ∷ ys) = ground (arith, str_eq_iff y x, contains_iff x ys)

-- No text stands twice.
abbrev pub NoRepeat : List Str → Type 0
NoRepeat [] = Unit
NoRepeat (x ∷ xs) = (contains x xs ≡ false) × NoRepeat xs

Has-add_missing : (x y : Str) (xs : List Str) → Has x (add_missing xs y) ↔ (Has x xs ⊎ (y ≡ x))
Has-add_missing x y xs = elim (Bool-cases (contains y xs)) [
  | inl old ↦
      let there = (contains_iff y xs).0 old in
      rw old (λ h. inl h, λ h. elim h [ inl a ↦ a | inr e ↦ rw e at there ])
  | inr new ↦ rw new (ground (arith, Has-append x xs (y ∷ [])))
]

Has-add_all : (x : Str) (docs xs : List Str) → Has x (add_all docs xs) ↔ (Has x docs ⊎ Has x xs)
Has-add_all x docs [] = (λ h. inl h, λ h. elim h [ inl a ↦ a | inr b ↦ absurd b ])
Has-add_all x docs (y ∷ xs) =
    ground (arith, Has-add_all x (add_missing docs y) xs, Has-add_missing x y docs)

contains-append :
    (x y : Str) (xs : List Str)
    → contains x xs ≡ false
    → str_eq y x ≡ false
    → contains x (xs ++ y ∷ []) ≡ false
contains-append x y [] h e = ground arith
contains-append x y (z ∷ xs) h e = ground (arith, contains-append x y xs)

NoRepeat-append :
    (y : Str) (xs : List Str) → contains y xs ≡ false → NoRepeat xs → NoRepeat (xs ++ y ∷ [])
NoRepeat-append y [] h n = (refl, tt)
NoRepeat-append y (x ∷ xs) h n = (
  contains-append x y xs n.0 (ground (arith, str_eq_iff x y, str_eq_iff y x)),
  NoRepeat-append y xs (ground arith) n.1,
)

NoRepeat-add_missing : (docs : List Str) (y : Str) → NoRepeat docs → NoRepeat (add_missing docs y)
NoRepeat-add_missing docs y n = elim (Bool-cases (contains y docs)) [
  | inl old ↦ rw old n
  | inr new ↦ rw new (NoRepeat-append y docs new n)
]

NoRepeat-add_all : (docs xs : List Str) → NoRepeat docs → NoRepeat (add_all docs xs)
NoRepeat-add_all docs [] n = n
NoRepeat-add_all docs (x ∷ xs) n =
    NoRepeat-add_all (add_missing docs x) xs (NoRepeat-add_missing docs x n)

module _ (floats : Floats) (order : StrictOrder floats) (codec : Codec (floats.F)) where
  open floats use {F, lt}
  open codec use {Text, loads}

  -- No confidence is above `m`.
  abbrev pub AtMost : Confidence F → Confidence F → Type 0
  AtMost m not_number = Unit
  AtMost not_number (number c) = ⊥
  AtMost (number m) (number c) = lt m c ≡ false

  abbrev pub documents : List (Raw F Text) → List Str
  documents raws = concat (map (λ raw. (metadata_dict floats codec raw).source_documents) raws)

  AtMost-raise_to : (m c x : Confidence F) → AtMost m c → AtMost (raise_to floats m x) c
  AtMost-raise_to m not_number x h = tt
  AtMost-raise_to not_number (number c) x h = absurd h
  AtMost-raise_to (number m) (number c) not_number h = h
  AtMost-raise_to (number m) (number c) (number x) h = ground (arith, order.lt_trans m x c)

  raise_to-AtMost : (m x : Confidence F) → AtMost (raise_to floats m x) x
  raise_to-AtMost m not_number = tt
  raise_to-AtMost not_number (number x) = order.lt_irrefl x
  raise_to-AtMost (number m) (number x) = ground (arith, order.lt_irrefl x)

  abbrev step : Meta F → Raw F Text → Meta F
  step acc raw = record {
    source_documents =
        add_all acc.source_documents (metadata_dict floats codec raw).source_documents;
    confidence = raise_to floats acc.confidence (metadata_dict floats codec raw).confidence;
  }

  merge_loop-documents :
      (x : Str) (acc : Meta F) (raws : List (Raw F Text))
      → Has x (merge_loop floats codec acc raws).source_documents
        ↔ (Has x acc.source_documents ⊎ Has x (documents raws))
  unfolding merge_loop
  merge_loop-documents x acc [] = (λ h. inl h, λ h. elim h [ inl a ↦ a | inr b ↦ absurd b ])
  merge_loop-documents x acc (raw ∷ raws) =
      let docs = (metadata_dict floats codec raw).source_documents in
      ground (
        arith,
        merge_loop-documents x (step acc raw) raws,
        Has-add_all x acc.source_documents docs,
        Has-append x docs (documents raws),
      )

  merge_loop-NoRepeat :
      (acc : Meta F) (raws : List (Raw F Text))
      → NoRepeat acc.source_documents
      → NoRepeat (merge_loop floats codec acc raws).source_documents
  unfolding merge_loop
  merge_loop-NoRepeat acc [] n = n
  merge_loop-NoRepeat acc (raw ∷ raws) n =
      merge_loop-NoRepeat (step acc raw) raws
        (NoRepeat-add_all acc.source_documents (metadata_dict floats codec raw).source_documents n)

  merge_loop-AtMost :
      (c : Confidence F) (acc : Meta F) (raws : List (Raw F Text))
      → AtMost acc.confidence c
      → AtMost (merge_loop floats codec acc raws).confidence c
  unfolding merge_loop
  merge_loop-AtMost c acc [] h = h
  merge_loop-AtMost c acc (raw ∷ raws) h =
      merge_loop-AtMost c (step acc raw) raws (AtMost-raise_to acc.confidence c _ h)

  merge_loop-max :
      (acc : Meta F) (raws : List (Raw F Text))
      → All
          (λ raw.
            AtMost
              (merge_loop floats codec acc raws).confidence
              (metadata_dict floats codec raw).confidence)
          raws
  unfolding merge_loop
  merge_loop-max acc [] = tt
  merge_loop-max acc (raw ∷ raws) =
      let x = (metadata_dict floats codec raw).confidence in
      (
        merge_loop-AtMost x (step acc raw) raws (raise_to-AtMost acc.confidence x),
        merge_loop-max (step acc raw) raws,
      )

  -- The merged text reads back as one object: its documents are those of all the merged values,
  -- none twice, and no numeric confidence among them is above its own.
  pub merge_entity_metadata_lem :
      (raws : List (Raw F Text))
      → (m : Meta F) × (loads (merge_entity_metadata floats codec raws) ≡ some (object m))
        × ((x : Str) → Has x m.source_documents ↔ Has x (documents raws))
        × NoRepeat m.source_documents
        × All (λ raw. AtMost m.confidence (metadata_dict floats codec raw).confidence) raws
  unfolding merge_entity_metadata
  merge_entity_metadata_lem raws = (
    merge_loop floats codec start raws,
    codec.loads-dumps (merge_loop floats codec start raws),
    λ x. ground (arith, merge_loop-documents x start raws),
    merge_loop-NoRepeat start raws tt,
    merge_loop-max start raws,
  )
    where
      start : Meta F
      start = record { source_documents = []; confidence = not_number }
