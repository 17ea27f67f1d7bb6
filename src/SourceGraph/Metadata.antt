-- ===== src/SourceGraph/Metadata.antt =====
-- _metadata_dict, _merge_entity_metadata and _merge_source_files of source_graph_writer.py.
pub mod Laws
use cat_graphrag.Prelude.{
  List, [], ◌∷◌, ◌++◌, Option, none, some, Bool, true, false, ◌||◌, ◌≡◌, ◌⊎◌, ◌↔◌, arith,
  if◌then◌else◌, Has, Bool-cases, inl, inr, refl,
}
use cat_graphrag.Prelude.Keys.{Str, contains, str_eq, str_eq_iff}
use cat_graphrag.SourceGraph.Types.{
  Floats, Confidence, number, not_number, Meta, Loaded, object, no_object, Codec, Raw, dict, text,
  other,
}

-- if doc_id not in documents: documents.append(doc_id)
abbrev pub add_missing : List Str → Str → List Str
add_missing documents x = if contains x documents then documents else documents ++ x ∷ []

abbrev pub add_all : List Str → List Str → List Str
add_all documents [] = documents
add_all documents (x ∷ xs) = add_all (add_missing documents x) xs

-- _merge_source_files
unfoldable pub merge_source_files : Option (List Str) → Option (List Str) → Option (List Str)
merge_source_files none right = right
merge_source_files (some left) none = some left
merge_source_files (some left) (some right) = some (add_all left right)

module _ (floats : Floats) where
  open floats use {F, lt}

  -- max(a, b)
  abbrev pub max_of : F → F → F
  max_of a b = if lt a b then b else a

  abbrev pub raise_to : Confidence F → Confidence F → Confidence F
  raise_to current not_number = current
  raise_to not_number (number x) = number x
  raise_to (number c) (number x) = number (max_of c x)

module _ (floats : Floats) (codec : Codec (floats.F)) where
  open floats use {F}
  open codec use {Text, loads, dumps}

  abbrev of_loaded : Option (Loaded F) → Meta F
  of_loaded (some (object m)) = m
  of_loaded _ = record { source_documents = []; confidence = not_number }

  -- _metadata_dict: `{}` reads as no documents and no confidence.
  unfoldable pub metadata_dict : Raw F Text → Meta F
  metadata_dict (dict m) = m
  metadata_dict (text t) = of_loaded (loads t)
  metadata_dict other = record { source_documents = []; confidence = not_number }

  -- The loop of _merge_entity_metadata, over its two variables.
  unfoldable pub merge_loop : Meta F → List (Raw F Text) → Meta F
  unfolding metadata_dict
  merge_loop acc [] = acc
  merge_loop acc (raw ∷ raws) =
      merge_loop
        (record {
          source_documents = add_all acc.source_documents (metadata_dict raw).source_documents;
          confidence = raise_to floats acc.confidence (metadata_dict raw).confidence;
        })
        raws

  -- _merge_entity_metadata
  unfoldable pub merge_entity_metadata : List (Raw F Text) → Text
  unfolding merge_loop
  merge_entity_metadata raws =
      dumps (merge_loop (record { source_documents = []; confidence = not_number }) raws)
