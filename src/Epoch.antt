-- ===== src/Epoch.antt =====
-- epoch.py: the generation token of each tenant, and the schema names that carry it. The store is a
-- dictionary from tenants to the `generation` of their Epoch node; a node without it holds "".
pub mod Laws
use cat_graphrag.Prelude.{List, [], ◌∷◌, ◌++◌, Option, none, some}
use cat_graphrag.Prelude.Keys.{Str, str_key}
use cat_graphrag.Prelude.Texts.{codes}
use cat_graphrag.Prelude.Dict.{Dict, lookup, put}

abbrev pub Epochs : Type 0
Epochs = Dict Str Str

abbrev pub first_generation : Str
first_generation = codes "v1"

-- What is read of a record, and the store after it: an absent node is created, an empty token is
-- replaced.
unfoldable pub read_record : Str → Epochs → Option Str → Str × Epochs
read_record tenant epochs none = (first_generation, put tenant first_generation epochs)
read_record tenant epochs (some []) = (first_generation, epochs)
read_record tenant epochs (some (c ∷ gen)) = (c ∷ gen, epochs)

-- _read_generation
unfoldable pub read_generation : Str → Epochs → Str × Epochs
read_generation tenant epochs = read_record tenant epochs (lookup tenant epochs)

-- _set_generation
unfoldable pub set_generation : Str → Str → Epochs → Epochs
set_generation tenant gen epochs = put tenant gen epochs

-- The names of the versioned schema.
pub record Names : Type 0 where
  pub embedding_prop : Str
  pub index : Str
  pub relation : Str
  pub entity_embedding_prop : Str
  pub entity_index : Str

-- What a handler keeps of its generation, beside the bases of its two index names.
pub record Handler : Type 0 where
  pub document_vector_index : Str
  pub entity_vector_index : Str
  pub generation : Option Str
  pub names : Option Names

-- _versioned_names
unfoldable pub versioned_names : Handler → Str → Names
versioned_names h gen = record {
  embedding_prop = codes "embedding_" ++ gen;
  index = h.document_vector_index ++ codes "_" ++ gen;
  relation = codes "SIMILAR_TO_" ++ gen;
  entity_embedding_prop = codes "entity_embedding_" ++ gen;
  entity_index = h.entity_vector_index ++ codes "_" ++ gen;
}

-- _rebuild_for_generation
unfoldable pub rebuild_for_generation : Handler → Str → Handler
rebuild_for_generation h gen = record h {
  generation = some gen;
  names = some (versioned_names h gen);
}
