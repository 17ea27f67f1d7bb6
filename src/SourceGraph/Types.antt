-- ===== src/SourceGraph/Types.antt =====
-- The values that source_graph_writer.py passes about. Floats and the JSON text of the entity
-- metadata are parameters: `Floats` has the operations that the code uses, `Codec` the round trip.
use cat_graphrag.Prelude.{List, Option, some, Bool, true, false, ◌≡◌}
use cat_graphrag.Prelude.Keys.{Str}

-- Python floats, with the operations on them that the sources use.
pub record Floats : Type 1 where
  pub F : Type 0
  pub zero : F
  pub lt : F → F → Bool
  -- (a + b) / 2.0
  pub mean : F → F → F

-- What Python guarantees of `<` on floats.
pub record StrictOrder (floats : Floats) : Type 0 where
  pub lt_irrefl : (a : floats.F) → floats.lt a a ≡ false
  pub lt_trans :
      (a b c : floats.F) → floats.lt a b ≡ true → floats.lt b c ≡ true → floats.lt a c ≡ true

-- A metadata value as the code reads it: whether `confidence` is a number (and no bool), and
-- `source_documents`, which is empty where the key is missing.
pub data Confidence (F : Type 0) : Type 0 where
  number : F → Confidence F
  not_number : Confidence F

pub record Meta (F : Type 0) : Type 0 where
  pub source_documents : List Str
  pub confidence : Confidence F

-- What `json.loads` returns, where it does not raise.
pub data Loaded (F : Type 0) : Type 0 where
  object : Meta F → Loaded F
  no_object : Loaded F

-- JSON texts: `loads` is `none` where `json.loads` raises.
pub record Codec (F : Type 0) : Type 1 where
  pub Text : Type 0
  pub loads : Text → Option (Loaded F)
  pub dumps : Meta F → Text
  pub loads-dumps : (m : Meta F) → loads (dumps m) ≡ some (object m)

-- The `metadata` of an entity: a dict, a JSON text, or anything else.
pub data Raw (F T : Type 0) : Type 0 where
  dict : Meta F → Raw F T
  text : T → Raw F T
  other : Raw F T

-- Entity = Dict[str, Any]; `V` is the type of embeddings. A missing key reads as `None`.
pub record Entity (F T V : Type 0) : Type 0 where
  pub id : Str
  pub name : Option Str
  pub type : Option Str
  pub embedding : Option V
  pub metadata : Raw F T

-- Mention = Dict[str, Any]
pub record Mention (F : Type 0) : Type 0 where
  pub doc_id : Str
  pub entity_id : Str
  pub confidence : Option F

-- Relation = Dict[str, Any]
pub record Relation (F : Type 0) : Type 0 where
  pub source_id : Str
  pub target_id : Str
  pub rel_type : Str
  pub weight : Option F
  pub source_files : Option (List Str)

-- WritePlan = Dict[str, List[Dict[str, Any]]]
pub record WritePlan (F T V : Type 0) : Type 0 where
  pub entities : List (Entity F T V)
  pub mentions : List (Mention F)
  pub relations : List (Relation F)
