-- ===== src/Extraction/Gate.antt =====
-- The gate for lost items: _drop_unstorable_items, _raw_container_count, _raw_item_counts and
-- _count_dropped_items of graphrag_handler.py.
pub mod Laws
use cat_graphrag.Prelude.{
  filter_by, is_empty, is_some, ℕ, zero, suc, ◌+◌, ◌-◌, List, [], ◌∷◌, Bool, true, false, ◌&&◌, not,
  Option, none, some, if◌then◌else◌, ltb, length,
}
use cat_graphrag.Prelude.Keys.{Str}
use cat_graphrag.Prelude.Texts.{codes}
use cat_graphrag.Extraction.Json.{
  Json, null, boolean, number, string, array, object, Items, Fields, Runtime, elements, get, size,
  text_or_empty,
}
use cat_graphrag.Extraction.Payload.{strip, counted_payload}

module _ (python : Runtime) where
  -- _text(item.get(key)), as a condition
  abbrev pub has_text : Str → Fields → Bool
  has_text key item = not (is_empty (strip python (text_or_empty python key item)))

  unfoldable pub storable_concept : Json → Bool
  unfolding strip text_or_empty
  storable_concept (object item) = has_text (codes "text") item
  storable_concept null = false
  storable_concept (boolean _) = false
  storable_concept (number _) = false
  storable_concept (string _) = false
  storable_concept (array _) = false

  unfoldable pub storable_relation : Json → Bool
  unfolding strip text_or_empty
  storable_relation (object item) =
      has_text (codes "origin") item
      && has_text (codes "destination") item
      && has_text (codes "text") item
  storable_relation null = false
  storable_relation (boolean _) = false
  storable_relation (number _) = false
  storable_relation (string _) = false
  storable_relation (array _) = false

  -- _drop_unstorable_items
  unfoldable pub drop_unstorable_items : List Json → List Json → List Json × List Json
  unfolding storable_concept storable_relation
  drop_unstorable_items concepts relations =
      (filter_by storable_concept concepts, filter_by storable_relation relations)

-- _raw_container_count
unfoldable pub raw_container_count : Json → ℕ
unfolding elements size
raw_container_count (array xs) = length (elements xs)
raw_container_count (object fs) = if ltb 1 (size fs) then size fs else 1
raw_container_count null = 1
raw_container_count (boolean _) = 1
raw_container_count (number _) = 1
raw_container_count (string _) = 1

-- The count of a container that may be missing.
abbrev pub count_of_present : Option Json → ℕ
count_of_present none = 0
count_of_present (some v) = raw_container_count v

unfoldable pub count_at : Str → Fields → ℕ
unfolding get raw_container_count
count_at key fs = count_of_present (get key fs)

unfoldable pub counts_of : Option Json → ℕ × ℕ
unfolding elements count_at
counts_of none = (0, 0)
counts_of (some (array xs)) = (0, length (elements xs))
counts_of (some (object fs)) = (count_at (codes "concepts") fs, count_at (codes "relations") fs)
counts_of (some null) = (0, 0)
counts_of (some (boolean _)) = (0, 0)
counts_of (some (number _)) = (0, 0)
counts_of (some (string _)) = (0, 0)

module _ (python : Runtime) where
  -- _raw_item_counts
  unfoldable pub raw_item_counts : Str → ℕ × ℕ
  unfolding counts_of counted_payload
  raw_item_counts raw = counts_of (counted_payload python raw)

  -- _count_dropped_items, which looks only at the lengths of the two lists: `max(0, a - b)` is the
  -- subtraction of ℕ.
  unfoldable pub count_dropped_items : Str → ℕ → ℕ → ℕ
  unfolding raw_item_counts
  count_dropped_items raw concepts relations =
      let (raw_concepts, raw_relations) = raw_item_counts raw in
      (raw_concepts - concepts) + (raw_relations - relations)
