-- ===== src/Entities.antt =====
-- entity_extractor.py: entities and relations from what spaCy has parsed. Parameters are the parser's
-- documents (`Parser`), Python's `str` functions and MD5 (`Python`), the regular expressions, and the
-- floats of the confidences (`Confidences`).
pub mod Verbs
pub mod Relations
pub mod Nearness
pub mod Extract
pub mod Near
pub mod Pairs
pub mod Names
pub mod Laws
mod Examples
use cat_graphrag.Prelude.{
  ℕ, ◌+◌, List, [], ◌∷◌, ◌++◌, map, Bool, true, false, ◌&&◌, not, Option, none, some, if◌then◌else◌,
  leb, length, is_empty, concat,
}
use cat_graphrag.Prelude.Keys.{Str, str_eq, str_key}
use cat_graphrag.Prelude.Texts.{codes}
use cat_graphrag.Prelude.Dict.{Dict, lookup, put, values}

-- EntityType of models.py
pub data EntityType : Type 0 where
  person : EntityType
  organization : EntityType
  technology : EntityType
  concept : EntityType
  location : EntityType
  date : EntityType
  product : EntityType
  event : EntityType
  financial : EntityType
  unknown : EntityType

-- Floats: the constants of the source, `>`, and the weight of a co-occurrence, (a + b) / 4.
pub record Confidences : Type 1 where
  pub F : Type 0
  pub c50 : F
  pub c60 : F
  pub c85 : F
  pub c90 : F
  pub gt : F → F → Bool
  pub quarter : F → F → F

pub record Python : Type 0 where
  pub lower : Str → Str
  pub is_space : ℕ → Bool
  pub md5 : Str → Str

pub record ExtractedEntity (F : Type 0) : Type 0 where
  pub name : Str
  pub type : EntityType
  pub start_char : ℕ
  pub end_char : ℕ
  pub confidence : F

pub record ExtractedRelation (F : Type 0) : Type 0 where
  pub source_entity : Str
  pub target_entity : Str
  pub relation_type : Str
  pub weight : F

-- doc.ents of spaCy
pub record Span : Type 0 where
  pub text : Str
  pub label : Str
  pub start_char : ℕ
  pub end_char : ℕ

-- SPACY_TO_ENTITY_TYPE
abbrev pub spacy_to_entity_type : Dict Str EntityType
spacy_to_entity_type =
    (codes "PERSON", person)
    ∷ (codes "ORG", organization)
    ∷ (codes "GPE", location)
    ∷ (codes "LOC", location)
    ∷ (codes "PRODUCT", product)
    ∷ (codes "EVENT", event)
    ∷ (codes "DATE", date)
    ∷ (codes "MONEY", financial)
    ∷ (codes "PERCENT", financial)
    ∷ (codes "LAW", concept)
    ∷ (codes "FAC", location)
    ∷ (codes "WORK_OF_ART", concept)
    ∷ []

abbrev pub max_co_occurrence_entities : ℕ
max_co_occurrence_entities = 10

-- d.get(key, default)
abbrev pub get_or {ℓ} : {A : Type ℓ} → A → Option A → A
get_or default none = default
get_or default (some a) = a

abbrev pub is_unknown : EntityType → Bool
is_unknown person = false
is_unknown organization = false
is_unknown technology = false
is_unknown concept = false
is_unknown location = false
is_unknown date = false
is_unknown product = false
is_unknown event = false
is_unknown financial = false
is_unknown unknown = true

module _ (python : Python) where
  unfoldable pub lstrip : Str → Str
  lstrip [] = []
  lstrip (c ∷ s) = if python.is_space c then lstrip s else c ∷ s

  abbrev pub all_space : Str → Bool
  all_space [] = true
  all_space (c ∷ s) = python.is_space c && all_space s

  unfoldable pub rstrip : Str → Str
  rstrip [] = []
  rstrip (c ∷ s) = let rest = rstrip s in if all_space (c ∷ s) then [] else c ∷ rest

  -- s.strip()
  unfoldable pub strip_text : Str → Str
  unfolding lstrip rstrip
  strip_text s = rstrip (lstrip s)

  -- name.lower().strip()
  unfoldable pub normalized : Str → Str
  unfolding strip_text
  normalized name = strip_text (python.lower name)

  -- What follows `word` and the white space after it, which must be there.
  unfoldable pub after_word : Str → Str → Option Str
  unfolding lstrip
  after_word [] [] = none
  after_word [] (c ∷ s) = if python.is_space c then some (lstrip s) else none
  after_word (_ ∷ _) [] = none
  after_word (w ∷ word) (c ∷ s) =
      let rest = after_word word s in if str_eq (w ∷ []) (c ∷ []) then rest else none

  -- re.sub(r'^(the|a|an)\s+', '', normalized)
  unfoldable pub without_article : Str → Str
  unfolding after_word
  without_article s = elim (after_word (codes "the") s) [
    | some rest ↦ rest
    | none ↦ elim (after_word (codes "a") s) [
      | some rest ↦ rest
      | none ↦ get_or s (after_word (codes "an") s)
    ]
  ]

  unfoldable pub get_entity_hash : Str → Str → Str
  unfolding normalized without_article
  get_entity_hash name tenant_id =
      python.md5 (tenant_id ++ codes ":" ++ without_article (normalized name))

module _ (python : Python) (confidences : Confidences) where
  abbrev pub span_confidence : EntityType → confidences.F
  span_confidence type = if is_unknown type then confidences.c50 else confidences.c90

  unfoldable pub extract_entities : ℕ → List Span → List (ExtractedEntity confidences.F)
  unfolding lookup strip_text
  extract_entities offset [] = []
  extract_entities offset (ent ∷ ents) =
      let type = get_or unknown (lookup ent.label spacy_to_entity_type) in
      record {
        name = strip_text python ent.text;
        type = type;
        start_char = ent.start_char + offset;
        end_char = ent.end_char + offset;
        confidence = span_confidence type;
      }
      ∷ extract_entities offset ents

  -- One round of the loop: the entity with the higher confidence is kept.
  unfoldable pub keep_entity :
      Option (ExtractedEntity confidences.F)
      → ExtractedEntity confidences.F
      → ExtractedEntity confidences.F
  keep_entity none ent = ent
  keep_entity (some existing) ent =
      if confidences.gt ent.confidence existing.confidence then ent else existing

  -- A write of what is there already changes nothing, so the loop writes in every round here.
  unfoldable pub deduplicated :
      Dict Str (ExtractedEntity confidences.F)
      → List (ExtractedEntity confidences.F)
      → Dict Str (ExtractedEntity confidences.F)
  unfolding lookup put normalized keep_entity
  deduplicated found [] = found
  deduplicated found (ent ∷ ents) =
      let name_lower = normalized python ent.name in
      deduplicated (put name_lower (keep_entity (lookup name_lower found) ent) found) ents

  unfoldable pub deduplicate_entities :
      List (ExtractedEntity confidences.F) → List (ExtractedEntity confidences.F)
  unfolding deduplicated
  deduplicate_entities entities = values (deduplicated [] entities)
