-- ===== src/Entities/Relations.antt =====
-- Phase 1 of _extract_relations of entity_extractor.py: subject, verb and object from the dependency
-- tree.
use cat_graphrag.Prelude.{
  ℕ, ◌+◌, List, [], ◌∷◌, ◌++◌, map, Bool, false, ◌&&◌, ◌||◌, Option, none, some, if◌then◌else◌, leb,
  ltb, length, concat, filter_by, is_in,
}
use cat_graphrag.Prelude.Keys.{Str, str_eq, str_key, pair_key, nat_key}
use cat_graphrag.Prelude.Texts.{codes}
use cat_graphrag.Prelude.Dict.{lookup}
use cat_graphrag.Entities.Verbs.{verb_to_relation_type}
use cat_graphrag.Entities.{Confidences, ExtractedEntity, ExtractedRelation, Span, get_or}

-- The tokens of spaCy. `subtree` is in the order of the text and has the token itself.
pub record Parser : Type 1 where
  pub Token : Type 0
  pub idx : Token → ℕ
  pub text : Token → Str
  pub pos : Token → Str
  pub dep : Token → Str
  pub lemma : Token → Str
  pub children : Token → List Token
  pub subtree : Token → List Token

pub record Doc (Token : Type 0) : Type 0 where
  pub ents : List Span
  pub tokens : List Token

-- A triple of pair_key, and the pair of the ends of a relation.
abbrev pub Triple : Type 0
Triple = Str × Str × Str

abbrev pub triple_eq : Triple → Triple → Bool
triple_eq (a, b, c) (d, e, f) = str_eq a d && str_eq b e && str_eq c f

abbrev pub seen_in : Triple → List Triple → Bool
seen_in t [] = false
seen_in t (u ∷ us) = triple_eq u t || seen_in t us

module _ {F : Type 0} where
  -- The first of the entities whose span overlaps [start, end).
  unfoldable pub find_entity_for_span :
      List (ExtractedEntity F) → ℕ → ℕ → Option (ExtractedEntity F)
  find_entity_for_span [] start end = none
  find_entity_for_span (ent ∷ ents) start end =
      if ltb ent.start_char end && ltb start ent.end_char
      then some ent
      else find_entity_for_span ents start end

  abbrev pub ends_of : ExtractedRelation F → Str × Str
  ends_of r = (r.source_entity, r.target_entity)

-- subtree[-1]
abbrev pub last_of : {A : Type 0} → A → List A → A
last_of t [] = t
last_of t (u ∷ us) = last_of u us

module _ {F : Type 0} (parser : Parser) where
  -- The span of a subtree of 2 to 5 tokens.
  unfoldable pub find_by_subtree :
      List (ExtractedEntity F) → ℕ → List parser.Token → Option (ExtractedEntity F)
  unfolding find_entity_for_span
  find_by_subtree entities offset [] = none
  find_by_subtree entities offset (first ∷ tokens) =
      let last = last_of first tokens in
      if leb 2 (length (first ∷ tokens)) && leb (length (first ∷ tokens)) 5
      then find_entity_for_span entities (offset + parser.idx first)
          (offset + parser.idx last + length (parser.text last))
      else none

  unfoldable pub find_entity_for_token :
      List (ExtractedEntity F) → ℕ → parser.Token → Option (ExtractedEntity F)
  unfolding find_entity_for_span find_by_subtree
  find_entity_for_token entities offset tok =
      elim (find_entity_for_span entities (offset + parser.idx tok)
        (offset + parser.idx tok + length (parser.text tok))) [
          | some ent ↦ some ent
          | none ↦ find_by_subtree entities offset (parser.subtree tok)
        ]

module _ (parser : Parser) where
  -- The children of a token whose arc is one of `deps`.
  unfoldable pub children_by : List Str → parser.Token → List parser.Token
  children_by deps tok = filter_by (λ c. is_in (parser.dep c) deps) (parser.children tok)

  unfoldable pub subjects_of : parser.Token → List parser.Token
  unfolding children_by
  subjects_of tok =
      children_by (codes "nsubj" ∷ codes "nsubjpass" ∷ []) tok
      ++ concat (map (children_by (codes "pobj" ∷ [])) (children_by (codes "agent" ∷ []) tok))

  unfoldable pub objects_of : parser.Token → List parser.Token
  unfolding children_by
  objects_of tok =
      children_by (codes "dobj" ∷ codes "attr" ∷ codes "acomp" ∷ codes "oprd" ∷ []) tok
      ++ concat (
          map (children_by (codes "pobj" ∷ codes "pcomp" ∷ []))
            (children_by (codes "prep" ∷ []) tok))

module _ (confidences : Confidences) where
  abbrev pub Relation : Type 0
  Relation = ExtractedRelation confidences.F

  abbrev pub Entity : Type 0
  Entity = ExtractedEntity confidences.F

  -- seen_pairs and relations
  abbrev pub Found : Type 0
  Found = List Triple × List (ExtractedRelation confidences.F)

  -- One pair of a subject and an object, resolved to entities or not.
  unfoldable pub add_pair :
      Str
      → Option (ExtractedEntity confidences.F)
      → Option (ExtractedEntity confidences.F)
      → List Triple × List (ExtractedRelation confidences.F)
      → List Triple × List (ExtractedRelation confidences.F)
  add_pair rel_type none o found = found
  add_pair rel_type (some subj) none found = found
  add_pair rel_type (some subj) (some obj) (seen, relations) =
      if str_eq subj.name obj.name
      then (seen, relations)
      else if seen_in (subj.name, obj.name, rel_type) seen
      then (seen, relations)
      else (
        (subj.name, obj.name, rel_type) ∷ seen,
        relations
            ++ record {
              source_entity = subj.name;
              target_entity = obj.name;
              relation_type = rel_type;
              weight = confidences.c85;
            }
              ∷ [],
      )

module _ (parser : Parser) (confidences : Confidences)
    (entities : List (ExtractedEntity confidences.F)) where
  -- for obj_tok in objects
  unfoldable pub add_objects :
      Str
      → ℕ
      → parser.Token
      → List parser.Token
      → List Triple × List (ExtractedRelation confidences.F)
      → List Triple × List (ExtractedRelation confidences.F)
  unfolding find_entity_for_token add_pair
  add_objects rel_type offset subj [] found = found
  add_objects rel_type offset subj (obj ∷ objs) found = add_objects rel_type offset subj objs (
      add_pair confidences rel_type (find_entity_for_token parser entities offset subj)
        (find_entity_for_token parser entities offset obj) found)

  -- for subj_tok in subjects
  unfoldable pub add_subjects :
      Str
      → ℕ
      → List parser.Token
      → List parser.Token
      → List Triple × List (ExtractedRelation confidences.F)
      → List Triple × List (ExtractedRelation confidences.F)
  unfolding add_objects
  add_subjects rel_type offset [] objs found = found
  add_subjects rel_type offset (subj ∷ subjs) objs found =
      add_subjects rel_type offset subjs objs (add_objects rel_type offset subj objs found)

  -- token.pos_ in ("VERB", "AUX")
  abbrev pub is_verb : parser.Token → Bool
  is_verb token = is_in (parser.pos token) (codes "VERB" ∷ codes "AUX" ∷ [])

  unfoldable pub add_tokens :
      ℕ
      → List parser.Token
      → List Triple × List (ExtractedRelation confidences.F)
      → List Triple × List (ExtractedRelation confidences.F)
  unfolding add_subjects subjects_of objects_of lookup
  add_tokens offset [] found = found
  add_tokens offset (token ∷ tokens) found =
      let rel_type =
        get_or (codes "RELATED_TO") (lookup (parser.lemma token) verb_to_relation_type) in
      add_tokens offset tokens (
        if is_verb token
        then add_subjects rel_type offset (subjects_of parser token) (objects_of parser token) found
        else found)

  -- Phase 1, over all segments.
  unfoldable pub add_segments :
      List (Doc parser.Token × ℕ)
      → List Triple × List (ExtractedRelation confidences.F)
      → List Triple × List (ExtractedRelation confidences.F)
  unfolding add_tokens
  add_segments [] found = found
  add_segments ((doc, offset) ∷ segments) found =
      add_segments segments (add_tokens offset doc.tokens found)
