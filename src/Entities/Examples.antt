-- ===== src/Entities/Examples.antt =====
-- Tests and instances for entity_extractor.py.
use cat_graphrag.Prelude.{
  ℕ, List, [], ◌∷◌, map, ◌≡◌, refl, true, false, if◌then◌else◌, ◌==◌, ltb, All, ◌+◌,
}
use cat_graphrag.Prelude.Keys.{Str, str_key, nat_key}
use cat_graphrag.Prelude.Texts.{codes}
use cat_graphrag.Prelude.Dict.{Dict, lookup}
use cat_graphrag.Prelude.Sort.{sort_by}
use cat_graphrag.Entities.{
  Python, Confidences, person, ExtractedEntity, ExtractedRelation, get_or, without_article,
}
use cat_graphrag.Entities.Relations.{Parser, Doc, add_segments}
use cat_graphrag.Entities.Nearness.{near_all}
use cat_graphrag.Entities.Near.{near_pairs, near_all_lem}
use cat_graphrag.Entities.Pairs.{Joins}
use cat_graphrag.Entities.Extract.{Match, extract}
use cat_graphrag.Entities.Laws.{extract-Joins}

abbrev python : Python
python = record { lower = λ s. s; is_space = λ c. c == 32; md5 = λ s. s }

abbrev percent : Confidences
percent = record {
  F = ℕ;
  c50 = 50;
  c60 = 60;
  c85 = 85;
  c90 = 90;
  gt = λ a b. ltb b a;
  quarter = λ a b. a + b;
}

article : without_article python (codes "the cat") ≡ codes "cat"
unfolding without_article
article = refl

kept_an : without_article python (codes "answer") ≡ codes "answer"
unfolding without_article
kept_an = refl

-- A parser whose tokens are their words.
abbrev parser : Dict Str ℕ → Dict Str Str → Dict Str (List Str) → Parser
parser starts deps kids = record {
  Token = Str;
  idx = λ t. get_or 0 (lookup t starts);
  text = λ t. t;
  pos = λ t. if get_or false (lookup t ((codes "developed", true) ∷ [])) then codes "VERB" else [];
  dep = λ t. get_or [] (lookup t deps);
  lemma = λ t. codes "develop";
  children = λ t. get_or [] (lookup t kids);
  subtree = λ t. t ∷ [];
}

abbrev entity : Str → ℕ → ℕ → ExtractedEntity ℕ
entity name start end = record {
  name = name;
  type = person;
  start_char = start;
  end_char = end;
  confidence = 90;
}

abbrev words : List Str → Doc Str
words tokens = record { ents = []; tokens = tokens }

-- Guido developed Python
abbrev active : Parser
active =
    parser ((codes "developed", 6) ∷ (codes "Python", 16) ∷ [])
      ((codes "Guido", codes "nsubj") ∷ (codes "Python", codes "dobj") ∷ [])
      ((codes "developed", codes "Guido" ∷ codes "Python" ∷ []) ∷ [])

active_found :
    (add_segments active percent
      (entity (codes "Guido") 0 5 ∷ entity (codes "Python") 16 22 ∷ [])
      ((words (codes "Guido" ∷ codes "developed" ∷ codes "Python" ∷ []), 0) ∷ [])
      ([], [])).1
    ≡ record {
      source_entity = codes "Guido";
      target_entity = codes "Python";
      relation_type = codes "DEVELOPS";
      weight = 85;
    }
      ∷ []
unfolding add_segments lookup
active_found = refl

-- Python was developed by Guido: both are subjects, so there is no object to relate.
abbrev passive : Parser
passive =
    parser ((codes "developed", 11) ∷ (codes "by", 21) ∷ (codes "Guido", 24) ∷ [])
      ((codes "Python", codes "nsubjpass")
        ∷ (codes "by", codes "agent")
        ∷ (codes "Guido", codes "pobj")
        ∷ [])
      ((codes "developed", codes "Python" ∷ codes "by" ∷ [])
        ∷ (codes "by", codes "Guido" ∷ [])
        ∷ [])

passive_not_found :
    (add_segments passive percent
      (entity (codes "Python") 0 6 ∷ entity (codes "Guido") 24 29 ∷ [])
      ((
        words (codes "Python" ∷ codes "was" ∷ codes "developed" ∷ codes "by" ∷ codes "Guido" ∷ []),
        0,
      )
        ∷ [])
      ([], [])).1
    ≡ []
unfolding add_segments lookup
passive_not_found = refl

abbrev three : List (ExtractedEntity ℕ)
three = entity (codes "c") 300 301 ∷ entity (codes "a") 0 1 ∷ entity (codes "b") 50 51 ∷ []

near_found :
    map {B = Str × Str}
      (λ (r : ExtractedRelation ℕ). (r.source_entity, r.target_entity))
      (near_all python percent [] [] (sort_by (λ (e : ExtractedEntity ℕ). e.start_char) three))
    ≡ (codes "a", codes "b") ∷ []
unfolding near_all sort_by
near_found = refl

near_all_example :
    near_all python percent [] [] (sort_by (λ (e : ExtractedEntity ℕ). e.start_char) three)
    ≡ near_pairs python percent [] [] (sort_by (λ (e : ExtractedEntity ℕ). e.start_char) three)
near_all_example = near_all_lem python percent [] [] three

abbrev parse : Str → Doc Str
parse text = record {
  ents = record { text = codes "Guido"; label = codes "PERSON"; start_char = 0; end_char = 5 } ∷ [];
  tokens = codes "Guido" ∷ codes "developed" ∷ codes "Python" ∷ [];
}

abbrev finditer : Str → Str → List Match
finditer pattern text = record { group = codes "Python"; start = 16; end = 22 } ∷ []

extract-Joins_example :
    All
      (Joins
        (extract python percent active parse finditer ([] ∷ []) (codes "Guido developed Python")).0)
      (extract python percent active parse finditer ([] ∷ []) (codes "Guido developed Python")).1
extract-Joins_example =
    extract-Joins python percent active parse finditer ([] ∷ []) (codes "Guido developed Python")
