-- ===== src/Entities/Pairs.antt =====
-- Relations join two different entities of the text.
use cat_graphrag.Prelude.{
  ℕ, ◌+◌, List, [], ◌∷◌, ◌++◌, map, ◌≡◌, refl, sym, ap, ◌∙◌, false, ◌&&◌, ◌||◌, Option, none, some,
  leb, ltb, arith, All, All-append, Has, Bool-cases, Option-cases, inl, inr, length,
}
use cat_graphrag.Prelude.Keys.{Str, str_eq, str_eq_iff, str_key, nat_key, pair_key}
use cat_graphrag.Entities.{Confidences, ExtractedEntity, ExtractedRelation, get_or}
use cat_graphrag.Entities.Relations.{
  Parser, Doc, triple_eq, seen_in, find_entity_for_span, find_by_subtree, find_entity_for_token,
  last_of, subjects_of, objects_of, add_pair, add_objects, add_subjects, is_verb, add_tokens,
  add_segments,
}

triple_eq-sym : (t u : Str × Str × Str) → triple_eq t u ≡ triple_eq u t
triple_eq-sym (a, b, c) (d, e, f) = ground (
  arith,
  str_eq_iff a d,
  str_eq_iff d a,
  str_eq_iff b e,
  str_eq_iff e b,
  str_eq_iff c f,
  str_eq_iff f c,
)

module _ {F : Type 0} where
  -- A relation between entities of the list that have different names.
  pub record Joins (entities : List (ExtractedEntity F)) (r : ExtractedRelation F) : Type 0 where
    pub source : ExtractedEntity F
    pub target : ExtractedEntity F
    pub has_source : Has source entities
    pub has_target : Has target entities
    pub source_named : source.name ≡ r.source_entity
    pub target_named : target.name ≡ r.target_entity
    pub differ : str_eq r.source_entity r.target_entity ≡ false

  abbrev pub triple_of : ExtractedRelation F → Str × Str × Str
  triple_of r = (r.source_entity, r.target_entity, r.relation_type)

  -- No triple of ends and type stands twice.
  abbrev pub Once : List (ExtractedRelation F) → Type 0
  Once [] = Unit
  Once (r ∷ rs) = (seen_in (triple_of r) (map triple_of rs) ≡ false) × Once rs

  Has-find_entity_for_span :
      (entities : List (ExtractedEntity F)) (start end : ℕ) (e : ExtractedEntity F)
      → find_entity_for_span entities start end ≡ some e
      → Has e entities
  unfolding find_entity_for_span
  Has-find_entity_for_span [] start end e h = absurd (ground arith)
  Has-find_entity_for_span (x ∷ xs) start end e h =
      elim (Bool-cases (ltb x.start_char end && ltb start x.end_char)) [
        | inl over ↦ let k : some x ≡ some e = rw over at h in inl (some_inj k)
        | inr apart ↦
            let k : find_entity_for_span xs start end ≡ some e = rw apart at h in
            inr (Has-find_entity_for_span xs start end e k)
      ]
    where
      some_inj : some x ≡ some e → x ≡ e
      some_inj q = ap (λ o. get_or x o) q

  seen_in-append :
      (t : Str × Str × Str) (rs : List (ExtractedRelation F)) (r : ExtractedRelation F)
      → seen_in t (map triple_of (rs ++ r ∷ []))
        ≡ (triple_eq (triple_of r) t || seen_in t (map triple_of rs))
  seen_in-append t [] r = refl
  seen_in-append t (x ∷ rs) r = ground (arith, seen_in-append t rs r)

  Once-append :
      (rs : List (ExtractedRelation F)) (r : ExtractedRelation F)
      → Once rs
      → seen_in (triple_of r) (map triple_of rs) ≡ false
      → Once (rs ++ r ∷ [])
  Once-append [] r o h = (refl, tt)
  Once-append (x ∷ rs) r (fresh, o) h = (
    ground (arith, seen_in-append (triple_of x) rs r, triple_eq-sym (triple_of r) (triple_of x)),
    Once-append rs r o (ground arith),
  )

  -- What the loops of phase 1 keep.
  pub record Kept (entities : List (ExtractedEntity F))
      (found : List (Str × Str × Str) × List (ExtractedRelation F)) : Type 0 where
    pub joins : All (Joins entities) found.1
    pub once : Once found.1
    pub same : (t : Str × Str × Str) → seen_in t found.0 ≡ seen_in t (map triple_of found.1)

module _ {F : Type 0} (parser : Parser) where
  Has-find_by_subtree :
      (entities : List (ExtractedEntity F)) (offset : ℕ) (tokens : List parser.Token)
      (e : ExtractedEntity F)
      → find_by_subtree parser entities offset tokens ≡ some e
      → Has e entities
  unfolding find_by_subtree
  Has-find_by_subtree entities offset [] e h = absurd (ground arith)
  Has-find_by_subtree entities offset (first ∷ tokens) e h =
      let last = last_of first tokens in
      elim (Bool-cases (leb 2 (length (first ∷ tokens)) && leb (length (first ∷ tokens)) 5)) [
        | inl short ↦
            let k : find_entity_for_span entities (offset + parser.idx first)
                  (offset + parser.idx last + length (parser.text last))
                ≡ some e =
              rw short at h in
            Has-find_entity_for_span entities (offset + parser.idx first)
              (offset + parser.idx last + length (parser.text last)) e k
        | inr long ↦ let k : none ≡ some e = rw long at h in absurd (ground arith)
      ]

  Has-find_entity_for_token :
      (entities : List (ExtractedEntity F)) (offset : ℕ) (tok : parser.Token)
      (e : ExtractedEntity F)
      → find_entity_for_token parser entities offset tok ≡ some e
      → Has e entities
  unfolding find_entity_for_token
  Has-find_entity_for_token entities offset tok e h =
      let start = offset + parser.idx tok in
      let end = offset + parser.idx tok + length (parser.text tok) in
      elim (Option-cases (find_entity_for_span entities start end)) [
        | inl missing ↦
            let k : find_by_subtree parser entities offset (parser.subtree tok) ≡ some e =
              rw (missing, find_entity_for_token) at h in
            Has-find_by_subtree entities offset (parser.subtree tok) e k
        | inr found ↦
            let k : some found.0 ≡ some e = rw (found.1, find_entity_for_token) at h in
            Has-find_entity_for_span entities start end e (found.1 ∙ k)
      ]

module _ (parser : Parser) (confidences : Confidences)
    (entities : List (ExtractedEntity confidences.F)) where
  add_pair-Kept :
      (rel_type : Str) (s o : Option (ExtractedEntity confidences.F))
      (found : List (Str × Str × Str) × List (ExtractedRelation confidences.F))
      → ((e : ExtractedEntity confidences.F) → s ≡ some e → Has e entities)
      → ((e : ExtractedEntity confidences.F) → o ≡ some e → Has e entities)
      → Kept entities found
      → Kept entities (add_pair confidences rel_type s o found)
  unfolding add_pair
  add_pair-Kept rel_type none o found hs ho k = k
  add_pair-Kept rel_type (some s) none found hs ho k = k
  add_pair-Kept rel_type (some s) (some o) (seen, relations) hs ho k =
      let r : ExtractedRelation confidences.F = record {
        source_entity = s.name;
        target_entity = o.name;
        relation_type = rel_type;
        weight = confidences.c85;
      } in
      elim (Bool-cases (str_eq s.name o.name)) [
        | inl itself ↦ rw itself k
        | inr two ↦ elim (Bool-cases (seen_in (s.name, o.name, rel_type) seen)) [
          | inl old ↦ rw (two, old) k
          | inr new ↦
              rw (two, new)
                (record {
                  joins = All-append (Joins entities) relations (r ∷ []) k.joins (
                    record {
                      source = s;
                      target = o;
                      has_source = hs s refl;
                      has_target = ho o refl;
                      source_named = refl;
                      target_named = refl;
                      differ = two;
                    },
                    tt,
                  );
                  once = Once-append relations r k.once (sym (k.same (triple_of r)) ∙ new);
                  same = λ t.
                      ap (λ b. triple_eq (triple_of r) t || b) (k.same t)
                      ∙ sym (seen_in-append t relations r);
                })
        ]
      ]

  add_objects-Kept :
      (rel_type : Str) (offset : ℕ) (subj : parser.Token) (objs : List parser.Token)
      (found : List (Str × Str × Str) × List (ExtractedRelation confidences.F))
      → Kept entities found
      → Kept entities (add_objects parser confidences entities rel_type offset subj objs found)
  unfolding add_objects
  add_objects-Kept rel_type offset subj [] found k = k
  add_objects-Kept rel_type offset subj (obj ∷ objs) found k =
      add_objects-Kept rel_type offset subj objs _ (
        add_pair-Kept rel_type (find_entity_for_token parser entities offset subj)
          (find_entity_for_token parser entities offset obj) found
          (Has-find_entity_for_token parser entities offset subj)
          (Has-find_entity_for_token parser entities offset obj) k)

  add_subjects-Kept :
      (rel_type : Str) (offset : ℕ) (subjs objs : List parser.Token)
      (found : List (Str × Str × Str) × List (ExtractedRelation confidences.F))
      → Kept entities found
      → Kept entities (add_subjects parser confidences entities rel_type offset subjs objs found)
  unfolding add_subjects
  add_subjects-Kept rel_type offset [] objs found k = k
  add_subjects-Kept rel_type offset (subj ∷ subjs) objs found k =
      add_subjects-Kept rel_type offset subjs objs _
        (add_objects-Kept rel_type offset subj objs found k)

  add_tokens-Kept :
      (offset : ℕ) (tokens : List parser.Token)
      (found : List (Str × Str × Str) × List (ExtractedRelation confidences.F))
      → Kept entities found
      → Kept entities (add_tokens parser confidences entities offset tokens found)
  unfolding add_tokens
  add_tokens-Kept offset [] found k = k
  add_tokens-Kept offset (token ∷ tokens) found k =
      elim (Bool-cases (is_verb parser confidences entities token)) [
        | inl verb ↦ rw verb (
            add_tokens-Kept offset tokens _ (
              add_subjects-Kept _ offset (subjects_of parser token) (objects_of parser token) found
                k))
        | inr other ↦ rw other (add_tokens-Kept offset tokens found k)
      ]

  add_segments-Kept :
      (segments : List (Doc parser.Token × ℕ))
      (found : List (Str × Str × Str) × List (ExtractedRelation confidences.F))
      → Kept entities found
      → Kept entities (add_segments parser confidences entities segments found)
  unfolding add_segments
  add_segments-Kept [] found k = k
  add_segments-Kept ((doc, offset) ∷ segments) found k =
      add_segments-Kept segments _ (add_tokens-Kept offset doc.tokens found k)

  -- Phase 1 relates entities of the list with different names, and makes no relation twice.
  pub add_segments-Joins :
      (segments : List (Doc parser.Token × ℕ))
      → All (Joins entities) (add_segments parser confidences entities segments ([], [])).1
        × Once (add_segments parser confidences entities segments ([], [])).1
  add_segments-Joins segments =
      let k =
        add_segments-Kept segments ([], []) (record { joins = tt; once = tt; same = λ t. refl }) in
      (k.joins, k.once)
