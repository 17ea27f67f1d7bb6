-- ===== src/Extraction/Payload.antt =====
-- The payload of a raw answer: the text without its code fence, or the first bare list in it. The
-- parser and the count of raw items read it each on its own.
pub mod Laws
use cat_graphrag.Prelude.{
  ℕ, List, [], ◌∷◌, ◌≡◌, refl, ap, ◌∙◌, Bool, true, false, Option, none, some, if◌then◌else◌, ◌==◌,
  drop, Bool-cases, inl, inr, arith,
}
use mathlib.Core.List.{reverse}
use cat_graphrag.Prelude.Keys.{Str, str_eq}
use cat_graphrag.Prelude.Texts.{codes}
use cat_graphrag.Extraction.Json.{Json, Runtime}

-- text without its first characters, as long as they pass a test
unfoldable pub drop_while : (ℕ → Bool) → Str → Str
drop_while p [] = []
drop_while p (c ∷ s) = if p c then drop_while p s else c ∷ s

-- text[len(prefix):], where the text starts with the prefix
unfoldable pub drop_prefix : Str → Str → Option Str
drop_prefix [] s = some s
drop_prefix (p ∷ ps) [] = none
drop_prefix (p ∷ ps) (c ∷ s) = if p == c then drop_prefix ps s else none

abbrev pub fence : Str
fence = codes "```"

-- re.search(r"\[[\s\S]*\]", text): from the first bracket to the last one
unfoldable pub find_array : Str → Option Str
unfolding drop_while
find_array text =
    elim (reverse (
      drop_while (λ c. if c == 93 then false else true)
        (reverse (drop_while (λ c. if c == 91 then false else true) text)))) [
          | [] ↦ none
          | c ∷ s ↦ some (c ∷ s)
        ]

module _ (python : Runtime) where
  open python use {is_space, loads}

  unfoldable pub strip_end : Str → Str
  unfolding drop_while
  strip_end s = reverse (drop_while is_space (reverse s))

  -- s.strip()
  unfoldable pub strip : Str → Str
  unfolding strip_end
  strip s = strip_end (drop_while is_space s)

  -- re.sub(r"^```(?:json)?\s*", "", text)
  unfoldable pub drop_fence : Str → Str
  unfolding drop_while drop_prefix
  drop_fence s = elim (drop_prefix fence s) [
    | none ↦ s
    | some rest ↦
        drop_while is_space (elim (drop_prefix (codes "json") rest) [ none ↦ rest | some t ↦ t ])
  ]

  -- re.sub(r"\s*```$", "", text)
  unfoldable pub drop_closing : Str → Str
  unfolding drop_while drop_prefix
  drop_closing s = elim (drop_prefix fence (reverse s)) [
    | none ↦ s
    | some rest ↦ reverse (drop_while is_space rest)
  ]

  -- json.loads(text), or else the list that stands in it
  unfoldable pub loads_lenient : Str → Option Json
  unfolding find_array
  loads_lenient text = elim (loads text) [
    | some j ↦ some j
    | none ↦ (elim (find_array text) [ none ↦ none | some t ↦ loads t ])
  ]

  abbrev pub is_fenced : Str → Bool
  is_fenced text = elim (drop_prefix fence text) [ none ↦ false | some _ ↦ true ]

  -- What _parse_concept_relations reads: the inner strip is under the `if`.
  unfoldable pub parsed_payload : Str → Option Json
  unfolding strip drop_prefix drop_fence drop_closing loads_lenient
  parsed_payload raw =
      let text = strip raw in
      loads_lenient (if is_fenced text then strip (drop_closing (drop_fence text)) else text)

  -- What _raw_item_counts reads: the inner strip is behind the `if`.
  unfoldable pub counted_payload : Str → Option Json
  unfolding strip drop_prefix drop_fence drop_closing loads_lenient
  counted_payload raw =
      let text = strip raw in
      loads_lenient (strip (if is_fenced text then drop_closing (drop_fence text) else text))
