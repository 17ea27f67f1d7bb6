-- ===== src/Segments/Split.antt =====
-- `[c for c in re.split(r"(\r?\n\s*\r?\n)", text) if c]`: the paragraphs of a text and the blank
-- lines between them, in order.
use cat_graphrag.Prelude.{
  ℕ, zero, suc, ◌+◌, ◌-◌, List, [], ◌∷◌, ◌++◌, ◌≡◌, refl, ap, ◌∙◌, Bool, ◌&&◌, ◌||◌, Option, none,
  some, leb, ◌==◌, if◌then◌else◌, concat, arith, append_assoc, Option-cases, inl, inr, All, ◌<◌,
  length,
}
use cat_graphrag.Prelude.Keys.{Str}

-- The characters of `\s`: those of `str.isspace`.
unfoldable pub is_space : ℕ → Bool
is_space c =
    (leb 9 c && leb c 13)
    || (leb 28 c && leb c 32)
    || c == 133
    || c == 160
    || c == 5760
    || (leb 8192 c && leb c 8202)
    || c == 8232
    || c == 8233
    || c == 8239
    || c == 8287
    || c == 12288

-- `\s*\r?\n` takes as much as it can: all up to the last line feed among the leading spaces.
unfoldable pub last_break : Str → Option ℕ
unfolding is_space
last_break [] = none
last_break (c ∷ s) =
    let rest = last_break s in
    if is_space c
    then elim rest [ some n ↦ some (suc n) | none ↦ if c == 10 then some 1 else none ]
    else none

-- The length of a match of `\r?\n\s*\r?\n` at the start of the text.
unfoldable pub separator_length : Str → Option ℕ
unfolding last_break
separator_length [] = none
separator_length (c ∷ []) = none
separator_length (c ∷ d ∷ s) =
    if c == 10
    then elim (last_break (d ∷ s)) [ some n ↦ some (n + 1) | none ↦ none ]
    else if c == 13 && d == 10
    then elim (last_break s) [ some n ↦ some (n + 2) | none ↦ none ]
    else none

-- re.split, over the piece read so far and the characters left of the separator being read.
unfoldable pub split_from : Str → ℕ → Str → List Str
unfolding separator_length
split_from piece left [] = piece ∷ []
split_from piece zero (c ∷ text) = elim (separator_length (c ∷ text)) [
  | none ↦ split_from (piece ++ c ∷ []) zero text
  | some n ↦ piece ∷ split_from (c ∷ []) (n - 1) text
]
split_from piece (suc zero) (c ∷ text) = (piece ++ c ∷ []) ∷ split_from [] zero text
split_from piece (suc (suc n)) (c ∷ text) = split_from (piece ++ c ∷ []) (suc n) text

unfoldable pub non_empty : List Str → List Str
non_empty [] = []
non_empty ([] ∷ pieces) = non_empty pieces
non_empty ((c ∷ s) ∷ pieces) = (c ∷ s) ∷ non_empty pieces

unfoldable pub split_paragraphs : Str → List Str
unfolding split_from non_empty
split_paragraphs text = non_empty (split_from [] zero text)

concat-split_from :
    (piece : Str) (left : ℕ) (text : Str) → concat (split_from piece left text) ≡ piece ++ text
unfolding split_from
concat-split_from piece left [] = refl
concat-split_from piece zero (c ∷ text) = elim (Option-cases (separator_length (c ∷ text))) [
  | inl here ↦
      rw (here, concat)
        (concat-split_from (piece ++ c ∷ []) zero text ∙ append_assoc piece (c ∷ []) text)
  | inr (n, here) ↦
      rw (here, concat) (ap (λ l. piece ++ l) (concat-split_from (c ∷ []) (n - 1) text))
]
concat-split_from piece (suc zero) (c ∷ text) =
    rw (concat-split_from [] zero text) (append_assoc piece (c ∷ []) text)
concat-split_from piece (suc (suc n)) (c ∷ text) =
    concat-split_from (piece ++ c ∷ []) (suc n) text ∙ append_assoc piece (c ∷ []) text

concat-non_empty : (pieces : List Str) → concat (non_empty pieces) ≡ concat pieces
unfolding non_empty
concat-non_empty [] = refl
concat-non_empty ([] ∷ pieces) = concat-non_empty pieces
concat-non_empty ((c ∷ s) ∷ pieces) = ap (λ l. (c ∷ s) ++ l) (concat-non_empty pieces)

-- Splitting loses nothing: the chunks put together again are the text.
pub concat-split_paragraphs : (text : Str) → concat (split_paragraphs text) ≡ text
unfolding split_paragraphs
concat-split_paragraphs text =
    concat-non_empty (split_from [] zero text) ∙ concat-split_from [] zero text

All-non_empty : (pieces : List Str) → All (λ s. 0 < length s) (non_empty pieces)
unfolding non_empty
All-non_empty [] = tt
All-non_empty ([] ∷ pieces) = All-non_empty pieces
All-non_empty ((c ∷ s) ∷ pieces) = (omega arith, All-non_empty pieces)

pub split_paragraphs_non_empty : (text : Str) → All (λ s. 0 < length s) (split_paragraphs text)
unfolding split_paragraphs
split_paragraphs_non_empty text = All-non_empty (split_from [] zero text)
