-- ===== src/Segments/Partition.antt =====
-- The segments of `_segment_text` in entity_extractor.py partition the text.
use cat_graphrag.Prelude.{
  ℕ, ◌+◌, ◌≤◌, ◌<◌, List, [], ◌∷◌, ◌++◌, ◌≡◌, refl, sym, ap, ◌∙◌, map, arith, length, take, drop,
  concat, All, append_assoc, length-append,
}
use cat_graphrag.Prelude.Keys.{Str}
use cat_graphrag.Segments.Split.{
  split_paragraphs, concat-split_paragraphs, split_paragraphs_non_empty,
}
use cat_graphrag.Segments.{spacy_max_segment_chars, pack, with_offsets, segment_at, segment_text}
use cat_graphrag.Segments.Laws.{
  InCap, parts_of, concat-parts_of, All-InCap-parts_of, concat-pack, pack-InCap,
}

-- A segment stands in `text` at its offset.
abbrev pub StandsIn : Str → ℕ × Str → Type 0
StandsIn text (offset, s) = take (length s) (drop offset text) ≡ s

drop-append_self : (xs ys : Str) → drop (length xs) (xs ++ ys) ≡ ys
drop-append_self [] ys = refl
drop-append_self (x ∷ xs) ys = drop-append_self xs ys

take-append_self : (xs ys : Str) → take (length xs) (xs ++ ys) ≡ xs
take-append_self [] ys = refl
take-append_self (x ∷ xs) ys = ap (λ l. x ∷ l) (take-append_self xs ys)

with_offsets-StandsIn :
    (before text : Str) (offset : ℕ) (segments : List Str)
    → offset ≡ length before
    → text ≡ before ++ concat segments
    → All (StandsIn text) (with_offsets offset segments)
unfolding with_offsets
with_offsets-StandsIn before text offset [] e t = tt
with_offsets-StandsIn before text offset (s ∷ segments) e t = (
  rw (t, e, drop-append_self before (s ++ concat segments)) (take-append_self s (concat segments)),
  with_offsets-StandsIn (before ++ s) text (offset + length s) segments
      (omega (arith, length-append before s)) (t ∙ sym (append_assoc before s (concat segments))),
)

texts-with_offsets :
    (offset : ℕ) (segments : List Str) → map (λ e. e.1) (with_offsets offset segments) ≡ segments
unfolding with_offsets
texts-with_offsets offset [] = refl
texts-with_offsets offset (s ∷ segments) =
    ap (λ l. s ∷ l) (texts-with_offsets (offset + length s) segments)

InCap-with_offsets :
    (cap offset : ℕ) (segments : List Str)
    → All (InCap cap) segments
    → All (λ e. (0 < length e.1) × (length e.1 ≤ cap)) (with_offsets offset segments)
unfolding with_offsets
InCap-with_offsets cap offset [] h = tt
InCap-with_offsets cap offset (s ∷ segments) h =
    (h.0, InCap-with_offsets cap (offset + length s) segments h.1)

segment_at_lem :
    (cap : ℕ) (text : Str)
    → 0 < cap
    → (concat (map (λ e. e.1) (segment_at cap text)) ≡ text)
      × All (λ e. (0 < length e.1) × (length e.1 ≤ cap)) (segment_at cap text)
      × All (StandsIn text) (segment_at cap text)
unfolding segment_at
segment_at_lem cap text pos =
    let parts = parts_of cap (split_paragraphs text) in
    let whole =
      concat-pack cap [] parts
      ∙ concat-parts_of cap (split_paragraphs text)
      ∙ concat-split_paragraphs text in
    (
      rw (texts-with_offsets 0 (pack cap [] parts)) whole,
      InCap-with_offsets cap 0 (pack cap [] parts) (
          pack-InCap cap [] parts tt
            (All-InCap-parts_of cap (split_paragraphs text) pos (split_paragraphs_non_empty text))),
      with_offsets-StandsIn [] text 0 (pack cap [] parts) refl (sym whole),
    )

-- The segments put together again are the text; none is empty or longer than the 100,000 characters
-- that spaCy is given, and each stands in the text at the offset that is returned with it.
pub segment_text_lem :
    (text : Str)
    → (concat (map (λ e. e.1) (segment_text text)) ≡ text)
      × All (λ e. (0 < length e.1) × (length e.1 ≤ spacy_max_segment_chars)) (segment_text text)
      × All (StandsIn text) (segment_text text)
unfolding segment_text
segment_text_lem text = segment_at_lem spacy_max_segment_chars text (omega arith)
