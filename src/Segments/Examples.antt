-- ===== src/Segments/Examples.antt =====
-- Tests and instances for the segmentation of entity_extractor.py.
use cat_graphrag.Prelude.{◌≤◌, ◌<◌, [], ◌∷◌, ◌≡◌, refl, map, length, concat, All}
use cat_graphrag.Prelude.Keys.{Str}
use cat_graphrag.Segments.{spacy_max_segment_chars, segment_at, segment_text}
use cat_graphrag.Segments.Split.{split_paragraphs}
use cat_graphrag.Segments.Partition.{StandsIn, segment_text_lem}

-- "ab\n \ncd e f"
abbrev text : Str
text = 97 ∷ 98 ∷ 10 ∷ 32 ∷ 10 ∷ 99 ∷ 100 ∷ 32 ∷ 101 ∷ 32 ∷ 102 ∷ []

chunks :
    split_paragraphs text
    ≡ (97 ∷ 98 ∷ []) ∷ (10 ∷ 32 ∷ 10 ∷ []) ∷ (99 ∷ 100 ∷ 32 ∷ 101 ∷ 32 ∷ 102 ∷ []) ∷ []
unfolding split_paragraphs
chunks = refl

-- A cap of 4: the last chunk has no space in the last quarter of its first four characters, and is
-- cut at the cap.
capped :
    segment_at 4 text
    ≡ (0, 97 ∷ 98 ∷ [])
      ∷ (2, 10 ∷ 32 ∷ 10 ∷ [])
      ∷ (5, 99 ∷ 100 ∷ 32 ∷ 101 ∷ [])
      ∷ (9, 32 ∷ 102 ∷ [])
      ∷ []
unfolding segment_at
capped = refl

-- A paragraph that fills its segment leaves the blank line behind it to the next one.
separator_leads : segment_at 2 (97 ∷ 98 ∷ 10 ∷ 10 ∷ []) ≡ (0, 97 ∷ 98 ∷ []) ∷ (2, 10 ∷ 10 ∷ []) ∷ []
unfolding segment_at
separator_leads = refl

whole : segment_text text ≡ (0, text) ∷ []
unfolding segment_text
whole = refl

segment_text_example :
    (concat (map (λ e. e.1) (segment_text text)) ≡ text)
    × All (λ e. (0 < length e.1) × (length e.1 ≤ spacy_max_segment_chars)) (segment_text text)
    × All (StandsIn text) (segment_text text)
segment_text_example = segment_text_lem text
