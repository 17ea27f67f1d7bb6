-- ===== src/Segments.antt =====
-- entity_extractor.py, `_hard_split` and `_segment_text`: a long text cut at paragraph boundaries
-- into contiguous segments for spaCy. A text is the list of its code points.
pub mod Split
pub mod Laws
pub mod Partition
mod Examples
use cat_graphrag.Prelude.{
  ℕ, zero, suc, ◌+◌, ◌*◌, ◌/◌, List, [], ◌∷◌, ◌++◌, Bool, true, false, ◌&&◌, Option, none, some,
  map, ltb, leb, ◌==◌, if◌then◌else◌, length, take, drop, concat,
}
use cat_graphrag.Prelude.Keys.{Str}
use cat_graphrag.Segments.Split.{split_paragraphs}

-- SPACY_MAX_SEGMENT_CHARS
abbrev pub spacy_max_segment_chars : ℕ
spacy_max_segment_chars = 100000

-- window.rfind(" ", lo), for the window's characters from index `i` on
unfoldable pub rfind_space : ℕ → ℕ → Str → Option ℕ
rfind_space i lo [] = none
rfind_space i lo (c ∷ window) = elim (rfind_space (i + 1) lo window) [
  | some j ↦ some j
  | none ↦ if c == 32 && leb lo i then some i else none
]

-- The place of the cut: behind the last space in the last quarter of the window, or at `cap`.
unfoldable pub cut_of : Str → ℕ → ℕ
unfolding rfind_space
cut_of chunk cap = elim (rfind_space 0 (3 * cap / 4) (take cap chunk)) [
  | none ↦ cap
  | some j ↦ j + 1
]

-- _hard_split
unfoldable pub hard_split : Str → ℕ → Str × Str
unfolding cut_of
hard_split chunk cap = (take (cut_of chunk cap) chunk, drop (cut_of chunk cap) chunk)

-- while len(chunk) > cap: head, chunk = _hard_split(chunk, cap); parts.append(head)
-- parts.append(chunk)
-- Each round takes at least one character off, so `length chunk` rounds are enough.
unfoldable pub hard_parts : ℕ → ℕ → Str → List Str
unfolding hard_split
hard_parts zero cap chunk = chunk ∷ []
hard_parts (suc fuel) cap chunk = elim (ltb cap (length chunk)) [
  | false ↦ chunk ∷ []
  | true ↦ (hard_split chunk cap).0 ∷ hard_parts fuel cap (hard_split chunk cap).1
]

-- segment_texts[-1] += part, where it fits, else segment_texts.append(part)
unfoldable pub pack_part : ℕ → List Str → Str → List Str
pack_part cap [] part = part ∷ []
pack_part cap (s ∷ []) part =
    if leb (length s + length part) cap then (s ++ part) ∷ [] else s ∷ part ∷ []
pack_part cap (s ∷ t ∷ segments) part = s ∷ pack_part cap (t ∷ segments) part

unfoldable pub pack : ℕ → List Str → List Str → List Str
unfolding pack_part
pack cap segments [] = segments
pack cap segments (part ∷ parts) = pack cap (pack_part cap segments part) parts

-- The running offsets.
unfoldable pub with_offsets : ℕ → List Str → List (ℕ × Str)
with_offsets offset [] = []
with_offsets offset (s ∷ segments) = (offset, s) ∷ with_offsets (offset + length s) segments

unfoldable pub segment_at : ℕ → Str → List (ℕ × Str)
unfolding split_paragraphs hard_parts pack with_offsets
segment_at cap text = with_offsets 0 (
    pack cap []
      (concat (map (λ chunk. hard_parts (length chunk) cap chunk) (split_paragraphs text))))

-- _segment_text
unfoldable pub segment_text : Str → List (ℕ × Str)
unfolding segment_at
segment_text = segment_at spacy_max_segment_chars
