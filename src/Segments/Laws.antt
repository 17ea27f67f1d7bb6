-- ===== src/Segments/Laws.antt =====
-- What the segmentation of entity_extractor.py guarantees.
use cat_graphrag.Prelude.{
  ℕ, zero, suc, ◌+◌, ◌*◌, ◌/◌, ◌≤◌, ◌<◌, List, [], ◌∷◌, ◌++◌, ◌≡◌, refl, sym, ap, ◌∙◌, some, map,
  ltb, leb, arith, length, take, drop, concat, concat-append, All, All-append, append_assoc,
  append-nil, take-append-drop, length-take, length-drop, length-append, Bool-cases, Option-cases,
  inl, inr,
}
use cat_graphrag.Prelude.Keys.{Str}
use cat_graphrag.Segments.{rfind_space, cut_of, hard_parts, pack_part, pack}

-- A space is found at an index of the window.
rfind_space-lt :
    (i lo : ℕ) (window : Str) (j : ℕ) → rfind_space i lo window ≡ some j → j < i + length window
unfolding rfind_space
rfind_space-lt i lo [] j h = cc
rfind_space-lt i lo (c ∷ window) j h = ground (arith, rfind_space-lt (i + 1) lo window j)

cut_of_bounds :
    (chunk : Str) (cap : ℕ) → 0 < cap → (0 < cut_of chunk cap) × (cut_of chunk cap ≤ cap)
unfolding cut_of
cut_of_bounds chunk cap pos = elim (Option-cases (rfind_space 0 (3 * cap / 4) (take cap chunk))) [
  | inl nowhere ↦ rw (nowhere, cut_of) (omega arith)
  | inr (j, found) ↦
      rw (found, cut_of)
        (omega
          (arith, rfind_space-lt 0 (3 * cap / 4) (take cap chunk) j found, length-take cap chunk))
]

concat-hard_parts : (fuel cap : ℕ) (chunk : Str) → concat (hard_parts fuel cap chunk) ≡ chunk
unfolding hard_parts
concat-hard_parts zero cap chunk = append-nil chunk
concat-hard_parts (suc fuel) cap chunk = elim (Bool-cases (ltb cap (length chunk))) [
  | inl long ↦
      rw (long, concat)
        (ap (λ l. take (cut_of chunk cap) chunk ++ l)
            (concat-hard_parts fuel cap (drop (cut_of chunk cap) chunk))
          ∙ take-append-drop (cut_of chunk cap) chunk)
  | inr short ↦ rw (short, concat) (append-nil chunk)
]

-- A segment is not empty and has at most `cap` characters.
abbrev pub InCap : ℕ → Str → Type 0
InCap cap s = (0 < length s) × (length s ≤ cap)

All-InCap-hard_parts :
    (fuel cap : ℕ) (chunk : Str)
    → 0 < cap
    → 0 < length chunk
    → length chunk ≤ fuel
    → All (InCap cap) (hard_parts fuel cap chunk)
unfolding hard_parts
All-InCap-hard_parts zero cap chunk pos some_left enough = absurd (omega arith)
All-InCap-hard_parts (suc fuel) cap chunk pos some_left enough =
    elim (Bool-cases (ltb cap (length chunk))) [
      | inl long ↦
          let (low, high) = cut_of_bounds chunk cap pos in
          let longer : cap < length chunk = ground arith in
          let shorter = length-drop (cut_of chunk cap) chunk in
          rw (long, All)
            (
              omega (arith, length-take (cut_of chunk cap) chunk),
              All-InCap-hard_parts fuel cap (drop (cut_of chunk cap) chunk) pos (omega arith)
                  (omega arith),
            )
      | inr short ↦ rw (short, All) ((some_left, ground arith), tt)
    ]

abbrev pub parts_of : ℕ → List Str → List Str
parts_of cap chunks = concat (map (λ chunk. hard_parts (length chunk) cap chunk) chunks)

pub concat-parts_of : (cap : ℕ) (chunks : List Str) → concat (parts_of cap chunks) ≡ concat chunks
concat-parts_of cap [] = refl
concat-parts_of cap (c ∷ chunks) =
    rw
      (
        concat-append (hard_parts (length c) cap c) (parts_of cap chunks),
        concat-hard_parts (length c) cap c,
        concat-parts_of cap chunks,
      )
      refl

pub All-InCap-parts_of :
    (cap : ℕ) (chunks : List Str)
    → 0 < cap
    → All (λ s. 0 < length s) chunks
    → All (InCap cap) (parts_of cap chunks)
All-InCap-parts_of cap [] pos h = tt
All-InCap-parts_of cap (c ∷ chunks) pos h =
    All-append (InCap cap) (hard_parts (length c) cap c) (parts_of cap chunks)
      (All-InCap-hard_parts (length c) cap c pos h.0 (omega arith))
      (All-InCap-parts_of cap chunks pos h.1)

concat-pack_part :
    (cap : ℕ) (segments : List Str) (part : Str)
    → concat (pack_part cap segments part) ≡ concat segments ++ part
unfolding pack_part
concat-pack_part cap [] part = append-nil part
concat-pack_part cap (s ∷ []) part = elim (Bool-cases (leb (length s + length part) cap)) [
  | inl fits ↦ rw fits (simp (append-nil))
  | inr full ↦ rw full (simp (append-nil))
]
concat-pack_part cap (s ∷ t ∷ segments) part =
    rw (concat-pack_part cap (t ∷ segments) part) (sym (append_assoc s (t ++ concat segments) part))

pack_part-InCap :
    (cap : ℕ) (segments : List Str) (part : Str)
    → All (InCap cap) segments
    → InCap cap part
    → All (InCap cap) (pack_part cap segments part)
unfolding pack_part
pack_part-InCap cap [] part h q = (q, tt)
pack_part-InCap cap (s ∷ []) part h q = elim (Bool-cases (leb (length s + length part) cap)) [
  | inl fits ↦ rw fits (ground (arith, h.0, length-append s part), tt)
  | inr full ↦ rw full (h.0, (q, tt))
]
pack_part-InCap cap (s ∷ t ∷ segments) part h q =
    (h.0, pack_part-InCap cap (t ∷ segments) part h.1 q)

pub concat-pack :
    (cap : ℕ) (segments parts : List Str)
    → concat (pack cap segments parts) ≡ concat segments ++ concat parts
unfolding pack
concat-pack cap segments [] = sym (append-nil (concat segments))
concat-pack cap segments (p ∷ parts) =
    concat-pack cap (pack_part cap segments p) parts
    ∙ rw (concat-pack_part cap segments p) (append_assoc (concat segments) p (concat parts))

pub pack-InCap :
    (cap : ℕ) (segments parts : List Str)
    → All (InCap cap) segments
    → All (InCap cap) parts
    → All (InCap cap) (pack cap segments parts)
unfolding pack
pack-InCap cap segments [] h q = h
pack-InCap cap segments (p ∷ parts) h q =
    pack-InCap cap (pack_part cap segments p) parts (pack_part-InCap cap segments p h q.0) q.1
