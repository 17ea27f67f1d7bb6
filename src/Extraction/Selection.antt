-- ===== src/Extraction/Selection.antt =====
-- Which stored points feed the extraction: _looks_binary_content, _looks_like_catalogue_card_content
-- and _select_extraction_text_points of graphrag_handler.py.
pub mod Laws
use cat_graphrag.Prelude.{
  is_empty, is_some, ℕ, zero, suc, ◌+◌, ◌*◌, List, [], ◌∷◌, ◌≡◌, Bool, true, false, ◌&&◌, ◌||◌, not,
  Option, none, some, if◌then◌else◌, leb, ◌==◌, length, take, map,
}
use cat_graphrag.Prelude.Keys.{Str, Key, nat_key, pair_key}
use cat_graphrag.Prelude.Texts.{codes}
use cat_graphrag.Prelude.Sort.{sort_by}
use cat_graphrag.Extraction.Json.{Runtime}
use cat_graphrag.Extraction.Payload.{drop_while, drop_prefix, strip}

-- A stored point, with its `page_content` and what is read of its metadata; `image` is whether
-- `image`, `image_file` or `image_mime_type` marks it as an image.
pub record Point : Type 0 where
  pub content : Str
  pub image : Bool
  pub start_index : Option ℕ
  pub chunk_index : Option ℕ

-- text.count(c), for one character
unfoldable pub occurrences_of : ℕ → Str → ℕ
occurrences_of c [] = 0
occurrences_of c (d ∷ s) = let rest = occurrences_of c s in if d == c then suc rest else rest

abbrev pub card_header : Str
card_header = codes "# CATALOGUE CARD"

abbrev pub any_of : (ℕ → Bool) → Str → Bool
any_of p [] = false
any_of p (c ∷ s) = p c || any_of p s

module _ (python : Runtime) (is_alnum : ℕ → Bool) where
  open python use {is_space}

  -- content.lstrip().startswith(prefix)
  unfoldable pub leads_with : Str → Str → Bool
  unfolding drop_while drop_prefix
  leads_with prefix content = is_some (drop_prefix prefix (drop_while is_space content))

  -- _looks_binary_content: a ratio of at least one tenth of U+FFFD, written without the division
  unfoldable pub looks_binary_content : Str → Bool
  unfolding leads_with occurrences_of
  looks_binary_content [] = false
  looks_binary_content (c ∷ s) =
      any_of (λ d. d == 0) (c ∷ s)
      || leads_with (codes "%PDF") (c ∷ s)
      || leb (length (take 4096 (c ∷ s))) (10 * occurrences_of 65533 (take 4096 (c ∷ s)))

  -- _looks_like_catalogue_card_content
  unfoldable pub looks_like_catalogue_card_content : Str → Bool
  unfolding leads_with
  looks_like_catalogue_card_content content = leads_with card_header content

  -- The tests of the loop that no point may fail.
  unfoldable pub usable_point : Point → Bool
  unfolding looks_binary_content looks_like_catalogue_card_content strip
  usable_point p =
      not (is_empty (strip python p.content))
      && not p.image
      && not (looks_binary_content p.content)
      && not (looks_like_catalogue_card_content p.content)
      && any_of is_alnum p.content

-- metadata.get("start_index"), else metadata.get("chunk_index")
abbrev pub position : Point → Option ℕ
position p = if is_some p.start_index then p.start_index else p.chunk_index

-- (position is None, position or 0, arrival)
abbrev pub sort_key : Option ℕ → ℕ → ℕ × (ℕ × ℕ)
sort_key none arrival = (1, (0, arrival))
sort_key (some n) arrival = (0, (n, arrival))

module _ (python : Runtime) (is_alnum : ℕ → Bool) where
  -- The loop over `enumerate(points)`, from the arrival number on.
  unfoldable pub selected : ℕ → List Point → List ((ℕ × (ℕ × ℕ)) × Point)
  unfolding usable_point
  selected arrival [] = []
  selected arrival (p ∷ ps) =
      let rest = selected (arrival + 1) ps in
      if usable_point python is_alnum p then (sort_key (position p) arrival, p) ∷ rest else rest

  -- _select_extraction_text_points
  unfoldable pub select_extraction_text_points : List Point → List Point
  unfolding selected sort_by
  select_extraction_text_points points = map (λ e. e.1) (sort_by (λ e. e.0) (selected 0 points))
