-- ===== src/Knowledge/Chunking.antt =====
-- cbrain/knowledge/chunking.py: normalising a document's text and cutting it into chunks. A text is
-- the list of its code points; sizes and overlaps are not negative.
pub mod Cover
pub mod Normal
use cbrain.Prelude.{
  ℕ, zero, suc, ◌+◌, ◌-◌, min, Bool, true, false, ◌||◌, List, [], ◌∷◌, ◌++◌, Option, none, some,
  Result, ok, err, ltb, leb, ◌==◌, is_space, if◌then◌else◌,
}
use cbrain.Prelude.Lists.{length, take, drop}

-- `KnowledgeError` and the `ValueError` of `require_positive_int`, by the check.
pub data ChunkError : Type 0 where
  size_not_positive empty_text bad_overlap : ChunkError

-- `" ".join(text.split())`: inside a word, characters are kept; after white space, one space comes
-- before the next word.
unfoldable mutual
  unfolding is_space

  pub within_word : List ℕ → List ℕ
  within_word [] = []
  within_word (c ∷ cs) =
      let space = between_words cs in
      let rest = within_word cs in if is_space c then space else c ∷ rest

  pub between_words : List ℕ → List ℕ
  between_words [] = []
  between_words (c ∷ cs) =
      let space = between_words cs in
      let rest = within_word cs in if is_space c then space else 0x20 ∷ c ∷ rest

-- Before the first word nothing is written.
unfoldable pub normalize_text : List ℕ → List ℕ
unfolding within_word is_space
normalize_text [] = []
normalize_text (c ∷ cs) =
    let rest = normalize_text cs in if is_space c then rest else c ∷ within_word cs

-- `normalized[start:end]`
abbrev pub slice : ℕ → ℕ → List ℕ → List ℕ
slice start end text = take (end - start) (drop start text)

-- The `while` loop from `start` on; `none` means that the fuel ran out.
unfoldable pub chunks_from : ℕ → ℕ → ℕ → List ℕ → ℕ → Option (List (List ℕ))
chunks_from zero size overlap text start = none
chunks_from (suc fuel) size overlap text start =
    let end = min (length text) (start + size) in
    let rest = chunks_from fuel size overlap text (end - overlap) in
    if ltb start (length text)
    then (if leb (length text) end
        then some (slice start end text ∷ [])
        else (elim rest [ none ↦ none | some parts ↦ some (slice start end text ∷ parts) ]))
    else some []

abbrev pub or_nothing : Option (List (List ℕ)) → List (List ℕ)
or_nothing none = []
or_nothing (some parts) = parts

-- `split_chunks`; the loop is given one round for each character.
unfoldable pub split_chunks : List ℕ → ℕ → ℕ → Result ChunkError (List (List ℕ))
split_chunks text size overlap =
    let normalized = normalize_text text in
    if size == 0
    then err ChunkError.size_not_positive
    else if length normalized == 0
    then err ChunkError.empty_text
    else if leb size overlap
    then err ChunkError.bad_overlap
    else if leb (length normalized) size
    then ok (normalized ∷ [])
    else ok (or_nothing (chunks_from (length normalized) size overlap normalized 0))
