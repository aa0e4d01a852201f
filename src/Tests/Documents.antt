-- ===== src/Tests/Documents.antt =====
-- A small document, cut into chunks.
use cbrain.Prelude.{ℕ, List, [], ◌∷◌, ok, ◌≡◌, ◌≢◌, arith, is_space}
use cbrain.Knowledge.Chunking.{within_word, between_words, normalize_text, split_chunks}
use cbrain.Knowledge.Chunking.Cover.{Covers, split_chunks-Covers}
use cbrain.Knowledge.Chunking.Normal.{words, unwords, normalize_text-unwords}

-- " ab  cd\tef "
abbrev spaced : List ℕ
spaced = 0x20 ∷ b'a' ∷ b'b' ∷ 0x20 ∷ 0x20 ∷ b'c' ∷ b'd' ∷ 0x09 ∷ b'e' ∷ b'f' ∷ 0x20 ∷ []

spaced_present : normalize_text spaced ≢ []
unfolding normalize_text within_word between_words is_space
spaced_present h = cc

split_chunks-Covers_example :
    (parts : List (List ℕ)) × (split_chunks spaced 4 1 ≡ ok parts)
    × Covers 4 1 (normalize_text spaced) parts
split_chunks-Covers_example = split_chunks-Covers spaced 4 1 (omega arith) spaced_present

normalize_text-unwords_example : normalize_text spaced ≡ unwords (words spaced)
normalize_text-unwords_example = normalize_text-unwords spaced
