-- ===== src/Knowledge/Chunking/Normal.antt =====
-- What normalising a text is, by Python's `split` and `join`.
use cbrain.Prelude.{
  ℕ, Bool, true, false, not, List, [], ◌∷◌, ◌++◌, ◌≡◌, refl, ap, is_space, if◌then◌else◌,
  Bool-cases, inl, inr,
}
use cbrain.Knowledge.Chunking.{within_word, between_words, normalize_text}

-- `text.split()`: the longest runs of characters that are no white space.
abbrev starts_word : List ℕ → Bool
starts_word [] = false
starts_word (c ∷ cs) = not (is_space c)

-- A character in front of the words: it belongs to the first one if that follows at once.
abbrev glue : ℕ → Bool → List (List ℕ) → List (List ℕ)
glue c true (w ∷ ws) = (c ∷ w) ∷ ws
glue c true [] = (c ∷ []) ∷ []
glue c false ws = (c ∷ []) ∷ ws

unfoldable pub words : List ℕ → List (List ℕ)
unfolding is_space
words [] = []
words (c ∷ cs) = let rest = words cs in if is_space c then rest else glue c (starts_word cs) rest

-- `" ".join(ws)`
abbrev each_after_space : List (List ℕ) → List ℕ
each_after_space [] = []
each_after_space (w ∷ ws) = 0x20 ∷ (w ++ each_after_space ws)

abbrev pub unwords : List (List ℕ) → List ℕ
unwords [] = []
unwords (w ∷ ws) = w ++ each_after_space ws

-- What follows a character of a word.
abbrev rest_of : Bool → List (List ℕ) → List ℕ
rest_of true ws = unwords ws
rest_of false ws = each_after_space ws

unwords-glue : (c : ℕ) (b : Bool) (ws : List (List ℕ)) → unwords (glue c b ws) ≡ c ∷ rest_of b ws
unwords-glue c true (w ∷ ws) = refl
unwords-glue c true [] = refl
unwords-glue c false ws = refl

each_after_space-glue :
    (c : ℕ) (b : Bool) (ws : List (List ℕ))
    → each_after_space (glue c b ws) ≡ 0x20 ∷ c ∷ rest_of b ws
each_after_space-glue c true (w ∷ ws) = refl
each_after_space-glue c true [] = refl
each_after_space-glue c false ws = refl

keeps :
    (cs : List ℕ)
    → (within_word cs ≡ rest_of (starts_word cs) (words cs))
      × (between_words cs ≡ each_after_space (words cs))
unfolding within_word between_words words
keeps [] = (refl, refl)
keeps (c ∷ cs) =
    let (within, between) = keeps cs in
    elim (Bool-cases (is_space c)) [
      | inl e ↦ (rw e between, rw e between)
      | inr e ↦ (
        rw (e, unwords-glue c (starts_word cs) (words cs)) (ap (λ l. c ∷ l) within),
        rw (e, each_after_space-glue c (starts_word cs) (words cs)) (ap (λ l. 0x20 ∷ c ∷ l) within),
      )
    ]

-- Normalising a text joins its words, the longest runs of characters that are no white space, by one
-- space each.
pub normalize_text-unwords : (text : List ℕ) → normalize_text text ≡ unwords (words text)
unfolding normalize_text words
normalize_text-unwords [] = refl
normalize_text-unwords (c ∷ cs) = elim (Bool-cases (is_space c)) [
  | inl e ↦ rw e (normalize_text-unwords cs)
  | inr e ↦ rw (e, unwords-glue c (starts_word cs) (words cs)) (ap (λ l. c ∷ l) (keeps cs).0)
]
