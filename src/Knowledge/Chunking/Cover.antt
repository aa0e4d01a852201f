-- ===== src/Knowledge/Chunking/Cover.antt =====
-- The chunks of a document cover it.
use cbrain.Prelude.{
  ℕ, zero, suc, ◌+◌, ◌-◌, ◌≤◌, ◌<◌, min, List, [], ◌∷◌, ◌++◌, some, ok, ◌≡◌, refl, arith, leb,
  Bool-cases, inl, inr, sym, ◌⊎◌, ◌≢◌, ap, ◌∙◌,
}
use mathlib.Core.List.{append-nil}
use cbrain.Prelude.Lists.{
  length, take, drop, All, length-drop, length-take, take-append-drop, take-all, drop-drop,
  drop-nil,
}
use cbrain.Knowledge.Chunking.{normalize_text, chunks_from, split_chunks}

-- The text that chunks stand for: each gives what it has beyond the overlap with the one before.
unfoldable pub rebuild : ℕ → List (List ℕ) → List ℕ
rebuild overlap [] = []
rebuild overlap (p ∷ ps) = p ++ drop overlap (rebuild overlap ps)

-- Chunks that are neither empty nor longer than the size, and that stand for a text.
pub record Covers (size overlap : ℕ) (text : List ℕ) (parts : List (List ℕ)) : Type 0 where
  pub rebuilt : rebuild overlap parts ≡ text
  pub sized : All (λ p. (1 ≤ length p) × (length p ≤ size)) parts

at_or_before : (a b : ℕ) → (a ≤ b) ⊎ (b < a)
at_or_before a b = elim (Bool-cases (leb a b)) [
  | inl e ↦ inl (ground arith)
  | inr e ↦ inr (ground arith)
]

not_empty : (text : List ℕ) → text ≢ [] → 0 < length text
not_empty [] present = absurd (present refl)
not_empty (c ∷ text) present = omega arith

module _ (size overlap : ℕ) (text : List ℕ) (below : overlap < size) where
  -- The last chunk is what is left of the text.
  last-Covers :
      (start : ℕ)
      → start < length text
      → length text ≤ start + size
      → Covers size overlap (drop start text) (drop start text ∷ [])
  unfolding rebuild
  last-Covers start inside fits =
      let long = length-drop start text in
      let nothing : drop overlap [] ≡ [] = drop-nil overlap in
      record {
        rebuilt = ap (λ r. drop start text ++ r) nothing ∙ append-nil _;
        sized = ((omega (arith, long), omega (arith, long)), tt);
      }

  -- A chunk that ends inside the text goes before the chunks from its end less the overlap on.
  next-Covers :
      (start : ℕ) (parts : List (List ℕ))
      → start + size < length text
      → Covers size overlap (drop ((start + size) - overlap) text) parts
      → Covers size overlap (drop start text) (take size (drop start text) ∷ parts)
  unfolding rebuild
  next-Covers start parts inside covered =
      let long = length-drop start text in
      let cut = length-take size (drop start text) in
      let ends : (((start + size) - overlap) + overlap) ≡ start + size = omega arith in
      record {
        rebuilt =
            ap (λ r. take size (drop start text) ++ drop overlap r) covered.rebuilt
            ∙ (ap (λ r. take size (drop start text) ++ r)
                  (drop-drop overlap _ text
                    ∙ ap (λ k. drop k text) ends
                    ∙ sym (drop-drop size start text))
                ∙ take-append-drop size (drop start text));
        sized = ((omega (arith, long, cut), omega (arith, long, cut)), covered.sized);
      }

  ends-here :
      (fuel start : ℕ)
      → start < length text
      → length text ≤ start + size
      → chunks_from (suc fuel) size overlap text start ≡ some (drop start text ∷ [])
  unfolding chunks_from
  ends-here fuel start inside fits =
      let long = length-drop start text in
      let whole = take-all (length text - start) (drop start text) (omega (arith, long)) in
      let bound : min (length text) (start + size) ≡ length text = omega arith in ground arith

  goes-on :
      (fuel start : ℕ) (parts : List (List ℕ))
      → start + size < length text
      → chunks_from fuel size overlap text ((start + size) - overlap) ≡ some parts
      → chunks_from (suc fuel) size overlap text start ≡ some (take size (drop start text) ∷ parts)
  unfolding chunks_from
  goes-on fuel start parts inside rest =
      let bound : min (length text) (start + size) ≡ start + size = omega arith in
      let width : (start + size) - start ≡ size = omega arith in ground arith

  -- With as much fuel as the text has left, the loop gives chunks that cover what is left.
  chunks_from-Covers :
      (fuel start : ℕ)
      → start < length text
      → length text ≤ start + fuel
      → (parts : List (List ℕ)) × (chunks_from fuel size overlap text start ≡ some parts)
        × Covers size overlap (drop start text) parts
  chunks_from-Covers zero start inside enough = absurd (omega arith)
  chunks_from-Covers (suc fuel) start inside enough =
      elim (at_or_before (length text) (start + size)) [
        | inl fits ↦
            (drop start text ∷ [], ends-here fuel start inside fits, last-Covers start inside fits)
        | inr more ↦
            let (parts, rest, covered) =
              chunks_from-Covers fuel ((start + size) - overlap) (omega arith) (omega arith) in
            (
              take size (drop start text) ∷ parts,
              goes-on fuel start parts more rest,
              next-Covers start parts more covered,
            )
      ]

-- For an overlap below the size and a document that is not blank, split_chunks returns chunks; none
-- is empty or longer than the size, and the chunks, each less its overlap with the one before, are
-- the normalised document.
pub split_chunks-Covers :
    (document : List ℕ) (size overlap : ℕ)
    → overlap < size
    → normalize_text document ≢ []
    → (parts : List (List ℕ)) × (split_chunks document size overlap ≡ ok parts)
      × Covers size overlap (normalize_text document) parts
unfolding split_chunks rebuild
split_chunks-Covers document size overlap below present =
    let text = normalize_text document in
    let inside = not_empty text present in
    elim (at_or_before (length text) size) [
      | inl fits ↦
          (text ∷ [], ground arith, last-Covers size overlap text below 0 inside (omega arith))
      | inr more ↦
          let (parts, e, covered) =
            chunks_from-Covers size overlap text below (length text) 0 inside (omega arith) in
          (parts, ground arith, covered)
    ]
