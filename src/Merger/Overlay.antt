-- ===== src/Merger/Overlay.antt =====
-- Samples written over the bytes of a canvas, through the view of them.
use gsky.Prelude.{◌≡◌, refl, List, [], ◌∷◌, ℕ, arith, length}
use gsky.Merger.Types.{
  RasterType, int16, uint16, float32, words, words2, words4, overlay, overlay1, overlay2, overlay4,
}

words2-overlay2 : (ws bs : List ℕ) → length ws ≡ length (words2 bs) → words2 (overlay2 ws bs) ≡ ws
unfolding words2 overlay2
words2-overlay2 [] [] e = refl
words2-overlay2 [] (a ∷ []) e = refl
words2-overlay2 [] (a ∷ b ∷ bs) e = absurd (omega arith)
words2-overlay2 (w ∷ ws) [] e = absurd (omega arith)
words2-overlay2 (w ∷ ws) (a ∷ []) e = absurd (omega arith)
words2-overlay2 (w ∷ ws) (a ∷ b ∷ bs) e = ground (arith, words2-overlay2 ws bs)

words4-overlay4 : (ws bs : List ℕ) → length ws ≡ length (words4 bs) → words4 (overlay4 ws bs) ≡ ws
unfolding words4 overlay4
words4-overlay4 [] [] e = refl
words4-overlay4 [] (a ∷ []) e = refl
words4-overlay4 [] (a ∷ b ∷ []) e = refl
words4-overlay4 [] (a ∷ b ∷ c ∷ []) e = refl
words4-overlay4 [] (a ∷ b ∷ c ∷ d ∷ bs) e = absurd (omega arith)
words4-overlay4 (w ∷ ws) [] e = absurd (omega arith)
words4-overlay4 (w ∷ ws) (a ∷ []) e = absurd (omega arith)
words4-overlay4 (w ∷ ws) (a ∷ b ∷ []) e = absurd (omega arith)
words4-overlay4 (w ∷ ws) (a ∷ b ∷ c ∷ []) e = absurd (omega arith)
words4-overlay4 (w ∷ ws) (a ∷ b ∷ c ∷ d ∷ bs) e = ground (arith, words4-overlay4 ws bs)

overlay1-whole : (ws bs : List ℕ) → length ws ≡ length bs → overlay1 ws bs ≡ ws
unfolding overlay1
overlay1-whole [] [] e = refl
overlay1-whole [] (a ∷ bs) e = absurd (omega arith)
overlay1-whole (w ∷ ws) [] e = absurd (omega arith)
overlay1-whole (w ∷ ws) (a ∷ bs) e = ground (arith, overlay1-whole ws bs)

-- Samples that are written over the bytes of as many samples are read back from them, for each of
-- the types.
pub words-overlay :
    (t : RasterType) (ws bs : List ℕ)
    → length ws ≡ length (words t bs)
    → words t (overlay t ws bs) ≡ ws
unfolding words overlay
words-overlay int16 ws bs e = words2-overlay2 ws bs e
words-overlay uint16 ws bs e = words2-overlay2 ws bs e
words-overlay float32 ws bs e = words4-overlay4 ws bs e
words-overlay _ ws bs e = overlay1-whole ws bs e
