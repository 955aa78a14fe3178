-- ===== src/Palette/Paint.antt =====
-- Steps of a cursor that paint a list of colours, and the entries of bonusArr.
use native.Mathlib.Nat.{add-zero, zero-add, suc-add}
use mathlib.Core.List.{append_assoc}
use gsky.Prelude.{
  ℕ, zero, suc, ◌+◌, ◌≤◌, ◌<◌, ◌≡◌, refl, ap, Option, some, List, [], ◌∷◌, ◌++◌, arith, ltb, length,
  length-append, length-drop, drop-drop, get_elem?, drop, replicate, write-append, ◌>>=◌,
  if◌then◌else◌,
}
use gsky.Palette.{Rgba, Cursor, fill, set_bonus}
use gsky.Palette.Blend.{}

-- f i, f (i + 1), ..., n of them
abbrev pub tabulate : (ℕ → Rgba) → ℕ → ℕ → List Rgba
tabulate f zero i = []
tabulate f (suc n) i = f i ∷ tabulate f n (i + 1)

pub length-tabulate : (f : ℕ → Rgba) (n i : ℕ) → length (tabulate f n i) ≡ n
length-tabulate f zero i = refl
length-tabulate f (suc n) i = ap suc (length-tabulate f n (i + 1))

-- `next` writes zs over the entries that follow the index, and moves the index behind them.
abbrev pub Paints : (Cursor → Option Cursor) → List Rgba → Type 0
Paints next zs =
    (xs ys : List Rgba)
    → length zs ≤ length ys
    → next (record { ramp = xs ++ ys; index = length xs })
      ≡ some (record { ramp = xs ++ (zs ++ drop (length zs) ys); index = length xs + length zs })

pub Paints-nil : Paints some []
Paints-nil xs ys h = rw add-zero

pub Paints-bind :
    (f g : Cursor → Option Cursor) (zs ws : List Rgba)
    → Paints f zs
    → Paints g ws
    → Paints (λ s. f s >>= g) (zs ++ ws)
Paints-bind f g zs ws pf pg xs ys h =
    let e : length (zs ++ ws) ≡ length zs + length ws = length-append zs ws in
    rw (pf xs ys (omega (arith, e))) (
      ground (
        arith,
        pg (xs ++ zs) (drop (length zs) ys),
        length-drop (length zs) ys,
        drop-drop (length zs) (length ws) ys,
        length-append xs zs,
        append_assoc xs zs (drop (length zs) ys),
        append_assoc xs zs (ws ++ drop (length ws) (drop (length zs) ys)),
        append_assoc zs ws (drop (length ws) (drop (length zs) ys)),
        e,
      ))

-- A section of n entries, of which the k-th gets the k-th colour.
pub fill-Paints :
    (colour : ℕ → Option Rgba) (f : ℕ → Rgba) (n i : ℕ)
    → ((k : ℕ) → k < i + n → colour k ≡ some (f k))
    → Paints (fill colour n i) (tabulate f n i)
unfolding fill
fill-Paints colour f zero i h xs ys fits = Paints-nil xs ys fits
fill-Paints colour f (suc n) i h xs [] fits = elim fits [ ]
fill-Paints colour f (suc n) i h xs (y ∷ ys) fits =
    rw (h i (omega arith), write-append xs y ys (f i))
      (ground (
        arith,
        fill-Paints colour f n (i + 1) (λ k lt. h k (omega arith)) (xs ++ f i ∷ []) ys,
        append_assoc xs (f i ∷ []) ys,
        append_assoc xs (f i ∷ [])
            (tabulate f n (i + 1) ++ drop (length (tabulate f n (i + 1))) ys),
        length-append xs (f i ∷ []),
      ))

pub set_bonus-replicate :
    (n m : ℕ) (xs : List ℕ)
    → set_bonus n (length xs) (xs ++ replicate (n + m) 0)
      ≡ some (xs ++ (replicate n 1 ++ replicate m 0))
unfolding set_bonus
set_bonus-replicate zero m xs = rw zero-add
set_bonus-replicate (suc n) m xs =
    rw (suc-add, write-append xs 0 (replicate (n + m) 0) 1)
      (ground (
        arith,
        set_bonus-replicate n m (xs ++ 1 ∷ []),
        append_assoc xs (1 ∷ []) (replicate (n + m) 0),
        append_assoc xs (1 ∷ []) (replicate n 1 ++ replicate m 0),
        length-append xs (1 ∷ []),
      ))

pub get_elem?-bonus :
    (n m k : ℕ)
    → k < n + m
    → get_elem? {A = ℕ} (replicate n 1 ++ replicate m 0) k ≡ some (if ltb k n then 1 else 0)
get_elem?-bonus zero zero k h = absurd (omega arith)
get_elem?-bonus zero (suc m) zero h = refl
get_elem?-bonus zero (suc m) (suc k) h = ground (arith, get_elem?-bonus zero m k)
get_elem?-bonus (suc n) m zero h = ground arith
get_elem?-bonus (suc n) m (suc k) h = ground (arith, get_elem?-bonus n m k)
