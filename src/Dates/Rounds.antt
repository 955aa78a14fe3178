-- ===== src/Dates/Rounds.antt =====
-- The times of a loop that goes on to a later time until the end is passed.
use gsky.Prelude.{
  ℕ, zero, suc, ◌-◌, ◌≤◌, ◌<◌, ◌≡◌, refl, ◌∙◌, ap, inl, inr, Bool-cases, some, List, [], ◌∷◌, ◌++◌,
  leb, arith, leb→le,
}
use gsky.Prelude.Int.{}
use gsky.Dates.{Calendar, steps, enough, itself}

-- Times from a start on, none of them behind the end. As long as the step from a time does not pass
-- the end, there is a next time, the one that the rule gives; then there is none.
abbrev pub Follows : (ℕ → ℕ) → (ℕ → ℕ) → ℕ → ℕ → List ℕ → Type 0
Follows step next end start [] = end < start
Follows step next end start (t ∷ []) = (t ≡ start) × (start ≤ end) × (end < step start)
Follows step next end start (t ∷ u ∷ ts) =
    (t ≡ start) × (start ≤ end) × (step start ≤ end) × Follows step next end (next start) (u ∷ ts)

pub Follows-cons :
    (step next : ℕ → ℕ) (end start : ℕ) (ts : List ℕ)
    → start ≤ end
    → step start ≤ end
    → next start ≤ end
    → Follows step next end (next start) ts
    → Follows step next end start (start ∷ ts)
Follows-cons step next end start [] h k l f = absurd (omega arith)
Follows-cons step next end start (u ∷ ts) h k l f = (refl, h, k, f)

Follows-start :
    (next : ℕ → ℕ) (end start : ℕ) (ts : List ℕ)
    → start ≤ end
    → Follows next next end (next start) ts
    → Follows next next end start (start ∷ ts)
Follows-start next end start [] h f = (refl, h, f)
Follows-start next end start (u ∷ []) h f = (refl, h, f.1, f)
Follows-start next end start (u ∷ v ∷ ts) h f = (refl, h, f.1, f)

-- The times that are given at each start of a round.
unfoldable pub all_of : (ℕ → List ℕ) → List ℕ → List ℕ
all_of emit [] = []
all_of emit (t ∷ ts) = emit t ++ all_of emit ts

pub steps-Follows :
    (cal : Calendar) (next : ℕ → ℕ) (emit : ℕ → List ℕ)
    → ((t : ℕ) → t < next t)
    → (fuel start end : ℕ) → suc end - start < fuel
    → (ts : List ℕ) × (steps cal next emit fuel start end ≡ some (all_of emit ts))
      × Follows next next end start ts
unfolding steps all_of
steps-Follows cal next emit up zero start end h = absurd (omega arith)
steps-Follows cal next emit up (suc fuel) start end h = elim (Bool-cases (leb start end)) [
  | inl more ↦
      let le : start ≤ end = leb→le start end more in
      let (ts, e, f) =
        steps-Follows cal next emit up fuel (next start) end (omega (arith, up start)) in
      (start ∷ ts, rw (more, e) refl, Follows-start next end start ts le f)
  | inr done ↦ ([], rw done refl, ground arith)
]

all_of-itself : (cal : Calendar) (ts : List ℕ) → all_of (itself cal) ts ≡ ts
unfolding all_of
all_of-itself cal [] = refl
all_of-itself cal (t ∷ ts) = ap (t ∷◌) (all_of-itself cal ts)

pub steps-itself :
    (cal : Calendar) (next : ℕ → ℕ)
    → ((t : ℕ) → t < next t)
    → (start end : ℕ)
    → (ts : List ℕ) × (steps cal next (itself cal) (enough cal start end) start end ≡ some ts)
      × Follows next next end start ts
steps-itself cal next up start end =
    let (ts, e, f) =
      steps-Follows cal next (itself cal) up (enough cal start end) start end (omega arith) in
    (ts, e ∙ ap some (all_of-itself cal ts), f)
