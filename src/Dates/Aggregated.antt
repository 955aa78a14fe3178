-- ===== src/Dates/Aggregated.antt =====
-- Which time stamps the aggregation of `GenerateDatesMas` takes.
use native.Mathlib.Nat.{suc-add}
use gsky.Prelude.{
  true, false, if◌then◌else◌, ℕ, zero, suc, ◌+◌, ◌-◌, ◌≤◌, ◌<◌, ◌≡◌, ◌⊎◌, refl, sym, ap, subst, ◌∙◌,
  inl, inr, Bool-cases, Option, none, some, List, [], ◌∷◌, ◌++◌, ltb, leb, ◌==◌, length, get_elem?,
  get_elem?-some, take, drop, arith, Bytes,
}
use gsky.Prelude.Int.{pos}
use gsky.Dates.{Calendar}
use gsky.Dates.Mas.{stamp_for, stamps_for, aggregate_stamps}
use gsky.Dates.Rounds.{Follows, steps-itself}

get_elem?-drop :
    {A : Type 0} (n : ℕ) (xs : List A) (j : ℕ) → get_elem? (drop n xs) j ≡ get_elem? xs (n + j)
get_elem?-drop zero xs j = ap (get_elem? xs) (omega arith)
get_elem?-drop (suc n) [] j = refl
get_elem?-drop (suc n) (x ∷ xs) j = rw suc-add (get_elem?-drop n xs j)

abbrev pub distance : ℕ → ℕ → ℕ
distance a b = (a - b) + (b - a)

module _ (parse : Bytes → Option ℕ) (time : Bytes → ℕ) where
  -- The texts are times, in ascending order.
  abbrev pub IsAscending : List Bytes → Type 0
  IsAscending stamps =
      ((i : ℕ) (s : Bytes) → get_elem? stamps i ≡ some s → parse s ≡ some (time s))
      × ((i j : ℕ) (s u : Bytes)
          → i ≤ j
          → get_elem? stamps i ≡ some s
          → get_elem? stamps j ≡ some u
          → time s ≤ time u)

  -- A date gets the empty text when all stamps are before it, and else the nearest of them. What is left
  -- for the next date: the stamps behind that one, unless it is behind the date, and then all.
  abbrev pub IsPick : ℕ → List Bytes → Bytes → List Bytes → Type 0
  IsPick ref stamps s rest =
      (((j : ℕ) (u : Bytes) → get_elem? stamps j ≡ some u → time u < ref)
        × (s ≡ [])
        × (rest ≡ stamps))
      ⊎ ((k : ℕ) × (get_elem? stamps k ≡ some s)
          × (rest ≡ (if leb (time s) ref then drop (suc k) stamps else stamps))
          × ((j : ℕ) (u : Bytes)
              → get_elem? stamps j ≡ some u
              → distance ref (time s) ≤ distance ref (time u)))

  -- The stamps of the dates one after the other.
  abbrev pub Picks : List ℕ → List Bytes → List Bytes → Type 0
  Picks [] stamps out = out ≡ []
  Picks (ref ∷ refs) stamps [] = ⊥
  Picks (ref ∷ refs) stamps (s ∷ out) =
      (rest : List Bytes) × IsPick ref stamps s rest × Picks refs rest out

  drop-IsAscending :
      (n : ℕ) (stamps : List Bytes) → IsAscending stamps → IsAscending (drop n stamps)
  drop-IsAscending n stamps (parses, ascends) = (
    λ i s e. parses (n + i) s (sym (get_elem?-drop n stamps i) ∙ e),
    λ i j s u h e e'.
        ascends (n + i) (n + j) s u (omega arith) (sym (get_elem?-drop n stamps i) ∙ e)
          (sym (get_elem?-drop n stamps j) ∙ e'),
  )

  -- The first of the stamps from k on.
  at_head :
      (k : ℕ) (stamps : List Bytes) (s : Bytes) (rest : List Bytes)
      → drop k stamps ≡ s ∷ rest
      → (get_elem? stamps k ≡ some s) × (drop (suc k) stamps ≡ rest)
  at_head zero (x ∷ xs) s rest e = (cc, cc)
  at_head zero [] s rest e = cc
  at_head (suc k) [] s rest e = cc
  at_head (suc k) (x ∷ xs) s rest e = at_head k xs s rest e

  past_end :
      (k : ℕ) (stamps : List Bytes) (j : ℕ) (u : Bytes)
      → drop k stamps ≡ []
      → get_elem? stamps j ≡ some u
      → j < k
  past_end zero [] j u e h = cc
  past_end zero (x ∷ xs) j u e h = cc
  past_end (suc k) [] j u e h = cc
  past_end (suc k) (x ∷ xs) zero u e h = omega arith
  past_end (suc k) (x ∷ xs) (suc j) u e h = omega (arith, past_end k xs j u e h)

  module _ (ref : ℕ) (stamps : List Bytes) (ascending : IsAscending stamps) where
    abbrev Takes : Option (Bytes × ℕ) → List Bytes → Type 0
    Takes prev cur =
        (s : Bytes) × (rest : List Bytes) × (stamp_for parse ref stamps prev cur ≡ some (s, rest))
        × IsPick ref stamps s rest

    left_over :
        (s : Bytes) (k : ℕ) (rest : List Bytes)
        → drop (suc k) stamps ≡ rest
        → leb (time s) ref ≡ true
        → rest ≡ (if leb (time s) ref then drop (suc k) stamps else stamps)
    left_over s k rest e h = rw h (sym e)

    left_all :
        (s : Bytes) (k : ℕ)
        → leb (time s) ref ≡ false
        → stamps ≡ (if leb (time s) ref then drop (suc k) stamps else stamps)
    left_all s k h = rw h refl

    -- No stamp is between two that follow each other.
    sides :
        (k : ℕ) (s0 s : Bytes)
        → get_elem? stamps k ≡ some s0
        → get_elem? stamps (suc k) ≡ some s
        → (j : ℕ) (u : Bytes) → get_elem? stamps j ≡ some u
        → (time u ≤ time s0) ⊎ (time s ≤ time u)
    sides k s0 s e0 e j u g = elim (Bool-cases (leb j k)) [
      | inl below ↦ inl (ascending.1 j k u s0 (ground arith) g e0)
      | inr above ↦ inr (ascending.1 (suc k) j s u (ground arith) e g)
    ]

    stamp_for_after :
        (cur : List Bytes) (k : ℕ) (s0 : Bytes)
        → drop (suc k) stamps ≡ cur
        → get_elem? stamps k ≡ some s0
        → time s0 < ref
        → Takes (some (s0, time s0)) cur
    unfolding stamp_for
    stamp_for_after [] k s0 e e0 h = (
      [],
      stamps,
      refl,
      inl (
        λ j u g.
            let last : j < suc k = past_end (suc k) stamps j u e g in
            omega (arith, ascending.1 j k u s0 (omega arith) g e0),
        refl,
        refl,
      ),
    )
    stamp_for_after (s ∷ rest) k s0 e e0 h =
        let (at, more) = at_head (suc k) stamps s rest e in
        let known : parse s ≡ some (time s) = ascending.0 (suc k) s at in
        elim (Bool-cases (ref == time s)) [
          | inl same ↦ (
            s,
            rest,
            rw (known, same) refl,
            inr (suc k, at, left_over s (suc k) rest more (ground arith), λ j u g. ground arith),
          )
          | inr other ↦ elim (Bool-cases (ltb ref (time s))) [
            | inl behind ↦ elim (Bool-cases (leb (ref - time s0) (time s - ref))) [
              | inl near ↦ (
                s0,
                s ∷ rest,
                rw (known, other, behind, near) refl,
                inr (
                  k,
                  e0,
                  left_over s0 k (s ∷ rest) e (ground arith),
                  λ j u g. elim (sides k s0 s e0 at j u g) [
                    | inl l ↦ ground arith
                    | inr l ↦ ground arith
                  ],
                ),
              )
              | inr far ↦ (
                s,
                stamps,
                rw (known, other, behind, far) refl,
                inr (
                  suc k,
                  at,
                  left_all s (suc k) (ground arith),
                  λ j u g. elim (sides k s0 s e0 at j u g) [
                    | inl l ↦ ground arith
                    | inr l ↦ ground arith
                  ],
                ),
              )
            ]
            | inr before ↦
                let (s', rest', run, p) = stamp_for_after rest (suc k) s more at (ground arith) in
                (s', rest', rw (known, other, before) run, p)
          ]
        ]

    stamp_for-Takes : (cur : List Bytes) → stamps ≡ cur → Takes none cur
    unfolding stamp_for
    stamp_for-Takes [] e = (
      [],
      stamps,
      refl,
      inl (λ j u g. let none_left : j < 0 = past_end 0 stamps j u e g in omega arith, refl, refl),
    )
    stamp_for-Takes (s ∷ rest) e =
        let (at, more) = at_head 0 stamps s rest e in
        let known : parse s ≡ some (time s) = ascending.0 0 s at in
        elim (Bool-cases (ref == time s)) [
          | inl same ↦ (
            s,
            rest,
            rw (known, same) refl,
            inr (0, at, left_over s 0 rest more (ground arith), λ j u g. ground arith),
          )
          | inr other ↦ elim (Bool-cases (ltb ref (time s))) [
            | inl behind ↦ (
              s,
              stamps,
              rw (known, other, behind) refl,
              inr (
                0,
                at,
                left_all s 0 (ground arith),
                λ j u g.
                    let later : time s ≤ time u = ascending.1 0 j s u (omega arith) at g in
                    ground arith,
              ),
            )
            | inr before ↦
                let (s', rest', run, p) = stamp_for_after rest 0 s more at (ground arith) in
                (s', rest', rw (known, other, before) run, p)
          ]
        ]

  IsPick-IsAscending :
      (ref : ℕ) (stamps : List Bytes) (s : Bytes) (rest : List Bytes)
      → IsPick ref stamps s rest
      → IsAscending stamps
      → IsAscending rest
  IsPick-IsAscending ref stamps s rest (inl (b, e, same)) h = subst IsAscending (sym same) h
  IsPick-IsAscending ref stamps s rest (inr (k, e, same, near)) h =
      subst IsAscending (sym same) (elim (Bool-cases (leb (time s) ref)) [
        | inl before ↦ rw before (drop-IsAscending (suc k) stamps h)
        | inr behind ↦ rw behind h
      ])

  stamps_for-Picks :
      (refs : List ℕ) (stamps : List Bytes)
      → IsAscending stamps
      → (out : List Bytes) × (stamps_for parse refs stamps ≡ some out) × Picks refs stamps out
  unfolding stamps_for
  stamps_for-Picks [] stamps h = ([], refl, refl)
  stamps_for-Picks (ref ∷ refs) stamps h =
      let (s, rest, run, p) = stamp_for-Takes ref stamps h stamps refl in
      let (out, runs, ps) = stamps_for-Picks refs rest (IsPick-IsAscending ref stamps s rest p h) in
      (s ∷ out, rw (run, runs) refl, (rest, p, ps))

  -- For time stamps in ascending order, of which there is one at least, the aggregation succeeds. Its
  -- reference dates are the times from the first stamp to the last one, a step apart, and the last
  -- stamp's again, but no more than there are stamps. Each date in turn gets, of the stamps that
  -- the dates before left, the nearest one, or the empty text where all of them are before. A date leaves
  -- the stamps behind its own, unless that is later than the date, and then all that it found.
  pub aggregate_stamps-Picks :
      (cal : Calendar) (stamps : List Bytes)
      → IsAscending stamps
      → 0 < length stamps
      → (n : ℕ)
      → (first last : Bytes) × (get_elem? stamps 0 ≡ some first)
        × (get_elem? stamps (length stamps - 1) ≡ some last)
        × (ref_dates : List ℕ) × Follows
            (λ t. t + suc n)
            (λ t. t + suc n)
            (time last)
            (time first)
            ref_dates
        × (out : List Bytes) × (aggregate_stamps parse cal stamps (pos (suc n)) ≡ some out)
        × Picks (take (length stamps) (ref_dates ++ (time last ∷ []))) stamps out
  unfolding aggregate_stamps
  aggregate_stamps-Picks cal stamps h some_stamp n =
      let (first, e) = get_elem?-some stamps 0 some_stamp in
      let (last, e') = get_elem?-some stamps (length stamps - 1) (omega arith) in
      let (ref_dates, run, f) =
        steps-itself cal (λ t. t + suc n) (λ t. omega arith) (time first) (time last) in
      let (out, runs, ps) =
        stamps_for-Picks (take (length stamps) (ref_dates ++ (time last ∷ []))) stamps h in
      (
        first,
        last,
        e,
        e',
        ref_dates,
        f,
        out,
        rw (e, h.0 0 first e, e', h.0 (length stamps - 1) last e', run) runs,
        ps,
      )
