-- ===== src/Indexer/Chosen.antt =====
-- Which indices `doSelectionByIndices` picks: those that a selector names.
use native.Mathlib.Nat.{mod-eq_of_lt, mod-eq-sub-mod}
use gsky.Prelude.{
  or_assoc, ℕ, zero, suc, ◌+◌, ◌-◌, ◌%◌, ◌≤◌, ◌<◌, ◌≡◌, refl, sym, ap, ◌∙◌, ==_iff, Bool,
  Bool-cases, true, false, ◌&&◌, ◌||◌, none, some, List, [], ◌∷◌, ◌++◌, arith, ltb, leb, ◌==◌, inl,
  inr, if◌then◌else◌, length, get_elem?, get_elem?-some,
}
use gsky.Dap4.{Selector}
use gsky.Indexer.Axes.{Coords, Picked, pick}
use gsky.Indexer.Indices.{is_in, two_63, start_of, end_of, step_of, pick_range}

-- An index of a range.
abbrev pub hits : ℕ → ℕ → ℕ → ℕ → Bool
hits start end step i = leb start i && (ltb i end && (i - start) % step == 0)

-- The selector names the index, of n.
abbrev pub chooses : ℕ → Selector → ℕ → Bool
chooses n sel i =
    if sel.is_all
    then ltb i n
    else if sel.is_range
    then hits (start_of sel) (end_of n sel) (step_of sel) i
    else elim sel.start [ some j ↦ i == j | none ↦ false ]

unfoldable pub any_chooses : ℕ → List Selector → ℕ → Bool
any_chooses n [] i = false
any_chooses n (sel ∷ sels) i = chooses n sel i || any_chooses n sels i

abbrev pub range_fits : ℕ → ℕ → ℕ → ℕ → Bool
range_fits n start end step =
    leb end n && (ltb start end && (leb 1 step && leb (end + step) two_63))

-- A selector that is within the n indices, and not too near the greatest int.
abbrev pub fits : ℕ → Selector → Bool
fits n sel =
    sel.is_all
    || (if sel.is_range
        then range_fits n (start_of sel) (end_of n sel) (step_of sel)
        else elim sel.start [ some j ↦ ltb j n | none ↦ false ])

pub range_fits-bounds :
    (n start end step : ℕ)
    → range_fits n start end step ≡ true
    → (end ≤ n) × (start < end) × (0 < step) × (end + step ≤ two_63)
range_fits-bounds n start end step h = (ground arith, ground arith, ground arith, ground arith)

pub is_in-append : (i : ℕ) (is : List ℕ) (j : ℕ) → is_in i (is ++ (j ∷ [])) ≡ is_in i is || i == j
unfolding is_in
is_in-append i [] j = ground arith
is_in-append i (k ∷ is) j = elim (Bool-cases (i == k)) [
  | inl h ↦ rw h refl
  | inr h ↦ rw h (is_in-append i is j)
]

-- The first index of a range, and those one step on.
hits_step :
    (i end step j : ℕ)
    → 0 < step
    → i < end
    → hits i end step j ≡ j == i || hits (i + step) end step j
hits_step i end step j h q = elim (Bool-cases (leb i j)) [
  | inr below ↦ ground arith
  | inl reached ↦ elim (Bool-cases (leb (i + step) j)) [
    | inl far ↦
        let same : (j - i) % step ≡ (j - (i + step)) % step =
          mod-eq-sub-mod {n = j - i} {m = step} (ground arith) ∙ ap (λ d. d % step) (omega arith) in
        rw same (ground arith)
    | inr near ↦
        let same : (j - i) % step ≡ j - i = mod-eq_of_lt {n = j - i} {m = step} (ground arith) in
        rw same (ground arith)
  ]
]

pub is_in-same : (i j : ℕ) (is : List ℕ) → (i == j) ≡ true → is_in j is ≡ true → is_in i is ≡ true
is_in-same i j is e h = ap (λ k. is_in k is) ((==_iff i j).0 e) ∙ h

past-hits : (i end step j : ℕ) → end ≤ i → hits i end step j ≡ false
past-hits i end step j h = ground arith

or_none : (b c : Bool) → c ≡ false → b ≡ b || c
or_none true c h = refl
or_none false c h = sym h

pub or_known : (a b c : Bool) → (b ≡ true → a ≡ true) → a || c ≡ a || (b || c)
or_known true b c h = refl
or_known false true c h = absurd (let e = h refl in cc)
or_known false false c h = refl

module _ (co : Coords) where
  open co use {F}

  -- The values are the parameters at the indices.
  abbrev pub Looks : List F → List ℕ → List F → Type 0
  Looks params [] [] = Unit
  Looks params (i ∷ is) (v ∷ vs) = (get_elem? params i ≡ some v) × Looks params is vs
  Looks params _ _ = ⊥

  pub Looks-append :
      (params : List F) (is : List ℕ) (vs : List F) (i : ℕ) (v : F)
      → Looks params is vs
      → get_elem? params i ≡ some v
      → Looks params (is ++ (i ∷ [])) (vs ++ (v ∷ []))
  Looks-append params [] [] i v h e = (e, record {})
  Looks-append params (j ∷ is) (w ∷ vs) i v (f, h) e = (f, Looks-append params is vs i v h e)
  Looks-append params [] (w ∷ vs) i v h e = absurd h
  Looks-append params (j ∷ is) [] i v h e = absurd h

  module _ (params : List F) where
    -- What the selection has picked belongs together, and the lookup has no other index.
    abbrev pub Sound : List ℕ → Picked co → Type 0
    Sound lookup p =
        Looks params p.idx p.values × ((i : ℕ) → is_in i lookup ≡ true → is_in i p.idx ≡ true)

    module _ (lookup : List ℕ) (step end : ℕ) (some_step : 0 < step) (inside : end ≤ length params)
        (near : end + step ≤ two_63) where
      pub pick_range-hits :
          (fuel i : ℕ) (p : Picked co)
          → end ≤ i + fuel
          → i < end + step
          → Sound lookup p
          → (p' : Picked co) × (pick_range co fuel params lookup step end i p ≡ some p')
            × Sound lookup p'
            × ((j : ℕ) → is_in j p'.idx ≡ is_in j p.idx || hits i end step j)
      unfolding pick_range is_in
      pick_range-hits zero i p h q sound =
          (p, refl, sound, λ j. or_none (is_in j p.idx) _ (past-hits i end step j (omega arith)))
      pick_range-hits (suc fuel) i p h q (looks, known) =
          let small : leb two_63 i ≡ false = ground arith in
          elim (Bool-cases (leb end i)) [
            | inl past ↦ (
              p,
              rw (small, past) refl,
              (looks, known),
              λ j. or_none (is_in j p.idx) _ (past-hits i end step j (ground arith)),
            )
            | inr more ↦ elim (Bool-cases (is_in i lookup)) [
              | inl seen ↦
                  let (p', run, sound, hit) =
                    pick_range-hits fuel (i + step) p (ground arith) (ground arith)
                      (looks, known) in
                  (
                    p',
                    rw (small, more, seen) run,
                    sound,
                    λ j.
                        hit j
                        ∙ or_known (is_in j p.idx) (j == i) _
                            (λ same. is_in-same j i p.idx same (known i seen))
                        ∙ ap (λ b. is_in j p.idx || b)
                            (sym (hits_step i end step j some_step (ground arith))),
                  )
              | inr new ↦
                  let (v, e) = get_elem?-some params i (ground arith) in
                  let (p', run, sound, hit) =
                    pick_range-hits fuel (i + step) (pick co i v p) (ground arith) (ground arith) (
                      Looks-append params p.idx p.values i v looks e,
                      λ j w. is_in-append j p.idx i ∙ ap (λ b. b || j == i) (known j w),
                    ) in
                  (
                    p',
                    rw (small, more, new, e) run,
                    sound,
                    λ j.
                        hit j
                        ∙ ap (λ b. b || hits (i + step) end step j) (is_in-append j p.idx i)
                        ∙ or_assoc (is_in j p.idx) (j == i) _
                        ∙ ap (λ b. is_in j p.idx || b)
                            (sym (hits_step i end step j some_step (ground arith))),
                  )
            ]
          ]
