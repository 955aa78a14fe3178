-- ===== src/Indexer/Selected.antt =====
-- What `doSelectionByIndices` returns for selectors that fit the axis.
use gsky.Prelude.{
  or_assoc, ℕ, suc, ◌+◌, ◌≤◌, ◌<◌, ◌≡◌, refl, sym, ap, ◌∙◌, Bool, Bool-cases, true, false, ◌||◌,
  Option, none, some, List, [], ◌∷◌, arith, ltb, leb, ltb→lt, lt→ltb, ◌==◌, inl, inr, length,
  get_elem?, get_elem?-some, All,
}
use gsky.Prelude.Result.{ok}
use gsky.Dap4.{Selector}
use gsky.Indexer.Axes.{Coords, enum, Picked, DatasetAxis, pick}
use gsky.Indexer.Indices.{
  is_in, start_of, end_of, step_of, all_from, next, select_one, select, select_all,
  do_selection_by_indices,
}
use gsky.Indexer.Chosen.{
  range_fits, range_fits-bounds, chooses, any_chooses, fits, Looks, Looks-append, Sound,
  pick_range-hits, is_in-append, is_in-same,
}
use gsky.Indexer.Ascending.{IsAscending, sort_picked-some}

abbrev pub AllFit : ℕ → List Selector → Type 0
AllFit n sels = All (λ sel. fits n sel ≡ true) sels

or_absorb : (a b : Bool) → (b ≡ true → a ≡ true) → a ≡ a || b
or_absorb true b h = refl
or_absorb false true h = h refl
or_absorb false false h = refl

or_either : (a b l : Bool) → (l ≡ true → a ≡ true) → b || l ≡ true → a || b ≡ true
or_either true b l h e = refl
or_either false true l h e = refl
or_either false false l h e = h e

-- Where n indices are chosen, an index below n is.
all_chosen :
    (n : ℕ) (sel : Selector) (sels : List Selector) (j : ℕ) (a : Bool)
    → sel.is_all ≡ true
    → j < n
    → a || any_chooses n (sel ∷ sels) j ≡ true
unfolding any_chooses
all_chosen n sel sels j true h q = refl
all_chosen n sel sels j false h q = rw (h, lt→ltb j n q) refl

module _ (co : Coords) where
  open co use {F}

  all_from-is_in :
      (i : ℕ) (vs : List F) (j : ℕ) → i ≤ j → j < i + length vs → is_in j (all_from co i vs) ≡ true
  unfolding all_from is_in
  all_from-is_in i [] j h q = absurd (omega arith)
  all_from-is_in i (v ∷ vs) j h q = elim (Bool-cases (j == i)) [
    | inl e ↦ rw e refl
    | inr e ↦ rw e (all_from-is_in (i + 1) vs j (ground arith) (omega arith))
  ]

  all_from-Looks :
      (params : List F) (i : ℕ) (vs : List F)
      → ((k : ℕ) → get_elem? params (i + k) ≡ get_elem? vs k)
      → Looks co params (all_from co i vs) vs
  unfolding all_from
  all_from-Looks params i [] h = record {}
  all_from-Looks params i (v ∷ vs) h = (
    ap (get_elem? params) (omega arith) ∙ h 0,
    all_from-Looks params (i + 1) vs (λ k. ap (get_elem? params) (omega arith) ∙ h (suc k)),
  )

  all_from-above : (m i : ℕ) (vs : List F) → m ≤ i → All (λ j. m ≤ j) (all_from co i vs)
  unfolding all_from
  all_from-above m i [] h = record {}
  all_from-above m i (v ∷ vs) h = (h, all_from-above m (i + 1) vs (omega arith))

  all_from-IsAscending : (i : ℕ) (vs : List F) → IsAscending (all_from co i vs)
  unfolding all_from
  all_from-IsAscending i [] = record {}
  all_from-IsAscending i (v ∷ vs) =
      (all_from-above i (i + 1) vs (omega arith), all_from-IsAscending (i + 1) vs)

  module _ (params : List F) where
    -- What a selector that fits leaves behind.
    abbrev Leaves : Selector → List ℕ → Picked co → Type 0
    Leaves sel lookup p =
        (lookup' : List ℕ) × (p' : Picked co) × (select co params sel lookup p
          ≡ ok (next lookup' p'))
        × Sound co params lookup' p'
        × ((j : ℕ) → is_in j p'.idx ≡ is_in j p.idx || chooses (length params) sel j)

    range-Leaves :
        (sel : Selector) (lookup : List ℕ) (p : Picked co)
        → sel.is_all ≡ false
        → sel.is_range ≡ true
        → range_fits (length params) (start_of sel) (end_of (length params) sel) (step_of sel)
          ≡ true
        → Sound co params lookup p
        → Leaves sel lookup p
    unfolding select
    range-Leaves sel lookup p not_all range h sound =
        let end = end_of (length params) sel in
        let (e_end, e_start, e_step, e_near) =
          range_fits-bounds (length params) (start_of sel) end (step_of sel) h in
        let (p', run, (looks, known), hit) =
          pick_range-hits co params lookup (step_of sel) end e_step e_end e_near end (start_of sel)
            p (omega arith) (omega arith) sound in
        let c1 : ltb (length params) end ≡ false = ground arith in
        let c2 : leb end (start_of sel) ≡ false = ground arith in
        let c3 : ltb (step_of sel) 1 ≡ false = ground arith in
        (
          lookup,
          p',
          rw (not_all, range, c1, c2, c3, run) refl,
          (looks, known),
          λ j. rw (not_all, range) (hit j),
        )

    select_one-Leaves :
        (start : Option ℕ) (lookup : List ℕ) (p : Picked co)
        → (elim start [ some j ↦ ltb j (length params) | none ↦ false ]) ≡ true
        → Sound co params lookup p
        → (lookup' : List ℕ) × (p' : Picked co) × (select_one co params start lookup p
            ≡ ok (next lookup' p'))
          × Sound co params lookup' p'
          × ((j : ℕ)
              → is_in j p'.idx ≡ is_in j p.idx || (elim start [ some i ↦ j == i | none ↦ false ]))
    unfolding is_in
    select_one-Leaves none lookup p h sound = absurd (cc)
    select_one-Leaves (some i) lookup p h (looks, known) =
        let inside : leb (length params) i ≡ false = ground arith in
        elim (Bool-cases (is_in i lookup)) [
          | inl seen ↦ (
            lookup,
            p,
            rw (inside, seen) refl,
            (looks, known),
            λ j. or_absorb (is_in j p.idx) (j == i) (λ e. is_in-same j i p.idx e (known i seen)),
          )
          | inr new ↦
              let (v, e) = get_elem?-some params i (ltb→lt i (length params) h) in
              (
                i ∷ lookup,
                pick co i v p,
                rw (inside, new, e) refl,
                (
                  Looks-append co params p.idx p.values i v looks e,
                  λ j w.
                      is_in-append j p.idx i
                      ∙ or_either (is_in j p.idx) (j == i) (is_in j lookup) (known j) w,
                ),
                λ j. is_in-append j p.idx i,
              )
        ]

    select-Leaves :
        (sel : Selector) (lookup : List ℕ) (p : Picked co)
        → sel.is_all ≡ false
        → fits (length params) sel ≡ true
        → Sound co params lookup p
        → Leaves sel lookup p
    unfolding select
    select-Leaves sel lookup p not_all h sound = elim (Bool-cases sel.is_range) [
      | inl range ↦ range-Leaves sel lookup p not_all range (rw (not_all, range) at h) sound
      | inr single ↦
          let (lookup', p', run, sound', hit) =
            select_one-Leaves sel.start lookup p (rw (not_all, single) at h) sound in
          (lookup', p', rw (not_all, single) run, sound', λ j. rw (not_all, single) (hit j))
    ]

    -- The indices below the number of parameters that are picked, with those that were before.
    select_all-picks :
        (sels : List Selector) (lookup : List ℕ) (p : Picked co)
        → AllFit (length params) sels
        → Sound co params lookup p
        → (p' : Picked co) × (select_all co params sels lookup p ≡ ok (false, p'))
          × Looks co params p'.idx p'.values
          × IsAscending p'.idx
          × ((j : ℕ)
              → j < length params
              → is_in j p'.idx ≡ is_in j p.idx || any_chooses (length params) sels j)
    unfolding select_all any_chooses
    select_all-picks [] lookup p h (looks, known) =
        let (p', run, looks', up, same) = sort_picked-some co params p looks in
        (
          p',
          rw run refl,
          looks',
          up,
          λ j q. same j ∙ or_absorb (is_in j p.idx) false (λ e. absurd (cc)),
        )
    select_all-picks (sel ∷ sels) lookup p (hs, h) sound = elim (Bool-cases sel.is_all) [
      | inl every ↦ (
        record { idx = all_from co 0 params; values = params },
        rw every refl,
        all_from-Looks params 0 params (λ k. ap (get_elem? params) (omega arith)),
        all_from-IsAscending 0 params,
        λ j q.
            all_from-is_in 0 params j (omega arith) (omega arith)
            ∙ sym (all_chosen (length params) sel sels j (is_in j p.idx) every q),
      )
      | inr not_all ↦
          let (lookup₁, p₁, first, sound₁, hit) = select-Leaves sel lookup p not_all hs sound in
          let (p', run, looks, up, hits) = select_all-picks sels lookup₁ p₁ h sound₁ in
          (
            p',
            rw first run,
            looks,
            up,
            λ j q.
                hits j q
                ∙ ap (λ b. b || any_chooses (length params) sels j) (hit j)
                ∙ or_assoc (is_in j p.idx) (chooses (length params) sel j) _,
          )
    ]

-- For an "enum" axis on which nothing is picked yet, and selectors that fit it (an index or a
-- range within the parameters, a step of 1 or more, and no sum of an index and a step beyond an
-- int), `doSelectionByIndices` succeeds, the axis is not out of range, and what it picks is: in
-- ascending order, each index with its own parameter, and an index below the number of parameters
-- just when one of the selectors chooses it.
pub do_selection_by_indices-chosen :
    (co : Coords) (axis : DatasetAxis co) (sels : List Selector)
    → axis.grid ≡ enum
    → axis.picked ≡ record { idx = []; values = [] }
    → AllFit (length axis.params) sels
    → (p : Picked co) × (do_selection_by_indices co axis sels ≡ ok (false, p))
      × Looks co axis.params p.idx p.values
      × IsAscending p.idx
      × ((j : ℕ) → j < length axis.params → is_in j p.idx ≡ any_chooses (length axis.params) sels j)
unfolding do_selection_by_indices is_in
do_selection_by_indices-chosen co axis sels grid fresh h =
    let (p, run, looks, up, chosen) =
      select_all-picks co axis.params sels [] (record { idx = []; values = [] }) h
        (record {}, λ i e. e) in
    (p, rw (grid, fresh) run, looks, up, chosen)
