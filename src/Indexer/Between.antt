-- ===== src/Indexer/Between.antt =====
-- The two loops of `doSelectionByRange` that pick what lies between a start and an end.
use mathlib.Core.List.{append_assoc, append-nil}
use gsky.Prelude.{
  get_elem?-map, and-false, ℕ, suc, ◌+◌, ◌-◌, ◌<◌, ◌≡◌, refl, sym, ap, ◌∙◌, Bool, Bool-cases, true,
  false, ◌&&◌, ◌||◌, Option, none, some, List, [], ◌∷◌, ◌++◌, arith, leb, ◌==◌, inl, inr,
  if◌then◌else◌, get_elem?, map, All,
}
use gsky.Prelude.Result.{ok}
use gsky.Indexer.Axes.{Coords, enum, default, Picked, DatasetAxis, GeoTileAxis, pick}
use gsky.Indexer.Indices.{is_in}
use gsky.Indexer.Chosen.{Looks}
use gsky.Indexer.Range.{
  last_of, pick_between, is_wanted, pick_times, is_empty, do_selection_by_range,
}

abbrev pub IsIncreasing : List ℕ → Type 0
IsIncreasing [] = Unit
IsIncreasing (i ∷ is) = All (λ j. i < j) is × IsIncreasing is

if_ap :
    {A B : Type 0} (f : A → B) (b : Bool) (x y : A)
    → f (if b then x else y) ≡ (if b then f x else f y)
if_ap f true x y = refl
if_ap f false x y = refl

module _ {A : Type 0} (test : A → Bool) where
  abbrev pub holds : Option A → Bool
  holds none = false
  holds (some x) = test x

  -- The places, from i on, of the entries that pass the test, and these entries.
  unfoldable pub positions : ℕ → List A → List ℕ
  positions i [] = []
  positions i (x ∷ xs) = let rest = positions (i + 1) xs in if test x then i ∷ rest else rest

  unfoldable pub keep : List A → List A
  keep [] = []
  keep (x ∷ xs) = let rest = keep xs in if test x then x ∷ rest else rest

  positions-above : (m i : ℕ) (xs : List A) → m < i → All (λ j. m < j) (positions i xs)
  unfolding positions
  positions-above m i [] h = record {}
  positions-above m i (x ∷ xs) h = elim (Bool-cases (test x)) [
    | inl e ↦ rw e (h, positions-above m (i + 1) xs (omega arith))
    | inr e ↦ rw e (positions-above m (i + 1) xs (omega arith))
  ]

  pub positions-IsIncreasing : (i : ℕ) (xs : List A) → IsIncreasing (positions i xs)
  unfolding positions
  positions-IsIncreasing i [] = record {}
  positions-IsIncreasing i (x ∷ xs) = elim (Bool-cases (test x)) [
    | inl e ↦ rw e (positions-above i (i + 1) xs (omega arith), positions-IsIncreasing (i + 1) xs)
    | inr e ↦ rw e (positions-IsIncreasing (i + 1) xs)
  ]

  pub positions-is_in :
      (j i : ℕ) (xs : List A) → is_in j (positions i xs) ≡ leb i j && holds (get_elem? xs (j - i))
  unfolding positions is_in
  positions-is_in j i [] = sym (and-false (leb i j))
  positions-is_in j i (x ∷ xs) = elim (Bool-cases (leb i j)) [
    | inr before ↦
        let later : leb (i + 1) j ≡ false = ground arith in
        let other : (j == i) ≡ false = ground arith in
        let out : is_in j (positions (i + 1) xs) ≡ false =
          rw (positions-is_in j (i + 1) xs, later) refl in
        rw before (elim (Bool-cases (test x)) [ inl e ↦ rw (e, other) out | inr e ↦ rw e out ])
    | inl from ↦ elim (Bool-cases (j == i)) [
      | inl here ↦
          let later : leb (i + 1) j ≡ false = ground arith in
          let at : j - i ≡ 0 = ground arith in
          rw (from, at)
            (elim (Bool-cases (test x)) [
              | inl e ↦ rw (e, here) refl
              | inr e ↦ rw (e, positions-is_in j (i + 1) xs, later) refl
            ])
      | inr beyond ↦
          let later : leb (i + 1) j ≡ true = ground arith in
          let at : j - i ≡ suc (j - (i + 1)) = ground arith in
          let rest : is_in j (positions (i + 1) xs) ≡ holds (get_elem? xs (j - (i + 1))) =
            rw (positions-is_in j (i + 1) xs, later) refl in
          rw (from, at)
            (elim (Bool-cases (test x)) [ inl e ↦ rw (e, beyond) rest | inr e ↦ rw e rest ])
    ]
  ]

  pub positions-is_in_all :
      (j : ℕ) (xs : List A) → is_in j (positions 0 xs) ≡ holds (get_elem? xs j)
  positions-is_in_all j xs =
      let from : leb 0 j ≡ true = ground arith in
      let at : j - 0 ≡ j = omega arith in positions-is_in j 0 xs ∙ rw (from, at) refl

  module _ (co : Coords) (f : A → co.F) where
    pub positions-Looks :
        (params : List co.F) (i : ℕ) (xs : List A)
        → ((k : ℕ) (x : A) → get_elem? xs k ≡ some x → get_elem? params (i + k) ≡ some (f x))
        → Looks co params (positions i xs) (map f (keep xs))
    unfolding positions keep
    positions-Looks params i [] h = record {}
    positions-Looks params i (x ∷ xs) h =
        let rest =
          positions-Looks params (i + 1) xs
            (λ k y e. ap (get_elem? params) (omega arith) ∙ h (suc k) y e) in
        elim (Bool-cases (test x)) [
          | inl e ↦ rw e (ap (get_elem? params) (omega arith) ∙ h 0 x refl, rest)
          | inr e ↦ rw e rest
        ]

    -- What was picked after the entries from the place i on.
    abbrev pub add_all : ℕ → List A → Picked co → Picked co
    add_all i xs p = record { idx = p.idx ++ positions i xs; values = p.values ++ map f (keep xs) }

    add_all-none : (i : ℕ) (p : Picked co) → p ≡ add_all i [] p
    unfolding positions keep
    add_all-none i p = rw (append-nil p.idx, append-nil p.values) refl

    add_all-step :
        (i : ℕ) (x : A) (xs : List A) (p : Picked co)
        → add_all (i + 1) xs (if test x then pick co i (f x) p else p) ≡ add_all i (x ∷ xs) p
    unfolding positions keep
    add_all-step i x xs p = elim (Bool-cases (test x)) [
      | inl e ↦
          rw
            (
              e,
              append_assoc p.idx (i ∷ []) (positions (i + 1) xs),
              append_assoc p.values (f x ∷ []) (map f (keep xs)),
            )
            refl
      | inr e ↦ rw e refl
    ]

module _ (co : Coords) where
  open co use {F, lt, le, of_time}

  pick_between-positions :
      (start end : F) (i : ℕ) (params : List F) (p : Picked co)
      → pick_between co start end i params p
        ≡ add_all (λ v. le start v && lt v end) co (λ v. v) i params p
  unfolding pick_between
  pick_between-positions start end i [] p =
      add_all-none (λ v. le start v && lt v end) co (λ v. v) i p
  pick_between-positions start end i (v ∷ params) p =
      sym (
        if_ap (λ q. pick_between co start end (i + 1) params q) (le start v && lt v end)
          (pick co i v p) p)
      ∙ pick_between-positions start end (i + 1) params
          (if le start v && lt v end then pick co i v p else p)
      ∙ add_all-step (λ w. le start w && lt w end) co (λ w. w) i v params p

  pick_times-positions :
      (start : ℕ) (end : Option ℕ) (i : ℕ) (times : List ℕ) (p : Picked co)
      → pick_times co (some start) end i times p
        ≡ some (add_all (is_wanted co start end) co of_time i times p)
  unfolding pick_times
  pick_times-positions start end i [] p =
      ap some (add_all-none (is_wanted co start end) co of_time i p)
  pick_times-positions start end i (t ∷ times) p =
      sym (
        if_ap (λ q. pick_times co (some start) end (i + 1) times q) (is_wanted co start end t)
          (pick co i (of_time t) p) p)
      ∙ pick_times-positions start end (i + 1) times
          (if is_wanted co start end t then pick co i (of_time t) p else p)
      ∙ ap some (add_all-step (is_wanted co start end) co of_time i t times p)

  -- For an "enum" axis on which nothing is picked yet, a start and an end but no values, when the end
  -- is not below the first parameter and the start not above the last: `doSelectionByRange` succeeds,
  -- the axis is not out of range, and what it picks is, in increasing order, each index with its own
  -- parameter, where an index is picked just when its parameter is not below the start and is below
  -- the end.
  pub do_selection_by_range-between :
      (axis : DatasetAxis co) (ta : GeoTileAxis co) (start_time end_time : Option ℕ)
      (times : List ℕ) (first : F) (params : List F) (start end : F)
      → axis.grid ≡ enum
      → axis.params ≡ first ∷ params
      → axis.picked ≡ record { idx = []; values = [] }
      → ta.in_values ≡ []
      → ta.start ≡ some start
      → ta.stop ≡ some end
      → lt end first || lt (last_of co first params) start ≡ false
      → (p : Picked co) × (do_selection_by_range co axis ta start_time end_time times
          ≡ ok (false, p))
        × Looks co (first ∷ params) p.idx p.values
        × IsIncreasing p.idx
        × ((j : ℕ)
            → is_in j p.idx ≡ holds (λ v. le start v && lt v end) (get_elem? (first ∷ params) j))
  unfolding do_selection_by_range
  do_selection_by_range-between axis ta start_time end_time times first params start end grid all
        fresh vs s e near =
      let test : F → Bool = λ v. le start v && lt v end in
      let p : Picked co =
        add_all test co (λ v. v) 0 (first ∷ params) (record { idx = []; values = [] }) in
      (
        p,
        rw (grid, all, fresh, vs, s, e, near)
            (ap (λ q. ok (false, q))
              (pick_between-positions start end 0 (first ∷ params)
                (record { idx = []; values = [] }))),
        positions-Looks test co (λ v. v) (first ∷ params) 0 (first ∷ params)
            (λ k x at. ap (get_elem? (first ∷ params)) (omega arith) ∙ at),
        positions-IsIncreasing test 0 (first ∷ params),
        λ j. positions-is_in_all test j (first ∷ params),
      )

  -- For a "default" axis on which nothing is picked yet and a request with a start: the selection
  -- succeeds, and what it picks is, in increasing order, each index with its own time, where an index
  -- is picked just when its time is the start, the end, or between them (with no end, the start). The
  -- axis is out of range just when nothing is picked.
  pub do_selection_by_range-times :
      (axis : DatasetAxis co) (ta : GeoTileAxis co) (start : ℕ) (end_time : Option ℕ)
      (times : List ℕ)
      → axis.grid ≡ default
      → axis.picked ≡ record { idx = []; values = [] }
      → (p : Picked co) × (do_selection_by_range co axis ta (some start) end_time times
          ≡ ok (is_empty co p.idx, p))
        × Looks co (map of_time times) p.idx p.values
        × IsIncreasing p.idx
        × ((j : ℕ) → is_in j p.idx ≡ holds (is_wanted co start end_time) (get_elem? times j))
  unfolding do_selection_by_range
  do_selection_by_range-times axis ta start end_time times grid fresh =
      let test : ℕ → Bool = is_wanted co start end_time in
      let none_yet : Picked co = record { idx = []; values = [] } in
      let p : Picked co = add_all test co of_time 0 times none_yet in
      (
        p,
        rw (grid, fresh, pick_times-positions start end_time 0 times none_yet) refl,
        positions-Looks test co of_time (map of_time times) 0 times (λ k x at.
            ap (get_elem? (map of_time times)) (omega arith) ∙ get_elem?-map of_time times k x at),
        positions-IsIncreasing test 0 times,
        λ j. positions-is_in_all test j times,
      )
