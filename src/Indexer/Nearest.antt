-- ===== src/Indexer/Nearest.antt =====
-- The values of a request on an axis whose parameters are not ascending.
use mathlib.Core.List.{append_assoc, append-nil}
use gsky.Prelude.{
  ℕ, suc, ◌+◌, ◌≡◌, refl, ap, ◌∙◌, Bool-cases, true, false, ◌⊎◌, Option, none, some, List, [], ◌∷◌,
  ◌++◌, arith, inl, inr, get_elem?, All,
}
use gsky.Prelude.Result.{ok}
use gsky.Indexer.Axes.{Coords, enum, Picked, DatasetAxis, GeoTileAxis, pick}
use gsky.Indexer.Chosen.{Looks}
use gsky.Indexer.Range.{
  Spread, spread_of, last_of, in_bounds, nearest, match_nearest, select_values,
  do_selection_by_range,
}

module _ (co : Coords) where
  open co use {F, lt, distance, max_float}

  -- No parameter is nearer to the value.
  abbrev pub IsNearest : F → List F → F → Type 0
  IsNearest val params v = All (λ w. lt (distance w val) (distance v val) ≡ false) params

  -- Each index is that of a parameter nearest to its value.
  abbrev pub AreNearest : List F → List F → List ℕ → Type 0
  AreNearest params [] [] = Unit
  AreNearest params (val ∷ vals) (i ∷ is) =
      ((v : F) × (get_elem? params i ≡ some v) × IsNearest val params v) × AreNearest params vals is
  AreNearest params _ _ = ⊥

  -- The spread that `doSelectionByRange` finds.
  abbrev pub spread : F → List F → Spread co
  spread first params =
      spread_of co none (first ∷ params)
        (record { min_val = first; max_val = last_of co first params; is_monotonic = true })

  module _ (lt_irrefl : (a : F) → lt a a ≡ false)
      (lt_trans : (a b c : F) → lt a b ≡ true → lt b c ≡ true → lt a c ≡ true)
      (params : List F) where
    -- b is c or less than it.
    abbrev AtMost : F → F → Type 0
    AtMost b c = (b ≡ c) ⊎ (lt b c ≡ true)

    still_not : (a b c : F) → lt a c ≡ false → AtMost b c → lt a b ≡ false
    still_not a b c h (inl e) = ap (lt a) e ∙ h
    still_not a b c h (inr e) = elim (Bool-cases (lt a b)) [
      | inl less ↦ (let e' = lt_trans a b c less e in absurd (cc))
      | inr not_less ↦ not_less
    ]

    none_nearer :
        (val b c : F) (ps : List F)
        → AtMost b c
        → All (λ w. lt (distance w val) c ≡ false) ps
        → All (λ w. lt (distance w val) b ≡ false) ps
    none_nearer val b c [] h all = record {}
    none_nearer val b c (w ∷ ps) h (hw, all) =
        (still_not (distance w val) b c hw h, none_nearer val b c ps h all)

    -- From the place iv on, once a parameter was taken.
    nearest-from :
        (val : F) (iv : ℕ) (rest : List F) (i : ℕ) (v : F)
        → ((k : ℕ) → get_elem? params (iv + k) ≡ get_elem? rest k)
        → get_elem? params i ≡ some v
        → (j : ℕ) × (w : F) × (nearest co val iv rest (distance v val) i v ≡ (j, w))
          × (get_elem? params j ≡ some w)
          × IsNearest val rest w
          × AtMost (distance w val) (distance v val)
    unfolding nearest
    nearest-from val iv [] i v place at = (i, v, refl, at, record {}, inl refl)
    nearest-from val iv (pv ∷ rest) i v place at =
        elim (Bool-cases (lt (distance pv val) (distance v val))) [
          | inl less ↦
              let (j, w, run, there, all, most) =
                nearest-from val (iv + 1) rest iv pv next
                  (ap (get_elem? params) (omega arith) ∙ place 0) in
              (
                j,
                w,
                rw less run,
                there,
                (
                  still_not (distance pv val) (distance w val) (distance pv val)
                      (lt_irrefl (distance pv val)) most,
                  all,
                ),
                inr (elim most [
                  | inl e ↦ ap (λ d. lt d (distance v val)) e ∙ less
                  | inr e ↦ lt_trans _ _ _ e less
                ]),
              )
          | inr not_less ↦
              let (j, w, run, there, all, most) = nearest-from val (iv + 1) rest i v next at in
              (
                j,
                w,
                rw not_less run,
                there,
                (still_not (distance pv val) (distance w val) (distance v val) not_less most, all),
                most,
              )
        ]
      where
        next : (k : ℕ) → get_elem? params (iv + 1 + k) ≡ get_elem? rest k
        next k = ap (get_elem? params) (omega arith) ∙ place (suc k)

  module _ (lt_irrefl : (a : F) → lt a a ≡ false)
      (lt_trans : (a b c : F) → lt a b ≡ true → lt b c ≡ true → lt a c ≡ true) (first : F)
      (params : List F) where
    first-nearest :
        (val : F)
        → lt (distance first val) max_float ≡ true
        → (j : ℕ) × (w : F) × (nearest co val 0 (first ∷ params) max_float 0 first ≡ (j, w))
          × (get_elem? (first ∷ params) j ≡ some w)
          × IsNearest val (first ∷ params) w
    unfolding nearest
    first-nearest val h =
        let (j, w, run, there, all, most) =
          nearest-from lt_irrefl lt_trans (first ∷ params) val 1 params 0 first
            (λ k. let e : 1 + k ≡ suc k = omega arith in ap (get_elem? (first ∷ params)) e) refl in
        (
          j,
          w,
          rw h run,
          there,
          (
            still_not lt_irrefl lt_trans (first ∷ params) (distance first val) (distance w val)
                (distance first val) (lt_irrefl (distance first val)) most,
            all,
          ),
        )

    match_nearest-AreNearest :
        (vals : List F) (p : Picked co)
        → All (λ val. lt (distance first val) max_float ≡ true) vals
        → (is : List ℕ) × (ws : List F) × (match_nearest co first params vals p
            ≡ record { idx = p.idx ++ is; values = p.values ++ ws })
          × AreNearest (first ∷ params) vals is
          × Looks co (first ∷ params) is ws
    unfolding match_nearest
    match_nearest-AreNearest [] p h =
        ([], [], rw (append-nil p.idx, append-nil p.values) refl, record {}, record {})
    match_nearest-AreNearest (val ∷ vals) p (hv, h) =
        let (j, w, run, there, near) = first-nearest val hv in
        let (is, ws, runs, all, looks) = match_nearest-AreNearest vals (pick co j w p) h in
        (
          j ∷ is,
          w ∷ ws,
          rw (run, runs, append_assoc p.idx (j ∷ []) is, append_assoc p.values (w ∷ []) ws) refl,
          ((w, there, near), all),
          (there, looks),
        )

    -- For an "enum" axis whose parameters are not in ascending order, on which nothing is picked yet,
    -- and a request with values, some of which are within the bounds of the parameters:
    -- `doSelectionByRange` picks, for each of those values in their order, an index of a parameter to
    -- which no other is nearer. The order of the floats is irreflexive and transitive on the values
    -- that occur, and the first parameter is less than the greatest float away from each value.
    pub do_selection_by_range-nearest :
        (axis : DatasetAxis co) (ta : GeoTileAxis co) (start_time end_time : Option ℕ)
        (times : List ℕ) (v : F) (vs : List F) (val : F) (vals : List F)
        → axis.grid ≡ enum
        → axis.params ≡ first ∷ params
        → axis.picked ≡ record { idx = []; values = [] }
        → ta.in_values ≡ v ∷ vs
        → (spread first params).is_monotonic ≡ false
        → in_bounds co (spread first params) (v ∷ vs) ≡ val ∷ vals
        → All (λ w. lt (distance first w) max_float ≡ true) (val ∷ vals)
        → (p : Picked co) × (do_selection_by_range co axis ta start_time end_time times
            ≡ ok (false, p))
          × AreNearest (first ∷ params) (val ∷ vals) p.idx
          × Looks co (first ∷ params) p.idx p.values
    unfolding do_selection_by_range select_values
    do_selection_by_range-nearest axis ta start_time end_time times v vs val vals grid all fresh
          asked mixed kept far =
        let none_yet : Picked co = record { idx = []; values = [] } in
        let (is, ws, run, near, looks) = match_nearest-AreNearest (val ∷ vals) none_yet far in
        (
          record { idx = is; values = ws },
          rw (grid, all, fresh, asked, kept, mixed, run) refl,
          near,
          looks,
        )
