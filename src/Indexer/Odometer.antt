-- ===== src/Indexer/Odometer.antt =====
-- The loop over the counters passes every combination of the axes, in order.
use native.Mathlib.Nat.{zero-mul}
use gsky.Prelude.{
  ℕ, zero, suc, ◌+◌, ◌≤◌, ◌<◌, ◌≡◌, refl, sym, ap, ap₂, subst, ◌∙◌, ltb→lt, Bool, Bool-cases, true,
  false, Option, some, List, [], ◌∷◌, ◌++◌, arith, ltb, ◌==◌, inl, inr, if◌then◌else◌, length,
  get_elem?, get_elem?-some, All, Bytes,
}
use gsky.Indexer.Axes.{Coords, DatasetAxis}
use gsky.Indexer.Rank.{axes_of, Inside, rank, rank-lt, advance-rank, rank-over}
use gsky.Indexer.Granules.{
  Wheel, size, combinations, Sums, time_place, sum_wheels, axes_name, has_non_agg, Granule, Names,
  Found, find, add_name, granules, start_wheels, granules_of,
}

module _ (co : Coords) where
  -- Each index that was picked has its value.
  abbrev pub Paired : List (DatasetAxis co) → Type 0
  Paired axes = All (λ a. length a.picked.values ≡ length a.picked.idx) axes

  start-axes : (axes : List (DatasetAxis co)) → axes_of co (start_wheels co axes) ≡ axes
  unfolding start_wheels
  start-axes [] = refl
  start-axes (axis ∷ axes) = ap (λ rest. axis ∷ rest) (start-axes axes)

  start-rank : (axes : List (DatasetAxis co)) → rank co (start_wheels co axes) ≡ 0
  unfolding start_wheels rank
  start-rank [] = refl
  start-rank (axis ∷ axes) =
      rw (start-rank axes)
        (omega (arith, zero-mul (combinations co (axes_of co (start_wheels co axes)))))

  start-Inside :
      (axes : List (DatasetAxis co))
      → All (λ a. 0 < length a.picked.idx) axes
      → Inside co (start_wheels co axes)
  unfolding start_wheels
  start-Inside [] h = record {}
  start-Inside (axis ∷ axes) (ha, h) = (ha, start-Inside axes h)

  sum_wheels-some :
      (wheels : List (Wheel co)) (s : Sums co)
      → Inside co wheels
      → Paired (axes_of co wheels)
      → (s' : Sums co) × (sum_wheels co wheels s ≡ some s')
  unfolding sum_wheels
  sum_wheels-some [] s h p = (s, refl)
  sum_wheels-some (w ∷ wheels) s (hw, h) (pw, p) =
      let (i, ei) = get_elem?-some w.axis.picked.idx w.count hw in
      let (v, ev) = get_elem?-some w.axis.picked.values w.count (omega (arith, pw)) in
      let (u, eu) = get_elem?-some w.axis.picked.values (time_place co w) (ground (arith, pw)) in
      let (s', run) =
        sum_wheels-some wheels
          (record {
            band_idx = s.band_idx + i;
            band_time_stamp = co.add s.band_time_stamp v;
            agg_time_stamp = co.add s.agg_time_stamp u;
          })
          h p in
      (s', rw (ei, ev, eu) run)

  module _ (readable : Bytes → co.F → Bytes) where
    axes_name-some :
        (is_first : Bool) (wheels : List (Wheel co))
        → Inside co wheels
        → Paired (axes_of co wheels)
        → (name : Bytes) × (axes_name co readable is_first wheels ≡ some name)
    unfolding axes_name
    axes_name-some is_first [] h p = ([], refl)
    axes_name-some is_first (w ∷ wheels) (hw, h) (pw, p) =
        let (v, ev) = get_elem?-some w.axis.picked.values w.count (omega (arith, pw)) in
        let (rest, run) = axes_name-some false wheels h p in
        let (name, runs) = axes_name-some is_first wheels h p in
        elim (Bool-cases (w.axis.aggregate == 0)) [
          | inl e ↦ (
            (if is_first then b'#' else b',')
                ∷ (w.axis.name ++ (b'=' ∷ (readable w.axis.name v ++ rest))),
            rw (e, ev, run) refl,
          )
          | inr e ↦ (name, rw e runs)
        ]

    find-some :
        (ds_name : Bytes) (is_empty_tile : Bool) (wheels : List (Wheel co))
        → Inside co wheels
        → Paired (axes_of co wheels)
        → (f : Found co readable) × (find co readable ds_name is_empty_tile wheels ≡ some f)
    unfolding find
    find-some ds_name is_empty_tile wheels h p =
        let (s, sums) =
          sum_wheels-some wheels
            (record { band_idx = 1; band_time_stamp = co.zero_f; agg_time_stamp = co.zero_f }) h
            p in
        let (name, named) = axes_name-some true wheels h p in
        (
          record {
            granule = record {
              namespace = ds_name ++ name;
              time_stamp = s.agg_time_stamp;
              band_idx = s.band_idx;
              is_null = is_empty_tile;
            };
            band_time_stamp = s.band_time_stamp;
            non_agg = has_non_agg co readable wheels;
          },
          rw (sums, named) refl,
        )

    -- The granule at place k is that of the combination of the axes whose place is k.
    abbrev pub At : Bytes → List (DatasetAxis co) → ℕ → Option (Granule co readable) → Type 0
    At ds_name axes k g =
        (wheels : List (Wheel co)) × (f : Found co readable) × (axes_of co wheels ≡ axes)
        × Inside co wheels
        × (rank co wheels ≡ k)
        × (find co readable ds_name false wheels ≡ some f)
        × (g ≡ some f.granule)

    At-cons :
        (ds_name : Bytes) (axes : List (DatasetAxis co)) (n m : ℕ) (g : Granule co readable)
        (gs : List (Granule co readable))
        → At ds_name axes (n + 0) (some g)
        → m ≡ suc n
        → ((k : ℕ) → k < length gs → At ds_name axes (m + k) (get_elem? gs k))
        → (k : ℕ) → k < length (g ∷ gs)
        → At ds_name axes (n + k) (get_elem? (g ∷ gs) k)
    At-cons ds_name axes n m g gs first e rest zero h = first
    At-cons ds_name axes n m g gs first e rest (suc k) h =
        let (wheels, f, same, inside, place, found, at) = rest k (omega arith) in
        (wheels, f, same, inside, place ∙ omega arith, found, at)

    granules-At :
        (fuel : ℕ) (ds_name : Bytes) (axes : List (DatasetAxis co)) (w : Wheel co)
        (wheels : List (Wheel co)) (names : Names co readable)
        → axes_of co (w ∷ wheels) ≡ axes
        → Inside co wheels
        → Paired axes
        → combinations co axes < rank co (w ∷ wheels) + fuel
        → rank co (w ∷ wheels) ≤ combinations co axes
        → (gs : List (Granule co readable)) × (names' : Names co readable) × (granules co readable
              fuel ds_name false
              (w ∷ wheels)
              names
            ≡ some (gs, names'))
          × (length gs + rank co (w ∷ wheels) ≡ combinations co axes)
          × ((k : ℕ) → k < length gs → At ds_name axes (rank co (w ∷ wheels) + k) (get_elem? gs k))
    unfolding granules
    granules-At zero ds_name axes w wheels names same h p q r = absurd (omega arith)
    granules-At (suc fuel) ds_name axes w wheels names same h p q r =
        elim (Bool-cases (ltb w.count (size co w))) [
          | inr over ↦
              let full : combinations co axes ≤ rank co (w ∷ wheels) =
                subst (λ as'. combinations co as' ≤ rank co (w ∷ wheels)) same
                  (rank-over co w wheels (ground arith)) in
              ([], names, rw over refl, omega arith, λ k l. absurd (omega arith))
          | inl on ↦
              let hw : w.count < size co w = ltb→lt _ _ on in
              let (f, found) =
                find-some ds_name false (w ∷ wheels) (hw, h) (subst Paired (sym same) p) in
              let (w', wheels', moved, a, b, h', next) = advance-rank co w wheels (hw, h) in
              let below : rank co (w ∷ wheels) < combinations co axes =
                subst (λ as'. rank co (w ∷ wheels) < combinations co as') same
                  (rank-lt co (w ∷ wheels) (hw, h)) in
              let (rest, names', run, count, each) =
                granules-At fuel ds_name axes w' wheels' (add_name co readable f names)
                  (ap₂ (λ x y. x ∷ y) a b ∙ same) h' p (omega (arith, next))
                  (omega (arith, next)) in
              (
                f.granule ∷ rest,
                names',
                rw (on, found, moved, run) refl,
                omega (arith, next, count),
                At-cons ds_name axes (rank co (w ∷ wheels)) (rank co (w' ∷ wheels')) f.granule rest
                    (w ∷ wheels, f, same, (hw, h), omega arith, found, refl) next each,
              )
        ]

    -- For a file whose axes have a value for each picked index, and of which no axis but the first is
    -- without a picked index, and a tile that is not the empty one: the loop over the counters ends without a panic with one granule for each
    -- combination of a picked index of every axis, and the granule at place k is that of the
    -- combination whose counters are the digits of k, the last axis' the lowest.
    pub granules_of-combinations :
        (ds_name : Bytes) (axis : DatasetAxis co) (axes : List (DatasetAxis co))
        (names : Names co readable)
        → Paired (axis ∷ axes)
        → All (λ a. 0 < length a.picked.idx) axes
        → (gs : List (Granule co readable)) × (names' : Names co readable) × (granules_of co
              readable ds_name false
              (axis ∷ axes)
              names
            ≡ some (gs, names'))
          × (length gs ≡ combinations co (axis ∷ axes))
          × ((k : ℕ)
              → k < combinations co (axis ∷ axes)
              → At ds_name (axis ∷ axes) k (get_elem? gs k))
    unfolding start_wheels
    granules_of-combinations ds_name axis axes names p some_picked =
        let w : Wheel co = record { axis = axis; count = 0 } in
        let wheels = start_wheels co axes in
        let zero_rank : rank co (w ∷ wheels) ≡ 0 = start-rank (axis ∷ axes) in
        let (gs, names', run, count, each) =
          granules-At (suc (combinations co (axis ∷ axes))) ds_name (axis ∷ axes) w wheels names
            (ap (λ rest. axis ∷ rest) (start-axes axes)) (start-Inside axes some_picked) p
            (omega (arith, zero_rank)) (omega (arith, zero_rank)) in
        (
          gs,
          names',
          run,
          omega (arith, count, zero_rank),
          λ k h.
              subst (λ n. At ds_name (axis ∷ axes) n (get_elem? gs k)) (omega (arith, zero_rank))
                (each k (omega (arith, count, zero_rank))),
        )
