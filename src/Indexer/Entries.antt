-- ===== src/Indexer/Entries.antt =====
-- The selection on the axes of a file that a request does not name.
use mathlib.Core.List.{append_assoc, append-nil}
use gsky.Prelude.{
  take, ◌++◌, zero, ℕ, suc, ◌+◌, ◌*◌, ◌<◌, ◌≡◌, refl, sym, ap, ap₂, subst, ◌∙◌, Bool-cases, false,
  Option, List, [], ◌∷◌, map, arith, ◌==◌, inl, inr, if◌then◌else◌, length, length-append,
  length-map, All,
}
use gsky.Prelude.Result.{ok, or_panic, ◌>>=◌}
use gsky.Indexer.Axes.{Coords, Grid, enum, default, unknown, Picked, DatasetAxis, pick}
use gsky.Indexer.Granules.{combinations}
use gsky.Indexer.Odometer.{Paired}
use gsky.Indexer.Files.{
  ParamsLookup, pick_all, by_grid, every, select_unnamed, stride_all, strided, first_only,
  find_named, select_axes,
}

abbrev pub upto : ℕ → ℕ → List ℕ
upto i zero = []
upto i (suc n) = i ∷ upto (i + 1) n

unfoldable pub product : List ℕ → ℕ
product [] = 1
product (n ∷ ns) = n * product ns

module _ (co : Coords) where
  open co use {F, of_time}

  -- How many entries of an axis are read.
  abbrev pub entries : ℕ → List ℕ → DatasetAxis co → ℕ
  entries axis_mapping times axis =
      if axis_mapping == 0 then 1 else by_grid co axis.grid (length axis.params) (length times) 0

  -- The values of the entries that are read: the axis' own, or the times of the file.
  abbrev pub entry_values : ℕ → List ℕ → DatasetAxis co → List F
  entry_values axis_mapping times axis =
      let vs = by_grid co axis.grid axis.params (map of_time times) [] in
      if axis_mapping == 0 then take 1 vs else vs

  abbrev pub ordered : ℕ → DatasetAxis co → DatasetAxis co
  ordered axis_mapping axis =
      if axis_mapping == 0 then record axis { order = 1; aggregate = 1 } else axis

  abbrev pub first_stride : List ℕ → ℕ
  first_stride [] = 0
  first_stride (s ∷ strides) = s

  -- The axis with the entries that are read, the first of them or all, each with its value.
  abbrev unstrided : ℕ → List ℕ → DatasetAxis co → DatasetAxis co
  unstrided axis_mapping times axis = record (ordered axis_mapping axis) {
    picked = record {
      idx = upto 0 (length (entry_values axis_mapping times axis));
      values = entry_values axis_mapping times axis;
    };
  }

  -- Their indices are multiplied by the stride of the axis.
  abbrev pub read_axis : ℕ → List ℕ → DatasetAxis co → DatasetAxis co
  read_axis axis_mapping times axis = record (ordered axis_mapping axis) {
    picked = record {
      idx =
          map (λ i. i * first_stride axis.strides)
            (upto 0 (length (entry_values axis_mapping times axis)));
      values = entry_values axis_mapping times axis;
    };
  }

  pick_all-upto :
      (i : ℕ) (vs : List F) (p : Picked co)
      → pick_all co i vs p ≡ record { idx = p.idx ++ upto i (length vs); values = p.values ++ vs }
  unfolding pick_all
  pick_all-upto i [] p =
      ap₂ (λ is us. record { idx = is; values = us }) (sym (append-nil p.idx))
        (sym (append-nil p.values))
  pick_all-upto i (v ∷ vs) p =
      pick_all-upto (i + 1) vs (pick co i v p)
      ∙ ap₂ (λ is us. record { idx = is; values = us })
          (append_assoc p.idx (i ∷ []) (upto (i + 1) (length vs)))
          (append_assoc p.values (v ∷ []) vs)

  every-upto :
      (axis : DatasetAxis co) (vs : List F)
      → axis.picked ≡ record { idx = []; values = [] }
      → every co axis vs ≡ record axis { picked = record { idx = upto 0 (length vs); values = vs } }
  every-upto axis vs fresh =
      ap (λ p. record axis { picked = p })
        (ap (pick_all co 0 vs) fresh ∙ pick_all-upto 0 vs (record { idx = []; values = [] }))

  -- Nothing is picked yet, there is a stride, and there is an entry.
  abbrev pub IsReady : List ℕ → DatasetAxis co → Type 0
  IsReady times axis =
      (axis.picked ≡ record { idx = []; values = [] })
      × ((0 < length axis.strides)
          × (0 < by_grid co axis.grid (length axis.params) (length times) 0))

  -- So many entries were picked, each with its value.
  abbrev Holds : ℕ → DatasetAxis co → Type 0
  Holds n axis = (length axis.picked.idx ≡ n) × (length axis.picked.values ≡ n)

  pick_all-length :
      (i : ℕ) (vs : List F) (p : Picked co)
      → (length (pick_all co i vs p).idx ≡ length p.idx + length vs)
        × (length (pick_all co i vs p).values ≡ length p.values + length vs)
  unfolding pick_all
  pick_all-length i [] p = (omega arith, omega arith)
  pick_all-length i (v ∷ vs) p =
      let (a, b) = pick_all-length (i + 1) vs (pick co i v p) in
      (
        omega (arith, a, length-append p.idx (i ∷ [])),
        omega (arith, b, length-append p.values (v ∷ [])),
      )

  every-Holds :
      (axis : DatasetAxis co) (vs : List F)
      → axis.picked ≡ record { idx = []; values = [] }
      → Holds (length vs) (every co axis vs)
  every-Holds axis vs fresh =
      let (a, b) = pick_all-length 0 vs (record { idx = []; values = [] }) in
      rw fresh (omega (arith, a), omega (arith, b))

  -- What the selection leaves of an axis that the request does not name.
  abbrev Leaves : ℕ → List ℕ → DatasetAxis co → Type 0
  Leaves axis_mapping times axis =
      (axis' : DatasetAxis co) × (select_unnamed co axis_mapping times axis ≡ ok axis')
      × Holds (entries axis_mapping times axis) axis'
      × (axis'.strides ≡ axis.strides)
      × (axis' ≡ unstrided axis_mapping times axis)

  first_only-Holds :
      (axis : DatasetAxis co) (v : F)
      → axis.picked ≡ record { idx = []; values = [] }
      → Holds 1 (first_only co axis v)
  first_only-Holds axis v fresh = rw fresh (refl, refl)

  entries-Holds :
      (axis_mapping : ℕ) (times : List ℕ) (axis axis' : DatasetAxis co) (n : ℕ)
      → entries axis_mapping times axis ≡ n
      → Holds n axis'
      → Holds (entries axis_mapping times axis) axis'
  entries-Holds axis_mapping times axis axis' n e h = subst (λ k. Holds k axis') (sym e) h

  by_kind :
      (axis_mapping : ℕ) (times : List ℕ) (axis : DatasetAxis co) (grid : Grid) (params : List F)
      → axis.grid ≡ grid
      → axis.params ≡ params
      → axis.picked ≡ record { idx = []; values = [] }
      → 0 < by_grid co grid (length params) (length times) 0
      → Leaves axis_mapping times axis
  unfolding select_unnamed
  by_kind axis_mapping times axis enum [] g p fresh h = absurd (omega arith)
  by_kind axis_mapping times axis enum (v ∷ vs) g p fresh h =
      elim (Bool-cases (axis_mapping == 0)) [
        | inl e ↦ (
          first_only co axis v,
          rw (e, g, p) refl,
          entries-Holds axis_mapping times axis (first_only co axis v) 1 (rw e refl)
              (first_only-Holds axis v fresh),
          refl,
          rw (e, g, p, fresh) refl,
        )
        | inr e ↦ (
          every co axis (v ∷ vs),
          rw (e, g, p) refl,
          entries-Holds axis_mapping times axis (every co axis (v ∷ vs)) (length (v ∷ vs))
              (rw (e, g, p) refl) (every-Holds axis (v ∷ vs) fresh),
          refl,
          rw (e, g, p) (every-upto (record axis { params = v ∷ vs; grid = enum }) (v ∷ vs) fresh),
        )
      ]
  by_kind axis_mapping [] axis default params g p fresh h = absurd (omega arith)
  by_kind axis_mapping (t ∷ times) axis default params g p fresh h =
      elim (Bool-cases (axis_mapping == 0)) [
        | inl e ↦ (
          first_only co axis (of_time t),
          rw (e, g) refl,
          entries-Holds axis_mapping (t ∷ times) axis (first_only co axis (of_time t)) 1 (rw e refl)
              (first_only-Holds axis (of_time t) fresh),
          refl,
          rw (e, g, fresh) refl,
        )
        | inr e ↦
            let (a, b) = every-Holds axis (map of_time (t ∷ times)) fresh in
            let n : length (map of_time (t ∷ times)) ≡ length (t ∷ times) =
              length-map (t ∷ times) of_time in
            (
              every co axis (map of_time (t ∷ times)),
              rw (e, g) refl,
              entries-Holds axis_mapping (t ∷ times) axis (every co axis (map of_time (t ∷ times)))
                  (length (t ∷ times)) (rw (e, g) refl) (a ∙ n, b ∙ n),
              refl,
              rw (e, g)
                  (every-upto (record axis { grid = default }) (map of_time (t ∷ times)) fresh),
            )
      ]
  by_kind axis_mapping times axis unknown params g p fresh h = absurd (omega arith)

  strided-Holds :
      (n : ℕ) (axis : DatasetAxis co) (strides : List ℕ)
      → axis.strides ≡ strides
      → 0 < length strides
      → Holds n axis
      → (axis' : DatasetAxis co) × (strided co axis ≡ ok axis')
        × Holds n axis'
        × (axis' ≡ record axis {
          picked = record {
            idx = map (λ i. i * first_stride strides) axis.picked.idx;
            values = axis.picked.values;
          };
        })
  strided-Holds n axis [] e h holds = absurd (omega arith)
  strided-Holds n axis (s ∷ strides) e h (a, b) =
      let is = map (λ i. i * s) axis.picked.idx in
      (
        record axis { picked = record { idx = is; values = axis.picked.values } },
        ap
            (λ ss. or_panic (stride_all co ss axis.picked.idx) >>= λ js.
              ok (record axis { picked = record { idx = js; values = axis.picked.values } }))
            e,
        (length-map axis.picked.idx (λ i. i * s) ∙ a, b),
        refl,
      )

  pub select_axes-unnamed :
      (start end : Option ℕ) (axis_mapping : ℕ) (times : List ℕ) (axes : List (DatasetAxis co))
      (lookup : ParamsLookup co)
      → All (IsReady times) axes
      → (axes' : List (DatasetAxis co)) × (select_axes co
            (record { axes = []; start_time = start; end_time = end; axis_mapping = axis_mapping })
            times
            axes
            false
            lookup
          ≡ ok (lookup, (false, axes')))
        × Paired co axes'
        × (combinations co axes' ≡ product (map (entries axis_mapping times) axes))
        × All (λ a. 0 < length a.picked.idx) axes'
        × (length axes' ≡ length axes)
        × (axes' ≡ map (read_axis axis_mapping times) axes)
  unfolding select_axes find_named product combinations
  select_axes-unnamed start end axis_mapping times [] lookup h =
      ([], refl, record {}, refl, record {}, refl, refl)
  select_axes-unnamed start end axis_mapping times (axis ∷ axes) lookup
        ((fresh, (stride, entry)), h) =
      let (axis₁, one, holds, same, whole) =
        by_kind axis_mapping times axis axis.grid axis.params refl refl fresh entry in
      let (axis', two, (a, b), by_stride) =
        strided-Holds (entries axis_mapping times axis) axis₁ axis.strides same stride holds in
      let (axes', run, paired, count, picked, size, read) =
        select_axes-unnamed start end axis_mapping times axes lookup h in
      let some_entry : 0 < entries axis_mapping times axis = elim (Bool-cases (axis_mapping == 0)) [
        | inl e ↦ rw e (omega arith)
        | inr e ↦ rw e entry
      ] in
      (
        axis' ∷ axes',
        rw (one, two, run) refl,
        (b ∙ sym a, paired),
        ap₂ (λ n m. n * m) a count,
        (omega (arith, a, some_entry), picked),
        ap suc size,
        ap₂ (λ a rest. a ∷ rest)
            (by_stride
              ∙ ap {A = DatasetAxis co}
                  (λ a. record a {
                    picked = record {
                      idx = map (λ i. i * first_stride axis.strides) a.picked.idx;
                      values = a.picked.values;
                    };
                  })
                  whole)
            read,
      )
