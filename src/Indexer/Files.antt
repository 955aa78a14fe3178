-- ===== src/Indexer/Files.antt =====
-- `URLIndexGet` over the files of an answer: the selection on each axis, and the granules of the files
-- that are not out of range.
use gsky.Prelude.{
  ℕ, ◌+◌, ◌*◌, Bool, true, false, ◌&&◌, ◌||◌, Option, none, some, List, [], ◌∷◌, ◌++◌, map, ltb,
  ◌==◌, if◌then◌else◌, length, ◌>>=◌ as bind, Bytes, bytes_eq,
}
use gsky.Prelude.Result.{Result, ok, err, or_panic, ◌>>=◌}
use gsky.Indexer.Axes.{Coords, Grid, enum, default, unknown, Picked, DatasetAxis, GeoTileAxis, pick}
use gsky.Indexer.Indices.{do_selection_by_indices}
use gsky.Indexer.Range.{do_selection_by_range}
use gsky.Indexer.Granules.{Granule, Names, granules_of}

module _ (co : Coords) where
  open co use {F, eq, of_time}

  -- GDALDataset, as far as it is read here.
  pub record GdalDataset : Type 0 where
    pub namespace : Bytes
    pub time_stamps : List ℕ
    pub axes : List (DatasetAxis co)

  -- The fields of GeoTileRequest that are read here.
  pub record Request : Type 0 where
    pub axes : List (Bytes × GeoTileAxis co)
    pub start_time : Option ℕ
    pub end_time : Option ℕ
    pub axis_mapping : ℕ

  -- axisParamsLookup
  abbrev pub ParamsLookup : Type 0
  ParamsLookup = List (Bytes × List F)

  unfoldable pub find_named : {A : Type 0} → Bytes → List (Bytes × A) → Option A
  find_named name [] = none
  find_named name ((n, a) ∷ rest) =
      let later = find_named name rest in if bytes_eq n name then some a else later

  unfoldable pub has_value : F → List F → Bool
  has_value v [] = false
  has_value v (w ∷ ws) = eq v w || has_value v ws

  unfoldable pub all_known : List F → List F → Bool
  unfolding has_value
  all_known known [] = true
  all_known known (v ∷ vs) = has_value v known && all_known known vs

  abbrev pub check_params : Option (List F) → Bytes → List F → ParamsLookup → Result ParamsLookup
  check_params none name params lookup = ok (lookup ++ ((name, params) ∷ []))
  check_params (some known) name params lookup =
      if all_known known params
      then ok lookup
      else err "index-based selection only supports homogeneous axis across files"

  -- The request selects times by value or by index.
  abbrev pub by_value : GeoTileAxis co → Bool
  by_value ta =
      (elim ta.start [ none ↦ false | some _ ↦ elim ta.stop [ none ↦ true | some _ ↦ false ] ])
      || (ltb 0 (length ta.in_values) || ltb 0 (length ta.idx_selectors))

  abbrev pub time_name : Bytes
  time_name = b't' ∷ b'i' ∷ b'm' ∷ b'e' ∷ []

  abbrev pub prepared : List ℕ → GeoTileAxis co → DatasetAxis co → DatasetAxis co
  prepared times ta axis =
      let timed =
        if bytes_eq axis.name time_name && by_value ta
        then record axis { grid = enum; params = axis.params ++ map of_time times }
        else axis in
      record timed { order = ta.order; aggregate = ta.aggregate }

  -- A requested axis: the lookup, whether it is out of range, and the axis.
  unfoldable pub select_requested :
      Request
      → List ℕ
      → GeoTileAxis co
      → DatasetAxis co
      → ParamsLookup
      → Result (ParamsLookup × (Bool × DatasetAxis co))
  unfolding do_selection_by_indices do_selection_by_range all_known find_named
  select_requested req times ta axis lookup =
      let axis' = prepared times ta axis in
      if ltb 0 (length ta.idx_selectors)
      then (check_params (find_named axis'.name lookup) axis'.name axis'.params lookup
          >>= λ lookup'. do_selection_by_indices co axis' ta.idx_selectors >>= λ r.
              ok (lookup', (r.0, record axis' { picked = r.1 })))
      else do_selection_by_range co axis' ta req.start_time req.end_time times >>= λ r.
          ok (lookup, (r.0, record axis' { picked = r.1 }))

  -- All entries of an axis.
  unfoldable pub pick_all : ℕ → List F → Picked co → Picked co
  pick_all i [] p = p
  pick_all i (v ∷ vs) p = pick_all (i + 1) vs (pick co i v p)

  abbrev pub first_only : DatasetAxis co → F → DatasetAxis co
  first_only axis v = record axis { picked = pick co 0 v axis.picked; order = 1; aggregate = 1 }

  abbrev pub every : DatasetAxis co → List F → DatasetAxis co
  every axis vs = record axis { picked = pick_all 0 vs axis.picked }

  -- An axis that the request does not name: its first entry, or with an axis mapping all of them.
  abbrev pub first_of : DatasetAxis co → List F → Result (DatasetAxis co)
  first_of axis [] = err "Indexer error: empty params for 'enum' grid"
  first_of axis (v ∷ vs) = ok (first_only axis v)

  abbrev pub first_time : DatasetAxis co → List ℕ → Option (DatasetAxis co)
  first_time axis [] = none
  first_time axis (t ∷ times) = some (first_only axis (of_time t))

  abbrev pub every_of : DatasetAxis co → List F → Result (DatasetAxis co)
  every_of axis [] = err "Indexer error: empty params for 'enum' grid"
  every_of axis (v ∷ vs) = ok (every axis (v ∷ vs))

  abbrev pub by_grid : {A : Type 0} → Grid → A → A → A → A
  by_grid enum a b c = a
  by_grid default a b c = b
  by_grid unknown a b c = c

  unfoldable pub select_unnamed : ℕ → List ℕ → DatasetAxis co → Result (DatasetAxis co)
  unfolding pick_all
  select_unnamed axis_mapping times axis =
      let other : Result (DatasetAxis co) = err "Indexer error: unknown axis grid type" in
      if axis_mapping == 0
      then by_grid axis.grid (first_of axis axis.params) (or_panic (first_time axis times)) other
      else by_grid axis.grid (every_of axis axis.params) (ok (every axis (map of_time times))) other

  -- axis.IntersectionIdx[i] *= axis.Strides[0]
  abbrev pub stride_all : List ℕ → List ℕ → Option (List ℕ)
  stride_all [] [] = some []
  stride_all [] (i ∷ is) = none
  stride_all (s ∷ strides) is = some (map (λ i. i * s) is)

  abbrev pub strided : DatasetAxis co → Result (DatasetAxis co)
  strided axis = or_panic (stride_all axis.strides axis.picked.idx) >>= λ is.
      ok (record axis { picked = record { idx = is; values = axis.picked.values } })

  -- The loop over the axes of a file; the flag is that of the last axis that is requested.
  abbrev pub select_named :
      Request
      → List ℕ
      → Option (GeoTileAxis co)
      → DatasetAxis co
      → Bool
      → ParamsLookup
      → Result (ParamsLookup × (Bool × DatasetAxis co))
  select_named req times none axis out lookup =
      select_unnamed req.axis_mapping times axis >>= λ axis'. ok (lookup, (out, axis'))
  select_named req times (some ta) axis out lookup = select_requested req times ta axis lookup

  unfoldable pub select_axes :
      Request
      → List ℕ
      → List (DatasetAxis co)
      → Bool
      → ParamsLookup
      → Result (ParamsLookup × (Bool × List (DatasetAxis co)))
  unfolding select_requested select_unnamed find_named
  select_axes req times [] out lookup = ok (lookup, (out, []))
  select_axes req times (axis ∷ axes) out lookup =
      select_named req times (find_named axis.name req.axes) axis out lookup >>= λ s.
      strided s.1.1 >>= λ axis'.
      select_axes req times axes s.1.0 s.0 >>= λ rest. ok (rest.0, (rest.1.0, axis' ∷ rest.1.1))

  -- The axis of a file without axes.
  abbrev pub default_time : DatasetAxis co
  default_time = record {
    name = time_name;
    params = [];
    strides = 1 ∷ [];
    grid = default;
    picked = record { idx = []; values = [] };
    order = 0;
    aggregate = 0;
  }

  abbrev pub own_axes : List (DatasetAxis co) → List (DatasetAxis co)
  own_axes [] = default_time ∷ []
  own_axes (axis ∷ axes) = axis ∷ axes

  -- A file after the selection: its namespace, IsOutRange and its axes.
  abbrev pub Selected : Type 0
  Selected = Bytes × (Bool × List (DatasetAxis co))

  -- The loop over the files that selects.
  unfoldable pub select_files : Request → ParamsLookup → List GdalDataset → Result (List Selected)
  unfolding select_axes
  select_files req lookup [] = ok []
  select_files req lookup (ds ∷ files) =
      select_axes req ds.time_stamps (own_axes ds.axes) false lookup >>= λ s.
      select_files req s.0 files >>= λ rest. ok ((ds.namespace, s.1) ∷ rest)

  -- utils.EmptyTileNS
  abbrev pub empty_tile_ns : Bytes
  empty_tile_ns = b'E' ∷ b'm' ∷ b'p' ∷ b't' ∷ b'y' ∷ b'T' ∷ b'i' ∷ b'l' ∷ b'e' ∷ []

  module _ (readable : Bytes → F → Bytes) where
    -- bandNameSpaces, in which every namespace has a name.
    abbrev pub BandNamespaces : Type 0
    BandNamespaces = List (Bytes × Names co readable)

    abbrev pub names_of : Option (Names co readable) → Names co readable
    names_of none = []
    names_of (some names) = names

    unfoldable pub set_names : Bytes → Names co readable → BandNamespaces → BandNamespaces
    set_names ns names [] = (ns, names) ∷ []
    set_names ns names ((n, old) ∷ rest) =
        let later = set_names ns names rest in
        if bytes_eq n ns then (n, names) ∷ rest else (n, old) ∷ later

    abbrev pub put_names : Bytes → Names co readable → BandNamespaces → BandNamespaces
    put_names ns [] bands = bands
    put_names ns (name ∷ names) bands = set_names ns (name ∷ names) bands

    -- The loop over the files that makes granules.
    unfoldable pub all_granules :
        Bool → List Selected → BandNamespaces → Option (List (Granule co readable) × BandNamespaces)
    unfolding find_named set_names
    all_granules is_empty_tile [] bands = some ([], bands)
    all_granules is_empty_tile ((namespace, (true, axes)) ∷ files) bands =
        all_granules is_empty_tile files bands
    all_granules is_empty_tile ((namespace, (false, axes)) ∷ files) bands =
        let ns = if is_empty_tile then empty_tile_ns else namespace in
        bind (granules_of co readable ns is_empty_tile axes (names_of (find_named ns bands))) (λ g.
          bind (all_granules is_empty_tile files (put_names ns g.1 bands))
            (λ rest. some (g.0 ++ rest.0, rest.1)))

    -- The granules of an answer with files, before the namespaces are sorted.
    unfoldable pub index_files :
        Request → Bool → List GdalDataset → Result (List (Granule co readable) × BandNamespaces)
    unfolding select_files all_granules
    index_files req is_empty_tile files =
        select_files req [] files >>= λ selected. or_panic (all_granules is_empty_tile selected [])
