-- ===== src/Indexer/Unnamed.antt =====
-- The files of a request that names no axis.
use gsky.Prelude.{
  subst, ◌∙◌, get_elem?, ℕ, ◌<◌, ◌≡◌, refl, true, false, Option, some, List, [], ◌∷◌, ◌++◌, map,
  arith, length, All, Bytes,
}
use gsky.Prelude.Result.{ok}
use gsky.Indexer.Axes.{Coords, DatasetAxis}
use gsky.Indexer.Granules.{Granule, Names, combinations, granules_of}
use gsky.Indexer.Odometer.{Paired, At, granules_of-combinations}
use gsky.Indexer.Entries.{product, entries, read_axis, IsReady, select_axes-unnamed}
use gsky.Indexer.Files.{
  GdalDataset, ParamsLookup, find_named, own_axes, Selected, select_files, BandNamespaces, names_of,
  put_names, all_granules, index_files,
}

module _ (co : Coords) where
  open co use {F}

  -- The axes of a file with the entries that are read.
  abbrev pub read_axes : ℕ → GdalDataset co → List (DatasetAxis co)
  read_axes axis_mapping ds = map (read_axis co axis_mapping ds.time_stamps) ds.axes

  -- The number of the granules of a file.
  abbrev pub file_entries : ℕ → GdalDataset co → ℕ
  file_entries axis_mapping ds = product (map (entries co axis_mapping ds.time_stamps) ds.axes)

  abbrev pub IsReadyFile : GdalDataset co → Type 0
  IsReadyFile ds = (0 < length ds.axes) × All (IsReady co ds.time_stamps) ds.axes

  -- What is selected of a file: it is not out of range, and its entries are read.
  record Chosen (axis_mapping : ℕ) (ds : GdalDataset co) (f : Selected co) : Type 0 where
    same_name : f.0 ≡ ds.namespace
    in_range : f.1.0 ≡ false
    paired : Paired co f.1.1
    picked : All (λ a. 0 < length a.picked.idx) f.1.1
    some_axis : 0 < length f.1.1
    count : combinations co f.1.1 ≡ file_entries axis_mapping ds
    read : f.1.1 ≡ read_axes axis_mapping ds

  abbrev AllChosen : ℕ → List (GdalDataset co) → List (Selected co) → Type 0
  AllChosen axis_mapping [] [] = Unit
  AllChosen axis_mapping (ds ∷ files) (f ∷ fs) =
      Chosen axis_mapping ds f × AllChosen axis_mapping files fs
  AllChosen _ _ _ = ⊥

  own : (axes : List (DatasetAxis co)) → 0 < length axes → own_axes co axes ≡ axes
  own [] h = absurd (omega arith)
  own (axis ∷ axes) h = refl

  select_files-unnamed :
      (start end : Option ℕ) (axis_mapping : ℕ) (lookup : ParamsLookup co)
      (files : List (GdalDataset co))
      → All IsReadyFile files
      → (fs : List (Selected co)) × (select_files co
            (record { axes = []; start_time = start; end_time = end; axis_mapping = axis_mapping })
            lookup
            files
          ≡ ok fs)
        × AllChosen axis_mapping files fs
  unfolding select_files
  select_files-unnamed start end axis_mapping lookup [] h = ([], refl, record {})
  select_files-unnamed start end axis_mapping lookup (ds ∷ files) ((some_axis, ready), h) =
      let (axes', run, paired, count, picked, size, read) =
        select_axes-unnamed co start end axis_mapping ds.time_stamps ds.axes lookup ready in
      let (fs, runs, all) = select_files-unnamed start end axis_mapping lookup files h in
      (
        (ds.namespace, (false, axes')) ∷ fs,
        rw (own ds.axes some_axis, run, runs) refl,
        (
          record {
            same_name = refl;
            in_range = refl;
            paired = paired;
            picked = picked;
            some_axis = omega (arith, size, some_axis);
            count = count;
            read = read;
          },
          all,
        ),
      )

  module _ (readable : Bytes → F → Bytes) where
    -- One after the other the granules of each file, one for each combination of the entries that are
    -- read, in the order of their places.
    abbrev pub FileGranules : ℕ → List (GdalDataset co) → List (Granule co readable) → Type 0
    FileGranules axis_mapping [] gs = gs ≡ []
    FileGranules axis_mapping (ds ∷ files) gs =
        (own_gs : List (Granule co readable)) × (rest : List (Granule co readable)) × (gs
          ≡ own_gs ++ rest)
        × (length own_gs ≡ file_entries axis_mapping ds)
        × ((k : ℕ)
            → k < length own_gs
            → At co readable ds.namespace (read_axes axis_mapping ds) k (get_elem? own_gs k))
        × FileGranules axis_mapping files rest

    granules_of-At :
        (ds_name : Bytes) (axes : List (DatasetAxis co)) (names : Names co readable)
        → 0 < length axes
        → Paired co axes
        → All (λ a. 0 < length a.picked.idx) axes
        → (gs : List (Granule co readable)) × (names' : Names co readable) × (granules_of co
              readable ds_name false axes names
            ≡ some (gs, names'))
          × (length gs ≡ combinations co axes)
          × ((k : ℕ) → k < length gs → At co readable ds_name axes k (get_elem? gs k))
    granules_of-At ds_name [] names h paired picked = absurd (omega arith)
    granules_of-At ds_name (axis ∷ axes) names h paired (_, picked) =
        let (gs, names', run, count, each) =
          granules_of-combinations co readable ds_name axis axes names paired picked in
        (gs, names', run, count, λ k l. each k (omega (arith, count)))

    all_granules-FileGranules :
        (axis_mapping : ℕ) (files : List (GdalDataset co)) (fs : List (Selected co))
        (bands : BandNamespaces co readable)
        → AllChosen axis_mapping files fs
        → (gs : List (Granule co readable)) × (bands' : BandNamespaces co readable) × (all_granules
              co readable false fs bands
            ≡ some (gs, bands'))
          × FileGranules axis_mapping files gs
    unfolding all_granules
    all_granules-FileGranules am [] [] bands h = ([], bands, refl, refl)
    all_granules-FileGranules am [] (f ∷ fs) bands h = absurd h
    all_granules-FileGranules am (ds ∷ files) [] bands h = absurd h
    all_granules-FileGranules am (ds ∷ files) ((namespace, (true, axes)) ∷ fs) bands (c, _) =
        absurd (let out = c.in_range in cc)
    all_granules-FileGranules am (ds ∷ files) ((namespace, (false, axes)) ∷ fs) bands (c, h) =
        let names = names_of co readable (find_named co namespace bands) in
        let (gs, names', made, size, each) =
          granules_of-At namespace axes names c.some_axis c.paired c.picked in
        let (rest, bands', run, others) =
          all_granules-FileGranules am files fs (put_names co readable namespace names' bands) h in
        (
          gs ++ rest,
          bands',
          rw (made, run) refl,
          (
            gs,
            rest,
            refl,
            size ∙ c.count,
            λ k l.
                subst (λ n. At co readable n (read_axes am ds) k (get_elem? gs k)) c.same_name
                  (subst (λ as'. At co readable namespace as' k (get_elem? gs k)) c.read
                    (each k l)),
            others,
          ),
        )

    -- For a request that names no axis and is not for the empty tile, and files on whose axes nothing
    -- is picked yet, each with a stride and an entry (a parameter, or for a "default" axis a time) and
    -- each file with an axis: the selections and the loops over the counters succeed. Without an axis
    -- mapping the first entry of an axis is read, otherwise all of them, each with its value and its
    -- index times the stride. The granules are, file by file, one for each combination of the entries
    -- of the file's axes, that at place k with the counters that are the digits of k.
    pub index_files-unnamed :
        (start end : Option ℕ) (axis_mapping : ℕ) (files : List (GdalDataset co))
        → All IsReadyFile files
        → (gs : List (Granule co readable)) × (bands : BandNamespaces co readable) × (index_files co
              readable
              (record {
                axes = [];
                start_time = start;
                end_time = end;
                axis_mapping = axis_mapping;
              })
              false
              files
            ≡ ok (gs, bands))
          × FileGranules axis_mapping files gs
    unfolding index_files
    index_files-unnamed start end axis_mapping files h =
        let (fs, run, chosen) = select_files-unnamed start end axis_mapping [] files h in
        let (gs, bands, made, each) = all_granules-FileGranules axis_mapping files fs [] chosen in
        (gs, bands, rw (run, made) refl, each)
