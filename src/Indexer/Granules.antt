-- ===== src/Indexer/Granules.antt =====
-- `URLIndexGet` from the answer of the index service on: the granules of a file. The counters of the
-- axes stand with the axes, as wheels.
use gsky.Prelude.{
  ℕ, zero, suc, ◌+◌, ◌-◌, ◌*◌, Bool, true, false, not, ◌&&◌, ◌||◌, Option, none, some, List, [],
  ◌∷◌, ◌++◌, ltb, leb, ◌==◌, if◌then◌else◌, length, get_elem?, ◌>>=◌, Bytes, bytes_eq,
}
use gsky.Indexer.Axes.{Coords, DatasetAxis}

module _ (co : Coords) where
  open co use {F, zero_f, add}

  pub record Wheel : Type 0 where
    pub axis : DatasetAxis co
    pub count : ℕ

  -- len(ds.Axes[i].IntersectionIdx)
  abbrev pub size : Wheel → ℕ
  size w = length w.axis.picked.idx

  -- axisIdxCnt[ia]++ for the last axis, and the carry. What stands behind a wheel is moved first; the
  -- first wheel is not set back.
  unfoldable pub advance : List Wheel → List Wheel
  advance [] = []
  advance (w ∷ wheels) = carry w (advance wheels)
    where
      carry : Wheel → List Wheel → List Wheel
      carry w [] = record w { count = suc w.count } ∷ []
      carry w (v ∷ vs) =
          if leb (size v) v.count
          then record w { count = suc w.count } ∷ (record v { count = 0 } ∷ vs)
          else w ∷ (v ∷ vs)

  -- bandIdx, bandTimeStamp and aggTimeStamp, from what they were before the axis.
  pub record Sums : Type 0 where
    pub band_idx : ℕ
    pub band_time_stamp : F
    pub agg_time_stamp : F

  -- iTimeStamp
  abbrev pub time_place : Wheel → ℕ
  time_place w = if w.axis.order == 0 then w.count else size w - w.count - 1

  unfoldable pub sum_wheels : List Wheel → Sums → Option Sums
  sum_wheels [] s = some s
  sum_wheels (w ∷ wheels) s = do
    i ← get_elem? w.axis.picked.idx w.count
    v ← get_elem? w.axis.picked.values w.count
    u ← get_elem? w.axis.picked.values (time_place w)
    sum_wheels wheels (record {
      band_idx = s.band_idx + i;
      band_time_stamp = add s.band_time_stamp v;
      agg_time_stamp = add s.agg_time_stamp u;
    })

  -- make([]int, len(ds.Axes))
  unfoldable pub start_wheels : List (DatasetAxis co) → List Wheel
  start_wheels [] = []
  start_wheels (axis ∷ axes) = record { axis = axis; count = 0 } ∷ start_wheels axes

  unfoldable pub combinations : List (DatasetAxis co) → ℕ
  combinations [] = 1
  combinations (axis ∷ axes) = length axis.picked.idx * combinations axes

  -- The name of an axis and the text of its value, which fmt and time.Format give, are parameters.
  module _ (readable : Bytes → F → Bytes) where
    -- The part of the namespace for the axes that are not aggregated; isFirst until there was one.
    unfoldable pub axes_name : Bool → List Wheel → Option Bytes
    axes_name is_first [] = some []
    axes_name is_first (w ∷ wheels) =
        let kept = (do
          v ← get_elem? w.axis.picked.values w.count
          rest ← axes_name false wheels
          some (
              (if is_first then b'#' else b',')
              ∷ (w.axis.name ++ (b'=' ∷ (readable w.axis.name v ++ rest))))) in
        let aggregated = axes_name is_first wheels in
        if w.axis.aggregate == 0 then kept else aggregated

    unfoldable pub has_non_agg : List Wheel → Bool
    has_non_agg [] = false
    has_non_agg (w ∷ wheels) = w.axis.aggregate == 0 || has_non_agg wheels

    -- GeoTileGranule, as far as the loop sets it.
    pub record Granule : Type 0 where
      pub namespace : Bytes
      pub time_stamp : F
      pub band_idx : ℕ
      pub is_null : Bool

    -- bandNameSpaces[dsNameSpace], which is nil until it is set.
    abbrev pub Names : Type 0
    Names = List (Bytes × F)

    unfoldable pub is_named : Bytes → Names → Bool
    is_named ns [] = false
    is_named ns ((m, _) ∷ names) = bytes_eq ns m || is_named ns names

    -- What one round finds: the granule, and the name that it may add.
    pub record Found : Type 0 where
      pub granule : Granule
      pub band_time_stamp : F
      pub non_agg : Bool

    unfoldable pub find : Bytes → Bool → List Wheel → Option Found
    unfolding sum_wheels axes_name has_non_agg
    find ds_name is_empty_tile wheels = do
      s ←
          sum_wheels wheels
            (record { band_idx = 1; band_time_stamp = zero_f; agg_time_stamp = zero_f })
      name ← axes_name true wheels
      some (record {
        granule = record {
          namespace = ds_name ++ name;
          time_stamp = s.agg_time_stamp;
          band_idx = s.band_idx;
          is_null = is_empty_tile;
        };
        band_time_stamp = s.band_time_stamp;
        non_agg = has_non_agg wheels;
      })

    abbrev pub add_name : Found → Names → Names
    add_name f names =
        if f.non_agg && not (is_named f.granule.namespace names)
        then names ++ ((f.granule.namespace, f.band_time_stamp) ∷ [])
        else names

    -- !isEmptyTile || (isEmptyTile && !bandFound)
    abbrev pub is_wanted : Bool → Found → Names → Bool
    is_wanted is_empty_tile f names =
        not is_empty_tile
        || (is_empty_tile && not (f.non_agg && is_named f.granule.namespace names))

    -- axisIdxCnt[0] < len(ds.Axes[0].IntersectionIdx)
    abbrev pub turns_on : List Wheel → Option Bool
    turns_on [] = none
    turns_on (w ∷ wheels) = some (ltb w.count (size w))

    -- The fuel is the number of combinations and one.
    unfoldable pub granules : ℕ → Bytes → Bool → List Wheel → Names → Option (List Granule × Names)
    unfolding find is_named advance
    granules zero ds_name is_empty_tile wheels names = none
    granules (suc fuel) ds_name is_empty_tile wheels names =
        let round = (do
          f ← find ds_name is_empty_tile wheels
          (rest, names') ← granules fuel ds_name is_empty_tile (advance wheels) (add_name f names)
          some (if is_wanted is_empty_tile f names then f.granule ∷ rest else rest, names')) in
        (turns_on wheels >>= λ on. if on then round else some ([], names))

    abbrev pub granules_of :
        Bytes → Bool → List (DatasetAxis co) → Names → Option (List Granule × Names)
    granules_of ds_name is_empty_tile axes names =
        granules (suc (combinations axes)) ds_name is_empty_tile (start_wheels axes) names
