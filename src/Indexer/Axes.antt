-- ===== src/Indexer/Axes.antt =====
-- The axes of a file and of a request: the types that the selections share.
use gsky.Prelude.{ℕ, Bool, Option, List, [], ◌∷◌, ◌++◌, Bytes}
use gsky.Dap4.{Selector}

-- float64, with what the selections do with its values.
pub record Coords : Type 1 where
  pub F : Type 0
  pub lt : F → F → Bool
  pub le : F → F → Bool
  pub eq : F → F → Bool
  pub zero_f : F
  pub add : F → F → F
  -- math.Abs(a - b)
  pub distance : F → F → F
  -- a - b > 1e-06, and a - b <= 1e-6
  pub above : F → F → Bool
  pub within : F → F → Bool
  pub max_float : F
  -- float64(t.Unix())
  pub of_time : ℕ → F

-- Grid: "enum", "default" or any other text.
pub data Grid : Type 0 where
  enum default unknown : Grid

module _ (co : Coords) where
  open co use {F}

  -- IntersectionIdx and IntersectionValues
  pub record Picked : Type 0 where
    pub idx : List ℕ
    pub values : List F

  -- DatasetAxis; Shape is not read.
  pub record DatasetAxis : Type 0 where
    pub name : Bytes
    pub params : List F
    pub strides : List ℕ
    pub grid : Grid
    pub picked : Picked
    pub order : ℕ
    pub aggregate : ℕ

  -- GeoTileAxis. A GeoTileIdxSelector is a copy of a selector of the DAP4 expression.
  pub record GeoTileAxis : Type 0 where
    pub start : Option F
    pub stop : Option F
    pub in_values : List F
    pub order : ℕ
    pub aggregate : ℕ
    pub idx_selectors : List Selector

  -- The two appends of a selection.
  abbrev pub pick : ℕ → F → Picked → Picked
  pick i v p = record { idx = p.idx ++ (i ∷ []); values = p.values ++ (v ∷ []) }
