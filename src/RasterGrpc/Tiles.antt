-- ===== src/RasterGrpc/Tiles.antt =====
-- The tiles that a granule is cut into: every pixel of the granule lies in one of them, and only one.
use gsky.Prelude.{
  ℕ, zero, suc, ◌+◌, ◌-◌, ◌≤◌, ◌<◌, ◌≡◌, refl, sym, ◌∙◌, inl, inr, Bool, true, not, ◌&&◌, ◌||◌,
  ltb→lt, length, length-append, Bool-cases, some, List, [], ◌∷◌, ◌++◌, ltb, leb, if◌then◌else◌,
  arith, tests,
}
use Prim.Native.Nat.{min}
use gsky.Prelude.Int.{pos, lt_ℤ, ◌+ℤ◌}
use gsky.RasterGrpc.{
  Floats, Granule, edge, tile_end, tile_pixels, axis_res, tile_at, tile_row, tile_rows, tiles_of,
  max_tile_size,
}

module _ (fl : Floats) where
  open fl use {F, half, zero_f, add, sub, div, min_f, lt, to_size}

  -- Along an axis with n pixels the floating-point numbers are accurate enough: the end of a tile is
  -- the edge where it stops or the end of the box, and the distance of two edges, measured in pixels,
  -- is rounded to their number.
  pub record IsExact (lo hi : F) (n : ℕ) : Type 0 where
    pub inside : (b : ℕ) → b < n → min_f (edge fl lo hi n b) hi ≡ edge fl lo hi n b
    pub outside : (b : ℕ) → n ≤ b → min_f (edge fl lo hi n b) hi ≡ hi
    pub between :
        (a b : ℕ)
        → a < b
        → b < n
        → to_size
            (add half (div (sub (edge fl lo hi n b) (edge fl lo hi n a)) (axis_res fl lo hi n)))
          ≡ b - a
    pub last :
        (a : ℕ)
        → a < n
        → to_size (add half (div (sub hi (edge fl lo hi n a)) (axis_res fl lo hi n))) ≡ n - a

  tile_pixels-min :
      {lo hi : F} {n : ℕ}
      → IsExact lo hi n
      → (a m : ℕ) → a < n
      → 0 < m
      → tile_pixels fl lo hi n a (a + m) ≡ min m (n - a)
  unfolding tile_pixels
  tile_pixels-min {n} e a m h p = elim (Bool-cases (ltb (a + m) n)) [
    | inl fits ↦
        let lt : a + m < n = omega (tests, fits) in
        rw (tile_pixels, tile_end, e.inside (a + m) lt)
          (omega (arith, e.between a (a + m) (omega arith) lt))
    | inr over ↦
        let le : n ≤ a + m = ground arith in
        rw (tile_pixels, tile_end, e.outside (a + m) le) (omega (arith, e.last a h))
  ]

  max_tile_size_pos : (s : F) (n : ℕ) → 0 < n → 0 < max_tile_size fl s n
  unfolding max_tile_size
  max_tile_size_pos s n h = ground arith

  from_zero : (k : ℕ) → ◌≡◌ {A = ℕ} (if leb 0 k then 1 else 0) 1
  from_zero k = ground arith

  module _ {A : Type 0} where
    -- Pixel (i, j) of the granule, counted from the left and the top, lies in the tile.
    abbrev pub covers : ℕ → ℕ → Granule fl A → Bool
    covers i j t =
        (not (lt_ℤ (pos i) t.off_x) && lt_ℤ (pos i) (t.off_x +ℤ pos t.width))
        && (not (lt_ℤ (pos j) t.off_y) && lt_ℤ (pos j) (t.off_y +ℤ pos t.height))

    unfoldable pub count_covering : ℕ → ℕ → List (Granule fl A) → ℕ
    count_covering i j [] = 0
    count_covering i j (t ∷ ts) = (if covers i j t then 1 else 0) + count_covering i j ts

    count_covering-append :
        (i j : ℕ) (ts us : List (Granule fl A))
        → count_covering i j (ts ++ us) ≡ count_covering i j ts + count_covering i j us
    unfolding count_covering
    count_covering-append i j [] us = omega arith
    count_covering-append i j (t ∷ ts) us = omega (arith, count_covering-append i j ts us)

    module _ (g : Granule fl A) (x_exact : IsExact g.box.x_min g.box.x_max g.width)
        (y_exact : IsExact g.box.y_min g.box.y_max g.height) (mx my : ℕ) (mx_pos : 0 < mx)
        (my_pos : 0 < my) (i j : ℕ) (i_in : i < g.width) (j_in : j < g.height) where
      -- The row of pixels counted from the bottom, as the loop over y does.
      abbrev from_bottom : ℕ
      from_bottom = g.height - 1 - j

      covers-tile_at :
          (y x : ℕ)
          → y < g.height
          → x < g.width
          → covers i j (tile_at fl g mx my y x)
            ≡ ((leb x i && ltb i (x + mx)) && (leb y from_bottom && ltb from_bottom (y + my)))
      unfolding tile_at
      covers-tile_at y x hy hx =
          rw (tile_pixels-min x_exact x mx hx mx_pos, tile_pixels-min y_exact y my hy my_pos)
            (ground arith)

      in_row : ℕ → Bool
      in_row y = leb y from_bottom && ltb from_bottom (y + my)

      covers-tile_at-in_row :
          (y x : ℕ)
          → y < g.height
          → x < g.width
          → covers i j (tile_at fl g mx my y x) ≡ ((leb x i && ltb i (x + mx)) && in_row y)
      unfolding in_row
      covers-tile_at-in_row y x hy hx = covers-tile_at y x hy hx

      split_row :
          (r : Bool) (x : ℕ)
          → (if (leb x i && ltb i (x + mx)) && r then 1 else 0)
              + (if leb (x + mx) i && r then 1 else 0)
            ≡ (if leb x i && r then 1 else 0)
      split_row r x = ground arith

      tile_row-count :
          (fuel y x : ℕ)
          → y < g.height
          → g.width - x < fuel
          → (ts : List (Granule fl A)) × (tile_row fl fuel g mx my y x ≡ some ts)
            × (count_covering i j ts ≡ (if leb x i && in_row y then 1 else 0))
      unfolding tile_row count_covering
      tile_row-count zero y x hy h = absurd (omega arith)
      tile_row-count (suc fuel) y x hy h = elim (Bool-cases (ltb x g.width)) [
        | inl more ↦
            let (ts, e, c) = tile_row-count fuel y (x + mx) hy (ground arith) in
            (
              tile_at fl g mx my y x ∷ ts,
              rw (more, e) refl,
              rw (covers-tile_at-in_row y x hy (ltb→lt _ _ more), c) (split_row (in_row y) x),
            )
        | inr done ↦ ([], rw done refl, ground arith)
      ]

      tile_rows-count :
          (fuel y : ℕ)
          → g.height - y < fuel
          → (ts : List (Granule fl A)) × (tile_rows fl fuel g mx my y ≡ some ts)
            × (count_covering i j ts ≡ (if leb y from_bottom then 1 else 0))
      unfolding tile_rows count_covering in_row
      tile_rows-count zero y h = absurd (omega arith)
      tile_rows-count (suc fuel) y h = elim (Bool-cases (ltb y g.height)) [
        | inl more ↦
            let (ts, e, c) = tile_row-count (suc g.width) y 0 (ltb→lt _ _ more) (omega arith) in
            let (us, e', c') = tile_rows-count fuel (y + my) (ground arith) in
            (
              ts ++ us,
              rw (more, e, e') refl,
              rw (count_covering-append i j ts us, c, c') (ground arith),
            )
        | inr done ↦ ([], rw done refl, ground arith)
      ]

    -- The loops end: each round takes at least one pixel.
    tile_row-some :
        (g : Granule fl A) (mx my : ℕ)
        → 0 < mx
        → (fuel y x : ℕ) → g.width - x < fuel
        → (ts : List (Granule fl A)) × (tile_row fl fuel g mx my y x ≡ some ts)
          × (x < g.width → 0 < length ts)
    unfolding tile_row
    tile_row-some g mx my p zero y x h = absurd (omega arith)
    tile_row-some g mx my p (suc fuel) y x h = elim (Bool-cases (ltb x g.width)) [
      | inl more ↦
          let (ts, e, _) = tile_row-some g mx my p fuel y (x + mx) (ground arith) in
          (tile_at fl g mx my y x ∷ ts, rw (more, e) refl, λ _. omega arith)
      | inr done ↦ ([], rw done refl, λ l. absurd (ground arith))
    ]

    tile_rows-some :
        (g : Granule fl A) (mx my : ℕ)
        → 0 < mx
        → 0 < my
        → (fuel y : ℕ) → g.height - y < fuel
        → (ts : List (Granule fl A)) × (tile_rows fl fuel g mx my y ≡ some ts)
          × (0 < g.width → y < g.height → 0 < length ts)
    unfolding tile_rows
    tile_rows-some g mx my p q zero y h = absurd (omega arith)
    tile_rows-some g mx my p q (suc fuel) y h = elim (Bool-cases (ltb y g.height)) [
      | inl more ↦
          let (ts, e, some_in_row) = tile_row-some g mx my p (suc g.width) y 0 (omega arith) in
          let (us, e', _) = tile_rows-some g mx my p q fuel (y + my) (ground arith) in
          (
            ts ++ us,
            rw (more, e, e') refl,
            λ wide _. let n = some_in_row wide in omega (arith, length-append ts us),
          )
      | inr done ↦ ([], rw done refl, λ _ l. absurd (ground arith))
    ]

    pub tiles_of-some :
        (g0 g : Granule fl A)
        → 0 < g0.width
        → 0 < g0.height
        → (ts : List (Granule fl A)) × (tiles_of fl g0 g ≡ some ts)
          × (0 < g.width → 0 < g.height → 0 < length ts)
    unfolding tiles_of
    tiles_of-some g0 g hw hh =
        elim (Bool-cases (lt zero_f g0.tile_x_size || lt zero_f g0.tile_y_size)) [
          | inl asked ↦
              let (ts, e, n) =
                tile_rows-some g (max_tile_size fl g0.tile_x_size g0.width)
                  (max_tile_size fl g0.tile_y_size g0.height)
                  (max_tile_size_pos g0.tile_x_size g0.width hw)
                  (max_tile_size_pos g0.tile_y_size g0.height hh) (suc g.height) 0 (omega arith) in
              (ts, rw asked e, n)
          | inr not_asked ↦ (g ∷ [], rw not_asked refl, λ _ _. omega arith)
        ]

    some_inj : {ts us : List (Granule fl A)} → some ts ≡ some us → ts ≡ us
    some_inj e = cc

    -- A granule is cut up when the first granule g0, which is not empty, asks for tiles in one
    -- direction or the other. If the floating-point numbers are exact on both of its axes, the loops
    -- end, and every pixel of the granule lies in one of the tiles, and in one only.
    pub tiles_of-count :
        (g0 g : Granule fl A)
        → IsExact g.box.x_min g.box.x_max g.width
        → IsExact g.box.y_min g.box.y_max g.height
        → (lt zero_f g0.tile_x_size || lt zero_f g0.tile_y_size) ≡ true
        → 0 < g0.width
        → 0 < g0.height
        → (ts : List (Granule fl A)) × (tiles_of fl g0 g ≡ some ts)
          × ((i j : ℕ) → i < g.width → j < g.height → count_covering i j ts ≡ 1)
    unfolding tiles_of
    tiles_of-count g0 g ex ey asked hw hh =
        let (ts, e, _) = tiles_of-some g0 g hw hh in
        (
          ts,
          e,
          λ i j hi hj.
              let mx = max_tile_size fl g0.tile_x_size g0.width in
              let my = max_tile_size fl g0.tile_y_size g0.height in
              let (us, e', c) =
                tile_rows-count g ex ey mx my (max_tile_size_pos g0.tile_x_size g0.width hw)
                  (max_tile_size_pos g0.tile_y_size g0.height hh) i j hi hj (suc g.height) 0
                  (omega arith) in
              let cut : tiles_of fl g0 g ≡ some us = rw asked e' in
              rw (some_inj (sym e ∙ cut)) (c ∙ from_zero (g.height - 1 - j)),
        )
