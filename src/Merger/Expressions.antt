-- ===== src/Merger/Expressions.antt =====
-- What `RasterMerger.Run` sends on: one raster for each namespace, or one for each expression and
-- axis, with no data where a variable has none.
use native.Mathlib.Nat.{}
use gsky.Prelude.{
  get_elem?-replicate, ℕ, ◌*◌, ◌≤◌, ◌<◌, ◌≡◌, refl, sym, ap, subst, ◌∙◌, Bool, true, false, not,
  ◌&&◌, ◌||◌, some, List, [], ◌∷◌, String, arith, if◌then◌else◌, length, length-replicate,
  get_elem?, map, replicate, All,
}
use gsky.Prelude.Result.{ok}
use gsky.Merger.Types.{Float64, FlexRaster}
use gsky.Merger.Merge.{CanvasMap, find_canvas}
use gsky.Merger.Holes.{
  any_hole, AllFilled, parameters, IsDistinct, AllUnnamed, add_vars-some, put_array-some,
}
use gsky.Merger.Output.{
  BandVar, Float32, values, Variable, array, Expression, out_raster, is_known, canvases_of,
  put_result, out_namespace, evaluate_axis, outputs,
}

module _ (fl : Float64) (fs : Float32 fl.F) where
  open fl use {F}
  open fs use {S, is_value, narrow, is_odd}

  -- The namespace has a canvas of a known type.
  abbrev pub IsKnown : CanvasMap F → String → Type 0
  IsKnown canvases ns =
      (c : FlexRaster F) × (find_canvas ns canvases ≡ some c)
      × (is_known fl fs c.raster_type ≡ true)

  canvases_of-known :
      (canvases : CanvasMap F) (namespaces : List String)
      → All (IsKnown canvases) namespaces
      → (cs : List (String × FlexRaster F)) × (canvases_of fl fs canvases namespaces ≡ ok cs)
        × (map (λ c. c.0) cs ≡ namespaces)
        × All (λ c. find_canvas c.0 canvases ≡ some c.1) cs
  unfolding canvases_of
  canvases_of-known canvases [] h = ([], refl, refl, record {})
  canvases_of-known canvases (ns ∷ namespaces) ((c, e, t), h) =
      let (cs, run, same, all) = canvases_of-known canvases namespaces h in
      ((ns, c) ∷ cs, rw (e, t, run) refl, ap (λ rest. ns ∷ rest) same, (e, all))

  -- Without expressions, when every namespace has a canvas of a known type: one raster for each
  -- namespace is sent on, in their order, which is the namespace's canvas with its samples.
  pub outputs-samples :
      (canvases : CanvasMap F) (ns : String) (namespaces : List String)
      → All (IsKnown canvases) (ns ∷ namespaces)
      → (cs : List (String × FlexRaster F)) × (outputs fl fs [] canvases (ns ∷ namespaces)
          ≡ ok (map (λ c. out_raster fl fs c.0 c.1) cs))
        × (map (λ c. c.0) cs ≡ ns ∷ namespaces)
        × All (λ c. find_canvas c.0 canvases ≡ some c.1) cs
  unfolding outputs
  outputs-samples canvases ns namespaces h =
      let (cs, run, same, all) = canvases_of-known canvases (ns ∷ namespaces) h in
      (cs, rw run refl, same, all)

  shown_where :
      (x y : Bool) {A : Type 0} (a b : A)
      → (if true && not x then (if y then a else b) else a) ≡ (if x || y then a else b)
  shown_where true y a b = refl
  shown_where false true a b = refl
  shown_where false false a b = refl

  module _ (width height : ℕ) (no_data : F) (vars : List (Variable fl fs)) where
    none_unnamed : (vs : List BandVar) → AllUnnamed fl fs [] vs
    none_unnamed [] = record {}
    none_unnamed (v ∷ vs) = (record {}, none_unnamed vs)

    -- For an axis whose variables have different names and all have a value for each cell of the
    -- picture, and an expression that for their names and values gives an array of at least as many
    -- values: the raster of the expression is made without an error, it has as many values as the
    -- picture has cells, and each is the array's, but the no data value where one of the variables has
    -- no data or the array has an infinity or a NaN.
    pub evaluate_axis-cells :
        (expr : Expression fl fs) (axis : String) (vs : List BandVar) (cells : List S)
        → AllFilled fl fs vars (width * height) vs
        → IsDistinct fl fs vs
        → expr.evaluate (parameters fl fs vars vs) ≡ array cells
        → width * height ≤ length cells
        → (out : List S) × (evaluate_axis fl fs width height no_data vars expr axis vs
            ≡ ok (values no_data out width height (out_namespace fl fs expr.name axis)))
          × (length out ≡ width * height)
          × ((j : ℕ) (s : S)
              → j < width * height
              → get_elem? cells j ≡ some s
              → get_elem? out j
                ≡ some (if any_hole fl fs vars vs j || is_odd s then narrow no_data else s))
    unfolding evaluate_axis put_result
    evaluate_axis-cells expr axis vs cells h distinct given long =
        let blank : List Bool = replicate (width * height) true in
        let n : length blank ≡ width * height = length-replicate (width * height) true in
        let (mask, run, m, each) =
          add_vars-some fl fs vars vs blank [] (subst (λ k. AllFilled fl fs vars k vs) (sym n) h)
            distinct (none_unnamed vs) in
        let (out, put, l, at) =
          put_array-some fl fs no_data cells mask (omega (arith, m, n, long)) in
        (
          out,
          rw (run, given, put) refl,
          l ∙ m ∙ n,
          λ j s below cell.
              at j _ s
                (each j true (get_elem?-replicate (width * height) j true below)
                  (omega (arith, n, below)))
                cell
              ∙ ap some (shown_where (any_hole fl fs vars vs j) (is_odd s) (narrow no_data) s),
        )
