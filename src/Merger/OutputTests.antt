-- ===== src/Merger/OutputTests.antt =====
-- Two canvases of one row of two cells, and the expression that is the sum of two variables.
use text.Mathlib.Text.{◌==◌ as str_eq}
use gsky.Prelude.{
  ℕ, ◌+◌, ◌*◌, ◌<◌, ◌≡◌, refl, false, ◌==◌, ◌||◌, some, List, [], ◌∷◌, String, if◌then◌else◌,
  length, get_elem?, arith,
}
use gsky.Prelude.Result.{ok, err}
use gsky.Merger.Types.{FlexRaster, words}
use gsky.Merger.Merge.{CanvasMap, find_canvas}
use gsky.Merger.Namespaces.{axis_part}
use gsky.Merger.Output.{
  BandVar, Float32, values, Variable, array, Expression, evaluate_axis, outputs,
}
use gsky.Merger.Holes.{any_hole, parameters}
use gsky.Merger.Expressions.{evaluate_axis-cells}
use gsky.Merger.Samples.{whole, raster}

abbrev values32 : Float32 ℕ
values32 = record {
  S = ℕ;
  to_float32 = λ t w. w;
  is_value = λ s v. s == v;
  narrow = λ v. v;
  is_odd = λ s. false;
}

abbrev canvas : String → List ℕ → FlexRaster ℕ
canvas ns bytes = record (raster 5 bytes) {
  namespace = ns;
  width = 2;
  height = 1;
  namespaces = "a#t=1" ∷ "b#t=1" ∷ [];
}

abbrev two_canvases : CanvasMap ℕ
two_canvases = ("a#t=1", canvas "a#t=1" (3 ∷ 9 ∷ [])) ∷ ("b#t=1", canvas "b#t=1" (4 ∷ 5 ∷ [])) ∷ []

abbrev add_cells : List ℕ → List ℕ → List ℕ
add_cells (x ∷ xs) (y ∷ ys) = (x + y) ∷ add_cells xs ys
add_cells _ _ = 0 ∷ 0 ∷ []

abbrev total : List (String × List ℕ) → List ℕ
total ((_, xs) ∷ (_, ys) ∷ []) = add_cells xs ys
total _ = 0 ∷ 0 ∷ []

abbrev sum : Expression whole values32
sum = record { name = "s"; evaluate = λ ps. array (total ps) }

sent_on :
    outputs whole values32 (sum ∷ []) two_canvases ("a#t=1" ∷ "b#t=1" ∷ [])
    ≡ ok (values 9 (7 ∷ 9 ∷ []) 2 1 "s#t=1" ∷ [])
unfolding outputs find_canvas axis_part evaluate_axis words
sent_on = refl

not_there : outputs whole values32 [] two_canvases ("c" ∷ []) ≡ err "unknown namespace"
unfolding outputs find_canvas
not_there = refl

first_there : find_canvas "a#t=1" two_canvases ≡ some (canvas "a#t=1" (3 ∷ 9 ∷ []))
unfolding find_canvas
first_there = refl

second_there : find_canvas "b#t=1" two_canvases ≡ some (canvas "b#t=1" (4 ∷ 5 ∷ []))
unfolding find_canvas
second_there = refl

abbrev vars : List (Variable whole values32)
vars = record { no_data = 9; cells = 3 ∷ 9 ∷ [] } ∷ record { no_data = 9; cells = 4 ∷ 5 ∷ [] } ∷ []

abbrev named : List BandVar
named = record { name = "a"; idx = 0 } ∷ record { name = "b"; idx = 1 } ∷ []

differ : str_eq "a" "b" ≡ false
differ = refl

given : sum.evaluate (parameters whole values32 vars named) ≡ array (7 ∷ 14 ∷ 0 ∷ 0 ∷ [])
unfolding parameters
given = refl

evaluate_axis-cells_example :
    (out : List ℕ) × (evaluate_axis whole values32 2 1 9 vars sum "t=1" named
      ≡ ok (values 9 out 2 1 "s#t=1"))
    × (length out ≡ 2 * 1)
    × ((j : ℕ) (s : ℕ)
        → j < 2 * 1
        → get_elem? (7 ∷ 14 ∷ 0 ∷ 0 ∷ []) j ≡ some s
        → get_elem? out j ≡ some (if any_hole whole values32 vars named j || false then 9 else s))
evaluate_axis-cells_example =
    evaluate_axis-cells whole values32 2 1 9 vars sum "t=1" named (7 ∷ 14 ∷ 0 ∷ 0 ∷ [])
      (
        (record { no_data = 9; cells = 3 ∷ 9 ∷ [] }, refl, omega arith),
        ((record { no_data = 9; cells = 4 ∷ 5 ∷ [] }, refl, omega arith), record {}),
      )
      ((differ, record {}), (record {}, record {})) given (omega arith)
