-- ===== src/Merger/Namespaces.antt =====
-- strings.Split(ns, "#") in `RasterMerger.Run`: the first two parts of a namespace.
use Prim.Native.Char.{code}
use Prim.Native.String.{String, [], ◌∷◌}
use gsky.Prelude.{Option, none, some, ◌==◌, if◌then◌else◌}

-- parts[0]
unfoldable pub var_part : String → String
var_part [] = []
var_part (c ∷ s) = let rest = var_part s in if code c == b'#' then [] else c ∷ rest

-- parts[1], if there are two.
unfoldable pub axis_part : String → Option String
unfolding var_part
axis_part [] = none
axis_part (c ∷ s) = let rest = axis_part s in if code c == b'#' then some (var_part s) else rest
