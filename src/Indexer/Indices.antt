-- ===== src/Indexer/Indices.antt =====
-- `doSelectionByIndices`. The result holds the flag "out of range" and what was picked so far.
use gsky.Prelude.{
  ℕ, zero, suc, ◌+◌, Bool, true, false, ◌||◌, Option, none, some, List, [], ◌∷◌, ltb, leb, ◌==◌,
  if◌then◌else◌, length, get_elem?, map, ◌>>=◌,
}
use gsky.Prelude.Result.{Result, ok, err, panic, or_panic}
use gsky.Dap4.{Selector}
use gsky.Indexer.Axes.{Coords, enum, Picked, DatasetAxis, pick}

unfoldable pub is_in : ℕ → List ℕ → Bool
is_in i [] = false
is_in i (j ∷ js) = i == j || is_in i js

-- idxStart, and idxEnd + 1: the number of parameters when there is no end.
abbrev pub start_of : Selector → ℕ
start_of sel = elim sel.start [ some i ↦ i | none ↦ 0 ]

abbrev pub end_of : ℕ → Selector → ℕ
end_of n sel = elim sel.stop [ some i ↦ suc i | none ↦ n ]

abbrev pub step_of : Selector → ℕ
step_of sel = elim sel.step [ some i ↦ i | none ↦ 1 ]

abbrev pub two_63 : ℕ
two_63 = 9223372036854775808

-- ArgSort
pub record ArgSort : Type 0 where
  pub sort_idx : ℕ
  pub val : ℕ

unfoldable pub arg_sorts : ℕ → List ℕ → List ArgSort
arg_sorts i [] = []
arg_sorts i (v ∷ vs) = record { sort_idx = i; val = v } ∷ arg_sorts (i + 1) vs

-- sort.Slice, which leaves the order of equal indices open; here the first of them stays the first.
-- Their values are equal, too.
unfoldable pub insert_arg : ArgSort → List ArgSort → List ArgSort
insert_arg a [] = a ∷ []
insert_arg a (b ∷ bs) =
    let rest = insert_arg a bs in if leb a.val b.val then a ∷ b ∷ bs else b ∷ rest

unfoldable pub sort_args : List ArgSort → List ArgSort
unfolding insert_arg
sort_args [] = []
sort_args (a ∷ rest) = insert_arg a (sort_args rest)

module _ (co : Coords) where
  open co use {F}

  -- for idx := idxStart; idx <= idxEnd; idx += step, where end is idxEnd + 1. The fuel is end: each
  -- round passes at least one index. A sum that is too large for an int is a negative index, which
  -- is below idxEnd and a panic.
  unfoldable pub pick_range : ℕ → List F → List ℕ → ℕ → ℕ → ℕ → Picked co → Option (Picked co)
  unfolding is_in
  pick_range zero params lookup step end i p = some p
  pick_range (suc fuel) params lookup step end i p =
      let skipped = pick_range fuel params lookup step end (i + step) p in
      let picked =
        (get_elem? params i >>= λ v.
        pick_range fuel params lookup step end (i + step) (pick co i v p)) in
      if leb two_63 i
      then none
      else if leb end i
      then some p
      else if is_in i lookup
      then skipped
      else picked

  -- sel.IsAll
  unfoldable pub all_from : ℕ → List F → List ℕ
  all_from i [] = []
  all_from i (v ∷ vs) = i ∷ all_from (i + 1) vs

  -- What one selector does: it ends the selection with a flag, or leaves the lookup and the picked.
  pub data Outcome : Type 0 where
    done : Bool → Picked co → Outcome
    next : List ℕ → Picked co → Outcome

  abbrev pub select_one : List F → Option ℕ → List ℕ → Picked co → Result Outcome
  select_one params none lookup p = err "starting index is null"
  select_one params (some i) lookup p =
      if leb (length params) i
      then ok (done true p)
      else if is_in i lookup
      then ok (next lookup p)
      else or_panic (get_elem? params i >>= λ v. some (next (i ∷ lookup) (pick co i v p)))

  abbrev pub select_range : List F → Selector → List ℕ → Picked co → Result Outcome
  select_range params sel lookup p =
      let end = end_of (length params) sel in
      if ltb (length params) end
      then ok (done true p)
      else if leb end (start_of sel)
      then err "starting index must be lower or equal to ending index"
      else if ltb (step_of sel) 1
      then err "indexing step must be greater or equal to 1"
      else or_panic (
          pick_range end params lookup (step_of sel) end (start_of sel) p >>= λ p'.
          some (next lookup p'))

  unfoldable pub select : List F → Selector → List ℕ → Picked co → Result Outcome
  unfolding all_from is_in pick_range
  select params sel lookup p =
      if sel.is_all
      then ok (done false (record { idx = all_from 0 params; values = params }))
      else if sel.is_range
      then select_range params sel lookup p
      else select_one params sel.start lookup p

  -- newIntersectionValues
  unfoldable pub values_of : List ArgSort → List F → Option (List F)
  values_of [] vs = some []
  values_of (a ∷ args) vs = do
    v ← get_elem? vs a.sort_idx
    rest ← values_of args vs
    some (v ∷ rest)

  unfoldable pub sort_picked : Picked co → Option (Picked co)
  unfolding arg_sorts sort_args values_of
  sort_picked p =
      let args = sort_args (arg_sorts 0 p.idx) in
      values_of args p.values >>= λ values.
      some (record { idx = map ArgSort.val args; values = values })

  abbrev pub go_on :
      Result Outcome → (List ℕ → Picked co → Result (Bool × Picked co)) → Result (Bool × Picked co)
  go_on (ok (done out p)) f = ok (out, p)
  go_on (ok (next lookup p)) f = f lookup p
  go_on (err e) f = err e
  go_on panic f = panic

  -- The loop over the selectors, and the sort.
  unfoldable pub select_all :
      List F → List Selector → List ℕ → Picked co → Result (Bool × Picked co)
  unfolding select sort_picked
  select_all params [] lookup p = or_panic (sort_picked p >>= λ p'. some (false, p'))
  select_all params (sel ∷ sels) lookup p =
      go_on (select params sel lookup p) (select_all params sels)

  unfoldable pub do_selection_by_indices :
      DatasetAxis co → List Selector → Result (Bool × Picked co)
  unfolding select_all
  do_selection_by_indices axis sels = elim axis.grid [
    | enum ↦ select_all axis.params sels [] axis.picked
    | _ ↦ err "grid type must be 'enum' for index-based selections"
  ]
