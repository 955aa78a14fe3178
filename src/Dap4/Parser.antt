-- ===== src/Dap4/Parser.antt =====
-- utils/dap4_ce_parser.go: `parseVariables`, `parseFilters` and `ParseDap4ConstraintExpr`.
use gsky.Prelude.{
  ℕ, Bool, true, false, not, ◌||◌, Option, none, some, List, [], ◌∷◌, ◌==◌, if◌then◌else◌, length,
  Bytes, bytes_eq,
}
use gsky.Prelude.Result.{Result, ok, err, panic, ◌>>=◌}
use gsky.Dap4.{
  trim_space, split, cut_at, without_last, is_var_name, Selector, trimmed_parts, append_each,
  parse_var_selectors,
}

-- The floating-point numbers, the two constants of package math, and `parseEndpoint`, which calls
-- strconv.ParseFloat and time.Parse; `none` is its error.
pub record Endpoints : Type 1 where
  pub F : Type 0
  pub gt : F → F → Bool
  pub smallest_nonzero : F
  pub max : F
  pub parse_endpoint : Bytes → Option F

-- The relational operators, by their code.
pub data RelOp : Type 0 where
  greater less equal : RelOp

abbrev pub rel_op : ℕ → RelOp
rel_op c = if c == b'>' then greater else if c == b'<' then less else equal

abbrev pub is_rel_op : ℕ → Bool
is_rel_op c = c == b'>' || (c == b'<' || c == b'=')

-- The second byte of >= and <=, which is passed over.
abbrev pub skip_equal : Bytes → Bytes
skip_equal [] = []
skip_equal (c ∷ s) = if c == b'=' then s else c ∷ s

module _ (ep : Endpoints) where
  open ep use {F, gt, smallest_nonzero, max, parse_endpoint}

  pub record VarParam : Type 0 where
    pub name : Bytes
    pub val_start : Option F
    pub val_end : Option F
    pub idx_selectors : List Selector
    pub is_axis : Bool

  abbrev pub with_selectors : Bytes → Option Bytes → Result VarParam
  with_selectors name none = err "missing ]"
  with_selectors name (some idx_sel) = parse_var_selectors idx_sel >>= λ sels. ok (record {
    name = name;
    val_start = none;
    val_end = none;
    idx_selectors = sels;
    is_axis = true;
  })

  -- A variable with a bracket, cut there.
  unfoldable pub indexed_variable : Bytes → Bytes → Result VarParam
  indexed_variable name after =
      let with = with_selectors name (without_last b']' after) in
      if length name == 0
      then err "variable not found"
      else if is_var_name name
      then with
      else err "invalid variable name"

  abbrev pub plain_variable : Bytes → Result VarParam
  plain_variable va =
      if is_var_name va
      then ok (record {
        name = va;
        val_start = none;
        val_end = none;
        idx_selectors = [];
        is_axis = false;
      })
      else err "invalid variable name"

  abbrev pub cut_variable : Bytes → Option (Bytes × ℕ × Bytes) → Result VarParam
  cut_variable va none = plain_variable va
  cut_variable va (some (before, c, after)) = indexed_variable (trim_space before) after

  -- The body of the loop of parseVariables, for a part that is not blank.
  unfoldable pub parse_variable : Bytes → Result VarParam
  unfolding indexed_variable
  parse_variable va = cut_variable va (cut_at (λ c. c == b'[') va)

  unfoldable pub parse_variables : Bytes → List VarParam → Result (List VarParam)
  unfolding parse_variable
  parse_variables s params = append_each parse_variable (trimmed_parts (split b';' s)) params

  abbrev pub endpoint : Option F → Result F
  endpoint none = err "invalid endpoint"
  endpoint (some val) = ok val

  abbrev pub axis : Bytes → Option F → Option F → VarParam
  axis name lower upper = record {
    name = name;
    val_start = lower;
    val_end = upper;
    idx_selectors = [];
    is_axis = true;
  }

  unfoldable pub ordered : Bytes → F → F → Option F → Result VarParam
  ordered name lower upper val_end =
      if gt lower upper
      then err "lower endpoint greater than upper endpoint"
      else ok (axis name (some lower) val_end)

  -- A filter with one operator: `name op value`.
  abbrev pub bounds : Bytes → RelOp → F → Result VarParam
  bounds name greater val = ordered name val max (some max)
  bounds name less val = ordered name smallest_nonzero val (some val)
  bounds name equal val = ordered name val max none

  unfoldable pub one_sided : Bytes → RelOp → Bytes → Result VarParam
  unfolding ordered
  one_sided left op right =
      if is_var_name left
      then (endpoint (parse_endpoint right) >>= bounds left op)
      else err "invalid variable name for the left op"

  -- A filter with two operators of one direction: `low op name op high`.
  abbrev pub between : Bytes → RelOp → F → F → Result VarParam
  between name greater a b = ordered name b a (some a)
  between name less a b = ordered name a b (some b)
  between name equal a b = err "invalid filter expression"

  abbrev pub same_direction : RelOp → RelOp → Bool
  same_direction greater greater = true
  same_direction less less = true
  same_direction _ _ = false

  unfoldable pub two_sided : Bytes → RelOp → Bytes → RelOp → Bytes → Result VarParam
  unfolding ordered
  two_sided left op mid op2 right =
      if not (same_direction op op2)
      then err "invalid filter expression"
      else if is_var_name mid
      then (endpoint (parse_endpoint left) >>= λ a.
          endpoint (parse_endpoint right) >>= between mid op a)
      else err "invalid variable name for the middle op"

  abbrev pub second_side : Bytes → RelOp → Bytes → RelOp → Bytes → Result VarParam
  second_side left op mid op2 [] = err "invalid filter expression"
  second_side left op mid op2 (c ∷ s) = two_sided left op mid op2 (trim_space (c ∷ s))

  -- What follows the first operator, cut at the second one if there is one.
  abbrev pub first_side : Bytes → RelOp → Bytes → Option (Bytes × ℕ × Bytes) → Result VarParam
  first_side left op [] none = err "invalid filter expression"
  first_side left op (c ∷ s) none = one_sided left op (trim_space (c ∷ s))
  first_side left op rest (some (mid, c, after)) =
      let second = second_side left op (trim_space mid) (rel_op c) (skip_equal after) in
      if length (trim_space mid) == 0 then err "invalid filter expression" else second

  abbrev pub cut_filter : Option (Bytes × ℕ × Bytes) → Result VarParam
  cut_filter none = err "invalid filter expression"
  cut_filter (some (before, c, after)) =
      let first =
        first_side (trim_space before) (rel_op c) (skip_equal after)
          (cut_at is_rel_op (skip_equal after)) in
      if length (trim_space before) == 0 then err "filter expression missing left op" else first

  -- The body of the loop of parseFilters, for a part that is not blank.
  unfoldable pub parse_filter : Bytes → Result VarParam
  unfolding one_sided two_sided
  parse_filter flt = cut_filter (cut_at is_rel_op flt)

  unfoldable pub parse_filters : Bytes → List VarParam → Result (List VarParam)
  unfolding parse_filter
  parse_filters s params = append_each parse_filter (trimmed_parts (split b',' s)) params

  -- varLookup: whether a name stands in the list.
  unfoldable pub has_name : Bytes → List VarParam → Bool
  has_name name [] = false
  has_name name (p ∷ ps) = bytes_eq p.name name || has_name name ps

  unfoldable pub has_duplicate : List VarParam → Bool
  unfolding has_name
  has_duplicate [] = false
  has_duplicate (p ∷ ps) = has_name p.name ps || has_duplicate ps

  pub record Constraints : Type 0 where
    pub dataset : Bytes
    pub var_params : List VarParam

  unfoldable pub check_names : Bytes → List VarParam → Result Constraints
  unfolding has_duplicate
  check_names dataset params =
      if has_duplicate params
      then err "duplicated constraint for variable"
      else ok (record { dataset = dataset; var_params = params })

  abbrev pub braced : Bytes → Bytes → Option Bytes → Result Constraints
  braced dataset filters none = err "missing }"
  braced dataset filters (some var_str) =
      parse_variables var_str [] >>= parse_filters filters >>= check_names dataset

  abbrev pub cut_dataset : Bytes → Option (Bytes × ℕ × Bytes) → Result Constraints
  cut_dataset filters none = err "dataset not found"
  cut_dataset filters (some (before, c, after)) =
      let found = braced (trim_space before) filters (without_last b'}' after) in
      if length (trim_space before) == 0 then err "dataset not found" else found

  abbrev pub parse_selection : List Bytes → Result Constraints
  parse_selection [] = panic
  parse_selection (subset ∷ []) = cut_dataset [] (cut_at (λ c. c == b'{') (trim_space subset))
  parse_selection (subset ∷ filters ∷ []) =
      cut_dataset (trim_space filters) (cut_at (λ c. c == b'{') (trim_space subset))
  parse_selection (_ ∷ _ ∷ _ ∷ _) = err "only a single filter expression is supported"

  unfoldable pub parse_dap4_constraint_expr : Bytes → Result Constraints
  unfolding parse_variables parse_filters check_names
  parse_dap4_constraint_expr s = parse_selection (split b'|' (trim_space s))
