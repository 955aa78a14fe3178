-- ===== src/Dap4/Tests.antt =====
-- Selectors.
use gsky.Dap4.Parser.{Endpoints, Constraints, parse_dap4_constraint_expr}
use gsky.Dap4.Names.{IsParam, IsDistinct, parse_dap4_constraint_expr-IsWellFormed}
use gsky.Prelude.{
  ℕ, ◌-◌, ◌&&◌, Option, leb, ltb, if◌then◌else◌, All, Bytes, ◌≡◌, refl, true, false, none, some, [],
  ◌∷◌, codes,
}
use gsky.Prelude.Result.{ok}
use gsky.Dap4.{
  split, cut_at, without_last, append_each, trimmed_parts, is_var_name, trim_left, trim_right,
  parse_decimal, parse_var_selectors,
}

two :
    parse_var_selectors (codes "0:2:9, 7")
    ≡ ok (
        record { start = some 0; stop = some 9; step = some 2; is_range = true; is_all = false }
        ∷ record { start = some 7; stop = none; step = none; is_range = false; is_all = false }
        ∷ [])
unfolding parse_var_selectors trim_right trim_left parse_decimal
two = refl

-- Endpoints that are whole numbers of one digit.
abbrev one_digit : Bytes → Option ℕ
one_digit (c ∷ []) = if leb b'0' c && leb c b'9' then some (c - b'0') else none
one_digit _ = none

abbrev whole : Endpoints
whole = record {
  F = ℕ;
  gt = λ a b. ltb b a;
  smallest_nonzero = 1;
  max = 9;
  parse_endpoint = one_digit;
}

abbrev parsed : Constraints whole
parsed = record {
  dataset = codes "ds";
  var_params =
      record {
        name = codes "v";
        val_start = none;
        val_end = none;
        idx_selectors = [];
        is_axis = false;
      }
      ∷ record {
        name = codes "y";
        val_start = some 2;
        val_end = some 7;
        idx_selectors = [];
        is_axis = true;
      }
      ∷ [];
}

parses : parse_dap4_constraint_expr whole (codes "ds{v}|2<y<7") ≡ ok parsed
unfolding parse_dap4_constraint_expr split trim_right trim_left cut_at without_last append_each
    trimmed_parts is_var_name
parses = refl

parse_dap4_constraint_expr-IsWellFormed_example :
    All (IsParam whole) parsed.var_params × IsDistinct whole parsed.var_params
parse_dap4_constraint_expr-IsWellFormed_example =
    parse_dap4_constraint_expr-IsWellFormed whole (codes "ds{v}|2<y<7") parsed parses
