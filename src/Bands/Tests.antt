-- ===== src/Bands/Tests.antt =====
-- Tests of the band expressions of utils/config.go, with a parser that knows two expressions.
use gsky.Prelude.{
  ◌≡◌, refl, true, false, Option, none, some, List, [], ◌∷◌, map, if◌then◌else◌, String, Bytes,
  bytes_eq, codes,
}
use gsky.Prelude.Result.{ok, err}
use gsky.DrillMerger.{}
use gsky.Bands.{
  Token, BandExpressions, deny, deny_all, Criteria, parse_band_expressions, check_complexity,
}
use gsky.Bands.Distinct.{distinct}
use gsky.Bands.Variables.{AllParsed, parse_band_expressions-variables}
use gsky.Bands.Tokens.{variables_of, all_variables, any_operator}
use gsky.Bands.Complexity.{Accepts, check_complexity-Accepts}

abbrev variable : String → Token
variable v = record { kind = codes "VARIABLE"; is_variable = true; value = some (codes v) }

abbrev operator : String → Token
operator v = record { kind = codes "MODIFIER"; is_variable = false; value = some (codes v) }

abbrev ratio : List Token
ratio = variable "red" ∷ operator "/" ∷ variable "nir" ∷ variable "red" ∷ []

abbrev parse_expr : Bytes → Option (List Token)
parse_expr text =
    if bytes_eq text (codes "red / nir red")
    then some ratio
    else if bytes_eq text (codes "nir")
    then some (variable "nir" ∷ [])
    else none

abbrev bands : List Bytes
bands = codes "nir" ∷ codes "r = red / nir red" ∷ []

abbrev parsed : BandExpressions
parsed = record {
  expressions = (variable "nir" ∷ []) ∷ ratio ∷ [];
  expr_var_ref = (codes "nir" ∷ []) ∷ (codes "red" ∷ codes "nir" ∷ []) ∷ [];
  var_list = codes "nir" ∷ codes "red" ∷ [];
  expr_names = codes "nir" ∷ codes "r" ∷ [];
}

two_bands_read : parse_band_expressions parse_expr bands ≡ ok parsed
unfolding parse_band_expressions
two_bands_read = refl

blank_part : parse_band_expressions parse_expr (codes "r = " ∷ []) ≡ err "invalid expression"
unfolding parse_band_expressions
blank_part = refl

parse_band_expressions-variables_example :
    (exprs : List (List Token)) × AllParsed parse_expr bands (codes "nir" ∷ codes "r" ∷ []) exprs
    × (codes "nir" ∷ codes "red" ∷ [] ≡ distinct (all_variables exprs))
    × (parsed.expr_var_ref ≡ map (λ e. distinct (variables_of e)) exprs)
    × (parsed.expressions ≡ (if any_operator exprs then exprs else []))
parse_band_expressions-variables_example =
    parse_band_expressions-variables parse_expr bands two_bands_read

abbrev criteria : Criteria
criteria = record {
  variable_lookup = codes "red" ∷ codes "nir" ∷ [];
  max_expressions = 2;
  max_variables = 4;
  max_tokens = 5;
  token_acl =
      (codes "MODIFIER", deny (some (codes "**") ∷ none ∷ [])) ∷ (codes "NUMERIC", deny_all) ∷ [];
}

parsed_accepted : check_complexity parsed criteria ≡ ok tt
unfolding check_complexity
parsed_accepted = refl

check_complexity-Accepts_example : Accepts parsed criteria
check_complexity-Accepts_example = (check_complexity-Accepts parsed criteria).0 parsed_accepted

ratio_denied :
    check_complexity parsed
      (record criteria { token_acl = (codes "MODIFIER", deny (some (codes "/") ∷ [])) ∷ [] })
    ≡ err "Operation not supported"
unfolding check_complexity
ratio_denied = refl

-- A plain variable is not looked up: there are no expressions.
abbrev plain : BandExpressions
plain = record {
  expressions = [];
  expr_var_ref = (codes "nir" ∷ []) ∷ [];
  var_list = codes "nir" ∷ [];
  expr_names = codes "nir" ∷ [];
}

plain_parsed : parse_band_expressions parse_expr (codes "nir" ∷ []) ≡ ok plain
unfolding parse_band_expressions
plain_parsed = refl

plain_accepted :
    check_complexity plain (record criteria { variable_lookup = codes "red" ∷ [] }) ≡ ok tt
unfolding check_complexity
plain_accepted = refl
