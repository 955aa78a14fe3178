-- ===== src/Bands.antt =====
-- utils/config.go: the band expressions of a request, `ParseBandExpressions`, and the check on those
-- that a user may write, `CheckBandExpressionsComplexity`. The parser of an expression, of the library
-- goeval, is the parameter `parse_expr`, which gives an expression as its tokens. Texts are ASCII.
use gsky.Prelude.{
  ℕ, zero, suc, ◌+◌, Bool, true, false, not, ◌&&◌, ◌||◌, Option, none, some, List, [], ◌∷◌, ◌++◌,
  ltb, ◌==◌, if◌then◌else◌, length, map, Bytes, bytes_eq, codes,
}
use gsky.Prelude.Result.{Result, ok, err, ◌>>=◌}
use gsky.Dap4.{trim_space, trim_left, trim_right, split}
use gsky.DrillMerger.{lookup, is_listed}
pub mod Distinct
pub mod Variables
pub mod Complexity
mod Tokens
mod Tests

-- A token: its kind, whether that is VARIABLE, and its value if that is a string.
pub record Token : Type 0 where
  pub kind : Bytes
  pub is_variable : Bool
  pub value : Option Bytes

-- BandExpressions, without the text of the request.
pub record BandExpressions : Type 0 where
  pub expressions : List (List Token)
  pub expr_var_ref : List (List Bytes)
  pub var_list : List Bytes
  pub expr_names : List Bytes

-- The parts of a band, trimmed; none of them may be blank.
abbrev pub keep_part : Bytes → Result (List Bytes) → Result (List Bytes)
keep_part [] rest = err "invalid expression"
keep_part (c ∷ s) rest = rest >>= λ parts. ok ((c ∷ s) ∷ parts)

unfoldable pub trim_parts : List Bytes → Result (List Bytes)
unfolding trim_left trim_right
trim_parts [] = ok []
trim_parts (p ∷ ps) = keep_part (trim_space p) (trim_parts ps)

-- The name of the expression and its text.
abbrev pub name_and_text : List Bytes → Result (Bytes × Bytes)
name_and_text (band ∷ []) = ok (band, band)
name_and_text (name ∷ band ∷ []) = ok (name, band)
name_and_text _ = err "invalid expression"

-- A list in which each text is once: a name is added where it is not found.
unfoldable pub add_new : Bytes → List Bytes → List Bytes
unfolding is_listed
add_new v found = if is_listed v found then found else found ++ (v ∷ [])

-- The variables of bandExpr and of one band, and hasExprAll.
pub record Seen : Type 0 where
  pub var_list : List Bytes
  pub band_vars : List Bytes
  pub has_expr : Bool

abbrev pub see_variable : Option Bytes → Seen → Result Seen
see_variable none seen = err "variable token failed to cast string"
see_variable (some v) seen =
    ok (record seen { var_list = add_new v seen.var_list; band_vars = add_new v seen.band_vars })

-- The loop over the tokens.
unfoldable pub see_tokens : List Token → Seen → Result Seen
unfolding add_new
see_tokens [] seen = ok seen
see_tokens (t ∷ ts) seen =
    (if t.is_variable then see_variable t.value seen else ok (record seen { has_expr = true }))
    >>= see_tokens ts

abbrev pub expression_of : Option (List Token) → Result (List Token)
expression_of none = err "invalid expression"
expression_of (some expr) = ok expr

module _ (parse_expr : Bytes → Option (List Token)) where
  abbrev pub add_band : Bytes → List Token → BandExpressions → Seen → BandExpressions × Bool
  add_band name expr be seen = (
    record {
      expressions = be.expressions ++ (expr ∷ []);
      expr_var_ref = be.expr_var_ref ++ (seen.band_vars ∷ []);
      var_list = seen.var_list;
      expr_names = be.expr_names ++ (name ∷ []);
    },
    seen.has_expr,
  )

  -- The body of the loop over the bands, with hasExprAll.
  unfoldable pub parse_band : Bytes → BandExpressions × Bool → Result (BandExpressions × Bool)
  unfolding split trim_parts see_tokens
  parse_band band_raw (be, has_expr) = do
    parts ← trim_parts (split b'=' band_raw)
    named ← name_and_text parts
    expr ← expression_of (parse_expr named.1)
    seen ← see_tokens expr (record { var_list = be.var_list; band_vars = []; has_expr = has_expr })
    ok (add_band named.0 expr be seen)

  unfoldable pub parse_bands : List Bytes → BandExpressions × Bool → Result (BandExpressions × Bool)
  unfolding parse_band
  parse_bands [] be = ok be
  parse_bands (band ∷ bands) be = parse_band band be >>= parse_bands bands

  -- Without a token that is no variable there are no expressions.
  abbrev pub without_plain : BandExpressions × Bool → BandExpressions
  without_plain (be, true) = be
  without_plain (be, false) = record be { expressions = [] }

  unfoldable pub parse_band_expressions : List Bytes → Result BandExpressions
  unfolding parse_bands
  parse_band_expressions bands =
      parse_bands bands
        (record { expressions = []; expr_var_ref = []; var_list = []; expr_names = [] }, false)
      >>= λ r. ok (without_plain r)

-- An entry of TokenACL: null, a list of which the texts are given, or another type.
pub data Acl : Type 0 where
  deny_all : Acl
  deny : List (Option Bytes) → Acl
  unknown : Acl

-- BandExpressionComplexityCriteria
pub record Criteria : Type 0 where
  pub variable_lookup : List Bytes
  pub max_expressions : ℕ
  pub max_variables : ℕ
  pub max_tokens : ℕ
  pub token_acl : List (Bytes × Acl)

unfoldable pub count_tokens : List (List Token) → ℕ
count_tokens [] = 0
count_tokens (expr ∷ exprs) = length expr + count_tokens exprs

-- The loops over the tokens of all expressions: each must pass a test.
unfoldable pub every_token : (Token → Bool) → List Token → Bool
every_token test [] = true
every_token test (t ∷ ts) = test t && every_token test ts

unfoldable pub all_tokens : (Token → Bool) → List (List Token) → Bool
unfolding every_token
all_tokens test [] = true
all_tokens test (expr ∷ exprs) = every_token test expr && all_tokens test exprs

abbrev pub is_listed_value : Option Bytes → List Bytes → Bool
is_listed_value none names = false
is_listed_value (some v) names = is_listed v names

-- A variable is supported. The two errors are one: a value that is no string, and a missing name.
abbrev pub is_supported : List Bytes → Token → Bool
is_supported names t = if t.is_variable then is_listed_value t.value names else true

-- aclLookup: a value that is no text is noted as the empty text.
abbrev pub acl_text : Option Bytes → Bytes
acl_text none = []
acl_text (some s) = s

abbrev pub passes_acl : Option Bytes → Option Acl → Bool
passes_acl value none = true
passes_acl value (some deny_all) = false
passes_acl none (some (deny texts)) = true
passes_acl (some v) (some (deny texts)) = not (is_listed v (map acl_text texts))
passes_acl value (some unknown) = true

abbrev pub is_allowed : List (Bytes × Acl) → Token → Bool
is_allowed acl t = passes_acl t.value (lookup t.kind acl)

-- Whether a check fails, in the order of the code.
unfoldable pub check_complexity : BandExpressions → Criteria → Result (Unit {0})
unfolding count_tokens all_tokens lookup is_listed
check_complexity be criteria =
    if length criteria.variable_lookup == 0
    then err "user-defined band math is not enabled for this layer"
    else if ltb criteria.max_expressions (length be.expressions)
    then err "Too many expressions"
    else if ltb criteria.max_variables (length be.var_list)
    then err "Too many variables"
    else if ltb criteria.max_tokens (count_tokens be.expressions)
    then err "Too many tokens"
    else if not (all_tokens (is_supported criteria.variable_lookup) be.expressions)
    then err "variable not supported"
    else if not (all_tokens (is_allowed criteria.token_acl) be.expressions)
    then err "Operation not supported"
    else ok tt
