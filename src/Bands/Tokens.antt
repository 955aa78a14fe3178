-- ===== src/Bands/Tokens.antt =====
-- The variables and the operators among the tokens of an expression.
use mathlib.Core.List.{append-nil}
use gsky.Prelude.{
  or-false, or-true, ◌≡◌, refl, sym, ◌∙◌, ap, subst, inl, inr, Bool, true, false, not, ◌||◌,
  Bool-cases, Option, none, some, List, [], ◌∷◌, ◌++◌, Bytes,
}
use gsky.Prelude.Result.{ok, ◌>>=◌, >>=-eq-ok}
use gsky.Dap4.{}
use gsky.DrillMerger.{}
use gsky.Bands.Distinct.{add_all, add_all-append}
use gsky.Bands.{Token, Seen, add_new, see_variable, see_tokens}

-- The names of the variables in an expression.
abbrev name_of : Bool → Option Bytes → List Bytes → List Bytes
name_of true (some v) rest = v ∷ rest
name_of _ _ rest = rest

unfoldable pub variables_of : List Token → List Bytes
variables_of [] = []
variables_of (t ∷ ts) = name_of t.is_variable t.value (variables_of ts)

unfoldable pub all_variables : List (List Token) → List Bytes
unfolding variables_of
all_variables [] = []
all_variables (expr ∷ exprs) = variables_of expr ++ all_variables exprs

unfoldable pub has_operator : List Token → Bool
has_operator [] = false
has_operator (t ∷ ts) = not t.is_variable || has_operator ts

unfoldable pub any_operator : List (List Token) → Bool
unfolding has_operator
any_operator [] = false
any_operator (expr ∷ exprs) = has_operator expr || any_operator exprs

see_variable-some :
    (value : Option Bytes) (seen : Seen) {seen' : Seen}
    → see_variable value seen ≡ ok seen'
    → (v : Bytes) × (value ≡ some v)
      × (seen' ≡ record seen {
        var_list = add_new v seen.var_list;
        band_vars = add_new v seen.band_vars;
      })
see_variable-some none seen e = cc
see_variable-some (some v) seen e = (v, refl, cc)

-- What the loop over the tokens of an expression does.
abbrev Sees : List Token → Seen → Seen → Type 0
Sees ts seen seen' =
    (seen'.var_list ≡ add_all (variables_of ts) seen.var_list)
    × (seen'.band_vars ≡ add_all (variables_of ts) seen.band_vars)
    × (seen'.has_expr ≡ (seen.has_expr || has_operator ts))

pub see_tokens-Sees :
    (ts : List Token) (seen : Seen) {seen' : Seen}
    → see_tokens ts seen ≡ ok seen'
    → Sees ts seen seen'
unfolding see_tokens variables_of has_operator add_all
see_tokens-Sees [] seen {seen'} e =
    let same : seen ≡ seen' = cc in
    subst (Sees [] seen) same (refl, refl, sym (or-false seen.has_expr))
see_tokens-Sees (t ∷ ts) seen {seen'} e = elim (Bool-cases t.is_variable) [
  | inl variable ↦
      let e' : (see_variable t.value seen >>= see_tokens ts) ≡ ok seen' = rw variable at e in
      let (next, e1, r) = >>=-eq-ok (see_variable t.value seen) _ e' in
      let (v, named, made) = see_variable-some t.value seen e1 in
      let (a, b, c) = see_tokens-Sees ts next r in
      rw (variable, named)
        (
          a ∙ ap (λ s. add_all (variables_of ts) s.var_list) made,
          b ∙ ap (λ s. add_all (variables_of ts) s.band_vars) made,
          c ∙ ap (λ s. s.has_expr || has_operator ts) made,
        )
  | inr operator ↦
      let e' : see_tokens ts (record seen { has_expr = true }) ≡ ok seen' = rw operator at e in
      let (a, b, c) = see_tokens-Sees ts (record seen { has_expr = true }) e' in
      rw operator (a, b, c ∙ sym (or-true seen.has_expr))
]

pub variables_step :
    (expr : List Token) (exprs : List (List Token)) (found : List Bytes)
    → add_all (all_variables exprs) (add_all (all_variables (expr ∷ [])) found)
      ≡ add_all (all_variables (expr ∷ exprs)) found
unfolding all_variables
variables_step expr exprs found =
    rw (append-nil (variables_of expr))
      (sym (add_all-append (variables_of expr) (all_variables exprs) found))

or_step : (a b c : Bool) → ((a || (b || false)) || c) ≡ (a || (b || c))
or_step true b c = refl
or_step false true c = refl
or_step false false c = refl

pub operators_step :
    (h : Bool) (expr : List Token) (exprs : List (List Token))
    → ((h || any_operator (expr ∷ [])) || any_operator exprs) ≡ (h || any_operator (expr ∷ exprs))
unfolding any_operator
operators_step h expr exprs = or_step h (has_operator expr) (any_operator exprs)
