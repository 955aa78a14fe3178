-- ===== src/Bands/Variables.antt =====
-- The variables that `ParseBandExpressions` finds.
use mathlib.Core.List.{append_assoc, append-nil}
use gsky.Prelude.{
  or-false, ◌≡◌, refl, sym, ◌∙◌, ap, ap₂, subst, Bool, true, false, ◌||◌, Option, none, some, List,
  [], ◌∷◌, ◌++◌, if◌then◌else◌, map, Bytes,
}
use gsky.Prelude.Result.{ok, >>=-eq-ok}
use gsky.Dap4.{split}
use gsky.DrillMerger.{}
use gsky.Bands.Distinct.{distinct, add_all, add_all-distinct}
use gsky.Bands.{
  Token, BandExpressions, Seen, trim_parts, name_and_text, see_tokens, expression_of, add_band,
  parse_band, parse_bands, without_plain, parse_band_expressions,
}
use gsky.Bands.Tokens.{
  variables_of, all_variables, has_operator, any_operator, see_tokens-Sees, variables_step,
  operators_step,
}

module _ (parse_expr : Bytes → Option (List Token)) where
  -- The name and the expression of a band: the part before the equals sign and the one behind it, or
  -- the whole band twice.
  abbrev pub IsParsed : Bytes → Bytes → List Token → Type 0
  IsParsed band name expr =
      (parts : List Bytes) × (text : Bytes) × (trim_parts (split b'=' band) ≡ ok parts)
      × (name_and_text parts ≡ ok (name, text))
      × (parse_expr text ≡ some expr)

  abbrev pub AllParsed : List Bytes → List Bytes → List (List Token) → Type 0
  AllParsed [] names exprs = (names ≡ []) × (exprs ≡ [])
  AllParsed (band ∷ bands) (name ∷ names) (expr ∷ exprs) =
      IsParsed band name expr × AllParsed bands names exprs
  AllParsed (band ∷ bands) _ _ = ⊥

  abbrev refs_of : List (List Token) → List (List Bytes)
  refs_of exprs = map (λ e. distinct (variables_of e)) exprs

  -- What some expressions with their names add.
  abbrev Adds :
      List Bytes → List (List Token) → BandExpressions × Bool → BandExpressions × Bool → Type 0
  Adds names exprs r r' =
      (r'.0.expressions ≡ r.0.expressions ++ exprs)
      × (r'.0.expr_var_ref ≡ r.0.expr_var_ref ++ refs_of exprs)
      × (r'.0.var_list ≡ add_all (all_variables exprs) r.0.var_list)
      × (r'.0.expr_names ≡ r.0.expr_names ++ names)
      × (r'.1 ≡ (r.1 || any_operator exprs))

  expression_of-some :
      (o : Option (List Token)) {expr : List Token} → expression_of o ≡ ok expr → o ≡ some expr
  expression_of-some none e = cc
  expression_of-some (some x) e = cc

  parse_band-Adds :
      (band : Bytes) (be : BandExpressions) (h : Bool) {r' : BandExpressions × Bool}
      → parse_band parse_expr band (be, h) ≡ ok r'
      → (name : Bytes) × (expr : List Token) × IsParsed band name expr
        × Adds (name ∷ []) (expr ∷ []) (be, h) r'
  unfolding parse_band all_variables any_operator
  parse_band-Adds band be h {r'} e =
      let (parts, e1, r1) = >>=-eq-ok (trim_parts (split b'=' band)) _ e in
      let ((name, text), e2, r2) = >>=-eq-ok (name_and_text parts) _ r1 in
      let (expr, e3, r3) = >>=-eq-ok (expression_of (parse_expr text)) _ r2 in
      let start : Seen = record { var_list = be.var_list; band_vars = []; has_expr = h } in
      let (seen, e4, r4) = >>=-eq-ok (see_tokens expr start) _ r3 in
      let (a, b, c) = see_tokens-Sees expr start e4 in
      let same : add_band parse_expr name expr be seen ≡ r' = cc in
      (
        name,
        expr,
        (parts, text, e1, e2, expression_of-some (parse_expr text) e3),
        subst (Adds (name ∷ []) (expr ∷ []) (be, h)) same (
          refl,
          ap (λ vs. be.expr_var_ref ++ (vs ∷ [])) (b ∙ add_all-distinct (variables_of expr)),
          a ∙ ap (λ vs. add_all vs be.var_list) (sym (append-nil (variables_of expr))),
          refl,
          c ∙ ap (λ b'. h || b') (sym (or-false (has_operator expr))),
        ),
      )

  parse_bands-Adds :
      (bands : List Bytes) (be : BandExpressions) (h : Bool) {r' : BandExpressions × Bool}
      → parse_bands parse_expr bands (be, h) ≡ ok r'
      → (names : List Bytes) × (exprs : List (List Token)) × AllParsed bands names exprs
        × Adds names exprs (be, h) r'
  unfolding parse_bands all_variables any_operator add_all
  parse_bands-Adds [] be h {r'} e =
      let same : (be, h) ≡ r' = cc in
      (
        [],
        [],
        (refl, refl),
        subst (Adds [] [] (be, h)) same (
          sym (append-nil be.expressions),
          sym (append-nil be.expr_var_ref),
          refl,
          sym (append-nil be.expr_names),
          sym (or-false h),
        ),
      )
  parse_bands-Adds (band ∷ bands) be h {r'} e =
      let ((be1, h1), e1, r1) = >>=-eq-ok (parse_band parse_expr band (be, h)) _ e in
      let (name, expr, parsed, (x1, f1, v1, n1, o1)) = parse_band-Adds band be h e1 in
      let (names, exprs, all_parsed, (x2, f2, v2, n2, o2)) = parse_bands-Adds bands be1 h1 r1 in
      (
        name ∷ names,
        expr ∷ exprs,
        (parsed, all_parsed),
        (
          x2 ∙ ap (λ l. l ++ exprs) x1 ∙ append_assoc be.expressions (expr ∷ []) exprs,
          f2
              ∙ ap (λ l. l ++ refs_of exprs) f1
              ∙ append_assoc be.expr_var_ref (refs_of (expr ∷ [])) (refs_of exprs),
          v2 ∙ ap (add_all (all_variables exprs)) v1 ∙ variables_step expr exprs be.var_list,
          n2 ∙ ap (λ l. l ++ names) n1 ∙ append_assoc be.expr_names (name ∷ []) names,
          o2 ∙ ap (λ b. b || any_operator exprs) o1 ∙ operators_step h expr exprs,
        ),
      )

  without_plain-fields :
      (be : BandExpressions) (h : Bool)
      → ((without_plain parse_expr (be, h)).expressions ≡ (if h then be.expressions else []))
        × ((without_plain parse_expr (be, h)).expr_var_ref ≡ be.expr_var_ref)
        × ((without_plain parse_expr (be, h)).var_list ≡ be.var_list)
        × ((without_plain parse_expr (be, h)).expr_names ≡ be.expr_names)
  without_plain-fields be true = (refl, refl, refl, refl)
  without_plain-fields be false = (refl, refl, refl, refl)

  -- When `ParseBandExpressions` succeeds, every band has been parsed, and there is a name for each.
  -- The list of variables has each variable of all bands once, in the order in which they first come,
  -- and the references of a band are its own variables, likewise. The expressions are kept just when
  -- one of them has a token that is no variable.
  pub parse_band_expressions-variables :
      (bands : List Bytes) {be : BandExpressions}
      → parse_band_expressions parse_expr bands ≡ ok be
      → (exprs : List (List Token)) × AllParsed bands be.expr_names exprs
        × (be.var_list ≡ distinct (all_variables exprs))
        × (be.expr_var_ref ≡ map (λ e. distinct (variables_of e)) exprs)
        × (be.expressions ≡ (if any_operator exprs then exprs else []))
  unfolding parse_band_expressions
  parse_band_expressions-variables bands {be} e =
      let nothing : BandExpressions = record {
        expressions = [];
        expr_var_ref = [];
        var_list = [];
        expr_names = [];
      } in
      let ((be1, h1), e1, r1) = >>=-eq-ok (parse_bands parse_expr bands (nothing, false)) _ e in
      let (names, exprs, parsed, (x, f, v, n, o)) = parse_bands-Adds bands nothing false e1 in
      let (kept, refs, vars, named) = without_plain-fields be1 h1 in
      let same : without_plain parse_expr (be1, h1) ≡ be = cc in
      (
        exprs,
        subst (λ ns. AllParsed bands ns exprs) (sym (ap (λ b. b.expr_names) (sym same) ∙ named ∙ n))
            parsed,
        ap (λ b. b.var_list) (sym same) ∙ vars ∙ v ∙ add_all-distinct (all_variables exprs),
        ap (λ b. b.expr_var_ref) (sym same) ∙ refs ∙ f,
        ap (λ b. b.expressions) (sym same) ∙ kept ∙ ap₂ (λ b l. if b then l else []) o x,
      )
