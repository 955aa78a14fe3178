-- ===== src/Dap4/Names.antt =====
-- What `ParseDap4ConstraintExpr` returns is well formed: its names and its endpoints.
use gsky.Prelude.{
  ℕ, ◌≡◌, ◌≢◌, sym, ap, subst, ◌∙◌, true, false, not, Option, none, some, List, [], ◌∷◌, ◌++◌,
  arith, ◌==◌, length, All, All-append, Bytes, bytes_eq, bytes_eq_refl,
}
use gsky.Prelude.Result.{Result, ok, ◌>>=◌, >>=-eq-ok, ok-injective, else-ok, then-ok}
use gsky.Dap4.{
  trim_space, split, cut_at, without_last, is_var_name, trimmed_parts, append_each,
  parse_var_selectors,
}
use gsky.Dap4.Parser.{
  Endpoints, RelOp, greater, less, equal, rel_op, is_rel_op, skip_equal, VarParam, with_selectors,
  indexed_variable, cut_variable, parse_variable, parse_variables, endpoint, ordered, bounds,
  one_sided, between, same_direction, two_sided, second_side, first_side, cut_filter, parse_filter,
  parse_filters, has_name, has_duplicate, Constraints, check_names, braced, cut_dataset,
  parse_selection, parse_dap4_constraint_expr,
}

append_each-All :
    {A : Type 0} (P : A → Type 0) (f : Bytes → Result A)
    → ((part : Bytes) (a : A) → f part ≡ ok a → P a)
    → (parts : List Bytes) (done out : List A) → All P done
    → append_each f parts done ≡ ok out
    → All P out
unfolding append_each
append_each-All P f each [] done out hd h = subst (All P) (ok-injective done out h) hd
append_each-All P f each (part ∷ parts) done out hd h =
    let (a, e, rest) = >>=-eq-ok (f part) (λ a. append_each f parts (done ++ (a ∷ []))) h in
    append_each-All P f each parts (done ++ (a ∷ [])) out
      (All-append P done (a ∷ []) hd (each part a e, record {})) rest

module _ (ep : Endpoints) where
  open ep use {F, gt, smallest_nonzero, max, parse_endpoint}

  -- The lower endpoint of a range is not above the upper one.
  abbrev pub IsOrdered : Option F → Option F → Type 0
  IsOrdered (some lower) (some upper) = gt lower upper ≡ false
  IsOrdered _ _ = Unit

  abbrev pub IsParam : VarParam ep → Type 0
  IsParam p = (is_var_name p.name ≡ true) × IsOrdered p.val_start p.val_end

  ordered-IsParam :
      (name : Bytes) (lower upper : F) (val_end : Option F) (p : VarParam ep)
      → is_var_name name ≡ true
      → (gt lower upper ≡ false → IsOrdered (some lower) val_end)
      → ordered ep name lower upper val_end ≡ ok p
      → IsParam p
  unfolding ordered
  ordered-IsParam name lower upper val_end p hn ho h =
      let (e, made) = else-ok (gt lower upper) _ _ p h in
      subst IsParam (ok-injective _ p made) (hn, ho e)

  bounds-IsParam :
      (name : Bytes) (op : RelOp) (val : F) (p : VarParam ep)
      → is_var_name name ≡ true
      → bounds ep name op val ≡ ok p
      → IsParam p
  bounds-IsParam name greater val p hn h = ordered-IsParam name val max (some max) p hn (λ e. e) h
  bounds-IsParam name less val p hn h =
      ordered-IsParam name smallest_nonzero val (some val) p hn (λ e. e) h
  bounds-IsParam name equal val p hn h = ordered-IsParam name val max none p hn (λ e. record {}) h

  between-IsParam :
      (name : Bytes) (op : RelOp) (a b : F) (p : VarParam ep)
      → is_var_name name ≡ true
      → between ep name op a b ≡ ok p
      → IsParam p
  between-IsParam name greater a b p hn h = ordered-IsParam name b a (some a) p hn (λ e. e) h
  between-IsParam name less a b p hn h = ordered-IsParam name a b (some b) p hn (λ e. e) h
  between-IsParam name equal a b p hn h = absurd (cc)

  one_sided-IsParam :
      (left : Bytes) (op : RelOp) (right : Bytes) (p : VarParam ep)
      → one_sided ep left op right ≡ ok p
      → IsParam p
  unfolding one_sided
  one_sided-IsParam left op right p h =
      let (hn, h₁) = then-ok (is_var_name left) _ _ p h in
      let (val, _, h₂) = >>=-eq-ok (endpoint ep (parse_endpoint right)) (bounds ep left op) h₁ in
      bounds-IsParam left op val p hn h₂

  two_sided-IsParam :
      (left : Bytes) (op : RelOp) (mid : Bytes) (op2 : RelOp) (right : Bytes) (p : VarParam ep)
      → two_sided ep left op mid op2 right ≡ ok p
      → IsParam p
  unfolding two_sided
  two_sided-IsParam left op mid op2 right p h =
      let (_, h₁) = else-ok (not (same_direction ep op op2)) _ _ p h in
      let (hn, h₂) = then-ok (is_var_name mid) _ _ p h₁ in
      let (a, _, h₃) =
        >>=-eq-ok (endpoint ep (parse_endpoint left))
          (λ a. endpoint ep (parse_endpoint right) >>= between ep mid op a) h₂ in
      let (b, _, h₄) = >>=-eq-ok (endpoint ep (parse_endpoint right)) (between ep mid op a) h₃ in
      between-IsParam mid op a b p hn h₄

  second_side-IsParam :
      (left : Bytes) (op : RelOp) (mid : Bytes) (op2 : RelOp) (rest : Bytes) (p : VarParam ep)
      → second_side ep left op mid op2 rest ≡ ok p
      → IsParam p
  second_side-IsParam left op mid op2 [] p h = absurd (cc)
  second_side-IsParam left op mid op2 (c ∷ s) p h =
      two_sided-IsParam left op mid op2 (trim_space (c ∷ s)) p h

  first_side-IsParam :
      (left : Bytes) (op : RelOp) (rest : Bytes) (cut : Option (Bytes × ℕ × Bytes))
      (p : VarParam ep)
      → first_side ep left op rest cut ≡ ok p
      → IsParam p
  first_side-IsParam left op [] none p h = absurd (cc)
  first_side-IsParam left op (c ∷ s) none p h = one_sided-IsParam left op (trim_space (c ∷ s)) p h
  first_side-IsParam left op [] (some (mid, c, after)) p h =
      let (_, h₁) = else-ok (length (trim_space mid) == 0) _ _ p h in
      second_side-IsParam left op (trim_space mid) (rel_op c) (skip_equal after) p h₁
  first_side-IsParam left op (d ∷ s) (some (mid, c, after)) p h =
      let (_, h₁) = else-ok (length (trim_space mid) == 0) _ _ p h in
      second_side-IsParam left op (trim_space mid) (rel_op c) (skip_equal after) p h₁

  cut_filter-IsParam :
      (cut : Option (Bytes × ℕ × Bytes)) (p : VarParam ep) → cut_filter ep cut ≡ ok p → IsParam p
  cut_filter-IsParam none p h = absurd (cc)
  cut_filter-IsParam (some (before, c, after)) p h =
      let (_, h₁) = else-ok (length (trim_space before) == 0) _ _ p h in
      first_side-IsParam (trim_space before) (rel_op c) (skip_equal after)
        (cut_at is_rel_op (skip_equal after)) p h₁

  parse_filter-IsParam : (flt : Bytes) (p : VarParam ep) → parse_filter ep flt ≡ ok p → IsParam p
  unfolding parse_filter
  parse_filter-IsParam flt p h = cut_filter-IsParam (cut_at is_rel_op flt) p h

  with_selectors-IsParam :
      (name : Bytes) (o : Option Bytes) (p : VarParam ep)
      → is_var_name name ≡ true
      → with_selectors ep name o ≡ ok p
      → IsParam p
  with_selectors-IsParam name none p hn h = absurd (cc)
  with_selectors-IsParam name (some idx_sel) p hn h =
      let (sels, _, made) = >>=-eq-ok (parse_var_selectors idx_sel) _ h in
      subst IsParam (ok-injective _ p made) (hn, record {})

  cut_variable-IsParam :
      (va : Bytes) (cut : Option (Bytes × ℕ × Bytes)) (p : VarParam ep)
      → cut_variable ep va cut ≡ ok p
      → IsParam p
  unfolding indexed_variable
  cut_variable-IsParam va none p h =
      let (hn, made) = then-ok (is_var_name va) _ _ p h in
      subst IsParam (ok-injective _ p made) (hn, record {})
  cut_variable-IsParam va (some (before, c, after)) p h =
      let (_, h₁) = else-ok (length (trim_space before) == 0) _ _ p h in
      let (hn, h₂) = then-ok (is_var_name (trim_space before)) _ _ p h₁ in
      with_selectors-IsParam (trim_space before) (without_last b']' after) p hn h₂

  parse_variable-IsParam : (va : Bytes) (p : VarParam ep) → parse_variable ep va ≡ ok p → IsParam p
  unfolding parse_variable
  parse_variable-IsParam va p h = cut_variable-IsParam va (cut_at (λ c. c == b'[') va) p h

  -- No two of the parameters have one name.
  abbrev pub IsDistinct : List (VarParam ep) → Type 0
  IsDistinct [] = Unit
  IsDistinct (p ∷ ps) = All (λ q. q.name ≢ p.name) ps × IsDistinct ps

  has_name-false :
      (name : Bytes) (ps : List (VarParam ep))
      → has_name ep name ps ≡ false
      → All (λ q. q.name ≢ name) ps
  unfolding has_name
  has_name-false name [] h = record {}
  has_name-false name (p ∷ ps) h = (
    λ e.
        let same : bytes_eq p.name name ≡ true =
          ap (λ n. bytes_eq p.name n) (sym e) ∙ bytes_eq_refl p.name in
        ground arith,
    has_name-false name ps (ground arith),
  )

  has_duplicate-IsDistinct : (ps : List (VarParam ep)) → has_duplicate ep ps ≡ false → IsDistinct ps
  unfolding has_duplicate
  has_duplicate-IsDistinct [] h = record {}
  has_duplicate-IsDistinct (p ∷ ps) h =
      (has_name-false p.name ps (ground arith), has_duplicate-IsDistinct ps (ground arith))

  abbrev IsWellFormed : Constraints ep → Type 0
  IsWellFormed ce = All IsParam ce.var_params × IsDistinct ce.var_params

  check_names-IsWellFormed :
      (dataset : Bytes) (ps : List (VarParam ep)) (ce : Constraints ep)
      → All IsParam ps
      → check_names ep dataset ps ≡ ok ce
      → IsWellFormed ce
  unfolding check_names
  check_names-IsWellFormed dataset ps ce hp h =
      let (e, made) = else-ok (has_duplicate ep ps) _ _ ce h in
      subst IsWellFormed (ok-injective _ ce made) (hp, has_duplicate-IsDistinct ps e)

  braced-IsWellFormed :
      (dataset filters : Bytes) (o : Option Bytes) (ce : Constraints ep)
      → braced ep dataset filters o ≡ ok ce
      → IsWellFormed ce
  unfolding parse_variables parse_filters
  braced-IsWellFormed dataset filters none ce h = absurd (cc)
  braced-IsWellFormed dataset filters (some var_str) ce h =
      let (ps, h₁, checked) =
        >>=-eq-ok (parse_variables ep var_str [] >>= parse_filters ep filters)
          (check_names ep dataset) h in
      let (vs, h₂, h₃) = >>=-eq-ok (parse_variables ep var_str []) (parse_filters ep filters) h₁ in
      let hv : All IsParam vs =
        append_each-All IsParam (parse_variable ep) parse_variable-IsParam
          (trimmed_parts (split b';' var_str)) [] vs (record {}) h₂ in
      check_names-IsWellFormed dataset ps ce
        (append_each-All IsParam (parse_filter ep) parse_filter-IsParam
          (trimmed_parts (split b',' filters)) vs ps hv h₃)
        checked

  cut_dataset-IsWellFormed :
      (filters : Bytes) (cut : Option (Bytes × ℕ × Bytes)) (ce : Constraints ep)
      → cut_dataset ep filters cut ≡ ok ce
      → IsWellFormed ce
  cut_dataset-IsWellFormed filters none ce h = absurd (cc)
  cut_dataset-IsWellFormed filters (some (before, c, after)) ce h =
      let (_, h₁) = else-ok (length (trim_space before) == 0) _ _ ce h in
      braced-IsWellFormed (trim_space before) filters (without_last b'}' after) ce h₁

  parse_selection-IsWellFormed :
      (parts : List Bytes) (ce : Constraints ep)
      → parse_selection ep parts ≡ ok ce
      → IsWellFormed ce
  parse_selection-IsWellFormed [] ce h = absurd (cc)
  parse_selection-IsWellFormed (subset ∷ []) ce h =
      cut_dataset-IsWellFormed [] (cut_at (λ c. c == b'{') (trim_space subset)) ce h
  parse_selection-IsWellFormed (subset ∷ filters ∷ []) ce h =
      cut_dataset-IsWellFormed (trim_space filters) (cut_at (λ c. c == b'{') (trim_space subset)) ce
        h
  parse_selection-IsWellFormed (_ ∷ _ ∷ _ ∷ _) ce h = absurd (cc)

  -- Whatever the parser accepts is well formed: each variable and each axis of a filter has a name of
  -- letters, digits and underscores, no two of them have one name, and where a filter gives both
  -- endpoints, the lower one is not greater than the upper one.
  pub parse_dap4_constraint_expr-IsWellFormed :
      (s : Bytes) (ce : Constraints ep)
      → parse_dap4_constraint_expr ep s ≡ ok ce
      → All IsParam ce.var_params × IsDistinct ce.var_params
  unfolding parse_dap4_constraint_expr
  parse_dap4_constraint_expr-IsWellFormed s ce h =
      parse_selection-IsWellFormed (split b'|' (trim_space s)) ce h
