-- ===== src/Merger/Holes.antt =====
-- The cells of a band expression where a variable has no data.
use text.Mathlib.Text.{◌==◌ as str_eq}
use mathlib.Core.List.{append_assoc, append-nil}
use gsky.Prelude.{
  ◌++◌, All-append, and-true, ℕ, zero, suc, ◌≤◌, ◌<◌, ◌≡◌, refl, sym, ap, subst, ◌∙◌, Bool, true,
  false, not, ◌&&◌, ◌||◌, Option, none, some, List, [], ◌∷◌, String, arith, if◌then◌else◌, length,
  get_elem?, get_elem?-some, All,
}
use gsky.Merger.Types.{Float64}
use gsky.Merger.Output.{BandVar, Float32, Variable, mask_cells, put_parameter, add_vars, put_array}

module _ (fl : Float64) (fs : Float32 fl.F) where
  open fl use {F}
  open fs use {S, is_value, narrow, is_odd}

  mask_cells-some :
      (no_data : F) (cells : List S) (mask : List Bool)
      → length mask ≤ length cells
      → (mask' : List Bool) × (mask_cells fl fs no_data cells mask ≡ some mask')
        × (length mask' ≡ length mask)
        × ((j : ℕ) (b : Bool) (s : S)
            → get_elem? mask j ≡ some b
            → get_elem? cells j ≡ some s
            → get_elem? mask' j ≡ some (if is_value s no_data then false else b))
  unfolding mask_cells
  mask_cells-some no_data cells [] h = ([], refl, refl, λ j b s e q. absurd (cc))
  mask_cells-some no_data [] (b ∷ mask) h = absurd (omega arith)
  mask_cells-some no_data (s ∷ cells) (b ∷ mask) h =
      let (rest, run, n, each) = mask_cells-some no_data cells mask (omega arith) in
      ((if is_value s no_data then false else b) ∷ rest, rw run refl, ap suc n, at rest each)
    where
      at :
          (rest : List Bool)
          → ((j : ℕ) (c : Bool) (u : S)
              → get_elem? mask j ≡ some c
              → get_elem? cells j ≡ some u
              → get_elem? rest j ≡ some (if is_value u no_data then false else c))
          → (j : ℕ) (c : Bool) (u : S) → get_elem? (b ∷ mask) j ≡ some c
          → get_elem? (s ∷ cells) j ≡ some u
          → get_elem? ((if is_value s no_data then false else b) ∷ rest) j
            ≡ some (if is_value u no_data then false else c)
      at rest each zero c u e q = cc
      at rest each (suc j) c u e q = each j c u e q

  abbrev pub no_data_at : F → Option S → Bool
  no_data_at no_data none = false
  no_data_at no_data (some s) = is_value s no_data

  abbrev pub has_no_data : Option (Variable fl fs) → ℕ → Bool
  has_no_data none j = false
  has_no_data (some var) j = no_data_at var.no_data (get_elem? var.cells j)

  -- The variable that an axis names has no data at a cell; one of them has.
  abbrev pub is_hole : List (Variable fl fs) → BandVar → ℕ → Bool
  is_hole vars v j = has_no_data (get_elem? vars v.idx) j

  unfoldable pub any_hole : List (Variable fl fs) → List BandVar → ℕ → Bool
  any_hole vars [] j = false
  any_hole vars (v ∷ vs) j = is_hole vars v j || any_hole vars vs j

  -- Each variable is there, with at least n cells.
  abbrev pub AllFilled : List (Variable fl fs) → ℕ → List BandVar → Type 0
  AllFilled vars n vs =
      All (λ v. (var : Variable fl fs) × (get_elem? vars v.idx ≡ some var) × (n ≤ length var.cells))
        vs

  abbrev with_parameter :
      String → Option (Variable fl fs) → List (String × List S) → List (String × List S)
  with_parameter name none ps = ps
  with_parameter name (some var) ps = (name, var.cells) ∷ ps

  -- The parameters of an expression: the name of each variable with its cells.
  unfoldable pub parameters : List (Variable fl fs) → List BandVar → List (String × List S)
  parameters vars [] = []
  parameters vars (v ∷ vs) = with_parameter v.name (get_elem? vars v.idx) (parameters vars vs)

  no_parameters : (vars : List (Variable fl fs)) → parameters vars [] ≡ []
  unfolding parameters
  no_parameters vars = refl

  parameters-found :
      (vars : List (Variable fl fs)) (v : BandVar) (vs : List BandVar) (var : Variable fl fs)
      → get_elem? vars v.idx ≡ some var
      → parameters vars (v ∷ vs) ≡ (v.name, var.cells) ∷ parameters vars vs
  unfolding parameters
  parameters-found vars v vs var there =
      ap (λ o. with_parameter v.name o (parameters vars vs)) there

  -- No parameter has the name of one of the variables, and no two variables have one name.
  abbrev pub IsUnnamed : List (String × List S) → String → Type 0
  IsUnnamed ps name = All (λ p. str_eq p.0 name ≡ false) ps

  abbrev pub AllUnnamed : List (String × List S) → List BandVar → Type 0
  AllUnnamed ps vs = All (λ v. IsUnnamed ps v.name) vs

  abbrev pub IsDistinct : List BandVar → Type 0
  IsDistinct [] = Unit
  IsDistinct (v ∷ vs) = All (λ w. str_eq v.name w.name ≡ false) vs × IsDistinct vs

  put_parameter-append :
      (name : String) (cells : List S) (ps : List (String × List S))
      → IsUnnamed ps name
      → put_parameter fl fs name cells ps ≡ ps ++ ((name, cells) ∷ [])
  unfolding put_parameter
  put_parameter-append name cells [] h = refl
  put_parameter-append name cells ((n, old) ∷ ps) (h, hs) =
      rw h (ap (λ rest. (n, old) ∷ rest) (put_parameter-append name cells ps hs))

  AllUnnamed-append :
      (ps : List (String × List S)) (name : String) (cells : List S) (vs : List BandVar)
      → AllUnnamed ps vs
      → All (λ w. str_eq name w.name ≡ false) vs
      → AllUnnamed (ps ++ ((name, cells) ∷ [])) vs
  AllUnnamed-append ps name cells [] h h' = record {}
  AllUnnamed-append ps name cells (v ∷ vs) (h, hs) (h', hs') = (
    All-append (λ p. str_eq p.0 v.name ≡ false) ps ((name, cells) ∷ []) h (h', record {}),
    AllUnnamed-append ps name cells vs hs hs',
  )

  pub add_vars-some :
      (vars : List (Variable fl fs)) (vs : List BandVar) (mask : List Bool)
      (ps : List (String × List S))
      → AllFilled vars (length mask) vs
      → IsDistinct vs
      → AllUnnamed ps vs
      → (mask' : List Bool) × (add_vars fl fs vars vs mask ps
          ≡ some (mask', ps ++ parameters vars vs))
        × (length mask' ≡ length mask)
        × ((j : ℕ) (b : Bool)
            → get_elem? mask j ≡ some b
            → j < length mask
            → get_elem? mask' j ≡ some (b && not (any_hole vars vs j)))
  unfolding add_vars any_hole
  add_vars-some vars [] mask ps h d u = (
    mask,
    ap (λ qs. some (mask, qs))
        (sym (append-nil ps) ∙ ap (λ qs. ps ++ qs) (sym (no_parameters vars))),
    refl,
    λ j b e l. e ∙ ap some (sym (and-true b)),
  )
  add_vars-some vars (v ∷ vs) mask ps ((var, there, long), h) (d, ds) (u, us) =
      let (mask₁, masked, n, each) = mask_cells-some var.no_data var.cells mask long in
      let added = ps ++ ((v.name, var.cells) ∷ []) in
      let (mask', run, m, rest) =
        add_vars-some vars vs mask₁ added (subst (λ k. AllFilled vars k vs) (sym n) h) ds
          (AllUnnamed-append ps v.name var.cells vs us d) in
      (
        mask',
        rw (there, masked, put_parameter-append v.name var.cells ps u)
            (run
              ∙ ap (λ qs. some (mask', qs))
                  (append_assoc ps ((v.name, var.cells) ∷ []) (parameters vars vs)
                    ∙ ap (λ qs. ps ++ qs) (sym (parameters-found vars v vs var there)))),
        m ∙ n,
        λ j b e l.
            let (s, cell) = get_elem?-some var.cells j (omega (arith, l, long)) in
            let hole : is_hole vars v j ≡ is_value s var.no_data = rw (there, cell) refl in
            rest j _ (each j b s e cell) (omega (arith, n, l))
            ∙ rw hole (ap some (both (is_value s var.no_data) b (any_hole vars vs j))),
      )
    where
      both : (x b y : Bool) → (if x then false else b) && not y ≡ b && not (x || y)
      both true true y = refl
      both true false y = refl
      both false b y = refl

  pub put_array-some :
      (no_data : F) (cells : List S) (mask : List Bool)
      → length mask ≤ length cells
      → (out : List S) × (put_array fl fs no_data cells mask ≡ some out)
        × (length out ≡ length mask)
        × ((j : ℕ) (b : Bool) (s : S)
            → get_elem? mask j ≡ some b
            → get_elem? cells j ≡ some s
            → get_elem? out j
              ≡ some (if b then (if is_odd s then narrow no_data else s) else narrow no_data))
  unfolding put_array
  put_array-some no_data cells [] h = ([], refl, refl, λ j b s e q. absurd (cc))
  put_array-some no_data [] (b ∷ mask) h = absurd (omega arith)
  put_array-some no_data (s ∷ cells) (b ∷ mask) h =
      let (rest, run, n, each) = put_array-some no_data cells mask (omega arith) in
      (
        (if b then (if is_odd s then narrow no_data else s) else narrow no_data) ∷ rest,
        rw run refl,
        ap suc n,
        at rest each,
      )
    where
      shown : Bool → S → S
      shown c u = if c then (if is_odd u then narrow no_data else u) else narrow no_data

      at :
          (rest : List S)
          → ((j : ℕ) (c : Bool) (u : S)
              → get_elem? mask j ≡ some c
              → get_elem? cells j ≡ some u
              → get_elem? rest j ≡ some (shown c u))
          → (j : ℕ) (c : Bool) (u : S) → get_elem? (b ∷ mask) j ≡ some c
          → get_elem? (s ∷ cells) j ≡ some u
          → get_elem? (shown b s ∷ rest) j ≡ some (shown c u)
      at rest each zero c u e q = cc
      at rest each (suc j) c u e q = each j c u e q
