-- ===== src/Bands/Complexity.antt =====
-- Which band expressions `CheckBandExpressionsComplexity` accepts.
use gsky.Prelude.{
  ◌≤◌, ◌<◌, ◌≡◌, ◌≢◌, ◌↔◌, refl, inl, inr, Bool, true, false, Bool-cases, Option, none, some, List,
  [], ◌∷◌, length, map, Bytes, arith, All,
}
use gsky.Prelude.Result.{ok}
use gsky.DrillMerger.{lookup, is_listed}
use gsky.Bands.{
  Token, BandExpressions, Acl, deny_all, deny, unknown, Criteria, count_tokens, every_token,
  all_tokens, is_listed_value, is_supported, acl_text, passes_acl, is_allowed, check_complexity,
}

-- A variable has a name, which is one of those that are supported.
abbrev pub Supported : List Bytes → Token → Type 0
Supported names t =
    t.is_variable ≡ true → (v : Bytes) × (t.value ≡ some v) × (is_listed v names ≡ true)

-- The entry for the kind of a token neither denies all tokens nor this one.
abbrev pub Allowed : List (Bytes × Acl) → Token → Type 0
Allowed acl t =
    (lookup t.kind acl ≢ some deny_all)
    × ((texts : List (Option Bytes)) (v : Bytes)
        → lookup t.kind acl ≡ some (deny texts)
        → t.value ≡ some v
        → is_listed v (map acl_text texts) ≡ false)

module _ (P : Token → Type 0) (test : Token → Bool) where
  every_token-All :
      ((t : Token) → test t ≡ true → P t)
      → (ts : List Token) → every_token test ts ≡ true
      → All P ts
  unfolding every_token
  every_token-All h [] e = tt
  every_token-All h (t ∷ ts) e = (h t (ground arith), every_token-All h ts (ground arith))

  All-every_token :
      ((t : Token) → P t → test t ≡ true)
      → (ts : List Token) → All P ts
      → every_token test ts ≡ true
  unfolding every_token
  All-every_token h [] a = refl
  All-every_token h (t ∷ ts) (p, a) = rw (h t p) (All-every_token h ts a)

  all_tokens-All :
      ((t : Token) → test t ≡ true → P t)
      → (exprs : List (List Token)) → all_tokens test exprs ≡ true
      → All (All P) exprs
  unfolding all_tokens
  all_tokens-All h [] e = tt
  all_tokens-All h (ts ∷ exprs) e =
      (every_token-All h ts (ground arith), all_tokens-All h exprs (ground arith))

  All-all_tokens :
      ((t : Token) → P t → test t ≡ true)
      → (exprs : List (List Token)) → All (All P) exprs
      → all_tokens test exprs ≡ true
  unfolding all_tokens
  All-all_tokens h [] a = refl
  All-all_tokens h (ts ∷ exprs) (p, a) = rw (All-every_token h ts p) (All-all_tokens h exprs a)

is_listed_value-some :
    (o : Option Bytes) (names : List Bytes)
    → is_listed_value o names ≡ true
    → (v : Bytes) × (o ≡ some v) × (is_listed v names ≡ true)
is_listed_value-some none names e = cc
is_listed_value-some (some v) names e = (v, refl, e)

is_supported-Supported :
    (names : List Bytes) (t : Token) → is_supported names t ≡ true → Supported names t
is_supported-Supported names t e variable =
    let e' : is_listed_value t.value names ≡ true = rw variable at e in
    is_listed_value-some t.value names e'

Supported-is_supported :
    (names : List Bytes) (t : Token) → Supported names t → is_supported names t ≡ true
Supported-is_supported names t s = elim (Bool-cases t.is_variable) [
  | inl variable ↦ let (v, named, listed) = s variable in rw (variable, named) listed
  | inr operator ↦ rw operator refl
]

passes_acl-Allowed :
    (acl : List (Bytes × Acl)) (t : Token) → is_allowed acl t ≡ true → Allowed acl t
passes_acl-Allowed acl t e = (
  λ all. let e' : passes_acl t.value (some deny_all) ≡ true = rw all at e in cc,
  λ texts v denied named.
      let e' : passes_acl (some v) (some (deny texts)) ≡ true = rw (denied, named) at e in
      ground arith,
)

Allowed-passes_acl :
    (acl : List (Bytes × Acl)) (t : Token) → Allowed acl t → is_allowed acl t ≡ true
Allowed-passes_acl acl t (not_all, not_this) =
    by_entry (lookup t.kind acl) t.value not_all (λ texts v. not_this texts v)
  where
    by_entry :
        (o : Option Acl) (value : Option Bytes)
        → (o ≢ some deny_all)
        → ((texts : List (Option Bytes)) (v : Bytes)
            → o ≡ some (deny texts)
            → value ≡ some v
            → is_listed v (map acl_text texts) ≡ false)
        → passes_acl value o ≡ true
    by_entry none value h k = refl
    by_entry (some deny_all) value h k = absurd (h refl)
    by_entry (some (deny texts)) none h k = refl
    by_entry (some (deny texts)) (some v) h k = rw (k texts v refl refl) refl
    by_entry (some unknown) value h k = refl

-- What a user's expressions have to meet.
abbrev pub Accepts : BandExpressions → Criteria → Type 0
Accepts be criteria =
    (0 < length criteria.variable_lookup)
    × (length be.expressions ≤ criteria.max_expressions)
    × (length be.var_list ≤ criteria.max_variables)
    × (count_tokens be.expressions ≤ criteria.max_tokens)
    × All (All (Supported criteria.variable_lookup)) be.expressions
    × All (All (Allowed criteria.token_acl)) be.expressions

accepted-Accepts :
    (be : BandExpressions) (criteria : Criteria)
    → check_complexity be criteria ≡ ok tt
    → Accepts be criteria
unfolding check_complexity
accepted-Accepts be criteria e = (
  ground arith,
  ground arith,
  ground arith,
  ground arith,
  all_tokens-All (Supported criteria.variable_lookup) (is_supported criteria.variable_lookup)
      (is_supported-Supported criteria.variable_lookup) be.expressions (ground arith),
  all_tokens-All (Allowed criteria.token_acl) (is_allowed criteria.token_acl)
      (passes_acl-Allowed criteria.token_acl) be.expressions (ground arith),
)

Accepts-accepted :
    (be : BandExpressions) (criteria : Criteria)
    → Accepts be criteria
    → check_complexity be criteria ≡ ok tt
unfolding check_complexity
Accepts-accepted be criteria (h1, h2, h3, h4, h5, h6) =
    let supported =
      All-all_tokens (Supported criteria.variable_lookup) (is_supported criteria.variable_lookup)
        (Supported-is_supported criteria.variable_lookup) be.expressions h5 in
    let allowed =
      All-all_tokens (Allowed criteria.token_acl) (is_allowed criteria.token_acl)
        (Allowed-passes_acl criteria.token_acl) be.expressions h6 in
    ground arith

-- Expressions are accepted just when user-defined expressions are enabled, there are not too many
-- expressions, variables and tokens, every variable in them is supported, and no token in them is
-- denied by the entry for its kind.
pub check_complexity-Accepts :
    (be : BandExpressions) (criteria : Criteria)
    → (check_complexity be criteria ≡ ok tt) ↔ Accepts be criteria
check_complexity-Accepts be criteria = (accepted-Accepts be criteria, Accepts-accepted be criteria)
