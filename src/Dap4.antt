-- ===== src/Dap4.antt =====
-- utils/dap4_ce_parser.go: the constraint expression of a DAP4 request, such as
-- `dataset{var;time[0:2:9]}|10<lat<20`. Texts are lists of bytes below 128. The floating-point
-- numbers, with the parser of a number or a time for an endpoint, are parameters.
-- A Selector is a DapIdxSelector, a VarParam a DapVarParam, and Constraints are DapConstraints.
use gsky.Prelude.{
  ℕ, zero, suc, ◌+◌, ◌*◌, ◌-◌, Bool, true, false, not, ◌&&◌, ◌||◌, Option, none, some, List, [],
  ◌∷◌, ◌++◌, ltb, leb, ◌==◌, if◌then◌else◌, length, map, Bytes, bytes_eq,
}
use gsky.Prelude.Result.{Result, ok, err, ◌>>=◌}
pub mod Parser
pub mod Names
mod Tests

-- strings.TrimSpace, of ASCII text
abbrev pub is_space : ℕ → Bool
is_space c = c == b' ' || (leb 9 c && leb c 13)

unfoldable pub trim_left : Bytes → Bytes
trim_left [] = []
trim_left (c ∷ s) = let rest = trim_left s in if is_space c then rest else c ∷ s

unfoldable pub trim_right : Bytes → Bytes
trim_right [] = []
trim_right (c ∷ s) = keep c (trim_right s)
  where
    keep : ℕ → Bytes → Bytes
    keep c [] = if is_space c then [] else c ∷ []
    keep c (d ∷ t) = c ∷ d ∷ t

abbrev pub trim_space : Bytes → Bytes
trim_space s = trim_right (trim_left s)

-- strings.Split, by one byte
abbrev pub put_front : ℕ → List Bytes → List Bytes
put_front c [] = (c ∷ []) ∷ []
put_front c (part ∷ parts) = (c ∷ part) ∷ parts

unfoldable pub split : ℕ → Bytes → List Bytes
split sep [] = [] ∷ []
split sep (c ∷ s) = let rest = split sep s in if c == sep then [] ∷ rest else put_front c rest

-- The loops that look for the first byte of a kind: what stands before it, it, and what follows.
unfoldable pub cut_at : (ℕ → Bool) → Bytes → Option (Bytes × ℕ × Bytes)
cut_at test [] = none
cut_at test (c ∷ s) = let rest = cut_at test s in if test c then some ([], c, s) else later c rest
  where
    later : ℕ → Option (Bytes × ℕ × Bytes) → Option (Bytes × ℕ × Bytes)
    later c none = none
    later c (some (before, d, after)) = some (c ∷ before, d, after)

-- s[:len(s)-1], if the last byte is the one that is wanted.
unfoldable pub without_last : ℕ → Bytes → Option Bytes
without_last last [] = none
without_last last (c ∷ []) = if c == last then some [] else none
without_last last (c ∷ d ∷ s) = more c (without_last last (d ∷ s))
  where
    more : ℕ → Option Bytes → Option Bytes
    more c none = none
    more c (some t) = some (c ∷ t)

-- varNameRegex: ^[A-Za-z_][A-Za-z0-9_]*$
abbrev pub is_letter : ℕ → Bool
is_letter c = (leb b'A' c && leb c b'Z') || ((leb b'a' c && leb c b'z') || c == b'_')

unfoldable pub all_bytes : (ℕ → Bool) → Bytes → Bool
all_bytes test [] = true
all_bytes test (c ∷ s) = test c && all_bytes test s

unfoldable pub is_var_name : Bytes → Bool
unfolding all_bytes
is_var_name [] = false
is_var_name (c ∷ s) = is_letter c && all_bytes (λ d. is_letter d || (leb b'0' d && leb d b'9')) s

pub record Selector : Type 0 where
  pub start : Option ℕ
  pub stop : Option ℕ
  pub step : Option ℕ
  pub is_range : Bool
  pub is_all : Bool

-- strconv.ParseInt(s, 10, 64): the digits, with n read so far, and the range.
unfoldable pub parse_decimal : Bytes → ℕ → Option ℕ
parse_decimal [] n = some n
parse_decimal (c ∷ s) n =
    let rest = parse_decimal s (10 * n + (c - b'0')) in
    if leb b'0' c && leb c b'9' then rest else none

pub data Index : Type 0 where
  index : ℕ → Index
  negative : Index
  invalid : Index

abbrev pub in_range : Bool → Option ℕ → Index
in_range minus none = invalid
in_range true (some zero) = index 0
in_range true (some (suc n)) = if ltb 9223372036854775807 n then invalid else negative
in_range false (some n) = if ltb 9223372036854775807 n then invalid else index n

abbrev pub unsigned : Bytes → Option ℕ
unsigned [] = none
unsigned (c ∷ s) = parse_decimal (c ∷ s) 0

unfoldable pub parse_index : Bytes → Index
parse_index [] = invalid
parse_index (c ∷ s) =
    if c == b'-'
    then in_range true (unsigned s)
    else if c == b'+'
    then in_range false (unsigned s)
    else in_range false (unsigned (c ∷ s))

-- The field that part number `iss` of `n` parts sets.
abbrev pub set_field : ℕ → ℕ → ℕ → Selector → Selector
set_field n zero val sel = record sel { start = some val }
set_field n (suc zero) val sel =
    if n == 3 then record sel { step = some val } else record sel { stop = some val }
set_field n (suc (suc _)) val sel = record sel { stop = some val }

abbrev pub set_index : ℕ → ℕ → Index → Selector → Result Selector
set_index n iss (index val) sel =
    ok (set_field n iss val (record sel { is_range = if n == 1 then false else sel.is_range }))
set_index n iss negative sel = err "index must be non-negative"
set_index n iss invalid sel = err "invalid selector"

abbrev pub set_part : ℕ → ℕ → Bytes → Selector → Result Selector
set_part n iss [] sel = ok sel
set_part n iss (c ∷ s) sel = set_index n iss (parse_index (c ∷ s)) sel

unfoldable pub set_parts : ℕ → ℕ → List Bytes → Selector → Result Selector
unfolding parse_index
set_parts n iss [] sel = ok sel
set_parts n iss (part ∷ parts) sel =
    set_part n iss (trim_space part) sel >>= set_parts n (iss + 1) parts

abbrev pub empty_selector : Selector
empty_selector = record { start = none; stop = none; step = none; is_range = true; is_all = false }

unfoldable pub parse_selector : Bytes → Result Selector
unfolding set_parts split
parse_selector s =
    let parts = split b':' s in
    if ltb 3 (length parts)
    then err "invalid selector"
    else set_parts (length parts) 0 parts empty_selector

-- The parts that are not blank, trimmed.
unfoldable pub trimmed_parts : List Bytes → List Bytes
trimmed_parts [] = []
trimmed_parts (part ∷ parts) = add (trim_space part) (trimmed_parts parts)
  where
    add : Bytes → List Bytes → List Bytes
    add [] rest = rest
    add (c ∷ s) rest = (c ∷ s) ∷ rest

-- A loop whose rounds append to a slice, or stop with an error.
unfoldable pub append_each :
    {A : Type 0} → (Bytes → Result A) → List Bytes → List A → Result (List A)
append_each f [] done = ok done
append_each f (part ∷ parts) done = f part >>= λ a. append_each f parts (done ++ (a ∷ []))

abbrev pub selectors_of : List Bytes → Result (List Selector)
selectors_of [] = ok (record empty_selector { is_all = true } ∷ [])
selectors_of (part ∷ parts) = append_each parse_selector (part ∷ parts) []

unfoldable pub parse_var_selectors : Bytes → Result (List Selector)
unfolding trimmed_parts append_each parse_selector
parse_var_selectors s = selectors_of (trimmed_parts (split b',' s))
