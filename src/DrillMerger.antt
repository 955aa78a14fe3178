-- ===== src/DrillMerger.antt =====
-- processor/drill_merger.go: `DrillMerger.Run`, which merges the statistics of the drilled files by
-- namespace and date into the rows of a table. Dates are their texts, as time.Format gives them.
use gsky.Prelude.{
  ℕ, zero, suc, ◌+◌, Bool, true, false, not, ◌&&◌, ◌||◌, Option, none, some, List, [], ◌∷◌, ◌++◌,
  ltb, leb, ◌==◌, if◌then◌else◌, map, ◌>>=◌, Bytes, bytes_eq,
}
use gsky.Prelude.Result.{Result, ok, err, panic}
pub mod Grouping
mod Tests

-- float64, with the text that "%f" makes of a value.
pub record Means : Type 1 where
  pub D : Type 0
  pub zero_d : D
  pub is_nan : D → Bool
  pub add : D → D → D
  pub mul : D → D → D
  pub div : D → D → D
  pub of_count : ℕ → D
  pub show : D → Bytes

-- A map with texts as keys: its entries, each key once.
module _ {A : Type 0} where
  unfoldable pub lookup : Bytes → List (Bytes × A) → Option A
  lookup key [] = none
  lookup key ((k, a) ∷ m) = let later = lookup key m in if bytes_eq k key then some a else later

  -- m[key] = f of what is there
  unfoldable pub update : Bytes → (Option A → A) → List (Bytes × A) → List (Bytes × A)
  update key f [] = (key, f none) ∷ []
  update key f ((k, a) ∷ m) =
      let later = update key f m in if bytes_eq k key then (k, f (some a)) ∷ m else (k, a) ∷ later

-- sort.Strings
unfoldable pub bytes_le : Bytes → Bytes → Bool
bytes_le [] t = true
bytes_le (c ∷ s) [] = false
bytes_le (c ∷ s) (d ∷ t) = let rest = bytes_le s t in ltb c d || (c == d && rest)

unfoldable pub insert_text : Bytes → List Bytes → List Bytes
unfolding bytes_le
insert_text s [] = s ∷ []
insert_text s (t ∷ ts) =
    let rest = insert_text s ts in if bytes_le s t then s ∷ t ∷ ts else t ∷ rest

unfoldable pub sort_texts : List Bytes → List Bytes
unfolding insert_text
sort_texts [] = []
sort_texts (s ∷ ss) = insert_text s (sort_texts ss)

unfoldable pub is_listed : Bytes → List Bytes → Bool
is_listed s [] = false
is_listed s (t ∷ ts) = bytes_eq t s || is_listed s ts

module _ (ms : Means) where
  open ms use {D, zero_d, is_nan, add, mul, div, of_count, show}

  pub record TimeSeries : Type 0 where
    pub value : D
    pub count : ℕ

  pub record DrillResult : Type 0 where
    pub namespace : Bytes
    pub dates : List Bytes
    pub data_ : List TimeSeries

  abbrev pub ByDate : Type 0
  ByDate = List (Bytes × List TimeSeries)

  -- results
  abbrev pub Results : Type 0
  Results = List (Bytes × ByDate)

  -- A missing entry of a map reads as nil.
  abbrev pub by_date : Option ByDate → ByDate
  by_date none = []
  by_date (some m) = m

  abbrev pub series_of : Option (List TimeSeries) → List TimeSeries
  series_of none = []
  series_of (some ss) = ss

  abbrev pub series_at : Bytes → Bytes → Results → List TimeSeries
  series_at ns date results = series_of (lookup date (by_date (lookup ns results)))

  -- results[ns][isoDate] with one more value
  abbrev pub add_point : Bytes → Bytes → TimeSeries → Results → Results
  add_point ns date s results =
      update ns (λ o. update date (λ p. series_of p ++ (s ∷ [])) (by_date o)) results

  -- The loop over the dates of a result; a date without data is a panic.
  unfoldable pub add_dates : Bytes → List Bytes → List TimeSeries → Results → Option Results
  unfolding update
  add_dates ns [] ss results = some results
  add_dates ns (date ∷ dates) [] results = none
  add_dates ns (date ∷ dates) (s ∷ ss) results = add_dates ns dates ss (add_point ns date s results)

  -- make(map[string][]*pb.TimeSeries), if the namespace is new
  abbrev pub ensure_namespace : Bytes → Results → Results
  ensure_namespace ns results = update ns by_date results

  abbrev pub has_namespace : Option ByDate → Bool
  has_namespace none = false
  has_namespace (some _) = true

  abbrev pub add_namespace : Bytes → Results → List Bytes → List Bytes
  add_namespace ns results namespaces =
      if has_namespace (lookup ns results) || is_listed ns namespaces
      then namespaces
      else namespaces ++ (ns ∷ [])

  -- The loop over the input.
  unfoldable pub collect : List DrillResult → Results → List Bytes → Option (Results × List Bytes)
  unfolding lookup update add_dates is_listed
  collect [] results namespaces = some (results, namespaces)
  collect (r ∷ rs) results namespaces =
      add_dates r.namespace r.dates r.data_ (ensure_namespace r.namespace results) >>= λ results'.
      collect rs results' (add_namespace r.namespace results namespaces)

  -- total and count
  unfoldable pub weigh : List TimeSeries → D → ℕ → D × ℕ
  weigh [] total count = (total, count)
  weigh (s ∷ ss) total count =
      if is_nan s.value
      then weigh ss total count
      else weigh ss (add total (mul s.value (of_count s.count))) (count + s.count)

  -- values[ns], if there is one
  unfoldable pub mean_of : List TimeSeries → Option D
  unfolding weigh
  mean_of ss =
      let sums = weigh ss zero_d 0 in
      if not (is_nan sums.0) && ltb 0 sums.1 then some (div sums.0 (of_count sums.1)) else none

  -- The cells of a row when there are no expressions.
  abbrev pub show_mean : Option D → Bytes
  show_mean none = []
  show_mean (some v) = show v

  unfoldable pub row_cells : Results → Bytes → List Bytes → Bytes
  unfolding lookup mean_of
  row_cells results date [] = []
  row_cells results date (ns ∷ namespaces) =
      b',' ∷ (show_mean (mean_of (series_at ns date results)) ++ row_cells results date namespaces)

  -- The end of a row is a backslash and an n.
  unfoldable pub rows : Results → List Bytes → List Bytes → Bytes
  unfolding row_cells
  rows results namespaces [] = []
  rows results namespaces (date ∷ dates) =
      date ++ (row_cells results date namespaces ++ (92 ∷ (b'n' ∷ rows results namespaces dates)))

  -- dates
  abbrev pub dates_of : Results → List Bytes → Option (List Bytes)
  dates_of results [] = none
  dates_of results (ns ∷ namespaces) =
      some (sort_texts (map (λ e. e.0) (by_date (lookup ns results))))

  -- The table without expressions; there is none without results.
  unfoldable pub table : List DrillResult → List Bytes → Option (Option Bytes)
  unfolding collect sort_texts rows
  table rs namespaces = do
    (results, namespaces') ← collect rs [] namespaces
    shown results namespaces'
    where
      shown : Results → List Bytes → Option (Option Bytes)
      shown [] namespaces' = some none
      shown (r ∷ results) namespaces' = dates_of (r ∷ results) namespaces' >>= λ dates.
          some (some (rows (r ∷ results) namespaces' dates))

  -- values
  unfoldable pub values_of_date : Results → Bytes → List Bytes → List (Bytes × D)
  unfolding lookup update mean_of
  values_of_date results date [] = []
  values_of_date results date (ns ∷ namespaces) =
      let rest = values_of_date results date namespaces in
      elim (mean_of (series_at ns date results)) [ none ↦ rest | some v ↦ (ns, v) ∷ rest ]

  -- varCol, where the text of a column is a parameter.
  abbrev pub column_name : (ℕ → Bytes) → ℕ → Bytes → Bytes
  column_name decile_name zero variable = variable
  column_name decile_name (suc ic) variable = variable ++ decile_name (suc ic)

  -- What Evaluate of the library govaluate returns: a float32 with the text of its value, or that it
  -- is the no data value; another type; or an error.
  pub data Evaluation : Type 0 where
    shown : Bytes → Evaluation
    no_data : Evaluation
    other_type : Evaluation
    failed : Evaluation

  pub record Expression : Type 0 where
    pub variables : List Bytes
    pub evaluate : List (Bytes × D) → Evaluation

  -- parameters, unless noData
  unfoldable pub parameters_of :
      (ℕ → Bytes) → ℕ → List (Bytes × D) → List Bytes → Option (List (Bytes × D))
  unfolding lookup
  parameters_of decile_name ic values [] = some []
  parameters_of decile_name ic values (variable ∷ variables) = do
    v ← lookup (column_name decile_name ic variable) values
    rest ← parameters_of decile_name ic values variables
    some ((variable, v) ∷ rest)

  abbrev pub expression_cell : Evaluation → Result Bytes
  expression_cell (shown s) = ok s
  expression_cell no_data = ok []
  expression_cell other_type = err "WPS: Failed to cast eval results"
  expression_cell failed = err "WPS: Eval error"

  abbrev pub column_cell : Expression → Option (List (Bytes × D)) → Result Bytes
  column_cell expr none = ok []
  column_cell expr (some ps) = expression_cell (expr.evaluate ps)

  abbrev pub and_then : {A B : Type 0} → Result A → (A → Result B) → Result B
  and_then (ok a) f = f a
  and_then (err e) f = err e
  and_then panic f = panic

  -- The columns of an expression from ic on, with n of them left.
  unfoldable pub column_cells : (ℕ → Bytes) → List (Bytes × D) → Expression → ℕ → ℕ → Result Bytes
  unfolding parameters_of
  column_cells decile_name values expr zero ic = ok []
  column_cells decile_name values expr (suc n) ic =
      and_then (column_cell expr (parameters_of decile_name ic values expr.variables)) (λ cell.
        and_then (column_cells decile_name values expr n (ic + 1))
          (λ rest. ok (b',' ∷ (cell ++ rest))))

  unfoldable pub expression_cells :
      (ℕ → Bytes) → ℕ → List (Bytes × D) → List Expression → Result Bytes
  unfolding column_cells
  expression_cells decile_name decile_count values [] = ok []
  expression_cells decile_name decile_count values (expr ∷ exprs) =
      and_then (column_cells decile_name values expr (1 + decile_count) 0) (λ cells.
        and_then (expression_cells decile_name decile_count values exprs)
          (λ rest. ok (cells ++ rest)))

  unfoldable pub expression_rows :
      (ℕ → Bytes) → ℕ → Results → List Bytes → List Expression → List Bytes → Result Bytes
  unfolding values_of_date expression_cells
  expression_rows decile_name decile_count results namespaces exprs [] = ok []
  expression_rows decile_name decile_count results namespaces exprs (date ∷ dates) =
      and_then
        (expression_cells decile_name decile_count (values_of_date results date namespaces) exprs)
        (λ cells.
          and_then (expression_rows decile_name decile_count results namespaces exprs dates)
            (λ rest. ok (date ++ (cells ++ (92 ∷ (b'n' ∷ rest))))))
