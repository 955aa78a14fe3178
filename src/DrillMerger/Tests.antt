-- ===== src/DrillMerger/Tests.antt =====
-- Two files with whole numbers as values.
use gsky.Prelude.{
  ℕ, ◌+◌, ◌*◌, ◌/◌, ◌≡◌, refl, false, some, none, List, [], ◌∷◌, arith, Bytes, codes,
}
use gsky.DrillMerger.{Means, TimeSeries, DrillResult, Results, series_at, collect, table}
use gsky.DrillMerger.Grouping.{points, collect-points}

-- A value is shown as one digit.
abbrev whole : Means
whole = record {
  D = ℕ;
  zero_d = 0;
  is_nan = λ v. false;
  add = ◌+◌;
  mul = ◌*◌;
  div = ◌/◌;
  of_count = λ n. n;
  show = λ v. (48 + v) ∷ [];
}

abbrev point : ℕ → ℕ → TimeSeries whole
point v n = record { value = v; count = n }

abbrev two_files : List (DrillResult whole)
two_files =
    record {
      namespace = codes "a";
      dates = codes "2" ∷ codes "1" ∷ [];
      data_ = point 4 1 ∷ point 6 2 ∷ [];
    }
    ∷ record { namespace = codes "a"; dates = codes "1" ∷ []; data_ = point 3 4 ∷ [] }
    ∷ []

-- The mean of 6 for two pixels and 3 for four is 4; there is nothing for b.
dated_rows :
    table whole two_files (codes "a" ∷ codes "b" ∷ []) ≡ some (some (codes "1,4,\\n2,4,\\n"))
unfolding table
dated_rows = refl

no_files : table whole [] (codes "a" ∷ []) ≡ some none
unfolding table
no_files = refl

collect-points_example :
    (results : Results whole) × (namespaces : List Bytes) × (collect whole two_files []
        (codes "a" ∷ [])
      ≡ some (results, namespaces))
    × ((ns date : Bytes) → series_at whole ns date results ≡ points whole ns date two_files)
collect-points_example =
    collect-points whole two_files (codes "a" ∷ []) (omega arith, (omega arith, record {}))
