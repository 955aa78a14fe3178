-- ===== src/DrillMerger/Grouping.antt =====
-- Which values stand under a namespace and a date.
use mathlib.Core.List.{append_assoc, append-nil}
use gsky.Prelude.{
  ◌≤◌, ◌≡◌, refl, sym, ap, ◌∙◌, Bool, Bool-cases, true, false, ◌&&◌, Option, some, List, [], ◌∷◌,
  ◌++◌, arith, inl, inr, if◌then◌else◌, length, All, Bytes, bytes_eq, bytes_eq_refl, bytes_eq→eq,
}
use gsky.DrillMerger.{
  Means, lookup, update, TimeSeries, DrillResult, Results, by_date, series_of, series_at, add_point,
  add_dates, ensure_namespace, add_namespace, collect,
}

module _ {A : Type 0} where
  lookup-update_same :
      (key : Bytes) (f : Option A → A) (m : List (Bytes × A))
      → lookup key (update key f m) ≡ some (f (lookup key m))
  unfolding lookup update
  lookup-update_same key f [] = rw (bytes_eq_refl key) refl
  lookup-update_same key f ((k, a) ∷ m) = elim (Bool-cases (bytes_eq k key)) [
    | inl e ↦ rw (e, e) refl
    | inr e ↦ rw (e, e) (lookup-update_same key f m)
  ]

  lookup-update_other :
      (key other : Bytes) (f : Option A → A) (m : List (Bytes × A))
      → bytes_eq key other ≡ false
      → lookup other (update key f m) ≡ lookup other m
  unfolding lookup update
  lookup-update_other key other f [] h = rw h refl
  lookup-update_other key other f ((k, a) ∷ m) h = elim (Bool-cases (bytes_eq k key)) [
    | inl e ↦
        (let d : bytes_eq k other ≡ false = ap (λ s. bytes_eq s other) (bytes_eq→eq k key e) ∙ h in
          rw (e, d) refl)
    | inr e ↦ elim (Bool-cases (bytes_eq k other)) [
      | inl d ↦ rw (e, d) refl
      | inr d ↦ rw (e, d) (lookup-update_other key other f m h)
    ]
  ]

  lookup-update_equal :
      (key other : Bytes) (f : Option A → A) (m : List (Bytes × A))
      → bytes_eq key other ≡ true
      → lookup other (update key f m) ≡ some (f (lookup other m))
  lookup-update_equal key other f m h =
      let e : other ≡ key = sym (bytes_eq→eq key other h) in
      ap (λ k. lookup k (update key f m)) e
      ∙ lookup-update_same key f m
      ∙ ap (λ k. some (f (lookup k m))) (sym e)

module _ (ms : Means) where
  -- The values of the dates that are one date.
  unfoldable pub points_of : Bytes → List Bytes → List (TimeSeries ms) → List (TimeSeries ms)
  points_of date [] ss = []
  points_of date (d ∷ dates) [] = []
  points_of date (d ∷ dates) (s ∷ ss) =
      let rest = points_of date dates ss in if bytes_eq d date then s ∷ rest else rest

  -- The values of a namespace and a date in all results, in their order.
  unfoldable pub points : Bytes → Bytes → List (DrillResult ms) → List (TimeSeries ms)
  points ns date [] = []
  points ns date (r ∷ rs) =
      let rest = points ns date rs in
      if bytes_eq r.namespace ns then points_of date r.dates r.data_ ++ rest else rest

  abbrev only : Bool → TimeSeries ms → List (TimeSeries ms)
  only b s = if b then s ∷ [] else []

  add_point-series_at :
      (n d ns date : Bytes) (s : TimeSeries ms) (results : Results ms)
      → series_at ms ns date (add_point ms n d s results)
        ≡ series_at ms ns date results ++ only (bytes_eq n ns && bytes_eq d date) s
  add_point-series_at n d ns date s results = elim (Bool-cases (bytes_eq n ns)) [
    | inr other ↦ rw other (
        ap (λ o. series_of ms (lookup date (by_date ms o)))
          (lookup-update_other n ns _ results other)
        ∙ sym (append-nil (series_at ms ns date results)))
    | inl same ↦ elim (Bool-cases (bytes_eq d date)) [
      | inr other ↦
          rw (same, other)
            (ap (λ o. series_of ms (lookup date (by_date ms o)))
                (lookup-update_equal n ns _ results same)
              ∙ ap (series_of ms)
                  (lookup-update_other d date _ (by_date ms (lookup ns results)) other)
              ∙ sym (append-nil (series_at ms ns date results)))
      | inl same' ↦
          rw (same, same')
            (ap (λ o. series_of ms (lookup date (by_date ms o)))
                (lookup-update_equal n ns _ results same)
              ∙ ap (series_of ms)
                  (lookup-update_equal d date _ (by_date ms (lookup ns results)) same'))
    ]
  ]

  ensure_namespace-series_at :
      (n ns date : Bytes) (results : Results ms)
      → series_at ms ns date (ensure_namespace ms n results) ≡ series_at ms ns date results
  ensure_namespace-series_at n ns date results = elim (Bool-cases (bytes_eq n ns)) [
    | inr other ↦
        ap (λ o. series_of ms (lookup date (by_date ms o)))
          (lookup-update_other n ns (by_date ms) results other)
    | inl same ↦
        ap (λ o. series_of ms (lookup date (by_date ms o)))
          (lookup-update_equal n ns (by_date ms) results same)
  ]

  abbrev nothing : List (TimeSeries ms)
  nothing = []

  nothing_of : (b : Bool) → nothing ≡ (if b then nothing else nothing)
  nothing_of true = refl
  nothing_of false = refl

  add_dates-points :
      (n : Bytes) (dates : List Bytes) (ss : List (TimeSeries ms)) (results : Results ms)
      → length dates ≤ length ss
      → (results' : Results ms) × (add_dates ms n dates ss results ≡ some results')
        × ((ns date : Bytes)
            → series_at ms ns date results'
              ≡ series_at ms ns date results
                ++ (if bytes_eq n ns then points_of date dates ss else []))
  unfolding add_dates points_of
  add_dates-points n [] ss results h = (
    results,
    refl,
    λ k d.
        sym (append-nil (series_at ms k d results))
        ∙ ap (λ l. series_at ms k d results ++ l) (nothing_of (bytes_eq n k)),
  )
  add_dates-points n (d ∷ dates) [] results h = absurd (omega arith)
  add_dates-points n (d ∷ dates) (s ∷ ss) results h =
      let (results', run, all) =
        add_dates-points n dates ss (add_point ms n d s results) (omega arith) in
      (
        results',
        run,
        λ k e.
            all k e
            ∙ ap (λ l. l ++ (if bytes_eq n k then points_of e dates ss else []))
                (add_point-series_at n d k e s results)
            ∙ append_assoc (series_at ms k e results) (only (bytes_eq n k && bytes_eq d e) s) _
            ∙ ap (λ l. series_at ms k e results ++ l)
                (join (bytes_eq n k) (bytes_eq d e) (points_of e dates ss)),
      )
    where
      join :
          (b c : Bool) (rest : List (TimeSeries ms))
          → only (b && c) s ++ (if b then rest else [])
            ≡ (if b then (if c then s ∷ rest else rest) else [])
      join true true rest = refl
      join true false rest = refl
      join false c rest = refl

  -- Every date of a result has data.
  abbrev pub HasData : DrillResult ms → Type 0
  HasData r = length r.dates ≤ length r.data_

  collect-from :
      (rs : List (DrillResult ms)) (results : Results ms) (namespaces : List Bytes)
      → All HasData rs
      → (results' : Results ms) × (namespaces' : List Bytes) × (collect ms rs results namespaces
          ≡ some (results', namespaces'))
        × ((ns date : Bytes)
            → series_at ms ns date results' ≡ series_at ms ns date results ++ points ns date rs)
  unfolding collect points
  collect-from [] results namespaces h =
      (results, namespaces, refl, λ ns date. sym (append-nil (series_at ms ns date results)))
  collect-from (r ∷ rs) results namespaces (hr, h) =
      let (results₁, run, all₁) =
        add_dates-points r.namespace r.dates r.data_ (ensure_namespace ms r.namespace results) hr in
      let (results', namespaces', runs, all) =
        collect-from rs results₁ (add_namespace ms r.namespace results namespaces) h in
      (
        results',
        namespaces',
        rw run runs,
        λ ns date.
            all ns date
            ∙ ap (λ l. l ++ points ns date rs)
                (all₁ ns date
                  ∙ ap
                      (λ l.
                        l
                        ++ (if bytes_eq r.namespace ns then points_of date r.dates r.data_ else []))
                      (ensure_namespace-series_at r.namespace ns date results))
            ∙ append_assoc (series_at ms ns date results) _ (points ns date rs)
            ∙ ap (λ l. series_at ms ns date results ++ l)
                (join (bytes_eq r.namespace ns) (points_of date r.dates r.data_)
                  (points ns date rs)),
      )
    where
      join :
          (b : Bool) (xs rest : List (TimeSeries ms))
          → (if b then xs else []) ++ rest ≡ (if b then xs ++ rest else rest)
      join true xs rest = refl
      join false xs rest = refl

  -- When every date of every result has data, `Run` takes in the results without a panic, and under
  -- each namespace and date then stand the values that the results have for them, in their order.
  pub collect-points :
      (rs : List (DrillResult ms)) (namespaces : List Bytes)
      → All HasData rs
      → (results : Results ms) × (namespaces' : List Bytes) × (collect ms rs [] namespaces
          ≡ some (results, namespaces'))
        × ((ns date : Bytes) → series_at ms ns date results ≡ points ns date rs)
  unfolding lookup
  collect-points rs namespaces h = collect-from rs [] namespaces h
