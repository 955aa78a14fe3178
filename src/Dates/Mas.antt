-- ===== src/Dates/Mas.antt =====
-- utils/config.go, `GenerateDatesMas`: the time stamps that the index service lists for a layer,
-- brought to the layer's step. Times are in milliseconds, the precision of their texts; the numbers
-- between them are exact in float64. What the service answers to a query is a parameter.
use gsky.Prelude.{
  ℕ, zero, suc, ◌-◌, Option, none, some, List, [], ◌∷◌, ◌++◌, ltb, leb, ◌==◌, Bool, true, false,
  if◌then◌else◌, length, get_elem?, take, ◌>>=◌, Bytes, bytes_eq,
}
use gsky.Prelude.Int.{ℤ, pos, negsuc}
use gsky.Dap4.{trim_space}
use gsky.Dates.{Calendar, generate_regular, steps}

pub record MasTimestamps : Type 0 where
  pub error : Bytes
  pub timestamps : List Bytes
  pub token : Bytes

module _ (parse : Bytes → Option ℕ) where
  -- tsStr and timestamps[iBgn:], where a time stamp s is behind a reference date. The one before it is
  -- passed on when it was not taken before.
  abbrev pub nearer_stamp :
      ℕ → List Bytes → Option (Bytes × ℕ) → Bytes → ℕ → List Bytes → Bytes × List Bytes
  nearer_stamp ref start none s t rest = (s, start)
  nearer_stamp ref start (some (s0, t0)) s t rest =
      if leb (ref - t0) (t - ref) then (s0, s ∷ rest) else (s, start)

  -- The time stamp for a reference date, which stays empty when all of them are before the date, and
  -- timestamps[iBgn:] after it. `start` is timestamps[iBgn:] before it.
  unfoldable pub stamp_for :
      ℕ → List Bytes → Option (Bytes × ℕ) → List Bytes → Option (Bytes × List Bytes)
  stamp_for ref start prev [] = some ([], start)
  stamp_for ref start prev (s ∷ rest) = parse s >>= λ t.
      let later = stamp_for ref start (some (s, t)) rest in
      if ref == t
      then some (s, rest)
      else if ltb ref t
      then some (nearer_stamp ref start prev s t rest)
      else later

  -- aggregatedTimestamps
  unfoldable pub stamps_for : List ℕ → List Bytes → Option (List Bytes)
  unfolding stamp_for
  stamps_for [] start = some []
  stamps_for (ref ∷ refs) start =
      stamp_for ref start none start >>= λ p. (stamps_for refs p.1 >>= λ out. some (p.0 ∷ out))

  module _ (cal : Calendar) where
    -- `none` is a text that is no time.
    unfoldable pub aggregate_stamps : List Bytes → ℤ → Option (List Bytes)
    unfolding stamps_for steps
    aggregate_stamps stamps step = get_elem? stamps 0 >>= λ first. parse first >>= λ start.
        get_elem? stamps (length stamps - 1) >>= λ last. parse last >>= λ end.
        generate_regular cal start end step >>= λ ref_dates.
        stamps_for (take (length stamps) (ref_dates ++ (end ∷ []))) stamps

    -- Nothing is taken over.
    abbrev pub aggregated_or : Option (List Bytes) → Bytes → Bytes → List Bytes × Bytes
    aggregated_or none token new_token = ([], token)
    aggregated_or (some dates) token new_token = (dates, new_token)

    unfoldable pub take_over : MasTimestamps → ℤ → Bytes → List Bytes × Bytes
    unfolding aggregate_stamps
    take_over answer (negsuc n) token = (answer.timestamps, answer.token)
    take_over answer (pos zero) token = (answer.timestamps, answer.token)
    take_over answer (pos (suc n)) token =
        if ltb 0 (length answer.timestamps)
        then aggregated_or (aggregate_stamps answer.timestamps (pos (suc n))) token answer.token
        else (answer.timestamps, answer.token)

    abbrev pub answered : Option MasTimestamps → ℤ → Bytes → List Bytes × Bytes
    answered none step token = ([], token)
    answered (some answer) step token =
        if ltb 0 (length answer.error)
        then ([], token)
        else if bytes_eq answer.token token
        then ([], token)
        else take_over answer step token

    -- A text that is there and is no time.
    abbrev pub is_bad : Bytes → Bool
    is_bad [] = false
    is_bad (c ∷ s) = elim (parse (c ∷ s)) [ none ↦ true | some t ↦ false ]

    unfoldable pub generate_dates_mas :
        (Bytes → Bytes → Bytes → Option MasTimestamps)
        → Bytes
        → Bytes
        → ℤ
        → Bytes
        → List Bytes × Bytes
    unfolding take_over
    generate_dates_mas ask start end step token =
        if is_bad (trim_space start)
        then ([], token)
        else if is_bad (trim_space end)
        then ([], token)
        else answered (ask (trim_space start) (trim_space end) token) step token
