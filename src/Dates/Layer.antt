-- ===== src/Dates/Layer.antt =====
-- utils/config.go, `GetLayerDates`: the dates of a layer, from the index service or from a generator.
use gsky.Prelude.{
  ℕ, ◌&&◌, ◌||◌, Bool, true, false, Option, none, some, List, [], ◌∷◌, ◌++◌, ltb, ◌==◌,
  if◌then◌else◌, length, ◌>>=◌, Bytes, bytes_eq, codes,
}
use gsky.Prelude.Int.{ℤ, pos, lt_ℤ, ◌+ℤ◌, scale_ℤ}
use gsky.Dap4.{trim_space}
use gsky.Dates.{Calendar, generate_dates}
use gsky.Dates.Mas.{MasTimestamps, generate_dates_mas}

-- Of the lists of input layers, also of each style, only the lengths are read.
pub record Layer : Type 0 where
  pub data_source : Bytes
  pub input_layers : ℕ
  pub styles : List ℕ
  pub start_isodate : Bytes
  pub end_isodate : Bytes
  pub step_days : ℤ
  pub step_hours : ℤ
  pub step_minutes : ℤ
  pub time_gen : Bytes
  pub timestamp_token : Bytes
  pub dates : List Bytes
  pub effective_start_date : Bytes
  pub effective_end_date : Bytes

abbrev pub styled : List ℕ → Bool
styled [] = false
styled (inputs ∷ styles) = ltb 0 inputs

unfoldable pub has_blended_service : Layer → Bool
has_blended_service layer =
    if ltb 0 layer.input_layers && length (trim_space layer.data_source) == 0
    then true
    else styled layer.styles

abbrev pub text_or : Bytes → Bytes → Bytes
text_or [] t = t
text_or (c ∷ s) t = c ∷ s

abbrev pub last_stamp : Bytes → List Bytes → Bytes
last_stamp s [] = s
last_stamp s (u ∷ us) = last_stamp u us

-- The end of the function: the dates are there.
abbrev pub with_effective : Layer → List Bytes → Layer
with_effective layer [] = record layer { dates = [] }
with_effective layer (s ∷ ss) = record layer {
  dates = s ∷ ss;
  effective_start_date = s;
  effective_end_date = last_stamp s ss;
}

-- The step in milliseconds, which an int64 of nanoseconds has room for.
abbrev pub layer_step : Layer → ℤ
layer_step layer =
    scale_ℤ 60000
      ((scale_ℤ 1440 layer.step_days +ℤ scale_ℤ 60 layer.step_hours) +ℤ layer.step_minutes)

abbrev pub by_mas : Layer → List Bytes × Bytes → Layer
by_mas layer (stamps, []) = layer
by_mas layer ([], c ∷ token) = record layer { timestamp_token = c ∷ token }
by_mas layer (s ∷ stamps, c ∷ token) =
    with_effective (record layer { timestamp_token = c ∷ token }) (s ∷ stamps)

-- strings.ToLower, time.Parse, time.Now, Truncate and the index service are given from outside.
module _ (to_lower : Bytes → Bytes) (parse : Bytes → Option ℕ) (now : Bytes) (truncate : ℕ → ℕ → ℕ)
    (cal : Calendar) (ask : Bytes → Bytes → Bytes → Option MasTimestamps) where
  abbrev pub is_word : Bytes → Bytes → Bool
  is_word s word = bytes_eq (trim_space (to_lower s)) word

  abbrev pub truncated : Layer → ℕ → ℕ
  truncated layer start =
      if lt_ℤ (pos 0) layer.step_days
      then truncate start 86400000
      else if lt_ℤ (pos 0) layer.step_hours
      then truncate start 3600000
      else if lt_ℤ (pos 0) layer.step_minutes
      then truncate start 60000
      else start

  unfoldable pub spaced : Layer → ℕ → ℕ → Option Layer
  unfolding generate_dates
  spaced layer start end =
      if start == end
      then some (with_effective layer (layer.dates ++ (cal.format start ∷ [])))
      else (generate_dates cal layer.time_gen start end (layer_step layer) >>= λ ds.
          some (with_effective layer ds))

  abbrev pub from_texts : Layer → Bool → Option ℕ → Option ℕ → Option Layer
  from_texts layer use_mas none end = some layer
  from_texts layer use_mas (some start) none = some layer
  from_texts layer use_mas (some start) (some end) =
      spaced layer
        (if use_mas && lt_ℤ (pos 0) (layer_step layer) then truncated layer start else start) end

  abbrev pub from_mas : Layer → Bytes → Bytes → List Bytes × Bytes → Option Layer
  from_mas layer start end (stamps, []) = some layer
  from_mas layer start end ([], c ∷ token) = some (record layer { timestamp_token = c ∷ token })
  from_mas layer start end (s ∷ stamps, c ∷ token) =
      from_texts (record layer { timestamp_token = c ∷ token }) true (parse (text_or start s))
        (parse (text_or end (last_stamp s stamps)))

  -- `none` is a generator that is out of fuel.
  unfoldable pub get_layer_dates : Layer → Option Layer
  unfolding has_blended_service generate_dates_mas spaced
  get_layer_dates layer =
      if is_word layer.time_gen (codes "mas")
      then some (
          if has_blended_service layer
          then layer
          else by_mas layer (
              generate_dates_mas parse cal ask layer.start_isodate layer.end_isodate
                (layer_step layer) layer.timestamp_token))
      else let start_mas = is_word layer.start_isodate (codes "mas") in
        let end_mas = is_word layer.end_isodate (codes "mas") in
        let start = if start_mas then [] else layer.start_isodate in
        let end =
          if end_mas
          then []
          else if is_word layer.end_isodate (codes "now")
          then now
          else layer.end_isodate in
        if start_mas || end_mas
        then (if has_blended_service layer
            then some layer
            else from_mas layer start end
                (generate_dates_mas parse cal ask start end (pos 0) layer.timestamp_token))
        else from_texts layer false (parse start) (parse end)
