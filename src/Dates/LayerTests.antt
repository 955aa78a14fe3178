-- ===== src/Dates/LayerTests.antt =====
-- Tests of `GetLayerDates` of utils/config.go, where a text of one byte is the time of its value.
use gsky.Prelude.{◌≡◌, refl, none, some, List, [], ◌∷◌, Bytes, codes}
use gsky.Prelude.Int.{pos}
use gsky.Dap4.{trim_left, trim_right}
use gsky.Dates.Layer.{Layer, get_layer_dates}
use gsky.Dates.MasTests.{flat, one_byte, at, listed}

abbrev layer : Bytes → Bytes → Bytes → List Bytes → Layer
layer time_gen start end dates = record {
  data_source = [];
  input_layers = 0;
  styles = [];
  start_isodate = start;
  end_isodate = end;
  step_days = pos 0;
  step_hours = pos 0;
  step_minutes = pos 1;
  time_gen = time_gen;
  timestamp_token = codes "k";
  dates = dates;
  effective_start_date = [];
  effective_end_date = [];
}

-- The start is the first of the stamps 0 and 7 that the service lists.
start_from_mas :
    get_layer_dates
      (λ s. s)
      one_byte
      (at 9)
      (λ t n. t)
      flat
      (λ start end token. some (listed (codes "n")))
      (layer (codes "yearly") (codes " mas") (at 2) [])
    ≡ some (record (layer (codes "yearly") (codes " mas") (at 2) (at 0 ∷ at 1 ∷ at 2 ∷ [])) {
      timestamp_token = codes "n";
      effective_start_date = at 0;
      effective_end_date = at 2;
    })
unfolding get_layer_dates trim_left trim_right
start_from_mas = refl

-- One date is put behind those of the layer.
one_date :
    get_layer_dates
      (λ s. s)
      one_byte
      (at 9)
      (λ t n. t)
      flat
      (λ start end token. none)
      (layer (codes "yearly") (at 9) (codes "now") (at 5 ∷ []))
    ≡ some (record (layer (codes "yearly") (at 9) (codes "now") (at 5 ∷ at 9 ∷ [])) {
      effective_start_date = at 5;
      effective_end_date = at 9;
    })
unfolding get_layer_dates trim_left trim_right
one_date = refl

no_answer :
    get_layer_dates
      (λ s. s)
      one_byte
      (at 9)
      (λ t n. t)
      flat
      (λ start end token. none)
      (layer (codes "mas") (at 1) (at 2) (at 5 ∷ []))
    ≡ some (layer (codes "mas") (at 1) (at 2) (at 5 ∷ []))
unfolding get_layer_dates trim_left trim_right
no_answer = refl
