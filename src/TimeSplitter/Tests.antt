-- ===== src/TimeSplitter/Tests.antt =====
-- Steps of four.
use gsky.Prelude.{ℕ, ◌+◌, ◌≡◌, refl, some, List, [], ◌∷◌, arith}
use gsky.TimeSplitter.{Request, split_request}
use gsky.TimeSplitter.Windows.{Covers, split_request-Covers}

abbrev four_later : ℕ → ℕ
four_later t = t + 4

abbrev six : Request ℕ
six = record { start_time = 10; end_time = 16; vrt_url = []; rest = 1 }

two_windows :
    split_request four_later 2 six
    ≡ some (record six { end_time = 14 } ∷ record six { start_time = 14; end_time = 18 } ∷ [])
unfolding split_request
two_windows = refl

split_request-Covers_example :
    (ws : List (Request ℕ)) × (split_request four_later 2 six ≡ some ws)
    × Covers four_later (λ t. omega arith) six six.start_time ws
split_request-Covers_example =
    split_request-Covers four_later (λ t. omega arith) 2 six (omega arith)
