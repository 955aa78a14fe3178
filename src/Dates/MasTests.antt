-- ===== src/Dates/MasTests.antt =====
-- Tests of the time stamps of utils/config.go: a text of one byte is the time of its value.
use gsky.Prelude.{
  ℕ, zero, suc, ◌+◌, ◌*◌, ◌≡◌, refl, sym, ap, Option, none, some, List, [], ◌∷◌, ◌++◌, get_elem?,
  take, All-elem, arith, Bytes, codes,
}
use gsky.Prelude.Int.{pos}
use gsky.Dap4.{trim_left, trim_right}
use gsky.Dates.{Calendar}
use gsky.Dates.Mas.{MasTimestamps, aggregate_stamps, generate_dates_mas}
use gsky.Dates.Rounds.{Follows}
use gsky.Dates.Aggregated.{IsAscending, Picks, aggregate_stamps-Picks}

abbrev pub flat : Calendar
flat = record {
  year = λ t. t;
  month = λ t. t;
  day = λ t. t;
  date = λ y m d. d;
  add_years = λ t n. t + n;
  add_months = λ t n. t + n;
  add_days = λ t n. t + n;
  format = λ t. t ∷ [];
}

abbrev pub one_byte : Bytes → Option ℕ
one_byte (c ∷ []) = some c
one_byte _ = none

abbrev value : Bytes → ℕ
value [] = 0
value (c ∷ s) = c

abbrev pub at : ℕ → Bytes
at t = t ∷ []

-- The date 6 gets the nearer one of 5 and 8.
nearest_taken :
    aggregate_stamps one_byte flat (at 0 ∷ at 4 ∷ at 5 ∷ at 8 ∷ at 9 ∷ []) (pos 6)
    ≡ some (at 0 ∷ at 5 ∷ at 9 ∷ [])
unfolding aggregate_stamps
nearest_taken = refl

-- When the last stamp is a step's end and there are more stamps than dates, the last date is empty.
last_is_empty :
    aggregate_stamps one_byte flat (at 0 ∷ at 1 ∷ at 2 ∷ at 3 ∷ at 4 ∷ []) (pos 2)
    ≡ some (at 0 ∷ at 2 ∷ at 4 ∷ [] ∷ [])
unfolding aggregate_stamps
last_is_empty = refl

abbrev pub listed : Bytes → MasTimestamps
listed token = record { error = []; timestamps = at 0 ∷ at 7 ∷ []; token = token }

nothing_new :
    generate_dates_mas one_byte flat
      (λ start end token. some (listed token))
      []
      (at 8)
      (pos 6)
      (codes "k")
    ≡ ([], codes "k")
unfolding generate_dates_mas trim_left trim_right
nothing_new = refl

no_time :
    generate_dates_mas one_byte flat
      (λ start end token. some (listed (codes "n")))
      (codes "12")
      []
      (pos 6)
      (codes "k")
    ≡ ([], codes "k")
unfolding generate_dates_mas trim_left trim_right
no_time = refl

all_listed :
    generate_dates_mas one_byte flat
      (λ start end token. some (listed (codes "n")))
      []
      (at 65)
      (pos 0)
      (codes "k")
    ≡ (at 0 ∷ at 7 ∷ [], codes "n")
unfolding generate_dates_mas trim_left trim_right
all_listed = refl

abbrev stamps : List Bytes
stamps = at 0 ∷ at 3 ∷ at 6 ∷ []

abbrev value_or : Option Bytes → ℕ
value_or none = 0
value_or (some s) = value s

value_at : (i : ℕ) (s : Bytes) → get_elem? stamps i ≡ some s → value s ≡ 3 * i
value_at zero s e = sym (ap value_or e)
value_at (suc zero) s e = sym (ap value_or e)
value_at (suc (suc zero)) s e = sym (ap value_or e)
value_at (suc (suc (suc i))) s e = absurd (cc)

stamps-IsAscending : IsAscending one_byte value stamps
stamps-IsAscending = (
  λ i s e. All-elem (λ u. one_byte u ≡ some (value u)) stamps i (refl, (refl, (refl, record {}))) e,
  λ i j s u l e e'. omega (arith, value_at i s e, value_at j u e'),
)

aggregate_stamps-Picks_example :
    (first last : Bytes) × (some (at 0) ≡ some first)
    × (some (at 6) ≡ some last)
    × (ref_dates : List ℕ) × Follows (λ t. t + 4) (λ t. t + 4) (value last) (value first) ref_dates
    × (out : List Bytes) × (aggregate_stamps one_byte flat stamps (pos 4) ≡ some out)
    × Picks one_byte value (take 3 (ref_dates ++ (value last ∷ []))) stamps out
aggregate_stamps-Picks_example =
    aggregate_stamps-Picks one_byte value flat stamps stamps-IsAscending (omega arith) 3
