-- ===== src/Indexer/Ascending.antt =====
-- The sort at the end of `doSelectionByIndices`: it keeps each index with its value.
use gsky.Prelude.{
  ℕ, zero, suc, ◌+◌, ◌≤◌, ◌≡◌, refl, sym, ap, ◌∙◌, Bool, Bool-cases, true, false, ◌||◌, some, List,
  [], ◌∷◌, arith, leb, ◌==◌, inl, inr, get_elem?, map, ◌>>=◌, All,
}
use gsky.Indexer.Axes.{Coords, Picked}
use gsky.Indexer.Indices.{is_in, ArgSort, arg_sorts, insert_arg, sort_args, values_of, sort_picked}
use gsky.Indexer.Chosen.{Looks}

abbrev pub IsAscending : List ℕ → Type 0
IsAscending [] = Unit
IsAscending (i ∷ is) = All (λ j. i ≤ j) is × IsAscending is

insert_arg-All :
    (P : ArgSort → Type 0) (a : ArgSort) (args : List ArgSort)
    → P a
    → All P args
    → All P (insert_arg a args)
unfolding insert_arg
insert_arg-All P a [] pa h = (pa, h)
insert_arg-All P a (b ∷ args) pa (pb, h) = elim (Bool-cases (leb a.val b.val)) [
  | inl e ↦ rw e (pa, (pb, h))
  | inr e ↦ rw e (pb, insert_arg-All P a args pa h)
]

sort_args-All : (P : ArgSort → Type 0) (args : List ArgSort) → All P args → All P (sort_args args)
unfolding sort_args
sort_args-All P [] h = h
sort_args-All P (a ∷ args) (pa, h) = insert_arg-All P a (sort_args args) pa (sort_args-All P args h)

insert_arg-is_in :
    (j : ℕ) (a : ArgSort) (args : List ArgSort)
    → is_in j (map ArgSort.val (insert_arg a args)) ≡ j == a.val || is_in j (map ArgSort.val args)
unfolding insert_arg is_in
insert_arg-is_in j a [] = refl
insert_arg-is_in j a (b ∷ args) = elim (Bool-cases (leb a.val b.val)) [
  | inl e ↦ rw e refl
  | inr e ↦
      rw (e, insert_arg-is_in j a args)
        (swap (j == a.val) (j == b.val) (is_in j (map ArgSort.val args)))
]
  where
    swap : (x y z : Bool) → y || (x || z) ≡ x || (y || z)
    swap true true z = refl
    swap true false z = refl
    swap false y z = refl

sort_args-is_in :
    (j : ℕ) (args : List ArgSort)
    → is_in j (map ArgSort.val (sort_args args)) ≡ is_in j (map ArgSort.val args)
unfolding sort_args is_in
sort_args-is_in j [] = refl
sort_args-is_in j (a ∷ args) =
    insert_arg-is_in j a (sort_args args) ∙ ap (λ b. j == a.val || b) (sort_args-is_in j args)

All-weaker : (i k : ℕ) (js : List ℕ) → i ≤ k → All (λ j. k ≤ j) js → All (λ j. i ≤ j) js
All-weaker i k [] h all = record {}
All-weaker i k (j ∷ js) h (hj, all) = (omega arith, All-weaker i k js h all)

insert_arg-above :
    (i : ℕ) (a : ArgSort) (args : List ArgSort)
    → i ≤ a.val
    → All (λ j. i ≤ j) (map ArgSort.val args)
    → All (λ j. i ≤ j) (map ArgSort.val (insert_arg a args))
unfolding insert_arg
insert_arg-above i a [] h all = (h, all)
insert_arg-above i a (b ∷ args) h (hb, all) = elim (Bool-cases (leb a.val b.val)) [
  | inl e ↦ rw e (h, (hb, all))
  | inr e ↦ rw e (hb, insert_arg-above i a args h all)
]

insert_arg-IsAscending :
    (a : ArgSort) (args : List ArgSort)
    → IsAscending (map ArgSort.val args)
    → IsAscending (map ArgSort.val (insert_arg a args))
unfolding insert_arg
insert_arg-IsAscending a [] h = (record {}, record {})
insert_arg-IsAscending a (b ∷ args) (hb, h) = elim (Bool-cases (leb a.val b.val)) [
  | inl e ↦
      rw e
        ((ground arith, All-weaker a.val b.val (map ArgSort.val args) (ground arith) hb), (hb, h))
  | inr e ↦ rw e (insert_arg-above b.val a args (ground arith) hb, insert_arg-IsAscending a args h)
]

sort_args-IsAscending : (args : List ArgSort) → IsAscending (map ArgSort.val (sort_args args))
unfolding sort_args
sort_args-IsAscending [] = record {}
sort_args-IsAscending (a ∷ args) =
    insert_arg-IsAscending a (sort_args args) (sort_args-IsAscending args)

vals : (i : ℕ) (is : List ℕ) → map ArgSort.val (arg_sorts i is) ≡ is
unfolding arg_sorts
vals i [] = refl
vals i (j ∷ is) = ap (λ js. j ∷ js) (vals (i + 1) is)

-- A slice behind the first i entries of another, and its tail.
next_entry :
    {A : Type 0} (all : List A) (i : ℕ) (x : A) (xs : List A)
    → ((k : ℕ) → get_elem? all (i + k) ≡ get_elem? (x ∷ xs) k)
    → (k : ℕ) → get_elem? all (i + 1 + k) ≡ get_elem? xs k
next_entry all i x xs h k = ap (get_elem? all) (omega arith) ∙ h (suc k)

arg_sorts-All :
    (all : List ℕ) (i : ℕ) (is : List ℕ)
    → ((k : ℕ) → get_elem? all (i + k) ≡ get_elem? is k)
    → All (λ a. get_elem? all a.sort_idx ≡ some a.val) (arg_sorts i is)
unfolding arg_sorts
arg_sorts-All all i [] h = record {}
arg_sorts-All all i (j ∷ is) h =
    (ap (get_elem? all) (omega arith) ∙ h 0, arg_sorts-All all (i + 1) is (next_entry all i j is h))

module _ (co : Coords) where
  open co use {F}

  Looks-at :
      (params : List F) (is : List ℕ) (vs : List F) (s i : ℕ)
      → Looks co params is vs
      → get_elem? is s ≡ some i
      → (v : F) × (get_elem? vs s ≡ some v) × (get_elem? params i ≡ some v)
  Looks-at params [] vs s i h e = absurd (cc)
  Looks-at params (j ∷ is) [] s i h e = absurd h
  Looks-at params (j ∷ is) (v ∷ vs) zero i (f, h) e =
      (v, refl, ap (λ o. o >>= get_elem? params) (sym e) ∙ f)
  Looks-at params (j ∷ is) (v ∷ vs) (suc s) i (f, h) e = Looks-at params is vs s i h e

  values_of-Looks :
      (params : List F) (is : List ℕ) (vs : List F) (args : List ArgSort)
      → Looks co params is vs
      → All (λ a. get_elem? is a.sort_idx ≡ some a.val) args
      → (ws : List F) × (values_of co args vs ≡ some ws) × Looks co params (map ArgSort.val args) ws
  unfolding values_of
  values_of-Looks params is vs [] h ok = ([], refl, record {})
  values_of-Looks params is vs (a ∷ args) h (e, ok) =
      let (v, there, at) = Looks-at params is vs a.sort_idx a.val h e in
      let (ws, run, looks) = values_of-Looks params is vs args h ok in
      (v ∷ ws, rw (there, run) refl, (at, looks))

  pub sort_picked-some :
      (params : List F) (p : Picked co)
      → Looks co params p.idx p.values
      → (p' : Picked co) × (sort_picked co p ≡ some p')
        × Looks co params p'.idx p'.values
        × IsAscending p'.idx
        × ((j : ℕ) → is_in j p'.idx ≡ is_in j p.idx)
  unfolding sort_picked
  sort_picked-some params p h =
      let args = sort_args (arg_sorts 0 p.idx) in
      let good =
        sort_args-All (λ a. get_elem? p.idx a.sort_idx ≡ some a.val) (arg_sorts 0 p.idx)
          (arg_sorts-All p.idx 0 p.idx (λ k. ap (get_elem? p.idx) (omega arith))) in
      let (ws, run, looks) = values_of-Looks params p.idx p.values args h good in
      (
        record { idx = map ArgSort.val args; values = ws },
        rw run refl,
        looks,
        sort_args-IsAscending (arg_sorts 0 p.idx),
        λ j. sort_args-is_in j (arg_sorts 0 p.idx) ∙ ap (is_in j) (vals 0 p.idx),
      )
