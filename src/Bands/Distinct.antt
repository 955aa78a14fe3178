-- ===== src/Bands/Distinct.antt =====
-- Texts without those that are there already, as the loops over variables keep them.
use mathlib.Core.List.{append_assoc, append-nil}
use gsky.Prelude.{
  ◌≡◌, refl, sym, ◌∙◌, ap, inl, inr, true, false, ◌||◌, Bool-cases, List, [], ◌∷◌, ◌++◌,
  if◌then◌else◌, Bytes, bytes_eq, bytes_eq→eq, arith,
}
use gsky.DrillMerger.{is_listed}
use gsky.Bands.{add_new}

-- The texts without those equal to one.
unfoldable pub without : Bytes → List Bytes → List Bytes
without v [] = []
without v (s ∷ ss) = let rest = without v ss in if bytes_eq s v then rest else s ∷ rest

-- Each text once: where it comes first.
unfoldable pub distinct : List Bytes → List Bytes
unfolding without
distinct [] = []
distinct (v ∷ vs) = v ∷ without v (distinct vs)

unfoldable pub add_all : List Bytes → List Bytes → List Bytes
add_all [] found = found
add_all (v ∷ vs) found = add_all vs (add_new v found)

pub add_all-append :
    (us vs found : List Bytes) → add_all (us ++ vs) found ≡ add_all vs (add_all us found)
unfolding add_all
add_all-append [] vs found = refl
add_all-append (u ∷ us) vs found = add_all-append us vs (add_new u found)

-- The texts that are not in a list.
unlisted : List Bytes → List Bytes → List Bytes
unlisted found [] = []
unlisted found (v ∷ vs) =
    let rest = unlisted found vs in if is_listed v found then rest else v ∷ rest

unlisted-nil : (vs : List Bytes) → unlisted [] vs ≡ vs
unfolding unlisted is_listed
unlisted-nil [] = refl
unlisted-nil (v ∷ vs) = rw (unlisted-nil vs) refl

is_listed-append :
    (v : Bytes) (ss ts : List Bytes) → is_listed v (ss ++ ts) ≡ (is_listed v ss || is_listed v ts)
unfolding is_listed
is_listed-append v [] ts = refl
is_listed-append v (s ∷ ss) ts = ground (arith, is_listed-append v ss ts)

unlisted-without_listed :
    (v : Bytes) (found vs : List Bytes)
    → is_listed v found ≡ true
    → unlisted found (without v vs) ≡ unlisted found vs
unfolding unlisted without
unlisted-without_listed v found [] h = refl
unlisted-without_listed v found (s ∷ ss) h = elim (Bool-cases (bytes_eq s v)) [
  | inl same ↦
      let e : s ≡ v = bytes_eq→eq s v same in
      let listed : is_listed s found ≡ true = ap (λ t. is_listed t found) e ∙ h in
      rw (same, listed) (unlisted-without_listed v found ss h)
  | inr other ↦ rw (other, unlisted-without_listed v found ss h) refl
]

bytes_eq_sym : (s t : Bytes) → bytes_eq s t ≡ bytes_eq t s
bytes_eq_sym [] [] = refl
bytes_eq_sym [] (d ∷ t) = refl
bytes_eq_sym (c ∷ s) [] = refl
bytes_eq_sym (c ∷ s) (d ∷ t) = ground (arith, bytes_eq_sym s t)

unlisted-without :
    (v : Bytes) (found vs : List Bytes)
    → unlisted found (without v vs) ≡ unlisted (found ++ (v ∷ [])) vs
unfolding unlisted without is_listed
unlisted-without v found [] = refl
unlisted-without v found (s ∷ ss) = elim (Bool-cases (bytes_eq s v)) [
  | inl same ↦
      let there : bytes_eq v s ≡ true = bytes_eq_sym v s ∙ same in
      let listed : is_listed s (found ++ (v ∷ [])) ≡ true =
        is_listed-append s found (v ∷ []) ∙ ground arith in
      rw (same, listed) (unlisted-without v found ss)
  | inr other ↦
      let there : bytes_eq v s ≡ false = bytes_eq_sym v s ∙ other in
      let listed : is_listed s (found ++ (v ∷ [])) ≡ is_listed s found =
        is_listed-append s found (v ∷ []) ∙ ground arith in
      rw (other, listed, unlisted-without v found ss) refl
]

add_all-unlisted :
    (vs found : List Bytes) → add_all vs found ≡ found ++ unlisted found (distinct vs)
unfolding add_all add_new distinct unlisted
add_all-unlisted [] found = sym (append-nil found)
add_all-unlisted (v ∷ vs) found = elim (Bool-cases (is_listed v found)) [
  | inl listed ↦
      rw (listed, unlisted-without_listed v found (distinct vs) listed) (add_all-unlisted vs found)
  | inr new ↦
      rw (new, unlisted-without v found (distinct vs))
        (add_all-unlisted vs (found ++ (v ∷ []))
          ∙ append_assoc found (v ∷ []) (unlisted (found ++ (v ∷ [])) (distinct vs)))
]

-- Adding the texts of a list, each where it is not there yet, gives each once.
pub add_all-distinct : (vs : List Bytes) → add_all vs [] ≡ distinct vs
add_all-distinct vs = add_all-unlisted vs [] ∙ unlisted-nil (distinct vs)
