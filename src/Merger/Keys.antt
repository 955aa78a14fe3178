-- ===== src/Merger/Keys.antt =====
-- The order in which `ProcessRasterStack` takes the keys of the stack.
use gsky.Prelude.{
  ℕ, ◌+◌, ◌≡◌, refl, inl, inr, Bool, Bool-cases, true, false, List, [], ◌∷◌, arith, if◌then◌else◌,
  All,
}
use gsky.Merger.Types.{Float64}
use gsky.Merger.Stack.{insert_key, sort_keys}

module _ (fl : Float64) where
  open fl use {F, lt}

  -- No key is less than one behind it.
  abbrev pub IsDescending : List F → Type 0
  IsDescending [] = Unit
  IsDescending (k ∷ ks) = All (λ j. lt k j ≡ false) ks × IsDescending ks

  abbrev pub count : (F → Bool) → List F → ℕ
  count test [] = 0
  count test (k ∷ ks) = (if test k then 1 else 0) + count test ks

  insert_key-All :
      (P : F → Type 0) (k : F) (ks : List F) → P k → All P ks → All P (insert_key fl k ks)
  unfolding insert_key
  insert_key-All P k [] pk h = (pk, h)
  insert_key-All P k (j ∷ ks) pk (pj, h) = elim (Bool-cases (lt j k)) [
    | inl e ↦ rw e (pk, (pj, h))
    | inr e ↦ rw e (pj, insert_key-All P k ks pk h)
  ]

  insert_key-count :
      (test : F → Bool) (k : F) (ks : List F)
      → count test (insert_key fl k ks) ≡ (if test k then 1 else 0) + count test ks
  unfolding insert_key
  insert_key-count test k [] = refl
  insert_key-count test k (j ∷ ks) = elim (Bool-cases (lt j k)) [
    | inl e ↦ rw e refl
    | inr e ↦ rw e (omega (arith, insert_key-count test k ks))
  ]

  module _ (lt_trans : (a b c : F) → lt a b ≡ true → lt b c ≡ true → lt a c ≡ true)
      (lt_asym : (a b : F) → lt a b ≡ true → lt b a ≡ false) where
    below :
        (j k : F) (ks : List F)
        → lt j k ≡ true
        → All (λ i. lt j i ≡ false) ks
        → All (λ i. lt k i ≡ false) ks
    below j k [] e h = record {}
    below j k (i ∷ ks) e (hi, h) = elim (Bool-cases (lt k i)) [
      | inl up ↦ (let e' = lt_trans j k i e up in absurd (cc))
      | inr down ↦ (down, below j k ks e h)
    ]

    insert_key-IsDescending :
        (k : F) (ks : List F) → IsDescending ks → IsDescending (insert_key fl k ks)
    unfolding insert_key
    insert_key-IsDescending k [] h = (record {}, record {})
    insert_key-IsDescending k (j ∷ ks) (hj, h) = elim (Bool-cases (lt j k)) [
      | inl e ↦ rw e ((lt_asym j k e, below j k ks e hj), (hj, h))
      | inr e ↦
          rw e (insert_key-All (λ i. lt j i ≡ false) k ks e hj, insert_key-IsDescending k ks h)
    ]

    -- The keys are taken in descending order, and each as often as it was there: for every test, as
    -- many of the sorted keys pass it as of the given ones. Of the order < only transitivity and
    -- asymmetry are used.
    pub sort_keys-IsDescending :
        (ks : List F)
        → IsDescending (sort_keys fl ks)
          × ((test : F → Bool) → count test (sort_keys fl ks) ≡ count test ks)
    unfolding sort_keys
    sort_keys-IsDescending [] = (record {}, λ test. refl)
    sort_keys-IsDescending (k ∷ ks) =
        let (down, same) = sort_keys-IsDescending ks in
        (
          insert_key-IsDescending k (sort_keys fl ks) down,
          λ test. omega (arith, insert_key-count test k (sort_keys fl ks), same test),
        )
