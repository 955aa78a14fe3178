-- ===== src/OomMonitor/Maximum.antt =====
-- The greatest of a list of processes.
use gsky.Prelude.{
  ℕ, suc, ◌≡◌, refl, sym, subst, ap, inl, inr, ◌⊎◌, true, false, Bool-cases, some, List, [], ◌∷◌,
  get_elem?, arith, All,
}
use gsky.Prelude.Int.{ℤ, pos, negsuc, lt_ℤ}
use gsky.Prelude.Result.{}
use gsky.OomMonitor.{ProcessStatus, max_proc}

lt_ℤ-trans_not : (a b c : ℤ) → lt_ℤ a b ≡ false → lt_ℤ b c ≡ false → lt_ℤ a c ≡ false
lt_ℤ-trans_not (pos a) (pos b) (pos c) h k = ground arith
lt_ℤ-trans_not (pos a) (pos b) (negsuc c) h k = refl
lt_ℤ-trans_not (pos a) (negsuc b) (pos c) h k = cc
lt_ℤ-trans_not (pos a) (negsuc b) (negsuc c) h k = refl
lt_ℤ-trans_not (negsuc a) (pos b) c h k = cc
lt_ℤ-trans_not (negsuc a) (negsuc b) (pos c) h k = cc
lt_ℤ-trans_not (negsuc a) (negsuc b) (negsuc c) h k = ground arith

lt_ℤ-asym : (a b : ℤ) → lt_ℤ a b ≡ true → lt_ℤ b a ≡ false
lt_ℤ-asym (pos a) (pos b) h = ground arith
lt_ℤ-asym (pos a) (negsuc b) h = cc
lt_ℤ-asym (negsuc a) (pos b) h = refl
lt_ℤ-asym (negsuc a) (negsuc b) h = ground arith

lt_ℤ-irrefl : (a : ℤ) → lt_ℤ a a ≡ false
lt_ℤ-irrefl (pos a) = ground arith
lt_ℤ-irrefl (negsuc a) = ground arith

-- No process of a list is greater.
abbrev pub IsGreatest : ProcessStatus → List ProcessStatus → Type 0
IsGreatest q ps = All (λ p. lt_ℤ q.vm_rss p.vm_rss ≡ false) ps

max_proc-more :
    (p : ProcessStatus) (ps : List ProcessStatus) (best : ProcessStatus)
    → lt_ℤ best.vm_rss p.vm_rss ≡ true
    → max_proc (p ∷ ps) best ≡ max_proc ps p
unfolding max_proc
max_proc-more p ps best h = rw h refl

max_proc-less :
    (p : ProcessStatus) (ps : List ProcessStatus) (best : ProcessStatus)
    → lt_ℤ best.vm_rss p.vm_rss ≡ false
    → max_proc (p ∷ ps) best ≡ max_proc ps best
unfolding max_proc
max_proc-less p ps best h = rw h refl

max_proc-nil : (best : ProcessStatus) → max_proc [] best ≡ best
unfolding max_proc
max_proc-nil best = refl

pub max_proc-IsGreatest :
    (ps : List ProcessStatus) (best : ProcessStatus)
    → (lt_ℤ (max_proc ps best).vm_rss best.vm_rss ≡ false) × IsGreatest (max_proc ps best) ps
max_proc-IsGreatest [] best = (rw (max_proc-nil best) (lt_ℤ-irrefl best.vm_rss), record {})
max_proc-IsGreatest (p ∷ ps) best = elim (Bool-cases (lt_ℤ best.vm_rss p.vm_rss)) [
  | inl more ↦
      let (this, others) = max_proc-IsGreatest ps p in
      subst (λ q. (lt_ℤ q.vm_rss best.vm_rss ≡ false) × IsGreatest q (p ∷ ps))
        (sym (max_proc-more p ps best more))
        (
          lt_ℤ-trans_not _ p.vm_rss best.vm_rss this (lt_ℤ-asym best.vm_rss p.vm_rss more),
          (this, others),
        )
  | inr less ↦
      let (this, others) = max_proc-IsGreatest ps best in
      subst (λ q. (lt_ℤ q.vm_rss best.vm_rss ≡ false) × IsGreatest q (p ∷ ps))
        (sym (max_proc-less p ps best less))
        (this, (lt_ℤ-trans_not _ best.vm_rss p.vm_rss this less, others))
]

pub max_proc-elem :
    (ps : List ProcessStatus) (best : ProcessStatus)
    → (max_proc ps best ≡ best) ⊎ ((i : ℕ) × (get_elem? ps i ≡ some (max_proc ps best)))
unfolding max_proc
max_proc-elem [] best = inl refl
max_proc-elem (p ∷ ps) best = elim (Bool-cases (lt_ℤ best.vm_rss p.vm_rss)) [
  | inl more ↦ rw more (elim (max_proc-elem ps p) [
    | inl same ↦ inr (0, ap some (sym same))
    | inr (i, e) ↦ inr (suc i, e)
  ])
  | inr less ↦
      rw less (elim (max_proc-elem ps best) [ inl same ↦ inl same | inr (i, e) ↦ inr (suc i, e) ])
]
