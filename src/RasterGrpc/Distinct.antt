-- ===== src/RasterGrpc/Distinct.antt =====
-- Granules without those that came before, and the texts in a list: what the loop of
-- `GeoRasterGRPC.Run` looks up while the granules come in.
use gsky.Prelude.{
  ◌≡◌, refl, sym, ◌∙◌, inl, inr, Bool, true, ◌&&◌, ◌||◌, Bool-cases, List, [], ◌∷◌, ◌++◌, map, ◌==◌,
  if◌then◌else◌, Bytes, ℕ, bytes_eq, bytes_eq→eq, arith, Option, some, ◌>>=◌,
}
use gsky.RasterGrpc.{Floats, Granule, tiles_of}
use gsky.RasterGrpc.Stage.{null_path, has_key, has_text, note_text, all_available}

has_text-append :
    (v : Bytes) (ss ts : List Bytes) → has_text v (ss ++ ts) ≡ (has_text v ss || has_text v ts)
unfolding has_text
has_text-append v [] ts = refl
has_text-append v (s ∷ ss) ts = ground (arith, has_text-append v ss ts)

has_text-eq :
    (v w : Bytes) (ss : List Bytes)
    → bytes_eq v w ≡ true
    → has_text v ss ≡ true
    → has_text w ss ≡ true
has_text-eq v w ss e h = let q : v ≡ w = bytes_eq→eq v w e in cc

has_text-note_text :
    (v w : Bytes) (ss : List Bytes) → has_text v (note_text w ss) ≡ (has_text v ss || bytes_eq w v)
unfolding has_text
has_text-note_text v w ss = elim (Bool-cases (has_text w ss)) [
  | inl there ↦ rw there (ground (arith, has_text-eq w v ss))
  | inr new ↦ rw (new, has_text-append v ss (w ∷ [])) (ground arith)
]

pub has_text-noted :
    (v w : Bytes) (ss ts : List Bytes)
    → has_text v (note_text w ss ++ ts) ≡ has_text v (ss ++ w ∷ ts)
unfolding has_text
has_text-noted v w ss ts =
    rw
      (
        has_text-append v (note_text w ss) ts,
        has_text-note_text v w ss,
        has_text-append v ss (w ∷ ts),
      )
      (ground arith)

pub all_available-has_text :
    (vs ss ts : List Bytes)
    → ((v : Bytes) → has_text v ss ≡ has_text v ts)
    → all_available vs ss ≡ all_available vs ts
unfolding all_available
all_available-has_text [] ss ts h = refl
all_available-has_text (v ∷ vs) ss ts h = rw (h v, all_available-has_text vs ss ts h) refl

module _ {fl : Floats} {A : Type 0} where
  abbrev pub same_key : Granule fl A → Granule fl A → Bool
  same_key g h = bytes_eq g.path h.path && g.band_idx == h.band_idx

  unfoldable pub drop_key : Granule fl A → List (Granule fl A) → List (Granule fl A)
  drop_key g [] = []
  drop_key g (h ∷ hs) = let rest = drop_key g hs in if same_key g h then rest else h ∷ rest

  -- The granules that are there, each path with each band once: where it comes first.
  unfoldable pub distinct : List (Granule fl A) → List (Granule fl A)
  unfolding drop_key
  distinct [] = []
  distinct (g ∷ gs) =
      let rest = distinct gs in if bytes_eq g.path null_path then rest else g ∷ drop_key g rest

  -- The tiles of some granules, one granule after the other.
  unfoldable pub cut_all : Granule fl A → List (Granule fl A) → Option (List (Granule fl A))
  cut_all g0 [] = some []
  cut_all g0 (g ∷ gs) = tiles_of fl g0 g >>= λ ts. cut_all g0 gs >>= λ us. some (ts ++ us)

  unfoldable pub unseen : List (Bytes × ℕ) → List (Granule fl A) → List (Granule fl A)
  unseen keys [] = []
  unseen keys (h ∷ hs) =
      let rest = unseen keys hs in if has_key h.path h.band_idx keys then rest else h ∷ rest

  pub unseen-nil : (hs : List (Granule fl A)) → unseen [] hs ≡ hs
  unfolding unseen has_key
  unseen-nil [] = refl
  unseen-nil (h ∷ hs) = rw (unseen-nil hs) refl

  has_key-same :
      (g h : Granule fl A) (keys : List (Bytes × ℕ))
      → same_key g h ≡ true
      → has_key g.path g.band_idx keys ≡ has_key h.path h.band_idx keys
  has_key-same g h keys e =
      let p : bytes_eq g.path h.path ≡ true = ground arith in
      let b : g.band_idx ≡ h.band_idx = ground arith in
      let q : g.path ≡ h.path = bytes_eq→eq g.path h.path p in cc

  pub unseen-drop_key_seen :
      (g : Granule fl A) (keys : List (Bytes × ℕ)) (hs : List (Granule fl A))
      → has_key g.path g.band_idx keys ≡ true
      → unseen keys (drop_key g hs) ≡ unseen keys hs
  unfolding unseen drop_key
  unseen-drop_key_seen g keys [] k = refl
  unseen-drop_key_seen g keys (h ∷ hs) k = elim (Bool-cases (same_key g h)) [
    | inl same ↦ rw (same, sym (has_key-same g h keys same) ∙ k) (unseen-drop_key_seen g keys hs k)
    | inr other ↦ rw (other, unseen-drop_key_seen g keys hs k) refl
  ]

  pub unseen-drop_key :
      (g : Granule fl A) (keys : List (Bytes × ℕ)) (hs : List (Granule fl A))
      → unseen keys (drop_key g hs) ≡ unseen ((g.path, g.band_idx) ∷ keys) hs
  unfolding unseen drop_key has_key
  unseen-drop_key g keys [] = refl
  unseen-drop_key g keys (h ∷ hs) = elim (Bool-cases (same_key g h)) [
    | inl same ↦ rw same (unseen-drop_key g keys hs)
    | inr other ↦ rw (other, unseen-drop_key g keys hs) refl
  ]

  abbrev pub names : List (Granule fl A) → List Bytes
  names gs = map (λ g. g.var_namespace) gs
