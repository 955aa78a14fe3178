-- ===== src/Fusion/Resolved.antt =====
-- What `findDepLayers` finds when it does not fail.
use gsky.Prelude.{
  ℕ, zero, suc, ◌+◌, ◌≡◌, ◌≢◌, refl, sym, subst, Option-cases, ◌∙◌, ap, inl, inr, Bool-cases,
  Option, none, some, List, [], ◌∷◌, get_elem?, Bytes, bytes_eq, bytes_eq→eq, arith,
}
use gsky.Prelude.Result.{ok, >>=-eq-ok}
use gsky.Dap4.{trim_space}
use gsky.DrillMerger.{lookup}
use gsky.Fusion.Layers.{
  Layer, LayerRef, DepLayer, Configs, find_name, layer_names, found_layer, found_style, or_default,
  only_style, or_error, layer_at, ref_style, get_layer_index, get_layer_style_index, wanted_style,
  style_index, find_dep_layer, find_dep_layers,
}

-- The style that is taken of a layer: the one that is named, or the only one there is.
abbrev pub StyleFits : List Bytes → List Bytes → Option ℕ → Type 0
StyleFits [] styles none = styles ≡ []
StyleFits [] styles (some i) = (style : Bytes) × (styles ≡ style ∷ []) × (i ≡ 0)
StyleFits (style ∷ _) styles none = (trim_space style ≡ []) × (styles ≡ [])
StyleFits (style ∷ _) styles (some i) =
    (s : Bytes) × (get_elem? styles i ≡ some s)
    × (trim_space style ≢ [] → s ≡ trim_space style)
    × (trim_space style ≡ [] → i ≡ 0)

-- What is found for a reference in the configurations.
abbrev pub Resolves : Bytes → Configs → LayerRef → DepLayer → Type 0
Resolves current configs ref d =
    (layers : List Layer) × (layer : Layer) × (d.namespace ≡ or_default ref.namespace current)
    × (lookup d.namespace configs ≡ some layers)
    × (get_elem? layers d.layer_idx ≡ some layer)
    × (layer.name ≡ ref.name)
    × StyleFits ref.styles layer.styles d.style_idx

abbrev pub AllResolve : Bytes → Configs → List LayerRef → List DepLayer → Type 0
AllResolve current configs [] ds = ds ≡ []
AllResolve current configs (ref ∷ refs) [] = ⊥
AllResolve current configs (ref ∷ refs) (d ∷ ds) =
    Resolves current configs ref d × AllResolve current configs refs ds

find_name-elem :
    (name : Bytes) (i : ℕ) (ss : List Bytes) {k : ℕ}
    → find_name name i ss ≡ some k
    → (n : ℕ) × (k ≡ i + n) × (get_elem? ss n ≡ some name)
unfolding find_name
find_name-elem name i [] e = cc
find_name-elem name i (s ∷ ss) {k} e = elim (Bool-cases (bytes_eq s name)) [
  | inl here ↦
      let first : some i ≡ some k = rw here at e in
      let same : i ≡ k = cc in (0, omega arith, ap some (bytes_eq→eq s name here))
  | inr there ↦
      let rest : find_name name (suc i) ss ≡ some k = rw there at e in
      let (n, q, h) = find_name-elem name (suc i) ss rest in (suc n, omega arith, h)
]

find_name-at :
    (name : Bytes) (ss : List Bytes) {k : ℕ}
    → find_name name 0 ss ≡ some k
    → get_elem? ss k ≡ some name
find_name-at name ss {k} e =
    let (n, q, h) = find_name-elem name 0 ss e in
    let same : k ≡ n = omega arith in ap (get_elem? ss) same ∙ h

layer_names-elem :
    (ls : List Layer) (i : ℕ) (name : Bytes) (layer : Layer)
    → get_elem? (layer_names ls) i ≡ some name
    → get_elem? ls i ≡ some layer
    → layer.name ≡ name
layer_names-elem [] i name layer e h = cc
layer_names-elem (l ∷ ls) zero name layer e h = cc
layer_names-elem (l ∷ ls) (suc i) name layer e h = layer_names-elem ls i name layer e h

-- The name of the layer at an index that was found.
get_layer_index-name :
    (name : Bytes) (ls : List Layer) (layer : Layer) {i : ℕ}
    → get_layer_index (some (name ∷ [])) ls ≡ ok i
    → get_elem? ls i ≡ some layer
    → layer.name ≡ name
unfolding get_layer_index
get_layer_index-name name ls layer {i} e h =
    elim (Option-cases (find_name name 0 (layer_names ls))) [
      | inl nothing ↦ let e' : found_layer none ≡ ok i = rw nothing at e in cc
      | inr (k, found) ↦
          let e' : ok k ≡ ok i = rw found at e in
          let same : k ≡ i = cc in
          layer_names-elem ls i name layer
            (ap (get_elem? (layer_names ls)) (sym same) ∙ find_name-at name (layer_names ls) found)
            h
    ]

only_style-StyleFits :
    (styles : List Bytes) {o : Option ℕ} → only_style styles ≡ ok o → StyleFits [] styles o
only_style-StyleFits [] {o} e = let same : none ≡ o = cc in subst (StyleFits [] []) same refl
only_style-StyleFits (s ∷ []) {o} e =
    let same : some 0 ≡ o = cc in subst (StyleFits [] (s ∷ [])) same (s, refl, refl)
only_style-StyleFits (s ∷ t ∷ ss) e = cc

named-StyleFits :
    (style : Bytes) (more styles : List Bytes) (wanted : Bytes) {o : Option ℕ}
    → trim_space style ≡ wanted
    → style_index wanted styles ≡ ok o
    → StyleFits (style ∷ more) styles o
named-StyleFits style more [] [] {o} w e =
    let same : none ≡ o = cc in subst (StyleFits (style ∷ more) []) same (w, refl)
named-StyleFits style more (s ∷ ss) [] {o} w e =
    let same : some 0 ≡ o = cc in
    subst (StyleFits (style ∷ more) (s ∷ ss)) same (s, refl, λ named. absurd (named w), λ _. refl)
named-StyleFits style more styles (c ∷ t) {o} w e =
    elim (Option-cases (find_name (c ∷ t) 0 styles)) [
      | inl nothing ↦ let e' : found_style none ≡ ok o = rw nothing at e in cc
      | inr (k, found) ↦
          let e' : found_style (some k) ≡ ok o = rw found at e in
          let same : some k ≡ o = cc in
          subst (StyleFits (style ∷ more) styles) same
            (c ∷ t, find_name-at (c ∷ t) styles found, λ _. sym w, λ blank. cc)
    ]

-- Without axes the name is only trimmed.
wanted_style-trim : (style : Bytes) → trim_space style ≡ wanted_style [] style
unfolding wanted_style
wanted_style-trim style = ground arith

ref_style-StyleFits :
    (names : List Bytes) (layer : Layer) {o : Option ℕ}
    → ref_style names layer ≡ ok o
    → StyleFits names layer.styles o
unfolding get_layer_style_index
ref_style-StyleFits [] layer e = only_style-StyleFits layer.styles e
ref_style-StyleFits (style ∷ more) layer e =
    named-StyleFits style more layer.styles (wanted_style [] style) (wanted_style-trim style) e

or_error-some {ℓ} : {A : Type ℓ} (o : Option A) {a : A} → or_error o ≡ ok a → o ≡ some a
or_error-some none e = cc
or_error-some (some b) e = cc

layer_at-some :
    (ls : List Layer) (i : ℕ) {l : Layer} → layer_at ls i ≡ ok l → get_elem? ls i ≡ some l
layer_at-some ls i {l} e = elim (Option-cases (get_elem? ls i)) [
  | inl nothing ↦ ground arith
  | inr (k, found) ↦ ground arith
]

find_dep_layer-Resolves :
    (current : Bytes) (configs : Configs) (ref : LayerRef) {d : DepLayer}
    → find_dep_layer current configs ref ≡ ok d
    → Resolves current configs ref d
unfolding find_dep_layer
find_dep_layer-Resolves current configs ref {d} e =
    let (layers, e1, r1) = >>=-eq-ok _ _ e in
    let (i, e2, r2) = >>=-eq-ok _ _ r1 in
    let (layer, e3, r3) = >>=-eq-ok _ _ r2 in
    let (style, e4, r4) = >>=-eq-ok _ _ r3 in
    let at = layer_at-some layers i e3 in
    let made : DepLayer = record {
      namespace = or_default ref.namespace current;
      layer_idx = i;
      style_idx = style;
    } in
    let same : made ≡ d = cc in
    subst (Resolves current configs ref) same (
      layers,
      layer,
      refl,
      or_error-some _ e1,
      at,
      get_layer_index-name ref.name layers layer e2 at,
      ref_style-StyleFits ref.styles layer e4,
    )

-- When `findDepLayers` does not fail, it gives one layer for each reference, in order: a layer of
-- that name in the configuration of the reference's namespace, or of the current layer's, or of the
-- root; with the style that is named there, the first one if the name is blank, or the only one if
-- none is named.
pub find_dep_layers-AllResolve :
    (current : Bytes) (configs : Configs) (refs : List LayerRef) {ds : List DepLayer}
    → find_dep_layers current configs refs ≡ ok ds
    → AllResolve current configs refs ds
unfolding find_dep_layers
find_dep_layers-AllResolve current configs [] e = cc
find_dep_layers-AllResolve current configs (ref ∷ refs) {ds} e =
    let (d, e1, r1) = >>=-eq-ok _ _ e in
    let (rest, e2, r2) = >>=-eq-ok _ _ r1 in
    let same : d ∷ rest ≡ ds = cc in
    subst (AllResolve current configs (ref ∷ refs)) same (
      find_dep_layer-Resolves current configs ref e1,
      find_dep_layers-AllResolve current configs refs e2,
    )
