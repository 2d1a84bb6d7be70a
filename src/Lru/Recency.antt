-- ===== src/Lru/Recency.antt =====
-- What a cache promises: a list of keys and values, the one used last first, of a bounded length.
use mathlib.Core.Logic.{ite}
use pkgsite.Prelude.{
  ℕ, ◌≤◌, ◌<◌, List, [], ◌∷◌, Option, none, some, ◌≡◌, refl, ap, arith, length, map, ◌==◌,
  if◌then◌else◌,
}
use pkgsite.Lru.{Entry, Cache, find, delete}
use pkgsite.Lru.Valid.{Unique, IsValid}

abbrev pub but_last {ℓ} : {A : Type ℓ} → List A → List A
but_last [] = []
but_last (x ∷ []) = []
but_last (x ∷ y ∷ xs) = x ∷ but_last (y ∷ xs)

module _ {ℓ} {K V : Type ℓ} (dec : Discrete K) where
  abbrev pub lookup : K → List (K × V) → Option V
  lookup k [] = none
  lookup k (x ∷ xs) = ite (dec x.0 k) (some x.1) (lookup k xs)

  abbrev pub without : K → List (K × V) → List (K × V)
  without k [] = []
  without k (x ∷ xs) = ite (dec x.0 k) xs (x ∷ without k xs)

  -- A key that is read moves to the front.
  abbrev pub touch : K → List (K × V) → List (K × V)
  touch k xs = elim (lookup k xs) [ none ↦ xs | some v ↦ (k, v) ∷ without k xs ]

  -- A key that is stored moves to the front; a new one in a full list takes the last one's place.
  abbrev pub record_use : ℕ → K → V → List (K × V) → List (K × V)
  record_use capacity k v xs = elim (lookup k xs) [
    | some w ↦ (k, v) ∷ without k xs
    | none ↦ (k, v) ∷ (if length xs == capacity then but_last xs else xs)
  ]

  abbrev pub item : Entry K V → K × V
  item e = (e.key, e.value)

  -- The entries in the order of their use, the last one first.
  abbrev pub Descending : List (Entry K V) → Type 0
  Descending [] = Unit
  Descending (e ∷ []) = Unit
  Descending (e ∷ f ∷ es) = (f.last_used < e.last_used) × Descending (f ∷ es)

  -- The cache holds these items, in this order.
  pub record Holds (c : Cache K V) (xs : List (K × V)) : Type ℓ where
    pub valid : IsValid dec c
    pub order : List (Entry K V)
    pub descending : Descending order
    pub unique : Unique dec order
    pub same : (q : K) → find dec q c.entries ≡ find dec q order
    pub count : length c.entries ≡ length order
    pub items : map item order ≡ xs

  pub lookup-find :
      (k : K) (es : List (Entry K V))
      → lookup k (map item es) ≡ (elim (find dec k es) [ none ↦ none | some e ↦ some e.value ])
  unfolding find
  lookup-find k [] = refl
  lookup-find k (e ∷ es) = ground (arith, lookup-find k es)

  pub without-delete :
      (k : K) (es : List (Entry K V)) → map item (delete dec k es) ≡ without k (map item es)
  unfolding delete
  without-delete k [] = refl
  without-delete k (e ∷ es) = ground (arith, without-delete k es)

  pub length-map-item : (es : List (Entry K V)) → length (map item es) ≡ length es
  length-map-item [] = refl
  length-map-item (e ∷ es) = omega (arith, length-map-item es)

  pub map-but_last : (es : List (Entry K V)) → map item (but_last es) ≡ but_last (map item es)
  map-but_last [] = refl
  map-but_last (e ∷ []) = refl
  map-but_last (e ∷ f ∷ es) = ap (λ xs. item e ∷ xs) (map-but_last (f ∷ es))

  abbrev pub BelowTick : ℕ → List (Entry K V) → Type 0
  BelowTick t [] = Unit
  BelowTick t (e ∷ es) = (e.last_used < t) × BelowTick t es

  BelowTick-mono : (s t : ℕ) (es : List (Entry K V)) → s ≤ t → BelowTick s es → BelowTick t es
  BelowTick-mono s t [] h b = tt
  BelowTick-mono s t (e ∷ es) h (x, b) = (omega arith, BelowTick-mono s t es h b)

  pub Descending-below :
      (e : Entry K V) (es : List (Entry K V)) → Descending (e ∷ es) → BelowTick e.last_used es
  Descending-below e [] d = tt
  Descending-below e (f ∷ es) (l, d) =
      (l, BelowTick-mono f.last_used e.last_used es (omega arith) (Descending-below f es d))

  pub Descending-cons :
      (e : Entry K V) (es : List (Entry K V))
      → BelowTick e.last_used es
      → Descending es
      → Descending (e ∷ es)
  Descending-cons e [] b d = tt
  Descending-cons e (f ∷ es) b d = (b.0, d)

  pub delete-BelowTick :
      (t : ℕ) (k : K) (es : List (Entry K V)) → BelowTick t es → BelowTick t (delete dec k es)
  unfolding delete
  delete-BelowTick t k [] b = tt
  delete-BelowTick t k (e ∷ es) (x, b) = ground (arith, delete-BelowTick t k es b)

  Descending-tail : (e : Entry K V) (es : List (Entry K V)) → Descending (e ∷ es) → Descending es
  Descending-tail e [] d = tt
  Descending-tail e (f ∷ es) d = d.1

  pub delete-Descending :
      (k : K) (es : List (Entry K V)) → Descending es → Descending (delete dec k es)
  unfolding delete
  delete-Descending k [] d = tt
  delete-Descending k (e ∷ es) d = ground (
    arith,
    Descending-tail e es d,
    Descending-cons e (delete dec k es)
        (delete-BelowTick e.last_used k es (Descending-below e es d))
        (delete-Descending k es (Descending-tail e es d)),
  )
