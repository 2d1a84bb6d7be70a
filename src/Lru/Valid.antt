-- ===== src/Lru/Valid.antt =====
-- The cache's invariant, which every method keeps, and the choice of the entry to evict.
use mathlib.Core.Logic.{ite, if_pos}
use pkgsite.Prelude.{
  ℕ, suc, ◌+◌, ◌≤◌, ◌<◌, List, [], ◌∷◌, none, some, ◌≡◌, ◌≢◌, ◌⊎◌, inl, inr, refl, sym, arith,
  length, leb, if◌then◌else◌, Bool, true, false,
}
use pkgsite.Lru.{Entry, Cache, find, store, delete, oldest_from}

module _ {ℓ} {K V : Type ℓ} (dec : Discrete K) where
  -- One entry for a key.
  abbrev pub Unique : List (Entry K V) → Type ℓ
  Unique [] = Unit
  Unique (e ∷ es) = (find dec e.key es ≡ none) × Unique es

  abbrev pub UsedBy : ℕ → List (Entry K V) → Type 0
  UsedBy t [] = Unit
  UsedBy t (e ∷ es) = (e.last_used ≤ t) × UsedBy t es

  pub record IsValid (c : Cache K V) : Type ℓ where
    pub positive : 0 < c.size
    pub bounded : length c.entries ≤ c.size
    pub unique : Unique c.entries
    pub used : UsedBy c.tick c.entries

  pub UsedBy-mono : (s t : ℕ) (es : List (Entry K V)) → s ≤ t → UsedBy s es → UsedBy t es
  UsedBy-mono s t [] h u = tt
  UsedBy-mono s t (e ∷ es) h (u, us) = (omega arith, UsedBy-mono s t es h us)

  pub find-store :
      (e : Entry K V) (q : K) (es : List (Entry K V))
      → find dec q (store dec e es) ≡ ite (dec e.key q) (some e) (find dec q es)
  unfolding find store
  find-store e q [] = refl
  find-store e q (f ∷ fs) = ground (arith, find-store e q fs)

  pub store-Unique : (e : Entry K V) (es : List (Entry K V)) → Unique es → Unique (store dec e es)
  unfolding store find
  store-Unique e [] u = (refl, tt)
  store-Unique e (f ∷ fs) (u, us) = ground (arith, store-Unique e fs us, find-store e f.key fs)

  pub store-UsedBy :
      (t : ℕ) (e : Entry K V) (es : List (Entry K V))
      → e.last_used ≤ t
      → UsedBy t es
      → UsedBy t (store dec e es)
  unfolding store
  store-UsedBy t e [] h u = (h, tt)
  store-UsedBy t e (f ∷ fs) h (u, us) = ground (arith, store-UsedBy t e fs h us)

  pub length-store :
      (e : Entry K V) (es : List (Entry K V))
      → length (store dec e es)
        ≡ (elim (find dec e.key es) [ none ↦ suc (length es) | some f ↦ length es ])
  unfolding store find
  length-store e [] = refl
  length-store e (f ∷ fs) = ground (arith, length-store e fs)

  pub find-delete :
      (k q : K) (es : List (Entry K V))
      → Unique es
      → find dec q (delete dec k es) ≡ ite (dec k q) none (find dec q es)
  unfolding find delete
  find-delete k q [] u = ground arith
  find-delete k q (e ∷ es) (u, us) = ground (arith, find-delete k q es us)

  pub delete-Unique : (k : K) (es : List (Entry K V)) → Unique es → Unique (delete dec k es)
  unfolding delete
  delete-Unique k [] u = tt
  delete-Unique k (e ∷ es) (u, us) =
      ground (arith, delete-Unique k es us, find-delete k e.key es us)

  pub delete-UsedBy :
      (t : ℕ) (k : K) (es : List (Entry K V)) → UsedBy t es → UsedBy t (delete dec k es)
  unfolding delete
  delete-UsedBy t k [] u = tt
  delete-UsedBy t k (e ∷ es) (u, us) = ground (arith, delete-UsedBy t k es us)

  pub length-delete :
      (k : K) (es : List (Entry K V))
      → find dec k es ≢ none
      → length (delete dec k es) + 1 ≡ length es
  unfolding delete find
  length-delete k [] h = absurd (h refl)
  length-delete k (e ∷ es) h = ground (arith, length-delete k es)

  abbrev pub AllAbove : ℕ → List (Entry K V) → Type 0
  AllAbove t [] = Unit
  AllAbove t (e ∷ es) = (t < e.last_used) × AllAbove t es

  -- No entry was used before m.
  abbrev pub NoneBefore : ℕ → List (Entry K V) → Type 0
  NoneBefore m [] = Unit
  NoneBefore m (e ∷ es) = (m ≤ e.last_used) × NoneBefore m es

  NoneBefore-of_AllAbove :
      (m t : ℕ) (es : List (Entry K V)) → m ≤ t → AllAbove t es → NoneBefore m es
  NoneBefore-of_AllAbove m t [] h a = tt
  NoneBefore-of_AllAbove m t (e ∷ es) h (a, as') =
      (omega arith, NoneBefore-of_AllAbove m t es h as')

  -- The key r is k, and all entries were used after t, or it is the key of an oldest entry.
  abbrev pub Oldest : ℕ → K → List (Entry K V) → K → Type ℓ
  Oldest t k es r =
      ((r ≡ k) × AllAbove t es)
      ⊎ ((e : Entry K V) × (find dec r es ≡ some e)
          × (e.key ≡ r)
          × (e.last_used ≤ t)
          × NoneBefore e.last_used es)

  Oldest-older :
      (t : ℕ) (k r : K) (e : Entry K V) (es : List (Entry K V))
      → Unique (e ∷ es)
      → e.last_used ≤ t
      → Oldest e.last_used e.key es r
      → Oldest t k (e ∷ es) r
  unfolding find
  Oldest-older t k r e es (u, us) h (inl (same, above)) = inr (
    e,
    if_pos (dec e.key r) (sym same) _ _,
    sym same,
    h,
    (omega arith, NoneBefore-of_AllAbove e.last_used e.last_used es (omega arith) above),
  )
  Oldest-older t k r e es (u, us) h (inr (f, found, key, older, least)) =
      inr (f, ground arith, key, omega arith, (older, least))

  Oldest-younger :
      (t : ℕ) (k r : K) (e : Entry K V) (es : List (Entry K V))
      → Unique (e ∷ es)
      → t < e.last_used
      → Oldest t k es r
      → Oldest t k (e ∷ es) r
  unfolding find
  Oldest-younger t k r e es (u, us) h (inl (same, above)) = inl (same, (h, above))
  Oldest-younger t k r e es (u, us) h (inr (f, found, key, older, least)) =
      inr (f, ground arith, key, older, (omega arith, least))

  -- The loop for the oldest entry keeps its start, if all are younger, or finds the oldest.
  pub oldest_from-Oldest :
      (t : ℕ) (k : K) (es : List (Entry K V)) → Unique es → Oldest t k es (oldest_from dec t k es)
  unfolding oldest_from
  oldest_from-Oldest t k [] u = inl (refl, tt)
  oldest_from-Oldest t k (e ∷ es) u =
      go (λ t' k'. oldest_from-Oldest t' k' es u.1) (leb e.last_used t) refl
    where
      go :
          ((t' : ℕ) (k' : K) → Oldest t' k' es (oldest_from dec t' k' es))
          → (b : Bool) → leb e.last_used t ≡ b
          → Oldest t k
              (e ∷ es)
              (oldest_from dec (if b then e.last_used else t) (if b then e.key else k) es)
      go ih true h = Oldest-older t k _ e es u (ground arith) (ih e.last_used e.key)
      go ih false h = Oldest-younger t k _ e es u (ground arith) (ih t k)
