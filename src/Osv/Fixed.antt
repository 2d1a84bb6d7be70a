-- ===== src/Osv/Fixed.antt =====
-- `LatestFixedVersion`: the latest fix of a range, and how ranges hide one another.
use pkgsite.Prelude.{
  Bool, true, false, not, ◌&&◌, List, [], ◌∷◌, Text, ◌≡◌, ◌≢◌, ◌⊎◌, inl, inr, refl, arith, text_eq,
  is_empty, All, if◌then◌else◌, Bool-cases,
}
use pkgsite.Semver.{Semver, IsOrdered}
use pkgsite.Osv.{
  RangeEvent, Range, is_semver_range, zero_version, canonicalize_semver, less_semver, raise_fixed,
  reintroduced, latest_fixed_version, latest_fixed_from,
}

module _ (semver : Semver) where
  -- No fix of the event is later than f.
  abbrev pub FixedBy : Text → RangeEvent → Type 0
  FixedBy f e = (is_empty e.fixed ≡ true) ⊎ (less_semver semver f e.fixed ≡ false)

  -- Nor is its introduction, unless that is the beginning of time.
  abbrev pub ClosedBy : Text → RangeEvent → Type 0
  unfolding text_eq
  ClosedBy f e =
      (is_empty e.introduced ≡ true)
      ⊎ (text_eq e.introduced zero_version ≡ true)
      ⊎ (less_semver semver f e.introduced ≡ false)

  reintroduced-All :
      (es : List RangeEvent) (f : Text) → reintroduced semver es f ≡ false → All (ClosedBy f) es
  unfolding reintroduced text_eq
  reintroduced-All [] f h = tt
  reintroduced-All (e ∷ es) f h = (ground arith, reintroduced-All es f (ground arith))

  module _ (laws : IsOrdered semver) where
    not_less_trans :
        (u v w : Text)
        → less_semver semver v u ≡ false
        → less_semver semver w v ≡ false
        → less_semver semver w u ≡ false
    unfolding less_semver
    not_less_trans u v w h k =
        let a = canonicalize_semver u in
        let b = canonicalize_semver v in
        let c = canonicalize_semver w in
        let r =
          laws.cmp_trans a b c (ground (arith, laws.cmp_swap a b))
            (ground (arith, laws.cmp_swap b c)) in
        ground (arith, laws.cmp_swap a c, r)

    less_asym : (u v : Text) → less_semver semver u v ≡ true → less_semver semver v u ≡ false
    unfolding less_semver
    less_asym u v h = ground (arith, laws.cmp_swap (canonicalize_semver u) (canonicalize_semver v))

    less_irrefl : (v : Text) → less_semver semver v v ≡ false
    less_irrefl v = elim (Bool-cases (less_semver semver v v)) [
      | inl h ↦ less_asym v v h
      | inr h ↦ h
    ]

    raise_fixed-max :
        (es : List RangeEvent) (f : Text)
        → (less_semver semver (raise_fixed semver es f) f ≡ false)
          × All (FixedBy (raise_fixed semver es f)) es
    unfolding raise_fixed
    raise_fixed-max [] f = (less_irrefl f, tt)
    raise_fixed-max (e ∷ es) f =
        go (raise_fixed-max es) (not (is_empty e.fixed) && less_semver semver f e.fixed) refl
      where
        go :
            ((g : Text)
              → (less_semver semver (raise_fixed semver es g) g ≡ false)
                × All (FixedBy (raise_fixed semver es g)) es)
            → (b : Bool) → not (is_empty e.fixed) && less_semver semver f e.fixed ≡ b
            → (less_semver semver (raise_fixed semver es (if b then e.fixed else f)) f ≡ false)
              × All (FixedBy (raise_fixed semver es (if b then e.fixed else f))) (e ∷ es)
        go ih true h =
            let (top, rest) = ih e.fixed in
            (not_less_trans f e.fixed _ (less_asym f e.fixed (ground arith)) top, (inr top, rest))
        go ih false h =
            let (top, rest) = ih f in
            (top, (ground (arith, not_less_trans e.fixed f (raise_fixed semver es f)), rest))

    -- If `LatestFixedVersion` returns a fix for one range of semantic versions, it is at least as
    -- late as every fix of the range, and as every introduction but that at the beginning of
    -- time. `semver.Compare` is supposed to order versions.
    pub latest_fixed_version-max :
        (r : Range)
        → is_semver_range r ≡ true
        → latest_fixed_version semver (r ∷ []) ≢ []
        → All (FixedBy (latest_fixed_version semver (r ∷ []))) r.events
          × All (ClosedBy (latest_fixed_version semver (r ∷ []))) r.events
    unfolding latest_fixed_version latest_fixed_from text_eq
    latest_fixed_version-max r h ne =
        elim (Bool-cases (reintroduced semver r.events (raise_fixed semver r.events []))) [
          | inl t ↦ absurd (ne (rw (h, t)))
          | inr t ↦
              rw (h, t)
                (
                  (raise_fixed-max r.events []).1,
                  reintroduced-All r.events (raise_fixed semver r.events []) t,
                )
        ]
