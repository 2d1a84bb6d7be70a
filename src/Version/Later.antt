-- ===== src/Version/Later.antt =====
-- `Later` and `LatestOf` against the order that their comments describe.
use pkgsite.Prelude.{
  ℕ, Bool, true, false, ◌&&◌, ◌||◌, List, [], ◌∷◌, Text, ◌≡◌, ◌≢◌, refl, arith, is_empty, ltb, ◌==◌,
  if◌then◌else◌, Bool-cases, inl, inr, In, All, Ordering,
}
use pkgsite.Semver.{Semver, IsOrdered, is_gt}
use pkgsite.Version.{is_pseudo, later, latest_from, latest_of}

module _ (semver : Semver) where
  -- 2 for a release, 1 for a prerelease, 0 for a pseudo-version.
  abbrev pub class : Text → ℕ
  class v = if is_empty (semver.prerelease v) then 2 else if is_pseudo v then 0 else 1

  -- First by class, then by semver.
  pub later_lem :
      (v w : Text)
      → later semver v w
        ≡ (ltb (class w) (class v) || ((class v == class w) && is_gt (semver.cmp v w)))
  unfolding later
  later_lem v w = ground arith

  -- w is at least as late as v.
  abbrev pub NotLater : Text → Text → Type 0
  NotLater v w = later semver v w ≡ false

  module _ (laws : IsOrdered semver) where
    not_gt : (v w : Text) → is_gt (semver.cmp v w) ≡ false → semver.cmp v w ≢ Ordering.gt
    not_gt v w h = ground arith

    is_gt_trans :
        (u v w : Text)
        → is_gt (semver.cmp u v) ≡ false
        → is_gt (semver.cmp v w) ≡ false
        → is_gt (semver.cmp u w) ≡ false
    is_gt_trans u v w h k =
        let r = laws.cmp_trans u v w (not_gt u v h) (not_gt v w k) in ground (arith, r)

    is_gt_asym : (v w : Text) → is_gt (semver.cmp v w) ≡ true → is_gt (semver.cmp w v) ≡ false
    is_gt_asym v w h = ground (arith, laws.cmp_swap v w)

    NotLater-trans : (u v w : Text) → NotLater u v → NotLater v w → NotLater u w
    NotLater-trans u v w h k =
        ground (arith, later_lem u v, later_lem v w, later_lem u w, is_gt_trans u v w)

    NotLater-asym : (v w : Text) → later semver v w ≡ true → NotLater w v
    NotLater-asym v w h = ground (arith, later_lem v w, later_lem w v, is_gt_asym v w)

    NotLater-refl : (v : Text) → NotLater v v
    NotLater-refl v = elim (Bool-cases (later semver v v)) [
      | inl h ↦ NotLater-asym v v h
      | inr h ↦ h
    ]

    -- The loop's result is at least as late as its start and as every version it has read.
    latest_from-max :
        (best : Text) (vs : List Text)
        → NotLater best (latest_from semver best vs)
          × All (λ v. NotLater v (latest_from semver best vs)) vs
    unfolding latest_from
    latest_from-max best [] = (NotLater-refl best, tt)
    latest_from-max best (v ∷ vs) =
        go (later semver v best) refl (latest_from-max (if later semver v best then v else best) vs)
      where
        go :
            (b : Bool)
            → later semver v best ≡ b
            → NotLater (if b then v else best) (latest_from semver (if b then v else best) vs)
              × All (λ w. NotLater w (latest_from semver (if b then v else best) vs)) vs
            → NotLater best (latest_from semver (if b then v else best) vs)
              × (NotLater v (latest_from semver (if b then v else best) vs)
                  × All (λ w. NotLater w (latest_from semver (if b then v else best) vs)) vs)
        go true h (top, rest) = (NotLater-trans best v _ (NotLater-asym v best h) top, (top, rest))
        go false h (top, rest) = (top, (NotLater-trans v best _ h top, rest))

    -- No version of the list is later than the one that `LatestOf` returns, if `semver.Compare`
    -- orders versions.
    pub latest_of-max : (vs : List Text) → All (λ v. NotLater v (latest_of semver vs)) vs
    unfolding latest_of
    latest_of-max [] = tt
    latest_of-max (v ∷ vs) = latest_from-max v vs

  latest_from-mem : (best : Text) (vs : List Text) → In (latest_from semver best vs) (best ∷ vs)
  unfolding latest_from
  latest_from-mem best [] = inl refl
  latest_from-mem best (v ∷ vs) =
      ground (arith, latest_from-mem (if later semver v best then v else best) vs)

  -- `LatestOf` returns a version of the list, if there is one.
  pub latest_of-mem : (vs : List Text) → vs ≢ [] → In (latest_of semver vs) vs
  unfolding latest_of
  latest_of-mem [] h = absurd (h refl)
  latest_of-mem (v ∷ vs) h = latest_from-mem v vs
