-- ===== src/Version/Latest.antt =====
-- `LatestVersion`: what it returns, and when it asks for a go.mod file.
use pkgsite.Prelude.{
  Bool, true, false, ◌||◌, List, [], ◌∷◌, Text, Option, some, ◌≡◌, ◌≢◌, ◌⊎◌, refl, arith, is_empty,
  sym, In, inl, inr, All, Bool-cases, ◌<◌, Ordering, ap, ◌∙◌,
}
use mathlib.Core.Bool.{false≢true}
use mathlib.Core.Path.{subst}
use pkgsite.Semver.{Semver, IsOrdered}
use pkgsite.Version.{is_pseudo, is_incompatible, latest_of, remove_if, compatible, latest_version}
use pkgsite.Version.Later.{class, later_lem, NotLater, latest_of-max, latest_of-mem}

pub remove_if-mem :
    (f : Text → Bool) (xs : List Text) (v : Text) → In v (remove_if f xs) → In v xs × (f v ≡ false)
unfolding remove_if
remove_if-mem f [] v m = absurd m
remove_if-mem f (x ∷ xs) v m = ground (arith, remove_if-mem f xs v)

or_false : (a b : Bool) → a || b ≡ false → (a ≡ false) × (b ≡ false)
or_false a b h = ground arith

is_incompatible-nil : is_incompatible [] ≡ false
unfolding is_incompatible
is_incompatible-nil = refl

module _ (semver : Semver) (versions : List Text) (has_go_mod : Text → Option Bool) where
  compat-mem :
      is_empty (latest_of semver (compatible semver versions)) ≡ false
      → In (latest_of semver (compatible semver versions)) (compatible semver versions)
  unfolding latest_of
  compat-mem h = latest_of-mem semver (compatible semver versions) (ne _ h)
    where
      ne : (l : List Text) → is_empty (latest_of semver l) ≡ false → l ≢ []
      ne [] e = absurd (false≢true (sym e))
      ne (x ∷ xs) e = cc

  compat_facts :
      is_empty (latest_of semver (compatible semver versions)) ≡ false
      → In (latest_of semver (compatible semver versions)) versions
        × (is_incompatible (latest_of semver (compatible semver versions)) ≡ false)
        × (is_pseudo (latest_of semver (compatible semver versions)) ≡ false)
  compat_facts h =
      let (m, e) =
        remove_if-mem (λ v. is_incompatible v || is_pseudo v) versions
          (latest_of semver (compatible semver versions)) (unfold compatible in compat-mem h) in
      let (a, b) = or_false _ _ e in (m, a, b)

  pub latest_version_branches :
      (v : Text)
      → versions ≢ []
      → latest_version semver versions has_go_mod ≡ some v
      → In v versions
        × ((v ≡ latest_of semver versions)
              × ((is_incompatible v ≡ false)
                  ⊎ (latest_of semver (compatible semver versions) ≡ [])
                  ⊎ (has_go_mod (latest_of semver (compatible semver versions)) ≡ some false))
            ⊎ ((is_incompatible (latest_of semver versions) ≡ true)
                × (v ≡ latest_of semver (compatible semver versions))
                × (is_incompatible v ≡ false)
                × (is_pseudo v ≡ false)
                × (has_go_mod v ≡ some true)
                × (v ≢ [])))
  unfolding latest_version
  latest_version_branches v h e =
      ground (arith, latest_of-mem semver versions h, compat_facts, is_incompatible-nil)

  -- A version that is neither incompatible nor a pseudo-version.
  abbrev pub IsCompatible : Text → Type 0
  IsCompatible v = (is_incompatible v ≡ false) × (is_pseudo v ≡ false)

  -- No later than another one: of a lower class (2 is a release, 1 a prerelease, 0 a pseudo-version), or
  -- of the same class and not greater.
  abbrev pub IsUpTo : Text → Text → Type 0
  IsUpTo w v =
      (class semver w < class semver v)
      ⊎ ((class semver w ≡ class semver v) × (semver.cmp w v ≢ Ordering.gt))

  -- The latest of the versions.
  abbrev pub IsLatest : Text → Type 0
  IsLatest v = In v versions × ((w : Text) → In w versions → IsUpTo w v)

  -- The latest of the compatible ones.
  abbrev pub IsLatestCompatible : Text → Type 0
  IsLatestCompatible v =
      In v versions × IsCompatible v × ((w : Text) → In w versions → IsCompatible w → IsUpTo w v)

  NotLater-IsUpTo : (w v : Text) → NotLater semver w v → IsUpTo w v
  NotLater-IsUpTo w v h = ground (arith, h, later_lem semver w v)

  All-In : (P : Text → Type 0) (xs : List Text) → All P xs → (w : Text) → In w xs → P w
  All-In P [] h w m = absurd m
  All-In P (x ∷ xs) h w (inl e) = subst P (sym e) h.0
  All-In P (x ∷ xs) h w (inr m) = All-In P xs h.1 w m

  kept :
      (f : Text → Bool) (xs : List Text) (w : Text) → In w xs → f w ≡ false → In w (remove_if f xs)
  unfolding remove_if
  kept f [] w m h = absurd m
  kept f (x ∷ xs) w (inl e) h = rw (subst (λ y. f y ≡ false) e h, remove_if) (inl e)
  kept f (x ∷ xs) w (inr m) h = elim (Bool-cases (f x)) [
    | inl y ↦ rw (y, remove_if) (kept f xs w m h)
    | inr n ↦ rw (n, remove_if) (inr (kept f xs w m h))
  ]

  compat_cases :
      (latest_of semver (compatible semver versions) ≡ []) ⊎ (compatible semver versions ≢ [])
  unfolding latest_of
  compat_cases = go (compatible semver versions) refl
    where
      go :
          (ws : List Text)
          → compatible semver versions ≡ ws
          → (latest_of semver (compatible semver versions) ≡ []) ⊎ (compatible semver versions ≢ [])
      go [] e = inl (ap (latest_of semver) e)
      go (x ∷ ws) e = inr (λ n. ground (n, e, arith))

  module _ (laws : IsOrdered semver) where
    latest_of-IsLatest : versions ≢ [] → IsLatest (latest_of semver versions)
    latest_of-IsLatest h = (
      latest_of-mem semver versions h,
      λ w m. NotLater-IsUpTo w _ (All-In _ versions (latest_of-max semver laws versions) w m),
    )

    compat-IsLatestCompatible :
        compatible semver versions ≢ []
        → IsLatestCompatible (latest_of semver (compatible semver versions))
    unfolding compatible
    compat-IsLatestCompatible h =
        let test : Text → Bool = λ v. is_incompatible v || is_pseudo v in
        let top = latest_of semver (compatible semver versions) in
        let (m, e) =
          remove_if-mem test versions top (latest_of-mem semver (compatible semver versions) h) in
        (
          m,
          or_false _ _ e,
          λ w n c. NotLater-IsUpTo w top (
              All-In _ (compatible semver versions)
                (latest_of-max semver laws (compatible semver versions)) w
                (kept test versions w n (ground (arith, c)))),
        )

    -- No version is compatible, or the latest such is the empty text.
    no_compat :
        latest_of semver (compatible semver versions) ≡ []
        → ((w : Text) → In w versions → IsCompatible w → ⊥) ⊎ IsLatestCompatible []
    unfolding compatible
    no_compat h = go (compatible semver versions) refl
      where
        go :
            (ws : List Text)
            → compatible semver versions ≡ ws
            → ((w : Text) → In w versions → IsCompatible w → ⊥) ⊎ IsLatestCompatible []
        go [] e = inl λ w m c.
            subst (In w) e
              (kept (λ v. is_incompatible v || is_pseudo v) versions w m (ground (arith, c)))
        go (x ∷ ws) e =
            inr (subst IsLatestCompatible h (compat-IsLatestCompatible (λ n. ground (n, e, arith))))

    -- A result of `LatestVersion` for some versions, when semver orders versions. It is the latest one,
    -- which is not incompatible, or there is no compatible version (or only the empty text), or the latest
    -- compatible one has no go.mod file. Or the latest one is incompatible, and the result is the latest
    -- of the versions that are neither incompatible nor pseudo-versions, and has a go.mod file.
    pub latest_version-cases :
        (v : Text)
        → versions ≢ []
        → latest_version semver versions has_go_mod ≡ some v
        → (IsLatest v
            × ((is_incompatible v ≡ false)
                ⊎ ((w : Text) → In w versions → IsCompatible w → ⊥)
                ⊎ IsLatestCompatible []
                ⊎ ((c : Text) × IsLatestCompatible c × (has_go_mod c ≡ some false))))
          ⊎ (((b : Text) × IsLatest b × (is_incompatible b ≡ true))
              × IsLatestCompatible v
              × (has_go_mod v ≡ some true))
    latest_version-cases v h e = elim (latest_version_branches v h e).1 [
      | inl (top, inl plain) ↦ inl (subst IsLatest (sym top) best, inl plain)
      | inl (top, inr (inl none_left)) ↦ inl (
        subst IsLatest (sym top) best,
        elim (no_compat none_left) [ inl f ↦ inr (inl f) | inr f ↦ inr (inr (inl f)) ],
      )
      | inl (top, inr (inr no_mod)) ↦ inl (
        subst IsLatest (sym top) best,
        elim compat_cases [
          | inl nothing ↦ elim (no_compat nothing) [
            | inl f ↦ inr (inl f)
            | inr f ↦ inr (inr (inl f))
          ]
          | inr something ↦ inr (
              inr (
                inr (
                  latest_of semver (compatible semver versions),
                  compat-IsLatestCompatible something,
                  no_mod,
                )))
        ],
      )
      | inr (incompatible, top, _, _, has_mod, full) ↦ inr (
        (latest_of semver versions, best, incompatible),
        elim compat_cases [
          | inl nothing ↦ absurd (full (top ∙ nothing))
          | inr something ↦ subst IsLatestCompatible (sym top) (compat-IsLatestCompatible something)
        ],
        has_mod,
      )
    ]
      where
        best : IsLatest (latest_of semver versions)
        best = latest_of-IsLatest h
