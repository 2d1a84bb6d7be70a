-- ===== src/Vuln/Client/Matches.antt =====
-- Which requests an entry affects: `isAffected` of internal/vuln/client.go.
use mathlib.Core.Path.{subst}
use pkgsite.Prelude.{
  Bool, true, not, ◌&&◌, ◌||◌, List, [], ◌∷◌, Text, text_eq, text_eq_iff, In, any, ◌≡◌, ◌↔◌, ◌⊎◌,
  inl, inr, refl, sym, ap, ◌∙◌, arith, Bool-cases, if◌then◌else◌,
}
use pkgsite.Osv.{Affected, Package, affects_semver}
use pkgsite.Semver.{Semver}
use pkgsite.Vuln.Schema.{PackageRequest}
use pkgsite.Vuln.Client.{affected_from, package_matches}

module _ (semver : Semver) where
  -- A module of an entry that a request asks about: its path is the request's, its ranges affect the
  -- version, and it names no packages or the request's, if that has one.
  abbrev pub IsAffectedBy : PackageRequest → Affected → Type 0
  IsAffectedBy req a =
      (a.mod_info.path ≡ req.mod_path)
      × (affects_semver semver a.ranges req.version ≡ true)
      × ((req.package_path ≡ [])
          ⊎ (a.packages ≡ [])
          ⊎ ((q : Package) × In q a.packages × (q.path ≡ req.package_path)))

  any_package :
      (path : Text) (ps : List Package)
      → (any (λ (q : Package). text_eq path q.path) ps ≡ true)
        ↔ ((q : Package) × In q ps × (q.path ≡ path))
  unfolding any
  any_package path [] = ((λ h. ground (arith, h)), λ h. absurd h.1)
  any_package path (p ∷ ps) = elim (Bool-cases (text_eq path p.path)) [
    | inl y ↦ ((λ h. (p, inl refl, sym ((text_eq_iff path p.path).0 y))), λ h. rw y refl)
    | inr n ↦ (
      (λ h. let (q, m, e) = (any_package path ps).0 (rw n at h) in (q, inr m, e)),
      λ (q, m, e). elim m [
        | inl here ↦
            let same : text_eq path p.path ≡ true =
              (text_eq_iff path p.path).1 (sym e ∙ ap (λ (x : Package). x.path) here) in
            ground (arith, same, n)
        | inr there ↦ rw n ((any_package path ps).1 (q, there, e))
      ],
    )
  ]

  package_matches_iff :
      (ps : List Package) (path : Text)
      → (package_matches ps path ≡ true)
        ↔ ((path ≡ []) ⊎ (ps ≡ []) ⊎ ((q : Package) × In q ps × (q.path ≡ path)))
  unfolding package_matches
  package_matches_iff ps [] = ((λ h. inl refl), λ h. refl)
  package_matches_iff [] (c ∷ s) = ((λ h. inr (inl refl)), λ h. refl)
  package_matches_iff (p ∷ ps) (c ∷ s) =
      let packages = any_package (c ∷ s) (p ∷ ps) in
      (
        (λ h. inr (inr (packages.0 h))),
        λ h. elim h [ inl e ↦ absurd cc | inr (inl e) ↦ absurd cc | inr (inr x) ↦ packages.1 x ],
      )

  tested :
      (req : PackageRequest) (a : Affected)
      → ((text_eq a.mod_info.path req.mod_path
            && affects_semver semver a.ranges req.version
            && package_matches a.packages req.package_path)
          ≡ true)
        ↔ IsAffectedBy req a
  tested req a =
      let path = text_eq_iff a.mod_info.path req.mod_path in
      let packages = package_matches_iff a.packages req.package_path in
      (
        (λ h. let (x, y, z) = ands _ _ _ h in (path.0 x, y, packages.0 z)),
        λ (x, y, z). both _ _ _ (path.1 x) y (packages.1 z),
      )
    where
      ands : (x y z : Bool) → x && y && z ≡ true → (x ≡ true) × (y ≡ true) × (z ≡ true)
      ands x y z h = ground arith

      both : (x y z : Bool) → x ≡ true → y ≡ true → z ≡ true → x && y && z ≡ true
      both x y z h i j = ground arith

  pub affected_from-In :
      (req : PackageRequest) (as' : List Affected)
      → (affected_from semver as' req ≡ true) ↔ ((a : Affected) × In a as' × IsAffectedBy req a)
  unfolding affected_from
  affected_from-In req [] = ((λ h. ground (arith, h)), λ h. absurd h.1)
  affected_from-In req (a ∷ as') =
      let rest = affected_from-In req as' in
      let this = tested req a in
      (
        (λ h.
            elim (either (text_eq a.mod_info.path req.mod_path)
              (affects_semver semver a.ranges req.version)
              (package_matches a.packages req.package_path) (affected_from semver as' req) h) [
                | inl here ↦ (a, inl refl, this.0 here)
                | inr there ↦ let (b, m, x) = rest.0 there in (b, inr m, x)
              ]),
        λ (b, m, x).
            from (text_eq a.mod_info.path req.mod_path) (affects_semver semver a.ranges req.version)
              (package_matches a.packages req.package_path) (affected_from semver as' req)
              (elim m [
                | inl here ↦ inl (this.1 (subst (IsAffectedBy req) here x))
                | inr there ↦ inr (rest.1 (b, there, x))
              ]),
      )
    where
      either :
          (x y z r : Bool)
          → (if not x || not y then r else if not z then r else true) ≡ true
          → (x && y && z ≡ true) ⊎ (r ≡ true)
      either x y z r h = ground arith

      from :
          (x y z r : Bool)
          → (x && y && z ≡ true) ⊎ (r ≡ true)
          → (if not x || not y then r else if not z then r else true) ≡ true
      from x y z r h = ground arith
