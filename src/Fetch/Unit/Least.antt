-- ===== src/Fetch/Unit/Least.antt =====
-- The walks up from the packages' paths end, and give the smallest set of paths with the module's
-- path and the packages' that holds the directories above, up to the module.
use mathlib.Core.Path.{subst}
use pkgsite.Prelude.{
  ℕ, zero, suc, true, false, ◌≡◌, ◌≢◌, ◌↔◌, ◌<◌, refl, sym, ◌⊎◌, inl, inr, List, [], ◌∷◌, Text,
  some, arith, In, codes, length, text_eq, text_eq_iff, text_eq_refl, has_prefix, Bool-cases,
}
use pkgsite.Fetch.Load.{PackageMeta}
use pkgsite.Fetch.Unit.Closed.{Has, IsNodup, Goes, add_packages-AddedAll}
use pkgsite.Fetch.Unit.{should_continue, add_path, add_ancestors, add_packages, unit_paths}
use pkgsite.Paths.Candidates.{is_end}
use pkgsite.Paths.Candidates.Dir.{dir}
use pkgsite.Paths.Candidates.Rootless.{Rootless, dir-Rootless}
use pkgsite.Paths.Candidates.Terminates.{dir_shorter}
use pkgsite.Stdlib
use pkgsite.Stdlib.{mem_text}

slash-rooted : Rootless (codes "/") → ⊥
unfolding has_prefix
slash-rooted h = cc

std-dir : dir (codes "std") ≡ codes "."
unfolding dir
std-dir = refl

std-stops : should_continue Stdlib.module_path (dir Stdlib.module_path) ≡ true → ⊥
unfolding should_continue text_eq
std-stops h = absurd (ground (arith, std-dir, h))

module _ (module_path : Text) where
  -- The walk up from a path ends: in the standard library the path has no leading slash, any other
  -- module has a path.
  abbrev pub Ends : Text → Type 0
  Ends p =
      ((text_eq module_path Stdlib.module_path ≡ true) × Rootless p)
      ⊎ ((text_eq module_path Stdlib.module_path ≡ false) × (0 < length module_path))

  dir-Ends : (p : Text) → Ends p → Ends (dir p)
  dir-Ends p (inl (e, r)) = inl (e, dir-Rootless p r)
  dir-Ends p (inr h) = inr h

  is_end-cases : (q : Text) → is_end q ≡ true → (q ≡ codes ".") ⊎ (q ≡ codes "/")
  is_end-cases q h = ground (arith, text_eq_iff q (codes "."), text_eq_iff q (codes "/"))

  end-stops : (q : Text) → Ends q → is_end q ≡ true → should_continue module_path q ≡ false
  unfolding should_continue has_prefix text_eq
  end-stops q (inl (e, r)) h = elim (is_end-cases q h) [
    | inl d ↦ rw (d, should_continue) (rw (e, should_continue) refl)
    | inr s ↦ absurd (slash-rooted (subst Rootless s r))
  ]
  end-stops q (inr (e, n)) h = elim (is_end-cases q h) [
    | inl d ↦ rw d (ground arith)
    | inr s ↦ rw s (ground arith)
  ]

  add_ancestors-stop :
      (fuel : ℕ) (q : Text) (paths : List Text)
      → should_continue module_path q ≡ false
      → add_ancestors fuel module_path q paths ≡ some paths
  unfolding add_ancestors
  add_ancestors-stop zero q paths h = rw (h, add_ancestors) refl
  add_ancestors-stop (suc fuel) q paths h = rw (h, add_ancestors) refl

  add_ancestors_total :
      (fuel : ℕ) (p : Text) (paths : List Text)
      → length p < fuel
      → Ends p
      → (more : List Text) × (add_ancestors fuel module_path p paths ≡ some more)
  unfolding add_ancestors
  add_ancestors_total zero p paths l e = absurd (omega arith)
  add_ancestors_total (suc fuel) p paths l e = elim (Bool-cases (should_continue module_path p)) [
    | inr n ↦ (paths, rw (n, add_ancestors) refl)
    | inl y ↦ elim (dir_shorter p) [
      | inl d ↦ (
        add_path p paths,
        rw (y, add_ancestors)
            (add_ancestors-stop fuel (dir p) (add_path p paths)
              (end-stops (dir p) (dir-Ends p e) d)),
      )
      | inr s ↦
          let (more, h) =
            add_ancestors_total fuel (dir p) (add_path p paths) (omega arith) (dir-Ends p e) in
          (more, rw (y, add_ancestors) h)
    ]
  ]

  add_packages_total :
      (pkgs : List PackageMeta) (paths : List Text)
      → ((m : PackageMeta) → In m pkgs → Ends m.path)
      → (more : List Text) × (add_packages module_path pkgs paths ≡ some more)
  unfolding add_packages
  add_packages_total [] paths e = (paths, refl)
  add_packages_total (m ∷ pkgs) paths e =
      let (middle, h) =
        add_ancestors_total (suc (length m.path)) m.path paths (omega arith) (e m (inl refl)) in
      let (more, k) = add_packages_total pkgs middle (λ n i. e n (inr i)) in
      (more, rw (h, add_packages) k)

  -- A path below the module: in the standard library any but ".", else one longer than the module's.
  abbrev pub Below : Text → Type 0
  Below p =
      ((module_path ≡ codes "std") × (p ≢ codes "."))
      ⊎ ((module_path ≢ codes "std") × (length module_path < length p))

  Goes-Below : (p : Text) → Goes module_path p ↔ Below p
  unfolding should_continue
  Goes-Below p = ground (arith, text_eq_iff module_path (codes "std"), text_eq_iff p (codes "."))

  -- What the paths of the units are: each stands once, the module's and the packages' are there, and
  -- so is the directory above one of them that is below the module, if that is below it too; any property that these have in common
  -- all have.
  pub record IsUnitPaths (pkgs : List PackageMeta) (paths : List Text) : Type 1 where
    pub nodup : IsNodup paths
    pub root : Has paths module_path
    pub packages : (m : PackageMeta) → In m pkgs → Below m.path → Has paths m.path
    pub closed : (q : Text) → Has paths q → Below q → Below (dir q) → Has paths (dir q)
    pub least :
        (P : Text → Type 0)
        → P module_path
        → ((m : PackageMeta) → In m pkgs → Below m.path → P m.path)
        → ((q : Text) → P q → Below q → Below (dir q) → P (dir q))
        → (q : Text) → Has paths q
        → P q

  -- Above the module's own path the walk does not go on.
  root-stops : Goes module_path module_path → Goes module_path (dir module_path) → ⊥
  unfolding should_continue
  root-stops g d = elim (Bool-cases (text_eq module_path Stdlib.module_path)) [
    | inl y ↦ std-stops (
        subst (λ m. should_continue m (dir m) ≡ true)
          ((text_eq_iff module_path Stdlib.module_path).0 y) d)
    | inr n ↦ absurd (ground (arith, n, g))
  ]

  only_root : (q : Text) → Has (module_path ∷ []) q → module_path ≡ q
  unfolding mem_text
  only_root q h = ground (arith, text_eq_iff module_path q)

  -- `unitPaths` ends, and its paths are the smallest set with the module's path and with the packages'
  -- below the module that holds, with a directory below the module, the one above it if that is still
  -- below; each path stands there once. Below the module is any path but "." in the standard library,
  -- else any that is longer than the module's. For the
  -- standard library the packages' paths are to have no leading slash, else the module is to have a
  -- path.
  pub unit_paths-IsUnitPaths :
      (pkgs : List PackageMeta)
      → ((m : PackageMeta) → In m pkgs → Ends m.path)
      → (paths : List Text) × (unit_paths module_path pkgs ≡ some paths) × IsUnitPaths pkgs paths
  unfolding unit_paths mem_text
  unit_paths-IsUnitPaths pkgs e =
      let (paths, h) = add_packages_total pkgs (module_path ∷ []) e in
      let v = add_packages-AddedAll module_path pkgs (module_path ∷ []) paths h in
      (
        paths,
        h,
        record {
          nodup = v.nodup (refl, tt);
          root = v.keeps module_path (ground (arith, text_eq_refl module_path));
          packages = λ m i b. v.has m i ((Goes-Below m.path).1 b);
          closed = λ q m b c.
              closes paths q (v.closed q m) ((Goes-Below q).1 b) ((Goes-Below (dir q)).1 c);
          least = λ P r f c.
              v.least P (λ q x g d. c q x ((Goes-Below q).0 g) ((Goes-Below (dir q)).0 d))
                (λ m i g. f m i ((Goes-Below m.path).0 g)) (λ q m. subst P (only_root q m) r);
        },
      )
    where
      closed_root : (q : Text) → module_path ≡ q → Goes module_path q → Goes module_path (dir q) → ⊥
      closed_root q e g d =
          root-stops (subst (Goes module_path) (sym e) g)
            (subst (λ r. Goes module_path (dir r)) (sym e) d)

      closes :
          (paths : List Text) (q : Text)
          → Has (module_path ∷ []) q
            ⊎ (Goes module_path q → Goes module_path (dir q) → Has paths (dir q))
          → Goes module_path q
          → Goes module_path (dir q)
          → Has paths (dir q)
      closes paths q (inl o) g d = absurd (closed_root q (only_root q o) g d)
      closes paths q (inr c) g d = c g d
