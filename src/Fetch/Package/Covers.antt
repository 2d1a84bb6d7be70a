-- ===== src/Fetch/Package/Covers.antt =====
-- Both passes of `extractPackageMetas`: every Go file that is looked at has its package in the
-- result, or a state that tells why not.
use mathlib.Core.Path.{subst}
use pkgsite.Prelude.{
  Bool, true, ◌≡◌, ◌<◌, refl, ◌⊎◌, inl, inr, List, [], ◌∷◌, ◌++◌, Text, Option, none, some, In,
  length, lt→ltb, Bool-cases,
}
use pkgsite.Derrors.{Error, package_build_context_not_supported, bad_module}
use pkgsite.Fetch.Files.{WalkEntry, FileError, not_exist, failed, ContentDir, join_path}
use pkgsite.Fetch.Load.{
  PackageMeta, Loaded, loaded, load_failed, LoadError, bad_package, serious, import_path_of,
}
use pkgsite.Fetch.Package.{
  PackageVersionState, Walk, empty_walk, walk_dir, add_loaded, load_dir, load_dirs, load_walk,
  import_paths, Extracted, extracted, no_packages, not_extracted, extract_package_metas,
  extract_or_fail,
}
use pkgsite.Fetch.Package.States.{FailedAt, FailedAt-append}
use pkgsite.Fetch.Package.Walked.{
  Dirs, HasDir, HasFiles, IsSound, Covered, Considered, state_at-FailedAt, walk_dir-Covers,
  incomplete-FailedAt, empty_walk-IsSound,
}
use pkgsite.Paths.Candidates.Dir.{dir}
use pkgsite.Stdlib.{mem_text}
use pkgsite.Worker.Fetch.Env.{Answer, ok, err}

abbrev pub PackageAt : List PackageMeta → Text → Type 0
PackageAt [] p = ⊥
PackageAt (m ∷ ms) p = (m.path ≡ p) ⊎ PackageAt ms p

PackageAt-append :
    (xs ys : List PackageMeta) (p : Text) → PackageAt xs p ⊎ PackageAt ys p → PackageAt (xs ++ ys) p
PackageAt-append [] ys p (inl h) = absurd h
PackageAt-append [] ys p (inr h) = h
PackageAt-append (x ∷ xs) ys p (inl (inl h)) = inl h
PackageAt-append (x ∷ xs) ys p (inl (inr h)) = inr (PackageAt-append xs ys p (inl h))
PackageAt-append (x ∷ xs) ys p (inr h) = inr (PackageAt-append xs ys p (inr h))

-- A directory that is a key has files.
files_of :
    (d : Text) (dirs : Dirs)
    → HasFiles dirs
    → HasDir d dirs
    → (ps : List Text) × In (d, ps) dirs × (0 < length ps)
files_of d [] v h = absurd h
files_of d ((e, ps) ∷ dirs) v (inl q) = (ps, inl (rw q refl), v.0)
files_of d ((e, ps) ∷ dirs) v (inr h) = let (qs, m, n) = files_of d dirs v.1 h in (qs, inr m, n)

-- The goroutines write in some order, and each of them writes.
abbrev pub RunsAll : (Dirs → Dirs) → Type 0
RunsAll reorder = (ds : Dirs) (d : Text × List Text) → In d ds → In d (reorder ds)

module _ (check_import_path : Text → Bool) (module_path version : Text)
    (load_meta : List Text → Text → Loaded (Option PackageMeta)) where
  -- A package that is loaded has the path of its directory.
  abbrev pub LoadsAt : Type 0
  LoadsAt =
      (ps : List Text) (d : Text) (m : PackageMeta)
      → load_meta ps d ≡ loaded (some m)
      → m.path ≡ import_path_of module_path d

  -- The directory's package is there, or a state that tells of its failure.
  abbrev pub Found : List PackageMeta → List PackageVersionState → Text → Type 0
  Found pkgs states d =
      PackageAt pkgs (import_path_of module_path d) ⊎ FailedAt states (join_path module_path d)

  AnswersFor : List Text → Text → Answer (List PackageMeta × List PackageVersionState) → Type 0
  AnswersFor incomplete d (err e) = Unit
  AnswersFor incomplete d (ok (pkgs, states)) = (mem_text d incomplete ≡ true) ⊎ Found pkgs states d

  add_loaded-Found :
      (incomplete : List Text) (d : Text) (ps : List Text) (x : Loaded (Option PackageMeta))
      → 0 < length ps
      → ((m : PackageMeta) → x ≡ loaded (some m) → m.path ≡ import_path_of module_path d)
      → AnswersFor incomplete d (add_loaded check_import_path module_path version d ps x)
  unfolding AnswersFor add_loaded
  add_loaded-Found incomplete d ps (load_failed bad_package) n at = rw (lt→ltb 0 (length ps) n) (
      inr (
        inr (
          state_at-FailedAt check_import_path module_path version (join_path module_path d)
            package_build_context_not_supported [])))
  add_loaded-Found incomplete d ps (load_failed LoadError.not_found) n at = tt
  add_loaded-Found incomplete d ps (load_failed (serious e)) n at = tt
  add_loaded-Found incomplete d ps (loaded none) n at = rw (lt→ltb 0 (length ps) n) (
      inr (
        inr (
          state_at-FailedAt check_import_path module_path version (join_path module_path d)
            package_build_context_not_supported [])))
  add_loaded-Found incomplete d ps (loaded (some m)) n at = inr (inl (inl (at m refl)))

  load_dir-Found :
      LoadsAt
      → (incomplete : List Text) (d : Text) (ps : List Text) → 0 < length ps
      → AnswersFor incomplete d
          (load_dir check_import_path module_path version load_meta incomplete (d, ps))
  unfolding load_dir
  load_dir-Found at incomplete d ps n = elim (Bool-cases (mem_text d incomplete)) [
    | inl y ↦ rw (y, load_dir) (unfold AnswersFor in inl y)
    | inr m ↦ rw (m, load_dir) (add_loaded-Found incomplete d ps (load_meta ps d) n (at ps d))
  ]

  Found-append :
      (pkgs more : List PackageMeta) (states later : List PackageVersionState) (d : Text)
      → Found pkgs states d ⊎ Found more later d
      → Found (pkgs ++ more) (states ++ later) d
  Found-append pkgs more states later d (inl (inl h)) = inl (PackageAt-append pkgs more _ (inl h))
  Found-append pkgs more states later d (inl (inr h)) = inr (FailedAt-append states later _ (inl h))
  Found-append pkgs more states later d (inr (inl h)) = inl (PackageAt-append pkgs more _ (inr h))
  Found-append pkgs more states later d (inr (inr h)) = inr (FailedAt-append states later _ (inr h))

  AnswersFor-both :
      (incomplete : List Text) (d : Text)
      (x y : Answer (List PackageMeta × List PackageVersionState))
      → AnswersFor incomplete d x ⊎ AnswersFor incomplete d y
      → AnswersFor incomplete d (elim x [
        | err e ↦ err e
        | ok (pkgs, states) ↦ elim y [
          | err e ↦ err e
          | ok (more, later) ↦ ok (pkgs ++ more, states ++ later)
        ]
      ])
  unfolding AnswersFor
  AnswersFor-both incomplete d (err e) y h = tt
  AnswersFor-both incomplete d (ok x) (err e) h = tt
  AnswersFor-both incomplete d (ok (p, s)) (ok (q, t)) (inl (inl h)) = inl h
  AnswersFor-both incomplete d (ok (p, s)) (ok (q, t)) (inl (inr h)) =
      inr (Found-append p q s t d (inl h))
  AnswersFor-both incomplete d (ok (p, s)) (ok (q, t)) (inr (inl h)) = inl h
  AnswersFor-both incomplete d (ok (p, s)) (ok (q, t)) (inr (inr h)) =
      inr (Found-append p q s t d (inr h))

  load_dirs-Found :
      LoadsAt
      → (incomplete : List Text) (order : Dirs) (d : Text) (ps : List Text) → 0 < length ps
      → In (d, ps) order
      → AnswersFor incomplete d
          (load_dirs check_import_path module_path version load_meta incomplete order)
  unfolding load_dirs
  load_dirs-Found at incomplete [] d ps n m = absurd m
  load_dirs-Found at incomplete (o ∷ order) d ps n (inl q) =
      AnswersFor-both incomplete d
        (load_dir check_import_path module_path version load_meta incomplete o)
        (load_dirs check_import_path module_path version load_meta incomplete order)
        (inl (rw (← q) (load_dir-Found at incomplete d ps n)))
  load_dirs-Found at incomplete (o ∷ order) d ps n (inr m) =
      AnswersFor-both incomplete d
        (load_dir check_import_path module_path version load_meta incomplete o)
        (load_dirs check_import_path module_path version load_meta incomplete order)
        (inr (load_dirs-Found at incomplete order d ps n m))

  pub load_walk_inv :
      (w : Walk) (x : Answer (List PackageMeta × List PackageVersionState))
      (pkgs : List PackageMeta) (paths : List Text) (states : List PackageVersionState)
      → elim x [
        | err e ↦ not_extracted (Error.wrap e)
        | ok ([], later) ↦ no_packages
        | ok (p ∷ more, later) ↦
            extracted
              (p ∷ more)
              (import_paths check_import_path module_path version load_meta w.dirs)
              (w.states ++ later)
      ]
        ≡ extracted pkgs paths states
      → (later : List PackageVersionState) × (x ≡ ok (pkgs, later)) × (states ≡ w.states ++ later)
  load_walk_inv w (err e) pkgs paths states h = cc
  load_walk_inv w (ok ([], later)) pkgs paths states h = cc
  load_walk_inv w (ok (p ∷ more, later)) pkgs paths states h = (later, cc, cc)

  pub metas_inv :
      (reorder : Dirs → Dirs) (x : FileError ⊎ Walk) (pkgs : List PackageMeta) (paths : List Text)
      (states : List PackageVersionState)
      → elim x [
        | inl not_exist ↦ no_packages
        | inl (failed e) ↦ not_extracted (Error.wrap e)
        | inr w ↦ load_walk check_import_path module_path version load_meta w (reorder w.dirs)
      ]
        ≡ extracted pkgs paths states
      → (w : Walk) × (x ≡ inr w)
        × (load_walk check_import_path module_path version load_meta w (reorder w.dirs)
            ≡ extracted pkgs paths states)
  metas_inv reorder (inl not_exist) pkgs paths states h = cc
  metas_inv reorder (inl (failed e)) pkgs paths states h = cc
  metas_inv reorder (inr w) pkgs paths states h = (w, refl, h)

  pub fail_inv :
      (x : Extracted) (pkgs : List PackageMeta) (states : List PackageVersionState)
      → ◌≡◌ {A = Answer (List PackageMeta × List PackageVersionState)}
          (elim x [
            | no_packages ↦ err (Error.wrap (Error.wrap (Error.root bad_module)))
            | not_extracted e ↦ err (Error.wrap e)
            | extracted pkgs paths states ↦ ok (pkgs, states)
          ])
          (ok (pkgs, states))
      → (paths : List Text) × (x ≡ extracted pkgs paths states)
  fail_inv no_packages pkgs states h = cc
  fail_inv (not_extracted e) pkgs states h = cc
  fail_inv (extracted p paths s) pkgs states h = (paths, cc)

  covered-Found :
      LoadsAt
      → (w : Walk) (order : Dirs) → ((d : Text × List Text) → In d w.dirs → In d order)
      → IsSound check_import_path module_path version w
      → (pkgs : List PackageMeta) (later : List PackageVersionState)
      → load_dirs check_import_path module_path version load_meta w.incomplete order
        ≡ ok (pkgs, later)
      → (d : Text) → Covered check_import_path module_path version w d
      → Found pkgs (w.states ++ later) d
  unfolding AnswersFor
  covered-Found at w order all v pkgs later q d (inl m) = inr (
      FailedAt-append w.states later _
        (inl (incomplete-FailedAt check_import_path module_path version w d v m)))
  covered-Found at w order all v pkgs later q d (inr k) =
      let (ps, m, n) = files_of d w.dirs v.files k in
      let found : AnswersFor w.incomplete d (ok (pkgs, later)) =
        subst (AnswersFor w.incomplete d) q
          (load_dirs-Found at w.incomplete order d ps n (all (d, ps) m)) in
      elim found [
        | inl y ↦ inr (
            FailedAt-append w.states later _
              (inl (incomplete-FailedAt check_import_path module_path version w d v y)))
        | inr f ↦ Found-append [] pkgs w.states later d (inr f)
      ]

  -- Each Go file that is looked at has its directory's package in the result, or a state of it with
  -- a failure.
  pub extract_or_fail-Found :
      LoadsAt
      → (reorder : Dirs → Dirs) (cd : ContentDir) → RunsAll reorder
      → {pkgs : List PackageMeta} {states : List PackageVersionState}
      → extract_or_fail check_import_path module_path version load_meta reorder cd
        ≡ ok (pkgs, states)
      → (e : WalkEntry) → In e cd.walk
      → Considered check_import_path module_path version e
      → Found pkgs states (dir e.path)
  unfolding extract_or_fail extract_package_metas load_walk
  extract_or_fail-Found at reorder cd all {pkgs} {states} h e m n =
      let (paths, q) =
        fail_inv (extract_package_metas check_import_path module_path version load_meta reorder cd)
          pkgs states h in
      let (w, walked, r) =
        metas_inv reorder (walk_dir check_import_path module_path version empty_walk cd.walk) pkgs
          paths states q in
      let (later, loads, s) =
        load_walk_inv w
          (load_dirs check_import_path module_path version load_meta w.incomplete (reorder w.dirs))
          pkgs paths states r in
      let (v, keeps, covers) =
        walk_dir-Covers check_import_path module_path version empty_walk cd.walk w
          (empty_walk-IsSound check_import_path module_path version) walked in
      rw s (
        covered-Found at w (reorder w.dirs) (all w.dirs) v pkgs later loads (dir e.path)
          (covers e m n))
