-- ===== src/Fetch/Package/Rootless.antt =====
-- The packages that are found lie in directories of the walk, whose paths have no leading slash.
use mathlib.Core.Path.{ap, subst}
use pkgsite.Prelude.{
  Bool, ◌≡◌, refl, inl, inr, List, [], ◌∷◌, ◌++◌, Text, Option, none, some, arith, In, Bool-cases,
}
use pkgsite.Fetch.Files.{WalkEntry, ContentDir}
use pkgsite.Fetch.Load.{
  PackageMeta, Loaded, loaded, load_failed, LoadError, bad_package, serious, import_path_of,
}
use pkgsite.Fetch.Package.{
  PackageVersionState, Walk, empty_walk, add_go_file, walk_entry, walk_dir, add_loaded, load_dir,
  load_dirs, load_walk, extract_package_metas, extract_or_fail,
}
use pkgsite.Fetch.Package.Covers.{LoadsAt, load_walk_inv, metas_inv, fail_inv}
use pkgsite.Fetch.Package.Walked.{Dirs, walk_entry-Moves, walk_dir-cons, inr_eq}
use pkgsite.Paths.Candidates.Dir.{dir}
use pkgsite.Paths.Candidates.Rootless.{Rootless, dir-Rootless}
use pkgsite.Stdlib.{mem_text}
use pkgsite.Worker.Fetch.Env.{Answer, ok, err}

abbrev KeysRootless : Dirs → Type 0
KeysRootless [] = Unit
KeysRootless ((d, ps) ∷ dirs) = Rootless d × KeysRootless dirs

-- The orders of the goroutines have no other directories.
abbrev pub RunsOnly : (Dirs → Dirs) → Type 0
RunsOnly reorder = (ds : Dirs) (d : Text × List Text) → In d (reorder ds) → In d ds

add_go_file-KeysRootless :
    (d p : Text) (dirs : Dirs)
    → Rootless d
    → KeysRootless dirs
    → KeysRootless (add_go_file d p dirs)
unfolding add_go_file
add_go_file-KeysRootless d p [] r h = (r, tt)
add_go_file-KeysRootless d p ((e, ps) ∷ dirs) r h =
    ground (arith, add_go_file-KeysRootless d p dirs r)

KeysRootless-In :
    (dirs : Dirs) (d : Text) (ps : List Text) → KeysRootless dirs → In (d, ps) dirs → Rootless d
KeysRootless-In [] d ps h m = absurd m
KeysRootless-In ((e, qs) ∷ dirs) d ps h (inl q) = rw (ap (λ (x : Text × List Text). x.0) q) h.0
KeysRootless-In ((e, qs) ∷ dirs) d ps h (inr m) = KeysRootless-In dirs d ps h.1 m

module _ (check_import_path : Text → Bool) (module_path version : Text) where
  walk_entry-KeysRootless :
      (w : Walk) (e : WalkEntry) (w' : Walk)
      → Rootless e.path
      → KeysRootless w.dirs
      → walk_entry check_import_path module_path version w e ≡ inr w'
      → KeysRootless w'.dirs
  walk_entry-KeysRootless w e w' r v h =
      elim (walk_entry-Moves check_import_path module_path version w e h) [
        | inl (q, y) ↦ rw q v
        | inr (inl q) ↦ rw q v
        | inr (inr (inl q)) ↦ rw q v
        | inr (inr (inr q)) ↦
            rw q (add_go_file-KeysRootless (dir e.path) e.path w.dirs (dir-Rootless e.path r) v)
      ]

  walk_dir-KeysRootless :
      (w : Walk) (es : List WalkEntry) (w' : Walk)
      → ((e : WalkEntry) → In e es → Rootless e.path)
      → KeysRootless w.dirs
      → walk_dir check_import_path module_path version w es ≡ inr w'
      → KeysRootless w'.dirs
  unfolding walk_dir
  walk_dir-KeysRootless w [] w' r v h = rw (← (inr_eq h)) v
  walk_dir-KeysRootless w (e ∷ es) w' r v h =
      let (x, first, rest) = walk_dir-cons check_import_path module_path version w e es w' h in
      walk_dir-KeysRootless x es w' (λ d m. r d (inr m))
        (walk_entry-KeysRootless w e x (r e (inl refl)) v first) rest

  module _ (load_meta : List Text → Text → Loaded (Option PackageMeta))
      (at : LoadsAt check_import_path module_path version load_meta) where
    -- The packages have the import paths of directories with no leading slash.
    abbrev pub FromDirs : List PackageMeta → Type 0
    FromDirs [] = Unit
    FromDirs (m ∷ ms) =
        ((d : Text) × Rootless d
          × (m.path ≡ import_path_of module_path d)
          × ((ps : List Text) × (load_meta ps d ≡ loaded (some m))))
        × FromDirs ms

    FromDirs-append : (ms ns : List PackageMeta) → FromDirs ms → FromDirs ns → FromDirs (ms ++ ns)
    FromDirs-append [] ns h k = k
    FromDirs-append (m ∷ ms) ns h k = (h.0, FromDirs-append ms ns h.1 k)

    Answers : Answer (List PackageMeta × List PackageVersionState) → Type 0
    Answers (err e) = Unit
    Answers (ok (ms, ss)) = FromDirs ms

    add_loaded-Answers :
        (d : Text) (ps : List Text) (x : Loaded (Option PackageMeta))
        → Rootless d
        → ((m : PackageMeta)
            → x ≡ loaded (some m)
            → (m.path ≡ import_path_of module_path d)
              × ((qs : List Text) × (load_meta qs d ≡ loaded (some m))))
        → Answers (add_loaded check_import_path module_path version d ps x)
    unfolding Answers add_loaded
    add_loaded-Answers d ps (load_failed bad_package) r f = tt
    add_loaded-Answers d ps (load_failed LoadError.not_found) r f = tt
    add_loaded-Answers d ps (load_failed (serious e)) r f = tt
    add_loaded-Answers d ps (loaded none) r f = tt
    add_loaded-Answers d ps (loaded (some m)) r f = ((d, r, (f m refl).0, (f m refl).1), tt)

    load_dir-Answers :
        (incomplete : List Text) (d : Text) (ps : List Text)
        → Rootless d
        → Answers (load_dir check_import_path module_path version load_meta incomplete (d, ps))
    unfolding load_dir
    load_dir-Answers incomplete d ps r = elim (Bool-cases (mem_text d incomplete)) [
      | inl y ↦ rw (y, load_dir) (unfold Answers in tt)
      | inr n ↦
          rw (n, load_dir)
            (add_loaded-Answers d ps (load_meta ps d) r (λ m e. (at ps d m e, (ps, e))))
    ]

    both-Answers :
        (x y : Answer (List PackageMeta × List PackageVersionState))
        → Answers x
        → Answers y
        → Answers (elim x [
          | err e ↦ err e
          | ok (pkgs, states) ↦ elim y [
            | err e ↦ err e
            | ok (more, later) ↦ ok (pkgs ++ more, states ++ later)
          ]
        ])
    unfolding Answers
    both-Answers (err e) y h k = tt
    both-Answers (ok x) (err e) h k = tt
    both-Answers (ok (ms, ss)) (ok (ns, ts)) h k = FromDirs-append ms ns h k

    load_dirs-Answers :
        (incomplete : List Text) (order : Dirs)
        → ((d : Text) (ps : List Text) → In (d, ps) order → Rootless d)
        → Answers (load_dirs check_import_path module_path version load_meta incomplete order)
    unfolding load_dirs
    load_dirs-Answers incomplete [] r = unfold Answers in tt
    load_dirs-Answers incomplete ((d, ps) ∷ order) r =
        both-Answers (load_dir check_import_path module_path version load_meta incomplete (d, ps))
          (load_dirs check_import_path module_path version load_meta incomplete order)
          (load_dir-Answers incomplete d ps (r d ps (inl refl)))
          (load_dirs-Answers incomplete order (λ e qs m. r e qs (inr m)))

    pub extract_or_fail-FromDirs :
        (reorder : Dirs → Dirs) (cd : ContentDir)
        → RunsOnly reorder
        → ((e : WalkEntry) → In e cd.walk → Rootless e.path)
        → {pkgs : List PackageMeta} {states : List PackageVersionState}
        → extract_or_fail check_import_path module_path version load_meta reorder cd
          ≡ ok (pkgs, states)
        → FromDirs pkgs
    unfolding extract_or_fail extract_package_metas load_walk Answers
    extract_or_fail-FromDirs reorder cd only r {pkgs} {states} h =
        let (paths, q) =
          fail_inv check_import_path module_path version load_meta
            (extract_package_metas check_import_path module_path version load_meta reorder cd) pkgs
            states h in
        let (w, walked, k) =
          metas_inv check_import_path module_path version load_meta reorder
            (walk_dir check_import_path module_path version empty_walk cd.walk) pkgs paths states
            q in
        let (later, loads, s) =
          load_walk_inv check_import_path module_path version load_meta w
            (load_dirs check_import_path module_path version load_meta w.incomplete
              (reorder w.dirs))
            pkgs paths states k in
        subst Answers loads (
          load_dirs-Answers w.incomplete (reorder w.dirs) (λ d ps m.
            KeysRootless-In w.dirs d ps (walk_dir-KeysRootless empty_walk cd.walk w r tt walked)
              (only w.dirs (d, ps) m)))
