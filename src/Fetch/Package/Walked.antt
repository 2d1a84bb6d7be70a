-- ===== src/Fetch/Package/Walked.antt =====
-- The first pass of `extractPackageMetas`: every Go file that is looked at has its directory listed,
-- or its directory has a state that tells of the failure.
use pkgsite.Prelude.{
  Bool, true, false, ◌≡◌, ◌<◌, refl, ◌⊎◌, inl, inr, List, [], ◌∷◌, ◌++◌, Text, some, arith, In,
  length, text_eq, text_eq_iff, text_eq_refl, Bool-cases,
}
use pkgsite.Derrors.{Sentinel, root, package_bad_import_path, package_max_file_size_limit_exceeded}
use pkgsite.Fetch.Files.{WalkEntry, FileError, join_path}
use pkgsite.Fetch.Package.{
  PackageVersionState, state_at, Walk, empty_walk, add_go_file, give_up, is_skipped, keep_go_file,
  walk_entry, walk_dir,
}
use pkgsite.Fetch.Package.States.{FailedAt, FailedAt-append}
use pkgsite.Paths.Candidates.Dir.{dir}
use pkgsite.Stdlib.{mem_text}
use pkgsite.Worker.Fetch.Env.{Answer}
use pkgsite.Worker.Fetch.Status.{to_status-ne}

abbrev pub Dirs : Type 0
Dirs = List (Text × List Text)

-- The directory is a key, with some files.
abbrev pub HasDir : Text → Dirs → Type 0
HasDir d [] = ⊥
HasDir d ((e, ps) ∷ dirs) = (e ≡ d) ⊎ HasDir d dirs

abbrev pub HasFiles : Dirs → Type 0
HasFiles [] = Unit
HasFiles ((e, ps) ∷ dirs) = (0 < length ps) × HasFiles dirs

length-append_one : (ps : List Text) (p : Text) → 0 < length (ps ++ p ∷ [])
length-append_one [] p = omega arith
length-append_one (q ∷ ps) p = omega arith

add_go_file-HasDir : (d p : Text) (dirs : Dirs) → HasDir d (add_go_file d p dirs)
unfolding add_go_file
add_go_file-HasDir d p [] = inl refl
add_go_file-HasDir d p ((e, ps) ∷ dirs) =
    ground (arith, text_eq_iff e d, add_go_file-HasDir d p dirs)

add_go_file-keeps :
    (d p : Text) (dirs : Dirs) (c : Text) → HasDir c dirs → HasDir c (add_go_file d p dirs)
unfolding add_go_file
add_go_file-keeps d p [] c h = absurd h
add_go_file-keeps d p ((e, ps) ∷ dirs) c h =
    ground (arith, text_eq_iff e d, add_go_file-keeps d p dirs c)

add_go_file-HasFiles : (d p : Text) (dirs : Dirs) → HasFiles dirs → HasFiles (add_go_file d p dirs)
unfolding add_go_file
add_go_file-HasFiles d p [] h = omega arith
add_go_file-HasFiles d p ((e, ps) ∷ dirs) h =
    ground (arith, length-append_one ps p, add_go_file-HasFiles d p dirs)

pub inr_eq : {x y : Walk} → ◌≡◌ {A = FileError ⊎ Walk} (inr x) (inr y) → x ≡ y
inr_eq h = cc

bind_inr :
    (x : FileError ⊎ Walk) (f : Walk → FileError ⊎ Walk) (r : Walk)
    → elim x [ inl e ↦ inl e | inr w ↦ f w ] ≡ inr r
    → (w : Walk) × (x ≡ inr w) × (f w ≡ inr r)
bind_inr (inl e) f r h = cc
bind_inr (inr w) f r h = (w, refl, h)

module _ (check_import_path : Text → Bool) (module_path version : Text) where
  -- Every incomplete directory has a state that tells of the failure; the others have files.
  abbrev AllFailed : List Text → List PackageVersionState → Type 0
  AllFailed [] ss = Unit
  AllFailed (d ∷ ds) ss = FailedAt ss (join_path module_path d) × AllFailed ds ss

  pub record IsSound (w : Walk) : Type 0 where
    pub failed : AllFailed w.incomplete w.states
    pub files : HasFiles w.dirs

  abbrev pub Covered : Walk → Text → Type 0
  Covered w d = (mem_text d w.incomplete ≡ true) ⊎ HasDir d w.dirs

  -- What the function makes of an entry of the walk.
  abbrev pub Moves : Walk → WalkEntry → Walk → Type 0
  Moves w e w' =
      ((w' ≡ w)
        × ((e.is_dir ≡ true)
            ⊎ (mem_text (dir e.path) w.incomplete ≡ true)
            ⊎ (is_skipped check_import_path module_path version e.path ≡ true)))
      ⊎ (w' ≡ give_up check_import_path module_path version w (dir e.path) package_bad_import_path)
      ⊎ (w'
          ≡ give_up check_import_path module_path version w (dir e.path)
              package_max_file_size_limit_exceeded)
      ⊎ (w' ≡ record w { dirs = add_go_file (dir e.path) e.path w.dirs })

  keep_go_file-eq :
      (w : Walk) (p : Text) {w' : Walk}
      → keep_go_file check_import_path module_path version w p ≡ Answer.ok w'
      → w' ≡ record w { dirs = add_go_file (dir p) p w.dirs }
  unfolding keep_go_file
  keep_go_file-eq w p h = ground arith

  pub walk_entry-Moves :
      (w : Walk) (e : WalkEntry) {w' : Walk}
      → walk_entry check_import_path module_path version w e ≡ inr w'
      → Moves w e w'
  unfolding walk_entry
  walk_entry-Moves w e h = grind (arith, keep_go_file-eq)

  AllFailed-append :
      (ds : List Text) (ss ts : List PackageVersionState)
      → AllFailed ds ss
      → AllFailed ds (ss ++ ts)
  AllFailed-append [] ss ts h = h
  AllFailed-append (d ∷ ds) ss ts h =
      (FailedAt-append ss ts (join_path module_path d) (inl h.0), AllFailed-append ds ss ts h.1)

  pub state_at-FailedAt :
      (p : Text) (s : Sentinel) (ss : List PackageVersionState)
      → FailedAt (state_at check_import_path module_path version p (some s) ∷ ss) p
  state_at-FailedAt p s ss = inl (refl, to_status-ne (root s))

  -- The next walk is sound, covers what the one before did, and a directory.
  abbrev Extends : Walk → Text → Walk → Type 0
  Extends w d w' = IsSound w' × ((c : Text) → Covered w c → Covered w' c) × Covered w' d

  give_up-Extends :
      (w : Walk) (d : Text) (s : Sentinel)
      → IsSound w
      → Extends w d (give_up check_import_path module_path version w d s)
  unfolding mem_text
  give_up-Extends w d s v = (
    record {
      failed = (
        FailedAt-append w.states (new ∷ []) (join_path module_path d)
            (inr (state_at-FailedAt (join_path module_path d) s [])),
        AllFailed-append w.incomplete w.states (new ∷ []) v.failed,
      );
      files = v.files;
    },
    λ c h. elim h [ inl m ↦ inl (ground (arith, m)) | inr k ↦ inr k ],
    inl (ground (arith, text_eq_refl d)),
  )
    where
      new : PackageVersionState
      new = state_at check_import_path module_path version (join_path module_path d) (some s)

  add_go_file-Extends :
      (w : Walk) (d p : Text) → IsSound w → Extends w d (record w { dirs = add_go_file d p w.dirs })
  add_go_file-Extends w d p v = (
    record { failed = v.failed; files = add_go_file-HasFiles d p w.dirs v.files },
    λ c h. elim h [ inl m ↦ inl m | inr k ↦ inr (add_go_file-keeps d p w.dirs c k) ],
    inr (add_go_file-HasDir d p w.dirs),
  )

  -- A file, in a directory that is not passed over.
  abbrev pub Considered : WalkEntry → Type 0
  Considered e =
      (e.is_dir ≡ false) × (is_skipped check_import_path module_path version e.path ≡ false)

  walk_entry-Extends :
      (w : Walk) (e : WalkEntry) (w' : Walk)
      → IsSound w
      → walk_entry check_import_path module_path version w e ≡ inr w'
      → IsSound w'
        × ((c : Text) → Covered w c → Covered w' c)
        × (Considered e → Covered w' (dir e.path))
  walk_entry-Extends w e w' v h = elim (walk_entry-Moves w e h) [
    | inl (q, r) ↦ rw q (
      v,
      (λ c k. k),
      λ n. elim r [
        | inl y ↦ absurd (ground (arith, n))
        | inr (inl y) ↦ inl y
        | inr (inr y) ↦ absurd (ground (arith, n))
      ],
    )
    | inr (inl q) ↦ rw q (weaken (give_up-Extends w (dir e.path) package_bad_import_path v))
    | inr (inr (inl q)) ↦
        rw q (weaken (give_up-Extends w (dir e.path) package_max_file_size_limit_exceeded v))
    | inr (inr (inr q)) ↦ rw q (weaken (add_go_file-Extends w (dir e.path) e.path v))
  ]
    where
      weaken :
          {x : Walk}
          → Extends w (dir e.path) x
          → IsSound x
            × ((c : Text) → Covered w c → Covered x c)
            × (Considered e → Covered x (dir e.path))
      weaken t = (t.0, t.1, λ n. t.2)

  pub walk_dir-cons :
      (w : Walk) (e : WalkEntry) (es : List WalkEntry) (w' : Walk)
      → walk_dir check_import_path module_path version w (e ∷ es) ≡ inr w'
      → (x : Walk) × (walk_entry check_import_path module_path version w e ≡ inr x)
        × (walk_dir check_import_path module_path version x es ≡ inr w')
  unfolding walk_dir
  walk_dir-cons w e es w' h =
      bind_inr (walk_entry check_import_path module_path version w e)
        (λ x. walk_dir check_import_path module_path version x es) w' h

  -- The walk leaves all that it looked at covered.
  pub walk_dir-Covers :
      (w : Walk) (es : List WalkEntry) (w' : Walk)
      → IsSound w
      → walk_dir check_import_path module_path version w es ≡ inr w'
      → IsSound w'
        × ((c : Text) → Covered w c → Covered w' c)
        × ((e : WalkEntry) → In e es → Considered e → Covered w' (dir e.path))
  unfolding walk_dir
  walk_dir-Covers w [] w' v h = rw (← inr_eq h) (v, (λ c k. k), λ e m n. absurd m)
  walk_dir-Covers w (e ∷ es) w' v h =
      let (w1, first, rest) = walk_dir-cons w e es w' h in
      let (v1, k1, m1) = walk_entry-Extends w e w1 v first in
      let (v2, k2, m2) = walk_dir-Covers w1 es w' v1 rest in
      (
        v2,
        (λ c k. k2 c (k1 c k)),
        λ d m n. elim m [ inl q ↦ k2 (dir d.path) (rw q (m1 (rw (← q) n))) | inr m ↦ m2 d m n ],
      )

  AllFailed-mem :
      (d : Text) (ds : List Text) (ss : List PackageVersionState)
      → AllFailed ds ss
      → mem_text d ds ≡ true
      → FailedAt ss (join_path module_path d)
  unfolding mem_text
  AllFailed-mem d [] ss v h = cc
  AllFailed-mem d (e ∷ ds) ss v h = elim (Bool-cases (text_eq e d)) [
    | inl y ↦ rw (← (text_eq_iff e d).0 y) v.0
    | inr n ↦ AllFailed-mem d ds ss v.1 (ground arith)
  ]

  -- An incomplete directory's failure is told by a state.
  pub incomplete-FailedAt :
      (w : Walk) (d : Text)
      → IsSound w
      → mem_text d w.incomplete ≡ true
      → FailedAt w.states (join_path module_path d)
  incomplete-FailedAt w d v h = AllFailed-mem d w.incomplete w.states v.failed h

  pub empty_walk-IsSound : IsSound empty_walk
  empty_walk-IsSound = record { failed = tt; files = tt }
