-- ===== src/Fetch/Load/Agrees.antt =====
-- The package that is found: all build contexts that have it agree on its name.
use pkgsite.Prelude.{
  Bool, ◌≡◌, ◌∙◌, refl, sym, ◌⊎◌, inl, inr, List, [], ◌∷◌, Text, Option, none, some, arith, In,
  text_eq, text_eq_iff, Bool-cases, if◌then◌else◌,
}
use pkgsite.Fetch.Load.{
  LoadError, not_found, bad_package, serious, Loaded, loaded, load_failed, Parsed, PackageMeta,
  FileMap, load_package_name, matching_files, name_in, meta_loop, read_files, import_path_of,
  load_package_meta,
}
use pkgsite.Symbol.{BuildContext, build_contexts_known}
use pkgsite.Worker.Fetch.Env.{Answer}

module _ (parse : Text → Text → Parsed) (match_file : BuildContext → FileMap → Text → Option Bool)
    (import_path : Text) (files : FileMap) where
  -- A build context of the list has the package, under a name.
  abbrev pub Names : List BuildContext → Text → Type 0
  Names bcs n = (bc : BuildContext) × In bc bcs × (name_in parse match_file files bc ≡ loaded n)

  -- What the loop found: no context has a package, or all that have one have it under the same name.
  abbrev pub Agree : List BuildContext → Option PackageMeta → Type 0
  Agree bcs none = (n : Text) → Names bcs n → ⊥
  Agree bcs (some m) =
      (m.path ≡ import_path) × Names bcs m.name × ((n : Text) → Names bcs n → n ≡ m.name)

  -- What the loop finds from a package on.
  Continues : Option PackageMeta → List BuildContext → Option PackageMeta → Type 0
  Continues none bcs r = Agree bcs r
  Continues (some p) bcs r = (r ≡ some p) × ((n : Text) → Names bcs n → n ≡ p.name)

  -- A context's outcome: the loop ends with an error, the context is passed over, or it has a name.
  data Outcome (bc : BuildContext) : Type 0 where
    ends :
        ((pkg : Option PackageMeta) (bcs : List BuildContext)
          → (e : LoadError) × (meta_loop parse match_file import_path files pkg (bc ∷ bcs)
              ≡ load_failed e))
        → Outcome bc
    passes :
        ((n : Text) → name_in parse match_file files bc ≡ loaded n → ⊥)
        → ((pkg : Option PackageMeta) (bcs : List BuildContext)
            → meta_loop parse match_file import_path files pkg (bc ∷ bcs)
              ≡ meta_loop parse match_file import_path files pkg bcs)
        → Outcome bc
    names :
        (matched : FileMap) (n : Text)
        → matching_files (match_file bc) files files ≡ loaded matched
        → load_package_name parse matched ≡ loaded n
        → Outcome bc

  Loaded-cases :
      {A : Type 0} (x : Loaded A)
      → ((e : LoadError) × (x ≡ load_failed e)) ⊎ ((a : A) × (x ≡ loaded a))
  Loaded-cases (load_failed e) = inl (e, refl)
  Loaded-cases (loaded a) = inr (a, refl)

  outcome : (bc : BuildContext) → Outcome bc
  unfolding name_in meta_loop
  outcome bc = elim (Loaded-cases (matching_files (match_file bc) files files)) [
    | inl (e, q) ↦ ends (λ pkg bcs. (e, rw (q, meta_loop) refl))
    | inr (matched, q) ↦ elim (Loaded-cases (load_package_name parse matched)) [
      | inr (n, r) ↦ names matched n q r
      | inl (not_found, r) ↦
          passes (λ n h. ground (arith, q, r, h))
            (λ pkg bcs. rw (q, meta_loop) (rw (r, meta_loop) refl))
      | inl (bad_package, r) ↦
          passes (λ n h. ground (arith, q, r, h))
            (λ pkg bcs. rw (q, meta_loop) (rw (r, meta_loop) refl))
      | inl (serious e, r) ↦
          ends (λ pkg bcs. (serious e, rw (q, meta_loop) (rw (r, meta_loop) refl)))
    ]
  ]

  Names-cons :
      (bc : BuildContext) (bcs : List BuildContext) (n : Text)
      → Names (bc ∷ bcs) n
      → (name_in parse match_file files bc ≡ loaded n) ⊎ Names bcs n
  Names-cons bc bcs n (c, inl q, h) = inl (rw (← q) h)
  Names-cons bc bcs n (c, inr m, h) = inr (c, m, h)

  name_in-eq :
      (bc : BuildContext) (matched : FileMap) (n : Text)
      → matching_files (match_file bc) files files ≡ loaded matched
      → load_package_name parse matched ≡ loaded n
      → name_in parse match_file files bc ≡ loaded n
  unfolding name_in
  name_in-eq bc matched n q r = rw (q, name_in) r

  -- A context with no package changes nothing.
  Continues-pass :
      (bc : BuildContext) (bcs : List BuildContext) (pkg r : Option PackageMeta)
      → ((n : Text) → name_in parse match_file files bc ≡ loaded n → ⊥)
      → Continues pkg bcs r
      → Continues pkg (bc ∷ bcs) r
  unfolding Continues
  Continues-pass bc bcs none none never h =
      λ n m. elim (Names-cons bc bcs n m) [ inl q ↦ never n q | inr m ↦ h n m ]
  Continues-pass bc bcs none (some m) never (p, (c, i, q), all) = (
    p,
    (c, inr i, q),
    λ n k. elim (Names-cons bc bcs n k) [ inl q ↦ absurd (never n q) | inr k ↦ all n k ],
  )
  Continues-pass bc bcs (some p) r never (q, all) =
      (q, λ n k. elim (Names-cons bc bcs n k) [ inl q ↦ absurd (never n q) | inr k ↦ all n k ])

  option_eq :
      {x y : Option PackageMeta}
      → ◌≡◌ {A = Loaded (Option PackageMeta)} (loaded x) (loaded y)
      → x ≡ y
  option_eq h = cc

  loaded_eq : {n m : Text} → ◌≡◌ {A = Loaded Text} (loaded n) (loaded m) → n ≡ m
  loaded_eq h = cc

  -- The first context with a package gives the name, the others have to have it.
  Continues-name :
      (bc : BuildContext) (bcs : List BuildContext) (name : Text) (pkg r : Option PackageMeta)
      → name_in parse match_file files bc ≡ loaded name
      → Continues (some (record { path = import_path; name = name })) bcs r
      → Continues none (bc ∷ bcs) r
  unfolding Continues
  Continues-name bc bcs name pkg r q (e, all) = rw e (
    refl,
    (bc, inl refl, q),
    λ n k. elim (Names-cons bc bcs n k) [ inl h ↦ loaded_eq (sym h ∙ q) | inr k ↦ all n k ],
  )

  loop_first :
      (bc : BuildContext) (bcs : List BuildContext) (matched : FileMap) (n : Text)
      → matching_files (match_file bc) files files ≡ loaded matched
      → load_package_name parse matched ≡ loaded n
      → meta_loop parse match_file import_path files none (bc ∷ bcs)
        ≡ meta_loop parse match_file import_path files
            (some (record { path = import_path; name = n }))
            bcs
  unfolding meta_loop
  loop_first bc bcs matched n q s = rw (q, meta_loop) (rw (s, meta_loop) refl)

  loop_next :
      (bc : BuildContext) (bcs : List BuildContext) (matched : FileMap) (n : Text) (p : PackageMeta)
      → matching_files (match_file bc) files files ≡ loaded matched
      → load_package_name parse matched ≡ loaded n
      → meta_loop parse match_file import_path files (some p) (bc ∷ bcs) ≡ (
          if text_eq n p.name
          then meta_loop parse match_file import_path files (some p) bcs
          else load_failed bad_package)
  unfolding meta_loop
  loop_next bc bcs matched n p q s = rw (q, meta_loop) (rw (s, meta_loop) refl)

  failed_loaded :
      (x : Loaded (Option PackageMeta)) {r : Option PackageMeta}
      → (e : LoadError) × (x ≡ load_failed e)
      → x ≡ loaded r
      → ⊥
  failed_loaded x (e, q) h = cc

  -- The next context has the name, or the loop fails.
  Continues-next :
      (bc : BuildContext) (bcs : List BuildContext) (name : Text) (p : PackageMeta)
      (r : Option PackageMeta)
      → name_in parse match_file files bc ≡ loaded name
      → name ≡ p.name
      → Continues (some p) bcs r
      → Continues (some p) (bc ∷ bcs) r
  unfolding Continues
  Continues-next bc bcs name p r q e (h, all) = (
    h,
    λ n k. elim (Names-cons bc bcs n k) [ inl t ↦ loaded_eq (sym t ∙ q) ∙ e | inr k ↦ all n k ],
  )

  meta_loop-Continues :
      (pkg : Option PackageMeta) (bcs : List BuildContext) (r : Option PackageMeta)
      → meta_loop parse match_file import_path files pkg bcs ≡ loaded r
      → Continues pkg bcs r
  unfolding meta_loop Continues
  meta_loop-Continues none [] r h = rw (← (option_eq h)) (λ n k. k.1)
  meta_loop-Continues (some p) [] r h = (option_eq (sym h), λ n k. absurd k.1)
  meta_loop-Continues none (bc ∷ bcs) r h = elim (outcome bc) [
    | ends e ↦ absurd (
        failed_loaded (meta_loop parse match_file import_path files none (bc ∷ bcs)) (e none bcs) h)
    | passes never step ↦
        Continues-pass bc bcs none r never
          (meta_loop-Continues none bcs r (sym (step none bcs) ∙ h))
    | names matched n q s ↦ Continues-name bc bcs n none r (name_in-eq bc matched n q s) (
        meta_loop-Continues (some (record { path = import_path; name = n })) bcs r
          (sym (loop_first bc bcs matched n q s) ∙ h))
  ]
  meta_loop-Continues (some p) (bc ∷ bcs) r h = elim (outcome bc) [
    | ends e ↦ absurd (
        failed_loaded (meta_loop parse match_file import_path files (some p) (bc ∷ bcs))
          (e (some p) bcs) h)
    | passes never step ↦
        Continues-pass bc bcs (some p) r never
          (meta_loop-Continues (some p) bcs r (sym (step (some p) bcs) ∙ h))
    | names matched n q s ↦ elim (Bool-cases (text_eq n p.name)) [
      | inl y ↦
          Continues-next bc bcs n p r (name_in-eq bc matched n q s) ((text_eq_iff n p.name).0 y) (
            meta_loop-Continues (some p) bcs r
              (ground (arith, loop_next bc bcs matched n p q s, y, h)))
      | inr d ↦ absurd (ground (arith, loop_next bc bcs matched n p q s, d, h))
    ]
  ]

module _ (parse : Text → Text → Parsed)
    (match_file : BuildContext → FileMap → Text → Option Bool) where
  read_inv :
      (x : Loaded FileMap) (f : FileMap → Loaded (Option PackageMeta)) (r : Option PackageMeta)
      → elim x [ load_failed e ↦ load_failed e | loaded files ↦ f files ] ≡ loaded r
      → (files : FileMap) × (x ≡ loaded files) × (f files ≡ loaded r)
  read_inv (load_failed e) f r h = cc
  read_inv (loaded files) f r h = (files, refl, h)

  -- When `loadPackageMeta` returns with no error, it has read all the files, and of the build
  -- contexts of the site either none has a package in them, and there is none, or some have one, all
  -- of these under the name that is returned, with the import path of the directory.
  pub load_package_meta-Agree :
      (read : Text → Answer Text) (module_path : Text) (go_files : List Text) (inner_path : Text)
      {r : Option PackageMeta}
      → load_package_meta parse match_file read module_path go_files inner_path ≡ loaded r
      → (files : FileMap) × (read_files read [] go_files ≡ loaded files)
        × Agree parse match_file
            (import_path_of module_path inner_path)
            files
            build_contexts_known
            r
  unfolding load_package_meta Continues
  load_package_meta-Agree read module_path go_files inner_path {r} h =
      let (files, q, e) =
        read_inv (read_files read [] go_files)
          (λ files.
            meta_loop parse match_file (import_path_of module_path inner_path) files none
              build_contexts_known)
          r h in
      (
        files,
        q,
        meta_loop-Continues parse match_file (import_path_of module_path inner_path) files none
            build_contexts_known r e,
      )

  -- A package that is found has the import path of its directory.
  pub load_package_meta-path :
      (read : Text → Answer Text) (module_path : Text) (go_files : List Text) (inner_path : Text)
      (m : PackageMeta)
      → load_package_meta parse match_file read module_path go_files inner_path ≡ loaded (some m)
      → m.path ≡ import_path_of module_path inner_path
  load_package_meta-path read module_path go_files inner_path m h =
      (load_package_meta-Agree read module_path go_files inner_path h).2.0
