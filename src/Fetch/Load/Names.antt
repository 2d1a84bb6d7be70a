-- ===== src/Fetch/Load/Names.antt =====
-- The name of a package that is found is a name that the parser gave.
use pkgsite.Prelude.{
  ℕ, zero, suc, Bool, true, false, ◌||◌, ◌≡◌, ◌≢◌, refl, ◌⊎◌, inl, inr, List, [], ◌∷◌, Text, Option,
  some, ◌∙◌, ap, arith, codes, has_suffix, text_eq, ◌==◌, if◌then◌else◌,
}
use pkgsite.Derrors
use pkgsite.Fetch.Load.{
  Loaded, loaded, load_failed, bad_package, serious, Parsed, unreadable, malformed, named,
  PackageMeta, FileMap, name_loop, load_package_name, matching_files, name_in, load_package_meta,
}
use pkgsite.Fetch.Load.Agrees.{load_package_meta-Agree}
use pkgsite.Symbol.{BuildContext}
use pkgsite.Worker.Fetch.Env.{Answer}

chosen :
    (c : Bool) (r : Loaded Text) (q : Text)
    → (if c then r else load_failed bad_package) ≡ loaded q
    → r ≡ loaded q
chosen true r q x = x
chosen false r q x = cc

module _ (parse : Text → Text → Parsed) (names : (n b : Text) → parse n b ≢ named []) where
  name_loop-nonempty :
      (n : ℕ) (name : Text) (fs : FileMap) (q : Text)
      → (n ≡ 0) ⊎ (name ≢ [])
      → name_loop parse n name fs ≡ loaded q
      → q ≢ []
  unfolding name_loop
  name_loop-nonempty zero name [] q k h = λ e. cc
  name_loop-nonempty (suc n) name [] q (inl z) h = absurd (omega (arith, z))
  name_loop-nonempty (suc n) name [] q (inr k) h = λ e. k (ground (arith, h, e))
  name_loop-nonempty n name ((f, b) ∷ fs) q k h =
      by_suffix (has_suffix f (codes "_test.go")) (name_loop-nonempty n name fs q k)
        (λ p x. name_loop-nonempty (suc n) p fs q (inr x)) h
    where
      parsed :
          (o : Parsed)
          → parse f b ≡ o
          → ((p : Text) → p ≢ [] → name_loop parse (suc n) p fs ≡ loaded q → q ≢ [])
          → (elim o [
            | unreadable ↦ load_failed (serious Derrors.other)
            | malformed ↦ load_failed bad_package
            | named p ↦
                let rest = name_loop parse (suc n) p fs in
                if (n == 0) || text_eq p name then rest else load_failed bad_package
          ])
            ≡ loaded q
          → q ≢ []
      parsed unreadable e next g = cc
      parsed malformed e next g = cc
      parsed (named p) e next g =
          next p (λ z. names f b (e ∙ ap named z))
            (chosen ((n == 0) || text_eq p name) (name_loop parse (suc n) p fs) q g)

      by_suffix :
          (s : Bool)
          → (name_loop parse n name fs ≡ loaded q → q ≢ [])
          → ((p : Text) → p ≢ [] → name_loop parse (suc n) p fs ≡ loaded q → q ≢ [])
          → (elim s [
            | true ↦ name_loop parse n name fs
            | false ↦ elim (parse f b) [
              | unreadable ↦ load_failed (serious Derrors.other)
              | malformed ↦ load_failed bad_package
              | named p ↦
                  let rest = name_loop parse (suc n) p fs in
                  if (n == 0) || text_eq p name then rest else load_failed bad_package
            ]
          ])
            ≡ loaded q
          → q ≢ []
      by_suffix true skipped next g = skipped g
      by_suffix false skipped next g = parsed (parse f b) refl next g

  name_in-nonempty :
      (match_file : BuildContext → FileMap → Text → Option Bool) (fs : FileMap) (bc : BuildContext)
      (q : Text)
      → name_in parse match_file fs bc ≡ loaded q
      → q ≢ []
  unfolding name_in
  name_in-nonempty match_file fs bc q h = go (matching_files (match_file bc) fs fs) h
    where
      go :
          (o : Loaded FileMap)
          → (elim o [
            | load_failed e ↦ load_failed e
            | loaded matched ↦ load_package_name parse matched
          ])
            ≡ loaded q
          → q ≢ []
      go (load_failed e) x = cc
      go (loaded matched) x = name_loop-nonempty 0 [] matched q (inl refl) x

  -- Where the parser gives no empty name, no package that is found has one.
  pub load_package_meta-nonempty :
      (match_file : BuildContext → FileMap → Text → Option Bool) (read : Text → Answer Text)
      (module_path : Text) (go_files : List Text) (inner_path : Text) (m : PackageMeta)
      → load_package_meta parse match_file read module_path go_files inner_path ≡ loaded (some m)
      → m.name ≢ []
  load_package_meta-nonempty match_file read module_path go_files inner_path m h =
      let (fs, q, agrees) =
        load_package_meta-Agree parse match_file read module_path go_files inner_path h in
      let (path, (bc, i, n), same) = agrees in name_in-nonempty match_file fs bc m.name n
