-- ===== src/Licenses/Redistributes.antt =====
-- When a package may be redistributed, and the licenses that apply to it.
use mathlib.Core.Path.{ap, subst}
use pkgsite.Prelude.{
  ℕ, Bool, true, false, ◌||◌, ◌≡◌, ◌↔◌, refl, sym, ◌⊎◌, inl, inr, List, [], ◌∷◌, ◌++◌, append_assoc,
  Text, arith, codes, In, All, length, has_prefix, ◌==◌, Bool-cases,
}
use pkgsite.Fetch.Files.{ContentDir}
use pkgsite.Licenses.{
  Classifier, License, is_redistributable_type, is_ignorable_type, redistributable_from,
  redistributable, types_of, module_licenses, module_is_redistributable, non_root_licenses,
  licenses_above, package_info,
}
use pkgsite.Paths.Candidates.Dir.{clean, dir}

-- A type that allows redistribution, or is none of a license.
abbrev pub May : Text → Type 0
May t = (is_ignorable_type t ≡ true) ⊎ (is_redistributable_type t ≡ true)

-- Some type allows redistribution.
abbrev pub SomeAllows : List Text → Type 0
SomeAllows [] = ⊥
SomeAllows (t ∷ ts) =
    ((is_ignorable_type t ≡ false) × (is_redistributable_type t ≡ true)) ⊎ SomeAllows ts

redistributable_from_lem :
    (saw : Bool) (ts : List Text)
    → (redistributable_from saw ts ≡ true) ↔ (All May ts × ((saw ≡ true) ⊎ SomeAllows ts))
unfolding redistributable_from
redistributable_from_lem saw [] = ground arith
redistributable_from_lem saw (t ∷ ts) =
    ground (arith, redistributable_from_lem saw ts, redistributable_from_lem true ts)

-- Every type allows redistribution or does not count, and one allows it.
pub redistributable_lem :
    (ts : List Text) → (redistributable ts ≡ true) ↔ (All May ts × SomeAllows ts)
unfolding redistributable
redistributable_lem ts = ground (arith, redistributable_from_lem false ts)

-- A directory is another one, or above it.
abbrev pub Above : Text → Text → Type 0
Above a d = (d ≡ a) ⊎ ((rest : Text) × (d ≡ a ++ (b'/' ∷ rest)))

has_prefix-append : (p r : Text) → has_prefix (p ++ r) p ≡ true
unfolding has_prefix
has_prefix-append [] r = refl
has_prefix-append (c ∷ p) r = ground (arith, has_prefix-append p r)

has_prefix_refl : (p : Text) → has_prefix p p ≡ true
unfolding has_prefix
has_prefix_refl [] = refl
has_prefix_refl (c ∷ p) = ground (arith, has_prefix_refl p)

Above-cons : (c : ℕ) (a d : Text) → Above a d → Above (c ∷ a) (c ∷ d)
Above-cons c a d (inl e) = inl (ap (λ (s : Text). c ∷ s) e)
Above-cons c a d (inr (r, e)) = inr (r, ap (λ (s : Text). c ∷ s) e)

prefix-Above : (a d : Text) → has_prefix (d ++ (b'/' ∷ [])) (a ++ (b'/' ∷ [])) ≡ true → Above a d
unfolding has_prefix
prefix-Above [] [] h = inl refl
prefix-Above [] (c ∷ d) h = inr (d, ground arith)
prefix-Above (x ∷ []) [] h = absurd (ground arith)
prefix-Above (x ∷ y ∷ a) [] h = absurd (ground arith)
prefix-Above (x ∷ a) (c ∷ d) h =
    let e : c ≡ x = ground arith in rw e (Above-cons x a d (prefix-Above a d (ground arith)))

Above-prefix : (a d : Text) → Above a d → has_prefix (d ++ (b'/' ∷ [])) (a ++ (b'/' ∷ [])) ≡ true
Above-prefix a d (inl e) = rw e (has_prefix_refl (a ++ (b'/' ∷ [])))
Above-prefix a d (inr (r, e)) = rw e (
    rw (append_assoc a (b'/' ∷ r) (b'/' ∷ []))
      (rw shift (has_prefix-append (a ++ (b'/' ∷ [])) (r ++ (b'/' ∷ [])))))
  where
    shift : a ++ (b'/' ∷ (r ++ (b'/' ∷ []))) ≡ (a ++ (b'/' ∷ [])) ++ (r ++ (b'/' ∷ []))
    shift = sym (append_assoc a (b'/' ∷ []) (r ++ (b'/' ∷ [])))

All-front : (ts us : List Text) → All May (ts ++ us) → All May ts
All-front [] us h = tt
All-front (t ∷ ts) us h = (h.0, All-front ts us h.1)

All-rest : (ts us : List Text) → All May (ts ++ us) → All May us
All-rest [] us h = h
All-rest (t ∷ ts) us h = All-rest ts us h.1

types_of-All : (ls : List License) (l : License) → All May (types_of ls) → In l ls → All May l.types
unfolding types_of
types_of-All [] l h m = absurd m
types_of-All (k ∷ ls) l h (inl e) = rw e (All-front k.types (types_of ls) h)
types_of-All (k ∷ ls) l h (inr m) = types_of-All ls l (All-rest k.types (types_of ls) h) m

-- The licenses above a directory are those that lie in one that is above.
licenses_above_lem :
    (d : Text) (ls : List License) (l : License)
    → In l (licenses_above d ls) ↔ (In l ls × Above (dir l.filepath) d)
unfolding licenses_above
licenses_above_lem d [] l = ((λ h. absurd h), (λ h. absurd h.0))
licenses_above_lem d (k ∷ ls) l =
    let (to, from) = licenses_above_lem d ls l in
    elim (Bool-cases (has_prefix (d ++ (b'/' ∷ [])) (dir k.filepath ++ (b'/' ∷ [])))) [
      | inl y ↦
          rw (y, licenses_above)
            (
              (λ h. elim h [
                | inl e ↦ (
                  inl e,
                  subst (λ (x : License). Above (dir x.filepath) d) (sym e)
                      (prefix-Above (dir k.filepath) d y),
                )
                | inr m ↦ (inr (to m).0, (to m).1)
              ]),
              (λ h. elim h.0 [ inl e ↦ inl e | inr m ↦ inr (from (m, h.1)) ]),
            )
      | inr n ↦
          rw (n, licenses_above)
            (
              (λ m. (inr (to m).0, (to m).1)),
              (λ h. elim h.0 [
                | inl e ↦ absurd (
                    unlike n (
                      Above-prefix (dir k.filepath) d
                        (subst (λ (x : License). Above (dir x.filepath) d) e h.1)))
                | inr m ↦ from (m, h.1)
              ]),
            )
    ]
  where
    unlike : {b : Bool} → b ≡ false → b ≡ true → ⊥
    unlike f t = cc

In-append : (l : License) (xs ys : List License) → In l (xs ++ ys) ↔ (In l xs ⊎ In l ys)
In-append l [] ys = ((λ h. inr h), (λ h. elim h [ inl a ↦ absurd a | inr m ↦ m ]))
In-append l (x ∷ xs) ys =
    let (to, from) = In-append l xs ys in
    (
      (λ h. elim h [
        | inl e ↦ inl (inl e)
        | inr m ↦ elim (to m) [ inl a ↦ inl (inr a) | inr b ↦ inr b ]
      ]),
      (λ h. elim h [
        | inl (inl e) ↦ inl e
        | inl (inr m) ↦ inr (from (inl m))
        | inr m ↦ inr (from (inr m))
      ]),
    )

module _ (classifier : Classifier) (module_path : Text) (cd : ContentDir) where
  -- The module's licenses allow redistribution, and so do those of the directories above another.
  abbrev pub AllMayAbove : Text → Type 0
  AllMayAbove d =
      (l : License)
      → In l (non_root_licenses classifier module_path cd)
      → Above (dir l.filepath) d
      → All May l.types

  above_types :
      (d : Text)
      → ((length (types_of (licenses_above d (non_root_licenses classifier module_path cd))) == 0)
          || redistributable
              (types_of (licenses_above d (non_root_licenses classifier module_path cd))))
        ≡ true
      → All May (types_of (licenses_above d (non_root_licenses classifier module_path cd)))
  above_types d h =
      none_or_all (types_of (licenses_above d (non_root_licenses classifier module_path cd))) h
    where
      none_or_all : (ts : List Text) → ((length ts == 0) || redistributable ts) ≡ true → All May ts
      none_or_all [] h = tt
      none_or_all (t ∷ ts) h = ((redistributable_lem (t ∷ ts)).0 (ground arith)).0

  -- A package is said to be redistributable only if some type of the module's own license files allows
  -- it, and every type of these, and of all license files in the package's directory or above it, allows
  -- it or does not count.
  pub package_info-Allows :
      (d : Text)
      → (package_info classifier module_path cd d).0 ≡ true
      → All May (types_of (module_licenses classifier module_path cd))
        × SomeAllows (types_of (module_licenses classifier module_path cd))
        × AllMayAbove (clean d)
  unfolding package_info module_is_redistributable
  package_info-Allows d h =
      let (all, some) =
        (redistributable_lem (types_of (module_licenses classifier module_path cd))).0
          (ground (arith, h)) in
      (
        all,
        some,
        λ l m a.
            types_of-All (licenses_above (clean d) (non_root_licenses classifier module_path cd)) l
              (above_types (clean d) (ground (arith, h)))
              ((licenses_above_lem (clean d) (non_root_licenses classifier module_path cd) l).1
                (m, a)),
      )

  -- The licenses that apply to a package, whose directory is neither absolute nor out of the module,
  -- are the module's and those of the files that lie in its directory or above it.
  pub package_info-In :
      (d : Text)
      → has_prefix (clean d) (codes "/") ≡ false
      → has_prefix (clean d) (codes "..") ≡ false
      → (l : License)
      → In l (package_info classifier module_path cd d).1 ↔ (
          (In l (non_root_licenses classifier module_path cd) × Above (dir l.filepath) (clean d))
          ⊎ In l (module_licenses classifier module_path cd))
  unfolding package_info
  package_info-In d a o l =
      let own = module_licenses classifier module_path cd in
      let others = non_root_licenses classifier module_path cd in
      let (to, from) = In-append l (licenses_above (clean d) others) own in
      let (above, back) = licenses_above_lem (clean d) others l in
      rw (a, package_info)
        (rw (o, package_info)
          (
            (λ h. elim (to h) [ inl m ↦ inl (above m) | inr m ↦ inr m ]),
            (λ h. elim h [ inl m ↦ from (inl (back m)) | inr m ↦ from (inr m) ]),
          ))
