-- ===== src/Fetch/Unit/Closed.antt =====
-- The paths of a module's units: the smallest set with the module's path and the packages' that
-- holds the directories above, up to the module.
use mathlib.Core.Path.{subst, ap}
use pkgsite.Prelude.{
  ℕ, zero, suc, true, false, ◌≡◌, refl, sym, ◌⊎◌, inl, inr, List, [], ◌∷◌, Text, Option, none, some,
  arith, In, length, text_eq_iff, Bool-cases,
}
use pkgsite.Fetch.Load.{PackageMeta}
use pkgsite.Fetch.Unit.{should_continue, add_path, add_ancestors, add_packages}
use pkgsite.Paths.Candidates.Dir.{dir}
use pkgsite.Stdlib.{mem_text}

abbrev pub Has : List Text → Text → Type 0
Has paths p = mem_text p paths ≡ true

-- No path twice.
abbrev pub IsNodup : List Text → Type 0
IsNodup [] = Unit
IsNodup (p ∷ ps) = (mem_text p ps ≡ false) × IsNodup ps

add_path-Has : (p q : Text) (paths : List Text) → (Has paths q ⊎ (p ≡ q)) → Has (add_path p paths) q
unfolding add_path mem_text
add_path-Has p q paths (inl h) = elim (Bool-cases (mem_text p paths)) [
  | inl y ↦ rw y h
  | inr n ↦ rw (n, add_path) (ground (arith, h))
]
add_path-Has p q paths (inr e) = elim (Bool-cases (mem_text p paths)) [
  | inl y ↦ rw y (rw (← e) y)
  | inr n ↦ rw (n, add_path) (ground (arith, text_eq_iff p q))
]

add_path_inv : (p q : Text) (paths : List Text) → Has (add_path p paths) q → Has paths q ⊎ (p ≡ q)
unfolding add_path mem_text
add_path_inv p q paths h = ground (arith, text_eq_iff p q)

add_path-IsNodup : (p : Text) (paths : List Text) → IsNodup paths → IsNodup (add_path p paths)
unfolding add_path
add_path-IsNodup p paths h = ground arith

bind_some :
    (x : Option (List Text)) (f : List Text → Option (List Text)) (r : List Text)
    → elim x [ none ↦ none | some y ↦ f y ] ≡ some r
    → (y : List Text) × (x ≡ some y) × (f y ≡ some r)
bind_some none f r h = cc
bind_some (some y) f r h = (y, refl, h)

some_eq : {x y : List Text} → some x ≡ some y → x ≡ y
some_eq h = cc

module _ (module_path : Text) where
  abbrev pub Goes : Text → Type 0
  Goes p = should_continue module_path p ≡ true

  -- With a path of the first list, the second one has the directory above, up to the module.
  abbrev pub ClosedIn : List Text → List Text → Type 0
  ClosedIn s t = (q : Text) → Has s q → Goes q → Goes (dir q) → Has t (dir q)

  -- A property that passes on to the directory above.
  abbrev pub Climbs : (Text → Type 0) → Type 0
  Climbs P = (q : Text) → P q → Goes q → Goes (dir q) → P (dir q)

  -- What the walk up from a path adds to a set.
  record Added (p : Text) (paths : List Text) (more : List Text) : Type 1 where
    pub keeps : (q : Text) → Has paths q → Has more q
    pub has : Goes p → Has more p
    pub closed : (q : Text) → Has more q → Has paths q ⊎ (Goes q → Goes (dir q) → Has more (dir q))
    pub least :
        (P : Text → Type 0)
        → Climbs P
        → (Goes p → P p)
        → ((q : Text) → Has paths q → P q)
        → (q : Text) → Has more q
        → P q
    pub nodup : IsNodup paths → IsNodup more

  stop-Added :
      (p : Text) (paths more : List Text)
      → should_continue module_path p ≡ false
      → paths ≡ more
      → Added p paths more
  stop-Added p paths more n e = record {
    keeps = λ q h. rw (← e) h;
    has = λ g. absurd (ground (arith, g, n));
    closed = λ q h. inl (rw e h);
    least = λ P c f all q h. all q (rw e h);
    nodup = λ h. rw (← e) h;
  }

  step-Added :
      (p : Text) (paths more : List Text)
      → Goes p
      → Added (dir p) (add_path p paths) more
      → Added p paths more
  step-Added p paths more g v = record {
    keeps = λ q h. v.keeps q (add_path-Has p q paths (inl h));
    has = λ n. v.keeps p (add_path-Has p p paths (inr refl));
    closed = λ q h. elim (v.closed q h) [
      | inl o ↦ elim (add_path_inv p q paths o) [
        | inl o ↦ inl o
        | inr e ↦ inr (λ n d. rw (ap dir (sym e)) (v.has (rw (ap dir e) d)))
      ]
      | inr c ↦ inr c
    ];
    least = λ P c f all.
        v.least P c (λ d. c p (f g) g d)
          (λ q h. elim (add_path_inv p q paths h) [ inl o ↦ all q o | inr e ↦ subst P e (f g) ]);
    nodup = λ n. v.nodup (add_path-IsNodup p paths n);
  }

  add_ancestors-Added :
      (fuel : ℕ) (p : Text) (paths more : List Text)
      → add_ancestors fuel module_path p paths ≡ some more
      → Added p paths more
  unfolding add_ancestors
  add_ancestors-Added zero p paths more h = elim (Bool-cases (should_continue module_path p)) [
    | inl y ↦ absurd (ground (arith, y, h))
    | inr n ↦ stop-Added p paths more n (ground (arith, n, h))
  ]
  add_ancestors-Added (suc fuel) p paths more h =
      elim (Bool-cases (should_continue module_path p)) [
        | inl y ↦
            step-Added p paths more y
              (add_ancestors-Added fuel (dir p) (add_path p paths) more (ground (arith, y, h)))
        | inr n ↦ stop-Added p paths more n (ground (arith, n, h))
      ]

  pub record AddedAll (pkgs : List PackageMeta) (paths more : List Text) : Type 1 where
    pub keeps : (q : Text) → Has paths q → Has more q
    pub has : (m : PackageMeta) → In m pkgs → Goes m.path → Has more m.path
    pub closed : (q : Text) → Has more q → Has paths q ⊎ (Goes q → Goes (dir q) → Has more (dir q))
    pub least :
        (P : Text → Type 0)
        → Climbs P
        → ((m : PackageMeta) → In m pkgs → Goes m.path → P m.path)
        → ((q : Text) → Has paths q → P q)
        → (q : Text) → Has more q
        → P q
    pub nodup : IsNodup paths → IsNodup more

  add_packages-cons :
      (m : PackageMeta) (pkgs : List PackageMeta) (paths more : List Text)
      → add_packages module_path (m ∷ pkgs) paths ≡ some more
      → (middle : List Text) × (add_ancestors (suc (length m.path)) module_path m.path paths
          ≡ some middle)
        × (add_packages module_path pkgs middle ≡ some more)
  unfolding add_packages
  add_packages-cons m pkgs paths more h =
      bind_some (add_ancestors (suc (length m.path)) module_path m.path paths)
        (add_packages module_path pkgs) more h

  cons-AddedAll :
      (m : PackageMeta) (pkgs : List PackageMeta) (paths middle more : List Text)
      → Added m.path paths middle
      → AddedAll pkgs middle more
      → AddedAll (m ∷ pkgs) paths more
  cons-AddedAll m pkgs paths middle more v w = record {
    keeps = λ q h. w.keeps q (v.keeps q h);
    has = λ n i g. elim i [
      | inl e ↦ rw e (w.keeps m.path (v.has (rw (← e) g)))
      | inr i ↦ w.has n i g
    ];
    closed = λ q h. elim (w.closed q h) [
      | inl o ↦ elim (v.closed q o) [ inl o ↦ inl o | inr c ↦ inr (λ g d. w.keeps (dir q) (c g d)) ]
      | inr c ↦ inr c
    ];
    least =
        λ P c f all. w.least P c (λ n i g. f n (inr i) g) (v.least P c (λ g. f m (inl refl) g) all);
    nodup = λ n. w.nodup (v.nodup n);
  }

  pub add_packages-AddedAll :
      (pkgs : List PackageMeta) (paths more : List Text)
      → add_packages module_path pkgs paths ≡ some more
      → AddedAll pkgs paths more
  unfolding add_packages
  add_packages-AddedAll [] paths more h =
      let e : paths ≡ more = some_eq h in
      record {
        keeps = λ q h. rw (← e) h;
        has = λ m i g. absurd i;
        closed = λ q h. inl (rw e h);
        least = λ P c f all q h. all q (rw e h);
        nodup = λ n. rw (← e) n;
      }
  add_packages-AddedAll (m ∷ pkgs) paths more h =
      let (middle, first, rest) = add_packages-cons m pkgs paths more h in
      cons-AddedAll m pkgs paths middle more
        (add_ancestors-Added (suc (length m.path)) m.path paths middle first)
        (add_packages-AddedAll pkgs middle more rest)
