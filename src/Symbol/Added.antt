-- ===== src/Symbol/Added.antt =====
-- What a history has after a symbol is added.
use pkgsite.Prelude.{
  true, false, ◌||◌, ◌&&◌, List, [], ◌∷◌, Text, text_eq, text_eq_iff, text_eq_refl, ◌≡◌, refl, ap,
  ◌∙◌, arith, Bool-cases, inl, inr,
}
use pkgsite.Symbol.{
  BuildContext, build_context_all, build_eq, SymbolMeta, meta_eq, History, mem_build, set_build,
  add_build_context, insert_build, build_contexts, is_row, add_symbol, has,
}

pub build_eq_sound : (b c : BuildContext) → build_eq b c ≡ true → b ≡ c
unfolding build_eq
build_eq_sound b c h =
    let os : b.goos ≡ c.goos = (text_eq_iff b.goos c.goos).0 (ground arith) in
    let arch : b.goarch ≡ c.goarch = (text_eq_iff b.goarch c.goarch).0 (ground arith) in
    λ i. record { goos = os i; goarch = arch i }

pub build_eq_refl : (b : BuildContext) → build_eq b b ≡ true
unfolding build_eq
build_eq_refl b = rw (text_eq_refl b.goos, text_eq_refl b.goarch) refl

mem_build-set_build :
    (b c : BuildContext) (bs : List BuildContext)
    → mem_build b (set_build bs c) ≡ (build_eq b c || mem_build b bs)
unfolding set_build mem_build
mem_build-set_build b c bs = elim (Bool-cases (mem_build c bs)) [
  | inr n ↦ rw (set_build, n) refl
  | inl y ↦
      rw (set_build, y)
        (elim (Bool-cases (build_eq b c)) [
          | inl e ↦ rw e (ap (λ x. mem_build x bs) (build_eq_sound b c e) ∙ y)
          | inr d ↦ rw d refl
        ])
]

mem_build-insert_build :
    (b c : BuildContext) (bs : List BuildContext)
    → mem_build b (insert_build c bs) ≡ (build_eq b c || mem_build b bs)
unfolding insert_build mem_build
mem_build-insert_build b c [] = refl
mem_build-insert_build b c (d ∷ bs) = ground (arith, mem_build-insert_build b c bs)

-- Sorting keeps the builds.
pub mem_build-build_contexts :
    (b : BuildContext) (bs : List BuildContext) → mem_build b (build_contexts bs) ≡ mem_build b bs
unfolding build_contexts mem_build
mem_build-build_contexts b [] = refl
mem_build-build_contexts b (c ∷ bs) =
    mem_build-insert_build b c (build_contexts bs)
    ∙ ap (λ x. build_eq b c || x) (mem_build-build_contexts b bs)

pub mem_build-add_build_context :
    (b build : BuildContext) (bs : List BuildContext)
    → build_eq build build_context_all ≡ false
    → mem_build b (add_build_context bs build) ≡ (build_eq b build || mem_build b bs)
unfolding add_build_context
mem_build-add_build_context b build bs one =
    rw (add_build_context, one) (mem_build-set_build b build bs)

same_name : (s t : SymbolMeta) → meta_eq s t ≡ true → s.name ≡ t.name
unfolding meta_eq
same_name s t h = (text_eq_iff s.name t.name).0 (ground arith)

-- A name is there after a symbol is added if it was there before, or is the symbol's.
pub has-add_symbol :
    (h : History) (sm : SymbolMeta) (v : Text) (build : BuildContext) (w n : Text)
    (b : BuildContext)
    → build_eq build build_context_all ≡ false
    → has (add_symbol h sm v build) w n b
      ≡ ((text_eq v w && text_eq sm.name n && build_eq b build) || has h w n b)
unfolding has add_symbol mem_build
has-add_symbol [] sm v build w n b one = ground (arith, mem_build-add_build_context b build [] one)
has-add_symbol (row ∷ h) sm v build w n b one = elim (Bool-cases (is_row sm v row)) [
  | inr other ↦ rw (add_symbol, other) (ground (arith, has-add_symbol h sm v build w n b one))
  | inl same ↦
      (let version : text_eq row.version w ≡ text_eq v w =
          ap (λ x. text_eq x w) ((text_eq_iff row.version v).0 (ground arith)) in
        let name : text_eq row.symbol.name n ≡ text_eq sm.name n =
          ap (λ x. text_eq x n) (same_name row.symbol sm (ground arith)) in
        rw (add_symbol, same)
          (ground (arith, version, name, mem_build-add_build_context b build row.builds one)))
]
