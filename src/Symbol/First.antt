-- ===== src/Symbol/First.antt =====
-- `IntroducedHistory` keeps each symbol at the first version that has it, for each build.
use pkgsite.Prelude.{
  Bool, true, false, ◌||◌, ◌&&◌, List, [], ◌∷◌, Text, Option, none, some, text_eq, text_eq_iff,
  text_eq_refl, ◌≡◌, refl, sym, ap, ◌∙◌, arith, Bool-cases, inl, inr, All,
}
use pkgsite.Semver.{Semver}
use pkgsite.Symbol.{
  BuildContext, build_context_all, build_eq, SymbolMeta, History, mem_build, supports_build, Noted,
  noted_version, note_versions, has, get_symbol, add_symbol, add_noted, versions,
  introduced_history,
}
use pkgsite.Symbol.Added.{build_eq_sound, build_eq_refl, has-add_symbol}
use pkgsite.Symbol.Notes.{
  keyed, noted_version-keyed, Unique, note_versions-Unique, first_version,
  noted_version-note_versions,
}

-- A build that is in the set is supported, all/all by any build of the set.
mem_build-supports :
    (b : BuildContext) (bs : List BuildContext) → mem_build b bs ≡ true → supports_build bs b ≡ true
unfolding supports_build mem_build
mem_build-supports b [] h = cc
mem_build-supports b (c ∷ bs) h = ground arith

get_symbol-has :
    (h : History) (v n : Text) (b : BuildContext)
    → has h v n b ≡ true
    → (sm : SymbolMeta) × (get_symbol h n v b ≡ some sm) × (sm.name ≡ n)
unfolding get_symbol has
get_symbol-has [] v n b e = cc
get_symbol-has (row ∷ h) v n b e =
    elim (Bool-cases
      (text_eq row.version v && text_eq row.symbol.name n && supports_build row.builds b)) [
        | inl y ↦
            (row.symbol, rw (get_symbol, y) refl, (text_eq_iff row.symbol.name n).0 (ground arith))
        | inr d ↦
            (let later : has h v n b ≡ true = ground (arith, mem_build-supports b row.builds) in
              let (sm, found, name) = get_symbol-has h v n b later in
              (sm, rw (get_symbol, d) found, name))
      ]

-- Whether a version is noted for a name and a build.
abbrev noted : List Noted → Text → Text → BuildContext → Bool
noted [] v n b = false
noted (e ∷ es) v n b = (text_eq e.version v && keyed b n e.build e.name) || noted es v n b

abbrev pub is_version : Option Text → Text → Bool
is_version none v = false
is_version (some w) v = text_eq w v

noted-Unique :
    (es : List Noted) (v n : Text) (b : BuildContext)
    → Unique es
    → noted es v n b ≡ is_version (noted_version es b n) v
unfolding noted_version
noted-Unique [] v n b u = refl
noted-Unique (e ∷ es) v n b (fresh, u) = elim (Bool-cases (keyed b n e.build e.name)) [
  | inl y ↦
      (let rest : noted es v n b ≡ false =
          noted-Unique es v n b u
          ∙ ap (λ o. is_version o v) (noted_version-keyed es b e.build n e.name y ∙ fresh) in
        rw (noted_version, y, rest) (and_true (text_eq e.version v)))
  | inr d ↦
      rw (noted_version, d)
        (and_false (text_eq e.version v) (noted es v n b) ∙ noted-Unique es v n b u)
]
  where
    and_true : (x : Bool) → ((x && true) || false) ≡ x
    and_true true = refl
    and_true false = refl

    and_false : (x y : Bool) → ((x && false) || y) ≡ y
    and_false true y = refl
    and_false false y = refl

-- Every note is of a version that has the name.
abbrev Sound : History → List Noted → Type 0
Sound h es = All (λ e. has h e.version e.name e.build ≡ true) es

-- No symbol is listed for all/all, which stands for every build.
abbrev pub Single : History → Type 0
Single h = All (λ row. mem_build build_context_all row.builds ≡ false) h

has-Single :
    (h : History) (v n : Text) (b : BuildContext)
    → Single h
    → has h v n b ≡ true
    → build_eq b build_context_all ≡ false
unfolding has
has-Single [] v n b s e = cc
has-Single (row ∷ h) v n b (here, s) e = elim (Bool-cases (build_eq b build_context_all)) [
  | inr d ↦ d
  | inl y ↦
      (let gone : mem_build b row.builds ≡ false =
          ap (λ x. mem_build x row.builds) (build_eq_sound b _ y) ∙ here in
        has-Single h v n b s (ground arith))
]

add_noted_lem :
    (h out : History) (es : List Noted)
    → Single h
    → Sound h es
    → (r : History) × (add_noted h out es ≡ some r)
      × ((v n : Text) (b : BuildContext) → has r v n b ≡ (noted es v n b || has out v n b))
unfolding add_noted
add_noted_lem h out [] s sound = (out, refl, λ v n b. refl)
add_noted_lem h out (e ∷ es) s (here, sound) =
    let (sm, found, name) = get_symbol-has h e.version e.name e.build here in
    let (r, added, all) = add_noted_lem h (add_symbol out sm e.version e.build) es s sound in
    (
      r,
      rw (add_noted, found) added,
      λ v n b.
          (let one = has-Single h e.version e.name e.build s here in
            let same : text_eq sm.name n ≡ text_eq e.name n = ap (λ x. text_eq x n) name in
            ground (arith, all v n b, has-add_symbol out sm e.version e.build v n b one, same)),
    )

first_version-has :
    (h : History) (n : Text) (b : BuildContext) (vs : List Text) (v : Text)
    → first_version h n b vs ≡ some v
    → has h v n b ≡ true
first_version-has h n b [] v e = cc
first_version-has h n b (w ∷ vs) v e = elim (Bool-cases (has h w n b)) [
  | inl y ↦ (let same : some w ≡ some v = sym (rw y refl) ∙ e in let f : w ≡ v = cc in rw (← f) y)
  | inr d ↦ first_version-has h n b vs v (sym (rw d refl) ∙ e)
]

Unique-Sound :
    (h : History) (es : List Noted)
    → Unique es
    → ((b : BuildContext) (n v : Text) → noted_version es b n ≡ some v → has h v n b ≡ true)
    → Sound h es
unfolding noted_version
Unique-Sound h [] u f = tt
Unique-Sound h (e ∷ es) (fresh, u) f = (
  f e.build e.name e.version (rw (noted_version, build_eq_refl e.build, text_eq_refl e.name) refl),
  Unique-Sound h es u λ b n v found. elim (Bool-cases (keyed b n e.build e.name)) [
    | inl y ↦ (let missing = noted_version-keyed es b e.build n e.name y ∙ fresh in cc)
    | inr d ↦ f b n v (rw (noted_version, d) found)
  ],
)

-- In a history that lists no symbol for all/all, `IntroducedHistory` never fails, and its result
-- has a name at a version for a build exactly if that version is the first one, in the order of
-- `Versions`, that has the name for the build.
pub introduced_history-first :
    (semver : Semver) (h : History)
    → Single h
    → (r : History) × (introduced_history semver h ≡ some r)
      × ((v n : Text) (b : BuildContext)
          → has r v n b ≡ is_version (first_version h n b (versions semver h)) v)
unfolding introduced_history has
introduced_history-first semver h s =
    let vs = versions semver h in
    let es = note_versions [] h vs in
    let u : Unique es = note_versions-Unique [] h vs tt in
    let sound : Sound h es = Unique-Sound h es u λ b n v found.
      first_version-has h n b vs v (sym (noted_version-note_versions [] h vs b n) ∙ found) in
    let (r, added, all) = add_noted_lem h [] es s sound in
    (
      r,
      added,
      λ v n b.
          all v n b
          ∙ or_false (noted es v n b)
          ∙ noted-Unique es v n b u
          ∙ ap (λ o. is_version o v) (noted_version-note_versions [] h vs b n),
    )
  where
    or_false : (x : Bool) → (x || false) ≡ x
    or_false true = refl
    or_false false = refl
