-- ===== src/Symbol/Notes.antt =====
-- The first part of `IntroducedHistory`: what is noted for each build and name.
use pkgsite.Prelude.{
  Bool, true, false, ◌||◌, ◌&&◌, List, [], ◌∷◌, Text, Option, none, some, text_eq, text_eq_iff,
  if◌then◌else◌, ◌≡◌, refl, sym, ap, ◌∙◌, arith, Bool-cases, Option-cases, inl, inr,
}
use pkgsite.Symbol.{
  BuildContext, build_eq, Row, History, mem_build, build_contexts, Noted, noted_version, note,
  note_builds, note_version, note_versions, has,
}
use pkgsite.Symbol.Added.{build_eq_sound, mem_build-build_contexts}

abbrev pub or_else : Option Text → Option Text → Option Text
or_else none y = y
or_else (some x) y = some x

abbrev when : Bool → Text → Option Text
when b v = if b then some v else none

or_else_assoc : (x y z : Option Text) → or_else (or_else x y) z ≡ or_else x (or_else y z)
or_else_assoc none y z = refl
or_else_assoc (some x) y z = refl

or_else-none : (x : Option Text) → or_else x none ≡ x
or_else-none none = refl
or_else-none (some x) = refl

or_else-when : (b c : Bool) (v : Text) → or_else (when b v) (when c v) ≡ when (b || c) v
or_else-when true c v = refl
or_else-when false c v = refl

-- A version is noted once for each build and name.
abbrev pub keyed : BuildContext → Text → BuildContext → Text → Bool
keyed b n build name = build_eq b build && text_eq name n

pub noted_version-keyed :
    (es : List Noted) (b build : BuildContext) (n name : Text)
    → keyed b n build name ≡ true
    → noted_version es b n ≡ noted_version es build name
noted_version-keyed es b build n name h =
    ap (λ x. noted_version es x n) (build_eq_sound b build (ground arith))
    ∙ ap (noted_version es build) (sym ((text_eq_iff name n).0 (ground arith)))

noted_version-note :
    (es : List Noted) (v name : Text) (build b : BuildContext) (n : Text)
    → noted_version (note es v name build) b n
      ≡ or_else (noted_version es b n) (when (keyed b n build name) v)
unfolding note noted_version
noted_version-note es v name build b n = elim (Bool-cases (keyed b n build name)) [
  | inl y ↦
      (let same = noted_version-keyed es b build n name y in
        elim (Option-cases (noted_version es build name)) [
          | inl e ↦ rw (note, e, noted_version, y, same ∙ e) refl
          | inr (w, e) ↦ rw (note, e, same ∙ e) refl
        ])
  | inr d ↦ elim (Option-cases (noted_version es build name)) [
    | inl e ↦ rw (note, e, noted_version, d) (sym (or_else-none (noted_version es b n)))
    | inr (w, e) ↦ rw (note, e, d) (sym (or_else-none (noted_version es b n)))
  ]
]

noted_version-note_builds :
    (es : List Noted) (v name : Text) (bs : List BuildContext) (b : BuildContext) (n : Text)
    → noted_version (note_builds es v name bs) b n
      ≡ or_else (noted_version es b n) (when (mem_build b bs && text_eq name n) v)
unfolding note_builds mem_build
noted_version-note_builds es v name [] b n = sym (or_else-none (noted_version es b n))
noted_version-note_builds es v name (c ∷ bs) b n =
    noted_version-note_builds (note es v name c) v name bs b n
    ∙ ap (λ x. or_else x (when (mem_build b bs && text_eq name n) v))
        (noted_version-note es v name c b n)
    ∙ or_else_assoc (noted_version es b n) _ _
    ∙ ap (or_else (noted_version es b n))
        (or_else-when (keyed b n c name) (mem_build b bs && text_eq name n) v)
    ∙ ap (λ x. or_else (noted_version es b n) (when x v))
        (factor (build_eq b c) (mem_build b bs) (text_eq name n))
  where
    factor : (x y z : Bool) → ((x && z) || (y && z)) ≡ ((x || y) && z)
    factor true true true = refl
    factor true true false = refl
    factor true false true = refl
    factor true false false = refl
    factor false y z = refl

abbrev row_notes : Bool → List Noted → Text → Row → List Noted
row_notes c es v row =
    if c then note_builds es v row.symbol.name (build_contexts row.builds) else es

noted_version-row :
    (c : Bool) (es : List Noted) (v : Text) (row : Row) (b : BuildContext) (n : Text)
    → noted_version (row_notes c es v row) b n
      ≡ or_else
          (noted_version es b n)
          (when (c && text_eq row.symbol.name n && mem_build b row.builds) v)
noted_version-row false es v row b n = sym (or_else-none (noted_version es b n))
noted_version-row true es v row b n =
    noted_version-note_builds es v row.symbol.name (build_contexts row.builds) b n
    ∙ ap (λ x. or_else (noted_version es b n) (when (x && text_eq row.symbol.name n) v))
        (mem_build-build_contexts b row.builds)
    ∙ ap (λ x. or_else (noted_version es b n) (when x v))
        (and_comm (mem_build b row.builds) (text_eq row.symbol.name n))
  where
    and_comm : (x y : Bool) → (x && y) ≡ (y && x)
    and_comm true true = refl
    and_comm true false = refl
    and_comm false true = refl
    and_comm false false = refl

noted_version-note_version :
    (es : List Noted) (v : Text) (h : History) (b : BuildContext) (n : Text)
    → noted_version (note_version es v h) b n
      ≡ or_else (noted_version es b n) (when (has h v n b) v)
unfolding note_version has
noted_version-note_version es v [] b n = sym (or_else-none (noted_version es b n))
noted_version-note_version es v (row ∷ h) b n =
    noted_version-note_version (row_notes (text_eq row.version v) es v row) v h b n
    ∙ ap (λ x. or_else x (when (has h v n b) v))
        (noted_version-row (text_eq row.version v) es v row b n)
    ∙ or_else_assoc (noted_version es b n) _ _
    ∙ ap (or_else (noted_version es b n)) (or_else-when _ (has h v n b) v)

-- The first of the versions that has the name for the build.
abbrev pub first_version : History → Text → BuildContext → List Text → Option Text
first_version h n b [] = none
first_version h n b (v ∷ vs) = if has h v n b then some v else first_version h n b vs

pub noted_version-note_versions :
    (es : List Noted) (h : History) (vs : List Text) (b : BuildContext) (n : Text)
    → noted_version (note_versions es h vs) b n
      ≡ or_else (noted_version es b n) (first_version h n b vs)
unfolding note_versions
noted_version-note_versions es h [] b n = sym (or_else-none (noted_version es b n))
noted_version-note_versions es h (v ∷ vs) b n =
    noted_version-note_versions (note_version es v h) h vs b n
    ∙ ap (λ x. or_else x (first_version h n b vs)) (noted_version-note_version es v h b n)
    ∙ or_else_assoc (noted_version es b n) _ _
    ∙ ap (or_else (noted_version es b n)) (or_else_if (has h v n b))
  where
    or_else_if :
        (c : Bool)
        → or_else (when c v) (first_version h n b vs)
          ≡ (if c then some v else first_version h n b vs)
    or_else_if true = refl
    or_else_if false = refl

-- Each build and name is noted once.
abbrev pub Unique : List Noted → Type 0
Unique [] = Unit
Unique (e ∷ es) = (noted_version es e.build e.name ≡ none) × Unique es

note-Unique :
    (es : List Noted) (v name : Text) (build : BuildContext)
    → Unique es
    → Unique (note es v name build)
unfolding note
note-Unique es v name build u = elim (Option-cases (noted_version es build name)) [
  | inl e ↦ rw (note, e) (e, u)
  | inr (w, e) ↦ rw (note, e) u
]

note_builds-Unique :
    (es : List Noted) (v name : Text) (bs : List BuildContext)
    → Unique es
    → Unique (note_builds es v name bs)
unfolding note_builds
note_builds-Unique es v name [] u = u
note_builds-Unique es v name (b ∷ bs) u =
    note_builds-Unique (note es v name b) v name bs (note-Unique es v name b u)

note_version-Unique :
    (es : List Noted) (v : Text) (h : History) → Unique es → Unique (note_version es v h)
unfolding note_version
note_version-Unique es v [] u = u
note_version-Unique es v (row ∷ h) u =
    note_version-Unique (row_notes (text_eq row.version v) es v row) v h
      (row-Unique (text_eq row.version v))
  where
    row-Unique : (c : Bool) → Unique (row_notes c es v row)
    row-Unique true = note_builds-Unique es v row.symbol.name (build_contexts row.builds) u
    row-Unique false = u

pub note_versions-Unique :
    (es : List Noted) (h : History) (vs : List Text) → Unique es → Unique (note_versions es h vs)
unfolding note_versions
note_versions-Unique es h [] u = u
note_versions-Unique es h (v ∷ vs) u =
    note_versions-Unique (note_version es v h) h vs (note_version-Unique es v h u)
