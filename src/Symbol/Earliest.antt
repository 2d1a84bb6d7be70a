-- ===== src/Symbol/Earliest.antt =====
-- The versions of a history are in order, so that a symbol's first version is its earliest one.
use pkgsite.Prelude.{
  true, false, ◌||◌, List, [], ◌∷◌, Text, some, Ordering, text_eq, text_eq_iff, text_eq_refl, ◌≡◌,
  ◌≢◌, refl, sym, ap, ◌∙◌, arith, Bool-cases, inl, inr, All,
}
use pkgsite.Semver.{Semver, is_lt, IsOrdered, flip}
use pkgsite.Stdlib.{mem_text}
use pkgsite.Symbol.{
  BuildContext, History, has, keys, insert_version, sort_versions, versions, introduced_history,
}
use pkgsite.Symbol.First.{Single, is_version, introduced_history-first}
use pkgsite.Symbol.Notes.{first_version}

mem_text-keys :
    (h : History) (v n : Text) (b : BuildContext) → has h v n b ≡ true → mem_text v (keys h) ≡ true
unfolding has keys mem_text
mem_text-keys [] v n b e = cc
mem_text-keys (row ∷ h) v n b e = elim (Bool-cases (mem_text row.version (keys h))) [
  | inr d ↦ rw (keys, d) (ground (arith, mem_text-keys h v n b))
  | inl y ↦
      rw (keys, y)
        (elim (Bool-cases (text_eq row.version v)) [
          | inl same ↦ ap (λ x. mem_text x (keys h)) (sym ((text_eq_iff row.version v).0 same)) ∙ y
          | inr d ↦ mem_text-keys h v n b (ground arith)
        ])
]

module _ (semver : Semver) where
  mem_text-insert_version :
      (t v : Text) (vs : List Text)
      → mem_text t (insert_version semver v vs) ≡ (text_eq v t || mem_text t vs)
  unfolding insert_version mem_text
  mem_text-insert_version t v [] = refl
  mem_text-insert_version t v (w ∷ vs) = ground (arith, mem_text-insert_version t v vs)

  mem_text-sort_versions :
      (t : Text) (vs : List Text) → mem_text t (sort_versions semver vs) ≡ mem_text t vs
  unfolding sort_versions mem_text
  mem_text-sort_versions t [] = refl
  mem_text-sort_versions t (v ∷ vs) =
      mem_text-insert_version t v (sort_versions semver vs)
      ∙ ap (λ x. text_eq v t || x) (mem_text-sort_versions t vs)

  abbrev NotAfter : Text → List Text → Type 0
  NotAfter v ws = All (λ w. semver.cmp v w ≢ Ordering.gt) ws

  abbrev InOrder : List Text → Type 0
  InOrder [] = Unit
  InOrder (v ∷ vs) = NotAfter v vs × InOrder vs

  module _ (ordered : IsOrdered semver) where
    NotAfter-mono :
        (u v : Text) (ws : List Text) → semver.cmp u v ≢ Ordering.gt → NotAfter v ws → NotAfter u ws
    NotAfter-mono u v [] h a = tt
    NotAfter-mono u v (w ∷ ws) h (x, a) = (ordered.cmp_trans u v w h x, NotAfter-mono u v ws h a)

    NotAfter-insert_version :
        (u v : Text) (ws : List Text)
        → semver.cmp u v ≢ Ordering.gt
        → NotAfter u ws
        → NotAfter u (insert_version semver v ws)
    unfolding insert_version
    NotAfter-insert_version u v [] h a = (h, tt)
    NotAfter-insert_version u v (w ∷ ws) h (x, a) = elim (Bool-cases (is_lt (semver.cmp w v))) [
      | inl y ↦ rw (insert_version, y) (x, NotAfter-insert_version u v ws h a)
      | inr d ↦ rw (insert_version, d) (h, (x, a))
    ]

    lt-not_gt : (o : Ordering) → is_lt o ≡ true → o ≢ Ordering.gt
    lt-not_gt Ordering.lt h = λ e. cc
    lt-not_gt Ordering.eq h = cc
    lt-not_gt Ordering.gt h = cc

    flip-not_gt : (o : Ordering) → is_lt o ≡ false → flip o ≢ Ordering.gt
    flip-not_gt Ordering.lt h = cc
    flip-not_gt Ordering.eq h = λ e. cc
    flip-not_gt Ordering.gt h = λ e. cc

    flip-not_lt : (o : Ordering) → o ≢ Ordering.gt → flip o ≢ Ordering.lt
    flip-not_lt Ordering.lt h = λ e. cc
    flip-not_lt Ordering.eq h = λ e. cc
    flip-not_lt Ordering.gt h = absurd (h refl)

    insert_version-InOrder :
        (v : Text) (vs : List Text) → InOrder vs → InOrder (insert_version semver v vs)
    unfolding insert_version
    insert_version-InOrder v [] o = (tt, tt)
    insert_version-InOrder v (w ∷ vs) (a, o) = elim (Bool-cases (is_lt (semver.cmp w v))) [
      | inl y ↦
          rw (insert_version, y)
            (
              NotAfter-insert_version w v vs (lt-not_gt (semver.cmp w v) y) a,
              insert_version-InOrder v vs o,
            )
      | inr d ↦
          (let before : semver.cmp v w ≢ Ordering.gt =
              rw (ordered.cmp_swap w v) (flip-not_gt (semver.cmp w v) d) in
            rw (insert_version, d) ((before, NotAfter-mono v w vs before a), (a, o)))
    ]

    sort_versions-InOrder : (vs : List Text) → InOrder (sort_versions semver vs)
    unfolding sort_versions
    sort_versions-InOrder [] = tt
    sort_versions-InOrder (v ∷ vs) =
        insert_version-InOrder v (sort_versions semver vs) (sort_versions-InOrder vs)

    NotAfter-mem :
        (u w : Text) (vs : List Text)
        → NotAfter u vs
        → mem_text w vs ≡ true
        → semver.cmp u w ≢ Ordering.gt
    unfolding mem_text
    NotAfter-mem u w [] a m = cc
    NotAfter-mem u w (v ∷ vs) (x, a) m = elim (Bool-cases (text_eq v w)) [
      | inl y ↦ rw (← (text_eq_iff v w).0 y) x
      | inr d ↦ NotAfter-mem u w vs a (ground arith)
    ]

    -- The head of versions in order is not after any of them.
    head_first :
        (u w : Text) (vs : List Text)
        → NotAfter u vs
        → (text_eq u w || mem_text w vs) ≡ true
        → semver.cmp w u ≢ Ordering.lt
    head_first u w vs a m = elim (Bool-cases (text_eq u w)) [
      | inl y ↦ rw (← (text_eq_iff u w).0 y) (irreflexive (semver.cmp u u) (ordered.cmp_swap u u))
      | inr d ↦
          rw (ordered.cmp_swap u w)
            (flip-not_lt (semver.cmp u w) (NotAfter-mem u w vs a (ground arith)))
    ]
      where
        irreflexive : (o : Ordering) → o ≡ flip o → o ≢ Ordering.lt
        irreflexive Ordering.lt e = cc
        irreflexive Ordering.eq e = λ f. cc
        irreflexive Ordering.gt e = cc

    first_version-earliest :
        (h : History) (n : Text) (b : BuildContext) (vs : List Text) (v w : Text)
        → InOrder vs
        → first_version h n b vs ≡ some v
        → mem_text w vs ≡ true
        → has h w n b ≡ true
        → semver.cmp w v ≢ Ordering.lt
    unfolding mem_text
    first_version-earliest h n b [] v w o e m here = cc
    first_version-earliest h n b (u ∷ vs) v w (a, o) e m here = elim (Bool-cases (has h u n b)) [
      | inl y ↦
          (let found : some u ≡ some v = sym (rw y refl) ∙ e in
            let same : u ≡ v = cc in rw (← same) (head_first u w vs a m))
      | inr d ↦ elim (Bool-cases (text_eq u w)) [
        | inl y ↦ (let clash : has h w n b ≡ false = rw ((text_eq_iff u w).0 y) at d in cc)
        | inr other ↦
            first_version-earliest h n b vs v w o (sym (rw d refl) ∙ e) (ground arith) here
      ]
    ]

    first_version-some :
        (h : History) (n : Text) (b : BuildContext) (vs : List Text) (w : Text)
        → mem_text w vs ≡ true
        → has h w n b ≡ true
        → (v : Text) × (first_version h n b vs ≡ some v)
    unfolding mem_text
    first_version-some h n b [] w m here = cc
    first_version-some h n b (u ∷ vs) w m here = elim (Bool-cases (has h u n b)) [
      | inl y ↦ (u, rw y refl)
      | inr d ↦ elim (Bool-cases (text_eq u w)) [
        | inl y ↦ (let clash : has h w n b ≡ false = rw ((text_eq_iff u w).0 y) at d in cc)
        | inr other ↦
            (let (v, e) = first_version-some h n b vs w (ground arith) here in (v, rw d e))
      ]
    ]

    -- In a history that lists no symbol for all/all, with versions ordered as semver.Compare orders
    -- them: where a version has a name for a build, the name is introduced for that build, at a
    -- version that it is not before.
    pub introduced_history-earliest :
        (h r : History) (w n : Text) (b : BuildContext)
        → Single h
        → introduced_history semver h ≡ some r
        → has h w n b ≡ true
        → (v : Text) × (has r v n b ≡ true) × (semver.cmp w v ≢ Ordering.lt)
    unfolding versions
    introduced_history-earliest h r w n b s e here =
        let vs = versions semver h in
        let (q, added, all) = introduced_history-first semver h s in
        let same : some q ≡ some r = sym added ∙ e in
        let q=r : q ≡ r = cc in
        let m : mem_text w vs ≡ true =
          mem_text-sort_versions w (keys h) ∙ mem_text-keys h w n b here in
        let (v, found) = first_version-some h n b vs w m here in
        (
          v,
          ap (λ x. has x v n b) (sym q=r)
              ∙ all v n b
              ∙ ap (λ o. is_version o v) found
              ∙ text_eq_refl v,
          first_version-earliest h n b vs v w (sort_versions-InOrder (keys h)) found m here,
        )
