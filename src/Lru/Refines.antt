-- ===== src/Lru/Refines.antt =====
-- Lemmas for the refinement of a list of items in the order of their use.
pub mod Methods
use mathlib.Core.Logic.{ite, if_pos, if_neg}
use pkgsite.Prelude.{
  true, false, ℕ, suc, ◌+◌, ◌≤◌, List, [], ◌∷◌, none, some, ◌≡◌, inl, inr, refl, sym, ap, ◌∙◌,
  arith, length, ◌==◌, Option-cases,
}
use pkgsite.Lru.{Entry, Cache, find, store, delete, new}
use pkgsite.Lru.Reads.{new-IsValid}
use pkgsite.Lru.Recency.{
  lookup, without, but_last, touch, record_use, Descending, Holds, lookup-find, without-delete,
  BelowTick, Descending-cons, delete-BelowTick, delete-Descending,
}
use pkgsite.Lru.Valid.{
  Unique, UsedBy, IsValid, NoneBefore, find-delete, delete-Unique, length-store, length-delete,
}

module _ {ℓ} {K V : Type ℓ} (dec : Discrete K) where
  -- All entries that are found were used by the tick.
  pub UsedBy-find :
      (t : ℕ) (k : K) (e : Entry K V) (es : List (Entry K V))
      → UsedBy dec t es
      → find dec k es ≡ some e
      → e.last_used ≤ t
  unfolding find
  UsedBy-find t k e [] u h = cc
  UsedBy-find t k e (f ∷ es) (x, u) h = ground (arith, UsedBy-find t k e es u)

  pub NoneBefore-find :
      (m : ℕ) (k : K) (e : Entry K V) (es : List (Entry K V))
      → NoneBefore dec m es
      → find dec k es ≡ some e
      → m ≤ e.last_used
  unfolding find
  NoneBefore-find m k e [] u h = cc
  NoneBefore-find m k e (f ∷ es) (x, u) h = ground (arith, NoneBefore-find m k e es u)

  find-head : (e : Entry K V) (es : List (Entry K V)) → find dec e.key (e ∷ es) ≡ some e
  unfolding find
  find-head e es = if_pos (dec e.key e.key) refl _ _

  find-tail :
      (q : K) (e f : Entry K V) (es : List (Entry K V))
      → find dec e.key es ≡ none
      → find dec q es ≡ some f
      → find dec q (e ∷ es) ≡ some f
  unfolding find
  find-tail q e f es x h = ground arith

  -- Entries that are found are bounded by what bounds the found ones.
  found-BelowTick :
      (t : ℕ) (es : List (Entry K V))
      → Unique dec es
      → ((q : K) (f : Entry K V) → find dec q es ≡ some f → f.last_used ≤ t)
      → BelowTick dec (t + 1) es
  found-BelowTick t [] w bound = tt
  found-BelowTick t (e ∷ es) (x, w) bound = (
    omega (arith, bound e.key e (find-head e es)),
    found-BelowTick t es w λ q f h. bound q f (find-tail q e f es x h),
  )

  -- An oldest entry is the last one.
  pub delete-last :
      (k : K) (e : Entry K V) (es : List (Entry K V))
      → Descending dec es
      → Unique dec es
      → find dec k es ≡ some e
      → ((q : K) (f : Entry K V) → find dec q es ≡ some f → e.last_used ≤ f.last_used)
      → delete dec k es ≡ but_last es
  unfolding find delete
  delete-last k e [] d u h least = cc
  delete-last k e (x ∷ []) d u h least = ground arith
  delete-last k e (x ∷ y ∷ es) (l, d) (v, u) h least =
      let below = least y.key y (find-tail y.key x y (y ∷ es) v (find-head y es)) in
      elim (dec x.key k) [
        | yes same ↦
            (let head : find dec k (x ∷ y ∷ es) ≡ some x = if_pos (dec x.key k) same _ _ in
              let found : some x ≡ some e = sym head ∙ h in absurd (ground arith))
        | no differ ↦
            (let later : find dec k (y ∷ es) ≡ some e = sym (if_neg (dec x.key k) differ _ _) ∙ h in
              let rest =
                delete-last k e (y ∷ es) d u later
                  λ q f g. least q f (find-tail q x f (y ∷ es) v g) in
              if_neg (dec x.key k) differ _ _ ∙ ap (λ r. x ∷ r) rest)
      ]

  find-front :
      (e : Entry K V) (q : K) (es : List (Entry K V))
      → Unique dec es
      → find dec q (e ∷ delete dec e.key es) ≡ ite (dec e.key q) (some e) (find dec q es)
  unfolding find
  find-front e q es u = ground (arith, find-delete dec e.key q es u)

  delete-missing : (k : K) (es : List (Entry K V)) → find dec k es ≡ none → delete dec k es ≡ es
  unfolding find delete
  delete-missing k [] h = refl
  delete-missing k (e ∷ es) h = ground (arith, delete-missing k es)

  pub without-missing : (k : K) (xs : List (K × V)) → lookup dec k xs ≡ none → without dec k xs ≡ xs
  without-missing k [] h = refl
  without-missing k (x ∷ xs) h = ground (arith, without-missing k xs)

  pub touch-missing : (k : K) (xs : List (K × V)) → lookup dec k xs ≡ none → touch dec k xs ≡ xs
  touch-missing k xs h = rw (touch, h) refl

  pub touch-found :
      (k : K) (xs : List (K × V)) (v : V)
      → lookup dec k xs ≡ some v
      → touch dec k xs ≡ (k, v) ∷ without dec k xs
  touch-found k xs v h = rw (touch, h) refl

  pub record_use-found :
      (capacity : ℕ) (k : K) (v w : V) (xs : List (K × V))
      → lookup dec k xs ≡ some w
      → record_use dec capacity k v xs ≡ (k, v) ∷ without dec k xs
  record_use-found capacity k v w xs h = rw (record_use, h) refl

  pub record_use-room :
      (capacity : ℕ) (k : K) (v : V) (xs : List (K × V))
      → lookup dec k xs ≡ none
      → (length xs == capacity) ≡ false
      → record_use dec capacity k v xs ≡ (k, v) ∷ without dec k xs
  record_use-room capacity k v xs h n =
      rw (record_use, h, n) (ap (λ ys. (k, v) ∷ ys) (sym (without-missing k xs h)))

  pub record_use-full :
      (capacity : ℕ) (k : K) (v : V) (xs : List (K × V))
      → lookup dec k xs ≡ none
      → length xs ≡ capacity
      → record_use dec capacity k v xs ≡ (k, v) ∷ but_last xs
  record_use-full capacity k v xs h full =
      let y : (length xs == capacity) ≡ true = ground arith in rw (record_use, h, y) refl

  pub lookup-but_last :
      (k : K) (xs : List (K × V)) → lookup dec k xs ≡ none → lookup dec k (but_last xs) ≡ none
  lookup-but_last k [] h = refl
  lookup-but_last k (x ∷ []) h = refl
  lookup-but_last k (x ∷ y ∷ xs) h = ground (arith, lookup-but_last k (y ∷ xs))

  pub count-store :
      (e : Entry K V) (cs es : List (Entry K V))
      → find dec e.key cs ≡ find dec e.key es
      → length cs ≡ length es
      → length (store dec e cs) ≡ suc (length (delete dec e.key es))
  count-store e cs es same count = elim (Option-cases (find dec e.key es)) [
    | inl miss ↦
        (let store_grows : length (store dec e cs) ≡ suc (length cs) =
            rw (same ∙ miss) at (length-store dec e cs) in
          omega (arith, store_grows, ap length (delete-missing e.key es miss), count))
    | inr (f, hit) ↦
        (let store_keeps : length (store dec e cs) ≡ length cs =
            rw (same ∙ hit) at (length-store dec e cs) in
          omega (
            arith,
            store_keeps,
            length-delete dec e.key es λ m. (let clash = sym m ∙ hit in cc),
            count,
          ))
  ]

  -- A stored entry in front of the others, without the one that it replaces.
  pub Holds-front :
      (c : Cache K V) (xs : List (K × V)) (holds : Holds dec c xs) (e : Entry K V)
      (cs : List (Entry K V))
      → e.last_used ≡ c.tick + 1
      → IsValid dec (record c { entries = cs; tick = c.tick + 1 })
      → ((q : K) → find dec q cs ≡ ite (dec e.key q) (some e) (find dec q c.entries))
      → length cs ≡ suc (length (delete dec e.key holds.order))
      → Holds dec
          (record c { entries = cs; tick = c.tick + 1 })
          ((e.key, e.value) ∷ without dec e.key xs)
  Holds-front c xs holds e cs now valid reads count =
      let others = delete dec e.key holds.order in
      let below : BelowTick dec (c.tick + 1) holds.order =
        found-BelowTick c.tick holds.order holds.unique
          λ q f h. UsedBy-find c.tick q f c.entries holds.valid.used (holds.same q ∙ h) in
      record {
        valid = valid;
        order = e ∷ others;
        descending =
            Descending-cons dec e others
              (rw now (delete-BelowTick dec (c.tick + 1) e.key holds.order below))
              (delete-Descending dec e.key holds.order holds.descending);
        unique = (
          rw (find-delete dec e.key e.key holds.order holds.unique)
              (if_pos (dec e.key e.key) refl _ _),
          delete-Unique dec e.key holds.order holds.unique,
        );
        same = λ q.
            reads q
            ∙ ap (ite (dec e.key q) (some e)) (holds.same q)
            ∙ sym (find-front e q holds.order holds.unique);
        count = count;
        items =
            ap (λ ys. (e.key, e.value) ∷ ys)
              (without-delete dec e.key holds.order ∙ ap (without dec e.key) holds.items);
      }

  pub lookup_lem :
      (c : Cache K V) (xs : List (K × V)) (holds : Holds dec c xs) (k : K)
      → lookup dec k xs ≡ (elim (find dec k c.entries) [ none ↦ none | some e ↦ some e.value ])
  lookup_lem c xs holds k =
      ap (lookup dec k) (sym holds.items)
      ∙ lookup-find dec k holds.order
      ∙ ap (λ o. elim o [ none ↦ none | some e ↦ some e.value ]) (sym (holds.same k))

-- `New` makes a cache that holds nothing.
pub new-Holds {ℓ} :
    {K V : Type ℓ} (dec : Discrete K) (size : ℕ) {c : Cache K V}
    → new size ≡ some c
    → Holds dec c []
new-Holds dec size {c} e =
    let (valid, none_yet, _) = new-IsValid dec size {c = c} e in
    record {
      valid = valid;
      order = [];
      descending = tt;
      unique = tt;
      same = λ q. ap (find dec q) none_yet;
      count = ap length none_yet;
      items = refl;
    }
