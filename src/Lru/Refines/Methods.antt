-- ===== src/Lru/Refines/Methods.antt =====
-- The cache implements the list of items in the order of their use.
use mathlib.Core.Logic.{ite}
use mathlib.Core.Path.{subst}
use pkgsite.Prelude.{
  ◌+◌, ◌<◌, List, ◌∷◌, none, some, ◌≡◌, ◌≢◌, ◌⊎◌, inl, inr, refl, sym, ap, ◌∙◌, arith, length, map,
  Option-cases,
}
use pkgsite.Lru.{Entry, Cache, uint_mod, next_tick, find, store, delete, get, put}
use pkgsite.Lru.Evicts.{Room, stored, make_room-Room, put-keeps}
use pkgsite.Lru.Reads.{get-IsValid, find_key}
use pkgsite.Lru.Recency.{
  lookup, without, but_last, touch, record_use, item, Holds, length-map-item, map-but_last,
  delete-Descending,
}
use pkgsite.Lru.Refines.{
  NoneBefore-find, delete-last, count-store, touch-missing, touch-found, record_use-found,
  record_use-room, record_use-full, lookup-but_last, without-missing, lookup_lem, Holds-front,
}
use pkgsite.Lru.Valid.{
  NoneBefore, find-store, find-delete, delete-Unique, delete-UsedBy, length-delete,
}

module _ {ℓ} {K V : Type ℓ} (dec : Discrete K) where
  length-items :
      (c : Cache K V) (xs : List (K × V)) (holds : Holds dec c xs) → length xs ≡ length c.entries
  length-items c xs holds =
      ap length (sym holds.items) ∙ length-map-item dec holds.order ∙ sym holds.count

  -- Without its oldest entry, a cache holds all items but the last.
  evicted-Holds :
      (c : Cache K V) (xs : List (K × V)) (holds : Holds dec c xs) (victim : K) (e : Entry K V)
      → find dec victim c.entries ≡ some e
      → NoneBefore dec e.last_used c.entries
      → Holds dec (record c { entries = delete dec victim c.entries }) (but_last xs)
  evicted-Holds c xs holds victim e found least =
      let there : find dec victim holds.order ≡ some e = sym (holds.same victim) ∙ found in
      let fewer : length (delete dec victim c.entries) + 1 ≡ length c.entries =
        length-delete dec victim c.entries λ m. (let clash = sym m ∙ found in cc) in
      let fewer_ordered : length (delete dec victim holds.order) + 1 ≡ length holds.order =
        length-delete dec victim holds.order λ m. (let clash = sym m ∙ there in cc) in
      record {
        valid = record {
          positive = holds.valid.positive;
          bounded = omega (arith, fewer, holds.valid.bounded);
          unique = delete-Unique dec victim c.entries holds.valid.unique;
          used = delete-UsedBy dec c.tick victim c.entries holds.valid.used;
        };
        order = delete dec victim holds.order;
        descending = delete-Descending dec victim holds.order holds.descending;
        unique = delete-Unique dec victim holds.order holds.unique;
        same = λ q.
            find-delete dec victim q c.entries holds.valid.unique
            ∙ ap (ite (dec victim q) none) (holds.same q)
            ∙ sym (find-delete dec victim q holds.order holds.unique);
        count = omega (arith, fewer, fewer_ordered, holds.count);
        items =
            ap (map (item dec)) (
              delete-last dec victim e holds.order holds.descending holds.unique there
                λ q f h. NoneBefore-find dec e.last_used q f c.entries least (holds.same q ∙ h))
            ∙ map-but_last dec holds.order
            ∙ ap but_last holds.items;
      }

  module _ (c : Cache K V) (xs : List (K × V)) (holds : Holds dec c xs)
      (no_wrap : c.tick + 1 < uint_mod) where
    -- `Get` refines the reading of a list of items in the order of their use: it returns what the
    -- list has for the key, and its cache holds the list with that key moved to the front. The cache
    -- holds the list before, and the tick does not wrap.
    pub get-Holds :
        (k : K) → ((get dec c k).0 ≡ lookup dec k xs) × Holds dec (get dec c k).1 (touch dec k xs)
    unfolding get
    get-Holds k = elim (Option-cases (find dec k c.entries)) [
      | inl miss ↦
          (let missing : lookup dec k xs ≡ none = rw miss at (lookup_lem dec c xs holds k) in
            rw (get, miss, missing, touch-missing dec k xs missing) (refl, holds))
      | inr (e, hit) ↦
          (let key : e.key ≡ k = find_key dec c holds.valid no_wrap k e c.entries hit in
            let wraps : next_tick c ≡ c.tick + 1 = omega arith in
            let touched : Entry K V = record e { last_used = c.tick + 1 } in
            let there : lookup dec k xs ≡ some e.value = rw hit at (lookup_lem dec c xs holds k) in
            let valid = rw (get, hit, wraps) at (get-IsValid dec c holds.valid no_wrap k) in
            let front =
              Holds-front dec c xs holds touched (store dec touched c.entries) refl valid
                (λ q. find-store dec touched q c.entries)
                (count-store dec touched c.entries holds.order (holds.same e.key) holds.count) in
            rw (get, hit, wraps, there, touch-found dec k xs e.value there)
              (
                refl,
                subst
                    (λ y.
                      Holds dec
                        (record c {
                          entries = store dec (record e { last_used = c.tick + 1 }) c.entries;
                          tick = c.tick + 1;
                        })
                        ((y, e.value) ∷ without dec y xs))
                    key front,
              ))
    ]

    -- `Put` refines the same list: it never panics, and its cache holds the list with the key and its
    -- value in front, without what the key had before. If the key is new and the list full, the
    -- last item is gone, the one used least recently. The cache holds the list before, and the tick
    -- does not wrap.
    pub put-Holds :
        (zero_key k : K) (v : V)
        → (c' : Cache K V) × (put dec zero_key c k v ≡ some c')
          × Holds dec c' (record_use dec c.size k v xs)
    unfolding put
    put-Holds zero_key k v =
        let (es, made, room) = make_room-Room dec c holds.valid no_wrap zero_key k in
        let wraps : next_tick c ≡ c.tick + 1 = omega arith in
        (_, rw (put, made, wraps) refl, stores es room)
      where
        abbrev_c : List (Entry K V) → Cache K V
        abbrev_c es = record c { entries = store dec (stored dec c k v) es; tick = c.tick + 1 }

        uses :
            (find dec k c.entries ≢ none) ⊎ (length c.entries < c.size)
            → record_use dec c.size k v xs ≡ (k, v) ∷ without dec k xs
        uses room = elim (Option-cases (find dec k c.entries)) [
          | inl miss ↦
              (let missing : lookup dec k xs ≡ none = rw miss at (lookup_lem dec c xs holds k) in
                let fewer : length c.entries < c.size = elim room [
                  | inl h ↦ absurd (h miss)
                  | inr l ↦ l
                ] in
                record_use-room dec c.size k v xs missing (ground (arith, length-items c xs holds)))
          | inr (e, hit) ↦
              record_use-found dec c.size k v e.value xs (rw hit at (lookup_lem dec c xs holds k))
        ]

        stores :
            (es : List (Entry K V))
            → Room dec c k es
            → Holds dec (abbrev_c es) (record_use dec c.size k v xs)
        stores es (inl (room, same)) =
            rw (same, uses room)
              (Holds-front dec c xs holds (stored dec c k v)
                (store dec (stored dec c k v) c.entries) refl
                (rw same at (put-keeps dec c holds.valid no_wrap k v es (inl (room, same))))
                (λ q. find-store dec (stored dec c k v) q c.entries)
                (count-store dec (stored dec c k v) c.entries holds.order (holds.same k)
                  holds.count))
        stores es (inr ((miss, full), (victim, e, found, least, same))) =
            let smaller : Cache K V = record c { entries = delete dec victim c.entries } in
            let held = evicted-Holds c xs holds victim e found least in
            let missing : lookup dec k xs ≡ none = rw miss at (lookup_lem dec c xs holds k) in
            let fresh : (k, v) ∷ without dec k (but_last xs) ≡ (k, v) ∷ but_last xs =
              ap (λ ys. (k, v) ∷ ys)
                (without-missing dec k (but_last xs) (lookup-but_last dec k xs missing)) in
            rw
              (
                same,
                record_use-full dec c.size k v xs missing (length-items c xs holds ∙ full),
                ← fresh,
              )
              (Holds-front dec smaller (but_last xs) held (stored dec c k v)
                (store dec (stored dec c k v) smaller.entries) refl
                (rw same at (
                  put-keeps dec c holds.valid no_wrap k v es
                    (inr ((miss, full), (victim, e, found, least, same)))))
                (λ q. find-store dec (stored dec c k v) q smaller.entries)
                (count-store dec (stored dec c k v) smaller.entries held.order (held.same k)
                  held.count))
