-- ===== src/Lru/Evicts.antt =====
-- `Put`: what is stored, and what is evicted when the cache is full.
use mathlib.Core.Logic.{ite}
use pkgsite.Prelude.{
  ℕ, ◌+◌, ◌<◌, List, [], ◌∷◌, none, some, ◌≡◌, ◌≢◌, ◌⊎◌, inl, inr, refl, arith, length, Bool-cases,
  Option-cases, ◌==◌,
}
use pkgsite.Lru.{
  Entry, Cache, uint_mod, max_uint, next_tick, find, store, delete, oldest_from, make_room, put,
}
use pkgsite.Lru.Valid.{
  UsedBy, IsValid, NoneBefore, AllAbove, UsedBy-mono, find-store, store-Unique, store-UsedBy,
  length-store, find-delete, delete-Unique, delete-UsedBy, length-delete, oldest_from-Oldest,
}

module _ {ℓ} {K V : Type ℓ} (dec : Discrete K) (c : Cache K V) where
  -- The entries are those of the cache less the one of `victim`, an oldest entry.
  abbrev pub Evicted : List (Entry K V) → Type ℓ
  Evicted es =
      (victim : K) × (e : Entry K V) × (find dec victim c.entries ≡ some e)
      × NoneBefore dec e.last_used c.entries
      × (es ≡ delete dec victim c.entries)

  -- What `make_room` leaves.
  abbrev pub Room : K → List (Entry K V) → Type ℓ
  Room k es =
      (((find dec k c.entries ≢ none) ⊎ (length c.entries < c.size)) × (es ≡ c.entries))
      ⊎ (((find dec k c.entries ≡ none) × (length c.entries ≡ c.size)) × Evicted es)

  abbrev pub stored : K → V → Entry K V
  stored k v = record { key = k; last_used = c.tick + 1; value = v }

  -- What `Put` leaves to be read at q.
  abbrev pub AfterPut : K → V → Cache K V → Type ℓ
  AfterPut k v c' =
      ((((find dec k c.entries ≢ none) ⊎ (length c.entries < c.size))
          × ((q : K)
              → find dec q c'.entries ≡ ite (dec k q) (some (stored k v)) (find dec q c.entries)))
        ⊎ ((find dec k c.entries ≡ none)
            × (length c.entries ≡ c.size)
            × ((victim : K) × (e : Entry K V) × (find dec victim c.entries ≡ some e)
                × NoneBefore dec e.last_used c.entries
                × ((q : K)
                    → find dec q c'.entries
                      ≡ ite (dec k q) (some (stored k v))
                          (ite (dec victim q) none (find dec q c.entries))))))

module _ {ℓ} {K V : Type ℓ} (dec : Discrete K) (c : Cache K V) (valid : IsValid dec c)
    (no_wrap : c.tick + 1 < uint_mod) where
  none_above : (t : ℕ) (es : List (Entry K V)) → UsedBy dec t es → AllAbove dec t es → es ≡ []
  none_above t [] u a = refl
  none_above t (e ∷ es) u a = absurd (omega (arith, u.0, a.0))

  full-Evicted :
      (zero_key : K)
      → length c.entries ≡ c.size
      → Evicted dec c (delete dec (oldest_from dec max_uint zero_key c.entries) c.entries)
  full-Evicted zero_key full =
      elim (oldest_from-Oldest dec max_uint zero_key c.entries valid.unique) [
        | inl (same, above) ↦ absurd (
            ground (
              arith,
              none_above max_uint c.entries
                  (UsedBy-mono dec c.tick max_uint c.entries (omega arith) valid.used) above,
              valid.positive,
              full,
            ))
        | inr (e, found, key, older, least) ↦ (_, e, found, least, refl)
      ]

  pub make_room-Room :
      (zero_key k : K)
      → (es : List (Entry K V)) × (make_room dec zero_key c k ≡ some es) × Room dec c k es
  unfolding make_room
  make_room-Room zero_key k = elim (Option-cases (find dec k c.entries)) [
    | inl miss ↦ elim (Bool-cases (length c.entries == c.size)) [
      | inl full ↦ (
        _,
        ground (arith, miss, full, valid.bounded, valid.positive),
        inr ((miss, ground arith), full-Evicted zero_key (ground arith)),
      )
      | inr room ↦ (
        _,
        ground (arith, miss, room, valid.bounded, valid.positive),
        inl (inr (ground (arith, valid.bounded)), refl),
      )
    ]
    | inr (e, hit) ↦ (c.entries, ground (arith, hit), inl (inl (ground (arith, hit)), refl))
  ]

  put_reads :
      (zero_key k : K) (v : V) (es : List (Entry K V))
      → Room dec c k es
      → AfterPut dec c k v
          (record c { entries = store dec (stored dec c k v) es; tick = c.tick + 1 })
  put_reads zero_key k v es (inl (room, same)) =
      inl (room, λ q. rw same (find-store dec (stored dec c k v) q c.entries))
  put_reads zero_key k v es (inr ((miss, full), (victim, e, found, least, same))) = inr (
    miss,
    full,
    (
      victim,
      e,
      found,
      least,
      λ q.
          rw
            (
              same,
              find-store dec (stored dec c k v) q (delete dec victim c.entries),
              find-delete dec victim q c.entries valid.unique,
            )
            refl,
    ),
  )

  pub put-keeps :
      (k : K) (v : V) (es : List (Entry K V))
      → Room dec c k es
      → IsValid dec (record c { entries = store dec (stored dec c k v) es; tick = c.tick + 1 })
  put-keeps k v es (inl (room, same)) = rw same (record {
    positive = valid.positive;
    bounded = ground (arith, length-store dec (stored dec c k v) c.entries, valid.bounded);
    unique = store-Unique dec (stored dec c k v) c.entries valid.unique;
    used =
        store-UsedBy dec (c.tick + 1) (stored dec c k v) c.entries (omega arith)
          (UsedBy-mono dec c.tick (c.tick + 1) c.entries (omega arith) valid.used);
  })
  put-keeps k v es (inr ((miss, full), (victim, e, found, least, same))) =
      let fewer : List (Entry K V) = delete dec victim c.entries in
      rw same (record {
        positive = valid.positive;
        bounded = ground (
          arith,
          length-store dec (stored dec c k v) fewer,
          length-delete dec victim c.entries,
          valid.bounded,
        );
        unique =
            store-Unique dec (stored dec c k v) fewer
              (delete-Unique dec victim c.entries valid.unique);
        used = store-UsedBy dec (c.tick + 1) (stored dec c k v) fewer (omega arith) (
            delete-UsedBy dec (c.tick + 1) victim c.entries
              (UsedBy-mono dec c.tick (c.tick + 1) c.entries (omega arith) valid.used));
      })

  -- `Put` on a valid cache whose tick does not wrap never panics, and leaves a valid cache of the
  -- same size, in which the key has the value. If the key was there or there was room, all other
  -- keys keep what they had. Else one entry that no other entry is older than is gone, and all
  -- others are kept.
  pub put_lem :
      (zero_key k : K) (v : V)
      → (c' : Cache K V) × (put dec zero_key c k v ≡ some c')
        × IsValid dec c'
        × (c'.size ≡ c.size)
        × AfterPut dec c k v c'
  unfolding put
  put_lem zero_key k v =
      let (es, made, room) = make_room-Room zero_key k in
      let wraps : next_tick c ≡ c.tick + 1 = omega arith in
      (_, rw (put, made, wraps) refl, put-keeps k v es room, refl, put_reads zero_key k v es room)
