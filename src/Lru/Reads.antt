-- ===== src/Lru/Reads.antt =====
-- What the methods leave to be read, and that they keep the invariant.
use mathlib.Core.Logic.{ite}
use pkgsite.Prelude.{ℕ, ◌+◌, ◌<◌, List, [], ◌∷◌, none, some, ◌≡◌, inl, inr, arith, Option-cases}
use pkgsite.Lru.{Entry, Cache, uint_mod, next_tick, find, get, new}
use pkgsite.Lru.Valid.{IsValid, UsedBy-mono, find-store, store-Unique, store-UsedBy, length-store}

-- `New` makes a valid cache, with nothing in it.
pub new-IsValid {ℓ} :
    {K V : Type ℓ} (dec : Discrete K) (size : ℕ) {c : Cache K V}
    → new size ≡ some c
    → IsValid dec c × (c.entries ≡ []) × (c.size ≡ size)
unfolding new
new-IsValid dec size e = ground arith

module _ {ℓ} {K V : Type ℓ} (dec : Discrete K) (c : Cache K V) (valid : IsValid dec c)
    (no_wrap : c.tick + 1 < uint_mod) where
  pub find_key :
      (k : K) (e : Entry K V) (es : List (Entry K V)) → find dec k es ≡ some e → e.key ≡ k
  unfolding find
  find_key k e [] h = cc
  find_key k e (f ∷ fs) h = ground (arith, find_key k e fs)

  next_tick_lem : next_tick c ≡ c.tick + 1
  next_tick_lem = omega arith

  -- `Get` keeps a valid cache valid, if the tick does not wrap.
  pub get-IsValid : (k : K) → IsValid dec (get dec c k).1
  unfolding get
  get-IsValid k = elim (Option-cases (find dec k c.entries)) [
    | inl miss ↦ rw (miss, get) valid
    | inr (e, hit) ↦
        let touched : Entry K V = record e { last_used = next_tick c } in
        rw (hit, get)
          (record {
            positive = valid.positive;
            bounded = ground (
              arith,
              length-store dec touched c.entries,
              find_key k e c.entries hit,
              valid.bounded,
            );
            unique = store-Unique dec touched c.entries valid.unique;
            used =
                store-UsedBy dec (next_tick c) touched c.entries (omega arith)
                  (UsedBy-mono dec c.tick (next_tick c) c.entries (omega arith) valid.used);
          })
  ]

  -- `Get` returns the value of the key's entry, if there is one, marks that entry as the one used
  -- last, and changes no other. The cache is valid, and the tick does not wrap.
  pub get_lem :
      (k q : K)
      → ((get dec c k).0 ≡ (elim (find dec k c.entries) [ none ↦ none | some e ↦ some e.value ]))
        × (find dec q (get dec c k).1.entries ≡ (elim (find dec q c.entries) [
          | none ↦ none
          | some e ↦ some (ite (dec k q) (record e { last_used = c.tick + 1 }) e)
        ]))
  unfolding get
  get_lem k q = elim (Option-cases (find dec k c.entries)) [
    | inl miss ↦ ground (arith, miss, find_key q)
    | inr (e, hit) ↦
        let touched : Entry K V = record e { last_used = next_tick c } in
        ground (
          arith,
          hit,
          next_tick_lem,
          find_key k e c.entries hit,
          find-store dec touched q c.entries,
        )
  ]
