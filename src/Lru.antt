-- ===== src/Lru.antt =====
-- internal/lru/lru.go: a cache that evicts the least recently used entry. A panic is `none`; the
-- mutex makes each method one step. Go's map has no order: the entries stand in a list, with one
-- entry for a key, and the loop that looks for the oldest entry reads them in the list's order.
pub mod Valid
pub mod Reads
pub mod Evicts
pub mod Recency
pub mod Refines
use mathlib.Core.Logic.{ite}
use pkgsite.Prelude.{
  ℕ, ◌+◌, ◌-◌, ◌%◌, ◌^◌, List, [], ◌∷◌, Option, none, some, length, ltb, leb, ◌==◌, if◌then◌else◌,
}

pub record Entry {ℓ} (K V : Type ℓ) : Type ℓ where
  pub key : K
  pub last_used : ℕ
  pub value : V

pub record Cache {ℓ} (K V : Type ℓ) : Type ℓ where
  pub size : ℕ
  pub entries : List (Entry K V)
  pub tick : ℕ

-- `tick` is a uint.
abbrev pub uint_mod : ℕ
uint_mod = 2 ^ 64

abbrev pub max_uint : ℕ
max_uint = uint_mod - 1

-- A size that is not positive panics.
unfoldable pub new {ℓ} : {K V : Type ℓ} → ℕ → Option (Cache K V)
new size = if ltb size 1 then none else some (record { size = size; entries = []; tick = 0 })

abbrev pub next_tick {ℓ} : {K V : Type ℓ} → Cache K V → ℕ
next_tick c = (c.tick + 1) % uint_mod

module _ {ℓ} {K V : Type ℓ} (dec : Discrete K) where
  -- `c.entries[k]`.
  unfoldable pub find : K → List (Entry K V) → Option (Entry K V)
  find k [] = none
  find k (e ∷ es) = ite (dec e.key k) (some e) (find k es)

  -- `c.entries[k] = e` for the key k of e.
  unfoldable pub store : Entry K V → List (Entry K V) → List (Entry K V)
  store e [] = e ∷ []
  store e (f ∷ fs) = ite (dec f.key e.key) (e ∷ fs) (f ∷ store e fs)

  -- `delete(c.entries, k)`.
  unfoldable pub delete : K → List (Entry K V) → List (Entry K V)
  delete k [] = []
  delete k (e ∷ es) = ite (dec e.key k) es (e ∷ delete k es)

  -- The loop for the least recently used key: `oldestTick` and `oldestKey`.
  unfoldable pub oldest_from : ℕ → K → List (Entry K V) → K
  oldest_from oldest_tick oldest_key [] = oldest_key
  oldest_from oldest_tick oldest_key (e ∷ es) =
      oldest_from (if leb e.last_used oldest_tick then e.last_used else oldest_tick)
        (if leb e.last_used oldest_tick then e.key else oldest_key) es

  unfoldable pub get : Cache K V → K → Option V × Cache K V
  unfolding find store
  get c k = elim (find k c.entries) [
    | none ↦ (none, c)
    | some e ↦ (
      some e.value,
      record c {
        entries = store (record e { last_used = next_tick c }) c.entries;
        tick = next_tick c;
      },
    )
  ]

  -- `zero_key` is the zero value of the key type, with which the loop begins.
  unfoldable pub make_room : K → Cache K V → K → Option (List (Entry K V))
  unfolding find oldest_from delete
  make_room zero_key c k = elim (find k c.entries) [
    | some e ↦ some c.entries
    | none ↦
        if ltb c.size 1
        then none
        else if ltb c.size (length c.entries)
        then none
        else if length c.entries == c.size
        then some (delete (oldest_from max_uint zero_key c.entries) c.entries)
        else some c.entries
  ]

  unfoldable pub put : K → Cache K V → K → V → Option (Cache K V)
  unfolding make_room store
  put zero_key c k v = elim (make_room zero_key c k) [
    | none ↦ none
    | some es ↦ some (record c {
      entries = store (record { key = k; last_used = next_tick c; value = v }) es;
      tick = next_tick c;
    })
  ]
