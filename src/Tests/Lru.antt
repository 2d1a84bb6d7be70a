-- ===== src/Tests/Lru.antt =====
-- Examples of internal/lru and internal/poller.
use native.Mathlib.Decide.{ℕ_discrete}
use pkgsite.Prelude.{ℕ, [], ◌∷◌, some, ◌≡◌, refl, arith}
use pkgsite.Lru.{Cache, find, get, put}
use pkgsite.Lru.Valid.{IsValid}
use pkgsite.Lru.Recency.{Holds}
use pkgsite.Lru.Refines.Methods.{get-Holds, put-Holds}

abbrev empty : Cache ℕ ℕ
empty = record { size = 2; entries = []; tick = 0 }

-- Full: 7 was used before 8.
abbrev full : Cache ℕ ℕ
full = record {
  size = 2;
  entries =
      record { key = 8; last_used = 2; value = 80 }
      ∷ record { key = 7; last_used = 1; value = 70 }
      ∷ [];
  tick = 2;
}

full-IsValid : IsValid ℕ_discrete full
unfolding find ℕ_discrete
full-IsValid = record {
  positive = omega arith;
  bounded = omega arith;
  unique = (refl, (refl, tt));
  used = (omega arith, (omega arith, tt));
}

full-Holds : Holds ℕ_discrete full ((8, 80) ∷ (7, 70) ∷ [])
unfolding find ℕ_discrete
full-Holds = record {
  valid = full-IsValid;
  order = full.entries;
  descending = (omega arith, tt);
  unique = (refl, (refl, tt));
  same = λ q. refl;
  count = refl;
  items = refl;
}

get-Holds_example :
    ((get ℕ_discrete full 7).0 ≡ some 70)
    × Holds ℕ_discrete (get ℕ_discrete full 7).1 ((7, 70) ∷ (8, 80) ∷ [])
unfolding ℕ_discrete
get-Holds_example = get-Holds ℕ_discrete full ((8, 80) ∷ (7, 70) ∷ []) full-Holds (omega arith) 7

put-Holds_example :
    (c : Cache ℕ ℕ) × (put ℕ_discrete 0 full 9 90 ≡ some c)
    × Holds ℕ_discrete c ((9, 90) ∷ (8, 80) ∷ [])
unfolding ℕ_discrete
put-Holds_example =
    put-Holds ℕ_discrete full ((8, 80) ∷ (7, 70) ∷ []) full-Holds (omega arith) 0 9 90
