-- ===== src/Vuln/Compact.antt =====
-- `sortIDs` and `slicesCompact` of internal/vuln/client.go.
pub mod Dedup
use pkgsite.Prelude.{
  ℕ, zero, suc, ◌+◌, ◌-◌, Bool, true, false, List, [], ◌∷◌, Text, text_eq, length, take, ltb, ◌==◌,
  if◌then◌else◌,
}

-- s > t on strings, by bytes.
unfoldable pub text_gt : Text → Text → Bool
text_gt [] t = false
text_gt (c ∷ s) [] = true
text_gt (c ∷ s) (d ∷ t) = if c == d then text_gt s t else ltb d c

-- `sort.Slice` by `>`. Equal strings are the same value, so every sort gives the same slice.
unfoldable pub insert_id : Text → List Text → List Text
unfolding text_gt
insert_id x [] = x ∷ []
insert_id x (y ∷ ys) = if text_gt y x then y ∷ insert_id x ys else x ∷ y ∷ ys

unfoldable pub sort_ids : List Text → List Text
unfolding insert_id
sort_ids [] = []
sort_ids (x ∷ xs) = insert_id x (sort_ids xs)

-- A read and a write of a slice; the loop below keeps its indices in range.
abbrev pub at : List Text → ℕ → Text
at [] i = []
at (x ∷ xs) zero = x
at (x ∷ xs) (suc i) = at xs i

abbrev pub write : List Text → ℕ → Text → List Text
write [] i v = []
write (x ∷ xs) zero v = v ∷ xs
write (x ∷ xs) (suc i) v = x ∷ write xs i v

-- One round of `slicesCompact` at k: the slice and the variable i.
unfoldable pub compact_step : ℕ → List Text × ℕ → List Text × ℕ
unfolding text_eq
compact_step k (s, i) =
    if text_eq (at s k) (at s (k - 1))
    then (s, i)
    else if i == k
    then (s, i + 1)
    else (write s i (at s k), i + 1)

-- The loop; the first argument counts the rounds left.
unfoldable pub compact_loop : ℕ → ℕ → List Text × ℕ → List Text × ℕ
unfolding compact_step
compact_loop zero k st = st
compact_loop (suc n) k st = compact_loop n (k + 1) (compact_step k st)

unfoldable pub slices_compact : List Text → List Text
unfolding compact_loop
slices_compact s =
    if ltb (length s) 2 then s else (let (t, i) = compact_loop (length s - 1) 1 (s, 1) in take i t)
