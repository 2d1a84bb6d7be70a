-- ===== src/Requeue/Limits.antt =====
-- The rows that are returned: as many from the front as the limit on large modules allows.
use pkgsite.Prelude.{ℕ, suc, ◌+◌, ◌≡◌, ◌≤◌, ◌<◌, ◌⊎◌, List, [], ◌∷◌, ◌++◌, if◌then◌else◌}
use pkgsite.Requeue.{ModuleVersionState, is_large_or_zero}

-- How many are large, or have the status zero.
abbrev pub count_large : List ModuleVersionState → ℕ
count_large [] = 0
count_large (m ∷ ms) = (if is_large_or_zero m then 1 else 0) + count_large ms

-- The first list is the longest front of the rows with a count within the limit.
abbrev pub IsLongest : ℕ → ℕ → List ModuleVersionState → List ModuleVersionState → Type 0
IsLongest limit n front rows =
    (n + count_large front ≤ limit)
    × ((front ≡ rows)
        ⊎ ((m : ModuleVersionState) × (rest : List ModuleVersionState) × (rows ≡ front ++ m ∷ rest)
            × (limit < n + count_large (front ++ m ∷ []))))

-- The count with one more row.
abbrev next_count : ℕ → ModuleVersionState → ℕ
next_count n m = if is_large_or_zero m then suc n else n
