-- ===== src/Version/Sorting.antt =====
-- `ForSorting` of internal/version/version.go: the loop over the bytes of a version, with the
-- variables that its closure `addPart` shares.
use pkgsite.Prelude.{
  ℕ, zero, suc, ◌+◌, ◌-◌, ◌/◌, ◌%◌, Bool, true, false, not, [], ◌∷◌, ◌++◌, Text, Option, none, some,
  is_digit, length, take, drop, ltb, ◌==◌, if◌then◌else◌,
}

abbrev pub replicate : ℕ → ℕ → Text
replicate zero c = []
replicate (suc n) c = c ∷ replicate n c

-- In Go `n--` makes 0 into -1, for which, as for 0, neither the loop nor the `if` appends anything.
unfoldable pub append_numeric_prefix : Text → ℕ → Text
append_numeric_prefix dst n =
    let m = n - 1 in
    let dst' = dst ++ replicate (m / 26) b'z' in
    if ltb 0 (m % 26) then dst' ++ (b'a' + m % 26 - 1) ∷ [] else dst'

pub record SortState : Type 0 where
  pub bytes : Text
  pub prerelease : Bool
  pub nondigit : Bool
  pub start : ℕ

-- `addPart(end)`.
unfoldable pub add_part : Text → ℕ → SortState → SortState
unfolding append_numeric_prefix
add_part version end s =
    let comma = if ltb 0 (length s.bytes) then s.bytes ++ b',' ∷ [] else s.bytes in
    let marked =
      if s.nondigit then comma ++ b'~' ∷ [] else append_numeric_prefix comma (end - s.start) in
    record s {
      bytes = marked ++ take (end - s.start) (drop s.start version);
      start = end + 1;
      nondigit = false;
    }

-- One round of the loop on the byte c at position p; `none` for the `break`.
unfoldable pub sort_step : Text → ℕ → ℕ → SortState → Option SortState
unfolding add_part is_digit
sort_step version c p s =
    if c == b'.'
    then some (add_part version p s)
    else if c == b'-'
    then (if not s.prerelease
        then some (add_part version p (record s { prerelease = true }))
        else some (record s { nondigit = true }))
    else if c == b'+'
    then none
    else if not (is_digit c)
    then some (record s { nondigit = true })
    else some s

-- The loop, and what follows it: the rest of the version, the position p of its first byte.
unfoldable pub sort_loop : Text → Text → ℕ → SortState → SortState × ℕ
unfolding sort_step
sort_loop version [] p s = (s, p)
sort_loop version (c ∷ cs) p s = elim (sort_step version c p s) [
  | none ↦ (s, p)
  | some s' ↦ sort_loop version cs (p + 1) s'
]

unfoldable pub finish_sorting : Text → SortState × ℕ → Text
unfolding add_part
finish_sorting version (s, last) =
    let s' = if ltb s.start last then add_part version last s else s in
    if not s'.prerelease then s'.bytes ++ b'~' ∷ [] else s'.bytes

-- The slice `version[start:]` of an empty version panics.
unfoldable pub for_sorting : Text → Option Text
unfolding sort_loop finish_sorting
for_sorting [] = none
for_sorting (v ∷ rest) = some (
    finish_sorting (v ∷ rest) (
      sort_loop (v ∷ rest) rest 1
        (record { bytes = []; prerelease = false; nondigit = false; start = 1 })))
