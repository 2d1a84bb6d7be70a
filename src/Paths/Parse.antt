-- ===== src/Paths/Parse.antt =====
-- `Modver.String` and `ParseModver` of internal/discovery.go.
use pkgsite.Prelude.{
  ℕ, ◌+◌, ◌<◌, List, [], ◌∷◌, ◌++◌, Text, Option, none, some, ◌≡◌, ◌↔◌, refl, arith, count_byte,
  split, push_head, length,
}
use pkgsite.Paths.{Modver, show_modver, parse_modver}

split_none : (s : Text) (b : ℕ) → count_byte s b ≡ 0 → split s b ≡ s ∷ []
unfolding split count_byte
split_none [] b h = refl
split_none (c ∷ s) b h = ground (arith, split_none s b)

split_append :
    (s t : Text) (b : ℕ)
    → count_byte s b ≡ 0
    → count_byte t b ≡ 0
    → split (s ++ b ∷ t) b ≡ s ∷ t ∷ []
unfolding split count_byte
split_append [] t b h k = ground (arith, split_none t b k)
split_append (c ∷ s) t b h k = ground (arith, split_append s t b)

-- A module path and a version without an @ survive printing and parsing.
pub parse_modver-show_modver :
    (mv : Modver)
    → count_byte mv.path b'@' ≡ 0
    → count_byte mv.version b'@' ≡ 0
    → parse_modver (show_modver mv) ≡ some mv
unfolding parse_modver show_modver
parse_modver-show_modver mv h k = rw (parse_modver, split_append mv.path mv.version b'@' h k) refl

length-push_head : (c : ℕ) (ps : List Text) → 0 < length ps → length (push_head c ps) ≡ length ps
length-push_head c [] h = ground arith
length-push_head c (p ∷ ps) h = refl

split-length : (s : Text) (b : ℕ) → length (split s b) ≡ count_byte s b + 1
unfolding split count_byte
split-length [] b = omega arith
split-length (c ∷ s) b = ground (arith, split-length s b, length-push_head c (split s b))

abbrev pair_of : List Text → Option Modver
pair_of [] = none
pair_of (p ∷ []) = none
pair_of (p ∷ v ∷ []) = some (record { path = p; version = v })
pair_of (p ∷ v ∷ w ∷ ps) = none

pair_of-none : (ps : List Text) → (pair_of ps ≡ none) ↔ (¬ (length ps ≡ 2))
pair_of-none [] = ground arith
pair_of-none (p ∷ []) = ground arith
pair_of-none (p ∷ v ∷ []) = ground arith
pair_of-none (p ∷ v ∷ w ∷ ps) = ground arith

parse_modver-pair_of : (s : Text) → parse_modver s ≡ pair_of (split s b'@')
unfolding parse_modver
parse_modver-pair_of s = go (split s b'@') refl
  where
    go : (ps : List Text) → split s b'@' ≡ ps → parse_modver s ≡ pair_of ps
    go [] e = rw (parse_modver, e) refl
    go (p ∷ []) e = rw (parse_modver, e) refl
    go (p ∷ v ∷ []) e = rw (parse_modver, e) refl
    go (p ∷ v ∷ w ∷ ps) e = rw (parse_modver, e) refl

-- `ParseModver` fails just on a string that has not exactly one @.
pub parse_modver-none : (s : Text) → (parse_modver s ≡ none) ↔ (¬ (count_byte s b'@' ≡ 1))
parse_modver-none s =
    let count = split-length s b'@' in
    let fails = pair_of-none (split s b'@') in
    rw (parse_modver-pair_of s)
      ((λ h k. fails.0 h (omega arith)), λ h. fails.1 λ k. h (omega arith))
