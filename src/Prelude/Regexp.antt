-- ===== src/Prelude/Regexp.antt =====
-- Go's regular expressions between `^` and `$`, as far as the program uses them, and a matcher by
-- derivatives. `chars p` is a class of bytes, `times n r` is `r{n}`, `plus r` is `r+`.
use pkgsite.Prelude.{
  ℕ, zero, suc, Bool, true, false, ◌&&◌, ◌||◌, [], ◌∷◌, Text, ◌==◌, if◌then◌else◌,
}

pub data Regexp : Type 0 where
  fail : Regexp
  empty : Regexp
  chars : (ℕ → Bool) → Regexp
  seq : Regexp → Regexp → Regexp
  alt : Regexp → Regexp → Regexp
  star : Regexp → Regexp

abbrev pub literal : Text → Regexp
literal [] = empty
literal (c ∷ s) = seq (chars (λ d. d == c)) (literal s)

abbrev pub times : ℕ → Regexp → Regexp
times zero r = empty
times (suc n) r = seq r (times n r)

abbrev pub plus : Regexp → Regexp
plus r = seq r (star r)

unfoldable pub nullable : Regexp → Bool
nullable fail = false
nullable empty = true
nullable (chars p) = false
nullable (seq r s) = nullable r && nullable s
nullable (alt r s) = nullable r || nullable s
nullable (star r) = true

-- `seq` and `alt` without the branches that cannot match.
abbrev pub seq_of : Regexp → Regexp → Regexp
seq_of fail s = fail
seq_of empty s = s
seq_of r s = seq r s

abbrev pub alt_of : Regexp → Regexp → Regexp
alt_of fail s = s
alt_of r fail = r
alt_of r s = alt r s

unfoldable pub deriv : ℕ → Regexp → Regexp
unfolding nullable
deriv c fail = fail
deriv c empty = fail
deriv c (chars p) = if p c then empty else fail
deriv c (seq r s) =
    let first = seq_of (deriv c r) s in
    let second = deriv c s in if nullable r then alt_of first second else first
deriv c (alt r s) = alt_of (deriv c r) (deriv c s)
deriv c (star r) = seq_of (deriv c r) (star r)

-- `MatchString` of the whole text.
unfoldable pub matches : Regexp → Text → Bool
unfolding deriv
matches r [] = nullable r
matches r (c ∷ s) = matches (deriv c r) s
