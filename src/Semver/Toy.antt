-- ===== src/Semver/Toy.antt =====
-- A semver with the laws, for examples: "v1.2.3" has the rank 123, and what follows a dash is the
-- prerelease.
use pkgsite.Prelude.{
  ℕ, ◌+◌, ◌*◌, ◌-◌, [], ◌∷◌, ◌++◌, Bool, Text, arith, codes, is_digit, has_prefix, cut,
  if◌then◌else◌, compare,
}
use pkgsite.Semver.Laws.{Semver, IsOrdered}

abbrev digits_value : ℕ → Text → ℕ
unfolding is_digit
digits_value n [] = n
digits_value n (c ∷ s) = digits_value (if is_digit c then n * 10 + (c - b'0') else n) s

unfoldable pub rank : Text → ℕ
unfolding is_digit cut
rank v = digits_value 0 (cut v b'-').0

abbrev suffix_from_dash : Text × Text × Bool → Text
suffix_from_dash (p, s, found) = if found then b'-' ∷ s else []

abbrev up_to_minor : Text → Text
up_to_minor v = let c = cut v b'.' in c.0 ++ b'.' ∷ (cut c.1 b'.').0

abbrev pub toy : Semver
toy = record {
  is_valid = λ v. has_prefix v (codes "v");
  prerelease = λ v. suffix_from_dash (cut v b'-');
  canonical = λ v. v;
  major_minor = up_to_minor;
  cmp = λ v w. compare (rank v) (rank w);
}

pub toy-IsOrdered : IsOrdered toy
toy-IsOrdered = record { cmp_swap = λ v w. ground arith; cmp_trans = λ u v w h k. ground arith }
